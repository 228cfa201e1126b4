-- ===== src/Genlist.antt =====
-- genlist.c: the generic list. The chain from `first` is the list `entries`; `last` is its last
-- entry, null for the empty chain, and so is not kept. Nothing reads `content_len`.
pub mod Counted
pub mod Search
use projet_reseau.Prelude.{
  ℕ, ◌+◌, ◌-◌, ◌%◌, ◌^◌, List, [], ◌∷◌, ◌++◌, Option, none, some, Ordering, lt, eq, gt, Bool, true,
  false, if◌then◌else◌, ltb, is_eq,
}

-- The number of values of a `size_t`.
abbrev pub size_mod : ℕ
size_mod = 2 ^ 64

-- `struct list`. The sign of what `compare_f` returns is an `Ordering`.
pub record GenList {ℓ} (A : Type ℓ) : Type ℓ where
  pub length : ℕ
  pub entries : List A
  pub compare_f : A → A → Ordering

-- `this->length++` and `this->length--` on a `size_t`.
abbrev pub incremented : ℕ → ℕ
incremented n = (n + 1) % size_mod

abbrev pub decremented : ℕ → ℕ
decremented n = (n + size_mod - 1) % size_mod

module _ {ℓ} {A : Type ℓ} where
  unfoldable pub init_list : (A → A → Ordering) → GenList A
  init_list comp = record { length = 0; entries = []; compare_f = comp }

  -- The parameter `mem` of the functions that add says whether `init_entry` has memory.
  unfoldable pub add_last : Bool → GenList A → A → GenList A × ℕ
  add_last false this elem = (this, 0)
  add_last true this elem =
      (record this { length = incremented this.length; entries = this.entries ++ (elem ∷ []) }, 1)

  -- The chain with `elem` before the first entry that is greater; none where an entry that is
  -- equal comes first. The first entry and those behind it are treated alike.
  unfoldable pub insert_entry : (A → A → Ordering) → List A → A → Option (List A)
  insert_entry comp [] elem = some (elem ∷ [])
  insert_entry comp (x ∷ xs) elem = elim (comp x elem) [
    | gt ↦ some (elem ∷ x ∷ xs)
    | eq ↦ none
    | lt ↦ elim (insert_entry comp xs elem) [ none ↦ none | some ys ↦ some (x ∷ ys) ]
  ]

  unfoldable pub add_elem : Bool → GenList A → A → GenList A × ℕ
  unfolding insert_entry
  add_elem mem this elem = elim (insert_entry this.compare_f this.entries elem) [
    | none ↦ (this, 2)
    | some chain ↦
        if mem
        then (record this { length = incremented this.length; entries = chain }, 1)
        else (this, 0)
  ]

  abbrev remove_front : GenList A → List A → GenList A × Option A
  remove_front this [] = (this, none)
  remove_front this (x ∷ xs) =
      (record this { length = decremented this.length; entries = xs }, some x)

  unfoldable pub remove_first : GenList A → GenList A × Option A
  remove_first this = remove_front this this.entries

  -- The loop of `remove_elem` behind an entry that does not match: what it leaves of the chain, the
  -- content that it unlinks and whether this was the last of the chain.
  unfoldable pub unlink : (A → A → Ordering) → List A → A → Option (List A × A × Bool)
  unlink comp [] elem = none
  unlink comp (x ∷ []) elem = if is_eq (comp x elem) then some ([], x, true) else none
  unlink comp (x ∷ y ∷ ys) elem =
      let rest = unlink comp (y ∷ ys) elem in
      if is_eq (comp x elem)
      then some (y ∷ ys, x, false)
      else elim rest [ none ↦ none | some (zs, z, last) ↦ some (x ∷ zs, z, last) ]

  abbrev remove_behind : GenList A → A → Option (List A × A × Bool) → GenList A × Option A
  remove_behind this x none = (this, none)
  remove_behind this x (some (zs, z, true)) =
      (record this { length = decremented this.length; entries = x ∷ zs }, some z)
  remove_behind this x (some (zs, z, false)) = (record this { entries = x ∷ zs }, some z)

  abbrev remove_at : GenList A → A → List A → GenList A × Option A
  remove_at this elem [] = (this, none)
  remove_at this elem (x ∷ xs) =
      if is_eq (this.compare_f x elem)
      then remove_front this (x ∷ xs)
      else remove_behind this x (unlink this.compare_f xs elem)

  -- The length is decremented only for the first and the last entry, as in the C code.
  unfoldable pub remove_elem : GenList A → A → GenList A × Option A
  unfolding unlink
  remove_elem this elem = remove_at this elem this.entries

  -- `max_t` is an `int` that is not negative.
  unfoldable pub add_limited : Bool → GenList A → A → ℕ → GenList A × Option A
  unfolding add_last remove_first
  add_limited mem this elem max_t =
      let added = (add_last mem this elem).0 in
      if ltb max_t added.length then remove_first added else (added, none)

  unfoldable pub find : (A → A → Ordering) → List A → A → Option A
  find comp [] elem = none
  find comp (x ∷ xs) elem = if is_eq (comp x elem) then some x else find comp xs elem

  unfoldable pub get : GenList A → A → Option A
  unfolding find
  get this elem = find this.compare_f this.entries elem

  unfoldable pub init_compare : GenList A → (A → A → Ordering) → GenList A
  init_compare this comp = record this { compare_f = comp }

  -- The loop of `free_list`, over the entries that are left; the contents go to `free_f`.
  unfoldable pub free_entries : GenList A → List A → GenList A
  free_entries this [] = this
  free_entries this (x ∷ xs) =
      free_entries (record this { length = decremented this.length; entries = xs }) xs

  unfoldable pub free_list : GenList A → GenList A
  unfolding free_entries
  free_list this = free_entries this this.entries
