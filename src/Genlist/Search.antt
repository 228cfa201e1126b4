-- ===== src/Genlist/Search.antt =====
-- `get` and `remove_elem`: which entry they find, and what becomes of the chain and its length.
use projet_reseau.Prelude.{
  ◌+◌, ◌≡◌, refl, ap, List, [], ◌∷◌, ◌++◌, Option, none, some, eq, Bool, false, arith, length,
  length-append, is_eq, if◌then◌else◌, Ordering,
}
use projet_reseau.Genlist.{GenList, remove_elem, unlink, find, get}
use projet_reseau.Genlist.Counted.{IsCounted}

module _ {ℓ} {A : Type ℓ} where
  -- The chain without its first match.
  unfoldable pub erase : (A → A → Ordering) → List A → A → List A
  erase comp [] elem = []
  erase comp (x ∷ xs) elem = if is_eq (comp x elem) then xs else x ∷ erase comp xs elem

  abbrev Unlinks : (A → A → Ordering) → List A → A → Option (List A × A × Bool) → Type ℓ
  Unlinks comp xs elem none = (find comp xs elem ≡ none) × (erase comp xs elem ≡ xs)
  Unlinks comp xs elem (some (zs, z, last)) =
      (find comp xs elem ≡ some z) × (erase comp xs elem ≡ zs)

  unlink-Unlinks :
      (comp : A → A → Ordering) (xs : List A) (elem : A)
      → Unlinks comp xs elem (unlink comp xs elem)
  unfolding unlink find erase
  unlink-Unlinks comp [] elem = (refl, refl)
  unlink-Unlinks comp (x ∷ []) elem = ground arith
  unlink-Unlinks comp (x ∷ y ∷ ys) elem = ground (arith, unlink-Unlinks comp (y ∷ ys) elem)

  chain_lem :
      (l : GenList A) (xs : List A) (elem : A)
      → l.entries ≡ xs
      → ((remove_elem l elem).0.entries ≡ erase l.compare_f l.entries elem)
        × ((remove_elem l elem).1 ≡ get l elem)
  unfolding remove_elem get erase
  chain_lem l [] elem e = ground arith
  chain_lem l (x ∷ xs) elem e = ground (arith, unlink-Unlinks l.compare_f xs elem)

  -- `remove_elem` unlinks the first entry that matches, and no other, and returns what `get`
  -- finds.
  pub remove_elem_lem :
      (l : GenList A) (elem : A)
      → ((remove_elem l elem).0.entries ≡ erase l.compare_f l.entries elem)
        × ((remove_elem l elem).1 ≡ get l elem)
  remove_elem_lem l elem = chain_lem l l.entries elem refl

  compare_kept :
      (l : GenList A) (xs : List A) (elem : A)
      → l.entries ≡ xs
      → (remove_elem l elem).0.compare_f ≡ l.compare_f
  unfolding remove_elem
  compare_kept l [] elem e = rw e
  compare_kept l (x ∷ xs) elem e = ground arith

  pub remove_elem-compare_f :
      (l : GenList A) (elem : A) → (remove_elem l elem).0.compare_f ≡ l.compare_f
  remove_elem-compare_f l elem = compare_kept l l.entries elem refl

  unlink_middle :
      (comp : A → A → Ordering) (xs : List A) (m y : A) (ys : List A) (elem : A)
      → find comp xs elem ≡ none
      → comp m elem ≡ eq
      → unlink comp (xs ++ (m ∷ y ∷ ys)) elem ≡ some (xs ++ (y ∷ ys), m, false)
  unfolding unlink find
  unlink_middle comp [] m y ys elem a h = ground arith
  unlink_middle comp (x ∷ []) m y ys elem a h = ground (arith, unlink_middle comp [] m y ys elem)
  unlink_middle comp (x ∷ x' ∷ xs) m y ys elem a h =
      ground (arith, unlink_middle comp (x' ∷ xs) m y ys elem)

  -- In a counted list, an entry between the first and the last that is the first to match is
  -- unlinked, and the field `length` keeps its value: it is then greater by one than the length of
  -- the chain.
  pub remove_elem-middle :
      (l : GenList A) (x : A) (xs : List A) (m y : A) (ys : List A) (elem : A)
      → IsCounted l
      → l.entries ≡ x ∷ (xs ++ (m ∷ y ∷ ys))
      → find l.compare_f (x ∷ xs) elem ≡ none
      → l.compare_f m elem ≡ eq
      → ((remove_elem l elem).1 ≡ some m)
        × ((remove_elem l elem).0.entries ≡ x ∷ (xs ++ (y ∷ ys)))
        × ((remove_elem l elem).0.length ≡ length (remove_elem l elem).0.entries + 1)
  unfolding remove_elem find
  remove_elem-middle l x xs m y ys elem c e a h = ground (
    arith,
    unlink_middle l.compare_f xs m y ys elem,
    ap length e,
    length-append xs (m ∷ y ∷ ys),
    length-append xs (y ∷ ys),
  )
