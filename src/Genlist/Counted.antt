-- ===== src/Genlist/Counted.antt =====
-- The field `length` against the chain, and the bound that `add_limited` keeps.
use projet_reseau.Prelude.{
  refl, eq, ℕ, ◌+◌, ◌≤◌, ◌<◌, ◌≡◌, ap, List, [], ◌∷◌, ◌++◌, Option, none, some, true, arith, length,
  length-append, Bool-cases, inl, inr, is_some, Ordering, leb, ltb,
}
use projet_reseau.Genlist.{
  GenList, size_mod, add_last, add_elem, insert_entry, remove_first, add_limited, find,
}

module _ {ℓ} {A : Type ℓ} where
  abbrev pub IsCounted : GenList A → Type 0
  IsCounted l = l.length ≡ length l.entries

  -- What a removal returns, in front of what it leaves.
  abbrev pub with_front : Option A → List A → List A
  with_front none xs = xs
  with_front (some x) xs = x ∷ xs

  add_last-IsCounted :
      (l : GenList A) (e : A)
      → IsCounted l
      → length l.entries + 1 < size_mod
      → IsCounted (add_last true l e).0
  unfolding add_last
  add_last-IsCounted l e h b = omega (arith, length-append l.entries (e ∷ []))

  abbrev Grows : List A → Option (List A) → Type 0
  Grows xs none = Unit
  Grows xs (some ys) = length ys ≡ length xs + 1

  insert-Grows : (comp : A → A → Ordering) (xs : List A) (e : A) → Grows xs (insert_entry comp xs e)
  unfolding insert_entry
  insert-Grows comp [] e = omega arith
  insert-Grows comp (x ∷ xs) e = ground (arith, insert-Grows comp xs e)

  add_elem-IsCounted :
      (l : GenList A) (e : A)
      → IsCounted l
      → length l.entries + 1 < size_mod
      → IsCounted (add_elem true l e).0
  unfolding add_elem
  add_elem-IsCounted l e h b = ground (arith, insert-Grows l.compare_f l.entries e)

  shift :
      (l : GenList A) (xs : List A) (max_t : ℕ)
      → l.entries ≡ xs
      → IsCounted l
      → length l.entries ≡ max_t + 1
      → max_t + 1 < size_mod
      → let (l', out) = remove_first l in
        IsCounted l'
        × (length l'.entries ≡ max_t)
        × (with_front out l'.entries ≡ l.entries)
        × (is_some out ≡ true)
  unfolding remove_first
  shift l [] max_t e c h b = absurd (omega (arith, ap length e))
  shift l (x ∷ xs) max_t e c h b = ground (arith, ap length e)

  -- Where there is memory, and the list is counted, within the bound, and the bound is small
  -- enough for its type: the list stays counted and within the bound, the newest entry comes last,
  -- and the oldest is taken out and returned exactly if the list was full.
  pub add_limited_lem :
      (l : GenList A) (e : A) (max_t : ℕ)
      → IsCounted l
      → length l.entries ≤ max_t
      → max_t + 1 < size_mod
      → let (l', out) = add_limited true l e max_t in
        IsCounted l'
        × (length l'.entries ≤ max_t)
        × (with_front out l'.entries ≡ l.entries ++ (e ∷ []))
        × (is_some out ≡ leb max_t (length l.entries))
  unfolding add_limited
  add_limited_lem l e max_t c h b =
      let grown = length-append l.entries (e ∷ []) in
      elim (Bool-cases (ltb max_t (add_last true l e).0.length)) [
        | inl full ↦
            rw full
              (ground (arith, grown, shift (add_last true l e).0 (l.entries ++ (e ∷ [])) max_t))
        | inr room ↦ rw room (ground (arith, grown))
      ]

  first_kept :
      (l : GenList A) (xs : List A) → l.entries ≡ xs → (remove_first l).0.compare_f ≡ l.compare_f
  unfolding remove_first
  first_kept l [] e = rw e
  first_kept l (x ∷ xs) e = rw e

  pub add_limited-compare_f :
      (l : GenList A) (e : A) (max_t : ℕ) → (add_limited true l e max_t).0.compare_f ≡ l.compare_f
  unfolding add_limited
  add_limited-compare_f l e max_t = elim (Bool-cases (ltb max_t (add_last true l e).0.length)) [
    | inl full ↦ rw full (first_kept (add_last true l e).0 (l.entries ++ (e ∷ [])) refl)
    | inr room ↦ rw room
  ]

  find-append :
      (comp : A → A → Ordering) (xs : List A) (e q : A)
      → comp e q ≡ eq
      → is_some (find comp (xs ++ (e ∷ [])) q) ≡ true
  unfolding find
  find-append comp [] e q h = rw h
  find-append comp (x ∷ xs) e q h = ground (arith, find-append comp xs e q h)

  newest_kept :
      (l : GenList A) (xs : List A) (e q : A)
      → l.entries ≡ xs ++ (e ∷ [])
      → 1 < length l.entries
      → l.compare_f e q ≡ eq
      → is_some (find l.compare_f (remove_first l).0.entries q) ≡ true
  unfolding remove_first
  newest_kept l [] e q c b h = absurd (omega (arith, ap length c))
  newest_kept l (x ∷ xs) e q c b h = rw c (find-append l.compare_f xs e q h)

  -- The newest entry is found, also where the oldest had to leave.
  pub find-add_limited :
      (l : GenList A) (e q : A) (max_t : ℕ)
      → IsCounted l
      → length l.entries ≤ max_t
      → 0 < max_t
      → max_t + 1 < size_mod
      → l.compare_f e q ≡ eq
      → is_some (find l.compare_f (add_limited true l e max_t).0.entries q) ≡ true
  unfolding add_limited
  find-add_limited l e q max_t c h p b m =
      let grown = length-append l.entries (e ∷ []) in
      elim (Bool-cases (ltb max_t (add_last true l e).0.length)) [
        | inl full ↦
            rw full (newest_kept (add_last true l e).0 l.entries e q refl (ground (arith, grown)) m)
        | inr room ↦ rw room (find-append l.compare_f l.entries e q m)
      ]
