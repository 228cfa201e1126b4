-- ===== src/Abr/Listing.antt =====
-- What `find_by` lists: the keys whose value passes the test, in the order of the keys.
use projet_reseau.Prelude.{
  ◌≡◌, refl, List, [], ◌∷◌, ◌++◌, none, some, lt, Bool, false, arith, ◌||◌, All as Each,
  if◌then◌else◌, Bool-cases, inl, inr,
}
use projet_reseau.Neighbor.{Addr, Ident, compare_n, same}
use projet_reseau.Neighbor.Order.{compare_n-eq, compare_n-gt, compare_n_trans}
use projet_reseau.Abr.{Tree, leaf, node, get_ident, find_by_aux}
use projet_reseau.Abr.Order.{All, All-imp, Below, Above, IsOrdered, ◌≺◌}
use projet_reseau.Abr.Lookup.{get_ident-Below, get_ident-Above}

-- The keys of a list grow strictly.
abbrev pub IsSorted : List Addr → Type 0
IsSorted [] = Unit
IsSorted (a ∷ as') = Each (λ x. a ≺ x) as' × IsSorted as'

unfoldable pub contains : Addr → List Addr → Bool
contains q [] = false
contains q (a ∷ as') = same a q || contains q as'

contains-append :
    (q : Addr) (xs ys : List Addr) → contains q (xs ++ ys) ≡ (contains q xs || contains q ys)
unfolding contains
contains-append q [] ys = refl
contains-append q (x ∷ xs) ys = ground (arith, contains-append q xs ys)

Each-append {μ} :
    (P : Addr → Type μ) (xs ys : List Addr) → Each P xs → Each P ys → Each P (xs ++ ys)
Each-append P [] ys p q = q
Each-append P (x ∷ xs) ys p q = (p.0, Each-append P xs ys p.1 q)

Each-imp {μ ν} :
    {P : Addr → Type μ} {Q : Addr → Type ν}
    → ((k : Addr) → P k → Q k)
    → (xs : List Addr) → Each P xs
    → Each Q xs
Each-imp f [] a = tt
Each-imp f (x ∷ xs) a = (f x a.0, Each-imp f xs a.1)

pub Each-find {μ} :
    (P : Addr → Type μ) (t : Tree) (func : Ident → Bool)
    → All (λ k. P k.addr) t
    → Each P (find_by_aux t func)
unfolding find_by_aux
Each-find P leaf func a = tt
Each-find P (node k v l r) func (p, al, ar) =
    let below = Each-find P l func al in
    let above = Each-find P r func ar in
    Each-append P _ _ below
      (elim (Bool-cases (func v)) [ inl e ↦ rw e (p, above) | inr e ↦ rw e above ])

get_ident-under : (t : Tree) (k q : Addr) → Below k t → compare_n k q ≡ lt → get_ident t q ≡ none
get_ident-under t k q b h =
    get_ident-Below t q (All-imp (λ x c. compare_n_trans x.addr k q c h) t b)

get_ident-over : (t : Tree) (k q : Addr) → Above k t → compare_n q k ≡ lt → get_ident t q ≡ none
get_ident-over t k q b h = get_ident-Above t q (All-imp (λ x c. compare_n_trans q k x.addr h c) t b)

-- `find_by` on a search tree lists a key exactly if the tree holds it and its value passes the
-- test.
pub contains-find_by :
    (t : Tree) (func : Ident → Bool) (q : Addr)
    → IsOrdered t
    → contains q (find_by_aux t func) ≡ (elim (get_ident t q) [ none ↦ false | some v ↦ func v ])
unfolding contains get_ident find_by_aux
contains-find_by leaf func q s = refl
contains-find_by (node k v l r) func q s = ground (
  arith,
  contains-append q (find_by_aux l func)
      ((if func v then k.addr ∷ [] else []) ++ find_by_aux r func),
  contains-find_by l func q s.2,
  contains-find_by r func q s.3,
  compare_n-eq k.addr q,
  compare_n-gt k.addr q,
  get_ident-Below l q,
  get_ident-Above r q,
  get_ident-under l k.addr q s.0,
  get_ident-over r k.addr q s.1,
)

Sorted-append :
    (xs ys : List Addr) (k : Addr)
    → IsSorted xs
    → Each (λ x. x ≺ k) xs
    → IsSorted ys
    → Each (λ y. k ≺ y) ys
    → IsSorted (xs ++ ys)
Sorted-append [] ys k s b t a = t
Sorted-append (x ∷ xs) ys k s b t a = (
  Each-append (λ y. x ≺ y) xs ys s.0 (Each-imp (λ y h. compare_n_trans x k y b.0 h) ys a),
  Sorted-append xs ys k s.1 b.1 t a,
)

Sorted-append_node :
    (xs ys : List Addr) (k : Addr)
    → IsSorted xs
    → Each (λ x. x ≺ k) xs
    → IsSorted ys
    → Each (λ y. k ≺ y) ys
    → IsSorted (xs ++ (k ∷ ys))
Sorted-append_node [] ys k s b t a = (a, t)
Sorted-append_node (x ∷ xs) ys k s b t a = (
  Each-append (λ y. x ≺ y) xs (k ∷ ys) s.0
      (b.0, Each-imp (λ y h. compare_n_trans x k y b.0 h) ys a),
  Sorted-append_node xs ys k s.1 b.1 t a,
)

-- The list of `find_by` on a search tree grows strictly, so that no neighbour is listed twice.
pub find_by-IsSorted :
    (t : Tree) (func : Ident → Bool) → IsOrdered t → IsSorted (find_by_aux t func)
unfolding find_by_aux
find_by-IsSorted leaf func s = tt
find_by-IsSorted (node k v l r) func (b, a, lo, ro) =
    let below = Each-find (λ x. x ≺ k.addr) l func b in
    let above = Each-find (λ x. k.addr ≺ x) r func a in
    let sl = find_by-IsSorted l func lo in
    let sr = find_by-IsSorted r func ro in
    elim (Bool-cases (func v)) [
      | inl e ↦ rw e (Sorted-append_node _ _ k.addr sl below sr above)
      | inr e ↦ rw e (Sorted-append _ _ k.addr sl below sr above)
    ]
