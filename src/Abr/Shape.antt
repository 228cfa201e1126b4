-- ===== src/Abr/Shape.antt =====
-- abr.c, lines 255 to 282: `clean`, and the functions that look at the shape of a tree.
use projet_reseau.Prelude.{
  ℕ, zero, suc, ◌+◌, ◌^◌, ◌≤◌, ◌<◌, ◌≡◌, refl, sym, ◌∙◌, subst, List, [], ◌∷◌, ◌++◌, Option, none,
  some, Bool, true, false, ◌&&◌, ◌||◌, lt, arith, if◌then◌else◌, leb, is_gt, length, length-append,
}
use Prim.Native.Nat as Nat
use native.Mathlib.Nat.{pow-suc}
use projet_reseau.Prelude.Int.{ℤ, pos, negsuc, minus_one}
use projet_reseau.Neighbor.{Addr, Neighbor, Ident, compare_n}
use projet_reseau.Neighbor.Order.{compare_n-lt}
use projet_reseau.Abr.{Tree, leaf, node, is_node, number_of_neighbors}
use projet_reseau.Abr.Order.{IsOrdered, Below, Above}

-- The neighbours whose nodes, keys and values are freed, in the order of the calls; the buffer of a
-- neighbour is not freed. `clean` reads the fields of its argument: null is a fault.
unfoldable pub clean : Tree → Option (List Addr)
clean leaf = none
clean (node k v leaf leaf) = some (k.addr ∷ [])
clean (node k v (node lk lv ll lr) leaf) = elim (clean (node lk lv ll lr)) [
  | none ↦ none
  | some ls ↦ some (ls ++ (k.addr ∷ []))
]
clean (node k v leaf (node rk rv rl rr)) = elim (clean (node rk rv rl rr)) [
  | none ↦ none
  | some rs ↦ some (rs ++ (k.addr ∷ []))
]
clean (node k v (node lk lv ll lr) (node rk rv rl rr)) = elim (clean (node lk lv ll lr)) [
  | none ↦ none
  | some ls ↦ elim (clean (node rk rv rl rr)) [
    | none ↦ none
    | some rs ↦ some (ls ++ (rs ++ (k.addr ∷ [])))
  ]
]

-- `max` of util.c.
unfoldable pub max : ℤ → ℤ → ℤ
max (pos x) (pos y) = if leb x y then pos y else pos x
max (pos x) (negsuc y) = pos x
max (negsuc x) (pos y) = pos y
max (negsuc x) (negsuc y) = if leb y x then negsuc y else negsuc x

-- `1 + x`.
abbrev next : ℤ → ℤ
next (pos n) = pos (1 + n)
next (negsuc zero) = pos 0
next (negsuc (suc n)) = negsuc n

unfoldable pub depth : Tree → ℤ
unfolding max
depth leaf = minus_one
depth (node k v left right) = next (max (depth left) (depth right))

-- A child that stands alone has no children itself.
unfoldable pub is_balanced : Tree → Bool
is_balanced leaf = true
is_balanced (node k v leaf leaf) = true
is_balanced (node k v leaf (node rk rv rl rr)) =
    if is_node rr || is_node rl then false else (is_balanced leaf && is_balanced (node rk rv rl rr))
is_balanced (node k v (node lk lv ll lr) leaf) =
    if is_node lr || is_node ll then false else (is_balanced (node lk lv ll lr) && is_balanced leaf)
is_balanced (node k v (node lk lv ll lr) (node rk rv rl rr)) =
    is_balanced (node lk lv ll lr) && is_balanced (node rk rv rl rr)

-- The comparison of a node with a child; null is not compared.
abbrev pub wrong_left : Neighbor → Tree → Bool
wrong_left k leaf = false
wrong_left k (node lk lv ll lr) = elim (compare_n k.addr lk.addr) [ lt ↦ true | _ ↦ false ]

abbrev pub wrong_right : Neighbor → Tree → Bool
wrong_right k leaf = false
wrong_right k (node rk rv rl rr) = is_gt (compare_n k.addr rk.addr)

unfoldable pub check : Tree → Bool
check leaf = true
check (node k v left right) =
    if wrong_left k left || wrong_right k right then false else (check left && check right)

-- The depth of a tree with this many levels: one less.
abbrev pub of_levels : ℕ → ℤ
of_levels zero = minus_one
of_levels (suc n) = pos n

of_levels-injective : (m n : ℕ) → of_levels m ≡ of_levels n → m ≡ n
of_levels-injective zero zero h = refl
of_levels-injective zero (suc n) h = ground arith
of_levels-injective (suc m) zero h = ground arith
of_levels-injective (suc m) (suc n) h = ground arith

pow-le : (m n : ℕ) → m ≤ n → 2 ^ m ≤ 2 ^ n
pow-le zero zero h = omega arith
pow-le zero (suc n) h = omega (arith, pow-le zero n, pow-suc 2 n)
pow-le (suc m) (suc n) h = omega (arith, pow-le m n, pow-suc 2)
pow-le (suc m) zero h = absurd (omega arith)

height : Tree → ℕ
height leaf = 0
height (node k v l r) = suc (Nat.max (height l) (height r))

next-max : (a b : ℕ) → next (max (of_levels a) (of_levels b)) ≡ of_levels (suc (Nat.max a b))
unfolding max
next-max zero zero = refl
next-max zero (suc b) = ground arith
next-max (suc a) zero = ground arith
next-max (suc a) (suc b) = ground arith

depth-height : (t : Tree) → depth t ≡ of_levels (height t)
unfolding depth height
depth-height leaf = refl
depth-height (node k v l r) = rw (depth-height l, depth-height r) (next-max (height l) (height r))

number-height : (t : Tree) → number_of_neighbors t < 2 ^ height t
unfolding number_of_neighbors height
number-height leaf = omega arith
number-height (node k v l r) =
    let left = pow-le (height l) (Nat.max (height l) (height r)) (omega arith) in
    let right = pow-le (height r) (Nat.max (height l) (height r)) (omega arith) in
    omega (arith, number-height l, number-height r, left, right, pow-suc 2)

-- A tree of depth `d` has less than 2^(d + 1) neighbours, the empty tree of depth -1 included.
pub depth-number_of_neighbors :
    (t : Tree) (n : ℕ) → depth t ≡ of_levels n → number_of_neighbors t < 2 ^ n
depth-number_of_neighbors t n h =
    subst (λ m. number_of_neighbors t < 2 ^ m)
      (of_levels-injective (height t) n (sym (depth-height t) ∙ h)) (number-height t)

wrong_left-Below : (k : Neighbor) (l : Tree) → Below k.addr l → wrong_left k l ≡ false
wrong_left-Below k leaf b = refl
wrong_left-Below k (node lk lv ll lr) b = ground (arith, compare_n-lt lk.addr k.addr)

wrong_right-Above : (k : Neighbor) (r : Tree) → Above k.addr r → wrong_right k r ≡ false
wrong_right-Above k leaf a = refl
wrong_right-Above k (node rk rv rl rr) a = ground arith

-- `check` accepts every search tree.
pub check-IsOrdered : (t : Tree) → IsOrdered t → check t ≡ true
unfolding check
check-IsOrdered leaf s = refl
check-IsOrdered (node k v l r) s = ground (
  arith,
  check-IsOrdered l s.2,
  check-IsOrdered r s.3,
  wrong_left-Below k l s.0,
  wrong_right-Above k r s.1,
)

-- It compares a node with its children alone: whatever tree stands on the right of a left child
-- whose top is greater than the child, a node above the child is accepted.
pub check_local :
    (k a b : Neighbor) (v va vb : Ident)
    → compare_n a.addr k.addr ≡ lt
    → compare_n a.addr b.addr ≡ lt
    → check (node k v (node a va leaf (node b vb leaf leaf)) leaf) ≡ true
unfolding check
check_local k a b v va vb h j = ground (arith, compare_n-lt a.addr k.addr)

-- Every neighbour once, after those below it.
pub postorder : Tree → List Addr
postorder leaf = []
postorder (node k v l r) = postorder l ++ (postorder r ++ (k.addr ∷ []))

length-postorder : (t : Tree) → length (postorder t) ≡ number_of_neighbors t
unfolding postorder number_of_neighbors
length-postorder leaf = refl
length-postorder (node k v l r) = omega (
  arith,
  length-append (postorder l) (postorder r ++ (k.addr ∷ [])),
  length-append (postorder r) (k.addr ∷ []),
  length-postorder l,
  length-postorder r,
)

clean-postorder : (t : Tree) → clean t ≡ (if is_node t then some (postorder t) else none)
unfolding clean postorder
clean-postorder leaf = refl
clean-postorder (node k v leaf leaf) = refl
clean-postorder (node k v (node lk lv ll lr) leaf) = rw (clean-postorder (node lk lv ll lr), clean)
clean-postorder (node k v leaf (node rk rv rl rr)) = rw (clean-postorder (node rk rv rl rr), clean)
clean-postorder (node k v (node lk lv ll lr) (node rk rv rl rr)) =
    rw (clean-postorder (node lk lv ll lr), clean-postorder (node rk rv rl rr), clean)

-- `clean` frees every neighbour of a tree once, those below it before it, and faults on the empty
-- tree.
pub clean_lem :
    (t : Tree)
    → (clean t ≡ (if is_node t then some (postorder t) else none))
      × (length (postorder t) ≡ number_of_neighbors t)
clean_lem t = (clean-postorder t, length-postorder t)
