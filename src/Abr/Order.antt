-- ===== src/Abr/Order.antt =====
-- The search-tree invariant, and that the operations of abr.c keep it.
use projet_reseau.Prelude.{◌≡◌, Option, lt, Bool, true, false, arith}
use projet_reseau.Neighbor.{Addr, Neighbor, Ident, compare_n}
use projet_reseau.Neighbor.Order.{compare_n-gt, compare_n_trans}
use projet_reseau.Abr.{Tree, leaf, node, add_neighbor_aux, remove_min, join, remove_neighbor_aux}

infix 50 ◌≺◌
abbrev pub ◌≺◌ : Addr → Addr → Type 0
a ≺ b = compare_n a b ≡ lt

-- Every neighbour of the tree satisfies `P`.
abbrev pub All {μ} : (Neighbor → Type μ) → Tree → Type μ
All P leaf = Unit
All P (node k v l r) = P k × All P l × All P r

abbrev pub Below : Addr → Tree → Type 0
Below b t = All (λ k. k.addr ≺ b) t

abbrev pub Above : Addr → Tree → Type 0
Above b t = All (λ k. b ≺ k.addr) t

-- Keys grow from left to right.
abbrev pub IsOrdered : Tree → Type 0
IsOrdered leaf = Unit
IsOrdered (node k v l r) = Below k.addr l × Above k.addr r × IsOrdered l × IsOrdered r

pub All-imp {μ ν} :
    {P : Neighbor → Type μ} {Q : Neighbor → Type ν}
    → ((k : Neighbor) → P k → Q k)
    → (t : Tree) → All P t
    → All Q t
All-imp f leaf a = tt
All-imp f (node k v l r) (p, pl, pr) = (f k p, All-imp f l pl, All-imp f r pr)

pub All-add {μ} :
    (P : Neighbor → Type μ) (mem : Bool) (t : Tree) (key : Neighbor) (val : Option Ident)
    → P key
    → All P t
    → All P (add_neighbor_aux mem t key val).0
unfolding add_neighbor_aux
All-add P true leaf key val p a = (p, tt, tt)
All-add P false leaf key val p a = tt
All-add P mem (node k v l r) key val p a =
    ground (arith, All-add P mem l key val, All-add P mem r key val)

-- `add_neighbor_aux` keeps a search tree a search tree, whether or not there is memory for a new
-- node.
pub add-IsOrdered :
    (mem : Bool) (t : Tree) (key : Neighbor) (val : Option Ident)
    → IsOrdered t
    → IsOrdered (add_neighbor_aux mem t key val).0
unfolding add_neighbor_aux
add-IsOrdered true leaf key val s = (tt, tt, tt, tt)
add-IsOrdered false leaf key val s = tt
add-IsOrdered mem (node k v l r) key val s = ground (
  arith,
  add-IsOrdered mem l key val,
  add-IsOrdered mem r key val,
  All-add (λ x. x.addr ≺ k.addr) mem l key val,
  All-add (λ x. k.addr ≺ x.addr) mem r key val,
  compare_n-gt k.addr key.addr,
)

-- The unlinked node and what is left hold the keys of the tree.
pub All-remove_min {μ} :
    (P : Neighbor → Type μ) (k : Neighbor) (v : Ident) (lk : Neighbor) (lv : Ident) (ll lr r : Tree)
    → All P (node k v (node lk lv ll lr) r)
    → P (remove_min k v lk lv ll lr r).0 × All P (remove_min k v lk lv ll lr r).2
unfolding remove_min
All-remove_min P k v lk lv leaf lr r a = (a.1.0, (a.0, a.1.2, a.2))
All-remove_min P k v lk lv (node llk llv lll llr) lr r a =
    let (least, rest) = All-remove_min P lk lv llk llv lll llr lr a.1 in (least, (a.0, rest, a.2))

pub All-join {μ} : (P : Neighbor → Type μ) (l r : Tree) → All P l → All P r → All P (join l r)
unfolding join
All-join P l leaf a b = a
All-join P l (node rk rv leaf rr) a b = (b.0, a, b.2)
All-join P l (node rk rv (node k v ll lr) rr) a b =
    let (least, rest) = All-remove_min P rk rv k v ll lr rr b in (least, a, rest)

pub All-remove {μ} :
    (P : Neighbor → Type μ) (key : Addr) (t : Tree) → All P t → All P (remove_neighbor_aux key t)
unfolding remove_neighbor_aux
All-remove P key leaf a = tt
All-remove P key (node k v l r) a =
    ground (arith, All-remove P key l, All-remove P key r, All-join P l r)

-- `remove_min` unlinks the least key, and what is left is ordered.
pub remove_min-IsOrdered :
    (k : Neighbor) (v : Ident) (lk : Neighbor) (lv : Ident) (ll lr r : Tree)
    → IsOrdered (node k v (node lk lv ll lr) r)
    → Above (remove_min k v lk lv ll lr r).0.addr (remove_min k v lk lv ll lr r).2
      × IsOrdered (remove_min k v lk lv ll lr r).2
unfolding remove_min
remove_min-IsOrdered k v lk lv leaf lr r (b, a, (lb, la, lo, ro), ro') =
    ((b.0, la, All-imp (λ x h. compare_n_trans lk.addr k.addr x.addr b.0 h) r a), (b.2, a, ro, ro'))
remove_min-IsOrdered k v lk lv (node llk llv lll llr) lr r (b, a, lo, ro) =
    let (above, ordered) = remove_min-IsOrdered lk lv llk llv lll llr lr lo in
    let low = All-remove_min (λ x. x.addr ≺ k.addr) lk lv llk llv lll llr lr b in
    (
      (low.0, above, All-imp (λ x. compare_n_trans _ k.addr x.addr low.0) r a),
      (low.1, a, ordered, ro),
    )

pub join-IsOrdered :
    (k : Neighbor) (v : Ident) (l r : Tree) → IsOrdered (node k v l r) → IsOrdered (join l r)
unfolding join
join-IsOrdered k v l leaf s = s.2
join-IsOrdered k v l (node rk rv leaf rr) (b, a, lo, (rb, ra, _, ro)) =
    (All-imp (λ x h. compare_n_trans x.addr k.addr rk.addr h a.0) l b, ra, lo, ro)
join-IsOrdered k v l (node rk rv (node mk mv ll lr) rr) (b, a, lo, ro) =
    let (above, ordered) = remove_min-IsOrdered rk rv mk mv ll lr rr ro in
    let high = All-remove_min (λ x. k.addr ≺ x.addr) rk rv mk mv ll lr rr a in
    (All-imp (λ x h. compare_n_trans x.addr k.addr _ h high.0) l b, above, lo, ordered)

-- `remove_neighbor_aux` keeps a search tree a search tree.
pub remove-IsOrdered : (key : Addr) (t : Tree) → IsOrdered t → IsOrdered (remove_neighbor_aux key t)
unfolding remove_neighbor_aux
remove-IsOrdered key leaf s = tt
remove-IsOrdered key (node k v l r) s = ground (
  arith,
  remove-IsOrdered key l,
  remove-IsOrdered key r,
  join-IsOrdered k v l r s,
  All-remove (λ x. x.addr ≺ k.addr) key l,
  All-remove (λ x. k.addr ≺ x.addr) key r,
)
