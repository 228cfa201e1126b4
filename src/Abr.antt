-- ===== src/Abr.antt =====
-- abr.c: the binary search tree of neighbours, `NEIGHBORS` and `POTENTIAL`. A null pointer is
-- `leaf`; a function that changes nodes in place returns the tree that they make.
pub mod Order
pub mod Lookup
pub mod Listing
pub mod Shape
use mathlib.Core.Option
use projet_reseau.Prelude.{
  ℕ, ◌+◌, ◌-◌, List, [], ◌∷◌, ◌++◌, Option, none, some, lt, eq, gt, Bool, true, false, ltb,
  if◌then◌else◌,
}
use projet_reseau.Neighbor.{Addr, Neighbor, Ident, MessageH, compare_n, zero_neighbor, zero_ident}

pub data Tree : Type 0 where
  leaf : Tree
  node : Neighbor → Ident → Tree → Tree → Tree

abbrev pub is_node : Tree → Bool
is_node leaf = false
is_node (node key val left right) = true

-- The parameter `mem` says whether the allocations of the call succeed; otherwise the result is
-- null.
unfoldable pub init : Bool → Option Neighbor → Option Ident → Tree → Tree → Tree
init mem key val left right =
    if mem
    then node (elim key [ none ↦ zero_neighbor | some k ↦ k ])
        (elim val [ none ↦ zero_ident | some v ↦ v ]) left right
    else leaf

-- `t->val` of a neighbour that is there already: the identity stays.
abbrev pub refresh : Ident → Option Ident → Ident
refresh old none = old
refresh old (some val) = record old {
  last_hello = val.last_hello;
  last_hello_long = val.last_hello_long;
}

-- The result is 1 for a new node, 0 where there is no memory for it, 2 for an update. The test for
-- a null child stands here as the clause for `leaf`.
unfoldable pub add_neighbor_aux : Bool → Tree → Neighbor → Option Ident → Tree × ℕ
unfolding init
add_neighbor_aux mem leaf key val =
    let t = init mem (some key) val leaf leaf in (t, if is_node t then 1 else 0)
add_neighbor_aux mem (node k v left right) key val = elim (compare_n k.addr key.addr) [
  | gt ↦ let (l, res) = add_neighbor_aux mem left key val in (node k v l right, res)
  | lt ↦ let (r, res) = add_neighbor_aux mem right key val in (node k v left r, res)
  | eq ↦ (node k (refresh v val) left right, 2)
]

-- Takes `POTENTIAL`, and returns it with the result of the call.
unfoldable pub add_potential : Bool → Tree → Neighbor → Option Ident → Tree × ℕ
unfolding add_neighbor_aux init
add_potential mem potential key val = add_neighbor_aux mem potential (record key { msg = none }) val

-- The buffer that `add_neighbor` allocates; what `malloc` leaves in its body is a parameter.
abbrev pub fresh_message : List ℕ → MessageH
fresh_message junk = record { magic = 93; version = 2; body_length = 0; body = junk }

-- Takes `NEIGHBORS`. The parameter `buffer` is what `malloc` returns for `key->msg`.
unfoldable pub add_neighbor : Bool → Option (List ℕ) → Tree → Neighbor → Option Ident → Tree × ℕ
unfolding add_neighbor_aux init
add_neighbor mem buffer neighbors key val =
    add_neighbor_aux mem neighbors (record key { msg = Option.map fresh_message buffer }) val

unfoldable pub get_ident : Tree → Addr → Option Ident
get_ident leaf key = none
get_ident (node k v left right) key = elim (compare_n k.addr key) [
  | eq ↦ some v
  | gt ↦ get_ident left key
  | lt ↦ get_ident right key
]

-- The tests on a node. `now` is what `get_seconds` returns; the clock does not run backwards from
-- the times of the last hellos, so that the differences of `int` are those of ℕ.
unfoldable pub issymmetrical : ℕ → Ident → Bool
issymmetrical now val = ltb (now - val.last_hello_long) 120

unfoldable pub is_old : ℕ → Ident → Bool
is_old now val = ltb 120 (now - val.last_hello)

-- The keys that `find_by` visits, in its order; it makes an entry of each (see Flood.antt).
unfoldable pub find_by_aux : Tree → (Ident → Bool) → List Addr
find_by_aux leaf func = []
find_by_aux (node k v left right) func =
    find_by_aux left func ++ ((if func v then k.addr ∷ [] else []) ++ find_by_aux right func)

unfoldable pub number_of_neighbors : Tree → ℕ
number_of_neighbors leaf = 0
number_of_neighbors (node k v left right) =
    (1 + number_of_neighbors left) + number_of_neighbors right

-- The node that `maxUnder` points to, as its key and value; none for the empty tree.
unfoldable pub max_under : Tree → Option (Neighbor × Ident)
max_under leaf = none
max_under (node k v left leaf) = some (k, v)
max_under (node k v left (node rk rv rl rr)) = max_under (node rk rv rl rr)

-- Takes the fields of `t` and of `t->left`, which is not null where the function is called. The
-- result is the node that it unlinks, as its key and value, and what becomes of `t`.
unfoldable pub remove_min :
    Neighbor → Ident → Neighbor → Ident → Tree → Tree → Tree → Neighbor × Ident × Tree
remove_min k v lk lv leaf lr right = (lk, lv, node k v lr right)
remove_min k v lk lv (node llk llv lll llr) lr right =
    let (mk, mv, t) = remove_min lk lv llk llv lll llr lr in (mk, mv, node k v t right)

-- What takes the place of a removed node with the children `l` and `r`.
unfoldable pub join : Tree → Tree → Tree
unfolding remove_min
join l leaf = l
join l (node rk rv leaf rr) = node rk rv l rr
join l (node rk rv (node k v ll lr) rr) =
    let (mk, mv, t) = remove_min rk rv k v ll lr rr in node mk mv l t

unfoldable pub remove_neighbor_aux : Addr → Tree → Tree
unfolding join
remove_neighbor_aux key leaf = leaf
remove_neighbor_aux key (node k v left right) = elim (compare_n k.addr key) [
  | eq ↦ join left right
  | gt ↦ node k v (remove_neighbor_aux key left) right
  | lt ↦ node k v left (remove_neighbor_aux key right)
]

-- `remove_neighbor` and `remove_potential`, on the tree that each changes; both return 1.
unfoldable pub remove_neighbor : Addr → Tree → Tree
unfolding remove_neighbor_aux
remove_neighbor key leaf = leaf
remove_neighbor key (node k v left right) = remove_neighbor_aux key (node k v left right)
