-- ===== src/Abr/Lookup.antt =====
-- The trees as dictionaries: `get_ident` after `add_neighbor_aux` and `remove_neighbor_aux`.
use projet_reseau.Prelude.{
  ◌≡◌, refl, Option, none, some, true, false, arith, if◌then◌else◌, is_some,
}
use projet_reseau.Neighbor.{Addr, Neighbor, Ident, zero_ident, same}
use projet_reseau.Neighbor.Order.{compare_n-eq, compare_n-gt, compare_n-lt, compare_n_trans}
use projet_reseau.Abr.{
  Tree, leaf, node, add_neighbor_aux, get_ident, remove_min, join, remove_neighbor_aux,
}
use projet_reseau.Abr.Order.{All-imp, All-remove_min, Below, Above, IsOrdered, ◌≺◌}

-- What an insertion of `val` makes of what the tree holds.
abbrev pub merged : Option Ident → Option Ident → Ident
merged none none = zero_ident
merged none (some val) = val
merged (some old) none = old
merged (some old) (some val) = record {
  id = old.id;
  last_hello = val.last_hello;
  last_hello_long = val.last_hello_long;
}

-- After an insertion for which there is memory, the inserted key has the new value, merged with
-- the one it had, and every other key has what it had before; no assumption is made on the tree.
pub get_ident-add :
    (t : Tree) (key : Neighbor) (val : Option Ident) (q : Addr)
    → get_ident (add_neighbor_aux true t key val).0 q
      ≡ (if same key.addr q then some (merged (get_ident t key.addr) val) else get_ident t q)
unfolding get_ident add_neighbor_aux
get_ident-add leaf key none q = ground arith
get_ident-add leaf key (some val) q = ground arith
get_ident-add (node k v l r) key val q = ground (
  arith,
  get_ident-add l key val q,
  get_ident-add r key val q,
  compare_n-eq key.addr q,
  compare_n-eq k.addr key.addr,
)

-- Where there is memory, the result of `add_neighbor_aux` is 2 if `get_ident` finds the key, and 1
-- otherwise.
pub add_result :
    (t : Tree) (key : Neighbor) (val : Option Ident)
    → (add_neighbor_aux true t key val).1 ≡ (if is_some (get_ident t key.addr) then 2 else 1)
unfolding get_ident add_neighbor_aux
add_result leaf key val = refl
add_result (node k v l r) key val = ground (arith, add_result l key val, add_result r key val)

-- Where there is no memory, the insertion of a key that `get_ident` does not find returns 0, and
-- the tree stays as it was.
pub add_no_memory :
    (t : Tree) (key : Neighbor) (val : Option Ident)
    → get_ident t key.addr ≡ none
    → add_neighbor_aux false t key val ≡ (t, 0)
unfolding get_ident add_neighbor_aux
add_no_memory leaf key val h = refl
add_no_memory (node k v l r) key val h =
    ground (arith, add_no_memory l key val, add_no_memory r key val)

-- An ordered tree all of whose keys lie on one side of `q` does not hold `q`.
pub get_ident-Below : (t : Tree) (q : Addr) → Below q t → get_ident t q ≡ none
unfolding get_ident
get_ident-Below leaf q b = refl
get_ident-Below (node k v l r) q b = ground (arith, b.0, get_ident-Below r q b.2)

pub get_ident-Above : (t : Tree) (q : Addr) → Above q t → get_ident t q ≡ none
unfolding get_ident
get_ident-Above leaf q b = refl
get_ident-Above (node k v l r) q b =
    ground (arith, compare_n-lt q k.addr b.0, get_ident-Above l q b.1)

-- A tree reads like the unlinked node beside what is left.
get_ident-remove_min :
    (k : Neighbor) (v : Ident) (lk : Neighbor) (lv : Ident) (ll lr r : Tree) (q : Addr)
    → IsOrdered (node k v (node lk lv ll lr) r)
    → let (mk, mv, t) = remove_min k v lk lv ll lr r in
      get_ident (node mk mv leaf t) q ≡ get_ident (node k v (node lk lv ll lr) r) q
unfolding get_ident remove_min
get_ident-remove_min k v lk lv leaf lr r q s = ground (
  arith,
  s.0.0,
  compare_n_trans lk.addr k.addr q,
  compare_n-eq k.addr q,
  compare_n-gt lk.addr q,
  compare_n-lt k.addr q,
)
get_ident-remove_min k v lk lv (node llk llv lll llr) lr r q s =
    let m = (remove_min lk lv llk llv lll llr lr).0.addr in
    ground (
      arith,
      get_ident-remove_min lk lv llk llv lll llr lr q s.2,
      (All-remove_min (λ x. x.addr ≺ k.addr) lk lv llk llv lll llr lr s.0).0,
      compare_n_trans m k.addr q,
      compare_n-eq k.addr q,
    )

get_ident-Below_lt : (t : Tree) (k q : Addr) → Below k t → k ≺ q → get_ident t q ≡ none
get_ident-Below_lt t k q b h =
    get_ident-Below t q (All-imp (λ x c. compare_n_trans x.addr k q c h) t b)

-- The tree that takes the place of a removed node reads like it, but for the key of the node.
get_ident-join :
    (k : Neighbor) (v : Ident) (l r : Tree) (q : Addr)
    → IsOrdered (node k v l r)
    → get_ident (join l r) q ≡ (if same k.addr q then none else get_ident (node k v l r) q)
unfolding get_ident join
get_ident-join k v l leaf q s =
    ground (arith, get_ident-Below l q, compare_n-eq k.addr q, get_ident-Below_lt l k.addr q s.0)
get_ident-join k v l (node rk rv leaf rr) q s = ground (
  arith,
  compare_n-eq k.addr q,
  compare_n-eq rk.addr q,
  s.1.0,
  compare_n-gt rk.addr q,
  compare_n-gt k.addr q,
  compare_n-lt k.addr rk.addr,
  compare_n_trans q k.addr rk.addr,
  compare_n-lt q rk.addr,
  get_ident-Below_lt l k.addr q s.0,
  get_ident-Below l q,
)
get_ident-join k v l (node rk rv (node mk mv ll lr) rr) q s =
    let m = (remove_min rk rv mk mv ll lr rr).0.addr in
    ground (
      arith,
      get_ident-remove_min rk rv mk mv ll lr rr q s.3,
      (All-remove_min (λ x. k.addr ≺ x.addr) rk rv mk mv ll lr rr s.1).0,
      compare_n-eq k.addr q,
      compare_n-eq m q,
      compare_n-gt m q,
      compare_n-gt k.addr q,
      compare_n-lt k.addr m,
      compare_n_trans q k.addr m,
      compare_n-lt q m,
      get_ident-Below_lt l k.addr q s.0,
      get_ident-Below l q,
    )

-- In a search tree, a removal takes the key out, and every other key has what it had before.
pub get_ident-remove :
    (t : Tree) (key q : Addr)
    → IsOrdered t
    → get_ident (remove_neighbor_aux key t) q ≡ (if same key q then none else get_ident t q)
unfolding get_ident remove_neighbor_aux
get_ident-remove leaf key q s = ground arith
get_ident-remove (node k v l r) key q s = ground (
  arith,
  get_ident-remove l key q s.2,
  get_ident-remove r key q s.3,
  get_ident-join k v l r q s,
  compare_n-eq k.addr key,
  compare_n-eq key q,
)
