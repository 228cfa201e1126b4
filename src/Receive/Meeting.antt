-- ===== src/Receive/Meeting.antt =====
-- The handlers of tlv.c that change the trees, hello and neighbour, keep the invariant.
use projet_reseau.Prelude.{
  ℕ, ◌≤◌, ◌≡◌, refl, List, length, length-take, take, drop, arith, ◌==◌, is_some, none, some, true,
  if_cases,
}
use projet_reseau.Bytes.{le_value, ntohs}
use projet_reseau.Neighbor.{Addr, Neighbor, Ident}
use projet_reseau.Abr.{Tree, add_neighbor, add_potential, get_ident, fresh_message, remove_neighbor}
use projet_reseau.Abr.Order as Abr
use projet_reseau.Abr.Order.{IsOrdered, add-IsOrdered, All-add}
use projet_reseau.Net.{send_hello_everyone}
use projet_reseau.Net.Buffer.{IsSound}
use projet_reseau.Net.Buffer.Everyone.{IsGood, send_hello_everyone-Keeps}
use projet_reseau.Peer.{Env, Peer}
use projet_reseau.Peer.Valid.{
  IsValid, with_neighbors-IsValid, remove_neighbor-IsOrdered, remove_neighbor-All,
}
use projet_reseau.Receive.{meet, hello, neighbour}

-- A new tree of neighbours.
set_neighbors-IsValid :
    (p : Peer) (t : Tree)
    → IsOrdered t
    → Abr.All IsGood t
    → IsValid p
    → IsValid (record p { neighbors = t })
set_neighbors-IsValid p t s g v = record {
  ordered = s;
  ordered_potential = v.ordered_potential;
  good = g;
  good_potential = v.good_potential;
  counted = v.counted;
  bounded = v.bounded;
  compared = v.compared;
  floods = v.floods;
  packets = v.packets;
}

set_potential-IsValid :
    (p : Peer) (t : Tree)
    → IsOrdered t
    → Abr.All IsGood t
    → IsValid p
    → IsValid (record p { potential = t })
set_potential-IsValid p t s g v = record {
  ordered = v.ordered;
  ordered_potential = s;
  good = v.good;
  good_potential = g;
  counted = v.counted;
  bounded = v.bounded;
  compared = v.compared;
  floods = v.floods;
  packets = v.packets;
}

fresh-IsSound : (junk : List ℕ) → IsSound (fresh_message junk)
unfolding ntohs
fresh-IsSound junk = record {
  small = omega arith;
  inside = omega arith;
  magic = refl;
  version = refl;
  order = refl;
}

pub add_neighbor-lem :
    (junk : List ℕ) (t : Tree) (k : Neighbor) (val : Ident)
    → length k.ip ≡ 16
    → IsOrdered t
    → Abr.All IsGood t
    → IsOrdered (add_neighbor true (some junk) t k (some val)).0
      × Abr.All IsGood (add_neighbor true (some junk) t k (some val)).0
unfolding add_neighbor
add_neighbor-lem junk t k val h s g =
    let new = record k { msg = some (fresh_message junk) } in
    (
      add-IsOrdered true t new (some val) s,
      All-add IsGood true t new (some val) (h, fresh-IsSound junk) g,
    )

meet-IsValid :
    (env : Env) (k : Neighbor) (val : Ident) (p : Peer)
    → length k.ip ≡ 16
    → IsValid p
    → IsValid (meet env k val p)
unfolding meet
meet-IsValid env k val p h v =
    let (s, g) = add_neighbor-lem env.junk p.neighbors k val h v.ordered v.good in
    let t = (add_neighbor true (some env.junk) p.neighbors k (some val)).0 in
    let known = set_neighbors-IsValid p t s g v in
    let greeted =
      with_neighbors-IsValid (record p { neighbors = t }) (send_hello_everyone p.id t)
        (send_hello_everyone-Keeps p.id t g) known in
    if_cases IsValid ((add_neighbor true (some env.junk) p.neighbors k (some val)).1 == 1)
      (λ _.
        set_potential-IsValid _ (remove_neighbor k.addr p.potential)
          (remove_neighbor-IsOrdered k.addr p.potential v.ordered_potential)
          (remove_neighbor-All IsGood k.addr p.potential v.good_potential) greeted)
      (λ _. known)

pub hello-IsValid :
    (env : Env) (tlv : List ℕ) (len : ℕ) (k : Neighbor) (p : Peer)
    → length k.ip ≡ 16
    → IsValid p
    → IsValid (hello env tlv len k p)
unfolding hello
hello-IsValid env tlv len k p h v =
    if_cases IsValid (len == 16)
      (λ _.
        if_cases IsValid (le_value (take 8 (drop 8 tlv)) == p.id) (λ _. meet-IsValid env k _ p h v)
          (λ _. v))
      (λ _. meet-IsValid env k _ p h v)

pub neighbour-IsValid :
    (env : Env) (tlv : List ℕ) (p : Peer)
    → 16 ≤ length tlv
    → IsValid p
    → IsValid (neighbour env tlv p)
unfolding neighbour
neighbour-IsValid env tlv p h v =
    let port = ntohs (le_value (take 2 (drop 16 tlv))) in
    let key : Addr = record { ip = take 16 tlv; port = port } in
    let new : Neighbor = record { addr = key; msg = none } in
    let val : Ident = record { id = 0; last_hello = env.now; last_hello_long = 0 } in
    let sixteen : length (take 16 tlv) ≡ 16 = omega (arith, length-take 16 tlv) in
    if_cases IsValid (is_some (get_ident p.neighbors key)) (λ _. v)
      (λ _.
        unfold add_potential in
        set_potential-IsValid p _
          (add-IsOrdered true p.potential new (some val) v.ordered_potential)
          (All-add IsGood true p.potential new (some val) (sixteen, tt) v.good_potential) v)
