-- ===== src/Peer/Valid.antt =====
-- The invariant of the globals, and that the operations of Peer.antt keep it.
use projet_reseau.Prelude.{
  ℕ, suc, ◌+◌, ◌-◌, ◌≤◌, ◌≡◌, refl, sym, ap, ◌∙◌, subst, List, [], ◌∷◌, ◌++◌, Option, none, some,
  All, length, length-take, get_or, take, take_all, arith, Bool-cases, inl, inr, is_eq, true,
}
use projet_reseau.Neighbor.{Addr, Neighbor, DataIndex}
use projet_reseau.Abr.{Tree, leaf, node, remove_neighbor}
use projet_reseau.Abr.Order as Abr
use projet_reseau.Abr.Order.{IsOrdered, remove-IsOrdered}
use projet_reseau.Genlist.{GenList}
use projet_reseau.Genlist.Counted.{IsCounted, with_front, add_limited_lem, add_limited-compare_f}
use projet_reseau.Genlist.{add_limited}
use projet_reseau.Flood.{NgbEntry, FloodEntry, compare_d, compare_flood, pmtu, nb_data, init_flood}
use projet_reseau.Net.{Datagram}
use projet_reseau.Net.Buffer.Everyone.{IsPacket, IsGood, Keeps, strip, All-append}
use projet_reseau.Peer.{
  Env, Peer, with_neighbors, with_potential, remove_in_first, remove_neighbor_from_flood,
  remove_from_floods, indices, remove_neighbor_everywhere, add_flood, add_message_to_flood,
  index_of,
}

-- A flood holds a whole TLV, which fits a datagram.
abbrev pub IsFlood : FloodEntry → Type 0
IsFlood f = (length f.content ≡ get_or f.content 1 0 + 2) × (length f.content ≤ pmtu - 4)

pub record IsValid (p : Peer) : Type 0 where
  pub ordered : IsOrdered p.neighbors
  pub ordered_potential : IsOrdered p.potential
  pub good : Abr.All IsGood p.neighbors
  pub good_potential : Abr.All IsGood p.potential
  pub counted : IsCounted p.dataf
  pub bounded : length p.dataf.entries ≤ nb_data
  pub compared : p.dataf.compare_f ≡ compare_flood
  pub floods : All IsFlood p.dataf.entries
  pub packets : All IsPacket p.sent

All-strip {μ} :
    (P : Addr → Type μ) (t : Tree) → Abr.All (λ k. P k.addr) t → Abr.All (λ k. P k.addr) (strip t)
unfolding strip
All-strip P leaf a = tt
All-strip P (node k v l r) a = (a.0, All-strip P l a.1, All-strip P r a.2)

All-unstrip {μ} :
    (P : Addr → Type μ) (t : Tree) → Abr.All (λ k. P k.addr) (strip t) → Abr.All (λ k. P k.addr) t
unfolding strip
All-unstrip P leaf a = tt
All-unstrip P (node k v l r) a = (a.0, All-unstrip P l a.1, All-unstrip P r a.2)

strip-IsOrdered : (t : Tree) → IsOrdered t → IsOrdered (strip t)
unfolding strip
strip-IsOrdered leaf s = tt
strip-IsOrdered (node k v l r) s =
    (All-strip _ l s.0, All-strip _ r s.1, strip-IsOrdered l s.2, strip-IsOrdered r s.3)

unstrip-IsOrdered : (t : Tree) → IsOrdered (strip t) → IsOrdered t
unfolding strip
unstrip-IsOrdered leaf s = tt
unstrip-IsOrdered (node k v l r) s =
    (All-unstrip _ l s.0, All-unstrip _ r s.1, unstrip-IsOrdered l s.2, unstrip-IsOrdered r s.3)

Keeps-IsOrdered :
    (t : Tree) (result : Tree × List Datagram) → Keeps t result → IsOrdered t → IsOrdered result.0
Keeps-IsOrdered t result k s =
    unstrip-IsOrdered result.0 (subst IsOrdered (sym k.same_tree) (strip-IsOrdered t s))

-- Sends to the neighbours, and to the potential neighbours.
pub with_neighbors-IsValid :
    (p : Peer) (result : Tree × List Datagram)
    → Keeps p.neighbors result
    → IsValid p
    → IsValid (with_neighbors p result)
with_neighbors-IsValid p (t, out) k v = record {
  ordered = Keeps-IsOrdered p.neighbors (t, out) k v.ordered;
  ordered_potential = v.ordered_potential;
  good = k.good;
  good_potential = v.good_potential;
  counted = v.counted;
  bounded = v.bounded;
  compared = v.compared;
  floods = v.floods;
  packets = All-append IsPacket p.sent out v.packets k.packets;
}

pub with_potential-IsValid :
    (p : Peer) (result : Tree × List Datagram)
    → Keeps p.potential result
    → IsValid p
    → IsValid (with_potential p result)
with_potential-IsValid p (t, out) k v = record {
  ordered = v.ordered;
  ordered_potential = Keeps-IsOrdered p.potential (t, out) k v.ordered_potential;
  good = v.good;
  good_potential = k.good;
  counted = v.counted;
  bounded = v.bounded;
  compared = v.compared;
  floods = v.floods;
  packets = All-append IsPacket p.sent out v.packets k.packets;
}

pub remove_neighbor-IsOrdered :
    (a : Addr) (t : Tree) → IsOrdered t → IsOrdered (remove_neighbor a t)
unfolding remove_neighbor
remove_neighbor-IsOrdered a leaf s = s
remove_neighbor-IsOrdered a (node k v l r) s = remove-IsOrdered a (node k v l r) s

pub remove_neighbor-All {μ} :
    (P : Neighbor → Type μ) (a : Addr) (t : Tree) → Abr.All P t → Abr.All P (remove_neighbor a t)
unfolding remove_neighbor
remove_neighbor-All P a leaf s = s
remove_neighbor-All P a (node k v l r) s = Abr.All-remove P a (node k v l r) s

-- A removal from a flood changes neither the number of floods nor their contents.
length-remove_in_first :
    (index : DataIndex) (a : Addr) (fs : List FloodEntry)
    → length (remove_in_first index a fs) ≡ length fs
unfolding remove_in_first
length-remove_in_first index a [] = refl
length-remove_in_first index a (f ∷ fs) = ground (arith, length-remove_in_first index a fs)

remove_in_first-All :
    (index : DataIndex) (a : Addr) (fs : List FloodEntry)
    → All IsFlood fs
    → All IsFlood (remove_in_first index a fs)
unfolding remove_in_first
remove_in_first-All index a [] h = tt
remove_in_first-All index a (f ∷ fs) (h, hs) =
    let rest = remove_in_first-All index a fs hs in
    elim (Bool-cases (is_eq (compare_d f.index index))) [
      | inl e ↦ rw e (h, hs)
      | inr e ↦ rw e (h, rest)
    ]

pub remove_neighbor_from_flood-IsValid :
    (index : DataIndex) (a : Addr) (p : Peer)
    → IsValid p
    → IsValid (remove_neighbor_from_flood index a p)
unfolding remove_neighbor_from_flood
remove_neighbor_from_flood-IsValid index a p v =
    let same = length-remove_in_first index a p.dataf.entries in
    record {
      ordered = v.ordered;
      ordered_potential = v.ordered_potential;
      good = v.good;
      good_potential = v.good_potential;
      counted = v.counted ∙ sym same;
      bounded = omega (arith, v.bounded);
      compared = v.compared;
      floods = remove_in_first-All index a p.dataf.entries v.floods;
      packets = v.packets;
    }

remove_from_floods-IsValid :
    (is : List DataIndex) (a : Addr) (p : Peer) → IsValid p → IsValid (remove_from_floods is a p)
unfolding remove_from_floods
remove_from_floods-IsValid [] a p v = v
remove_from_floods-IsValid (i ∷ is) a p v =
    remove_from_floods-IsValid is a _ (remove_neighbor_from_flood-IsValid i a p v)

pub remove_neighbor_everywhere-IsValid :
    (a : Addr) (p : Peer) → IsValid p → IsValid (remove_neighbor_everywhere a p)
unfolding remove_neighbor_everywhere
remove_neighbor_everywhere-IsValid a p v =
    let w = remove_from_floods-IsValid (indices p.dataf.entries) a p v in
    let q = remove_from_floods (indices p.dataf.entries) a p in
    record {
      ordered = remove_neighbor-IsOrdered a q.neighbors w.ordered;
      ordered_potential = w.ordered_potential;
      good = remove_neighbor-All IsGood a q.neighbors w.good;
      good_potential = w.good_potential;
      counted = w.counted;
      bounded = w.bounded;
      compared = w.compared;
      floods = w.floods;
      packets = w.packets;
    }

pub All-front {ℓ κ} :
    {A : Type ℓ} (P : A → Type κ) (o : Option A) (xs : List A) → All P (with_front o xs) → All P xs
All-front P none xs a = a
All-front P (some x) xs a = a.1

add_flood-IsValid :
    (o : Option FloodEntry) (p : Peer)
    → ((f : FloodEntry) → o ≡ some f → IsFlood f)
    → IsValid p
    → IsValid (add_flood o p)
unfolding add_flood
add_flood-IsValid none p h v = v
add_flood-IsValid (some f) p h v =
    let (l', out) = add_limited true p.dataf f nb_data in
    let (counted, bounded, chain, _) =
      add_limited_lem p.dataf f nb_data v.counted v.bounded (omega arith) in
    let all : All IsFlood (p.dataf.entries ++ (f ∷ [])) =
      All-append IsFlood p.dataf.entries (f ∷ []) v.floods (h f refl, tt) in
    record {
      ordered = v.ordered;
      ordered_potential = v.ordered_potential;
      good = v.good;
      good_potential = v.good_potential;
      counted = counted;
      bounded = bounded;
      compared = add_limited-compare_f p.dataf f nb_data ∙ v.compared;
      floods = All-front IsFlood out l'.entries (subst (All IsFlood) (sym chain) all);
      packets = v.packets;
    }

pub flood_content :
    (size : ℕ) (content : List ℕ)
    → take (size + 2) (4 ∷ size ∷ take size content) ≡ 4 ∷ size ∷ take size content
flood_content size content =
    let two : size + 2 ≡ suc (suc size) = omega arith in
    rw two (
      ap (λ xs. 4 ∷ size ∷ xs)
        (take_all size (take size content) (omega (arith, length-take size content))))

init_flood-IsFlood :
    (index : DataIndex) (size : ℕ) (content : List ℕ) (l : GenList NgbEntry) (f : FloodEntry)
    → size ≤ length content
    → init_flood index (4 ∷ size ∷ take size content) l ≡ some f
    → IsFlood f
unfolding init_flood
init_flood-IsFlood index size content l f h e =
    ground (arith, flood_content size content, length-take size content)

pub add_message_to_flood-IsValid :
    (env : Env) (msg_send : List ℕ) (size : ℕ) (to_delete : Option Addr) (p : Peer)
    → size ≤ length msg_send
    → IsValid p
    → IsValid (add_message_to_flood env msg_send size to_delete p)
unfolding add_message_to_flood
add_message_to_flood-IsValid env msg_send size to_delete p h v =
    add_flood-IsValid _ p (λ f e. init_flood-IsFlood (index_of msg_send) size msg_send _ f h e) v
