-- ===== src/Protocol/Dangling.antt =====
-- list.c: where a time is a multiple of 65536, `remove_neighbor_everywhere` takes the wrong entry out
-- of a flood.
use projet_reseau.Prelude.{
  ◌%◌, ◌<◌, ◌≡◌, refl, ap, ◌∙◌, List, [], ◌∷◌, All, arith, true, false, is_eq, eq, some,
}
use projet_reseau.Neighbor.{Addr, DataIndex, same}
use projet_reseau.Neighbor.Order.{compare_n_refl}
use projet_reseau.Abr.Order.{IsOrdered}
use projet_reseau.Genlist.{GenList, remove_elem}
use projet_reseau.Genlist.Search.{erase, remove_elem_lem}
use projet_reseau.Flood.{NgbEntry, FloodEntry, compare_n_s, compare_d, short_sign}
use projet_reseau.Peer.{
  Peer, remove_in_first, remove_from_floods, remove_neighbor_from_flood, remove_neighbor_everywhere,
  indices, probe, without,
}
use projet_reseau.Peer.Removal.{remove_neighbor_everywhere-get_ident}
use projet_reseau.Flooding.{flood_at}
use projet_reseau.Protocol.{hears}
use projet_reseau.Protocol.Unlink.{AreDistinct}

compare-multiple :
    (a : Addr) (e : NgbEntry)
    → 0 < e.wait_time
    → e.wait_time % 65536 ≡ 0
    → compare_n_s e (probe a) ≡ eq
unfolding compare_n_s short_sign
compare-multiple a e pos h = ground arith

-- The first entry of the list leaves it, whichever neighbour it is of.
wrong_entry :
    (a : Addr) (l : GenList NgbEntry) (e : NgbEntry) (es : List NgbEntry)
    → l.compare_f ≡ compare_n_s
    → l.entries ≡ e ∷ es
    → 0 < e.wait_time
    → e.wait_time % 65536 ≡ 0
    → (remove_elem l (probe a)).0.entries ≡ es
unfolding erase
wrong_entry a l e es c h pos m =
    (remove_elem_lem l (probe a)).0 ∙ rw (c, h) (ground (arith, compare-multiple a e pos m))

head_kept :
    (is : List DataIndex) (a : Addr) (f : FloodEntry) (fs : List FloodEntry) (p : Peer)
    → p.dataf.entries ≡ f ∷ fs
    → All (λ j. is_eq (compare_d f.index j) ≡ false) is
    → flood_at 0 (remove_from_floods is a p).dataf.entries ≡ some f
unfolding remove_from_floods remove_neighbor_from_flood remove_in_first flood_at
head_kept [] a f fs p e h = rw e refl
head_kept (i ∷ is) a f fs p e h =
    head_kept is a f (remove_in_first i a fs) (remove_neighbor_from_flood i a p)
      (rw (e, h.0, remove_in_first) refl) h.1

distinct_indices :
    (f : FloodEntry) (fs : List FloodEntry)
    → All (λ g. is_eq (compare_d f.index g.index) ≡ false) fs
    → All (λ j. is_eq (compare_d f.index j) ≡ false) (indices fs)
distinct_indices f [] h = tt
distinct_indices f (g ∷ gs) h = (h.0, distinct_indices f gs h.1)

-- The first flood has lost its first entry, where it was the first to be visited.
first_flood :
    (a : Addr) (f : FloodEntry) (fs : List FloodEntry) (p : Peer)
    → p.dataf.entries ≡ f ∷ fs
    → AreDistinct (f ∷ fs)
    → flood_at 0 (remove_from_floods (indices (f ∷ fs)) a p).dataf.entries ≡ some (without a f)
unfolding remove_from_floods remove_neighbor_from_flood remove_in_first compare_d
first_flood a f fs p e d =
    let here : is_eq (compare_d f.index f.index) ≡ true = ground arith in
    head_kept (indices fs) a (without a f) fs (remove_neighbor_from_flood f.index a p)
      (rw (e, here, remove_in_first) refl) (distinct_indices f fs d.0)

-- Where `NEIGHBORS` is a search tree and the floods have distinct indices: if the first flood has, in
-- front of the entry of a neighbour, one of another with a time that is a positive multiple of
-- 65536, then `remove_neighbor_everywhere` drops the neighbour, takes the other's entry out of the
-- flood and leaves the entry of the neighbour in it, whose pointer then dangles.
pub remove_neighbor_everywhere_dangles :
    (f : FloodEntry) (fs : List FloodEntry) (e n : NgbEntry) (es : List NgbEntry) (p : Peer)
    → IsOrdered p.neighbors
    → p.dataf.entries ≡ f ∷ fs
    → AreDistinct (f ∷ fs)
    → f.sym_neighbors.compare_f ≡ compare_n_s
    → f.sym_neighbors.entries ≡ e ∷ n ∷ es
    → same e.sym n.sym ≡ false
    → 0 < e.wait_time
    → e.wait_time % 65536 ≡ 0
    → let after = remove_neighbor_everywhere n.sym p in
      (hears after n.sym ≡ false)
      × (g : FloodEntry) × (flood_at 0 after.dataf.entries ≡ some g)
      × (g.sym_neighbors.entries ≡ n ∷ es)
unfolding remove_neighbor_everywhere
remove_neighbor_everywhere_dangles f fs e n es p s at d c chain other pos m = (
  ground (arith, (remove_neighbor_everywhere-get_ident n.sym p n.sym s).0, compare_n_refl n.sym),
  without n.sym f,
  ap (λ xs. flood_at 0 (remove_from_floods (indices xs) n.sym p).dataf.entries) at
      ∙ first_flood n.sym f fs p at d,
  wrong_entry n.sym f.sym_neighbors e (n ∷ es) c chain pos m,
)
