-- ===== src/Protocol/Unlink.antt =====
-- `remove_neighbor_everywhere` of list.c on lists that are ready: where no time is a multiple of
-- 65536, which `compare_n_s` takes for the time 0 of the entry that is looked for, the entries of
-- the neighbour leave every flood.
use projet_reseau.Prelude.{
  ℕ, ◌+◌, ◌%◌, ◌≤◌, ◌<◌, ◌≡◌, ◌⊎◌, sym, ap, ◌∙◌, subst, List, [], ◌∷◌, All, arith, Bool, true,
  false, ◌||◌, Bool-cases, inl, inr, is_eq,
}
use projet_reseau.Neighbor.{Addr, DataIndex, same}
use projet_reseau.Neighbor.Order.{compare_n-eq}
use projet_reseau.Genlist.{GenList, remove_elem}
use projet_reseau.Genlist.Search.{erase, remove_elem_lem}
use projet_reseau.Flood.{NgbEntry, FloodEntry, compare_n_s, compare_d, short_sign}
use projet_reseau.Peer.{
  Peer, remove_in_first, remove_from_floods, remove_neighbor_from_flood, indices, probe,
}
use projet_reseau.Flooding.Schedule.{IsDistinct, IsNear, Without, same_sym}
use projet_reseau.Flooding.Rounds.{IsReady, remove-IsReady}
use projet_reseau.Protocol.Floods.{Each, remove_in_first-Each}

-- No time near `base` is a multiple of 65536.
pub record IsClear (base : ℕ) : Type 0 where
  pub above : 0 < base % 65536
  pub below : base % 65536 + 32768 ≤ 65536

pub compare-probe :
    (base : ℕ) (a : Addr) (e : NgbEntry)
    → IsClear base
    → IsNear base e
    → is_eq (compare_n_s e (probe a)) ≡ same e.sym a
unfolding compare_n_s short_sign
compare-probe base a e c n = ground (arith, c.above, c.below, n.above, n.below)

erase-probe-Without :
    (base : ℕ) (a : Addr) (es : List NgbEntry)
    → IsClear base
    → All (IsNear base) es
    → IsDistinct es
    → Without a (erase compare_n_s es (probe a))
unfolding erase
erase-probe-Without base a [] c n d = tt
erase-probe-Without base a (e ∷ es) c n d = ground (
  arith,
  erase-probe-Without base a es c n.1 d.1,
  compare-probe base a e c n.0,
  compare_n-eq e.sym a,
  same_sym e.sym a,
)

-- The list has no entry of the neighbour.
abbrev pub IsRid : Addr → GenList NgbEntry → Type 0
IsRid a l = Without a l.entries

remove-IsRid :
    (base : ℕ) (a : Addr) (l : GenList NgbEntry)
    → IsClear base
    → IsReady base l
    → IsRid a (remove_elem l (probe a)).0
remove-IsRid base a l c h =
    let (chain, _) = remove_elem_lem l (probe a) in
    subst (Without a) (sym (chain ∙ ap (λ comp. erase comp l.entries (probe a)) h.compared))
      (erase-probe-Without base a l.entries c h.near h.distinct)

-- The index is among those of a list.
pub listed : DataIndex → List DataIndex → Bool
listed index [] = false
listed index (j ∷ js) = is_eq (compare_d index j) || listed index js

-- No two floods have one index.
abbrev pub AreDistinct : List FloodEntry → Type 0
AreDistinct [] = Unit
AreDistinct (f ∷ fs) = All (λ g. is_eq (compare_d f.index g.index) ≡ false) fs × AreDistinct fs

-- Rid of the neighbour, or still to be visited.
abbrev IsDue : Addr → List DataIndex → FloodEntry → Type 0
IsDue a is f = IsRid a f.sym_neighbors ⊎ (listed f.index is ≡ true)

next-IsDue :
    (a : Addr) (i : DataIndex) (is : List DataIndex) (f : FloodEntry)
    → is_eq (compare_d f.index i) ≡ false
    → IsDue a (i ∷ is) f
    → IsDue a is f
unfolding listed
next-IsDue a i is f d (inl rid) = inl rid
next-IsDue a i is f d (inr due) = inr (ground arith)

others-IsDue :
    (a : Addr) (i : DataIndex) (is : List DataIndex) (f : FloodEntry) (fs : List FloodEntry)
    → is_eq (compare_d f.index i) ≡ true
    → All (λ g. is_eq (compare_d f.index g.index) ≡ false) fs
    → All (IsDue a (i ∷ is)) fs
    → All (IsDue a is) fs
unfolding compare_d
others-IsDue a i is f [] m d h = tt
others-IsDue a i is f (g ∷ gs) m d h =
    (next-IsDue a i is g (ground arith) h.0, others-IsDue a i is f gs m d.1 h.1)

visited-IsDue :
    (base : ℕ) (a : Addr) (i : DataIndex) (is : List DataIndex) (fs : List FloodEntry)
    → IsClear base
    → Each (IsReady base) fs
    → AreDistinct fs
    → All (IsDue a (i ∷ is)) fs
    → All (IsDue a is) (remove_in_first i a fs)
unfolding remove_in_first
visited-IsDue base a i is [] c r d h = tt
visited-IsDue base a i is (f ∷ fs) c r d h = elim (Bool-cases (is_eq (compare_d f.index i))) [
  | inl m ↦
      rw (m, remove_in_first)
        (inl (remove-IsRid base a f.sym_neighbors c r.0), others-IsDue a i is f fs m d.0 h.1)
  | inr m ↦
      rw (m, remove_in_first)
        (next-IsDue a i is f m h.0, visited-IsDue base a i is fs c r.1 d.1 h.1)
]

-- A property of the index alone.
pub remove_in_first-All_index {μ} :
    (P : DataIndex → Type μ) (i : DataIndex) (a : Addr) (fs : List FloodEntry)
    → All (λ f. P f.index) fs
    → All (λ f. P f.index) (remove_in_first i a fs)
unfolding remove_in_first
remove_in_first-All_index P i a [] h = tt
remove_in_first-All_index P i a (f ∷ fs) h = elim (Bool-cases (is_eq (compare_d f.index i))) [
  | inl m ↦ rw (m, remove_in_first) h
  | inr m ↦ rw (m, remove_in_first) (h.0, remove_in_first-All_index P i a fs h.1)
]

pub remove_in_first-AreDistinct :
    (i : DataIndex) (a : Addr) (fs : List FloodEntry)
    → AreDistinct fs
    → AreDistinct (remove_in_first i a fs)
unfolding remove_in_first
remove_in_first-AreDistinct i a [] d = tt
remove_in_first-AreDistinct i a (f ∷ fs) d = elim (Bool-cases (is_eq (compare_d f.index i))) [
  | inl m ↦ rw (m, remove_in_first) d
  | inr m ↦
      rw (m, remove_in_first)
        (
          remove_in_first-All_index (λ j. is_eq (compare_d f.index j) ≡ false) i a fs d.0,
          remove_in_first-AreDistinct i a fs d.1,
        )
]

IsRid-IsDue : (a : Addr) (fs : List FloodEntry) → All (IsDue a []) fs → Each (IsRid a) fs
unfolding listed
IsRid-IsDue a [] h = tt
IsRid-IsDue a (f ∷ fs) (inl rid, hs) = (rid, IsRid-IsDue a fs hs)
IsRid-IsDue a (f ∷ fs) (inr due, hs) = absurd (cc)

visited-IsRid :
    (base : ℕ) (a : Addr) (is : List DataIndex) (p : Peer)
    → IsClear base
    → Each (IsReady base) p.dataf.entries
    → AreDistinct p.dataf.entries
    → All (IsDue a is) p.dataf.entries
    → Each (IsRid a) (remove_from_floods is a p).dataf.entries
      × AreDistinct (remove_from_floods is a p).dataf.entries
unfolding remove_from_floods remove_neighbor_from_flood
visited-IsRid base a [] p c r d h = (IsRid-IsDue a p.dataf.entries h, d)
visited-IsRid base a (i ∷ is) p c r d h =
    let fs = p.dataf.entries in
    visited-IsRid base a is (remove_neighbor_from_flood i a p) c
      (remove_in_first-Each (IsReady base) i a fs (λ l b. remove-IsReady base l (probe b)) r)
      (remove_in_first-AreDistinct i a fs d) (visited-IsDue base a i is fs c r d h)

later-IsDue :
    (a : Addr) (j : DataIndex) (is : List DataIndex) (fs : List FloodEntry)
    → All (IsDue a is) fs
    → All (IsDue a (j ∷ is)) fs
unfolding listed
later-IsDue a j is [] h = tt
later-IsDue a j is (f ∷ fs) (inl rid, hs) = (inl rid, later-IsDue a j is fs hs)
later-IsDue a j is (f ∷ fs) (inr due, hs) = (inr (ground arith), later-IsDue a j is fs hs)

indices-IsDue : (a : Addr) (fs : List FloodEntry) → All (IsDue a (indices fs)) fs
unfolding listed compare_d
indices-IsDue a [] = tt
indices-IsDue a (f ∷ fs) =
    (inr (ground arith), later-IsDue a f.index (indices fs) fs (indices-IsDue a fs))

-- Where the floods have distinct indices and their lists are ready, near a time that is clear: the
-- walk of `remove_neighbor_everywhere` over the indices takes the entries of the neighbour out of
-- every list, and leaves the indices distinct.
pub remove_from_floods-IsRid :
    (base : ℕ) (a : Addr) (p : Peer)
    → IsClear base
    → Each (IsReady base) p.dataf.entries
    → AreDistinct p.dataf.entries
    → let after = (remove_from_floods (indices p.dataf.entries) a p).dataf.entries in
      Each (IsRid a) after × AreDistinct after
remove_from_floods-IsRid base a p c r d =
    visited-IsRid base a (indices p.dataf.entries) p c r d (indices-IsDue a p.dataf.entries)
