-- ===== src/Protocol/Linked.antt =====
-- No dangling pointers: the entries of the floods point to neighbours that are in `NEIGHBORS`, in
-- every state of a run.
use projet_reseau.Prelude.{
  ℕ, zero, suc, ◌≡◌, refl, sym, ap, ◌∙◌, subst, List, [], ◌∷◌, ◌++◌, All, arith, is_eq, is_some,
  true, false, not, ◌&&◌, Option, none, some,
}
use projet_reseau.Neighbor.{Addr, DataIndex, same}
use projet_reseau.Genlist.{add_limited, find, get}
use projet_reseau.Genlist.Counted.{with_front, add_limited_lem}
use projet_reseau.Flood.{FloodEntry, NgbEntry, compare_d, compare_flood, nb_data}
use projet_reseau.Genlist.{GenList}
use projet_reseau.Net.Buffer.Everyone.{All-append}
use projet_reseau.Peer.{
  Env, Peer, index_of, indices, probe, add_flood, add_message_to_flood, remove_neighbor_from_flood,
}
use projet_reseau.Peer.Valid.{IsValid}
use projet_reseau.Receive.{flood_probe}
use projet_reseau.Flooding.{set_neighbors}
use projet_reseau.Flooding.Rounds.{IsTimely}
use projet_reseau.Main.{State, Event, round, run}
use projet_reseau.Main.Invariant.{round-IsValid}
use projet_reseau.Protocol.{
  hears, Change, quiet, learned, published, settled, forgot, repeated, Changes-keep,
}
use projet_reseau.Protocol.Floods.{
  Each, remove_in_first-Each, remove_from_floods-Each, set_neighbors-Each, flood_at-Each,
  add_flood-All, init_flood_fields,
}
use projet_reseau.Protocol.Rounds.{IsNew, at_text, round-Changes}
use projet_reseau.Protocol.Ready.{AreReady, Change-AreReady, IsTimelyEvent}
use projet_reseau.Protocol.Unlink.{
  IsClear, AreDistinct, remove_in_first-AreDistinct, remove_from_floods-IsRid,
}
use projet_reseau.Protocol.Syms.{
  AllSyms, remove-AllSyms, reschedule-AllSyms, targets-AllSyms, Each-imp, rid-Each,
}

-- The lists are ready, no two floods have one index, and every entry is one of a neighbour.
pub record IsLinked (base : ℕ) (p : Peer) : Type 0 where
  pub ready : AreReady base p
  pub distinct : AreDistinct p.dataf.entries
  pub heard : Each (AllSyms (hears p)) p.dataf.entries

unknown_index :
    (index : DataIndex) (fs : List FloodEntry)
    → is_some (find compare_flood fs (flood_probe index)) ≡ false
    → All (λ g. is_eq (compare_d g.index index) ≡ false) fs
unfolding find compare_flood
unknown_index index [] h = tt
unknown_index index (f ∷ fs) h = (ground arith, unknown_index index fs (ground arith))

AreDistinct-append :
    (fs : List FloodEntry) (f : FloodEntry)
    → AreDistinct fs
    → All (λ g. is_eq (compare_d g.index f.index) ≡ false) fs
    → AreDistinct (fs ++ (f ∷ []))
AreDistinct-append [] f d h = (tt, tt)
AreDistinct-append (g ∷ gs) f d h =
    (All-append _ gs (f ∷ []) d.0 (h.0, tt), AreDistinct-append gs f d.1 h.1)

AreDistinct-front :
    (o : Option FloodEntry) (fs : List FloodEntry) → AreDistinct (with_front o fs) → AreDistinct fs
AreDistinct-front none fs d = d
AreDistinct-front (some f) fs d = d.1

add_flood-AreDistinct :
    (index : DataIndex) (o : Option FloodEntry) (p : Peer)
    → IsValid p
    → ((f : FloodEntry) → o ≡ some f → f.index ≡ index)
    → All (λ g. is_eq (compare_d g.index index) ≡ false) p.dataf.entries
    → AreDistinct p.dataf.entries
    → AreDistinct (add_flood o p).dataf.entries
unfolding add_flood
add_flood-AreDistinct index none p v h a d = d
add_flood-AreDistinct index (some f) p v h a d =
    let fs = p.dataf.entries in
    let (l', out) = add_limited true p.dataf f nb_data in
    let (_, _, chain, _) = add_limited_lem p.dataf f nb_data v.counted v.bounded (omega arith) in
    let apart : All (λ g. is_eq (compare_d g.index f.index) ≡ false) fs =
      subst (λ i. All (λ g. is_eq (compare_d g.index i) ≡ false) fs) (sym (h f refl)) a in
    AreDistinct-front out l'.entries
      (subst AreDistinct (sym chain) (AreDistinct-append fs f d apart))

set_neighbors-index {μ} :
    (P : DataIndex → Type μ) (i : ℕ) (l : GenList NgbEntry) (fs : List FloodEntry)
    → All (λ f. P f.index) fs
    → All (λ f. P f.index) (set_neighbors i l fs)
unfolding set_neighbors
set_neighbors-index P zero l [] h = h
set_neighbors-index P (suc i) l [] h = h
set_neighbors-index P zero l (f ∷ fs) h = h
set_neighbors-index P (suc i) l (f ∷ fs) h = (h.0, set_neighbors-index P i l fs h.1)

set_neighbors-AreDistinct :
    (i : ℕ) (l : GenList NgbEntry) (fs : List FloodEntry)
    → AreDistinct fs
    → AreDistinct (set_neighbors i l fs)
unfolding set_neighbors
set_neighbors-AreDistinct zero l [] d = d
set_neighbors-AreDistinct (suc i) l [] d = d
set_neighbors-AreDistinct zero l (f ∷ fs) d = d
set_neighbors-AreDistinct (suc i) l (f ∷ fs) d = (
  set_neighbors-index (λ j. is_eq (compare_d f.index j) ≡ false) i l fs d.0,
  set_neighbors-AreDistinct i l fs d.1,
)

module _ (base : ℕ) (env : Env) (c : IsTimely base env.now) (clear : IsClear base) where
  Change-AreDistinct :
      (p p' : Peer)
      → IsValid p
      → Change true env p p'
      → IsLinked base p
      → AreDistinct p'.dataf.entries
  unfolding add_message_to_flood remove_neighbor_from_flood get
  Change-AreDistinct p p' v (quiet n d) h = subst (λ l. AreDistinct l.entries) (sym d) h.distinct
  Change-AreDistinct p p' v (learned a n d) h =
      subst (λ l. AreDistinct l.entries) (sym d) h.distinct
  Change-AreDistinct p p' v (published msg size to_delete new n d) h =
      let fresh = unknown_index (index_of msg) p.dataf.entries (
        ap (λ comp. is_some (find comp p.dataf.entries (flood_probe (index_of msg))))
          (sym v.compared)
        ∙ new refl) in
      subst (λ l. AreDistinct l.entries) (sym d)
        (add_flood-AreDistinct (index_of msg) _ p v (λ f e. (init_flood_fields _ _ _ f e).0) fresh
          h.distinct)
  Change-AreDistinct p p' v (settled index a n d) h =
      subst (λ l. AreDistinct l.entries) (sym d)
        (remove_in_first-AreDistinct index a p.dataf.entries h.distinct)
  Change-AreDistinct p p' v (forgot a n d) h =
      subst (λ l. AreDistinct l.entries) (sym d)
        (remove_from_floods-IsRid base a p clear h.ready h.distinct).1
  Change-AreDistinct p p' v (repeated i r f k nw rest at from five due n d) h =
      subst (λ l. AreDistinct l.entries) (sym d)
        (set_neighbors-AreDistinct i _ p.dataf.entries h.distinct)

  Change-heard :
      (p p' : Peer)
      → IsValid p
      → Change true env p p'
      → IsLinked base p
      → Each (AllSyms (hears p')) p'.dataf.entries
  unfolding add_message_to_flood remove_neighbor_from_flood
  Change-heard p p' v (quiet n d) h =
      Each-imp (hears p) (hears p') _ (λ q e. n q ∙ e)
        (subst (λ l. Each (AllSyms (hears p)) l.entries) (sym d) h.heard)
  Change-heard p p' v (learned a n d) h =
      Each-imp (hears p) (hears p') _ (λ q e. ground (arith, n q, e))
        (subst (λ l. Each (AllSyms (hears p)) l.entries) (sym d) h.heard)
  Change-heard p p' v (published msg size to_delete new n d) h =
      Each-imp (hears p) (hears p') _ (λ q e. n q ∙ e)
        (subst (λ l. Each (AllSyms (hears p)) l.entries) (sym d)
          (add_flood-All (λ f. AllSyms (hears p) f.sym_neighbors) _ p v
            (λ f e.
              subst (AllSyms (hears p)) (sym (init_flood_fields _ _ _ f e).1)
                (targets-AllSyms env to_delete p v))
            h.heard))
  Change-heard p p' v (settled index a n d) h =
      Each-imp (hears p) (hears p') _ (λ q e. n q ∙ e)
        (subst (λ l. Each (AllSyms (hears p)) l.entries) (sym d)
          (remove_in_first-Each (AllSyms (hears p)) index a p.dataf.entries
            (λ l b. remove-AllSyms (hears p) l (probe b)) h.heard))
  Change-heard p p' v (forgot a n d) h =
      let left = λ (q : Addr). not (same a q) && hears p q in
      Each-imp left (hears p') _ (λ q e. n q ∙ e)
        (subst (λ l. Each (AllSyms left) l.entries) (sym d)
          (rid-Each (hears p) a _ (remove_from_floods-IsRid base a p clear h.ready h.distinct).0 (
            remove_from_floods-Each (AllSyms (hears p)) (indices p.dataf.entries) a p
              (λ l b. remove-AllSyms (hears p) l (probe b)) h.heard)))
  Change-heard p p' v (repeated i r f k nw rest at from five due n d) h =
      let entry = flood_at-Each (AllSyms (hears p)) i p.dataf.entries f at h.heard in
      Each-imp (hears p) (hears p') _ (λ q e. n q ∙ e)
        (subst (λ l. Each (AllSyms (hears p)) l.entries) (sym d)
          (set_neighbors-Each (AllSyms (hears p)) i _ p.dataf.entries
            (reschedule-AllSyms (hears p) env r nw f.sym_neighbors entry) h.heard))

  pub Change-IsLinked :
      (p p' : Peer) → IsValid p → Change true env p p' → IsLinked base p → IsLinked base p'
  Change-IsLinked p p' v s h = record {
    ready = Change-AreReady true base env c p p' v s h.ready;
    distinct = Change-AreDistinct p p' v s h;
    heard = Change-heard p p' v s h;
  }

-- Each text that is typed in the run gets an index that `DATAF` does not hold then.
abbrev pub IsNewRun : List Event → State → Type 0
IsNewRun [] s = Unit
IsNewRun (ev ∷ evs) s = IsNew ev.env ev.typed (at_text ev s) × IsNewRun evs (round ev s)

-- From a valid state that is linked, near a time that is clear, over events that the system can give
-- at times near it, where each text typed gets an index that is not in `DATAF`: after the run every
-- entry of every flood points to a neighbour that is in `NEIGHBORS`, the lists are ready, and the
-- indices of the floods are distinct.
pub run-IsLinked :
    (base : ℕ) (evs : List Event) (s : State)
    → IsClear base
    → All (IsTimelyEvent base) evs
    → IsNewRun evs s
    → IsValid s.peer
    → IsLinked base s.peer
    → IsLinked base (run evs s).peer
unfolding run
run-IsLinked base [] s c h new v l = l
run-IsLinked base (ev ∷ evs) s c h new v l =
    run-IsLinked base evs (round ev s) c h.1 new.1 (round-IsValid ev s h.0.0 v) (
      Changes-keep (IsLinked base) (Change-IsLinked base ev.env h.0.1 c) s.peer (round ev s).peer
        (round-Changes true ev s h.0.0 (λ _. new.0) v) l)
