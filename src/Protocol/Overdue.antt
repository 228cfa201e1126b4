-- ===== src/Protocol/Overdue.antt =====
-- Behind the transmission of the floods no entry is due: every transmission is made in time for the
-- clock of the round.
use projet_reseau.Prelude.{
  ℕ, ◌-◌, ◌≡◌, refl, sym, ap, ◌∙◌, subst, List, [], ◌∷◌, All, arith, true, false, Option, none,
  some, leb, ◌==◌, is_eq, if_cases,
}
use projet_reseau.Neighbor.{Addr, same}
use projet_reseau.Genlist.{GenList}
use projet_reseau.Genlist.Search.{erase, remove_elem_lem}
use projet_reseau.Flood.{NgbEntry, FloodEntry, compare_n_s, pmtu}
use projet_reseau.Tlv.{tlv_goaway}
use projet_reseau.Peer.{Env, Peer, probe, remove_neighbor_everywhere}
use projet_reseau.Peer.Valid.{IsValid}
use projet_reseau.Periodic.{send_to}
use projet_reseau.Flooding.{
  goaway_text, handle_inactive, send_data, from_entry, pointer, flood_at, visit, advance,
}
use projet_reseau.Flooding.Schedule.{IsNear}
use projet_reseau.Flooding.Rounds.{IsReady, IsTimely, remove-IsReady}
use projet_reseau.Flooding.Loop.{At, Closed, handle_inactive-At, set_neighbors-At}
use projet_reseau.Flooding.Ends.{Ends, at_null, no_flood, further}
use projet_reseau.Flooding.Order.{
  IsTimed, before, IsQuiet, IsQuiet-before, from-IsTimed, stop-IsQuiet, ahead, IsSpared,
  spared-IsQuiet, All-ahead, next-IsSpared, IsOther, ahead-erase,
}
use projet_reseau.Flooding.Valid.{flood_at-IsFlood, advance-IsValid}
use projet_reseau.Protocol.{Change, Changes-keep}
use projet_reseau.Protocol.Floods.{Each, flood_at-Each}
use projet_reseau.Protocol.Jobs.{advance-Changes}
use projet_reseau.Protocol.Unlink.{IsClear, IsRid, compare-probe, remove_from_floods-IsRid}
use projet_reseau.Protocol.Linked.{IsLinked, Change-IsLinked}
use projet_reseau.Protocol.Timed.{IsInOrder, Change-IsInOrder, IsOther-pointer, reschedule-IsQuiet}

-- Linked, and in the order of the times.
pub record IsOnTime (base : ℕ) (p : Peer) : Type 0 where
  pub linked : IsLinked base p
  pub order : Each IsInOrder p.dataf.entries

all_probed :
    (base : ℕ) (a : Addr) (es : List NgbEntry)
    → IsClear base
    → All (IsNear base) es
    → All (λ e. is_eq (compare_n_s e (probe a)) ≡ same e.sym a) es
all_probed base a [] c n = tt
all_probed base a (e ∷ es) c n = (compare-probe base a e c n.0, all_probed base a es c n.1)

-- What the loop knows of the list at `tmp`, and, while a neighbour is taken out, of the list there.
abbrev pub IsDone : ℕ → Option Addr → GenList NgbEntry → Type 0
IsDone now tmp l = IsQuiet now (ahead tmp l.entries)

abbrev IsSparedAt : ℕ → ℕ → Addr → Option Addr → GenList NgbEntry → Type 0
IsSparedAt base now a tmp l = IsReady base l × IsSpared a now (ahead tmp l.entries)

spared-Closed :
    (base now : ℕ) (a : Addr) (tmp : Option Addr)
    → IsClear base
    → IsOther a tmp
    → Closed a (IsSparedAt base now a tmp)
spared-Closed base now a tmp c o l (ready, spared) =
    let chain =
      (remove_elem_lem l (probe a)).0
      ∙ ap (λ comp. erase comp l.entries (probe a)) ready.compared in
    (
      remove-IsReady base l (probe a) ready,
      subst (λ es. IsSpared a now (ahead tmp es)) (sym chain)
          (ahead-erase _ compare_n_s tmp l.entries (probe a) a
            (all_probed base a l.entries c ready.near) o spared),
    )

module _ (base i : ℕ) (env : Env) (clear : IsClear base) (c : IsTimely base env.now) where
  inactive-IsDone :
      (f : FloodEntry) (k : Addr) (nw : NgbEntry) (rest : List NgbEntry) (p : Peer)
      → flood_at i p.dataf.entries ≡ some f
      → from_entry k f.sym_neighbors.entries ≡ nw ∷ rest
      → IsOnTime base p
      → IsQuiet env.now (before k f.sym_neighbors.entries)
      → At (IsDone env.now (pointer rest)) i (handle_inactive nw.sym p).dataf.entries
  unfolding handle_inactive remove_neighbor_everywhere send_to
  inactive-IsDone f k nw rest p at e on q =
      let a = nw.sym in
      let tmp = pointer rest in
      let ready = flood_at-Each (IsReady base) i p.dataf.entries f at on.linked.ready in
      let spared = next-IsSpared env.now k f.sym_neighbors.entries nw rest e q in
      let other = IsOther-pointer k f.sym_neighbors nw rest base ready e in
      let sent = send_to a (tlv_goaway (pmtu - 4) 2 goaway_text 24) p in
      let (g, at', (_, left)) =
        handle_inactive-At (IsSparedAt base env.now a tmp) i a p
          (spared-Closed base env.now a tmp clear other) (f, at, (ready, spared)) in
      let rid =
        flood_at-Each (IsRid a) i _ g at'
          (remove_from_floods-IsRid base a sent clear on.linked.ready on.linked.distinct).0 in
      (
        g,
        at',
        spared-IsQuiet a env.now _
            (All-ahead (λ x. same a x.sym ≡ false) tmp g.sym_neighbors.entries rid) left,
      )

  visit-IsDone :
      (f : FloodEntry) (k : Addr) (nw : NgbEntry) (rest : List NgbEntry) (p : Peer)
      → flood_at i p.dataf.entries ≡ some f
      → from_entry k f.sym_neighbors.entries ≡ nw ∷ rest
      → IsOnTime base p
      → IsQuiet env.now (before k f.sym_neighbors.entries)
      → let (tmp, p') = visit env i f nw rest p in At (IsDone env.now tmp) i p'.dataf.entries
  unfolding visit send_data
  visit-IsDone f k nw rest p at e on q =
      let D = λ (r : Option Addr × Peer). At (IsDone env.now r.0) i r.1.dataf.entries in
      let es = f.sym_neighbors.entries in
      let ready = flood_at-Each (IsReady base) i p.dataf.entries f at on.linked.ready in
      let order = flood_at-Each IsInOrder i p.dataf.entries f at on.order in
      if_cases {A = Option Addr × Peer} D (nw.times_sent == 5)
        (λ _. inactive-IsDone f k nw rest p at e on q)
        λ five.
          if_cases {A = Option Addr × Peer} D (leb nw.wait_time env.now)
            (λ due. (
              _,
              set_neighbors-At i _ p.dataf.entries f at,
              reschedule-IsQuiet base (env.rand p.drawn) env k f.sym_neighbors nw rest ready c e
                  (ground arith) q,
            ))
            (λ late.
              let stopped =
                stop-IsQuiet env.now nw rest (ground arith)
                  (subst IsTimed e (from-IsTimed k es order)) in
              (f, at, IsQuiet-before env.now k es q (subst (IsQuiet env.now) (sym e) stopped)))

  advance-IsDone :
      (f : FloodEntry) (k : Addr) (chain : List NgbEntry) (p : Peer)
      → flood_at i p.dataf.entries ≡ some f
      → from_entry k f.sym_neighbors.entries ≡ chain
      → IsOnTime base p
      → IsQuiet env.now (before k f.sym_neighbors.entries)
      → let (tmp, p') = advance env i f chain p in At (IsDone env.now tmp) i p'.dataf.entries
  unfolding advance
  advance-IsDone f k [] p at e on q = (
    f,
    at,
    IsQuiet-before env.now k f.sym_neighbors.entries q (subst (IsQuiet env.now) (sym e) tt),
  )
  advance-IsDone f k (nw ∷ rest) p at e on q = visit-IsDone f k nw rest p at e on q

  pub Change-IsOnTime :
      (p p' : Peer) → IsValid p → Change true env p p' → IsOnTime base p → IsOnTime base p'
  Change-IsOnTime p p' v s h = record {
    linked = Change-IsLinked base env c clear p p' v s h.linked;
    order = Change-IsInOrder true base env c p p' v h.linked.ready s h.order;
  }

  pub Ends-IsQuiet :
      {tmp : Option Addr} {p r : Peer}
      → Ends env i tmp p r
      → IsValid p
      → IsOnTime base p
      → At (IsDone env.now tmp) i p.dataf.entries
      → At (IsDone env.now none) i r.dataf.entries
  Ends-IsQuiet at_null v on d = d
  Ends-IsQuiet (no_flood e) v on (f, at, d) = absurd (ground arith)
  Ends-IsQuiet (further {k = k} {p = p} f tmp q r at step rest) v on (g, at', d) =
      let fg : g ≡ f = ground (arith, at, at') in
      let chain = from_entry k f.sym_neighbors.entries in
      let here = subst (λ x. IsQuiet env.now (before k x.sym_neighbors.entries)) fg d in
      let next = advance-IsDone f k chain p at refl on here in
      let valid =
        advance-IsValid env i f chain p (flood_at-IsFlood i p.dataf.entries v.floods at) v in
      let kept =
        Changes-keep (IsOnTime base) Change-IsOnTime p (advance env i f chain p).1
          (advance-Changes true env i f k chain p at refl v) on in
      Ends-IsQuiet rest (subst (λ x. IsValid x.1) step valid)
        (subst (λ x. IsOnTime base x.1) step kept)
        (subst (λ x. At (IsDone env.now x.0) i x.1.dataf.entries) step next)
