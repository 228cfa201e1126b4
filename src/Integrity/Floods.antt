-- ===== src/Integrity/Floods.antt =====
-- The transmission of the floods in util.c: a peer sends texts with the property alone.
use projet_reseau.Prelude.{
  ℕ, zero, suc, ◌+◌, ◌-◌, ◌≡◌, refl, sym, subst, List, [], ◌∷◌, All, length, arith, inl, inr,
  Option, none, some, leb, ◌==◌, if_cases, Option-cases,
}
use projet_reseau.Neighbor.{Addr}
use projet_reseau.Genlist.{GenList}
use projet_reseau.Tlv.{tlv_goaway}
use projet_reseau.Flood.{NgbEntry, FloodEntry, pmtu}
use projet_reseau.Net.{message, send_via}
use projet_reseau.Net.Buffer.Everyone.{message-Carries}
use projet_reseau.Peer.{Env, Peer}
use projet_reseau.Peer.Valid.{IsValid, IsFlood}
use projet_reseau.Flooding.{
  goaway_text, handle_inactive, send_data, from_entry, flood_at, set_neighbors, visit, advance,
  flood_loop, flood_message_to_neighbours, flood_from, flood_messages,
}
use projet_reseau.Flooding.Valid.{flood_at-IsFlood, advance-IsValid, flood_loop-IsValid}
use projet_reseau.Integrity.{IsBody, control-IsBody}
use projet_reseau.Integrity.Sends.{Spreads, send_via-Spreads}
use projet_reseau.Integrity.Peers.{dropped-IsFaithful, IsFaithful, with_neighbors-IsFaithful}

set_neighbors-content {μ} :
    (P : List ℕ → Type μ) (i : ℕ) (l : GenList NgbEntry) (fs : List FloodEntry)
    → All (λ f. P f.content) fs
    → All (λ f. P f.content) (set_neighbors i l fs)
unfolding set_neighbors
set_neighbors-content P zero l [] h = h
set_neighbors-content P (suc i) l [] h = h
set_neighbors-content P zero l (f ∷ fs) h = h
set_neighbors-content P (suc i) l (f ∷ fs) h = (h.0, set_neighbors-content P i l fs h.1)

flood_at-content {μ} :
    (P : List ℕ → Type μ) (i : ℕ) (fs : List FloodEntry) (f : FloodEntry)
    → flood_at i fs ≡ some f
    → All (λ g. P g.content) fs
    → P f.content
unfolding flood_at
flood_at-content P zero [] f e h = ground arith
flood_at-content P (suc i) [] f e h = ground arith
flood_at-content P zero (g ∷ fs) f e h =
    let fg : f ≡ g = ground arith in subst (λ x. P x.content) (sym fg) h.0
flood_at-content P (suc i) (g ∷ fs) f e h = flood_at-content P i fs f e h.1

module _ (T : List ℕ → Type 0) where
  send_data-IsFaithful :
      (g : FloodEntry) (a : Addr) (p : Peer)
      → IsFlood g
      → IsBody T g.content
      → IsValid p
      → IsFaithful T p
      → IsFaithful T (send_data g.content a p)
  unfolding send_data
  send_data-IsFaithful g a p h b v f =
      with_neighbors-IsFaithful T p _
        (subst (λ n. Spreads T (send_via a (message g.content n) (n + 4) p.neighbors)) h.0
          (send_via-Spreads T a (message g.content (length g.content)) g.content p.neighbors
            (message-Carries g.content h.1) b v.good f.waits))
        f

  visit-IsFaithful :
      (env : Env) (i : ℕ) (g : FloodEntry) (nw : NgbEntry) (rest : List NgbEntry) (p : Peer)
      → IsFlood g
      → IsBody T g.content
      → IsValid p
      → IsFaithful T p
      → IsFaithful T (visit env i g nw rest p).1
  unfolding visit handle_inactive tlv_goaway
  visit-IsFaithful env i g nw rest p h b v f =
      let F = λ (r : Option Addr × Peer). IsFaithful T r.1 in
      let w = tlv_goaway (pmtu - 4) 2 goaway_text 24 in
      let sent = send_data-IsFaithful g nw.sym p h b v f in
      if_cases {A = Option Addr × Peer} F (nw.times_sent == 5)
        (λ _.
          dropped-IsFaithful T nw.sym w p refl (omega arith)
            (control-IsBody T 6 25 (2 ∷ goaway_text) refl (omega arith) (omega arith)) v f)
        λ _.
          if_cases {A = Option Addr × Peer} F (leb nw.wait_time env.now)
            (λ _. record {
              waits = sent.waits;
              waits_potential = sent.waits_potential;
              packets = sent.packets;
              floods = set_neighbors-content (IsBody T) i _ _ sent.floods;
              texts = sent.texts;
            })
            (λ _. record {
              waits = f.waits;
              waits_potential = f.waits_potential;
              packets = f.packets;
              floods = f.floods;
              texts = f.texts;
            })

  advance-IsFaithful :
      (env : Env) (i : ℕ) (g : FloodEntry) (chain : List NgbEntry) (p : Peer)
      → IsFlood g
      → IsBody T g.content
      → IsValid p
      → IsFaithful T p
      → IsFaithful T (advance env i g chain p).1
  unfolding advance
  advance-IsFaithful env i g [] p h b v f = f
  advance-IsFaithful env i g (nw ∷ rest) p h b v f = visit-IsFaithful env i g nw rest p h b v f

  flood_loop-IsFaithful :
      (fuel : ℕ) (env : Env) (i : ℕ) (tmp : Option Addr) (p : Peer)
      → IsValid p
      → IsFaithful T p
      → IsFaithful T (flood_loop fuel env i tmp p)
  unfolding flood_loop
  flood_loop-IsFaithful zero env i tmp p v f = f
  flood_loop-IsFaithful (suc fuel) env i none p v f = f
  flood_loop-IsFaithful (suc fuel) env i (some k) p v f =
      elim (Option-cases (flood_at i p.dataf.entries)) [
        | inl e ↦ rw (e, flood_loop) f
        | inr (g, e) ↦
            let chain = from_entry k g.sym_neighbors.entries in
            let next = advance env i g chain p in
            let h = flood_at-IsFlood i p.dataf.entries v.floods e in
            let b = flood_at-content (IsBody T) i p.dataf.entries g e f.floods in
            rw (e, flood_loop)
              (flood_loop-IsFaithful fuel env i next.0 next.1 (advance-IsValid env i g chain p h v)
                (advance-IsFaithful env i g chain p h b v f))
      ]

  flood_from-IsFaithful :
      (n : ℕ) (env : Env) (i : ℕ) (p : Peer)
      → IsValid p
      → IsFaithful T p
      → IsFaithful T (flood_from n env i p)
  unfolding flood_from flood_message_to_neighbours
  flood_from-IsFaithful zero env i p v f = f
  flood_from-IsFaithful (suc n) env i p v f = elim (Option-cases (flood_at i p.dataf.entries)) [
    | inl e ↦ rw (e, flood_from) f
    | inr (g, e) ↦
        rw (e, flood_from)
          (flood_from-IsFaithful n env (i + 1) _ (flood_loop-IsValid _ env i _ p v)
            (flood_loop-IsFaithful _ env i _ p v f))
  ]

  pub flood_messages-IsFaithful :
      (env : Env) (p : Peer) → IsValid p → IsFaithful T p → IsFaithful T (flood_messages env p)
  unfolding flood_messages
  flood_messages-IsFaithful env p v f = flood_from-IsFaithful _ env 0 p v f
