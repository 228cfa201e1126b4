-- ===== src/Protocol/Jobs.antt =====
-- What the loop of main.c does besides a datagram, as changes of the protocol: a text from the GUI,
-- the work of every 30 seconds, and the transmission of the floods.
use projet_reseau.Prelude.{
  ℕ, zero, suc, ◌+◌, ◌-◌, ◌≤◌, ◌≡◌, refl, ap, List, [], ◌∷◌, length, arith, Bool, inl, inr, leb,
  ◌==◌, Option, none, some, is_some, if_cases, Option-cases,
}
use projet_reseau.Neighbor.{Addr}
use projet_reseau.Abr.{Tree, is_old}
use projet_reseau.Tlv.{Written, tlv_goaway}
use projet_reseau.Flood.{NgbEntry, FloodEntry, pmtu, find_by}
use projet_reseau.Net.{Datagram, size_of}
use projet_reseau.Net.Buffer.Everyone.{Keeps}
use projet_reseau.Peer.{Env, Peer, with_neighbors, remove_neighbor_everywhere}
use projet_reseau.Peer.Valid.{IsValid, remove_neighbor_everywhere-IsValid}
use projet_reseau.Periodic.{send_to, goaway_old, send_goaway_asymetrical}
use projet_reseau.Periodic.Valid.{send_to-IsValid, send_to-Keeps}
use projet_reseau.Receive.Hello.{Keeps-get_ident}
use projet_reseau.Flooding.{
  goaway_text, handle_inactive, send_data, from_entry, flood_at, visit, advance, flood_loop,
  flood_message_to_neighbours, flood_from, flood_messages,
}
use projet_reseau.Flooding.Valid.{
  flood_at-IsFlood, advance-IsValid, flood_loop-IsValid, send_data-Keeps,
}
use projet_reseau.Protocol.{
  SameNeighbors, Change, quiet, repeated, Changes, nothing, later, one, Changes-trans,
}
use projet_reseau.Protocol.Handlers.{everywhere-Change}

-- Sends leave the neighbours.
pub Keeps-SameNeighbors :
    (p : Peer) (result : Tree × List Datagram)
    → Keeps p.neighbors result
    → SameNeighbors p (with_neighbors p result)
Keeps-SameNeighbors p (t, out) k q = ap is_some (Keeps-get_ident p.neighbors (t, out) q k)

module _ (strict : Bool) (env : Env) where
  pub sends-Change :
      (p : Peer) (result : Tree × List Datagram)
      → Keeps p.neighbors result
      → Change strict env p (with_neighbors p result)
  sends-Change p (t, out) k = quiet (Keeps-SameNeighbors p (t, out) k) refl

  -- A GoAway to the neighbour of an entry, which is then dropped.
  dropped-Changes :
      (a : Addr) (w : Written) (p : Peer)
      → size_of w ≡ length w.bytes
      → length w.bytes ≤ pmtu - 4
      → IsValid p
      → Changes strict env p (remove_neighbor_everywhere a (send_to a w p))
  unfolding send_to
  dropped-Changes a w p e h v =
      let v' = send_to-IsValid a w p e h v in
      later (one p (send_to a w p) v (sends-Change p _ (send_to-Keeps a w p e h v))) v'
        (everywhere-Change strict env a (send_to a w p) v')

  goaway_old-Changes :
      (es : List NgbEntry) (p : Peer) → IsValid p → Changes strict env p (goaway_old es p)
  unfolding goaway_old
  goaway_old-Changes [] p v = nothing
  goaway_old-Changes (e ∷ es) p v =
      let w = tlv_goaway (pmtu - 4) 2 [] 0 in
      Changes-trans (dropped-Changes e.sym w p refl (omega arith) v) (
        goaway_old-Changes es _ (
          remove_neighbor_everywhere-IsValid e.sym _
            (send_to-IsValid e.sym w p refl (omega arith) v)))

  -- One round at an entry of a flood.
  pub visit-Changes :
      (i : ℕ) (f : FloodEntry) (k : Addr) (nw : NgbEntry) (rest : List NgbEntry) (p : Peer)
      → flood_at i p.dataf.entries ≡ some f
      → from_entry k f.sym_neighbors.entries ≡ nw ∷ rest
      → IsValid p
      → Changes strict env p (visit env i f nw rest p).1
  unfolding visit send_data handle_inactive tlv_goaway
  visit-Changes i f k nw rest p at e v =
      let C = λ (r : Option Addr × Peer). Changes strict env p r.1 in
      let flood = flood_at-IsFlood i p.dataf.entries v.floods at in
      if_cases {A = Option Addr × Peer} C (nw.times_sent == 5)
        (λ _.
          dropped-Changes nw.sym (tlv_goaway (pmtu - 4) 2 goaway_text 24) p refl (omega arith) v)
        λ five.
          if_cases {A = Option Addr × Peer} C (leb nw.wait_time env.now)
            (λ due.
              let sent = send_data f.content nw.sym p in
              one p _ v (
                repeated i (env.rand sent.drawn) f k nw rest at e (ground arith) (ground arith)
                  (Keeps-SameNeighbors p _ (send_data-Keeps f nw.sym p flood v)) refl))
            (λ _. one p _ v (quiet (λ q. refl) refl))

  pub advance-Changes :
      (i : ℕ) (f : FloodEntry) (k : Addr) (chain : List NgbEntry) (p : Peer)
      → flood_at i p.dataf.entries ≡ some f
      → from_entry k f.sym_neighbors.entries ≡ chain
      → IsValid p
      → Changes strict env p (advance env i f chain p).1
  unfolding advance
  advance-Changes i f k [] p at e v = nothing
  advance-Changes i f k (nw ∷ rest) p at e v = visit-Changes i f k nw rest p at e v

  pub flood_loop-Changes :
      (fuel : ℕ) (i : ℕ) (tmp : Option Addr) (p : Peer)
      → IsValid p
      → Changes strict env p (flood_loop fuel env i tmp p)
  unfolding flood_loop
  flood_loop-Changes zero i tmp p v = nothing
  flood_loop-Changes (suc fuel) i none p v = nothing
  flood_loop-Changes (suc fuel) i (some k) p v = elim (Option-cases (flood_at i p.dataf.entries)) [
    | inl e ↦ rw (e, flood_loop) nothing
    | inr (f, e) ↦
        let chain = from_entry k f.sym_neighbors.entries in
        let next = advance env i f chain p in
        let flood = flood_at-IsFlood i p.dataf.entries v.floods e in
        rw (e, flood_loop)
          (Changes-trans (advance-Changes i f k chain p e refl v)
            (flood_loop-Changes fuel i next.0 next.1 (advance-IsValid env i f chain p flood v)))
  ]

  flood_from-Changes :
      (n i : ℕ) (p : Peer) → IsValid p → Changes strict env p (flood_from n env i p)
  unfolding flood_from flood_message_to_neighbours
  flood_from-Changes zero i p v = nothing
  flood_from-Changes (suc n) i p v = elim (Option-cases (flood_at i p.dataf.entries)) [
    | inl e ↦ rw (e, flood_from) nothing
    | inr (f, e) ↦
        rw (e, flood_from)
          (Changes-trans (flood_loop-Changes _ i _ p v)
            (flood_from-Changes n (i + 1) _ (flood_loop-IsValid _ env i _ p v)))
  ]

  pub flood_messages-Changes : (p : Peer) → IsValid p → Changes strict env p (flood_messages env p)
  unfolding flood_messages
  flood_messages-Changes p v = flood_from-Changes (length p.dataf.entries) 0 p v

  pub send_goaway_asymetrical-Changes :
      (p : Peer) → IsValid p → Changes strict env p (send_goaway_asymetrical env p)
  unfolding send_goaway_asymetrical
  send_goaway_asymetrical-Changes p v =
      goaway_old-Changes (find_by env.now p.neighbors (is_old env.now)).entries p v
