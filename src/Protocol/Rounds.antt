-- ===== src/Protocol/Rounds.antt =====
-- One round of the loop of main.c is a sequence of changes of the protocol.
use projet_reseau.Prelude.{
  ℕ, ◌≡◌, refl, ap, List, length, blit, Bool, true, false, leb, Option, none, some, is_some,
  if_cases,
}
use projet_reseau.Neighbor.{Addr}
use projet_reseau.Abr.{get_ident}
use projet_reseau.Net.{send_hello_everyone}
use projet_reseau.Net.Buffer.Everyone.{send_hello_everyone-Keeps, send_to_everyone_now-Keeps}
use projet_reseau.Peer.{Env, Peer, with_neighbors, index_of, add_message_to_flood}
use projet_reseau.Peer.Valid.{IsValid, with_neighbors-IsValid}
use projet_reseau.Periodic.{
  send_symetrical_everyone, send_shorthello_everyone, send_goaway_asymetrical, remove_old_potential,
}
use projet_reseau.Periodic.Valid.{
  symmetric-Keeps, send_symetrical_everyone-IsValid, send_goaway_asymetrical-IsValid,
  remove_old_potential-IsValid,
}
use projet_reseau.Receive.Data.{knows}
use projet_reseau.Delivery.{typed_payload, typed_tlv, typed_bytes}
use projet_reseau.Flooding.{flood_messages}
use projet_reseau.Flooding.Valid.{timed-IsValid, flood_messages-IsValid}
use projet_reseau.Main.{
  State, Event, message_of, receive, typed_text, read_gui, periodic, min_sym, work, round,
}
use projet_reseau.Main.Invariant.{IsDatagram, IsEvent, received, work-IsValid, read}
use projet_reseau.Protocol.{Change, quiet, published, Changes, nothing, later, one, Changes-trans}
use projet_reseau.Protocol.Handlers.{add_flood-dataf, add_flood-neighbors, handle_message_h-Changes}
use projet_reseau.Protocol.Jobs.{
  Keeps-SameNeighbors, sends-Change, send_goaway_asymetrical-Changes, flood_messages-Changes,
}

-- The index that the text gets is not in `DATAF`.
abbrev pub IsNew : Env → Option (List ℕ) → Peer → Type 0
IsNew env none p = Unit
IsNew env (some text) p = knows p (index_of (typed_payload env text p)) ≡ false

-- The state of the peer when the text of the event is read.
abbrev pub at_text : Event → State → Peer
at_text ev s = (receive ev (record s { peer = record (s.peer) { nexttime = s.nexthello } })).peer

module _ (strict : Bool) where
  typed_text-Change :
      (env : Env) (text : List ℕ) (p : Peer)
      → (strict ≡ true → knows p (index_of (typed_payload env text p)) ≡ false)
      → Change strict env p (typed_text env text p)
  unfolding typed_text typed_tlv add_message_to_flood
  typed_text-Change env text p new =
      let payload = typed_payload env text p in
      published payload (length payload) none new
        (λ (q : Addr). ap (λ t. is_some (get_ident t q)) (add_flood-neighbors _ _))
        (rw (typed_bytes env text p) (add_flood-dataf _ p _ refl))

  read_gui-Changes :
      (ev : Event) (s : State) (t : Option (List ℕ))
      → ev.typed ≡ t
      → (strict ≡ true → IsNew ev.env t s.peer)
      → IsValid s.peer
      → Changes strict ev.env s.peer (read_gui ev s).peer
  unfolding read_gui
  read_gui-Changes ev s none e new v = rw (e, read_gui) nothing
  read_gui-Changes ev s (some text) e new v =
      rw (e, read_gui) (one s.peer _ v (typed_text-Change ev.env text s.peer new))

  receive-Changes :
      (ev : Event) (s : State) (d : Option (Addr × List ℕ))
      → ev.datagram ≡ d
      → length ev.stack ≡ 4096
      → IsDatagram d
      → IsValid s.peer
      → Changes strict ev.env s.peer (receive ev s).peer
  unfolding receive
  receive-Changes ev s none e h b v = rw (e, receive) nothing
  receive-Changes ev s (some (client, bytes)) e h b v =
      rw (e, receive)
        (handle_message_h-Changes strict ev.env ev.stack (message_of (blit 0 bytes s.inbox))
          (length bytes) (record { addr = client; msg = none }) s.peer
          (record { sixteen = b.0; no_buffer = refl }) h b.1 v)

  periodic-Changes :
      (env : Env) (s : State) → IsValid s.peer → Changes strict env s.peer (periodic env s).peer
  unfolding periodic send_symetrical_everyone remove_old_potential send_shorthello_everyone
  periodic-Changes env s v =
      let p = s.peer in
      let greeting = send_hello_everyone-Keeps p.id p.neighbors v.good in
      let hellos = with_neighbors p (send_hello_everyone p.id p.neighbors) in
      let v1 = with_neighbors-IsValid p _ greeting v in
      let announced = send_symetrical_everyone env hellos in
      let v2 = send_symetrical_everyone-IsValid env hellos v1 in
      let dropped = send_goaway_asymetrical env announced in
      let v3 = send_goaway_asymetrical-IsValid env announced v2 in
      let cleaned = remove_old_potential env dropped in
      let v4 = remove_old_potential-IsValid env dropped v3 in
      let told : Changes strict env p announced =
        later (one p hellos v (sends-Change strict env p _ greeting)) v1
          (quiet (Keeps-SameNeighbors hellos _ (symmetric-Keeps env hellos v1)) refl) in
      let all : Changes strict env p cleaned =
        later (Changes-trans told (send_goaway_asymetrical-Changes strict env announced v2)) v3
          (quiet (λ q. refl) refl) in
      if_cases (Changes strict env p) (leb cleaned.nb_symetrical min_sym)
        (λ _. later all v4 (quiet (λ q. refl) refl)) (λ _. all)

  pub work-Changes :
      (ev : Event) (s : State)
      → IsEvent ev
      → (strict ≡ true → IsNew ev.env ev.typed (at_text ev s))
      → IsValid s.peer
      → Changes strict ev.env s.peer (work ev s).peer
  unfolding work
  work-Changes ev s h new v =
      let s1 = record s { peer = record (s.peer) { nexttime = s.nexthello } } in
      let v1 = timed-IsValid s.nexthello s.peer v in
      let heard = receive-Changes ev s1 ev.datagram refl h.stack_size h.datagram_size v1 in
      let v2 = received ev s1 ev.datagram refl h.stack_size h.datagram_size v1 in
      let told = read_gui-Changes ev (receive ev s1) ev.typed refl new v2 in
      let v3 = read ev (receive ev s1) ev.typed refl v2 in
      let s2 = read_gui ev (receive ev s1) in
      let up_to =
        Changes-trans (Changes-trans (one s.peer s1.peer v (quiet (λ q. refl) refl)) heard) told in
      if_cases (λ (t : State). Changes strict ev.env s.peer t.peer) (leb s2.nexthello ev.env.now)
        (λ _. Changes-trans up_to (periodic-Changes ev.env s2 v3)) (λ _. up_to)

  -- From a valid state, for an event that the system can give: a round of the loop of main.c takes
  -- the peer through a sequence of changes of the protocol, each from a valid state. Where the index
  -- of what the user typed is not in `DATAF`, no message is put there whose index it holds.
  pub round-Changes :
      (ev : Event) (s : State)
      → IsEvent ev
      → (strict ≡ true → IsNew ev.env ev.typed (at_text ev s))
      → IsValid s.peer
      → Changes strict ev.env s.peer (round ev s).peer
  unfolding round
  round-Changes ev s h new v =
      let v3 = work-IsValid ev s h v in
      let p = (work ev s).peer in
      let flooded = flood_messages ev.env p in
      let v4 = flood_messages-IsValid ev.env p v3 in
      later (Changes-trans (work-Changes ev s h new v) (flood_messages-Changes strict ev.env p v3))
        v4
        (sends-Change strict ev.env flooded _
          (send_to_everyone_now-Keeps flooded.neighbors v4.good))
