-- ===== src/Integrity/Rounds.antt =====
-- The loop of main.c: where what arrives, and what the user types, carries texts with the property,
-- a peer shows, floods and sends such texts alone.
use projet_reseau.Prelude.{
  ℕ, ◌+◌, ◌-◌, ◌≤◌, ◌≡◌, refl, sym, ap, ◌∙◌, subst, List, [], ◌∷◌, ◌++◌, append-nil, append_assoc,
  All, length, length-append, arith, leb, if_cases, Option, none, some,
}
use projet_reseau.Bytes.{le_bytes, length-le_bytes}
use projet_reseau.Neighbor.{Addr, Neighbor}
use projet_reseau.Tlv.{random_on_octets}
use projet_reseau.Tlv.Format.{length-random}
use projet_reseau.Flood.{pmtu}
use projet_reseau.Net.{send_hello_everyone}
use projet_reseau.Net.Buffer.{packet}
use projet_reseau.Net.Buffer.Everyone.{send_hello_everyone-Keeps}
use projet_reseau.Peer.{Env, Peer, with_neighbors, add_message_to_flood}
use projet_reseau.Peer.Valid.{IsValid, with_neighbors-IsValid}
use projet_reseau.Periodic.{send_symetrical_everyone, send_goaway_asymetrical, remove_old_potential}
use projet_reseau.Periodic.Valid.{
  send_symetrical_everyone-IsValid, send_goaway_asymetrical-IsValid, remove_old_potential-IsValid,
}
use projet_reseau.Receive.Frames.{Frame, pad1, tlv, encode, IsFrame}
use projet_reseau.Delivery.{
  trimmed, typed_payload, typed_tlv, typed_bytes, length-payload, length-trimmed,
  handle_message_h-packet,
}
use projet_reseau.Flooding.{flood_messages}
use projet_reseau.Flooding.Valid.{timed-IsValid, flood_messages-IsValid}
use projet_reseau.Main.{State, Event, receive, typed_text, read_gui, periodic, min_sym, work, round}
use projet_reseau.Main.Invariant.{IsDatagram, IsEvent, received, read, drawn-IsValid, work-IsValid}
use projet_reseau.Integrity.{IsData, IsHonest, IsBody}
use projet_reseau.Integrity.Sends.{send_hello_everyone-Spreads, send_to_everyone_now-Spreads}
use projet_reseau.Integrity.Peers.{
  IsFaithful, with_neighbors-IsFaithful, shown-IsFaithful, add_message_to_flood-IsFaithful,
}
use projet_reseau.Integrity.Handlers.{hello-IsBody, handle_all-IsFaithful}
use projet_reseau.Integrity.Jobs.{
  send_symetrical_everyone-IsFaithful, send_shorthello_everyone-IsFaithful,
  send_goaway_asymetrical-IsFaithful, remove_old_potential-IsFaithful,
}
use projet_reseau.Integrity.Floods.{flood_messages-IsFaithful}

module _ (T : List ℕ → Type 0) where
  -- What arrives is a packet whose body carries texts with the property.
  abbrev pub IsCarrier : List ℕ → Type 0
  IsCarrier bytes =
      (a : Addr) × (body : List ℕ) × (bytes ≡ (packet a body).bytes)
      × (length body ≤ pmtu - 4)
      × IsBody T body

  abbrev pub IsFrom : Option (Addr × List ℕ) → Type 0
  IsFrom none = Unit
  IsFrom (some (client, bytes)) = IsCarrier bytes

  -- What the user types is, trimmed, a text with the property.
  abbrev pub IsTyped : Option (List ℕ) → Type 0
  IsTyped none = Unit
  IsTyped (some text) = T (trimmed text)

  frames-IsFrame : (fs : List Frame) → All (IsHonest T) fs → All IsFrame fs
  frames-IsFrame [] a = tt
  frames-IsFrame (pad1 ∷ fs) a = (tt, frames-IsFrame fs a.1)
  frames-IsFrame (tlv type payload ∷ fs) a = (a.0.0, frames-IsFrame fs a.1)

  receive-IsFaithful :
      (ev : Event) (s : State) (d : Option (Addr × List ℕ))
      → ev.datagram ≡ d
      → length ev.stack ≡ 4096
      → IsDatagram d
      → IsFrom d
      → IsValid s.peer
      → IsFaithful T s.peer
      → IsFaithful T (receive ev s).peer
  unfolding receive
  receive-IsFaithful ev s none e h b c v f = rw (e, receive) f
  receive-IsFaithful ev s (some (client, bytes)) e h b (a, body, same, small, (fs, honest, coded)) v
        f =
      let k : Neighbor = record { addr = client; msg = none } in
      let whole : bytes ≡ (packet a (encode fs)).bytes =
        same ∙ ap (λ x. (packet a x).bytes) coded in
      let handled =
        handle_message_h-packet fs a s.inbox ev.env ev.stack k s.peer (frames-IsFrame fs honest)
          (omega (arith, small, ap length coded)) in
      let kept =
        handle_all-IsFaithful T fs ev.env ev.stack k s.peer honest (b.0, tt) refl (omega arith) v
          f in
      rw (e, receive, whole) (subst (IsFaithful T) (sym handled) kept)

  typed-IsData :
      (env : Env) (text : List ℕ) (p : Peer)
      → T (trimmed text)
      → IsData T (typed_payload env text p)
  unfolding typed_payload
  typed-IsData env text p t =
      let id = le_bytes 8 p.id in
      let nonce = random_on_octets env.rand p.drawn 4 in
      let head = id ++ (nonce ++ (0 ∷ [])) in
      (
        head,
        trimmed text,
        omega (
          arith,
          length-append id (nonce ++ (0 ∷ [])),
          length-append nonce (0 ∷ []),
          length-le_bytes 8 p.id,
          length-random env.rand p.drawn 4,
        ),
        sym (
            append_assoc id (nonce ++ (0 ∷ [])) (trimmed text)
            ∙ ap (λ xs. id ++ xs) (append_assoc nonce (0 ∷ []) (trimmed text))),
        omega (arith, length-payload env text p, length-trimmed text),
        t,
      )

  typed_text-IsFaithful :
      (env : Env) (text : List ℕ) (p : Peer)
      → T (trimmed text)
      → IsValid p
      → IsFaithful T p
      → IsFaithful T (typed_text env text p)
  unfolding typed_text trimmed typed_tlv
  typed_text-IsFaithful env text p t v f =
      let payload = typed_payload env text p in
      let q = record p { drawn = p.drawn + 4 } in
      let drawn : IsFaithful T q = record {
        waits = f.waits;
        waits_potential = f.waits_potential;
        packets = f.packets;
        floods = f.floods;
        texts = f.texts;
      } in
      let added =
        add_message_to_flood-IsFaithful T env payload [] none q (typed-IsData env text p t)
          (drawn-IsValid (p.drawn + 4) p v) drawn in
      let flooded : IsFaithful T (add_message_to_flood env payload (length payload) none q) =
        subst (λ xs. IsFaithful T (add_message_to_flood env xs (length payload) none q))
          (append-nil payload) added in
      rw (typed_bytes env text p) (shown-IsFaithful T (trimmed text) _ t flooded)

  read_gui-IsFaithful :
      (ev : Event) (s : State) (t : Option (List ℕ))
      → ev.typed ≡ t
      → IsTyped t
      → IsValid s.peer
      → IsFaithful T s.peer
      → IsFaithful T (read_gui ev s).peer
  unfolding read_gui
  read_gui-IsFaithful ev s none e t v f = rw (e, read_gui) f
  read_gui-IsFaithful ev s (some text) e t v f =
      rw (e, read_gui) (typed_text-IsFaithful ev.env text s.peer t v f)

  periodic-IsFaithful :
      (env : Env) (s : State)
      → IsValid s.peer
      → IsFaithful T s.peer
      → IsFaithful T (periodic env s).peer
  unfolding periodic
  periodic-IsFaithful env s v f =
      let p = s.peer in
      let hellos = with_neighbors p (send_hello_everyone p.id p.neighbors) in
      let v1 = with_neighbors-IsValid p _ (send_hello_everyone-Keeps p.id p.neighbors v.good) v in
      let f1 =
        with_neighbors-IsFaithful T p _
          (send_hello_everyone-Spreads T p.id p.neighbors (hello-IsBody T p.id) v.good f.waits) f in
      let announced = send_symetrical_everyone env hellos in
      let v2 = send_symetrical_everyone-IsValid env hellos v1 in
      let f2 = send_symetrical_everyone-IsFaithful T env hellos v1 f1 in
      let dropped = send_goaway_asymetrical env announced in
      let v3 = send_goaway_asymetrical-IsValid env announced v2 in
      let f3 = send_goaway_asymetrical-IsFaithful T env announced v2 f2 in
      let cleaned = remove_old_potential env dropped in
      let v4 = remove_old_potential-IsValid env dropped v3 in
      let f4 = remove_old_potential-IsFaithful T env dropped f3 in
      if_cases (IsFaithful T) (leb cleaned.nb_symetrical min_sym)
        (λ _. send_shorthello_everyone-IsFaithful T cleaned v4 f4) (λ _. f4)

  work-IsFaithful :
      (ev : Event) (s : State)
      → IsEvent ev
      → IsFrom ev.datagram
      → IsTyped ev.typed
      → IsValid s.peer
      → IsFaithful T s.peer
      → IsFaithful T (work ev s).peer
  unfolding work
  work-IsFaithful ev s h c t v f =
      let s1 = record s { peer = record (s.peer) { nexttime = s.nexthello } } in
      let v1 = timed-IsValid s.nexthello s.peer v in
      let f1 : IsFaithful T s1.peer = record {
        waits = f.waits;
        waits_potential = f.waits_potential;
        packets = f.packets;
        floods = f.floods;
        texts = f.texts;
      } in
      let v2 = received ev s1 ev.datagram refl h.stack_size h.datagram_size v1 in
      let f2 = receive-IsFaithful ev s1 ev.datagram refl h.stack_size h.datagram_size c v1 f1 in
      let s2 = read_gui ev (receive ev s1) in
      let v3 = read ev (receive ev s1) ev.typed refl v2 in
      let f3 = read_gui-IsFaithful ev (receive ev s1) ev.typed refl t v2 f2 in
      if_cases (λ (u : State). IsFaithful T u.peer) (leb s2.nexthello ev.env.now)
        (λ _. periodic-IsFaithful ev.env s2 v3 f3) (λ _. f3)

  pub round-IsFaithful :
      (ev : Event) (s : State)
      → IsEvent ev
      → IsFrom ev.datagram
      → IsTyped ev.typed
      → IsValid s.peer
      → IsFaithful T s.peer
      → IsFaithful T (round ev s).peer
  unfolding round
  round-IsFaithful ev s h c t v f =
      let p = (work ev s).peer in
      let v1 = work-IsValid ev s h v in
      let flooded = flood_messages ev.env p in
      let v2 = flood_messages-IsValid ev.env p v1 in
      let f2 = flood_messages-IsFaithful T ev.env p v1 (work-IsFaithful ev s h c t v f) in
      with_neighbors-IsFaithful T flooded _
        (send_to_everyone_now-Spreads T flooded.neighbors v2.good f2.waits) f2
