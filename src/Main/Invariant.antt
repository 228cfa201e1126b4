-- ===== src/Main/Invariant.antt =====
-- The invariant of the globals over every run of the loop of `main`.
use projet_reseau.Prelude.{
  ℕ, zero, suc, ◌+◌, ◌≤◌, ◌≡◌, refl, List, [], ◌∷◌, All, length, length-take, take, drop, get_or,
  blit, arith, Option, none, some, leb, ◌==◌, if_cases, inl, inr,
}
use projet_reseau.Neighbor.{Addr}
use projet_reseau.Tlv.{tlv_data, random_on_octets}
use projet_reseau.Tlv.Format.{length-random, tlv_data-Writes}
use projet_reseau.Net.Buffer.Everyone.{send_to_everyone_now-Keeps, send_hello_everyone-Keeps}
use projet_reseau.Peer.{Env, Peer}
use projet_reseau.Peer.Valid.{IsValid, with_neighbors-IsValid, add_message_to_flood-IsValid}
use projet_reseau.Periodic.Valid.{
  send_symetrical_everyone-IsValid, send_goaway_asymetrical-IsValid, remove_old_potential-IsValid,
  send_shorthello_everyone-IsValid,
}
use projet_reseau.Receive.Valid.{handle_message_h-IsValid, show-IsValid}
use projet_reseau.Flooding.Valid.{flood_messages-IsValid, timed-IsValid}
use projet_reseau.Main.{
  State, Event, init_peer, message_of, receive, trim, typed_text, read_gui, periodic, work, round,
  run,
}

-- What the system guarantees: `recvfrom` writes no more than a `struct message_h`, an IPv6 address
-- has 16 bytes, and the array `tlv` has 4096.
abbrev pub IsDatagram : Option (Addr × List ℕ) → Type 0
IsDatagram none = Unit
IsDatagram (some (client, bytes)) = (length client.ip ≡ 16) × (length bytes ≤ 4100)

pub record IsEvent (ev : Event) : Type 0 where
  pub stack_size : length ev.stack ≡ 4096
  pub datagram_size : IsDatagram ev.datagram

pub received :
    (ev : Event) (s : State) (d : Option (Addr × List ℕ))
    → ev.datagram ≡ d
    → length ev.stack ≡ 4096
    → IsDatagram d
    → IsValid s.peer
    → IsValid (receive ev s).peer
unfolding receive
received ev s none e h b v = rw (e, receive) v
received ev s (some (client, bytes)) e h b v =
    rw (e, receive)
      (handle_message_h-IsValid ev.env ev.stack (message_of (blit 0 bytes s.inbox)) (length bytes)
        (record { addr = client; msg = none }) s.peer (record { sixteen = b.0; no_buffer = refl }) h
        b.1 v)

pub drawn-IsValid : (n : ℕ) (p : Peer) → IsValid p → IsValid (record p { drawn = n })
drawn-IsValid n p v = record {
  ordered = v.ordered;
  ordered_potential = v.ordered_potential;
  good = v.good;
  good_potential = v.good_potential;
  counted = v.counted;
  bounded = v.bounded;
  compared = v.compared;
  floods = v.floods;
  packets = v.packets;
}

pub trim-le : (c : ℕ) (buf : List ℕ) (n : ℕ) → trim c buf n ≤ n
unfolding trim
trim-le c buf zero = omega arith
trim-le c buf (suc n) =
    if_cases (λ m. m ≤ suc n) (get_or buf n 0 == c) (λ _. omega arith) (λ _. omega arith)

-- The second byte of a TLV is the number of bytes behind it.
whole_tlv :
    (type : ℕ) (payload bytes : List ℕ)
    → bytes ≡ type ∷ length payload ∷ payload
    → get_or bytes 1 0 ≤ length (drop 2 bytes)
whole_tlv type payload bytes e = rw e (omega arith)

pub typed_text-IsValid :
    (env : Env) (text : List ℕ) (p : Peer) → IsValid p → IsValid (typed_text env text p)
unfolding typed_text
typed_text-IsValid env text p v =
    let buf = take 242 text in
    let first = trim 0 buf (length buf) in
    let tmp = trim b'\n' buf first in
    let nonce = random_on_octets env.rand p.drawn 4 in
    let tlv = (tlv_data 260 p.id 0 buf tmp nonce).bytes in
    let small : tmp ≤ length buf =
      omega (arith, trim-le b'\n' buf first, trim-le 0 buf (length buf)) in
    let short : length buf ≤ 242 = omega (arith, length-take 242 text) in
    let fits : get_or tlv 1 0 ≤ length (drop 2 tlv) =
      elim (tlv_data-Writes 260 p.id 0 buf tmp nonce small (omega arith)
        (length-random env.rand p.drawn 4)) [
          | inl (_, _, e) ↦ whole_tlv 4 _ tlv e.0
          | inr (h, _) ↦ absurd (omega arith)
        ] in
    show-IsValid (take tmp buf) _ (
      add_message_to_flood-IsValid env (drop 2 tlv) (get_or tlv 1 0) none
        (record p { drawn = p.drawn + 4 }) fits (drawn-IsValid (p.drawn + 4) p v))

pub read :
    (ev : Event) (s : State) (t : Option (List ℕ))
    → ev.typed ≡ t
    → IsValid s.peer
    → IsValid (read_gui ev s).peer
unfolding read_gui
read ev s none e v = rw (e, read_gui) v
read ev s (some text) e v = rw (e, read_gui) (typed_text-IsValid ev.env text s.peer v)

pub periodic-IsValid : (env : Env) (s : State) → IsValid s.peer → IsValid (periodic env s).peer
unfolding periodic
periodic-IsValid env s v =
    let hellos =
      with_neighbors-IsValid s.peer _ (send_hello_everyone-Keeps s.peer.id s.peer.neighbors v.good)
        v in
    let announced = send_symetrical_everyone-IsValid env _ hellos in
    let cleaned =
      remove_old_potential-IsValid env _ (send_goaway_asymetrical-IsValid env _ announced) in
    if_cases IsValid _ (λ _. send_shorthello_everyone-IsValid _ cleaned) (λ _. cleaned)

pub work-IsValid : (ev : Event) (s : State) → IsEvent ev → IsValid s.peer → IsValid (work ev s).peer
unfolding work
work-IsValid ev s h v =
    let timed = timed-IsValid s.nexthello s.peer v in
    let s1 = record s { peer = record (s.peer) { nexttime = s.nexthello } } in
    let heard = received ev s1 ev.datagram refl h.stack_size h.datagram_size timed in
    let s2 = read_gui ev (receive ev s1) in
    let told = read ev (receive ev s1) ev.typed refl heard in
    if_cases (λ (t : State). IsValid t.peer) (leb s2.nexthello ev.env.now)
      (λ _. periodic-IsValid ev.env s2 told) (λ _. told)

-- One round of the loop keeps the invariant, whatever arrives.
pub round-IsValid :
    (ev : Event) (s : State) → IsEvent ev → IsValid s.peer → IsValid (round ev s).peer
unfolding round
round-IsValid ev s h v =
    let flooded = flood_messages-IsValid ev.env _ (work-IsValid ev s h v) in
    with_neighbors-IsValid _ _ (send_to_everyone_now-Keeps _ flooded.good) flooded

-- From a valid state, every run over events with a frame of 4096 bytes and datagrams that
-- `recvfrom` can give ends in a valid state: the trees are search trees, every buffer fits a
-- datagram, `DATAF` is counted and within its bound, and what is sent is well formed.
pub run-IsValid :
    (evs : List Event) (s : State) → All IsEvent evs → IsValid s.peer → IsValid (run evs s).peer
unfolding run
run-IsValid [] s h v = v
run-IsValid (ev ∷ evs) s h v = run-IsValid evs (round ev s) h.1 (round-IsValid ev s h.0 v)

pub init_peer-IsValid : (rand : ℕ → ℕ) → IsValid (init_peer rand)
unfolding init_peer
init_peer-IsValid rand = record {
  ordered = tt;
  ordered_potential = tt;
  good = tt;
  good_potential = tt;
  counted = refl;
  bounded = omega arith;
  compared = refl;
  floods = tt;
  packets = tt;
}
