-- ===== src/Startup/Valid.antt =====
-- The program from its start: its first message, and the invariant from there on.
use projet_reseau.Prelude.{
  ℕ, ◌≡◌, refl, sym, subst, ap, ◌∙◌, List, [], ◌∷◌, ◌++◌, append-nil, Option, none, some, All, map,
  length, take, take_all, arith,
}
use projet_reseau.Prelude.Int.{pos}
use projet_reseau.Bytes.{le_bytes, length-le_bytes}
use projet_reseau.Neighbor.{Addr}
use projet_reseau.Net.{Datagram, message, size_of, send_message_now}
use projet_reseau.Tlv.{tlv_short_hello}
use projet_reseau.Net.Buffer.{packet, sent_now}
use projet_reseau.Net.Buffer.Everyone.{IsPacket, All-append}
use projet_reseau.Sockets.{init_socket_client_udp_v2}
use projet_reseau.Peer.{Peer}
use projet_reseau.Peer.Valid.{IsValid}
use projet_reseau.Main.{State, Event, init_peer, send_first_message, run}
use projet_reseau.Main.Invariant.{IsEvent, run-IsValid, init_peer-IsValid}
use projet_reseau.Gui.{Lws, Pipe, Service, handle_gui}
use projet_reseau.Startup.{System, first_peer, greet, start_at, startup, program}

-- The body of a short hello.
abbrev pub short_hello : ℕ → List ℕ
short_hello id = 2 ∷ 8 ∷ le_bytes 8 id

abbrev pub found_at : Option (List Addr) → List Addr
found_at none = []
found_at (some found) = found

unfoldable pub hellos : List Addr → ℕ → List Datagram
hellos found id = map (λ a. packet a (short_hello id)) found

hello_packet : (a : Addr) (id : ℕ) → IsPacket (packet a (short_hello id))
hello_packet a id = (short_hello id, refl, omega (arith, length-le_bytes 8 id))

hellos-All : (found : List Addr) (id : ℕ) → All IsPacket (hellos found id)
unfolding hellos
hellos-All [] id = tt
hellos-All (a ∷ found) id = (hello_packet a id, hellos-All found id)

hello_sent :
    (a : Addr) (id : ℕ)
    → let w = tlv_short_hello 4096 id in
      send_message_now (message w.bytes (size_of w)) 14 (record { addr = a; msg = none })
      ≡ packet a (short_hello id)
unfolding tlv_short_hello
hello_sent a id =
    let body = short_hello id in
    let ten : length body ≡ 10 = omega (arith, length-le_bytes 8 id) in
    let whole : take 10 body ≡ body = take_all 10 body (omega arith) in
    sent_now (message body 10) 10 (record { addr = a; msg = none }) refl refl refl (omega arith)
    ∙ ap (packet a) whole

-- Every address gets one datagram with a short hello.
send_first_message-sent :
    (found : List Addr) (p : Peer)
    → send_first_message found p ≡ record p { sent = p.sent ++ hellos found p.id }
unfolding send_first_message hellos
send_first_message-sent found p =
    ap (λ (f : Addr → Datagram). record p { sent = p.sent ++ map f found })
      (λ i a. hello_sent a p.id i)

pub greet-sent :
    (found : Option (List Addr)) (p : Peer)
    → greet found p ≡ record p { sent = p.sent ++ hellos (found_at found) p.id }
unfolding hellos
greet-sent none p = ap (λ out. record p { sent = out }) (sym (append-nil p.sent))
greet-sent (some found) p = send_first_message-sent found p

greet-IsValid : (found : Option (List Addr)) (p : Peer) → IsValid p → IsValid (greet found p)
greet-IsValid found p v = subst IsValid (sym (greet-sent found p)) (record {
  ordered = v.ordered;
  ordered_potential = v.ordered_potential;
  good = v.good;
  good_potential = v.good_potential;
  counted = v.counted;
  bounded = v.bounded;
  compared = v.compared;
  floods = v.floods;
  packets =
      All-append IsPacket p.sent (hellos (found_at found) p.id) v.packets
        (hellos-All (found_at found) p.id);
})

unfoldable pub started : System → List (List ℕ) → State
started sys argv =
    let (host, service) = first_peer argv in
    record {
      peer = greet (sys.getaddrinfo host service) (init_peer sys.rand);
      nexthello = 0;
      inbox = sys.memory;
    }

pub started-IsValid : (sys : System) (argv : List (List ℕ)) → IsValid (started sys argv).peer
unfolding started
started-IsValid sys argv =
    greet-IsValid (sys.getaddrinfo (first_peer argv).0 (first_peer argv).1) (init_peer sys.rand)
      (init_peer-IsValid sys.rand)

fresh_sent : (rand : ℕ → ℕ) → (init_peer rand).sent ≡ []
unfolding init_peer
fresh_sent rand = refl

-- Where `setsockopt` does not fail, the process of the peer comes to its loop, whatever its
-- arguments are; its first messages are short hellos, one to each address that `getaddrinfo` finds
-- for the host and the port of `first_peer`; and every run of the loop from there, over events that
-- the system can give, ends in a valid state.
pub program-IsValid :
    (lws : Lws) (fd fd2 : Pipe) (services : List Service) (sys : System) (argv : List (List ℕ))
    (evs : List Event) (k : ℕ)
    → sys.rc ≡ pos k
    → All IsEvent evs
    → (s : State) × (program lws (pos 0) fd fd2 services sys argv evs ≡ some (run evs s))
      × (s.peer.sent
          ≡ hellos (found_at (sys.getaddrinfo (first_peer argv).0 (first_peer argv).1)) s.peer.id)
      × IsValid (run evs s).peer
unfolding program startup start_at handle_gui init_socket_client_udp_v2 started
program-IsValid lws fd fd2 services sys argv evs k h a =
    let s = started sys argv in
    let found = sys.getaddrinfo (first_peer argv).0 (first_peer argv).1 in
    let greeted = greet-sent found (init_peer sys.rand) in
    (
      s,
      rw h refl,
      rw (greeted, fresh_sent sys.rand) refl,
      run-IsValid evs s a (started-IsValid sys argv),
    )
