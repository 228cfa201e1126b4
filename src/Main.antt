-- ===== src/Main.antt =====
-- main.c: the state of `main` and one round of its loop, and `disconnect` of util.c.
pub mod Invariant
pub mod Delivered
pub mod Farewell
use projet_reseau.Prelude.{
  ℕ, zero, suc, ◌+◌, ◌-◌, List, [], ◌∷◌, ◌++◌, Option, none, some, if◌then◌else◌, ltb, leb, ◌==◌,
  take, drop, blit, get_or, length, replicate, map,
}
use projet_reseau.Bytes.{le_value}
use projet_reseau.Neighbor.{Addr, Neighbor, MessageH}
use projet_reseau.Abr.{Tree, leaf}
use projet_reseau.Genlist.{init_list}
use projet_reseau.Tlv.{tlv_data, tlv_goaway, tlv_short_hello, random_on_octets}
use projet_reseau.Flood.{compare_flood, pmtu}
use projet_reseau.Net.{
  Datagram, message, size_of, send_message_now, send_to_everyone, send_to_everyone_now,
  send_hello_everyone,
}
use projet_reseau.Peer.{Env, Peer, with_neighbors, add_message_to_flood}
use projet_reseau.Periodic.{
  send_symetrical_everyone, send_shorthello_everyone, send_goaway_asymetrical, remove_old_potential,
}
use projet_reseau.Receive.{handle_message_h, print_on_screen}
use projet_reseau.Flooding.{flood_messages, min}

-- The globals, and the locals of `main` that live on from round to round: the time of the next
-- hellos, and the memory of `msg`.
pub record State : Type 0 where
  pub peer : Peer
  pub nexthello : ℕ
  pub inbox : List ℕ

-- What `select` finds: a datagram on the socket, with the address of its sender, and a text from
-- the GUI. A failing `recvfrom` or `read` is left out.
pub record Event : Type 0 where
  pub env : Env
  pub stack : List ℕ
  pub datagram : Option (Addr × List ℕ)
  pub typed : Option (List ℕ)

-- The globals at the start of the loop: the identity is random.
unfoldable pub init_peer : (ℕ → ℕ) → Peer
unfolding random_on_octets init_list
init_peer rand = record {
  id = le_value (random_on_octets rand 0 8);
  potential = leaf;
  neighbors = leaf;
  dataf = init_list compare_flood;
  nexttime = 0;
  nb_symetrical = 0;
  drawn = 8;
  sent = [];
  shown = [];
}

-- The short hello to all the addresses that `getaddrinfo` returns.
unfoldable pub send_first_message : List Addr → Peer → Peer
unfolding send_message_now tlv_short_hello
send_first_message found p =
    let w = tlv_short_hello 4096 p.id in
    let hello : Addr → Datagram =
      λ a. send_message_now (message w.bytes (size_of w)) 14 (record { addr = a; msg = none }) in
    record p { sent = p.sent ++ map hello found }

-- A `struct message_h` read from memory.
abbrev pub message_of : List ℕ → MessageH
message_of m = record {
  magic = get_or m 0 0;
  version = get_or m 1 0;
  body_length = le_value (take 2 (drop 2 m));
  body = drop 4 m;
}

unfoldable pub receive : Event → State → State
receive ev s = elim (ev.datagram) [
  | none ↦ s
  | some (client, bytes) ↦
      let inbox = blit 0 bytes s.inbox in
      let ngb : Neighbor = record { addr = client; msg = none } in
      let p = handle_message_h ev.env ev.stack (message_of inbox) (length bytes) ngb s.peer in
      record s { peer = p; inbox = inbox }
]

-- The size without a last byte 0 and, then, without a last newline. For size 0 the C code reads the
-- byte in front of the array.
unfoldable pub trim : ℕ → List ℕ → ℕ → ℕ
trim c buf zero = 0
trim c buf (suc n) = if get_or buf n 0 == c then n else suc n

-- What the user types becomes a flood of type 0.
unfoldable pub typed_text : Env → List ℕ → Peer → Peer
typed_text env text p =
    let buf = take 242 text in
    let tmp = trim b'\n' buf (trim 0 buf (length buf)) in
    let w = tlv_data 260 p.id 0 buf tmp (random_on_octets env.rand p.drawn 4) in
    let tlv = w.bytes in
    print_on_screen (take tmp buf) (
      add_message_to_flood env (drop 2 tlv) (get_or tlv 1 0) none
        (record p { drawn = p.drawn + 4 }))

unfoldable pub read_gui : Event → State → State
read_gui ev s = elim (ev.typed) [
  | none ↦ s
  | some text ↦ record s { peer = typed_text ev.env text s.peer }
]

abbrev pub min_sym : ℕ
min_sym = 10

-- The work of every 30 seconds.
unfoldable pub periodic : Env → State → State
periodic env s =
    let hellos = with_neighbors s.peer (send_hello_everyone s.peer.id s.peer.neighbors) in
    let announced = send_symetrical_everyone env hellos in
    let cleaned = remove_old_potential env (send_goaway_asymetrical env announced) in
    let p =
      if leb cleaned.nb_symetrical min_sym then send_shorthello_everyone cleaned else cleaned in
    record s { peer = p; nexthello = env.now + 30 }

-- The seconds that `select` waits at most, and `NEXTTIME` before it.
unfoldable pub timeout : Env → State → ℕ
timeout env s = min s.peer.nexttime s.nexthello - env.now

-- A round up to the floods.
unfoldable pub work : Event → State → State
work ev s =
    let s1 = record s { peer = record (s.peer) { nexttime = s.nexthello } } in
    let s2 = read_gui ev (receive ev s1) in
    if leb s2.nexthello ev.env.now then periodic ev.env s2 else s2

-- One round of the loop of `main`.
unfoldable pub round : Event → State → State
round ev s =
    let s3 = work ev s in
    let p = flood_messages ev.env s3.peer in
    record s3 { peer = with_neighbors p (send_to_everyone_now p.neighbors) }

unfoldable pub run : List Event → State → State
run [] s = s
run (ev ∷ evs) s = run evs (round ev s)

-- The 20 bytes "Bon j'me casse ciao!".
abbrev pub farewell : List ℕ
farewell =
    0x42 ∷ 0x6f ∷ 0x6e ∷ 0x20 ∷ 0x6a ∷ 0x27 ∷ 0x6d ∷ 0x65 ∷ 0x20 ∷ 0x63 ∷ 0x61 ∷ 0x73 ∷ 0x73 ∷ 0x65
    ∷ 0x20 ∷ 0x63 ∷ 0x69 ∷ 0x61 ∷ 0x6f ∷ 0x21 ∷ []

-- `disconnect`, up to the call of `exit`.
unfoldable pub disconnect : Peer → Peer
unfolding tlv_goaway send_to_everyone send_to_everyone_now
disconnect p =
    let w = tlv_goaway (pmtu - 4) 1 farewell 20 in
    let p' =
      with_neighbors p
        (send_to_everyone (message w.bytes (size_of w)) (size_of w + 4) p.neighbors) in
    with_neighbors p' (send_to_everyone_now p'.neighbors)
