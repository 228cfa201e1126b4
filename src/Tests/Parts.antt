-- ===== src/Tests/Parts.antt =====
-- Texts on their way, long messages, sockets and the shape of trees: instances of their theorems.
use projet_reseau.Prelude.{
  ℕ, ◌+◌, ◌≡◌, refl, List, [], ◌∷◌, ◌++◌, Option, none, some, false, arith, length, replicate,
  length-replicate, take, drop, blit,
}
use projet_reseau.Neighbor.{Addr, Neighbor, compare_n, compare_ip}
use projet_reseau.Abr.{Tree, leaf, node}
use projet_reseau.Abr.Order as Abr
use projet_reseau.Genlist.{get, init_list}
use projet_reseau.Genlist.Counted.{with_front}
use projet_reseau.Tlv.{random_on_octets}
use projet_reseau.Flood.{FloodEntry}
use projet_reseau.Net.{Datagram}
use projet_reseau.Net.Buffer.{packet}
use projet_reseau.Sockets.{
  sockaddr6_to_neighbor, neighbor_to_sockaddr6, sockaddr6_to_neighbor-neighbor_to_sockaddr6,
}
use projet_reseau.Peer.{Env, Peer, index_of}
use projet_reseau.Peer.Valid.{IsValid}
use projet_reseau.Receive.{handle_message_h}
use projet_reseau.Receive.Frames.{Frame, pad1, tlv, encode, handle_all}
use projet_reseau.Receive.Data.{knows}
use projet_reseau.Flooding.{flood_messages}
use projet_reseau.Main.{disconnect, State, Event, init_peer, message_of, typed_text, work, round}
use projet_reseau.Main.Invariant.{round-IsValid, IsEvent, init_peer-IsValid}
use projet_reseau.Main.Farewell.{IsTold, disconnect_lem}
use projet_reseau.Main.Delivered.{IsIdle, IsDelivered, round_delivers}
use projet_reseau.Fragments.{write_long}
use projet_reseau.Fragments.Texts.{flood_all, texts, pieces, write_long_lem, write_long_loses}
use projet_reseau.Delivery.{
  typed_payload, handle_message_h-packet, typed_text_arrives, shown_as, without_last,
}

abbrev here : Addr
here = record { ip = replicate 16 1; port = 1212 }

abbrev from_here : Neighbor
from_here = record { addr = here; msg = none }

abbrev env_at : ℕ → Env
env_at t = record { now = t; rand = λ n. n; junk = [] }

memory : List ℕ
memory = replicate 4096 0

memory-size : length memory ≡ 4096
unfolding memory
memory-size = length-replicate {A = ℕ} 4096 0

first : Peer
first = init_peer (λ n. n)

first-IsValid : IsValid first
unfolding first
first-IsValid = init_peer-IsValid (λ n. n)

second : Peer
second = init_peer (λ n. n + 8)

second-IsValid : IsValid second
unfolding second
second-IsValid = init_peer-IsValid (λ n. n + 8)

-- "hi" and a newline.
abbrev greeting : List ℕ
greeting = 0x68 ∷ 0x69 ∷ 0x0a ∷ []

new_to_second : knows second (index_of (typed_payload (env_at 5) greeting first)) ≡ false
unfolding second init_peer init_list get
new_to_second = refl

typed_text_arrives_example :
    (f : FloodEntry) × (out : Option FloodEntry) × ((typed_text (env_at 5) greeting first).shown
      ≡ first.shown ++ (shown_as greeting ∷ []))
    × (with_front out (typed_text (env_at 5) greeting first).dataf.entries
        ≡ first.dataf.entries ++ (f ∷ []))
    × (let sent = (packet here f.content).bytes in
        (handle_message_h
          (env_at 6)
          memory
          (message_of (blit 0 sent []))
          (length sent)
          from_here
          second).shown
        ≡ second.shown ++ (shown_as greeting ∷ []))
typed_text_arrives_example =
    typed_text_arrives (env_at 5) (env_at 6) greeting first second here [] memory from_here
      (unfold without_last in omega arith) first-IsValid second-IsValid new_to_second

greeting_shown : shown_as greeting ≡ 0x68 ∷ 0x69 ∷ []
unfolding shown_as without_last
greeting_shown = refl

-- A padding byte, a TLV of an unknown type and a GoAway.
abbrev three_tlvs : List Frame
three_tlvs = pad1 ∷ tlv 9 (1 ∷ 2 ∷ []) ∷ tlv 6 (2 ∷ []) ∷ []

handle_message_h-packet_example :
    (let sent = (packet here (encode three_tlvs)).bytes in
      handle_message_h
        (env_at 5)
        memory
        (message_of (blit 0 sent (7 ∷ [])))
        (length sent)
        from_here
        first)
    ≡ handle_all (env_at 5) three_tlvs memory from_here first
handle_message_h-packet_example =
    handle_message_h-packet three_tlvs here (7 ∷ []) (env_at 5) memory from_here first
      (tt, (omega arith, (omega arith, tt))) (unfold encode in omega arith)

abbrev busy : Event
busy = record {
  env = env_at 31;
  stack = memory;
  datagram = some (here, 93 ∷ 2 ∷ 0 ∷ 10 ∷ 2 ∷ 8 ∷ replicate 8 5);
  typed = some greeting;
}

busy-IsEvent : IsEvent busy
busy-IsEvent = record { stack_size = memory-size; datagram_size = (refl, omega arith) }

abbrev before : State
before = record { peer = first; nexthello = 0; inbox = [] }

round_delivers_example :
    Abr.All IsIdle (round busy before).peer.neighbors
    × (out : List Datagram) × ((round busy before).peer.sent
        ≡ (flood_messages busy.env (work busy before).peer).sent ++ out)
    × Abr.All (IsDelivered out) (flood_messages busy.env (work busy before).peer).neighbors
round_delivers_example = round_delivers busy before busy-IsEvent first-IsValid

-- The peer after that round, with its sender as a neighbour.
abbrev after : Peer
after = (round busy before).peer

disconnect_example :
    (out : List Datagram) × ((disconnect after).sent ≡ after.sent ++ out)
    × Abr.All (IsTold out) after.neighbors
    × Abr.All IsIdle (disconnect after).neighbors
disconnect_example = disconnect_lem after (round-IsValid busy before busy-IsEvent first-IsValid)

sockaddr6_to_neighbor-neighbor_to_sockaddr6_example :
    sockaddr6_to_neighbor (neighbor_to_sockaddr6 from_here) ≡ from_here
sockaddr6_to_neighbor-neighbor_to_sockaddr6_example =
    sockaddr6_to_neighbor-neighbor_to_sockaddr6 from_here refl (omega arith)

long : List ℕ
long = replicate 400 7

long-size : length long ≡ 400
unfolding long
long-size = length-replicate {A = ℕ} 400 7

write_long_lem_example :
    write_long (env_at 5) long 300 first
    ≡ flood_all
        (env_at 5)
        (pieces (random_on_octets (λ n. n) first.drawn 4) long 300)
        (record first { drawn = first.drawn + 4 })
write_long_lem_example = write_long_lem (env_at 5) long 300 first (omega arith)

write_long_loses_example :
    let ps = pieces (random_on_octets (λ n. n) first.drawn 4) long 300 in
    (write_long (env_at 5) long 300 first
      ≡ flood_all (env_at 5) ps (record first { drawn = first.drawn + 4 }))
    × (texts ps ≡ take 290 (drop 1 long))
    × (length (texts ps) + 9 ≡ 299)
write_long_loses_example =
    write_long_loses (env_at 5) long 300 first (omega arith) (omega arith)
      (omega (arith, long-size))

abbrev two : Tree
two =
    node from_here (record { id = 1; last_hello = 2; last_hello_long = 2 }) leaf
      (node (record { addr = record { ip = replicate 16 1; port = 1300 }; msg = none })
        (record { id = 3; last_hello = 2; last_hello_long = 2 }) leaf leaf)

two-IsOrdered : Abr.IsOrdered two
unfolding compare_n compare_ip
two-IsOrdered = (tt, (refl, tt, tt), tt, (tt, tt, tt, tt))
