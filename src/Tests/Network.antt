-- ===== src/Tests/Network.antt =====
-- Two peers and the network between them: an instance of its theorem.
use projet_reseau.Prelude.{
  ℕ, ◌+◌, ◌≡◌, refl, List, [], ◌∷◌, none, some, arith, length, replicate, length-replicate, All,
}
use projet_reseau.Prelude.Int.{pos}
use projet_reseau.Bytes.{le_bytes, length-le_bytes, le_value}
use projet_reseau.Neighbor.{Addr}
use projet_reseau.Net.Buffer.{packet}
use projet_reseau.Peer.Valid.{IsValid}
use projet_reseau.Tlv.{random_on_octets, tlv_short_hello}
use projet_reseau.Net.{send_message_now, message_bytes}
use projet_reseau.Bytes.{htons}
use projet_reseau.Sockets.{init_socket_client_udp_v2}
use projet_reseau.Startup as Startup
use projet_reseau.Startup.{Started, startup, start_at}
use projet_reseau.Startup.Valid.{started, short_hello}
use projet_reseau.Main.{Event, init_peer, round, send_first_message}
use projet_reseau.Main.Invariant.{IsEvent}
use projet_reseau.Network.{
  World, update, IsInFlight, Steps, start, further, works, typed_in, IsOneOf,
}
use projet_reseau.Network.Start.{IsStarted}
use projet_reseau.Network.Safety.{shown_texts_were_typed}

abbrev here : Addr
here = record { ip = replicate 16 9; port = 1212 }

-- The systems that the peers run on: their identities differ, and all greet one address.
abbrev system : ℕ → Startup.System
system i = record {
  rand = λ n. n + i;
  atoi = length;
  getaddrinfo = λ host service. some (here ∷ []);
  soc = pos 3;
  rc = pos 0;
  memory = [];
}

abbrev argv : List (List ℕ)
argv = (0x70 ∷ []) ∷ []

world : World
world i = started (system i) argv

world-IsStarted : (i : ℕ) → IsStarted (world i)
unfolding world started startup start_at init_socket_client_udp_v2
world-IsStarted i = (system i, argv, _, refl, refl)

zero_stack : List ℕ
zero_stack = replicate 4096 0

zero_stack-size : length zero_stack ≡ 4096
unfolding zero_stack
zero_stack-size = length-replicate {A = ℕ} 4096 0

-- The hello of peer 0.
abbrev greeting : List ℕ
greeting = (packet here (short_hello (world 0).peer.id)).bytes

abbrev hearing : Event
hearing = record {
  env = record { now = 40; rand = λ n. n; junk = [] };
  stack = zero_stack;
  datagram = some (record { ip = replicate 16 8; port = 5000 }, greeting);
  typed = none;
}

abbrev typing : Event
typing = record {
  env = record { now = 41; rand = λ n. n; junk = [] };
  stack = zero_stack;
  datagram = none;
  typed = some (0x68 ∷ 0x69 ∷ []);
}

abbrev heard : World
heard = update 1 (round hearing (world 1)) world

abbrev typed : World
typed = update 1 (round typing (heard 1)) heard

hearing-IsEvent : IsEvent hearing
unfolding le_bytes
hearing-IsEvent = record {
  stack_size = zero_stack-size;
  datagram_size = (refl, omega (arith, length-le_bytes 8 (world 0).peer.id));
}

hearing-IsInFlight : IsInFlight world hearing.datagram
unfolding world started init_peer send_first_message tlv_short_hello send_message_now message_bytes
    random_on_octets le_value le_bytes htons
hearing-IsInFlight = (0, packet here (short_hello (world 0).peer.id), ([], [], refl), refl)

-- Peer 1 hears peer 0, and then its user types a text.
steps : Steps world typed
steps =
    further (further start (works 1 hearing hearing-IsEvent hearing-IsInFlight (λ j. refl)))
      (works 1 typing (record { stack_size = zero_stack-size; datagram_size = tt }) tt (λ j. refl))

shown_texts_were_typed_example :
    IsValid (typed 1).peer × All (IsOneOf (typed_in steps)) (typed 1).peer.shown
shown_texts_were_typed_example = shown_texts_were_typed world typed steps world-IsStarted 1
