-- ===== src/Tests/Gui.antt =====
-- The server of the page and the start of the program: instances of their theorems.
use projet_reseau.Prelude.{
  ℕ, if◌then◌else◌, ◌≡◌, refl, List, [], ◌∷◌, none, some, true, false, arith, All, length,
  replicate, length-replicate,
}
use projet_reseau.Prelude.Int.{pos}
use projet_reseau.Peer.Valid.{IsValid}
use projet_reseau.Main.{State, Event, run}
use projet_reseau.Main.Invariant.{IsEvent}
use projet_reseau.Gui.{
  Lws, Gui, established, receive, raw_rx_file, Call, Service, Pipe, forked, handle_gui,
}
use projet_reseau.Gui.Traffic.{written, frames, typed, relayed, AreGood, same_fd}
use projet_reseau.Gui.Relay.{all_calls, handle_gui_relays}
use projet_reseau.Startup.{System, first_peer, program}
use projet_reseau.Startup.Valid.{hellos, found_at, program-IsValid}

abbrev lws : Lws
lws = record { lws_pre = 16; lwsmpro_file = 2; best_practices = 8192; create_context = λ i. true }

abbrev to_server : Pipe
to_server = record { read_end = pos 3; write_end = pos 4 }

abbrev to_peer : Pipe
to_peer = record { read_end = pos 5; write_end = pos 6 }

-- A browser comes, sends "hi", and gets "\0yo" from the peer.
abbrev opening : Call
opening = record {
  wsi = 1;
  parent = 0;
  reason = established;
  input = [];
  allocated = true;
  adopted = true;
  waiting = λ fd. none;
}

abbrev saying : Call
saying = record {
  wsi = 1;
  parent = 0;
  reason = receive;
  input = 0x68 ∷ 0x69 ∷ [];
  allocated = true;
  adopted = true;
  waiting = λ fd. none;
}

abbrev hearing : Call
hearing = record {
  wsi = 2;
  parent = 1;
  reason = raw_rx_file;
  input = [];
  allocated = true;
  adopted = true;
  waiting = λ fd. if same_fd fd (pos 3) then some (0 ∷ 0x79 ∷ 0x6f ∷ []) else none;
}

abbrev services : List Service
services =
    record { calls = opening ∷ saying ∷ []; result = pos 0 }
    ∷ record { calls = hearing ∷ []; result = pos 0 }
    ∷ []

services-AreGood : AreGood (pos 3) false (all_calls services)
unfolding all_calls
services-AreGood = (
  record { allocated = refl; adopted = refl; input = omega arith; waiting = tt; allowed = tt },
  (
    record { allocated = refl; adopted = refl; input = omega arith; waiting = tt; allowed = tt },
    (
      record {
        allocated = refl;
        adopted = refl;
        input = omega arith;
        waiting = omega arith;
        allowed = refl;
      },
      tt,
    ),
  ),
)

handle_gui_relays_example :
    (g : Gui) × (handle_gui lws (pos 7) to_server to_peer services ≡ some (g, false))
    × (written (pos 6) g.actions ≡ typed (all_calls services))
    × (frames g.actions ≡ relayed (pos 3) (all_calls services))
    × ((forked (pos 0) to_server to_peer).magic_read ≡ pos 5)
    × ((forked (pos 0) to_server to_peer).magic_write ≡ pos 4)
    × (g.magic_write ≡ pos 6)
handle_gui_relays_example =
    handle_gui_relays lws 6 to_server to_peer services refl refl (refl, (refl, tt)) services-AreGood

browsers_typed : typed (all_calls services) ≡ 0x68 ∷ 0x69 ∷ []
unfolding typed all_calls
browsers_typed = refl

-- One address for every host.
abbrev sys : System
sys = record {
  rand = λ n. n;
  atoi = length;
  getaddrinfo = λ host service. some (record { ip = replicate 16 9; port = 1212 } ∷ []);
  soc = pos 3;
  rc = pos 0;
  memory = [];
}

zero_stack : List ℕ
zero_stack = replicate 4096 0

zero_stack-size : length zero_stack ≡ 4096
unfolding zero_stack
zero_stack-size = length-replicate {A = ℕ} 4096 0

abbrev quiet : List Event
quiet =
    record {
      env = record { now = 40; rand = λ n. n; junk = [] };
      stack = zero_stack;
      datagram = none;
      typed = some (0x68 ∷ 0x69 ∷ []);
    }
    ∷ []

quiet-All : All IsEvent quiet
quiet-All = (record { stack_size = zero_stack-size; datagram_size = tt }, tt)

abbrev argv : List (List ℕ)
argv = (0x70 ∷ []) ∷ (0x68 ∷ []) ∷ (0x31 ∷ []) ∷ []

program-IsValid_example :
    (s : State) × (program lws (pos 0) to_server to_peer [] sys argv quiet ≡ some (run quiet s))
    × (s.peer.sent
        ≡ hellos (found_at (sys.getaddrinfo (first_peer argv).0 (first_peer argv).1)) s.peer.id)
    × IsValid (run quiet s).peer
program-IsValid_example = program-IsValid lws to_server to_peer [] sys argv quiet 0 refl quiet-All
