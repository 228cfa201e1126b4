-- ===== src/Tests/Protocol.antt =====
-- The peer as a transition system: instances of its theorems.
use projet_reseau.Prelude.{
  ℕ, ◌≡◌, refl, List, [], ◌∷◌, none, some, arith, length, replicate, length-replicate, true, false,
}
use projet_reseau.Neighbor.{Addr, compare_n, compare_ip}
use projet_reseau.Abr.{leaf, node}
use projet_reseau.Genlist.{get}
use projet_reseau.Flood.{NgbEntry, FloodEntry, compare_n_s, compare_flood}
use projet_reseau.Peer.{Env, Peer, remove_neighbor_everywhere}
use projet_reseau.Peer.Valid.{IsValid}
use projet_reseau.Flooding.{flood_at, flood_messages}
use projet_reseau.Flooding.Ends.{Passes}
use projet_reseau.Main.{State, Event, init_peer, receive, work, round, run}
use projet_reseau.Main.Invariant.{init_peer-IsValid}
use projet_reseau.Protocol.{hears, Changes}
use projet_reseau.Protocol.Rounds.{round-Changes}
use projet_reseau.Protocol.Ready.{AreReady, IsTimelyEvent, run-Passes}
use projet_reseau.Protocol.Linked.{IsLinked, IsNewRun, run-IsLinked}
use projet_reseau.Protocol.Dangling.{remove_neighbor_everywhere_dangles}

abbrev sender : Addr
sender = record { ip = replicate 16 1; port = 1212 }

abbrev env_at : ℕ → Env
env_at t = record { now = t; rand = λ n. n; junk = [] }

-- Memory of a frame that has not been written to.
zero_stack : List ℕ
zero_stack = replicate 4096 0

zero_stack-size : length zero_stack ≡ 4096
unfolding zero_stack
zero_stack-size = length-replicate {A = ℕ} 4096 0

fresh : Peer
fresh = init_peer (λ n. n)

fresh-IsValid : IsValid fresh
unfolding fresh
fresh-IsValid = init_peer-IsValid (λ n. n)

fresh-AreReady : AreReady 100 fresh
unfolding fresh init_peer
fresh-AreReady = tt

fresh-IsLinked : IsLinked 100 fresh
unfolding fresh init_peer
fresh-IsLinked = record { ready = fresh-AreReady; distinct = tt; heard = tt }

abbrev start : State
start = record { peer = fresh; nexthello = 0; inbox = [] }

-- A text from the user.
abbrev typing : Event
typing = record {
  env = env_at 200;
  stack = zero_stack;
  datagram = none;
  typed = some (0x68 ∷ 0x69 ∷ 0x0a ∷ []);
}

-- A short hello.
abbrev greeting : Event
greeting = record {
  env = env_at 201;
  stack = zero_stack;
  datagram = some (sender, 93 ∷ 2 ∷ 0 ∷ 10 ∷ 2 ∷ 8 ∷ replicate 8 5);
  typed = none;
}

typing-IsTimelyEvent : IsTimelyEvent 100 typing
typing-IsTimelyEvent = (
  record { stack_size = zero_stack-size; datagram_size = tt },
  record { late = omega arith; early = omega arith },
)

greeting-IsTimelyEvent : IsTimelyEvent 100 greeting
greeting-IsTimelyEvent = (
  record { stack_size = zero_stack-size; datagram_size = (refl, omega arith) },
  record { late = omega arith; early = omega arith },
)

both-IsNewRun : IsNewRun (typing ∷ greeting ∷ []) start
unfolding receive get fresh init_peer
both-IsNewRun = (refl, (tt, tt))

round-Changes_example : Changes true (env_at 201) fresh (round greeting start).peer
round-Changes_example =
    round-Changes true greeting start greeting-IsTimelyEvent.0 (λ _. tt) fresh-IsValid

run-Passes_example :
    let p = (work typing (run (typing ∷ greeting ∷ []) start)).peer in
    Passes (env_at 200) (length p.dataf.entries) 0 p (flood_messages (env_at 200) p)
run-Passes_example =
    run-Passes 100 (typing ∷ greeting ∷ []) typing start
      (typing-IsTimelyEvent, (greeting-IsTimelyEvent, tt)) typing-IsTimelyEvent fresh-IsValid
      fresh-AreReady

run-IsLinked_example : IsLinked 100 (run (typing ∷ greeting ∷ []) start).peer
run-IsLinked_example =
    run-IsLinked 100 (typing ∷ greeting ∷ []) start
      (record { above = omega arith; below = omega arith })
      (typing-IsTimelyEvent, (greeting-IsTimelyEvent, tt)) both-IsNewRun fresh-IsValid
      fresh-IsLinked

abbrev leaving : Addr
leaving = record { ip = replicate 16 2; port = 1212 }

-- An entry that is due 65536 seconds after the start of the clock, and one of another neighbour.
abbrev early : NgbEntry
early = record { sym = sender; times_sent = 0; wait_time = 65536 }

abbrev late : NgbEntry
late = record { sym = leaving; times_sent = 0; wait_time = 65537 }

abbrev waiting : FloodEntry
waiting = record {
  index = record { id = 5; nonce = 6 };
  content = [];
  sym_neighbors = record { entries = early ∷ late ∷ []; length = 2; compare_f = compare_n_s };
}

abbrev with_flood : Peer
with_flood = record fresh {
  neighbors =
      node (record { addr = leaving; msg = none })
        (record { id = 1; last_hello = 7; last_hello_long = 7 }) leaf leaf;
  dataf = record { entries = waiting ∷ []; length = 1; compare_f = compare_flood };
}

remove_neighbor_everywhere_dangles_example :
    let after = remove_neighbor_everywhere leaving with_flood in
    (hears after leaving ≡ false)
    × (g : FloodEntry) × (flood_at 0 after.dataf.entries ≡ some g)
    × (g.sym_neighbors.entries ≡ late ∷ [])
unfolding compare_n compare_ip
remove_neighbor_everywhere_dangles_example =
    remove_neighbor_everywhere_dangles waiting [] early late [] with_flood (tt, tt, tt, tt) refl
      (tt, tt) refl refl refl (omega arith) (omega arith)
