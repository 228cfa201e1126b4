-- ===== src/Tests/Removal.antt =====
-- Floods and the removal of neighbours: instances of their theorems at a peer with one neighbour.
use projet_reseau.Prelude.{◌≡◌, refl, [], ◌∷◌, none, some, arith, replicate, if◌then◌else◌, ◌++◌}
use projet_reseau.Bytes.{ntohs}
use projet_reseau.Neighbor.{Addr, MessageH, compare_n, compare_ip, same}
use projet_reseau.Net.{message, send_via}
use projet_reseau.Abr.Order as Abr
use projet_reseau.Abr.{leaf, node, get_ident}
use projet_reseau.Flood.{NgbEntry, compare_n_s, FloodEntry, compare_flood}
use projet_reseau.Net.Buffer.{used}
use projet_reseau.Peer.{Env, Peer, remove_neighbor_everywhere}
use projet_reseau.Peer.Valid.{IsValid}
use projet_reseau.Peer.Removal.{remove_neighbor_everywhere-get_ident}
use projet_reseau.Periodic.{send_goaway_asymetrical}
use projet_reseau.Periodic.Farewell.{buffer_at, goaway_lost, IsRoomy, sent_to}
use projet_reseau.Flooding.{visit, flood_at, flood_message_to_neighbours}
use projet_reseau.Flooding.Inactive.{visit_inactive}
use projet_reseau.Flooding.Late.{put_back, flood_message_to_neighbours_late}
use projet_reseau.Main.{init_peer}

abbrev sender : Addr
sender = record { ip = replicate 16 1; port = 1212 }

-- A peer with one neighbour, whose buffer is empty.
abbrev empty_buffer : MessageH
empty_buffer = record { magic = 93; version = 2; body_length = 0; body = [] }

with_one : Peer
with_one = record (init_peer (λ n. n)) {
  neighbors =
      node (record { addr = sender; msg = some empty_buffer })
        (record { id = 1; last_hello = 7; last_hello_long = 7 }) leaf leaf;
}

with_one-IsValid : IsValid with_one
unfolding with_one ntohs init_peer
with_one-IsValid = record {
  ordered = (tt, tt, tt, tt);
  ordered_potential = tt;
  good = (
    (
      refl,
      record {
        small = omega arith;
        inside = omega arith;
        magic = refl;
        version = refl;
        order = refl;
      },
    ),
    tt,
    tt,
  );
  good_potential = tt;
  counted = refl;
  bounded = omega arith;
  compared = refl;
  floods = tt;
  packets = tt;
}

remove_neighbor_everywhere_example :
    (get_ident (remove_neighbor_everywhere sender with_one).neighbors sender
      ≡ (if same sender sender then none else get_ident with_one.neighbors sender))
    × ((remove_neighbor_everywhere sender with_one).sent ≡ with_one.sent)
remove_neighbor_everywhere_example =
    remove_neighbor_everywhere-get_ident sender with_one sender with_one-IsValid.ordered

empty_buffer-used : used empty_buffer ≡ 0
unfolding ntohs
empty_buffer-used = refl

found_buffer : buffer_at with_one.neighbors sender ≡ some empty_buffer
unfolding with_one buffer_at compare_n compare_ip
found_buffer = refl

abbrev at_200 : Env
at_200 = record { now = 200; rand = λ n. n; junk = [] }

found_ident :
    get_ident with_one.neighbors sender
    ≡ some (record { id = 1; last_hello = 7; last_hello_long = 7 })
unfolding with_one get_ident compare_n compare_ip
found_ident = refl

roomy : Abr.All (IsRoomy sender) with_one.neighbors
unfolding with_one
roomy = (λ _. omega (arith, empty_buffer-used), tt, tt)

goaway_lost_example :
    let q = send_goaway_asymetrical at_200 with_one in
    (get_ident q.neighbors sender ≡ none) × (sent_to sender q.sent ≡ sent_to sender with_one.sent)
goaway_lost_example =
    goaway_lost at_200 sender (record { id = 1; last_hello = 7; last_hello_long = 7 }) with_one
      with_one-IsValid found_ident (omega arith) roomy

-- A flood that was sent to the neighbour five times, and would be due again at 999.
abbrev fifth : NgbEntry
fifth = record { sym = sender; times_sent = 5; wait_time = 999 }

abbrev flood : FloodEntry
flood = record {
  index = record { id = 3; nonce = 4 };
  content = 4 ∷ 0 ∷ [];
  sym_neighbors = record { length = 1; entries = fifth ∷ []; compare_f = compare_n_s };
}

visit_inactive_example :
    let (tmp, p') = visit at_200 0 flood fifth [] with_one in
    (tmp ≡ none) × (p'.sent ≡ with_one.sent) × (get_ident p'.neighbors sender ≡ none)
visit_inactive_example =
    visit_inactive at_200 0 flood fifth [] empty_buffer with_one refl with_one-IsValid found_buffer
      (omega (arith, empty_buffer-used))

-- A flood whose only entry is due at 200.
abbrev due : NgbEntry
due = record { sym = sender; times_sent = 2; wait_time = 150 }

abbrev due_flood : FloodEntry
due_flood = record {
  index = record { id = 3; nonce = 4 };
  content = 4 ∷ 0 ∷ [];
  sym_neighbors = record { length = 1; entries = due ∷ []; compare_f = compare_n_s };
}

abbrev with_due : Peer
with_due = record with_one {
  dataf = record { length = 1; entries = due_flood ∷ []; compare_f = compare_flood };
}

found_due : flood_at 0 (due_flood ∷ []) ≡ some due_flood
unfolding flood_at
found_due = refl

flood_message_to_neighbours_late_example :
    let q = flood_message_to_neighbours at_200 0 due_flood with_due in
    let (people, out) = send_via sender (message (4 ∷ 0 ∷ []) 2) 6 with_due.neighbors in
    (q.nexttime ≡ with_due.nexttime)
    × (q.neighbors ≡ people)
    × (q.sent ≡ with_due.sent ++ out)
    × (g : FloodEntry) × (flood_at 0 q.dataf.entries ≡ some g)
    × (g.sym_neighbors.entries ≡ put_back at_200 with_due.drawn due ∷ [])
flood_message_to_neighbours_late_example =
    flood_message_to_neighbours_late at_200 0 due_flood due with_due found_due refl refl
      (omega arith) (omega arith)
