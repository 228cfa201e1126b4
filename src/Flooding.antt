-- ===== src/Flooding.antt =====
-- util.c: the transmission of the floods, and the neighbours that do not answer.
pub mod Valid
pub mod Schedule
pub mod Rounds
pub mod Loop
pub mod Ends
pub mod Late
pub mod Order
pub mod Inactive
use projet_reseau.Prelude.{
  ℕ, zero, suc, ◌+◌, ◌-◌, ◌*◌, List, [], ◌∷◌, ◌++◌, Option, none, some, true, if◌then◌else◌, ltb,
  leb, ◌==◌, is_eq, length, get_or, lt, eq, gt,
}
use projet_reseau.Bytes.{htons}
use projet_reseau.Neighbor.{Addr, same}
use projet_reseau.Genlist.{GenList, add_elem, remove_elem}
use projet_reseau.Tlv.{Written, tlv_goaway}
use projet_reseau.Flood.{NgbEntry, FloodEntry, pmtu, wait_time}
use projet_reseau.Net.{Datagram, message, send_via}
use projet_reseau.Peer.{Env, Peer, with_neighbors, remove_neighbor_everywhere}
use projet_reseau.Periodic.{send_to}

-- The 24 bytes of the array `goaway` that are sent; the string is UTF-8.
abbrev pub goaway_text : List ℕ
goaway_text =
    0x57 ∷ 0x65 ∷ 0x73 ∷ 0x68 ∷ 0x2c ∷ 0x20 ∷ 0x74 ∷ 0x27 ∷ 0x65 ∷ 0x73 ∷ 0x20 ∷ 0x6f ∷ 0xc3 ∷ 0xb9
    ∷ 0x20 ∷ 0x3f ∷ 0x20 ∷ 0x42 ∷ 0x72 ∷ 0x65 ∷ 0x66 ∷ 0x2c ∷ 0x62 ∷ 0x79 ∷ []

unfoldable pub handle_inactive : Addr → Peer → Peer
handle_inactive sym p =
    remove_neighbor_everywhere sym (send_to sym (tlv_goaway (pmtu - 4) 2 goaway_text 24) p)

-- A TLV in a message of its own, through a pointer into `NEIGHBORS`; the C function returns 1.
unfoldable pub send_data : List ℕ → Addr → Peer → Peer
unfolding send_via
send_data tlv key p =
    let body_length = get_or tlv 1 0 + 2 in
    with_neighbors p (send_via key (message tlv body_length) (body_length + 4) p.neighbors)

-- The chain from the entry of `k` on: `tmp` is the pointer to that entry.
unfoldable pub from_entry : Addr → List NgbEntry → List NgbEntry
from_entry k [] = []
from_entry k (e ∷ es) = if same e.sym k then e ∷ es else from_entry k es

-- The pointer to the first entry of a chain.
abbrev pub pointer : List NgbEntry → Option Addr
pointer [] = none
pointer (e ∷ es) = some e.sym

-- The flood number `i` of `DATAF`, and the change of its list in place.
unfoldable pub flood_at : ℕ → List FloodEntry → Option FloodEntry
flood_at i [] = none
flood_at zero (f ∷ fs) = some f
flood_at (suc i) (f ∷ fs) = flood_at i fs

unfoldable pub set_neighbors : ℕ → GenList NgbEntry → List FloodEntry → List FloodEntry
set_neighbors i l [] = []
set_neighbors zero l (f ∷ fs) = record f { sym_neighbors = l } ∷ fs
set_neighbors (suc i) l (f ∷ fs) = f ∷ set_neighbors i l fs

abbrev pub min : ℕ → ℕ → ℕ
min x y = if leb x y then x else y

-- The entry with one transmission more, at its new time, taken out and put back by its order.
unfoldable pub reschedule : Env → ℕ → NgbEntry → GenList NgbEntry → GenList NgbEntry
unfolding remove_elem add_elem wait_time
reschedule env r nw l =
    let (l', temp) = remove_elem l nw in
    elim temp [
      | none ↦ l'
      | some n ↦
          (add_elem true l' (record n {
            times_sent = n.times_sent + 1;
            wait_time = wait_time r (n.times_sent + 1) + env.now;
          })).0
    ]

-- One round of the loop of `flood_message_to_neighbours`: what `tmp` becomes, and the peer.
unfoldable pub visit : Env → ℕ → FloodEntry → NgbEntry → List NgbEntry → Peer → Option Addr × Peer
visit env i f nw rest p =
    if nw.times_sent == 5
    then (pointer rest, handle_inactive nw.sym p)
    else if leb nw.wait_time env.now
    then (let p' = send_data f.content nw.sym p in
        let l = reschedule env (env.rand p'.drawn) nw f.sym_neighbors in
        (
          pointer rest,
          record p' {
            drawn = p'.drawn + 1;
            dataf = record (p'.dataf) { entries = set_neighbors i l p'.dataf.entries };
          },
        ))
    else (none, record p { nexttime = min p.nexttime nw.wait_time })

-- The round at the entry that `tmp` points to, the first of the chain.
unfoldable pub advance : Env → ℕ → FloodEntry → List NgbEntry → Peer → Option Addr × Peer
advance env i f [] p = (none, p)
advance env i f (nw ∷ rest) p = visit env i f nw rest p

-- The loop on fuel, from the pointer `tmp` on. An entry that is put back lies in the future, but it
-- may be reached again where it has been sent five times.
unfoldable pub flood_loop : ℕ → Env → ℕ → Option Addr → Peer → Peer
flood_loop zero env i tmp p = p
flood_loop (suc fuel) env i none p = p
flood_loop (suc fuel) env i (some k) p = elim (flood_at i p.dataf.entries) [
  | none ↦ p
  | some f ↦
      let (tmp', p') = advance env i f (from_entry k f.sym_neighbors.entries) p in
      flood_loop fuel env i tmp' p'
]

-- An entry is visited at most twice: where it is due, and where it has been sent five times.
unfoldable pub flood_message_to_neighbours : Env → ℕ → FloodEntry → Peer → Peer
flood_message_to_neighbours env i f p =
    let entries = f.sym_neighbors.entries in
    flood_loop (2 * length entries + 1) env i (pointer entries) p

-- The loop over `DATAF`, whose chain does not change: `n` floods are left, from number `i` on.
unfoldable pub flood_from : ℕ → Env → ℕ → Peer → Peer
flood_from zero env i p = p
flood_from (suc n) env i p = elim (flood_at i p.dataf.entries) [
  | none ↦ p
  | some f ↦ flood_from n env (i + 1) (flood_message_to_neighbours env i f p)
]

unfoldable pub flood_messages : Env → Peer → Peer
flood_messages env p = flood_from (length p.dataf.entries) env 0 p
