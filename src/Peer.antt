-- ===== src/Peer.antt =====
-- peer.h: the globals of the peer, and the functions of list.c and net_lib.c that change them. The
-- lists of floods and of entries are allocated with success throughout; the functions of Abr.antt
-- and Genlist.antt have their branches without memory as well.
pub mod Valid
pub mod Removal
use projet_reseau.Prelude.{
  ℕ, zero, suc, ◌+◌, ◌-◌, ◌%◌, ◌^◌, List, [], ◌∷◌, ◌++◌, Option, none, some, Bool, true, false, map,
  if◌then◌else◌, ltb, is_eq, is_some, take, drop, blit,
}
use projet_reseau.Bytes.{le_value}
use projet_reseau.Neighbor.{Addr, DataIndex}
use projet_reseau.Abr.{Tree, leaf, is_node, remove_neighbor, is_old}
use projet_reseau.Genlist.{GenList, init_list, add_limited, remove_elem}
use projet_reseau.Flood.{
  NgbEntry, FloodEntry, compare_n_s, compare_flood, compare_d, pmtu, nb_data, find_by,
  get_symmetrical, init_flood,
}
use projet_reseau.Net.{Datagram}

-- What the system gives during one event: the time in seconds, the results of `rand()` in the
-- order of the calls, and what `malloc` leaves in the body of a message.
pub record Env : Type 0 where
  pub now : ℕ
  pub rand : ℕ → ℕ
  pub junk : List ℕ

-- The globals, the calls of `rand()` so far, and what was sent and shown, in that order. `BIGDATA`
-- is set up and never used.
pub record Peer : Type 0 where
  pub id : ℕ
  pub potential : Tree
  pub neighbors : Tree
  pub dataf : GenList FloodEntry
  pub nexttime : ℕ
  pub nb_symetrical : ℕ
  pub drawn : ℕ
  pub sent : List Datagram
  pub shown : List (List ℕ)

-- A tree and the datagrams that a call on `NEIGHBORS` gives, put in place.
abbrev pub with_neighbors : Peer → Tree × List Datagram → Peer
with_neighbors p (t, out) = record p { neighbors = t; sent = p.sent ++ out }

abbrev pub with_potential : Peer → Tree × List Datagram → Peer
with_potential p (t, out) = record p { potential = t; sent = p.sent ++ out }

-- The entry that names a neighbour, for a search in a list of entries.
abbrev pub probe : Addr → NgbEntry
probe peer = record { sym = peer; times_sent = 0; wait_time = 0 }

abbrev pub without : Addr → FloodEntry → FloodEntry
without peer flood = record flood {
  sym_neighbors = (remove_elem flood.sym_neighbors (probe peer)).0;
}

-- The first flood of the index is changed in place, as `get` finds it.
unfoldable pub remove_in_first : DataIndex → Addr → List FloodEntry → List FloodEntry
unfolding remove_elem compare_d
remove_in_first index peer [] = []
remove_in_first index peer (f ∷ fs) =
    if is_eq (compare_d f.index index)
    then without peer f ∷ fs
    else f ∷ remove_in_first index peer fs

unfoldable pub remove_neighbor_from_flood : DataIndex → Addr → Peer → Peer
unfolding remove_in_first
remove_neighbor_from_flood index peer p = record p {
  dataf = record (p.dataf) { entries = remove_in_first index peer p.dataf.entries };
}

-- The loop of `remove_neighbor_everywhere`. No step changes the chain or an index.
unfoldable pub remove_from_floods : List DataIndex → Addr → Peer → Peer
unfolding remove_neighbor_from_flood
remove_from_floods [] peer p = p
remove_from_floods (index ∷ indices) peer p =
    remove_from_floods indices peer (remove_neighbor_from_flood index peer p)

abbrev pub indices : List FloodEntry → List DataIndex
indices = map (λ f. f.index)

unfoldable pub remove_neighbor_everywhere : Addr → Peer → Peer
unfolding remove_from_floods remove_neighbor
remove_neighbor_everywhere peer p =
    let p' = remove_from_floods (indices p.dataf.entries) peer p in
    record p' { neighbors = remove_neighbor peer p'.neighbors }

-- The 4 bytes of a nonce and the 8 bytes of an identity at the start of a content.
abbrev pub index_of : List ℕ → DataIndex
index_of msg_send = record {
  id = le_value (take 8 msg_send);
  nonce = le_value (take 4 (drop 8 msg_send));
}

-- `init_flood` gives null for no size below 256, and so the last case does not arise.
unfoldable pub add_flood : Option FloodEntry → Peer → Peer
unfolding add_limited
add_flood none p = p
add_flood (some flood) p = record p { dataf = (add_limited true p.dataf flood nb_data).0 }

unfoldable pub delete_from : Option Addr → GenList NgbEntry → GenList NgbEntry
unfolding remove_elem
delete_from none l = l
delete_from (some peer) l = (remove_elem l (probe peer)).0

-- `msg_send` is the memory from the pointer on, of which `size_msg_send` bytes are flooded.
unfoldable pub add_message_to_flood : Env → List ℕ → ℕ → Option Addr → Peer → Peer
add_message_to_flood env msg_send size_msg_send to_delete p =
    let symmetric = get_symmetrical env.now p.neighbors in
    let targets = delete_from to_delete symmetric in
    let msg = 4 ∷ size_msg_send ∷ take size_msg_send msg_send in
    add_flood (init_flood (index_of msg_send) msg targets) p
