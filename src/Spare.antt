-- ===== src/Spare.antt =====
-- What the program declares and does not call: lines 47 to 67 and 110 to 115 of list.c, lines 55 to
-- 66 of util.c, and the constants and the structure of the headers that it does not use.
use projet_reseau.Prelude.{
  ℕ, List, [], ◌∷◌, ◌++◌, Option, none, some, Ordering, eq, gt, if◌then◌else◌, is_eq, map, ◌%◌, ◌^◌,
}
use projet_reseau.Neighbor.{Addr, DataIndex, compare_n}
use projet_reseau.Flood.{NgbEntry, FloodEntry}
use projet_reseau.Peer.{Peer}

-- `MAX_SIZE` of struct.h and `JCH` of peer.h.
abbrev pub max_size : ℕ
max_size = 4096

abbrev pub jch : ℕ
jch = 1212

-- `struct submessages`.
pub record Submessages : Type 0 where
  pub actual_length : ℕ
  pub length_received : ℕ
  pub submessages : List ℕ

-- 1 for one neighbour and 0, which says "equal", for two.
unfoldable pub compare_n_s2 : NgbEntry → NgbEntry → Ordering
compare_n_s2 n1 n2 = if is_eq (compare_n n1.sym n2.sym) then gt else eq

-- What the calls of `free` are given, in their order: the index, each entry, the list and the flood.
pub data Freed : Type 0 where
  index : DataIndex → Freed
  entry : NgbEntry → Freed
  entries : Freed
  flood : Freed

unfoldable pub free_flood : FloodEntry → List Freed
free_flood f = index f.index ∷ (map entry f.sym_neighbors.entries ++ (entries ∷ flood ∷ []))

-- `get` is given an index where the comparison takes floods, and reads a pointer from it, unless
-- `DATAF` is empty: the result is none for that fault.
unfoldable pub add_neighbor_to_flood : DataIndex → Addr → Peer → Option (ℕ × Peer)
add_neighbor_to_flood ind peer p = elim p.dataf.entries [ [] ↦ some (0, p) | f ∷ fs ↦ none ]

unfoldable pub add_to_neighbor_message : List ℕ → ℕ → Addr → ℕ
add_to_neighbor_message tlv len key = 0

-- The seconds of the monotonic clock, as an `int`.
unfoldable pub get_seconds : ℕ → ℕ
get_seconds tv_sec = tv_sec % 2 ^ 32

unfoldable pub discover_neighbors : Peer → Peer
discover_neighbors p = p

unfoldable pub hello_multicast_global : Peer → Peer
hello_multicast_global p = p
