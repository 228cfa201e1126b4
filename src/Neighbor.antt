-- ===== src/Neighbor.antt =====
-- struct.h: the records of the peer, and `compare_n` of util.c, the order of the search trees.
-- A field of a fixed width is a native number below that width, and an array is a list of numbers.
pub mod Order
use projet_reseau.Prelude.{
  ℕ, List, [], ◌∷◌, Option, none, compare, Ordering, lt, eq, gt, is_eq, Bool, replicate,
}

-- `struct message_h`: `body_length` is kept in network order, as the field is.
pub record MessageH : Type 0 where
  pub magic : ℕ
  pub version : ℕ
  pub body_length : ℕ
  pub body : List ℕ

-- The identity of a neighbour, the fields that `compare_n` reads. A `struct neighbor *` into a
-- search tree is written as the address of the key that it points to: a tree owns its keys, and
-- holds one key for an address.
pub record Addr : Type 0 where
  pub ip : List ℕ
  pub port : ℕ

-- `struct neighbor`: the identity and the buffer of messages that wait to be sent, maybe null.
pub record Neighbor : Type 0 where
  pub addr : Addr
  pub open addr use *
  pub msg : Option MessageH

-- `struct ident`.
pub record Ident : Type 0 where
  pub id : ℕ
  pub last_hello : ℕ
  pub last_hello_long : ℕ

-- `struct data_index`.
pub record DataIndex : Type 0 where
  pub id : ℕ
  pub nonce : ℕ

-- The memory of a `struct neighbor` after `memset` to 0, and of a `struct ident`.
abbrev pub zero_neighbor : Neighbor
zero_neighbor = record { addr = record { ip = replicate 16 0; port = 0 }; msg = none }

abbrev pub zero_ident : Ident
zero_ident = record { id = 0; last_hello = 0; last_hello_long = 0 }

-- The loop over the 16 bytes of two addresses; -1, 0 and 1 are `lt`, `eq` and `gt`. Both arrays
-- have 16 bytes, so the clauses for lists of two lengths are never reached.
unfoldable pub compare_ip : List ℕ → List ℕ → Ordering
compare_ip [] [] = eq
compare_ip [] (_ ∷ _) = lt
compare_ip (_ ∷ _) [] = gt
compare_ip (a ∷ as') (b ∷ bs) = elim (compare a b) [ lt ↦ lt | gt ↦ gt | eq ↦ compare_ip as' bs ]

unfoldable pub compare_n : Addr → Addr → Ordering
compare_n key1 key2 = elim (compare_ip key1.ip key2.ip) [
  | lt ↦ lt
  | gt ↦ gt
  | eq ↦ compare key1.port key2.port
]

-- Two pointers name the same neighbour.
abbrev pub same : Addr → Addr → Bool
same a b = is_eq (compare_n a b)
