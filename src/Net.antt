-- ===== src/Net.antt =====
-- net_lib.c: the messages that are put together for each neighbour and sent. A call of `sendto` is a
-- datagram in the result of the function, the first one sent first. What `sendto` returns only
-- enters counts, which no caller reads.
pub mod Buffer
use projet_reseau.Prelude.{
  ℕ, ◌+◌, ◌-◌, List, [], ◌∷◌, ◌++◌, Option, none, some, lt, eq, gt, if◌then◌else◌, ltb, ◌==◌, take,
  blit,
}
use projet_reseau.Prelude.Int.{ℤ, pos, negsuc}
use projet_reseau.Bytes.{le_bytes, htons, ntohs}
use projet_reseau.Neighbor.{Addr, Neighbor, MessageH, compare_n}
use projet_reseau.Abr.{Tree, leaf, node}
use projet_reseau.Tlv.{Written, tlv_long_hello}
use projet_reseau.Flood.{pmtu}

-- `sendto`: the address that `neighbor_to_sockaddr6` makes of the neighbour, and the bytes.
pub record Datagram : Type 0 where
  pub dest : Addr
  pub bytes : List ℕ

-- A `struct message_h` in memory; it has no padding.
unfoldable pub message_bytes : MessageH → List ℕ
message_bytes m = m.magic ∷ m.version ∷ (le_bytes 2 m.body_length ++ m.body)

unfoldable pub send_message_now : MessageH → ℕ → Neighbor → Datagram
unfolding message_bytes
send_message_now buf taille rcpt = record {
  dest = rcpt.addr;
  bytes = take taille (message_bytes buf);
}

-- `memcpy` of a body to the end of a buffer that holds `act_size` bytes, and the new length.
unfoldable pub append_body : MessageH → ℕ → MessageH → MessageH
append_body msg act_size buf =
    let size_to_add = ntohs buf.body_length in
    record msg {
      body = blit act_size (take size_to_add buf.body) msg.body;
      body_length = htons (act_size + size_to_add);
    }

-- With a buffer, the message waits in it, and what waited is sent first if both do not fit a
-- datagram. The buffer is shared through its pointer: the neighbour comes back with it. The
-- result of the C function is 1.
unfoldable pub send_message : MessageH → ℕ → Neighbor → Neighbor × List Datagram
unfolding send_message_now append_body
send_message buf taille rcpt = elim rcpt.msg [
  | none ↦ (rcpt, send_message_now buf taille rcpt ∷ [])
  | some msg ↦
      let act_size = ntohs msg.body_length in
      let size_to_add = ntohs buf.body_length in
      if ltb pmtu (act_size + size_to_add + 4)
      then (
        record rcpt { msg = some (append_body msg 0 buf) },
        send_message_now msg (act_size + 4) rcpt ∷ [],
      )
      else (record rcpt { msg = some (append_body msg act_size buf) }, [])
]

-- A local `struct message_h` with one TLV as its body, and the size to send.
abbrev pub message : List ℕ → ℕ → MessageH
message body size = record { magic = 93; version = 2; body_length = htons size; body = body }

-- The result of a function that builds a TLV; those that get 1228 bytes do not fail.
abbrev pub size_of : Written → ℕ
size_of w = elim (w.ret) [ pos n ↦ n | negsuc n ↦ 0 ]

unfoldable pub send_to_everyone : MessageH → ℕ → Tree → Tree × List Datagram
unfolding send_message
send_to_everyone buf len leaf = (leaf, [])
send_to_everyone buf len (node key val left right) =
    let (key', sent) = send_message buf len key in
    let (left', sent_left) = send_to_everyone buf len left in
    let (right', sent_right) = send_to_everyone buf len right in
    (node key' val left' right', sent ++ (sent_left ++ sent_right))

-- The visit of one neighbour in `send_to_everyone_now`.
unfoldable pub flush : Neighbor → Neighbor × List Datagram
unfolding send_message_now
flush key = elim key.msg [
  | none ↦ (key, [])
  | some msg ↦ if msg.body_length == 0 then (key, []) else (
    record key { msg = some (record msg { body_length = 0 }) },
    send_message_now msg (ntohs msg.body_length + 4) key ∷ [],
  )
]

unfoldable pub send_to_everyone_now : Tree → Tree × List Datagram
unfolding flush
send_to_everyone_now leaf = (leaf, [])
send_to_everyone_now (node key val left right) =
    let (key', sent) = flush key in
    let (left', sent_left) = send_to_everyone_now left in
    let (right', sent_right) = send_to_everyone_now right in
    (node key' val left' right', sent ++ (sent_left ++ sent_right))

-- The message with the long hello from `id` to `dest_id`.
unfoldable pub hello_message : ℕ → ℕ → MessageH × ℕ
unfolding tlv_long_hello
hello_message id dest_id =
    let w = tlv_long_hello (pmtu - 4) id dest_id in (message w.bytes (size_of w), size_of w + 4)

unfoldable pub send_hello_everyone : ℕ → Tree → Tree × List Datagram
unfolding send_message hello_message
send_hello_everyone id leaf = (leaf, [])
send_hello_everyone id (node key val left right) =
    let (msg, taille) = hello_message id val.id in
    let (key', sent) = send_message msg taille key in
    let (left', sent_left) = send_hello_everyone id left in
    let (right', sent_right) = send_hello_everyone id right in
    (node key' val left' right', sent ++ (sent_left ++ sent_right))

-- A send through a pointer to a key of the tree: the node of that address is visited.
unfoldable pub send_via : Addr → MessageH → ℕ → Tree → Tree × List Datagram
unfolding send_message
send_via sym buf taille leaf = (leaf, [])
send_via sym buf taille (node key val left right) = elim (compare_n key.addr sym) [
  | eq ↦ let (key', sent) = send_message buf taille key in (node key' val left right, sent)
  | gt ↦ let (left', sent) = send_via sym buf taille left in (node key val left' right, sent)
  | lt ↦ let (right', sent) = send_via sym buf taille right in (node key val left right', sent)
]
