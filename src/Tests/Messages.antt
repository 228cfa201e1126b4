-- ===== src/Tests/Messages.antt =====
-- TLVs, buffers and messages: tests, and instances of their theorems.
use projet_reseau.Prelude.{
  ℕ, ◌≤◌, ◌<◌, ◌≡◌, ◌⊎◌, refl, List, [], ◌∷◌, ◌++◌, none, some, arith, length, replicate,
}
use projet_reseau.Prelude.Int.{pos, minus_one}
use projet_reseau.Bytes.{le_bytes, htons, ntohs}
use projet_reseau.Neighbor.{Addr, Neighbor, MessageH}
use projet_reseau.Tlv.{refused, tlv_long_hello, tlv_neighbour, tlv_data, tlv_warning, tlv_pad1}
use projet_reseau.Tlv.Format.{
  Writes, IsTlv, data_payload, tlv_long_hello-Writes, tlv_data-Writes, tlv_data_overflow,
}
use projet_reseau.Abr.{Tree, leaf, node}
use projet_reseau.Net.{message, send_message}
use projet_reseau.Net.Buffer.{IsSound, IsSoundAt, Sends, send_message_lem}
use projet_reseau.Net.Buffer.Everyone.{message-Carries}

abbrev sender : Addr
sender = record { ip = replicate 16 1; port = 1212 }

abbrev other : Addr
other = record { ip = replicate 16 2; port = 80 }

warning_result : (tlv_warning 20 (1 ∷ 2 ∷ 3 ∷ []) 3).ret ≡ pos 1
unfolding tlv_warning
warning_result = refl

one_byte : (tlv_pad1 1).bytes ≡ 0 ∷ []
unfolding tlv_pad1
one_byte = refl

port_order : (tlv_neighbour 22 sender).bytes ≡ 3 ∷ 18 ∷ (replicate 16 1 ++ 0x04 ∷ 0xbc ∷ [])
unfolding tlv_neighbour le_bytes htons
port_order = refl

tlv_long_hello-Writes_example :
    ((16 ≤ 17)
      × IsTlv 2 (le_bytes 8 77 ++ le_bytes 8 78) (tlv_long_hello 17 77 78)
      × (length (tlv_long_hello 17 77 78).bytes ≡ 18))
    ⊎ ((17 < 16) × (tlv_long_hello 17 77 78 ≡ refused minus_one))
tlv_long_hello-Writes_example = tlv_long_hello-Writes 17 77 78

tlv_data-Writes_example :
    Writes 17 260 4
      (data_payload 5 (1 ∷ 2 ∷ 3 ∷ 4 ∷ []) 0 (104 ∷ 105 ∷ []))
      minus_one
      (tlv_data 260 5 0 (104 ∷ 105 ∷ []) 2 (1 ∷ 2 ∷ 3 ∷ 4 ∷ []))
tlv_data-Writes_example =
    tlv_data-Writes 260 5 0 (104 ∷ 105 ∷ []) 2 (1 ∷ 2 ∷ 3 ∷ 4 ∷ []) (omega arith) (omega arith) refl

tlv_data_overflow_example :
    255 < length (tlv_data 255 5 0 (replicate 250 65) 250 (1 ∷ 2 ∷ 3 ∷ 4 ∷ [])).bytes
tlv_data_overflow_example =
    tlv_data_overflow 255 5 0 (replicate 250 65) 250 (1 ∷ 2 ∷ 3 ∷ 4 ∷ []) (omega arith)
      (omega arith) (omega arith) refl (omega arith) (omega arith)

abbrev pair : Tree
pair =
    node (record { addr = sender; msg = none })
      (record { id = 1; last_hello = 7; last_hello_long = 7 }) leaf leaf

-- A buffer that holds the three bytes of a GoAway.
abbrev half_full : MessageH
half_full = record { magic = 93; version = 2; body_length = 0x300; body = 6 ∷ 1 ∷ 2 ∷ [] }

half_full-IsSound : IsSound half_full
unfolding ntohs
half_full-IsSound = record {
  small = omega arith;
  inside = omega arith;
  magic = refl;
  version = refl;
  order = refl;
}

abbrev rcpt : Neighbor
rcpt = record { addr = sender; msg = some half_full }

abbrev ack_body : List ℕ
ack_body = 5 ∷ 12 ∷ replicate 12 9

send_message_example :
    Sends rcpt ack_body (send_message (message ack_body 14) 18 rcpt)
    × IsSoundAt (send_message (message ack_body 14) 18 rcpt).0.msg
    × ((send_message (message ack_body 14) 18 rcpt).0.addr ≡ sender)
send_message_example =
    send_message_lem (message ack_body 14) ack_body rcpt (message-Carries ack_body (omega arith))
      half_full-IsSound
