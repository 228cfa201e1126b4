-- ===== src/Tlv/Format.antt =====
-- What the functions of tlv.c write: the shape of a TLV, and how much of the buffer it takes.
use projet_reseau.Prelude.{
  ℕ, zero, suc, ◌+◌, ◌-◌, ◌≤◌, ◌<◌, ◌≡◌, ◌⊎◌, refl, List, ◌∷◌, ◌++◌, take, replicate, length,
  length-take, length-append, length-replicate, arith,
}
use projet_reseau.Prelude.Int.{ℤ, pos, minus_one}
use projet_reseau.Bytes.{le_bytes, htons, length-le_bytes}
use projet_reseau.Neighbor.{Addr}
use projet_reseau.Tlv.{
  Written, refused, tlv_pad_n, tlv_short_hello, tlv_long_hello, tlv_neighbour, random_on_octets,
  tlv_data, tlv_ack, tlv_goaway,
}

-- A whole TLV of the type with this content, whose size is the result.
abbrev pub IsTlv : ℕ → List ℕ → Written → Type 0
IsTlv type payload w = (w.bytes ≡ type ∷ length payload ∷ payload) × (w.ret ≡ pos (length w.bytes))

-- From `need` bytes of room on, a whole TLV is written, and within the room; below, nothing is, and
-- the result is `error`.
abbrev pub Writes : ℕ → ℕ → ℕ → List ℕ → ℤ → Written → Type 0
Writes need bufsize type payload error w =
    ((need ≤ bufsize) × (length w.bytes ≤ bufsize) × IsTlv type payload w)
    ⊎ ((bufsize < need) × (w ≡ refused error))

pub length-random : (rand : ℕ → ℕ) (drawn n : ℕ) → length (random_on_octets rand drawn n) ≡ n
unfolding random_on_octets
length-random rand drawn zero = refl
length-random rand drawn (suc n) = omega (arith, length-random rand (drawn + 1) n)

pub length-pair : (m n x y : ℕ) → length (le_bytes m x ++ le_bytes n y) ≡ m + n
length-pair m n x y =
    omega
      (arith, length-append (le_bytes m x) (le_bytes n y), length-le_bytes m x, length-le_bytes n y)

-- The contents of the TLVs.
abbrev pub neighbour_payload : Addr → List ℕ
neighbour_payload ngb = take 16 ngb.ip ++ le_bytes 2 (htons ngb.port)

abbrev pub data_payload : ℕ → List ℕ → ℕ → List ℕ → List ℕ
data_payload id nonce type content = le_bytes 8 id ++ (nonce ++ (type ∷ content))

pub length-neighbour : (ngb : Addr) → length ngb.ip ≡ 16 → length (neighbour_payload ngb) ≡ 18
length-neighbour ngb h = omega (
  arith,
  length-append (take 16 ngb.ip) (le_bytes 2 (htons ngb.port)),
  length-take 16 ngb.ip,
  length-le_bytes 2 (htons ngb.port),
)

pub length-data :
    (id : ℕ) (nonce : List ℕ) (type : ℕ) (content : List ℕ)
    → length nonce ≡ 4
    → length (data_payload id nonce type content) ≡ 13 + length content
length-data id nonce type content h = omega (
  arith,
  length-append (le_bytes 8 id) (nonce ++ (type ∷ content)),
  length-append nonce (type ∷ content),
  length-le_bytes 8 id,
)

-- With `len + 2` bytes of room `tlv_pad_n` writes a whole PadN of `len` zeros, within the room;
-- with less it writes nothing and returns -1.
pub tlv_pad_n-Writes :
    (bufsize len : ℕ)
    → Writes (len + 2) bufsize 1 (replicate len 0) minus_one (tlv_pad_n bufsize len)
unfolding tlv_pad_n
tlv_pad_n-Writes bufsize len = ground (arith, length-replicate {A = ℕ} len 0)

-- With 10 bytes of room `tlv_short_hello` writes a whole Hello with the identity, within the room;
-- with less it writes nothing and returns -1.
pub tlv_short_hello-Writes :
    (bufsize id : ℕ) → Writes 10 bufsize 2 (le_bytes 8 id) minus_one (tlv_short_hello bufsize id)
unfolding tlv_short_hello
tlv_short_hello-Writes bufsize id = ground (arith, length-le_bytes 8 id)

-- With 16 bytes of room `tlv_long_hello` writes a whole Hello with both identities, which takes 18
-- bytes, and so passes the end of a buffer of 16 or 17; with less than 16 it writes nothing and
-- returns -1.
pub tlv_long_hello-Writes :
    (bufsize source_id dest_id : ℕ)
    → ((16 ≤ bufsize)
        × IsTlv 2
            (le_bytes 8 source_id ++ le_bytes 8 dest_id)
            (tlv_long_hello bufsize source_id dest_id)
        × (length (tlv_long_hello bufsize source_id dest_id).bytes ≡ 18))
      ⊎ ((bufsize < 16) × (tlv_long_hello bufsize source_id dest_id ≡ refused minus_one))
unfolding tlv_long_hello
tlv_long_hello-Writes bufsize source_id dest_id = ground (arith, length-pair 8 8 source_id dest_id)

-- For an address of 16 bytes: with 22 bytes of room `tlv_neighbour` writes a whole Neighbour TLV,
-- within the room; with less it writes nothing and returns -1.
pub tlv_neighbour-Writes :
    (bufsize : ℕ) (ngb : Addr)
    → length ngb.ip ≡ 16
    → Writes 22 bufsize 3 (neighbour_payload ngb) minus_one (tlv_neighbour bufsize ngb)
unfolding tlv_neighbour
tlv_neighbour-Writes bufsize ngb h = ground (arith, length-neighbour ngb)

-- For at most 242 bytes of content, all of them there, and a nonce of 4 bytes: with `msg_size +
-- 15` bytes of room `tlv_data` writes a whole Data TLV, within the room; with less it writes
-- nothing and returns -1.
pub tlv_data-Writes :
    (bufsize id type : ℕ) (content : List ℕ) (msg_size : ℕ) (nonce : List ℕ)
    → msg_size ≤ length content
    → msg_size ≤ 242
    → length nonce ≡ 4
    → Writes
        (msg_size + 15)
        bufsize
        4
        (data_payload id nonce type (take msg_size content))
        minus_one
        (tlv_data bufsize id type content msg_size nonce)
unfolding tlv_data
tlv_data-Writes bufsize id type content msg_size nonce h b n =
    ground (arith, length-data id nonce type (take msg_size content), length-take msg_size content)

-- From 243 to 255 bytes of content, all of them there, with a nonce of 4 bytes, the size wraps in
-- its byte: where the room is enough for the wrapped size and too small for the true one,
-- `tlv_data` writes more bytes than the buffer has.
pub tlv_data_overflow :
    (bufsize id type : ℕ) (content : List ℕ) (msg_size : ℕ) (nonce : List ℕ)
    → msg_size ≤ length content
    → 243 ≤ msg_size
    → msg_size < 256
    → length nonce ≡ 4
    → msg_size - 241 ≤ bufsize
    → bufsize < msg_size + 15
    → bufsize < length (tlv_data bufsize id type content msg_size nonce).bytes
unfolding tlv_data
tlv_data_overflow bufsize id type content msg_size nonce h a b n c d =
    ground (arith, length-data id nonce type (take msg_size content), length-take msg_size content)

-- With 14 bytes of room `tlv_ack` writes a whole Ack with the identity and the nonce, within the
-- room; with less it writes nothing and returns 0.
pub tlv_ack-Writes :
    (bufsize id nonce : ℕ)
    → Writes 14 bufsize 5 (le_bytes 8 id ++ le_bytes 4 nonce) (pos 0) (tlv_ack bufsize id nonce)
unfolding tlv_ack
tlv_ack-Writes bufsize id nonce = ground (arith, length-pair 8 4 id nonce)

-- For at most 254 bytes of message, all of them there: with `msg_size + 3` bytes of room
-- `tlv_goaway` writes a whole GoAway, within the room; with less it writes nothing and returns -1.
pub tlv_goaway-Writes :
    (bufsize code : ℕ) (msg : List ℕ) (msg_size : ℕ)
    → msg_size ≤ length msg
    → msg_size ≤ 254
    → Writes
        (msg_size + 3)
        bufsize
        6
        (code ∷ take msg_size msg)
        minus_one
        (tlv_goaway bufsize code msg msg_size)
unfolding tlv_goaway
tlv_goaway-Writes bufsize code msg msg_size h b = ground (arith, length-take msg_size msg)
