-- ===== src/Tlv.antt =====
-- tlv.c, lines 43 to 148: the functions that write a TLV at `body`, in a buffer of which `bufsize`
-- bytes are left, and `random_on_octets` of net_lib.c.
pub mod Format
use projet_reseau.Prelude.{
  ℕ, zero, suc, ◌+◌, ◌%◌, List, [], ◌∷◌, ◌++◌, if◌then◌else◌, ltb, take, replicate,
}
use projet_reseau.Prelude.Int.{ℤ, pos, minus_one}
use projet_reseau.Bytes.{le_bytes, htons}
use projet_reseau.Neighbor.{Addr}

-- What a call returns and the bytes that it stores from `body` on.
pub record Written : Type 0 where
  pub ret : ℤ
  pub bytes : List ℕ

-- A call that stores nothing and returns `r`.
abbrev pub refused : ℤ → Written
refused r = record { ret = r; bytes = [] }

unfoldable pub tlv_pad1 : ℕ → Written
tlv_pad1 bufsize =
    if ltb 0 bufsize then record { ret = pos 1; bytes = 0 ∷ [] } else refused minus_one

unfoldable pub tlv_pad_n : ℕ → ℕ → Written
tlv_pad_n bufsize len =
    if ltb (len + 1) bufsize
    then record { ret = pos (len + 2); bytes = 1 ∷ len ∷ replicate len 0 }
    else refused minus_one

unfoldable pub tlv_short_hello : ℕ → ℕ → Written
tlv_short_hello bufsize id =
    if ltb 9 bufsize
    then record { ret = pos 10; bytes = 2 ∷ 8 ∷ le_bytes 8 id }
    else refused minus_one

unfoldable pub tlv_long_hello : ℕ → ℕ → ℕ → Written
tlv_long_hello bufsize source_id dest_id =
    if ltb 15 bufsize
    then record { ret = pos 18; bytes = 2 ∷ 16 ∷ (le_bytes 8 source_id ++ le_bytes 8 dest_id) }
    else refused minus_one

unfoldable pub tlv_neighbour : ℕ → Addr → Written
tlv_neighbour bufsize ngb =
    if ltb 21 bufsize
    then record { ret = pos 20; bytes = 3 ∷ 18 ∷ (take 16 ngb.ip ++ le_bytes 2 (htons ngb.port)) }
    else refused minus_one

-- The low bytes of `octets_number` results of `rand()`, the first of which is number `drawn`.
unfoldable pub random_on_octets : (ℕ → ℕ) → ℕ → ℕ → List ℕ
random_on_octets rand drawn zero = []
random_on_octets rand drawn (suc n) = (rand drawn % 256) ∷ random_on_octets rand (drawn + 1) n

-- `nonce` holds the four random bytes; they are drawn only where the TLV is written. The length is
-- computed in a `u_int8_t`.
unfoldable pub tlv_data : ℕ → ℕ → ℕ → List ℕ → ℕ → List ℕ → Written
tlv_data bufsize id type content msg_size nonce =
    let len = (13 + msg_size) % 256 in
    if ltb (len + 1) bufsize
    then record {
      ret = pos (msg_size + 15);
      bytes = 4 ∷ len ∷ (le_bytes 8 id ++ (nonce ++ (type ∷ take msg_size content)));
    }
    else refused minus_one

unfoldable pub tlv_ack : ℕ → ℕ → ℕ → Written
tlv_ack bufsize id nonce =
    if ltb 13 bufsize
    then record { ret = pos 14; bytes = 5 ∷ 12 ∷ (le_bytes 8 id ++ le_bytes 4 nonce) }
    else refused (pos 0)

unfoldable pub tlv_goaway : ℕ → ℕ → List ℕ → ℕ → Written
tlv_goaway bufsize code msg msg_size =
    let len = (1 + msg_size) % 256 in
    if ltb (len + 1) bufsize
    then record { ret = pos (len + 2); bytes = 6 ∷ len ∷ code ∷ take msg_size msg }
    else refused minus_one

-- The result is 1 or 0, and not the size of the TLV.
unfoldable pub tlv_warning : ℕ → List ℕ → ℕ → Written
tlv_warning bufsize msg msg_size =
    if ltb (msg_size + 1) bufsize
    then record { ret = pos 1; bytes = 7 ∷ msg_size ∷ take msg_size msg }
    else refused (pos 0)
