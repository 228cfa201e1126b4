-- ===== src/Receive/Frames.antt =====
-- The loop of `handle_message_h` against the format: a body is a sequence of TLVs, which are handled
-- one after the other.
use projet_reseau.Prelude.{
  ℕ, zero, suc, ◌+◌, ◌-◌, ◌<◌, ◌≡◌, refl, List, [], ◌∷◌, ◌++◌, All, length, length-append, take,
  drop, take-append, drop-append, blit, get_or, arith, ltb, if◌then◌else◌, append_assoc,
}
use projet_reseau.Bytes.{htons, ntohs-htons}
use projet_reseau.Neighbor.{Neighbor}
use projet_reseau.Peer.{Env, Peer}
use projet_reseau.Receive.{dispatch, read_tlvs, handle_message_h}

-- A TLV of a body; `pad1` is the single byte 0.
pub data Frame : Type 0 where
  pad1 : Frame
  tlv : ℕ → List ℕ → Frame

unfoldable pub encode : List Frame → List ℕ
encode [] = []
encode (pad1 ∷ fs) = 0 ∷ encode fs
encode (tlv type payload ∷ fs) = type ∷ length payload ∷ (payload ++ encode fs)

abbrev pub IsFrame : Frame → Type 0
IsFrame pad1 = Unit
IsFrame (tlv type payload) = 0 < type

-- The handlers of the TLVs in turn; those of an unknown type are passed over.
unfoldable pub handle_all : Env → List Frame → List ℕ → Neighbor → Peer → Peer
handle_all env [] buf rcpt p = p
handle_all env (pad1 ∷ fs) buf rcpt p = handle_all env fs buf rcpt p
handle_all env (tlv type payload ∷ fs) buf rcpt p =
    let buf' = blit 0 payload buf in
    let known = handle_all env fs buf' rcpt (dispatch env type buf' (length payload) rcpt p) in
    let unknown = handle_all env fs buf rcpt p in if ltb type 8 then known else unknown

-- With more fuel than bytes left the loop runs to its end: any two such amounts of fuel give the
-- same result.
pub read_tlvs-fuel :
    (f g : ℕ) (env : Env) (body : List ℕ) (left : ℕ) (buf : List ℕ) (k : Neighbor) (p : Peer)
    → left < f
    → left < g
    → read_tlvs f env body left buf k p ≡ read_tlvs g env body left buf k p
unfolding read_tlvs
read_tlvs-fuel zero g env body left buf k p h b = absurd (omega arith)
read_tlvs-fuel (suc f) zero env body left buf k p h b = absurd (omega arith)
read_tlvs-fuel (suc f) (suc g) env body left buf k p h b =
    let len = get_or body 1 0 in
    let buf' = blit 0 (take len (drop 2 body)) buf in
    ground (
      arith,
      read_tlvs-fuel f g env (drop 1 body) (left - 1) buf k p,
      read_tlvs-fuel f g env (drop (len + 2) body) (left - (len + 2)) buf' k
          (dispatch env (get_or body 0 0) buf' len k p),
      read_tlvs-fuel f g env (drop (len + 2) body) (left - (len + 2)) buf k p,
    )

pub read_tlvs-encode :
    (fs : List Frame) (fuel : ℕ) (env : Env) (rest buf : List ℕ) (k : Neighbor) (p : Peer)
    → All IsFrame fs
    → length (encode fs) < fuel
    → read_tlvs fuel env (encode fs ++ rest) (length (encode fs)) buf k p
      ≡ handle_all env fs buf k p
unfolding read_tlvs encode handle_all
read_tlvs-encode fs zero env rest buf k p h b = absurd (omega arith)
read_tlvs-encode [] (suc fuel) env rest buf k p h b = refl
read_tlvs-encode (pad1 ∷ fs) (suc fuel) env rest buf k p h b =
    let e : suc (length (encode fs)) - 1 ≡ length (encode fs) = omega arith in
    rw e (ground (arith, read_tlvs-encode fs fuel env rest buf k p h.1))
read_tlvs-encode (tlv type payload ∷ fs) (suc fuel) env rest buf k p h b =
    let n = length payload in
    let size : n + 2 ≡ suc (suc n) = omega arith in
    let front : take n (payload ++ (encode fs ++ rest)) ≡ payload =
      take-append n payload (encode fs ++ rest) refl in
    let behind : drop n (payload ++ (encode fs ++ rest)) ≡ encode fs ++ rest =
      drop-append n payload (encode fs ++ rest) refl in
    let total = length-append payload (encode fs) in
    let left : suc (suc (length (payload ++ encode fs))) - suc (suc n) ≡ length (encode fs) =
      omega (arith, total) in
    let buf' = blit 0 payload buf in
    rw (append_assoc payload (encode fs) rest, size, front, behind, left)
      (ground (
        arith,
        total,
        read_tlvs-encode fs fuel env rest buf' k (dispatch env type buf' n k p) h.1,
        read_tlvs-encode fs fuel env rest buf k p h.1,
      ))

-- A message whose body is a sequence of TLVs, of types above 0 but for the single bytes 0, of less
-- than 65536 bytes and as long as the header says, is handled TLV by TLV, whatever lies behind the
-- body in memory.
pub handle_message_h-encode :
    (fs : List Frame) (env : Env) (rest buf : List ℕ) (k : Neighbor) (p : Peer)
    → All IsFrame fs
    → length (encode fs) < 65536
    → handle_message_h env buf
        (record {
          magic = 93;
          version = 2;
          body_length = htons (length (encode fs));
          body = encode fs ++ rest;
        })
        (length (encode fs) + 4)
        k
        p
      ≡ handle_all env fs buf k p
unfolding handle_message_h
handle_message_h-encode fs env rest buf k p h b =
    let n = length (encode fs) in
    rw (ntohs-htons n b) (ground (arith, read_tlvs-encode fs (n + 1) env rest buf k p h))
