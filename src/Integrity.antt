-- ===== src/Integrity.antt =====
-- What may stand in the buffers, the datagrams and the floods of the peers, where the texts that the
-- users type have a property: bodies of messages whose data TLVs carry texts with it.
pub mod Sends
pub mod Peers
pub mod Handlers
pub mod Jobs
pub mod Floods
pub mod Rounds
use projet_reseau.Prelude.{
  ℕ, ◌<◌, ◌≡◌, ◌≢◌, refl, sym, ap, ◌∙◌, subst, List, [], ◌∷◌, ◌++◌, append-nil, append_assoc, All,
  length, arith,
}
use projet_reseau.Receive.Frames.{Frame, pad1, tlv, encode}
use projet_reseau.Net.Buffer.Everyone.{All-append}

encode-append : (fs gs : List Frame) → encode (fs ++ gs) ≡ encode fs ++ encode gs
unfolding encode
encode-append [] gs = refl
encode-append (pad1 ∷ fs) gs = ap (λ xs. 0 ∷ xs) (encode-append fs gs)
encode-append (tlv type payload ∷ fs) gs =
    ap (λ xs. type ∷ length payload ∷ xs)
      (ap (λ xs. payload ++ xs) (encode-append fs gs)
        ∙ sym (append_assoc payload (encode fs) (encode gs)))

module _ (T : List ℕ → Type 0) where
  -- 13 bytes of identity, nonce and type, and a text with the property.
  abbrev pub IsData : List ℕ → Type 0
  IsData payload =
      (head text : List ℕ) × (length head ≡ 13)
      × (payload ≡ head ++ text)
      × (length payload < 256)
      × T text

  abbrev pub IsHonest : Frame → Type 0
  IsHonest pad1 = Unit
  IsHonest (tlv type payload) = (0 < type) × (type ≡ 4 → IsData payload)

  -- The body of a message.
  abbrev pub IsBody : List ℕ → Type 0
  IsBody body = (fs : List Frame) × All IsHonest fs × (body ≡ encode fs)

  pub nil-IsBody : IsBody []
  unfolding encode
  nil-IsBody = ([], tt, refl)

  pub append-IsBody : (xs ys : List ℕ) → IsBody xs → IsBody ys → IsBody (xs ++ ys)
  append-IsBody xs ys (fs, a, e) (gs, b, d) =
      (fs ++ gs, All-append IsHonest fs gs a b, rw (e, d) (sym (encode-append fs gs)))

  pub tlv-IsBody :
      (type : ℕ) (payload : List ℕ)
      → 0 < type
      → (type ≡ 4 → IsData payload)
      → IsBody (type ∷ length payload ∷ payload)
  unfolding encode
  tlv-IsBody type payload h d = (
    tlv type payload ∷ [],
    ((h, d), tt),
    ap (λ xs. type ∷ length payload ∷ xs) (sym (append-nil payload)),
  )

  -- A TLV that is no data TLV.
  pub control-IsBody :
      (type size : ℕ) (payload : List ℕ)
      → length payload ≡ size
      → 0 < type
      → type ≢ 4
      → IsBody (type ∷ size ∷ payload)
  control-IsBody type size payload e h d =
      subst (λ n. IsBody (type ∷ n ∷ payload)) e
        (tlv-IsBody type payload h (λ four. absurd (d four)))
