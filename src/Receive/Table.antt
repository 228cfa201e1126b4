-- ===== src/Receive/Table.antt =====
-- tlv.c, lines 19 to 36 and 209 to 214: the tables of the types of TLVs.
use projet_reseau.Prelude.{
  ℕ, zero, suc, ◌<◌, ◌≡◌, refl, List, [], ◌∷◌, Option, none, some, length, arith,
}
use projet_reseau.Prelude.Text.{codes}
use projet_reseau.Neighbor.{Neighbor}
use projet_reseau.Peer.{Env, Peer}
use projet_reseau.Receive.{hello, neighbour, handle_data, ack, goaway, dispatch}

-- `NB_TLV` of tlv.h.
abbrev pub nb_tlvs : ℕ
nb_tlvs = 8

abbrev pub tlv_types : List (List ℕ)
tlv_types =
    codes "pad1"
    ∷ codes "padN"
    ∷ codes "hello"
    ∷ codes "neighbour"
    ∷ codes "data"
    ∷ codes "ack"
    ∷ codes "goaway"
    ∷ codes "warning"
    ∷ []

abbrev pub nb_tlv : ℕ
nb_tlv = length tlv_types

-- What a handler does to the globals; all return 1.
abbrev pub Handler : Type 0
Handler = Env → List ℕ → ℕ → Neighbor → Peer → Peer

unfoldable pub pad1 : Handler
pad1 env tlv len peer p = p

unfoldable pub pad_n : Handler
pad_n env tlv len peer p = p

-- `warning` writes its text to the terminal alone.
unfoldable pub warned : Handler
warned env tlv len peer p = p

unfoldable pub handle_tlv : List Handler
unfolding ack goaway
handle_tlv =
    pad1
    ∷ pad_n
    ∷ hello
    ∷ (λ env tlv len peer p. neighbour env tlv p)
    ∷ handle_data
    ∷ (λ env tlv len peer p. ack tlv peer p)
    ∷ (λ env tlv len peer p. goaway peer p)
    ∷ warned
    ∷ []

-- The entry of a table; none out of range.
pub entry {ℓ} : {A : Type ℓ} → ℕ → List A → Option A
entry n [] = none
entry zero (x ∷ xs) = some x
entry (suc n) (x ∷ xs) = entry n xs

-- Every type of TLV below `nb_tlv` has a name and a handler in the tables, and the handler does what
-- `dispatch` does for the type.
pub dispatch-handle_tlv :
    (env : Env) (type : ℕ) (tlv : List ℕ) (len : ℕ) (peer : Neighbor) (p : Peer)
    → type < nb_tlv
    → (handler : Handler) × (name : List ℕ) × (entry type handle_tlv ≡ some handler)
      × (entry type tlv_types ≡ some name)
      × (handler env tlv len peer p ≡ dispatch env type tlv len peer p)
unfolding handle_tlv entry dispatch pad1 pad_n warned
dispatch-handle_tlv env zero tlv len peer p h = (_, _, refl, refl, refl)
dispatch-handle_tlv env (suc zero) tlv len peer p h = (_, _, refl, refl, refl)
dispatch-handle_tlv env (suc (suc zero)) tlv len peer p h = (_, _, refl, refl, refl)
dispatch-handle_tlv env (suc (suc (suc zero))) tlv len peer p h = (_, _, refl, refl, refl)
dispatch-handle_tlv env (suc (suc (suc (suc zero)))) tlv len peer p h = (_, _, refl, refl, refl)
dispatch-handle_tlv env (suc (suc (suc (suc (suc zero))))) tlv len peer p h =
    (_, _, refl, refl, refl)
dispatch-handle_tlv env (suc (suc (suc (suc (suc (suc zero)))))) tlv len peer p h =
    (_, _, refl, refl, refl)
dispatch-handle_tlv env (suc (suc (suc (suc (suc (suc (suc zero))))))) tlv len peer p h =
    (_, _, refl, refl, refl)
dispatch-handle_tlv env (suc (suc (suc (suc (suc (suc (suc (suc n)))))))) tlv len peer p h =
    absurd (omega arith)
