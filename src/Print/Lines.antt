-- ===== src/Print/Lines.antt =====
-- What `print_tree` and `print_msg` show of a tree and of a message.
use projet_reseau.Prelude.{
  ℕ, zero, suc, ◌+◌, ◌-◌, ◌*◌, ◌<◌, ◌≡◌, refl, ap, List, [], ◌∷◌, ◌++◌, append_assoc, arith, length,
  length-append, drop, drop-append, All, true, Bool-cases, inl, inr, ◌==◌,
}
use projet_reseau.Prelude.Text.{codes, decimal, printed, newline}
use projet_reseau.Bytes.{htons, ntohs-htons}
use projet_reseau.Neighbor.{Addr}
use projet_reseau.Abr.{Tree, leaf, node, find_by_aux, number_of_neighbors}
use projet_reseau.Receive.Frames.{Frame, pad1, tlv, encode}
use projet_reseau.Print.{
  print_tlv, print_tlvs, print_msg, Row, null, entry, print_tree_aux, print_tree,
}

-- The neighbours of the lines.
pub shown_keys : List Row → List Addr
shown_keys [] = []
shown_keys (null tmp ∷ rows) = shown_keys rows
shown_keys (entry tmp key ∷ rows) = key ∷ shown_keys rows

shown-append : (rs ss : List Row) → shown_keys (rs ++ ss) ≡ shown_keys rs ++ shown_keys ss
unfolding shown_keys
shown-append [] ss = refl
shown-append (null tmp ∷ rs) ss = shown-append rs ss
shown-append (entry tmp key ∷ rs) ss = ap (◌∷◌ key) (shown-append rs ss)

rows_lem :
    (t : Tree) (tmp : ℕ)
    → (shown_keys (print_tree_aux t tmp) ≡ find_by_aux t (λ _. true))
      × (length (print_tree_aux t tmp) ≡ 2 * number_of_neighbors t + 1)
unfolding print_tree_aux shown_keys find_by_aux number_of_neighbors
rows_lem leaf tmp = (refl, refl)
rows_lem (node k v l r) tmp =
    let (left, more) = rows_lem l (tmp + 1) in
    let (right, less) = rows_lem r (tmp + 1) in
    (
      rw (shown-append, left, right) refl,
      omega (
        arith,
        more,
        less,
        length-append (print_tree_aux l (tmp + 1)) (entry tmp k.addr ∷ print_tree_aux r (tmp + 1)),
      ),
    )

-- `print_tree` writes a line for every neighbour, in the order of `find_by`, and one for every null
-- pointer.
pub print_tree_lem :
    (t : Tree)
    → (shown_keys (print_tree t) ≡ find_by_aux t (λ _. true))
      × (length (print_tree t) ≡ 2 * number_of_neighbors t + 1)
unfolding print_tree
print_tree_lem t = rows_lem t 0

-- A TLV, and not a single byte 0.
abbrev pub IsWhole : Frame → Type 0
IsWhole pad1 = ⊥
IsWhole (tlv type payload) = 0 < type

-- A line for every TLV: its type and its size.
pub line : ℕ → ℕ → List ℕ
line type size =
    printed ((9 ∷ codes " tlv ") ∷ decimal type ∷ codes ", size " ∷ decimal size ∷ newline ∷ [])

pub lines : List Frame → List ℕ
lines [] = []
lines (pad1 ∷ fs) = lines fs
lines (tlv type payload ∷ fs) = line type (length payload) ++ lines fs

print_tlv-line :
    (type size : ℕ) (body : List ℕ)
    → 0 < type
    → print_tlv (type ∷ size ∷ body) ≡ (line type size, size)
unfolding print_tlv line
print_tlv-line type size body h = elim (Bool-cases (type == 0)) [
  | inl e ↦ absurd (ground arith)
  | inr e ↦ rw e
]

print_tlvs-encode :
    (fs : List Frame) (fuel : ℕ) (rest : List ℕ)
    → All IsWhole fs
    → length (encode fs) < fuel
    → print_tlvs fuel (encode fs ++ rest) (length (encode fs)) ≡ lines fs
unfolding print_tlvs encode lines
print_tlvs-encode fs zero rest h b = absurd (omega arith)
print_tlvs-encode [] (suc fuel) rest h b = refl
print_tlvs-encode (pad1 ∷ fs) (suc fuel) rest h b = absurd h.0
print_tlvs-encode (tlv type payload ∷ fs) (suc fuel) rest h b =
    let n = length payload in
    let size : n + 2 ≡ suc (suc n) = omega arith in
    let behind : drop n (payload ++ (encode fs ++ rest)) ≡ encode fs ++ rest =
      drop-append n payload (encode fs ++ rest) refl in
    let total = length-append payload (encode fs) in
    let left : suc (suc (length (payload ++ encode fs))) - suc (suc n) ≡ length (encode fs) =
      omega (arith, total) in
    rw
      (
        append_assoc payload (encode fs) rest,
        print_tlv-line type n (payload ++ (encode fs ++ rest)) h.0,
        size,
        behind,
        left,
      )
      (ground (arith, total, print_tlvs-encode fs fuel rest h.1))

-- For a message whose body is a sequence of TLVs of types above 0, as long as its header says and
-- of less than 65536 bytes, `print_msg` writes the header and a line for every TLV, whatever lies
-- behind the body in memory.
pub print_msg-encode :
    (fs : List Frame) (magic version : ℕ) (rest : List ℕ)
    → All IsWhole fs
    → length (encode fs) < 65536
    → print_msg (record {
      magic = magic;
      version = version;
      body_length = htons (length (encode fs));
      body = encode fs ++ rest;
    })
      ≡ printed (
          codes "magic = "
          ∷ decimal magic
          ∷ codes ", version = "
          ∷ decimal version
          ∷ codes ", length = "
          ∷ decimal (length (encode fs))
          ∷ newline
          ∷ codes " data :"
          ∷ newline
          ∷ lines fs
          ∷ newline
          ∷ [])
unfolding print_msg
print_msg-encode fs magic version rest h b =
    let n = length (encode fs) in
    rw (ntohs-htons n b, print_tlvs-encode fs (n + 1) rest h (omega arith)) refl
