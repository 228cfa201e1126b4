-- ===== src/Fragments/Texts.antt =====
-- The fragments that `write_big_data` sends: which they are, and what text they carry.
use projet_reseau.Prelude.{
  ℕ, zero, suc, ◌+◌, ◌-◌, ◌*◌, ◌/◌, ◌%◌, ◌≤◌, ◌<◌, ◌≡◌, refl, sym, ap, ◌∙◌, List, [], ◌∷◌, ◌++◌,
  append_assoc, append-nil, arith, ltb, false, true, take, drop, length, length-append, length-take,
  length-drop, drop-take-append,
}
use projet_reseau.Bytes.{le_bytes, htons, length-le_bytes}
use projet_reseau.Tlv.{tlv_data, random_on_octets}
use projet_reseau.Tlv.Format.{length-random}
use projet_reseau.Peer.{Env, Peer}
use projet_reseau.Fragments.{flood_data, fragment, write_fragments, write_long}

-- The array `body` of a fragment and the size that `tlv_data` is given.
abbrev pub Piece : Type 0
Piece = List ℕ × ℕ

-- The fragments are flooded in turn.
pub flood_all : Env → List Piece → Peer → Peer
flood_all env [] p = p
flood_all env ((body, size) ∷ ps) p = flood_all env ps (flood_data env 220 body size p).0

-- Full fragments from position `i` on.
pub full_pieces : ℕ → List ℕ → List ℕ → ℕ → ℕ → List Piece
full_pieces zero t buf tmp i = []
full_pieces (suc n) t buf tmp i = (fragment t buf tmp i i, 240) ∷ full_pieces n t buf tmp (i + 231)

-- The last fragment, behind `n` full ones.
pub last_piece : ℕ → List ℕ → List ℕ → ℕ → Piece
last_piece n t buf tmp = (fragment t buf tmp (tmp - 231 * n) (231 * n), tmp - 1 - 231 * n)

-- The text in a fragment: what is left of it behind its head of 9 bytes.
abbrev pub text_of : Piece → List ℕ
text_of (body, size) = drop 9 (take size body)

pub texts : List Piece → List ℕ
texts [] = []
texts (piece ∷ ps) = text_of piece ++ texts ps

flood_data-255 : (env : Env) (body : List ℕ) (p : Peer) → (flood_data env 220 body 240 p).1 ≡ 255
unfolding flood_data tlv_data
flood_data-255 env body p = refl

write_fragments_lem :
    (n fuel : ℕ) (env : Env) (t buf : List ℕ) (tmp i : ℕ) (p : Peer)
    → n < fuel
    → i + 231 * n < tmp
    → tmp ≤ i + 231 * n + 231
    → write_fragments fuel env t buf tmp i p
      ≡ (i + 231 * n, flood_all env (full_pieces n t buf tmp i) p)
unfolding write_fragments flood_all full_pieces
write_fragments_lem n zero env t buf tmp i p f a b = absurd (omega arith)
write_fragments_lem zero (suc fuel) env t buf tmp i p f a b =
    let stop : ltb (i + 231) tmp ≡ false = ground arith in
    let same : i + 231 * 0 ≡ i = omega arith in rw (stop, same) refl
write_fragments_lem (suc n) (suc fuel) env t buf tmp i p f a b =
    let go : ltb (i + 231) tmp ≡ true = ground arith in
    let body = fragment t buf tmp i i in
    let step : i + 255 - 24 ≡ i + 231 = omega arith in
    let total : i + 231 * suc n ≡ (i + 231) + 231 * n = omega arith in
    rw (go, flood_data-255 env body p, step, total)
      (write_fragments_lem n fuel env t buf tmp (i + 231) (flood_data env 220 body 240 p).0
        (omega arith) (omega arith) (omega arith))

take-nil : (n : ℕ) → take {A = ℕ} n [] ≡ []
take-nil zero = refl
take-nil (suc n) = refl

drop-nil : (n : ℕ) → drop {A = ℕ} n [] ≡ []
drop-nil zero = refl
drop-nil (suc n) = refl

take-take-drop : (a b : ℕ) (xs : List ℕ) → take a xs ++ take b (drop a xs) ≡ take (a + b) xs
take-take-drop zero b xs = ap (λ n. take n xs) (omega arith)
take-take-drop (suc a) b [] = take-nil b ∙ sym (take-nil (suc a + b))
take-take-drop (suc a) b (x ∷ xs) =
    let e : suc a + b ≡ suc (a + b) = omega arith in rw e (ap (◌∷◌ x) (take-take-drop a b xs))

drop-drop : (a b : ℕ) (xs : List ℕ) → drop a (drop b xs) ≡ drop (b + a) xs
drop-drop a zero xs = ap (λ n. drop n xs) (omega arith)
drop-drop a (suc b) [] = drop-nil a ∙ sym (drop-nil (suc b + a))
drop-drop a (suc b) (x ∷ xs) =
    let e : suc b + a ≡ suc (b + a) = omega arith in rw e (drop-drop a b xs)

take-take : (a b : ℕ) (xs : List ℕ) → a ≤ b → take a (take b xs) ≡ take a xs
take-take zero b xs h = refl
take-take (suc a) zero xs h = absurd (omega arith)
take-take (suc a) (suc b) [] h = refl
take-take (suc a) (suc b) (x ∷ xs) h = ap (◌∷◌ x) (take-take a b xs (omega arith))

-- The head of a fragment has 9 bytes.
text_of-fragment :
    (t buf : List ℕ) (tmp position i size : ℕ)
    → length t ≡ 4
    → size ≤ 240
    → text_of (fragment t buf tmp position i, size) ≡ take (size - 9) (drop (i + 1) buf)
text_of-fragment t buf tmp position i size h b =
    let head = t ++ (0 ∷ (le_bytes 2 (htons tmp) ++ le_bytes 2 (htons position))) in
    let nine : length head ≡ 9 = omega (
      arith,
      length-append t (0 ∷ (le_bytes 2 (htons tmp) ++ le_bytes 2 (htons position))),
      length-append (le_bytes 2 (htons tmp)) (le_bytes 2 (htons position)),
      length-le_bytes 2 (htons tmp),
      length-le_bytes 2 (htons position),
    ) in
    let rest = take 231 (drop (i + 1) buf) in
    let parted : fragment t buf tmp position i ≡ head ++ rest = simp append_assoc in
    rw parted (
      drop-take-append 9 size head rest (sym nine)
      ∙ take-take (size - 9) 231 (drop (i + 1) buf) (omega arith))

texts-append : (ps qs : List Piece) → texts (ps ++ qs) ≡ texts ps ++ texts qs
unfolding texts
texts-append [] qs = refl
texts-append (p ∷ ps) qs =
    rw (texts-append ps qs) (sym (append_assoc (text_of p) (texts ps) (texts qs)))

texts-full :
    (n : ℕ) (t buf : List ℕ) (tmp i : ℕ)
    → length t ≡ 4
    → texts (full_pieces n t buf tmp i) ≡ take (231 * n) (drop (i + 1) buf)
unfolding texts full_pieces
texts-full zero t buf tmp i h = refl
texts-full (suc n) t buf tmp i h =
    let more : i + 231 + 1 ≡ i + 1 + 231 = omega arith in
    let total : 231 + 231 * n ≡ 231 * suc n = omega arith in
    rw
      (
        text_of-fragment t buf tmp i i 240 h (omega arith),
        texts-full n t buf tmp (i + 231) h,
        more,
        ← drop-drop 231 (i + 1) buf,
      )
      (take-take-drop 231 (231 * n) (drop (i + 1) buf) ∙ ap (λ m. take m (drop (i + 1) buf)) total)

-- All the fragments of a text.
pub pieces : List ℕ → List ℕ → ℕ → List Piece
pieces t buf tmp =
    let n = (tmp - 1) / 231 in full_pieces n t buf tmp 0 ++ (last_piece n t buf tmp ∷ [])

flood_all-append :
    (env : Env) (ps : List Piece) (piece : Piece) (p : Peer)
    → flood_all env (ps ++ (piece ∷ [])) p
      ≡ (flood_data env 220 piece.0 piece.1 (flood_all env ps p)).0
unfolding flood_all
flood_all-append env [] piece p = refl
flood_all-append env (q ∷ ps) piece p =
    flood_all-append env ps piece (flood_data env 220 q.0 q.1 p).0

-- A text of 240 bytes or more is flooded as its fragments, one after the other: the loop ends, with
-- a full fragment for every 231 bytes and a last one.
pub write_long_lem :
    (env : Env) (buf : List ℕ) (tmp : ℕ) (p : Peer)
    → 240 ≤ tmp
    → write_long env buf tmp p
      ≡ flood_all env
          (pieces (random_on_octets env.rand p.drawn 4) buf tmp)
          (record p { drawn = p.drawn + 4 })
unfolding write_long pieces last_piece
write_long_lem env buf tmp p h =
    let t = random_on_octets env.rand p.drawn 4 in
    let n = (tmp - 1) / 231 in
    let from_zero : 0 + 231 * n ≡ 231 * n = omega arith in
    rw
      (
        write_fragments_lem n tmp env t buf tmp 0 (record p { drawn = p.drawn + 4 }) (omega arith)
            (omega arith) (omega arith),
        from_zero,
      )
      (sym (
        flood_all-append env (full_pieces n t buf tmp 0)
          (fragment t buf tmp (tmp - 231 * n) (231 * n), tmp - 1 - 231 * n)
          (record p { drawn = p.drawn + 4 })))

-- What the fragments of a text carry.
texts-pieces :
    (t buf : List ℕ) (tmp : ℕ)
    → length t ≡ 4
    → 9 ≤ (tmp - 1) % 231
    → tmp ≤ length buf
    → (texts (pieces t buf tmp) ≡ take (tmp - 10) (drop 1 buf))
      × (length (texts (pieces t buf tmp)) + 9 ≡ tmp - 1)
unfolding pieces last_piece texts
texts-pieces t buf tmp h r b =
    let n = (tmp - 1) / 231 in
    let size = tmp - 1 - 231 * n in
    let last : Piece = (fragment t buf tmp (tmp - 231 * n) (231 * n), size) in
    let front = texts-full n t buf tmp 0 h in
    let back = text_of-fragment t buf tmp (tmp - 231 * n) (231 * n) size h (omega arith) in
    let behind : drop (231 * n + 1) buf ≡ drop (231 * n) (drop 1 buf) =
      let e : 231 * n + 1 ≡ 1 + 231 * n = omega arith in rw e (sym (drop-drop (231 * n) 1 buf)) in
    let sum : 231 * n + (size - 9) ≡ tmp - 10 = omega arith in
    let whole : texts (full_pieces n t buf tmp 0 ++ (last ∷ [])) ≡ take (tmp - 10) (drop 1 buf) =
      texts-append (full_pieces n t buf tmp 0) (last ∷ [])
      ∙ rw (front, append-nil (text_of last), back, behind, ← sum)
          (take-take-drop (231 * n) (size - 9) (drop 1 buf)) in
    (whole, omega (arith, ap length whole, length-take (tmp - 10) (drop 1 buf), length-drop 1 buf))

-- For a text of `tmp` bytes, 240 at least, in memory whose last fragment has more than 9 bytes:
-- `write_long` floods the fragments one after the other, and these carry the text from its second
-- byte on, in order; the last one is cut off by the 9 bytes of its head, so that 9 of the `tmp - 1`
-- bytes are lost.
pub write_long_loses :
    (env : Env) (buf : List ℕ) (tmp : ℕ) (p : Peer)
    → 240 ≤ tmp
    → 9 ≤ (tmp - 1) % 231
    → tmp ≤ length buf
    → let ps = pieces (random_on_octets env.rand p.drawn 4) buf tmp in
      (write_long env buf tmp p ≡ flood_all env ps (record p { drawn = p.drawn + 4 }))
      × (texts ps ≡ take (tmp - 10) (drop 1 buf))
      × (length (texts ps) + 9 ≡ tmp - 1)
write_long_loses env buf tmp p h r b =
    let t = random_on_octets env.rand p.drawn 4 in
    let (carried, lost) = texts-pieces t buf tmp (length-random env.rand p.drawn 4) r b in
    (write_long_lem env buf tmp p h, carried, lost)
