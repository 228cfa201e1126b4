-- ===== src/Delivery.antt =====
-- A text on its way from one peer to the next: what main.c floods, in the datagram that carries it,
-- is what `handle_message_h` of tlv.c shows.
use projet_reseau.Prelude.{
  ℕ, zero, suc, ◌+◌, ◌-◌, ◌≤◌, ◌<◌, ◌≡◌, refl, sym, ap, ◌∙◌, subst, List, [], ◌∷◌, ◌++◌, append-nil,
  Option, inl, inr, true, false, if◌then◌else◌, ◌==◌, length, length-append, length-take, take,
  drop, take-append, take_all, blit, get_or, arith, All,
}
use projet_reseau.Bytes.{le_bytes, le_value, htons, le_value-le_bytes, length-le_bytes}
use projet_reseau.Neighbor.{Addr, Neighbor}
use projet_reseau.Genlist.{GenList, add_limited}
use projet_reseau.Genlist.Counted.{with_front, add_limited_lem}
use projet_reseau.Tlv.{tlv_data, random_on_octets}
use projet_reseau.Tlv.Format.{tlv_data-Writes, data_payload, length-data, length-random}
use projet_reseau.Flood.{FloodEntry, NgbEntry, get_symmetrical, nb_data}
use projet_reseau.Net.Buffer.{packet}
use projet_reseau.Peer.{Env, Peer, index_of, add_message_to_flood, add_flood, delete_from}
use projet_reseau.Peer.Valid.{IsValid}
use projet_reseau.Receive.{handle_message_h, data_text, dispatch}
use projet_reseau.Receive.Frames.{Frame, IsFrame, tlv, encode, handle_all, handle_message_h-encode}
use projet_reseau.Receive.Data.{knows, flood_of, init_flood_lem, handle_data_new}
use projet_reseau.Main.{message_of, trim, typed_text}
use projet_reseau.Main.Invariant.{trim-le}

htons_bound : (x : ℕ) → x < 65536 → htons x < 65536
unfolding htons
htons_bound x h = omega arith

-- A packet that is read over what the memory held before: the message that was sent, with what is
-- left behind it.
pub message_of-packet :
    (a : Addr) (body inbox : List ℕ)
    → length body < 65536
    → message_of (blit 0 (packet a body).bytes inbox) ≡ record {
      magic = 93;
      version = 2;
      body_length = htons (length body);
      body = body ++ drop (4 + length body) inbox;
    }
unfolding le_bytes
message_of-packet a body inbox h =
    let n = htons (length body) in
    let size : 4 + length body ≡ suc (suc (suc (suc (length body)))) = omega arith in
    let order : le_value (le_bytes 2 n) ≡ n = le_value-le_bytes 2 n (htons_bound (length body) h) in
    let start : 0 + suc (suc (suc (suc (length body)))) ≡ suc (suc (suc (suc (length body)))) =
      omega arith in
    rw (size, start)
      (ap
        (λ (v : ℕ). record {
          magic = 93;
          version = 2;
          body_length = v;
          body = body ++ drop (suc (suc (suc (suc (length body))))) inbox;
        })
        order)

-- A sequence without its last byte, where that is `c`.
unfoldable pub without_last : ℕ → List ℕ → List ℕ
without_last c [] = []
without_last c (x ∷ []) = if x == c then [] else x ∷ []
without_last c (x ∷ (y ∷ ys)) = x ∷ without_last c (y ∷ ys)

-- What a text is shown as: its first 242 bytes, without a last byte 0 and, then, a last newline.
unfoldable pub shown_as : List ℕ → List ℕ
shown_as text = without_last b'\n' (without_last 0 (take 242 text))

trim_lem :
    (c : ℕ) (buf : List ℕ) (n : ℕ)
    → n ≤ length buf
    → take (trim c buf n) buf ≡ without_last c (take n buf)
unfolding trim without_last
trim_lem c buf zero h = refl
trim_lem c [] (suc n) h = absurd (omega arith)
trim_lem c (x ∷ bs) (suc zero) h = ground arith
trim_lem c (x ∷ []) (suc (suc n)) h = absurd (omega arith)
trim_lem c (x ∷ (y ∷ ys)) (suc (suc n)) h =
    let rest = trim_lem c (y ∷ ys) (suc n) (omega arith) in ground (arith, rest)

-- The text that is left of what the GUI hands over.
unfoldable pub trimmed : List ℕ → List ℕ
trimmed text = let buf = take 242 text in take (trim b'\n' buf (trim 0 buf (length buf))) buf

trimmed_lem : (text : List ℕ) → trimmed text ≡ shown_as text
unfolding trimmed shown_as
trimmed_lem text =
    let buf = take 242 text in
    let first = trim 0 buf (length buf) in
    trim_lem b'\n' buf first (trim-le 0 buf (length buf))
    ∙ ap (without_last b'\n') (
        trim_lem 0 buf (length buf) (omega arith)
        ∙ ap (without_last 0) (take_all (length buf) buf (omega arith)))

-- The content of its flood: the identity, four random bytes, the type 0 and the text.
unfoldable pub typed_payload : Env → List ℕ → Peer → List ℕ
typed_payload env text p = data_payload p.id (random_on_octets env.rand p.drawn 4) 0 (trimmed text)

pub length-trimmed : (text : List ℕ) → length (trimmed text) ≤ 242
unfolding trimmed
length-trimmed text =
    let buf = take 242 text in
    let tmp = trim b'\n' buf (trim 0 buf (length buf)) in
    omega (arith, length-take tmp buf, length-take 242 text)

pub length-payload :
    (env : Env) (text : List ℕ) (p : Peer)
    → length (typed_payload env text p) ≡ 13 + length (trimmed text)
unfolding typed_payload
length-payload env text p =
    length-data p.id (random_on_octets env.rand p.drawn 4) 0 (trimmed text)
      (length-random env.rand p.drawn 4)

pub text_behind :
    (buf t rest : List ℕ) (n : ℕ)
    → drop 13 buf ≡ t ++ rest
    → n ≡ 13 + length t
    → length t ≤ 242
    → data_text buf n ≡ t
unfolding data_text
text_behind buf t rest n e h b = rw e (take-append (n - 13) t rest (omega arith))

-- The handler finds the text of the content at the start of the array `tlv`.
shown_text :
    (env : Env) (text : List ℕ) (p : Peer) (stack : List ℕ)
    → let payload = typed_payload env text p in
      let buf = blit 0 payload stack in
      (index_of buf ≡ index_of payload)
      × (get_or buf 12 0 ≡ 0)
      × (data_text buf (length payload) ≡ trimmed text)
unfolding typed_payload le_bytes random_on_octets
shown_text env text p stack =
    let payload = typed_payload env text p in
    (
      refl,
      refl,
      text_behind (blit 0 payload stack) (trimmed text) (drop (0 + length payload) stack)
          (length payload) refl (length-payload env text p) (length-trimmed text),
    )

-- The TLV of the flood, with its two bytes of header.
unfoldable pub typed_tlv : Env → List ℕ → Peer → List ℕ
typed_tlv env text p = let payload = typed_payload env text p in 4 ∷ length payload ∷ payload

-- What the peer writes into its array `msg_to_send`.
pub typed_bytes :
    (env : Env) (text : List ℕ) (p : Peer)
    → let buf = take 242 text in
      let tmp = trim b'\n' buf (trim 0 buf (length buf)) in
      (tlv_data 260 p.id 0 buf tmp (random_on_octets env.rand p.drawn 4)).bytes
      ≡ typed_tlv env text p
unfolding typed_tlv typed_payload trimmed
typed_bytes env text p =
    let buf = take 242 text in
    let first = trim 0 buf (length buf) in
    let tmp = trim b'\n' buf first in
    let nonce = random_on_octets env.rand p.drawn 4 in
    let small : tmp ≤ length buf =
      omega (arith, trim-le b'\n' buf first, trim-le 0 buf (length buf)) in
    let short : length buf ≤ 242 = omega (arith, length-take 242 text) in
    elim (tlv_data-Writes 260 p.id 0 buf tmp nonce small (omega arith)
      (length-random env.rand p.drawn 4)) [
        | inl (_, _, e) ↦ e.0
        | inr (h, _) ↦ absurd (omega arith)
      ]

-- The flood of a TLV whose length is right holds the TLV.
typed_flood :
    (env : Env) (text : List ℕ) (p : Peer) (targets : GenList NgbEntry)
    → let payload = typed_payload env text p in
      (flood_of payload (length payload) targets).content ≡ typed_tlv env text p
unfolding typed_tlv
typed_flood env text p targets =
    let payload = typed_payload env text p in
    let two : length payload + 2 ≡ suc (suc (length payload)) = omega arith in
    rw
      (
        two,
        take_all (length payload) payload (omega arith),
        take_all (length payload) payload (omega arith),
      )
      refl

-- What the user types at a peer in a valid state is shown there, trimmed, and comes last in `DATAF`
-- as the content of a data TLV, for the symmetrical neighbours.
pub typed_text_lem :
    (env : Env) (text : List ℕ) (p : Peer)
    → IsValid p
    → let after = typed_text env text p in
      let payload = typed_payload env text p in
      let f = flood_of payload (length payload) (get_symmetrical env.now p.neighbors) in
      (after.shown ≡ p.shown ++ (trimmed text ∷ []))
      × (out : Option FloodEntry) × (with_front out after.dataf.entries
          ≡ p.dataf.entries ++ (f ∷ []))
unfolding typed_text trimmed typed_tlv add_message_to_flood add_flood delete_from
typed_text_lem env text p v =
    let payload = typed_payload env text p in
    let targets = get_symmetrical env.now p.neighbors in
    let f = flood_of payload (length payload) targets in
    let (_, _, chain, _) = add_limited_lem p.dataf f nb_data v.counted v.bounded (omega arith) in
    let small = length-payload env text p in
    let made =
      init_flood_lem payload (length payload) targets (omega (arith, length-trimmed text)) in
    rw (typed_bytes env text p, made) (refl, (add_limited true p.dataf f nb_data).1, chain)

-- Whatever the memory of `msg` held before: where the datagram that carries TLVs, of types above 0
-- but for the single bytes 0 and of less than 65536 bytes, is read into it, they are handled one
-- after the other, and nothing else is.
pub handle_message_h-packet :
    (fs : List Frame) (a : Addr) (inbox : List ℕ) (env : Env) (stack : List ℕ) (k : Neighbor)
    (p : Peer)
    → All IsFrame fs
    → length (encode fs) < 65536
    → let bytes = (packet a (encode fs)).bytes in
      handle_message_h env stack (message_of (blit 0 bytes inbox)) (length bytes) k p
      ≡ handle_all env fs stack k p
handle_message_h-packet fs a inbox env stack k p h b =
    let n = length (encode fs) in
    let size : length (packet a (encode fs)).bytes ≡ n + 4 =
      omega
        (arith, length-append (le_bytes 2 (htons n)) (encode fs), length-le_bytes 2 (htons n)) in
    cc (
      ap (λ m. handle_message_h env stack m (length (packet a (encode fs)).bytes) k p)
          (message_of-packet a (encode fs) inbox b),
      size,
      handle_message_h-encode fs env (drop (4 + n) inbox) stack k p h b,
    )

-- From a valid state, a text that is typed at a peer, and that is not empty nor the byte 0 alone, is
-- shown there: its first 242 bytes, without a last byte 0 and, then, a last newline. Its flood comes
-- last in `DATAF`. Where a second peer, in a valid state, does not know the index of this flood and
-- gets the datagram that carries its TLV alone, from whatever neighbour and over whatever memory, it
-- shows the same text, and no other.
pub typed_text_arrives :
    (env env' : Env) (text : List ℕ) (p q : Peer) (a : Addr) (inbox stack : List ℕ) (k : Neighbor)
    → 0 < length (without_last 0 (take 242 text))
    → IsValid p
    → IsValid q
    → knows q (index_of (typed_payload env text p)) ≡ false
    → (f : FloodEntry) × (out : Option FloodEntry) × ((typed_text env text p).shown
        ≡ p.shown ++ (shown_as text ∷ []))
      × (with_front out (typed_text env text p).dataf.entries ≡ p.dataf.entries ++ (f ∷ []))
      × (let bytes = (packet a f.content).bytes in
          (handle_message_h env' stack (message_of (blit 0 bytes inbox)) (length bytes) k q).shown
          ≡ q.shown ++ (shown_as text ∷ []))
unfolding encode handle_all dispatch typed_tlv
typed_text_arrives env env' text p q a inbox stack k _ v w new =
    let payload = typed_payload env text p in
    let f = flood_of payload (length payload) (get_symmetrical env.now p.neighbors) in
    let (local, out, chain) = typed_text_lem env text p v in
    let size = length-payload env text p in
    let small = length-trimmed text in
    let buf = blit 0 payload stack in
    let (index, type, content) = shown_text env text p stack in
    let frames = tlv 4 payload ∷ [] in
    let framed : encode frames ≡ f.content =
      ap (λ rest. 4 ∷ length payload ∷ rest) (append-nil payload)
      ∙ sym (typed_flood env text p (get_symmetrical env.now p.neighbors)) in
    let handled =
      handle_message_h-packet frames a inbox env' stack k q (omega arith, tt)
        (omega (arith, length-append payload [])) in
    let remote =
      (handle_data_new env' buf (length payload) k q (omega arith) (omega arith) w
        (ap (knows q) index ∙ new)).1 in
    let is_text : (get_or buf 12 0 == 0) ≡ true = ground arith in
    let kept = trimmed_lem text in
    let shows : (if get_or buf 12 0 == 0
          then q.shown ++ (data_text buf (length payload) ∷ [])
          else q.shown)
        ≡ q.shown ++ (shown_as text ∷ []) =
      rw (is_text, content, kept) refl in
    (
      f,
      out,
      local ∙ ap (λ t. p.shown ++ (t ∷ [])) kept,
      chain,
      subst
          (λ body.
            let bytes = (packet a body).bytes in
            (handle_message_h env' stack (message_of (blit 0 bytes inbox)) (length bytes) k q).shown
            ≡ q.shown ++ (shown_as text ∷ []))
          framed (ap (λ r. r.shown) handled ∙ remote ∙ shows),
    )
