-- ===== src/Fragments.antt =====
-- tlv.c, lines 150 to 205 and 341 to 400: long messages in fragments, `write_big_data` and `bigdata`.
-- The program calls neither. In `bigdata` the copies to numbers come first, and always fault: what
-- stands behind them is modelled as it is written, and no call gets there.
pub mod Texts
use projet_reseau.Prelude.{
  ℕ, zero, suc, ◌+◌, ◌-◌, ◌%◌, ◌^◌, List, [], ◌∷◌, ◌++◌, Option, none, some, Bool, true, false, not,
  ◌&&◌, ◌||◌, if◌then◌else◌, ltb, leb, ◌==◌, is_eq, Ordering, take, drop, blit, get_or, replicate,
}
use projet_reseau.Bytes.{le_bytes, le_value, htons}
use projet_reseau.Genlist.{GenList, add_elem, remove_elem, get}
use projet_reseau.Tlv.{tlv_data, random_on_octets}
use projet_reseau.Flood.{short_sign}
use projet_reseau.Net.{size_of}
use projet_reseau.Peer.{Env, Peer, add_message_to_flood}
use projet_reseau.Receive.{print_on_screen}

-- A data TLV of 255 bytes at most becomes a flood; the second component is what `tlv_data` returns.
-- A size is a `u_int8_t`.
unfoldable pub flood_data : Env → ℕ → List ℕ → ℕ → Peer → Peer × ℕ
flood_data env type content size p =
    let w = tlv_data 255 p.id type content (size % 256) (random_on_octets env.rand p.drawn 4) in
    (
      add_message_to_flood env (drop 2 w.bytes) (get_or w.bytes 1 0) none
          (record p { drawn = p.drawn + 4 }),
      size_of w,
    )

-- `if(buf[tmp]==c) tmp--`. For a size of 0 the C code goes on with -1.
abbrev pub cut : ℕ → List ℕ → ℕ → ℕ
cut c buf tmp = if get_or buf tmp 0 == c then tmp - 1 else tmp

-- The array `body`: the nonce of the whole, the type, the size, a position and 231 bytes of text.
abbrev pub fragment : List ℕ → List ℕ → ℕ → ℕ → ℕ → List ℕ
fragment t buf tmp position i =
    t
    ++ (0
        ∷ (le_bytes 2 (htons tmp) ++ (le_bytes 2 (htons position) ++ take 231 (drop (i + 1) buf))))

-- The loop, on fuel: `i` and the peer behind it.
unfoldable pub write_fragments : ℕ → Env → List ℕ → List ℕ → ℕ → ℕ → Peer → ℕ × Peer
write_fragments zero env t buf tmp i p = (i, p)
write_fragments (suc fuel) env t buf tmp i p =
    let (p', n) = flood_data env 220 (fragment t buf tmp i i) 240 p in
    let more = write_fragments fuel env t buf tmp (i + n - 24) p' in
    if ltb (i + 231) tmp then more else (i, p)

-- A text that does not fit one TLV: `i` grows by 231, so that `tmp` rounds are enough.
unfoldable pub write_long : Env → List ℕ → ℕ → Peer → Peer
unfolding write_fragments flood_data
write_long env buf tmp p =
    let t = random_on_octets env.rand p.drawn 4 in
    let (i, p') = write_fragments tmp env t buf tmp 0 (record p { drawn = p.drawn + 4 }) in
    (flood_data env 220 (fragment t buf tmp (tmp - i) i) (tmp - 1 - i) p').0

unfoldable pub write_big_data : Env → List ℕ → ℕ → Peer → Peer
unfolding write_long flood_data
write_big_data env buf size p =
    let tmp = cut b'\n' buf (cut 0 buf size) in
    let short = (flood_data env 0 (drop 1 buf) (tmp + 255) p).0 in
    let long = write_long env buf tmp p in
    print_on_screen (take tmp buf) (if ltb tmp 240 then short else long)

-- `struct big_data`.
pub record BigData : Type 0 where
  pub global_nonce : ℕ
  pub total_length : ℕ
  pub received_length : ℕ
  pub start_time : ℕ
  pub type : ℕ
  pub message : List ℕ

-- `compare_b` of util.c: the difference is cut to a `short`.
unfoldable pub compare_b : BigData → BigData → Ordering
unfolding short_sign
compare_b b1 b2 = short_sign b1.global_nonce b2.global_nonce

-- What a call leaves, with its result: `BIGDATA` and the globals. None is the end of the process.
abbrev pub Outcome : Type 0
Outcome = Option (GenList BigData × Peer × ℕ)

-- `memcpy` to a number that is taken for an address: no object of the program is there.
abbrev pub memcpy_to_number : ℕ → List ℕ → Outcome → Outcome
memcpy_to_number address bytes rest = none

-- The entry that `get` finds is changed in place.
unfoldable pub update_first : BigData → List BigData → List BigData
unfolding compare_b
update_first bg [] = []
update_first bg (b ∷ bs) = if is_eq (compare_b b bg) then bg ∷ bs else b ∷ update_first bg bs

-- The key that `get` is called with: `compare_b` reads its nonce alone.
abbrev pub big_probe : ℕ → BigData
big_probe nonce = record {
  global_nonce = nonce;
  total_length = 0;
  received_length = 0;
  start_time = 0;
  type = 0;
  message = [];
}

-- A first fragment, after `malloc`: the field `total_length`, which is not set, is taken for an
-- address.
unfoldable pub first_fragment : Env → ℕ → List ℕ → ℕ → GenList BigData → Peer → Outcome
first_fragment env nonce tlv len bigdata p =
    let total = le_value (take 2 env.junk) in
    memcpy_to_number total (take 2 (drop 18 tlv)) (
      let bg : BigData = record {
        global_nonce = nonce;
        total_length = total;
        received_length = len - 22;
        start_time = env.now;
        type = get_or tlv 17 0;
        message = blit 0 (take (len - 22) (drop 22 tlv)) (replicate total 0);
      } in
      let (list, rc) = add_elem true bigdata bg in some (list, p, rc))

-- A fragment of a message that is known: it is dropped with the message where it is late, of
-- another type or too long; the last one is shown.
unfoldable pub further_fragment : Env → BigData → List ℕ → ℕ → GenList BigData → Peer → Outcome
further_fragment env bg tlv len bigdata p =
    let received = bg.received_length + len - 22 in
    let grown = record bg {
      received_length = received % 2 ^ 16;
      message = blit bg.received_length (take (len - 22) (drop 22 tlv)) bg.message;
    } in
    let kept = record bigdata { entries = update_first grown bigdata.entries } in
    if leb 180 (env.now - bg.start_time)
      || not (get_or tlv 17 0 == bg.type)
      || ltb (bg.total_length + 22) (bg.received_length + len)
    then some ((remove_elem bigdata bg).0, p, 0)
    else if ltb len 22
    then none
    else if grown.received_length == bg.total_length
    then some
        ((remove_elem kept grown).0, print_on_screen (take bg.total_length grown.message) p, 1)
    else some (kept, p, 1)

-- The part of `bigdata` behind the copy of the nonce. A null pointer that is read is a fault.
unfoldable pub fragment_arrives : Env → ℕ → List ℕ → ℕ → GenList BigData → Peer → Outcome
fragment_arrives env nonce tlv len bigdata p = elim (get bigdata (big_probe nonce)) [
  | none ↦ if not (get_or tlv 17 0 == 220) then first_fragment env nonce tlv len bigdata p else none
  | some bg ↦ further_fragment env bg tlv len bigdata p
]

-- `memcpy(nonce, tlv+13, 4)` with the value 0 of the variable `nonce` for an address.
unfoldable pub bigdata : Env → List ℕ → ℕ → GenList BigData → Peer → Outcome
unfolding fragment_arrives
bigdata env tlv len list p =
    memcpy_to_number 0 (take 4 (drop 13 tlv)) (fragment_arrives env 0 tlv len list p)
