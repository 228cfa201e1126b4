-- ===== src/Receive.antt =====
-- tlv.c, lines 207 to 430: the handlers of the TLVs, and the loop over a received message. The
-- array `tlv` of `handle_message_h` keeps what earlier TLVs left in it, and a handler reads it past
-- the end of its own TLV; what it holds at first is a parameter.
pub mod Frames
pub mod Hello
pub mod Data
pub mod Table
pub mod Meeting
pub mod Valid
pub mod Repeat
use projet_reseau.Prelude.{
  ℕ, zero, suc, ◌+◌, ◌-◌, ◌%◌, ◌^◌, List, [], ◌∷◌, ◌++◌, Option, none, some, Bool, true, false,
  if◌then◌else◌, ltb, leb, ◌==◌, not, ◌||◌, is_some, take, drop, blit, get_or, replicate,
}
use projet_reseau.Bytes.{le_value, htons, ntohs}
use projet_reseau.Neighbor.{Addr, Neighbor, Ident, DataIndex, MessageH}
use projet_reseau.Abr.{Tree, add_neighbor, add_potential, get_ident, remove_neighbor}
use projet_reseau.Genlist.{GenList, init_list, get}
use projet_reseau.Tlv.{tlv_ack}
use projet_reseau.Flood.{FloodEntry, compare_n_s, pmtu}
use projet_reseau.Net.{message, size_of, send_message, send_hello_everyone}
use projet_reseau.Peer.{
  Env, Peer, with_neighbors, index_of, remove_neighbor_from_flood, remove_neighbor_everywhere,
  add_message_to_flood,
}

-- `add_neighbor`, and for a new neighbour the hellos that tell everyone. The copy of the buffer's
-- pointer in the argument is not used again.
unfoldable pub meet : Env → Neighbor → Ident → Peer → Peer
meet env peer val p =
    let (t, rc) = add_neighbor true (some env.junk) p.neighbors peer (some val) in
    if rc == 1
    then (let (t', out) = send_hello_everyone p.id t in
        record p {
          potential = remove_neighbor peer.addr p.potential;
          neighbors = t';
          sent = p.sent ++ out;
        })
    else record p { neighbors = t }

unfoldable pub hello : Env → List ℕ → ℕ → Neighbor → Peer → Peer
hello env tlv len peer p =
    let source_id = le_value (take 8 tlv) in
    let dest_id = le_value (take 8 (drop 8 tlv)) in
    let short : Ident = record { id = source_id; last_hello = env.now; last_hello_long = 0 } in
    let long : Ident = record short { last_hello_long = env.now } in
    if len == 16
    then (if dest_id == p.id then meet env peer long p else p)
    else meet env peer short p

unfoldable pub neighbour : Env → List ℕ → Peer → Peer
neighbour env tlv p =
    let port = ntohs (le_value (take 2 (drop 16 tlv))) in
    let key : Addr = record { ip = take 16 tlv; port = port } in
    let val : Ident = record { id = 0; last_hello = env.now; last_hello_long = 0 } in
    if is_some (get_ident p.neighbors key) then p else record p {
      potential = (add_potential true p.potential (record { addr = key; msg = none }) (some val)).0;
    }

-- The entry that names a flood, for a search in `DATAF`.
abbrev pub flood_probe : DataIndex → FloodEntry
flood_probe index = record { index = index; content = []; sym_neighbors = init_list compare_n_s }

-- `print_on_screen`: the texts that go to the screen, in their order; the same bytes go to the GUI,
-- there behind a byte 0 for each text. The colours and the newline of the screen are left out.
abbrev pub print_on_screen : List ℕ → Peer → Peer
print_on_screen text p = record p { shown = p.shown ++ (text ∷ []) }

-- The text in a content of 13 bytes at least.
unfoldable pub data_text : List ℕ → ℕ → List ℕ
data_text tlv len = take (len - 13) (drop 13 tlv)

-- The text of a content on the screen. The size is a `size_t`: for a content of less than 13 bytes it
-- wraps to one near 2^64, and `write` fails with `EFAULT`, since so many bytes are no part of the
-- address space.
unfoldable pub print_data : List ℕ → ℕ → Peer → Peer
print_data tlv len p = if ltb len 13 then p else print_on_screen (data_text tlv len) p

unfoldable pub handle_data : Env → List ℕ → ℕ → Neighbor → Peer → Peer
unfolding print_data
handle_data env tlv len peer p =
    let index = index_of tlv in
    let w = tlv_ack (pmtu - 4) index.id index.nonce in
    let (peer', out) = send_message (message w.bytes (size_of w)) (size_of w + 4) peer in
    let acked = record p { sent = p.sent ++ out } in
    let flooded = add_message_to_flood env tlv len (some peer.addr) acked in
    if is_some (get p.dataf (flood_probe index))
    then remove_neighbor_from_flood index peer.addr acked
    else if get_or tlv 12 0 == 0
    then print_data tlv len flooded
    else flooded

unfoldable pub ack : List ℕ → Neighbor → Peer → Peer
unfolding remove_neighbor_from_flood
ack tlv peer p = remove_neighbor_from_flood (index_of tlv) peer.addr p

unfoldable pub goaway : Neighbor → Peer → Peer
unfolding remove_neighbor_everywhere
goaway peer p = remove_neighbor_everywhere peer.addr p

-- `handle_tlv[type]` for a type from 1 to 7. `padN` does nothing; `warning` and the reason of a
-- `goaway` are only written to the terminal.
unfoldable pub dispatch : Env → ℕ → List ℕ → ℕ → Neighbor → Peer → Peer
unfolding ack goaway
dispatch env type tlv len peer p =
    if type == 2
    then hello env tlv len peer p
    else if type == 3
    then neighbour env tlv p
    else if type == 4
    then handle_data env tlv len peer p
    else if type == 5
    then ack tlv peer p
    else if type == 6
    then goaway peer p
    else p

-- The loop, on fuel: `body` is the memory from `msg->body[pos]` on, and `left` is
-- `body_length - pos`. The arguments behind them are the array `tlv` and the peer.
unfoldable pub read_tlvs : ℕ → Env → List ℕ → ℕ → List ℕ → Neighbor → Peer → Peer
read_tlvs zero env body left tlv rcpt p = p
read_tlvs (suc fuel) env body left tlv rcpt p =
    let type = get_or body 0 0 in
    let len = get_or body 1 0 in
    let tlv' = blit 0 (take len (drop 2 body)) tlv in
    let skip = read_tlvs fuel env (drop 1 body) (left - 1) tlv rcpt p in
    let known =
      read_tlvs fuel env (drop (len + 2) body) (left - (len + 2)) tlv' rcpt
        (dispatch env type tlv' len rcpt p) in
    let unknown = read_tlvs fuel env (drop (len + 2) body) (left - (len + 2)) tlv rcpt p in
    if left == 0
    then p
    else if type == 0
    then skip
    else if ltb left len
    then p
    else if ltb type 8
    then known
    else unknown

-- `buf_t` is what `recvfrom` returns, as a `size_t`; one byte is left at least in each round.
unfoldable pub handle_message_h : Env → List ℕ → MessageH → ℕ → Neighbor → Peer → Peer
handle_message_h env tlv msg buf_t rcpt p =
    let body_length = ntohs msg.body_length in
    if ltb buf_t 4
    then p
    else if not (msg.magic == 93) || not (msg.version == 2)
    then p
    else if ltb buf_t (body_length + 4)
    then p
    else read_tlvs (body_length + 1) env msg.body body_length tlv rcpt p
