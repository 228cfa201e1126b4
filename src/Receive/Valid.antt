-- ===== src/Receive/Valid.antt =====
-- Whatever arrives, the handlers and the loop over a message keep the invariant of the globals.
use projet_reseau.Prelude.{
  ℕ, zero, suc, ◌+◌, ◌-◌, ◌≤◌, ◌≡◌, sym, subst, List, ◌∷◌, ◌++◌, All, length, take, drop, blit,
  get_or, arith, ltb, ◌==◌, is_some, ◌||◌, not, none, some, if_cases,
}
use projet_reseau.Bytes.{le_bytes, ntohs}
use projet_reseau.Neighbor.{Neighbor, MessageH}
use projet_reseau.Genlist.{get}
use projet_reseau.Tlv.{tlv_ack}
use projet_reseau.Tlv.Format.{length-pair}
use projet_reseau.Flood.{pmtu}
use projet_reseau.Net.{Datagram, message, size_of, send_message}
use projet_reseau.Net.Buffer.{IsSoundAt}
use projet_reseau.Periodic.Valid.{length-blit-ge}
use projet_reseau.Net.Buffer.Everyone.{
  IsPacket, IsGood, All-append, message-Carries, message_KeepsKey,
}
use projet_reseau.Peer.{Env, Peer, index_of}
use projet_reseau.Peer.Valid.{
  IsValid, remove_neighbor_everywhere-IsValid, remove_neighbor_from_flood-IsValid,
  add_message_to_flood-IsValid,
}
use projet_reseau.Receive.{
  handle_data, dispatch, read_tlvs, handle_message_h, flood_probe, print_on_screen, data_text,
  print_data,
}
use projet_reseau.Receive.Meeting.{hello-IsValid, neighbour-IsValid}

-- The sender of a datagram: 16 bytes of address, and no buffer.
pub record IsSender (k : Neighbor) : Type 0 where
  pub sixteen : length k.ip ≡ 16
  pub no_buffer : k.msg ≡ none

pub add_sent-IsValid :
    (p : Peer) (out : List Datagram)
    → All IsPacket out
    → IsValid p
    → IsValid (record p { sent = p.sent ++ out })
add_sent-IsValid p out h v = record {
  ordered = v.ordered;
  ordered_potential = v.ordered_potential;
  good = v.good;
  good_potential = v.good_potential;
  counted = v.counted;
  bounded = v.bounded;
  compared = v.compared;
  floods = v.floods;
  packets = All-append IsPacket p.sent out v.packets h;
}

pub show-IsValid : (text : List ℕ) (p : Peer) → IsValid p → IsValid (print_on_screen text p)
show-IsValid text p v = record {
  ordered = v.ordered;
  ordered_potential = v.ordered_potential;
  good = v.good;
  good_potential = v.good_potential;
  counted = v.counted;
  bounded = v.bounded;
  compared = v.compared;
  floods = v.floods;
  packets = v.packets;
}

pub ack_packets :
    (id nonce : ℕ) (k : Neighbor)
    → IsGood k
    → let w = tlv_ack (pmtu - 4) id nonce in
      All IsPacket (send_message (message w.bytes (size_of w)) (size_of w + 4) k).1
unfolding tlv_ack
ack_packets id nonce k g =
    let body = 5 ∷ 12 ∷ (le_bytes 8 id ++ le_bytes 4 nonce) in
    let size : length body ≡ 14 = omega (arith, length-pair 8 4 id nonce) in
    subst (λ n. All IsPacket (send_message (message body n) (n + 4) k).1) size
      (message_KeepsKey (message body (length body)) body k (message-Carries body (omega arith))
        g).packets

print_data-IsValid :
    (tlv : List ℕ) (len : ℕ) (p : Peer) → IsValid p → IsValid (print_data tlv len p)
unfolding print_data
print_data-IsValid tlv len p v =
    if_cases IsValid (ltb len 13) (λ _. v) (λ _. show-IsValid (data_text tlv len) p v)

pub handle_data-IsValid :
    (env : Env) (tlv : List ℕ) (len : ℕ) (k : Neighbor) (p : Peer)
    → IsGood k
    → len ≤ length tlv
    → IsValid p
    → IsValid (handle_data env tlv len k p)
unfolding handle_data
handle_data-IsValid env tlv len k p g h v =
    let index = index_of tlv in
    let w = tlv_ack (pmtu - 4) index.id index.nonce in
    let out = (send_message (message w.bytes (size_of w)) (size_of w + 4) k).1 in
    let acked = record p { sent = p.sent ++ out } in
    let va = add_sent-IsValid p out (ack_packets index.id index.nonce k g) v in
    let vf = add_message_to_flood-IsValid env tlv len (some k.addr) acked h va in
    if_cases IsValid (is_some (get p.dataf (flood_probe index)))
      (λ _. remove_neighbor_from_flood-IsValid index k.addr acked va)
      (λ _.
        if_cases IsValid (get_or tlv 12 0 == 0) (λ _. print_data-IsValid tlv len _ vf) (λ _. vf))

pub dispatch-IsValid :
    (env : Env) (type : ℕ) (tlv : List ℕ) (len : ℕ) (k : Neighbor) (p : Peer)
    → IsGood k
    → 16 ≤ length tlv
    → len ≤ length tlv
    → IsValid p
    → IsValid (dispatch env type tlv len k p)
unfolding dispatch
dispatch-IsValid env type tlv len k p g h b v =
    if_cases IsValid (type == 2) (λ _. hello-IsValid env tlv len k p g.0 v)
      λ _.
        if_cases IsValid (type == 3) (λ _. neighbour-IsValid env tlv p h v)
          λ _.
            if_cases IsValid (type == 4) (λ _. handle_data-IsValid env tlv len k p g b v)
              λ _.
                if_cases IsValid (type == 5)
                  (λ _. remove_neighbor_from_flood-IsValid (index_of tlv) k.addr p v)
                  λ _.
                    if_cases IsValid (type == 6)
                      (λ _. remove_neighbor_everywhere-IsValid k.addr p v) (λ _. v)

read_tlvs-IsValid :
    (fuel : ℕ) (env : Env) (body : List ℕ) (left : ℕ) (tlv : List ℕ) (k : Neighbor) (p : Peer)
    → IsGood k
    → 16 ≤ length tlv
    → left ≤ length tlv
    → IsValid p
    → IsValid (read_tlvs fuel env body left tlv k p)
unfolding read_tlvs
read_tlvs-IsValid zero env body left tlv k p g h b v = v
read_tlvs-IsValid (suc fuel) env body left tlv k p g h b v =
    let type = get_or body 0 0 in
    let len = get_or body 1 0 in
    let tlv' = blit 0 (take len (drop 2 body)) tlv in
    let grown = length-blit-ge 0 (take len (drop 2 body)) tlv (omega arith) in
    if_cases IsValid (left == 0) (λ _. v)
      λ _.
        if_cases IsValid (type == 0)
          (λ _. read_tlvs-IsValid fuel env (drop 1 body) (left - 1) tlv k p g h (omega arith) v)
          λ _.
            if_cases IsValid (ltb left len) (λ _. v)
              λ short.
                if_cases IsValid (ltb type 8)
                  (λ _.
                    read_tlvs-IsValid fuel env (drop (len + 2) body) (left - (len + 2)) tlv' k
                      (dispatch env type tlv' len k p) g (omega arith) (omega arith)
                      (dispatch-IsValid env type tlv' len k p g (omega arith) (ground arith) v))
                  (λ _.
                    read_tlvs-IsValid fuel env (drop (len + 2) body) (left - (len + 2)) tlv k p g h
                      (omega arith) v)

-- A message of any content, from a sender with an address of 16 bytes and no buffer, keeps a state
-- valid, where `tlv` has its 4096 bytes and the message at most the 4100 of a `struct message_h`.
pub handle_message_h-IsValid :
    (env : Env) (tlv : List ℕ) (msg : MessageH) (buf_t : ℕ) (k : Neighbor) (p : Peer)
    → IsSender k
    → length tlv ≡ 4096
    → buf_t ≤ 4100
    → IsValid p
    → IsValid (handle_message_h env tlv msg buf_t k p)
unfolding handle_message_h
handle_message_h-IsValid env tlv msg buf_t k p g h b v =
    let body_length = ntohs msg.body_length in
    let good : IsGood k = (g.sixteen, subst IsSoundAt (sym g.no_buffer) tt) in
    if_cases IsValid (ltb buf_t 4) (λ _. v)
      λ _.
        if_cases IsValid (not (msg.magic == 93) || not (msg.version == 2)) (λ _. v)
          λ _.
            if_cases IsValid (ltb buf_t (body_length + 4)) (λ _. v)
              λ fits.
                read_tlvs-IsValid (body_length + 1) env msg.body body_length tlv k p good
                  (omega arith) (ground arith) v
