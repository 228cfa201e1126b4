-- ===== src/Integrity/Handlers.antt =====
-- The handlers of tlv.c: from a message whose data TLVs carry texts with the property, a peer shows,
-- floods and sends such texts alone.
use projet_reseau.Prelude.{
  ℕ, ◌+◌, ◌-◌, ◌≤◌, ◌<◌, ◌≡◌, sym, ap, subst, List, [], ◌∷◌, ◌++◌, append_assoc, All, length,
  length-append, take, drop, blit, get_or, drop-append, arith, none, some, true, is_some, ◌==◌, ltb,
  if_cases,
}
use projet_reseau.Bytes.{le_value, le_bytes, ntohs}
use projet_reseau.Neighbor.{Addr, Neighbor, Ident}
use projet_reseau.Abr.{add_neighbor, add_potential, get_ident, fresh_message, remove_neighbor}
use projet_reseau.Abr.Order as Abr
use projet_reseau.Genlist.{get}
use projet_reseau.Tlv.{tlv_ack}
use projet_reseau.Tlv.Format.{length-pair}
use projet_reseau.Flood.{pmtu}
use projet_reseau.Net.{message, size_of, send_message, send_hello_everyone}
use projet_reseau.Net.Buffer.{length-blit, waiting_at}
use projet_reseau.Net.Buffer.Everyone.{IsGood, message-Carries, long_hello_body}
use projet_reseau.Periodic.Valid.{length-blit-ge}
use projet_reseau.Peer.{Env, Peer, index_of}
use projet_reseau.Peer.Valid.{IsValid, remove_neighbor-All}
use projet_reseau.Delivery.{text_behind}
use projet_reseau.Receive.{
  meet, hello, neighbour, handle_data, dispatch, data_text, flood_probe, print_data,
}
use projet_reseau.Receive.Frames.{Frame, pad1, tlv, handle_all}
use projet_reseau.Receive.Meeting.{add_neighbor-lem}
use projet_reseau.Receive.Valid.{dispatch-IsValid, add_sent-IsValid, ack_packets}
use projet_reseau.Integrity.{IsData, IsHonest, IsBody, nil-IsBody, control-IsBody}
use projet_reseau.Integrity.Sends.{
  Waits, IsPacketOf, message-SpreadsKey, send_hello_everyone-Spreads,
}
use projet_reseau.Integrity.Peers.{
  IsFaithful, neighbors-IsFaithful, potential-IsFaithful, sent-IsFaithful,
  with_neighbors-IsFaithful, shown-IsFaithful, remove_neighbor_from_flood-IsFaithful,
  remove_neighbor_everywhere-IsFaithful, add_message_to_flood-IsFaithful,
}

module _ (T : List ℕ → Type 0) where
  pub hello-IsBody : (id dest_id : ℕ) → IsBody T (long_hello_body id dest_id)
  hello-IsBody id dest_id =
      control-IsBody T 2 16 (le_bytes 8 id ++ le_bytes 8 dest_id) (length-pair 8 8 id dest_id)
        (omega arith) (omega arith)

  meet-IsFaithful :
      (env : Env) (k : Neighbor) (val : Ident) (p : Peer)
      → length k.ip ≡ 16
      → IsValid p
      → IsFaithful T p
      → IsFaithful T (meet env k val p)
  unfolding meet add_neighbor ntohs
  meet-IsFaithful env k val p h v f =
      let (t, rc) = add_neighbor true (some env.junk) p.neighbors k (some val) in
      let (_, good) = add_neighbor-lem env.junk p.neighbors k val h v.ordered v.good in
      let new = record k { msg = some (fresh_message env.junk) } in
      let waits : Abr.All (Waits T) t =
        Abr.All-add (Waits T) true p.neighbors new (some val) (nil-IsBody T) f.waits in
      let known = neighbors-IsFaithful T p t waits f in
      let greeted =
        with_neighbors-IsFaithful T (record p { neighbors = t }) (send_hello_everyone p.id t)
          (send_hello_everyone-Spreads T p.id t (hello-IsBody p.id) good waits) known in
      if_cases (IsFaithful T) (rc == 1)
        (λ _.
          potential-IsFaithful T _ (remove_neighbor k.addr p.potential)
            (remove_neighbor-All (Waits T) k.addr p.potential f.waits_potential) greeted)
        (λ _. known)

  hello-IsFaithful :
      (env : Env) (buf : List ℕ) (len : ℕ) (k : Neighbor) (p : Peer)
      → length k.ip ≡ 16
      → IsValid p
      → IsFaithful T p
      → IsFaithful T (hello env buf len k p)
  unfolding hello
  hello-IsFaithful env buf len k p h v f =
      if_cases (IsFaithful T) (len == 16)
        (λ _.
          if_cases (IsFaithful T) (le_value (take 8 (drop 8 buf)) == p.id)
            (λ _. meet-IsFaithful env k _ p h v f) (λ _. f))
        (λ _. meet-IsFaithful env k _ p h v f)

  neighbour-IsFaithful :
      (env : Env) (buf : List ℕ) (p : Peer) → IsFaithful T p → IsFaithful T (neighbour env buf p)
  unfolding neighbour add_potential
  neighbour-IsFaithful env buf p f =
      let port = ntohs (le_value (take 2 (drop 16 buf))) in
      let key : Addr = record { ip = take 16 buf; port = port } in
      let new : Neighbor = record { addr = key; msg = none } in
      let val : Ident = record { id = 0; last_hello = env.now; last_hello_long = 0 } in
      if_cases (IsFaithful T) (is_some (get_ident p.neighbors key)) (λ _. f)
        (λ _.
          potential-IsFaithful T p _
            (Abr.All-add (Waits T) true p.potential new (some val) (nil-IsBody T) f.waits_potential)
            f)

  ack-packets :
      (id nonce : ℕ) (k : Neighbor)
      → IsGood k
      → k.msg ≡ none
      → let w = tlv_ack (pmtu - 4) id nonce in
        All (IsPacketOf T) (send_message (message w.bytes (size_of w)) (size_of w + 4) k).1
  unfolding tlv_ack
  ack-packets id nonce k g e =
      let payload = le_bytes 8 id ++ le_bytes 4 nonce in
      let body = 5 ∷ 12 ∷ payload in
      let size : length body ≡ 14 = omega (arith, length-pair 8 4 id nonce) in
      let waits : Waits T k = subst (λ m. IsBody T (waiting_at m)) (sym e) (nil-IsBody T) in
      subst (λ n. All (IsPacketOf T) (send_message (message body n) (n + 4) k).1) size
        (message-SpreadsKey T (message body (length body)) body k
          (message-Carries body (omega arith))
          (control-IsBody T 5 12 payload (length-pair 8 4 id nonce) (omega arith) (omega arith)) g
          waits).1

  data_text_lem :
      (payload rest head text : List ℕ)
      → length head ≡ 13
      → payload ≡ head ++ text
      → length payload < 256
      → data_text (payload ++ rest) (length payload) ≡ text
  data_text_lem payload rest head text l e small =
      let size : length payload ≡ 13 + length text =
        omega (arith, ap length e, length-append head text) in
      text_behind (payload ++ rest) text rest (length payload)
        (rw (e, append_assoc head text rest) (drop-append 13 head (text ++ rest) (sym l))) size
        (omega arith)

  handle_data-IsFaithful :
      (env : Env) (payload rest : List ℕ) (k : Neighbor) (p : Peer)
      → IsData T payload
      → IsGood k
      → k.msg ≡ none
      → IsValid p
      → IsFaithful T p
      → IsFaithful T (handle_data env (payload ++ rest) (length payload) k p)
  unfolding handle_data print_data
  handle_data-IsFaithful env payload rest k p d g none_there v f =
      let buf = payload ++ rest in
      let len = length payload in
      let index = index_of buf in
      let w = tlv_ack (pmtu - 4) index.id index.nonce in
      let out = (send_message (message w.bytes (size_of w)) (size_of w + 4) k).1 in
      let acked = record p { sent = p.sent ++ out } in
      let va = add_sent-IsValid p out (ack_packets index.id index.nonce k g) v in
      let fa = sent-IsFaithful T p out (ack-packets index.id index.nonce k g none_there) f in
      let flooded =
        add_message_to_flood-IsFaithful T env payload rest (some k.addr) acked d va fa in
      let (head, text, l, e, small, t) = d in
      let shown : T (data_text buf len) =
        subst T (sym (data_text_lem payload rest head text l e small)) t in
      if_cases (IsFaithful T) (is_some (get p.dataf (flood_probe index)))
        (λ _. remove_neighbor_from_flood-IsFaithful T index k.addr acked fa)
        (λ _.
          if_cases (IsFaithful T) (get_or buf 12 0 == 0)
            (λ _.
              if_cases (IsFaithful T) (ltb len 13) (λ _. flooded)
                (λ _. shown-IsFaithful T (data_text buf len) _ shown flooded))
            (λ _. flooded))

  dispatch-IsFaithful :
      (env : Env) (type : ℕ) (payload rest : List ℕ) (k : Neighbor) (p : Peer)
      → (type ≡ 4 → IsData T payload)
      → IsGood k
      → k.msg ≡ none
      → IsValid p
      → IsFaithful T p
      → IsFaithful T (dispatch env type (payload ++ rest) (length payload) k p)
  unfolding dispatch
  dispatch-IsFaithful env type payload rest k p d g e v f =
      let buf = payload ++ rest in
      if_cases (IsFaithful T) (type == 2)
        (λ _. hello-IsFaithful env buf (length payload) k p g.0 v f)
        λ _.
          if_cases (IsFaithful T) (type == 3) (λ _. neighbour-IsFaithful env buf p f)
            λ _.
              if_cases (IsFaithful T) (type == 4)
                (λ four. handle_data-IsFaithful env payload rest k p (d (ground arith)) g e v f)
                λ _.
                  if_cases (IsFaithful T) (type == 5)
                    (λ _. remove_neighbor_from_flood-IsFaithful T (index_of buf) k.addr p f)
                    λ _.
                      if_cases (IsFaithful T) (type == 6)
                        (λ _. remove_neighbor_everywhere-IsFaithful T k.addr p f) (λ _. f)

  pub handle_all-IsFaithful :
      (fs : List Frame) (env : Env) (buf : List ℕ) (k : Neighbor) (p : Peer)
      → All (IsHonest T) fs
      → IsGood k
      → k.msg ≡ none
      → 16 ≤ length buf
      → IsValid p
      → IsFaithful T p
      → IsFaithful T (handle_all env fs buf k p)
  unfolding handle_all
  handle_all-IsFaithful [] env buf k p a g e h v f = f
  handle_all-IsFaithful (pad1 ∷ fs) env buf k p a g e h v f =
      handle_all-IsFaithful fs env buf k p a.1 g e h v f
  handle_all-IsFaithful (tlv type payload ∷ fs) env buf k p a g e h v f =
      let buf' = blit 0 payload buf in
      let rest = drop (0 + length payload) buf in
      let grown = length-blit-ge 0 payload buf (omega arith) in
      let held = length-blit 0 payload buf (omega arith) in
      let after = dispatch env type buf' (length payload) k p in
      if_cases (IsFaithful T) (ltb type 8)
        (λ _.
          handle_all-IsFaithful fs env buf' k after a.1 g e (omega arith)
            (dispatch-IsValid env type buf' (length payload) k p g (omega arith) (omega arith) v)
            (dispatch-IsFaithful env type payload rest k p a.0.1 g e v f))
        (λ _. handle_all-IsFaithful fs env buf k p a.1 g e h v f)
