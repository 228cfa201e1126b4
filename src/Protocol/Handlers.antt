-- ===== src/Protocol/Handlers.antt =====
-- The handlers of tlv.c and the loop of `handle_message_h`, as changes of the protocol.
use projet_reseau.Prelude.{
  ℕ, zero, suc, ◌+◌, ◌-◌, ◌≤◌, ◌≡◌, refl, sym, ap, subst, List, take, drop, blit, length, get_or,
  arith, Bool, not, ◌||◌, Bool-cases, inl, inr, ltb, ◌==◌, Option, none, some, is_some, if_cases,
}
use projet_reseau.Bytes.{le_value, ntohs}
use projet_reseau.Neighbor.{Addr, Neighbor, Ident, MessageH}
use projet_reseau.Genlist.{get}
use projet_reseau.Abr.{get_ident}
use projet_reseau.Flood.{FloodEntry}
use projet_reseau.Net.Buffer.{IsSoundAt}
use projet_reseau.Net.Buffer.Everyone.{IsGood}
use projet_reseau.Periodic.Valid.{length-blit-ge}
use projet_reseau.Peer.{
  Env, Peer, index_of, add_flood, add_message_to_flood, remove_neighbor_from_flood,
  remove_neighbor_everywhere,
}
use projet_reseau.Peer.Valid.{IsValid}
use projet_reseau.Peer.Removal.{remove_neighbor_everywhere-get_ident}
use projet_reseau.Receive.{
  print_data, meet, hello, neighbour, handle_data, dispatch, read_tlvs, handle_message_h,
  flood_probe,
}
use projet_reseau.Receive.Hello.{accepted, hello-get_ident}
use projet_reseau.Receive.Valid.{IsSender, dispatch-IsValid}
use projet_reseau.Protocol.{
  Change, quiet, learned, published, settled, forgot, Changes, nothing, one, Changes-trans,
}

pub add_flood-dataf :
    (o : Option FloodEntry) (p q : Peer)
    → q.dataf ≡ p.dataf
    → (add_flood o q).dataf ≡ (add_flood o p).dataf
unfolding add_flood
add_flood-dataf none p q e = e
add_flood-dataf (some f) p q e = rw e refl

pub add_flood-neighbors :
    (o : Option FloodEntry) (p : Peer) → (add_flood o p).neighbors ≡ p.neighbors
unfolding add_flood
add_flood-neighbors none p = refl
add_flood-neighbors (some f) p = refl

meet-dataf :
    (env : Env) (k : Neighbor) (val : Ident) (p : Peer) → (meet env k val p).dataf ≡ p.dataf
unfolding meet
meet-dataf env k val p = if_cases (λ (q : Peer). q.dataf ≡ p.dataf) _ (λ _. refl) (λ _. refl)

hello-dataf :
    (env : Env) (tlv : List ℕ) (len : ℕ) (k : Neighbor) (p : Peer)
    → (hello env tlv len k p).dataf ≡ p.dataf
unfolding hello
hello-dataf env tlv len k p =
    let Kept = λ (q : Peer). q.dataf ≡ p.dataf in
    if_cases Kept (len == 16)
      (λ _.
        if_cases Kept (le_value (take 8 (drop 8 tlv)) == p.id) (λ _. meet-dataf env k _ p)
          (λ _. refl))
      (λ _. meet-dataf env k _ p)

module _ (strict : Bool) (env : Env) where
  pub everywhere-Change :
      (a : Addr) (p : Peer) → IsValid p → Change strict env p (remove_neighbor_everywhere a p)
  unfolding remove_neighbor_everywhere
  everywhere-Change a p v =
      forgot a (λ q. ground (arith, remove_neighbor_everywhere-get_ident a p q v.ordered)) refl

  hello-Change :
      (tlv : List ℕ) (len : ℕ) (k : Neighbor) (p : Peer)
      → length k.ip ≡ 16
      → IsValid p
      → Change strict env p (hello env tlv len k p)
  hello-Change tlv len k p h v =
      let heard = λ (q : Addr). hello-get_ident env tlv len k p q h v in
      elim (Bool-cases (accepted tlv len p)) [
        | inl e ↦ learned k.addr (λ q. ground (arith, heard q, e)) (hello-dataf env tlv len k p)
        | inr e ↦ quiet (λ q. ground (arith, heard q, e)) (hello-dataf env tlv len k p)
      ]

  neighbour-Change : (tlv : List ℕ) (p : Peer) → Change strict env p (neighbour env tlv p)
  unfolding neighbour
  neighbour-Change tlv p =
      let port = ntohs (le_value (take 2 (drop 16 tlv))) in
      let key : Addr = record { ip = take 16 tlv; port = port } in
      if_cases (Change strict env p) (is_some (get_ident p.neighbors key))
        (λ _. quiet (λ q. refl) refl) (λ _. quiet (λ q. refl) refl)

  handle_data-Change :
      (tlv : List ℕ) (len : ℕ) (k : Neighbor) (p : Peer)
      → Change strict env p (handle_data env tlv len k p)
  unfolding handle_data remove_neighbor_from_flood add_message_to_flood print_data
  handle_data-Change tlv len k p =
      if_cases (Change strict env p) (is_some (get p.dataf (flood_probe (index_of tlv))))
        (λ _. settled (index_of tlv) k.addr (λ q. refl) refl)
        λ new.
          let neighbors =
            λ (q : Addr). ap (λ t. is_some (get_ident t q)) (add_flood-neighbors _ _) in
          if_cases (Change strict env p) (get_or tlv 12 0 == 0)
            (λ _.
              if_cases (Change strict env p) (ltb len 13)
                (λ _.
                  published tlv len (some k.addr) (λ _. new) neighbors (add_flood-dataf _ p _ refl))
                (λ _.
                  published tlv len (some k.addr) (λ _. new) neighbors
                    (add_flood-dataf _ p _ refl)))
            (λ _. published tlv len (some k.addr) (λ _. new) neighbors (add_flood-dataf _ p _ refl))

  dispatch-Change :
      (type : ℕ) (tlv : List ℕ) (len : ℕ) (k : Neighbor) (p : Peer)
      → length k.ip ≡ 16
      → IsValid p
      → Change strict env p (dispatch env type tlv len k p)
  unfolding dispatch remove_neighbor_from_flood
  dispatch-Change type tlv len k p h v =
      let C = Change strict env p in
      if_cases C (type == 2) (λ _. hello-Change tlv len k p h v)
        λ _.
          if_cases C (type == 3) (λ _. neighbour-Change tlv p)
            λ _.
              if_cases C (type == 4) (λ _. handle_data-Change tlv len k p)
                λ _.
                  if_cases C (type == 5) (λ _. settled (index_of tlv) k.addr (λ q. refl) refl)
                    λ _.
                      if_cases C (type == 6) (λ _. everywhere-Change k.addr p v)
                        (λ _. quiet (λ q. refl) refl)

  read_tlvs-Changes :
      (fuel : ℕ) (body : List ℕ) (left : ℕ) (tlv : List ℕ) (k : Neighbor) (p : Peer)
      → IsGood k
      → 16 ≤ length tlv
      → left ≤ length tlv
      → IsValid p
      → Changes strict env p (read_tlvs fuel env body left tlv k p)
  unfolding read_tlvs
  read_tlvs-Changes zero body left tlv k p g h b v = nothing
  read_tlvs-Changes (suc fuel) body left tlv k p g h b v =
      let type = get_or body 0 0 in
      let len = get_or body 1 0 in
      let tlv' = blit 0 (take len (drop 2 body)) tlv in
      let grown = length-blit-ge 0 (take len (drop 2 body)) tlv (omega arith) in
      let C = Changes strict env p in
      if_cases C (left == 0) (λ _. nothing)
        λ _.
          if_cases C (type == 0)
            (λ _. read_tlvs-Changes fuel (drop 1 body) (left - 1) tlv k p g h (omega arith) v)
            λ _.
              if_cases C (ltb left len) (λ _. nothing)
                λ short.
                  if_cases C (ltb type 8)
                    (λ _. Changes-trans (one p _ v (dispatch-Change type tlv' len k p g.0 v)) (
                      read_tlvs-Changes fuel (drop (len + 2) body) (left - (len + 2)) tlv' k
                        (dispatch env type tlv' len k p) g (omega arith) (omega arith)
                        (dispatch-IsValid env type tlv' len k p g (omega arith) (ground arith) v)))
                    (λ _.
                      read_tlvs-Changes fuel (drop (len + 2) body) (left - (len + 2)) tlv k p g h
                        (omega arith) v)

  -- A message of any content is a sequence of changes.
  pub handle_message_h-Changes :
      (tlv : List ℕ) (msg : MessageH) (buf_t : ℕ) (k : Neighbor) (p : Peer)
      → IsSender k
      → length tlv ≡ 4096
      → buf_t ≤ 4100
      → IsValid p
      → Changes strict env p (handle_message_h env tlv msg buf_t k p)
  unfolding handle_message_h
  handle_message_h-Changes tlv msg buf_t k p g h b v =
      let body_length = ntohs msg.body_length in
      let good : IsGood k = (g.sixteen, subst IsSoundAt (sym g.no_buffer) tt) in
      let C = Changes strict env p in
      if_cases C (ltb buf_t 4) (λ _. nothing)
        λ _.
          if_cases C (not (msg.magic == 93) || not (msg.version == 2)) (λ _. nothing)
            λ _.
              if_cases C (ltb buf_t (body_length + 4)) (λ _. nothing)
                λ fits.
                  read_tlvs-Changes (body_length + 1) msg.body body_length tlv k p good
                    (omega arith) (ground arith) v
