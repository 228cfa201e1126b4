-- ===== src/Integrity/Jobs.antt =====
-- The work of net_lib.c every 30 seconds: a peer sends texts with the property alone.
use projet_reseau.Prelude.{
  ℕ, ◌+◌, ◌-◌, ◌%◌, ◌^◌, ◌≤◌, ◌≡◌, refl, sym, ap, subst, List, [], ◌∷◌, All, length, length-take,
  length-replicate, take, blit, arith, Bool-cases, inl, inr, ltb,
}
use projet_reseau.Prelude.Int.{pos}
use projet_reseau.Bytes.{le_bytes, length-le_bytes}
use projet_reseau.Neighbor.{Addr}
use projet_reseau.Abr.{Tree, is_old}
use projet_reseau.Abr.Order as Abr
use projet_reseau.Tlv.{tlv_neighbour, tlv_goaway, tlv_short_hello}
use projet_reseau.Tlv.Format.{neighbour_payload, length-neighbour}
use projet_reseau.Flood.{NgbEntry, pmtu, find_by, get_symmetrical}
use projet_reseau.Net.{message, send_to_everyone}
use projet_reseau.Net.Buffer.{take-blit}
use projet_reseau.Net.Buffer.Everyone.{IsGood, All-append, message-Carries}
use projet_reseau.Peer.{Env, Peer}
use projet_reseau.Peer.Valid.{IsValid, remove_neighbor-All, remove_neighbor_everywhere-IsValid}
use projet_reseau.Periodic.{
  zero_body, send_symmetric, send_symetrical_everyone, send_shorthello_everyone, goaway_old,
  send_goaway_asymetrical, remove_potentials, remove_old_potential,
}
use projet_reseau.Periodic.Valid.{
  IsEntry, find_by-All, prefix-Carries, prefix-Keeps, room_cases, length-blit-ge, send_to-IsValid,
}
use projet_reseau.Integrity.{IsBody, nil-IsBody, append-IsBody, control-IsBody}
use projet_reseau.Integrity.Sends.{Waits, IsPacketOf, Spreads, send_to_everyone-Spreads}
use projet_reseau.Integrity.Peers.{
  dropped-IsFaithful, IsFaithful, potential-IsFaithful, with_neighbors-IsFaithful,
  with_potential-IsFaithful,
}

neighbour_bytes :
    (bufsize : ℕ) (a : Addr)
    → (tlv_neighbour bufsize a).ret ≡ pos 20
    → (tlv_neighbour bufsize a).bytes ≡ 3 ∷ 18 ∷ neighbour_payload a
unfolding tlv_neighbour
neighbour_bytes bufsize a e = ground arith

again_bytes : (a : Addr) → (tlv_neighbour (pmtu - 4) a).bytes ≡ 3 ∷ 18 ∷ neighbour_payload a
unfolding tlv_neighbour
again_bytes a = refl

module _ (T : List ℕ → Type 0) where
  -- The first bytes of a body, as many as the header says.
  prefix-Spreads :
      (body : List ℕ) (size : ℕ) (t : Tree)
      → size ≤ pmtu - 4
      → size ≤ length body
      → IsBody T (take size body)
      → Abr.All IsGood t
      → Abr.All (Waits T) t
      → Spreads T (send_to_everyone (message body size) (size + 4) t)
  prefix-Spreads body size t h b a g w =
      let len : length (take size body) ≡ size = omega (arith, length-take size body) in
      subst (λ n. Spreads T (send_to_everyone (message body size) (n + 4) t)) len
        (send_to_everyone-Spreads T (message body size) (take size body) t
          (prefix-Carries body size h b) a g w)

  -- A Neighbour TLV is put behind the others.
  grown-IsBody :
      (body bytes : List ℕ) (size : ℕ) (a : Addr)
      → size ≤ length body
      → length a.ip ≡ 16
      → bytes ≡ 3 ∷ 18 ∷ neighbour_payload a
      → IsBody T (take size body)
      → IsBody T (take (size + 20) (blit size bytes body))
  grown-IsBody body bytes size a b h e i =
      let len = length-neighbour a h in
      let twenty : length bytes ≡ 20 = omega (arith, ap length e) in
      let added : IsBody T bytes =
        subst (IsBody T) (sym e)
          (control-IsBody T 3 18 (neighbour_payload a) len (omega arith) (omega arith)) in
      subst (λ n. IsBody T (take (size + n) (blit size bytes body))) twenty
        (subst (IsBody T) (sym (take-blit size bytes body b))
          (append-IsBody T (take size body) bytes i added))

  send_symmetric-Spreads :
      (es : List NgbEntry) (body : List ℕ) (size : ℕ) (t : Tree)
      → All IsEntry es
      → size ≤ pmtu - 4
      → pmtu - 4 ≤ length body
      → IsBody T (take size body)
      → Abr.All IsGood t
      → Abr.All (Waits T) t
      → Spreads T (send_symmetric es body size t)
  unfolding send_symmetric
  send_symmetric-Spreads [] body size t n h b a g w = elim (Bool-cases (ltb 0 size)) [
    | inl e ↦ rw e (prefix-Spreads body size t h (omega arith) a g w)
    | inr e ↦ rw e (w, tt)
  ]
  send_symmetric-Spreads (tmp ∷ es) body size t n h b a g w =
      let room = (pmtu - 4 + 2 ^ 64 - size) % 2 ^ 64 in
      let bytes = (tlv_neighbour room tmp.sym).bytes in
      let again = (tlv_neighbour (pmtu - 4) tmp.sym).bytes in
      let kept = prefix-Keeps body size t h (omega arith) g in
      let first = prefix-Spreads body size t h (omega arith) a g w in
      let t' = (send_to_everyone (message body size) (size + 4) t).0 in
      elim (room_cases size tmp.sym h) [
        | inl (e, fits) ↦
            rw (e, send_symmetric)
              (send_symmetric-Spreads es (blit size bytes body) (size + 20) t n.1 fits
                (omega (arith, length-blit-ge size bytes body))
                (grown-IsBody body bytes size tmp.sym (omega arith) n.0
                  (neighbour_bytes room tmp.sym e) a)
                g w)
        | inr e ↦
            let rest =
              send_symmetric-Spreads es (blit 0 again body) 20 t' n.1 (omega arith)
                (omega (arith, length-blit-ge 0 again body))
                (grown-IsBody body again 0 tmp.sym (omega arith) n.0 (again_bytes tmp.sym)
                  (nil-IsBody T))
                kept.good first.0 in
            rw (e, send_symmetric) (rest.0, All-append (IsPacketOf T) _ _ first.1 rest.1)
      ]

  pub send_symetrical_everyone-IsFaithful :
      (env : Env) (p : Peer)
      → IsValid p
      → IsFaithful T p
      → IsFaithful T (send_symetrical_everyone env p)
  unfolding send_symetrical_everyone get_symmetrical
  send_symetrical_everyone-IsFaithful env p v f =
      let es = (get_symmetrical env.now p.neighbors).entries in
      let body : pmtu - 4 ≤ length zero_body =
        unfold zero_body in omega (arith, length-replicate {A = ℕ} 4096 0) in
      let w =
        with_neighbors-IsFaithful T p _
          (send_symmetric-Spreads es zero_body 0 p.neighbors
            (find_by-All env.now p.neighbors _ v.good) (omega arith) body (nil-IsBody T) v.good
            f.waits)
          f in
      record {
        waits = w.waits;
        waits_potential = w.waits_potential;
        packets = w.packets;
        floods = w.floods;
        texts = w.texts;
      }

  pub send_shorthello_everyone-IsFaithful :
      (p : Peer) → IsValid p → IsFaithful T p → IsFaithful T (send_shorthello_everyone p)
  unfolding send_shorthello_everyone tlv_short_hello
  send_shorthello_everyone-IsFaithful p v f =
      let body = 2 ∷ 8 ∷ le_bytes 8 p.id in
      let ten : length body ≡ 10 = omega (arith, length-le_bytes 8 p.id) in
      with_potential-IsFaithful T p _
        (subst (λ n. Spreads T (send_to_everyone (message body n) (n + 4) p.potential)) ten
          (send_to_everyone-Spreads T (message body (length body)) body p.potential
            (message-Carries body (omega arith))
            (control-IsBody T 2 8 (le_bytes 8 p.id) (length-le_bytes 8 p.id) (omega arith)
              (omega arith))
            v.good_potential f.waits_potential))
        f

  goaway_old-IsFaithful :
      (es : List NgbEntry) (p : Peer) → IsValid p → IsFaithful T p → IsFaithful T (goaway_old es p)
  unfolding goaway_old tlv_goaway
  goaway_old-IsFaithful [] p v f = f
  goaway_old-IsFaithful (e ∷ es) p v f =
      let w = tlv_goaway (pmtu - 4) 2 [] 0 in
      goaway_old-IsFaithful es _
        (remove_neighbor_everywhere-IsValid e.sym _
          (send_to-IsValid e.sym w p refl (omega arith) v))
        (dropped-IsFaithful T e.sym w p refl (omega arith)
          (control-IsBody T 6 1 (2 ∷ []) refl (omega arith) (omega arith)) v f)

  pub send_goaway_asymetrical-IsFaithful :
      (env : Env) (p : Peer)
      → IsValid p
      → IsFaithful T p
      → IsFaithful T (send_goaway_asymetrical env p)
  unfolding send_goaway_asymetrical
  send_goaway_asymetrical-IsFaithful env p v f =
      goaway_old-IsFaithful (find_by env.now p.neighbors (is_old env.now)).entries p v f

  remove_potentials-Waits :
      (es : List NgbEntry) (t : Tree)
      → Abr.All (Waits T) t
      → Abr.All (Waits T) (remove_potentials es t)
  unfolding remove_potentials
  remove_potentials-Waits [] t w = w
  remove_potentials-Waits (e ∷ es) t w =
      remove_potentials-Waits es _ (remove_neighbor-All (Waits T) e.sym t w)

  pub remove_old_potential-IsFaithful :
      (env : Env) (p : Peer) → IsFaithful T p → IsFaithful T (remove_old_potential env p)
  unfolding remove_old_potential
  remove_old_potential-IsFaithful env p f =
      let old = (find_by env.now p.potential (is_old env.now)).entries in
      potential-IsFaithful T p (remove_potentials old p.potential)
        (remove_potentials-Waits old p.potential f.waits_potential) f
