-- ===== src/Integrity/Sends.antt =====
-- The sends of net_lib.c put nothing into buffers and datagrams but the bodies that they are given
-- and what waited there.
use projet_reseau.Prelude.{
  ℕ, ◌+◌, ◌-◌, ◌≤◌, ◌≡◌, refl, sym, subst, List, [], ◌∷◌, ◌++◌, All, length, length-take, arith,
  inl, inr, none, some, Option, Ordering-cases,
}
use projet_reseau.Integrity.{IsBody, nil-IsBody, append-IsBody}
use projet_reseau.Neighbor.{Addr, Neighbor, Ident, MessageH, compare_n}
use projet_reseau.Abr.{Tree, leaf, node}
use projet_reseau.Abr.Order as Abr
use projet_reseau.Flood.{pmtu}
use projet_reseau.Net.{
  Datagram, message, send_message, flush, send_to_everyone, send_to_everyone_now,
  send_hello_everyone, hello_message, send_via,
}
use projet_reseau.Net.Buffer.{
  Carries, Sends, Flushes, IsSoundAt, waiting_at, used, packet, send_message_lem, flush_lem,
}
use projet_reseau.Net.Buffer.Everyone.{
  IsGood, All-append, message-Carries, long_hello_body, length-long_hello, hello_lem,
}

module _ (T : List ℕ → Type 0) where
  -- What waits at a neighbour.
  abbrev pub Waits : Neighbor → Type 0
  Waits k = IsBody T (waiting_at k.msg)

  -- A datagram with such a body.
  abbrev pub IsPacketOf : Datagram → Type 0
  IsPacketOf d =
      (a : Addr) × (body : List ℕ) × (d ≡ packet a body) × (length body ≤ pmtu - 4) × IsBody T body

  -- A call on a tree, and on one neighbour.
  abbrev pub Spreads : Tree × List Datagram → Type 0
  Spreads (t, out) = Abr.All Waits t × All IsPacketOf out

  abbrev pub SpreadsKey : Neighbor × List Datagram → Type 0
  SpreadsKey (k, out) = Waits k × All IsPacketOf out

  one_packet :
      (a : Addr) (body : List ℕ) (out : List Datagram)
      → out ≡ packet a body ∷ []
      → length body ≤ pmtu - 4
      → IsBody T body
      → All IsPacketOf out
  one_packet a body out e h b = subst (All IsPacketOf) (sym e) ((a, body, refl, h, b), tt)

  waiting_size : (msg : Option MessageH) → IsSoundAt msg → length (waiting_at msg) ≤ pmtu - 4
  waiting_size none s = omega arith
  waiting_size (some m) s = omega (arith, length-take (used m) m.body, s.small)

  Sends-SpreadsKey :
      (body : List ℕ) (k : Neighbor) (result : Neighbor × List Datagram)
      → length body ≤ pmtu - 4
      → IsSoundAt k.msg
      → IsBody T body
      → Waits k
      → Sends k body result
      → SpreadsKey result
  Sends-SpreadsKey body k result h s b w (inl (_, same, e)) =
      (subst Waits (sym same) w, one_packet k.addr body _ e h b)
  Sends-SpreadsKey body k result h s b w (inr (inl (e, d))) =
      (subst (IsBody T) (sym d) (append-IsBody T _ _ w b), subst (All IsPacketOf) (sym e) tt)
  Sends-SpreadsKey body k result h s b w (inr (inr (e, d, _))) =
      (subst (IsBody T) (sym d) b, one_packet k.addr _ _ e (waiting_size k.msg s) w)

  pub message-SpreadsKey :
      (buf : MessageH) (body : List ℕ) (k : Neighbor)
      → Carries buf body
      → IsBody T body
      → IsGood k
      → Waits k
      → SpreadsKey (send_message buf (length body + 4) k)
  message-SpreadsKey buf body k c b g w =
      Sends-SpreadsKey body k _ c.fits g.1 b w (send_message_lem buf body k c g.1).0

  Flushes-SpreadsKey :
      (k : Neighbor) (result : Neighbor × List Datagram)
      → IsSoundAt k.msg
      → Waits k
      → Flushes k result
      → SpreadsKey result
  Flushes-SpreadsKey k result s w (idle, inl (_, e)) =
      (subst (IsBody T) (sym idle) (nil-IsBody T), subst (All IsPacketOf) (sym e) tt)
  Flushes-SpreadsKey k result s w (idle, inr e) =
      (subst (IsBody T) (sym idle) (nil-IsBody T), one_packet k.addr _ _ e (waiting_size k.msg s) w)

  node-Spreads :
      (at_k : Neighbor × List Datagram) (at_l at_r : Tree × List Datagram) (v : Ident)
      → SpreadsKey at_k
      → Spreads at_l
      → Spreads at_r
      → Spreads (node at_k.0 v at_l.0 at_r.0, at_k.1 ++ (at_l.1 ++ at_r.1))
  node-Spreads at_k at_l at_r v a b c =
      ((a.0, b.0, c.0), All-append IsPacketOf _ _ a.1 (All-append IsPacketOf _ _ b.1 c.1))

  pub send_to_everyone-Spreads :
      (buf : MessageH) (body : List ℕ) (t : Tree)
      → Carries buf body
      → IsBody T body
      → Abr.All IsGood t
      → Abr.All Waits t
      → Spreads (send_to_everyone buf (length body + 4) t)
  unfolding send_to_everyone
  send_to_everyone-Spreads buf body leaf c b g w = (tt, tt)
  send_to_everyone-Spreads buf body (node k v l r) c b g w =
      node-Spreads (send_message buf (length body + 4) k) _ _ v
        (message-SpreadsKey buf body k c b g.0 w.0)
        (send_to_everyone-Spreads buf body l c b g.1 w.1)
        (send_to_everyone-Spreads buf body r c b g.2 w.2)

  pub send_to_everyone_now-Spreads :
      (t : Tree) → Abr.All IsGood t → Abr.All Waits t → Spreads (send_to_everyone_now t)
  unfolding send_to_everyone_now
  send_to_everyone_now-Spreads leaf g w = (tt, tt)
  send_to_everyone_now-Spreads (node k v l r) g w =
      node-Spreads (flush k) _ _ v (Flushes-SpreadsKey k (flush k) g.0.1 w.0 (flush_lem k g.0.1).0)
        (send_to_everyone_now-Spreads l g.1 w.1) (send_to_everyone_now-Spreads r g.2 w.2)

  hello-SpreadsKey :
      (id dest_id : ℕ) (k : Neighbor)
      → IsBody T (long_hello_body id dest_id)
      → IsGood k
      → Waits k
      → SpreadsKey (send_message (hello_message id dest_id).0 (hello_message id dest_id).1 k)
  hello-SpreadsKey id dest_id k b g w =
      let body = long_hello_body id dest_id in
      let small : length body ≤ pmtu - 4 = omega (arith, length-long_hello id dest_id) in
      subst (λ m. SpreadsKey (send_message m.0 m.1 k)) (sym (hello_lem id dest_id))
        (message-SpreadsKey (message body (length body)) body k (message-Carries body small) b g w)

  pub send_hello_everyone-Spreads :
      (id : ℕ) (t : Tree)
      → ((dest_id : ℕ) → IsBody T (long_hello_body id dest_id))
      → Abr.All IsGood t
      → Abr.All Waits t
      → Spreads (send_hello_everyone id t)
  unfolding send_hello_everyone
  send_hello_everyone-Spreads id leaf b g w = (tt, tt)
  send_hello_everyone-Spreads id (node k v l r) b g w =
      node-Spreads (send_message (hello_message id v.id).0 (hello_message id v.id).1 k) _ _ v
        (hello-SpreadsKey id v.id k (b v.id) g.0 w.0) (send_hello_everyone-Spreads id l b g.1 w.1)
        (send_hello_everyone-Spreads id r b g.2 w.2)

  pub send_via-Spreads :
      (a : Addr) (buf : MessageH) (body : List ℕ) (t : Tree)
      → Carries buf body
      → IsBody T body
      → Abr.All IsGood t
      → Abr.All Waits t
      → Spreads (send_via a buf (length body + 4) t)
  unfolding send_via
  send_via-Spreads a buf body leaf c b g w = (tt, tt)
  send_via-Spreads a buf body (node k v l r) c b g w = elim (Ordering-cases (compare_n k.addr a)) [
    | inl e ↦
        let below = send_via-Spreads a buf body r c b g.2 w.2 in
        rw (e, send_via) ((w.0, w.1, below.0), below.1)
    | inr (inl e) ↦
        let here = message-SpreadsKey buf body k c b g.0 w.0 in
        rw (e, send_via) ((here.0, w.1, w.2), here.1)
    | inr (inr e) ↦
        let below = send_via-Spreads a buf body l c b g.1 w.1 in
        rw (e, send_via) ((w.0, below.0, w.2), below.1)
  ]
