-- ===== src/Main/Farewell.antt =====
-- `disconnect` of util.c: the GoAway reaches the wire for every neighbour.
use projet_reseau.Prelude.{
  ℕ, ◌+◌, ◌≡◌, sym, ap, ◌∙◌, ◌⊎◌, inl, inr, List, [], ◌∷◌, ◌++◌, append_assoc, length,
  length-append, arith,
}
use projet_reseau.Neighbor.{Neighbor, MessageH}
use projet_reseau.Abr.{Tree, leaf, node}
use projet_reseau.Abr.Order as Abr
use projet_reseau.Net.{
  Datagram, message, send_message, flush, send_to_everyone, send_to_everyone_now,
}
use projet_reseau.Net.Buffer.{waiting_at, packet, send_message_lem, flush_lem}
use projet_reseau.Net.Buffer.Everyone.{
  IsGood, message-Carries, message_KeepsKey, send_to_everyone-Keeps,
}
use projet_reseau.Tlv.{tlv_goaway}
use projet_reseau.Peer.{Peer}
use projet_reseau.Peer.Valid.{IsValid}
use projet_reseau.Main.{farewell, disconnect}
use projet_reseau.Main.Delivered.{IsAmong, IsIdle, send_to_everyone_now-delivers}

-- The GoAway with the code 1 and the farewell.
abbrev pub goodbye : List ℕ
goodbye = 6 ∷ 21 ∷ 1 ∷ farewell

-- A datagram to the neighbour, among those that are sent, ends with the GoAway.
abbrev pub IsTold : List Datagram → Neighbor → Type 0
IsTold out k = (front : List ℕ) × IsAmong (packet k.addr (front ++ goodbye)) out

IsTold-front : (xs ys : List Datagram) (k : Neighbor) → IsTold xs k → IsTold (xs ++ ys) k
IsTold-front xs ys k (front, (before, after, e)) =
    (front, (before, after ++ ys, rw e (append_assoc before _ ys)))

IsTold-behind : (xs ys : List Datagram) (k : Neighbor) → IsTold ys k → IsTold (xs ++ ys) k
IsTold-behind xs ys k (front, (before, after, e)) =
    (front, (xs ++ before, after, rw e (sym (append_assoc xs before _))))

-- By the first call, or by the second.
abbrev IsToldBy : List Datagram → List Datagram → Neighbor → Type 0
IsToldBy first second k = IsTold first k ⊎ IsTold second k

either :
    (xs xs' ys ys' : List Datagram) (k : Neighbor)
    → (IsTold xs k → IsTold xs' k)
    → (IsTold ys k → IsTold ys' k)
    → IsToldBy xs ys k
    → IsToldBy xs' ys' k
either xs xs' ys ys' k f g (inl a) = inl (f a)
either xs xs' ys ys' k f g (inr b) = inr (g b)

by_both : (xs ys : List Datagram) (k : Neighbor) → IsToldBy xs ys k → IsTold (xs ++ ys) k
by_both xs ys k (inl a) = IsTold-front xs ys k a
by_both xs ys k (inr b) = IsTold-behind xs ys k b

-- What waits and ends with the GoAway is sent by a flush.
flush-IsTold :
    (k k' : Neighbor) (front : List ℕ)
    → IsGood k'
    → k'.addr ≡ k.addr
    → waiting_at k'.msg ≡ front ++ goodbye
    → IsTold (flush k').1 k
flush-IsTold k k' front g same w =
    let (idle, ways) = (flush_lem k' g.1).0 in
    elim ways [
      | inl (e, _) ↦ absurd (omega (arith, ap length (sym e ∙ w), length-append front goodbye))
      | inr e ↦ (front, ([], [], e ∙ λ i. packet (same i) (w i) ∷ []))
    ]

-- The message of `disconnect`.
abbrev pub last_message : MessageH
last_message = message goodbye (length goodbye)

told :
    (k : Neighbor)
    → IsGood k
    → let (k', sent) = send_message last_message (length goodbye + 4) k in
      IsToldBy sent (flush k').1 k
told k g =
    let carried = message-Carries goodbye (omega arith) in
    let kept = message_KeepsKey last_message goodbye k carried g in
    let k' = (send_message last_message (length goodbye + 4) k).0 in
    let (ways, _, same) = send_message_lem last_message goodbye k carried g.1 in
    elim ways [
      | inl now ↦ inl ([], ([], [], now.2))
      | inr later ↦ elim later [
        | inl fits ↦ inr (flush-IsTold k k' (waiting_at k.msg) kept.good same fits.1)
        | inr full ↦ inr (flush-IsTold k k' [] kept.good same full.1)
      ]
    ]

tree_told :
    (t : Tree)
    → Abr.All IsGood t
    → let (t', first) = send_to_everyone last_message (length goodbye + 4) t in
      Abr.All (IsToldBy first (send_to_everyone_now t').1) t
unfolding send_to_everyone send_to_everyone_now
tree_told leaf g = tt
tree_told (node k v l r) g =
    let size = length goodbye + 4 in
    let (k', a) = send_message last_message size k in
    let (l', b) = send_to_everyone last_message size l in
    let (r', c) = send_to_everyone last_message size r in
    let a' = (flush k').1 in
    let b' = (send_to_everyone_now l').1 in
    let c' = (send_to_everyone_now r').1 in
    (
      either a (a ++ (b ++ c)) a' (a' ++ (b' ++ c')) k (IsTold-front a (b ++ c) k)
          (IsTold-front a' (b' ++ c') k) (told k g.0),
      Abr.All-imp
          (λ n.
            either b (a ++ (b ++ c)) b' (a' ++ (b' ++ c')) n
              (λ s. IsTold-behind a (b ++ c) n (IsTold-front b c n s))
              (λ s. IsTold-behind a' (b' ++ c') n (IsTold-front b' c' n s)))
          l (tree_told l g.1),
      Abr.All-imp
          (λ n.
            either c (a ++ (b ++ c)) c' (a' ++ (b' ++ c')) n
              (λ s. IsTold-behind a (b ++ c) n (IsTold-behind b c n s))
              (λ s. IsTold-behind a' (b' ++ c') n (IsTold-behind b' c' n s)))
          r (tree_told r g.2),
    )

-- From a valid state, before the process ends on SIGINT every neighbour is sent a datagram that ends
-- with the GoAway of code 1, and no buffer holds anything then.
pub disconnect_lem :
    (p : Peer)
    → IsValid p
    → (out : List Datagram) × ((disconnect p).sent ≡ p.sent ++ out)
      × Abr.All (IsTold out) p.neighbors
      × Abr.All IsIdle (disconnect p).neighbors
unfolding disconnect tlv_goaway
disconnect_lem p v =
    let size = length goodbye + 4 in
    let (t, first) = send_to_everyone last_message size p.neighbors in
    let second = (send_to_everyone_now t).1 in
    let kept =
      send_to_everyone-Keeps last_message goodbye p.neighbors
        (message-Carries goodbye (omega arith)) v.good in
    (
      first ++ second,
      append_assoc p.sent first second,
      Abr.All-imp (by_both first second) p.neighbors (tree_told p.neighbors v.good),
      (send_to_everyone_now-delivers t kept.good).0,
    )
