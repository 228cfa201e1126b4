-- ===== src/Main/Delivered.antt =====
-- Nothing waits longer than the round of the loop of main.c in which it was put into a buffer.
use projet_reseau.Prelude.{◌≡◌, refl, sym, ◌⊎◌, inl, inr, List, [], ◌∷◌, ◌++◌, append_assoc}
use projet_reseau.Neighbor.{Neighbor}
use projet_reseau.Abr.{Tree, leaf, node}
use projet_reseau.Abr.Order as Abr
use projet_reseau.Net.{Datagram, flush, send_to_everyone_now}
use projet_reseau.Net.Buffer.{waiting_at, packet, flush_lem}
use projet_reseau.Net.Buffer.Everyone.{IsGood}
use projet_reseau.Peer.Valid.{IsValid}
use projet_reseau.Flooding.{flood_messages}
use projet_reseau.Flooding.Valid.{flood_messages-IsValid}
use projet_reseau.Main.{State, Event, work, round}
use projet_reseau.Main.Invariant.{IsEvent, work-IsValid}

-- The datagram is among those that are sent.
abbrev pub IsAmong : Datagram → List Datagram → Type 0
IsAmong d out = (before after : List Datagram) × (out ≡ before ++ (d ∷ after))

-- What waits at a neighbour is sent in one datagram, if anything does.
abbrev pub IsDelivered : List Datagram → Neighbor → Type 0
IsDelivered out k = (waiting_at k.msg ≡ []) ⊎ IsAmong (packet k.addr (waiting_at k.msg)) out

abbrev pub IsIdle : Neighbor → Type 0
IsIdle k = waiting_at k.msg ≡ []

IsDelivered-behind :
    (xs ys : List Datagram) (k : Neighbor) → IsDelivered ys k → IsDelivered (xs ++ ys) k
IsDelivered-behind xs ys k (inl e) = inl e
IsDelivered-behind xs ys k (inr (before, after, e)) =
    inr (xs ++ before, after, rw e (sym (append_assoc xs before _)))

IsDelivered-front :
    (xs ys : List Datagram) (k : Neighbor) → IsDelivered xs k → IsDelivered (xs ++ ys) k
IsDelivered-front xs ys k (inl e) = inl e
IsDelivered-front xs ys k (inr (before, after, e)) =
    inr (before, after ++ ys, rw e (append_assoc before _ ys))

flush-delivers : (k : Neighbor) → IsGood k → IsIdle (flush k).0 × IsDelivered (flush k).1 k
flush-delivers k g =
    let (idle, ways) = (flush_lem k g.1).0 in
    elim ways [ inl (e, _) ↦ (idle, inl e) | inr e ↦ (idle, inr ([], [], e)) ]

-- One call for a whole tree: what waits is sent, and then nothing waits.
pub send_to_everyone_now-delivers :
    (t : Tree)
    → Abr.All IsGood t
    → Abr.All IsIdle (send_to_everyone_now t).0 × Abr.All (IsDelivered (send_to_everyone_now t).1) t
unfolding send_to_everyone_now
send_to_everyone_now-delivers leaf g = (tt, tt)
send_to_everyone_now-delivers (node k v l r) g =
    let here = flush-delivers k g.0 in
    let left = send_to_everyone_now-delivers l g.1 in
    let right = send_to_everyone_now-delivers r g.2 in
    let a = (flush k).1 in
    let b = (send_to_everyone_now l).1 in
    let c = (send_to_everyone_now r).1 in
    (
      (here.0, left.0, right.0),
      (
        IsDelivered-front a (b ++ c) k here.1,
        Abr.All-imp (λ n d. IsDelivered-behind a (b ++ c) n (IsDelivered-front b c n d)) l left.1,
        Abr.All-imp (λ n d. IsDelivered-behind a (b ++ c) n (IsDelivered-behind b c n d)) r right.1,
      ),
    )

-- From a valid state, a round of the loop ends with nothing in the buffers of the neighbours: what
-- they hold behind the handlers, the periodic work and the floods of the round is sent in it, in one
-- datagram to each neighbour for which something waits.
pub round_delivers :
    (ev : Event) (s : State)
    → IsEvent ev
    → IsValid s.peer
    → let p = flood_messages ev.env (work ev s).peer in
      let after = (round ev s).peer in
      Abr.All IsIdle after.neighbors
      × (out : List Datagram) × (after.sent ≡ p.sent ++ out)
      × Abr.All (IsDelivered out) p.neighbors
unfolding round
round_delivers ev s h v =
    let p = flood_messages ev.env (work ev s).peer in
    let good = (flood_messages-IsValid ev.env _ (work-IsValid ev s h v)).good in
    let (idle, all) = send_to_everyone_now-delivers p.neighbors good in
    (idle, (send_to_everyone_now p.neighbors).1, refl, all)
