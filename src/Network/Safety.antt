-- ===== src/Network/Safety.antt =====
-- What every peer keeps, whatever the network does: every text that is shown was typed.
use projet_reseau.Prelude.{
  ℕ, ◌+◌, ◌≡◌, refl, sym, ap, ◌∙◌, subst, List, [], ◌∷◌, ◌++◌, append_assoc, All, length, arith,
  Option, none, some, ◌==◌, Bool-cases, inl, inr,
}
use projet_reseau.Neighbor.{Addr}
use projet_reseau.Tlv.{tlv_goaway}
use projet_reseau.Net.{Datagram, message, send_to_everyone}
use projet_reseau.Net.Buffer.Everyone.{
  message-Carries, send_to_everyone-Keeps, send_to_everyone_now-Keeps,
}
use projet_reseau.Peer.{Peer, with_neighbors}
use projet_reseau.Peer.Valid.{IsValid, with_neighbors-IsValid}
use projet_reseau.Main.{State, round, disconnect, farewell}
use projet_reseau.Main.Invariant.{round-IsValid}
use projet_reseau.Main.Farewell.{goodbye}
use projet_reseau.Integrity.{control-IsBody}
use projet_reseau.Integrity.Sends.{
  IsPacketOf, send_to_everyone-Spreads, send_to_everyone_now-Spreads,
}
use projet_reseau.Integrity.Peers.{IsFaithful, with_neighbors-IsFaithful}
use projet_reseau.Integrity.Rounds.{IsFrom, IsTyped, round-IsFaithful}
use projet_reseau.Network.{
  World, update, IsInFlight, Step, works, leaves, Steps, start, further, typed_text_of, typed_at,
  typed_in, IsOneOf,
}
use projet_reseau.Network.Start.{IsStarted, IsStarted-IsSafe}

All-IsAmong {μ} :
    (P : Datagram → Type μ) (d : Datagram) (before after : List Datagram)
    → All P (before ++ (d ∷ after))
    → P d
All-IsAmong P d [] after a = a.0
All-IsAmong P d (x ∷ xs) after a = All-IsAmong P d xs after a.1

All-split {μ} :
    (P : List ℕ → Type μ) (xs ys : List (List ℕ)) → All P (xs ++ ys) → All P xs × All P ys
All-split P [] ys a = (tt, a)
All-split P (x ∷ xs) ys a = let (front, back) = All-split P xs ys a.1 in ((a.0, front), back)

All-IsOneOf : (before texts : List (List ℕ)) → All (IsOneOf (before ++ texts)) texts
All-IsOneOf before [] = tt
All-IsOneOf before (t ∷ ts) = (
  (before, ts, refl),
  subst (λ all. All (IsOneOf all) ts) (append_assoc before (t ∷ []) ts)
      (All-IsOneOf (before ++ (t ∷ [])) ts),
)

module _ (T : List ℕ → Type 0) where
  -- A peer in a valid state that holds, has sent and has shown texts with the property alone.
  abbrev pub IsSafe : State → Type 0
  IsSafe s = IsValid s.peer × IsFaithful T s.peer

  flight-IsFrom :
      (w : World) (d : Option (Addr × List ℕ))
      → ((i : ℕ) → IsSafe (w i))
      → IsInFlight w d
      → IsFrom T d
  flight-IsFrom w none h f = tt
  flight-IsFrom w (some (client, bytes)) h (j, d, (before, after, e), same) =
      let (a, body, packed, small, b) =
        All-IsAmong (IsPacketOf T) d before after (subst (All (IsPacketOf T)) e (h j).1.packets) in
      (a, body, sym same ∙ ap (λ x. x.bytes) packed, small, b)

  disconnect-IsSafe :
      (p : Peer) → IsValid p → IsFaithful T p → IsValid (disconnect p) × IsFaithful T (disconnect p)
  unfolding disconnect tlv_goaway
  disconnect-IsSafe p v f =
      let size = length goodbye + 4 in
      let last = message goodbye (length goodbye) in
      let carried = message-Carries goodbye (omega arith) in
      let result = send_to_everyone last size p.neighbors in
      let body = control-IsBody T 6 21 (1 ∷ farewell) refl (omega arith) (omega arith) in
      let v1 =
        with_neighbors-IsValid p result
          (send_to_everyone-Keeps last goodbye p.neighbors carried v.good) v in
      let f1 =
        with_neighbors-IsFaithful T p result
          (send_to_everyone-Spreads T last goodbye p.neighbors carried body v.good f.waits) f in
      let q = with_neighbors p result in
      (
        with_neighbors-IsValid q _ (send_to_everyone_now-Keeps q.neighbors v1.good) v1,
        with_neighbors-IsFaithful T q _
            (send_to_everyone_now-Spreads T q.neighbors v1.good f1.waits) f1,
      )

  update-IsSafe :
      (i : ℕ) (s : State) (w w' : World)
      → IsSafe s
      → ((j : ℕ) → IsSafe (w j))
      → ((j : ℕ) → w' j ≡ update i s w j)
      → (j : ℕ) → IsSafe (w' j)
  update-IsSafe i s w w' now h e j =
      subst IsSafe (sym (e j))
        (elim (Bool-cases (j == i)) [ inl m ↦ rw m now | inr m ↦ rw m (h j) ])

  text-IsTyped : (typed : Option (List ℕ)) → All T (typed_text_of typed) → IsTyped T typed
  unfolding typed_text_of
  text-IsTyped none a = tt
  text-IsTyped (some text) a = a.0

  Step-IsSafe :
      (w w' : World) (s : Step w w')
      → All T (typed_at s)
      → ((i : ℕ) → IsSafe (w i))
      → (i : ℕ) → IsSafe (w' i)
  unfolding typed_at
  Step-IsSafe w w' (works i ev ok flight e) a h =
      let (v, f) = h i in
      let came = flight-IsFrom w ev.datagram h flight in
      update-IsSafe i (round ev (w i)) w w'
        (
          round-IsValid ev (w i) ok v,
          round-IsFaithful T ev (w i) ok came (text-IsTyped ev.typed a) v f,
        )
        h e
  Step-IsSafe w w' (leaves i e) a h =
      let gone = disconnect-IsSafe (w i).peer (h i).0 (h i).1 in
      update-IsSafe i (record (w i) { peer = disconnect (w i).peer }) w w' gone h e

  -- Where the users type, trimmed, texts with the property alone, the peers stay safe.
  pub Steps-IsSafe :
      (w w' : World) (steps : Steps w w')
      → All T (typed_in steps)
      → ((i : ℕ) → IsSafe (w i))
      → (i : ℕ) → IsSafe (w' i)
  unfolding typed_in
  Steps-IsSafe w w' start a h = h
  Steps-IsSafe w w' (further {u = u} before last) a h =
      let (earlier, now) = All-split T (typed_in before) (typed_at last) a in
      Step-IsSafe u w' last now (Steps-IsSafe w u before earlier h)

-- Peers from the start of the loops of their programs on, with any arguments: however their rounds and
-- farewells interleave, and whatever the network loses, repeats, delays, reorders or misdirects of
-- what they send, every peer stays in a valid state, and every text that it shows is one that a user
-- typed at some peer, trimmed.
pub shown_texts_were_typed :
    (w w' : World) (steps : Steps w w')
    → ((i : ℕ) → IsStarted (w i))
    → (i : ℕ) → IsValid (w' i).peer × All (IsOneOf (typed_in steps)) (w' i).peer.shown
shown_texts_were_typed w w' steps s i =
    let T = IsOneOf (typed_in steps) in
    let (valid, faithful) =
      Steps-IsSafe T w w' steps (All-IsOneOf [] (typed_in steps))
        (λ j. IsStarted-IsSafe T (w j) (s j)) i in
    (valid, faithful.texts)
