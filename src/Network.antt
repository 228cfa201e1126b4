-- ===== src/Network.antt =====
-- Peers that send one another datagrams over a network which may lose, repeat, delay, reorder and
-- misdirect them, as a step relation on the states of all peers.
pub mod Start
pub mod Safety
use projet_reseau.Prelude.{
  ℕ, ◌+◌, ◌-◌, ◌≡◌, refl, sym, ap, ◌∙◌, subst, List, [], ◌∷◌, ◌++◌, append_assoc, All, length,
  arith, Option, none, some, ◌==◌, Bool-cases, inl, inr, true, false, if◌then◌else◌,
}
use projet_reseau.Neighbor.{Addr}
use projet_reseau.Tlv.{tlv_goaway}
use projet_reseau.Flood.{pmtu}
use projet_reseau.Net.{Datagram, message, size_of, send_to_everyone, send_to_everyone_now}
use projet_reseau.Net.Buffer.Everyone.{
  message-Carries, send_to_everyone-Keeps, send_to_everyone_now-Keeps,
}
use projet_reseau.Peer.{Peer, with_neighbors}
use projet_reseau.Peer.Valid.{IsValid, with_neighbors-IsValid}
use projet_reseau.Delivery.{trimmed}
use projet_reseau.Main.{State, Event, init_peer, round, disconnect, farewell}
use projet_reseau.Main.Invariant.{IsEvent, round-IsValid}
use projet_reseau.Main.Delivered.{IsAmong}
use projet_reseau.Main.Farewell.{goodbye}
use projet_reseau.Integrity.{control-IsBody}
use projet_reseau.Integrity.Sends.{
  IsPacketOf, send_to_everyone-Spreads, send_to_everyone_now-Spreads,
}
use projet_reseau.Integrity.Peers.{IsFaithful, with_neighbors-IsFaithful}
use projet_reseau.Integrity.Rounds.{IsCarrier, IsFrom, IsTyped, round-IsFaithful}

-- The peers, by number.
abbrev pub World : Type 0
World = ℕ → State

-- The new state of one peer.
abbrev pub update : ℕ → State → World → World
update i s w j = if j == i then s else w j

-- What arrives was sent by some peer at some time, to whomever and however often.
abbrev pub IsInFlight : World → Option (Addr × List ℕ) → Type 0
IsInFlight w none = Unit
IsInFlight w (some (client, bytes)) =
    (j : ℕ) × (d : Datagram) × IsAmong d (w j).peer.sent × (d.bytes ≡ bytes)

-- A step: a round of the loop of one peer, or its farewell on SIGINT.
pub data Step (w w' : World) : Type 0 where
  works :
      (i : ℕ) (ev : Event)
      → IsEvent ev
      → IsInFlight w ev.datagram
      → ((j : ℕ) → w' j ≡ update i (round ev (w i)) w j)
      → Step w w'
  leaves :
      (i : ℕ)
      → ((j : ℕ) → w' j ≡ update i (record (w i) { peer = disconnect (w i).peer }) w j)
      → Step w w'

pub data Steps (w : World) : World → Type 0 where
  start : Steps w w
  further : {u v : World} → Steps w u → Step u v → Steps w v

-- What the users type, trimmed.
pub typed_text_of : Option (List ℕ) → List (List ℕ)
typed_text_of none = []
typed_text_of (some text) = trimmed text ∷ []

pub typed_at : {w w' : World} → Step w w' → List (List ℕ)
typed_at (works i ev ok flight e) = typed_text_of ev.typed
typed_at (leaves i e) = []

pub typed_in : {w w' : World} → Steps w w' → List (List ℕ)
typed_in start = []
typed_in (further before last) = typed_in before ++ typed_at last

-- The text is one of them.
abbrev pub IsOneOf : List (List ℕ) → List ℕ → Type 0
IsOneOf texts t = (before after : List (List ℕ)) × (texts ≡ before ++ (t ∷ after))
