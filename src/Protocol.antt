-- ===== src/Protocol.antt =====
-- The peer as a transition system: what happens to its neighbours and its floods, without buffers,
-- messages and loops. Each handler and each job of the peer (tlv.c, net_lib.c, util.c, main.c) is a
-- sequence of these changes.
pub mod Handlers
pub mod Jobs
pub mod Rounds
pub mod Floods
pub mod Ready
pub mod Unlink
pub mod Syms
pub mod Linked
pub mod Dangling
pub mod Timed
pub mod Overdue
pub mod Punctual
pub mod Runs
use projet_reseau.Prelude.{
  ℕ, ◌≤◌, ◌≡◌, ◌≢◌, ap, List, ◌∷◌, Option, some, Bool, true, false, not, ◌&&◌, ◌||◌, is_some,
}
use projet_reseau.Neighbor.{Addr, DataIndex, same}
use projet_reseau.Abr.{get_ident}
use projet_reseau.Flood.{NgbEntry, FloodEntry}
use projet_reseau.Peer.{
  Env, Peer, index_of, indices, add_message_to_flood, remove_neighbor_from_flood,
  remove_from_floods,
}
use projet_reseau.Peer.Valid.{IsValid}
use projet_reseau.Receive.Data.{knows}
use projet_reseau.Flooding.{from_entry, flood_at, set_neighbors, reschedule}

-- The neighbour is in `NEIGHBORS`.
abbrev pub hears : Peer → Addr → Bool
hears p q = is_some (get_ident p.neighbors q)

abbrev pub SameNeighbors : Peer → Peer → Type 0
SameNeighbors p p' = (q : Addr) → hears p' q ≡ hears p q

-- One change, at the time of `env`. Where `strict` is true, a message that is published has an index
-- that `DATAF` does not hold.
pub data Change (strict : Bool) (env : Env) (p p' : Peer) : Type 0 where
  -- Nothing but buffers, clocks, potential neighbours and what is sent or shown.
  quiet : SameNeighbors p p' → p'.dataf ≡ p.dataf → Change strict env p p'
  -- A neighbour is heard.
  learned :
      (a : Addr)
      → ((q : Addr) → hears p' q ≡ (same a q || hears p q))
      → p'.dataf ≡ p.dataf
      → Change strict env p p'
  -- A message is put into `DATAF`.
  published :
      (msg : List ℕ) (size : ℕ) (to_delete : Option Addr)
      → (strict ≡ true → knows p (index_of msg) ≡ false)
      → SameNeighbors p p'
      → p'.dataf ≡ (add_message_to_flood env msg size to_delete p).dataf
      → Change strict env p p'
  -- A neighbour has a message.
  settled :
      (index : DataIndex) (a : Addr)
      → SameNeighbors p p'
      → p'.dataf ≡ (remove_neighbor_from_flood index a p).dataf
      → Change strict env p p'
  -- A neighbour is dropped.
  forgot :
      (a : Addr)
      → ((q : Addr) → hears p' q ≡ (not (same a q) && hears p q))
      → p'.dataf ≡ (remove_from_floods (indices p.dataf.entries) a p).dataf
      → Change strict env p p'
  -- An entry of a flood that is due is put back at a later time.
  repeated :
      (i r : ℕ) (f : FloodEntry) (k : Addr) (nw : NgbEntry) (rest : List NgbEntry)
      → flood_at i p.dataf.entries ≡ some f
      → from_entry k f.sym_neighbors.entries ≡ nw ∷ rest
      → nw.times_sent ≢ 5
      → nw.wait_time ≤ env.now
      → SameNeighbors p p'
      → p'.dataf ≡ record (p.dataf) {
        entries = set_neighbors i (reschedule env r nw f.sym_neighbors) p.dataf.entries;
      }
      → Change strict env p p'

-- Changes of valid states, one after the other.
pub data Changes (strict : Bool) (env : Env) (p : Peer) : Peer → Type 0 where
  nothing : Changes strict env p p
  later :
      {q r : Peer}
      → Changes strict env p q
      → IsValid q
      → Change strict env q r
      → Changes strict env p r

module _ {strict : Bool} {env : Env} where
  pub one : (p r : Peer) → IsValid p → Change strict env p r → Changes strict env p r
  one p r v c = later nothing v c

  pub Changes-trans :
      {p q r : Peer} → Changes strict env p q → Changes strict env q r → Changes strict env p r
  Changes-trans a nothing = a
  Changes-trans a (later b v c) = later (Changes-trans a b) v c

  -- What each change of a valid state keeps, a sequence of changes keeps.
  pub Changes-keep {μ} :
      (J : Peer → Type μ)
      → ((p p' : Peer) → IsValid p → Change strict env p p' → J p → J p')
      → (p q : Peer) → Changes strict env p q
      → J p
      → J q
  Changes-keep J keep p q nothing j = j
  Changes-keep J keep p q (later {q = m} a v c) j = keep m q v c (Changes-keep J keep p m a j)
