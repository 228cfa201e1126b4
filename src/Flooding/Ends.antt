-- ===== src/Flooding/Ends.antt =====
-- The loops over the floods without fuel, as relations: what a loop comes to, where it ends.
use projet_reseau.Prelude.{ℕ, zero, suc, ◌+◌, ◌*◌, ◌≡◌, refl, length, arith, Option, none, some}
use projet_reseau.Neighbor.{Addr}
use projet_reseau.Flood.{FloodEntry}
use projet_reseau.Peer.{Env, Peer}
use projet_reseau.Flooding.{
  from_entry, pointer, flood_at, advance, flood_loop, flood_message_to_neighbours,
}
use projet_reseau.Flooding.Schedule.{rounds}
use projet_reseau.Flooding.Rounds.{IsReady, IsTimely}
use projet_reseau.Flooding.Loop.{IsBounded, advance-IsBounded, more-IsBounded, start-IsBounded}

-- From the pointer and the peer, the loop of `flood_message_to_neighbours` ends with the last peer.
pub data Ends (env : Env) (i : ℕ) : Option Addr → Peer → Peer → Type 0 where
  at_null : {p : Peer} → Ends env i none p p
  no_flood : {k : Addr} {p : Peer} → flood_at i p.dataf.entries ≡ none → Ends env i (some k) p p
  further :
      {k : Addr} {p : Peer}
      → (f : FloodEntry) (tmp : Option Addr) (q r : Peer) → flood_at i p.dataf.entries ≡ some f
      → advance env i f (from_entry k f.sym_neighbors.entries) p ≡ (tmp, q)
      → Ends env i tmp q r
      → Ends env i (some k) p r

-- The loop of `flood_messages`, with `n` floods left from number `i` on.
pub data Passes (env : Env) : ℕ → ℕ → Peer → Peer → Type 0 where
  all_done : {i : ℕ} {p : Peer} → Passes env zero i p p
  no_more : {n i : ℕ} {p : Peer} → flood_at i p.dataf.entries ≡ none → Passes env (suc n) i p p
  flood :
      {n i : ℕ} {p : Peer}
      → (f : FloodEntry) (q r : Peer) → flood_at i p.dataf.entries ≡ some f
      → Ends env i (pointer f.sym_neighbors.entries) p q
      → Passes env n (i + 1) q r
      → Passes env (suc n) i p r

flood_loop-Ends :
    (fuel base i : ℕ) (env : Env) (tmp : Option Addr) (p : Peer)
    → IsTimely base env.now
    → IsBounded base env.now i fuel tmp p
    → Ends env i tmp p (flood_loop fuel env i tmp p)
unfolding flood_loop
flood_loop-Ends zero base i env none p c h = at_null
flood_loop-Ends (suc fuel) base i env none p c h = at_null
flood_loop-Ends zero base i env (some k) p c (f, at, (ready, less)) = absurd (omega (arith, less))
flood_loop-Ends (suc fuel) base i env (some k) p c (f, at, (ready, less)) =
    let chain = from_entry k f.sym_neighbors.entries in
    let next = advance env i f chain p in
    let step = advance-IsBounded base i env k f chain p at ready c refl in
    rw (at, flood_loop)
      (further f next.0 next.1 _ at refl (
        flood_loop-Ends fuel base i env next.0 next.1 c (
          more-IsBounded base env.now i (rounds env.now chain) fuel next.0 next.1
            (omega (arith, less)) step)))

pub flood_message_to_neighbours-Ends :
    (base i : ℕ) (env : Env) (f : FloodEntry) (p : Peer)
    → flood_at i p.dataf.entries ≡ some f
    → IsReady base f.sym_neighbors
    → IsTimely base env.now
    → Ends env i (pointer f.sym_neighbors.entries) p (flood_message_to_neighbours env i f p)
unfolding flood_message_to_neighbours
flood_message_to_neighbours-Ends base i env f p at h c =
    let es = f.sym_neighbors.entries in
    flood_loop-Ends (2 * length es + 1) base i env (pointer es) p c
      (start-IsBounded base i (2 * length es + 1) env es f p at h refl (omega arith))
