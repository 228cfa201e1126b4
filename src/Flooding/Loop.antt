-- ===== src/Flooding/Loop.antt =====
-- The loop of `flood_message_to_neighbours` ends within the fuel that it is given.
use projet_reseau.Prelude.{
  ℕ, zero, suc, ◌+◌, ◌-◌, ◌*◌, ◌≤◌, ◌<◌, ◌≡◌, ◌≢◌, refl, sym, ap, subst, List, [], ◌∷◌, Option,
  none, some, arith, length, Bool-cases, inl, inr, leb, ◌==◌, is_eq, if_cases,
}
use projet_reseau.Neighbor.{Addr, DataIndex}
use projet_reseau.Genlist.{GenList, remove_elem}
use projet_reseau.Flood.{NgbEntry, FloodEntry, compare_d, pmtu}
use projet_reseau.Tlv.{tlv_goaway}
use projet_reseau.Peer.{
  Env, Peer, remove_in_first, remove_from_floods, remove_neighbor_from_flood,
  remove_neighbor_everywhere, indices, probe, without,
}
use projet_reseau.Periodic.{send_to}
use projet_reseau.Flooding.{
  goaway_text, handle_inactive, send_data, from_entry, pointer, flood_at, set_neighbors, reschedule,
  visit, advance, flood_loop, flood_message_to_neighbours,
}
use projet_reseau.Flooding.Schedule.{rounds, rounds-length, rounds-from, next-from}
use projet_reseau.Flooding.Rounds.{IsReady, IsTimely, remove-IsReady, remove-rounds, reschedule_lem}

-- The list of the flood number `i` has the property.
abbrev pub At {μ} : (GenList NgbEntry → Type μ) → ℕ → List FloodEntry → Type μ
At Q i fs = (f : FloodEntry) × (flood_at i fs ≡ some f) × Q f.sym_neighbors

-- A property that the removal of the entry of a neighbour keeps.
abbrev pub Closed {μ} : Addr → (GenList NgbEntry → Type μ) → Type μ
Closed a Q = (l : GenList NgbEntry) → Q l → Q (remove_elem l (probe a)).0

pub remove_in_first-At {μ} :
    (Q : GenList NgbEntry → Type μ) (i : ℕ) (index : DataIndex) (a : Addr) (fs : List FloodEntry)
    → Closed a Q
    → At Q i fs
    → At Q i (remove_in_first index a fs)
unfolding remove_in_first flood_at
remove_in_first-At Q i index a [] c h = h
remove_in_first-At Q zero index a (f ∷ fs) c (g, e, q) =
    let fg : f ≡ g = ground arith in
    let kept : Q f.sym_neighbors = subst (λ h. Q h.sym_neighbors) (sym fg) q in
    elim (Bool-cases (is_eq (compare_d f.index index))) [
      | inl m ↦ rw (m, remove_in_first) (without a f, refl, c f.sym_neighbors kept)
      | inr m ↦ rw (m, remove_in_first) (f, refl, kept)
    ]
remove_in_first-At Q (suc i) index a (f ∷ fs) c h =
    elim (Bool-cases (is_eq (compare_d f.index index))) [
      | inl m ↦ rw (m, remove_in_first) h
      | inr m ↦ rw (m, remove_in_first) (remove_in_first-At Q i index a fs c h)
    ]

pub remove_from_floods-At {μ} :
    (Q : GenList NgbEntry → Type μ) (i : ℕ) (is : List DataIndex) (a : Addr) (p : Peer)
    → Closed a Q
    → At Q i p.dataf.entries
    → At Q i (remove_from_floods is a p).dataf.entries
unfolding remove_from_floods remove_neighbor_from_flood
remove_from_floods-At Q i [] a p c h = h
remove_from_floods-At Q i (index ∷ is) a p c h =
    remove_from_floods-At Q i is a (remove_neighbor_from_flood index a p) c
      (remove_in_first-At Q i index a p.dataf.entries c h)

pub handle_inactive-At {μ} :
    (Q : GenList NgbEntry → Type μ) (i : ℕ) (a : Addr) (p : Peer)
    → Closed a Q
    → At Q i p.dataf.entries
    → At Q i (handle_inactive a p).dataf.entries
unfolding handle_inactive remove_neighbor_everywhere send_to
handle_inactive-At Q i a p c h =
    let q = send_to a (tlv_goaway (pmtu - 4) 2 goaway_text 24) p in
    remove_from_floods-At Q i (indices q.dataf.entries) a q c h

pub set_neighbors-At :
    (i : ℕ) (l : GenList NgbEntry) (fs : List FloodEntry) (f : FloodEntry)
    → flood_at i fs ≡ some f
    → flood_at i (set_neighbors i l fs) ≡ some (record f { sym_neighbors = l })
unfolding set_neighbors flood_at
set_neighbors-At zero l [] f e = ground arith
set_neighbors-At (suc i) l [] f e = ground arith
set_neighbors-At zero l (g ∷ fs) f e = ground arith
set_neighbors-At (suc i) l (g ∷ fs) f e = set_neighbors-At i l fs f e

-- What the loop meets at `tmp`: a list that is ready, with less than `m` rounds to go.
abbrev pub Left : ℕ → ℕ → ℕ → Addr → GenList NgbEntry → Type 0
Left base now m k l = IsReady base l × (rounds now (from_entry k l.entries) < m)

abbrev pub IsBounded : ℕ → ℕ → ℕ → ℕ → Option Addr → Peer → Type 0
IsBounded base now i m none p = Unit
IsBounded base now i m (some k) p = At (Left base now m k) i p.dataf.entries

Left-Closed : (base now m : ℕ) (k a : Addr) → Closed a (Left base now m k)
Left-Closed base now m k a l (ready, less) =
    (remove-IsReady base l (probe a) ready, omega (arith, remove-rounds now k l (probe a), less))

inactive-IsBounded :
    (base i : ℕ) (env : Env) (k : Addr) (f : FloodEntry) (nw : NgbEntry) (rest : List NgbEntry)
    (p : Peer)
    → flood_at i p.dataf.entries ≡ some f
    → IsReady base f.sym_neighbors
    → from_entry k f.sym_neighbors.entries ≡ nw ∷ rest
    → IsBounded base env.now i
        (rounds env.now (nw ∷ rest))
        (pointer rest)
        (handle_inactive nw.sym p)
unfolding rounds
inactive-IsBounded base i env k f nw [] p at h e = tt
inactive-IsBounded base i env k f nw (r ∷ rs) p at h e =
    let m = rounds env.now (nw ∷ r ∷ rs) in
    let (next, _) = next-from k f.sym_neighbors.entries nw r rs h.distinct e in
    let less : rounds env.now (from_entry r.sym f.sym_neighbors.entries) < m =
      subst (λ es. rounds env.now es < m) (sym next) (ground arith) in
    handle_inactive-At (Left base env.now m r.sym) i nw.sym p
      (Left-Closed base env.now m r.sym nw.sym) (f, at, (h, less))

due-IsBounded :
    (base i n : ℕ) (env : Env) (k : Addr) (f : FloodEntry) (nw : NgbEntry) (rest : List NgbEntry)
    (p : Peer)
    → flood_at i p.dataf.entries ≡ some f
    → IsReady base f.sym_neighbors
    → IsTimely base env.now
    → from_entry k f.sym_neighbors.entries ≡ nw ∷ rest
    → nw.times_sent ≢ 5
    → nw.wait_time ≤ env.now
    → IsBounded base env.now i (rounds env.now (nw ∷ rest)) (pointer rest) (record p {
      drawn = n + 1;
      dataf = record (p.dataf) {
        entries = set_neighbors i (reschedule env (env.rand n) nw f.sym_neighbors) p.dataf.entries;
      };
    })
unfolding rounds
due-IsBounded base i n env k f nw [] p at h c e five due = tt
due-IsBounded base i n env k f nw (r ∷ rs) p at h c e five due =
    let m = rounds env.now (nw ∷ r ∷ rs) in
    let l = reschedule env (env.rand n) nw f.sym_neighbors in
    let (next, other) = next-from k f.sym_neighbors.entries nw r rs h.distinct e in
    let (ready, fewer) =
      reschedule_lem base (env.rand n) env k f.sym_neighbors nw (r ∷ rs) h c e five in
    let less = fewer r.sym other in
    let here : rounds env.now (from_entry r.sym f.sym_neighbors.entries) ≡ rounds env.now (r ∷ rs) =
      ap (rounds env.now) next in
    (
      record f { sym_neighbors = l },
      set_neighbors-At i l p.dataf.entries f at,
      (ready, ground (arith, less, here)),
    )

visit-IsBounded :
    (base i : ℕ) (env : Env) (k : Addr) (f : FloodEntry) (nw : NgbEntry) (rest : List NgbEntry)
    (p : Peer)
    → flood_at i p.dataf.entries ≡ some f
    → IsReady base f.sym_neighbors
    → IsTimely base env.now
    → from_entry k f.sym_neighbors.entries ≡ nw ∷ rest
    → let (tmp, p') = visit env i f nw rest p in
      IsBounded base env.now i (rounds env.now (nw ∷ rest)) tmp p'
unfolding visit send_data
visit-IsBounded base i env k f nw rest p at h c e =
    let m = rounds env.now (nw ∷ rest) in
    if_cases {A = Option Addr × Peer} (λ r. IsBounded base env.now i m r.0 r.1) (nw.times_sent == 5)
      (λ _. inactive-IsBounded base i env k f nw rest p at h e)
      λ five.
        if_cases {A = Option Addr × Peer} (λ r. IsBounded base env.now i m r.0 r.1)
          (leb nw.wait_time env.now)
          (λ due.
            let sent = send_data f.content nw.sym p in
            due-IsBounded base i sent.drawn env k f nw rest sent at h c e (ground arith)
              (ground arith))
          (λ _. tt)

pub advance-IsBounded :
    (base i : ℕ) (env : Env) (k : Addr) (f : FloodEntry) (chain : List NgbEntry) (p : Peer)
    → flood_at i p.dataf.entries ≡ some f
    → IsReady base f.sym_neighbors
    → IsTimely base env.now
    → from_entry k f.sym_neighbors.entries ≡ chain
    → let (tmp, p') = advance env i f chain p in
      IsBounded base env.now i (rounds env.now chain) tmp p'
unfolding advance
advance-IsBounded base i env k f [] p at h c e = tt
advance-IsBounded base i env k f (nw ∷ rest) p at h c e =
    visit-IsBounded base i env k f nw rest p at h c e

pub more-IsBounded :
    (base now i m n : ℕ) (tmp : Option Addr) (p : Peer)
    → m ≤ n
    → IsBounded base now i m tmp p
    → IsBounded base now i n tmp p
more-IsBounded base now i m n none p b h = tt
more-IsBounded base now i m n (some k) p b (f, at, (ready, less)) =
    (f, at, (ready, omega (arith, less, b)))

loop_fuel :
    (a b base i : ℕ) (env : Env) (tmp : Option Addr) (p : Peer)
    → IsTimely base env.now
    → IsBounded base env.now i a tmp p
    → IsBounded base env.now i b tmp p
    → flood_loop a env i tmp p ≡ flood_loop b env i tmp p
unfolding flood_loop
loop_fuel zero zero base i env tmp p c h h' = refl
loop_fuel zero (suc b) base i env none p c h h' = refl
loop_fuel (suc a) zero base i env none p c h h' = refl
loop_fuel (suc a) (suc b) base i env none p c h h' = refl
loop_fuel zero (suc b) base i env (some k) p c (f, at, (ready, less)) h' =
    absurd (omega (arith, less))
loop_fuel (suc a) zero base i env (some k) p c h (f, at, (ready, less)) =
    absurd (omega (arith, less))
loop_fuel (suc a) (suc b) base i env (some k) p c (f, at, (ready, less)) (g, at', (ready', less')) =
    let chain = from_entry k f.sym_neighbors.entries in
    let next = advance env i f chain p in
    let fg : f ≡ g = ground (arith, at, at') in
    let same_rounds : rounds env.now chain ≡ rounds env.now (from_entry k g.sym_neighbors.entries) =
      ap (λ (h : FloodEntry). rounds env.now (from_entry k h.sym_neighbors.entries)) fg in
    let step = advance-IsBounded base i env k f chain p at ready c refl in
    rw (at, flood_loop)
      (loop_fuel a b base i env next.0 next.1 c
        (more-IsBounded base env.now i (rounds env.now chain) a next.0 next.1 (omega (arith, less))
          step)
        (more-IsBounded base env.now i (rounds env.now chain) b next.0 next.1
          (omega (arith, less', same_rounds)) step))

pub start-IsBounded :
    (base i m : ℕ) (env : Env) (es : List NgbEntry) (f : FloodEntry) (p : Peer)
    → flood_at i p.dataf.entries ≡ some f
    → IsReady base f.sym_neighbors
    → f.sym_neighbors.entries ≡ es
    → 2 * length es < m
    → IsBounded base env.now i m (pointer es) p
start-IsBounded base i m env [] f p at h e b = tt
start-IsBounded base i m env (x ∷ es) f p at h e b =
    let first = rounds-from env.now x.sym f.sym_neighbors.entries in
    let all = rounds-length env.now f.sym_neighbors.entries in
    (f, at, (h, omega (arith, first, all, ap length e, b)))

-- The fuel of `flood_message_to_neighbours` is enough: for a flood of `DATAF` with one entry at
-- most for a neighbour, times within 32768 seconds of `base` and no entry sent more than five
-- times, and a clock from `base` on and more than 32 seconds below that bound, the loop gives the
-- same result on any fuel greater than twice the number of entries.
pub flood_message_to_neighbours-fuel :
    (base i fuel : ℕ) (env : Env) (f : FloodEntry) (p : Peer)
    → flood_at i p.dataf.entries ≡ some f
    → IsReady base f.sym_neighbors
    → IsTimely base env.now
    → 2 * length f.sym_neighbors.entries < fuel
    → flood_message_to_neighbours env i f p
      ≡ flood_loop fuel env i (pointer f.sym_neighbors.entries) p
unfolding flood_message_to_neighbours
flood_message_to_neighbours-fuel base i fuel env f p at h c b =
    let es = f.sym_neighbors.entries in
    loop_fuel (2 * length es + 1) fuel base i env (pointer es) p c
      (start-IsBounded base i (2 * length es + 1) env es f p at h refl (omega arith))
      (start-IsBounded base i fuel env es f p at h refl b)
