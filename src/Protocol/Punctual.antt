-- ===== src/Protocol/Punctual.antt =====
-- `flood_messages` of util.c as a whole: behind it nothing is due in any flood.
use projet_reseau.Prelude.{
  ℕ, zero, suc, ◌+◌, ◌≤◌, ◌<◌, ◌≡◌, refl, sym, ap, subst, List, [], ◌∷◌, arith, length, true,
  Option, none, some, Option-cases, leb, ◌==◌, ◌⊎◌, ◌*◌, Bool-cases, if_cases, inl, inr,
}
use projet_reseau.Neighbor.{Addr}
use projet_reseau.Neighbor.Order.{compare_n_refl}
use projet_reseau.Genlist.{GenList}
use projet_reseau.Genlist.Search.{remove_elem_lem}
use projet_reseau.Flood.{NgbEntry, FloodEntry}
use projet_reseau.Peer.{Env, Peer, probe}
use projet_reseau.Peer.Valid.{IsValid}
use projet_reseau.Flooding.{
  send_data, from_entry, pointer, flood_at, set_neighbors, reschedule, visit, advance, flood_loop,
  flood_message_to_neighbours, flood_from, flood_messages,
}
use projet_reseau.Flooding.Schedule.{All-erase, All-from}
use projet_reseau.Flooding.Rounds.{IsReady, IsTimely}
use projet_reseau.Flooding.Loop.{At, Closed, handle_inactive-At}
use projet_reseau.Flooding.Ends.{flood_message_to_neighbours-Ends}
use projet_reseau.Flooding.Order.{before, IsQuiet}
use projet_reseau.Flooding.Valid.{flood_loop-IsValid}
use projet_reseau.Protocol.{Changes-keep}
use projet_reseau.Protocol.Floods.{flood_at-Each}
use projet_reseau.Protocol.Jobs.{flood_loop-Changes}
use projet_reseau.Protocol.Unlink.{IsClear}
use projet_reseau.Protocol.Overdue.{IsOnTime, IsDone, Ends-IsQuiet, Change-IsOnTime}

set_neighbors-keeps {μ} :
    (Q : GenList NgbEntry → Type μ) (i j : ℕ) (l : GenList NgbEntry) (fs : List FloodEntry)
    → (i ≡ j → Q l)
    → At Q j fs
    → At Q j (set_neighbors i l fs)
unfolding set_neighbors flood_at
set_neighbors-keeps Q zero j l [] h a = a
set_neighbors-keeps Q (suc i) j l [] h a = a
set_neighbors-keeps Q zero zero l (f ∷ fs) h a = (record f { sym_neighbors = l }, refl, h refl)
set_neighbors-keeps Q zero (suc j) l (f ∷ fs) h a = a
set_neighbors-keeps Q (suc i) zero l (f ∷ fs) h a = a
set_neighbors-keeps Q (suc i) (suc j) l (f ∷ fs) h a =
    set_neighbors-keeps Q i j l fs (λ e. h (omega (arith, e))) a

-- What is put back keeps the property.
abbrev IsKept {μ} : Env → (GenList NgbEntry → Type μ) → Type μ
IsKept env Q =
    (r : ℕ) (k : Addr) (nw : NgbEntry) (rest : List NgbEntry) (l : GenList NgbEntry)
    → from_entry k l.entries ≡ nw ∷ rest
    → nw.wait_time ≤ env.now
    → Q l
    → Q (reschedule env r nw l)

module _ {μ} (env : Env) (Q : GenList NgbEntry → Type μ) (closed : (a : Addr) → Closed a Q)
    (kept : IsKept env Q) where
  visit-At :
      (i j : ℕ) (f : FloodEntry) (k : Addr) (nw : NgbEntry) (rest : List NgbEntry) (p : Peer)
      → flood_at i p.dataf.entries ≡ some f
      → from_entry k f.sym_neighbors.entries ≡ nw ∷ rest
      → At Q j p.dataf.entries
      → At Q j (visit env i f nw rest p).1.dataf.entries
  unfolding visit send_data
  visit-At i j f k nw rest p at e (g, at', q) =
      let R = λ (r : Option Addr × Peer). At Q j r.1.dataf.entries in
      if_cases {A = Option Addr × Peer} R (nw.times_sent == 5)
        (λ _. handle_inactive-At Q j nw.sym p (closed nw.sym) (g, at', q))
        λ _.
          if_cases {A = Option Addr × Peer} R (leb nw.wait_time env.now)
            (λ due.
              set_neighbors-keeps Q i j (reschedule env (env.rand p.drawn) nw f.sym_neighbors)
                p.dataf.entries
                (λ same.
                  let fg : g ≡ f =
                    ground (arith, at', ap (λ n. flood_at n p.dataf.entries) same, at) in
                  kept (env.rand p.drawn) k nw rest f.sym_neighbors e (ground arith)
                    (subst (λ x. Q x.sym_neighbors) fg q))
                (g, at', q))
            (λ _. (g, at', q))

  advance-At :
      (i j : ℕ) (f : FloodEntry) (k : Addr) (chain : List NgbEntry) (p : Peer)
      → flood_at i p.dataf.entries ≡ some f
      → from_entry k f.sym_neighbors.entries ≡ chain
      → At Q j p.dataf.entries
      → At Q j (advance env i f chain p).1.dataf.entries
  unfolding advance
  advance-At i j f k [] p at e a = a
  advance-At i j f k (nw ∷ rest) p at e a = visit-At i j f k nw rest p at e a

  flood_loop-At :
      (fuel i j : ℕ) (tmp : Option Addr) (p : Peer)
      → At Q j p.dataf.entries
      → At Q j (flood_loop fuel env i tmp p).dataf.entries
  unfolding flood_loop
  flood_loop-At zero i j tmp p a = a
  flood_loop-At (suc fuel) i j none p a = a
  flood_loop-At (suc fuel) i j (some k) p a = elim (Option-cases (flood_at i p.dataf.entries)) [
    | inl e ↦ rw (e, flood_loop) a
    | inr (f, e) ↦
        let chain = from_entry k f.sym_neighbors.entries in
        let next = advance env i f chain p in
        rw (e, flood_loop)
          (flood_loop-At fuel i j next.0 next.1 (advance-At i j f k chain p e refl a))
  ]

-- Nothing is due in the list.
abbrev pub IsPunctual : ℕ → GenList NgbEntry → Type 0
IsPunctual now l = IsQuiet now l.entries

IsPunctual-Closed : (now : ℕ) (a : Addr) → Closed a (IsPunctual now)
IsPunctual-Closed now a l q =
    subst (IsQuiet now) (sym (remove_elem_lem l (probe a)).0)
      (All-erase (λ e. now < e.wait_time) l.compare_f l.entries (probe a) q)

IsPunctual-IsKept : (env : Env) → IsKept env (IsPunctual env.now)
IsPunctual-IsKept env r k nw rest l e due q =
    let ahead_of =
      subst (IsQuiet env.now) e (All-from (λ x. env.now < x.wait_time) k l.entries q) in
    absurd (omega (arith, ahead_of.0, due))

ℕ-cases : (m i : ℕ) → m < i + 1 → (m < i) ⊎ (m ≡ i)
ℕ-cases m i h = elim (Bool-cases (m == i)) [
  | inl e ↦ inr (ground arith)
  | inr e ↦ inl (ground arith)
]

-- The flood is there.
abbrev IsThere : GenList NgbEntry → Type 0
IsThere l = Unit

start-IsDone :
    (now i : ℕ) (f : FloodEntry) (es : List NgbEntry) (fs : List FloodEntry)
    → flood_at i fs ≡ some f
    → f.sym_neighbors.entries ≡ es
    → At (IsDone now (pointer es)) i fs
unfolding before
start-IsDone now i f [] fs at e = (f, at, subst (IsQuiet now) (sym e) tt)
start-IsDone now i f (x ∷ xs) fs at e = (
  f,
  at,
  subst (λ es. IsQuiet now (before x.sym es)) (sym e) (ground (arith, compare_n_refl x.sym)),
)

module _ (base : ℕ) (env : Env) (clear : IsClear base) (c : IsTimely base env.now) where
  flooded-IsPunctual :
      (i : ℕ) (f : FloodEntry) (p : Peer)
      → flood_at i p.dataf.entries ≡ some f
      → IsValid p
      → IsOnTime base p
      → At (IsPunctual env.now) i (flood_message_to_neighbours env i f p).dataf.entries
  flooded-IsPunctual i f p at v on =
      let ready = flood_at-Each (IsReady base) i p.dataf.entries f at on.linked.ready in
      Ends-IsQuiet base i env clear c (flood_message_to_neighbours-Ends base i env f p at ready c) v
        on (start-IsDone env.now i f f.sym_neighbors.entries p.dataf.entries at refl)

  flood_from-IsPunctual :
      (n i : ℕ) (p : Peer)
      → IsValid p
      → IsOnTime base p
      → ((j : ℕ) → j < n + i → At IsThere j p.dataf.entries)
      → ((j : ℕ) → j < i → At (IsPunctual env.now) j p.dataf.entries)
      → (j : ℕ) → j < n + i
      → At (IsPunctual env.now) j (flood_from n env i p).dataf.entries
  unfolding flood_from flood_message_to_neighbours
  flood_from-IsPunctual zero i p v on there done j h = done j (omega (arith, h))
  flood_from-IsPunctual (suc n) i p v on there done j h =
      let (f, at, _) = there i (omega arith) in
      let es = f.sym_neighbors.entries in
      let q = flood_message_to_neighbours env i f p in
      let now_done = flooded-IsPunctual i f p at v on in
      let fuel = 2 * length es + 1 in
      let valid = flood_loop-IsValid fuel env i (pointer es) p v in
      let on_time =
        Changes-keep (IsOnTime base) (Change-IsOnTime base i env clear c) p _
          (flood_loop-Changes true env fuel i (pointer es) p v) on in
      rw (at, flood_from)
        (flood_from-IsPunctual n (i + 1) q valid on_time
          (λ m b.
            flood_loop-At env IsThere (λ a l u. tt) (λ r k nw rest l e due u. tt) fuel i m
              (pointer es) p (there m (omega (arith, b))))
          (λ m b. elim (ℕ-cases m i b) [
            | inl less ↦
                flood_loop-At env (IsPunctual env.now) (IsPunctual-Closed env.now)
                  (IsPunctual-IsKept env) fuel i m (pointer es) p (done m less)
            | inr same ↦ subst (λ x. At (IsPunctual env.now) x q.dataf.entries) (sym same) now_done
          ])
          j (omega (arith, h)))

IsThere-length : (fs : List FloodEntry) (j : ℕ) → j < length fs → At IsThere j fs
unfolding flood_at
IsThere-length [] j h = absurd (omega (arith, h))
IsThere-length (f ∷ fs) zero h = (f, refl, tt)
IsThere-length (f ∷ fs) (suc j) h = IsThere-length fs j (omega (arith, h))

-- In a valid state whose floods are linked and in the order of their times, near a time that is
-- clear: behind `flood_messages` every flood of `DATAF` is still there, and the time of each of its
-- entries is later than the clock of the round, so that no transmission is overdue.
pub flood_messages-IsPunctual :
    (base : ℕ) (env : Env) (p : Peer)
    → IsClear base
    → IsTimely base env.now
    → IsValid p
    → IsOnTime base p
    → (j : ℕ) → j < length p.dataf.entries
    → At (IsPunctual env.now) j (flood_messages env p).dataf.entries
unfolding flood_messages
flood_messages-IsPunctual base env p clear c v on j h =
    flood_from-IsPunctual base env clear c (length p.dataf.entries) 0 p v on
      (λ m b. IsThere-length p.dataf.entries m (omega (arith, b)))
      (λ m b. absurd (omega (arith, b))) j (omega (arith, h))
