-- ===== src/Flooding/Rounds.antt =====
-- The loop of `flood_message_to_neighbours` ends: what a round makes of the list of a flood.
use projet_reseau.Prelude.{
  ℕ, zero, suc, ◌+◌, ◌^◌, ◌≤◌, ◌<◌, ◌≡◌, ◌≢◌, sym, ap, ◌∙◌, subst, List, ◌∷◌, some, arith,
  Option-cases, inl, inr, All, true, false,
}
use projet_reseau.Neighbor.{Addr, same}
use projet_reseau.Genlist.{GenList, insert_entry, add_elem, remove_elem, find, get}
use projet_reseau.Genlist.Search.{erase, remove_elem_lem, remove_elem-compare_f}
use projet_reseau.Flood.{NgbEntry, compare_n_s, wait_time}
use projet_reseau.Flood.Entries.{wait_time_bounds}
use projet_reseau.Peer.{Env}
use projet_reseau.Flooding.{from_entry, reschedule}
use projet_reseau.Flooding.Schedule.{
  weight, rounds, rounds-from_erase, rounds-from_insert, Gives, Without, IsDistinct, IsNear,
  All-erase, All-insert, erase-IsDistinct, insert-IsDistinct, find-from, erase-Without, All-from,
}

-- The list of a flood: a neighbour has one entry at most, and the times are near one another.
pub record IsReady (base : ℕ) (l : GenList NgbEntry) : Type 0 where
  pub compared : l.compare_f ≡ compare_n_s
  pub distinct : IsDistinct l.entries
  pub near : All (IsNear base) l.entries

pub remove-IsReady :
    (base : ℕ) (l : GenList NgbEntry) (q : NgbEntry)
    → IsReady base l
    → IsReady base (remove_elem l q).0
remove-IsReady base l q h =
    let (chain, _) = remove_elem_lem l q in
    record {
      compared = remove_elem-compare_f l q ∙ h.compared;
      distinct = subst IsDistinct (sym chain) (erase-IsDistinct l.compare_f l.entries q h.distinct);
      near =
          subst (All (IsNear base)) (sym chain)
            (All-erase (IsNear base) l.compare_f l.entries q h.near);
    }

pub remove-rounds :
    (now : ℕ) (k : Addr) (l : GenList NgbEntry) (q : NgbEntry)
    → rounds now (from_entry k (remove_elem l q).0.entries) ≤ rounds now (from_entry k l.entries)
remove-rounds now k l q =
    subst (λ es. rounds now (from_entry k es) ≤ rounds now (from_entry k l.entries))
      (sym (remove_elem_lem l q).0) (rounds-from_erase now l.compare_f k l.entries q)

add-IsReady :
    (base : ℕ) (l : GenList NgbEntry) (n : NgbEntry)
    → IsReady base l
    → IsNear base n
    → Without n.sym l.entries
    → IsReady base (add_elem true l n).0
unfolding add_elem
add-IsReady base l n h near w = elim (Option-cases (insert_entry l.compare_f l.entries n)) [
  | inl e ↦ rw (e, add_elem) h
  | inr (ys, e) ↦
      rw (e, add_elem)
        (record {
          compared = h.compared;
          distinct =
              subst (Gives IsDistinct) e (insert-IsDistinct l.compare_f l.entries n h.distinct w);
          near =
              subst (Gives (All (IsNear base))) e
                (All-insert (IsNear base) l.compare_f l.entries n near h.near);
        })
]

add-rounds :
    (now : ℕ) (k : Addr) (l : GenList NgbEntry) (n : NgbEntry)
    → same n.sym k ≡ false
    → rounds now (from_entry k (add_elem true l n).0.entries)
      ≤ rounds now (from_entry k l.entries) + weight now n
unfolding add_elem
add-rounds now k l n d = elim (Option-cases (insert_entry l.compare_f l.entries n)) [
  | inl e ↦ rw (e, add_elem) (omega arith)
  | inr (ys, e) ↦
      rw (e, add_elem)
        (subst
          (Gives (λ ys.
            rounds now (from_entry k ys) ≤ rounds now (from_entry k l.entries) + weight now n))
          e (rounds-from_insert now l.compare_f k l.entries n d))
]

pub powers : (t : ℕ) → t ≤ 4 → (0 < 2 ^ t) × (2 ^ suc t ≤ 32)
powers zero h = (omega arith, omega arith)
powers (suc zero) h = (omega arith, omega arith)
powers (suc (suc zero)) h = (omega arith, omega arith)
powers (suc (suc (suc zero))) h = (omega arith, omega arith)
powers (suc (suc (suc (suc zero)))) h = (omega arith, omega arith)
powers (suc (suc (suc (suc (suc t))))) h = absurd (omega (arith, h))

-- The clock, for lists with times from `base` on.
pub record IsTimely (base now : ℕ) : Type 0 where
  pub late : base ≤ now
  pub early : now + 32 < base + 32768

-- The entry that is put back.
abbrev pub again : ℕ → ℕ → NgbEntry → NgbEntry
again now r n = record n {
  times_sent = n.times_sent + 1;
  wait_time = wait_time r (n.times_sent + 1) + now;
}

pub again-IsNear :
    (base now r : ℕ) (n : NgbEntry)
    → IsTimely base now
    → n.times_sent ≤ 4
    → IsNear base (again now r n) × (weight now (again now r n) ≡ 1)
again-IsNear base now r n c t =
    let (pos, small) = powers n.times_sent t in
    let (low, high) = wait_time_bounds r n.times_sent in
    let next : n.times_sent + 1 ≡ suc n.times_sent = omega arith in
    rw next (
      record {
        above = omega (arith, c.late, c.early, pos, small, low, high);
        below = omega (arith, c.late, c.early, pos, small, low, high);
        times = omega (arith, t);
      },
      ground (arith, pos, low),
    )

-- What a transmission leaves, seen from another entry.
abbrev pub Advances : ℕ → ℕ → NgbEntry → GenList NgbEntry → GenList NgbEntry → Type 0
Advances base now nw l l' =
    IsReady base l'
    × ((k : Addr)
        → same nw.sym k ≡ false
        → rounds now (from_entry k l'.entries) ≤ rounds now (from_entry k l.entries) + 1)

pub reschedule_lem :
    (base r : ℕ) (env : Env) (k : Addr) (l : GenList NgbEntry) (nw : NgbEntry)
    (rest : List NgbEntry)
    → IsReady base l
    → IsTimely base env.now
    → from_entry k l.entries ≡ nw ∷ rest
    → nw.times_sent ≢ 5
    → Advances base env.now nw l (reschedule env r nw l)
unfolding reschedule
reschedule_lem base r env k l nw rest h c e five =
    let near = subst (All (IsNear base)) e (All-from (IsNear base) k l.entries h.near) in
    let (chain, out) = remove_elem_lem l nw in
    let found : (remove_elem l nw).1 ≡ some nw =
      out
      ∙ (unfold get in
          (ap (λ comp. find comp l.entries nw) h.compared
            ∙ find-from base k l.entries nw rest h.near e)) in
    let gone : Without nw.sym (remove_elem l nw).0.entries =
      subst (Without nw.sym) (sym (chain ∙ ap (λ comp. erase comp l.entries nw) h.compared))
        (erase-Without base l.entries nw h.near near.0 h.distinct) in
    let (near', one) = again-IsNear base env.now r nw c (omega (arith, near.0.times, five)) in
    rw (found, reschedule)
      (
        add-IsReady base (remove_elem l nw).0 (again env.now r nw) (remove-IsReady base l nw h)
            near' gone,
        λ k' d.
            let grown = add-rounds env.now k' (remove_elem l nw).0 (again env.now r nw) d in
            let less = remove-rounds env.now k' l nw in omega (arith, grown, less, one),
      )
