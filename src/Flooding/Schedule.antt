-- ===== src/Flooding/Schedule.antt =====
-- The chain of a flood behind the pointer `tmp`: how many rounds of the loop it can take.
use projet_reseau.Prelude.{
  ℕ, ◌+◌, ◌*◌, ◌≤◌, ◌<◌, ◌≡◌, List, [], ◌∷◌, Option, none, some, arith, length, Bool-cases, inl,
  inr, if◌then◌else◌, leb, ◌==◌, All, false, is_eq, Ordering,
}
use projet_reseau.Neighbor.{Addr, same}
use projet_reseau.Neighbor.Order.{compare_n_refl, compare_n-eq}
use projet_reseau.Genlist.{insert_entry, find}
use projet_reseau.Genlist.Search.{erase}
use projet_reseau.Flood.{NgbEntry, compare_n_s}
use projet_reseau.Flooding.{from_entry}

-- The rounds that an entry can take: a second one where it is due now and will be put back.
abbrev pub weight : ℕ → NgbEntry → ℕ
weight now e = if e.times_sent == 5 then 1 else if leb e.wait_time now then 2 else 1

unfoldable pub rounds : ℕ → List NgbEntry → ℕ
rounds now [] = 0
rounds now (e ∷ es) = weight now e + rounds now es

pub rounds-length : (now : ℕ) (es : List NgbEntry) → rounds now es ≤ 2 * length es
unfolding rounds
rounds-length now [] = omega arith
rounds-length now (e ∷ es) = ground (arith, rounds-length now es)

pub rounds-from :
    (now : ℕ) (k : Addr) (es : List NgbEntry) → rounds now (from_entry k es) ≤ rounds now es
unfolding rounds from_entry
rounds-from now k [] = omega arith
rounds-from now k (e ∷ es) = ground (arith, rounds-from now k es)

rounds-erase :
    (now : ℕ) (comp : NgbEntry → NgbEntry → Ordering) (es : List NgbEntry) (q : NgbEntry)
    → rounds now (erase comp es q) ≤ rounds now es
unfolding rounds erase
rounds-erase now comp [] q = omega arith
rounds-erase now comp (e ∷ es) q = ground (arith, rounds-erase now comp es q)

pub rounds-from_erase :
    (now : ℕ) (comp : NgbEntry → NgbEntry → Ordering) (k : Addr) (es : List NgbEntry) (q : NgbEntry)
    → rounds now (from_entry k (erase comp es q)) ≤ rounds now (from_entry k es)
unfolding rounds from_entry erase
rounds-from_erase now comp k [] q = omega arith
rounds-from_erase now comp k (e ∷ es) q =
    ground
      (arith, rounds-from_erase now comp k es q, rounds-from now k es, rounds-erase now comp es q)

-- An insertion, where it is made, gives a chain with the property.
abbrev pub Gives {ℓ} : (List NgbEntry → Type ℓ) → Option (List NgbEntry) → Type ℓ
Gives P none = Unit
Gives P (some ys) = P ys

rounds-insert :
    (now : ℕ) (comp : NgbEntry → NgbEntry → Ordering) (es : List NgbEntry) (n : NgbEntry)
    → Gives (λ ys. rounds now ys ≤ rounds now es + weight now n) (insert_entry comp es n)
unfolding rounds insert_entry
rounds-insert now comp [] n = ground arith
rounds-insert now comp (e ∷ es) n = ground (arith, rounds-insert now comp es n)

pub rounds-from_insert :
    (now : ℕ) (comp : NgbEntry → NgbEntry → Ordering) (k : Addr) (es : List NgbEntry) (n : NgbEntry)
    → same n.sym k ≡ false
    → Gives
        (λ ys. rounds now (from_entry k ys) ≤ rounds now (from_entry k es) + weight now n)
        (insert_entry comp es n)
unfolding rounds from_entry insert_entry
rounds-from_insert now comp k [] n d = ground arith
rounds-from_insert now comp k (e ∷ es) n d =
    ground (arith, rounds-from_insert now comp k es n, rounds-insert now comp es n)

-- No entry of the chain is that of the neighbour.
abbrev pub Without : Addr → List NgbEntry → Type 0
Without a es = All (λ e. same a e.sym ≡ false) es

-- A neighbour has one entry at most.
abbrev pub IsDistinct : List NgbEntry → Type 0
IsDistinct [] = Unit
IsDistinct (e ∷ es) = Without e.sym es × IsDistinct es

pub All-erase {μ} :
    (P : NgbEntry → Type μ) (comp : NgbEntry → NgbEntry → Ordering) (es : List NgbEntry)
    (q : NgbEntry)
    → All P es
    → All P (erase comp es q)
unfolding erase
All-erase P comp [] q a = tt
All-erase P comp (e ∷ es) q a = ground (arith, All-erase P comp es q)

pub All-insert {μ} :
    (P : NgbEntry → Type μ) (comp : NgbEntry → NgbEntry → Ordering) (es : List NgbEntry)
    (n : NgbEntry)
    → P n
    → All P es
    → Gives (All P) (insert_entry comp es n)
unfolding insert_entry
All-insert P comp [] n p a = (p, tt)
All-insert P comp (e ∷ es) n p a = ground (arith, All-insert P comp es n)

pub erase-IsDistinct :
    (comp : NgbEntry → NgbEntry → Ordering) (es : List NgbEntry) (q : NgbEntry)
    → IsDistinct es
    → IsDistinct (erase comp es q)
unfolding erase
erase-IsDistinct comp [] q d = tt
erase-IsDistinct comp (e ∷ es) q d =
    ground (arith, erase-IsDistinct comp es q, All-erase (λ x. same e.sym x.sym ≡ false) comp es q)

pub same_sym : (a b : Addr) → same a b ≡ false → same b a ≡ false
same_sym a b h = ground (arith, compare_n-eq b a, compare_n_refl a)

pub insert-IsDistinct :
    (comp : NgbEntry → NgbEntry → Ordering) (es : List NgbEntry) (n : NgbEntry)
    → IsDistinct es
    → Without n.sym es
    → Gives IsDistinct (insert_entry comp es n)
unfolding insert_entry
insert-IsDistinct comp [] n d w = (tt, tt)
insert-IsDistinct comp (e ∷ es) n d w = ground (
  arith,
  insert-IsDistinct comp es n,
  All-insert (λ x. same e.sym x.sym ≡ false) comp es n,
  same_sym n.sym e.sym,
)

-- Times that the comparison of two entries tells apart.
pub record IsNear (base : ℕ) (e : NgbEntry) : Type 0 where
  pub above : base ≤ e.wait_time
  pub below : e.wait_time < base + 32768
  pub times : e.times_sent ≤ 5

pub compare-near :
    (base : ℕ) (x y : NgbEntry)
    → IsNear base x
    → IsNear base y
    → is_eq (compare_n_s x y) ≡ same x.sym y.sym
unfolding compare_n_s
compare-near base x y a b = ground (arith, a.above, a.below, b.above, b.below)

pub All-from {μ} :
    (P : NgbEntry → Type μ) (k : Addr) (es : List NgbEntry) → All P es → All P (from_entry k es)
unfolding from_entry
All-from P k [] a = tt
All-from P k (e ∷ es) a = ground (arith, All-from P k es)

pub head-from :
    (k : Addr) (es : List NgbEntry) (nw : NgbEntry) (rest : List NgbEntry)
    → from_entry k es ≡ nw ∷ rest
    → nw.sym ≡ k
unfolding from_entry
head-from k [] nw rest h = ground arith
head-from k (e ∷ es) nw rest h = ground (arith, head-from k es nw rest, compare_n-eq e.sym k)

-- The pointer to the next entry is found where it stands.
pub next-from :
    (k : Addr) (es : List NgbEntry) (nw r : NgbEntry) (rs : List NgbEntry)
    → IsDistinct es
    → from_entry k es ≡ nw ∷ r ∷ rs
    → (from_entry r.sym es ≡ r ∷ rs) × (same nw.sym r.sym ≡ false)
unfolding from_entry
next-from k [] nw r rs d h = ground arith
next-from k (e ∷ es) nw r rs d h =
    let inside = All-from (λ x. same e.sym x.sym ≡ false) k es d.0 in
    elim (Bool-cases (same e.sym k)) [
      | inl here ↦ ground (arith, compare_n_refl r.sym)
      | inr past ↦ ground (arith, next-from k es nw r rs d.1)
    ]

-- `remove_elem` finds the entry that `tmp` points to.
pub find-from :
    (base : ℕ) (k : Addr) (es : List NgbEntry) (nw : NgbEntry) (rest : List NgbEntry)
    → All (IsNear base) es
    → from_entry k es ≡ nw ∷ rest
    → find compare_n_s es nw ≡ some nw
unfolding from_entry find
find-from base k [] nw rest a h = ground arith
find-from base k (e ∷ es) nw rest a h =
    let near = All-from (IsNear base) k es a.1 in
    ground (
      arith,
      find-from base k es nw rest a.1,
      head-from k es nw rest,
      compare_n_refl e.sym,
      compare-near base e nw a.0,
    )

pub erase-Without :
    (base : ℕ) (es : List NgbEntry) (nw : NgbEntry)
    → All (IsNear base) es
    → IsNear base nw
    → IsDistinct es
    → Without nw.sym (erase compare_n_s es nw)
unfolding erase
erase-Without base [] nw a n d = tt
erase-Without base (e ∷ es) nw a n d = ground (
  arith,
  erase-Without base es nw a.1 n d.1,
  compare-near base e nw a.0 n,
  compare_n-eq e.sym nw.sym,
  same_sym e.sym nw.sym,
)
