-- ===== src/Flooding/Order.antt =====
-- The order of the list of a flood, by the times of the entries, and the entries that stand before
-- the pointer `tmp` of the loop.
use projet_reseau.Prelude.{
  ℕ, ◌≤◌, ◌<◌, ◌≡◌, refl, ◌∙◌, subst, List, [], ◌∷◌, All, arith, is_eq, lt, gt, leb, false, true,
  Bool-cases, inl, inr, if◌then◌else◌, Option, none, some, Option-cases, Ordering, Bool, ◌||◌, ltb,
}
use projet_reseau.Neighbor.{Addr, same}
use projet_reseau.Neighbor.Order.{compare_n-eq, compare_n_refl}
use projet_reseau.Genlist.{insert_entry}
use projet_reseau.Genlist.Search.{erase}
use projet_reseau.Flood.{NgbEntry, compare_n_s, short_sign}
use projet_reseau.Flooding.{from_entry, pointer}
use projet_reseau.Flooding.Schedule.{Gives, Without, IsNear, All-erase, All-insert, same_sym}

-- The times grow along the list.
abbrev pub IsTimed : List NgbEntry → Type 0
IsTimed [] = Unit
IsTimed (e ∷ es) = All (λ x. e.wait_time ≤ x.wait_time) es × IsTimed es

pub erase-IsTimed :
    (comp : NgbEntry → NgbEntry → Ordering) (es : List NgbEntry) (q : NgbEntry)
    → IsTimed es
    → IsTimed (erase comp es q)
unfolding erase
erase-IsTimed comp [] q t = tt
erase-IsTimed comp (e ∷ es) q t =
    ground (arith, erase-IsTimed comp es q, All-erase (λ x. e.wait_time ≤ x.wait_time) comp es q)

-- Of two neighbours, an entry comes behind another exactly if its time is greater.
compare_by_time :
    (base : ℕ) (x n : NgbEntry)
    → IsNear base x
    → IsNear base n
    → same n.sym x.sym ≡ false
    → compare_n_s x n ≡ (if leb n.wait_time x.wait_time then gt else lt)
unfolding compare_n_s short_sign
compare_by_time base x n a b d =
    ground (arith, a.above, a.below, b.above, b.below, same_sym n.sym x.sym d)

All-later :
    (s t : ℕ) (es : List NgbEntry)
    → s ≤ t
    → All (λ x. t ≤ x.wait_time) es
    → All (λ x. s ≤ x.wait_time) es
All-later s t [] h a = tt
All-later s t (e ∷ es) h a = (omega (arith, a.0, h), All-later s t es h a.1)

pub insert-IsTimed :
    (base : ℕ) (es : List NgbEntry) (n : NgbEntry)
    → All (IsNear base) es
    → IsNear base n
    → Without n.sym es
    → IsTimed es
    → Gives IsTimed (insert_entry compare_n_s es n)
unfolding insert_entry
insert-IsTimed base [] n a near w t = (tt, tt)
insert-IsTimed base (e ∷ es) n a near w t =
    let order = compare_by_time base e n a.0 near w.0 in
    elim (Bool-cases (leb n.wait_time e.wait_time)) [
      | inl before ↦
          let first : compare_n_s e n ≡ gt = order ∙ rw before refl in
          let less : n.wait_time ≤ e.wait_time = ground arith in
          rw (first, insert_entry) ((less, All-later n.wait_time e.wait_time es less t.0), t)
      | inr behind ↦
          let second : compare_n_s e n ≡ lt = order ∙ rw behind refl in
          let more : e.wait_time ≤ n.wait_time = ground arith in
          let rest = insert-IsTimed base es n a.1 near w.1 t.1 in
          let later = All-insert (λ x. e.wait_time ≤ x.wait_time) compare_n_s es n more t.0 in
          elim (Option-cases (insert_entry compare_n_s es n)) [
            | inl e' ↦ rw (second, insert_entry, e') tt
            | inr (ys, e') ↦
                rw (second, insert_entry, e')
                  (
                    subst (Gives (λ zs. All (λ x. e.wait_time ≤ x.wait_time) zs)) e' later,
                    subst (Gives IsTimed) e' rest,
                  )
          ]
    ]

-- The entries before the one of `k`, or all.
unfoldable pub before : Addr → List NgbEntry → List NgbEntry
before k [] = []
before k (e ∷ es) = if same e.sym k then [] else e ∷ before k es

-- Nothing is due.
abbrev pub IsQuiet : ℕ → List NgbEntry → Type 0
IsQuiet now es = All (λ e. now < e.wait_time) es

-- A list is quiet where the entries before the pointer are, and those from it on.
pub IsQuiet-before :
    (now : ℕ) (k : Addr) (es : List NgbEntry)
    → IsQuiet now (before k es)
    → IsQuiet now (from_entry k es)
    → IsQuiet now es
unfolding before from_entry
IsQuiet-before now k [] a b = tt
IsQuiet-before now k (e ∷ es) a b = ground (arith, IsQuiet-before now k es)

pub from-IsTimed : (k : Addr) (es : List NgbEntry) → IsTimed es → IsTimed (from_entry k es)
unfolding from_entry
from-IsTimed k [] t = tt
from-IsTimed k (e ∷ es) t = ground (arith, from-IsTimed k es)

later-IsQuiet :
    (now t : ℕ) (es : List NgbEntry) → now < t → All (λ x. t ≤ x.wait_time) es → IsQuiet now es
later-IsQuiet now t [] h a = tt
later-IsQuiet now t (x ∷ xs) h a = (omega (arith, h, a.0), later-IsQuiet now t xs h a.1)

-- Where the first entry is not due, in the order of the times nothing is.
pub stop-IsQuiet :
    (now : ℕ) (e : NgbEntry) (es : List NgbEntry)
    → now < e.wait_time
    → IsTimed (e ∷ es)
    → IsQuiet now (e ∷ es)
stop-IsQuiet now e es h t = (h, later-IsQuiet now e.wait_time es h t.0)

-- The entries before those that the loop has still to visit.
abbrev pub ahead : Option Addr → List NgbEntry → List NgbEntry
ahead none es = es
ahead (some k) es = before k es

-- The entry is one of the neighbour, or not due.
abbrev pub spared : Addr → ℕ → NgbEntry → Bool
spared a now e = same a e.sym || ltb now e.wait_time

abbrev pub IsSpared : Addr → ℕ → List NgbEntry → Type 0
IsSpared a now es = All (λ e. spared a now e ≡ true) es

quiet-IsSpared : (a : Addr) (now : ℕ) (es : List NgbEntry) → IsQuiet now es → IsSpared a now es
quiet-IsSpared a now [] q = tt
quiet-IsSpared a now (e ∷ es) q = (ground (arith, q.0), quiet-IsSpared a now es q.1)

pub spared-IsQuiet :
    (a : Addr) (now : ℕ) (es : List NgbEntry) → Without a es → IsSpared a now es → IsQuiet now es
spared-IsQuiet a now [] w s = tt
spared-IsQuiet a now (e ∷ es) w s = (ground (arith, w.0, s.0), spared-IsQuiet a now es w.1 s.1)

pub All-ahead {μ} :
    (P : NgbEntry → Type μ) (tmp : Option Addr) (es : List NgbEntry)
    → All P es
    → All P (ahead tmp es)
unfolding before
All-ahead P none es a = a
All-ahead P (some k) [] a = tt
All-ahead P (some k) (e ∷ es) a = ground (arith, All-ahead P (some k) es)

-- Past the entry that is visited.
pub next-IsSpared :
    (now : ℕ) (k : Addr) (es : List NgbEntry) (nw : NgbEntry) (rest : List NgbEntry)
    → from_entry k es ≡ nw ∷ rest
    → IsQuiet now (before k es)
    → IsSpared nw.sym now (ahead (pointer rest) es)
unfolding from_entry before
next-IsSpared now k [] nw rest h q = ground arith
next-IsSpared now k (e ∷ es) nw [] h q =
    ground (arith, next-IsSpared now k es nw [], compare_n_refl nw.sym)
next-IsSpared now k (e ∷ es) nw (r ∷ rs) h q =
    ground (arith, next-IsSpared now k es nw (r ∷ rs), compare_n_refl nw.sym, compare_n_refl r.sym)

-- The pointer is not to the neighbour.
abbrev pub IsOther : Addr → Option Addr → Type 0
IsOther a none = Unit
IsOther a (some k) = same a k ≡ false

pub ahead-erase {μ} :
    (P : NgbEntry → Type μ) (comp : NgbEntry → NgbEntry → Ordering) (tmp : Option Addr)
    (es : List NgbEntry) (q : NgbEntry) (a : Addr)
    → All (λ e. is_eq (comp e q) ≡ same e.sym a) es
    → IsOther a tmp
    → All P (ahead tmp es)
    → All P (ahead tmp (erase comp es q))
unfolding before erase
ahead-erase P comp none es q a c o h = All-erase P comp es q h
ahead-erase P comp (some k) [] q a c o h = tt
ahead-erase P comp (some k) (e ∷ es) q a c o h =
    ground (arith, ahead-erase P comp (some k) es q a c.1 o, c.0, compare_n-eq e.sym a)

pub ahead-insert {μ} :
    (P : NgbEntry → Type μ) (comp : NgbEntry → NgbEntry → Ordering) (tmp : Option Addr)
    (es : List NgbEntry) (n : NgbEntry)
    → IsOther n.sym tmp
    → P n
    → All P (ahead tmp es)
    → Gives (λ ys. All P (ahead tmp ys)) (insert_entry comp es n)
unfolding before insert_entry
ahead-insert P comp none es n o p h = All-insert P comp es n p h
ahead-insert P comp (some k) [] n o p h = ground arith
ahead-insert P comp (some k) (e ∷ es) n o p h =
    ground (arith, ahead-insert P comp (some k) es n o p)
