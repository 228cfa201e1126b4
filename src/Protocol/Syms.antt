-- ===== src/Protocol/Syms.antt =====
-- The pointers of the entries of the floods into `NEIGHBORS`: none is left of a neighbour that is
-- dropped.
use projet_reseau.Prelude.{
  ℕ, ◌≡◌, sym, ◌∙◌, subst, List, [], ◌∷◌, map, All, arith, is_eq, Bool, true, not, ◌&&◌, Bool-cases,
  inl, inr, Option, none, some, Option-cases, Ordering,
}
use projet_reseau.Neighbor.{Addr, same}
use projet_reseau.Neighbor.Order.{compare_n_refl}
use projet_reseau.Abr.{find_by_aux, issymmetrical}
use projet_reseau.Abr.Listing.{contains, contains-find_by}
use projet_reseau.Genlist.{GenList, insert_entry, add_elem, remove_elem, get, find}
use projet_reseau.Genlist.Search.{remove_elem_lem}
use projet_reseau.Flood.{NgbEntry, FloodEntry, init_ngb_entry, get_symmetrical}
use projet_reseau.Flood.Entries.{find_by_lem}
use projet_reseau.Peer.{Env, Peer, probe, delete_from}
use projet_reseau.Peer.Valid.{IsValid}
use projet_reseau.Flooding.{reschedule}
use projet_reseau.Flooding.Schedule.{Gives, All-erase, All-insert, Without}
use projet_reseau.Protocol.{hears}
use projet_reseau.Protocol.Floods.{Each}
use projet_reseau.Protocol.Unlink.{IsRid}

-- The neighbours of the entries pass the test.
abbrev pub AllSyms : (Addr → Bool) → GenList NgbEntry → Type 0
AllSyms test l = All (λ e. test e.sym ≡ true) l.entries

pub remove-AllSyms :
    (test : Addr → Bool) (l : GenList NgbEntry) (q : NgbEntry)
    → AllSyms test l
    → AllSyms test (remove_elem l q).0
remove-AllSyms test l q h =
    subst (All (λ e. test e.sym ≡ true)) (sym (remove_elem_lem l q).0)
      (All-erase (λ e. test e.sym ≡ true) l.compare_f l.entries q h)

add-AllSyms :
    (test : Addr → Bool) (l : GenList NgbEntry) (n : NgbEntry)
    → test n.sym ≡ true
    → AllSyms test l
    → AllSyms test (add_elem true l n).0
unfolding add_elem
add-AllSyms test l n t h = elim (Option-cases (insert_entry l.compare_f l.entries n)) [
  | inl e ↦ rw (e, add_elem) h
  | inr (ys, e) ↦
      rw (e, add_elem)
        (subst (Gives (All (λ e. test e.sym ≡ true))) e
          (All-insert (λ e. test e.sym ≡ true) l.compare_f l.entries n t h))
]

All-find {μ} :
    (P : NgbEntry → Type μ) (comp : NgbEntry → NgbEntry → Ordering) (es : List NgbEntry)
    (q n : NgbEntry)
    → find comp es q ≡ some n
    → All P es
    → P n
unfolding find
All-find P comp [] q n e h = ground arith
All-find P comp (x ∷ xs) q n e h = elim (Bool-cases (is_eq (comp x q))) [
  | inl m ↦ let xn : x ≡ n = ground arith in subst P xn h.0
  | inr m ↦ All-find P comp xs q n (ground arith) h.1
]

pub reschedule-AllSyms :
    (test : Addr → Bool) (env : Env) (r : ℕ) (nw : NgbEntry) (l : GenList NgbEntry)
    → AllSyms test l
    → AllSyms test (reschedule env r nw l)
unfolding reschedule get
reschedule-AllSyms test env r nw l h =
    let kept = remove-AllSyms test l nw h in
    let out = (remove_elem_lem l nw).1 in
    elim (Option-cases (remove_elem l nw).1) [
      | inl e ↦ rw (e, reschedule) kept
      | inr (n, e) ↦
          rw (e, reschedule)
            (add-AllSyms test (remove_elem l nw).0 _
              (All-find (λ x. test x.sym ≡ true) l.compare_f l.entries nw n (sym out ∙ e) h) kept)
    ]

delete_from-AllSyms :
    (test : Addr → Bool) (to_delete : Option Addr) (l : GenList NgbEntry)
    → AllSyms test l
    → AllSyms test (delete_from to_delete l)
unfolding delete_from
delete_from-AllSyms test none l h = h
delete_from-AllSyms test (some a) l h = remove-AllSyms test l (probe a) h

listed_entries :
    (test : Addr → Bool) (now : ℕ) (keys : List Addr)
    → ((q : Addr) → contains q keys ≡ true → test q ≡ true)
    → All (λ e. test e.sym ≡ true) (map (init_ngb_entry now) keys)
unfolding contains init_ngb_entry
listed_entries test now [] h = tt
listed_entries test now (k ∷ ks) h =
    (h k (ground (arith, compare_n_refl k)), listed_entries test now ks (λ q c. h q (ground arith)))

-- The symmetrical neighbours are in `NEIGHBORS`.
pub targets-AllSyms :
    (env : Env) (to_delete : Option Addr) (p : Peer)
    → IsValid p
    → AllSyms (hears p) (delete_from to_delete (get_symmetrical env.now p.neighbors))
unfolding get_symmetrical
targets-AllSyms env to_delete p v =
    let func = issymmetrical env.now in
    let keys = find_by_aux p.neighbors func in
    delete_from-AllSyms (hears p) to_delete _ (
      subst (All (λ e. hears p e.sym ≡ true)) (sym (find_by_lem env.now p.neighbors func).0) (
        listed_entries (hears p) env.now keys
          (λ q c. ground (arith, contains-find_by p.neighbors func q v.ordered, c))))

AllSyms-imp :
    (test test' : Addr → Bool) (es : List NgbEntry)
    → ((q : Addr) → test q ≡ true → test' q ≡ true)
    → All (λ e. test e.sym ≡ true) es
    → All (λ e. test' e.sym ≡ true) es
AllSyms-imp test test' [] f h = tt
AllSyms-imp test test' (e ∷ es) f h = (f e.sym h.0, AllSyms-imp test test' es f h.1)

pub Each-imp :
    (test test' : Addr → Bool) (fs : List FloodEntry)
    → ((q : Addr) → test q ≡ true → test' q ≡ true)
    → Each (AllSyms test) fs
    → Each (AllSyms test') fs
Each-imp test test' [] f h = tt
Each-imp test test' (x ∷ xs) f h =
    (AllSyms-imp test test' x.sym_neighbors.entries f h.0, Each-imp test test' xs f h.1)

rid-AllSyms :
    (test : Addr → Bool) (a : Addr) (es : List NgbEntry)
    → Without a es
    → All (λ e. test e.sym ≡ true) es
    → All (λ e. (not (same a e.sym) && test e.sym) ≡ true) es
rid-AllSyms test a [] w h = tt
rid-AllSyms test a (e ∷ es) w h = (ground (arith, w.0, h.0), rid-AllSyms test a es w.1 h.1)

pub rid-Each :
    (test : Addr → Bool) (a : Addr) (fs : List FloodEntry)
    → Each (IsRid a) fs
    → Each (AllSyms test) fs
    → Each (AllSyms (λ q. not (same a q) && test q)) fs
rid-Each test a [] w h = tt
rid-Each test a (f ∷ fs) w h =
    (rid-AllSyms test a f.sym_neighbors.entries w.0 h.0, rid-Each test a fs w.1 h.1)
