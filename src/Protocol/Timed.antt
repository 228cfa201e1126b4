-- ===== src/Protocol/Timed.antt =====
-- The lists of the floods stay in the order of their times, and what is put back is not due.
use projet_reseau.Prelude.{
  ℕ, suc, ◌+◌, ◌≤◌, ◌<◌, ◌≡◌, ◌≢◌, sym, ap, ◌∙◌, subst, List, [], ◌∷◌, map, All, arith, Bool, true,
  false, Option, none, some, Option-cases, inl, inr, is_eq,
}
use projet_reseau.Neighbor.{Addr, same}
use projet_reseau.Abr.{Tree, find_by_aux}
use projet_reseau.Genlist.{GenList, insert_entry, add_elem, remove_elem, get, find}
use projet_reseau.Genlist.Search.{erase, remove_elem_lem}
use projet_reseau.Flood.{NgbEntry, compare_n_s, init_ngb_entry, get_symmetrical}
use projet_reseau.Flood.Entries.{find_by_lem, wait_time_bounds}
use projet_reseau.Peer.{
  Env, Peer, probe, delete_from, indices, add_message_to_flood, remove_neighbor_from_flood,
}
use projet_reseau.Peer.Valid.{IsValid}
use projet_reseau.Flooding.{from_entry, pointer, reschedule}
use projet_reseau.Flooding.Schedule.{
  Gives, Without, IsNear, All-from, find-from, erase-Without, compare-near, next-from,
}
use projet_reseau.Flooding.Rounds.{IsReady, IsTimely, remove-IsReady, powers, again, again-IsNear}
use projet_reseau.Flooding.Order.{
  IsTimed, erase-IsTimed, insert-IsTimed, before, IsQuiet, ahead, IsSpared, spared-IsQuiet,
  All-ahead, next-IsSpared, IsOther, ahead-erase, ahead-insert,
}
use projet_reseau.Protocol.{Change, quiet, learned, published, settled, forgot, repeated}
use projet_reseau.Protocol.Floods.{
  Each, remove_in_first-Each, remove_from_floods-Each, set_neighbors-Each, flood_at-Each,
  add_flood-All, init_flood_fields,
}
use projet_reseau.Protocol.Ready.{AreReady}

abbrev pub IsInOrder : GenList NgbEntry → Type 0
IsInOrder l = IsTimed l.entries

remove-IsInOrder :
    (l : GenList NgbEntry) (q : NgbEntry) → IsInOrder l → IsInOrder (remove_elem l q).0
remove-IsInOrder l q t =
    subst IsTimed (sym (remove_elem_lem l q).0) (erase-IsTimed l.compare_f l.entries q t)

add-Gives {μ} :
    (P : List NgbEntry → Type μ) (l : GenList NgbEntry) (n : NgbEntry)
    → P l.entries
    → Gives P (insert_entry l.compare_f l.entries n)
    → P (add_elem true l n).0.entries
unfolding add_elem
add-Gives P l n old new = elim (Option-cases (insert_entry l.compare_f l.entries n)) [
  | inl e ↦ rw (e, add_elem) old
  | inr (ys, e) ↦ rw (e, add_elem) (subst (Gives P) e new)
]

one_time :
    (now : ℕ) (a : Addr) (keys : List Addr)
    → All (λ x. (init_ngb_entry now a).wait_time ≤ x.wait_time) (map (init_ngb_entry now) keys)
unfolding init_ngb_entry
one_time now a [] = tt
one_time now a (k ∷ ks) = (omega arith, one_time now a ks)

new-IsTimed : (now : ℕ) (keys : List Addr) → IsTimed (map (init_ngb_entry now) keys)
unfolding init_ngb_entry
new-IsTimed now [] = tt
new-IsTimed now (k ∷ ks) = (one_time now k ks, new-IsTimed now ks)

targets-IsInOrder :
    (env : Env) (to_delete : Option Addr) (t : Tree)
    → IsInOrder (delete_from to_delete (get_symmetrical env.now t))
unfolding get_symmetrical delete_from
targets-IsInOrder env none t =
    subst IsTimed (sym (find_by_lem env.now t _).0) (new-IsTimed env.now (find_by_aux t _))
targets-IsInOrder env (some a) t =
    remove-IsInOrder _ (probe a)
      (subst IsTimed (sym (find_by_lem env.now t _).0) (new-IsTimed env.now (find_by_aux t _)))

all_near :
    (base : ℕ) (es : List NgbEntry) (nw : NgbEntry)
    → All (IsNear base) es
    → IsNear base nw
    → All (λ e. is_eq (compare_n_s e nw) ≡ same e.sym nw.sym) es
all_near base [] nw a n = tt
all_near base (e ∷ es) nw a n = (compare-near base e nw a.0 n, all_near base es nw a.1 n)

pub IsOther-pointer :
    (k : Addr) (l : GenList NgbEntry) (nw : NgbEntry) (rest : List NgbEntry) (base : ℕ)
    → IsReady base l
    → from_entry k l.entries ≡ nw ∷ rest
    → IsOther nw.sym (pointer rest)
IsOther-pointer k l nw [] base h e = tt
IsOther-pointer k l nw (r ∷ rs) base h e = (next-from k l.entries nw r rs h.distinct e).1

module _ (base r : ℕ) (env : Env) (k : Addr) (l : GenList NgbEntry) (nw : NgbEntry)
    (rest : List NgbEntry) (h : IsReady base l) (c : IsTimely base env.now)
    (e : from_entry k l.entries ≡ nw ∷ rest) (five : nw.times_sent ≢ 5) where
  IsNear-nw : IsNear base nw
  IsNear-nw = (subst (All (IsNear base)) e (All-from (IsNear base) k l.entries h.near)).0

  removed : (remove_elem l nw).0.entries ≡ erase compare_n_s l.entries nw
  removed = (remove_elem_lem l nw).0 ∙ ap (λ comp. erase comp l.entries nw) h.compared

  found : (remove_elem l nw).1 ≡ some nw
  unfolding get
  found =
      (remove_elem_lem l nw).1
      ∙ ap (λ comp. find comp l.entries nw) h.compared
      ∙ find-from base k l.entries nw rest h.near e

  gone : Without nw.sym (remove_elem l nw).0.entries
  gone =
      subst (Without nw.sym) (sym removed)
        (erase-Without base l.entries nw h.near IsNear-nw h.distinct)

  -- The time of the entry that is put back.
  put_back-later : env.now < (again env.now r nw).wait_time
  put_back-later =
      let next : nw.times_sent + 1 ≡ suc nw.times_sent = omega arith in
      let (pos, _) = powers nw.times_sent (omega (arith, IsNear-nw.times, five)) in
      let (low, _) = wait_time_bounds r nw.times_sent in rw next (omega (arith, pos, low))

  put_back-Gives {μ} :
      (P : List NgbEntry → Type μ)
      → P (remove_elem l nw).0.entries
      → Gives P (insert_entry compare_n_s (remove_elem l nw).0.entries (again env.now r nw))
      → P (reschedule env r nw l).entries
  unfolding reschedule
  put_back-Gives P old new =
      let kept = (remove-IsReady base l nw h).compared in
      rw (found, reschedule)
        (add-Gives P (remove_elem l nw).0 (again env.now r nw) old (
          subst
            (λ comp. Gives P (insert_entry comp (remove_elem l nw).0.entries (again env.now r nw)))
            (sym kept) new))

  pub reschedule-IsInOrder : IsInOrder l → IsInOrder (reschedule env r nw l)
  reschedule-IsInOrder t =
      let ready = remove-IsReady base l nw h in
      let near = (again-IsNear base env.now r nw c (omega (arith, IsNear-nw.times, five))).0 in
      let old = remove-IsInOrder l nw t in
      put_back-Gives IsTimed old (
        insert-IsTimed base (remove_elem l nw).0.entries (again env.now r nw) ready.near near gone
          old)

  -- Nothing due is left ahead of the next entry.
  pub reschedule-IsQuiet :
      IsQuiet env.now (before k l.entries)
      → IsQuiet env.now (ahead (pointer rest) (reschedule env r nw l).entries)
  reschedule-IsQuiet q =
      let tmp = pointer rest in
      let other = IsOther-pointer k l nw rest base h e in
      let spared = next-IsSpared env.now k l.entries nw rest e q in
      let left : IsSpared nw.sym env.now (ahead tmp (remove_elem l nw).0.entries) =
        subst (λ es. IsSpared nw.sym env.now (ahead tmp es)) (sym removed)
          (ahead-erase _ compare_n_s tmp l.entries nw nw.sym
            (all_near base l.entries nw h.near IsNear-nw) other spared) in
      let old =
        spared-IsQuiet nw.sym env.now _
          (All-ahead (λ x. same nw.sym x.sym ≡ false) tmp (remove_elem l nw).0.entries gone) left in
      put_back-Gives (λ es. IsQuiet env.now (ahead tmp es)) old
        (ahead-insert (λ x. env.now < x.wait_time) compare_n_s tmp (remove_elem l nw).0.entries
          (again env.now r nw) other put_back-later old)

module _ (strict : Bool) (base : ℕ) (env : Env) (c : IsTimely base env.now) where
  -- Each change of lists that are ready keeps their order.
  pub Change-IsInOrder :
      (p p' : Peer)
      → IsValid p
      → AreReady base p
      → Change strict env p p'
      → Each IsInOrder p.dataf.entries
      → Each IsInOrder p'.dataf.entries
  unfolding add_message_to_flood remove_neighbor_from_flood
  Change-IsInOrder p p' v ready (quiet n d) t = subst (λ l. Each IsInOrder l.entries) (sym d) t
  Change-IsInOrder p p' v ready (learned a n d) t = subst (λ l. Each IsInOrder l.entries) (sym d) t
  Change-IsInOrder p p' v ready (published msg size to_delete new n d) t =
      subst (λ l. Each IsInOrder l.entries) (sym d)
        (add_flood-All (λ f. IsInOrder f.sym_neighbors) _ p v
          (λ f e.
            subst IsInOrder (sym (init_flood_fields _ _ _ f e).1)
              (targets-IsInOrder env to_delete p.neighbors))
          t)
  Change-IsInOrder p p' v ready (settled index a n d) t =
      subst (λ l. Each IsInOrder l.entries) (sym d)
        (remove_in_first-Each IsInOrder index a p.dataf.entries
          (λ l b. remove-IsInOrder l (probe b)) t)
  Change-IsInOrder p p' v ready (forgot a n d) t =
      subst (λ l. Each IsInOrder l.entries) (sym d)
        (remove_from_floods-Each IsInOrder (indices p.dataf.entries) a p
          (λ l b. remove-IsInOrder l (probe b)) t)
  Change-IsInOrder p p' v ready (repeated i r f k nw rest at from five due n d) t =
      let here = flood_at-Each (IsReady base) i p.dataf.entries f at ready in
      let next =
        reschedule-IsInOrder base r env k f.sym_neighbors nw rest here c from five
          (flood_at-Each IsInOrder i p.dataf.entries f at t) in
      subst (λ l. Each IsInOrder l.entries) (sym d)
        (set_neighbors-Each IsInOrder i _ p.dataf.entries next t)
