-- ===== src/Flood/Entries.antt =====
-- The lists that `find_by` makes, and the bounds of `wait_time`.
use native.Mathlib.Nat.{pow-suc}
use projet_reseau.Prelude.{
  ℕ, zero, suc, ◌≤◌, ◌<◌, ◌^◌, ◌≡◌, refl, sym, ◌∙◌, List, [], ◌∷◌, ◌++◌, map, append_assoc,
  append-nil, arith, Bool,
}
use projet_reseau.Neighbor.{Addr, Ident}
use projet_reseau.Abr.{Tree, find_by_aux}
use projet_reseau.Genlist.{GenList, init_list, add_last}
use projet_reseau.Flood.{NgbEntry, compare_n_s, init_ngb_entry, list_entries, find_by, wait_time}

list_entries_lem :
    (now : ℕ) (keys : List Addr) (l : GenList NgbEntry)
    → ((list_entries now keys l).entries ≡ l.entries ++ map (init_ngb_entry now) keys)
      × ((list_entries now keys l).compare_f ≡ l.compare_f)
unfolding list_entries
list_entries_lem now [] l = (sym (append-nil l.entries), refl)
list_entries_lem now (key ∷ keys) l =
    let e = init_ngb_entry now key in
    let rest = list_entries_lem now keys (add_last Bool.true l e).0 in
    (rest.0 ∙ append_assoc l.entries (e ∷ []) (map (init_ngb_entry now) keys), rest.1)

-- The entries of `find_by` are the initial ones for the keys that `find_by_aux` lists, in their
-- order, and the list compares them by address.
pub find_by_lem :
    (now : ℕ) (t : Tree) (func : Ident → Bool)
    → ((find_by now t func).entries ≡ map (init_ngb_entry now) (find_by_aux t func))
      × ((find_by now t func).compare_f ≡ compare_n_s)
unfolding find_by
find_by_lem now t func = list_entries_lem now (find_by_aux t func) (init_list compare_n_s)

power_pos : (n : ℕ) → 0 < 2 ^ n
power_pos zero = omega arith
power_pos (suc n) = omega (arith, power_pos n, pow-suc 2 n)

-- After `n + 1` transmissions the peer waits at least 2^n seconds and less than 2^(n + 1),
-- whatever number is drawn.
pub wait_time_bounds : (r n : ℕ) → (2 ^ n ≤ wait_time r (suc n)) × (wait_time r (suc n) < 2 ^ suc n)
unfolding wait_time
wait_time_bounds r n = grind (arith, power_pos n, pow-suc 2 n)
