-- ===== src/Protocol/Ready.antt =====
-- The lists of the floods over a run: a neighbour has one entry at most, and the times stay near
-- one another, so that the loops of util.c end within their fuel.
use projet_reseau.Prelude.{
  ℕ, zero, suc, ◌+◌, ◌≡◌, sym, subst, List, [], ◌∷◌, map, All, length, arith, Bool, true, false,
  inl, inr, Option, none, some, Option-cases,
}
use projet_reseau.Neighbor.{Addr, Ident}
use projet_reseau.Abr.{Tree, find_by_aux, issymmetrical}
use projet_reseau.Abr.Order.{IsOrdered, ◌≺◌}
use projet_reseau.Abr.Listing.{IsSorted, find_by-IsSorted}
use projet_reseau.Genlist.{GenList}
use projet_reseau.Flood.{NgbEntry, FloodEntry, init_ngb_entry, find_by, get_symmetrical}
use projet_reseau.Flood.Entries.{find_by_lem}
use projet_reseau.Flood as Flood
use projet_reseau.Peer.{
  Env, Peer, add_message_to_flood, remove_neighbor_from_flood, probe, delete_from, indices,
}
use projet_reseau.Peer.Valid.{IsValid}
use projet_reseau.Flooding.{
  pointer, flood_at, flood_message_to_neighbours, flood_from, flood_messages,
}
use projet_reseau.Flooding.Schedule.{IsDistinct, IsNear, Without}
use projet_reseau.Flooding.Rounds.{IsReady, IsTimely, remove-IsReady, reschedule_lem}
use projet_reseau.Flooding.Ends.{Passes, all_done, no_more, flood, flood_message_to_neighbours-Ends}
use projet_reseau.Flooding.Valid.{flood_loop-IsValid}
use projet_reseau.Main.{State, Event, work, round, run}
use projet_reseau.Main.Invariant.{IsEvent, work-IsValid, round-IsValid}
use projet_reseau.Protocol.{
  Change, quiet, learned, published, settled, forgot, repeated, Changes-keep,
}
use projet_reseau.Protocol.Floods.{
  Each, remove_in_first-Each, remove_from_floods-Each, set_neighbors-Each, flood_at-Each,
  add_flood-All, init_flood_fields,
}
use projet_reseau.Protocol.Jobs.{flood_loop-Changes}
use projet_reseau.Protocol.Rounds.{work-Changes, round-Changes}

-- The lists of all the floods are ready.
abbrev pub AreReady : ℕ → Peer → Type 0
AreReady base p = Each (IsReady base) p.dataf.entries

new-Without :
    (now : ℕ) (a : Addr) (keys : List Addr)
    → All (λ x. a ≺ x) keys
    → Without a (map (init_ngb_entry now) keys)
unfolding init_ngb_entry
new-Without now a [] h = tt
new-Without now a (k ∷ ks) h = (ground (arith, h.0), new-Without now a ks h.1)

new-IsDistinct :
    (now : ℕ) (keys : List Addr) → IsSorted keys → IsDistinct (map (init_ngb_entry now) keys)
unfolding init_ngb_entry
new-IsDistinct now [] s = tt
new-IsDistinct now (k ∷ ks) s = (new-Without now k ks s.0, new-IsDistinct now ks s.1)

new-IsNear :
    (base now : ℕ) (keys : List Addr)
    → IsTimely base now
    → All (IsNear base) (map (init_ngb_entry now) keys)
unfolding init_ngb_entry
new-IsNear base now [] c = tt
new-IsNear base now (k ∷ ks) c = (
  record {
    above = unfold Flood.wait_time in omega (arith, c.late);
    below = unfold Flood.wait_time in omega (arith, c.early);
    times = omega arith;
  },
  new-IsNear base now ks c,
)

pub find_by-IsReady :
    (base now : ℕ) (t : Tree) (func : Ident → Bool)
    → IsTimely base now
    → IsOrdered t
    → IsReady base (find_by now t func)
find_by-IsReady base now t func c s =
    let (chain, compared) = find_by_lem now t func in
    let keys = find_by_aux t func in
    record {
      compared = compared;
      distinct = subst IsDistinct (sym chain) (new-IsDistinct now keys (find_by-IsSorted t func s));
      near = subst (All (IsNear base)) (sym chain) (new-IsNear base now keys c);
    }

delete_from-IsReady :
    (base : ℕ) (to_delete : Option Addr) (l : GenList NgbEntry)
    → IsReady base l
    → IsReady base (delete_from to_delete l)
unfolding delete_from
delete_from-IsReady base none l h = h
delete_from-IsReady base (some a) l h = remove-IsReady base l (probe a) h

targets-IsReady :
    (base : ℕ) (env : Env) (to_delete : Option Addr) (p : Peer)
    → IsTimely base env.now
    → IsValid p
    → IsReady base (delete_from to_delete (get_symmetrical env.now p.neighbors))
unfolding get_symmetrical
targets-IsReady base env to_delete p c v =
    delete_from-IsReady base to_delete _
      (find_by-IsReady base env.now p.neighbors (issymmetrical env.now) c v.ordered)

module _ (strict : Bool) (base : ℕ) (env : Env) (c : IsTimely base env.now) where
  -- Each change keeps the lists ready.
  pub Change-AreReady :
      (p p' : Peer) → IsValid p → Change strict env p p' → AreReady base p → AreReady base p'
  unfolding add_message_to_flood remove_neighbor_from_flood
  Change-AreReady p p' v (quiet n d) h = subst (λ l. Each (IsReady base) l.entries) (sym d) h
  Change-AreReady p p' v (learned a n d) h = subst (λ l. Each (IsReady base) l.entries) (sym d) h
  Change-AreReady p p' v (published msg size to_delete new n d) h =
      subst (λ l. Each (IsReady base) l.entries) (sym d)
        (add_flood-All (λ f. IsReady base f.sym_neighbors) _ p v
          (λ f e.
            subst (IsReady base) (sym (init_flood_fields _ _ _ f e).1)
              (targets-IsReady base env to_delete p c v))
          h)
  Change-AreReady p p' v (settled index a n d) h =
      subst (λ l. Each (IsReady base) l.entries) (sym d)
        (remove_in_first-Each (IsReady base) index a p.dataf.entries
          (λ l b. remove-IsReady base l (probe b)) h)
  Change-AreReady p p' v (forgot a n d) h =
      subst (λ l. Each (IsReady base) l.entries) (sym d)
        (remove_from_floods-Each (IsReady base) (indices p.dataf.entries) a p
          (λ l b. remove-IsReady base l (probe b)) h)
  Change-AreReady p p' v (repeated i r f k nw rest at from five due n d) h =
      let ready = flood_at-Each (IsReady base) i p.dataf.entries f at h in
      let next = (reschedule_lem base r env k f.sym_neighbors nw rest ready c from five).0 in
      subst (λ l. Each (IsReady base) l.entries) (sym d)
        (set_neighbors-Each (IsReady base) i _ p.dataf.entries next h)

flooded-AreReady :
    (base i : ℕ) (env : Env) (f : FloodEntry) (p : Peer)
    → IsTimely base env.now
    → IsValid p
    → AreReady base p
    → let q = flood_message_to_neighbours env i f p in IsValid q × AreReady base q
unfolding flood_message_to_neighbours
flooded-AreReady base i env f p c v h =
    let es = f.sym_neighbors.entries in
    (
      flood_loop-IsValid _ env i (pointer es) p v,
      Changes-keep (AreReady base) (Change-AreReady false base env c) p _
          (flood_loop-Changes false env _ i (pointer es) p v) h,
    )

flood_from-Passes :
    (n base i : ℕ) (env : Env) (p : Peer)
    → IsTimely base env.now
    → IsValid p
    → AreReady base p
    → Passes env n i p (flood_from n env i p)
unfolding flood_from
flood_from-Passes zero base i env p c v h = all_done
flood_from-Passes (suc n) base i env p c v h = elim (Option-cases (flood_at i p.dataf.entries)) [
  | inl e ↦ rw (e, flood_from) (no_more e)
  | inr (f, e) ↦
      let q = flood_message_to_neighbours env i f p in
      let ready = flood_at-Each (IsReady base) i p.dataf.entries f e h in
      let (v', h') = flooded-AreReady base i env f p c v h in
      rw (e, flood_from)
        (flood f q _ e (flood_message_to_neighbours-Ends base i env f p e ready c)
          (flood_from-Passes n base (i + 1) env q c v' h'))
]

-- In a valid state with lists that are ready, at a time near theirs: the loops over the floods of
-- util.c, which are not bounded in the code, end, and with the state that `flood_messages` gives.
pub flood_messages-Passes :
    (base : ℕ) (env : Env) (p : Peer)
    → IsTimely base env.now
    → IsValid p
    → AreReady base p
    → Passes env (length p.dataf.entries) 0 p (flood_messages env p)
unfolding flood_messages
flood_messages-Passes base env p c v h =
    flood_from-Passes (length p.dataf.entries) base 0 env p c v h

any-IsNew : (T : Type 0) → false ≡ true → T
any-IsNew T e = absurd (cc)

pub round-AreReady :
    (base : ℕ) (ev : Event) (s : State)
    → IsEvent ev
    → IsTimely base ev.env.now
    → IsValid s.peer
    → AreReady base s.peer
    → AreReady base (round ev s).peer
round-AreReady base ev s h c v r =
    Changes-keep (AreReady base) (Change-AreReady false base ev.env c) s.peer (round ev s).peer
      (round-Changes false ev s h (any-IsNew _) v) r

-- Events that the system can give, at times near `base`.
abbrev pub IsTimelyEvent : ℕ → Event → Type 0
IsTimelyEvent base ev = IsEvent ev × IsTimely base ev.env.now

run-AreReady :
    (base : ℕ) (evs : List Event) (s : State)
    → All (IsTimelyEvent base) evs
    → IsValid s.peer
    → AreReady base s.peer
    → IsValid (run evs s).peer × AreReady base (run evs s).peer
unfolding run
run-AreReady base [] s h v r = (v, r)
run-AreReady base (ev ∷ evs) s h v r =
    run-AreReady base evs (round ev s) h.1 (round-IsValid ev s h.0.0 v)
      (round-AreReady base ev s h.0.0 h.0.1 v r)

-- After any run of the loop of main.c from a valid state with lists that are ready, over events that
-- the system can give at times from `base` on and more than 32 seconds below `base` + 32768: in the
-- round of one more such event, the loops over the floods of util.c, which are not bounded in the
-- code, end, and with the state that `flood_messages` gives.
pub run-Passes :
    (base : ℕ) (evs : List Event) (ev : Event) (s : State)
    → All (IsTimelyEvent base) evs
    → IsTimelyEvent base ev
    → IsValid s.peer
    → AreReady base s.peer
    → let p = (work ev (run evs s)).peer in
      Passes ev.env (length p.dataf.entries) 0 p (flood_messages ev.env p)
run-Passes base evs ev s hs h v r =
    let t = run evs s in
    let (v', r') = run-AreReady base evs s hs v r in
    let worked = work-Changes false ev t h.0 (any-IsNew _) v' in
    flood_messages-Passes base ev.env (work ev t).peer h.1 (work-IsValid ev t h.0 v') (
      Changes-keep (AreReady base) (Change-AreReady false base ev.env h.1) t.peer (work ev t).peer
        worked r')
