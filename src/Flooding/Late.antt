-- ===== src/Flooding/Late.antt =====
-- `NEXTTIME` behind the transmission of a flood: it does not take in the time of an entry that was
-- put back.
use projet_reseau.Prelude.{
  ℕ, ◌+◌, ◌≤◌, ◌≡◌, ◌≢◌, refl, ◌∙◌, [], ◌∷◌, eq, arith, some, leb, ◌==◌, true, false, get_or, ◌++◌,
}
use projet_reseau.Neighbor.Order.{compare_n_refl}
use projet_reseau.Genlist.{GenList, insert_entry, add_elem, remove_elem, get, find}
use projet_reseau.Genlist.Search.{erase, remove_elem_lem}
use projet_reseau.Flood.{NgbEntry, FloodEntry, compare_n_s, wait_time}
use projet_reseau.Net.{message, send_via}
use projet_reseau.Peer.{Env, Peer}
use projet_reseau.Flooding.{
  send_data, from_entry, flood_at, reschedule, visit, advance, flood_loop,
  flood_message_to_neighbours,
}
use projet_reseau.Flooding.Loop.{set_neighbors-At}

-- The entry with one transmission more, at its new time.
abbrev pub put_back : Env → ℕ → NgbEntry → NgbEntry
put_back env r e = record e {
  times_sent = e.times_sent + 1;
  wait_time = wait_time r (e.times_sent + 1) + env.now;
}

compare_n_s_refl : (e : NgbEntry) → compare_n_s e e ≡ eq
unfolding compare_n_s
compare_n_s_refl e = rw (compare_n_refl e.sym) refl

add_alone :
    (l : GenList NgbEntry) (n : NgbEntry) → l.entries ≡ [] → (add_elem true l n).0.entries ≡ n ∷ []
unfolding add_elem insert_entry
add_alone l n h = rw h refl

reschedule_alone :
    (env : Env) (r : ℕ) (e : NgbEntry) (l : GenList NgbEntry)
    → l.compare_f ≡ compare_n_s
    → l.entries ≡ e ∷ []
    → (reschedule env r e l).entries ≡ put_back env r e ∷ []
unfolding reschedule get find erase
reschedule_alone env r e l c h =
    let (chain, out) = remove_elem_lem l e in
    let here = compare_n_s_refl e in
    let gone : (remove_elem l e).0.entries ≡ [] = chain ∙ rw (c, h, here) refl in
    let found : (remove_elem l e).1 ≡ some e = out ∙ rw (c, h, here) refl in
    rw (found, reschedule) (add_alone (remove_elem l e).0 (put_back env r e) gone)

-- A flood whose only entry is due and was not sent five times: its TLV goes, as a message of its own
-- and once, to the buffer of the neighbour of the entry or to the socket, as `send_via` says, and no
-- other datagram is sent; the entry is put back with its next time, and `NEXTTIME` stays as it was,
-- so that it does not take in that time.
pub flood_message_to_neighbours_late :
    (env : Env) (i : ℕ) (f : FloodEntry) (e : NgbEntry) (p : Peer)
    → flood_at i p.dataf.entries ≡ some f
    → f.sym_neighbors.compare_f ≡ compare_n_s
    → f.sym_neighbors.entries ≡ e ∷ []
    → e.times_sent ≢ 5
    → e.wait_time ≤ env.now
    → let q = flood_message_to_neighbours env i f p in
      let size = get_or f.content 1 0 + 2 in
      let (people, out) = send_via e.sym (message f.content size) (size + 4) p.neighbors in
      (q.nexttime ≡ p.nexttime)
      × (q.neighbors ≡ people)
      × (q.sent ≡ p.sent ++ out)
      × (g : FloodEntry) × (flood_at i q.dataf.entries ≡ some g)
      × (g.sym_neighbors.entries ≡ put_back env (env.rand p.drawn) e ∷ [])
unfolding flood_message_to_neighbours flood_loop advance visit send_data from_entry
flood_message_to_neighbours_late env i f e p at c h five due =
    let l = reschedule env (env.rand p.drawn) e f.sym_neighbors in
    let not_five : (e.times_sent == 5) ≡ false = ground arith in
    let is_due : leb e.wait_time env.now ≡ true = ground arith in
    rw (h, flood_loop, at, h, compare_n_refl e.sym, advance, visit, not_five, is_due)
      (
        refl,
        refl,
        refl,
        record f { sym_neighbors = l },
        set_neighbors-At i l p.dataf.entries f at,
        reschedule_alone env (env.rand p.drawn) e f.sym_neighbors c h,
      )
