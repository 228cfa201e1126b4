-- ===== src/Flooding/Valid.antt =====
-- The transmission of the floods keeps the invariant of the globals.
use projet_reseau.Prelude.{
  ℕ, zero, suc, ◌+◌, ◌-◌, ◌≡◌, refl, sym, ap, ◌∙◌, subst, List, [], ◌∷◌, All, length, arith, inl,
  inr, leb, ◌==◌, Option, none, some, if_cases, Option-cases, get_or,
}
use projet_reseau.Neighbor.{Addr}
use projet_reseau.Genlist.{GenList}
use projet_reseau.Tlv.{tlv_goaway}
use projet_reseau.Flood.{NgbEntry, FloodEntry, pmtu}
use projet_reseau.Net.{message, send_via}
use projet_reseau.Net.Buffer.Everyone.{Keeps, send_via-Keeps, message-Carries}
use projet_reseau.Peer.{Env, Peer}
use projet_reseau.Peer.Valid.{
  IsValid, IsFlood, with_neighbors-IsValid, remove_neighbor_everywhere-IsValid,
}
use projet_reseau.Periodic.Valid.{send_to-IsValid}
use projet_reseau.Flooding.{
  goaway_text, handle_inactive, send_data, from_entry, flood_at, set_neighbors, visit, advance,
  flood_loop, flood_message_to_neighbours, flood_from, flood_messages, min,
}

pub handle_inactive-IsValid : (a : Addr) (p : Peer) → IsValid p → IsValid (handle_inactive a p)
unfolding handle_inactive tlv_goaway
handle_inactive-IsValid a p v =
    remove_neighbor_everywhere-IsValid a _
      (send_to-IsValid a (tlv_goaway (pmtu - 4) 2 goaway_text 24) p refl (omega arith) v)

pub send_data-Keeps :
    (f : FloodEntry) (a : Addr) (p : Peer)
    → IsFlood f
    → IsValid p
    → let n = get_or f.content 1 0 + 2 in
      Keeps p.neighbors (send_via a (message f.content n) (n + 4) p.neighbors)
send_data-Keeps f a p h v =
    subst (λ n. Keeps p.neighbors (send_via a (message f.content n) (n + 4) p.neighbors)) h.0
      (send_via-Keeps a (message f.content (length f.content)) f.content p.neighbors
        (message-Carries f.content h.1) v.good)

pub send_data-IsValid :
    (f : FloodEntry) (a : Addr) (p : Peer)
    → IsFlood f
    → IsValid p
    → IsValid (send_data f.content a p)
unfolding send_data
send_data-IsValid f a p h v = with_neighbors-IsValid p _ (send_data-Keeps f a p h v) v

length-set_neighbors :
    (i : ℕ) (l : GenList NgbEntry) (fs : List FloodEntry)
    → length (set_neighbors i l fs) ≡ length fs
unfolding set_neighbors
length-set_neighbors zero l [] = refl
length-set_neighbors (suc i) l [] = refl
length-set_neighbors zero l (f ∷ fs) = refl
length-set_neighbors (suc i) l (f ∷ fs) = ap suc (length-set_neighbors i l fs)

set_neighbors-All :
    (i : ℕ) (l : GenList NgbEntry) (fs : List FloodEntry)
    → All IsFlood fs
    → All IsFlood (set_neighbors i l fs)
unfolding set_neighbors
set_neighbors-All zero l [] a = tt
set_neighbors-All (suc i) l [] a = tt
set_neighbors-All zero l (f ∷ fs) a = a
set_neighbors-All (suc i) l (f ∷ fs) a = (a.0, set_neighbors-All i l fs a.1)

pub flood_at-IsFlood :
    (i : ℕ) (fs : List FloodEntry) {f : FloodEntry}
    → All IsFlood fs
    → flood_at i fs ≡ some f
    → IsFlood f
unfolding flood_at
flood_at-IsFlood zero [] a e = ground arith
flood_at-IsFlood (suc i) [] a e = ground arith
flood_at-IsFlood zero (f ∷ fs) a e = ground arith
flood_at-IsFlood (suc i) (f ∷ fs) a e = flood_at-IsFlood i fs a.1 e

rescheduled-IsValid :
    (i : ℕ) (l : GenList NgbEntry) (n : ℕ) (p : Peer)
    → IsValid p
    → IsValid (record p {
      drawn = n;
      dataf = record (p.dataf) { entries = set_neighbors i l p.dataf.entries };
    })
rescheduled-IsValid i l n p v = record {
  ordered = v.ordered;
  ordered_potential = v.ordered_potential;
  good = v.good;
  good_potential = v.good_potential;
  counted = v.counted ∙ sym (length-set_neighbors i l p.dataf.entries);
  bounded = omega (arith, v.bounded, length-set_neighbors i l p.dataf.entries);
  compared = v.compared;
  floods = set_neighbors-All i l p.dataf.entries v.floods;
  packets = v.packets;
}

pub timed-IsValid : (n : ℕ) (p : Peer) → IsValid p → IsValid (record p { nexttime = n })
timed-IsValid n p v = record {
  ordered = v.ordered;
  ordered_potential = v.ordered_potential;
  good = v.good;
  good_potential = v.good_potential;
  counted = v.counted;
  bounded = v.bounded;
  compared = v.compared;
  floods = v.floods;
  packets = v.packets;
}

pub visit-IsValid :
    (env : Env) (i : ℕ) (f : FloodEntry) (nw : NgbEntry) (rest : List NgbEntry) (p : Peer)
    → IsFlood f
    → IsValid p
    → IsValid (visit env i f nw rest p).1
unfolding visit
visit-IsValid env i f nw rest p h v =
    if_cases {A = Option Addr × Peer} (λ r. IsValid r.1) (nw.times_sent == 5)
      (λ _. handle_inactive-IsValid nw.sym p v)
      λ _.
        if_cases {A = Option Addr × Peer} (λ r. IsValid r.1) (leb nw.wait_time env.now)
          (λ _. rescheduled-IsValid i _ _ _ (send_data-IsValid f nw.sym p h v))
          (λ _. timed-IsValid (min p.nexttime nw.wait_time) p v)

pub advance-IsValid :
    (env : Env) (i : ℕ) (f : FloodEntry) (chain : List NgbEntry) (p : Peer)
    → IsFlood f
    → IsValid p
    → IsValid (advance env i f chain p).1
unfolding advance
advance-IsValid env i f [] p h v = v
advance-IsValid env i f (nw ∷ rest) p h v = visit-IsValid env i f nw rest p h v

pub flood_loop-IsValid :
    (fuel : ℕ) (env : Env) (i : ℕ) (tmp : Option Addr) (p : Peer)
    → IsValid p
    → IsValid (flood_loop fuel env i tmp p)
unfolding flood_loop
flood_loop-IsValid zero env i tmp p v = v
flood_loop-IsValid (suc fuel) env i none p v = v
flood_loop-IsValid (suc fuel) env i (some k) p v =
    elim (Option-cases (flood_at i p.dataf.entries)) [
      | inl e ↦ rw (e, flood_loop) v
      | inr (f, e) ↦
          let chain = from_entry k f.sym_neighbors.entries in
          let next =
            advance-IsValid env i f chain p (flood_at-IsFlood i p.dataf.entries v.floods e) v in
          rw (e, flood_loop)
            (flood_loop-IsValid fuel env i (advance env i f chain p).0 (advance env i f chain p).1
              next)
    ]

flood_from-IsValid :
    (n : ℕ) (env : Env) (i : ℕ) (p : Peer) → IsValid p → IsValid (flood_from n env i p)
unfolding flood_from flood_message_to_neighbours
flood_from-IsValid zero env i p v = v
flood_from-IsValid (suc n) env i p v = elim (Option-cases (flood_at i p.dataf.entries)) [
  | inl e ↦ rw (e, flood_from) v
  | inr (f, e) ↦
      rw (e, flood_from) (flood_from-IsValid n env (i + 1) _ (flood_loop-IsValid _ env i _ p v))
]

-- A pass over the floods keeps the invariant.
pub flood_messages-IsValid : (env : Env) (p : Peer) → IsValid p → IsValid (flood_messages env p)
unfolding flood_messages
flood_messages-IsValid env p v = flood_from-IsValid (length p.dataf.entries) env 0 p v
