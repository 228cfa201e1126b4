-- ===== src/Flooding/Inactive.antt =====
-- A neighbour that has been sent a flood five times: when and how the loop drops it.
use projet_reseau.Prelude.{ℕ, ◌+◌, ◌-◌, ◌≤◌, ◌≡◌, refl, ◌∙◌, List, none, some}
use projet_reseau.Neighbor.{MessageH}
use projet_reseau.Neighbor.Order.{compare_n_refl}
use projet_reseau.Abr.{get_ident}
use projet_reseau.Tlv.{tlv_goaway}
use projet_reseau.Flood.{NgbEntry, FloodEntry, pmtu}
use projet_reseau.Net.Buffer.{used}
use projet_reseau.Peer.{Env, Peer}
use projet_reseau.Peer.Valid.{IsValid}
use projet_reseau.Peer.Removal.{remove_neighbor_everywhere-get_ident}
use projet_reseau.Periodic.{send_to}
use projet_reseau.Periodic.Farewell.{buffer_at, send_to_waits}
use projet_reseau.Flooding.{goaway_text, handle_inactive, visit, pointer}

-- In a valid state, an entry that was sent five times is visited: whatever its time, its neighbour
-- is dropped and the loop goes on to the next entry; the GoAway is not sent, where the buffer of
-- the neighbour has room for 27 bytes more.
pub visit_inactive :
    (env : Env) (i : ℕ) (f : FloodEntry) (nw : NgbEntry) (rest : List NgbEntry) (m : MessageH)
    (p : Peer)
    → nw.times_sent ≡ 5
    → IsValid p
    → buffer_at p.neighbors nw.sym ≡ some m
    → used m + 27 ≤ pmtu - 4
    → let (tmp, p') = visit env i f nw rest p in
      (tmp ≡ pointer rest) × (p'.sent ≡ p.sent) × (get_ident p'.neighbors nw.sym ≡ none)
unfolding visit handle_inactive tlv_goaway
visit_inactive env i f nw rest m p five v e h =
    let w = tlv_goaway (pmtu - 4) 2 goaway_text 24 in
    let q = send_to nw.sym w p in
    let (quiet, ordered) = send_to_waits nw.sym w m p refl v e h in
    let gone = remove_neighbor_everywhere-get_ident nw.sym q nw.sym ordered in
    rw five (refl, gone.1 ∙ quiet, gone.0 ∙ rw (compare_n_refl nw.sym))
