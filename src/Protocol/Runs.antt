-- ===== src/Protocol/Runs.antt =====
-- Runs of the loop of main.c, and the times at which messages are sent again.
use projet_reseau.Prelude.{ℕ, ◌<◌, List, [], ◌∷◌, All, length, true}
use projet_reseau.Peer.Valid.{IsValid}
use projet_reseau.Flooding.Loop.{At}
use projet_reseau.Main.{State, Event, work, round, run}
use projet_reseau.Main.Invariant.{work-IsValid, round-IsValid}
use projet_reseau.Protocol.{Changes-keep}
use projet_reseau.Protocol.Rounds.{IsNew, at_text, work-Changes, round-Changes}
use projet_reseau.Protocol.Ready.{IsTimelyEvent}
use projet_reseau.Protocol.Unlink.{IsClear}
use projet_reseau.Protocol.Linked.{IsNewRun}
use projet_reseau.Protocol.Overdue.{IsOnTime, Change-IsOnTime}
use projet_reseau.Protocol.Punctual.{IsPunctual, flood_messages-IsPunctual}

run-IsOnTime :
    (base : ℕ) (evs : List Event) (s : State)
    → IsClear base
    → All (IsTimelyEvent base) evs
    → IsNewRun evs s
    → IsValid s.peer
    → IsOnTime base s.peer
    → IsValid (run evs s).peer × IsOnTime base (run evs s).peer
unfolding run
run-IsOnTime base [] s c h new v l = (v, l)
run-IsOnTime base (ev ∷ evs) s c h new v l =
    run-IsOnTime base evs (round ev s) c h.1 new.1 (round-IsValid ev s h.0.0 v) (
      Changes-keep (IsOnTime base) (Change-IsOnTime base 0 ev.env c h.0.1) s.peer (round ev s).peer
        (round-Changes true ev s h.0.0 (λ _. new.0) v) l)

-- After any run of the loop of main.c from a valid state whose floods are linked and in the order of
-- their times, near a time that is clear, over events that the system can give at times near it,
-- where each text typed gets an index that is not in `DATAF`: at the end of the round of one more
-- such event, every flood that `DATAF` holds before the transmissions of the round is still there,
-- and each of its entries has a time later than the clock, so that no transmission is overdue.
pub run-IsPunctual :
    (base : ℕ) (evs : List Event) (ev : Event) (s : State)
    → IsClear base
    → All (IsTimelyEvent base) evs
    → IsNewRun evs s
    → IsTimelyEvent base ev
    → IsNew ev.env ev.typed (at_text ev (run evs s))
    → IsValid s.peer
    → IsOnTime base s.peer
    → (j : ℕ) → j < length (work ev (run evs s)).peer.dataf.entries
    → At (IsPunctual ev.env.now) j (round ev (run evs s)).peer.dataf.entries
unfolding round
run-IsPunctual base evs ev s c hs news h new v l j b =
    let t = run evs s in
    let (v', l') = run-IsOnTime base evs s c hs news v l in
    let worked = work-Changes true ev t h.0 (λ _. new) v' in
    let on_time =
      Changes-keep (IsOnTime base) (Change-IsOnTime base 0 ev.env c h.1) t.peer (work ev t).peer
        worked l' in
    flood_messages-IsPunctual base ev.env (work ev t).peer c h.1 (work-IsValid ev t h.0 v') on_time
      j b
