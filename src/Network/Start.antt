-- ===== src/Network/Start.antt =====
-- The peers at the start of the loops of their programs: all that they have sent is short hellos.
use projet_reseau.Prelude.{
  ℕ, ◌≡◌, refl, sym, ◌∙◌, subst, List, [], ◌∷◌, All, arith, Option, none, some,
}
use projet_reseau.Prelude.Int.{ℤ}
use projet_reseau.Bytes.{le_bytes, length-le_bytes}
use projet_reseau.Neighbor.{Addr}
use projet_reseau.Net.Buffer.Everyone.{All-append}
use projet_reseau.Peer.Valid.{IsValid}
use projet_reseau.Sockets.{init_socket_client_udp_v2}
use projet_reseau.Main.{State, init_peer}
use projet_reseau.Startup as Startup
use projet_reseau.Startup.{Started, first_peer, greet, start_at, startup}
use projet_reseau.Startup.Valid.{
  short_hello, hellos, found_at, greet-sent, started, started-IsValid,
}
use projet_reseau.Integrity.{control-IsBody}
use projet_reseau.Integrity.Sends.{IsPacketOf}
use projet_reseau.Integrity.Peers.{IsFaithful}

-- The state in which the loop of a program begins.
abbrev pub IsStarted : State → Type 0
IsStarted s =
    (sys : Startup.System) × (argv : List (List ℕ)) × (x : Started) × (startup sys argv ≡ some x)
    × (x.state ≡ s)

start_state :
    (sys : Startup.System) (argv : List (List ℕ)) (soc : Option ℤ) (x : Started)
    → start_at sys argv soc ≡ some x
    → x.state ≡ started sys argv
unfolding start_at started
start_state sys argv none x e = ground arith
start_state sys argv (some soc) x e = ground arith

module _ (T : List ℕ → Type 0) where
  hellos-IsPacketOf : (found : List Addr) (id : ℕ) → All (IsPacketOf T) (hellos found id)
  unfolding hellos
  hellos-IsPacketOf [] id = tt
  hellos-IsPacketOf (a ∷ found) id =
      let body =
        control-IsBody T 2 8 (le_bytes 8 id) (length-le_bytes 8 id) (omega arith) (omega arith) in
      (
        (a, short_hello id, refl, omega (arith, length-le_bytes 8 id), body),
        hellos-IsPacketOf found id,
      )

  started-IsFaithful :
      (sys : Startup.System) (argv : List (List ℕ)) → IsFaithful T (started sys argv).peer
  unfolding started init_peer
  started-IsFaithful sys argv =
      let found = sys.getaddrinfo (first_peer argv).0 (first_peer argv).1 in
      let p = init_peer sys.rand in
      subst (IsFaithful T) (sym (greet-sent found p)) (record {
        waits = tt;
        waits_potential = tt;
        packets = All-append (IsPacketOf T) [] _ tt (hellos-IsPacketOf (found_at found) p.id);
        floods = tt;
        texts = tt;
      })

  -- Such a peer is in a valid state, and holds, has sent and has shown no texts.
  pub IsStarted-IsSafe : (s : State) → IsStarted s → IsValid s.peer × IsFaithful T s.peer
  unfolding startup
  IsStarted-IsSafe s (sys, argv, x, e, same) =
      let here : started sys argv ≡ s =
        sym (start_state sys argv (init_socket_client_udp_v2 sys.soc sys.rc) x e) ∙ same in
      (
        subst (λ (t : State). IsValid t.peer) here (started-IsValid sys argv),
        subst (λ (t : State). IsFaithful T t.peer) here (started-IsFaithful sys argv),
      )
