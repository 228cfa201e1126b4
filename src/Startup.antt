-- ===== src/Startup.antt =====
-- main.c, lines 26 to 66: what the program does before its loop, and the program as a whole. What
-- the system calls return is an argument.
pub mod Valid
use projet_reseau.Prelude.{
  ℕ, zero, suc, ◌%◌, ◌^◌, List, [], ◌∷◌, Option, none, some, Bool, true, false, replicate,
}
use projet_reseau.Prelude.Int.{ℤ}
use projet_reseau.Prelude.Text.{codes}
use projet_reseau.Bytes.{htons}
use projet_reseau.Neighbor.{Addr}
use projet_reseau.Sockets.{SockAddr, af_inet6, init_socket_client_udp_v2}
use projet_reseau.Peer.{Peer}
use projet_reseau.Main.{State, Event, init_peer, send_first_message, run}
use projet_reseau.Gui.{Lws, Pipe, Service, handle_gui}

-- What the system gives: the results of `rand()`, the numbers that `atoi` reads, the addresses of a
-- host and a port, none where `getaddrinfo` fails, and the results of `socket` and `setsockopt`.
pub record System : Type 0 where
  pub rand : ℕ → ℕ
  pub atoi : List ℕ → ℕ
  pub getaddrinfo : List ℕ → List ℕ → Option (List Addr)
  pub soc : ℤ
  pub rc : ℤ
  pub memory : List ℕ

-- The address that the socket is bound to, for one argument or three: any, at a port.
unfoldable pub bound : System → List (List ℕ) → Option SockAddr
bound sys (prog ∷ port ∷ []) = some (record {
  sin6_family = af_inet6;
  sin6_port = htons (sys.atoi port % 2 ^ 16);
  sin6_flowinfo = 0;
  sin6_addr = replicate 16 0;
  sin6_scope_id = 0;
})
bound sys (prog ∷ port ∷ host ∷ service ∷ []) = some (record {
  sin6_family = af_inet6;
  sin6_port = htons (sys.atoi port % 2 ^ 16);
  sin6_flowinfo = 0;
  sin6_addr = replicate 16 0;
  sin6_scope_id = 0;
})
bound sys _ = none

-- The host and the port of the first message.
unfoldable pub first_peer : List (List ℕ) → List ℕ × List ℕ
first_peer (prog ∷ host ∷ service ∷ []) = (host, service)
first_peer (prog ∷ port ∷ host ∷ service ∷ []) = (host, service)
first_peer _ = (codes "jch.irif.fr", codes "1212")

-- Where `getaddrinfo` fails nothing is sent, and the program goes on.
abbrev pub greet : Option (List Addr) → Peer → Peer
greet none p = p
greet (some found) p = send_first_message found p

-- The socket, where it is bound, and the state at the start of the loop.
pub record Started : Type 0 where
  pub socket : ℤ
  pub address : Option SockAddr
  pub state : State

unfoldable pub start_at : System → List (List ℕ) → Option ℤ → Option Started
unfolding bound first_peer
start_at sys argv none = none
start_at sys argv (some soc) =
    let (host, service) = first_peer argv in
    some (record {
      socket = soc;
      address = bound sys argv;
      state = record {
        peer = greet (sys.getaddrinfo host service) (init_peer sys.rand);
        nexthello = 0;
        inbox = sys.memory;
      };
    })

-- `main` behind `handle_gui`, up to its loop.
unfoldable pub startup : System → List (List ℕ) → Option Started
unfolding start_at
startup sys argv = start_at sys argv (init_socket_client_udp_v2 sys.soc sys.rc)

abbrev pub run_from : List Event → Option Started → Option State
run_from evs none = none
run_from evs (some s) = some (run evs s.state)

-- `main` in one of the two processes: it gets to its loop where `handle_gui` returns.
unfoldable pub program :
    Lws → ℤ → Pipe → Pipe → List Service → System → List (List ℕ) → List Event → Option State
unfolding startup
program lws fork fd fd2 services sys argv evs = elim (handle_gui lws fork fd fd2 services) [
  | none ↦ none
  | some (g, returned) ↦ elim returned [ true ↦ run_from evs (startup sys argv) | false ↦ none ]
]
