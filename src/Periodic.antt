-- ===== src/Periodic.antt =====
-- net_lib.c: what the peer sends and drops from time to time, every 30 seconds.
pub mod Valid
pub mod Farewell
use projet_reseau.Prelude.{
  ℕ, ◌+◌, ◌-◌, ◌%◌, ◌^◌, List, [], ◌∷◌, ◌++◌, if◌then◌else◌, ltb, blit, length, replicate, Bool,
}
use projet_reseau.Prelude.Int.{pos, negsuc}
use projet_reseau.Neighbor.{Addr}
use projet_reseau.Abr.{Tree, leaf, node, is_old, remove_neighbor}
use projet_reseau.Genlist.{GenList}
use projet_reseau.Tlv.{Written, tlv_short_hello, tlv_neighbour, tlv_goaway}
use projet_reseau.Flood.{NgbEntry, pmtu, find_by, get_symmetrical}
use projet_reseau.Net.{Datagram, message, size_of, send_to_everyone, send_hello_everyone, send_via}
use projet_reseau.Peer.{Env, Peer, with_neighbors, with_potential, remove_neighbor_everywhere}

-- The body of a `struct message_h` that is set to 0.
unfoldable pub zero_body : List ℕ
zero_body = replicate 4096 0

-- The loop of `send_symetrical_everyone`: the body of the message so far, and its size. The room
-- that is left is a `size_t`.
unfoldable pub send_symmetric : List NgbEntry → List ℕ → ℕ → Tree → Tree × List Datagram
send_symmetric [] body size people =
    if ltb 0 size then send_to_everyone (message body size) (size + 4) people else (people, [])
send_symmetric (tmp ∷ sym) body size people =
    let w = tlv_neighbour ((pmtu - 4 + 2 ^ 64 - size) % 2 ^ 64) tmp.sym in
    let fits = send_symmetric sym (blit size w.bytes body) (size + 20) people in
    let (people', out) = send_to_everyone (message body size) (size + 4) people in
    let again = tlv_neighbour (pmtu - 4) tmp.sym in
    let (people'', out') = send_symmetric sym (blit 0 again.bytes body) 20 people' in
    elim (w.ret) [ pos n ↦ fits | negsuc n ↦ (people'', out ++ out') ]

unfoldable pub send_symetrical_everyone : Env → Peer → Peer
unfolding send_symmetric get_symmetrical zero_body
send_symetrical_everyone env p =
    let sym = (get_symmetrical env.now p.neighbors).entries in
    let p' = with_neighbors p (send_symmetric sym zero_body 0 p.neighbors) in
    record p' { nb_symetrical = length sym }

-- The parameter `people` of the C function is not used: the short hellos go to `POTENTIAL`.
unfoldable pub send_shorthello_everyone : Peer → Peer
unfolding tlv_short_hello send_to_everyone
send_shorthello_everyone p =
    let w = tlv_short_hello (pmtu - 4) p.id in
    with_potential p (send_to_everyone (message w.bytes (size_of w)) (size_of w + 4) p.potential)

-- A message to the neighbour behind a pointer into `NEIGHBORS`.
unfoldable pub send_to : Addr → Written → Peer → Peer
unfolding send_via
send_to sym w p =
    with_neighbors p (send_via sym (message w.bytes (size_of w)) (size_of w + 4) p.neighbors)

unfoldable pub goaway_old : List NgbEntry → Peer → Peer
unfolding send_to tlv_goaway remove_neighbor_everywhere
goaway_old [] p = p
goaway_old (ent ∷ sym) p =
    goaway_old sym
      (remove_neighbor_everywhere ent.sym (send_to ent.sym (tlv_goaway (pmtu - 4) 2 [] 0) p))

unfoldable pub send_goaway_asymetrical : Env → Peer → Peer
unfolding goaway_old find_by is_old
send_goaway_asymetrical env p = goaway_old (find_by env.now p.neighbors (is_old env.now)).entries p

unfoldable pub remove_potentials : List NgbEntry → Tree → Tree
unfolding remove_neighbor
remove_potentials [] t = t
remove_potentials (ent ∷ sym) t = remove_potentials sym (remove_neighbor ent.sym t)

unfoldable pub remove_old_potential : Env → Peer → Peer
unfolding remove_potentials find_by is_old
remove_old_potential env p = record p {
  potential = remove_potentials (find_by env.now p.potential (is_old env.now)).entries p.potential;
}
