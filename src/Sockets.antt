-- ===== src/Sockets.antt =====
-- net_lib.c, lines 18 to 26, 60 to 70 and 201 to 218: sockets and their addresses. What the system
-- calls return is an argument.
use projet_reseau.Prelude.{
  ℕ, zero, suc, ◌+◌, ◌-◌, ◌%◌, ◌^◌, ◌≤◌, ◌<◌, ◌≡◌, refl, sym, ap, List, [], ◌∷◌, ◌++◌, Option, none,
  some, map, leb, Bool-cases, Bool, true, false, arith, if◌then◌else◌, ltb, take, length,
  length-append, take_all, inl, inr, length-take,
}
use projet_reseau.Prelude.Int.{ℤ, pos, negsuc}
use projet_reseau.Bytes.{htons, ntohs, ntohs-htons}
use projet_reseau.Neighbor.{Neighbor}

-- `struct sockaddr_in6`: the port is in network order.
pub record SockAddr : Type 0 where
  pub sin6_family : ℕ
  pub sin6_port : ℕ
  pub sin6_flowinfo : ℕ
  pub sin6_addr : List ℕ
  pub sin6_scope_id : ℕ

-- `AF_INET6` and `PF_INET6` of the system.
abbrev pub af_inet6 : ℕ
af_inet6 = 10

unfoldable pub sockaddr6_to_neighbor : SockAddr → Neighbor
unfolding ntohs
sockaddr6_to_neighbor saddr = record {
  addr = record { ip = take 16 saddr.sin6_addr; port = ntohs saddr.sin6_port };
  msg = none;
}

unfoldable pub neighbor_to_sockaddr6 : Neighbor → SockAddr
neighbor_to_sockaddr6 neighbor = record {
  sin6_family = af_inet6;
  sin6_port = htons neighbor.port;
  sin6_flowinfo = 0;
  sin6_addr = take 16 neighbor.ip;
  sin6_scope_id = 0;
}

-- The address of a neighbour survives the way through a `sockaddr_in6` and back; the buffer does
-- not.
pub sockaddr6_to_neighbor-neighbor_to_sockaddr6 :
    (n : Neighbor)
    → length n.ip ≡ 16
    → n.port < 65536
    → sockaddr6_to_neighbor (neighbor_to_sockaddr6 n) ≡ record n { msg = none }
unfolding sockaddr6_to_neighbor neighbor_to_sockaddr6 ntohs
sockaddr6_to_neighbor-neighbor_to_sockaddr6 n h b =
    ground (arith, take_all 16 n.ip, take_all 16 (take 16 n.ip), ntohs-htons n.port b)

-- An answer goes to the address that a datagram came from, without its flow and its scope.
pub neighbor_to_sockaddr6-sockaddr6_to_neighbor :
    (a : SockAddr)
    → length a.sin6_addr ≡ 16
    → a.sin6_port < 65536
    → neighbor_to_sockaddr6 (sockaddr6_to_neighbor a)
      ≡ record a { sin6_family = af_inet6; sin6_flowinfo = 0; sin6_scope_id = 0 }
unfolding sockaddr6_to_neighbor neighbor_to_sockaddr6 ntohs
neighbor_to_sockaddr6-sockaddr6_to_neighbor a h b =
    ground
      (arith, take_all 16 a.sin6_addr, take_all 16 (take 16 a.sin6_addr), ntohs-htons a.sin6_port b)

-- `socket` returns `soc` and `setsockopt` returns `rc`; none where the program exits.
unfoldable pub init_socket_client_udp_v2 : ℤ → ℤ → Option ℤ
init_socket_client_udp_v2 soc (pos rc) = some soc
init_socket_client_udp_v2 soc (negsuc rc) = none

-- What a round of `read_socket` meets: a `select` that runs out of time, or one after which `read`
-- gives these bytes, at most as many as it is asked for, or fails.
pub data Poll : Type 0 where
  timeout : Poll
  bytes : List ℕ → Poll
  failure : Poll

-- The bytes that `read` stores, and the next value of the `unsigned int` variable `count`.
abbrev pub stored : ℕ → ℕ → Poll → List ℕ
stored size count timeout = []
stored size count (bytes bs) = take (size - count) bs
stored size count failure = []

abbrev pub counted : ℕ → ℕ → Poll → ℕ
counted size count timeout = count
counted size count (bytes bs) = (count + length (take (size - count) bs)) % 2 ^ 32
counted size count failure = (count + 2 ^ 32 - 1) % 2 ^ 32

abbrev pub is_timeout : Poll → Bool
is_timeout timeout = true
is_timeout _ = false

-- The loop over what the rounds meet, in their order: the result and the bytes stored one behind
-- the other, or none where the loop goes on after the last of them.
unfoldable pub read_socket : ℕ → ℕ → List Poll → Option (ℕ × List ℕ)
read_socket size count [] = if ltb count size then none else some (1, [])
read_socket size count (p ∷ ps) =
    let rest = read_socket size (counted size count p) ps in
    let more : Option (ℕ × List ℕ) = elim rest [
      | none ↦ none
      | some (rc, bs) ↦ some (rc, stored size count p ++ bs)
    ] in
    if ltb count size then (if is_timeout p then some (0, []) else more) else some (1, [])

-- The bytes of the rounds, one behind the other.
unfoldable pub joined : List (List ℕ) → List ℕ
joined [] = []
joined (new ∷ rest) = new ++ joined rest

take-append-drop :
    (n : ℕ) (xs ys : List ℕ) → take n (xs ++ ys) ≡ take n xs ++ take (n - length xs) ys
take-append-drop zero [] ys = refl
take-append-drop zero (x ∷ xs) ys = rw (let e : 0 - suc (length xs) ≡ 0 = omega arith in e) refl
take-append-drop (suc n) [] ys = let e : suc n - 0 ≡ suc n = omega arith in rw e refl
take-append-drop (suc n) (x ∷ xs) ys =
    let e : suc n - suc (length xs) ≡ n - length xs = omega arith in
    rw e (ap (◌∷◌ x) (take-append-drop n xs ys))

-- Some, with all the bytes that are wanting, where there are enough.
abbrev pub wanted : ℕ → ℕ → List ℕ → Option (ℕ × List ℕ)
wanted size count stream =
    if leb size (count + length stream) then some (1, take (size - count) stream) else none

wanted-more :
    (size count : ℕ) (new stream : List ℕ)
    → size < 2 ^ 32
    → count < size
    → (elim (wanted size (counted size count (bytes new)) stream) [
      | none ↦ none
      | some (rc, bs) ↦ some (rc, take (size - count) new ++ bs)
    ])
      ≡ wanted size count (new ++ stream)
wanted-more size count new stream h b =
    let got = take (size - count) new in
    let n = length-take (size - count) new in
    let sum : (count + length got) % 2 ^ 32 ≡ count + length got = omega (arith, n) in
    let left : size - (count + length got) ≡ size - count - length new = omega (arith, n) in
    let total = length-append new stream in
    elim (Bool-cases (leb size (count + length got + length stream))) [
      | inl e ↦
          let enough : leb size (count + length (new ++ stream)) ≡ true =
            ground (arith, n, total) in
          rw (sum, e, enough, left)
            (ap (λ t. some (1, t)) (sym (take-append-drop (size - count) new stream)))
      | inr e ↦
          let few : leb size (count + length (new ++ stream)) ≡ false = ground (arith, n, total) in
          rw (sum, e, few) refl
    ]

wanted-full :
    (size count : ℕ) (stream : List ℕ)
    → ltb count size ≡ false
    → some (1, []) ≡ wanted size count stream
wanted-full size count stream full =
    let enough : leb size (count + length stream) ≡ true = ground arith in
    let nothing : size - count ≡ 0 = ground arith in rw (enough, nothing) refl

-- Where every round gives bytes, and the size fits an `unsigned int`: the loop from `count` bytes on
-- stores the first bytes of the stream until the size is reached, however the stream comes in
-- parts, and returns 1; it goes on where there are not enough.
pub read_socket-streams :
    (size count : ℕ) (parts : List (List ℕ))
    → size < 2 ^ 32
    → count ≤ size
    → read_socket size count (map bytes parts) ≡ wanted size count (joined parts)
unfolding read_socket joined
read_socket-streams size count [] h b = elim (Bool-cases (ltb count size)) [
  | inl less ↦ let few : leb size (count + 0) ≡ false = ground arith in rw (less, few) refl
  | inr full ↦ rw full (wanted-full size count [] full)
]
read_socket-streams size count (new ∷ rest) h b =
    let later =
      read_socket-streams size (counted size count (bytes new)) rest h
        (omega (arith, length-take (size - count) new)) in
    elim (Bool-cases (ltb count size)) [
      | inl less ↦ rw (less, later) (wanted-more size count new (joined rest) h (ground arith))
      | inr full ↦ rw full (wanted-full size count (new ++ joined rest) full)
    ]

-- A first `read` that fails ends the loop with 1 and no byte stored.
pub read_socket-failure :
    (size : ℕ) (ps : List Poll)
    → 0 < size
    → size < 2 ^ 32
    → read_socket size 0 (failure ∷ ps) ≡ some (1, [])
unfolding read_socket
read_socket-failure size [] h b = ground arith
read_socket-failure size (p ∷ ps) h b = ground arith
