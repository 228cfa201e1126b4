-- ===== src/Receive/Hello.antt =====
-- What a hello makes of `NEIGHBORS`.
use projet_reseau.Prelude.{
  ℕ, ◌≤◌, ◌≡◌, ◌≢◌, refl, sym, ap, ◌∙◌, List, length, take, drop, arith, Bool, Bool-cases, inl, inr,
  ◌==◌, if◌then◌else◌, not, ◌||◌, true, false, Option, some,
}
use projet_reseau.Bytes.{le_value}
use projet_reseau.Neighbor.{Addr, Neighbor, Ident, same}
use projet_reseau.Neighbor.Order.{compare_n_refl}
use projet_reseau.Abr.{Tree, leaf, node, get_ident, add_neighbor, issymmetrical, fresh_message}
use projet_reseau.Abr.Lookup.{merged, get_ident-add}
use projet_reseau.Net.{Datagram, send_hello_everyone}
use projet_reseau.Net.Buffer.Everyone.{Keeps, strip, send_hello_everyone-Keeps}
use projet_reseau.Peer.{Env, Peer}
use projet_reseau.Peer.Valid.{IsValid}
use projet_reseau.Receive.{meet, hello}
use projet_reseau.Receive.Meeting.{add_neighbor-lem}

get_ident-strip : (t : Tree) (q : Addr) → get_ident (strip t) q ≡ get_ident t q
unfolding get_ident strip
get_ident-strip leaf q = refl
get_ident-strip (node k v l r) q = ground (arith, get_ident-strip l q, get_ident-strip r q)

-- Sends leave what the tree holds.
pub Keeps-get_ident :
    (t : Tree) (result : Tree × List Datagram) (q : Addr)
    → Keeps t result
    → get_ident result.0 q ≡ get_ident t q
Keeps-get_ident t result q k =
    sym (get_ident-strip result.0 q) ∙ ap (λ u. get_ident u q) k.same_tree ∙ get_ident-strip t q

-- `get_ident` after the insertion of `val` for `k`.
abbrev pub updated : Tree → Addr → Ident → Addr → Option Ident
updated t k val q = if same k q then some (merged (get_ident t k) (some val)) else get_ident t q

meet-get_ident :
    (env : Env) (k : Neighbor) (val : Ident) (p : Peer) (q : Addr)
    → length k.ip ≡ 16
    → IsValid p
    → get_ident (meet env k val p).neighbors q ≡ updated p.neighbors k.addr val q
unfolding meet
meet-get_ident env k val p q h v =
    let added = add_neighbor true (some env.junk) p.neighbors k (some val) in
    let (_, g) = add_neighbor-lem env.junk p.neighbors k val h v.ordered v.good in
    let new = record k { msg = some (fresh_message env.junk) } in
    let found : get_ident added.0 q ≡ updated p.neighbors k.addr val q =
      unfold add_neighbor in get_ident-add p.neighbors new (some val) q in
    let sent = send_hello_everyone-Keeps p.id added.0 g in
    elim (Bool-cases (added.1 == 1)) [
      | inl e ↦ rw e (Keeps-get_ident added.0 (send_hello_everyone p.id added.0) q sent ∙ found)
      | inr e ↦ rw e found
    ]

-- Whether a hello is for this peer: a short one is for all.
abbrev pub accepted : List ℕ → ℕ → Peer → Bool
accepted tlv len p = not (len == 16) || (le_value (take 8 (drop 8 tlv)) == p.id)

-- What a hello says of its sender.
abbrev pub greeting : Env → List ℕ → ℕ → Ident
greeting env tlv len = record {
  id = le_value (take 8 tlv);
  last_hello = env.now;
  last_hello_long = if len == 16 then env.now else 0;
}

-- In a valid state, for a sender with an address of 16 bytes: a hello for this peer sets the
-- identity of a new sender and the times of any sender, and no other neighbour changes; a long
-- hello to another identity changes no neighbour.
pub hello-get_ident :
    (env : Env) (tlv : List ℕ) (len : ℕ) (k : Neighbor) (p : Peer) (q : Addr)
    → length k.ip ≡ 16
    → IsValid p
    → get_ident (hello env tlv len k p).neighbors q ≡ (
        if accepted tlv len p
        then updated p.neighbors k.addr (greeting env tlv len) q
        else get_ident p.neighbors q)
unfolding hello
hello-get_ident env tlv len k p q h v = elim (Bool-cases (len == 16)) [
  | inl e ↦ elim (Bool-cases (le_value (take 8 (drop 8 tlv)) == p.id)) [
    | inl d ↦ rw (e, d) (meet-get_ident env k _ p q h v)
    | inr d ↦ rw (e, d) refl
  ]
  | inr e ↦ rw e (meet-get_ident env k _ p q h v)
]

-- In a valid state, for a sender with an address of 16 bytes, at 120 seconds or later: after a
-- hello that is not long the sender is a neighbour just heard, and it is not symmetrical, whatever
-- it was before.
pub short_hello-issymmetrical :
    (env : Env) (tlv : List ℕ) (len : ℕ) (k : Neighbor) (p : Peer)
    → length k.ip ≡ 16
    → IsValid p
    → len ≢ 16
    → 120 ≤ env.now
    → (val : Ident) × (get_ident (hello env tlv len k p).neighbors k.addr ≡ some val)
      × (val.last_hello ≡ env.now)
      × (issymmetrical env.now val ≡ false)
unfolding issymmetrical
short_hello-issymmetrical env tlv len k p h v short late =
    let old = get_ident p.neighbors k.addr in
    let found = hello-get_ident env tlv len k p k.addr h v in
    (
      merged old (some (greeting env tlv len)),
      ground (arith, found, compare_n_refl k.addr),
      ground arith,
      ground arith,
    )

-- In a valid state, for a sender with an address of 16 bytes: after a long hello to the identity
-- of this peer the sender is a neighbour just heard, and it is symmetrical.
pub long_hello-issymmetrical :
    (env : Env) (tlv : List ℕ) (k : Neighbor) (p : Peer)
    → length k.ip ≡ 16
    → IsValid p
    → le_value (take 8 (drop 8 tlv)) ≡ p.id
    → (val : Ident) × (get_ident (hello env tlv 16 k p).neighbors k.addr ≡ some val)
      × (val.last_hello ≡ env.now)
      × (issymmetrical env.now val ≡ true)
unfolding issymmetrical
long_hello-issymmetrical env tlv k p h v e =
    let old = get_ident p.neighbors k.addr in
    let found = hello-get_ident env tlv 16 k p k.addr h v in
    (
      merged old (some (greeting env tlv 16)),
      ground (arith, found, compare_n_refl k.addr),
      ground arith,
      ground arith,
    )
