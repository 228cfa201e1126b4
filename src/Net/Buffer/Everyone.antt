-- ===== src/Net/Buffer/Everyone.antt =====
-- The sends to a whole tree: they change nothing but the buffers, keep these within a datagram, and
-- send well-formed messages only.
use projet_reseau.Prelude.{
  ℕ, ◌+◌, ◌-◌, ◌≤◌, ◌≡◌, refl, sym, subst, List, [], ◌∷◌, ◌++◌, Option, none, some, inl, inr,
  length, All, arith, Ordering-cases, take_all, length-take,
}
use projet_reseau.Bytes.{le_bytes, htons, ntohs-htons}
use projet_reseau.Neighbor.{Addr, Neighbor, Ident, MessageH, compare_n}
use projet_reseau.Abr.{Tree, leaf, node}
use projet_reseau.Abr.Order as Abr
use projet_reseau.Tlv.Format.{length-pair}
use projet_reseau.Flood.{pmtu}
use projet_reseau.Net.{
  Datagram, send_message, message, flush, send_to_everyone, send_to_everyone_now,
  send_hello_everyone, hello_message, send_via,
}
use projet_reseau.Net.Buffer.{
  IsSoundAt, Carries, Sends, Flushes, waiting_at, send_message_lem, flush_lem, packet, used,
}

-- A datagram that `handle_message_h` accepts, of at most 1232 bytes.
abbrev pub IsPacket : Datagram → Type 0
IsPacket d =
    (body : List ℕ) × (d.bytes ≡ 93 ∷ 2 ∷ (le_bytes 2 (htons (length body)) ++ body))
    × (length body ≤ pmtu - 4)

-- An address has 16 bytes, and the buffer fits a datagram.
abbrev pub IsGood : Neighbor → Type 0
IsGood k = (length k.ip ≡ 16) × IsSoundAt k.msg

-- The tree without its buffers.
unfoldable pub strip : Tree → Tree
strip leaf = leaf
strip (node k v l r) = node (record k { msg = none }) v (strip l) (strip r)

-- A call that only changes buffers, and sends well-formed messages.
pub record Keeps (t : Tree) (result : Tree × List Datagram) : Type 0 where
  pub same_tree : strip result.0 ≡ strip t
  pub good : Abr.All IsGood result.0
  pub packets : All IsPacket result.1

pub All-append {ℓ κ} :
    {A : Type ℓ} (P : A → Type κ) (xs ys : List A) → All P xs → All P ys → All P (xs ++ ys)
All-append P [] ys p q = q
All-append P (x ∷ xs) ys p q = (p.0, All-append P xs ys p.1 q)

-- The visit of one neighbour.
pub record KeepsKey (k : Neighbor) (result : Neighbor × List Datagram) : Type 0 where
  pub same_addr : result.0.addr ≡ k.addr
  pub good : IsGood result.0
  pub packets : All IsPacket result.1

waiting_small : (msg : Option MessageH) → IsSoundAt msg → length (waiting_at msg) ≤ pmtu - 4
waiting_small none s = omega arith
waiting_small (some m) s = omega (arith, length-take (used m) m.body, s.small)

one_packet :
    (dest : Addr) (body : List ℕ) (sent : List Datagram)
    → length body ≤ pmtu - 4
    → sent ≡ packet dest body ∷ []
    → All IsPacket sent
one_packet dest body sent h e = subst (All IsPacket) (sym e) ((body, refl, h), tt)

Sends-packets :
    (k : Neighbor) (body : List ℕ) (result : Neighbor × List Datagram)
    → length body ≤ pmtu - 4
    → IsSoundAt k.msg
    → Sends k body result
    → All IsPacket result.1
Sends-packets k body result h s (inl (_, _, e)) = one_packet k.addr body _ h e
Sends-packets k body result h s (inr (inl (e, _))) = subst (All IsPacket) (sym e) tt
Sends-packets k body result h s (inr (inr (e, _, _))) =
    one_packet k.addr _ _ (waiting_small k.msg s) e

Flushes-packets :
    (k : Neighbor) (result : Neighbor × List Datagram)
    → IsSoundAt k.msg
    → Flushes k result
    → All IsPacket result.1
Flushes-packets k result s (_, inl (_, e)) = subst (All IsPacket) (sym e) tt
Flushes-packets k result s (_, inr e) = one_packet k.addr _ _ (waiting_small k.msg s) e

pub message_KeepsKey :
    (buf : MessageH) (body : List ℕ) (k : Neighbor)
    → Carries buf body
    → IsGood k
    → KeepsKey k (send_message buf (length body + 4) k)
message_KeepsKey buf body k c g =
    let (ways, sound, same) = send_message_lem buf body k c g.1 in
    record {
      same_addr = same;
      good = (subst (λ a. length a.ip ≡ 16) (sym same) g.0, sound);
      packets = Sends-packets k body (send_message buf (length body + 4) k) c.fits g.1 ways;
    }

flush-KeepsKey : (k : Neighbor) → IsGood k → KeepsKey k (flush k)
flush-KeepsKey k g =
    let (ways, sound, same) = flush_lem k g.1 in
    record {
      same_addr = same;
      good = (subst (λ a. length a.ip ≡ 16) (sym same) g.0, sound);
      packets = Flushes-packets k (flush k) g.1 ways;
    }

Keeps-node :
    (k : Neighbor) (v : Ident) (l r : Tree) (at_k : Neighbor × List Datagram)
    (at_l at_r : Tree × List Datagram)
    → KeepsKey k at_k
    → Keeps l at_l
    → Keeps r at_r
    → Keeps (node k v l r) (node at_k.0 v at_l.0 at_r.0, at_k.1 ++ (at_l.1 ++ at_r.1))
unfolding strip
Keeps-node k v l r at_k at_l at_r a b c = record {
  same_tree =
      λ i. node (record { addr = a.same_addr i; msg = none }) v (b.same_tree i) (c.same_tree i);
  good = (a.good, b.good, c.good);
  packets = All-append IsPacket _ _ a.packets (All-append IsPacket _ _ b.packets c.packets);
}

pub send_to_everyone-Keeps :
    (buf : MessageH) (body : List ℕ) (t : Tree)
    → Carries buf body
    → Abr.All IsGood t
    → Keeps t (send_to_everyone buf (length body + 4) t)
unfolding send_to_everyone
send_to_everyone-Keeps buf body leaf c g = record { same_tree = refl; good = tt; packets = tt }
send_to_everyone-Keeps buf body (node k v l r) c g =
    Keeps-node k v l r _ _ _ (message_KeepsKey buf body k c g.0)
      (send_to_everyone-Keeps buf body l c g.1) (send_to_everyone-Keeps buf body r c g.2)

pub send_to_everyone_now-Keeps : (t : Tree) → Abr.All IsGood t → Keeps t (send_to_everyone_now t)
unfolding send_to_everyone_now
send_to_everyone_now-Keeps leaf g = record { same_tree = refl; good = tt; packets = tt }
send_to_everyone_now-Keeps (node k v l r) g =
    Keeps-node k v l r _ _ _ (flush-KeepsKey k g.0) (send_to_everyone_now-Keeps l g.1)
      (send_to_everyone_now-Keeps r g.2)

-- A message whose body is exactly what it carries.
pub message-Carries :
    (body : List ℕ) → length body ≤ pmtu - 4 → Carries (message body (length body)) body
message-Carries body h = record {
  fits = h;
  sized = ntohs-htons (length body) (omega arith);
  order = refl;
  magic = refl;
  version = refl;
  held = take_all (length body) body (omega arith);
}

abbrev pub long_hello_body : ℕ → ℕ → List ℕ
long_hello_body id dest_id = 2 ∷ 16 ∷ (le_bytes 8 id ++ le_bytes 8 dest_id)

pub length-long_hello : (id dest_id : ℕ) → length (long_hello_body id dest_id) ≡ 18
length-long_hello id dest_id = omega (arith, length-pair 8 8 id dest_id)

pub hello_lem :
    (id dest_id : ℕ)
    → let body = long_hello_body id dest_id in
      hello_message id dest_id ≡ (message body (length body), length body + 4)
unfolding hello_message
hello_lem id dest_id = rw (length-pair 8 8 id dest_id)

hello_KeepsKey :
    (id dest_id : ℕ) (k : Neighbor)
    → IsGood k
    → KeepsKey k (send_message (hello_message id dest_id).0 (hello_message id dest_id).1 k)
hello_KeepsKey id dest_id k g =
    let body = long_hello_body id dest_id in
    let small : length body ≤ pmtu - 4 = omega (arith, length-long_hello id dest_id) in
    subst (λ m. KeepsKey k (send_message m.0 m.1 k)) (sym (hello_lem id dest_id))
      (message_KeepsKey (message body (length body)) body k (message-Carries body small) g)

pub send_hello_everyone-Keeps :
    (id : ℕ) (t : Tree) → Abr.All IsGood t → Keeps t (send_hello_everyone id t)
unfolding send_hello_everyone
send_hello_everyone-Keeps id leaf g = record { same_tree = refl; good = tt; packets = tt }
send_hello_everyone-Keeps id (node k v l r) g =
    Keeps-node k v l r _ _ _ (hello_KeepsKey id v.id k g.0) (send_hello_everyone-Keeps id l g.1)
      (send_hello_everyone-Keeps id r g.2)

pub send_via-Keeps :
    (a : Addr) (buf : MessageH) (body : List ℕ) (t : Tree)
    → Carries buf body
    → Abr.All IsGood t
    → Keeps t (send_via a buf (length body + 4) t)
unfolding send_via strip
send_via-Keeps a buf body leaf c g = record { same_tree = refl; good = tt; packets = tt }
send_via-Keeps a buf body (node k v l r) c g = elim (Ordering-cases (compare_n k.addr a)) [
  | inl e ↦
      let below = send_via-Keeps a buf body r c g.2 in
      rw (e, send_via)
        (record {
          same_tree = λ i. node (record k { msg = none }) v (strip l) (below.same_tree i);
          good = (g.0, g.1, below.good);
          packets = below.packets;
        })
  | inr (inl e) ↦
      let here = message_KeepsKey buf body k c g.0 in
      rw (e, send_via)
        (record {
          same_tree =
              λ i. node (record { addr = here.same_addr i; msg = none }) v (strip l) (strip r);
          good = (here.good, g.1, g.2);
          packets = here.packets;
        })
  | inr (inr e) ↦
      let below = send_via-Keeps a buf body l c g.1 in
      rw (e, send_via)
        (record {
          same_tree = λ i. node (record k { msg = none }) v (below.same_tree i) (strip r);
          good = (g.0, below.good, g.2);
          packets = below.packets;
        })
]
