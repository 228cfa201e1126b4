-- ===== src/Periodic/Valid.antt =====
-- The work of every 30 seconds keeps the invariant of the globals.
use projet_reseau.Prelude.{
  ℕ, ◌+◌, ◌-◌, ◌%◌, ◌^◌, ◌≤◌, ◌≡◌, refl, sym, ap, ◌∙◌, subst, ◌⊎◌, List, [], ◌∷◌, ◌++◌, All, length,
  length-take, length-drop, length-append, length-replicate, take, drop, blit, arith, Bool,
  Bool-cases, inl, inr, ltb, map,
}
use projet_reseau.Prelude.Int.{pos, minus_one}
use projet_reseau.Bytes.{le_bytes, htons, ntohs-htons, length-le_bytes}
use projet_reseau.Neighbor.{Addr, Ident}
use projet_reseau.Abr.{Tree, find_by_aux, is_old}
use projet_reseau.Abr.Order as Abr
use projet_reseau.Abr.Order.{IsOrdered}
use projet_reseau.Abr.Listing.{Each-find}
use projet_reseau.Tlv.{Written, tlv_neighbour, tlv_goaway}
use projet_reseau.Flood.{NgbEntry, pmtu, init_ngb_entry, find_by, get_symmetrical}
use projet_reseau.Flood.Entries.{find_by_lem}
use projet_reseau.Net.{Datagram, message, size_of, send_to_everyone, send_via}
use projet_reseau.Net.Buffer.{Carries}
use projet_reseau.Net.Buffer.Everyone.{
  IsPacket, IsGood, Keeps, All-append, message-Carries, send_to_everyone-Keeps, send_via-Keeps,
}
use projet_reseau.Peer.{Env, Peer}
use projet_reseau.Peer.Valid.{
  IsValid, with_neighbors-IsValid, with_potential-IsValid, remove_neighbor_everywhere-IsValid,
  remove_neighbor-IsOrdered, remove_neighbor-All,
}
use projet_reseau.Periodic.{
  zero_body, send_symmetric, send_symetrical_everyone, send_shorthello_everyone, send_to,
  goaway_old, send_goaway_asymetrical, remove_potentials, remove_old_potential,
}

-- The entry points to an address of 16 bytes.
abbrev pub IsEntry : NgbEntry → Type 0
IsEntry e = length e.sym.ip ≡ 16

All-entries :
    (now : ℕ) (keys : List Addr)
    → All (λ a. length a.ip ≡ 16) keys
    → All IsEntry (map (init_ngb_entry now) keys)
unfolding init_ngb_entry
All-entries now [] a = tt
All-entries now (k ∷ ks) a = (a.0, All-entries now ks a.1)

pub find_by-All :
    (now : ℕ) (t : Tree) (func : Ident → Bool)
    → Abr.All IsGood t
    → All IsEntry (find_by now t func).entries
find_by-All now t func g =
    subst (All IsEntry) (sym (find_by_lem now t func).0)
      (All-entries now (find_by_aux t func) (Each-find _ t func (Abr.All-imp (λ k h. h.0) t g)))

Keeps-trans :
    (t : Tree) (r1 r2 : Tree × List Datagram)
    → Keeps t r1
    → Keeps r1.0 r2
    → Keeps t (r2.0, r1.1 ++ r2.1)
Keeps-trans t r1 r2 a b = record {
  same_tree = b.same_tree ∙ a.same_tree;
  good = b.good;
  packets = All-append IsPacket r1.1 r2.1 a.packets b.packets;
}

-- The first bytes of a body, as many as the header says.
pub prefix-Carries :
    (body : List ℕ) (size : ℕ)
    → size ≤ pmtu - 4
    → size ≤ length body
    → Carries (message body size) (take size body)
prefix-Carries body size h b =
    let len : length (take size body) ≡ size = omega (arith, length-take size body) in
    record {
      fits = omega arith;
      sized = ntohs-htons size (omega arith) ∙ sym len;
      order = ap htons (sym len);
      magic = refl;
      version = refl;
      held = ap (λ n. take n body) len;
    }

pub prefix-Keeps :
    (body : List ℕ) (size : ℕ) (t : Tree)
    → size ≤ pmtu - 4
    → size ≤ length body
    → Abr.All IsGood t
    → Keeps t (send_to_everyone (message body size) (size + 4) t)
prefix-Keeps body size t h b g =
    let len : length (take size body) ≡ size = omega (arith, length-take size body) in
    subst (λ n. Keeps t (send_to_everyone (message body size) (n + 4) t)) len
      (send_to_everyone-Keeps (message body size) (take size body) t (prefix-Carries body size h b)
        g)

pub length-blit-ge :
    (n : ℕ) (src dst : List ℕ) → n ≤ length dst → length dst ≤ length (blit n src dst)
length-blit-ge n src dst h = omega (
  arith,
  length-append (take n dst) (src ++ drop (n + length src) dst),
  length-append src (drop (n + length src) dst),
  length-take n dst,
  length-drop (n + length src) dst,
)

-- A TLV in what is left of the message, or none because it is full.
pub room_cases :
    (size : ℕ) (a : Addr)
    → size ≤ pmtu - 4
    → ((tlv_neighbour ((pmtu - 4 + 2 ^ 64 - size) % 2 ^ 64) a).ret ≡ pos 20)
        × (size + 20 ≤ pmtu - 4)
      ⊎ ((tlv_neighbour ((pmtu - 4 + 2 ^ 64 - size) % 2 ^ 64) a).ret ≡ minus_one)
unfolding tlv_neighbour
room_cases size a h = ground arith

pub send_symmetric-Keeps :
    (sym' : List NgbEntry) (body : List ℕ) (size : ℕ) (t : Tree)
    → size ≤ pmtu - 4
    → pmtu - 4 ≤ length body
    → Abr.All IsGood t
    → Keeps t (send_symmetric sym' body size t)
unfolding send_symmetric
send_symmetric-Keeps [] body size t h b g = elim (Bool-cases (ltb 0 size)) [
  | inl e ↦ rw e (prefix-Keeps body size t h (omega arith) g)
  | inr e ↦ rw e (record { same_tree = refl; good = g; packets = tt })
]
send_symmetric-Keeps (tmp ∷ sym') body size t h b g =
    let w = tlv_neighbour ((pmtu - 4 + 2 ^ 64 - size) % 2 ^ 64) tmp.sym in
    let again = tlv_neighbour (pmtu - 4) tmp.sym in
    let first = prefix-Keeps body size t h (omega arith) g in
    let t' = (send_to_everyone (message body size) (size + 4) t).0 in
    elim (room_cases size tmp.sym h) [
      | inl (e, room) ↦
          rw (e, send_symmetric)
            (send_symmetric-Keeps sym' (blit size w.bytes body) (size + 20) t room
              (omega (arith, length-blit-ge size w.bytes body)) g)
      | inr e ↦
          rw (e, send_symmetric)
            (Keeps-trans t _ _ first (
              send_symmetric-Keeps sym' (blit 0 again.bytes body) 20 t' (omega arith)
                (omega (arith, length-blit-ge 0 again.bytes body)) first.good))
    ]

pub symmetric-Keeps :
    (env : Env) (p : Peer)
    → IsValid p
    → let es = (get_symmetrical env.now p.neighbors).entries in
      Keeps p.neighbors (send_symmetric es zero_body 0 p.neighbors)
symmetric-Keeps env p v =
    let es = (get_symmetrical env.now p.neighbors).entries in
    let body : pmtu - 4 ≤ length zero_body =
      unfold zero_body in omega (arith, length-replicate {A = ℕ} 4096 0) in
    send_symmetric-Keeps es zero_body 0 p.neighbors (omega arith) body v.good

pub send_symetrical_everyone-IsValid :
    (env : Env) (p : Peer) → IsValid p → IsValid (send_symetrical_everyone env p)
unfolding send_symetrical_everyone
send_symetrical_everyone-IsValid env p v =
    let w = with_neighbors-IsValid p _ (symmetric-Keeps env p v) v in
    record {
      ordered = w.ordered;
      ordered_potential = w.ordered_potential;
      good = w.good;
      good_potential = w.good_potential;
      counted = w.counted;
      bounded = w.bounded;
      compared = w.compared;
      floods = w.floods;
      packets = w.packets;
    }

-- A TLV that is a whole message.
pub send_to-Keeps :
    (sym' : Addr) (w : Written) (p : Peer)
    → size_of w ≡ length w.bytes
    → length w.bytes ≤ pmtu - 4
    → IsValid p
    → Keeps p.neighbors (send_via sym' (message w.bytes (size_of w)) (size_of w + 4) p.neighbors)
send_to-Keeps sym' w p e h v =
    let buf = message w.bytes (size_of w) in
    let carries : Carries buf w.bytes =
      subst (λ n. Carries (message w.bytes n) w.bytes) (sym e) (message-Carries w.bytes h) in
    subst (λ n. Keeps p.neighbors (send_via sym' buf (n + 4) p.neighbors)) (sym e)
      (send_via-Keeps sym' buf w.bytes p.neighbors carries v.good)

pub send_to-IsValid :
    (sym' : Addr) (w : Written) (p : Peer)
    → size_of w ≡ length w.bytes
    → length w.bytes ≤ pmtu - 4
    → IsValid p
    → IsValid (send_to sym' w p)
unfolding send_to
send_to-IsValid sym' w p e h v = with_neighbors-IsValid p _ (send_to-Keeps sym' w p e h v) v

goaway_old-IsValid : (es : List NgbEntry) (p : Peer) → IsValid p → IsValid (goaway_old es p)
unfolding goaway_old
goaway_old-IsValid [] p v = v
goaway_old-IsValid (e ∷ es) p v = goaway_old-IsValid es _ (
    remove_neighbor_everywhere-IsValid e.sym _
      (send_to-IsValid e.sym (tlv_goaway (pmtu - 4) 2 [] 0) p refl (omega arith) v))

pub send_goaway_asymetrical-IsValid :
    (env : Env) (p : Peer) → IsValid p → IsValid (send_goaway_asymetrical env p)
unfolding send_goaway_asymetrical
send_goaway_asymetrical-IsValid env p v =
    goaway_old-IsValid (find_by env.now p.neighbors (is_old env.now)).entries p v

remove_potentials_lem :
    (es : List NgbEntry) (t : Tree)
    → IsOrdered t
    → Abr.All IsGood t
    → IsOrdered (remove_potentials es t) × Abr.All IsGood (remove_potentials es t)
unfolding remove_potentials
remove_potentials_lem [] t s g = (s, g)
remove_potentials_lem (e ∷ es) t s g =
    remove_potentials_lem es _ (remove_neighbor-IsOrdered e.sym t s)
      (remove_neighbor-All IsGood e.sym t g)

pub remove_old_potential-IsValid :
    (env : Env) (p : Peer) → IsValid p → IsValid (remove_old_potential env p)
unfolding remove_old_potential
remove_old_potential-IsValid env p v =
    let (ordered, good) =
      remove_potentials_lem (find_by env.now p.potential (is_old env.now)).entries p.potential
        v.ordered_potential v.good_potential in
    record {
      ordered = v.ordered;
      ordered_potential = ordered;
      good = v.good;
      good_potential = good;
      counted = v.counted;
      bounded = v.bounded;
      compared = v.compared;
      floods = v.floods;
      packets = v.packets;
    }

pub send_shorthello_everyone-IsValid : (p : Peer) → IsValid p → IsValid (send_shorthello_everyone p)
unfolding send_shorthello_everyone
send_shorthello_everyone-IsValid p v =
    let body = 2 ∷ 8 ∷ le_bytes 8 p.id in
    let ten : length body ≡ 10 = omega (arith, length-le_bytes 8 p.id) in
    with_potential-IsValid p _
      (subst (λ n. Keeps p.potential (send_to_everyone (message body n) (n + 4) p.potential)) ten
        (send_to_everyone-Keeps (message body (length body)) body p.potential
          (message-Carries body (omega arith)) v.good_potential))
      v
