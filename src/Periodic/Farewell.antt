-- ===== src/Periodic/Farewell.antt =====
-- The GoAway to a neighbour that is dropped: it is put into the buffer of the neighbour, which is
-- freed with the neighbour.
use projet_reseau.Prelude.{
  ◌+◌, ◌-◌, ◌≤◌, ◌≡◌, refl, ap, ◌∙◌, [], ◌∷◌, ◌++◌, append-nil, length, Option, none, some, lt, eq,
  gt, arith, List, true, false, inl, inr, if◌then◌else◌, Bool-cases, sym, map, subst, ◌<◌,
  Ordering-cases, ℕ,
}
use projet_reseau.Neighbor.{Addr, Neighbor, Ident, MessageH, compare_n, same}
use projet_reseau.Neighbor.Order.{compare_n-eq, compare_n-gt, compare_n-lt, compare_n_trans}
use projet_reseau.Abr.{Tree, leaf, node, get_ident, is_old, find_by_aux, remove_neighbor}
use projet_reseau.Abr.Listing.{contains, contains-find_by}
use projet_reseau.Abr.Order.{IsOrdered}
use projet_reseau.Abr.Order as Abr
use projet_reseau.Tlv.{Written, tlv_goaway}
use projet_reseau.Bytes.{ntohs-htons}
use projet_reseau.Flood.{NgbEntry, pmtu, find_by, init_ngb_entry}
use projet_reseau.Flood.Entries.{find_by_lem}
use projet_reseau.Net.{size_of, message, send_via, send_message, send_message_now, Datagram}
use projet_reseau.Net.Buffer.{used}
use projet_reseau.Peer.{Env, Peer, indices, remove_neighbor_everywhere}
use projet_reseau.Peer.Valid.{IsValid, remove_neighbor_everywhere-IsValid, remove_neighbor-All}
use projet_reseau.Peer.Removal.{remove_neighbor_everywhere-get_ident, floods_only}
use projet_reseau.Periodic.{send_to, goaway_old, send_goaway_asymetrical}
use projet_reseau.Periodic.Valid.{send_to-IsValid, send_to-Keeps}
use projet_reseau.Receive.Hello.{Keeps-get_ident}

-- The buffer of a neighbour of the tree.
unfoldable pub buffer_at : Tree → Addr → Option MessageH
buffer_at leaf a = none
buffer_at (node k v l r) a = elim (compare_n k.addr a) [
  | eq ↦ k.msg
  | gt ↦ buffer_at l a
  | lt ↦ buffer_at r a
]

-- Where the buffer has room, a message through the pointer is not sent now.
send_via_waits :
    (a : Addr) (buf m : MessageH) (taille : ℕ) (t : Tree)
    → buffer_at t a ≡ some m
    → used m + used buf + 4 ≤ pmtu
    → (send_via a buf taille t).1 ≡ []
unfolding send_via buffer_at send_message
send_via_waits a buf m taille leaf e h = refl
send_via_waits a buf m taille (node k v l r) e h =
    ground (arith, send_via_waits a buf m taille l, send_via_waits a buf m taille r)

-- A TLV for which the buffer of the neighbour has room is not sent now.
pub send_to_waits :
    (a : Addr) (w : Written) (m : MessageH) (p : Peer)
    → size_of w ≡ length w.bytes
    → IsValid p
    → buffer_at p.neighbors a ≡ some m
    → used m + length w.bytes ≤ pmtu - 4
    → ((send_to a w p).sent ≡ p.sent) × IsOrdered (send_to a w p).neighbors
unfolding send_to
send_to_waits a w m p s v e h =
    let buf = message w.bytes (size_of w) in
    let sized = ntohs-htons (size_of w) (omega (arith, s)) in
    (
      ap (λ out. p.sent ++ out)
            (send_via_waits a buf m (size_of w + 4) p.neighbors e (omega (arith, sized, s)))
          ∙ append-nil p.sent,
      (send_to-IsValid a w p s (omega arith) v).ordered,
    )

-- The datagrams to a neighbour.
unfoldable pub sent_to : Addr → List Datagram → List Datagram
sent_to a [] = []
sent_to a (d ∷ ds) = if same d.dest a then d ∷ sent_to a ds else sent_to a ds

sent_to-append :
    (a : Addr) (xs ys : List Datagram) → sent_to a (xs ++ ys) ≡ sent_to a xs ++ sent_to a ys
unfolding sent_to
sent_to-append a [] ys = refl
sent_to-append a (d ∷ ds) ys = ground (arith, sent_to-append a ds ys)

-- The buffer has room for a GoAway of 3 bytes.
abbrev HasRoom : Option MessageH → Type 0
HasRoom none = ⊥
HasRoom (some m) = used m + 3 ≤ pmtu - 4

-- If this is the neighbour, its buffer has room.
abbrev pub IsRoomy : Addr → Neighbor → Type 0
IsRoomy a k = same k.addr a ≡ true → HasRoom k.msg

-- A message of 3 bytes to some neighbour sends nothing to this one.
quiet_message :
    (a b : Addr) (msg : Option MessageH) (buf : MessageH) (taille : ℕ)
    → used buf ≡ 3
    → (same b a ≡ true → HasRoom msg)
    → sent_to a (send_message buf taille (record { addr = b; msg = msg })).1 ≡ []
unfolding send_message send_message_now sent_to
quiet_message a b none buf taille u h = ground (arith, h)
quiet_message a b (some m) buf taille u h = ground (arith, h)

send_via-quiet :
    (a e : Addr) (buf : MessageH) (taille : ℕ) (t : Tree)
    → used buf ≡ 3
    → Abr.All (IsRoomy a) t
    → sent_to a (send_via e buf taille t).1 ≡ []
unfolding send_via sent_to
send_via-quiet a e buf taille leaf u h = refl
send_via-quiet a e buf taille (node k v l r) u h = ground (
  arith,
  quiet_message a k.addr k.msg buf taille u h.0,
  send_via-quiet a e buf taille l u h.1,
  send_via-quiet a e buf taille r u h.2,
)

send_message-addr :
    (b : Addr) (msg : Option MessageH) (buf : MessageH) (taille : ℕ)
    → (send_message buf taille (record { addr = b; msg = msg })).0.addr ≡ b
unfolding send_message
send_message-addr b none buf taille = refl
send_message-addr b (some m) buf taille = ground arith

-- What is sent to another neighbour leaves the room.
send_via-IsRoomy :
    (a e : Addr) (buf : MessageH) (taille : ℕ) (t : Tree)
    → same e a ≡ false
    → Abr.All (IsRoomy a) t
    → Abr.All (IsRoomy a) (send_via e buf taille t).0
unfolding send_via
send_via-IsRoomy a e buf taille leaf d h = tt
send_via-IsRoomy a e buf taille (node k v l r) d (h, hl, hr) =
    let left = send_via-IsRoomy a e buf taille l d hl in
    let right = send_via-IsRoomy a e buf taille r d hr in
    elim (Ordering-cases (compare_n k.addr e)) [
      | inl under ↦ rw (under, send_via, Abr.All) (h, hl, right)
      | inr (inl here) ↦
          let away : same k.addr a ≡ false = ap (λ x. same x a) (compare_n-eq k.addr e here) ∙ d in
          rw (here, send_via, Abr.All)
            (
              (λ s. absurd (ground (arith, s, away, send_message-addr k.addr k.msg buf taille))),
              hl,
              hr,
            )
      | inr (inr over) ↦ rw (over, send_via, Abr.All) (h, left, hr)
    ]

above_differs : (a k x : Addr) → compare_n a k ≡ lt → compare_n k x ≡ lt → same x a ≡ false
above_differs a k x h j = ground (arith, compare_n-lt a x (compare_n_trans a k x h j))

below_differs : (a k x : Addr) → compare_n k a ≡ lt → compare_n x k ≡ lt → same x a ≡ false
below_differs a k x h j = ground (arith, compare_n_trans x k a j h)

-- A neighbour that is not found is nowhere in the tree.
absent_lem :
    (a : Addr) (t : Tree)
    → IsOrdered t
    → get_ident t a ≡ none
    → Abr.All (λ k. same k.addr a ≡ false) t
unfolding get_ident
absent_lem a leaf s h = tt
absent_lem a (node k v l r) (below, above, sl, sr) h = elim (Ordering-cases (compare_n k.addr a)) [
  | inr (inl here) ↦ absurd (ground (arith, h, here))
  | inr (inr over) ↦ (
    ground arith,
    absent_lem a l sl (ground (arith, h, over)),
    Abr.All-imp (λ x j. above_differs a k.addr x.addr (compare_n-gt k.addr a over) j) r above,
  )
  | inl under ↦ (
    ground arith,
    Abr.All-imp (λ x j. below_differs a k.addr x.addr under j) l below,
    absent_lem a r sr (ground (arith, h, under)),
  )
]

same_tree :
    (e : Addr) (q : Peer)
    → (remove_neighbor_everywhere e q).neighbors ≡ remove_neighbor e q.neighbors
unfolding remove_neighbor_everywhere
same_tree e q = ap (remove_neighbor e) (floods_only (indices q.dataf.entries) e q).0

-- The GoAway of `send_goaway_asymetrical` to a neighbour, and its removal.
unfoldable dropped : Addr → Peer → Peer
dropped e p = remove_neighbor_everywhere e (send_to e (tlv_goaway (pmtu - 4) 2 [] 0) p)

record IsQuiet (a e : Addr) (p q : Peer) : Type 0 where
  valid : IsValid q
  roomy : Abr.All (IsRoomy a) q.neighbors
  quiet : sent_to a q.sent ≡ sent_to a p.sent
  found : get_ident q.neighbors a ≡ (if same e a then none else get_ident p.neighbors a)

dropped-IsQuiet :
    (a e : Addr) (p : Peer)
    → IsValid p
    → Abr.All (IsRoomy a) p.neighbors
    → IsQuiet a e p (dropped e p)
unfolding dropped send_to tlv_goaway
dropped-IsQuiet a e p v h =
    let w = tlv_goaway (pmtu - 4) 2 [] 0 in
    let buf = message w.bytes (size_of w) in
    let q = send_to e w p in
    let r = remove_neighbor_everywhere e q in
    let used_3 : used buf ≡ 3 = ntohs-htons 3 (omega arith) in
    let keeps = send_to-Keeps e w p refl (omega arith) v in
    let vq = send_to-IsValid e w p refl (omega arith) v in
    let vr = remove_neighbor_everywhere-IsValid e q vq in
    let gone = remove_neighbor_everywhere-get_ident e q a vq.ordered in
    let out = (send_via e buf (size_of w + 4) p.neighbors).1 in
    let before = Keeps-get_ident p.neighbors _ a keeps in
    let found : get_ident r.neighbors a ≡ (if same e a then none else get_ident p.neighbors a) =
      gone.0 ∙ ap (λ x. if same e a then none else x) before in
    record {
      valid = vr;
      roomy = elim (Bool-cases (same e a)) [
        | inl here ↦
            Abr.All-imp (λ k d s. absurd (ground (arith, d, s))) r.neighbors
              (absent_lem a r.neighbors vr.ordered
                (found ∙ ap (λ b. if b then none else get_ident p.neighbors a) here))
        | inr away ↦ subst (Abr.All (IsRoomy a)) (sym (same_tree e q)) (
            remove_neighbor-All (IsRoomy a) e q.neighbors
              (send_via-IsRoomy a e buf (size_of w + 4) p.neighbors away h))
      ];
      quiet =
          ap (sent_to a) gone.1
          ∙ sent_to-append a p.sent out
          ∙ ap (λ ds. sent_to a p.sent ++ ds)
              (send_via-quiet a e buf (size_of w + 4) p.neighbors used_3 h)
          ∙ append-nil (sent_to a p.sent);
      found = found;
    }

goaway_old_lem :
    (a : Addr) (es : List NgbEntry) (p : Peer)
    → IsValid p
    → Abr.All (IsRoomy a) p.neighbors
    → let q = goaway_old es p in
      (sent_to a q.sent ≡ sent_to a p.sent)
      × (get_ident q.neighbors a
          ≡ (if contains a (map (λ e. e.sym) es) then none else get_ident p.neighbors a))
unfolding goaway_old dropped contains
goaway_old_lem a [] p v h = (refl, refl)
goaway_old_lem a (e ∷ es) p v h =
    let step = dropped-IsQuiet a e.sym p v h in
    let rest = goaway_old_lem a es (dropped e.sym p) step.valid step.roomy in
    (rest.0 ∙ step.quiet, rest.1 ∙ ground (arith, step.found))

syms-init : (now : ℕ) (keys : List Addr) → map (λ e. e.sym) (map (init_ngb_entry now) keys) ≡ keys
unfolding init_ngb_entry
syms-init now [] = refl
syms-init now (k ∷ ks) = ap (◌∷◌ k) (syms-init now ks)

-- In a valid state, for a neighbour that was last heard of more than 120 seconds ago, and whose
-- buffer has room for the 3 bytes of a GoAway: `send_goaway_asymetrical` drops the neighbour, and
-- sends nothing to it; the GoAway is lost with the buffer.
pub goaway_lost :
    (env : Env) (a : Addr) (val : Ident) (p : Peer)
    → IsValid p
    → get_ident p.neighbors a ≡ some val
    → val.last_hello + 120 < env.now
    → Abr.All (IsRoomy a) p.neighbors
    → let q = send_goaway_asymetrical env p in
      (get_ident q.neighbors a ≡ none) × (sent_to a q.sent ≡ sent_to a p.sent)
unfolding send_goaway_asymetrical is_old
goaway_lost env a val p v at late h =
    let func = is_old env.now in
    let keys = find_by_aux p.neighbors func in
    let es = (find_by env.now p.neighbors func).entries in
    let (quiet, found) = goaway_old_lem a es p v h in
    let listed : map (λ e. e.sym) es ≡ keys =
      ap (map (λ e. e.sym)) (find_by_lem env.now p.neighbors func).0 ∙ syms-init env.now keys in
    let old : contains a keys ≡ true =
      contains-find_by p.neighbors func a v.ordered ∙ rw at (ground arith) in
    (
      found
          ∙ ap (λ as'. if contains a as' then none else get_ident p.neighbors a) listed
          ∙ ap (λ b. if b then none else get_ident p.neighbors a) old,
      quiet,
    )
