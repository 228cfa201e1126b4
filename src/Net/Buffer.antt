-- ===== src/Net/Buffer.antt =====
-- The buffer of one neighbour: what waits in it and what is sent, over `send_message` and `flush`.
pub mod Everyone
use projet_reseau.Prelude.{
  ℕ, suc, ◌+◌, ◌-◌, ◌≤◌, ◌<◌, ◌≡◌, refl, sym, ap, ◌∙◌, ◌⊎◌, List, [], ◌∷◌, ◌++◌, Option, none, some,
  if◌then◌else◌, ltb, ◌==◌, take, drop, blit, length, length-append, length-take, length-drop,
  take-append, take_all, All, arith, append-nil, append_assoc, Bool-cases, inl, inr,
}
use projet_reseau.Bytes.{le_bytes, htons, ntohs, ntohs-htons, length-le_bytes}
use projet_reseau.Neighbor.{Addr, Neighbor, MessageH}
use projet_reseau.Flood.{pmtu}
use projet_reseau.Net.{
  Datagram, message_bytes, send_message_now, append_body, send_message, message, flush,
}

abbrev pub used : MessageH → ℕ
used m = ntohs m.body_length

-- The bytes that wait to be sent.
abbrev pub waiting : MessageH → List ℕ
waiting m = take (used m) m.body

abbrev pub waiting_at : Option MessageH → List ℕ
waiting_at none = []
waiting_at (some m) = waiting m

-- A buffer fits a datagram, and its used part lies in its body.
pub record IsSound (m : MessageH) : Type 0 where
  pub small : used m ≤ pmtu - 4
  pub inside : used m ≤ length m.body
  pub magic : m.magic ≡ 93
  pub version : m.version ≡ 2
  pub order : m.body_length ≡ htons (used m)

abbrev pub IsSoundAt : Option MessageH → Type 0
IsSoundAt none = Unit
IsSoundAt (some m) = IsSound m

-- The message carries exactly this body, which fits a datagram.
pub record Carries (buf : MessageH) (body : List ℕ) : Type 0 where
  pub fits : length body ≤ pmtu - 4
  pub sized : used buf ≡ length body
  pub order : buf.body_length ≡ htons (length body)
  pub magic : buf.magic ≡ 93
  pub version : buf.version ≡ 2
  pub held : take (length body) buf.body ≡ body

pub length-blit :
    (n : ℕ) (src dst : List ℕ) → n ≤ length dst → n + length src ≤ length (blit n src dst)
length-blit n src dst h = omega (
  arith,
  length-append (take n dst) (src ++ drop (n + length src) dst),
  length-append src (drop (n + length src) dst),
  length-take n dst,
)

pub take-blit :
    (n : ℕ) (src dst : List ℕ)
    → n ≤ length dst
    → take (n + length src) (blit n src dst) ≡ take n dst ++ src
take-blit n src dst h =
    ap (take (n + length src)) (sym (append_assoc (take n dst) src _))
    ∙ take-append (n + length src) (take n dst ++ src) _
        (omega (arith, length-append (take n dst) src, length-take n dst))

-- The datagram that carries a body: a message whose header says its size.
abbrev pub packet : Addr → List ℕ → Datagram
packet dest body = record {
  dest = dest;
  bytes = 93 ∷ 2 ∷ (le_bytes 2 (htons (length body)) ++ body);
}

-- `memcpy` behind the used part, where there is room.
append_body_lem :
    (msg buf : MessageH) (act_size : ℕ) (body : List ℕ)
    → IsSound msg
    → Carries buf body
    → act_size ≤ length msg.body
    → act_size + length body ≤ pmtu - 4
    → IsSound (append_body msg act_size buf)
      × (waiting (append_body msg act_size buf) ≡ take act_size msg.body ++ body)
unfolding append_body
append_body_lem msg buf act_size body s c h b =
    let e = ntohs-htons (act_size + length body) (omega arith) in
    rw (c.sized, c.held)
      (
        record {
          small = omega arith;
          inside = omega (arith, length-blit act_size body msg.body h);
          magic = s.magic;
          version = s.version;
          order = rw e;
        },
        rw e (take-blit act_size body msg.body h),
      )

-- What goes to `sendto` is the packet with the first bytes of the body.
pub sent_now :
    (m : MessageH) (n : ℕ) (rcpt : Neighbor)
    → m.magic ≡ 93
    → m.version ≡ 2
    → m.body_length ≡ htons n
    → n ≤ length m.body
    → send_message_now m (n + 4) rcpt ≡ packet rcpt.addr (take n m.body)
unfolding send_message_now le_bytes
sent_now m n rcpt a b c h =
    let four : n + 4 ≡ suc (suc (suc (suc n))) = omega arith in
    let len : length (take n m.body) ≡ n = omega (arith, length-take n m.body) in
    rw (four, len) (simp (a, b, c))

-- The three ways of `send_message`: at once where there is no buffer, into the buffer where the
-- message fits, and into the buffer after what waited there was sent.
abbrev pub Sends : Neighbor → List ℕ → Neighbor × List Datagram → Type 0
Sends rcpt body (rcpt', sent) =
    ((rcpt.msg ≡ none) × (rcpt' ≡ rcpt) × (sent ≡ packet rcpt.addr body ∷ []))
    ⊎ ((sent ≡ []) × (waiting_at rcpt'.msg ≡ waiting_at rcpt.msg ++ body))
    ⊎ ((sent ≡ packet rcpt.addr (waiting_at rcpt.msg) ∷ [])
        × (waiting_at rcpt'.msg ≡ body)
        × (pmtu - 4 < length (waiting_at rcpt.msg) + length body))

abbrev neighbor_at : Addr → Option MessageH → Neighbor
neighbor_at addr msg = record { addr = addr; msg = msg }

send_lem :
    (buf : MessageH) (body : List ℕ) (addr : Addr) (msg : Option MessageH)
    → Carries buf body
    → IsSoundAt msg
    → let rcpt = neighbor_at addr msg in
      Sends rcpt body (send_message buf (length body + 4) rcpt)
      × IsSoundAt (send_message buf (length body + 4) rcpt).0.msg
      × ((send_message buf (length body + 4) rcpt).0.addr ≡ addr)
unfolding send_message
send_lem buf body addr none c s =
    let inside : length body ≤ length buf.body =
      omega (arith, ap length c.held, length-take (length body) buf.body) in
    let now = sent_now buf (length body) (neighbor_at addr none) c.magic c.version c.order inside in
    (inl (refl, refl, ap (λ d. d ∷ []) (now ∙ ap (packet addr) c.held)), tt, refl)
send_lem buf body addr (some m) c s = elim (Bool-cases (ltb pmtu (used m + used buf + 4))) [
  | inl full ↦
      let (sound, held) = append_body_lem m buf 0 body s c (omega arith) (omega (arith, c.fits)) in
      rw full (
        inr (
            inr (
              ap (λ d. d ∷ [])
                  (sent_now m (used m) (neighbor_at addr (some m)) s.magic s.version s.order
                    s.inside),
              held,
              ground (arith, length-take (used m) m.body, c.sized),
            )),
        sound,
        refl,
      )
  | inr room ↦
      let (sound, held) =
        append_body_lem m buf (used m) body s c s.inside (ground (arith, c.sized)) in
      rw room (inr (inl (refl, held)), sound, refl)
]

-- A message that carries a body, to a neighbour whose buffer is sound: without a buffer it is sent
-- at once; with one, the body comes behind what waits, or replaces it where the two do not fit a
-- datagram, and then what waited is sent. The buffer stays sound, and the address stays.
pub send_message_lem :
    (buf : MessageH) (body : List ℕ) (rcpt : Neighbor)
    → Carries buf body
    → IsSoundAt rcpt.msg
    → Sends rcpt body (send_message buf (length body + 4) rcpt)
      × IsSoundAt (send_message buf (length body + 4) rcpt).0.msg
      × ((send_message buf (length body + 4) rcpt).0.addr ≡ rcpt.addr)
send_message_lem buf body rcpt c s = send_lem buf body rcpt.addr rcpt.msg c s

abbrev pub Flushes : Neighbor → Neighbor × List Datagram → Type 0
Flushes key (key', sent) =
    (waiting_at key'.msg ≡ [])
    × ((waiting_at key.msg ≡ []) × (sent ≡ []) ⊎ (sent ≡ packet key.addr (waiting_at key.msg) ∷ []))

flushed :
    (addr : Addr) (msg : Option MessageH)
    → IsSoundAt msg
    → let key = neighbor_at addr msg in
      Flushes key (flush key) × IsSoundAt (flush key).0.msg × ((flush key).0.addr ≡ addr)
unfolding flush ntohs
flushed addr none s = ((refl, inl (refl, refl)), tt, refl)
flushed addr (some m) s = elim (Bool-cases (m.body_length == 0)) [
  | inl idle ↦
      let none_used : used m ≡ 0 = ground arith in
      rw idle (
        (ap (λ n. take n m.body) none_used, inl (ap (λ n. take n m.body) none_used, refl)),
        s,
        refl,
      )
  | inr busy ↦
      let sound : IsSound (record m { body_length = 0 }) = record {
        small = omega arith;
        inside = omega arith;
        magic = s.magic;
        version = s.version;
        order = refl;
      } in
      rw busy (
        (
          refl,
          inr (
              ap (λ d. d ∷ [])
                (sent_now m (used m) (neighbor_at addr (some m)) s.magic s.version s.order
                  s.inside)),
        ),
        sound,
        refl,
      )
]

-- For a sound buffer, or none: a flush sends what waits in one datagram, or nothing if nothing
-- waits, and leaves nothing waiting; the buffer stays sound, and the address stays.
pub flush_lem :
    (key : Neighbor)
    → IsSoundAt key.msg
    → Flushes key (flush key) × IsSoundAt (flush key).0.msg × ((flush key).0.addr ≡ key.addr)
flush_lem key s = flushed key.addr key.msg s
