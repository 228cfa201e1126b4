-- ===== src/Receive/Repeat.antt =====
-- A data TLV that comes again, after others have come: how long `DATAF` remembers it.
use projet_reseau.Prelude.{
  ℕ, suc, ◌+◌, ◌≤◌, ◌<◌, ◌≡◌, refl, sym, ap, ◌∙◌, List, [], ◌∷◌, ◌++◌, append_assoc, length,
  length-append, drop, arith, Bool, Bool-cases, inl, inr, true, false, ◌||◌, ◌⊎◌, Option, none,
  some, is_some, is_eq, eq, leb, All, subst,
}
use projet_reseau.Neighbor.{Addr, Neighbor, DataIndex}
use projet_reseau.Genlist.{find, get}
use projet_reseau.Genlist.Counted.{with_front}
use projet_reseau.Flood.{FloodEntry, compare_d, compare_flood, nb_data}
use projet_reseau.Net.Buffer.Everyone.{IsGood}
use projet_reseau.Peer.{Env, Peer, index_of, indices, without, remove_in_first}
use projet_reseau.Peer.Valid.{IsValid}
use projet_reseau.Receive.{handle_data, flood_probe}
use projet_reseau.Receive.Valid.{handle_data-IsValid}
use projet_reseau.Receive.Data.{
  knows, compare_d_refl, indices-remove_in_first, handle_data_known, handle_data_added,
}

-- A data TLV that arrives: the content in the memory `tlv`, with its size, and the sender.
pub record Received : Type 0 where
  pub env : Env
  pub tlv : List ℕ
  pub len : ℕ
  pub sender : Neighbor

abbrev pub IsReceived : Received → Type 0
IsReceived r = IsGood r.sender × (r.len ≤ length r.tlv) × (r.len < 256)

-- Data TLVs that arrive one after the other.
unfoldable pub receive_all : List Received → Peer → Peer
unfolding handle_data
receive_all [] p = p
receive_all (r ∷ rs) p = receive_all rs (handle_data r.env r.tlv r.len r.sender p)

-- An index is among these.
unfoldable pub lists : List DataIndex → DataIndex → Bool
lists [] j = false
lists (i ∷ is) j = is_eq (compare_d i j) || lists is j

lists-find :
    (fs : List FloodEntry) (j : DataIndex)
    → is_some (find compare_flood fs (flood_probe j)) ≡ lists (indices fs) j
unfolding find lists compare_flood
lists-find [] j = refl
lists-find (f ∷ fs) j = ground (arith, lists-find fs j)

knows-lists : (p : Peer) (j : DataIndex) → IsValid p → knows p j ≡ lists (indices p.dataf.entries) j
unfolding get
knows-lists p j v = rw v.compared (lists-find p.dataf.entries j)

lists-behind :
    (xs ys : List DataIndex) (j : DataIndex) → lists ys j ≡ true → lists (xs ++ ys) j ≡ true
unfolding lists
lists-behind [] ys j h = h
lists-behind (x ∷ xs) ys j h = ground (arith, lists-behind xs ys j h)

lists-front :
    (xs ys : List DataIndex) (j : DataIndex) → lists xs j ≡ true → lists (xs ++ ys) j ≡ true
unfolding lists
lists-front [] ys j h = absurd (ground arith)
lists-front (x ∷ xs) ys j h = ground (arith, lists-front xs ys j)

-- The index is among the last `n` of the sequence.
abbrev IsRecent : ℕ → DataIndex → List DataIndex → Type 0
IsRecent n j is =
    (front : List DataIndex) × (back : List DataIndex) × (is ≡ front ++ back)
    × (length back ≤ n)
    × (lists back j ≡ true)

indices-append : (fs gs : List FloodEntry) → indices (fs ++ gs) ≡ indices fs ++ indices gs
indices-append [] gs = refl
indices-append (f ∷ fs) gs = ap (◌∷◌ f.index) (indices-append fs gs)

length-indices : (fs : List FloodEntry) → length (indices fs) ≡ length fs
length-indices [] = refl
length-indices (f ∷ fs) = ap suc (length-indices fs)

abbrev with_first : Option FloodEntry → List DataIndex → List DataIndex
with_first none is = is
with_first (some o) is = o.index ∷ is

appended :
    (out : Option FloodEntry) (fs gs : List FloodEntry) (f : FloodEntry)
    → with_front out gs ≡ fs ++ (f ∷ [])
    → with_first out (indices gs) ≡ indices fs ++ (f.index ∷ [])
appended none fs gs f e = ap indices e ∙ indices-append fs (f ∷ [])
appended (some o) fs gs f e = ap indices e ∙ indices-append fs (f ∷ [])

-- One index more at the end, and the first one gone where there were `nb_data`.
IsRecent-step :
    (n : ℕ) (j : DataIndex) (out : Option FloodEntry) (fs gs : List FloodEntry) (f : FloodEntry)
    → n < nb_data
    → with_front out gs ≡ fs ++ (f ∷ [])
    → is_some out ≡ leb nb_data (length fs)
    → IsRecent n j (indices fs)
    → IsRecent (n + 1) j (indices gs)
IsRecent-step n j none fs gs f b e full (front, back, parts, short, there) = (
  front,
  back ++ (f.index ∷ []),
  appended none fs gs f e
      ∙ ap (λ is. is ++ (f.index ∷ [])) parts
      ∙ append_assoc front back (f.index ∷ []),
  omega (arith, length-append back (f.index ∷ [])),
  lists-front back (f.index ∷ []) j there,
)
IsRecent-step n j (some o) fs gs f b e full ([], back, parts, short, there) =
    absurd (ground (arith, ap length parts, length-indices fs))
IsRecent-step n j (some o) fs gs f b e full (x ∷ front, back, parts, short, there) =
    let whole : o.index ∷ indices gs ≡ x ∷ (front ++ (back ++ (f.index ∷ []))) =
      appended (some o) fs gs f e
      ∙ ap (λ is. is ++ (f.index ∷ [])) parts
      ∙ ap (◌∷◌ x) (append_assoc front back (f.index ∷ [])) in
    (
      front,
      back ++ (f.index ∷ []),
      ap (drop 1) whole,
      omega (arith, length-append back (f.index ∷ [])),
      lists-front back (f.index ∷ []) j there,
    )

IsRecent-last :
    (j : DataIndex) (out : Option FloodEntry) (fs gs : List FloodEntry) (f : FloodEntry)
    → with_front out gs ≡ fs ++ (f ∷ [])
    → is_some out ≡ leb nb_data (length fs)
    → f.index ≡ j
    → IsRecent 1 j (indices gs)
unfolding lists
IsRecent-last j none fs gs f e full same = (
  indices fs,
  f.index ∷ [],
  appended none fs gs f e,
  omega arith,
  rw (same, compare_d_refl j) refl,
)
IsRecent-last j (some o) [] gs f e full same = absurd (ground arith)
IsRecent-last j (some o) (x ∷ fs) gs f e full same = (
  indices fs,
  f.index ∷ [],
  ap (drop 1) (appended (some o) (x ∷ fs) gs f e),
  omega arith,
  rw (same, compare_d_refl j) refl,
)

-- A data TLV that arrives leaves an index among the last ones, one place further back.
handle_data-IsRecent :
    (n : ℕ) (j : DataIndex) (r : Received) (p : Peer)
    → n < nb_data
    → IsReceived r
    → IsValid p
    → IsRecent n j (indices p.dataf.entries)
    → IsRecent (n + 1) j (indices (handle_data r.env r.tlv r.len r.sender p).dataf.entries)
handle_data-IsRecent n j r p b h v recent = elim (Bool-cases (knows p (index_of r.tlv))) [
  | inl known ↦
      let (_, kept) = handle_data_known r.env r.tlv r.len r.sender p known in
      let (front, back, parts, short, there) = recent in
      (
        front,
        back,
        ap indices kept
            ∙ indices-remove_in_first (index_of r.tlv) r.sender.addr p.dataf.entries
            ∙ parts,
        omega (arith, short),
        there,
      )
  | inr unknown ↦
      let ((out, chain, full), _) = handle_data_added r.env r.tlv r.len r.sender p h.2 v unknown in
      IsRecent-step n j out p.dataf.entries _ _ b chain full recent
]

receive_all-knows :
    (rs : List Received) (n : ℕ) (j : DataIndex) (p : Peer)
    → n + length rs ≤ nb_data
    → All IsReceived rs
    → IsValid p
    → IsRecent n j (indices p.dataf.entries)
    → knows (receive_all rs p) j ≡ true
unfolding receive_all
receive_all-knows [] n j p b h v (front, back, parts, short, there) =
    knows-lists p j v ∙ ap (λ is. lists is j) parts ∙ lists-behind front back j there
receive_all-knows (r ∷ rs) n j p b h v recent =
    receive_all-knows rs (n + 1) j (handle_data r.env r.tlv r.len r.sender p) (omega arith) h.1
      (handle_data-IsValid r.env r.tlv r.len r.sender p h.0.0 h.0.1 v)
      (handle_data-IsRecent n j r p (omega arith) h.0 v recent)

-- The flood of a new data TLV comes last.
handle_data_new-IsRecent :
    (r : Received) (p : Peer)
    → IsReceived r
    → IsValid p
    → knows p (index_of r.tlv) ≡ false
    → IsRecent 1 (index_of r.tlv) (indices (handle_data r.env r.tlv r.len r.sender p).dataf.entries)
unfolding lists
handle_data_new-IsRecent r p h v unknown =
    let ((out, chain, full), _) = handle_data_added r.env r.tlv r.len r.sender p h.2 v unknown in
    IsRecent-last (index_of r.tlv) out p.dataf.entries _ _ chain full refl

-- The floods, of which one of this index may have lost the neighbour: none is added, none is gone,
-- and none gets a neighbour.
pub Answered : DataIndex → Addr → List FloodEntry → List FloodEntry → Type 0
Answered index a [] [] = Unit
Answered index a (f ∷ fs) (g ∷ gs) =
    ((g ≡ f) ⊎ (compare_d f.index index ≡ eq) × (g ≡ without a f)) × Answered index a fs gs
Answered index a _ _ = ⊥

Answered-refl : (index : DataIndex) (a : Addr) (fs : List FloodEntry) → Answered index a fs fs
unfolding Answered
Answered-refl index a [] = tt
Answered-refl index a (f ∷ fs) = (inl refl, Answered-refl index a fs)

remove_in_first-Answered :
    (index : DataIndex) (a : Addr) (fs : List FloodEntry)
    → Answered index a fs (remove_in_first index a fs)
unfolding Answered remove_in_first
remove_in_first-Answered index a [] = tt
remove_in_first-Answered index a (f ∷ fs) = elim (Bool-cases (is_eq (compare_d f.index index))) [
  | inl e ↦ rw e (inr (ground arith, refl), Answered-refl index a fs)
  | inr e ↦ rw e (inl refl, remove_in_first-Answered index a fs)
]

-- In a valid state, for a data TLV of less than 256 bytes that is not known, and fewer than `nb_data`
-- such TLVs, known or not, that come behind it: a further data TLV of the same identity and nonce as
-- the first, from whomever and with whatever content, shows nothing. `DATAF` keeps its floods, and
-- their neighbours but, in a flood of this index, the sender of the further TLV.
pub handle_data_twice :
    (r : Received) (rs : List Received) (again : Received) (p : Peer)
    → IsReceived r
    → All IsReceived rs
    → length rs < nb_data
    → index_of again.tlv ≡ index_of r.tlv
    → IsValid p
    → knows p (index_of r.tlv) ≡ false
    → let later = receive_all rs (handle_data r.env r.tlv r.len r.sender p) in
      let after = handle_data again.env again.tlv again.len again.sender later in
      (after.shown ≡ later.shown)
      × Answered (index_of again.tlv) again.sender.addr later.dataf.entries after.dataf.entries
handle_data_twice r rs again p h hs b e v unknown =
    let once = handle_data r.env r.tlv r.len r.sender p in
    let later = receive_all rs once in
    let known =
      receive_all-knows rs 1 (index_of r.tlv) once (omega arith) hs
        (handle_data-IsValid r.env r.tlv r.len r.sender p h.0 h.1 v)
        (handle_data_new-IsRecent r p h v unknown) in
    let (quiet, floods) =
      handle_data_known again.env again.tlv again.len again.sender later
        (ap (knows later) e ∙ known) in
    (
      quiet,
      subst (Answered (index_of again.tlv) again.sender.addr later.dataf.entries) (sym floods)
          (remove_in_first-Answered (index_of again.tlv) again.sender.addr later.dataf.entries),
    )
