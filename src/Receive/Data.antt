-- ===== src/Receive/Data.antt =====
-- What the handler of a data TLV makes of `DATAF` and of the screen.
use projet_reseau.Prelude.{
  ℕ, ◌+◌, ◌-◌, ◌≤◌, ◌<◌, ◌≡◌, refl, ap, ◌∙◌, List, [], ◌∷◌, ◌++◌, length, take, arith, Bool,
  Bool-cases, inl, inr, ◌==◌, if◌then◌else◌, true, false, Option, some, is_some, get_or, if_cases,
  eq, leb, ltb,
}
use projet_reseau.Neighbor.{Addr, Neighbor, DataIndex}
use projet_reseau.Genlist.{GenList, remove_elem, get, find, add_limited}
use projet_reseau.Genlist.Counted.{
  IsCounted, find-add_limited, add_limited-compare_f, add_limited_lem, with_front,
}
use projet_reseau.Flood.{
  NgbEntry, FloodEntry, compare_d, compare_flood, pmtu, nb_data, init_flood, get_symmetrical,
}
use projet_reseau.Peer.{
  Env, Peer, index_of, remove_in_first, remove_neighbor_from_flood, add_message_to_flood, add_flood,
  delete_from, indices, probe,
}
use projet_reseau.Peer.Valid.{IsValid}
use projet_reseau.Receive.{handle_data, flood_probe, data_text, print_data}

-- A flood of the index is in `DATAF`, as `get` finds it.
abbrev pub knows : Peer → DataIndex → Bool
knows p index = is_some (get p.dataf (flood_probe index))

pub compare_d_refl : (index : DataIndex) → compare_d index index ≡ eq
unfolding compare_d
compare_d_refl index = ground arith

-- A removal from a flood leaves the floods that are found.
find-remove_in_first :
    (index j : DataIndex) (a : Addr) (fs : List FloodEntry)
    → is_some (find compare_flood (remove_in_first index a fs) (flood_probe j))
      ≡ is_some (find compare_flood fs (flood_probe j))
unfolding find remove_in_first compare_flood
find-remove_in_first index j a [] = refl
find-remove_in_first index j a (f ∷ fs) = ground (arith, find-remove_in_first index j a fs)

-- A removal from a flood leaves the floods that are known.
knows-remove :
    (index j : DataIndex) (a : Addr) (p : Peer)
    → p.dataf.compare_f ≡ compare_flood
    → knows (remove_neighbor_from_flood index a p) j ≡ knows p j
unfolding get remove_neighbor_from_flood
knows-remove index j a p c = rw c (find-remove_in_first index j a p.dataf.entries)

-- The flood of a TLV that fits a datagram.
abbrev pub flood_of : List ℕ → ℕ → GenList NgbEntry → FloodEntry
flood_of msg_send size targets = record {
  index = index_of msg_send;
  content = take (size + 2) (4 ∷ size ∷ take size msg_send);
  sym_neighbors = targets;
}

pub init_flood_lem :
    (msg_send : List ℕ) (size : ℕ) (targets : GenList NgbEntry)
    → size + 2 ≤ pmtu - 4
    → init_flood (index_of msg_send) (4 ∷ size ∷ take size msg_send) targets
      ≡ some (flood_of msg_send size targets)
unfolding init_flood
init_flood_lem msg_send size targets h = ground arith

-- A new flood is known, as long as its TLV fits a datagram.
pub knows-add_message :
    (env : Env) (tlv : List ℕ) (len : ℕ) (to_delete : Option Addr) (p : Peer)
    → len + 2 ≤ pmtu - 4
    → IsCounted p.dataf
    → length p.dataf.entries ≤ nb_data
    → p.dataf.compare_f ≡ compare_flood
    → knows (add_message_to_flood env tlv len to_delete p) (index_of tlv) ≡ true
unfolding add_message_to_flood get add_flood
knows-add_message env tlv len to_delete p h c b e =
    let targets = delete_from to_delete (get_symmetrical env.now p.neighbors) in
    let f = flood_of tlv len targets in
    let q = flood_probe (index_of tlv) in
    let found : p.dataf.compare_f f q ≡ eq =
      ap (λ comp. comp f q) e ∙ (unfold compare_flood in compare_d_refl (index_of tlv)) in
    rw (init_flood_lem tlv len targets h, add_flood)
      (rw (add_limited-compare_f p.dataf f nb_data)
        (find-add_limited p.dataf f q nb_data c b (omega arith) (omega arith) found))

-- After a data TLV its flood is known, be it new or not.
pub handle_data-knows :
    (env : Env) (tlv : List ℕ) (len : ℕ) (k : Neighbor) (p : Peer)
    → len < 256
    → IsValid p
    → knows (handle_data env tlv len k p) (index_of tlv) ≡ true
unfolding handle_data
handle_data-knows env tlv len k p h v =
    let index = index_of tlv in
    elim (Bool-cases (knows p index)) [
      | inl known ↦ rw known (knows-remove index index k.addr _ v.compared ∙ known)
      | inr unknown ↦ rw unknown (
          if_cases (λ (q : Peer). knows q index ≡ true) (get_or tlv 12 0 == 0)
            (λ _.
              unfold print_data in
              if_cases (λ (q : Peer). knows q index ≡ true) (ltb len 13)
                (λ _.
                  knows-add_message env tlv len (some k.addr) _ (omega arith) v.counted v.bounded
                    v.compared)
                (λ _.
                  knows-add_message env tlv len (some k.addr) _ (omega arith) v.counted v.bounded
                    v.compared))
            (λ _.
              knows-add_message env tlv len (some k.addr) _ (omega arith) v.counted v.bounded
                v.compared))
    ]

pub indices-remove_in_first :
    (index : DataIndex) (a : Addr) (fs : List FloodEntry)
    → indices (remove_in_first index a fs) ≡ indices fs
unfolding remove_in_first
indices-remove_in_first index a [] = refl
indices-remove_in_first index a (f ∷ fs) = ground (arith, indices-remove_in_first index a fs)

-- A data TLV that is known shows nothing, and takes its sender out of the flood alone.
pub handle_data_known :
    (env : Env) (tlv : List ℕ) (len : ℕ) (k : Neighbor) (p : Peer)
    → knows p (index_of tlv) ≡ true
    → ((handle_data env tlv len k p).shown ≡ p.shown)
      × ((handle_data env tlv len k p).dataf.entries
          ≡ remove_in_first (index_of tlv) k.addr p.dataf.entries)
unfolding handle_data remove_neighbor_from_flood
handle_data_known env tlv len k p known = rw (known, handle_data) (refl, refl)

-- What a new data TLV makes of `DATAF`, and what it shows.
pub handle_data_added :
    (env : Env) (tlv : List ℕ) (len : ℕ) (k : Neighbor) (p : Peer)
    → len < 256
    → IsValid p
    → knows p (index_of tlv) ≡ false
    → let after = handle_data env tlv len k p in
      let targets = (remove_elem (get_symmetrical env.now p.neighbors) (probe k.addr)).0 in
      ((out : Option FloodEntry) × (with_front out after.dataf.entries
          ≡ p.dataf.entries ++ (flood_of tlv len targets ∷ []))
        × (is_some out ≡ leb nb_data (length p.dataf.entries)))
      × (after.shown ≡ (
          if get_or tlv 12 0 == 0
          then (if ltb len 13 then p.shown else p.shown ++ (data_text tlv len ∷ []))
          else p.shown))
unfolding handle_data add_message_to_flood add_flood delete_from print_data
handle_data_added env tlv len k p h v unknown =
    let targets = (remove_elem (get_symmetrical env.now p.neighbors) (probe k.addr)).0 in
    let f = flood_of tlv len targets in
    let (_, _, chain, full) = add_limited_lem p.dataf f nb_data v.counted v.bounded (omega arith) in
    let made = init_flood_lem tlv len targets (omega arith) in
    elim (Bool-cases (get_or tlv 12 0 == 0)) [
      | inl text ↦ elim (Bool-cases (ltb len 13)) [
        | inl short ↦
            rw (unknown, text, short, made)
              (((add_limited true p.dataf f nb_data).1, chain, full), refl)
        | inr long ↦
            rw (unknown, text, long, made)
              (((add_limited true p.dataf f nb_data).1, chain, full), refl)
      ]
      | inr other ↦
          rw (unknown, other, made) (((add_limited true p.dataf f nb_data).1, chain, full), refl)
    ]

-- In a valid state, for a data TLV of 13 bytes at least and less than 256 that is not known: its
-- flood comes last in `DATAF`, with the TLV as it was received, for the symmetrical neighbours
-- without the first that is the sender; the oldest flood leaves exactly if there were `nb_data`; the
-- text is shown if its type is 0, and nothing otherwise.
pub handle_data_new :
    (env : Env) (tlv : List ℕ) (len : ℕ) (k : Neighbor) (p : Peer)
    → 13 ≤ len
    → len < 256
    → IsValid p
    → knows p (index_of tlv) ≡ false
    → let after = handle_data env tlv len k p in
      let targets = (remove_elem (get_symmetrical env.now p.neighbors) (probe k.addr)).0 in
      ((out : Option FloodEntry) × (with_front out after.dataf.entries
          ≡ p.dataf.entries ++ (flood_of tlv len targets ∷ []))
        × (is_some out ≡ leb nb_data (length p.dataf.entries)))
      × (after.shown
          ≡ (if get_or tlv 12 0 == 0 then p.shown ++ (data_text tlv len ∷ []) else p.shown))
handle_data_new env tlv len k p b h v unknown =
    let (added, shown) = handle_data_added env tlv len k p h v unknown in
    let long : ltb len 13 ≡ false = ground arith in
    (
      added,
      shown
          ∙ ap
              (λ c.
                if get_or tlv 12 0 == 0
                then (if c then p.shown else p.shown ++ (data_text tlv len ∷ []))
                else p.shown)
              long,
    )
