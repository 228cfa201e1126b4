-- ===== src/Protocol/Floods.antt =====
-- What the changes of Protocol.antt make of the lists of the floods, for any property of a list.
use projet_reseau.Prelude.{
  ℕ, zero, suc, ◌≡◌, refl, sym, subst, List, [], ◌∷◌, All, arith, Bool-cases, inl, inr, is_eq,
  Option, none, some, true,
}
use projet_reseau.Neighbor.{Addr, DataIndex}
use projet_reseau.Genlist.{GenList, add_limited, remove_elem}
use projet_reseau.Genlist.Counted.{add_limited_lem}
use projet_reseau.Flood.{NgbEntry, FloodEntry, compare_d, nb_data, init_flood}
use projet_reseau.Net.Buffer.Everyone.{All-append}
use projet_reseau.Peer.{
  Peer, remove_in_first, remove_from_floods, remove_neighbor_from_flood, probe, add_flood,
}
use projet_reseau.Peer.Valid.{IsValid, All-front}
use projet_reseau.Flooding.{flood_at, set_neighbors}

-- The property, of the list of every flood.
abbrev pub Each {μ} : (GenList NgbEntry → Type μ) → List FloodEntry → Type μ
Each Q fs = All (λ f. Q f.sym_neighbors) fs

-- Removals of the entry of a neighbour keep the property.
abbrev pub IsClosed {μ} : (GenList NgbEntry → Type μ) → Type μ
IsClosed Q = (l : GenList NgbEntry) (a : Addr) → Q l → Q (remove_elem l (probe a)).0

module _ {μ} (Q : GenList NgbEntry → Type μ) where
  pub remove_in_first-Each :
      (index : DataIndex) (a : Addr) (fs : List FloodEntry)
      → IsClosed Q
      → Each Q fs
      → Each Q (remove_in_first index a fs)
  unfolding remove_in_first
  remove_in_first-Each index a [] c h = h
  remove_in_first-Each index a (f ∷ fs) c h = elim (Bool-cases (is_eq (compare_d f.index index))) [
    | inl m ↦ rw (m, remove_in_first) (c f.sym_neighbors a h.0, h.1)
    | inr m ↦ rw (m, remove_in_first) (h.0, remove_in_first-Each index a fs c h.1)
  ]

  pub remove_from_floods-Each :
      (is : List DataIndex) (a : Addr) (p : Peer)
      → IsClosed Q
      → Each Q p.dataf.entries
      → Each Q (remove_from_floods is a p).dataf.entries
  unfolding remove_from_floods remove_neighbor_from_flood
  remove_from_floods-Each [] a p c h = h
  remove_from_floods-Each (index ∷ is) a p c h =
      remove_from_floods-Each is a (remove_neighbor_from_flood index a p) c
        (remove_in_first-Each index a p.dataf.entries c h)

  pub set_neighbors-Each :
      (i : ℕ) (l : GenList NgbEntry) (fs : List FloodEntry)
      → Q l
      → Each Q fs
      → Each Q (set_neighbors i l fs)
  unfolding set_neighbors
  set_neighbors-Each zero l [] q h = h
  set_neighbors-Each (suc i) l [] q h = h
  set_neighbors-Each zero l (f ∷ fs) q h = (q, h.1)
  set_neighbors-Each (suc i) l (f ∷ fs) q h = (h.0, set_neighbors-Each i l fs q h.1)

  pub flood_at-Each :
      (i : ℕ) (fs : List FloodEntry) (f : FloodEntry)
      → flood_at i fs ≡ some f
      → Each Q fs
      → Q f.sym_neighbors
  unfolding flood_at
  flood_at-Each zero [] f e h = ground arith
  flood_at-Each (suc i) [] f e h = ground arith
  flood_at-Each zero (g ∷ fs) f e h =
      let fg : f ≡ g = ground arith in subst (λ x. Q x.sym_neighbors) (sym fg) h.0
  flood_at-Each (suc i) (g ∷ fs) f e h = flood_at-Each i fs f e h.1

-- A new flood, for any property of floods.
pub add_flood-All {μ} :
    (P : FloodEntry → Type μ) (o : Option FloodEntry) (p : Peer)
    → IsValid p
    → ((f : FloodEntry) → o ≡ some f → P f)
    → All P p.dataf.entries
    → All P (add_flood o p).dataf.entries
unfolding add_flood
add_flood-All P none p v h a = a
add_flood-All P (some f) p v h a =
    let (l', out) = add_limited true p.dataf f nb_data in
    let (_, _, chain, _) = add_limited_lem p.dataf f nb_data v.counted v.bounded (omega arith) in
    All-front P out l'.entries
      (subst (All P) (sym chain) (All-append P p.dataf.entries (f ∷ []) a (h f refl, tt)))

-- The flood of a message has its index and the list that was given.
pub init_flood_fields :
    (index : DataIndex) (content : List ℕ) (l : GenList NgbEntry) (f : FloodEntry)
    → init_flood index content l ≡ some f
    → (f.index ≡ index) × (f.sym_neighbors ≡ l)
unfolding init_flood
init_flood_fields index content l f e = ground arith
