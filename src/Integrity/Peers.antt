-- ===== src/Integrity/Peers.antt =====
-- A peer that holds, has sent and has shown texts with the property alone, and what the operations of
-- Peer.antt make of it.
use projet_reseau.Prelude.{
  ℕ, ◌+◌, ◌-◌, ◌≤◌, ◌≡◌, refl, sym, ap, ◌∙◌, subst, List, [], ◌∷◌, ◌++◌, All, length, take,
  take-append, arith, Bool-cases, inl, inr, is_eq, Option, some,
}
use projet_reseau.Neighbor.{Addr, DataIndex}
use projet_reseau.Abr.{Tree}
use projet_reseau.Abr.Order as Abr
use projet_reseau.Tlv.{Written}
use projet_reseau.Flood.{FloodEntry, pmtu, compare_d, get_symmetrical}
use projet_reseau.Net.{Datagram, message, size_of, send_via}
use projet_reseau.Net.Buffer.Everyone.{All-append, message-Carries}
use projet_reseau.Peer.{
  Env, Peer, with_neighbors, with_potential, remove_in_first, remove_neighbor_from_flood,
  remove_from_floods, remove_neighbor_everywhere, indices, add_flood, add_message_to_flood,
  delete_from,
}
use projet_reseau.Peer.Valid.{IsValid, remove_neighbor-All, flood_content}
use projet_reseau.Periodic.{send_to}
use projet_reseau.Receive.{print_on_screen}
use projet_reseau.Receive.Data.{flood_of, init_flood_lem}
use projet_reseau.Protocol.Floods.{add_flood-All}
use projet_reseau.Integrity.{IsData, IsBody, tlv-IsBody}
use projet_reseau.Integrity.Sends.{Waits, IsPacketOf, Spreads, send_via-Spreads}

-- A removal from a flood keeps what the floods hold.
remove_in_first-content {μ} :
    (P : List ℕ → Type μ) (index : DataIndex) (a : Addr) (fs : List FloodEntry)
    → All (λ f. P f.content) fs
    → All (λ f. P f.content) (remove_in_first index a fs)
unfolding remove_in_first
remove_in_first-content P index a [] h = tt
remove_in_first-content P index a (f ∷ fs) h = elim (Bool-cases (is_eq (compare_d f.index index))) [
  | inl m ↦ rw (m, remove_in_first) h
  | inr m ↦ rw (m, remove_in_first) (h.0, remove_in_first-content P index a fs h.1)
]

some_inj : {f g : FloodEntry} → some f ≡ some g → f ≡ g
some_inj e = cc (e)

module _ (T : List ℕ → Type 0) where
  pub record IsFaithful (p : Peer) : Type 0 where
    pub waits : Abr.All (Waits T) p.neighbors
    pub waits_potential : Abr.All (Waits T) p.potential
    pub packets : All (IsPacketOf T) p.sent
    pub floods : All (λ f. IsBody T f.content) p.dataf.entries
    pub texts : All T p.shown

  -- New trees, floods and datagrams.
  pub neighbors-IsFaithful :
      (p : Peer) (t : Tree)
      → Abr.All (Waits T) t
      → IsFaithful p
      → IsFaithful (record p { neighbors = t })
  neighbors-IsFaithful p t w h = record {
    waits = w;
    waits_potential = h.waits_potential;
    packets = h.packets;
    floods = h.floods;
    texts = h.texts;
  }

  pub potential-IsFaithful :
      (p : Peer) (t : Tree)
      → Abr.All (Waits T) t
      → IsFaithful p
      → IsFaithful (record p { potential = t })
  potential-IsFaithful p t w h = record {
    waits = h.waits;
    waits_potential = w;
    packets = h.packets;
    floods = h.floods;
    texts = h.texts;
  }

  pub sent-IsFaithful :
      (p : Peer) (out : List Datagram)
      → All (IsPacketOf T) out
      → IsFaithful p
      → IsFaithful (record p { sent = p.sent ++ out })
  sent-IsFaithful p out o h = record {
    waits = h.waits;
    waits_potential = h.waits_potential;
    packets = All-append (IsPacketOf T) p.sent out h.packets o;
    floods = h.floods;
    texts = h.texts;
  }

  pub with_neighbors-IsFaithful :
      (p : Peer) (result : Tree × List Datagram)
      → Spreads T result
      → IsFaithful p
      → IsFaithful (with_neighbors p result)
  with_neighbors-IsFaithful p (t, out) s h =
      neighbors-IsFaithful _ t s.0 (sent-IsFaithful p out s.1 h)

  pub with_potential-IsFaithful :
      (p : Peer) (result : Tree × List Datagram)
      → Spreads T result
      → IsFaithful p
      → IsFaithful (with_potential p result)
  with_potential-IsFaithful p (t, out) s h =
      potential-IsFaithful _ t s.0 (sent-IsFaithful p out s.1 h)

  pub shown-IsFaithful :
      (text : List ℕ) (p : Peer) → T text → IsFaithful p → IsFaithful (print_on_screen text p)
  shown-IsFaithful text p t h = record {
    waits = h.waits;
    waits_potential = h.waits_potential;
    packets = h.packets;
    floods = h.floods;
    texts = All-append T p.shown (text ∷ []) h.texts (t, tt);
  }

  pub remove_neighbor_from_flood-IsFaithful :
      (index : DataIndex) (a : Addr) (p : Peer)
      → IsFaithful p
      → IsFaithful (remove_neighbor_from_flood index a p)
  unfolding remove_neighbor_from_flood
  remove_neighbor_from_flood-IsFaithful index a p h = record {
    waits = h.waits;
    waits_potential = h.waits_potential;
    packets = h.packets;
    floods = remove_in_first-content (IsBody T) index a p.dataf.entries h.floods;
    texts = h.texts;
  }

  remove_from_floods-IsFaithful :
      (is : List DataIndex) (a : Addr) (p : Peer)
      → IsFaithful p
      → IsFaithful (remove_from_floods is a p)
  unfolding remove_from_floods
  remove_from_floods-IsFaithful [] a p h = h
  remove_from_floods-IsFaithful (i ∷ is) a p h =
      remove_from_floods-IsFaithful is a (remove_neighbor_from_flood i a p)
        (remove_neighbor_from_flood-IsFaithful i a p h)

  pub remove_neighbor_everywhere-IsFaithful :
      (a : Addr) (p : Peer) → IsFaithful p → IsFaithful (remove_neighbor_everywhere a p)
  unfolding remove_neighbor_everywhere
  remove_neighbor_everywhere-IsFaithful a p h =
      let q = remove_from_floods (indices p.dataf.entries) a p in
      let kept = remove_from_floods-IsFaithful (indices p.dataf.entries) a p h in
      neighbors-IsFaithful q _ (remove_neighbor-All (Waits T) a q.neighbors kept.waits) kept

  -- A flood whose content is a data TLV that carries a text with the property.
  pub add_message_to_flood-IsFaithful :
      (env : Env) (payload rest : List ℕ) (to_delete : Option Addr) (p : Peer)
      → IsData T payload
      → IsValid p
      → IsFaithful p
      → IsFaithful (add_message_to_flood env (payload ++ rest) (length payload) to_delete p)
  unfolding add_message_to_flood add_flood
  add_message_to_flood-IsFaithful env payload rest to_delete p (head, text, l, e, small, t) v h =
      let n = length payload in
      let targets = delete_from to_delete (get_symmetrical env.now p.neighbors) in
      let f = flood_of (payload ++ rest) n targets in
      let tlv_bytes : take n (payload ++ rest) ≡ payload = take-append n payload rest refl in
      let content : f.content ≡ 4 ∷ n ∷ payload =
        flood_content n (payload ++ rest) ∙ ap (λ xs. 4 ∷ n ∷ xs) tlv_bytes in
      let body : IsBody T f.content =
        subst (IsBody T) (sym content)
          (tlv-IsBody T 4 payload (omega arith) (λ _. (head, text, l, e, small, t))) in
      rw (init_flood_lem (payload ++ rest) n targets (omega arith), add_flood)
        (record {
          waits = h.waits;
          waits_potential = h.waits_potential;
          packets = h.packets;
          floods =
              add_flood-All (λ g. IsBody T g.content) (some f) p v
                (λ g same. subst (λ (x : FloodEntry). IsBody T x.content) (some_inj same) body)
                h.floods;
          texts = h.texts;
        })

  -- A whole TLV to a neighbour, and to a whole tree.
  pub send_to-IsFaithful :
      (a : Addr) (w : Written) (p : Peer)
      → size_of w ≡ length w.bytes
      → length w.bytes ≤ pmtu - 4
      → IsBody T w.bytes
      → IsValid p
      → IsFaithful p
      → IsFaithful (send_to a w p)
  unfolding send_to
  send_to-IsFaithful a w p e small b v h =
      with_neighbors-IsFaithful p _
        (subst (λ n. Spreads T (send_via a (message w.bytes n) (n + 4) p.neighbors)) (sym e)
          (send_via-Spreads T a (message w.bytes (length w.bytes)) w.bytes p.neighbors
            (message-Carries w.bytes small) b v.good h.waits))
        h

  -- A GoAway to a neighbour that is then dropped.
  pub dropped-IsFaithful :
      (a : Addr) (w : Written) (p : Peer)
      → size_of w ≡ length w.bytes
      → length w.bytes ≤ pmtu - 4
      → IsBody T w.bytes
      → IsValid p
      → IsFaithful p
      → IsFaithful (remove_neighbor_everywhere a (send_to a w p))
  dropped-IsFaithful a w p e h b v f =
      remove_neighbor_everywhere-IsFaithful a _ (send_to-IsFaithful a w p e h b v f)
