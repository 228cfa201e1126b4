-- ===== src/Peer/Removal.antt =====
-- What `remove_neighbor_everywhere` leaves in `NEIGHBORS`, and the handler of a GoAway with it.
use projet_reseau.Prelude.{◌≡◌, refl, ◌∙◌, List, [], ◌∷◌, none, if◌then◌else◌, ap}
use projet_reseau.Neighbor.{Addr, DataIndex, same}
use projet_reseau.Abr.{Tree, leaf, node, get_ident, remove_neighbor, remove_neighbor_aux}
use projet_reseau.Abr.Order.{IsOrdered}
use projet_reseau.Abr.Lookup.{get_ident-remove}
use projet_reseau.Peer.{
  Peer, remove_neighbor_from_flood, remove_from_floods, remove_neighbor_everywhere, indices,
}

pub remove_neighbor-get_ident :
    (a : Addr) (t : Tree) (q : Addr)
    → IsOrdered t
    → get_ident (remove_neighbor a t) q ≡ (if same a q then none else get_ident t q)
unfolding remove_neighbor
remove_neighbor-get_ident a leaf q s = unfold remove_neighbor_aux in get_ident-remove leaf a q s
remove_neighbor-get_ident a (node k v l r) q s = get_ident-remove (node k v l r) a q s

-- The loop over the floods changes these alone.
pub floods_only :
    (is : List DataIndex) (a : Addr) (p : Peer)
    → ((remove_from_floods is a p).neighbors ≡ p.neighbors)
      × ((remove_from_floods is a p).sent ≡ p.sent)
unfolding remove_from_floods remove_neighbor_from_flood
floods_only [] a p = (refl, refl)
floods_only (i ∷ is) a p = floods_only is a (remove_neighbor_from_flood i a p)

-- Where `NEIGHBORS` is a search tree: the neighbour is gone from it, all others stay, and nothing
-- is sent.
pub remove_neighbor_everywhere-get_ident :
    (a : Addr) (p : Peer) (q : Addr)
    → IsOrdered p.neighbors
    → (get_ident (remove_neighbor_everywhere a p).neighbors q
        ≡ (if same a q then none else get_ident p.neighbors q))
      × ((remove_neighbor_everywhere a p).sent ≡ p.sent)
unfolding remove_neighbor_everywhere
remove_neighbor_everywhere-get_ident a p q s =
    let (same_tree, same_sent) = floods_only (indices p.dataf.entries) a p in
    (
      ap (λ t. get_ident (remove_neighbor a t) q) same_tree
          ∙ remove_neighbor-get_ident a p.neighbors q s,
      same_sent,
    )
