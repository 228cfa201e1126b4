-- ===== src/Tests/Structures.antt =====
-- Trees and lists: tests, and instances of their theorems.
use projet_reseau.Prelude.{
  ℕ, ◌+◌, ◌≤◌, ◌≡◌, refl, [], ◌∷◌, none, some, true, false, arith, length, replicate, compare, leb,
  is_some, if◌then◌else◌,
}
use projet_reseau.Neighbor.{Addr, Neighbor, Ident, compare_n, compare_ip, same}
use projet_reseau.Abr.{
  Tree, leaf, node, add_neighbor_aux, get_ident, remove_neighbor_aux, find_by_aux, is_old,
  number_of_neighbors, max_under,
}
use projet_reseau.Abr.Order.{IsOrdered, add-IsOrdered, remove-IsOrdered}
use projet_reseau.Abr.Lookup.{merged, get_ident-add, get_ident-remove}
use projet_reseau.Abr.Listing.{contains, contains-find_by}
use projet_reseau.Genlist.{GenList, add_limited, remove_elem, get, find}
use projet_reseau.Genlist.Counted.{IsCounted, with_front, add_limited_lem}
use projet_reseau.Genlist.Search.{erase, remove_elem_lem, remove_elem-middle}

abbrev addr_at : ℕ → Addr
addr_at port = record { ip = replicate 16 7; port = port }

abbrev plain : ℕ → Neighbor
plain port = record { addr = addr_at port; msg = none }

abbrev seen : ℕ → Ident
seen t = record { id = t + 100; last_hello = t; last_hello_long = t }

-- Three neighbours, the middle one at the root.
abbrev three : Tree
three =
    node (plain 20) (seen 5) (node (plain 10) (seen 1) leaf leaf)
      (node (plain 30) (seen 9) leaf leaf)

three-IsOrdered : IsOrdered three
unfolding compare_n compare_ip
three-IsOrdered = ((refl, tt, tt), (refl, tt, tt), (tt, tt, tt, tt), (tt, tt, tt, tt))

insert_then_remove :
    number_of_neighbors
      (remove_neighbor_aux (addr_at 20) (add_neighbor_aux true three (plain 25) (some (seen 3))).0)
    ≡ 3
unfolding number_of_neighbors remove_neighbor_aux add_neighbor_aux compare_n compare_ip
insert_then_remove = refl

last_key : max_under three ≡ some (plain 30, seen 9)
unfolding max_under
last_key = refl

get_ident-add_example :
    get_ident (add_neighbor_aux true three (plain 30) (some (seen 50))).0 (addr_at 30) ≡ (
      if same (addr_at 30) (addr_at 30)
      then some (merged (get_ident three (addr_at 30)) (some (seen 50)))
      else get_ident three (addr_at 30))
get_ident-add_example = get_ident-add three (plain 30) (some (seen 50)) (addr_at 30)

get_ident-remove_example :
    get_ident (remove_neighbor_aux (addr_at 20) three) (addr_at 30)
    ≡ (if same (addr_at 20) (addr_at 30) then none else get_ident three (addr_at 30))
get_ident-remove_example = get_ident-remove three (addr_at 20) (addr_at 30) three-IsOrdered

add-IsOrdered_example : IsOrdered (add_neighbor_aux true three (plain 15) (some (seen 2))).0
add-IsOrdered_example = add-IsOrdered true three (plain 15) (some (seen 2)) three-IsOrdered

remove-IsOrdered_example : IsOrdered (remove_neighbor_aux (addr_at 20) three)
remove-IsOrdered_example = remove-IsOrdered (addr_at 20) three three-IsOrdered

contains-find_by_example :
    contains (addr_at 10) (find_by_aux three (is_old 125))
    ≡ (elim (get_ident three (addr_at 10)) [ none ↦ false | some v ↦ is_old 125 v ])
contains-find_by_example = contains-find_by three (is_old 125) (addr_at 10) three-IsOrdered

abbrev numbers : GenList ℕ
numbers = record { length = 3; entries = 4 ∷ 5 ∷ 6 ∷ []; compare_f = compare }

add_limited_example :
    let (l', out) = add_limited true numbers 9 3 in
    IsCounted l'
    × (length l'.entries ≤ 3)
    × (with_front out l'.entries ≡ 4 ∷ 5 ∷ 6 ∷ 9 ∷ [])
    × (is_some out ≡ leb 3 3)
add_limited_example = add_limited_lem numbers 9 3 refl (omega arith) (omega arith)

remove_elem_example :
    ((remove_elem numbers 5).0.entries ≡ erase compare (4 ∷ 5 ∷ 6 ∷ []) 5)
    × ((remove_elem numbers 5).1 ≡ get numbers 5)
remove_elem_example = remove_elem_lem numbers 5

remove_elem-middle_example :
    ((remove_elem numbers 5).1 ≡ some 5)
    × ((remove_elem numbers 5).0.entries ≡ 4 ∷ 6 ∷ [])
    × ((remove_elem numbers 5).0.length ≡ length (remove_elem numbers 5).0.entries + 1)
unfolding find
remove_elem-middle_example = remove_elem-middle numbers 4 [] 5 6 [] 5 refl refl refl refl
