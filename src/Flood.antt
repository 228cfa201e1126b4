-- ===== src/Flood.antt =====
-- list.h, and the functions of list.c, abr.c and util.c that work on the entries of the lists of
-- floods and of neighbours to flood, without the globals.
pub mod Entries
use projet_reseau.Prelude.{
  ℕ, zero, suc, ◌+◌, ◌-◌, ◌*◌, ◌%◌, ◌/◌, ◌^◌, List, [], ◌∷◌, ◌++◌, Option, none, some, Ordering, lt,
  eq, gt, Bool, true, false, if◌then◌else◌, ltb, ◌==◌, is_eq, take, get_or, ◌&&◌,
}
use projet_reseau.Neighbor.{Addr, Ident, DataIndex, compare_n}
use projet_reseau.Abr.{Tree, find_by_aux, issymmetrical, is_old}
use projet_reseau.Genlist.{GenList, init_list, add_last}

-- The largest datagram, and the number of floods that are kept.
abbrev pub pmtu : ℕ
pmtu = 1232

abbrev pub nb_data : ℕ
nb_data = 100

-- `struct ngb_entry`; times are seconds of the monotonic clock.
pub record NgbEntry : Type 0 where
  pub sym : Addr
  pub times_sent : ℕ
  pub wait_time : ℕ

-- `struct flood_entry`; `content` is its array `data`, as far as it is written.
pub record FloodEntry : Type 0 where
  pub index : DataIndex
  pub content : List ℕ
  pub sym_neighbors : GenList NgbEntry

-- The sign of a difference of two `int`s, returned as a `short`.
unfoldable pub short_sign : ℕ → ℕ → Ordering
short_sign a b =
    let i = (a + 2 ^ 32 - b) % 2 ^ 16 in if i == 0 then eq else if ltb i (2 ^ 15) then gt else lt

-- 0 for one neighbour, else the difference of the times, and 1 where this is 0.
unfoldable pub compare_n_s : NgbEntry → NgbEntry → Ordering
unfolding short_sign
compare_n_s n1 n2 =
    if is_eq (compare_n n1.sym n2.sym)
    then eq
    else if n1.wait_time == n2.wait_time
    then gt
    else short_sign n1.wait_time n2.wait_time

-- 1 or 0, as `!` returns it.
unfoldable pub compare_d : DataIndex → DataIndex → Ordering
compare_d data1 data2 = if (data1.id == data2.id) && (data1.nonce == data2.nonce) then eq else gt

unfoldable pub compare_flood : FloodEntry → FloodEntry → Ordering
unfolding compare_d
compare_flood f1 f2 = compare_d f1.index f2.index

-- `rand() % (b - a) + a`, for the result `r` of `rand()`.
unfoldable pub rand_a_b : ℕ → ℕ → ℕ → ℕ
rand_a_b r a b = r % (b - a) + a

-- The time until the next transmission; `rand()` is called where something was sent before.
unfoldable pub wait_time : ℕ → ℕ → ℕ
unfolding rand_a_b
wait_time r zero = 1
wait_time r (suc n) = rand_a_b r (2 ^ n) (2 ^ suc n)

-- Both callers pass 0 for `times_sent`, and so no random number is drawn.
unfoldable pub init_ngb_entry : ℕ → Addr → NgbEntry
unfolding wait_time
init_ngb_entry now peer = record { sym = peer; times_sent = 0; wait_time = wait_time 0 0 + now }

-- The calls of `add_last` in `find_by_aux`, for the keys in the order of the visit.
unfoldable pub list_entries : ℕ → List Addr → GenList NgbEntry → GenList NgbEntry
unfolding init_ngb_entry add_last
list_entries now [] l = l
list_entries now (key ∷ keys) l = list_entries now keys (add_last true l (init_ngb_entry now key)).0

unfoldable pub find_by : ℕ → Tree → (Ident → Bool) → GenList NgbEntry
unfolding list_entries find_by_aux init_list
find_by now t func = list_entries now (find_by_aux t func) (init_list compare_n_s)

unfoldable pub get_symmetrical : ℕ → Tree → GenList NgbEntry
unfolding find_by issymmetrical
get_symmetrical now t = find_by now t (issymmetrical now)

-- `content` is the TLV to flood, with its size in the second byte; none is the null pointer.
unfoldable pub init_flood : DataIndex → List ℕ → GenList NgbEntry → Option FloodEntry
init_flood index content sym_neighbors =
    let size = get_or content 1 0 + 2 in
    if ltb (pmtu - 4) size
    then none
    else some (record { index = index; content = take size content; sym_neighbors = sym_neighbors })
