-- ===== src/Neighbor/Order.antt =====
-- `compare_n` is a strict total order on addresses.
use projet_reseau.Prelude.{ℕ, ◌≡◌, refl, List, [], ◌∷◌, lt, eq, gt, arith}
use projet_reseau.Neighbor.{Addr, compare_ip, compare_n}

ip_refl : (a : List ℕ) → compare_ip a a ≡ eq
unfolding compare_ip
ip_refl [] = refl
ip_refl (x ∷ xs) = ground (arith, ip_refl xs)

ip_eq : (a b : List ℕ) → compare_ip a b ≡ eq → a ≡ b
unfolding compare_ip
ip_eq [] [] h = refl
ip_eq [] (y ∷ ys) h = ground arith
ip_eq (x ∷ xs) [] h = ground arith
ip_eq (x ∷ xs) (y ∷ ys) h = ground (arith, ip_eq xs ys)

ip_gt : (a b : List ℕ) → compare_ip a b ≡ gt → compare_ip b a ≡ lt
unfolding compare_ip
ip_gt [] [] h = ground arith
ip_gt [] (y ∷ ys) h = ground arith
ip_gt (x ∷ xs) [] h = refl
ip_gt (x ∷ xs) (y ∷ ys) h = ground (arith, ip_gt xs ys)

ip_lt : (a b : List ℕ) → compare_ip a b ≡ lt → compare_ip b a ≡ gt
unfolding compare_ip
ip_lt [] [] h = ground arith
ip_lt [] (y ∷ ys) h = refl
ip_lt (x ∷ xs) [] h = ground arith
ip_lt (x ∷ xs) (y ∷ ys) h = ground (arith, ip_lt xs ys)

ip_trans : (a b c : List ℕ) → compare_ip a b ≡ lt → compare_ip b c ≡ lt → compare_ip a c ≡ lt
unfolding compare_ip
ip_trans [] [] c h k = ground arith
ip_trans [] (y ∷ ys) [] h k = ground arith
ip_trans [] (y ∷ ys) (z ∷ zs) h k = refl
ip_trans (x ∷ xs) [] c h k = ground arith
ip_trans (x ∷ xs) (y ∷ ys) [] h k = ground arith
ip_trans (x ∷ xs) (y ∷ ys) (z ∷ zs) h k = ground (arith, ip_trans xs ys zs)

pub compare_n_refl : (a : Addr) → compare_n a a ≡ eq
unfolding compare_n
compare_n_refl a = ground (arith, ip_refl a.ip)

-- Two addresses that compare as equal are the same address.
pub compare_n-eq : (a b : Addr) → compare_n a b ≡ eq → a ≡ b
unfolding compare_n
compare_n-eq a b h = ground (arith, ip_eq a.ip b.ip)

pub compare_n-gt : (a b : Addr) → compare_n a b ≡ gt → compare_n b a ≡ lt
unfolding compare_n
compare_n-gt a b h = ground (arith, ip_eq a.ip b.ip, ip_gt a.ip b.ip, ip_refl b.ip)

pub compare_n-lt : (a b : Addr) → compare_n a b ≡ lt → compare_n b a ≡ gt
unfolding compare_n
compare_n-lt a b h = ground (arith, ip_eq a.ip b.ip, ip_lt a.ip b.ip, ip_refl b.ip)

-- If an address compares as less than a second and the second as less than a third, the first
-- compares as less than the third.
pub compare_n_trans : (a b c : Addr) → compare_n a b ≡ lt → compare_n b c ≡ lt → compare_n a c ≡ lt
unfolding compare_n
compare_n_trans a b c h k =
    ground
      (arith, ip_eq a.ip b.ip, ip_eq b.ip c.ip, ip_trans a.ip b.ip c.ip, ip_refl a.ip, ip_refl b.ip)
