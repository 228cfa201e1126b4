-- ===== src/Bytes.antt =====
-- Numbers in memory: what `memcpy` from and to a `u_int16_t`, `u_int32_t` or `u_int64_t` moves, and
-- `htons`. The host is little-endian, as the machines that the object files of lib_dir are for.
use projet_reseau.Prelude.{
  ℕ, zero, suc, ◌+◌, ◌*◌, ◌/◌, ◌%◌, ◌^◌, ◌<◌, ◌≡◌, refl, List, [], ◌∷◌, arith, length, All, ap,
}
use native.Mathlib.Nat.{pow-suc, pow-zero}

-- The `n` bytes of the number `x`, the lowest first.
unfoldable pub le_bytes : ℕ → ℕ → List ℕ
le_bytes zero x = []
le_bytes (suc n) x = (x % 256) ∷ le_bytes n (x / 256)

unfoldable pub le_value : List ℕ → ℕ
le_value [] = 0
le_value (b ∷ bs) = b + 256 * le_value bs

-- The network order of a 16-bit number, and `ntohs`, which is the same function.
unfoldable pub htons : ℕ → ℕ
htons x = (x % 256) * 256 + x / 256 % 256

unfoldable pub ntohs : ℕ → ℕ
unfolding htons
ntohs x = htons x

abbrev pub IsByte : ℕ → Type 0
IsByte b = b < 256

pub length-le_bytes : (n x : ℕ) → length (le_bytes n x) ≡ n
unfolding le_bytes
length-le_bytes zero x = refl
length-le_bytes (suc n) x = ap suc (length-le_bytes n (x / 256))

pub le_value-le_bytes : (n x : ℕ) → x < 256 ^ n → le_value (le_bytes n x) ≡ x
unfolding le_bytes le_value
le_value-le_bytes zero x h = omega (arith, pow-zero 256)
le_value-le_bytes (suc n) x h =
    omega (arith, le_value-le_bytes n (x / 256) (omega (arith, pow-suc 256 n)))

pub le_bytes-le_value : (bs : List ℕ) → All IsByte bs → le_bytes (length bs) (le_value bs) ≡ bs
unfolding le_bytes le_value
le_bytes-le_value [] h = refl
le_bytes-le_value (b ∷ bs) h = ground (arith, le_bytes-le_value bs h.1)

pub le_bytes-IsByte : (n x : ℕ) → All IsByte (le_bytes n x)
unfolding le_bytes
le_bytes-IsByte zero x = tt
le_bytes-IsByte (suc n) x = (omega arith, le_bytes-IsByte n (x / 256))

pub ntohs-htons : (x : ℕ) → x < 65536 → ntohs (htons x) ≡ x
unfolding ntohs
ntohs-htons x h = omega arith
