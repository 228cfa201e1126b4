-- ===== src/Prelude/Text.antt =====
-- The bytes that `printf` writes: literals and decimal numbers.
use Prim.Native.Nat.{ℕ, zero, suc, ◌+◌, ◌/◌, ◌%◌}
use Prim.Native.Char.{code}
use Prim.Native.String.{String}
use mathlib.Core.List.{List, [], ◌∷◌, ◌++◌}
use projet_reseau.Prelude.Tests.{ltb, if◌then◌else◌}

-- The bytes of an ASCII literal.
abbrev pub codes : String → List ℕ
codes String.[] = []
codes (String.◌∷◌ c s) = code c ∷ codes s

-- The digits of a number, on fuel.
unfoldable pub digits : ℕ → ℕ → List ℕ
digits zero n = []
digits (suc fuel) n =
    let rest = digits fuel (n / 10) ++ ((48 + n % 10) ∷ []) in
    if ltb n 10 then (48 + n) ∷ [] else rest

-- `%d`, `%u` and `%lu` of a number that is not negative: every division takes a digit.
unfoldable pub decimal : ℕ → List ℕ
unfolding digits
decimal n = digits (suc n) n

-- The parts of a text, one behind the other; `newline` is a part.
abbrev pub printed : List (List ℕ) → List ℕ
printed [] = []
printed (part ∷ parts) = part ++ printed parts

abbrev pub newline : List ℕ
newline = b'\n' ∷ []
