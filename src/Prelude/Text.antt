-- ===== src/Prelude/Text.antt =====
-- Texts: code points, decimal numerals, joining and sorting.
use Prim.Native.Nat.{ℕ, zero, suc, ◌/◌, ◌%◌}
use Prim.Native.Char.{code}
use Prim.Native.String.{String, compare}
use mathlib.Core.List.{List, [], ◌∷◌}
use mathlib.Core.Path.{◌≡◌, refl}
use mathlib.Core.Logic.{◌≢◌}
use mathlib.Core.Bool.{true, false}
use native.Mathlib.Omega.{arith}
use text.Mathlib.Text.{is_le, ◌==◌}
use text.Mathlib.TextEquality.{eq_iff}
use realityai_agents.Prelude.Tests.{ltb, if◌then◌else◌}
pub use Prim.Native.String.{◌++◌ as ◌+++◌}

-- The code points of a text.
abbrev pub codes : String → List ℕ
codes String.[] = []
codes (String.◌∷◌ c s) = code c ∷ codes s

abbrev digit : ℕ → String
digit zero = "0"
digit (suc zero) = "1"
digit (suc (suc zero)) = "2"
digit (suc (suc (suc zero))) = "3"
digit (suc (suc (suc (suc zero)))) = "4"
digit (suc (suc (suc (suc (suc zero))))) = "5"
digit (suc (suc (suc (suc (suc (suc zero)))))) = "6"
digit (suc (suc (suc (suc (suc (suc (suc zero))))))) = "7"
digit (suc (suc (suc (suc (suc (suc (suc (suc zero)))))))) = "8"
digit (suc (suc (suc (suc (suc (suc (suc (suc (suc n))))))))) = "9"

numeral : ℕ → ℕ → String
numeral zero n = ""
numeral (suc fuel) n =
    let front = numeral fuel (n / 10) in if ltb n 10 then digit n else front +++ digit (n % 10)

-- `str(n)` of a number: the quotient by ten falls, so `n + 1` rounds are enough.
unfoldable pub decimal : ℕ → String
unfolding numeral
decimal n = numeral (suc n) n

-- `sep.join(parts)`
abbrev pub join : String → List String → String
join sep [] = ""
join sep (s ∷ []) = s
join sep (s ∷ t ∷ rest) = s +++ (sep +++ join sep (t ∷ rest))

abbrev place : String → List String → List String
place s [] = s ∷ []
place s (t ∷ ts) = let rest = place s ts in if is_le (compare s t) then s ∷ t ∷ ts else t ∷ rest

-- `sorted(texts)`
abbrev pub sorted : List String → List String
sorted [] = []
sorted (s ∷ ss) = place s (sorted ss)

-- Texts that the test tells apart are different.
pub ne_of_test : (s t : String) → (s == t) ≡ false → s ≢ t
ne_of_test s t h = λ e. ground (arith, (eq_iff s t).1 e)

pub test_refl : (s : String) → (s == s) ≡ true
test_refl s = (eq_iff s s).1 refl
