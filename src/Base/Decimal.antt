-- ===== src/Base/Decimal.antt =====
-- `strconv.Itoa`: the decimal text of an `int`.
use Prim.Native.Nat.{ℕ, zero, suc, ◌/◌, ◌%◌, ◌+◌, compare, Ordering}
use Prim.Native.String.{String, ◌++◌ as ◌<>◌}
use mathlib.Core.Path.{◌≡◌, refl}
use mathlib.Core.List.{List, [], ◌∷◌}
use mathlib.Core.Bool.{Bool, true, false}
use provider_alibaba.Base.Tests.{if◌then◌else◌}
use provider_alibaba.Base.Int.{ℤ, pos, negsuc}

abbrev below_ten : ℕ → Bool
below_ten n = elim (compare n 10) [ Ordering.lt ↦ true | _ ↦ false ]

abbrev numerals : List String
numerals = "0" ∷ "1" ∷ "2" ∷ "3" ∷ "4" ∷ "5" ∷ "6" ∷ "7" ∷ "8" ∷ "9" ∷ []

-- The numeral at an index, which is below 10 at each use.
numeral : List String → ℕ → String
numeral [] i = ""
numeral (d ∷ ds) zero = d
numeral (d ∷ ds) (suc i) = numeral ds i

digit : ℕ → String
unfolding numeral
digit n = numeral numerals n

-- The fuel bounds the number of digits, and `n + 1` of it is enough, since each round divides by 10.
digits : ℕ → ℕ → String
unfolding digit
digits zero n = ""
digits (suc f) n =
    let rest = digits f (n / 10) <> digit (n % 10) in if below_ten n then digit n else rest

unfoldable pub itoa : ℤ → String
unfolding digits
itoa (pos n) = digits (n + 1) n
itoa (negsuc n) = "-" <> digits (n + 2) (n + 1)

itoa_port : itoa (pos 6379) ≡ "6379"
unfolding itoa
itoa_port = refl

itoa_negative : itoa (negsuc 41) ≡ "-42"
unfolding itoa
itoa_negative = refl
