-- ===== src/Prelude/Decimal.antt =====
-- Go's `%d`: the decimal digits of an integer.
use Prim.Native.String.{String}
use Prim.Native.String
use mathlib.Core.Path.{◌≡◌}
use mathlib.Core.List.{List, [], ◌∷◌}
use Prim.Native.Nat.{ℕ, zero, suc, ◌/◌, ◌%◌, ◌<◌}
use native.Mathlib.Omega.{arith}
use flowctl.Prelude.Tests.{ltb, if◌then◌else◌}
use flowctl.Prelude.Int.{ℤ, pos, negsuc}

abbrev nth : List String → ℕ → String
nth [] n = ""
nth (x ∷ xs) zero = x
nth (x ∷ xs) (suc n) = nth xs n

-- The digit of a number below ten.
abbrev pub digit : ℕ → String
digit n = nth ("0" ∷ "1" ∷ "2" ∷ "3" ∷ "4" ∷ "5" ∷ "6" ∷ "7" ∷ "8" ∷ "9" ∷ []) n

-- On fuel: a number below the fuel never runs out of it (`digits_from_fuel`).
unfoldable pub digits_from : ℕ → ℕ → String
digits_from zero n = ""
digits_from (suc fuel) n =
    let front = digits_from fuel (n / 10) in
    if ltb n 10 then digit n else String.◌++◌ front (digit (n % 10))

unfoldable pub show_ℕ : ℕ → String
unfolding digits_from
show_ℕ n = digits_from (suc n) n

unfoldable pub show_ℤ : ℤ → String
unfolding show_ℕ
show_ℤ (pos n) = show_ℕ n
show_ℤ (negsuc n) = String.◌++◌ "-" (show_ℕ (suc n))

pub digits_from_fuel : (f g n : ℕ) → n < f → n < g → digits_from f n ≡ digits_from g n
unfolding digits_from
digits_from_fuel zero g n h k = elim h [ ]
digits_from_fuel (suc f) zero n h k = elim k [ ]
digits_from_fuel (suc f) (suc g) n h k = ground (arith, digits_from_fuel f g (n / 10))
