-- ===== src/Base/Text.antt =====
-- The verbs `%s` and `%d` of Go's `fmt`, for the texts that the program builds.
use Prim.Native.Nat.{ℕ, zero, suc, ◌<◌, ◌/◌, ◌%◌, ◌-◌}
use Prim.Native.String.{String, ◌++◌}
use mathlib.Core.List.{List, [], ◌∷◌}
use mathlib.Core.Path.{◌≡◌, refl, ap}
use text.Mathlib.Text.{◌==◌}
use text.Mathlib.TextEquality.{eq_iff}
use grpc_test_infra.Base.Tests.{ltb, nat_eq, if◌then◌else◌, Bool-cases}
use mathlib.Core.Logic.{inl, inr}
use native.Mathlib.Omega.{arith}

pub String-discrete : Discrete String
String-discrete s t = elim (Bool-cases (s == t)) [
  | inl e ↦ yes ((eq_iff s t).0 e)
  | inr e ↦ no (λ same. ground (arith, (eq_iff s t).1 same))
]

abbrev pub cat : String → String → String
cat s t = s ++ t

abbrev pub cat_all : List String → String
cat_all [] = ""
cat_all (s ∷ ss) = s ++ cat_all ss

unfoldable pub numerals : List String
numerals = "0" ∷ "1" ∷ "2" ∷ "3" ∷ "4" ∷ "5" ∷ "6" ∷ "7" ∷ "8" ∷ []

-- The entry of a list at a position, and the last digit beyond its end.
unfoldable pub entry_at : List String → ℕ → String
entry_at [] n = "9"
entry_at (s ∷ ss) n = let later = entry_at ss (n - 1) in if nat_eq n 0 then s else later

unfoldable pub digit : ℕ → String
unfolding numerals entry_at
digit n = entry_at numerals n

-- `fuel` bounds the number of digits.
unfoldable pub decimal_fuel : ℕ → ℕ → String
unfolding digit
decimal_fuel zero n = ""
decimal_fuel (suc fuel) n =
    let front = decimal_fuel fuel (n / 10) in if ltb n 10 then digit n else front ++ digit (n % 10)

-- `%d` of a number: it has no more digits than its own value plus one.
unfoldable pub decimal : ℕ → String
unfolding decimal_fuel
decimal n = decimal_fuel (suc n) n

decimal_example : decimal 10030 ≡ "10030"
unfolding decimal
decimal_example = refl

-- More fuel than that changes nothing, so the digits never run out of it.
pub decimal_fuel_enough : (f g n : ℕ) → n < f → n < g → decimal_fuel f n ≡ decimal_fuel g n
unfolding decimal_fuel
decimal_fuel_enough zero g n h k = elim h [ ]
decimal_fuel_enough (suc f) zero n h k = elim k [ ]
decimal_fuel_enough (suc f) (suc g) n h k = elim (Bool-cases (ltb n 10)) [
  | inl e ↦ rw e
  | inr e ↦ rw e (
      ap (λ s. cat s (digit (n % 10)))
        (decimal_fuel_enough f g (n / 10) (ground arith) (ground arith)))
]
