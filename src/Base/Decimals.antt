-- ===== src/Base/Decimals.antt =====
-- The numbers that `%d` prints are those that `strconv.Atoi` reads.
use Prim.Native.Nat.{ℕ, zero, suc, ◌+◌, ◌*◌, ◌-◌, ◌/◌, ◌%◌, ◌≤◌, ◌<◌}
use Prim.Native.Char.{Char, code}
use Prim.Native.String.{String, ◌++◌}
use mathlib.Core.Path.{◌≡◌, refl, ◌∙◌, ap, subst}
use mathlib.Core.Bool.{true, false}
use mathlib.Core.Logic.{inl, inr}
use mathlib.Core.List.{List, [], ◌∷◌}
use grpc_test_infra.Base.Lists.{All}
use mathlib.Core.Option.{Option, none, some}
use native.Mathlib.Omega.{arith}
use text.Mathlib.TextLemmas.{nil-append, cons-append}
use grpc_test_infra.Base.Tests.{ltb, nat_eq, Bool-cases, le→leb}
use grpc_test_infra.Base.Int.{pos}
use grpc_test_infra.Base.Text.{digit, decimal_fuel, decimal, entry_at, numerals}
use grpc_test_infra.Base.Strings.{
  digits, is_char, is_digit, split_two, at_most, atoi, max_int, onto_first,
}

abbrev more_digits : Option ℕ → String → Option ℕ
more_digits none s = none
more_digits (some n) s = digits s n

digits-append : (s t : String) (n : ℕ) → digits (s ++ t) n ≡ more_digits (digits s n) t
unfolding digits
digits-append String.[] t n = ap (λ s. digits s n) (nil-append t)
digits-append (String.◌∷◌ c s) t n = rw (cons-append c s t) elim (Bool-cases (is_digit c)) [
  | inl e ↦ rw e (digits-append s t (n * 10 + (code c - 48)))
  | inr e ↦ rw e refl
]

digits-digit : (d n : ℕ) → d < 10 → digits (digit d) n ≡ some (n * 10 + d)
unfolding digits digit
digits-digit zero n h = refl
digits-digit (suc zero) n h = refl
digits-digit (suc (suc zero)) n h = refl
digits-digit (suc (suc (suc zero))) n h = refl
digits-digit (suc (suc (suc (suc zero)))) n h = refl
digits-digit (suc (suc (suc (suc (suc zero))))) n h = refl
digits-digit (suc (suc (suc (suc (suc (suc zero)))))) n h = refl
digits-digit (suc (suc (suc (suc (suc (suc (suc zero))))))) n h = refl
digits-digit (suc (suc (suc (suc (suc (suc (suc (suc zero)))))))) n h = refl
digits-digit (suc (suc (suc (suc (suc (suc (suc (suc (suc zero))))))))) n h = refl
digits-digit (suc (suc (suc (suc (suc (suc (suc (suc (suc (suc d)))))))))) n h =
    absurd (omega arith)

digits-decimal_fuel : (fuel n : ℕ) → n < fuel → digits (decimal_fuel fuel n) 0 ≡ some n
unfolding decimal_fuel
digits-decimal_fuel zero n h = absurd (omega arith)
digits-decimal_fuel (suc fuel) n h = elim (Bool-cases (ltb n 10)) [
  | inl e ↦ rw e (digits-digit n 0 (ground (arith, e)) ∙ ap some (omega arith))
  | inr e ↦ rw e (
      digits-append (decimal_fuel fuel (n / 10)) (digit (n % 10)) 0
      ∙ ap (λ o. more_digits o (digit (n % 10)))
          (digits-decimal_fuel fuel (n / 10) (ground (arith, e)))
      ∙ digits-digit (n % 10) (n / 10) (omega arith)
      ∙ ap some (omega arith))
]

pub digits-decimal : (n : ℕ) → digits (decimal n) 0 ≡ some n
unfolding decimal
digits-decimal n = digits-decimal_fuel (suc n) n (omega arith)

-- A number has no colon.
digits-split_two : (s : String) (n m : ℕ) → digits s n ≡ some m → split_two ":" s ≡ s ∷ []
unfolding digits split_two
digits-split_two String.[] n m h = refl
digits-split_two (String.◌∷◌ c s) n m h = elim (Bool-cases (is_digit c)) [
  | inl e ↦
      rw (colon e)
        (ap (onto_first c) (digits-split_two s (n * 10 + (code c - 48)) m (ground (arith, e, h))))
  | inr e ↦ absurd (ground (arith, e, h))
]
  where
    colon : is_digit c ≡ true → is_char c ":" ≡ false
    colon e = ground (arith, e)

pub split_two-decimal : (n : ℕ) → split_two ":" (decimal n) ≡ decimal n ∷ []
split_two-decimal n = digits-split_two (decimal n) 0 n (digits-decimal n)

abbrev HasFirst : String → Type 0
HasFirst s = (c : Char) × (t : String) × (s ≡ String.◌∷◌ c t)

append-HasFirst : (s t : String) → HasFirst t → HasFirst (s ++ t)
append-HasFirst String.[] t (c, r, e) = (c, r, nil-append t ∙ e)
append-HasFirst (String.◌∷◌ d s) t h = (d, s ++ t, cons-append d s t)

entry_at-HasFirst : (ss : List String) (n : ℕ) → All HasFirst ss → HasFirst (entry_at ss n)
unfolding entry_at
entry_at-HasFirst [] n h = (_, _, refl)
entry_at-HasFirst (s ∷ ss) n h = elim (Bool-cases (nat_eq n 0)) [
  | inl e ↦ rw e h.0
  | inr e ↦ rw e (entry_at-HasFirst ss (n - 1) h.1)
]

digit-HasFirst : (d : ℕ) → HasFirst (digit d)
unfolding digit numerals
digit-HasFirst d = entry_at-HasFirst numerals d (
  (_, _, refl),
  (
    (_, _, refl),
    (
      (_, _, refl),
      (
        (_, _, refl),
        ((_, _, refl), ((_, _, refl), ((_, _, refl), ((_, _, refl), ((_, _, refl), tt))))),
      ),
    ),
  ),
)

decimal-HasFirst : (n : ℕ) → HasFirst (decimal n)
unfolding decimal decimal_fuel
decimal-HasFirst n = elim (Bool-cases (ltb n 10)) [
  | inl e ↦ rw e (digit-HasFirst n)
  | inr e ↦
      rw e (append-HasFirst (decimal_fuel n (n / 10)) (digit (n % 10)) (digit-HasFirst (n % 10)))
]

atoi-digits :
    (c : Char) (s : String) (n : ℕ)
    → digits (String.◌∷◌ c s) 0 ≡ some n
    → n ≤ max_int
    → atoi (String.◌∷◌ c s) ≡ some (pos n)
unfolding atoi digits
atoi-digits c s n h fits = elim (Bool-cases (is_digit c)) [
  | inl e ↦ rw (signless 43 (omega arith) e) (
      rw (signless 45 (omega arith) e)
        (ap (at_most max_int pos) h ∙ rw (le→leb n max_int fits) refl))
  | inr e ↦ absurd (ground (arith, e, h))
]
  where
    signless : (k : ℕ) → k < 48 → is_digit c ≡ true → nat_eq (code c) k ≡ false
    signless k low e = ground (arith, low, e)

atoi-read :
    (s : String) (n : ℕ) → HasFirst s → digits s 0 ≡ some n → n ≤ max_int → atoi s ≡ some (pos n)
atoi-read s n (c, t, e) h fits =
    ap atoi e ∙ atoi-digits c t n (subst (λ s. digits s 0 ≡ some n) e h) fits

-- An `int` that is not negative is read back from its decimal print.
pub atoi-decimal : (n : ℕ) → n ≤ max_int → atoi (decimal n) ≡ some (pos n)
atoi-decimal n = atoi-read (decimal n) n (decimal-HasFirst n) (digits-decimal n)

abbrev pub Lacks : Char → String → Type 0
Lacks sep String.[] = Unit
Lacks sep (String.◌∷◌ c s) = (is_char c sep ≡ false) × Lacks sep s

pub split_two-append : (q s : String) → Lacks ":" q → split_two ":" (q ++ ":" ++ s) ≡ q ∷ s ∷ []
unfolding split_two
split_two-append String.[] s h =
    ap (split_two ":") (nil-append (":" ++ s))
    ∙ ap (split_two ":") (cons-append ":" "" s)
    ∙ ap (λ t. "" ∷ t ∷ []) (nil-append s)
split_two-append (String.◌∷◌ c q) s h =
    rw (cons-append c q (":" ++ s)) (rw h.0 (ap (onto_first c) (split_two-append q s h.1)))

-- A number consists of digits.
digits-Lacks :
    (sep : Char) (s : String) (n m : ℕ) → is_digit sep ≡ false → digits s n ≡ some m → Lacks sep s
unfolding digits
digits-Lacks sep String.[] n m other h = tt
digits-Lacks sep (String.◌∷◌ c s) n m other h = elim (Bool-cases (is_digit c)) [
  | inl e ↦ (
    ground (arith, e, other),
    digits-Lacks sep s (n * 10 + (code c - 48)) m other (ground (arith, e, h)),
  )
  | inr e ↦ absurd (ground (arith, e, h))
]

pub decimal-Lacks : (sep : Char) (n : ℕ) → is_digit sep ≡ false → Lacks sep (decimal n)
decimal-Lacks sep n other = digits-Lacks sep (decimal n) 0 n other (digits-decimal n)
