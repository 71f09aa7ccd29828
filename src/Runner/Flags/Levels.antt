-- ===== src/Runner/Flags/Levels.antt =====
-- What holds of the concurrency levels that `Set` has collected without an error.
use grpc_test_infra.Base.{
  ℕ, ◌≤◌, ◌<◌, String, true, false, List, [], ◌∷◌, Option, none, some, Message, ◌≡◌, refl, ◌==◌,
  All, Bool-cases, inl, inr, length, arith, leb, leb→le, some-injective, nat_eq, subst,
}
use grpc_test_infra.Base.Int.{ℤ, pos, ltb_ℤ}
use grpc_test_infra.Base.Strings.{atoi, max_int, at_most, unsigned, minus, split_two}
use grpc_test_infra.Base.Dict.{Dict, insert, lookup_or, has, lookup}
use grpc_test_infra.Runner.Flags.{
  set_level, store_level, mixed, check_level, key_and_level, set_all, unless_error,
}
use Prim.Native.Nat.{zero, suc, ◌^◌}
use Prim.Native.Char.{code}

-- A level that a machine's `int` holds, and that is positive.
abbrev pub IsLevel : String × ℤ → Type 0
IsLevel (key, level) = (n : ℕ) × (level ≡ pos n) × (0 < n) × (n ≤ max_int)

-- Each level is positive and fits, and a level without the name of a queue stands alone.
pub record AreLevels (levels : Dict ℤ) : Type 0 where
  pub each : All IsLevel levels
  pub alone : has "" levels ≡ true → length levels ≡ 1

insert-All {ℓ κ} :
    {V : Type ℓ} (P : String × V → Type κ) (key : String) (new : V) (m : Dict V)
    → P (key, new)
    → All P m
    → All P (insert key new m)
unfolding insert
insert-All P key new [] p h = (p, tt)
insert-All P key new ((here, held) ∷ m) p h = elim (Bool-cases (here == key)) [
  | inl e ↦ rw e (p, h.1)
  | inr e ↦ rw e (h.0, insert-All P key new m p h.1)
]

at_most-pos :
    (o : Option ℕ) (z : ℤ) → at_most max_int pos o ≡ some z → (n : ℕ) × (z ≡ pos n) × (n ≤ max_int)
at_most-pos none z h = cc
at_most-pos (some n) z h = elim (Bool-cases (leb n max_int)) [
  | inl e ↦ (n, ground (arith, e, h), leb→le n max_int e)
  | inr e ↦ absurd (ground (arith, e, h))
]

minus-nonpositive : (n : ℕ) → ltb_ℤ (pos 0) (minus n) ≡ false
minus-nonpositive zero = refl
minus-nonpositive (suc n) = ground arith

at_most-minus : (o : Option ℕ) (z : ℤ) → at_most (2 ^ 63) minus o ≡ some z → ltb_ℤ (pos 0) z ≡ false
at_most-minus none z h = cc
at_most-minus (some n) z h = elim (Bool-cases (leb n (2 ^ 63))) [
  | inl e ↦ subst (λ z. ltb_ℤ (pos 0) z ≡ false) (ground (arith, e, h)) (minus-nonpositive n)
  | inr e ↦ absurd (ground (arith, e, h))
]

is_positive :
    (z : ℤ) → ltb_ℤ (pos 0) z ≡ true → (n : ℕ) × (z ≡ pos n) × (n ≤ max_int) → IsLevel ("", z)
is_positive z positive (n, e, fits) =
    (n, e, ground (arith, subst (λ z. ltb_ℤ (pos 0) z ≡ true) e positive), fits)

atoi-IsLevel : (s : String) (z : ℤ) → atoi s ≡ some z → ltb_ℤ (pos 0) z ≡ true → IsLevel ("", z)
unfolding atoi
atoi-IsLevel String.[] z h positive = cc
atoi-IsLevel (String.◌∷◌ c s) z h positive = elim (Bool-cases (nat_eq (code c) 43)) [
  | inl plus ↦ is_positive z positive (at_most-pos (unsigned s) z (ground (arith, plus, h)))
  | inr no_plus ↦ elim (Bool-cases (nat_eq (code c) 45)) [
    | inl dash ↦
        absurd (
          ground (arith, positive, at_most-minus (unsigned s) z (ground (arith, no_plus, dash, h))))
    | inr no_dash ↦
        is_positive z positive
          (at_most-pos (unsigned (String.◌∷◌ c s)) z (ground (arith, no_plus, no_dash, h)))
  ]
]

-- A level that is held for a key is one of the levels.
pub lookup_or-IsLevel :
    (key : String) (m : Dict ℤ)
    → All IsLevel m
    → has key m ≡ true
    → (0 < length m) × IsLevel (key, lookup_or (pos 0) key m)
unfolding has lookup_or lookup
lookup_or-IsLevel key [] h held = absurd (ground (arith, held))
lookup_or-IsLevel key ((here, level) ∷ m) h held = elim (Bool-cases (here == key)) [
  | inl e ↦ (omega arith, rw e h.0)
  | inr e ↦ (omega arith, rw e (lookup_or-IsLevel key m h.1 (ground (arith, e, held))).1)
]

above_zero : (key : String) (z : ℤ) → IsLevel (key, z) → ltb_ℤ (pos 0) z ≡ true
above_zero key z (n, e, p, fits) = rw e (ground arith)

alone_unless_mixed : (m : Dict ℤ) → All IsLevel m → mixed m ≡ false → has "" m ≡ true → length m ≡ 1
alone_unless_mixed m h unmixed held =
    let (some_level, level) = lookup_or-IsLevel "" m h held in
    ground (arith, some_level, above_zero "" _ level, unmixed)

store_level-AreLevels :
    (key : String) (level : ℤ) (levels : Dict ℤ)
    → IsLevel (key, level)
    → AreLevels levels
    → (store_level key level levels).1 ≡ none
    → AreLevels (store_level key level levels).0
unfolding store_level
store_level-AreLevels key level levels p h no_error = record {
  each = stored;
  alone = alone_unless_mixed (insert key level levels) stored (ground (arith, no_error));
}
  where
    stored : All IsLevel (insert key level levels)
    stored = insert-All IsLevel key level levels p h.each

check_level-AreLevels :
    (key text : String) (found : Option ℤ) (levels : Dict ℤ)
    → atoi text ≡ found
    → AreLevels levels
    → (check_level key text found levels).1 ≡ none
    → AreLevels (check_level key text found levels).0
check_level-AreLevels key text none levels e h no_error = cc
check_level-AreLevels key text (some level) levels e h no_error =
    elim (Bool-cases (ltb_ℤ (pos 0) level)) [
      | inl positive ↦ rw positive (
          store_level-AreLevels key level levels (atoi-IsLevel text level e positive) h
            (ground (arith, positive, no_error)))
      | inr other ↦ absurd (ground (arith, other, no_error))
    ]

set_level-AreLevels :
    (value : String) (levels : Dict ℤ)
    → AreLevels levels
    → (set_level value levels).1 ≡ none
    → AreLevels (set_level value levels).0
unfolding set_level
set_level-AreLevels value levels =
    let found = key_and_level (split_two ":" value) in
    check_level-AreLevels found.0 found.1 (atoi found.1) levels refl

set_all-AreLevels :
    (values : List String) (held levels : Dict ℤ)
    → AreLevels held
    → set_all set_level values held ≡ some levels
    → AreLevels levels
unfolding set_all
set_all-AreLevels [] held levels h e = subst AreLevels (some-injective e) h
set_all-AreLevels (value ∷ values) held levels h e =
    accepted (set_level value held).1 refl e (λ no_error.
      set_all-AreLevels values (set_level value held).0 levels
        (set_level-AreLevels value held h no_error))
  where
    rest : Option (Dict ℤ)
    rest = set_all set_level values (set_level value held).0

    accepted :
        (o : Option Message)
        → (set_level value held).1 ≡ o
        → unless_error o rest ≡ some levels
        → ((set_level value held).1 ≡ none → rest ≡ some levels → AreLevels levels)
        → AreLevels levels
    accepted none no_error e next = next no_error e
    accepted (some m) an_error e next = cc

no_levels : AreLevels []
unfolding has lookup
no_levels = record { each = tt; alone = λ e. absurd (ground (arith, e)) }

-- If all the values that are given for the levels are accepted, each level is positive and fits into
-- an `int`, and a level without the name of a queue stands alone.
pub set_level-bounds :
    (values : List String) (levels : Dict ℤ)
    → set_all set_level values [] ≡ some levels
    → All IsLevel levels × (has "" levels ≡ true → length levels ≡ 1)
set_level-bounds values levels e =
    let h : AreLevels levels = set_all-AreLevels values [] levels no_levels e in (h.each, h.alone)
