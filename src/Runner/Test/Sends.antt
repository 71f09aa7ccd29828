-- ===== src/Runner/Test/Sends.antt =====
-- When the polling of a test ends: at a status that is a terminated one, or after too many errors in
-- a row.
use grpc_test_infra.Base.{
  ℕ, ◌+◌, ◌≤◌, ◌<◌, String, Bool, true, false, List, [], ◌∷◌, ◌++◌, Message, Result, ok, err, ◌≡◌,
  ◌↔◌, ◌⊎◌, inl, inr, refl, ap, ◌∙◌, ◌-◌, All, length, arith, Bool-cases, if◌then◌else◌, ltb, any,
  ◌||◌,
}
use grpc_test_infra.Api.{LoadTest, is_terminated}
use grpc_test_infra.Runner.Test.{Event, send, Poll, seen, observe, first_poll, poll_rounds}

abbrev pub is_send : Event → Bool
is_send send = true
is_send _ = false

-- The reporter is sent.
abbrev pub sends : List Event → Bool
sends = any is_send

abbrev pub IsErr : Result LoadTest → Type 0
IsErr (ok found) = ⊥
IsErr (err e) = Unit

-- One of the answers is a terminated test.
abbrev pub SeesEnd : List (Result LoadTest) → Type 0
SeesEnd answers =
    (before : List (Result LoadTest)) × (found : LoadTest) × (after : List (Result LoadTest))
    × (answers ≡ before ++ ok found ∷ after)
    × (is_terminated found.status.state ≡ true)

-- The first `n` answers are errors.
abbrev pub StartsFailing : ℕ → List (Result LoadTest) → Type 0
StartsFailing n answers =
    (fails : List (Result LoadTest)) × (after : List (Result LoadTest)) × (answers ≡ fails ++ after)
    × All IsErr fails
    × (length fails ≡ n)

-- Somewhere `n` answers in a row are errors.
abbrev pub Fails : ℕ → List (Result LoadTest) → Type 0
Fails n answers =
    (before : List (Result LoadTest)) × (rest : List (Result LoadTest)) × (answers ≡ before ++ rest)
    × StartsFailing n rest

module _ (limit : ℕ) where
  -- Whether the polling ends, by the number of the errors so far and the answers that are left.
  stops : ℕ → List (Result LoadTest) → Bool
  unfolding is_terminated
  stops retries [] = false
  stops retries (err e ∷ answers) =
      let again = stops (retries + 1) answers in if ltb retries limit then again else true
  stops retries (ok found ∷ answers) = is_terminated found.status.state || stops 0 answers

  sends-observe :
      (text : Message → String) (p : Poll) (found : LoadTest) (later : List Event)
      → sends (observe text p found later) ≡ (is_terminated found.status.state || sends later)
  unfolding observe
  sends-observe text p found later = ground arith

  sends-stops :
      (text : Message → String) (p : Poll) (answers : List (Result LoadTest))
      → sends (poll_rounds limit text p answers) ≡ stops p.retries answers
  unfolding poll_rounds stops
  sends-stops text p [] = refl
  sends-stops text p (err e ∷ answers) = elim (Bool-cases (ltb p.retries limit)) [
    | inl more ↦ rw more (sends-stops text (record p { retries = p.retries + 1 }) answers)
    | inr enough ↦ rw enough refl
  ]
  sends-stops text p (ok found ∷ answers) =
      sends-observe text p found (poll_rounds limit text (seen text p found) answers)
      ∙ ap (λ b. is_terminated found.status.state || b)
          (sends-stops text (seen text p found) answers)

  stops_end :
      (retries : ℕ) (before : List (Result LoadTest)) (found : LoadTest)
      (after : List (Result LoadTest))
      → is_terminated found.status.state ≡ true
      → stops retries (before ++ ok found ∷ after) ≡ true
  unfolding stops
  stops_end retries [] found after e = rw e refl
  stops_end retries (err m ∷ before) found after e =
      ground (arith, stops_end (retries + 1) before found after e)
  stops_end retries (ok earlier ∷ before) found after e =
      ground (arith, stops_end 0 before found after e)

  stops_failing :
      (retries : ℕ) (fails after : List (Result LoadTest))
      → All IsErr fails
      → limit < retries + length fails
      → retries ≤ limit
      → stops retries (fails ++ after) ≡ true
  unfolding stops
  stops_failing retries [] after h many few = absurd (omega arith)
  stops_failing retries (err e ∷ fails) after h many few = elim (Bool-cases (ltb retries limit)) [
    | inl more ↦
        rw more (stops_failing (retries + 1) fails after h.1 (omega arith) (ground (arith, more)))
    | inr enough ↦ rw enough refl
  ]
  stops_failing retries (ok found ∷ fails) after h many few = elim h.0 [ ]

  stops_fails :
      (retries : ℕ) (before fails after : List (Result LoadTest))
      → All IsErr fails
      → length fails ≡ limit + 1
      → retries ≤ limit
      → stops retries (before ++ (fails ++ after)) ≡ true
  unfolding stops
  stops_fails retries [] fails after h many few =
      stops_failing retries fails after h (omega (arith, many)) few
  stops_fails retries (err e ∷ before) fails after h many few =
      elim (Bool-cases (ltb retries limit)) [
        | inl more ↦
            rw more (stops_fails (retries + 1) before fails after h many (ground (arith, more)))
        | inr enough ↦ rw enough refl
      ]
  stops_fails retries (ok found ∷ before) fails after h many few =
      ground (arith, stops_fails 0 before fails after h many (omega arith))

  Stops : ℕ → List (Result LoadTest) → Type 0
  Stops retries answers =
      SeesEnd answers ⊎ (StartsFailing (limit + 1 - retries) answers ⊎ Fails (limit + 1) answers)

  later-Stops :
      (retries : ℕ) (a : Result LoadTest) (answers : List (Result LoadTest))
      → Stops 0 answers
      → Stops retries (a ∷ answers)
  unfolding Stops
  later-Stops retries a answers (inl (before, found, after, e, t)) =
      inl (a ∷ before, found, after, ap (λ l. a ∷ l) e, t)
  later-Stops retries a answers (inr (inl (fails, after, e, h, n))) =
      inr (inr (a ∷ [], answers, refl, (fails, after, e, h, omega (arith, n))))
  later-Stops retries a answers (inr (inr (before, rest, e, h))) =
      inr (inr (a ∷ before, rest, ap (λ l. a ∷ l) e, h))

  again-Stops :
      (retries : ℕ) (e : Message) (answers : List (Result LoadTest))
      → retries ≤ limit
      → Stops (retries + 1) answers
      → Stops retries (err e ∷ answers)
  unfolding Stops
  again-Stops retries m answers few (inl (before, found, after, e, t)) =
      inl (err m ∷ before, found, after, ap (λ l. err m ∷ l) e, t)
  again-Stops retries m answers few (inr (inl (fails, after, e, h, n))) =
      inr (inl (err m ∷ fails, after, ap (λ l. err m ∷ l) e, (tt, h), omega (arith, n)))
  again-Stops retries m answers few (inr (inr (before, rest, e, h))) =
      inr (inr (err m ∷ before, rest, ap (λ l. err m ∷ l) e, h))

  stops-Stops :
      (retries : ℕ) (answers : List (Result LoadTest))
      → retries ≤ limit
      → stops retries answers ≡ true
      → Stops retries answers
  unfolding stops Stops
  stops-Stops retries [] few h = absurd (ground (arith, h))
  stops-Stops retries (err e ∷ answers) few h = elim (Bool-cases (ltb retries limit)) [
    | inl more ↦
        again-Stops retries e answers few
          (stops-Stops (retries + 1) answers (ground (arith, more)) (ground (arith, more, h)))
    | inr enough ↦ inr (inl (err e ∷ [], answers, refl, (tt, tt), ground (arith, enough, few)))
  ]
  stops-Stops retries (ok found ∷ answers) few h =
      elim (Bool-cases (is_terminated found.status.state)) [
        | inl over ↦ inl ([], found, answers, refl, over)
        | inr on ↦
            later-Stops retries (ok found) answers
              (stops-Stops 0 answers (omega arith) (ground (arith, on, h)))
      ]

-- The polling of a test that has been created ends exactly if one of the answers is a terminated test,
-- or as many answers in a row as the retries allow, and one more, are errors. Errors that are not in
-- a row do not add up.
pub poll_rounds-sends :
    (limit : ℕ) (text : Message → String) (config created : LoadTest)
    (answers : List (Result LoadTest))
    → (sends (poll_rounds limit text (first_poll limit config created) answers) ≡ true)
      ↔ (SeesEnd answers ⊎ Fails (limit + 1) answers)
unfolding Stops
poll_rounds-sends limit text config created answers =
    rw (sends-stops limit text (first_poll limit config created) answers) (
      (λ e. at_start (stops-Stops limit 0 answers (omega arith) e)),
      λ h. elim h [
        | inl (before, found, after, e, over) ↦ rw e (stops_end limit 0 before found after over)
        | inr (before, rest, e, (fails, after, e', h, n)) ↦
            rw e (rw e' (stops_fails limit 0 before fails after h n (omega arith)))
      ],
    )
  where
    at_start : Stops limit 0 answers → SeesEnd answers ⊎ Fails (limit + 1) answers
    at_start (inl h) = inl h
    at_start (inr (inl (fails, after, e, h, n))) =
        inr ([], answers, refl, (fails, after, e, h, omega (arith, n)))
    at_start (inr (inr h)) = inr h
