-- ===== src/Runner/Test/Once.antt =====
-- How often a run of a test creates it, and that a run sends its reporter just once.
use grpc_test_infra.Base.{
  ℕ, ◌+◌, ◌≤◌, String, Bool, true, false, List, [], ◌∷◌, Message, Result, ok, err, ◌≡◌, refl,
  length, arith, Bool-cases, inl, inr, ltb, keep, ◌==◌,
}
use grpc_test_infra.Api.{LoadTest, is_terminated}
use grpc_test_infra.Runner.Test.{
  Event, create_call, send, Poll, seen, observe, is_running, poll_rounds, first_poll, create_rounds,
  run_test,
}

-- Nothing comes after the reporter has been sent.
abbrev pub EndsAtSend : List Event → Type 0
EndsAtSend [] = Unit
EndsAtSend (send ∷ events) = events ≡ []
EndsAtSend (_ ∷ events) = EndsAtSend events

abbrev pub is_create : Event → Bool
is_create (create_call config) = true
is_create _ = false

abbrev pub creates_of : List Event → ℕ
creates_of events = length (keep is_create events)

module _ (limit : ℕ) (text : Message → String) where
  -- A part of a run that makes no call of `Create`.
  IsTail : List Event → Type 0
  IsTail events = EndsAtSend events × (creates_of events ≡ 0)

  observe-IsTail :
      (p : Poll) (found : LoadTest) (later : List Event)
      → IsTail later
      → IsTail (observe text p found later)
  unfolding observe IsTail
  observe-IsTail p found later h = elim (Bool-cases (is_terminated found.status.state)) [
    | inl over ↦ rw over (refl, refl)
    | inr on ↦ rw on (elim (Bool-cases (is_running found.status.state)) [
      | inl runs ↦ rw runs h
      | inr waits ↦ rw waits (elim (Bool-cases (p.status == (seen text p found).status)) [
        | inl same ↦ rw same h
        | inr new ↦ rw new h
      ])
    ])
  ]

  poll_rounds-IsTail :
      (p : Poll) (answers : List (Result LoadTest)) → IsTail (poll_rounds limit text p answers)
  unfolding poll_rounds IsTail
  poll_rounds-IsTail p [] = (tt, refl)
  poll_rounds-IsTail p (err e ∷ answers) = elim (Bool-cases (ltb p.retries limit)) [
    | inl more ↦ rw more (poll_rounds-IsTail (record p { retries = p.retries + 1 }) answers)
    | inr enough ↦ rw enough (refl, refl)
  ]
  poll_rounds-IsTail p (ok found ∷ answers) =
      observe-IsTail p found (poll_rounds limit text (seen text p found) answers)
        (poll_rounds-IsTail (seen text p found) answers)

  create_rounds-once :
      (retries : ℕ) (config : LoadTest) (polls creates : List (Result LoadTest))
      → retries ≤ limit
      → EndsAtSend (create_rounds limit text retries config polls creates)
        × (creates_of (create_rounds limit text retries config polls creates) + retries ≤ limit + 1)
  unfolding create_rounds IsTail
  create_rounds-once retries config polls [] few = (tt, omega arith)
  create_rounds-once retries config polls (err e ∷ creates) few =
      elim (Bool-cases (ltb retries limit)) [
        | inl more ↦ rw more (
            let (last, bound) =
              create_rounds-once (retries + 1) config polls creates (ground (arith, more)) in
            (last, omega (arith, bound)))
        | inr enough ↦ rw enough (refl, omega (arith, few))
      ]
  create_rounds-once retries config polls (ok created ∷ creates) few =
      let (last, none_more) = poll_rounds-IsTail (first_poll limit config created) polls in
      (last, omega (arith, none_more, few))

  -- A run of a test calls `Create` at most once more than the retries allow, and nothing comes after
  -- it has sent its reporter, so that the reporter is sent at most once.
  pub run_test-once :
      (config : LoadTest) (creates polls : List (Result LoadTest))
      → EndsAtSend (run_test limit text config creates polls)
        × (creates_of (run_test limit text config creates polls) ≤ limit + 1)
  unfolding run_test
  run_test-once config creates polls =
      let (last, bound) = create_rounds-once 0 config polls creates (omega arith) in
      (last, omega (arith, bound))
