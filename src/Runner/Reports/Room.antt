-- ===== src/Runner/Reports/Room.antt =====
-- The prefix of a log line has room for the name of the queue and the index of the test.
use Prim.Native.Nat.{ℕ, zero, suc, ◌+◌, ◌/◌, ◌%◌, ◌≤◌, ◌<◌}
use text.Mathlib.TextLemmas.{nil-append, cons-append}
use mathlib.Core.List.{Memᴰ}
use grpc_test_infra.Base.{
  String, List, [], ◌∷◌, ◌≡◌, refl, ap, ◌∙◌, length, ltb, if◌then◌else◌, Bool-cases, inl, inr,
  arith, All, All-map, nat_eq, ◌-◌,
}
use grpc_test_infra.Base.Text.{
  decimal, decimal_fuel, decimal_fuel_enough, digit, entry_at, numerals, cat,
}
use grpc_test_infra.Base.Strings.{byte_length}
use grpc_test_infra.Base.Dict.{Dict}
use grpc_test_infra.Api.{LoadTest}
use grpc_test_infra.Runner.Reports.{
  Widths, wider, last_index, widths_from, widths, TestSuiteReporter, number_tests,
  new_test_suite_reporter, log_prefix_fmt,
}

byte_length-append : (s t : String) → byte_length (cat s t) ≡ byte_length s + byte_length t
unfolding byte_length
byte_length-append String.[] t = ap byte_length (nil-append t) ∙ omega arith
byte_length-append (String.◌∷◌ c s) t =
    ap byte_length (cons-append c s t) ∙ omega (arith, byte_length-append s t)

entry_at-one :
    (ss : List String) (n : ℕ) → All (λ s. byte_length s ≡ 1) ss → byte_length (entry_at ss n) ≡ 1
unfolding entry_at byte_length
entry_at-one [] n h = refl
entry_at-one (s ∷ ss) n h = elim (Bool-cases (nat_eq n 0)) [
  | inl e ↦ rw e h.0
  | inr e ↦ rw e (entry_at-one ss (n - 1) h.1)
]

digit_one : (n : ℕ) → byte_length (digit n) ≡ 1
unfolding digit numerals byte_length
digit_one n =
    entry_at-one numerals n
      (refl, (refl, (refl, (refl, (refl, (refl, (refl, (refl, (refl, tt)))))))))

-- The number of digits.
digits_of : ℕ → ℕ → ℕ
digits_of zero n = 0
digits_of (suc fuel) n = let rest = digits_of fuel (n / 10) in if ltb n 10 then 1 else rest + 1

digits_of_mono : (fuel m n : ℕ) → m ≤ n → digits_of fuel m ≤ digits_of fuel n
unfolding digits_of
digits_of_mono zero m n h = omega arith
digits_of_mono (suc fuel) m n h = ground (arith, digits_of_mono fuel (m / 10) (n / 10))

decimal_fuel-digits_of : (fuel n : ℕ) → byte_length (decimal_fuel fuel n) ≡ digits_of fuel n
unfolding decimal_fuel digits_of
decimal_fuel-digits_of zero n = unfold byte_length in refl
decimal_fuel-digits_of (suc fuel) n = elim (Bool-cases (ltb n 10)) [
  | inl e ↦ rw e (digit_one n)
  | inr e ↦ rw e (
      byte_length-append (decimal_fuel fuel (n / 10)) (digit (n % 10))
      ∙ omega (arith, decimal_fuel-digits_of fuel (n / 10), digit_one (n % 10)))
]

-- A smaller number has no more digits.
pub decimal_mono : (m n : ℕ) → m ≤ n → byte_length (decimal m) ≤ byte_length (decimal n)
unfolding decimal
decimal_mono m n h = omega (
  arith,
  ap byte_length (decimal_fuel_enough (suc m) (suc n) m (omega arith) (omega (arith, h))),
  decimal_fuel-digits_of (suc n) m,
  decimal_fuel-digits_of (suc n) n,
  digits_of_mono (suc n) m n h,
)

-- The widths have room for a queue and its tests.
pub record HasRoom (w : Widths) (queue : String) (i : ℕ) : Type 0 where
  pub for_queue : byte_length queue ≤ w.queue_width
  pub for_index : byte_length (decimal i) ≤ w.index_width

widths_from-grows :
    (queues : Dict (List LoadTest)) (w : Widths)
    → (w.queue_width ≤ (widths_from queues w).queue_width)
      × (w.index_width ≤ (widths_from queues w).index_width)
unfolding widths_from
widths_from-grows [] w = (omega arith, omega arith)
widths_from-grows ((queue, configs) ∷ queues) w =
    let next : Widths = record {
      queue_width = wider (byte_length queue) w.queue_width;
      index_width = wider (byte_length (last_index configs)) w.index_width;
    } in
    let (q, i) = widths_from-grows queues next in (ground (arith, q), ground (arith, i))

last_index-room :
    (configs : List LoadTest) (i : ℕ)
    → i < length configs
    → byte_length (decimal i) ≤ byte_length (last_index configs)
unfolding last_index
last_index-room [] i h = absurd (omega arith)
last_index-room (config ∷ configs) i h = decimal_mono i (length configs) (omega (arith, h))

widths_from-HasRoom :
    (queues : Dict (List LoadTest)) (w : Widths) (queue : String) (configs : List LoadTest) (i : ℕ)
    → Memᴰ (queue, configs) queues
    → i < length configs
    → HasRoom (widths_from queues w) queue i
unfolding widths_from
widths_from-HasRoom [] w queue configs i m h = elim m [ ]
widths_from-HasRoom ((other, others) ∷ queues) w queue configs i (Memᴰ.tail m) h =
    widths_from-HasRoom queues _ queue configs i m h
widths_from-HasRoom ((other, others) ∷ queues) w queue configs i (Memᴰ.head e) h =
    let next : Widths = record {
      queue_width = wider (byte_length other) w.queue_width;
      index_width = wider (byte_length (last_index others)) w.index_width;
    } in
    let (q, k) = widths_from-grows queues next in
    record {
      for_queue = ground (arith, q, ap (λ (x : String × List LoadTest). byte_length x.0) e);
      for_index = ground (
        arith,
        k,
        ap (λ (x : String × List LoadTest). byte_length (last_index x.1)) e,
        last_index-room configs i h,
      );
    }

abbrev IsBelow : ℕ → ℕ × LoadTest → Type 0
IsBelow n e = e.0 < n

number_tests-IsBelow :
    (r : TestSuiteReporter) (configs : List LoadTest) (n : ℕ)
    → r.test_case_count + length configs ≤ n
    → All (IsBelow n) (number_tests r configs)
unfolding number_tests
number_tests-IsBelow r [] n h = tt
number_tests-IsBelow r (config ∷ configs) n h = (
  omega (arith, h),
  number_tests-IsBelow (record r { test_case_count = r.test_case_count + 1 }) configs n
      (omega (arith, h)),
)

-- The prefixes of the log lines have room for the name of each queue and for the number that each of
-- its tests gets from the queue's reporter.
pub number_tests-HasRoom :
    (queues : Dict (List LoadTest)) (queue : String) (configs : List LoadTest)
    → Memᴰ (queue, configs) queues
    → All
        (λ e. HasRoom (widths queues) queue e.0)
        (number_tests (new_test_suite_reporter queue (log_prefix_fmt queues)) configs)
unfolding widths
number_tests-HasRoom queues queue configs m =
    All-map (λ e h. widths_from-HasRoom queues _ queue configs e.0 m h)
      (number_tests (new_test_suite_reporter queue (log_prefix_fmt queues)) configs)
      (number_tests-IsBelow (new_test_suite_reporter queue (log_prefix_fmt queues)) configs
        (length configs) (omega arith))
