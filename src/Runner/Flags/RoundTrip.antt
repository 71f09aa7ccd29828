-- ===== src/Runner/Flags/RoundTrip.antt =====
-- The concurrency levels that are written as flags are the levels that the flags collect.
use grpc_test_infra.Base.{
  ℕ, ◌≤◌, ◌<◌, String, true, false, [], ◌∷◌, ◌++◌, map, none, some, ◌≡◌, ◌≢◌, refl, sym, ap, ◌∙◌,
  ◌==◌, eq_iff, All, Bool-cases, inl, inr, arith, if◌then◌else◌, Option-cases, subst,
}
use mathlib.Core.List.{append-nil, append_assoc}
use grpc_test_infra.Base.Int.{ℤ, pos, ltb_ℤ}
use grpc_test_infra.Base.Text.{decimal, cat}
use grpc_test_infra.Base.Strings.{atoi, max_int}
use grpc_test_infra.Base.Decimals.{Lacks, split_two-append, split_two-decimal, atoi-decimal}
use grpc_test_infra.Base.Dict.{Dict, insert, lookup_or, has, lookup, insert-fresh, has-insert}
use grpc_test_infra.Runner.Flags.{set_level, store_level, mixed, check_level, set_all}

-- The value of the flag for a queue and its level; the empty name stands for no queue.
abbrev pub level_flag : String × ℕ → String
level_flag (queue, level) =
    if queue == "" then decimal level else cat queue (cat ":" (decimal level))

pub record IsWritable (e : String × ℕ) : Type 0 where
  pub no_colon : Lacks ":" e.0
  pub positive : 0 < e.1
  pub fits : e.1 ≤ max_int

read_level :
    (key text : String) (n : ℕ) (levels : Dict ℤ)
    → atoi text ≡ some (pos n)
    → 0 < n
    → check_level key text (atoi text) levels ≡ store_level key (pos n) levels
read_level key text n levels e positive = rw e (rw (above n positive) refl)
  where
    above : (n : ℕ) → 0 < n → ltb_ℤ (pos 0) (pos n) ≡ true
    above n h = ground arith

-- Reading what is written for a queue and a level stores that level for that queue.
pub set_level-level_flag :
    (e : String × ℕ) (levels : Dict ℤ)
    → IsWritable e
    → set_level (level_flag e) levels ≡ store_level e.0 (pos e.1) levels
unfolding set_level
set_level-level_flag (queue, n) levels h = elim (Bool-cases (queue == "")) [
  | inl e ↦ rw e (
      rw (split_two-decimal n) (
        read_level "" (decimal n) n levels (atoi-decimal n h.fits) h.positive
        ∙ ap (λ q. store_level q (pos n) levels) (sym ((eq_iff queue "").0 e))))
  | inr e ↦ rw e (
      rw (split_two-append queue (decimal n) h.no_colon)
        (read_level queue (decimal n) n levels (atoi-decimal n h.fits) h.positive))
]

abbrev pub as_level : String × ℕ → String × ℤ
as_level (queue, n) = (queue, pos n)

-- The names of the queues are not empty, and differ from one another and from those of the levels.
abbrev pub AreNew : Dict ℕ → Dict ℤ → Type 0
AreNew [] levels = Unit
AreNew ((queue, n) ∷ m) levels =
    (queue ≢ "") × (has queue levels ≡ false) × AreNew m (levels ++ (queue, pos n) ∷ [])

unmixed : (levels : Dict ℤ) → has "" levels ≡ false → mixed levels ≡ false
unfolding has lookup_or
unmixed levels h = elim (Option-cases (lookup "" levels)) [
  | inl e ↦ rw e refl
  | inr (level, e) ↦ absurd (ground (arith, e, h))
]

store_level-fresh :
    (queue : String) (level : ℤ) (levels : Dict ℤ)
    → queue ≢ ""
    → has queue levels ≡ false
    → has "" levels ≡ false
    → (store_level queue level levels ≡ (levels ++ (queue, level) ∷ [], none))
      × (has "" (levels ++ (queue, level) ∷ []) ≡ false)
unfolding store_level
store_level-fresh queue level levels named fresh no_global = (
  rw (unmixed (insert queue level levels) still) (ap (λ m. (m, none)) stored),
  subst (λ m. has "" m ≡ false) stored still,
)
  where
    stored : insert queue level levels ≡ levels ++ (queue, level) ∷ []
    stored = insert-fresh queue level levels fresh

    still : has "" (insert queue level levels) ≡ false
    still = ground (arith, has-insert queue "" level levels, no_global, eq_iff queue "", named)

set_all-level_flag :
    (m : Dict ℕ) (levels : Dict ℤ)
    → All IsWritable m
    → AreNew m levels
    → has "" levels ≡ false
    → set_all set_level (map level_flag m) levels ≡ some (levels ++ map as_level m)
unfolding set_all
set_all-level_flag [] levels h new no_global = ap some (sym (append-nil levels))
set_all-level_flag ((queue, n) ∷ m) levels h (named, fresh, new) no_global =
    let (stored, still) = store_level-fresh queue (pos n) levels named fresh no_global in
    rw (set_level-level_flag (queue, n) levels h.0) (
      rw stored (
        set_all-level_flag m (levels ++ (queue, pos n) ∷ []) h.1 new still
        ∙ ap some (append_assoc levels ((queue, pos n) ∷ []) (map as_level m))))

-- Levels of queues that have different, non-empty names without a colon, each positive and of a size
-- that an `int` holds, are read back from the flags `<queue name>:<concurrency level>` that write
-- them.
pub set_level-roundtrip :
    (m : Dict ℕ)
    → All IsWritable m
    → AreNew m []
    → set_all set_level (map level_flag m) [] ≡ some (map as_level m)
unfolding has lookup
set_level-roundtrip m h new = set_all-level_flag m [] h new refl
