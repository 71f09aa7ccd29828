-- ===== src/Runner/Queues.antt =====
-- tools/runner/queues.go: the map from queues to tests, and the check of the concurrency levels.
use grpc_test_infra.Base.{
  String, true, Option, none, some, List, [], ◌∷◌, ◌++◌, ◌≡◌, ◌↔◌, refl, sym, ap, ◌∙◌, ◌==◌, eq_iff,
  not, if◌then◌else◌, Message, plain, fill_text, keep, All, Bool-cases, inl, inr, arith,
}
use mathlib.Core.List.{append-nil, append_assoc}
use grpc_test_infra.Base.Int.{ℤ}
use grpc_test_infra.Base.Dict.{Dict, lookup_or, has, insert, lookup_or-insert}
use grpc_test_infra.Api.{LoadTest}

-- `QueueSelectorFromAnnotation`
unfoldable pub queue_selector_from_annotation : String → LoadTest → String
queue_selector_from_annotation key config = lookup_or "" key config.annotations

-- The loop of `CreateQueueMap`.
unfoldable pub queue_all :
    (LoadTest → String) → List LoadTest → Dict (List LoadTest) → Dict (List LoadTest)
queue_all qs [] m = m
queue_all qs (config ∷ configs) m =
    queue_all qs configs (insert (qs config) (lookup_or [] (qs config) m ++ config ∷ []) m)

unfoldable pub create_queue_map : List LoadTest → (LoadTest → String) → Dict (List LoadTest)
create_queue_map configs qs = queue_all qs configs []

abbrev no_level : String → Message
no_level q =
    if not (q == "")
    then fill_text (plain "no concurrency level specified for queue %q") q
    else plain "no concurrency level specified for global queue"

-- The loop of `ValidateConcurrencyLevels`, in the order of the list.
unfoldable pub validate_concurrency_levels : Dict (List LoadTest) → Dict ℤ → Option Message
validate_concurrency_levels [] levels = none
validate_concurrency_levels ((q, configs) ∷ m) levels =
    let later = validate_concurrency_levels m levels in
    if has q levels then later else some (no_level q)

lookup_or-queue_all :
    (qs : LoadTest → String) (q : String) (configs : List LoadTest) (m : Dict (List LoadTest))
    → lookup_or [] q (queue_all qs configs m) ≡ lookup_or [] q m ++ keep (λ c. qs c == q) configs
unfolding queue_all
lookup_or-queue_all qs q [] m = sym (append-nil (lookup_or [] q m))
lookup_or-queue_all qs q (c ∷ cs) m =
    lookup_or-queue_all qs q cs (insert (qs c) (lookup_or [] (qs c) m ++ c ∷ []) m)
    ∙ ap (λ l. l ++ keep (λ c. qs c == q) cs)
        (lookup_or-insert [] (qs c) q (lookup_or [] (qs c) m ++ c ∷ []) m)
    ∙ (elim (Bool-cases (qs c == q)) [
      | inl e ↦ rw e (
          ap (λ x. (lookup_or [] x m ++ c ∷ []) ++ keep (λ d. qs d == q) cs) ((eq_iff (qs c) q).0 e)
          ∙ append_assoc (lookup_or [] q m) (c ∷ []) (keep (λ d. qs d == q) cs))
      | inr e ↦ rw e refl
    ])

-- Each queue holds the tests that the selector maps to it, in their order.
pub create_queue_map-keep :
    (configs : List LoadTest) (qs : LoadTest → String) (q : String)
    → lookup_or [] q (create_queue_map configs qs) ≡ keep (λ c. qs c == q) configs
unfolding create_queue_map lookup_or
create_queue_map-keep configs qs q = lookup_or-queue_all qs q configs []

abbrev pub HasLevel : Dict ℤ → String × List LoadTest → Type 0
HasLevel levels (q, configs) = has q levels ≡ true

-- The check passes exactly if there is a level for each queue of the map.
pub validate_concurrency_levels-HasLevel :
    (m : Dict (List LoadTest)) (levels : Dict ℤ)
    → (validate_concurrency_levels m levels ≡ none) ↔ All (HasLevel levels) m
unfolding validate_concurrency_levels
validate_concurrency_levels-HasLevel [] levels = (λ e. tt, λ h. refl)
validate_concurrency_levels-HasLevel ((q, configs) ∷ m) levels =
    let (passes, enough) = validate_concurrency_levels-HasLevel m levels in
    elim (Bool-cases (has q levels)) [
      | inl e ↦ (λ h. (e, passes (ground (arith, e, h))), λ (x, h). ground (arith, e, enough h))
      | inr e ↦ (λ h. absurd (ground (arith, e, h)), λ (x, h). absurd (ground (arith, e, x)))
    ]
