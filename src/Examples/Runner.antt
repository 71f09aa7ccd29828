-- ===== src/Examples/Runner.antt =====
-- A queue of one test at level 1: it is started, it ends, and the queue is done.
use mathlib.Core.List.{Perm}
use grpc_test_infra.Base.{
  ℕ, ◌+◌, ◌≤◌, true, false, List, [], ◌∷◌, ◌++◌, ◌≡◌, refl, length, inr, arith,
}
use grpc_test_infra.Api.{LoadTest}
use grpc_test_infra.Runner.{Round, Reach, first_round, start, receive, finish, here, next}
use grpc_test_infra.Runner.Rounds.{Reach-bounded, Reach-done}
use grpc_test_infra.Runner.Bounds.{turns, Reach-turns}
use grpc_test_infra.Base.{◌==◌, keep}
use grpc_test_infra.Base.Dict.{lookup_or}
use grpc_test_infra.Runner.Queues.{
  create_queue_map, queue_selector_from_annotation, create_queue_map-keep,
}
use grpc_test_infra.Examples.Fixtures.{test}

abbrev round_of : List LoadTest → List LoadTest → List LoadTest → ℕ → ℕ → Round
round_of pending running finished n count = record {
  pending = pending;
  running = running;
  finished = finished;
  n = n;
  count = count;
  done = false;
}

abbrev busy : Round
busy = round_of [] (test ∷ []) [] 1 0

abbrev idle : Round
idle = round_of [] [] (test ∷ []) 0 1

Reach-busy : Reach 1 (test ∷ []) 1 busy
Reach-busy = next here (start (first_round (test ∷ [])) test [] refl refl (omega arith))

Reach-idle : Reach 1 (test ∷ []) 2 idle
Reach-idle = next Reach-busy (receive busy [] test [] refl (inr (refl, omega arith)) refl)

Reach-idle_done : Reach 1 (test ∷ []) 3 (record idle { done = true })
Reach-idle_done = next Reach-idle (finish idle refl refl refl)

Reach-bounded_example :
    (length busy.running ≤ 1)
    × (busy.n ≡ length busy.running)
    × Perm (busy.finished ++ (busy.running ++ busy.pending)) (test ∷ [])
Reach-bounded_example = Reach-bounded Reach-busy

Reach-done_example : Perm idle.finished (test ∷ [])
Reach-done_example = Reach-done Reach-idle_done refl

Reach-turns_example : 1 + turns busy ≡ 3
Reach-turns_example = Reach-turns Reach-busy

abbrev alone : LoadTest
alone = record test { annotations = ("pool", "b") ∷ [] }

create_queue_map-keep_example :
    lookup_or [] "b" (create_queue_map (test ∷ alone ∷ []) (queue_selector_from_annotation "pool"))
    ≡ keep (λ c. queue_selector_from_annotation "pool" c == "b") (test ∷ alone ∷ [])
create_queue_map-keep_example =
    create_queue_map-keep (test ∷ alone ∷ []) (queue_selector_from_annotation "pool") "b"
