-- ===== src/Runner.antt =====
-- tools/runner: the runner of load tests. `Runner.Run` starts the tests of a queue, so many at a time.
pub mod Rounds
pub mod Bounds
pub mod Queues
pub mod Configs
pub mod Flags
pub mod Main
pub mod Test
pub mod Reports
use grpc_test_infra.Base.{
  ℕ, ◌+◌, ◌-◌, ◌≤◌, ◌<◌, Bool, true, false, List, [], ◌∷◌, ◌++◌, ◌≡◌, ◌≢◌, ◌⊎◌,
}
use grpc_test_infra.Api.{LoadTest}

-- The variables of `Run`, and where its tests are: those that the loop has still to start, those
-- whose goroutine runs, in the order in which they were started, and those whose reporter it has
-- received.
pub record Round : Type 0 where
  pub pending : List LoadTest
  pub running : List LoadTest
  pub finished : List LoadTest
  pub n : ℕ
  pub count : ℕ
  -- The name of the queue has been sent.
  pub done : Bool

abbrev pub first_round : List LoadTest → Round
first_round configs = record {
  pending = configs;
  running = [];
  finished = [];
  n = 0;
  count = 0;
  done = false;
}

-- `Run` waits for a reporter: in the inner loop when the level is reached, or in the last loop.
abbrev pub Waits : ℕ → Round → Type 0
Waits level r = ((r.pending ≢ []) × (level ≤ r.n)) ⊎ ((r.pending ≡ []) × (0 < r.n))

-- One turn of the loops of `Run`. Which of the running tests ends next is up to the environment.
pub data Step (level : ℕ) : Round → Round → Type 0 where
  start :
      (r : Round) (config : LoadTest) (rest : List LoadTest)
      → r.done ≡ false
      → r.pending ≡ config ∷ rest
      → r.n < level
      → Step level r (record r { pending = rest; running = r.running ++ config ∷ []; n = r.n + 1 })
  receive :
      (r : Round) (before : List LoadTest) (config : LoadTest) (after : List LoadTest)
      → r.done ≡ false
      → Waits level r
      → r.running ≡ before ++ config ∷ after
      → Step level r (record r {
        running = before ++ after;
        finished = r.finished ++ config ∷ [];
        n = r.n - 1;
        count = r.count + 1;
      })
  finish :
      (r : Round)
      → r.done ≡ false
      → r.pending ≡ []
      → r.n ≡ 0
      → Step level r (record r { done = true })

-- A run of so many steps from the first round.
pub data Reach (level : ℕ) (configs : List LoadTest) : ℕ → Round → Type 0 where
  here : Reach level configs 0 (first_round configs)
  next :
      {i : ℕ} {r s : Round}
      → Reach level configs i r
      → Step level r s
      → Reach level configs (i + 1) s
