-- ===== src/Controller/Effects.antt =====
-- Triples for the actions of the controller: which calls an action may make, with which results it
-- may return, and which values it may go on with.
use mathlib.Core.Logic.{ite}
use grpc_test_infra.Base.{Option, ◌≡◌, refl, All, Outcome, returns, panics}
use grpc_test_infra.Controller.Cluster.{
  ApiError, Call, History, Cluster, Reconciled, Progress, goes_on, returned, crashed, Action, bind,
  continue, pure, return, run_pure, ask, observe, write,
}

-- `Allowed` is asked of the calls, `Ends` of the result; a crash ends the method without one.
pub record Rules : Type 1 where
  pub Allowed : Call → Type 0
  pub Ends : Reconciled → Type 0

module _ {ℓ} {A : Type ℓ} where
  abbrev pub Leads : Rules → (A → Type 0) → Progress A → Type 0
  Leads rules Post (goes_on a) = Post a
  Leads rules Post (returned r) = rules.Ends r
  Leads rules Post crashed = Unit

-- From allowed calls the action makes allowed calls only, and leads to what the rules say.
pub record Follows {ℓ} {A : Type ℓ} (rules : Rules) (Post : A → Type 0) (k : Cluster) (m : Action A)
    : Type 0 where
  pub runs :
      (h : History) → All rules.Allowed h → All rules.Allowed (m k h).1 × Leads rules Post (m k h).0

module _ {ℓ κ} {A : Type ℓ} {B : Type κ} {rules : Rules} {Post : A → Type 0} {Last : B → Type 0}
    {k : Cluster} where
  follow :
      (f : A → Action B) (p : Progress A) (h : History)
      → All rules.Allowed h
      → Leads rules Post p
      → ((a : A) → Post a → Follows rules Last k (f a))
      → All rules.Allowed (continue p f k h).1 × Leads rules Last (continue p f k h).0
  follow f (goes_on a) h calls here next = (next a here).runs h calls
  follow f (returned r) h calls here next = (calls, here)
  follow f crashed h calls here next = (calls, tt)

  pub bind-Follows :
      {m : Action A} {f : A → Action B}
      → Follows rules Post k m
      → ((a : A) → Post a → Follows rules Last k (f a))
      → Follows rules Last k (bind m f)
  unfolding bind
  bind-Follows {m} {f} first next = record {
    runs = λ h calls.
        let (calls', here) = first.runs h calls in follow f (m k h).0 (m k h).1 calls' here next;
  }

module _ {ℓ} {A : Type ℓ} {rules : Rules} {Post : A → Type 0} {k : Cluster} where
  pub pure-Follows : (a : A) → Post a → Follows rules Post k (pure a)
  unfolding pure
  pure-Follows a here = record { runs = λ h calls. (calls, here) }

  pub return-Follows : (r : Reconciled) → rules.Ends r → Follows rules Post k (return r)
  unfolding return
  return-Follows r ends = record { runs = λ h calls. (calls, ends) }

  pub run_pure-Follows :
      (o : Outcome A) → ((a : A) → o ≡ returns a → Post a) → Follows rules Post k (run_pure o)
  unfolding run_pure
  run_pure-Follows (returns a) here = record { runs = λ h calls. (calls, here a refl) }
  run_pure-Follows panics here = record { runs = λ h calls. (calls, tt) }

  pub ask-Follows :
      (call : Call) (answer : Cluster → History → A)
      → rules.Allowed call
      → ((h : History) → Post (answer k h))
      → Follows rules Post k (ask call answer)
  unfolding ask
  ask-Follows call answer allowed here = record { runs = λ h calls. ((allowed, calls), here h) }

  pub observe-Follows :
      (answer : Cluster → History → A)
      → ((h : History) → Post (answer k h))
      → Follows rules Post k (observe answer)
  unfolding observe
  observe-Follows answer here = record { runs = λ h calls. (calls, here h) }

module _ {ℓ κ} {A : Type ℓ} {P : Type κ} {rules : Rules} {Post : A → Type 0} {k : Cluster} where
  pub ite-Follows :
      (d : Dec P) (m n : Action A)
      → Follows rules Post k m
      → Follows rules Post k n
      → Follows rules Post k (ite d m n)
  ite-Follows (yes p) m n first second = first
  ite-Follows (no p) m n first second = second

module _ {rules : Rules} {k : Cluster} where
  pub write-Follows :
      (call : Call)
      → rules.Allowed call
      → Follows rules (λ (refused : Option ApiError). Unit {0}) k (write call)
  unfolding write
  write-Follows call allowed = record { runs = λ h calls. ((allowed, calls), tt) }
