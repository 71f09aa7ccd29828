-- ===== src/Controller/Cluster.antt =====
-- The Kubernetes API, the clock, the UUID library and the order of Go's maps, as an environment that
-- answers each call by what was called before, and the actions that make such calls.
use grpc_test_infra.Base.{
  ℕ, String, Bool, true, false, Option, none, some, List, ◌∷◌, Message, Outcome, returns, panics,
}
use grpc_test_infra.Base.Int.{ℤ, pos}
use grpc_test_infra.Base.Dict.{Dict}
use grpc_test_infra.Api.{LoadTest}
use grpc_test_infra.Kube.{ConfigMap, Pod, Node}
use grpc_test_infra.Status.Missing.{MapOrder}
use grpc_test_infra.Status.LoadTest.{Readings}

-- The errors of the API that the program tells apart.
pub data ApiError : Type 0 where
  not_found conflict already_exists : ApiError
  other_error : Message → ApiError

pub data Reply {ℓ} (A : Type ℓ) : Type ℓ where
  granted : A → Reply A
  denied : ApiError → Reply A

pub data Call : Type 0 where
  get_load_test get_config_map list_pods list_nodes wait_for_cache_sync read_clock : Call
  delete_load_test update_load_test update_status : LoadTest → Call
  create_config_map set_config_map_owner : ConfigMap → Call
  set_pod_owner create_pod : Pod → Call
  -- The connection to a worker, and the RPC on it.
  dial_worker quit_worker : Pod → Call

-- The calls that were made, the last one first.
abbrev pub History : Type 0
History = List Call

pub record Cluster : Type 0 where
  pub load_test : History → Reply LoadTest
  pub config_map : History → Reply ConfigMap
  pub pods : History → Reply (List Pod)
  pub nodes : History → Reply (List Node)
  pub synced : History → Bool
  -- The error of a call that writes.
  pub refuses : History → Call → Option ApiError
  pub now : History → ℕ
  pub readings : History → Readings
  pub fresh : History → ℕ → String
  pub order : History → MapOrder
  pub pool_order : History → Dict ℕ → Dict ℕ

-- `ctrl.Result` and the error.
pub record Reconciled : Type 0 where
  pub requeue : Bool
  pub requeue_after : ℤ
  pub error : Option ApiError

abbrev pub finished : Reconciled
finished = record { requeue = false; requeue_after = pos 0; error = none }

abbrev pub retry : ApiError → Reconciled
retry e = record { requeue = true; requeue_after = pos 0; error = some e }

abbrev pub after : ℤ → Reconciled
after d = record { requeue = false; requeue_after = d; error = none }

-- A piece of `Reconcile` goes on with a value, returns from the method, or panics.
pub data Progress {ℓ} (A : Type ℓ) : Type ℓ where
  goes_on : A → Progress A
  returned : Reconciled → Progress A
  crashed : Progress A

abbrev pub Action {ℓ} : Type ℓ → Type ℓ
Action A = Cluster → History → Progress A × History

module _ {ℓ κ} {A : Type ℓ} {B : Type κ} where
  abbrev pub continue : Progress A → (A → Action B) → Action B
  continue (goes_on a) f k h = f a k h
  continue (returned r) f k h = (returned r, h)
  continue crashed f k h = (crashed, h)

unfoldable pub bind {ℓ κ} : {A : Type ℓ} {B : Type κ} → Action A → (A → Action B) → Action B
bind m f k h = let (p, h') = m k h in continue p f k h'

infixl 5 ◌>>=◌ ◌>>◌
abbrev pub ◌>>=◌ {ℓ κ} : {A : Type ℓ} {B : Type κ} → Action A → (A → Action B) → Action B
◌>>=◌ = bind

abbrev pub ◌>>◌ {ℓ} : {B : Type ℓ} → Action (Unit {0}) → Action B → Action B
m >> n = m >>= λ _. n

module _ {ℓ} {A : Type ℓ} where
  unfoldable pub pure : A → Action A
  pure a k h = (goes_on a, h)

  unfoldable pub return : Reconciled → Action A
  return r k h = (returned r, h)

  -- A computation of the program that may panic.
  unfoldable pub run_pure : Outcome A → Action A
  run_pure (returns a) k h = (goes_on a, h)
  run_pure panics k h = (crashed, h)

  -- A call that reads: its answer.
  unfoldable pub ask : Call → (Cluster → History → A) → Action A
  ask call answer k h = (goes_on (answer k h), call ∷ h)

  -- What the environment decides without a call.
  unfoldable pub observe : (Cluster → History → A) → Action A
  observe answer k h = (goes_on (answer k h), h)

-- A call that writes: its error.
unfoldable pub write : Call → Action (Option ApiError)
write call k h = (goes_on (k.refuses h call), call ∷ h)
