-- ===== src/Controller/Conduct/Whole.antt =====
-- The conduct of `Reconcile` from its first call to its result.
use grpc_test_infra.Base.{[], false, ◌≡◌, refl, inl, inr, ◌⊎◌, arith}
use grpc_test_infra.Base.Int.{ℤ, pos, negsuc}
use grpc_test_infra.Config.Images.{Defaults}
use grpc_test_infra.Api.{LoadTest, is_terminated}
use grpc_test_infra.Controller.Cluster.{Cluster, Reconciled, Progress, goes_on, returned, crashed}
use grpc_test_infra.Controller.Prepare.{Request}
use grpc_test_infra.Controller.Reconcile.{requeue_result, manage, reconcile}
use grpc_test_infra.Controller.Effects.{
  Follows, Leads, bind-Follows, return-Follows, run_pure-Follows,
}
use grpc_test_infra.Controller.Conduct.{Stored, IsRetry, conduct}
use grpc_test_infra.Controller.Conduct.Preparing.{
  HasDefaults, fetch_test-Follows, expire-Follows, apply_defaults-Follows,
  ensure_config_map-Follows, refresh_status-Follows,
}
use grpc_test_infra.Controller.Conduct.Scheduling.{schedule-Follows}

IsRetry-requeue_result : (d : ℤ) → IsRetry (requeue_result d)
IsRetry-requeue_result (pos n) = ground arith
IsRetry-requeue_result (negsuc n) = refl

abbrev pub EndsOrCrashes {ℓ} : {A : Type ℓ} → Progress A → Type ℓ
EndsOrCrashes p = ((r : Reconciled) × (p ≡ returned r) × IsRetry r) ⊎ (p ≡ crashed)

module _ {ℓ} {A : Type ℓ} (k : Cluster) (defaults : Defaults) where
  ends-or-crashes : (p : Progress A) → Leads (conduct k defaults) (λ a. ⊥) p → EndsOrCrashes p
  ends-or-crashes (goes_on a) h = absurd h
  ends-or-crashes (returned r) h = inl (r, refl, h)
  ends-or-crashes crashed h = inr refl

module _ (k : Cluster) (defaults : Defaults) (req : Request) where
  manage-Follows :
      (raw test : LoadTest)
      → Stored k raw
      → is_terminated raw.status.state ≡ false
      → HasDefaults k defaults raw test
      → Follows (conduct k defaults) (λ u. ⊥) k (manage req defaults test)
  unfolding manage
  manage-Follows raw test stored going filled =
      bind-Follows (ensure_config_map-Follows k defaults req test) (λ v u.
        bind-Follows (refresh_status-Follows k defaults test) (λ updated (status, same).
          bind-Follows
            (schedule-Follows k defaults _
              (record {
                raw = raw;
                stored = stored;
                going = going;
                filled = test;
                with_defaults = filled;
                status = status;
                refreshed = same;
              })
              _)
            (λ v u.
              bind-Follows {Post = λ d. Unit} (run_pure-Follows _ (λ a e. tt))
                (λ d u. return-Follows _ (IsRetry-requeue_result d)))))

  reconcile-Follows : Follows (conduct k defaults) (λ u. ⊥) k (reconcile req defaults)
  unfolding reconcile
  reconcile-Follows = bind-Follows (fetch_test-Follows k defaults) (λ raw stored.
      bind-Follows (expire-Follows k defaults raw stored) (λ v going.
        bind-Follows (apply_defaults-Follows k defaults raw)
          (λ test filled. manage-Follows raw test stored going filled)))

  -- A reconciliation panics, or returns a result that asks for another round at once just when it
  -- comes with an error.
  pub reconcile-IsRetry : EndsOrCrashes (reconcile req defaults k []).0
  reconcile-IsRetry = ends-or-crashes k defaults _ (reconcile-Follows.runs [] tt).1
