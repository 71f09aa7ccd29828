-- ===== src/Controller/Conduct/Preparing.antt =====
-- The conduct of the first phases of a reconciliation: up to the update of the status.
use grpc_test_infra.Base.{
  String, ◌+◌, ◌*◌, Bool, true, false, Option, none, some, ◌≡◌, refl, Message, deref, leb, leb→le,
  deref-returns, subst, sym, ap, ◌≤◌,
}
use grpc_test_infra.Config.Images.{Defaults}
use grpc_test_infra.Config.Defaults.{set_load_test_defaults}
use grpc_test_infra.Api.{LoadTest, LoadTestStatus, is_terminated}
use grpc_test_infra.Kube.{ConfigMap}
use grpc_test_infra.Status.LoadTest.{second}
use grpc_test_infra.Controller.Cluster.{
  ApiError, not_found, conflict, already_exists, other_error, Reply, granted, denied, History,
  Cluster,
}
use grpc_test_infra.Controller.Prepare.{
  Request, LoadTest-discrete, with_test, fetch_test, return_error, delete_if, expire_if, expire,
  go_on_unless, store_defaults, apply_defaults, retry_with_status, retry_if, create_scenarios,
  with_config_map, ensure_config_map, granted_or_retry, after_status, refresh_status,
}
use grpc_test_infra.Controller.Effects.{
  Follows, bind-Follows, pure-Follows, return-Follows, run_pure-Follows, ask-Follows,
  observe-Follows, write-Follows, ite-Follows,
}
use grpc_test_infra.Controller.Conduct.{Stored, IsExpired, conduct}

module _ (k : Cluster) (defaults : Defaults) where
  with_test-Follows :
      (reply : Reply LoadTest)
      → (h : History) × (k.load_test h ≡ reply)
      → Follows (conduct k defaults) (Stored k) k (with_test reply)
  unfolding with_test
  with_test-Follows (granted test) here = pure-Follows test here
  with_test-Follows (denied not_found) here = return-Follows _ refl
  with_test-Follows (denied conflict) here = return-Follows _ refl
  with_test-Follows (denied already_exists) here = return-Follows _ refl
  with_test-Follows (denied (other_error m)) here = return-Follows _ refl

  pub fetch_test-Follows : Follows (conduct k defaults) (Stored k) k fetch_test
  unfolding fetch_test
  fetch_test-Follows =
      bind-Follows {Post = λ reply. (h : History) × (k.load_test h ≡ reply)}
        (ask-Follows _ _ tt (λ h. (h, refl))) with_test-Follows

  return_error-Follows :
      (Post : Unit {0} → Type 0) (e : Option ApiError)
      → Follows (conduct k defaults) Post k (return_error e)
  unfolding return_error
  return_error-Follows Post none = return-Follows _ refl
  return_error-Follows Post (some e) = return-Follows _ refl

  delete_if-Follows :
      (Post : Unit {0} → Type 0) (over : Bool) (test : LoadTest)
      → (over ≡ true → IsExpired k test)
      → Follows (conduct k defaults) Post k (delete_if over test)
  unfolding delete_if
  delete_if-Follows Post true test expired =
      bind-Follows (write-Follows _ (expired refl)) (λ e u. return_error-Follows Post e)
  delete_if-Follows Post false test expired = return-Follows _ refl

  expire_if-Follows :
      (b : Bool) (test : LoadTest)
      → Stored k test
      → is_terminated test.status.state ≡ b
      → Follows
          (conduct k defaults)
          (λ u. is_terminated test.status.state ≡ false)
          k
          (expire_if b test)
  unfolding expire_if
  expire_if-Follows false test stored e = pure-Follows _ e
  expire_if-Follows true test stored e =
      bind-Follows {Post = λ now. (h : History) × (k.now h ≡ now)}
        (ask-Follows _ _ tt (λ h. (h, refl)))
        (λ now (h, read).
          bind-Follows (run_pure-Follows (deref test.status.start_time) (λ start found. found))
            (λ start found.
              delete_if-Follows _ (leb (start + test.spec.ttl_seconds * second) now) test (λ over.
                record {
                  stored = stored;
                  terminated = e;
                  start = start;
                  started = deref-returns test.status.start_time found;
                  over = (
                    h,
                    subst (λ t. start + test.spec.ttl_seconds * second ≤ t) (sym read)
                        (leb→le _ now over),
                  );
                })))

  pub expire-Follows :
      (test : LoadTest)
      → Stored k test
      → Follows (conduct k defaults) (λ u. is_terminated test.status.state ≡ false) k (expire test)
  unfolding expire
  expire-Follows test stored = expire_if-Follows (is_terminated test.status.state) test stored refl

  go_on_unless-Follows :
      (Post : LoadTest → Type 0) (e : Option ApiError) (test : LoadTest)
      → Post test
      → Follows (conduct k defaults) Post k (go_on_unless e test)
  unfolding go_on_unless
  go_on_unless-Follows Post none test here = pure-Follows _ here
  go_on_unless-Follows Post (some e) test here = return-Follows _ refl

  -- The test with its defaults.
  abbrev pub HasDefaults : LoadTest → LoadTest → Type 0
  HasDefaults raw test =
      (h : History) × (set_load_test_defaults (k.fresh h) defaults raw ≡ (test, none))

  store_defaults-Follows :
      (raw test : LoadTest) (e : Option Message)
      → (h : History) × (set_load_test_defaults (k.fresh h) defaults raw ≡ (test, e))
      → Follows (conduct k defaults) (HasDefaults raw) k (store_defaults raw test e)
  unfolding store_defaults
  store_defaults-Follows raw test (some e) here =
      bind-Follows (write-Follows _ tt) (λ e u. return-Follows _ refl)
  store_defaults-Follows raw test none here =
      ite-Follows (LoadTest-discrete raw test) _ _ (pure-Follows _ here)
        (bind-Follows (write-Follows _ tt) (λ e u. go_on_unless-Follows _ e test here))

  pub apply_defaults-Follows :
      (raw : LoadTest)
      → Follows (conduct k defaults) (HasDefaults raw) k (apply_defaults defaults raw)
  unfolding apply_defaults
  apply_defaults-Follows raw =
      bind-Follows {Post = λ fresh. (h : History) × (k.fresh h ≡ fresh)}
        (observe-Follows _ (λ h. (h, refl)))
        (λ fresh (h, e).
          store_defaults-Follows raw _ _ (h, ap (λ f. set_load_test_defaults f defaults raw) e))

  retry_with_status-Follows :
      (test : LoadTest) (format : String) (e : ApiError)
      → Follows (conduct k defaults) (λ u. Unit) k (retry_with_status test format e)
  unfolding retry_with_status
  retry_with_status-Follows test format e =
      bind-Follows (write-Follows _ tt) (λ e u. return-Follows _ refl)

  retry_if-Follows : (e : Option ApiError) → Follows (conduct k defaults) (λ u. Unit) k (retry_if e)
  unfolding retry_if
  retry_if-Follows none = pure-Follows _ tt
  retry_if-Follows (some e) = return-Follows _ refl

  create_scenarios-Follows :
      (test : LoadTest) (map : ConfigMap) (e : Option ApiError)
      → Follows (conduct k defaults) (λ u. Unit) k (create_scenarios test map e)
  unfolding create_scenarios
  create_scenarios-Follows test map (some e) = retry_with_status-Follows test _ e
  create_scenarios-Follows test map none =
      bind-Follows (write-Follows _ tt) (λ e u. retry_if-Follows e)

  with_config_map-Follows :
      (req : Request) (test : LoadTest) (reply : Reply ConfigMap)
      → Follows (conduct k defaults) (λ u. Unit) k (with_config_map req test reply)
  unfolding with_config_map
  with_config_map-Follows req test (granted map) = pure-Follows _ tt
  with_config_map-Follows req test (denied not_found) =
      bind-Follows (write-Follows _ tt) (λ e u. create_scenarios-Follows test _ e)
  with_config_map-Follows req test (denied conflict) = retry_with_status-Follows test _ _
  with_config_map-Follows req test (denied already_exists) = retry_with_status-Follows test _ _
  with_config_map-Follows req test (denied (other_error m)) = retry_with_status-Follows test _ _

  pub ensure_config_map-Follows :
      (req : Request) (test : LoadTest)
      → Follows (conduct k defaults) (λ u. Unit) k (ensure_config_map req test)
  unfolding ensure_config_map
  ensure_config_map-Follows req test =
      bind-Follows {Post = λ reply. Unit} (ask-Follows _ _ tt (λ h. tt))
        (λ reply u. with_config_map-Follows req test reply)

  pub granted_or_retry-Follows {ℓ} :
      {A : Type ℓ} {Post : A → Type 0} (reply : Reply A)
      → ((a : A) → reply ≡ granted a → Post a)
      → Follows (conduct k defaults) Post k (granted_or_retry reply)
  unfolding granted_or_retry
  granted_or_retry-Follows (granted a) here = pure-Follows _ (here a refl)
  granted_or_retry-Follows (denied e) here = return-Follows _ refl

  after_status-Follows :
      (test : LoadTest) (e : Option ApiError)
      → Follows (conduct k defaults) (λ t. t ≡ test) k (after_status test e)
  unfolding after_status
  after_status-Follows test none = pure-Follows _ refl
  after_status-Follows test (some conflict) = return-Follows _ refl
  after_status-Follows test (some not_found) = return-Follows _ refl
  after_status-Follows test (some already_exists) = return-Follows _ refl
  after_status-Follows test (some (other_error m)) = return-Follows _ refl

  pub refresh_status-Follows :
      (test : LoadTest)
      → Follows
          (conduct k defaults)
          (λ u. (status : LoadTestStatus) × (u.0 ≡ record test { status = status }))
          k
          (refresh_status test)
  unfolding refresh_status
  refresh_status-Follows test =
      bind-Follows {Post = λ pods. Unit}
        (bind-Follows {Post = λ reply. Unit} (ask-Follows _ _ tt (λ h. tt))
          (λ reply u. granted_or_retry-Follows reply (λ a e. tt)))
        (λ pods u.
          bind-Follows {Post = λ readings. Unit} (observe-Follows _ (λ h. tt)) (λ readings u.
            bind-Follows {Post = λ status. Unit} (run_pure-Follows _ (λ a e. tt)) (λ status u.
              bind-Follows (write-Follows _ tt) (λ e u.
                bind-Follows (after_status-Follows _ e)
                  (λ updated same. pure-Follows _ (status, same))))))
