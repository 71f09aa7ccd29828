-- ===== src/Controller/Terminated.antt =====
-- What `Reconcile` does with a test that has terminated.
use grpc_test_infra.Base.{
  ℕ, ◌+◌, ◌*◌, Bool, true, false, Option, none, some, [], ◌∷◌, ◌≡◌, refl, if◌then◌else◌, leb, deref,
  Option-cases, inl, inr,
}
use grpc_test_infra.Config.Images.{Defaults}
use grpc_test_infra.Api.{LoadTest, is_terminated}
use grpc_test_infra.Status.LoadTest.{second}
use grpc_test_infra.Controller.Cluster.{
  ApiError, granted, get_load_test, read_clock, delete_load_test, History, Cluster, Progress,
  returned, crashed, finished, retry, bind, ask, write, run_pure, return, pure, Action,
}
use grpc_test_infra.Controller.Prepare.{
  Request, fetch_test, with_test, expire, expire_if, delete_if, return_error, apply_defaults,
}
use grpc_test_infra.Controller.Reconcile.{reconcile, manage}

abbrev result_of_delete : Option ApiError → Progress (Unit {0})
result_of_delete none = returned finished
result_of_delete (some e) = returned (retry e)

-- The calls of a reconciliation that looks at the clock.
abbrev pub looked : History
looked = read_clock ∷ get_load_test ∷ []

-- A test without a start time crashes the controller; an expired one is deleted, and the error of
-- that, if any, is returned; any other one is left alone.
abbrev pub settled : Cluster → LoadTest → Option ℕ → Progress (Unit {0}) × History
settled k test none = (crashed, looked)
settled k test (some start) =
    if leb (start + test.spec.ttl_seconds * second) (k.now (get_load_test ∷ []))
    then (
      result_of_delete (k.refuses looked (delete_load_test test)),
      delete_load_test test ∷ looked,
    )
    else (returned finished, looked)

-- Nothing follows it.
delete_if-settled :
    (k : Cluster) (test : LoadTest) (next : Unit {0} → Action (Unit {0})) (over : Bool)
    (h : History)
    → bind (delete_if over test) next k h ≡ (
        if over
        then (result_of_delete (k.refuses h (delete_load_test test)), delete_load_test test ∷ h)
        else (returned finished, h))
unfolding delete_if bind write return return_error
delete_if-settled k test next true h = elim (Option-cases (k.refuses h (delete_load_test test))) [
  | inl e ↦ rw e refl
  | inr (x, e) ↦ rw e refl
]
delete_if-settled k test next false h = refl

expire_if-settled :
    (k : Cluster) (test : LoadTest) (next : Unit {0} → Action (Unit {0}))
    → bind (expire_if true test) next k (get_load_test ∷ []) ≡ settled k test test.status.start_time
unfolding expire_if bind ask run_pure
expire_if-settled k test next = go test.status.start_time
  where
    go :
        (o : Option ℕ)
        → bind
            (bind (ask read_clock (λ c h. c.now h)) (λ now.
              bind
                (run_pure (deref o))
                (λ start. delete_if (leb (start + test.spec.ttl_seconds * second) now) test)))
            next
            k
            (get_load_test ∷ [])
          ≡ settled k test o
    go none = refl
    go (some start) =
        delete_if-settled k test next
          (leb (start + test.spec.ttl_seconds * second) (k.now (get_load_test ∷ []))) looked

module _ (req : Request) (defaults : Defaults) (k : Cluster) (test : LoadTest) where
  -- The reconciliation of a stored test that has terminated reads the test and the clock and does
  -- nothing else, but for the deletion of the test when its time to live is over.
  pub reconcile-settled :
      k.load_test [] ≡ granted test
      → is_terminated test.status.state ≡ true
      → reconcile req defaults k [] ≡ settled k test test.status.start_time
  unfolding reconcile fetch_test expire bind ask with_test pure
  reconcile-settled stored over =
      rw (stored, over)
        (expire_if-settled k test
          (λ u. bind (apply_defaults defaults test) (λ t. manage req defaults t)))
