-- ===== src/Cleanup/Completes.antt =====
-- How quitWorkers ends, and whom it has called.
use mathlib.Core.List.{Memᴰ}
use grpc_test_infra.Base.{
  Bool, true, false, List, [], ◌∷◌, ◌≡◌, refl, ◌∙◌, sym, ap, All, returns, returns-injective, arith,
  some, ◌⊎◌, inl, inr, Option-cases,
}
use grpc_test_infra.Kube.{Pod}
use grpc_test_infra.Status.Container.{Verdict, is_pending, state_for_pod_status}
use grpc_test_infra.Controller.Cluster.{
  ApiError, Call, dial_worker, quit_worker, History, Cluster, Action, goes_on, crashed, bind, pure,
  run_pure, write,
}
use grpc_test_infra.Cleanup.{
  quit_dialled, call_quit, quit_if, quit_unless_driver, is_driver, quit_workers,
}

-- The status of a worker can be read: no dereference in it panics.
abbrev pub IsReadable : Pod → Type 0
IsReadable pod =
    is_driver pod ≡ false → (v : Verdict) × (state_for_pod_status pod.status ≡ returns v)

-- A worker that is pending is told to quit.
abbrev pub IsQuit : History → Pod → Type 0
IsQuit h pod =
    (v : Verdict)
    → is_driver pod ≡ false
    → state_for_pod_status pod.status ≡ returns v
    → is_pending v.state ≡ true
    → Memᴰ (quit_worker pod) h

-- A worker that is pending, and whose dial was the last call, and failed.
pub record IsUnreachable (k : Cluster) (h : History) (pod : Pod) : Type 0 where
  pub is_worker : is_driver pod ≡ false
  pub verdict : Verdict
  pub judged : state_for_pod_status pod.status ≡ returns verdict
  pub unfinished : is_pending verdict.state ≡ true
  pub before : History
  pub last : h ≡ dial_worker pod ∷ before
  pub error : ApiError
  pub failed : k.refuses before (dial_worker pod) ≡ some error

-- The action goes on and no call is forgotten, or it panics.
abbrev pub RunsOr :
    Cluster → Action (Unit {0}) → History → (History → Type 0) → (History → Type 0) → Type 0
RunsOr k m h Post Failed =
    ((after : History) × (m k h ≡ (goes_on tt, after))
      × ((call : Call) → Memᴰ call h → Memᴰ call after)
      × Post after)
    ⊎ ((after : History) × (m k h ≡ (crashed, after)) × Failed after)

abbrev pub DialFailed : Cluster → List Pod → History → Type 0
DialFailed k pods h = (pod : Pod) × Memᴰ pod pods × IsUnreachable k h pod

module _ (k : Cluster) where
  abbrev Undialled : Pod → History → Type 0
  Undialled pod after =
      (before : History) × (e : ApiError) × (after ≡ dial_worker pod ∷ before)
      × (k.refuses before (dial_worker pod) ≡ some e)

  call_quit-RunsOr :
      (pod : Pod) (h : History)
      → RunsOr k (call_quit pod) h (λ after. Memᴰ (quit_worker pod) after) (Undialled pod)
  unfolding call_quit quit_dialled bind write pure run_pure
  call_quit-RunsOr pod h = elim (Option-cases (k.refuses h (dial_worker pod))) [
    | inl dialled ↦ inl (
      quit_worker pod ∷ dial_worker pod ∷ h,
      rw dialled refl,
      λ call m. Memᴰ.tail (Memᴰ.tail m),
      Memᴰ.head refl,
    )
    | inr (e, failed) ↦ inr (dial_worker pod ∷ h, rw failed refl, (h, e, refl, failed))
  ]

  quit_if-RunsOr :
      (b : Bool) (pod : Pod) (h : History)
      → RunsOr k
          (quit_if b pod)
          h
          (λ after. b ≡ true → Memᴰ (quit_worker pod) after)
          (λ after. (b ≡ true) × Undialled pod after)
  unfolding quit_if pure
  quit_if-RunsOr false pod h = inl (h, refl, λ call m. m, λ e. ground (arith, e))
  quit_if-RunsOr true pod h = elim (call_quit-RunsOr pod h) [
    | inl (after, run, kept, quit) ↦ inl (after, run, kept, λ e. quit)
    | inr (after, crash, failed) ↦ inr (after, crash, (refl, failed))
  ]

  quit_unless_driver-RunsOr :
      (b : Bool) (pod : Pod) (h : History)
      → is_driver pod ≡ b
      → IsReadable pod
      → RunsOr k
          (quit_unless_driver b pod)
          h
          (λ after. IsQuit after pod)
          (λ after. IsUnreachable k after pod)
  unfolding quit_unless_driver bind run_pure pure
  quit_unless_driver-RunsOr true pod h e readable =
      inl (h, refl, λ call m. m, λ v worker judged unfinished. ground (arith, e, worker))
  quit_unless_driver-RunsOr false pod h e readable =
      let (v, judged) = readable e in
      elim (quit_if-RunsOr (is_pending v.state) pod h) [
        | inl (after, run, kept, quit) ↦ inl (
          after,
          rw judged run,
          kept,
          λ w worker read unfinished. quit (
              ap (λ (x : Verdict). is_pending x.state) (returns-injective (sym judged ∙ read))
              ∙ unfinished),
        )
        | inr (after, crash, (unfinished, (before, refusal, last, failed))) ↦ inr (
          after,
          rw judged crash,
          record {
            is_worker = e;
            verdict = v;
            judged = judged;
            unfinished = unfinished;
            before = before;
            last = last;
            error = refusal;
            failed = failed;
          },
        )
      ]

  -- Where the status of each worker can be read, the agent either goes through all the pods, and has
  -- told each worker that is pending by its containers to quit, whatever the workers answered; or it
  -- panics, and then its last call was the dial of a pending worker, which failed.
  pub quit_workers-IsQuit :
      (pods : List Pod) (h : History)
      → All IsReadable pods
      → RunsOr k (quit_workers pods) h (λ after. All (IsQuit after) pods) (DialFailed k pods)
  unfolding quit_workers bind pure
  quit_workers-IsQuit [] h readable = inl (h, refl, λ call m. m, tt)
  quit_workers-IsQuit (pod ∷ pods) h (readable, rest) =
      elim (quit_unless_driver-RunsOr (is_driver pod) pod h refl readable) [
        | inr (after, crash, failed) ↦ inr (after, rw crash refl, (pod, Memᴰ.head refl, failed))
        | inl (h1, run, kept, quit) ↦ elim (quit_workers-IsQuit pods h1 rest) [
          | inr (after, crash, (other, m, failed)) ↦
              inr (after, rw run crash, (other, Memᴰ.tail m, failed))
          | inl (after, run_all, kept_all, quits) ↦ inl (
            after,
            rw run run_all,
            λ call m. kept_all call (kept call m),
            (
              λ v worker judged unfinished.
                  kept_all (quit_worker pod) (quit v worker judged unfinished),
              quits,
            ),
          )
        ]
      ]
