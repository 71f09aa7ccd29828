-- ===== src/Status/PodVerdict.antt =====
-- The verdict on a pod, described without the loops of `StateForPodStatus`.
use grpc_test_infra.Base.{
  String, Bool, true, false, ◌&&◌, not, Option, none, some, List, [], ◌∷◌, ◌++◌, Outcome, returns,
  panics, ◌≡◌, refl, ap, ◌∙◌, ◌↔◌, plain, eq_iff, if◌then◌else◌, all, arith,
}
use grpc_test_infra.Base.Int.{ℤ}
use grpc_test_infra.Api.{init_container_error, container_error}
use grpc_test_infra.Kube.{ContainerStatus, PodStatus}
use grpc_test_infra.Status.Container.{
  State, pending, succeeded, errored, is_succeeded, is_errored, Verdict, state_for_terminated,
  state_for_container_status, errored_verdict, check_init_containers, check_containers,
  state_for_pod_status,
}

abbrev pub has_errored : ContainerStatus → Bool
has_errored c = is_errored (state_for_container_status c).0

abbrev pub has_succeeded : ContainerStatus → Bool
has_succeeded c = is_succeeded (state_for_container_status c).0

abbrev pub first_errored : List ContainerStatus → Option ContainerStatus
first_errored [] = none
first_errored (c ∷ cs) = let later = first_errored cs in if has_errored c then some c else later

abbrev is_nil : List ContainerStatus → Bool
is_nil [] = true
is_nil (c ∷ cs) = false

-- With no errored container: succeeded exactly when there are containers and all have succeeded.
abbrev pub quiet_state : Bool → List ContainerStatus → State
quiet_state so_far cs = if so_far && all has_succeeded cs then succeeded else pending

abbrev pub by_containers : Option ContainerStatus → State → Outcome Verdict
by_containers (some c) quiet =
    errored_verdict "container %q terminated with exit code %d" container_error c.name
      (state_for_container_status c).1
by_containers none quiet = returns (record { state = quiet; reason = ""; message = plain "" })

abbrev pub by_init_containers : Option ContainerStatus → Outcome Verdict → Outcome Verdict
by_init_containers (some c) rest =
    errored_verdict "init container %q terminated with exit code %d" init_container_error c.name
      (state_for_container_status c).1
by_init_containers none rest = rest

-- What the doc comment of `StateForPodStatus` promises, with no loop.
abbrev pub pod_verdict : PodStatus → Outcome Verdict
pod_verdict status =
    let cs = status.container_statuses in
    by_init_containers (first_errored status.init_container_statuses)
      (by_containers (first_errored cs) (quiet_state (not (is_nil cs)) cs))

check_init_containers-eq :
    (cs : List ContainerStatus) (rest : Outcome Verdict)
    → check_init_containers cs rest ≡ by_init_containers (first_errored cs) rest
unfolding check_init_containers
check_init_containers-eq [] rest = refl
check_init_containers-eq (c ∷ cs) rest = ground (arith, check_init_containers-eq cs rest)

-- After the first round `podState` is succeeded exactly if all containers so far have succeeded.
check_containers-later :
    (s : State) (cs : List ContainerStatus)
    → is_errored s ≡ false
    → check_containers false s cs
      ≡ by_containers (first_errored cs) (quiet_state (is_succeeded s) cs)
unfolding check_containers
check_containers-later s [] h = ground arith
check_containers-later s (c ∷ cs) h =
    ground (arith, check_containers-later s cs, check_containers-later pending cs)

check_containers-eq :
    (cs : List ContainerStatus)
    → check_containers true pending cs
      ≡ by_containers (first_errored cs) (quiet_state (not (is_nil cs)) cs)
unfolding check_containers
check_containers-eq [] = refl
check_containers-eq (c ∷ cs) =
    ground (arith, check_containers-later pending cs, check_containers-later succeeded cs)

-- The verdict on a pod is that of its first errored init container, else that of its first errored
-- container, else succeeded if it has a container and all have succeeded, else pending. With no
-- errored container the reason and the message are empty.
pub state_for_pod_status-eq-verdict :
    (status : PodStatus) → state_for_pod_status status ≡ pod_verdict status
unfolding state_for_pod_status
state_for_pod_status-eq-verdict status = rw (check_init_containers-eq, check_containers-eq)

abbrev pub culprit : PodStatus → Option ContainerStatus
culprit status = first_errored (status.init_container_statuses ++ status.container_statuses)

abbrev pub IsCrashLooping : ContainerStatus → Type 0
IsCrashLooping c = (c.state.terminated ≡ none) × (c.state.waiting ≡ some "CrashLoopBackOff")

crash-no_code :
    (c : ContainerStatus) → IsCrashLooping c → state_for_container_status c ≡ (errored, none)
unfolding state_for_container_status
crash-no_code c h = simp (h.0, h.1)

unexplained_error :
    (terminated : Option ℤ) (waiting : Option String)
    → is_errored (state_for_terminated terminated waiting).0 ≡ true
    → (state_for_terminated terminated waiting).1 ≡ none
    → (terminated ≡ none) × (waiting ≡ some "CrashLoopBackOff")
unfolding state_for_terminated
unexplained_error (some code) waiting e h = cc
unexplained_error none none e h = cc
unexplained_error none (some reason) e h = ground (arith, eq_iff "CrashLoopBackOff" reason)

no_code-crash :
    (c : ContainerStatus)
    → has_errored c ≡ true
    → (state_for_container_status c).1 ≡ none
    → IsCrashLooping c
unfolding state_for_container_status
no_code-crash c e h = unexplained_error c.state.terminated c.state.waiting e h

first_errored-has_errored :
    (cs : List ContainerStatus) (c : ContainerStatus)
    → first_errored cs ≡ some c
    → has_errored c ≡ true
first_errored-has_errored [] c h = cc
first_errored-has_errored (x ∷ xs) c h = ground (arith, first_errored-has_errored xs c)

errored_verdict-panics :
    (format reason name : String) (code : Option ℤ)
    → errored_verdict format reason name code ≡ panics
    → code ≡ none
unfolding errored_verdict
errored_verdict-panics format reason name code h = ground arith

abbrev earlier : Option ContainerStatus → Option ContainerStatus → Option ContainerStatus
earlier none b = b
earlier (some a) b = some a

first_errored-append :
    (xs ys : List ContainerStatus)
    → first_errored (xs ++ ys) ≡ earlier (first_errored xs) (first_errored ys)
first_errored-append [] ys = refl
first_errored-append (x ∷ xs) ys = ground (arith, first_errored-append xs ys)

panics-culprit :
    (a b : Option ContainerStatus) (quiet : State)
    → by_init_containers a (by_containers b quiet) ≡ panics
    → (c : ContainerStatus) × (earlier a b ≡ some c) × ((state_for_container_status c).1 ≡ none)
panics-culprit (some c) b quiet h = (c, refl, errored_verdict-panics _ _ _ _ h)
panics-culprit none (some c) quiet h = (c, refl, errored_verdict-panics _ _ _ _ h)
panics-culprit none none quiet h = cc

culprit-panics :
    (a b : Option ContainerStatus) (quiet : State) (c : ContainerStatus)
    → earlier a b ≡ some c
    → (state_for_container_status c).1 ≡ none
    → by_init_containers a (by_containers b quiet) ≡ panics
unfolding errored_verdict
culprit-panics (some x) b quiet c e h = ground arith
culprit-panics none (some x) quiet c e h = ground arith
culprit-panics none none quiet c e h = cc

-- The code panics on a pod exactly when its first errored container, init containers first, has not
-- terminated: it waits in CrashLoopBackOff and has no exit code to dereference.
pub state_for_pod_status_panics :
    (status : PodStatus)
    → (state_for_pod_status status ≡ panics)
      ↔ ((c : ContainerStatus) × (culprit status ≡ some c) × IsCrashLooping c)
state_for_pod_status_panics status = (
  λ h.
      let (c, found, code) = panics-culprit _ _ _ (rw state_for_pod_status-eq-verdict at h) in
      let first =
        first_errored-append status.init_container_statuses status.container_statuses ∙ found in
      (c, first, no_code-crash c (first_errored-has_errored _ c first) code),
  λ (c, found, crash). rw state_for_pod_status-eq-verdict (
      culprit-panics _ _ _ c (rw first_errored-append at found)
        (ap (λ s. s.1) (crash-no_code c crash))),
)
