-- ===== src/Runner/Main/Queued.antt =====
-- The queues hold the tests of the files, each of them once, and each queue has a positive level.
use mathlib.Core.List.{Perm, append_assoc, append-nil, perm_middle}
use mathlib.Core.List.Perm
use grpc_test_infra.Base.{
  String, ◌<◌, true, false, List, [], ◌∷◌, ◌++◌, ◌≡◌, refl, sym, ap, ◌∙◌, subst, ◌==◌, All,
  Bool-cases, inl, inr,
}
use grpc_test_infra.Base.Int.{ℤ, pos_part}
use grpc_test_infra.Base.Dict.{Dict, lookup, lookup_or, insert}
use grpc_test_infra.Api.{LoadTest}
use grpc_test_infra.Runner.Queues.{create_queue_map, queue_all, HasLevel}
use grpc_test_infra.Runner.Flags.Levels.{IsLevel, lookup_or-IsLevel}
use grpc_test_infra.Runner.Main.{Started, start_queues}

abbrev all_queued : Dict (List LoadTest) → List LoadTest
all_queued [] = []
all_queued ((queue, configs) ∷ m) = configs ++ all_queued m

abbrev pub all_started : List Started → List LoadTest
all_started [] = []
all_started (s ∷ started) = s.configs ++ all_started started

lookup_or-other :
    (queue here : String) (held : List LoadTest) (m : Dict (List LoadTest))
    → (here == queue) ≡ false
    → lookup_or [] queue ((here, held) ∷ m) ≡ lookup_or [] queue m
unfolding lookup_or lookup
lookup_or-other queue here held m e = rw e refl

lookup_or-same :
    (queue here : String) (held : List LoadTest) (m : Dict (List LoadTest))
    → (here == queue) ≡ true
    → lookup_or [] queue ((here, held) ∷ m) ≡ held
unfolding lookup_or lookup
lookup_or-same queue here held m e = rw e refl

lookup_or-nil : (queue : String) → lookup_or {V = List LoadTest} [] queue [] ≡ []
unfolding lookup_or lookup
lookup_or-nil queue = refl

queue_one :
    (queue : String) (config : LoadTest) (m : Dict (List LoadTest)) (new : List LoadTest)
    → new ≡ lookup_or [] queue m ++ config ∷ []
    → Perm (all_queued (insert queue new m)) (config ∷ all_queued m)
unfolding insert
queue_one queue config [] new h =
    subst (λ l. Perm (l ++ []) (config ∷ []))
      (sym (h ∙ ap (λ l. l ++ config ∷ []) (lookup_or-nil queue))) (Perm.refl (config ∷ []))
queue_one queue config ((here, held) ∷ m) new h = elim (Bool-cases (here == queue)) [
  | inl e ↦ rw e (
      subst (λ l. Perm (l ++ all_queued m) (config ∷ (held ++ all_queued m)))
        (sym (h ∙ ap (λ l. l ++ config ∷ []) (lookup_or-same queue here held m e)))
        (rw (append_assoc held (config ∷ []) (all_queued m)) (perm_middle held (all_queued m))))
  | inr e ↦ rw e (
      Perm.trans
        (Perm.append_left held (
          queue_one queue config m new
            (h ∙ ap (λ l. l ++ config ∷ []) (lookup_or-other queue here held m e))))
        (perm_middle held (all_queued m)))
]

queue_all-Perm :
    (qs : LoadTest → String) (configs : List LoadTest) (m : Dict (List LoadTest))
    → Perm (all_queued (queue_all qs configs m)) (configs ++ all_queued m)
unfolding queue_all
queue_all-Perm qs [] m = Perm.refl _
queue_all-Perm qs (config ∷ configs) m =
    Perm.trans
      (queue_all-Perm qs configs (insert (qs config) (lookup_or [] (qs config) m ++ config ∷ []) m))
      (Perm.trans (Perm.append_left configs (queue_one (qs config) config m _ refl))
        (perm_middle configs _))

started-queued :
    (levels : Dict ℤ) (m : Dict (List LoadTest))
    → all_started (start_queues levels m) ≡ all_queued m
unfolding start_queues
started-queued levels [] = refl
started-queued levels ((queue, configs) ∷ m) = ap (λ l. configs ++ l) (started-queued levels m)

pub started-Perm :
    (qs : LoadTest → String) (configs : List LoadTest) (levels : Dict ℤ)
    → Perm (all_started (start_queues levels (create_queue_map configs qs))) configs
unfolding create_queue_map
started-Perm qs configs levels = rw (started-queued levels (queue_all qs configs [])) (
    subst (λ l. Perm (all_queued (queue_all qs configs [])) l) (append-nil configs)
      (queue_all-Perm qs configs []))

abbrev pub IsPositive : Started → Type 0
IsPositive s = 0 < pos_part s.level

level_positive : (key : String) (level : ℤ) → IsLevel (key, level) → 0 < pos_part level
level_positive key level (n, e, positive, fits) = rw e positive

pub started-IsPositive :
    (levels : Dict ℤ) (m : Dict (List LoadTest))
    → All IsLevel levels
    → All (HasLevel levels) m
    → All IsPositive (start_queues levels m)
unfolding start_queues
started-IsPositive levels [] h k = tt
started-IsPositive levels ((queue, configs) ∷ m) h k = (
  level_positive queue _ (lookup_or-IsLevel queue levels h k.0).1,
  started-IsPositive levels m h k.1,
)
