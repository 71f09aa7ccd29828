-- ===== src/Runner/Bounds.antt =====
-- `Run` ends: it never gets stuck, and takes two turns for each test and one more.
use grpc_test_infra.Base.{
  ℕ, ◌+◌, ◌*◌, ◌<◌, false, List, [], ◌∷◌, ◌++◌, ◌≡◌, refl, ap, ◌∙◌, inl, inr, length, length-append,
  Bool-cases, if◌then◌else◌, ltb, ltb→lt, arith,
}
use grpc_test_infra.Api.{LoadTest}
use grpc_test_infra.Runner.{Round, Step, Reach, start, receive, finish, here, next}
use grpc_test_infra.Runner.Rounds.{IsSound, Reach-IsSound}

-- The turns that are left.
abbrev pub turns : Round → ℕ
turns r = 2 * length r.pending + r.n + (if r.done then 0 else 1)

one_more : (r : Round) → r.done ≡ false → ◌≡◌ {A = ℕ} (if r.done then 0 else 1) 1
one_more r going = rw going refl

is_running :
    (r : Round) (before : List LoadTest) (c : LoadTest) (after : List LoadTest)
    → r.n ≡ length r.running
    → r.running ≡ before ++ c ∷ after
    → 0 < r.n
is_running r before c after counted e =
    omega (arith, counted ∙ ap length e, length-append before (c ∷ after))

Step-turns :
    {level : ℕ} {r s : Round} → Step level r s → r.n ≡ length r.running → turns s + 1 ≡ turns r
Step-turns (start r c cs going e room) counted = omega (arith, ap length e)
Step-turns (receive r before c after going waits e) counted =
    omega (arith, is_running r before c after counted e)
Step-turns (finish r going e n) counted = omega (arith, one_more r going)

-- After so many turns so many fewer are left: a run has at most twice as many turns as the queue has
-- tests, and one more.
pub Reach-turns :
    {level : ℕ} {configs : List LoadTest} {i : ℕ} {r : Round}
    → Reach level configs i r
    → i + turns r ≡ 2 * length configs + 1
Reach-turns here = omega arith
Reach-turns (next {i} {r} {s} reach step) =
    omega (arith, Reach-turns reach, Step-turns step (Reach-IsSound reach).counted)

-- As long as the name of the queue has not been sent, there is a next turn, if the level is positive.
pub Reach-goes_on :
    {level : ℕ} {configs : List LoadTest} {i : ℕ} {r : Round}
    → 0 < level
    → Reach level configs i r
    → r.done ≡ false
    → (s : Round) × Step level r s
Reach-goes_on {level} {configs} {i} {r} positive reach going = go r.pending refl r.running refl
  where
    h : IsSound level configs r
    h = Reach-IsSound reach

    go :
        (p : List LoadTest)
        → r.pending ≡ p
        → (f : List LoadTest) → r.running ≡ f
        → (s : Round) × Step level r s
    go [] e [] e' = (_, finish r going e (h.counted ∙ ap length e'))
    go [] e (c ∷ f) e' = (_, receive r [] c f going (inr (e, is_running r [] c f h.counted e')) e')
    go (x ∷ p) e [] e' =
        (_, start r x p going e (omega (arith, h.counted ∙ ap length e', positive)))
    go (x ∷ p) e (c ∷ f) e' = elim (Bool-cases (ltb r.n level)) [
      | inl room ↦ (_, start r x p going e (ltb→lt r.n level room))
      | inr full ↦ (
        _,
        receive r [] c f going
            (inl (λ none_left. ground (arith, e, none_left), ground (arith, full))) e',
      )
    ]
