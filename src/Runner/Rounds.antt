-- ===== src/Runner/Rounds.antt =====
-- What holds in every round of `Run`.
use mathlib.Core.List.Perm
use mathlib.Core.List.{Perm, append_assoc, append-nil, perm_middle, perm-append_left_iff}
use grpc_test_infra.Base.{
  ℕ, ◌≤◌, true, List, [], ◌∷◌, ◌++◌, ◌≡◌, refl, sym, ap, subst, ◌∙◌, length, length-append, arith,
}
use grpc_test_infra.Api.{LoadTest}
use grpc_test_infra.Runner.{Round, Step, Reach, start, receive, finish, here, next}

pub record IsSound (level : ℕ) (configs : List LoadTest) (r : Round) : Type 0 where
  pub counted : r.n ≡ length r.running
  pub bounded : r.n ≤ level
  pub tallied : r.count ≡ length r.finished
  pub conserved : Perm (r.finished ++ (r.running ++ r.pending)) configs
  pub over : r.done ≡ true → (r.pending ≡ []) × (r.n ≡ 0)

started :
    (f g : List LoadTest) (c : LoadTest) (cs : List LoadTest)
    → f ++ ((g ++ c ∷ []) ++ cs) ≡ f ++ (g ++ c ∷ cs)
started f g c cs = simp append_assoc

received :
    (f before after cs : List LoadTest) (c : LoadTest)
    → Perm ((f ++ c ∷ []) ++ ((before ++ after) ++ cs)) (f ++ ((before ++ c ∷ after) ++ cs))
received f before after cs c =
    simp append_assoc ((perm-append_left_iff f).1 (Perm.symm (perm_middle before (after ++ cs))))

Step-IsSound :
    {level : ℕ} {configs : List LoadTest} {r s : Round}
    → Step level r s
    → IsSound level configs r
    → IsSound level configs s
Step-IsSound {level} {configs} (start r c cs going e room) h = record {
  counted = omega (arith, length-append r.running (c ∷ []), h.counted);
  bounded = omega (arith, room);
  tallied = h.tallied;
  conserved =
      subst (λ l. Perm l configs) (sym (started r.finished r.running c cs))
        (subst (λ l. Perm (r.finished ++ (r.running ++ l)) configs) e h.conserved);
  over = λ d. absurd (ground (arith, going, d));
}
Step-IsSound {level} {configs} (receive r before c after going waits e) h = record {
  counted = omega (
    arith,
    length-append before (c ∷ after),
    length-append before after,
    h.counted ∙ ap length e,
  );
  bounded = omega (arith, h.bounded);
  tallied = omega (arith, length-append r.finished (c ∷ []), h.tallied);
  conserved =
      Perm.trans (received r.finished before after r.pending c)
        (subst (λ l. Perm (r.finished ++ (l ++ r.pending)) configs) e h.conserved);
  over = λ d. absurd (ground (arith, going, d));
}
Step-IsSound (finish r going e n) h = record {
  counted = h.counted;
  bounded = h.bounded;
  tallied = h.tallied;
  conserved = h.conserved;
  over = λ d. (e, n);
}

pub Reach-IsSound :
    {level : ℕ} {configs : List LoadTest} {i : ℕ} {r : Round}
    → Reach level configs i r
    → IsSound level configs r
Reach-IsSound {configs} here = record {
  counted = refl;
  bounded = omega arith;
  tallied = refl;
  conserved = Perm.refl configs;
  over = λ d. absurd (ground (arith, d));
}
Reach-IsSound (next reach step) = Step-IsSound step (Reach-IsSound reach)

-- At every moment no more tests run than the concurrency level allows, the number `n` is that of the
-- running tests, and every test of the queue is in one place: still to start, running, or finished.
pub Reach-bounded :
    {level : ℕ} {configs : List LoadTest} {i : ℕ} {r : Round}
    → Reach level configs i r
    → (length r.running ≤ level)
      × (r.n ≡ length r.running)
      × Perm (r.finished ++ (r.running ++ r.pending)) configs
Reach-bounded {level} {configs} {r} reach =
    let h : IsSound level configs r = Reach-IsSound reach in
    (omega (arith, h.counted, h.bounded), h.counted, h.conserved)

no_running : (xs : List LoadTest) → length xs ≡ 0 → xs ≡ []
no_running [] e = refl
no_running (x ∷ xs) e = absurd (ground (arith, e))

-- When the name of the queue is sent, every test of the queue has finished, and each just once.
pub Reach-done :
    {level : ℕ} {configs : List LoadTest} {i : ℕ} {r : Round}
    → Reach level configs i r
    → r.done ≡ true
    → Perm r.finished configs
Reach-done {level} {configs} {r} reach d =
    let h : IsSound level configs r = Reach-IsSound reach in
    let (none_left, idle) = h.over d in
    subst (λ l. Perm l configs)
      (ap (λ l. r.finished ++ (l ++ r.pending)) (no_running r.running (sym h.counted ∙ idle))
        ∙ ap (λ l. r.finished ++ l) none_left
        ∙ append-nil r.finished)
      h.conserved
