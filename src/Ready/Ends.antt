-- ===== src/Ready/Ends.antt =====
-- The wait ends: by its deadline, or by an error of the API.
use mathlib.Core.List.{Memᴰ}
use grpc_test_infra.Base.{
  ℕ, ◌<◌, String, Bool, false, some, List, [], ◌∷◌, Result, ok, err, ◌≡◌, ◌≢◌, refl, ap, inl, inr,
  Bool-cases, Option-cases, nat_eq, length, ltb, arith,
}
use grpc_test_infra.Base.Dict.{Dict}
use grpc_test_infra.Ready.{
  Wait, Round, waiting, wait_rounds, visit_all, start, parse_selectors, wait_for_ready_pods,
}

module _ {Selector : Type 0} (matches : Selector → Dict String → Bool) where
  wait_rounds-ends :
      (deadline : ℕ) (ss : List Selector) (rounds : List Round) (w : Wait) (r : Round)
      → Memᴰ r rounds
      → deadline < r.now
      → wait_rounds matches (some deadline) ss rounds w ≢ waiting
  unfolding wait_rounds
  wait_rounds-ends deadline ss [] w r m late h = elim m [ ]
  wait_rounds-ends deadline ss (q ∷ rs) w r m late h = elim (Bool-cases (ltb deadline q.now)) [
    | inl over ↦ cc (rw over at h)
    | inr timely ↦ elim (Option-cases q.pods) [
      | inl broken ↦ cc (rw (timely, broken) at h)
      | inr (pods, listed) ↦
          elim (Bool-cases (nat_eq (visit_all matches ss pods w).match_count (length ss))) [
            | inl full ↦ cc (rw (timely, listed, full) at h)
            | inr more ↦
                later m
                  (λ n.
                    wait_rounds-ends deadline ss rs (visit_all matches ss pods w) r n late
                      (rw (timely, listed, more) at h))
                  timely
          ]
    ]
  ]
    where
      later : Memᴰ r (q ∷ rs) → (Memᴰ r rs → ⊥) → ltb deadline q.now ≡ false → ⊥
      later (Memᴰ.head e) rest timely = ground (arith, late, ap (λ (r : Round). r.now) e)
      later (Memᴰ.tail n) rest timely = rest n

-- With a deadline the wait ends: if in some round the clock reads a time after the deadline, the
-- call has returned addresses or an error, or the program has ended, by that round.
pub wait_for_ready_pods-ends :
    {Selector : Type 0} (parse : String → Result Selector) (matches : Selector → Dict String → Bool)
    (deadline : ℕ) (sels : List String) (rounds : List Round) (r : Round)
    → Memᴰ r rounds
    → deadline < r.now
    → wait_for_ready_pods parse matches (some deadline) sels rounds ≢ waiting
unfolding wait_for_ready_pods
wait_for_ready_pods-ends {Selector} parse matches deadline sels rounds r m late h =
    go (parse_selectors parse sels) refl
  where
    go : (parsed : Result (List Selector)) → parse_selectors parse sels ≡ parsed → ⊥
    go (err e) p = cc (rw (p, wait_for_ready_pods) at h)
    go (ok selectors) p =
        wait_rounds-ends matches deadline selectors rounds (start selectors) r m late
          (rw (p, wait_for_ready_pods) at h)
