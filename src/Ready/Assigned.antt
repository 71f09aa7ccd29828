-- ===== src/Ready/Assigned.antt =====
-- Each address that the init container writes is that of a ready pod which its selector matches.
use mathlib.Core.List.{Memᴰ}
use text.Mathlib.TextLemmas.{append-eq-nil_iff}
use grpc_test_infra.Base.{
  All-Mem, ℕ, suc, ◌≤◌, String, Bool, true, not, Option, none, some, List, [], ◌∷◌, Result, ok, ◌≡◌,
  refl, ap, ◌∙◌, sym, subst, some-injective, ◌⊎◌, inl, inr, ◌==◌, eq_iff, nat_eq, length, tally,
  Bool-cases, Option-cases, arith, All,
}
use grpc_test_infra.Base.Dict.{Dict, has}
use grpc_test_infra.Kube.{Pod}
use grpc_test_infra.Ready.{
  Wait, Round, Waited, ready, is_pod_ready, address_of, push, assign, visit, visit_all, is_late,
  wait_rounds, start, parse_selectors, wait_for_ready_pods,
}

abbrev is_filled : String → Bool
is_filled a = not (a == "")

filled : List String → ℕ
filled = tally is_filled

-- A ready pod has an IP address, so its address is no empty text.
address_of-filled : (pod : Pod) → is_pod_ready pod ≡ true → is_filled (address_of pod) ≡ true
unfolding is_pod_ready address_of
address_of-filled pod h = elim (Bool-cases (address_of pod == "")) [
  | inl e ↦
      let (no_ip, _) = append-eq-nil_iff.0 ((eq_iff (address_of pod) "").0 e) in
      ground (arith, no_ip, eq_iff pod.status.pod_ip "")
  | inr e ↦ rw e refl
]

module _ {Selector : Type 0} (matches : Selector → Dict String → Bool) where
  -- A ready pod that was seen, which the selector matches and whose address it is.
  abbrev pub Serves : (Pod → Type 0) → Selector → String → Type 0
  Serves Seen s a =
      (pod : Pod) × Seen pod
      × (is_pod_ready pod ≡ true)
      × (matches s pod.labels ≡ true)
      × (a ≡ address_of pod)

  -- One address for each selector, in their order: empty, or that of a pod which serves it.
  abbrev pub Assigned : (Pod → Type 0) → List Selector → List String → Type 0
  Assigned Seen [] [] = Unit
  Assigned Seen (s ∷ ss) (a ∷ others) = ((a ≡ "") ⊎ Serves Seen s a) × Assigned Seen ss others
  Assigned Seen _ _ = ⊥

  -- One address for each selector, in their order, each that of a pod which serves it.
  abbrev pub AllServed : (Pod → Type 0) → List Selector → List String → Type 0
  AllServed Seen [] [] = Unit
  AllServed Seen (s ∷ ss) (a ∷ others) = Serves Seen s a × AllServed Seen ss others
  AllServed Seen _ _ = ⊥

  abbrev Grown : (Pod → Type 0) → List Selector → List String → List String → Type 0
  Grown Seen ss before after = Assigned Seen ss after × (filled after ≡ suc (filled before))

  -- The selector at the head is passed over.
  push-Grown :
      (Seen : Pod → Type 0) (s : Selector) (ss : List Selector) (b : String)
      (bs after : List String)
      → (b ≡ "") ⊎ Serves Seen s b
      → (found : Option (List String))
      → ((others : List String) → found ≡ some others → Grown Seen ss bs others)
      → push b found ≡ some after
      → Grown Seen (s ∷ ss) (b ∷ bs) after
  unfolding filled
  push-Grown Seen s ss b bs after first none rest h = cc
  push-Grown Seen s ss b bs after first (some others) rest h =
      let (a, grown) = rest others refl in
      subst (Grown Seen (s ∷ ss) (b ∷ bs)) (some-injective h) ((first, a), ground arith)

  -- The selector at the head is free and matches.
  take-Grown :
      (Seen : Pod → Type 0) (pod : Pod) (s : Selector) (ss : List Selector) (b : String)
      (bs : List String)
      → Seen pod
      → is_pod_ready pod ≡ true
      → matches s pod.labels ≡ true
      → (b == "") ≡ true
      → Assigned Seen ss bs
      → Grown Seen (s ∷ ss) (b ∷ bs) (address_of pod ∷ bs)
  unfolding filled
  take-Grown Seen pod s ss b bs m r match empty a =
      ((inr (pod, m, r, match, refl), a), rw (address_of-filled pod r, empty))

  assign-Grown :
      (Seen : Pod → Type 0) (pod : Pod)
      → Seen pod
      → is_pod_ready pod ≡ true
      → (ss : List Selector) (before after : List String) → Assigned Seen ss before
      → assign matches pod ss before ≡ some after
      → Grown Seen ss before after
  unfolding assign
  assign-Grown Seen pod m r [] before after a h = cc
  assign-Grown Seen pod m r (s ∷ ss) [] after a h = cc
  assign-Grown Seen pod m r (s ∷ ss) (b ∷ bs) after (first, a) h =
      let pass =
        push-Grown Seen s ss b bs after first (assign matches pod ss bs)
          (λ others e. assign-Grown Seen pod m r ss bs others a e) in
      elim (Bool-cases (b == "")) [
        | inl empty ↦ elim (Bool-cases (matches s pod.labels)) [
          | inl match ↦
              subst (Grown Seen (s ∷ ss) (b ∷ bs)) (some-injective (rw (empty, match) at h))
                (take-Grown Seen pod s ss b bs m r match empty a)
          | inr other ↦ pass (rw (empty, other) at h)
        ]
        | inr taken ↦ pass (rw taken at h)
      ]

  record IsWaiting (Seen : Pod → Type 0) (ss : List Selector) (w : Wait) : Type 0 where
    assigned : Assigned Seen ss w.addresses
    counted : w.match_count ≡ filled w.addresses

  visit-IsWaiting :
      (Seen : Pod → Type 0) (ss : List Selector) (pod : Pod) (w : Wait)
      → Seen pod
      → IsWaiting Seen ss w
      → IsWaiting Seen ss (visit matches ss pod w)
  unfolding visit
  visit-IsWaiting Seen ss pod w m i = elim (Bool-cases (is_pod_ready pod)) [
    | inr idle ↦ rw idle i
    | inl live ↦ elim (Bool-cases (has pod.name w.matching_pods)) [
      | inl used ↦ rw (live, used) i
      | inr new ↦ elim (Option-cases (assign matches pod ss w.addresses)) [
        | inl stuck ↦ rw (live, new, stuck) i
        | inr (others, e) ↦
            let (a, grown) = assign-Grown Seen pod m live ss w.addresses others i.assigned e in
            rw (live, new, e) (record { assigned = a; counted = ap suc i.counted ∙ sym grown })
      ]
    ]
  ]

  visit_all-IsWaiting :
      (Seen : Pod → Type 0) (ss : List Selector) (pods : List Pod) (w : Wait)
      → All Seen pods
      → IsWaiting Seen ss w
      → IsWaiting Seen ss (visit_all matches ss pods w)
  unfolding visit_all
  visit_all-IsWaiting Seen ss [] w m i = i
  visit_all-IsWaiting Seen ss (pod ∷ pods) w (m, ms) i =
      visit_all-IsWaiting Seen ss pods (visit matches ss pod w) ms
        (visit-IsWaiting Seen ss pod w m i)

  filled-le : (xs : List String) → filled xs ≤ length xs
  unfolding filled
  filled-le [] = omega arith
  filled-le (a ∷ others) = ground (arith, filled-le others)

  length-Assigned :
      (Seen : Pod → Type 0) (ss : List Selector) (addresses : List String)
      → Assigned Seen ss addresses
      → length addresses ≡ length ss
  length-Assigned Seen [] [] a = refl
  length-Assigned Seen [] (b ∷ bs) a = absurd a
  length-Assigned Seen (s ∷ ss) [] a = absurd a
  length-Assigned Seen (s ∷ ss) (b ∷ bs) (_, a) = ap suc (length-Assigned Seen ss bs a)

  -- With as many filled addresses as selectors, each one is served.
  AllServed-full :
      (Seen : Pod → Type 0) (ss : List Selector) (addresses : List String)
      → Assigned Seen ss addresses
      → filled addresses ≡ length ss
      → AllServed Seen ss addresses
  unfolding filled
  AllServed-full Seen [] [] a h = tt
  AllServed-full Seen [] (b ∷ bs) a h = absurd a
  AllServed-full Seen (s ∷ ss) [] a h = absurd a
  AllServed-full Seen (s ∷ ss) (b ∷ bs) (inr served, a) h = (
    served,
    AllServed-full Seen ss bs a
        (ground (arith, address_of-filled served.0 served.2, eq_iff b (address_of served.0))),
  )
  AllServed-full Seen (s ∷ ss) (b ∷ bs) (inl empty, a) h =
      absurd (ground (arith, eq_iff b "", filled-le bs, length-Assigned Seen ss bs a))

-- The pod was listed in one of the rounds.
abbrev pub WasListed : List Round → Pod → Type 0
WasListed rounds pod =
    (r : Round) × (pods : List Pod) × Memᴰ r rounds × (r.pods ≡ some pods) × Memᴰ pod pods

abbrev addresses_of : List String → Waited → List String
addresses_of d (ready addresses) = addresses
addresses_of d _ = d

map-Assigned :
    {Selector : Type 0} (matches : Selector → Dict String → Bool) (Seen : Pod → Type 0)
    (ss : List Selector)
    → Assigned matches Seen ss (start ss).addresses × (filled (start ss).addresses ≡ 0)
unfolding filled
map-Assigned matches Seen [] = (tt, refl)
map-Assigned matches Seen (s ∷ ss) = let (a, h) = map-Assigned matches Seen ss in ((inl refl, a), h)

module _ {Selector : Type 0} (matches : Selector → Dict String → Bool) (Seen : Pod → Type 0) where
  abbrev SeenIn : List Round → Type 0
  SeenIn rounds = (r : Round) (pods : List Pod) → Memᴰ r rounds → r.pods ≡ some pods → All Seen pods

  wait_rounds-AllServed :
      (deadline : Option ℕ) (ss : List Selector) (rounds : List Round) (w : Wait)
      (addresses : List String)
      → SeenIn rounds
      → IsWaiting matches Seen ss w
      → wait_rounds matches deadline ss rounds w ≡ ready addresses
      → AllServed matches Seen ss addresses
  unfolding wait_rounds
  wait_rounds-AllServed deadline ss [] w addresses seen i h = absurd (cc)
  wait_rounds-AllServed deadline ss (r ∷ rs) w addresses seen i h =
      elim (Bool-cases (is_late deadline r.now)) [
        | inl late ↦ cc (rw late at h)
        | inr timely ↦ elim (Option-cases r.pods) [
          | inl failed ↦ cc (rw (timely, failed) at h)
          | inr (pods, listed) ↦
              let j =
                visit_all-IsWaiting matches Seen ss pods w (seen r pods (Memᴰ.head refl) listed)
                  i in
              elim (Bool-cases (nat_eq (visit_all matches ss pods w).match_count (length ss))) [
                | inl full ↦
                    subst (AllServed matches Seen ss)
                      (ap (addresses_of addresses) (rw (timely, listed, full) at h))
                      (AllServed-full matches Seen ss _ j.assigned (ground (arith, j.counted)))
                | inr more ↦
                    wait_rounds-AllServed deadline ss rs (visit_all matches ss pods w) addresses
                      (λ q ps m e. seen q ps (Memᴰ.tail m) e) j (rw (timely, listed, more) at h)
              ]
        ]
      ]

-- When the wait succeeds there is one address for each selector, in their order, and each is the
-- address of a pod which was listed in one of the rounds, was ready, and matches that selector.
pub wait_for_ready_pods-AllServed :
    {Selector : Type 0} (parse : String → Result Selector) (matches : Selector → Dict String → Bool)
    (deadline : Option ℕ) (sels : List String) (selectors : List Selector) (rounds : List Round)
    (addresses : List String)
    → parse_selectors parse sels ≡ ok selectors
    → wait_for_ready_pods parse matches deadline sels rounds ≡ ready addresses
    → AllServed matches (WasListed rounds) selectors addresses
unfolding wait_for_ready_pods
wait_for_ready_pods-AllServed parse matches deadline sels selectors rounds addresses parsed h =
    let (a, empty) = map-Assigned matches (WasListed rounds) selectors in
    wait_rounds-AllServed matches (WasListed rounds) deadline selectors rounds (start selectors)
      addresses (λ r pods m e. All-Mem pods (λ pod n. (r, pods, m, e, n)))
      (record { assigned = a; counted = sym empty }) (rw (parsed, wait_for_ready_pods) at h)
