-- ===== src/Reconciliation/Lifecycle/Refusal.antt =====
-- When the engine builds a comparison that the contract refuses.
use tradeops_sentinel.Base.{
  Bool-cases, List, Option-cases, any_of_find-none, arith, eq_iff, fails_of_any, false, find,
  find_holds, find_mem, inl, inr, none, not, some, sym, true, ◌&&◌, ◌==◌, ◌↔◌, ◌∙◌, ◌≡◌,
}
use tradeops_sentinel.Contracts.{Observation}
use tradeops_sentinel.Reconciliation.Breaks.{FieldComparison}
use tradeops_sentinel.Reconciliation.Config.{ReconciliationConfig}
use tradeops_sentinel.Reconciliation.Lifecycle.{
  Judged, LifecycleOutcome, as_expected, compare_values, compare_with, comparison_refused,
  expected_for, expected_value_for, first_invalid, is_exempt, is_other, judge, lifecycle_break,
  or_else, status, status_comparison,
}

abbrev pub IsRefused : LifecycleOutcome → Type 0
IsRefused (comparison_refused _) = Unit
IsRefused _ = ⊥

equal_of_refused :
    (c : FieldComparison) → IsRefused (compare_values c) → c.expected_value ≡ c.observed_value
equal_of_refused c h = elim (Bool-cases (c.expected_value == c.observed_value)) [
  | inl same ↦ ground (arith, eq_iff c.expected_value c.observed_value)
  | inr other ↦ absurd (rw other at h)
]

compare_values-IsRefused :
    (c : FieldComparison) → c.expected_value ≡ c.observed_value → IsRefused (compare_values c)
compare_values-IsRefused c e = rw ((eq_iff c.expected_value c.observed_value).1 e) tt

same_of_refused :
    (observed expected : Judged)
    → IsRefused (compare_with observed (some expected))
    → (status expected ≡ status observed) × (as_expected expected ≡ true)
same_of_refused observed expected h =
    let e = equal_of_refused (status_comparison observed expected) h in
    ground (
      arith,
      e,
      eq_iff (status expected) (status observed),
      eq_iff (status expected) expected.expected_status,
    )

compare_with-IsRefused :
    (observed expected : Judged)
    → status expected ≡ status observed
    → as_expected expected ≡ true
    → IsRefused (compare_with observed (some expected))
compare_with-IsRefused observed expected same h =
    let e : expected_value_for observed expected ≡ status observed = ground (
      arith,
      eq_iff (status expected) (status observed),
      eq_iff (status expected) expected.expected_status,
    ) in
    compare_values-IsRefused (status_comparison observed expected) e

-- The later searches find an observation with a different value, or none.
later_differs :
    (observed : Judged) (js : List Judged)
    → find (λ (j : Judged). is_other observed j && as_expected j) js ≡ none
    → ¬ IsRefused (
        compare_with observed (
          or_else
            (find (λ (j : Judged). is_other observed j && not (status j == status observed)) js)
            (find (is_other observed) js)))
later_differs observed js nothing h =
    elim (Option-cases
      (find (λ (j : Judged). is_other observed j && not (status j == status observed)) js)) [
        | inr (q, at) ↦
            let holds : is_other observed q && not (status q == status observed) ≡ true =
              find_holds _ js at in
            let (same, _) = same_of_refused observed q (rw at at h) in
            ground (arith, eq_iff (status q) (status observed))
        | inl nothing' ↦ elim (Option-cases (find (is_other observed) js)) [
          | inl nobody ↦ absurd (rw (nothing', nobody) at h)
          | inr (q, at) ↦
              let other : is_other observed q ≡ true = find_holds (is_other observed) js at in
              let (_, fits) = same_of_refused observed q (rw (nothing', at) at h) in
              let fails : is_other observed q && as_expected q ≡ false =
                fails_of_any (λ (j : Judged). is_other observed j && as_expected j)
                  (any_of_find-none _ js nothing) (find_mem (is_other observed) js at) in
              ground arith
        ]
      ]

-- The search for another observation that is as expected decides.
expected_for-IsRefused :
    (observed : Judged) (js : List Judged)
    → IsRefused (compare_with observed (expected_for observed js)) ↔ (
        (p : Judged) × (find (λ (j : Judged). is_other observed j && as_expected j) js ≡ some p)
        × (status p ≡ status observed))
unfolding expected_for
expected_for-IsRefused observed js =
    elim (Option-cases (find (λ (j : Judged). is_other observed j && as_expected j) js)) [
      | inr (p, at) ↦ (
        λ h. (p, at, (same_of_refused observed p (rw at at h)).0),
        λ (q, at_q, same).
            let holds : is_other observed q && as_expected q ≡ true = find_holds _ js at_q in
            rw at_q (compare_with-IsRefused observed q same (ground arith)),
      )
      | inl nothing ↦ (
        λ h. absurd (later_differs observed js nothing (rw nothing at h)),
        λ (q, at_q, same). let clash : none ≡ some q = sym nothing ∙ at_q in cc,
      )
    ]

-- If the rules of all observations are there, not all have the status of an amended or a cancelled
-- trade, and an observation is the first that has not the status its rule expects, then the engine
-- builds a comparison of two equal values, which the contract refuses, exactly when the first other
-- observation that has the status of its rule has the same status as that one.
pub lifecycle_break-IsRefused :
    (c : ReconciliationConfig) (observations : List Observation) (js : List Judged)
    (observed : Judged)
    → judge c observations ≡ some js
    → is_exempt observations ≡ false
    → first_invalid js ≡ some observed
    → IsRefused (lifecycle_break c observations) ↔ (
        (p : Judged) × (find (λ (j : Judged). is_other observed j && as_expected j) js ≡ some p)
        × (status p ≡ status observed))
unfolding lifecycle_break
lifecycle_break-IsRefused c observations js observed at_js at_exempt at_observed =
    let (to, from) = expected_for-IsRefused observed js in
    (
      λ h. to (rw (at_exempt, at_js, at_observed) at h),
      λ p. rw (at_exempt, at_js, at_observed) (from p),
    )
