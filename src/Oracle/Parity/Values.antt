-- ===== src/Oracle/Parity/Values.antt =====
-- The facts for exact fields, amounts and rates, against the engine's detectors.
use mathlib.Core.Option.{some-injective}
use mathlib.Core.List.{Memᴰ}
use mathlib.Core.Path.{subst}
use tradeops_sentinel.Base.{
  Bool, Bool-cases, List, Option, Option-cases, String, [], ap, collect-nil_iff, eq_of_test, find,
  find_holds, find_mem, first_or_raise, first_or_raise_eq_of, inl, inr, map_some, none, refl, some,
  sym, ◌==◌, ◌↔◌, ◌∙◌, ◌∷◌, ◌≡◌,
}
use tradeops_sentinel.Contracts.{Observation}
use tradeops_sentinel.Oracle.Comparisons.{
  date_facts, economic_fact, economic_facts, economic_facts_of, exact_facts, exact_facts_of,
  is_beyond,
}
use tradeops_sentinel.Oracle.Parity.{SamePolicy, oracle_ordered_eq}
use tradeops_sentinel.Oracle.Policy.{OracleConfig, oracle_within, tolerance_of}
use tradeops_sentinel.Reconciliation.Breaks.{
  BreakFamily, economic_value_mismatch, trade_or_value_date_mismatch,
}
use tradeops_sentinel.Reconciliation.Config.{
  DecimalToleranceRule, EconomicField, ProductType, ReconciliationConfig, ToleranceMode,
  absolute_decimal, decimal_rule, is_tolerance, no_tolerance, relative_decimal,
}
use tradeops_sentinel.Reconciliation.Decimal.{Decimal, decimal_of, within_tolerance}
use tradeops_sentinel.Reconciliation.Duplicates.{ordered_observations}
use tradeops_sentinel.Reconciliation.Duplicates.Members.{mem_of_ordered, mem_ordered}
use tradeops_sentinel.Reconciliation.Economic.{
  allows, compare_economic, economic_breaks, economic_comparison, economic_fields, economic_value,
  is_outside,
}
use tradeops_sentinel.Reconciliation.Economic.Tolerance.{IsTolerance}
use tradeops_sentinel.Reconciliation.Fields.{
  ExactField, authoritative_observation, comparison_of, is_mismatch, trade_date, value_date,
}
use tradeops_sentinel.Reconciliation.Fields.Agreement.{
  AgreeOn, IsTraced, authoritative_some, break_of-nil_iff, comparison_of-Agreement,
}
use tradeops_sentinel.Remediation.Store.AtMostOnce.{back}

found-eq-nil_iff :
    (family : BreakFamily) (f : ExactField) (baseline : Observation) (found : Option Observation)
    → (exact_facts_of family f baseline found ≡ []) ↔ (comparison_of f baseline found ≡ [])
found-eq-nil_iff family f baseline none = (λ _. refl, λ _. refl)
found-eq-nil_iff family f baseline (some o) = (λ h. cc, λ h. cc)

some-nil_iff : {A : Type 0} (xs : List A) → (some xs ≡ some []) ↔ (xs ≡ [])
some-nil_iff xs = (λ h. some-injective _ _ h, λ h. ap some h)

module _ (os : List Observation) where
  pub exact_facts-nil_iff :
      (family : BreakFamily) (provenance : ExactField → String) (f : ExactField)
      → IsTraced provenance os
      → IsTraced provenance (ordered_observations os)
      → (exact_facts family os (provenance f) f ≡ some [])
        ↔ AgreeOn (f ∷ []) (ordered_observations os)
  unfolding exact_facts
  exact_facts-nil_iff family provenance f traced ordered =
      let (o, m, e) = traced.0 f in
      let (base, at, mb) = authoritative_some (provenance f) os m e in
      let found = find (is_mismatch f base) (ordered_observations os) in
      let (out, back) = found-eq-nil_iff family f base found in
      let (to, from) =
        comparison_of-Agreement provenance (ordered_observations os) ordered f base
          (mem_ordered os mb) in
      let (un, re) = some-nil_iff (exact_facts_of family f base found) in
      (
        λ h. to (out (un (rw (at, oracle_ordered_eq os) at h))),
        λ agree. rw (at, oracle_ordered_eq os) (re (back (from agree))),
      )

  pub date_facts-nil_iff :
      (provenance : ExactField → String)
      → IsTraced provenance os
      → IsTraced provenance (ordered_observations os)
      → (date_facts provenance os ≡ some [])
        ↔ AgreeOn (trade_date ∷ value_date ∷ []) (ordered_observations os)
  unfolding date_facts
  date_facts-nil_iff provenance traced ordered =
      let (out, back) =
        collect-nil_iff (λ f. exact_facts trade_or_value_date_mismatch os (provenance f) f)
          (trade_date ∷ value_date ∷ []) in
      let one = λ (f : ExactField).
        exact_facts-nil_iff trade_or_value_date_mismatch provenance f traced ordered in
      (
        λ h f m. (one f).0 (out h f m) f (Memᴰ.head refl),
        λ agree. back (λ f m. (one f).1 (λ g n. elim n [
          | Memᴰ.head e ↦ agree g (subst (λ x. Memᴰ x (trade_date ∷ value_date ∷ [])) (sym e) m)
          | Memᴰ.tail n' ↦ elim n' [ ]
        ])),
      )

-- A tolerance of the engine's configuration, read by the oracle, decides in the same way.
allows_eq :
    (r : DecimalToleranceRule)
    → IsTolerance r
    → (rule : ToleranceMode × Decimal) × (tolerance_of r.mode r.value ≡ some rule)
      × ((expected observed : Decimal)
          → allows r.mode r.value expected observed ≡ some (oracle_within expected observed rule))
unfolding within_tolerance oracle_within
allows_eq r (inl (e, g)) = (
  (no_tolerance, record { coefficient = 0; scale = 0 }),
  rw (e, g) refl,
  λ expected observed. rw (e, g) refl,
)
allows_eq r (inr (text, d, g, e)) = (
  (r.mode, d),
  rw (g, e) refl,
  λ expected observed.
      rw (g, e)
        (elim r.mode
          as (λ mode.
            within_tolerance expected observed mode (some d)
            ≡ some (oracle_within expected observed (mode, d))) [
              | no_tolerance ↦ refl
              | absolute_decimal ↦ refl
              | relative_decimal ↦ refl
            ]),
)

facts-eq-nil_iff :
    (f : EconomicField) (baseline : Observation) (expected : Decimal)
    (found : Option (Option Observation))
    → (map_some (economic_fact f baseline expected) found ≡ some [])
      ↔ (map_some (economic_comparison f baseline) found ≡ some [])
facts-eq-nil_iff f baseline expected none = (λ h. cc, λ h. cc)
facts-eq-nil_iff f baseline expected (some none) = (λ _. refl, λ _. refl)
facts-eq-nil_iff f baseline expected (some (some o)) = (λ h. cc, λ h. cc)

module _ (oc : OracleConfig) (c : ReconciliationConfig) (p : ProductType) (same : SamePolicy oc c)
    (provenance : EconomicField → String) (os : List Observation) (traced : IsTraced provenance os)
    (tolerances : (r : DecimalToleranceRule) → Memᴰ r c.decimal_tolerances → IsTolerance r) where
  same_baseline :
      (f : EconomicField)
      → authoritative_observation (provenance f) os
        ≡ authoritative_observation (provenance f) (ordered_observations os)
  unfolding authoritative_observation
  same_baseline f =
      let (o, m, e) = traced.0 f in
      let (base, at, mb) = authoritative_some (provenance f) os m e in
      let (base', at', mb') =
        authoritative_some (provenance f) (ordered_observations os) (mem_ordered os m) e in
      let is_source : Observation → Bool = λ x. x.observation_id == provenance f in
      let named = eq_of_test base.observation_id (provenance f) (find_holds is_source os at) in
      let named' =
        eq_of_test base'.observation_id (provenance f)
          (find_holds is_source (ordered_observations os) at') in
      let equal : base ≡ base' =
        traced.1 base base' mb (mem_of_ordered os mb') (named ∙ sym named') in
      at ∙ ap some equal ∙ sym at'

  is_beyond_eq :
      (f : EconomicField) (r : DecimalToleranceRule) (rule : ToleranceMode × Decimal)
      (baseline : Observation) (expected : Decimal)
      → ((e o : Decimal) → allows r.mode r.value e o ≡ some (oracle_within e o rule))
      → (x : Observation)
      → is_beyond f rule baseline expected x ≡ is_outside f r baseline expected x
  is_beyond_eq f r rule baseline expected agree x =
      elim (Bool-cases (x.observation_id == baseline.observation_id)) [
        | inl same_id ↦ rw same_id refl
        | inr other ↦ elim (Option-cases (decimal_of (economic_value f x))) [
          | inl raised ↦ rw (other, raised) refl
          | inr (d, at) ↦ rw (other, at, agree expected d) refl
        ]
      ]

  facts_of-eq-nil_iff :
      (f : EconomicField)
      → (economic_facts_of oc p os (provenance f) f ≡ some [])
        ↔ (compare_economic c p (ordered_observations os) (provenance f) f ≡ some [])
  unfolding economic_facts_of compare_economic decimal_rule
  facts_of-eq-nil_iff f =
      elim (Option-cases (authoritative_observation (provenance f) (ordered_observations os))) [
        | inl nothing ↦ (
          λ h. let clash : none ≡ some [] = rw (same_baseline f, nothing) at h in cc,
          λ h. let clash : none ≡ some [] = rw nothing at h in cc,
        )
        | inr (base, at) ↦ elim (Option-cases (decimal_of (economic_value f base))) [
          | inl raised ↦ (
            λ h. let clash : none ≡ some [] = rw (same_baseline f, at, raised) at h in cc,
            λ h. let clash : none ≡ some [] = rw (at, raised) at h in cc,
          )
          | inr (expected, at_e) ↦ elim (Option-cases (decimal_rule c p f)) [
            | inl missing ↦ (
              λ h.
                  let clash : none ≡ some [] =
                    rw (same_baseline f, at, at_e, same.same_tolerances p f, missing) at h in
                  cc,
              λ h. let clash : none ≡ some [] = rw (at, at_e, missing) at h in cc,
            )
            | inr (r, at_r) ↦
                let (rule, read, agree) =
                  allows_eq r
                    (tolerances r (find_mem (is_tolerance p f) c.decimal_tolerances at_r)) in
                let loop =
                  first_or_raise_eq_of (is_beyond f rule base expected)
                    (is_outside f r base expected) (ordered_observations os)
                    (λ x _. is_beyond_eq f r rule base expected agree x) in
                let (out, back) =
                  facts-eq-nil_iff f base expected
                    (first_or_raise (is_outside f r base expected) (ordered_observations os)) in
                (
                  λ h.
                      rw (at, at_e, at_r)
                        (out (
                          rw
                            (
                              same_baseline f,
                              at,
                              at_e,
                              same.same_tolerances p f,
                              at_r,
                              read,
                              oracle_ordered_eq os,
                              loop,
                            )
                            at h)),
                  λ h.
                      rw
                        (
                          same_baseline f,
                          at,
                          at_e,
                          same.same_tolerances p f,
                          at_r,
                          read,
                          oracle_ordered_eq os,
                          loop,
                        )
                        (back (rw (at, at_e, at_r) at h)),
                )
          ]
        ]
      ]

  pub economic_facts-nil_iff :
      (economic_facts oc p provenance os ≡ some [])
      ↔ (economic_breaks c p provenance (ordered_observations os) ≡ some [])
  unfolding economic_facts economic_breaks
  economic_facts-nil_iff =
      let (out, back) =
        collect-nil_iff (λ f. economic_facts_of oc p os (provenance f) f) economic_fields in
      let (out', back') =
        collect-nil_iff (λ f. compare_economic c p (ordered_observations os) (provenance f) f)
          economic_fields in
      let (un, re) = break_of-nil_iff economic_value_mismatch _ in
      (
        λ h. re (back' (λ f m. (facts_of-eq-nil_iff f).0 (out h f m))),
        λ h. back (λ f m. (facts_of-eq-nil_iff f).1 (out' (un h) f m)),
      )
