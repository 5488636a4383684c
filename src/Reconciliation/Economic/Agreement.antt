-- ===== src/Reconciliation/Economic/Agreement.antt =====
-- When the sources agree on amounts and rates.
use mathlib.Core.Option.{some-injective}
use mathlib.Core.List.{Memᴰ}
use mathlib.Core.Path.{subst}
use tradeops_sentinel.Base.{
  Bool, Bool-cases, List, Option, Option-cases, String, [], any_of_find-none, ap, arith, both_empty,
  collect, eq_of_test, fails_of_any, false, find, find_holds, find_mem, first_or_raise-find, inl,
  inr, none, refl, some, sym, true, true_ne_false, ◌++◌, ◌==◌, ◌↔◌, ◌∙◌, ◌∷◌, ◌≡◌,
}
use tradeops_sentinel.Contracts.{Observation}
use tradeops_sentinel.Reconciliation.Breaks.{Break, FieldComparison, economic_value_mismatch}
use tradeops_sentinel.Reconciliation.Config.{
  DecimalToleranceRule, EconomicField, ProductType, ReconciliationConfig, base_amount, decimal_rule,
  is_tolerance, quoted_rate, terms_amount, validate_complete_policy,
}
use tradeops_sentinel.Reconciliation.Config.Complete.{rule_found, validate_complete_policy-OneFound}
use tradeops_sentinel.Reconciliation.Decimal.{Decimal, decimal_of}
use tradeops_sentinel.Reconciliation.Economic.{
  allows, compare_economic, economic_breaks, economic_comparison, economic_fields, economic_value,
  is_outside,
}
use tradeops_sentinel.Reconciliation.Economic.Tolerance.{IsTolerance, allows_self, allows_total}
use tradeops_sentinel.Reconciliation.Fields.{authoritative_observation}
use tradeops_sentinel.Reconciliation.Fields.Agreement.{IsTraced, authoritative_some, break_of-nil}

-- The texts that a run compares are decimals, as the contracts demand: every value of an economic
-- field, and every tolerance.
abbrev pub AreDecimals : ReconciliationConfig → List Observation → Type 0
AreDecimals c observations =
    ((f : EconomicField) (o : Observation)
      → Memᴰ o observations
      → (d : Decimal) × (decimal_of (economic_value f o) ≡ some d))
    × ((r : DecimalToleranceRule) → Memᴰ r c.decimal_tolerances → IsTolerance r)

-- An observation lies within the rule of a field from the one that the canonical state names.
abbrev pub IsWithin :
    ReconciliationConfig
    → ProductType
    → (EconomicField → String)
    → List Observation
    → EconomicField
    → Observation
    → Type 0
IsWithin c p provenance observations f o =
    (base : Observation) × (rule : DecimalToleranceRule) × (expected : Decimal) × (value : Decimal)
    × (authoritative_observation (provenance f) observations ≡ some base)
    × (decimal_rule c p f ≡ some rule)
    × (decimal_of (economic_value f base) ≡ some expected)
    × (decimal_of (economic_value f o) ≡ some value)
    × (allows rule.mode rule.value expected value ≡ some true)

-- A test that does not raise, with its value.
value_of : Option Bool → Bool
value_of none = false
value_of (some b) = b

module _ (c : ReconciliationConfig) (p : ProductType) (provenance : EconomicField → String)
    (observations : List Observation) (valid : validate_complete_policy c ≡ true)
    (traced : IsTraced provenance observations) (decimals : AreDecimals c observations) where
  rule_of :
      (f : EconomicField)
      → (rule : DecimalToleranceRule) × (decimal_rule c p f ≡ some rule) × IsTolerance rule
  unfolding decimal_rule
  rule_of f =
      let (rule, at) =
        rule_found (is_tolerance p f) c.decimal_tolerances (decimal_rule c p f)
          ((validate_complete_policy-OneFound c valid).1 p f) in
      (rule, at, decimals.1 rule (find_mem (is_tolerance p f) c.decimal_tolerances at))

  -- The facts that the loop body for one field needs.
  record Base (f : EconomicField) : Type 0 where
    base : Observation
    rule : DecimalToleranceRule
    expected : Decimal
    at_base : authoritative_observation (provenance f) observations ≡ some base
    base_mem : Memᴰ base observations
    at_rule : decimal_rule c p f ≡ some rule
    tolerance : IsTolerance rule
    at_expected : decimal_of (economic_value f base) ≡ some expected

  canonical_source : (f : EconomicField) → Base f
  canonical_source f =
      let (o, m, e) = traced.0 f in
      let (base, at_base, mb) = authoritative_some (provenance f) observations m e in
      let (rule, at_rule, tolerance) = rule_of f in
      let (expected, at_expected) = decimals.0 f base mb in
      record {
        base = base;
        rule = rule;
        expected = expected;
        at_base = at_base;
        base_mem = mb;
        at_rule = at_rule;
        tolerance = tolerance;
        at_expected = at_expected;
      }

  outside : (f : EconomicField) → Base f → Observation → Bool
  outside f b o = value_of (is_outside f b.rule b.base b.expected o)

  -- What the test computes for an observation that is not the canonical one.
  record Judgement (f : EconomicField) (b : Base f) (o : Observation) : Type 0 where
    value : Decimal
    verdict : Bool
    at_value : decimal_of (economic_value f o) ≡ some value
    at_verdict : allows b.rule.mode b.rule.value b.expected value ≡ some verdict

  judgement_of :
      (f : EconomicField) (b : Base f) (o : Observation) → Memᴰ o observations → Judgement f b o
  judgement_of f b o m =
      let (value, at_value) = decimals.0 f o m in
      let (verdict, at_verdict) = allows_total b.rule b.expected value b.tolerance in
      record { value = value; verdict = verdict; at_value = at_value; at_verdict = at_verdict }

  is_outside_total :
      (f : EconomicField) (b : Base f) (o : Observation)
      → Memᴰ o observations
      → is_outside f b.rule b.base b.expected o ≡ some (outside f b o)
  unfolding outside value_of
  is_outside_total f b o m =
      let j = judgement_of f b o m in
      elim (Bool-cases (o.observation_id == b.base.observation_id)) [
        | inl same ↦ rw same refl
        | inr other ↦ rw (other, j.at_value, j.at_verdict) refl
      ]

  verdict_of_same :
      (f : EconomicField) (b : Base f) (o : Observation) (m : Memᴰ o observations)
      → (o.observation_id == b.base.observation_id) ≡ true
      → (judgement_of f b o m).verdict ≡ true
  verdict_of_same f b o m same =
      let j = judgement_of f b o m in
      let is_base : o ≡ b.base = traced.1 o b.base m b.base_mem (eq_of_test _ _ same) in
      let equal : some j.value ≡ some b.expected =
        sym j.at_value ∙ ap (λ x. decimal_of (economic_value f x)) is_base ∙ b.at_expected in
      let within = allows_self b.rule b.expected b.tolerance in
      some-injective _ _ (
        sym j.at_verdict
        ∙ ap (allows b.rule.mode b.rule.value b.expected) (some-injective _ _ equal)
        ∙ within)

  outside-verdict :
      (f : EconomicField) (b : Base f) (o : Observation) (m : Memᴰ o observations)
      → (outside f b o ≡ false) ↔ ((judgement_of f b o m).verdict ≡ true)
  unfolding outside value_of
  outside-verdict f b o m =
      let j = judgement_of f b o m in
      elim (Bool-cases (o.observation_id == b.base.observation_id)) [
        | inl same ↦ (λ h. verdict_of_same f b o m same, λ h. rw same refl)
        | inr other ↦ rw (other, j.at_value, j.at_verdict) (λ h. ground arith, λ h. ground arith)
      ]

  verdict-IsWithin :
      (f : EconomicField) (b : Base f) (o : Observation) (m : Memᴰ o observations)
      → ((judgement_of f b o m).verdict ≡ true) ↔ IsWithin c p provenance observations f o
  verdict-IsWithin f b o m =
      let j = judgement_of f b o m in
      (
        λ h. (
          b.base,
          b.rule,
          b.expected,
          j.value,
          b.at_base,
          b.at_rule,
          b.at_expected,
          j.at_value,
          j.at_verdict ∙ ap some h,
        ),
        λ (base, rule, expected, value, at_base, at_rule, at_expected, at_value, ok). cc,
      )

  AllWithin : EconomicField → Type 0
  AllWithin f = (o : Observation) → Memᴰ o observations → IsWithin c p provenance observations f o

  first_outside :
      (f : EconomicField) (b : Base f)
      → (economic_comparison f b.base (find (outside f b) observations) ≡ []) ↔ AllWithin f
  unfolding AllWithin
  first_outside f b = elim (Option-cases (find (outside f b) observations)) [
    | inl h ↦ (
      λ _ o m. (verdict-IsWithin f b o m).0 (
          (outside-verdict f b o m).0
            (fails_of_any (outside f b) (any_of_find-none _ observations h) m)),
      λ _. rw h refl,
    )
    | inr (o, h) ↦ (
      λ e. let e' : economic_comparison f b.base (some o) ≡ [] = rw h at e in cc,
      λ all.
          let m = find_mem (outside f b) observations h in
          let inside = (outside-verdict f b o m).1 ((verdict-IsWithin f b o m).1 (all o m)) in
          absurd (true_ne_false (sym (find_holds (outside f b) observations h) ∙ inside)),
    )
  ]

  compare_economic-AllWithin :
      (f : EconomicField)
      → (cs : List FieldComparison) × (compare_economic c p observations (provenance f) f ≡ some cs)
        × ((cs ≡ []) ↔ AllWithin f)
  unfolding compare_economic
  compare_economic-AllWithin f =
      let b = canonical_source f in
      (
        economic_comparison f b.base (find (outside f b) observations),
        rw
            (
              b.at_base,
              b.at_expected,
              b.at_rule,
              first_or_raise-find (is_outside f b.rule b.base b.expected) (outside f b) observations
                  (is_outside_total f b),
            )
            refl,
        first_outside f b,
      )

  collect-AllWithin :
      (fs : List EconomicField)
      → (cs : List FieldComparison) × (collect
            (λ f. compare_economic c p observations (provenance f) f)
            fs
          ≡ some cs)
        × ((cs ≡ []) ↔ ((f : EconomicField) → Memᴰ f fs → AllWithin f))
  collect-AllWithin [] = ([], refl, (λ _ f m. elim m [ ], λ _. refl))
  collect-AllWithin (f ∷ fs) =
      let (cs, e, (to, from)) = compare_economic-AllWithin f in
      let (ds, e', (to', from')) = collect-AllWithin fs in
      (
        cs ++ ds,
        rw (e, e') refl,
        (
          λ h g m.
              let (nothing, nothing') = both_empty cs ds h in
              elim m [
                | Memᴰ.head same ↦ subst (λ x. AllWithin x) (sym same) (to nothing)
                | Memᴰ.tail n ↦ to' nothing' g n
              ],
          λ all.
              let here = from (all f (Memᴰ.head refl)) in
              let there = from' (λ g m. all g (Memᴰ.tail m)) in rw (here, there) refl,
        ),
      )

economic_field_listed : (f : EconomicField) → Memᴰ f economic_fields
economic_field_listed base_amount = Memᴰ.head refl
economic_field_listed terms_amount = Memᴰ.tail (Memᴰ.head refl)
economic_field_listed quoted_rate = Memᴰ.tail (Memᴰ.tail (Memᴰ.head refl))

-- With a validated configuration, texts that are decimals, and observations with different
-- identifiers of which the canonical provenance names one for each field, the search for economic
-- breaks does not raise, and it reports none exactly when every observation lies within the
-- tolerance of the product's rule from the canonical source of each amount and rate.
pub economic_breaks-IsWithin :
    (c : ReconciliationConfig) (p : ProductType) (provenance : EconomicField → String)
    (observations : List Observation)
    → validate_complete_policy c ≡ true
    → IsTraced provenance observations
    → AreDecimals c observations
    → (breaks : List Break) × (economic_breaks c p provenance observations ≡ some breaks)
      × ((breaks ≡ []) ↔ (
          (f : EconomicField) (o : Observation)
          → Memᴰ o observations
          → IsWithin c p provenance observations f o))
unfolding economic_breaks AllWithin
economic_breaks-IsWithin c p provenance observations valid traced decimals =
    let (cs, e, iff) =
      collect-AllWithin c p provenance observations valid traced decimals economic_fields in
    let (breaks, e', (to, from)) = break_of-nil economic_value_mismatch cs in
    (
      breaks,
      rw e e',
      (λ h f. iff.0 (to h) f (economic_field_listed f), λ all. from (iff.1 (λ f _. all f))),
    )
