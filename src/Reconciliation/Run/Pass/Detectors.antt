-- ===== src/Reconciliation/Run/Pass/Detectors.antt =====
-- When the detectors of a run report nothing.
use mathlib.Core.Option.{some-injective}
use mathlib.Core.Path.{subst}
use tradeops_sentinel.Base.{
  Bool, Bool-cases, List, Option, Option-cases, [], any, any_of_find-none, arith, false, find,
  find-none_of_any, inl, inr, none, not, refl, some, sym, true, true_ne_false, ◌&&◌, ◌==◌, ◌↔◌, ◌∙◌,
  ◌∷◌, ◌≡◌, ◌≢◌, ◌⊎◌,
}
use tradeops_sentinel.Contracts.{Observation}
use tradeops_sentinel.Reconciliation.Breaks.{FieldComparison}
use tradeops_sentinel.Reconciliation.Config.{ReconciliationConfig}
use tradeops_sentinel.Reconciliation.Context.{Context}
use tradeops_sentinel.Reconciliation.Lifecycle.{
  Judged, as_expected, compare_values, comparison_refused, expected_for, first_invalid, is_exempt,
  is_other, judge, lifecycle_break, mismatch_found, or_else, outcome_of, status, status_comparison,
}
use tradeops_sentinel.Reconciliation.Linkage.{
  CountComparison, LinkageDecision, accepted, linkage_break, validate_decision_shape,
}
use tradeops_sentinel.Reconciliation.Linkage.Accepted.{
  linkage_break-differs, linkage_break-none_iff,
}
use tradeops_sentinel.Reconciliation.Run.{lifecycle_breaks, linkage_breaks}
use tradeops_sentinel.Reconciliation.Run.Pass.{IsLifecycleClean, IsLinked}

pub linkage_breaks-nil_iff :
    (observations : List Observation) (found : Option CountComparison)
    → (some (linkage_breaks observations found) ≡ some []) ↔ (found ≡ none)
linkage_breaks-nil_iff observations none = (λ h. refl, λ h. refl)
linkage_breaks-nil_iff observations (some x) = (λ h. cc, λ h. cc)

-- A decision that `run` takes is validated, and in the scope of the canonical trade.
abbrev pub IsScoped : Context → Type 0
IsScoped ctx =
    (d : LinkageDecision)
    → ctx.linkage_decision ≡ some d
    → (validate_decision_shape d ≡ true)
      × (d.tenant_id ≡ ctx.canonical_state.tenant_id)
      × (d.portfolio_id ≡ ctx.canonical_state.portfolio_id)

or_else-none : (a b d : Option Judged) → or_else a (or_else b d) ≡ none → d ≡ none
or_else-none (some a) b d h = cc
or_else-none none (some b) d h = cc
or_else-none none none d h = h

any_of_both :
    {A : Type 0} (p q : A → Bool) (xs : List A)
    → any p xs ≡ false
    → any (λ x. p x && q x) xs ≡ false
any_of_both p q [] h = refl
any_of_both p q (x ∷ xs) h = ground (arith, any_of_both p q xs)

expected_for-none_iff :
    (o : Judged) (js : List Judged) → (expected_for o js ≡ none) ↔ (find (is_other o) js ≡ none)
unfolding expected_for
expected_for-none_iff o js = (
  λ h. or_else-none _ _ _ h,
  λ h.
      let nobody = any_of_find-none (is_other o) js h in
      rw
        (
          find-none_of_any (λ j. is_other o j && as_expected j) js
              (any_of_both (is_other o) as_expected js nobody),
          find-none_of_any (λ j. is_other o j && not (status j == status o)) js
              (any_of_both (is_other o) (λ j. not (status j == status o)) js nobody),
          h,
        )
        refl,
)

compare_values-ne-nil : (c : FieldComparison) → lifecycle_breaks (compare_values c) ≢ some []
compare_values-ne-nil c h = elim (Bool-cases (c.expected_value == c.observed_value)) [
  | inl same ↦ let clash : lifecycle_breaks (comparison_refused c) ≡ some [] = rw same at h in cc
  | inr other ↦ let clash : lifecycle_breaks (mismatch_found c) ≡ some [] = rw other at h in cc
]

abbrev Settled : List Judged → Type 0
Settled js =
    (first_invalid js ≡ none)
    ⊎ ((o : Judged) × (first_invalid js ≡ some o) × (find (is_other o) js ≡ none))

report-nil_iff :
    (js : List Judged) → (lifecycle_breaks (outcome_of (some js)) ≡ some []) ↔ Settled js
report-nil_iff js = elim (Option-cases (first_invalid js)) [
  | inl quiet ↦ (λ h. inl quiet, λ h. rw quiet refl)
  | inr (o, at) ↦
      let (out, back) = expected_for-none_iff o js in
      elim (Option-cases (expected_for o js)) [
        | inl alone ↦ (λ h. inr (o, at, out alone), λ h. rw (at, alone) refl)
        | inr (e, at_e) ↦ (
          λ h. absurd (compare_values-ne-nil (status_comparison o e) (rw (at, at_e) at h)),
          λ h. elim h [
            | inl quiet ↦ let clash : none ≡ some o = sym quiet ∙ at in cc
            | inr (o', at', alone) ↦
                let same : o' ≡ o = some-injective _ _ (sym at' ∙ at) in
                let alone' : find (is_other o) js ≡ none =
                  subst (λ (x : Judged). find (is_other x) js ≡ none) same alone in
                let clash : none ≡ some e = sym (back alone') ∙ at_e in cc
          ],
        )
      ]
]

module _ (c : ReconciliationConfig) (ctx : Context) (observations : List Observation) where
  pub linked_iff :
      IsScoped ctx
      → (some (
            linkage_breaks observations (
              linkage_break ctx.canonical_state.trade_id ctx.canonical_state.tenant_id
                ctx.canonical_state.portfolio_id ctx.linkage_decision))
          ≡ some [])
        ↔ IsLinked c ctx observations
  linked_iff scoped =
      let (out, back) = linkage_breaks-nil_iff observations (
        linkage_break ctx.canonical_state.trade_id ctx.canonical_state.tenant_id
          ctx.canonical_state.portfolio_id ctx.linkage_decision) in
      elim (Option-cases ctx.linkage_decision) [
        | inl none_there ↦ (
          λ h. absurd (
              (linkage_break-differs ctx.canonical_state.trade_id ctx.canonical_state.tenant_id
                  ctx.canonical_state.portfolio_id).1
                (rw none_there at (out h))),
          λ (d, at, _, _). let clash : none ≡ some d = sym none_there ∙ at in cc,
        )
        | inr (d, at) ↦
            let (valid, tenant, portfolio) = scoped d at in
            let (out', back') = linkage_break-none_iff ctx.canonical_state.trade_id d valid in
            let e : linkage_break ctx.canonical_state.trade_id ctx.canonical_state.tenant_id
                  ctx.canonical_state.portfolio_id ctx.linkage_decision
                ≡ linkage_break ctx.canonical_state.trade_id d.tenant_id d.portfolio_id (some d) =
              cc in
            (
              λ h. let (won, chosen) = out' (sym e ∙ out h) in (d, at, won, chosen),
              λ (d', at', won, chosen).
                  let same : d' ≡ d = some-injective _ _ (sym at' ∙ at) in
                  let facts =
                    subst
                      (λ (x : LinkageDecision).
                        (x.decision ≡ accepted)
                        × (x.chosen_trade_id ≡ some ctx.canonical_state.trade_id))
                      same (won, chosen) in
                  back (e ∙ back' facts),
            )
      ]

  pub lifecycle_iff :
      (lifecycle_breaks (lifecycle_break c observations) ≡ some [])
      ↔ IsLifecycleClean c ctx observations
  unfolding lifecycle_break
  lifecycle_iff = elim (Bool-cases (is_exempt observations)) [
    | inl exempt ↦ (λ h. inl exempt, λ h. rw exempt refl)
    | inr more ↦ elim (Option-cases (judge c observations)) [
      | inl raised ↦ (
        λ h. let clash : none ≡ some [] = rw (more, raised) at h in cc,
        λ h. elim h [
          | inl exempt ↦ absurd (true_ne_false (sym exempt ∙ more))
          | inr (js, at, _) ↦ let clash : none ≡ some js = sym raised ∙ at in cc
        ],
      )
      | inr (js, at) ↦
          let (out, back) = report-nil_iff js in
          (
            λ h. inr (js, at, out (rw (more, at) at h)),
            λ h. elim h [
              | inl exempt ↦ absurd (true_ne_false (sym exempt ∙ more))
              | inr (js', at', ok_) ↦
                  let same : js' ≡ js = some-injective _ _ (sym at' ∙ at) in
                  rw (more, at) (back (subst (λ x. Settled x) same ok_))
            ],
          )
    ]
  ]
