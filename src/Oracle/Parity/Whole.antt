-- ===== src/Oracle/Parity/Whole.antt =====
-- The oracle passes exactly when the engine does, but for one observation that stands alone.
use mathlib.Core.Option.{some-injective}
use mathlib.Core.List.{Memᴰ}
use tradeops_sentinel.Base.{
  List, Quiet-cons, Quiet-nil, String, [], ap, false, some, ◌↔◌, ◌∷◌, ◌≡◌, ◌≤◌,
}
use tradeops_sentinel.Contracts.{Observation}
use tradeops_sentinel.Oracle.Actions.{post_action_facts}
use tradeops_sentinel.Oracle.Comparisons.{date_facts, economic_facts, exact_facts, lifecycle_facts}
use tradeops_sentinel.Oracle.Evaluate.{OracleResult, evaluate_context, oracle_facts}
use tradeops_sentinel.Oracle.Facts.{duplicate_facts, linkage_facts, missing_source_facts}
use tradeops_sentinel.Oracle.Parity.{SamePolicy}
use tradeops_sentinel.Oracle.Parity.Actions.{post_action_facts-nil_iff}
use tradeops_sentinel.Oracle.Parity.Result.{inputs_accepted, result_iff}
use tradeops_sentinel.Oracle.Parity.Sources.{
  duplicate_facts-nil_iff, linkage_facts-nil_iff, missing_source_facts-nil_iff,
}
use tradeops_sentinel.Oracle.Parity.States.{
  AsConfigured, configured-IsLifecycleClean, lifecycle_facts-nil_iff,
}
use tradeops_sentinel.Oracle.Parity.Values.{
  date_facts-nil_iff, economic_facts-nil_iff, exact_facts-nil_iff,
}
use tradeops_sentinel.Oracle.Policy.{OracleConfig}
use tradeops_sentinel.Reconciliation.Breaks.{Break, currency_pair_or_side_mismatch}
use tradeops_sentinel.Reconciliation.Config.{ReconciliationConfig}
use tradeops_sentinel.Reconciliation.Context.{Context, effective_evaluated_at}
use tradeops_sentinel.Reconciliation.Context.Traced.{context-IsTraced}
use tradeops_sentinel.Reconciliation.Duplicates.{ordered_observations}
use tradeops_sentinel.Reconciliation.Economic.{economic_breaks, economic_name}
use tradeops_sentinel.Reconciliation.Economic.Agreement.{economic_breaks-IsWithin}
use tradeops_sentinel.Reconciliation.Fields.{
  ExactField, base_currency, exact_name, side, terms_currency, trade_date, value_date,
}
use tradeops_sentinel.Reconciliation.Fields.Agreement.{AgreeOn, found-nil_iff}
use tradeops_sentinel.Reconciliation.PostAction.Verified.{Verified}
use tradeops_sentinel.Reconciliation.Run.{
  ReconciliationRun, economic_provenance, exact_provenance, is_over, pass, run,
}
use tradeops_sentinel.Reconciliation.Run.Pass.{AllArrived, IsClean, IsLinked, NoConflict}
use tradeops_sentinel.Reconciliation.Run.Pass.Whole.{
  IsSettledInput, economic_listed, exact_listed, input-IsScoped, ordered-AreDecimals,
  ordered-IsTraced, run-pass_iff,
}
use tradeops_sentinel.Remediation.Store.AtMostOnce.{back}

some-eq-nil_iff : {A P : Type 0} {xs : List A} → (xs ≡ []) ↔ P → (some xs ≡ some []) ↔ P
some-eq-nil_iff (out, back) = (λ h. out (some-injective _ _ h), λ p. ap some (back p))

-- What the oracle tests, condition after condition.
abbrev IsQuiet : ReconciliationConfig → Context → Type 0
IsQuiet c ctx =
    let os = ordered_observations ctx.source_observations in
    AllArrived c ctx os
    × IsLinked c ctx os
    × NoConflict c ctx os
    × AgreeOn (base_currency ∷ []) os
    × AgreeOn (terms_currency ∷ []) os
    × AgreeOn (side ∷ []) os
    × (economic_breaks c ctx.canonical_state.product_type (economic_provenance ctx) os ≡ some [])
    × AgreeOn (trade_date ∷ value_date ∷ []) os
    × AsConfigured c ctx.source_observations
    × Verified ctx.post_action_verification

oracle_facts-nil_iff :
    (oc : OracleConfig) (c : ReconciliationConfig) (ctx : Context)
    → IsSettledInput c ctx
    → SamePolicy oc c
    → (oracle_facts oc ctx ≡ some []) ↔ IsQuiet c ctx
unfolding oracle_facts
oracle_facts-nil_iff oc c ctx input same =
    let s = ctx.canonical_state in
    let os = ctx.source_observations in
    let exact =
      context-IsTraced ctx exact_name input.state_valid input.context_valid exact_listed in
    let exact' = ordered-IsTraced (exact_provenance ctx) os exact in
    let traced =
      context-IsTraced ctx economic_name input.state_valid input.context_valid economic_listed in
    let facts = exact_facts currency_pair_or_side_mismatch os in
    let one = λ (f : ExactField).
      exact_facts-nil_iff os currency_pair_or_side_mismatch (exact_provenance ctx) f exact exact' in
    let d10 = some (post_action_facts ctx.post_action_verification) in
    let d9 = some (lifecycle_facts oc os) in
    let d8 = date_facts (exact_provenance ctx) os in
    let d7 = economic_facts oc s.product_type (economic_provenance ctx) os in
    let d6 = facts (exact_provenance ctx side) side in
    let d5 = facts (exact_provenance ctx terms_currency) terms_currency in
    let d4 = facts (exact_provenance ctx base_currency) base_currency in
    let d3 = duplicate_facts os in
    let d2 = linkage_facts s os ctx.linkage_decision in
    let d1 = missing_source_facts oc s (effective_evaluated_at ctx) os in
    let q10 =
      Quiet-cons d10 [] (some-eq-nil_iff (post_action_facts-nil_iff ctx.post_action_verification))
        Quiet-nil in
    let q9 =
      Quiet-cons d9 (d10 ∷ []) (some-eq-nil_iff (lifecycle_facts-nil_iff oc c same os)) q10 in
    let q8 =
      Quiet-cons d8 (d9 ∷ d10 ∷ []) (date_facts-nil_iff os (exact_provenance ctx) exact exact')
        q9 in
    let q7 =
      Quiet-cons d7 (d8 ∷ d9 ∷ d10 ∷ [])
        (economic_facts-nil_iff oc c s.product_type same (economic_provenance ctx) os traced
          input.decimals.1)
        q8 in
    let q6 = Quiet-cons d6 (d7 ∷ d8 ∷ d9 ∷ d10 ∷ []) (one side) q7 in
    let q5 = Quiet-cons d5 (d6 ∷ d7 ∷ d8 ∷ d9 ∷ d10 ∷ []) (one terms_currency) q6 in
    let q4 = Quiet-cons d4 (d5 ∷ d6 ∷ d7 ∷ d8 ∷ d9 ∷ d10 ∷ []) (one base_currency) q5 in
    let q3 =
      Quiet-cons d3 (d4 ∷ d5 ∷ d6 ∷ d7 ∷ d8 ∷ d9 ∷ d10 ∷ []) (duplicate_facts-nil_iff c ctx) q4 in
    let q2 =
      Quiet-cons d2 (d3 ∷ d4 ∷ d5 ∷ d6 ∷ d7 ∷ d8 ∷ d9 ∷ d10 ∷ [])
        (linkage_facts-nil_iff c ctx (input-IsScoped c ctx input)) q3 in
    let (out, back) =
      Quiet-cons d1 (d2 ∷ d3 ∷ d4 ∷ d5 ∷ d6 ∷ d7 ∷ d8 ∷ d9 ∷ d10 ∷ [])
        (missing_source_facts-nil_iff oc c ctx same) q2 in
    (
      λ h.
          let (a, (l, (n, (b, (t, (sd, (e, (d, (st, (v, _)))))))))) = out h in
          (a, l, n, b, t, sd, e, d, st, v),
      λ (a, l, n, b, t, sd, e, d, st, v).
          back (a, (l, (n, (b, (t, (sd, (e, (d, (st, (v, tt)))))))))),
    )

-- The three exact fields of the currencies and the side, one by one and together.
agree_currencies :
    (os : List Observation)
    → AgreeOn (base_currency ∷ terms_currency ∷ side ∷ []) os ↔ (
        AgreeOn (base_currency ∷ []) os × AgreeOn (terms_currency ∷ []) os × AgreeOn (side ∷ []) os)
agree_currencies os = (
  λ all. (
    λ f m. elim m [ Memᴰ.head e ↦ all f (Memᴰ.head e) | Memᴰ.tail n ↦ elim n [ ] ],
    λ f m. elim m [ Memᴰ.head e ↦ all f (Memᴰ.tail (Memᴰ.head e)) | Memᴰ.tail n ↦ elim n [ ] ],
    λ f m. elim m [
      | Memᴰ.head e ↦ all f (Memᴰ.tail (Memᴰ.tail (Memᴰ.head e)))
      | Memᴰ.tail n ↦ elim n [ ]
    ],
  ),
  λ (b, t, s) f m. elim m [
    | Memᴰ.head e ↦ b f (Memᴰ.head e)
    | Memᴰ.tail m' ↦ elim m' [ Memᴰ.head e ↦ t f (Memᴰ.head e) | Memᴰ.tail m'' ↦ s f m'' ]
  ],
)

-- The engine's conditions, and that each observation is as configured, are those of the oracle.
IsQuiet-iff :
    (c : ReconciliationConfig) (ctx : Context)
    → IsSettledInput c ctx
    → IsQuiet c ctx ↔ (
        IsClean c ctx (ordered_observations ctx.source_observations)
        × AsConfigured c ctx.source_observations)
IsQuiet-iff c ctx input =
    let os = ordered_observations ctx.source_observations in
    let (out, back) = agree_currencies os in
    let (to, from) =
      found-nil_iff
        (economic_breaks c ctx.canonical_state.product_type (economic_provenance ctx) os) _
        (economic_breaks-IsWithin c ctx.canonical_state.product_type (economic_provenance ctx) os
          input.config_valid
          (ordered-IsTraced (economic_provenance ctx) ctx.source_observations (
            context-IsTraced ctx economic_name input.state_valid input.context_valid
              economic_listed))
          (ordered-AreDecimals c ctx.source_observations input.decimals)) in
    (
      λ (a, l, n, b, t, s, e, d, st, v).
          ((a, l, n, back (b, t, s), to e, d, configured-IsLifecycleClean c ctx st, v), st),
      λ ((a, l, n, f, w, d, _, v), st).
          let (b, t, s) = out f in (a, l, n, b, t, s, from w, d, st, v),
    )

-- For validated inputs, an evaluation time in the interval of the engine's configuration, and an
-- oracle with the same rules, the oracle reports no family exactly when the engine's run returns the
-- result PASS and either all observations are amended, or all cancelled, or each has the status that
-- the rule of its kind expects.
pub evaluate_context-run :
    (oc : OracleConfig) (break_id : Break → String) (c : ReconciliationConfig) (ctx : Context)
    → SamePolicy oc c
    → IsSettledInput c ctx
    → c.effective_from ≤ effective_evaluated_at ctx
    → is_over (effective_evaluated_at ctx) c.effective_to ≡ false
    → ((r : OracleResult) × (evaluate_context oc ctx ≡ some r) × (r.families ≡ [])) ↔ (
        ((r : ReconciliationRun) × (run break_id c ctx ≡ some r) × (r.result ≡ pass))
        × AsConfigured c ctx.source_observations)
unfolding evaluate_context
evaluate_context-run oc break_id c ctx same input started running =
    let (out, back) = run-pass_iff break_id c ctx input started running in
    let (to, from) = IsQuiet-iff c ctx input in
    let (out', back') = oracle_facts-nil_iff oc c ctx input same in
    let (un, re) = result_iff oc ctx (oracle_facts oc ctx) in
    rw (inputs_accepted oc c ctx same input.context_valid) (
      λ h. let (clean, st) = to (out' (un h)) in (back clean, st),
      λ (passed, st). re (back' (from (out passed, st))),
    )
