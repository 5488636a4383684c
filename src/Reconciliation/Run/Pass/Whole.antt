-- ===== src/Reconciliation/Run/Pass/Whole.antt =====
-- A run passes exactly when nothing is wrong.
use mathlib.Core.Option.{some-injective}
use mathlib.Core.List.{Memᴰ}
use mathlib.Core.Path.{subst}
use tradeops_sentinel.Base.{
  Bool, Bool-cases, List, Option, Quiet-cons, Quiet-nil, String, [], and_then, ap, arith,
  eq_of_test, false, find_mem, ids_distinct, inl, inr, ltb, map, map_some, mem_sorted_of_mem, none,
  refl, some, sorted, true, ◌==◌, ◌↔◌, ◌∙◌, ◌∷◌, ◌≡◌, ◌≢◌, ◌≤◌,
}
use tradeops_sentinel.Contracts.{Observation, canonical_field_names}
use tradeops_sentinel.Reconciliation.Breaks.{Break}
use tradeops_sentinel.Reconciliation.Config.{
  EconomicField, ReconciliationConfig, base_amount, quoted_rate, terms_amount,
  validate_complete_policy,
}
use tradeops_sentinel.Reconciliation.Context.{
  Context, effective_evaluated_at, linkage_valid, validate_context_scope,
  validate_state_scope_and_availability,
}
use tradeops_sentinel.Reconciliation.Context.Traced.{context-IsScopedContext, context-IsTraced}
use tradeops_sentinel.Reconciliation.Duplicates.{duplicate_breaks, ordered_observations}
use tradeops_sentinel.Reconciliation.Duplicates.Conflicts.{duplicate_breaks-nil_iff}
use tradeops_sentinel.Reconciliation.Duplicates.Members.{mem_of_ordered, mem_ordered}
use tradeops_sentinel.Reconciliation.Economic.{economic_breaks, economic_name}
use tradeops_sentinel.Reconciliation.Economic.Agreement.{AreDecimals, economic_breaks-IsWithin}
use tradeops_sentinel.Reconciliation.Fields.{
  ExactField, base_currency, currency_breaks, date_break, exact_name, side, terms_currency,
  trade_date, value_date,
}
use tradeops_sentinel.Reconciliation.Fields.Agreement.{
  IsTraced, field_breaks-Agreement, found-nil_iff,
}
use tradeops_sentinel.Reconciliation.Lifecycle.{lifecycle_break}
use tradeops_sentinel.Reconciliation.Linkage.{
  LinkageDecision, linkage_break, validate_decision_shape,
}
use tradeops_sentinel.Reconciliation.PostAction.{post_action_break}
use tradeops_sentinel.Reconciliation.PostAction.Verified.{post_action_break-nil_iff}
use tradeops_sentinel.Reconciliation.Run.{
  ReconciliationRun, all_breaks, break_le, economic_provenance, exact_provenance, is_over,
  lifecycle_breaks, linkage_breaks, missing_to_break, pass, result_of, run, run_of, shape_checked,
}
use tradeops_sentinel.Reconciliation.Run.Pass.{IsClean}
use tradeops_sentinel.Reconciliation.Run.Pass.Arrivals.{arrived_iff}
use tradeops_sentinel.Reconciliation.Run.Pass.Detectors.{IsScoped, lifecycle_iff, linked_iff}
use tradeops_sentinel.Reconciliation.Sources.{missing_source_breaks}

-- What the validators guarantee of the inputs of a run.
pub record IsSettledInput (c : ReconciliationConfig) (ctx : Context) : Type 0 where
  pub config_valid : validate_complete_policy c ≡ true
  pub state_valid : validate_state_scope_and_availability ctx.canonical_state ≡ true
  pub context_valid : validate_context_scope ctx ≡ true
  pub decision_valid :
      (d : LinkageDecision) → ctx.linkage_decision ≡ some d → validate_decision_shape d ≡ true
  pub decimals : AreDecimals c ctx.source_observations

pub exact_listed : (f : ExactField) → Memᴰ (exact_name f) canonical_field_names
exact_listed base_currency = find_mem (λ n. n == "base_currency") canonical_field_names refl
exact_listed terms_currency = find_mem (λ n. n == "terms_currency") canonical_field_names refl
exact_listed side = find_mem (λ n. n == "side") canonical_field_names refl
exact_listed trade_date = find_mem (λ n. n == "trade_date") canonical_field_names refl
exact_listed value_date = find_mem (λ n. n == "value_date") canonical_field_names refl

pub economic_listed : (f : EconomicField) → Memᴰ (economic_name f) canonical_field_names
economic_listed base_amount = find_mem (λ n. n == "base_amount") canonical_field_names refl
economic_listed terms_amount = find_mem (λ n. n == "terms_amount") canonical_field_names refl
economic_listed quoted_rate = find_mem (λ n. n == "quoted_rate") canonical_field_names refl

pub input-IsScoped :
    (c : ReconciliationConfig) (ctx : Context) → IsSettledInput c ctx → IsScoped ctx
input-IsScoped c ctx input d at =
    let valid : linkage_valid ctx (some d) ≡ true =
      subst (λ (x : Option LinkageDecision). linkage_valid ctx x ≡ true) at
        (context-IsScopedContext ctx input.context_valid).linkage_scoped in
    let same_tenant : (d.tenant_id == ctx.canonical_state.tenant_id) ≡ true = ground arith in
    let same_portfolio : (d.portfolio_id == ctx.canonical_state.portfolio_id) ≡ true =
      ground arith in
    (input.decision_valid d at, eq_of_test _ _ same_tenant, eq_of_test _ _ same_portfolio)

pub ordered-IsTraced :
    {F : Type 0} (provenance : F → String) (os : List Observation)
    → IsTraced provenance os
    → IsTraced provenance (ordered_observations os)
ordered-IsTraced provenance os (named, unique) = (
  λ f. let (o, m, e) = named f in (o, mem_ordered os m, e),
  λ a b ma mb. unique a b (mem_of_ordered os ma) (mem_of_ordered os mb),
)

pub ordered-AreDecimals :
    (c : ReconciliationConfig) (os : List Observation)
    → AreDecimals c os
    → AreDecimals c (ordered_observations os)
ordered-AreDecimals c os (values, tolerances) =
    (λ f o m. values f o (mem_of_ordered os m), tolerances)

pub all_breaks-nil_iff :
    (c : ReconciliationConfig) (ctx : Context)
    → IsSettledInput c ctx
    → let observations = ordered_observations ctx.source_observations in
      (all_breaks c ctx observations ≡ some []) ↔ IsClean c ctx observations
unfolding all_breaks
all_breaks-nil_iff c ctx input =
    let os = ordered_observations ctx.source_observations in
    let exact =
      ordered-IsTraced (exact_provenance ctx) ctx.source_observations
        (context-IsTraced ctx exact_name input.state_valid input.context_valid exact_listed) in
    let fields = field_breaks-Agreement (exact_provenance ctx) os exact in
    let economic =
      economic_breaks-IsWithin c ctx.canonical_state.product_type (economic_provenance ctx) os
        input.config_valid
        (ordered-IsTraced (economic_provenance ctx) ctx.source_observations (
          context-IsTraced ctx economic_name input.state_valid input.context_valid economic_listed))
        (ordered-AreDecimals c ctx.source_observations input.decimals) in
    let d8 = post_action_break ctx.post_action_verification in
    let d7 = lifecycle_breaks (lifecycle_break c os) in
    let d6 = date_break (exact_provenance ctx) os in
    let d5 = economic_breaks c ctx.canonical_state.product_type (economic_provenance ctx) os in
    let d4 = currency_breaks (exact_provenance ctx) os in
    let d3 = duplicate_breaks os in
    let d2 = some (
      linkage_breaks os (
        linkage_break ctx.canonical_state.trade_id ctx.canonical_state.tenant_id
          ctx.canonical_state.portfolio_id ctx.linkage_decision)) in
    let d1 = map_some (map (missing_to_break os)) (
      missing_source_breaks c ctx.canonical_state.product_type ctx.canonical_state.source_watermark
        ctx.canonical_state.latest_time (effective_evaluated_at ctx) os) in
    let q8 = Quiet-cons d8 [] (post_action_break-nil_iff ctx.post_action_verification) Quiet-nil in
    let q7 = Quiet-cons d7 (d8 ∷ []) (lifecycle_iff c ctx os) q8 in
    let q6 = Quiet-cons d6 (d7 ∷ d8 ∷ []) (found-nil_iff d6 _ fields.1) q7 in
    let q5 = Quiet-cons d5 (d6 ∷ d7 ∷ d8 ∷ []) (found-nil_iff d5 _ economic) q6 in
    let q4 = Quiet-cons d4 (d5 ∷ d6 ∷ d7 ∷ d8 ∷ []) (found-nil_iff d4 _ fields.0) q5 in
    let q3 = Quiet-cons d3 (d4 ∷ d5 ∷ d6 ∷ d7 ∷ d8 ∷ []) (duplicate_breaks-nil_iff os) q4 in
    let q2 =
      Quiet-cons d2 (d3 ∷ d4 ∷ d5 ∷ d6 ∷ d7 ∷ d8 ∷ [])
        (linked_iff c ctx os (input-IsScoped c ctx input)) q3 in
    let (out, back) =
      Quiet-cons d1 (d2 ∷ d3 ∷ d4 ∷ d5 ∷ d6 ∷ d7 ∷ d8 ∷ [])
        (arrived_iff c ctx os input.config_valid) q2 in
    (
      λ h. let (a, (l, (n, (f, (w, (d, (s, (v, _)))))))) = out h in (a, l, n, f, w, d, s, v),
      λ (a, l, n, f, w, d, s, v). back (a, (l, (n, (f, (w, (d, (s, (v, tt)))))))),
    )

checked_same :
    (break_id : Break → String) (r : ReconciliationRun) {r' : ReconciliationRun}
    → shape_checked break_id r ≡ some r'
    → r ≡ r'
checked_same break_id r h = elim (Bool-cases (ids_distinct r.break_ids)) [
  | inl distinct_ ↦ some-injective _ _ (rw distinct_ at h)
  | inr clash ↦ let e : none ≡ some _ = rw clash at h in cc
]

pass_of_result : (bs : List Break) → result_of bs ≡ pass → bs ≡ []
pass_of_result [] h = refl
pass_of_result (b ∷ bs) h = cc

sorted-ne-nil : {A : Type 0} (le : A → A → Bool) (x : A) (xs : List A) → sorted le (x ∷ xs) ≢ []
sorted-ne-nil le x xs h =
    let m : Memᴰ x (sorted le (x ∷ xs)) = mem_sorted_of_mem le (x ∷ xs) (Memᴰ.head refl) in
    elim (subst (λ ys. Memᴰ x ys) h m) [ ]

sorted_nil_of : {A : Type 0} (le : A → A → Bool) (xs : List A) → sorted le xs ≡ [] → xs ≡ []
sorted_nil_of le [] h = refl
sorted_nil_of le (x ∷ xs) h = absurd (sorted-ne-nil le x xs h)

passes_iff :
    (break_id : Break → String) (os : List Observation) (found : Option (List Break))
    → ((r : ReconciliationRun) × (and_then found
            (λ bs. shape_checked break_id (run_of break_id os bs))
          ≡ some r)
        × (r.result ≡ pass))
      ↔ (found ≡ some [])
unfolding run_of ids_distinct sorted
passes_iff break_id os none = (λ (r, h, _). cc, λ h. cc)
passes_iff break_id os (some bs) = (
  λ (r, h, passed).
      let same = checked_same break_id (run_of break_id os bs) h in
      let quiet : result_of (sorted (break_le break_id) bs) ≡ pass =
        ap (λ (x : ReconciliationRun). x.result) same ∙ passed in
      ap some (sorted_nil_of (break_le break_id) bs (pass_of_result _ quiet)),
  λ h. let empty : bs ≡ [] = some-injective _ _ h in (run_of break_id os [], rw empty refl, refl),
)

-- For validated inputs and an evaluation time in the configuration's interval, a run returns the
-- result PASS exactly when every required source has arrived or is still within its window, which
-- must end at a time that a `datetime` can be, the observations are linked to the canonical trade, no
-- version of a source has two contents, the currencies, the side and the dates agree, the amounts
-- and rates are within tolerance, the action, if there was one, is verified, and of the statuses one
-- of three holds: all are that of an amended trade or all that of a cancelled one, each is the one that
-- its rule expects, or the status of an observation is not the expected one and no other observation
-- is there to compare it with, which passes too.
pub run-pass_iff :
    (break_id : Break → String) (c : ReconciliationConfig) (ctx : Context)
    → IsSettledInput c ctx
    → c.effective_from ≤ effective_evaluated_at ctx
    → is_over (effective_evaluated_at ctx) c.effective_to ≡ false
    → ((r : ReconciliationRun) × (run break_id c ctx ≡ some r) × (r.result ≡ pass))
      ↔ IsClean c ctx (ordered_observations ctx.source_observations)
unfolding run
run-pass_iff break_id c ctx input started running =
    let (out, back) = all_breaks-nil_iff c ctx input in
    let (out', back') =
      passes_iff break_id (ordered_observations ctx.source_observations)
        (all_breaks c ctx (ordered_observations ctx.source_observations)) in
    let early : ltb (effective_evaluated_at ctx) c.effective_from ≡ false = ground arith in
    rw (early, running) (λ h. out (out' h), λ h. back' (back h))
