-- ===== src/Reconciliation/Context/Traced.antt =====
-- What a validated context guarantees of the observations of a run.
use mathlib.Core.List.{Memᴰ}
use tradeops_sentinel.Base.{
  Bool, Option-cases, String, any, any_found, arith, both_true, check_at_passes, eq_of_ids_distinct,
  eq_of_test, fails_of_any, false, false_of_not, find, find_holds, find_mem, ids_distinct, inl, inr,
  map, not, sym, true, true_ne_false, true_of_not, ◌==◌, ◌∙◌, ◌≡◌,
}
use tradeops_sentinel.Contracts.{Observation, canonical_field_names}
use tradeops_sentinel.Reconciliation.Context.{
  CanonicalTradeState, Context, SourceVersionSetItem, context_checks, is_source_of, linkage_valid,
  provenance_unbacked, same_sources, source_set_checks, state_checks, validate_context_scope,
  validate_source_version_set_scope, validate_state_scope_and_availability,
}
use tradeops_sentinel.Reconciliation.Fields.Agreement.{IsTraced}

backed_of :
    (s : CanonicalTradeState)
    → validate_state_scope_and_availability s ≡ true
    → any (provenance_unbacked s) canonical_field_names ≡ false
unfolding validate_state_scope_and_availability validate_source_version_set_scope
backed_of s valid =
    let scope : validate_source_version_set_scope s ≡ true =
      check_at_passes 2 (state_checks s) valid in
    false_of_not (check_at_passes 2 (source_set_checks s) scope)

-- The parts of the validation of a context that its readers use.
pub record IsScopedContext (ctx : Context) : Type 0 where
  pub distinct_ids :
      ids_distinct (map (λ (o : Observation). o.observation_id) ctx.source_observations) ≡ true
  pub known_items :
      any
        (λ i. not (any (is_source_of i) ctx.source_observations))
        ctx.canonical_state.source_version_set
      ≡ false
  pub linkage_scoped : linkage_valid ctx ctx.linkage_decision ≡ true

pub context-IsScopedContext :
    (ctx : Context) → validate_context_scope ctx ≡ true → IsScopedContext ctx
unfolding validate_context_scope
context-IsScopedContext ctx h =
    let checks = context_checks ctx in
    let sources : same_sources ctx.canonical_state.source_version_set ctx.source_observations
        ≡ true =
      check_at_passes 3 checks h in
    record {
      distinct_ids = check_at_passes 2 checks h;
      known_items = false_of_not (both_true sources).1;
      linkage_scoped = check_at_passes 5 checks h;
    }

-- A field of the canonical state comes from one of the observations.
source_given :
    (ctx : Context) (name : String)
    → validate_state_scope_and_availability ctx.canonical_state ≡ true
    → validate_context_scope ctx ≡ true
    → Memᴰ name canonical_field_names
    → (o : Observation) × Memᴰ o ctx.source_observations
      × (o.observation_id ≡ (ctx.canonical_state.field_provenance name).source_observation_id)
source_given ctx name valid scoped m =
    let s = ctx.canonical_state in
    let p = s.field_provenance name in
    let is_it : SourceVersionSetItem → Bool = λ i. i.observation_id == p.source_observation_id in
    let backed : provenance_unbacked s name ≡ false =
      fails_of_any (provenance_unbacked s) (backed_of s valid) m in
    elim (Option-cases (find is_it s.source_version_set)) [
      | inl nothing ↦
          let clash : true ≡ false = rw nothing at backed in absurd (true_ne_false clash)
      | inr (i, at) ↦
          let known : not (any (is_source_of i) ctx.source_observations) ≡ false =
            fails_of_any (λ j. not (any (is_source_of j) ctx.source_observations))
              (context-IsScopedContext ctx scoped).known_items
              (find_mem is_it s.source_version_set at) in
          let (o, mo, same) =
            any_found (is_source_of i) ctx.source_observations (true_of_not known) in
          let named = eq_of_test _ _ (find_holds is_it s.source_version_set at) in
          (o, mo, sym (eq_of_test i.observation_id o.observation_id (ground (arith, same))) ∙ named)
    ]

pub context-IsTraced :
    {F : Type 0} (ctx : Context) (name : F → String)
    → validate_state_scope_and_availability ctx.canonical_state ≡ true
    → validate_context_scope ctx ≡ true
    → ((f : F) → Memᴰ (name f) canonical_field_names)
    → IsTraced
        (λ f. (ctx.canonical_state.field_provenance (name f)).source_observation_id)
        ctx.source_observations
context-IsTraced ctx name valid scoped listed = (
  λ f. source_given ctx (name f) valid scoped (listed f),
  λ a b ma mb e.
      eq_of_ids_distinct (λ (o : Observation). o.observation_id) ctx.source_observations
        (context-IsScopedContext ctx scoped).distinct_ids ma mb e,
)
