-- ===== src/Oracle/Parity/Result.antt =====
-- That the oracle accepts the inputs of a run, and when its result lists no family.
use mathlib.Core.Option.{some-injective}
use mathlib.Core.List.{Memᴰ}
use mathlib.Core.Path.{subst}
use tradeops_sentinel.Base.{
  Bool-cases, List, Option, [], all_pass, any, any_found, ap, arith, check_at_passes, eq_refl,
  fails_of_any, false, false_of_not, ids_distinct, inl, inr, length, ltb, map, map_some,
  mem_filter_of_mem, none, not, refl, some, true, ◌↔◌, ◌∙◌, ◌∷◌, ◌≡◌,
}
use tradeops_sentinel.Contracts.{Observation}
use tradeops_sentinel.Oracle.Evaluate.{
  OracleResult, break_families, has_family, input_checks, linkage_known, observation_strays,
  oracle_result,
}
use tradeops_sentinel.Oracle.Facts.{OracleFact}
use tradeops_sentinel.Oracle.Parity.{SamePolicy}
use tradeops_sentinel.Oracle.Policy.{OracleConfig}
use tradeops_sentinel.Reconciliation.Breaks.{
  BreakFamily, ambiguous_or_unmatched_linkage, currency_pair_or_side_mismatch,
  duplicate_source_conflict, economic_value_mismatch, family_name, lifecycle_status_mismatch,
  missing_required_source, post_action_verification_failure, trade_or_value_date_mismatch,
}
use tradeops_sentinel.Reconciliation.Config.{ReconciliationConfig}
use tradeops_sentinel.Reconciliation.Context.{
  Context, context_checks, is_resolved, linkage_valid, observation_fails, same_sources,
  validate_context_scope,
}
use tradeops_sentinel.Reconciliation.Linkage.{LinkageDecision}
use tradeops_sentinel.Remediation.Store.AtMostOnce.{back}
use tradeops_sentinel.Remediation.Tables.{empty}

strays_none :
    (ctx : Context)
    → any
        (observation_fails ctx.canonical_state (is_resolved ctx.linkage_decision))
        ctx.source_observations
      ≡ false
    → any (observation_strays ctx.canonical_state) ctx.source_observations ≡ false
strays_none ctx h =
    let s = ctx.canonical_state in
    let resolved = is_resolved ctx.linkage_decision in
    elim (Bool-cases (any (observation_strays s) ctx.source_observations)) [
      | inr fails ↦ fails
      | inl holds ↦
          let (o, m, e) = any_found (observation_strays s) ctx.source_observations holds in
          let quiet = fails_of_any (observation_fails s resolved) h m in
          absurd (ground (arith, e, quiet))
    ]

linkage_known_of :
    (ctx : Context) (decision : Option LinkageDecision)
    → linkage_valid ctx decision ≡ true
    → linkage_known ctx.source_observations decision ≡ true
linkage_known_of ctx none h = refl
linkage_known_of ctx (some d) h = ground (arith, h)

-- The checks of the oracle hold of a context that the engine's models accept.
pub inputs_accepted :
    (oc : OracleConfig) (c : ReconciliationConfig) (ctx : Context)
    → SamePolicy oc c
    → validate_context_scope ctx ≡ true
    → all_pass (input_checks oc ctx) ≡ true
unfolding validate_context_scope all_pass
inputs_accepted oc c ctx same h =
    let checks = context_checks ctx in
    let sources : same_sources ctx.canonical_state.source_version_set ctx.source_observations
        ≡ true =
      check_at_passes 3 checks h in
    let inside : not (
          any (observation_fails ctx.canonical_state (is_resolved ctx.linkage_decision))
            ctx.source_observations)
        ≡ true =
      check_at_passes 4 checks h in
    let linked : linkage_valid ctx ctx.linkage_decision ≡ true = check_at_passes 5 checks h in
    let filled : ltb 0 (length ctx.source_observations) ≡ true = check_at_passes 0 checks h in
    let distinct : ids_distinct
          (map (λ (o : Observation). o.observation_id) ctx.source_observations)
        ≡ true =
      check_at_passes 2 checks h in
    rw
      (
        filled,
        distinct,
        strays_none ctx (false_of_not inside),
        sources,
        linkage_known_of ctx ctx.linkage_decision linked,
        same.has_id,
        same.has_version,
      )
      refl

family_listed : (family : BreakFamily) → Memᴰ family break_families
family_listed missing_required_source = Memᴰ.head refl
family_listed ambiguous_or_unmatched_linkage = Memᴰ.tail (Memᴰ.head refl)
family_listed duplicate_source_conflict = Memᴰ.tail (Memᴰ.tail (Memᴰ.head refl))
family_listed currency_pair_or_side_mismatch = Memᴰ.tail (Memᴰ.tail (Memᴰ.tail (Memᴰ.head refl)))
family_listed economic_value_mismatch =
    Memᴰ.tail (Memᴰ.tail (Memᴰ.tail (Memᴰ.tail (Memᴰ.head refl))))
family_listed trade_or_value_date_mismatch =
    Memᴰ.tail (Memᴰ.tail (Memᴰ.tail (Memᴰ.tail (Memᴰ.tail (Memᴰ.head refl)))))
family_listed lifecycle_status_mismatch =
    Memᴰ.tail (Memᴰ.tail (Memᴰ.tail (Memᴰ.tail (Memᴰ.tail (Memᴰ.tail (Memᴰ.head refl))))))
family_listed post_action_verification_failure =
    Memᴰ.tail
      (Memᴰ.tail (Memᴰ.tail (Memᴰ.tail (Memᴰ.tail (Memᴰ.tail (Memᴰ.tail (Memᴰ.head refl)))))))

-- A result lists no family exactly when there is no fact.
families-nil_iff :
    (ctx : Context) (facts : List OracleFact)
    → ((oracle_result ctx facts).families ≡ []) ↔ (facts ≡ [])
unfolding oracle_result
families-nil_iff ctx [] = (λ _. refl, λ _. refl)
families-nil_iff ctx (f ∷ fs) = (
  λ h.
      let here : has_family (f ∷ fs) f.family ≡ true =
        ground (arith, eq_refl (family_name f.family)) in
      let m =
        mem_filter_of_mem (has_family (f ∷ fs)) break_families (family_listed f.family) here in
      elim (subst (λ (l : List BreakFamily). Memᴰ f.family l) h m) [ ],
  λ h. cc,
)

pub result_iff :
    (oc : OracleConfig) (ctx : Context) (found : Option (List OracleFact))
    → ((r : OracleResult) × (map_some (oracle_result ctx) found ≡ some r) × (r.families ≡ []))
      ↔ (found ≡ some [])
result_iff oc ctx none = (λ (r, h, _). cc, λ h. cc)
result_iff oc ctx (some facts) =
    let (out, back) = families-nil_iff ctx facts in
    (
      λ (r, h, empty).
          let same : oracle_result ctx facts ≡ r = some-injective _ _ h in
          ap some (out (ap (λ (x : OracleResult). x.families) same ∙ empty)),
      λ h. (oracle_result ctx facts, refl, back (some-injective _ _ h)),
    )
