-- ===== src/Oracle/Evaluate.antt =====
-- packages/oracle/evaluator.py and models.py: the evaluation of a context, and its result.
use tradeops_sentinel.Base.{
  Bool, List, Option, String, [], all_pass, any, collect, false, filter, ids_distinct,
  if◌then◌else◌, length, ltb, map, map_some, none, not, some, sorted, then_number, then_text, true,
  ℕ, ◌&&◌, ◌==◌, ◌||◌, ◌∷◌,
}
use tradeops_sentinel.Contracts.{Observation}
use tradeops_sentinel.Oracle.Actions.{post_action_facts}
use tradeops_sentinel.Oracle.Comparisons.{date_facts, economic_facts, exact_facts, lifecycle_facts}
use tradeops_sentinel.Oracle.Facts.{
  OracleFact, duplicate_facts, linkage_facts, missing_source_facts, oracle_ordered,
}
use tradeops_sentinel.Oracle.Policy.{OracleConfig}
use tradeops_sentinel.Reconciliation.Breaks.{
  BreakFamily, ambiguous_or_unmatched_linkage, currency_pair_or_side_mismatch,
  duplicate_source_conflict, economic_value_mismatch, family_name, lifecycle_status_mismatch,
  missing_required_source, post_action_verification_failure, trade_or_value_date_mismatch,
}
use tradeops_sentinel.Reconciliation.Config.{ProductType}
use tradeops_sentinel.Reconciliation.Context.{
  CanonicalTradeState, Context, action_known, effective_evaluated_at, has_id, same_sources,
  time_valid,
}
use tradeops_sentinel.Reconciliation.Fields.{base_currency, side, terms_currency}
use tradeops_sentinel.Reconciliation.Linkage.{LinkageDecision}
use tradeops_sentinel.Reconciliation.Run.{economic_provenance, exact_provenance}

-- `OracleResult`, without the hash of the configuration.
pub record OracleResult : Type 0 where
  pub product_type : ProductType
  pub source_watermark : ℕ
  pub source_observation_ids : List String
  pub families : List BreakFamily
  pub facts : List OracleFact

-- `BREAK_FAMILIES`
abbrev pub break_families : List BreakFamily
break_families =
    missing_required_source ∷ ambiguous_or_unmatched_linkage ∷ duplicate_source_conflict
    ∷ currency_pair_or_side_mismatch ∷ economic_value_mismatch ∷ trade_or_value_date_mismatch
    ∷ lifecycle_status_mismatch ∷ post_action_verification_failure ∷ []

-- `BREAK_FAMILIES.index`
abbrev pub family_index : BreakFamily → ℕ
family_index missing_required_source = 0
family_index ambiguous_or_unmatched_linkage = 1
family_index duplicate_source_conflict = 2
family_index currency_pair_or_side_mismatch = 3
family_index economic_value_mismatch = 4
family_index trade_or_value_date_mismatch = 5
family_index lifecycle_status_mismatch = 6
family_index post_action_verification_failure = 7

pub ids_le : List String → List String → Bool
ids_le [] b = true
ids_le (i ∷ is) [] = false
ids_le (i ∷ is) (j ∷ js) = then_text i j (ids_le is js)

-- The key of `facts.sort`.
abbrev pub fact_le : OracleFact → OracleFact → Bool
fact_le a b =
    then_number (family_index a.family) (family_index b.family) (
      then_text a.field_path b.field_path
        (ids_le a.source_observation_ids b.source_observation_ids))

abbrev pub has_family : List OracleFact → BreakFamily → Bool
has_family facts family = any (λ (f : OracleFact). family_name f.family == family_name family) facts

-- `validate_input_boundary`, of the context of the oracle.
abbrev pub observation_strays : CanonicalTradeState → Observation → Bool
observation_strays s o =
    not (
      (o.tenant_id == s.tenant_id)
      && (o.portfolio_id == s.portfolio_id)
      && (o.correlation_id == s.correlation_id))
    || ltb s.source_watermark o.ingest_time

abbrev pub linkage_known : List Observation → Option LinkageDecision → Bool
linkage_known observations none = true
linkage_known observations (some d) = has_id observations d.source_observation_id

abbrev pub boundary_checks : Context → List Bool
boundary_checks ctx =
    let s = ctx.canonical_state in
    ltb 0 (length ctx.source_observations)
    ∷ time_valid s.source_watermark ctx.evaluated_at
    ∷ ids_distinct (map (λ (o : Observation). o.observation_id) ctx.source_observations)
    ∷ same_sources s.source_version_set ctx.source_observations
    ∷ not (any (observation_strays s) ctx.source_observations)
    ∷ linkage_known ctx.source_observations ctx.linkage_decision
    ∷ action_known ctx.source_observations ctx.post_action_verification
    ∷ []

unfoldable pub validate_input_boundary : Context → Bool
unfolding all_pass ids_distinct
validate_input_boundary ctx = all_pass (boundary_checks ctx)

-- `_validate_input`, on the projection of a context.
abbrev pub input_checks : OracleConfig → Context → List Bool
input_checks oc ctx =
    let s = ctx.canonical_state in
    ltb 0 (length ctx.source_observations)
    ∷ ids_distinct (map (λ (o : Observation). o.observation_id) ctx.source_observations)
    ∷ not (any (observation_strays s) ctx.source_observations)
    ∷ same_sources s.source_version_set ctx.source_observations
    ∷ linkage_known ctx.source_observations ctx.linkage_decision
    ∷ not (oc.config_id == "")
    ∷ not (oc.config_version == "")
    ∷ []

-- The facts in the order in which they are derived; none if one of the functions raises.
unfoldable pub oracle_facts : OracleConfig → Context → Option (List OracleFact)
unfolding missing_source_facts linkage_facts duplicate_facts exact_facts economic_facts date_facts
    lifecycle_facts post_action_facts
oracle_facts oc ctx =
    let s = ctx.canonical_state in
    let observations = ctx.source_observations in
    let exact = exact_facts currency_pair_or_side_mismatch observations in
    collect (λ (found : Option (List OracleFact)). found)
      (missing_source_facts oc s (effective_evaluated_at ctx) observations
        ∷ linkage_facts s observations ctx.linkage_decision
        ∷ duplicate_facts observations
        ∷ exact (exact_provenance ctx base_currency) base_currency
        ∷ exact (exact_provenance ctx terms_currency) terms_currency
        ∷ exact (exact_provenance ctx side) side
        ∷ economic_facts oc s.product_type (economic_provenance ctx) observations
        ∷ date_facts (exact_provenance ctx) observations
        ∷ some (lifecycle_facts oc observations)
        ∷ some (post_action_facts ctx.post_action_verification)
        ∷ [])

unfoldable pub oracle_result : Context → List OracleFact → OracleResult
unfolding oracle_ordered ids_le
oracle_result ctx facts = record {
  product_type = ctx.canonical_state.product_type;
  source_watermark = ctx.canonical_state.source_watermark;
  source_observation_ids =
      map (λ (o : Observation). o.observation_id) (oracle_ordered ctx.source_observations);
  families = filter (has_family facts) break_families;
  facts = sorted fact_le facts;
}

-- `_evaluate_context`, under a configuration; none if it raises.
unfoldable pub evaluate_context : OracleConfig → Context → Option OracleResult
unfolding all_pass ids_distinct oracle_facts oracle_result
evaluate_context oc ctx =
    if all_pass (input_checks oc ctx)
    then map_some (oracle_result ctx) (oracle_facts oc ctx)
    else none
