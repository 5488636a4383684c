-- ===== src/Reconciliation/Run.antt =====
-- packages/reconciliation/engine.py (ReconciliationEngine.run) and models.py: one evaluation of the
-- eight families, and its result.
pub mod Pass
pub mod Tests
use tradeops_sentinel.Base.{
  Bool, Char, List, Option, String, [], and_then, collect, false, ids_distinct, if◌then◌else◌, leb,
  ltb, map, map_some, nat_eq, none, some, sorted, suc, text_le, then_text, zero, ℕ, ◌%◌, ◌++◌, ◌/◌,
  ◌∷◌,
}
use tradeops_sentinel.Contracts.{Observation}
use tradeops_sentinel.Reconciliation.Breaks.{
  Break, BreakFamily, FieldComparison, ambiguous_or_unmatched_linkage, family_name,
  lifecycle_status_mismatch, missing_required_source,
}
use tradeops_sentinel.Reconciliation.Config.{EconomicField, ReconciliationConfig}
use tradeops_sentinel.Reconciliation.Context.{Context, effective_evaluated_at}
use tradeops_sentinel.Reconciliation.Duplicates.{duplicate_breaks, ordered_observations}
use tradeops_sentinel.Reconciliation.Economic.{economic_breaks, economic_name}
use tradeops_sentinel.Reconciliation.Fields.{
  ExactField, currency_breaks, date_break, exact_name, field_path,
}
use tradeops_sentinel.Reconciliation.Lifecycle.{
  LifecycleOutcome, comparison_refused, key_error, lifecycle_break, mismatch_found, no_break,
}
use tradeops_sentinel.Reconciliation.Linkage.{CountComparison, linkage_break}
use tradeops_sentinel.Reconciliation.PostAction.{post_action_break}
use tradeops_sentinel.Reconciliation.Sources.{MissingSourceBreak, missing_source_breaks}

-- `observations[0].observation_id`
abbrev pub first_id : List Observation → Option String
first_id [] = none
first_id (o ∷ os) = some o.observation_id

abbrev pub missing_to_break : List Observation → MissingSourceBreak → Break
missing_to_break observations m = record {
  family = missing_required_source;
  comparisons =
      record {
        field_path = m.field_path;
        expected_value = "present";
        observed_value = "absent_after_watermark";
        expected_source_observation_id = none;
        observed_source_observation_id = first_id observations;
      }
      ∷ [];
}

digit : ℕ → Char
digit n =
    if nat_eq n 0
    then "0"
    else if nat_eq n 1
    then "1"
    else if nat_eq n 2
    then "2"
    else if nat_eq n 3
    then "3"
    else if nat_eq n 4
    then "4"
    else if nat_eq n 5
    then "5"
    else if nat_eq n 6
    then "6"
    else if nat_eq n 7
    then "7"
    else if nat_eq n 8
    then "8"
    else "9"

show_from : ℕ → ℕ → String → String
unfolding digit
show_from zero n after = after
show_from (suc fuel) n after =
    let here = String.◌∷◌ (digit (n % 10)) after in
    let rest = show_from fuel (n / 10) here in if ltb n 10 then here else rest

-- `str(n)`
unfoldable pub show : ℕ → String
unfolding show_from
show n = show_from (suc n) n ""

abbrev pub linkage_to_break : List Observation → CountComparison → Break
linkage_to_break observations c = record {
  family = ambiguous_or_unmatched_linkage;
  comparisons =
      record {
        field_path = "/linkage/trade_id";
        expected_value = show c.expected_value;
        observed_value = show c.observed_value;
        expected_source_observation_id = first_id observations;
        observed_source_observation_id = first_id observations;
      }
      ∷ [];
}

abbrev pub linkage_breaks : List Observation → Option CountComparison → List Break
linkage_breaks observations none = []
linkage_breaks observations (some c) = linkage_to_break observations c ∷ []

abbrev pub lifecycle_breaks : LifecycleOutcome → Option (List Break)
lifecycle_breaks no_break = some []
lifecycle_breaks key_error = none
lifecycle_breaks (comparison_refused c) = none
lifecycle_breaks (mismatch_found c) =
    some (record { family = lifecycle_status_mismatch; comparisons = c ∷ [] } ∷ [])

-- The observation that the canonical provenance of a field names.
abbrev pub exact_provenance : Context → ExactField → String
exact_provenance ctx f = (ctx.canonical_state.field_provenance (exact_name f)).source_observation_id

abbrev pub economic_provenance : Context → EconomicField → String
economic_provenance ctx f =
    (ctx.canonical_state.field_provenance (economic_name f)).source_observation_id

-- The detectors in the order of `run`, on the ordered observations; none if one raises.
unfoldable pub all_breaks : ReconciliationConfig → Context → List Observation → Option (List Break)
all_breaks c ctx observations =
    collect (λ (found : Option (List Break)). found)
      (map_some (map (missing_to_break observations)) (
          missing_source_breaks c ctx.canonical_state.product_type
            ctx.canonical_state.source_watermark ctx.canonical_state.latest_time
            (effective_evaluated_at ctx) observations)
        ∷ some (
            linkage_breaks observations (
              linkage_break ctx.canonical_state.trade_id ctx.canonical_state.tenant_id
                ctx.canonical_state.portfolio_id ctx.linkage_decision))
        ∷ duplicate_breaks observations
        ∷ currency_breaks (exact_provenance ctx) observations
        ∷ economic_breaks c ctx.canonical_state.product_type (economic_provenance ctx) observations
        ∷ date_break (exact_provenance ctx) observations
        ∷ lifecycle_breaks (lifecycle_break c observations)
        ∷ post_action_break ctx.post_action_verification
        ∷ [])

-- `effective_to is not None and t >= effective_to`
abbrev pub is_over : ℕ → Option ℕ → Bool
is_over t none = false
is_over t (some effective_to) = leb effective_to t

pub data RunResult : Type 0 where
  pass breaks_detected : RunResult

-- `BreakFact`, for one comparison of a break.
pub record BreakFact : Type 0 where
  pub family : BreakFamily
  pub comparison : FieldComparison

pub record ReconciliationRun : Type 0 where
  pub result : RunResult
  pub break_ids : List String
  pub breaks : List Break
  pub break_facts : List BreakFact
  pub source_version_set : List Observation

abbrev pub comparison_facts : Break → List BreakFact
comparison_facts b = map (λ c. record { family = b.family; comparison = c }) b.comparisons

pub break_facts_of : List Break → List BreakFact
break_facts_of [] = []
break_facts_of (b ∷ bs) = comparison_facts b ++ break_facts_of bs

abbrev pub result_of : List Break → RunResult
result_of [] = pass
result_of (b ∷ bs) = breaks_detected

module _ (break_id : Break → String) where
  -- The key of `breaks.sort`.
  abbrev pub break_le : Break → Break → Bool
  break_le a b =
      then_text (family_name a.family) (family_name b.family) (text_le (break_id a) (break_id b))

  unfoldable pub run_of : List Observation → List Break → ReconciliationRun
  unfolding break_facts_of
  run_of observations found =
      let breaks = sorted break_le found in
      record {
        result = result_of breaks;
        break_ids = map break_id breaks;
        breaks = breaks;
        break_facts = break_facts_of breaks;
        source_version_set = observations;
      }

  -- `validate_result_shape`, for a run that `run` has built.
  abbrev pub shape_checked : ReconciliationRun → Option ReconciliationRun
  shape_checked r = if ids_distinct r.break_ids then some r else none

  -- `run`, with none if it raises. The identifier of a break, a digest of its content, is the
  -- argument `break_id`.
  unfoldable pub run : ReconciliationConfig → Context → Option ReconciliationRun
  unfolding all_breaks run_of ids_distinct
  run c ctx =
      let t = effective_evaluated_at ctx in
      let observations = ordered_observations ctx.source_observations in
      if ltb t c.effective_from
      then none
      else if is_over t c.effective_to
      then none
      else and_then (all_breaks c ctx observations)
          (λ found. shape_checked (run_of observations found))
