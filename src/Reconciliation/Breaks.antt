-- ===== src/Reconciliation/Breaks.antt =====
-- packages/reconciliation/engine.py: what a break carries, and how the detectors collect them.
use tradeops_sentinel.Base.{List, Option, String, [], none, some, ◌++◌, ◌∷◌}

pub data BreakFamily : Type 0 where
  missing_required_source ambiguous_or_unmatched_linkage : BreakFamily
  duplicate_source_conflict currency_pair_or_side_mismatch : BreakFamily
  economic_value_mismatch trade_or_value_date_mismatch : BreakFamily
  lifecycle_status_mismatch post_action_verification_failure : BreakFamily

abbrev pub family_name : BreakFamily → String
family_name missing_required_source = "MISSING_REQUIRED_SOURCE"
family_name ambiguous_or_unmatched_linkage = "AMBIGUOUS_OR_UNMATCHED_LINKAGE"
family_name duplicate_source_conflict = "DUPLICATE_SOURCE_CONFLICT"
family_name currency_pair_or_side_mismatch = "CURRENCY_PAIR_OR_SIDE_MISMATCH"
family_name economic_value_mismatch = "ECONOMIC_VALUE_MISMATCH"
family_name trade_or_value_date_mismatch = "TRADE_OR_VALUE_DATE_MISMATCH"
family_name lifecycle_status_mismatch = "LIFECYCLE_STATUS_MISMATCH"
family_name post_action_verification_failure = "POST_ACTION_VERIFICATION_FAILURE"

-- `BreakComparison`, without the rule versions and the evidence.
pub record FieldComparison : Type 0 where
  pub field_path : String
  pub expected_value : String
  pub observed_value : String
  pub expected_source_observation_id : Option String
  pub observed_source_observation_id : Option String

pub record Break : Type 0 where
  pub family : BreakFamily
  pub comparisons : List FieldComparison

abbrev pub then_comparisons :
    Option (List FieldComparison) → Option (List FieldComparison) → Option (List FieldComparison)
then_comparisons (some comparisons) (some rest) = some (comparisons ++ rest)
then_comparisons _ _ = none

abbrev pub break_of : BreakFamily → Option (List FieldComparison) → Option (List Break)
break_of family none = none
break_of family (some []) = some []
break_of family (some (c ∷ cs)) = some (record { family = family; comparisons = c ∷ cs } ∷ [])
