-- ===== src/TradeBreaks/Policy.antt =====
-- packages/contracts/models.py: the approved policy of the eight families of breaks.
use tradeops_sentinel.Base.{Bool, List, Option, String, [], false, none, some, true, ◌∷◌}
use tradeops_sentinel.Contracts.{ObservationKind, booking, confirmation, execution, trade_capture}
use tradeops_sentinel.Reconciliation.Breaks.{
  BreakFamily, ambiguous_or_unmatched_linkage, currency_pair_or_side_mismatch,
  duplicate_source_conflict, economic_value_mismatch, lifecycle_status_mismatch,
  missing_required_source, post_action_verification_failure, trade_or_value_date_mismatch,
}
use tradeops_sentinel.Reconciliation.Sources.{BreakSeverity, critical, high, medium}

pub data BreakConditionCode : Type 0 where
  missing_source_after_watermark linkage_candidate_scope_invariant : BreakConditionCode
  duplicate_source_identity_content exact_currency_pair_side : BreakConditionCode
  decimal_outside_tolerance exact_trade_value_date : BreakConditionCode
  allowed_lifecycle_relation post_action_readback_reconciliation : BreakConditionCode

abbrev pub condition_name : BreakConditionCode → String
condition_name missing_source_after_watermark = "MISSING_SOURCE_AFTER_WATERMARK"
condition_name linkage_candidate_scope_invariant = "LINKAGE_CANDIDATE_SCOPE_INVARIANT"
condition_name duplicate_source_identity_content = "DUPLICATE_SOURCE_IDENTITY_CONTENT"
condition_name exact_currency_pair_side = "EXACT_CURRENCY_PAIR_SIDE"
condition_name decimal_outside_tolerance = "DECIMAL_OUTSIDE_TOLERANCE"
condition_name exact_trade_value_date = "EXACT_TRADE_VALUE_DATE"
condition_name allowed_lifecycle_relation = "ALLOWED_LIFECYCLE_RELATION"
condition_name post_action_readback_reconciliation = "POST_ACTION_READBACK_RECONCILIATION"

pub data BreakEvidenceRole : Type 0 where
  ingestion_watermark expected_source candidate_link linkage_decision : BreakEvidenceRole
  source_payload_pair source_metadata field_comparison normalisation_rule : BreakEvidenceRole
  decimal_comparison date_comparison lifecycle_relation action_instruction : BreakEvidenceRole
  pre_action_read post_action_read changed_field_diff : BreakEvidenceRole
  reconciliation_result disposition_approval : BreakEvidenceRole

abbrev pub role_name : BreakEvidenceRole → String
role_name ingestion_watermark = "INGESTION_WATERMARK"
role_name expected_source = "EXPECTED_SOURCE"
role_name candidate_link = "CANDIDATE_LINK"
role_name linkage_decision = "LINKAGE_DECISION"
role_name source_payload_pair = "SOURCE_PAYLOAD_PAIR"
role_name source_metadata = "SOURCE_METADATA"
role_name field_comparison = "FIELD_COMPARISON"
role_name normalisation_rule = "NORMALISATION_RULE"
role_name decimal_comparison = "DECIMAL_COMPARISON"
role_name date_comparison = "DATE_COMPARISON"
role_name lifecycle_relation = "LIFECYCLE_RELATION"
role_name action_instruction = "ACTION_INSTRUCTION"
role_name pre_action_read = "PRE_ACTION_READ"
role_name post_action_read = "POST_ACTION_READ"
role_name changed_field_diff = "CHANGED_FIELD_DIFF"
role_name reconciliation_result = "RECONCILIATION_RESULT"
role_name disposition_approval = "DISPOSITION_APPROVAL"

pub data BreakValueType : Type 0 where
  absence count_value currency currency_pair side_value decimal date_value : BreakValueType
  lifecycle_value identifier readback source_identity version_value hash_value : BreakValueType

abbrev pub value_type_name : BreakValueType → String
value_type_name absence = "ABSENCE"
value_type_name count_value = "COUNT"
value_type_name currency = "CURRENCY"
value_type_name currency_pair = "CURRENCY_PAIR"
value_type_name side_value = "SIDE"
value_type_name decimal = "DECIMAL"
value_type_name date_value = "DATE"
value_type_name lifecycle_value = "LIFECYCLE_STATUS"
value_type_name identifier = "IDENTIFIER"
value_type_name readback = "READBACK"
value_type_name source_identity = "SOURCE_IDENTITY"
value_type_name version_value = "SOURCE_VERSION"
value_type_name hash_value = "CONTENT_HASH"

pub data BreakResolutionType : Type 0 where
  reconciliation_pass owner_approved_non_action : BreakResolutionType

-- The parts of `_BREAK_FAMILY_POLICY`; the resolution code of a family is its own.
abbrev pub condition_of : BreakFamily → BreakConditionCode
condition_of missing_required_source = missing_source_after_watermark
condition_of ambiguous_or_unmatched_linkage = linkage_candidate_scope_invariant
condition_of duplicate_source_conflict = duplicate_source_identity_content
condition_of currency_pair_or_side_mismatch = exact_currency_pair_side
condition_of economic_value_mismatch = decimal_outside_tolerance
condition_of trade_or_value_date_mismatch = exact_trade_value_date
condition_of lifecycle_status_mismatch = allowed_lifecycle_relation
condition_of post_action_verification_failure = post_action_readback_reconciliation

abbrev pub default_severity : BreakFamily → BreakSeverity
default_severity missing_required_source = high
default_severity ambiguous_or_unmatched_linkage = high
default_severity duplicate_source_conflict = high
default_severity currency_pair_or_side_mismatch = critical
default_severity economic_value_mismatch = critical
default_severity trade_or_value_date_mismatch = high
default_severity lifecycle_status_mismatch = high
default_severity post_action_verification_failure = critical

abbrev pub required_roles : BreakFamily → List BreakEvidenceRole
required_roles missing_required_source = ingestion_watermark ∷ expected_source ∷ []
required_roles ambiguous_or_unmatched_linkage = candidate_link ∷ linkage_decision ∷ []
required_roles duplicate_source_conflict = source_payload_pair ∷ source_metadata ∷ []
required_roles currency_pair_or_side_mismatch = field_comparison ∷ normalisation_rule ∷ []
required_roles economic_value_mismatch = decimal_comparison ∷ normalisation_rule ∷ []
required_roles trade_or_value_date_mismatch = date_comparison ∷ normalisation_rule ∷ []
required_roles lifecycle_status_mismatch = lifecycle_relation ∷ normalisation_rule ∷ []
required_roles post_action_verification_failure =
    action_instruction ∷ pre_action_read ∷ post_action_read ∷ changed_field_diff
    ∷ reconciliation_result ∷ []

abbrev pub resolution_code : BreakFamily → String
resolution_code missing_required_source = "SOURCE_OR_RECONCILIATION_PASS_OR_AUTHORISED_NON_ACTION"
resolution_code ambiguous_or_unmatched_linkage = "LINKAGE_DECISION_AND_RECONCILIATION_PASS"
resolution_code duplicate_source_conflict =
    "SOURCE_CORRECTION_OR_SUPERSESSION_AND_RECONCILIATION_PASS"
resolution_code currency_pair_or_side_mismatch =
    "AGREEMENT_AFTER_CORRECTION_AND_RECONCILIATION_PASS"
resolution_code economic_value_mismatch = "WITHIN_TOLERANCE_AND_RECONCILIATION_PASS"
resolution_code trade_or_value_date_mismatch = "DATES_AGREE_AND_RECONCILIATION_PASS"
resolution_code lifecycle_status_mismatch = "ALLOWED_LIFECYCLE_RELATION_AND_RECONCILIATION_PASS"
resolution_code post_action_verification_failure = "VERIFIED_READBACK_OR_AUTHORISED_NON_ACTION"

-- `_BREAK_COMPARISON_POLICY`
abbrev pub comparison_policy : BreakFamily → List (String × BreakValueType)
comparison_policy missing_required_source =
    ("/source/execution_observation", absence)
    ∷ ("/source/confirmation_observation", absence)
    ∷ ("/source/booking_observation", absence)
    ∷ []
comparison_policy ambiguous_or_unmatched_linkage = ("/linkage/trade_id", count_value) ∷ []
comparison_policy duplicate_source_conflict =
    ("/source/source_business_key", source_identity)
    ∷ ("/source/source_version", version_value)
    ∷ ("/source/content_hash", hash_value)
    ∷ []
comparison_policy currency_pair_or_side_mismatch =
    ("/payload/base_currency", currency)
    ∷ ("/payload/terms_currency", currency)
    ∷ ("/payload/side", side_value)
    ∷ []
comparison_policy economic_value_mismatch =
    ("/payload/base_amount", decimal)
    ∷ ("/payload/terms_amount", decimal)
    ∷ ("/payload/quoted_rate", decimal)
    ∷ []
comparison_policy trade_or_value_date_mismatch =
    ("/payload/trade_date", date_value) ∷ ("/payload/value_date", date_value) ∷ []
comparison_policy lifecycle_status_mismatch = ("/payload/lifecycle_status", lifecycle_value) ∷ []
comparison_policy post_action_verification_failure =
    ("/payload/book_id", identifier)
    ∷ ("/payload/lifecycle_status", lifecycle_value)
    ∷ ("/payload/booking_version", version_value)
    ∷ ("/payload/record_fingerprint", hash_value)
    ∷ []

-- `_BREAK_COMPARISON_EVIDENCE_ROLES`
abbrev pub comparison_roles : BreakFamily → List BreakEvidenceRole
comparison_roles missing_required_source = expected_source ∷ []
comparison_roles post_action_verification_failure =
    action_instruction ∷ pre_action_read ∷ post_action_read ∷ changed_field_diff ∷ []
comparison_roles family = required_roles family

-- `_BREAK_ALLOWED_RESOLUTION_TYPES`
abbrev pub resolution_allowed : BreakFamily → BreakResolutionType → Bool
resolution_allowed family reconciliation_pass = true
resolution_allowed missing_required_source owner_approved_non_action = true
resolution_allowed post_action_verification_failure owner_approved_non_action = true
resolution_allowed family owner_approved_non_action = false

-- `_BREAK_DISTINCT_SOURCE_FAMILIES`
abbrev pub wants_distinct_sources : BreakFamily → Bool
wants_distinct_sources missing_required_source = false
wants_distinct_sources ambiguous_or_unmatched_linkage = false
wants_distinct_sources post_action_verification_failure = false
wants_distinct_sources _ = true

abbrev pub is_missing_family : BreakFamily → Bool
is_missing_family missing_required_source = true
is_missing_family _ = false

abbrev pub is_duplicate_family : BreakFamily → Bool
is_duplicate_family duplicate_source_conflict = true
is_duplicate_family _ = false

-- `_expected_break_severity`, with none for its `ValueError`.
abbrev pub expected_severity : BreakFamily → Option ObservationKind → Option BreakSeverity
expected_severity missing_required_source none = none
expected_severity missing_required_source (some execution) = some high
expected_severity missing_required_source (some confirmation) = some medium
expected_severity missing_required_source (some booking) = some high
expected_severity missing_required_source (some trade_capture) = none
expected_severity family none = some (default_severity family)
expected_severity family (some kind) = none
