-- ===== src/TradeBreaks/Break.antt =====
-- packages/contracts/models.py: a trade break, and the look-ups that its validator makes.
use tradeops_sentinel.Base.{
  Bool, List, Option, String, any, false, find, nat_eq, none, not, some, suc, zero, ℕ, ◌&&◌, ◌==◌,
}
use tradeops_sentinel.Contracts.{Actor, ObservationKind, SourceSystem}
use tradeops_sentinel.Reconciliation.Breaks.{BreakFamily}
use tradeops_sentinel.Reconciliation.Config.{MissingSourceKind, ProductType, ToleranceMode}
use tradeops_sentinel.Reconciliation.Sources.{BreakSeverity, DeadlineStatus}
use tradeops_sentinel.TradeBreaks.Policy.{
  BreakConditionCode, BreakEvidenceRole, BreakResolutionType, BreakValueType,
}
use tradeops_sentinel.TradeBreaks.Transitions.{BreakLifecycleState, BreakTransitionReason}

pub data MaterialityBand : Type 0 where
  material unassessed non_material : MaterialityBand

-- A Python integer: `pos n` is n and `negsuc n` is -(n + 1).
pub data ℤ : Type 0 where
  pos negsuc : ℕ → ℤ

abbrev pub negated : ℕ → ℤ
negated zero = pos 0
negated (suc n) = negsuc n

abbrev pub same_integer : ℤ → ℤ → Bool
same_integer (pos m) (pos n) = nat_eq m n
same_integer (negsuc m) (negsuc n) = nat_eq m n
same_integer _ _ = false

pub record BreakSourceReference : Type 0 where
  pub source_observation_id : String
  pub observation_kind : ObservationKind
  pub source_system : SourceSystem
  pub source_business_key : String
  pub source_tenant_id : String
  pub source_portfolio_id : String
  pub source_version : String
  pub content_hash : String

pub record BreakEvidence : Type 0 where
  pub evidence_id : String
  pub role : BreakEvidenceRole
  pub content_hash : String
  pub captured_at : ℕ
  pub source_observation_id : Option String
  pub source_version : Option String
  pub field_path : Option String

pub record BreakTolerance : Type 0 where
  pub mode : ToleranceMode
  pub value : Option String

pub record BreakComparison : Type 0 where
  pub field_path : String
  pub value_type : BreakValueType
  pub expected_value : String
  pub observed_value : String
  pub tolerance : BreakTolerance
  pub normalisation_rule_version : String
  pub evidence_ids : List String
  pub expected_source_observation_id : Option String
  pub expected_source_version : Option String
  pub observed_source_observation_id : Option String
  pub observed_source_version : Option String

-- Dates are the ordinals of their days.
pub record BreakProductContext : Type 0 where
  pub product_type : ProductType
  pub settlement_rule_version : String
  pub trade_date : ℕ
  pub value_date : ℕ

pub record DuplicateSourceConflict : Type 0 where
  pub source_observation_ids : List String
  pub source_business_key : String
  pub source_version : String

pub record ReconciliationSourceReference : Type 0 where
  pub source_observation_id : String
  pub source_version : String

pub record ReconciliationSourceValue : Type 0 where
  pub source_observation_id : String
  pub source_version : String
  pub value : String

pub record ReconciliationPassComparison : Type 0 where
  pub field_path : String
  pub value_type : BreakValueType
  pub values : List ReconciliationSourceValue

pub record ReconciliationPassProof : Type 0 where
  pub reconciliation_run_id : String
  pub family : BreakFamily
  pub condition_code : BreakConditionCode
  pub predicate_code : String
  pub source_version_set : List ReconciliationSourceReference
  pub comparisons : List ReconciliationPassComparison

pub record BreakPriority : Type 0 where
  pub materiality_band : MaterialityBand
  pub deadline_status : DeadlineStatus
  pub case_age_seconds : ℕ
  pub ordering_key : ℤ × ℤ × ℤ × ℤ

pub record MissingSourceExpectation : Type 0 where
  pub expected_observation_kind : MissingSourceKind
  pub expected_source_system : SourceSystem
  pub field_path : String
  pub arrival_window_rule_version : String
  pub watermark_at : ℕ
  pub expected_by : ℕ

pub record BreakResolution : Type 0 where
  pub resolution_type : BreakResolutionType
  pub reconciliation_run_id : Option String
  pub disposition_id : Option String
  pub approver : Option Actor
  pub evidence_ids : List String
  pub evidence_roles : List BreakEvidenceRole
  pub reconciliation_proof : Option ReconciliationPassProof

-- The fields that the validator reads; times are microseconds.
pub record TradeBreak : Type 0 where
  pub break_id : String
  pub break_version : ℕ
  pub tenant_id : String
  pub portfolio_id : String
  pub reconciliation_run_id : String
  pub product_type : ProductType
  pub product_context : BreakProductContext
  pub family : BreakFamily
  pub condition_code : BreakConditionCode
  pub severity : BreakSeverity
  pub severity_context : Option ObservationKind
  pub priority : BreakPriority
  pub source_version_set : List BreakSourceReference
  pub evaluated_field_paths : List String
  pub comparisons : List BreakComparison
  pub evidence : List BreakEvidence
  pub missing_source_expectation : Option MissingSourceExpectation
  pub duplicate_source_conflict : Option DuplicateSourceConflict
  pub state : BreakLifecycleState
  pub previous_state : Option BreakLifecycleState
  pub transition_reason : BreakTransitionReason
  pub detected_at : ℕ
  pub state_changed_at : ℕ
  pub resolved_at : Option ℕ
  pub resolution : Option BreakResolution
  pub supersedes_break_id : Option String

-- `item in items`, for texts.
abbrev pub is_in : List String → String → Bool
is_in texts t = any (λ u. u == t) texts

-- `set(items).issubset(set(others))`
abbrev pub all_in : List String → List String → Bool
all_in items others = not (any (λ t. not (is_in others t)) items)

abbrev pub same_set : List String → List String → Bool
same_set items others = all_in items others && all_in others items

abbrev pub is_text : Option String → String → Bool
is_text none t = false
is_text (some u) t = u == t

-- `indexed_sources.get(source_id)`, for identifiers that are unique.
abbrev pub source_of : TradeBreak → String → Option BreakSourceReference
source_of b id =
    find (λ (s : BreakSourceReference). s.source_observation_id == id) b.source_version_set

-- `indexed_evidence.get(evidence_id)`
abbrev pub evidence_of : TradeBreak → String → Option BreakEvidence
evidence_of b id = find (λ (e : BreakEvidence). e.evidence_id == id) b.evidence

-- `matched is not None and matched.source_version == version`
abbrev pub has_version : String → Option BreakSourceReference → Bool
has_version version none = false
has_version version (some s) = s.source_version == version
