-- ===== src/TradeBreaks/Tests.antt =====
-- Breaks with concrete values.
use mathlib.Core.Option.{some-injective}
use mathlib.Core.Path.{subst}
use tradeops_sentinel.Base.{
  Option, String, [], false, none, refl, some, true, ℕ, ◌&&◌, ◌+◌, ◌∷◌, ◌≡◌, ◌≤◌, ◌⊎◌,
}
use tradeops_sentinel.Contracts.{
  ObservationKind, SourceSystem, booking, execution, fix_execution, mock_legacy_booking,
}
use tradeops_sentinel.Reconciliation.Breaks.{lifecycle_status_mismatch}
use tradeops_sentinel.Reconciliation.Config.{fx_spot, no_tolerance}
use tradeops_sentinel.Reconciliation.Decimal.{
  Decimal, abs_difference, abs_product, decimal_le, decimal_of,
}
use tradeops_sentinel.Reconciliation.Sources.{high, no_configured_deadline}
use tradeops_sentinel.TradeBreaks.Break.{
  BreakEvidence, BreakResolution, BreakSourceReference, ReconciliationPassProof,
  ReconciliationSourceValue, TradeBreak, negsuc, pos, unassessed,
}
use tradeops_sentinel.TradeBreaks.Detection.{validate_break_invariants}
use tradeops_sentinel.TradeBreaks.Policy.{
  BreakEvidenceRole, allowed_lifecycle_relation, lifecycle_relation, lifecycle_value,
  normalisation_rule, reconciliation_pass, reconciliation_result,
}
use tradeops_sentinel.TradeBreaks.Agreement.{Decimals}
use tradeops_sentinel.TradeBreaks.Resolution.{resolution_shape}
use tradeops_sentinel.TradeBreaks.Resolved.{IsJustified, resolved-IsJustified}
use tradeops_sentinel.TradeBreaks.Transitions.{
  BreakLifecycleState, BreakTransitionReason, action_pending, begin_verification, escalate,
  escalated, permitted, resolution_verified, resolved, verifying,
}
use tradeops_sentinel.TradeBreaks.Transitions.Histories.{
  Moves, changes_left, lifecycle_live, move, Moves-bounded, stay,
}

from_action_pending : Moves action_pending resolved 2
unfolding permitted
from_action_pending =
    let verified : Moves verifying resolved 1 = move resolution_verified refl stay in
    move {t = verifying} begin_verification refl verified

Moves-bounded_example : (2 + changes_left resolved ≤ changes_left action_pending) × (2 ≤ 5)
Moves-bounded_example = Moves-bounded action_pending resolved 2 from_action_pending

lifecycle_live_example :
    (((verifying ≡ resolved) ⊎ (verifying ≡ escalated))
      × ((t : BreakLifecycleState) (reason : BreakTransitionReason)
          → permitted (some verifying) t reason ≡ false))
    ⊎ ((permitted (some verifying) escalated escalate ≡ true)
        × (n : ℕ) × Moves verifying resolved n)
lifecycle_live_example = lifecycle_live verifying

abbrev decimals : Decimals
decimals = record {
  Number = Decimal;
  number_of = decimal_of;
  equal = λ a b. decimal_le a b && decimal_le b a;
  difference = λ a b. some (abs_difference a b);
  product = λ a b. some (abs_product a b);
  less_eq = decimal_le;
}

abbrev a_source : String → ObservationKind → SourceSystem → BreakSourceReference
a_source id kind sender = record {
  source_observation_id = id;
  observation_kind = kind;
  source_system = sender;
  source_business_key = "trade-key";
  source_tenant_id = "tenant-a";
  source_portfolio_id = "book-a";
  source_version = "1";
  content_hash = "sha256:00";
}

abbrev an_item :
    String → BreakEvidenceRole → Option String → Option String → Option String → BreakEvidence
an_item id role source_id version path = record {
  evidence_id = id;
  role = role;
  content_hash = "sha256:01";
  captured_at = 50;
  source_observation_id = source_id;
  source_version = version;
  field_path = path;
}

abbrev status_path : String
status_path = "/payload/lifecycle_status"

abbrev a_value : String → ReconciliationSourceValue
a_value id = record { source_observation_id = id; source_version = "1"; value = "BOOKED" }

abbrev a_proof : ReconciliationPassProof
a_proof = record {
  reconciliation_run_id = "run-1";
  family = lifecycle_status_mismatch;
  condition_code = allowed_lifecycle_relation;
  predicate_code = "ALLOWED_LIFECYCLE_RELATION_AND_RECONCILIATION_PASS";
  source_version_set =
      record { source_observation_id = "obs-2"; source_version = "1" }
      ∷ record { source_observation_id = "obs-1"; source_version = "1" }
      ∷ [];
  comparisons =
      record {
        field_path = status_path;
        value_type = lifecycle_value;
        values = a_value "obs-1" ∷ a_value "obs-2" ∷ [];
      }
      ∷ [];
}

abbrev a_resolution : BreakResolution
a_resolution = record {
  resolution_type = reconciliation_pass;
  reconciliation_run_id = some "run-1";
  disposition_id = none;
  approver = none;
  evidence_ids = "ev-3" ∷ [];
  evidence_roles = reconciliation_result ∷ [];
  reconciliation_proof = some a_proof;
}

abbrev a_break : TradeBreak
a_break = record {
  break_id = "break-1";
  break_version = 1;
  tenant_id = "tenant-a";
  portfolio_id = "book-a";
  reconciliation_run_id = "run-1";
  product_type = fx_spot;
  product_context = record {
    product_type = fx_spot;
    settlement_rule_version = "1.0.0";
    trade_date = 740000;
    value_date = 740002;
  };
  family = lifecycle_status_mismatch;
  condition_code = allowed_lifecycle_relation;
  severity = high;
  severity_context = none;
  priority = record {
    materiality_band = unassessed;
    deadline_status = no_configured_deadline;
    case_age_seconds = 10;
    ordering_key = (pos 2, pos 2, pos 3, negsuc 9);
  };
  source_version_set =
      a_source "obs-1" execution fix_execution ∷ a_source "obs-2" booking mock_legacy_booking ∷ [];
  evaluated_field_paths = status_path ∷ [];
  comparisons =
      record {
        field_path = status_path;
        value_type = lifecycle_value;
        expected_value = "BOOKED";
        observed_value = "NEW";
        tolerance = record { mode = no_tolerance; value = none };
        normalisation_rule_version = "1.0.0";
        evidence_ids = "ev-1" ∷ "ev-2" ∷ [];
        expected_source_observation_id = some "obs-1";
        expected_source_version = some "1";
        observed_source_observation_id = some "obs-2";
        observed_source_version = some "1";
      }
      ∷ [];
  evidence =
      an_item "ev-1" lifecycle_relation (some "obs-1") (some "1") (some status_path)
      ∷ an_item "ev-2" normalisation_rule (some "obs-2") (some "1") (some status_path)
      ∷ an_item "ev-3" reconciliation_result none none none
      ∷ [];
  missing_source_expectation = none;
  duplicate_source_conflict = none;
  state = resolved;
  previous_state = some verifying;
  transition_reason = resolution_verified;
  detected_at = 40;
  state_changed_at = 60;
  resolved_at = some 60;
  resolution = some a_resolution;
  supersedes_break_id = none;
}

a_break_valid : validate_break_invariants a_break decimals ≡ true
unfolding validate_break_invariants
a_break_valid = refl

a_shape_valid : resolution_shape a_resolution ≡ true
unfolding resolution_shape
a_shape_valid = refl

resolved-IsJustified_example :
    (a_break.previous_state ≡ some verifying)
    × (n : ℕ) × (r : BreakResolution) × (a_break.resolved_at ≡ some n)
    × (a_break.resolution ≡ some r)
    × (a_break.state_changed_at ≤ n)
    × IsJustified decimals a_break r n
resolved-IsJustified_example =
    resolved-IsJustified decimals a_break a_break_valid
      (λ r e.
        subst (λ x. resolution_shape x ≡ true) (some-injective a_resolution r e) a_shape_valid)
      refl
