-- ===== src/Remediation/Tests.antt =====
-- A worked example: one break of a spot trade, its case, two approvals and an execution.
mod Searches
mod Witnesses
use Prim.Native.String
use tradeops_sentinel.Base.{
  Bool-cases, List, Option, String, [], if◌then◌else◌, inl, inr, none, refl, some, true, ◌*◌, ◌^◌,
  ◌∷◌, ◌≡◌,
}
use tradeops_sentinel.Remediation.Api.{Services, create_case, remediation_execute, submit_approval}
use tradeops_sentinel.Remediation.Deterministic.{recommend}
use tradeops_sentinel.Remediation.Envelope.{
  Platform, Settings, build_envelope, is_ascii, verify_envelope,
}
use tradeops_sentinel.Remediation.Evidence.{case_view, finalize_evidence}
use tradeops_sentinel.Remediation.Executor.{execute, require_valid_approvals}
use tradeops_sentinel.Remediation.Models.{
  ActionEnvelope, AiRecommendation, Approval, BreakFacts, EnvelopeRequest, Priority, RiskTier,
  approve, checker, corrected, maker, success,
}
use tradeops_sentinel.Remediation.Policy.{confidence_threshold, evaluate}
use tradeops_sentinel.Remediation.Result.{ok}
use tradeops_sentinel.Remediation.Retrieval.{
  RunbookSection, citation_exists, citation_supports_action,
}
use tradeops_sentinel.Remediation.Store.{
  applied, apply_legacy_booking_correction, get_approvals, get_case, get_envelope, get_evidence,
  get_executions, insert_approval, insert_case, insert_envelope_if_absent,
  insert_evidence_if_absent, insert_execution, seed_legacy_booking_record,
}
use tradeops_sentinel.Remediation.Tables.{BookingRecord, Db, ExecutionRow, TradeKey, empty, key_eq}
use tradeops_sentinel.Remediation.Triage.{
  BreakRow, CanonicalDocument, Provider, build_break_facts, decimal_scale, generate_case,
}

-- Stand-ins for the code of other packages, as plain functions.
abbrev pub signed : String → String → String
signed key content = if is_ascii (String.◌++◌ key content) then String.◌++◌ key content else ""

pub is_ascii-signed : (key content : String) → is_ascii (signed key content) ≡ true
unfolding is_ascii
is_ascii-signed key content = elim (Bool-cases (is_ascii (String.◌++◌ key content))) [
  | inl plain ↦ rw plain (plain)
  | inr other ↦ rw other refl
]

abbrev pub platform : Platform
platform = record {
  strip = λ s. s;
  lower = λ s. s;
  envelope_digest = λ f. String.◌++◌ f.case_id f.approved_value;
  recommendation_digest = λ r. r.predicted_root_cause;
  hmac_sha256 = λ key content. signed key content;
  hmac_ascii = λ key content. is_ascii-signed key content;
}

abbrev pub settings : Settings
settings = record { secret = none; configured = "k" }

abbrev pub index : List RunbookSection
index = record { document_id = "RB-001"; section_number = "3"; title = "t"; content = "c" } ∷ []

abbrev pub recommendation : AiRecommendation
recommendation = record {
  predicted_root_cause = "stale amount";
  confidence = 9 * 2 ^ 1074;
  priority = Priority.high;
  recommended_action = some "CORRECT_LEGACY_BOOKING_FIELD";
  proposed_fields = ("/payload/base_amount", "100.00") ∷ [];
  risk_tier = RiskTier.low;
  required_approvals = maker ∷ checker ∷ [];
  citations = record { document_id = "RB-001"; section = "3" } ∷ [];
  abstain_reason = none;
}

abbrev pub provider : Provider
provider = record { name = "deterministic"; recommend = λ facts candidates. ok recommendation }

abbrev pub services : Services
services = record {
  platform = platform;
  settings = settings;
  index = index;
  provider = provider;
  evidence_digest = λ d. d.case.case_id;
  post_action = λ trade_id field_path approved_value. ok (record {
    trade_id = trade_id;
    canonical_state_version = 2;
    result = "PASS";
    break_families = [];
    content_hash = "h";
  });
}

abbrev pub break_row : BreakRow
break_row = record {
  break_id = "break_1";
  run_id = "run_1";
  break_family = "ECONOMIC_VALUE_MISMATCH";
  condition_code = "BASE_AMOUNT";
  product_type = "FX_SPOT";
  trade_id = "trade_1";
  comparisons =
      record {
        field_path = "/payload/base_amount";
        expected_value = "100.00";
        observed_value = "90.00";
        expected_source_observation_id = some "obs_1";
        observed_source_observation_id = some "obs_2";
      }
      ∷ [];
  source_version_set =
      record { source_observation_id = "obs_1"; source_system = "VENUE" }
      ∷ record { source_observation_id = "obs_2"; source_system = "LEGACY" }
      ∷ [];
}

abbrev pub documents : String → Option CanonicalDocument
documents trade_id = some (record { portfolio_id = "pf_1"; base_amount_currency = "EUR" })

-- The case is created, a maker and a checker approve, and the correction is executed.
abbrev pub db_created : Db
db_created = (create_case services "tenant_1" "case_1" (some break_row) documents empty).1

abbrev pub db_made : Db
db_made = (submit_approval services "case_1" maker "alice" db_created).1

abbrev pub db_approved : Db
db_approved = (submit_approval services "case_1" checker "bob" db_made).1

abbrev pub db_executed : Db
db_executed = (remediation_execute services 1000 "case_1" db_approved).1

abbrev pub all_executed : List ExecutionRow
all_executed = db_executed.executions

abbrev pub applied_row : ExecutionRow
applied_row = record {
  case_id = "case_1";
  idempotency_key = "idem_case_1";
  outcome = success;
  detail = corrected;
  read_back_value = some "100.00";
  applied = true;
}

pub executions_example : all_executed ≡ applied_row ∷ []
unfolding is_ascii create_case submit_approval remediation_execute get_case generate_case
    build_break_facts evaluate confidence_threshold citation_supports_action citation_exists
    decimal_scale insert_case seed_legacy_booking_record get_approvals insert_approval get_envelope
    insert_envelope_if_absent build_envelope execute verify_envelope require_valid_approvals
    apply_legacy_booking_correction insert_execution case_view finalize_evidence key_eq
    get_executions get_evidence insert_evidence_if_absent
executions_example = refl

-- The envelope of the case, and its approvals as the executor sees them.
abbrev pub request : EnvelopeRequest
request = record {
  case_id = "case_1";
  trade_id = "trade_1";
  tenant_id = "tenant_1";
  portfolio_id = "pf_1";
  field_path = "/payload/base_amount";
  approved_value = "100.00";
  expected_old_value = "90.00";
  maker_identity = "alice";
  checker_identity = "bob";
  idempotency_key = "idem_case_1";
}

abbrev pub envelope : ActionEnvelope
envelope = record {
  case_id = "case_1";
  trade_id = "trade_1";
  tenant_id = "tenant_1";
  portfolio_id = "pf_1";
  field_path = "/payload/base_amount";
  approved_value = "100.00";
  expected_old_value = "90.00";
  maker_identity = "alice";
  checker_identity = "bob";
  issued_at = 1000;
  expires_at = 900001000;
  idempotency_key = "idem_case_1";
  content_hash = "case_1100.00";
  signature = "kcase_1100.00";
}

abbrev pub approvals : List Approval
approvals =
    record {
      role = checker;
      approver_identity = "bob";
      decision = approve;
      approved_recommendation_hash = "stale amount";
    }
    ∷ record {
      role = maker;
      approver_identity = "alice";
      decision = approve;
      approved_recommendation_hash = "stale amount";
    }
    ∷ []

abbrev pub trade : TradeKey
trade = record { tenant_id = "tenant_1"; portfolio_id = "pf_1"; trade_id = "trade_1" }

abbrev pub booked_row : BookingRecord
booked_row = record {
  key = trade;
  base_amount_value = "90.00";
  base_amount_currency = "EUR";
  base_amount_scale = 2;
  source_observation_id = "obs_2";
  booking_version = 1;
  last_applied_idempotency_key = none;
}

abbrev pub facts : BreakFacts
facts = record {
  break_id = "break_1";
  break_family = "ECONOMIC_VALUE_MISMATCH";
  condition_code = "BASE_AMOUNT";
  product_type = "FX_SPOT";
  trade_id = "trade_1";
  field_path = "/payload/base_amount";
  expected_value = "100.00";
  observed_value = "90.00";
  expected_source_system = "VENUE";
  observed_source_system = "LEGACY";
  trade_value_amount = "100.00";
  trade_value_currency = "EUR";
}
