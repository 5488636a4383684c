-- ===== src/Remediation/Executor.antt =====
-- packages/remediation/executor.py and legacy_adapter.py: acting on a signed envelope.
mod Faults
pub mod Outcomes
pub mod Guards
pub mod Frame
pub mod Replay
use tradeops_sentinel.Base.{
  List, Option, String, [], false, if◌then◌else◌, map_some, none, not, some, true, ℕ, ◌&&◌, ◌==◌,
  ◌||◌, ◌∷◌,
}
use tradeops_sentinel.Remediation.Envelope.{Platform, Settings, verify_envelope}
use tradeops_sentinel.Remediation.Exec.{Exec, pure, raise, ◌>>=◌, ◌>>◌}
use tradeops_sentinel.Remediation.Models.{
  ActionEnvelope, Approval, ApprovalRole, Detail, ExecutionOutcome, ExecutionResult,
  allowed_proposed_fields, already_applied, approvals_required, checker, contains, corrected,
  current_value_differs, expired_at, field_not_allowed, identities_equal,
  identities_not_on_envelope, is_approve, maker, no_record, rejected_approvals_missing,
  rejected_expired, rejected_field_not_allowed, rejected_same_identity, rejected_tampered,
  rejected_value_mismatch, same_role, success, timeout_recovered,
}
use tradeops_sentinel.Remediation.Result.{
  Result, approvals_incomplete, err, expired, ok, same_identity, tampered,
}
use tradeops_sentinel.Remediation.Store.{
  BookingOutcome, Correction, applied, apply_legacy_booking_correction, insert_execution, not_found,
  value_mismatch,
}
use tradeops_sentinel.Remediation.Tables.{ExecutionRow}

pub data AttemptContext : Type 0 where
  normal timeout_recovery_attempt : AttemptContext

-- `approved_by_role[role]`: of several approvals of one role the dict keeps the last.
pub approved_by_role : ApprovalRole → List Approval → Option Approval
approved_by_role role [] = none
approved_by_role role (a ∷ rest) = elim (approved_by_role role rest) [
  | some later ↦ some later
  | none ↦ if same_role a.role role && is_approve a.decision then some a else none
]

pub check_identities : ActionEnvelope → Option Approval → Option Approval → Result (Unit {0})
check_identities e none _ = err approvals_incomplete
check_identities e (some m) none = err approvals_incomplete
check_identities e (some m) (some c) =
    if m.approver_identity == c.approver_identity
    then err (same_identity identities_equal)
    else if not (m.approver_identity == e.maker_identity)
        || not (c.approver_identity == e.checker_identity)
    then err (same_identity identities_not_on_envelope)
    else ok tt

unfoldable pub require_valid_approvals : ActionEnvelope → List Approval → Result (Unit {0})
unfolding check_identities approved_by_role
require_valid_approvals e approvals =
    check_identities e (approved_by_role maker approvals) (approved_by_role checker approvals)

abbrev pub correction_of : ActionEnvelope → Correction
correction_of e = record {
  trade = record { tenant_id = e.tenant_id; portfolio_id = e.portfolio_id; trade_id = e.trade_id };
  approved_value = e.approved_value;
  expected_old_value = e.expected_old_value;
  idempotency_key = e.idempotency_key;
}

abbrev pub execution_row : ActionEnvelope → ExecutionResult → ExecutionRow
execution_row e r = record {
  case_id = e.case_id;
  idempotency_key = e.idempotency_key;
  outcome = r.outcome;
  detail = r.detail;
  read_back_value = r.read_back_value;
  applied = r.applied;
}

-- `ExecutionResult`, which strips its texts: no detail has white space at its ends, but the value that
-- was read back may.
abbrev pub returned : Platform → ExecutionResult → ExecutionResult
returned x r = record r { read_back_value = map_some x.strip r.read_back_value }

-- `_record`
pub record_attempt : Platform → ActionEnvelope → ExecutionResult → Exec ExecutionResult
record_attempt x e r = do insert_execution (execution_row e r); pure (returned x r)

abbrev pub rejected_with : ExecutionOutcome → Detail → Option String → ExecutionResult
rejected_with outcome detail read = record {
  outcome = outcome;
  detail = detail;
  read_back_value = read;
  applied = false;
}

-- Why a replay is reported differently in a retry after a timeout.
abbrev pub replay_outcome : AttemptContext → ExecutionOutcome
replay_outcome normal = ExecutionOutcome.duplicate_noop
replay_outcome timeout_recovery_attempt = timeout_recovered

-- The report of what the adapter returned.
abbrev pub report :
    ActionEnvelope → AttemptContext → BookingOutcome × Option String → ExecutionResult
report e context (applied, read) = record {
  outcome = success;
  detail = corrected;
  read_back_value = read;
  applied = true;
}
report e context (BookingOutcome.duplicate_noop, read) =
    rejected_with (replay_outcome context) already_applied read
report e context (value_mismatch, read) =
    rejected_with rejected_value_mismatch (current_value_differs read e.expected_old_value) read
report e context (not_found, read) = rejected_with rejected_value_mismatch no_record none

pub act : Platform → ActionEnvelope → AttemptContext → Exec ExecutionResult
unfolding record_attempt
act x e context =
    if not (contains e.field_path allowed_proposed_fields)
    then record_attempt x e
        (rejected_with rejected_field_not_allowed (field_not_allowed e.field_path) none)
    else do
      outcome ← apply_legacy_booking_correction (correction_of e)
      record_attempt x e (report e context outcome)

pub after_approvals :
    Platform → ActionEnvelope → AttemptContext → Result (Unit {0}) → Exec ExecutionResult
unfolding act record_attempt
after_approvals x e context (ok _) = act x e context
after_approvals x e context (err approvals_incomplete) =
    record_attempt x e (rejected_with rejected_approvals_missing approvals_required none)
after_approvals x e context (err (same_identity detail)) =
    record_attempt x e (rejected_with rejected_same_identity detail none)
after_approvals x e context (err other) = raise other

pub after_verification :
    Platform
    → ActionEnvelope
    → List Approval
    → AttemptContext
    → Result (Unit {0})
    → Exec ExecutionResult
unfolding after_approvals record_attempt
after_verification x e approvals context (ok _) =
    after_approvals x e context (require_valid_approvals e approvals)
after_verification x e approvals context (err (expired at)) =
    record_attempt x e (rejected_with rejected_expired (expired_at at) none)
after_verification x e approvals context (err (tampered detail)) =
    record_attempt x e (rejected_with rejected_tampered detail none)
after_verification x e approvals context (err other) = raise other

module _ (x : Platform) (s : Settings) where
  -- `RemediationExecutor.execute`, at the time `now`.
  unfoldable pub execute :
      (now : ℕ) → ActionEnvelope → List Approval → AttemptContext → Exec ExecutionResult
  unfolding after_verification
  execute now e approvals context =
      after_verification x e approvals context (verify_envelope x s now e)
