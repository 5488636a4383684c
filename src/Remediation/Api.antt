-- ===== src/Remediation/Api.antt =====
-- The remediation endpoints of apps/api/main.py. An `HTTPException` is `status` with its code.
use Prim.Native.String
use tradeops_sentinel.Base.{
  Bool, List, Option, String, any, false, find, if◌then◌else◌, leb, map, none, not, some, true, ℕ,
  ◌&&◌, ◌==◌,
}
use tradeops_sentinel.Remediation.Envelope.{Platform, Settings, build_envelope, envelope_ttl}
use tradeops_sentinel.Remediation.Evidence.{CaseView, case_view, finalize_evidence}
use tradeops_sentinel.Remediation.Exec.{Exec, gets, lift, pure, ◌>>=◌, ◌>>◌}
use tradeops_sentinel.Remediation.Executor.{execute, normal, report}
use tradeops_sentinel.Remediation.Models.{
  ActionEnvelope, Approval, ApprovalRole, EnvelopeRequest, ExecutionResult, PolicyOutcome, approve,
  checker, eligible_for_approval, maker, same_role,
}
use tradeops_sentinel.Remediation.Result.{
  Error, Result, assertion_failed, break_not_found, case_not_eligible, duplicate_approval_role, err,
  ok, status, validation_error,
}
use tradeops_sentinel.Remediation.Retrieval.{RunbookSection}
use tradeops_sentinel.Remediation.Store.{
  get_approvals, get_case, get_envelope, insert_approval, insert_envelope_if_absent,
}
use tradeops_sentinel.Remediation.Tables.{
  ApprovalRow, CaseRow, EnvelopeRow, EvidenceDocument, Reconciliation,
}
use tradeops_sentinel.Remediation.Triage.{
  BreakRow, CanonicalDocument, CaseGenerated, Provider, generate_case,
}

-- What the endpoints call of the rest of the product: the digest of the evidence, and the feeding
-- back of an applied correction with the rerun that follows it, which may raise.
pub record Services : Type 0 where
  pub platform : Platform
  pub settings : Settings
  pub index : List RunbookSection
  pub provider : Provider
  pub evidence_digest : EvidenceDocument → String
  pub post_action : (trade_id field_path approved_value : String) → Result Reconciliation

abbrev pub require : Bool → Error → Exec (Unit {0})
require true e db = (ok tt, db)
require false e db = (err e, db)

abbrev pub is_eligible : PolicyOutcome → Bool
is_eligible eligible_for_approval = true
is_eligible _ = false

-- `_require_remediation_case`, and any other value that must be there.
abbrev pub some_or : {A : Type 0} → Error → Option A → Exec A
some_or e none db = (err e, db)
some_or e (some a) db = (ok a, db)

-- `except DuplicateApprovalRoleError`
abbrev pub as_conflict : Result (Unit {0}) → Result (Unit {0})
as_conflict (err duplicate_approval_role) = err (status 409)
as_conflict r = r

abbrev pub on_duplicate : Exec (Unit {0}) → Exec (Unit {0})
on_duplicate m db = let (r, db') = m db in (as_conflict r, db')

-- `except BreakNotFoundError`, `except CaseNotEligibleError`
abbrev pub as_status : {A : Type 0} → Result A → Result A
as_status (err break_not_found) = err (status 404)
as_status (err case_not_eligible) = err (status 422)
as_status r = r

-- `other_role_identity is not None and other_role_identity == approver_identity`
abbrev pub is_identity : String → Option ApprovalRow → Bool
is_identity identity none = false
is_identity identity (some row) = row.approver_identity == identity

-- `RemediationApprovalRequest`: 1 to 200 characters, which are not stripped.
abbrev pub valid_identity : String → Bool
valid_identity identity = not (identity == "") && leb (String.count identity) 200

abbrev pub other_row : ApprovalRole → List ApprovalRow → Option ApprovalRow
other_row role rows = find (λ row. not (same_role row.role role)) rows

module _ (v : Services) where
  abbrev x : Platform
  x = v.platform

  -- `remediation_create_case`
  unfoldable pub create_case :
      (tenant_id case_id : String)
      → Option BreakRow
      → (String → Option CanonicalDocument)
      → Exec CaseGenerated
  create_case tenant_id case_id row documents db =
      let (r, db') = generate_case x v.index v.provider tenant_id case_id row documents db in
      (as_status r, db')

  abbrev pub approval_row : String → CaseRow → ApprovalRole → String → ApprovalRow
  approval_row id case role identity = record {
    case_id = id;
    role = role;
    approver_identity = identity;
    decision = approve;
    approved_recommendation_hash = x.recommendation_digest case.ai_recommendation;
  }

  -- `_submit_remediation_approval`, for a case that was found.
  unfoldable pub approve_case : String → ApprovalRole → String → CaseRow → Exec CaseView
  approve_case id role identity case = do
    require (is_eligible case.policy_decision.outcome) (status 409)
    existing ← gets (get_approvals id)
    require (not (is_identity identity (other_row role existing))) (status 409)
    on_duplicate (insert_approval (approval_row id case role identity))
    view ← gets (case_view id)
    some_or assertion_failed view

  unfoldable pub submit_approval : String → ApprovalRole → String → Exec CaseView
  unfolding approve_case
  submit_approval id role identity = do
    require (valid_identity identity) (status 422)
    case ← gets (get_case id)
    found ← some_or (status 404) case
    approve_case id role identity found

  -- `Approval(…)` of a row: pydantic strips the identity and the hash, and refuses an empty identity.
  abbrev pub approval_of : ApprovalRow → Approval
  approval_of row = record {
    role = row.role;
    approver_identity = x.strip row.approver_identity;
    decision = row.decision;
    approved_recommendation_hash = x.strip row.approved_recommendation_hash;
  }

  abbrev pub blank_identity : ApprovalRow → Bool
  blank_identity row = x.strip row.approver_identity == ""

  abbrev pub approvals_of : List ApprovalRow → Exec (List Approval)
  approvals_of rows db =
      (if any blank_identity rows then err validation_error else ok (map approval_of rows), db)

  abbrev pub envelope_request :
      String → CaseRow → (field value maker checker : String) → EnvelopeRequest
  envelope_request id case field value maker_identity checker_identity = record {
    case_id = id;
    trade_id = case.trade_id;
    tenant_id = case.tenant_id;
    portfolio_id = case.portfolio_id;
    field_path = field;
    approved_value = value;
    expected_old_value = case.break_facts.observed_value;
    maker_identity = maker_identity;
    checker_identity = checker_identity;
    idempotency_key = String.◌++◌ "idem_" id;
  }

  abbrev pub envelope_row : String → ActionEnvelope → EnvelopeRow
  envelope_row id e = record {
    case_id = id;
    idempotency_key = e.idempotency_key;
    envelope_document = e;
    content_hash = e.content_hash;
    issued_at = e.issued_at;
    expires_at = e.expires_at;
  }

  -- The envelope of a case: the one that was issued, or a new one, signed and stored.
  unfoldable pub issue_envelope :
      (now : ℕ)
      → String
      → CaseRow
      → (maker_row checker_row : ApprovalRow) → Option EnvelopeRow
      → Exec EnvelopeRow
  issue_envelope now id case m c (some row) = pure row
  issue_envelope now id case m c none = do
    field ← some_or assertion_failed case.policy_decision.approved_field_path
    value ← some_or assertion_failed case.policy_decision.approved_value
    draft ← lift (
        build_envelope x v.settings
          (envelope_request id case field value m.approver_identity c.approver_identity) now
          envelope_ttl)
    insert_envelope_if_absent (envelope_row id draft)

  -- After an applied correction: feed it back, reconcile the trade again, freeze the evidence.
  unfoldable pub verify_applied :
      String → CaseRow → ActionEnvelope → ExecutionResult → Exec (Unit {0})
  verify_applied id case e r =
      if r.applied
      then (do
        report ← lift (v.post_action case.trade_id e.field_path e.approved_value)
        finalize_evidence v.evidence_digest id (some report) >>= λ _. pure tt)
      else pure tt

  unfoldable pub run_envelope :
      (now : ℕ)
      → String
      → CaseRow
      → List ApprovalRow
      → EnvelopeRow
      → Exec (ExecutionResult × CaseView)
  unfolding verify_applied
  run_envelope now id case rows envelope_row = do
    approvals ← approvals_of rows
    result ← execute x v.settings now envelope_row.envelope_document approvals normal
    verify_applied id case envelope_row.envelope_document result
    view ← gets (case_view id)
    found ← some_or assertion_failed view
    pure (result, found)

  unfoldable pub execute_case : (now : ℕ) → String → CaseRow → Exec (ExecutionResult × CaseView)
  unfolding issue_envelope run_envelope
  execute_case now id case = do
    require (is_eligible case.policy_decision.outcome) (status 409)
    rows ← gets (get_approvals id)
    maker_row ← some_or (status 409) (find (λ row. same_role row.role maker) rows)
    checker_row ← some_or (status 409) (find (λ row. same_role row.role checker) rows)
    issued ← gets (get_envelope id)
    envelope ← issue_envelope now id case maker_row checker_row issued
    run_envelope now id case rows envelope

  -- `remediation_execute`, at the time `now`.
  unfoldable pub remediation_execute : (now : ℕ) → String → Exec (ExecutionResult × CaseView)
  unfolding execute_case
  remediation_execute now id = do
    case ← gets (get_case id)
    found ← some_or (status 404) case
    execute_case now id found

  -- `remediation_evidence`
  unfoldable pub remediation_evidence : String → Exec CaseView
  remediation_evidence id = do view ← gets (case_view id); some_or (status 404) view
