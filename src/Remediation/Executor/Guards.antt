-- ===== src/Remediation/Executor/Guards.antt =====
-- What the executor establishes before it acts, and what it records.
use tradeops_sentinel.Base.{
  Bool-cases, List, any, eq_of_test, false, inl, inr, ne_of_test, none, refl, sym, true, ℕ, ◌==◌,
  ◌≡◌,
}
use tradeops_sentinel.Remediation.Envelope.{Platform, Settings, verify_envelope}
use tradeops_sentinel.Remediation.Executor.{
  AttemptContext, act, after_approvals, after_verification, approved_by_role, correction_of,
  execute, record_attempt, rejected_with, require_valid_approvals,
}
use tradeops_sentinel.Remediation.Executor.Faults.{
  IsApprovalFault, IsVerificationFault, check_identities-Faults, check_identities-ok,
  check_identities_incomplete, check_identities_same, verify-Faults, verify_type_error,
  verify_unavailable,
}
use tradeops_sentinel.Remediation.Executor.Outcomes.{
  Execution, Reason, record_refusal, report-Execution,
}
use tradeops_sentinel.Remediation.Models.{
  ActionEnvelope, Approval, ExecutionResult, approvals_required, checker, expired_at,
  field_not_allowed, maker, rejected_approvals_missing, rejected_expired,
  rejected_field_not_allowed, rejected_same_identity, rejected_tampered,
}
use tradeops_sentinel.Remediation.Result.{
  Faults, Result, approvals_incomplete, err, expired, ok, same_identity, signing_unavailable,
  tampered, type_error,
}
use tradeops_sentinel.Remediation.Store.{apply_legacy_booking_correction, is_case}
use tradeops_sentinel.Remediation.Store.Bookings.{apply-Attempt}
use tradeops_sentinel.Remediation.Tables.{Db}

module _ (x : Platform) (s : Settings) (now : ℕ) (e : ActionEnvelope) (approvals : List Approval)
    (context : AttemptContext) (db : Db) (known : any (is_case e.case_id) db.cases ≡ true) where
  refusal :
      (r : ExecutionResult)
      → r.applied ≡ false
      → Reason x s now e approvals context db r.outcome
      → Execution x s now e approvals context db (record_attempt x e r db)
  refusal r no_effect why = record_refusal x s now e approvals context db known r no_effect why

  act-Execution :
      verify_envelope x s now e ≡ ok tt
      → require_valid_approvals e approvals ≡ ok tt
      → Execution x s now e approvals context db (act x e context db)
  unfolding act require_valid_approvals
  act-Execution verified valid =
      let (m, c, by_m, by_c, ne, m_named, c_named) =
        check_identities-ok e (approved_by_role maker approvals)
          (approved_by_role checker approvals) valid in
      elim (Bool-cases ("/payload/base_amount" == e.field_path)) [
        | inl allowed ↦ rw allowed (
            report-Execution x s now e approvals context db known
              (apply_legacy_booking_correction (correction_of e) db)
              (record {
                verified = verified;
                maker_approval = m;
                checker_approval = c;
                by_maker = by_m;
                by_checker = by_c;
                distinct = ne;
                maker_named = m_named;
                checker_named = c_named;
                field = sym (eq_of_test "/payload/base_amount" e.field_path allowed);
              })
              (apply-Attempt (correction_of e) db))
        | inr other ↦ rw other (
            refusal (rejected_with rejected_field_not_allowed (field_not_allowed e.field_path) none)
              refl
              (
                verified,
                valid,
                λ same. ne_of_test "/payload/base_amount" e.field_path other (sym same),
              ))
      ]

  after_approvals-Execution :
      (r : Result (Unit {0}))
      → verify_envelope x s now e ≡ ok tt
      → require_valid_approvals e approvals ≡ r
      → Faults IsApprovalFault r
      → Execution x s now e approvals context db (after_approvals x e context r db)
  unfolding after_approvals require_valid_approvals
  after_approvals-Execution (ok u) verified valid f = act-Execution verified valid
  after_approvals-Execution (err approvals_incomplete) verified valid f =
      refusal (rejected_with rejected_approvals_missing approvals_required none) refl (
        verified,
        check_identities_incomplete e (approved_by_role maker approvals)
            (approved_by_role checker approvals) valid,
      )
  after_approvals-Execution (err (same_identity d)) verified valid f =
      let (a, b, by_a, by_b, why) =
        check_identities_same e (approved_by_role maker approvals)
          (approved_by_role checker approvals) valid in
      refusal (rejected_with rejected_same_identity d none) refl (verified, a, b, by_a, by_b, why)
  after_approvals-Execution (err _) verified valid f = absurd f

  after_verification-Execution :
      (r : Result (Unit {0}))
      → verify_envelope x s now e ≡ r
      → Faults IsVerificationFault r
      → Execution x s now e approvals context db (after_verification x e approvals context r db)
  unfolding after_verification require_valid_approvals
  after_verification-Execution (ok u) verified f =
      after_approvals-Execution (require_valid_approvals e approvals) verified refl (
        check_identities-Faults e (approved_by_role maker approvals)
          (approved_by_role checker approvals))
  after_verification-Execution (err (expired at)) verified f =
      refusal (rejected_with rejected_expired (expired_at at) none) refl (at, verified)
  after_verification-Execution (err (tampered d)) verified f =
      refusal (rejected_with rejected_tampered d none) refl (d, verified)
  after_verification-Execution (err signing_unavailable) verified f =
      (inl (refl, verify_unavailable x s now e verified), refl)
  after_verification-Execution (err type_error) verified f =
      (inr (refl, verify_type_error x s now e verified), refl)
  after_verification-Execution (err _) verified f = absurd f

  -- For a case in the database, a call either raises, for want of a signing secret or over a
  -- signature that is not ASCII, and changes nothing, or appends one execution row and touches no
  -- other table but the bookings. It reports a success exactly when every guard was met and the one
  -- record was corrected, and each of its other eight outcomes for its own reason, with the bookings
  -- as they were: a fault of the verification, a missing approval, approvals by one identity or not by
  -- those on the envelope, another field, a key that was applied already (with an outcome of its own
  -- in a retry after a timeout), or a record that is missing or holds another value.
  pub execute-Execution :
      Execution x s now e approvals context db (execute x s now e approvals context db)
  unfolding execute
  execute-Execution =
      after_verification-Execution (verify_envelope x s now e) refl (verify-Faults x s now e)
