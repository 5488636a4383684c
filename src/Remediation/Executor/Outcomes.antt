-- ===== src/Remediation/Executor/Outcomes.antt =====
-- packages/remediation/executor.py: how a call of the executor may end, and what it reports then.
use tradeops_sentinel.Base.{
  List, Option, String, [], any, false, inl, inr, none, refl, some, true, ℕ, ◌++◌, ◌∷◌, ◌≡◌, ◌≢◌,
  ◌⊎◌,
}
use tradeops_sentinel.Remediation.Envelope.{
  Platform, Settings, is_ascii, signing_secret, verify_envelope,
}
use tradeops_sentinel.Remediation.Exec.{continue}
use tradeops_sentinel.Remediation.Executor.{
  AttemptContext, approved_by_role, correction_of, execution_row, normal, record_attempt,
  replay_outcome, report, require_valid_approvals, returned, timeout_recovery_attempt,
}
use tradeops_sentinel.Remediation.Models.{
  ActionEnvelope, Approval, Detail, ExecutionOutcome, ExecutionResult, checker, maker,
  rejected_approvals_missing, rejected_expired, rejected_field_not_allowed, rejected_same_identity,
  rejected_tampered, rejected_value_mismatch, success, timeout_recovered,
}
use tradeops_sentinel.Remediation.Result.{
  Result, err, expired, ok, signing_unavailable, tampered, type_error,
}
use tradeops_sentinel.Remediation.Store.{
  BookingOutcome, Correction, corrected_row, find_booking, insert_execution, is_case,
}
use tradeops_sentinel.Remediation.Store.Bookings.{Attempt}
use tradeops_sentinel.Remediation.Tables.{BookingRecord, Db, TradeKey}

-- The guards of the executor, met: the envelope verifies, a maker and a checker who differ approved,
-- they are those on the envelope, and the field is the one on the allow-list.
pub record Guards (x : Platform) (s : Settings) (now : ℕ) (e : ActionEnvelope)
    (approvals : List Approval) : Type 0 where
  pub verified : verify_envelope x s now e ≡ ok tt
  pub maker_approval : Approval
  pub checker_approval : Approval
  pub by_maker : approved_by_role maker approvals ≡ some maker_approval
  pub by_checker : approved_by_role checker approvals ≡ some checker_approval
  pub distinct : maker_approval.approver_identity ≢ checker_approval.approver_identity
  pub maker_named : maker_approval.approver_identity ≡ e.maker_identity
  pub checker_named : checker_approval.approver_identity ≡ e.checker_identity
  pub field : e.field_path ≡ "/payload/base_amount"

-- One record held the expected value and not yet the key, and was corrected; no other changed.
pub record IsCorrected (c : Correction) (db db' : Db) : Type 0 where
  pub old : BookingRecord
  pub found : find_booking c.trade db ≡ some old
  pub fits : old.base_amount_value ≡ c.expected_old_value
  pub fresh : old.last_applied_idempotency_key ≢ some c.idempotency_key
  pub now_corrected : find_booking c.trade db' ≡ some (corrected_row c old)
  pub others : (k : TradeKey) → k ≢ c.trade → find_booking k db' ≡ find_booking k db

module _ (x : Platform) (s : Settings) (now : ℕ) (e : ActionEnvelope) (approvals : List Approval)
    (context : AttemptContext) (db : Db) where
  -- The record carries the key of the envelope already.
  abbrev pub IsReplay : Type 0
  IsReplay =
      Guards x s now e approvals
      × (old : BookingRecord) × (find_booking (correction_of e).trade db ≡ some old)
      × (old.last_applied_idempotency_key ≡ some e.idempotency_key)

  -- Why a call that reports an outcome may do so, with nothing applied.
  abbrev pub Reason : ExecutionOutcome → Type 0
  Reason success = ⊥
  Reason rejected_tampered = (d : Detail) × (verify_envelope x s now e ≡ err (tampered d))
  Reason rejected_expired = (at : ℕ) × (verify_envelope x s now e ≡ err (expired at))
  Reason rejected_approvals_missing =
      (verify_envelope x s now e ≡ ok tt)
      × ((approved_by_role maker approvals ≡ none) ⊎ (approved_by_role checker approvals ≡ none))
  Reason rejected_same_identity =
      (verify_envelope x s now e ≡ ok tt)
      × (m : Approval) × (c : Approval) × (approved_by_role maker approvals ≡ some m)
      × (approved_by_role checker approvals ≡ some c)
      × ((m.approver_identity ≡ c.approver_identity)
          ⊎ (m.approver_identity ≢ e.maker_identity)
          ⊎ (c.approver_identity ≢ e.checker_identity))
  Reason rejected_field_not_allowed =
      (verify_envelope x s now e ≡ ok tt)
      × (require_valid_approvals e approvals ≡ ok tt)
      × (e.field_path ≢ "/payload/base_amount")
  Reason ExecutionOutcome.duplicate_noop = (context ≡ normal) × IsReplay
  Reason timeout_recovered = (context ≡ timeout_recovery_attempt) × IsReplay
  Reason rejected_value_mismatch =
      Guards x s now e approvals
      × ((find_booking (correction_of e).trade db ≡ none)
          ⊎ ((old : BookingRecord) × (find_booking (correction_of e).trade db ≡ some old)
              × (old.last_applied_idempotency_key ≢ some e.idempotency_key)
              × (old.base_amount_value ≢ e.expected_old_value)))

  -- How a call that began at `db` may end; `r` is what was found out, and the caller is told it with the
  -- value that was read back stripped.
  abbrev pub Execution : Result ExecutionResult × Db → Type 0
  Execution (ok told, db') =
      (r : ExecutionResult) × (told ≡ returned x r)
      × (db' ≡ record db {
        bookings = db'.bookings;
        executions = db.executions ++ execution_row e r ∷ [];
      })
      × (((r.applied ≡ false) × (db'.bookings ≡ db.bookings) × Reason r.outcome)
          ⊎ ((r.applied ≡ true)
              × (r.outcome ≡ success)
              × Guards x s now e approvals
              × (r.read_back_value ≡ some e.approved_value)
              × IsCorrected (correction_of e) db db'))
  Execution (err fault, db') =
      (((fault ≡ signing_unavailable) × (signing_secret s ≡ err signing_unavailable))
        ⊎ ((fault ≡ type_error) × (is_ascii e.signature ≡ false)))
      × (db' ≡ db)

  module _ (known : any (is_case e.case_id) db.cases ≡ true) where
    record_known :
        (r : ExecutionResult) (bookings : List BookingRecord)
        → record_attempt x e r (record db { bookings = bookings }) ≡ (
          ok (returned x r),
          record db { bookings = bookings; executions = db.executions ++ execution_row e r ∷ [] },
        )
    unfolding record_attempt insert_execution
    record_known r bookings = rw known

    pub record_refusal :
        (r : ExecutionResult)
        → r.applied ≡ false
        → Reason r.outcome
        → Execution (record_attempt x e r db)
    record_refusal r no_effect why =
        rw (record_known r db.bookings) (r, refl, refl, inl (no_effect, refl, why))

    replay-Reason : (c : AttemptContext) → context ≡ c → IsReplay → Reason (replay_outcome c)
    replay-Reason normal at again = (at, again)
    replay-Reason timeout_recovery_attempt at again = (at, again)

    pub report-Execution :
        (out : Result (BookingOutcome × Option String) × Db)
        → Guards x s now e approvals
        → Attempt (correction_of e) db out
        → Execution (continue out.0 (λ o. record_attempt x e (report e context o)) out.1)
    report-Execution (ok (BookingOutcome.applied, read), db') g
          (old, found, fits, fresh, value, done, others, rest) =
        rw rest (
          rw (record_known (report e context (BookingOutcome.applied, read)) db'.bookings) (
            report e context (BookingOutcome.applied, read),
            refl,
            refl,
            inr (
              refl,
              refl,
              g,
              value,
              record {
                old = old;
                found = found;
                fits = fits;
                fresh = fresh;
                now_corrected = unfold find_booking in done;
                others = unfold find_booking in others;
              },
            ),
          ))
    report-Execution (ok (BookingOutcome.duplicate_noop, read), db') g (old, at, last, _, same) =
        rw same (
          record_refusal (report e context (BookingOutcome.duplicate_noop, read)) refl
            (replay-Reason context refl (g, old, at, last)))
    report-Execution (ok (BookingOutcome.value_mismatch, read), db') g
          (old, at, other, fresh, _, same) =
        rw same (
          record_refusal (report e context (BookingOutcome.value_mismatch, read)) refl
            (g, inr (old, at, fresh, other)))
    report-Execution (ok (BookingOutcome.not_found, read), db') g (absent, _, same) =
        rw same
          (record_refusal (report e context (BookingOutcome.not_found, read)) refl (g, inl absent))
    report-Execution (err fault, db') g h = absurd h
