-- ===== src/Remediation/Executor/Frame.antt =====
-- What the executor may change, whether or not the case of the envelope is in the database.
use tradeops_sentinel.Base.{
  Bool-cases, List, Option, String, [], any, ap, false, inl, inr, none, refl, some, sym, true,
  true_ne_false, ℕ, ◌++◌, ◌==◌, ◌∙◌, ◌∷◌, ◌≡◌, ◌⊎◌,
}
use tradeops_sentinel.Remediation.Envelope.{Platform, Settings, verify_envelope}
use tradeops_sentinel.Remediation.Exec.{continue}
use tradeops_sentinel.Remediation.Executor.{
  AttemptContext, act, after_approvals, after_verification, correction_of, execute, execution_row,
  record_attempt, rejected_with, report, require_valid_approvals,
}
use tradeops_sentinel.Remediation.Executor.Guards.{execute-Execution}
use tradeops_sentinel.Remediation.Executor.Outcomes.{Execution, Guards}
use tradeops_sentinel.Remediation.Models.{
  ActionEnvelope, Approval, ExecutionResult, approvals_required, expired_at, field_not_allowed,
  rejected_approvals_missing, rejected_expired, rejected_field_not_allowed, rejected_same_identity,
  rejected_tampered,
}
use tradeops_sentinel.Remediation.Result.{
  Result, approvals_incomplete, err, expired, ok, same_identity, tampered,
}
use tradeops_sentinel.Remediation.Store.{
  BookingOutcome, apply_legacy_booking_correction, insert_execution, is_case,
}
use tradeops_sentinel.Remediation.Store.Bookings.{Attempt, apply-Attempt}
use tradeops_sentinel.Remediation.Tables.{BookingRecord, Db}

module _ (x : Platform) (e : ActionEnvelope) (context : AttemptContext) (db : Db)
    (unknown : any (is_case e.case_id) db.cases ≡ false) where
  -- Only the bookings have changed.
  abbrev Kept : {A : Type 0} → Result A × Db → Type 0
  Kept out = out.1 ≡ record db { bookings = out.1.bookings }

  record_unknown :
      (r : ExecutionResult) (bookings : List BookingRecord)
      → Kept (record_attempt x e r (record db { bookings = bookings }))
  unfolding record_attempt insert_execution
  record_unknown r bookings = rw unknown refl

  report-Kept :
      (out : Result (BookingOutcome × Option String) × Db)
      → Attempt (correction_of e) db out
      → Kept (continue out.0 (λ o. record_attempt x e (report e context o)) out.1)
  report-Kept (ok (BookingOutcome.applied, read), db') (_, _, _, _, _, _, _, rest) =
      rw rest (record_unknown (report e context (BookingOutcome.applied, read)) db'.bookings)
  report-Kept (ok (BookingOutcome.duplicate_noop, read), db') (_, _, _, _, same) =
      rw same (record_unknown (report e context (BookingOutcome.duplicate_noop, read)) db.bookings)
  report-Kept (ok (BookingOutcome.value_mismatch, read), db') (_, _, _, _, _, same) =
      rw same (record_unknown (report e context (BookingOutcome.value_mismatch, read)) db.bookings)
  report-Kept (ok (BookingOutcome.not_found, read), db') (_, _, same) =
      rw same (record_unknown (report e context (BookingOutcome.not_found, read)) db.bookings)
  report-Kept (err fault, db') h = absurd h

  act-Kept : Kept (act x e context db)
  unfolding act
  act-Kept = elim (Bool-cases ("/payload/base_amount" == e.field_path)) [
    | inl allowed ↦ rw allowed (
        report-Kept (apply_legacy_booking_correction (correction_of e) db)
          (apply-Attempt (correction_of e) db))
    | inr other ↦ rw other (
        record_unknown
          (rejected_with rejected_field_not_allowed (field_not_allowed e.field_path) none)
          db.bookings)
  ]

  after_approvals-Kept : (r : Result (Unit {0})) → Kept (after_approvals x e context r db)
  unfolding after_approvals
  after_approvals-Kept (ok u) = act-Kept
  after_approvals-Kept (err approvals_incomplete) =
      record_unknown (rejected_with rejected_approvals_missing approvals_required none) db.bookings
  after_approvals-Kept (err (same_identity d)) =
      record_unknown (rejected_with rejected_same_identity d none) db.bookings
  after_approvals-Kept (err _) = refl

  after_verification-Kept :
      (approvals : List Approval) (r : Result (Unit {0}))
      → Kept (after_verification x e approvals context r db)
  unfolding after_verification
  after_verification-Kept approvals (ok u) =
      after_approvals-Kept (require_valid_approvals e approvals)
  after_verification-Kept approvals (err (expired at)) =
      record_unknown (rejected_with rejected_expired (expired_at at) none) db.bookings
  after_verification-Kept approvals (err (tampered d)) =
      record_unknown (rejected_with rejected_tampered d none) db.bookings
  after_verification-Kept approvals (err _) = refl

module _ (x : Platform) (s : Settings) (now : ℕ) (e : ActionEnvelope) (approvals : List Approval)
    (context : AttemptContext) (db : Db) where
  -- Nothing was recorded, or one row, which says "applied" only when the guards were met.
  abbrev pub Trace : Db → Type 0
  Trace db' =
      (db' ≡ record db { bookings = db'.bookings; executions = db'.executions })
      × ((db'.executions ≡ db.executions)
          ⊎ (r : ExecutionResult) × (db'.executions ≡ db.executions ++ execution_row e r ∷ [])
            × (r.applied ≡ true
                → Guards x s now e approvals × (r.read_back_value ≡ some e.approved_value)))

  recorded :
      (r : ExecutionResult) (db' : Db)
      → db' ≡ record db {
        bookings = db'.bookings;
        executions = db.executions ++ execution_row e r ∷ [];
      }
      → (r.applied ≡ true
          → Guards x s now e approvals × (r.read_back_value ≡ some e.approved_value))
      → Trace db'
  recorded r db' rest fits =
      let row : db'.executions ≡ db.executions ++ execution_row e r ∷ [] =
        ap (λ (d : Db). d.executions) rest in
      (
        rest ∙ ap (λ l. record db { bookings = db'.bookings; executions = l }) (sym row),
        inr (r, row, fits),
      )

  unrecorded : (db' : Db) → db' ≡ record db { bookings = db'.bookings } → Trace db'
  unrecorded db' rest =
      let same : db'.executions ≡ db.executions = ap (λ (d : Db). d.executions) rest in
      (rest ∙ ap (λ l. record db { bookings = db'.bookings; executions = l }) (sym same), inl same)

  Trace-recorded :
      (out : Result ExecutionResult × Db)
      → Execution x s now e approvals context db out
      → Trace out.1
  Trace-recorded (err fault, db') (_, same) = rw same (refl, inl refl)
  Trace-recorded (ok told, db') (r, _, rest, inl (no_effect, _, _)) =
      recorded r db' rest (λ done. absurd (true_ne_false (sym done ∙ no_effect)))
  Trace-recorded (ok told, db') (r, _, rest, inr (_, _, g, value, _)) =
      recorded r db' rest (λ _. (g, value))

  pub execute-Trace : Trace (execute x s now e approvals context db).1
  execute-Trace = elim (Bool-cases (any (is_case e.case_id) db.cases)) [
    | inl known ↦
        Trace-recorded (execute x s now e approvals context db)
          (execute-Execution x s now e approvals context db known)
    | inr unknown ↦ unrecorded (execute x s now e approvals context db).1 (
        unfold execute in
        after_verification-Kept x e context db unknown approvals (verify_envelope x s now e))
  ]
