-- ===== src/Remediation/Executor/Replay.antt =====
-- Executing an envelope again after it was applied.
use mathlib.Core.Path.{subst}
use tradeops_sentinel.Base.{
  Bool-cases, List, [], any, ap, arith, eq_iff, if◌then◌else◌, inl, inr, leb, none, refl, some, sym,
  true, true_ne_false, ℕ, ◌++◌, ◌∙◌, ◌∷◌, ◌≡◌,
}
use tradeops_sentinel.Remediation.Envelope.{Platform, Settings}
use tradeops_sentinel.Remediation.Envelope.Laws.{verify_later}
use tradeops_sentinel.Remediation.Executor.{
  AttemptContext, act, after_approvals, after_verification, check_identities, correction_of,
  execute, execution_row, record_attempt, rejected_with, replay_outcome, require_valid_approvals,
  returned,
}
use tradeops_sentinel.Remediation.Executor.Guards.{execute-Execution}
use tradeops_sentinel.Remediation.Executor.Outcomes.{Execution, Guards}
use tradeops_sentinel.Remediation.Models.{
  ActionEnvelope, Approval, ExecutionResult, already_applied, expired_at, rejected_expired,
}
use tradeops_sentinel.Remediation.Result.{Result, ok}
use tradeops_sentinel.Remediation.Store.{corrected_row, find_booking, insert_execution, is_case}
use tradeops_sentinel.Remediation.Store.Bookings.{apply_replay}
use tradeops_sentinel.Remediation.Tables.{BookingRecord, Db}

valid_of_Guards :
    (x : Platform) (s : Settings) (now : ℕ) (e : ActionEnvelope) (approvals : List Approval)
    → Guards x s now e approvals
    → require_valid_approvals e approvals ≡ ok tt
unfolding require_valid_approvals check_identities
valid_of_Guards x s now e approvals g =
    let m = g.maker_approval in
    let c = g.checker_approval in
    rw (g.by_maker, g.by_checker)
      (ground (
        arith,
        eq_iff m.approver_identity c.approver_identity,
        eq_iff m.approver_identity e.maker_identity,
        eq_iff c.approver_identity e.checker_identity,
      ))

record_attempt_known :
    (x : Platform) (e : ActionEnvelope) (r : ExecutionResult) (db : Db)
    → any (is_case e.case_id) db.cases ≡ true
    → record_attempt x e r db
      ≡ (ok (returned x r), record db { executions = db.executions ++ execution_row e r ∷ [] })
unfolding record_attempt insert_execution
record_attempt_known x e r db known = rw known

-- The report of a replay: a confirmed no-op within the envelope's time to live, a rejection after.
abbrev pub replay_result : ActionEnvelope → ℕ → AttemptContext → ExecutionResult
replay_result e later context =
    if leb e.expires_at later
    then rejected_with rejected_expired (expired_at e.expires_at) none
    else rejected_with (replay_outcome context) already_applied (some e.approved_value)

-- The correction of the envelope is the last one that its record has seen.
record IsApplied (e : ActionEnvelope) (db : Db) : Type 0 where
  known : any (is_case e.case_id) db.cases ≡ true
  row : BookingRecord
  found : find_booking (correction_of e).trade db ≡ some row
  last : row.last_applied_idempotency_key ≡ some e.idempotency_key
  value : row.base_amount_value ≡ e.approved_value

-- What a replay leaves: one more execution row.
abbrev recorded : ActionEnvelope → ExecutionResult → Db → Db
recorded e r db = record db { executions = db.executions ++ execution_row e r ∷ [] }

recorded-IsApplied :
    (e : ActionEnvelope) (r : ExecutionResult) (db : Db)
    → IsApplied e db
    → IsApplied e (recorded e r db)
unfolding find_booking
recorded-IsApplied e r db a = record {
  known = a.known;
  row = a.row;
  found = a.found;
  last = a.last;
  value = a.value;
}

module _ (x : Platform) (s : Settings) (now : ℕ) (e : ActionEnvelope)
    (approvals : List Approval) where
  replay_unexpired :
      (again : AttemptContext) (db : Db)
      → Guards x s now e approvals
      → IsApplied e db
      → let r = rejected_with (replay_outcome again) already_applied (some e.approved_value) in
        after_verification x e approvals again (ok tt) db ≡ (ok (returned x r), recorded e r db)
  unfolding after_verification after_approvals act
  replay_unexpired again db g a =
      rw (valid_of_Guards x s now e approvals g, g.field)
        (rw (apply_replay (correction_of e) db a.row a.found a.last, a.value)
          (record_attempt_known x e
            (rejected_with (replay_outcome again) already_applied (some e.approved_value)) db
            a.known))

  execute-again :
      (later : ℕ) (again : AttemptContext) (db : Db)
      → Guards x s now e approvals
      → IsApplied e db
      → execute x s later e approvals again db ≡ (
        ok (returned x (replay_result e later again)),
        recorded e (replay_result e later again) db,
      )
  unfolding execute
  execute-again later again db g a =
      rw (verify_later x s now e later g.verified) (elim (Bool-cases (leb e.expires_at later)) [
        | inl over ↦ rw over (
            unfold after_verification in
            record_attempt_known x e (rejected_with rejected_expired (expired_at e.expires_at) none)
              db a.known)
        | inr open_still ↦ rw open_still (replay_unexpired again db g a)
      ])

  -- Calls with the same envelope and approvals, one after the other, each with its time and context.
  unfoldable pub executions_after : List (ℕ × AttemptContext) → Db → Db
  executions_after [] db = db
  executions_after ((later, again) ∷ calls) db =
      executions_after calls (execute x s later e approvals again db).1

  replays :
      (calls : List (ℕ × AttemptContext)) (db : Db)
      → Guards x s now e approvals
      → IsApplied e db
      → IsApplied e (executions_after calls db)
        × ((executions_after calls db).bookings ≡ db.bookings)
  unfolding executions_after
  replays [] db g a = (a, refl)
  replays ((later, again) ∷ calls) db g a =
      subst
        (λ (d : Db).
          IsApplied e (executions_after calls d)
          × ((executions_after calls d).bookings ≡ db.bookings))
        (sym (ap (λ (out : Result ExecutionResult × Db). out.1) (execute-again later again db g a)))
        (replays calls (recorded e (replay_result e later again) db) g
          (recorded-IsApplied e (replay_result e later again) db a))

  replay_of :
      (context : AttemptContext) (db db' : Db) (told : ExecutionResult)
      → any (is_case e.case_id) db.cases ≡ true
      → Execution x s now e approvals context db (ok told, db')
      → told.applied ≡ true
      → (calls : List (ℕ × AttemptContext)) (later : ℕ) (again : AttemptContext)
      → let next = execute x s later e approvals again (executions_after calls db') in
        ((executions_after calls db').bookings ≡ db'.bookings)
        × (next.0 ≡ ok (returned x (replay_result e later again)))
        × (next.1.bookings ≡ db'.bookings)
  replay_of context db db' told known (r, as_told, rest, inl (no_effect, _, _)) done calls later
        again =
      absurd
        (true_ne_false (sym done ∙ ap (λ (t : ExecutionResult). t.applied) as_told ∙ no_effect))
  replay_of context db db' told known (r, as_told, rest, inr (_, _, g, _, c)) done calls later
        again =
      let (a, same) = replays calls db' g (record {
        known = rw (ap (λ (d : Db). d.cases) rest) known;
        row = corrected_row (correction_of e) c.old;
        found = c.now_corrected;
        last = refl;
        value = refl;
      }) in
      rw (execute-again later again (executions_after calls db') g a) (same, refl, same)

  -- After a correction of a case in the database was applied, any number of calls with the same envelope and approvals, with no
  -- other call between them, at whatever times and in whatever contexts, leave the bookings as the
  -- correction left them, and so does the next, which reports a confirmed no-op before the envelope
  -- expires, with the corrected value read back, and an expired envelope from then on.
  pub execute_replay :
      (context : AttemptContext) (db db' : Db) (told : ExecutionResult)
      → any (is_case e.case_id) db.cases ≡ true
      → execute x s now e approvals context db ≡ (ok told, db')
      → told.applied ≡ true
      → (calls : List (ℕ × AttemptContext)) (later : ℕ) (again : AttemptContext)
      → let next = execute x s later e approvals again (executions_after calls db') in
        ((executions_after calls db').bookings ≡ db'.bookings)
        × (next.0 ≡ ok (returned x (replay_result e later again)))
        × (next.1.bookings ≡ db'.bookings)
  execute_replay context db db' told known run done calls later again =
      replay_of context db db' told known
        (rw run at (execute-Execution x s now e approvals context db known)) done calls later again
