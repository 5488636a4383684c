-- ===== src/Remediation/System/Executions.antt =====
-- The invariant of the remediation tables and an execution.
use mathlib.Core.Path.{subst}
use tradeops_sentinel.Base.{
  Bool-cases, List, Option-cases, String, any, find, inl, inr, map, refl, some, sym, ℕ, ◌∙◌, ◌≡◌,
}
use tradeops_sentinel.Remediation.Api.{
  Services, approval_of, approvals_of, blank_identity, envelope_request, envelope_row, execute_case,
  is_eligible, issue_envelope, remediation_execute, run_envelope, some_or, verify_applied,
}
use tradeops_sentinel.Remediation.Envelope.{build_envelope, envelope_ttl}
use tradeops_sentinel.Remediation.Evidence.{case_view, finalize_evidence}
use tradeops_sentinel.Remediation.Exec.{gets, pure, ◌>>=◌, ◌>>◌}
use tradeops_sentinel.Remediation.Executor.{execute, execution_row, normal, report}
use tradeops_sentinel.Remediation.Executor.Frame.{execute-Trace}
use tradeops_sentinel.Remediation.Models.{ActionEnvelope, Approval, ExecutionResult, checker, maker}
use tradeops_sentinel.Remediation.Result.{Result-cases, assertion_failed}
use tradeops_sentinel.Remediation.Store.{
  get_approvals, get_case, get_envelope, is_approval, is_case, is_envelope,
}
use tradeops_sentinel.Remediation.Store.Approvals.{find_role}
use tradeops_sentinel.Remediation.System.Approvals.{some_or-InvDb}
use tradeops_sentinel.Remediation.System.Cases.{InvDb, bind-InvDb}
use tradeops_sentinel.Remediation.System.Evidence.{
  IsEnvelopeOf, finalize_evidence-InvDb, insert_envelope-InvDb,
}
use tradeops_sentinel.Remediation.System.Invariant.{Inv-execution}
use tradeops_sentinel.Remediation.Tables.{ApprovalRow, CaseRow, Db, EnvelopeRow}

module _ (v : Services) where
  issue_envelope-InvDb :
      (now : ℕ) (id : String) (case : CaseRow) (m c : ApprovalRow) (db : Db)
      → find (is_case id) db.cases ≡ some case
      → find (is_approval id maker) db.approvals ≡ some m
      → find (is_approval id checker) db.approvals ≡ some c
      → InvDb v db
      → InvDb v (issue_envelope v now id case m c (find (is_envelope id) db.envelopes) db).1
        × IsEnvelopeOf v id
            (issue_envelope v now id case m c (find (is_envelope id) db.envelopes) db)
  unfolding issue_envelope
  issue_envelope-InvDb now id case m c db found by_m by_c inv =
      elim (Option-cases (find (is_envelope id) db.envelopes)) [
        | inr (row, there) ↦ rw there (inv, there)
        | inl absent ↦ rw absent (elim (Option-cases case.policy_decision.approved_field_path) [
          | inl no_field ↦ rw no_field (inv, tt)
          | inr (field, has_field) ↦ elim (Option-cases case.policy_decision.approved_value) [
            | inl no_value ↦ rw (has_field, no_value) (inv, tt)
            | inr (value, has_value) ↦
                elim (Result-cases (
                  build_envelope v.platform v.settings
                    (envelope_request v id case field value m.approver_identity c.approver_identity)
                    now envelope_ttl)) [
                      | inr (e, failed) ↦ rw (has_field, has_value, failed) (inv, tt)
                      | inl (draft, drafted) ↦
                          rw (has_field, has_value, drafted)
                            (insert_envelope-InvDb v (envelope_row v id draft) db absent
                              (record {
                                case = case;
                                by_maker = m;
                                by_checker = c;
                                field = field;
                                value = value;
                                issued = now;
                                case_found = found;
                                maker_found = by_m;
                                checker_found = by_c;
                                decided_field = has_field;
                                decided_value = has_value;
                                built = drafted;
                              })
                              inv)
                    ]
          ]
        ])
      ]

  -- An applied execution is authorised by the envelope of its case.
  execute-InvDb :
      (now : ℕ) (id : String) (row : EnvelopeRow) (approvals : List Approval) (db : Db)
      → find (is_envelope id) db.envelopes ≡ some row
      → InvDb v db
      → InvDb v (execute v.platform v.settings now row.envelope_document approvals normal db).1
  execute-InvDb now id row approvals db found inv =
      let e = row.envelope_document in
      let db' = (execute v.platform v.settings now e approvals normal db).1 in
      let (rest, log) = execute-Trace v.platform v.settings now e approvals normal db in
      subst (InvDb v) (sym rest) (elim log [
        | inl same ↦ rw same inv
        | inr (r, row_added, fits) ↦ rw row_added (
            Inv-execution v inv (execution_row e r) (λ done.
              let (g, value) = fits done in
              (
                id,
                row,
                found,
                refl,
                refl,
                value,
                λ equal. g.distinct (g.maker_named ∙ equal ∙ sym g.checker_named),
              )))
      ])

  verify_applied-InvDb :
      (id : String) (case : CaseRow) (e : ActionEnvelope) (r : ExecutionResult) (db : Db)
      → InvDb v db
      → InvDb v (verify_applied v id case e r db).1
  unfolding verify_applied
  verify_applied-InvDb id case e r db inv = elim (Bool-cases r.applied) [
    | inr no_effect ↦ rw no_effect inv
    | inl done ↦ elim (Result-cases (v.post_action case.trade_id e.field_path e.approved_value)) [
      | inr (fault, raised) ↦ rw (done, raised) inv
      | inl (report, fed_back) ↦
          rw (done, fed_back)
            (let frozen = finalize_evidence-InvDb v id (some report) db inv in
              bind-InvDb v (finalize_evidence v.evidence_digest id (some report)) (λ _. pure tt) db
                frozen (λ _ _. frozen))
    ]
  ]

  approvals_of-InvDb :
      (rows : List ApprovalRow) (db : Db) → InvDb v db → InvDb v (approvals_of v rows db).1
  approvals_of-InvDb rows db inv = inv

  run_envelope-InvDb :
      (now : ℕ) (id : String) (case : CaseRow) (rows : List ApprovalRow) (row : EnvelopeRow)
      (db : Db)
      → find (is_envelope id) db.envelopes ≡ some row
      → InvDb v db
      → InvDb v (run_envelope v now id case rows row db).1
  unfolding run_envelope
  run_envelope-InvDb now id case rows row db found inv =
      elim (Bool-cases (any (blank_identity v) rows)) [
        | inl blank ↦ rw blank inv
        | inr named ↦ rw named (
            let approvals = map (approval_of v) rows in
            let run = execute v.platform v.settings now row.envelope_document approvals normal in
            let after_run = execute-InvDb now id row approvals db found inv in
            let show = gets (case_view id) >>= λ view. some_or assertion_failed view in
            bind-InvDb v run
              (λ r.
                verify_applied v id case row.envelope_document r
                >> (show >>= λ found. pure (r, found)))
              db after_run
              λ r _.
                let verified =
                  verify_applied-InvDb id case row.envelope_document r (run db).1 after_run in
                bind-InvDb v (verify_applied v id case row.envelope_document r)
                  (λ _. show >>= λ found. pure (r, found)) (run db).1 verified
                  λ _ _.
                    let db' = (verify_applied v id case row.envelope_document r (run db).1).1 in
                    let shown = some_or-InvDb v assertion_failed (case_view id db') db' verified in
                    bind-InvDb v (some_or assertion_failed (case_view id db'))
                      (λ found. pure (r, found)) db' shown (λ _ _. shown))
      ]

  execute_case-InvDb :
      (now : ℕ) (id : String) (case : CaseRow) (db : Db)
      → find (is_case id) db.cases ≡ some case
      → InvDb v db
      → InvDb v (execute_case v now id case db).1
  unfolding execute_case get_envelope
  execute_case-InvDb now id case db found inv =
      elim (Bool-cases (is_eligible case.policy_decision.outcome)) [
        | inr unfit ↦ rw unfit inv
        | inl fit ↦ elim (Option-cases (find (is_approval id maker) db.approvals)) [
          | inl no_maker ↦ rw (fit, find_role id maker db, no_maker) inv
          | inr (m, by_m) ↦ elim (Option-cases (find (is_approval id checker) db.approvals)) [
            | inl no_checker ↦
                rw (fit, find_role id maker db, by_m, find_role id checker db, no_checker) inv
            | inr (c, by_c) ↦
                rw (fit, find_role id maker db, by_m, find_role id checker db, by_c)
                  (let issue =
                      issue_envelope v now id case m c (find (is_envelope id) db.envelopes) in
                    let (issued, stored) =
                      issue_envelope-InvDb now id case m c db found by_m by_c inv in
                    bind-InvDb v issue (run_envelope v now id case (get_approvals id db)) db issued
                      (λ row got.
                        run_envelope-InvDb now id case (get_approvals id db) row (issue db).1
                          (subst (IsEnvelopeOf v id) got stored) issued))
          ]
        ]
      ]

  pub remediation_execute-InvDb :
      (now : ℕ) (id : String) (db : Db) → InvDb v db → InvDb v (remediation_execute v now id db).1
  unfolding remediation_execute get_case
  remediation_execute-InvDb now id db inv = elim (Option-cases (find (is_case id) db.cases)) [
    | inl absent ↦ rw absent inv
    | inr (case, found) ↦ rw found (execute_case-InvDb now id case db found inv)
  ]
