-- ===== src/Remediation/System/Approvals.antt =====
-- The invariant of the remediation tables and an approval.
use tradeops_sentinel.Base.{
  Bool-cases, Option, Option-cases, String, any_of_find, any_of_find-none, false, find, inl, inr,
  ne_of_test, none, some, true, ◌≡◌, ◌≢◌,
}
use tradeops_sentinel.Remediation.Api.{
  Services, approval_row, approve_case, is_eligible, is_identity, on_duplicate, other_row, some_or,
  submit_approval, valid_identity,
}
use tradeops_sentinel.Remediation.Evidence.{case_view}
use tradeops_sentinel.Remediation.Exec.{gets, ◌>>=◌}
use tradeops_sentinel.Remediation.Models.{ApprovalRole, same_role}
use tradeops_sentinel.Remediation.Result.{Error, assertion_failed}
use tradeops_sentinel.Remediation.Store.{
  get_approvals, get_case, insert_approval, is_approval, is_case,
}
use tradeops_sentinel.Remediation.Store.Approvals.{find_other_role}
use tradeops_sentinel.Remediation.System.Cases.{InvDb, bind-InvDb}
use tradeops_sentinel.Remediation.System.Invariant.{Inv-approval}
use tradeops_sentinel.Remediation.Tables.{ApprovalRow, CaseRow, Db}

module _ (v : Services) where
  identities_differ :
      (id : String) (role : ApprovalRole) (identity : String) (db : Db)
      → is_identity identity (other_row role (get_approvals id db)) ≡ false
      → (other : ApprovalRole) (a : ApprovalRow) → same_role other role ≡ false
      → find (is_approval id other) db.approvals ≡ some a
      → a.approver_identity ≢ identity
  identities_differ id role identity db free other a differ found =
      ne_of_test a.approver_identity identity
        (rw (find_other_role id role other db differ, found) at free)

  insert-InvDb :
      (id : String) (role : ApprovalRole) (identity : String) (case : CaseRow) (db : Db)
      → find (is_case id) db.cases ≡ some case
      → is_eligible case.policy_decision.outcome ≡ true
      → is_identity identity (other_row role (get_approvals id db)) ≡ false
      → InvDb v db
      → InvDb v (insert_approval (approval_row v id case role identity) db).1
  unfolding insert_approval
  insert-InvDb id role identity case db found fit free inv =
      elim (Option-cases (find (is_approval id role) db.approvals)) [
        | inr (a, there) ↦ rw (any_of_find (is_approval id role) db.approvals there) inv
        | inl none_yet ↦
            rw
              (
                any_of_find-none (is_approval id role) db.approvals none_yet,
                any_of_find (is_case id) db.cases found,
              )
              (Inv-approval v inv id case role identity found fit none_yet
                (identities_differ id role identity db free))
      ]

  pub some_or-InvDb :
      {A : Type 0} (e : Error) (o : Option A) (db : Db) → InvDb v db → InvDb v (some_or e o db).1
  some_or-InvDb e none db inv = inv
  some_or-InvDb e (some a) db inv = inv

  approve_case-InvDb :
      (id : String) (role : ApprovalRole) (identity : String) (case : CaseRow) (db : Db)
      → find (is_case id) db.cases ≡ some case
      → InvDb v db
      → InvDb v (approve_case v id role identity case db).1
  unfolding approve_case
  approve_case-InvDb id role identity case db found inv =
      elim (Bool-cases (is_eligible case.policy_decision.outcome)) [
        | inr unfit ↦ rw unfit inv
        | inl fit ↦
            elim (Bool-cases (is_identity identity (other_row role (get_approvals id db)))) [
              | inl same ↦ rw (fit, same) inv
              | inr free ↦
                  rw (fit, free)
                    (let inserted = insert-InvDb id role identity case db found fit free inv in
                      bind-InvDb v
                        (on_duplicate (insert_approval (approval_row v id case role identity)))
                        (λ _. gets (case_view id) >>= some_or assertion_failed) db inserted
                        (λ _ _.
                          let db' = (insert_approval (approval_row v id case role identity) db).1 in
                          some_or-InvDb assertion_failed (case_view id db') db' inserted))
            ]
      ]

  pub submit_approval-InvDb :
      (id : String) (role : ApprovalRole) (identity : String) (db : Db)
      → InvDb v db
      → InvDb v (submit_approval v id role identity db).1
  unfolding submit_approval get_case
  submit_approval-InvDb id role identity db inv = elim (Bool-cases (valid_identity identity)) [
    | inr invalid ↦ rw invalid inv
    | inl valid ↦ elim (Option-cases (find (is_case id) db.cases)) [
      | inl absent ↦ rw (valid, absent) inv
      | inr (case, found) ↦
          rw (valid, found) (approve_case-InvDb id role identity case db found inv)
    ]
  ]
