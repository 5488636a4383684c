-- ===== src/Remediation/System/Safety.antt =====
-- What holds of every database that the endpoints can reach.
use Prim.Native.String
use mathlib.Core.List.{Memᴰ}
use tradeops_sentinel.Base.{List, String, ap, find, inl, inr, refl, some, sym, true, ◌∙◌, ◌≡◌, ◌≢◌}
use tradeops_sentinel.Remediation.Api.{Services, envelope_request, is_eligible}
use tradeops_sentinel.Remediation.Envelope.{draft_envelope, envelope_ttl}
use tradeops_sentinel.Remediation.Envelope.Laws.{build-signed_fields}
use tradeops_sentinel.Remediation.Models.{
  ApprovalRole, PolicyOutcome, SignedFields, approve, checker, eligible_for_approval, maker,
  manual_investigation, rejected,
}
use tradeops_sentinel.Remediation.Policy.{evaluate}
use tradeops_sentinel.Remediation.Policy.Laws.{IsEligible, evaluate-cases, evaluate-eligible_iff}
use tradeops_sentinel.Remediation.Store.{get_case, is_approval, is_case}
use tradeops_sentinel.Remediation.System.{Reach, approved, created, executed, next, start}
use tradeops_sentinel.Remediation.System.Approvals.{submit_approval-InvDb}
use tradeops_sentinel.Remediation.System.Cases.{InvDb, create_case-InvDb}
use tradeops_sentinel.Remediation.System.Executions.{remediation_execute-InvDb}
use tradeops_sentinel.Remediation.System.Invariant.{Inv-empty, IsIssued, IsJudged}
use tradeops_sentinel.Remediation.Tables.{ApprovalRow, CaseRow, Db, EnvelopeRow, ExecutionRow}

eligible_of_test : (o : PolicyOutcome) → is_eligible o ≡ true → o ≡ eligible_for_approval
eligible_of_test eligible_for_approval h = refl
eligible_of_test manual_investigation h = cc
eligible_of_test rejected h = cc

module _ (v : Services) where
  Reach-InvDb : {db : Db} → Reach v db → InvDb v db
  Reach-InvDb start = Inv-empty v
  Reach-InvDb (next before (created db tenant_id case_id row documents)) =
      create_case-InvDb v tenant_id case_id row documents db (Reach-InvDb before)
  Reach-InvDb (next before (approved db id role identity)) =
      submit_approval-InvDb v id role identity db (Reach-InvDb before)
  Reach-InvDb (next before (executed db now id)) =
      remediation_execute-InvDb v now id db (Reach-InvDb before)

  -- An approval of the recommendation of a case.
  abbrev pub IsApprovalOf : CaseRow → ApprovalRow → Type 0
  IsApprovalOf case a =
      (a.decision ≡ approve)
      × (a.approved_recommendation_hash ≡ v.platform.recommendation_digest case.ai_recommendation)

  -- What stands behind an applied execution.
  pub record IsBackedUp (db : Db) (e : ExecutionRow) : Type 0 where
    pub id : String
    pub case : CaseRow
    pub by_maker : ApprovalRow
    pub by_checker : ApprovalRow
    pub case_found : get_case id db ≡ some case
    pub eligible : IsEligible v.index case.ai_recommendation case.break_facts
    pub maker_found : find (is_approval id maker) db.approvals ≡ some by_maker
    pub checker_found : find (is_approval id checker) db.approvals ≡ some by_checker
    pub maker_approved : IsApprovalOf case by_maker
    pub checker_approved : IsApprovalOf case by_checker
    pub distinct :
        v.platform.strip by_maker.approver_identity ≢ v.platform.strip by_checker.approver_identity
    pub value : e.read_back_value ≡ some (v.platform.strip case.break_facts.expected_value)
    pub key : e.idempotency_key ≡ v.platform.strip (String.◌++◌ "idem_" id)
    pub case_named : e.case_id ≡ v.platform.strip id

  case_approved :
      (db : Db) (id : String) (role : ApprovalRole) (case : CaseRow) (a : ApprovalRow)
      → InvDb v db
      → find (is_case id) db.cases ≡ some case
      → find (is_approval id role) db.approvals ≡ some a
      → (is_eligible case.policy_decision.outcome ≡ true) × IsApprovalOf case a
  case_approved db id role case a inv found by =
      let (case', found', fit, same) = inv.backed id role a by in
      let equal : case' ≡ case = cc in (rw (← equal) fit, rw (same, ← equal) (refl, refl))

  -- The signed fields of the envelope of a case, from its case and its two approvals.
  signed_of_case :
      {cases : List CaseRow} {approvals : List ApprovalRow} {id : String} {row : EnvelopeRow}
      (i : IsIssued v cases approvals id row)
      → let e = row.envelope_document in
        (e.case_id ≡ v.platform.strip id)
        × (e.idempotency_key ≡ v.platform.strip (String.◌++◌ "idem_" id))
        × (e.approved_value ≡ v.platform.strip i.value)
        × (e.maker_identity ≡ v.platform.strip i.by_maker.approver_identity)
        × (e.checker_identity ≡ v.platform.strip i.by_checker.approver_identity)
  unfolding draft_envelope
  signed_of_case {id = id} i =
      let r =
        envelope_request v id i.case i.field i.value i.by_maker.approver_identity
          i.by_checker.approver_identity in
      let same = build-signed_fields v.platform v.settings r i.issued envelope_ttl i.built in
      (
        ap (λ (f : SignedFields). f.case_id) same,
        ap (λ (f : SignedFields). f.idempotency_key) same,
        ap (λ (f : SignedFields). f.approved_value) same,
        ap (λ (f : SignedFields). f.maker_identity) same,
        ap (λ (f : SignedFields). f.checker_identity) same,
      )

  -- What the policy decided for a case that went on to approval.
  decided_value :
      (case : CaseRow) (value : String)
      → IsJudged v case
      → is_eligible case.policy_decision.outcome ≡ true
      → case.policy_decision.approved_value ≡ some value
      → IsEligible v.index case.ai_recommendation case.break_facts
        × (value ≡ case.break_facts.expected_value)
  decided_value case value judged fit decided =
      let r = case.ai_recommendation in
      let facts = case.break_facts in
      let outcome : (evaluate v.index r facts).outcome ≡ eligible_for_approval =
        rw (← judged) (eligible_of_test case.policy_decision.outcome fit) in
      (
        (evaluate-eligible_iff v.index r facts).0 outcome,
        elim (evaluate-cases v.index r facts) [
          | inl (_, _, _, named) ↦ cc
          | inr (not_eligible, _, _, _) ↦ absurd (not_eligible outcome)
        ],
      )

  -- In every database that the endpoints reach, an execution recorded as applied belongs to a case
  -- whose recommendation met every rule of the policy engine, with a maker's and a checker's approval
  -- of that recommendation by two identities that differ without their white space; it read back the
  -- authoritative value, under the case's own idempotency key.
  pub applied-IsBackedUp :
      (db : Db) (e : ExecutionRow)
      → Reach v db
      → Memᴰ e db.executions
      → e.applied ≡ true
      → IsBackedUp db e
  unfolding get_case
  applied-IsBackedUp db e reach m done =
      let inv = Reach-InvDb reach in
      let (id, row, stored, named, key, value, differ) = inv.authorised e m done in
      let i = inv.issued id row stored in
      let (m_fit, m_approved) =
        case_approved db id maker i.case i.by_maker inv i.case_found i.maker_found in
      let (_, c_approved) =
        case_approved db id checker i.case i.by_checker inv i.case_found i.checker_found in
      let (fit, is_authoritative) =
        decided_value i.case i.value (inv.judged id i.case i.case_found) m_fit i.decided_value in
      let (id_signed, key_signed, value_signed, m_signed, c_signed) = signed_of_case i in
      record {
        id = id;
        case = i.case;
        by_maker = i.by_maker;
        by_checker = i.by_checker;
        case_found = i.case_found;
        eligible = fit;
        maker_found = i.maker_found;
        checker_found = i.checker_found;
        maker_approved = m_approved;
        checker_approved = c_approved;
        distinct = λ same. differ (m_signed ∙ same ∙ sym c_signed);
        value = rw (value, value_signed, is_authoritative) refl;
        key = key ∙ key_signed;
        case_named = named ∙ id_signed;
      }
