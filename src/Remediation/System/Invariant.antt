-- ===== src/Remediation/System/Invariant.antt =====
-- The invariant of the tables that back an execution, and how insertions keep it.
use mathlib.Core.List.{Memᴰ}
use tradeops_sentinel.Base.{
  List, String, [], ap, arith, eq_iff, eq_of_test, false, find, find-append_last, find-append_some,
  inl, inr, mem-append_last, none, refl, some, sym, true, ℕ, ◌++◌, ◌∙◌, ◌∷◌, ◌≡◌, ◌≢◌,
}
use tradeops_sentinel.Remediation.Api.{Services, approval_row, envelope_request, is_eligible}
use tradeops_sentinel.Remediation.Envelope.{build_envelope, envelope_ttl}
use tradeops_sentinel.Remediation.Models.{ApprovalRole, checker, maker, same_role}
use tradeops_sentinel.Remediation.Policy.{evaluate}
use tradeops_sentinel.Remediation.Result.{ok}
use tradeops_sentinel.Remediation.Store.{is_approval, is_case, is_envelope}
use tradeops_sentinel.Remediation.Tables.{ApprovalRow, CaseRow, EnvelopeRow, ExecutionRow}

module _ (v : Services) where
  -- What an eligible decision has fixed about a case.
  abbrev pub IsJudged : CaseRow → Type 0
  IsJudged case = case.policy_decision ≡ evaluate v.index case.ai_recommendation case.break_facts

  abbrev pub IsBacked : List CaseRow → String → ApprovalRow → Type 0
  IsBacked cases id a =
      (case : CaseRow) × (find (is_case id) cases ≡ some case)
      × (is_eligible case.policy_decision.outcome ≡ true)
      × (a ≡ approval_row v id case a.role a.approver_identity)

  -- The case and the two approvals that an envelope was built from.
  pub record IsIssued (cases : List CaseRow) (approvals : List ApprovalRow) (id : String)
      (row : EnvelopeRow) : Type 0 where
    pub case : CaseRow
    pub by_maker : ApprovalRow
    pub by_checker : ApprovalRow
    pub field : String
    pub value : String
    pub issued : ℕ
    pub case_found : find (is_case id) cases ≡ some case
    pub maker_found : find (is_approval id maker) approvals ≡ some by_maker
    pub checker_found : find (is_approval id checker) approvals ≡ some by_checker
    pub decided_field : case.policy_decision.approved_field_path ≡ some field
    pub decided_value : case.policy_decision.approved_value ≡ some value
    pub built :
        build_envelope v.platform v.settings
          (envelope_request v id case field value by_maker.approver_identity
            by_checker.approver_identity)
          issued
          envelope_ttl
        ≡ ok row.envelope_document

  -- An applied execution acted on an envelope of the table, whose maker and checker differ.
  abbrev pub IsAuthorised : List EnvelopeRow → ExecutionRow → Type 0
  IsAuthorised envelopes e =
      (id : String) × (row : EnvelopeRow) × (find (is_envelope id) envelopes ≡ some row)
      × (e.case_id ≡ row.envelope_document.case_id)
      × (e.idempotency_key ≡ row.envelope_document.idempotency_key)
      × (e.read_back_value ≡ some row.envelope_document.approved_value)
      × (row.envelope_document.maker_identity ≢ row.envelope_document.checker_identity)

  pub record Inv (cases : List CaseRow) (approvals : List ApprovalRow)
      (envelopes : List EnvelopeRow) (executions : List ExecutionRow) : Type 0 where
    pub judged :
        (id : String) (case : CaseRow) → find (is_case id) cases ≡ some case → IsJudged case
    pub backed :
        (id : String) (role : ApprovalRole) (a : ApprovalRow)
        → find (is_approval id role) approvals ≡ some a
        → IsBacked cases id a
    pub four_eyes :
        (id : String) (m c : ApprovalRow)
        → find (is_approval id maker) approvals ≡ some m
        → find (is_approval id checker) approvals ≡ some c
        → m.approver_identity ≢ c.approver_identity
    pub issued :
        (id : String) (row : EnvelopeRow)
        → find (is_envelope id) envelopes ≡ some row
        → IsIssued cases approvals id row
    pub authorised :
        (e : ExecutionRow) → Memᴰ e executions → e.applied ≡ true → IsAuthorised envelopes e

  pub Inv-empty : Inv [] [] [] []
  Inv-empty = record {
    judged = λ id case h. cc;
    backed = λ id role a h. cc;
    four_eyes = λ id m c h k. cc;
    issued = λ id row h. cc;
    authorised = λ e m h. elim m [ ];
  }

  maker_ne_checker : maker ≢ checker
  maker_ne_checker h = cc

  module _ {cases : List CaseRow} {approvals : List ApprovalRow} {envelopes : List EnvelopeRow}
      {executions : List ExecutionRow} (inv : Inv cases approvals envelopes executions) where
    IsIssued-case :
        (new : CaseRow) {id : String} {row : EnvelopeRow}
        → IsIssued cases approvals id row
        → IsIssued (cases ++ new ∷ []) approvals id row
    IsIssued-case new {id} i = record {
      case = i.case;
      by_maker = i.by_maker;
      by_checker = i.by_checker;
      field = i.field;
      value = i.value;
      issued = i.issued;
      case_found = find-append_some (is_case id) cases (new ∷ []) i.case_found;
      maker_found = i.maker_found;
      checker_found = i.checker_found;
      decided_field = i.decided_field;
      decided_value = i.decided_value;
      built = i.built;
    }

    IsIssued-approval :
        (new : ApprovalRow) {id : String} {row : EnvelopeRow}
        → IsIssued cases approvals id row
        → IsIssued cases (approvals ++ new ∷ []) id row
    IsIssued-approval new {id} i = record {
      case = i.case;
      by_maker = i.by_maker;
      by_checker = i.by_checker;
      field = i.field;
      value = i.value;
      issued = i.issued;
      case_found = i.case_found;
      maker_found = find-append_some (is_approval id maker) approvals (new ∷ []) i.maker_found;
      checker_found =
          find-append_some (is_approval id checker) approvals (new ∷ []) i.checker_found;
      decided_field = i.decided_field;
      decided_value = i.decided_value;
      built = i.built;
    }

    pub Inv-case :
        (new : CaseRow) → IsJudged new → Inv (cases ++ new ∷ []) approvals envelopes executions
    Inv-case new fair = record {
      judged = λ id case h. elim (find-append_last (is_case id) cases new h) [
        | inl old ↦ inv.judged id case old
        | inr (_, _, same) ↦ rw same fair
      ];
      backed = λ id role a h.
          let (case, found, fit, same) = inv.backed id role a h in
          (case, find-append_some (is_case id) cases (new ∷ []) found, fit, same);
      four_eyes = inv.four_eyes;
      issued = λ id row h. IsIssued-case new (inv.issued id row h);
      authorised = inv.authorised;
    }

    is_new :
        (id id' : String) (case : CaseRow) (role role' : ApprovalRole) (identity : String)
        → is_approval id' role' (approval_row v id case role identity) ≡ true
        → (id ≡ id') × (role ≡ role')
    is_new id id' case maker maker identity h = (ground (arith, eq_iff id id'), refl)
    is_new id id' case checker checker identity h = (ground (arith, eq_iff id id'), refl)
    is_new id id' case maker checker identity h = ground arith
    is_new id id' case checker maker identity h = ground arith

    -- The two approvals of a case after one more, whose identity is not that of the other role.
    pub Inv-approval :
        (id : String) (case : CaseRow) (role : ApprovalRole) (identity : String)
        → find (is_case id) cases ≡ some case
        → is_eligible case.policy_decision.outcome ≡ true
        → find (is_approval id role) approvals ≡ none
        → ((other : ApprovalRole) (a : ApprovalRow)
            → same_role other role ≡ false
            → find (is_approval id other) approvals ≡ some a
            → a.approver_identity ≢ identity)
        → Inv cases (approvals ++ approval_row v id case role identity ∷ []) envelopes executions
    Inv-approval id case role identity found fit none_yet distinct = record {
      judged = inv.judged;
      backed = λ id' role' a h.
          elim (find-append_last (is_approval id' role') approvals
            (approval_row v id case role identity) h) [
              | inl old ↦ inv.backed id' role' a old
              | inr (_, here, same) ↦
                  let (at, _) = is_new id id' case role role' identity here in
                  (case, rw (← at) found, fit, rw (same, at) refl)
            ];
      four_eyes = λ id' m c h k.
          elim (find-append_last (is_approval id' maker) approvals
            (approval_row v id case role identity) h) [
              | inl old_m ↦
                  elim (find-append_last (is_approval id' checker) approvals
                    (approval_row v id case role identity) k) [
                      | inl old_c ↦ inv.four_eyes id' m c old_m old_c
                      | inr (_, here, same) ↦
                          let (at, is) = is_new id id' case role checker identity here in
                          λ equal.
                            distinct maker m (rw is refl) (rw at old_m)
                              (equal ∙ ap (λ (r : ApprovalRow). r.approver_identity) same)
                    ]
              | inr (_, here, same) ↦
                  let (at, is) = is_new id id' case role maker identity here in
                  elim (find-append_last (is_approval id' checker) approvals
                    (approval_row v id case role identity) k) [
                      | inl old_c ↦ λ equal.
                          distinct checker c (rw is refl) (rw at old_c)
                            (sym equal ∙ ap (λ (r : ApprovalRow). r.approver_identity) same)
                      | inr (_, here_too, _) ↦
                          let (_, is_too) = is_new id id' case role checker identity here_too in
                          absurd (maker_ne_checker (sym is ∙ is_too))
                    ]
            ];
      issued = λ id' row h.
          IsIssued-approval (approval_row v id case role identity) (inv.issued id' row h);
      authorised = inv.authorised;
    }

    pub Inv-envelope :
        (row : EnvelopeRow)
        → find (is_envelope row.case_id) envelopes ≡ none
        → IsIssued cases approvals row.case_id row
        → Inv cases approvals (envelopes ++ row ∷ []) executions
    Inv-envelope row none_yet fits = record {
      judged = inv.judged;
      backed = inv.backed;
      four_eyes = inv.four_eyes;
      issued = λ id' row' h. elim (find-append_last (is_envelope id') envelopes row h) [
        | inl old ↦ inv.issued id' row' old
        | inr (_, here, same) ↦ rw (same, ← eq_of_test row.case_id id' here) fits
      ];
      authorised = λ e m done.
          let (id', row', at', a, b, c, d) = inv.authorised e m done in
          (id', row', find-append_some (is_envelope id') envelopes (row ∷ []) at', a, b, c, d);
    }

    pub Inv-execution :
        (new : ExecutionRow)
        → (new.applied ≡ true → IsAuthorised envelopes new)
        → Inv cases approvals envelopes (executions ++ new ∷ [])
    Inv-execution new fits = record {
      judged = inv.judged;
      backed = inv.backed;
      four_eyes = inv.four_eyes;
      issued = inv.issued;
      authorised = λ e m done. elim (mem-append_last executions new m) [
        | inl old ↦ inv.authorised e old done
        | inr same ↦ rw same (fits (rw (← same) done))
      ];
    }
