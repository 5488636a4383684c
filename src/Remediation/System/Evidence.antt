-- ===== src/Remediation/System/Evidence.antt =====
-- The invariant of the remediation tables, the envelope of a case and its evidence.
use Prim.Native.String
use tradeops_sentinel.Base.{
  Bool-cases, Option, String, [], any, any_of_find-none, find, inl, inr, none, refl, some, ◌++◌,
  ◌==◌, ◌∷◌, ◌≡◌,
}
use tradeops_sentinel.Remediation.Api.{Services}
use tradeops_sentinel.Remediation.Evidence.{
  CaseView, case_view, document_of, finalize_evidence, freeze,
}
use tradeops_sentinel.Remediation.Exec.{gets, ◌>>=◌}
use tradeops_sentinel.Remediation.Result.{Result, err, ok}
use tradeops_sentinel.Remediation.Store.{
  get_envelope, get_evidence, insert_envelope, insert_envelope_if_absent, insert_evidence,
  insert_evidence_if_absent, is_case, is_envelope, is_evidence, some_or_assert,
}
use tradeops_sentinel.Remediation.System.Cases.{InvDb, bind-InvDb}
use tradeops_sentinel.Remediation.System.Invariant.{Inv-envelope, IsIssued}
use tradeops_sentinel.Remediation.Tables.{Db, EnvelopeRow, EvidenceRow, Reconciliation}

module _ (v : Services) where
  insert_evidence-InvDb :
      (row : EvidenceRow) (db : Db) → InvDb v db → InvDb v (insert_evidence row db).1
  unfolding insert_evidence
  insert_evidence-InvDb row db inv = elim (Bool-cases (any (is_evidence row.case_id) db.evidence)) [
    | inl frozen ↦ rw frozen inv
    | inr absent ↦ elim (Bool-cases (any (λ r. r.evidence_id == row.evidence_id) db.evidence)) [
      | inl taken ↦ rw (absent, taken) inv
      | inr free ↦ elim (Bool-cases (any (is_case row.case_id) db.cases)) [
        | inl known ↦ rw (absent, free, known) inv
        | inr unknown ↦ rw (absent, free, unknown) inv
      ]
    ]
  ]

  some_or_assert-InvDb :
      {A : Type 0} (o : Option A) (db : Db) → InvDb v db → InvDb v (some_or_assert o db).1
  some_or_assert-InvDb none db inv = inv
  some_or_assert-InvDb (some a) db inv = inv

  freeze-InvDb :
      (id : String) (post : Option Reconciliation) (o : Option CaseView) (db : Db)
      → InvDb v db
      → InvDb v (freeze v.evidence_digest id post o db).1
  unfolding freeze insert_evidence_if_absent
  freeze-InvDb id post none db inv = inv
  freeze-InvDb id post (some view) db inv =
      let row : EvidenceRow = record {
        evidence_id = String.◌++◌ "evidence_" id;
        case_id = id;
        evidence_document = document_of view post;
        content_hash = v.evidence_digest (document_of view post);
      } in
      let inserted = insert_evidence-InvDb row db inv in
      bind-InvDb v (insert_evidence row) (λ _. gets (get_evidence id) >>= some_or_assert) db
        inserted
        (λ _ _.
          some_or_assert-InvDb (get_evidence id (insert_evidence row db).1)
            (insert_evidence row db).1 inserted)

  pub finalize_evidence-InvDb :
      (id : String) (post : Option Reconciliation) (db : Db)
      → InvDb v db
      → InvDb v (finalize_evidence v.evidence_digest id post db).1
  unfolding finalize_evidence
  finalize_evidence-InvDb id post db inv = freeze-InvDb id post (case_view id db) db inv

  -- The envelope that a call goes on with is the one in the table.
  abbrev pub IsEnvelopeOf : String → Result EnvelopeRow × Db → Type 0
  IsEnvelopeOf id (ok row, db) = find (is_envelope id) db.envelopes ≡ some row
  IsEnvelopeOf id (err _, db) = Unit

  some_or_assert-IsEnvelopeOf :
      (id : String) (db : Db)
      → IsEnvelopeOf id (some_or_assert (find (is_envelope id) db.envelopes) db)
  some_or_assert-IsEnvelopeOf id db = go (find (is_envelope id) db.envelopes) refl
    where
      go :
          (o : Option EnvelopeRow)
          → find (is_envelope id) db.envelopes ≡ o
          → IsEnvelopeOf id (some_or_assert o db)
      go none h = tt
      go (some row) h = h

  pub insert_envelope-InvDb :
      (row : EnvelopeRow) (db : Db)
      → find (is_envelope row.case_id) db.envelopes ≡ none
      → IsIssued v db.cases db.approvals row.case_id row
      → InvDb v db
      → InvDb v (insert_envelope_if_absent row db).1
        × IsEnvelopeOf row.case_id (insert_envelope_if_absent row db)
  unfolding insert_envelope_if_absent insert_envelope get_envelope
  insert_envelope-InvDb row db none_yet issued inv =
      let absent = any_of_find-none (is_envelope row.case_id) db.envelopes none_yet in
      elim (Bool-cases (any (λ r. r.idempotency_key == row.idempotency_key) db.envelopes)) [
        | inl taken ↦ rw (absent, taken) (inv, tt)
        | inr free ↦ elim (Bool-cases (any (is_case row.case_id) db.cases)) [
          | inr unknown ↦ rw (absent, free, unknown) (inv, tt)
          | inl known ↦
              rw (absent, free, known)
                (let db' = record db { envelopes = db.envelopes ++ row ∷ [] } in
                  (
                    some_or_assert-InvDb (find (is_envelope row.case_id) db'.envelopes) db'
                        (Inv-envelope v inv row none_yet issued),
                    some_or_assert-IsEnvelopeOf row.case_id db',
                  ))
        ]
      ]
