-- ===== src/Remediation/Evidence.antt =====
-- packages/remediation/evidence.py: the view of a case, and the frozen snapshot.
use Prim.Native.String
use tradeops_sentinel.Base.{List, Option, String, none, some}
use tradeops_sentinel.Remediation.Exec.{Exec, gets, raise, ◌>>=◌}
use tradeops_sentinel.Remediation.Result.{unknown_case}
use tradeops_sentinel.Remediation.Store.{
  get_approvals, get_case, get_envelope, get_evidence, get_executions, insert_evidence_if_absent,
}
use tradeops_sentinel.Remediation.Tables.{
  ApprovalRow, CaseRow, Db, EnvelopeRow, EvidenceDocument, EvidenceRow, ExecutionRow,
  Reconciliation,
}

pub record CaseView : Type 0 where
  pub case : CaseRow
  pub approvals : List ApprovalRow
  pub envelope : Option EnvelopeRow
  pub executions : List ExecutionRow
  pub evidence_id : Option String
  pub evidence_content_hash : Option String
  pub post_action_reconciliation : Option Reconciliation

abbrev evidence_id_of : Option EvidenceRow → Option String
evidence_id_of none = none
evidence_id_of (some row) = some row.evidence_id

abbrev evidence_hash_of : Option EvidenceRow → Option String
evidence_hash_of none = none
evidence_hash_of (some row) = some row.content_hash

abbrev reconciliation_of : Option EvidenceRow → Option Reconciliation
reconciliation_of none = none
reconciliation_of (some row) = row.evidence_document.post_action_reconciliation

abbrev view_of : String → Db → Option CaseRow → Option CaseView
view_of id db none = none
view_of id db (some case) = some (record {
  case = case;
  approvals = get_approvals id db;
  envelope = get_envelope id db;
  executions = get_executions id db;
  evidence_id = evidence_id_of (get_evidence id db);
  evidence_content_hash = evidence_hash_of (get_evidence id db);
  post_action_reconciliation = reconciliation_of (get_evidence id db);
})

unfoldable pub case_view : String → Db → Option CaseView
case_view id db = view_of id db (get_case id db)

abbrev pub document_of : CaseView → Option Reconciliation → EvidenceDocument
document_of v post_action = record {
  case = v.case;
  approvals = v.approvals;
  envelope = v.envelope;
  executions = v.executions;
  post_action_reconciliation = post_action;
}

-- The SHA-256 of the canonical JSON of a document is the argument `digest`.
module _ (digest : EvidenceDocument → String) where
  unfoldable pub freeze : String → Option Reconciliation → Option CaseView → Exec EvidenceRow
  freeze id post_action none = raise unknown_case
  freeze id post_action (some v) = insert_evidence_if_absent (record {
    evidence_id = String.◌++◌ "evidence_" id;
    case_id = id;
    evidence_document = document_of v post_action;
    content_hash = digest (document_of v post_action);
  })

  unfoldable pub finalize_evidence : String → Option Reconciliation → Exec EvidenceRow
  unfolding freeze
  finalize_evidence id post_action = do view ← gets (case_view id); freeze id post_action view
