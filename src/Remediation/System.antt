-- ===== src/Remediation/System.antt =====
-- The remediation slice as a state machine: any calls of its endpoints, from an empty database.
mod Invariant
mod Cases
mod Approvals
mod Evidence
mod Executions
pub mod Safety
use tradeops_sentinel.Base.{Option, String, ℕ}
use tradeops_sentinel.Remediation.Api.{Services, create_case, remediation_execute, submit_approval}
use tradeops_sentinel.Remediation.Models.{ApprovalRole}
use tradeops_sentinel.Remediation.Tables.{Db, empty}
use tradeops_sentinel.Remediation.Triage.{BreakRow, CanonicalDocument}

-- One call of an endpoint that may change the database, at any time and with any arguments.
pub data Step (v : Services) : Db → Db → Type 0 where
  created :
      (db : Db) (tenant_id case_id : String) (row : Option BreakRow)
      (documents : String → Option CanonicalDocument)
      → Step v db (create_case v tenant_id case_id row documents db).1
  approved :
      (db : Db) (id : String) (role : ApprovalRole) (identity : String)
      → Step v db (submit_approval v id role identity db).1
  executed : (db : Db) (now : ℕ) (id : String) → Step v db (remediation_execute v now id db).1

pub data Reach (v : Services) : Db → Type 0 where
  start : Reach v empty
  next : {db db' : Db} → Reach v db → Step v db db' → Reach v db'
