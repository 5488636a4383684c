-- ===== src/Remediation/Tables.antt =====
-- The tables of packages/persistence/ddl/0004_ai_remediation.sql, and what the store returns from
-- them. A table is the list of its rows, oldest first. The columns that the database fills with its
-- own clock are left out: nothing is decided by them.
use tradeops_sentinel.Base.{
  Bool, List, Option, String, [], arith, eq_iff, true, ℕ, ◌&&◌, ◌==◌, ◌↔◌, ◌≡◌,
}
use tradeops_sentinel.Remediation.Models.{
  AiRecommendation, ActionEnvelope, ApprovalDecision, ApprovalRole, BreakFacts, Detail,
  ExecutionOutcome, PolicyDecision,
}

-- The primary key of `legacy_booking_records`.
pub record TradeKey : Type 0 where
  pub tenant_id : String
  pub portfolio_id : String
  pub trade_id : String

unfoldable pub key_eq : TradeKey → TradeKey → Bool
key_eq a b =
    (a.tenant_id == b.tenant_id) && (a.portfolio_id == b.portfolio_id) && (a.trade_id == b.trade_id)

pub key_eq_iff : (a b : TradeKey) → (key_eq a b ≡ true) ↔ (a ≡ b)
unfolding key_eq
key_eq_iff a b = ground (
  arith,
  eq_iff a.tenant_id b.tenant_id,
  eq_iff a.portfolio_id b.portfolio_id,
  eq_iff a.trade_id b.trade_id,
)

pub record BookingRecord : Type 0 where
  pub key : TradeKey
  pub base_amount_value : String
  pub base_amount_currency : String
  pub base_amount_scale : ℕ
  pub source_observation_id : String
  pub booking_version : ℕ
  pub last_applied_idempotency_key : Option String

pub record CaseRow : Type 0 where
  pub case_id : String
  pub break_id : String
  pub run_id : String
  pub trade_id : String
  pub tenant_id : String
  pub portfolio_id : String
  pub product_type : String
  pub ai_provider : String
  pub break_facts : BreakFacts
  pub ai_recommendation : AiRecommendation
  pub policy_decision : PolicyDecision

pub record ApprovalRow : Type 0 where
  pub case_id : String
  pub role : ApprovalRole
  pub approver_identity : String
  pub decision : ApprovalDecision
  pub approved_recommendation_hash : String

pub record EnvelopeRow : Type 0 where
  pub case_id : String
  pub idempotency_key : String
  pub envelope_document : ActionEnvelope
  pub content_hash : String
  pub issued_at : ℕ
  pub expires_at : ℕ

pub record ExecutionRow : Type 0 where
  pub case_id : String
  pub idempotency_key : String
  pub outcome : ExecutionOutcome
  pub detail : Detail
  pub read_back_value : Option String
  pub applied : Bool

-- What a rerun of the reconciliation of one trade reports.
pub record Reconciliation : Type 0 where
  pub trade_id : String
  pub canonical_state_version : ℕ
  pub result : String
  pub break_families : List String
  pub content_hash : String

pub record EvidenceDocument : Type 0 where
  pub case : CaseRow
  pub approvals : List ApprovalRow
  pub envelope : Option EnvelopeRow
  pub executions : List ExecutionRow
  pub post_action_reconciliation : Option Reconciliation

pub record EvidenceRow : Type 0 where
  pub evidence_id : String
  pub case_id : String
  pub evidence_document : EvidenceDocument
  pub content_hash : String

pub record Db : Type 0 where
  pub bookings : List BookingRecord
  pub cases : List CaseRow
  pub approvals : List ApprovalRow
  pub envelopes : List EnvelopeRow
  pub executions : List ExecutionRow
  pub evidence : List EvidenceRow

abbrev pub empty : Db
empty = record {
  bookings = [];
  cases = [];
  approvals = [];
  envelopes = [];
  executions = [];
  evidence = [];
}
