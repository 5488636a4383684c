-- ===== src/Remediation/Models.antt =====
-- packages/remediation/models.py: the typed documents of the remediation slice.
use tradeops_sentinel.Base.{
  Bool, List, Option, String, [], any, false, if◌then◌else◌, is_none, none, not, some, true, ℕ,
  ◌&&◌, ◌==◌, ◌∷◌,
}

pub data RiskTier : Type 0 where
  low medium high : RiskTier

pub data Priority : Type 0 where
  low medium high critical : Priority

pub data ApprovalRole : Type 0 where
  maker checker : ApprovalRole

pub data ApprovalDecision : Type 0 where
  approve reject : ApprovalDecision

abbrev pub same_role : ApprovalRole → ApprovalRole → Bool
same_role maker maker = true
same_role checker checker = true
same_role _ _ = false

abbrev pub is_approve : ApprovalDecision → Bool
is_approve approve = true
is_approve reject = false

-- `ALLOWED_PROPOSED_FIELDS` and `PROHIBITED_ACTIONS`, with Python's `in`.
abbrev pub allowed_proposed_fields : List String
allowed_proposed_fields = "/payload/base_amount" ∷ []

abbrev pub prohibited_actions : List String
prohibited_actions =
    "SUBMIT_ORDER" ∷ "CANCEL_ORDER" ∷ "AMEND_ORDER" ∷ "PRICE_DECISION" ∷ "TRADING_ACTION" ∷ []

abbrev pub contains : String → List String → Bool
contains s = any (λ t. t == s)

pub record BreakFacts : Type 0 where
  pub break_id : String
  pub break_family : String
  pub condition_code : String
  pub product_type : String
  pub trade_id : String
  pub field_path : String
  pub expected_value : String
  pub observed_value : String
  pub expected_source_system : String
  pub observed_source_system : String
  pub trade_value_amount : String
  pub trade_value_currency : String

pub record Citation : Type 0 where
  pub document_id : String
  pub section : String

-- `confidence` is a float in [0, 1], as its exact multiple of 2^-1074. The action is kept as a text,
-- as the policy engine tests it, and `proposed_fields` is the dict in insertion order.
pub record AiRecommendation : Type 0 where
  pub predicted_root_cause : String
  pub confidence : ℕ
  pub priority : Priority
  pub recommended_action : Option String
  pub proposed_fields : List (String × String)
  pub risk_tier : RiskTier
  pub required_approvals : List ApprovalRole
  pub citations : List Citation
  pub abstain_reason : Option String

-- Python's truth value of an optional text: neither None nor "".
abbrev pub is_given : Option String → Bool
is_given none = false
is_given (some s) = not (s == "")

abbrev is_action : String → Option String → Bool
is_action name none = false
is_action name (some action) = action == name

abbrev no_fields : List (String × String) → Bool
no_fields [] = true
no_fields (_ ∷ _) = false

-- The validator `_action_and_abstain_are_mutually_exclusive`: true if it raises nothing.
unfoldable pub action_and_abstain_are_exclusive : AiRecommendation → Bool
action_and_abstain_are_exclusive r =
    if is_none r.recommended_action && not (is_given r.abstain_reason)
    then false
    else if not (is_none r.recommended_action) && is_given r.abstain_reason
    then false
    else not (
        is_action "CORRECT_LEGACY_BOOKING_FIELD" r.recommended_action
        && no_fields r.proposed_fields)

pub data PolicyOutcome : Type 0 where
  eligible_for_approval manual_investigation rejected : PolicyOutcome

pub record PolicyDecision : Type 0 where
  pub outcome : PolicyOutcome
  pub reasons : List String
  pub required_approvals : List ApprovalRole
  pub approved_field_path : Option String
  pub approved_value : Option String

pub record Approval : Type 0 where
  pub role : ApprovalRole
  pub approver_identity : String
  pub decision : ApprovalDecision
  pub approved_recommendation_hash : String

-- Times are microseconds since an epoch.
pub record ActionEnvelope : Type 0 where
  pub case_id : String
  pub trade_id : String
  pub tenant_id : String
  pub portfolio_id : String
  pub field_path : String
  pub approved_value : String
  pub expected_old_value : String
  pub maker_identity : String
  pub checker_identity : String
  pub issued_at : ℕ
  pub expires_at : ℕ
  pub idempotency_key : String
  pub content_hash : String
  pub signature : String

-- What an envelope's hash covers: every field but `content_hash` and `signature`.
pub record SignedFields : Type 0 where
  pub case_id : String
  pub trade_id : String
  pub tenant_id : String
  pub portfolio_id : String
  pub field_path : String
  pub approved_value : String
  pub expected_old_value : String
  pub maker_identity : String
  pub checker_identity : String
  pub issued_at : ℕ
  pub expires_at : ℕ
  pub idempotency_key : String

-- The arguments of `build_envelope` that become fields of the envelope.
pub record EnvelopeRequest : Type 0 where
  pub case_id : String
  pub trade_id : String
  pub tenant_id : String
  pub portfolio_id : String
  pub field_path : String
  pub approved_value : String
  pub expected_old_value : String
  pub maker_identity : String
  pub checker_identity : String
  pub idempotency_key : String

pub data ExecutionOutcome : Type 0 where
  success duplicate_noop timeout_recovered rejected_expired rejected_tampered : ExecutionOutcome
  rejected_approvals_missing rejected_same_identity rejected_value_mismatch : ExecutionOutcome
  rejected_field_not_allowed : ExecutionOutcome

-- The texts of `ExecutionResult.detail`, with the values that they show.
pub data Detail : Type 0 where
  content_mismatch signature_invalid : Detail
  expired_at : ℕ → Detail
  approvals_required identities_equal identities_not_on_envelope : Detail
  field_not_allowed : String → Detail
  corrected already_applied : Detail
  current_value_differs : Option String → String → Detail
  no_record : Detail

pub record ExecutionResult : Type 0 where
  pub outcome : ExecutionOutcome
  pub detail : Detail
  pub read_back_value : Option String
  pub applied : Bool
