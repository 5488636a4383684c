-- ===== src/Remediation/Policy.antt =====
-- packages/remediation/policy.py: the deterministic policy engine.
pub mod Laws
pub mod Deterministic
use tradeops_sentinel.Base.{
  Bool, List, Option, String, [], any, if◌then◌else◌, ltb, none, not, some, ℕ, ◌*◌, ◌==◌, ◌^◌, ◌||◌,
  ◌∷◌,
}
use tradeops_sentinel.Remediation.Models.{
  AiRecommendation, BreakFacts, Citation, PolicyDecision, allowed_proposed_fields, checker,
  contains, eligible_for_approval, maker, manual_investigation, prohibited_actions, rejected,
}
use tradeops_sentinel.Remediation.Retrieval.{RunbookSection, citation_key, citation_supports_action}

-- The float 0.7 is 6305039478318694 * 2^-53; confidences are multiples of 2^-1074.
unfoldable pub confidence_threshold : ℕ
confidence_threshold = 6305039478318694 * 2 ^ 1021

abbrev pub supported_actions : List String
supported_actions = "CORRECT_LEGACY_BOOKING_FIELD" ∷ []

-- `_reject` and `_manual_investigation`
pub reject_with : String → PolicyDecision
reject_with reason = record {
  outcome = rejected;
  reasons = reason ∷ [];
  required_approvals = [];
  approved_field_path = none;
  approved_value = none;
}

pub investigate : String → PolicyDecision
investigate reason = record {
  outcome = manual_investigation;
  reasons = reason ∷ [];
  required_approvals = [];
  approved_field_path = none;
  approved_value = none;
}

-- `recommendation.abstain_reason or "ai_abstained"`
abbrev reason_or_default : Option String → String
reason_or_default none = "ai_abstained"
reason_or_default (some reason) = if reason == "" then "ai_abstained" else reason

-- The checks of the proposed fields, and the decision in favour.
pub decide_field : BreakFacts → String → String → PolicyDecision
unfolding reject_with
decide_field facts field_path proposed_value =
    if not (contains field_path allowed_proposed_fields)
    then reject_with "field_outside_allow_list"
    else if not (field_path == facts.field_path)
    then reject_with "field_does_not_match_break"
    else if not (proposed_value == facts.expected_value)
    then reject_with "proposed_value_does_not_match_authoritative_source"
    else record {
      outcome = eligible_for_approval;
      reasons = "economic_field_correction_eligible" ∷ [];
      required_approvals = maker ∷ checker ∷ [];
      approved_field_path = some field_path;
      approved_value = some proposed_value;
    }

pub decide_fields : BreakFacts → List (String × String) → PolicyDecision
unfolding decide_field reject_with
decide_fields facts ((field_path, proposed_value) ∷ []) =
    decide_field facts field_path proposed_value
decide_fields facts _ = reject_with "proposed_fields_must_be_exactly_one"

module _ (index : List RunbookSection) where
  unfoldable pub supports : String → Citation → Bool
  supports action c = citation_supports_action index (citation_key c) action

  pub decide_citations : AiRecommendation → BreakFacts → String → List Citation → PolicyDecision
  unfolding decide_fields supports reject_with
  decide_citations r facts action [] = reject_with "missing_citation"
  decide_citations r facts action (c ∷ cs) =
      if not (any (supports action) (c ∷ cs))
      then reject_with "citation_does_not_support_action"
      else decide_fields facts r.proposed_fields

  pub decide_action : AiRecommendation → BreakFacts → Option String → PolicyDecision
  unfolding decide_citations investigate reject_with
  decide_action r facts none = investigate (reason_or_default r.abstain_reason)
  decide_action r facts (some action) =
      if contains action prohibited_actions || not (contains action supported_actions)
      then reject_with "action_outside_allow_list"
      else decide_citations r facts action r.citations

  unfoldable pub evaluate : AiRecommendation → BreakFacts → PolicyDecision
  unfolding decide_action investigate
  evaluate r facts =
      if ltb r.confidence confidence_threshold
      then investigate "confidence_below_threshold"
      else decide_action r facts r.recommended_action
