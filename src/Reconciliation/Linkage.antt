-- ===== src/Reconciliation/Linkage.antt =====
-- packages/contracts/models.py and packages/reconciliation/engine.py: the decision that links an
-- observation to a trade, and the break that the engine raises for it.
pub mod Accepted
use tradeops_sentinel.Base.{
  Bool, List, Option, String, [], any, false, if◌then◌else◌, length, nat_eq, none, not, some, true,
  ℕ, ◌&&◌, ◌==◌, ◌||◌, ◌∷◌,
}

pub data LinkageDecisionValue : Type 0 where
  accepted rejected unmatched ambiguous cross_scope_rejected : LinkageDecisionValue

pub data ReasonCode : Type 0 where
  exact_deterministic_key no_eligible_candidate multiple_eligible_candidates : ReasonCode
  tenant_or_portfolio_scope_mismatch human_rejected : ReasonCode

pub record CandidateLink : Type 0 where
  pub trade_id : String
  pub tenant_id : String
  pub portfolio_id : String

pub record LinkageDecision : Type 0 where
  pub tenant_id : String
  pub portfolio_id : String
  pub correlation_id : String
  pub source_observation_id : String
  pub decision : LinkageDecisionValue
  pub candidate_links : List CandidateLink
  pub chosen_trade_id : Option String
  pub reason_code : ReasonCode

-- The decision whose `expected_reason` a code is.
abbrev pub reason_matches : LinkageDecisionValue → ReasonCode → Bool
reason_matches accepted exact_deterministic_key = true
reason_matches rejected human_rejected = true
reason_matches unmatched no_eligible_candidate = true
reason_matches ambiguous multiple_eligible_candidates = true
reason_matches cross_scope_rejected tenant_or_portfolio_scope_mismatch = true
reason_matches _ _ = false

-- The test of `candidate_scope_mismatches` and of `candidate_scope_invalid`.
abbrev pub out_of_scope : String → String → CandidateLink → Bool
out_of_scope tenant portfolio c = not (c.tenant_id == tenant && c.portfolio_id == portfolio)

abbrev pub no_trade : Option String → Bool
no_trade none = true
no_trade (some trade) = false

-- The checks of the candidates and the chosen trade, after those of scope.
abbrev pub shape_valid : LinkageDecisionValue → List CandidateLink → Option String → Bool
shape_valid accepted (c ∷ []) (some trade) = trade == c.trade_id
shape_valid accepted _ _ = false
shape_valid unmatched [] chosen = no_trade chosen
shape_valid unmatched (c ∷ cs) chosen = false
shape_valid ambiguous (c ∷ d ∷ cs) chosen = no_trade chosen
shape_valid ambiguous _ chosen = false
shape_valid rejected cs chosen = no_trade chosen
shape_valid cross_scope_rejected cs chosen = no_trade chosen

-- What the decision allows when there are, or are not, candidates out of its scope.
abbrev pub strays_valid : LinkageDecisionValue → Bool → Bool
strays_valid cross_scope_rejected strays = strays
strays_valid _ strays = not strays

abbrev pub scope_valid : LinkageDecision → Bool
scope_valid d =
    strays_valid d.decision (any (out_of_scope d.tenant_id d.portfolio_id) d.candidate_links)

-- `validate_decision_shape`: true if it raises nothing.
unfoldable pub validate_decision_shape : LinkageDecision → Bool
validate_decision_shape d =
    reason_matches d.decision d.reason_code
    && scope_valid d
    && shape_valid d.decision d.candidate_links d.chosen_trade_id

-- `decision.decision in {"REJECTED", ...}`
abbrev pub is_refusal : LinkageDecisionValue → Bool
is_refusal accepted = false
is_refusal _ = true

abbrev pub chose : String → Option String → Bool
chose trade none = false
chose trade (some chosen) = chosen == trade

-- `invalid` in `_linkage_break`, for the canonical trade and its scope.
unfoldable pub linkage_invalid : String → String → String → Option LinkageDecision → Bool
linkage_invalid trade tenant portfolio none = true
linkage_invalid trade tenant portfolio (some d) =
    any (out_of_scope tenant portfolio) d.candidate_links
    || is_refusal d.decision
    || not (chose trade d.chosen_trade_id)
    || not (nat_eq (length d.candidate_links) 1)

abbrev pub candidate_count : Option LinkageDecision → ℕ
candidate_count none = 0
candidate_count (some d) = length d.candidate_links

-- The numbers that the comparison of a linkage break prints.
pub record CountComparison : Type 0 where
  pub expected_value : ℕ
  pub observed_value : ℕ

-- `_linkage_break`, with none for no break.
unfoldable pub linkage_break :
    String → String → String → Option LinkageDecision → Option CountComparison
unfolding linkage_invalid
linkage_break trade tenant portfolio decision =
    let n = candidate_count decision in
    if linkage_invalid trade tenant portfolio decision
    then some record { expected_value = 1; observed_value = if nat_eq n 1 then 0 else n }
    else none
