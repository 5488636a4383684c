-- ===== src/TradeBreaks/Transitions.antt =====
-- packages/contracts/models.py: the states of a break and the changes that are permitted.
pub mod Histories
use tradeops_sentinel.Base.{
  Bool, List, Option, [], any, false, nat_eq, none, some, true, ℕ, ◌&&◌, ◌∷◌,
}

pub data BreakLifecycleState : Type 0 where
  opened under_investigation resolution_proposed action_pending : BreakLifecycleState
  no_action_disposition_pending verifying resolved escalated : BreakLifecycleState

pub data BreakTransitionReason : Type 0 where
  detected begin_investigation propose_resolution : BreakTransitionReason
  action_authorisation_pending disposition_pending : BreakTransitionReason
  begin_verification resolution_verified escalate : BreakTransitionReason

-- The place of a state in `_BREAK_LIFECYCLE_STATES`.
abbrev pub state_index : BreakLifecycleState → ℕ
state_index opened = 0
state_index under_investigation = 1
state_index resolution_proposed = 2
state_index action_pending = 3
state_index no_action_disposition_pending = 4
state_index verifying = 5
state_index resolved = 6
state_index escalated = 7

abbrev pub reason_index : BreakTransitionReason → ℕ
reason_index detected = 0
reason_index begin_investigation = 1
reason_index propose_resolution = 2
reason_index action_authorisation_pending = 3
reason_index disposition_pending = 4
reason_index begin_verification = 5
reason_index resolution_verified = 6
reason_index escalate = 7

abbrev pub same_state : BreakLifecycleState → BreakLifecycleState → Bool
same_state s t = nat_eq (state_index s) (state_index t)

abbrev pub same_previous : Option BreakLifecycleState → Option BreakLifecycleState → Bool
same_previous none none = true
same_previous (some s) (some t) = same_state s t
same_previous _ _ = false

pub record Transition : Type 0 where
  pub from_state : Option BreakLifecycleState
  pub to_state : BreakLifecycleState
  pub reason_code : BreakTransitionReason

abbrev pub transition_of :
    Option BreakLifecycleState → BreakLifecycleState → BreakTransitionReason → Transition
transition_of previous state reason = record {
  from_state = previous;
  to_state = state;
  reason_code = reason;
}

abbrev pub same_transition : Transition → Transition → Bool
same_transition a b =
    same_previous a.from_state b.from_state
    && same_state a.to_state b.to_state
    && nat_eq (reason_index a.reason_code) (reason_index b.reason_code)

-- `_BREAK_TRANSITION_POLICY`
abbrev pub transition_policy : List Transition
transition_policy =
    transition_of none opened detected
    ∷ transition_of (some opened) under_investigation begin_investigation
    ∷ transition_of (some opened) escalated escalate
    ∷ transition_of (some under_investigation) resolution_proposed propose_resolution
    ∷ transition_of (some under_investigation) escalated escalate
    ∷ transition_of (some resolution_proposed) action_pending action_authorisation_pending
    ∷ transition_of (some resolution_proposed) no_action_disposition_pending disposition_pending
    ∷ transition_of (some resolution_proposed) escalated escalate
    ∷ transition_of (some action_pending) verifying begin_verification
    ∷ transition_of (some action_pending) escalated escalate
    ∷ transition_of (some no_action_disposition_pending) verifying begin_verification
    ∷ transition_of (some no_action_disposition_pending) escalated escalate
    ∷ transition_of (some verifying) resolved resolution_verified
    ∷ transition_of (some verifying) escalated escalate
    ∷ []

-- `transition in _BREAK_TRANSITION_POLICY`
unfoldable pub permitted :
    Option BreakLifecycleState → BreakLifecycleState → BreakTransitionReason → Bool
permitted previous state reason =
    any (same_transition (transition_of previous state reason)) transition_policy
