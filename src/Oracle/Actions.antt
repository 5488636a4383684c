-- ===== src/Oracle/Actions.antt =====
-- packages/oracle/evaluator.py: the facts for the verification of an action.
use tradeops_sentinel.Base.{
  Bool, List, Option, String, [], any, false, if◌then◌else◌, map, none, not, some, ◌&&◌, ◌++◌, ◌==◌,
  ◌∷◌,
}
use tradeops_sentinel.Oracle.Facts.{OracleFact}
use tradeops_sentinel.Reconciliation.Breaks.{post_action_verification_failure}
use tradeops_sentinel.Reconciliation.PostAction.{
  BookingObservation, ChangedField, PostActionField, PostActionVerification, book_id_field,
  booking_value, post_action_fields, post_action_path,
}

-- A member of `changed`.
pub record OracleChange : Type 0 where
  pub changed_path : String
  pub expected_value : String
  pub observed_value : String
  pub source_ids : List String

abbrev pub listed_change : BookingObservation → ChangedField → OracleChange
listed_change pre c = record {
  changed_path = post_action_path c.changed_path;
  expected_value = c.expected_value;
  observed_value = c.observed_value;
  source_ids = pre.observation.observation_id ∷ [];
}

abbrev pub observed_change :
    BookingObservation → BookingObservation → PostActionField → OracleChange
observed_change pre post f = record {
  changed_path = post_action_path f;
  expected_value = booking_value f pre;
  observed_value = booking_value f post;
  source_ids = pre.observation.observation_id ∷ post.observation.observation_id ∷ [];
}

-- One round of the loop over `_POST_ACTION_FIELDS`.
abbrev pub observe_change :
    BookingObservation
    → BookingObservation
    → PostActionField
    → List OracleChange
    → List OracleChange
observe_change pre post f changed =
    if not (booking_value f pre == booking_value f post)
      && not (any (λ (c : OracleChange). c.changed_path == post_action_path f) changed)
    then changed ++ observed_change pre post f ∷ []
    else changed

unfoldable pub observe_changes :
    BookingObservation
    → BookingObservation
    → List PostActionField
    → List OracleChange
    → List OracleChange
observe_changes pre post [] changed = changed
observe_changes pre post (f ∷ fs) changed =
    observe_changes pre post fs (observe_change pre post f changed)

abbrev pub changes_observed :
    BookingObservation → Option BookingObservation → List OracleChange → List OracleChange
changes_observed pre none changed = changed
changes_observed pre (some post) changed = observe_changes pre post post_action_fields changed

abbrev pub unread : BookingObservation → OracleChange
unread pre = record {
  changed_path = "/payload/book_id";
  expected_value = booking_value book_id_field pre;
  observed_value = "readback_unavailable";
  source_ids = pre.observation.observation_id ∷ [];
}

-- `if not readback_available and not changed`
abbrev pub without_readback : Bool → BookingObservation → List OracleChange → List OracleChange
without_readback false pre [] = unread pre ∷ []
without_readback _ pre changed = changed

-- What is left to report, when there is no change but the break remains.
abbrev pub with_remaining : Bool → Bool → BookingObservation → List OracleChange → List OracleChange
with_remaining readback_available original_break_remaining pre (c ∷ cs) = c ∷ cs
with_remaining readback_available original_break_remaining pre [] =
    if not original_break_remaining && readback_available then [] else unread pre ∷ []

abbrev pub fact_of_change : OracleChange → OracleFact
fact_of_change c = record {
  family = post_action_verification_failure;
  field_path = c.changed_path;
  expected_value = c.expected_value;
  observed_value = c.observed_value;
  source_observation_ids = c.source_ids;
}

-- `_post_action_facts`
unfoldable pub post_action_facts : Option PostActionVerification → List OracleFact
unfolding observe_changes
post_action_facts none = []
post_action_facts (some v) =
    let listed = map (listed_change v.pre_action) v.changed_fields in
    let observed = changes_observed v.pre_action v.post_action listed in
    map fact_of_change (
      with_remaining v.readback_available v.original_break_remaining v.pre_action
        (without_readback v.readback_available v.pre_action observed))
