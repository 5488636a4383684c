-- ===== src/Reconciliation/PostAction.antt =====
-- packages/reconciliation/models.py and engine.py: the verification of an action that was taken,
-- and the break that is raised when it failed.
pub mod Verified
use tradeops_sentinel.Base.{
  Bool, List, Option, String, [], any, if◌then◌else◌, map, none, not, some, true, ◌&&◌, ◌++◌, ◌==◌,
  ◌||◌, ◌∷◌,
}
use tradeops_sentinel.Contracts.{Observation, kind_name}
use tradeops_sentinel.Reconciliation.Breaks.{
  Break, FieldComparison, break_of, post_action_verification_failure,
}
use tradeops_sentinel.Reconciliation.Fields.{field_path}

-- `PostActionFieldPath`
pub data PostActionField : Type 0 where
  book_id_field lifecycle_status_field booking_version_field record_fingerprint_field :
      PostActionField

abbrev pub post_action_path : PostActionField → String
post_action_path book_id_field = "/payload/book_id"
post_action_path lifecycle_status_field = "/payload/lifecycle_status"
post_action_path booking_version_field = "/payload/booking_version"
post_action_path record_fingerprint_field = "/payload/record_fingerprint"

-- A booking observation, with two of the fields that only bookings have.
pub record BookingObservation : Type 0 where
  pub observation : Observation
  pub booking_version : String
  pub record_fingerprint : String

-- `_field_value`
abbrev pub booking_value : PostActionField → BookingObservation → String
booking_value book_id_field b = b.observation.payload.book_id
booking_value lifecycle_status_field b = b.observation.payload.lifecycle_status
booking_value booking_version_field b = b.booking_version
booking_value record_fingerprint_field b = b.record_fingerprint

pub record ChangedField : Type 0 where
  pub changed_path : PostActionField
  pub expected_value : String
  pub observed_value : String

pub record PostActionVerification : Type 0 where
  pub pre_action : BookingObservation
  pub post_action : Option BookingObservation
  pub changed_fields : List ChangedField
  pub readback_available : Bool
  pub original_break_remaining : Bool

abbrev pub same_path : PostActionField → PostActionField → Bool
same_path f g = post_action_path f == post_action_path g

abbrev pub same_change : ChangedField → ChangedField → Bool
same_change a b =
    same_path a.changed_path b.changed_path
    && (a.expected_value == b.expected_value)
    && (a.observed_value == b.observed_value)

pub changes_unique : List ChangedField → Bool
changes_unique [] = true
changes_unique (c ∷ cs) = not (any (same_change c) cs) && changes_unique cs

-- The two reads are of the same trade, in the same scope.
abbrev pub same_scoped_trade : Observation → Observation → Bool
same_scoped_trade a b =
    (a.tenant_id == b.tenant_id)
    && (a.portfolio_id == b.portfolio_id)
    && (a.correlation_id == b.correlation_id)
    && (a.source_business_key == b.source_business_key)

abbrev pub is_booking : BookingObservation → Bool
is_booking b = kind_name b.observation.observation_kind == "BOOKING"

abbrev pub reads_valid : BookingObservation → Option BookingObservation → Bool → Bool
reads_valid pre none readback_available = not readback_available
reads_valid pre (some post) readback_available =
    is_booking post && same_scoped_trade pre.observation post.observation

-- `validate_action_observations`: true if it raises nothing.
unfoldable pub validate_action_observations : PostActionVerification → Bool
unfolding changes_unique
validate_action_observations v =
    is_booking v.pre_action
    && reads_valid v.pre_action v.post_action v.readback_available
    && changes_unique v.changed_fields

abbrev pub post_action_fields : List PostActionField
post_action_fields =
    book_id_field ∷ lifecycle_status_field ∷ booking_version_field ∷ record_fingerprint_field ∷ []

-- One round of the loop over fields: a difference of the two reads that is not listed yet.
abbrev pub note_change :
    BookingObservation
    → BookingObservation
    → PostActionField
    → List ChangedField
    → List ChangedField
note_change pre post f changed =
    if not (booking_value f pre == booking_value f post)
      && not (any (λ (c : ChangedField). same_path c.changed_path f) changed)
    then changed
      ++ record {
        changed_path = f;
        expected_value = booking_value f pre;
        observed_value = booking_value f post;
      }
        ∷ []
    else changed

pub note_changes :
    BookingObservation
    → BookingObservation
    → List PostActionField
    → List ChangedField
    → List ChangedField
note_changes pre post [] changed = changed
note_changes pre post (f ∷ fs) changed = note_changes pre post fs (note_change pre post f changed)

abbrev pub changes_read :
    BookingObservation → Option BookingObservation → List ChangedField → List ChangedField
changes_read pre none changed = changed
changes_read pre (some post) changed = note_changes pre post post_action_fields changed

abbrev pub unavailable : BookingObservation → ChangedField
unavailable pre = record {
  changed_path = book_id_field;
  expected_value = booking_value book_id_field pre;
  observed_value = "readback_unavailable";
}

-- What is reported for the changes that were found, if anything.
abbrev pub changes_to_report : PostActionVerification → List ChangedField → List ChangedField
changes_to_report v [] =
    if not v.readback_available || v.original_break_remaining
    then unavailable v.pre_action ∷ []
    else []
changes_to_report v (c ∷ cs) = c ∷ cs

abbrev pub read_after : BookingObservation → Option BookingObservation → BookingObservation
read_after pre none = pre
read_after pre (some post) = post

abbrev pub change_comparison : PostActionVerification → ChangedField → FieldComparison
change_comparison v c = record {
  field_path = post_action_path c.changed_path;
  expected_value = c.expected_value;
  observed_value = c.observed_value;
  expected_source_observation_id = some v.pre_action.observation.observation_id;
  observed_source_observation_id =
      some (read_after v.pre_action v.post_action).observation.observation_id;
}

-- `BreakComparison` refuses equal values, and `TradeBreak` two comparisons of one path.
pub comparisons_accepted : List FieldComparison → Bool
comparisons_accepted [] = true
comparisons_accepted (c ∷ cs) =
    not (c.expected_value == c.observed_value)
    && not (any (λ (d : FieldComparison). d.field_path == c.field_path) cs)
    && comparisons_accepted cs

abbrev pub accepted_only : List FieldComparison → Option (List FieldComparison)
accepted_only cs = if comparisons_accepted cs then some cs else none

-- `_post_action_break`, with none if a contract refuses the break.
unfoldable pub post_action_break : Option PostActionVerification → Option (List Break)
unfolding comparisons_accepted note_changes
post_action_break none = some []
post_action_break (some v) = break_of post_action_verification_failure (
    accepted_only (
      map (change_comparison v)
        (changes_to_report v (changes_read v.pre_action v.post_action v.changed_fields))))
