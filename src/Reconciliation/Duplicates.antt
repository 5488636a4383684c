-- ===== src/Reconciliation/Duplicates.antt =====
-- packages/reconciliation/engine.py: the order of observations, and the breaks for versions of a
-- source whose contents differ.
pub mod Conflicts
pub mod Members
use tradeops_sentinel.Base.{
  Bool, List, Option, [], any, collect, false, filter, if◌then◌else◌, none, not, some, sorted,
  text_le, then_number, then_text, ℕ, ◌&&◌, ◌==◌, ◌∷◌,
}
use tradeops_sentinel.Contracts.{
  Observation, ObservationKind, booking, confirmation, execution, kind_name, trade_capture,
}
use tradeops_sentinel.Reconciliation.Breaks.{Break, duplicate_source_conflict}
use tradeops_sentinel.Reconciliation.Fields.{field_path}

-- `_OBSERVATION_RANK`
abbrev pub observation_rank : ObservationKind → ℕ
observation_rank execution = 1
observation_rank trade_capture = 2
observation_rank confirmation = 3
observation_rank booking = 4

-- The key of `_ordered_observations`, compared part after part.
abbrev pub observation_le : Observation → Observation → Bool
observation_le a b =
    then_number (observation_rank a.observation_kind) (observation_rank b.observation_kind) (
      then_number a.source_sequence b.source_sequence (
        then_text a.observation_id b.observation_id
          (then_text a.source_version b.source_version (text_le a.content_hash b.content_hash))))

-- `_ordered_observations`
unfoldable pub ordered_observations : List Observation → List Observation
ordered_observations = sorted observation_le

-- The key of a group: the kind, the business key and the version of the source.
abbrev pub same_key : Observation → Observation → Bool
same_key a b =
    (kind_name a.observation_kind == kind_name b.observation_kind)
    && (a.source_business_key == b.source_business_key)
    && (a.source_version == b.source_version)

abbrev pub key_le : Observation → Observation → Bool
key_le a b = then_text (kind_name a.observation_kind) (kind_name b.observation_kind) (
    then_text a.source_business_key b.source_business_key
      (text_le a.source_version b.source_version))

-- The first observation of each key.
unfoldable pub first_of_each : List Observation → List Observation
first_of_each [] = []
first_of_each (o ∷ os) = o ∷ filter (λ p. not (same_key o p)) (first_of_each os)

abbrev pub group_of : List Observation → Observation → List Observation
group_of observations o = filter (same_key o) observations

-- `len(hashes) < 2` does not hold.
abbrev pub has_conflict : List Observation → Bool
has_conflict [] = false
has_conflict (o ∷ os) = any (λ (p : Observation). not (p.content_hash == o.content_hash)) os

-- The comparison of the first two of the ordered group, which `BreakComparison` refuses if their
-- hashes are equal. A group with a conflict has two.
abbrev pub conflict_break : List Observation → Option (List Break)
conflict_break (expected ∷ observed ∷ rest) =
    if expected.content_hash == observed.content_hash
    then none
    else some (
        record {
          family = duplicate_source_conflict;
          comparisons =
              record {
                field_path = "/source/content_hash";
                expected_value = expected.content_hash;
                observed_value = observed.content_hash;
                expected_source_observation_id = some expected.observation_id;
                observed_source_observation_id = some observed.observation_id;
              }
              ∷ [];
        }
        ∷ [])
conflict_break _ = none

-- The body of the loop over groups.
unfoldable pub group_break : List Observation → Option (List Break)
unfolding ordered_observations
group_break group =
    if has_conflict group then conflict_break (ordered_observations group) else some []

-- `_duplicate_breaks`
unfoldable pub duplicate_breaks : List Observation → Option (List Break)
unfolding first_of_each group_break
duplicate_breaks observations =
    collect (λ o. group_break (group_of observations o))
      (sorted key_le (first_of_each observations))
