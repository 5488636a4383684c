-- ===== src/Reconciliation/Sources.antt =====
-- packages/reconciliation/engine.py: the breaks for required sources that did not arrive.
pub mod Reported
use tradeops_sentinel.Base.{
  Bool, List, Option, String, [], any, if◌then◌else◌, ltb, none, some, ℕ, ◌*◌, ◌++◌, ◌+◌, ◌∷◌,
}
use tradeops_sentinel.Contracts.{
  Observation, ObservationKind, SourceSystem, booking, confirmation, execution,
}
use tradeops_sentinel.Reconciliation.Config.{
  ArrivalWindowRule, MissingSourceKind, ProductType, ReconciliationConfig, arrival_rule,
  booking_source, confirmation_source, execution_source, same_kind,
}

pub data BreakSeverity : Type 0 where
  critical high medium : BreakSeverity

pub data DeadlineStatus : Type 0 where
  overdue due no_configured_deadline : DeadlineStatus

-- What `_break` is given and computes for a missing source; times are microseconds.
pub record MissingSourceBreak : Type 0 where
  pub expected_observation_kind : MissingSourceKind
  pub expected_source_system : SourceSystem
  pub field_path : String
  pub watermark_at : ℕ
  pub expected_by : ℕ
  pub severity : BreakSeverity
  pub deadline_status : DeadlineStatus
  pub detected_at : ℕ

abbrev pub missing_severity : MissingSourceKind → BreakSeverity
missing_severity execution_source = high
missing_severity confirmation_source = medium
missing_severity booking_source = high

abbrev pub observation_of : MissingSourceKind → ObservationKind
observation_of execution_source = execution
observation_of confirmation_source = confirmation
observation_of booking_source = booking

-- `kind in available_kinds`
abbrev pub is_available : MissingSourceKind → List Observation → Bool
is_available k = any (λ o. same_kind o.observation_kind (observation_of k))

abbrev pub deadline : ℕ → ArrivalWindowRule → ℕ
deadline watermark rule = watermark + rule.window_seconds * 1000000

abbrev pub missing_break : MissingSourceKind → ArrivalWindowRule → ℕ → ℕ → MissingSourceBreak
missing_break k rule watermark evaluated_at = record {
  expected_observation_kind = k;
  expected_source_system = rule.source_system;
  field_path = rule.field_path;
  watermark_at = watermark;
  expected_by = deadline watermark rule;
  severity = missing_severity k;
  deadline_status = if ltb (deadline watermark rule) evaluated_at then overdue else due;
  detected_at = evaluated_at;
}

-- None for a `KeyError`, and for the `OverflowError` of a deadline past the `latest` time that a
-- `datetime` in the zone of the watermark can be.
abbrev pub when_late :
    MissingSourceKind → ℕ → ℕ → ℕ → Option ArrivalWindowRule → Option (List MissingSourceBreak)
when_late k watermark latest evaluated_at none = none
when_late k watermark latest evaluated_at (some rule) =
    if ltb latest (deadline watermark rule)
    then none
    else if ltb evaluated_at (deadline watermark rule)
    then some []
    else some (missing_break k rule watermark evaluated_at ∷ [])

-- The body of the loop of `_missing_source_breaks`, with none if it raises.
unfoldable pub missing_source :
    ReconciliationConfig
    → ProductType
    → ℕ
    → ℕ
    → ℕ
    → List Observation
    → MissingSourceKind
    → Option (List MissingSourceBreak)
missing_source c p watermark latest evaluated_at observations k =
    if is_available k observations
    then some []
    else when_late k watermark latest evaluated_at (arrival_rule c p k)

-- The breaks of one kind, then those of the next ones, unless one raised.
abbrev pub then_breaks :
    Option (List MissingSourceBreak)
    → Option (List MissingSourceBreak)
    → Option (List MissingSourceBreak)
then_breaks (some breaks) (some rest) = some (breaks ++ rest)
then_breaks _ _ = none

-- The loop of `_missing_source_breaks` over source kinds.
pub missing_sources :
    ReconciliationConfig
    → ProductType
    → ℕ
    → ℕ
    → ℕ
    → List Observation
    → List MissingSourceKind
    → Option (List MissingSourceBreak)
unfolding missing_source
missing_sources c p watermark latest evaluated_at observations [] = some []
missing_sources c p watermark latest evaluated_at observations (k ∷ ks) =
    then_breaks (missing_source c p watermark latest evaluated_at observations k)
      (missing_sources c p watermark latest evaluated_at observations ks)

-- `_missing_source_breaks`, for the watermark, the latest time of its zone and the time of evaluation.
unfoldable pub missing_source_breaks :
    ReconciliationConfig
    → ProductType
    → ℕ
    → ℕ
    → ℕ
    → List Observation
    → Option (List MissingSourceBreak)
unfolding missing_sources
missing_source_breaks c p watermark latest evaluated_at observations =
    missing_sources c p watermark latest evaluated_at observations
      (execution_source ∷ confirmation_source ∷ booking_source ∷ [])
