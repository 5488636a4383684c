-- ===== src/Reconciliation/Tests.antt =====
-- The fixture configuration and the detectors of breaks on examples.
pub mod Detectors
use mathlib.Core.List.{Memᴰ}
use tradeops_sentinel.Base.{
  List, Option, String, [], any, ap, false, find, none, not, refl, some, sym, true, true_ne_false,
  ◌&&◌, ◌<◌, ◌==◌, ◌↔◌, ◌∙◌, ◌∷◌, ◌≡◌, ◌≢◌, ◌⊎◌,
}
use tradeops_sentinel.Contracts.{Observation, ObservationKind, confirmation, trade_capture}
use tradeops_sentinel.Persistence.Tests.{first_booking, payload_of, retransmitted}
use tradeops_sentinel.Reconciliation.Breaks.{Break, trade_or_value_date_mismatch}
use tradeops_sentinel.Reconciliation.Config.{
  ArrivalWindowRule, EconomicField, MissingSourceKind, ProductType, ReconciliationConfig,
  arrival_rule, confirmation_source, decimal_rule, execution_source, fixture_arrival,
  fixture_config, fx_spot, is_arrival, is_lifecycle, is_tolerance, lifecycle_rule,
  validate_complete_policy, validate_source_shape,
}
use tradeops_sentinel.Reconciliation.Config.Complete.{OneFound, validate_complete_policy-OneFound}
use tradeops_sentinel.Reconciliation.Fields.{
  ExactField, base_currency, currency_breaks, date_break, field_path, side, terms_currency,
  trade_date, value_date,
}
use tradeops_sentinel.Reconciliation.Fields.Agreement.{AgreeOn, IsTraced, field_breaks-Agreement}
use tradeops_sentinel.Reconciliation.Lifecycle.{
  Judged, as_expected, comparison_refused, is_other, judge, lifecycle_break, status,
}
use tradeops_sentinel.Reconciliation.Lifecycle.Refusal.{IsRefused, lifecycle_break-IsRefused}
use tradeops_sentinel.Reconciliation.Linkage.{
  CountComparison, LinkageDecision, accepted, exact_deterministic_key, linkage_break,
  validate_decision_shape,
}
use tradeops_sentinel.Reconciliation.Linkage.Accepted.{
  linkage_break-differs, linkage_break-none_iff,
}
use tradeops_sentinel.Reconciliation.Sources.{
  MissingSourceBreak, deadline, is_available, missing_break, missing_source_breaks,
}
use tradeops_sentinel.Reconciliation.Sources.Reported.{Reported, missing_source_breaks-Reported}

pub fixture_valid : validate_complete_policy (fixture_config 1000) ≡ true
unfolding validate_complete_policy fixture_config
fixture_valid = refl

fixture_shapes :
    any (λ r. not (validate_source_shape r)) (fixture_config 1000).arrival_windows ≡ false
unfolding fixture_config validate_source_shape
fixture_shapes = refl

abbrev pub fixture : ReconciliationConfig
fixture = fixture_config 1000

validate_complete_policy-OneFound_example :
    ((p : ProductType) (k : MissingSourceKind)
      → OneFound (is_arrival p k) fixture.arrival_windows (arrival_rule fixture p k))
    × ((p : ProductType) (f : EconomicField)
        → OneFound (is_tolerance p f) fixture.decimal_tolerances (decimal_rule fixture p f))
    × ((k : ObservationKind)
        → OneFound (is_lifecycle k) fixture.lifecycle_expected_statuses (lifecycle_rule fixture k))
validate_complete_policy-OneFound_example =
    validate_complete_policy-OneFound (fixture_config 1000) fixture_valid

abbrev link : LinkageDecision
link = record {
  tenant_id = "tenant_a";
  portfolio_id = "portfolio_a";
  correlation_id = "corr_1";
  source_observation_id = "obs_1";
  decision = accepted;
  candidate_links =
      record { trade_id = "trade_1"; tenant_id = "tenant_a"; portfolio_id = "portfolio_a" } ∷ [];
  chosen_trade_id = some "trade_1";
  reason_code = exact_deterministic_key;
}

pub link_valid : validate_decision_shape link ≡ true
unfolding validate_decision_shape
link_valid = refl

other_trade :
    linkage_break "trade_2" "tenant_a" "portfolio_a" (some link)
    ≡ some record { expected_value = 1; observed_value = 0 }
unfolding linkage_break
other_trade = refl

linkage_break-none_iff_example :
    (linkage_break "trade_1" "tenant_a" "portfolio_a" (some link) ≡ none)
    ↔ ((link.decision ≡ accepted) × (link.chosen_trade_id ≡ some "trade_1"))
linkage_break-none_iff_example = linkage_break-none_iff "trade_1" link link_valid

linkage_break-differs_example :
    ((decision : Option LinkageDecision) (c : CountComparison)
      → linkage_break "trade_2" "tenant_a" "portfolio_a" decision ≡ some c
      → c.expected_value ≢ c.observed_value)
    × (linkage_break "trade_2" "tenant_a" "portfolio_a" none ≢ none)
linkage_break-differs_example = linkage_break-differs "trade_2" "tenant_a" "portfolio_a"

-- Only a booking is there; at the watermark the windows of the other two sources are over.
two_missing :
    missing_source_breaks fixture fx_spot 2000 100000000000 2000 (first_booking ∷ [])
    ≡ some (
        missing_break execution_source (fixture_arrival (fx_spot, execution_source)) 2000 2000
        ∷ missing_break confirmation_source
            (fixture_arrival (fx_spot, confirmation_source))
            2000
            2000
        ∷ [])
unfolding missing_source_breaks fixture_config arrival_rule
two_missing = refl

missing_source_breaks-Reported_example :
    ((breaks : List MissingSourceBreak) × (missing_source_breaks fixture fx_spot 2000 100000000000
          2000
          (first_booking ∷ [])
        ≡ some breaks)
      × ((k : MissingSourceKind)
          → (rule : ArrivalWindowRule) × (arrival_rule fixture fx_spot k ≡ some rule)
            × Reported rule 2000 100000000000 2000 (first_booking ∷ []) k breaks))
    ⊎ ((k : MissingSourceKind) × (rule : ArrivalWindowRule) × (arrival_rule fixture fx_spot k
          ≡ some rule)
        × (is_available k (first_booking ∷ []) ≡ false)
        × (100000000000 < deadline 2000 rule)
        × (missing_source_breaks fixture fx_spot 2000 100000000000 2000 (first_booking ∷ [])
            ≡ none))
missing_source_breaks-Reported_example =
    missing_source_breaks-Reported (fixture_config 1000) fx_spot 2000 100000000000 2000
      (first_booking ∷ []) fixture_valid

abbrev provenance : ExactField → String
provenance f = "obs_1"

one_mismatch :
    date_break provenance (
      first_booking
      ∷ record first_booking {
        observation_id = "obs_2";
        payload = record (payload_of "100.00") { value_date = "2026-08-06" };
      }
      ∷ [])
    ≡ some (
        record {
          family = trade_or_value_date_mismatch;
          comparisons =
              record {
                field_path = "/payload/value_date";
                expected_value = "2026-08-05";
                observed_value = "2026-08-06";
                expected_source_observation_id = some "obs_1";
                observed_source_observation_id = some "obs_2";
              }
              ∷ [];
        }
        ∷ [])
unfolding date_break
one_mismatch = refl

ids_differ : ◌≢◌ {A = String} "obs_1" "obs_2"
ids_differ e = true_ne_false (ap (λ id. id == "obs_1") e)

pub two-IsTraced : IsTraced provenance (first_booking ∷ retransmitted ∷ [])
two-IsTraced = (
  λ f. (first_booking, Memᴰ.head refl, refl),
  λ a b ma mb e. elim ma [
    | Memᴰ.head at_a ↦ elim mb [
      | Memᴰ.head at_b ↦ at_a ∙ sym at_b
      | Memᴰ.tail n ↦ elim n [
        | Memᴰ.head at_b ↦
            let clash : "obs_1" ≡ "obs_2" =
              sym (ap (λ (o : Observation). o.observation_id) at_a)
              ∙ e
              ∙ ap (λ (o : Observation). o.observation_id) at_b in
            absurd (ids_differ clash)
        | Memᴰ.tail n' ↦ elim n' [ ]
      ]
    ]
    | Memᴰ.tail m ↦ elim m [
      | Memᴰ.head at_a ↦ elim mb [
        | Memᴰ.head at_b ↦
            let clash : "obs_2" ≡ "obs_1" =
              sym (ap (λ (o : Observation). o.observation_id) at_a)
              ∙ e
              ∙ ap (λ (o : Observation). o.observation_id) at_b in
            absurd (ids_differ (sym clash))
        | Memᴰ.tail n ↦ elim n [ Memᴰ.head at_b ↦ at_a ∙ sym at_b | Memᴰ.tail n' ↦ elim n' [ ] ]
      ]
      | Memᴰ.tail m' ↦ elim m' [ ]
    ]
  ],
)

field_breaks-Agreement_example :
    ((breaks : List Break) × (currency_breaks provenance (first_booking ∷ retransmitted ∷ [])
        ≡ some breaks)
      × ((breaks ≡ [])
          ↔ AgreeOn
              (base_currency ∷ terms_currency ∷ side ∷ [])
              (first_booking ∷ retransmitted ∷ [])))
    × ((breaks : List Break) × (date_break provenance (first_booking ∷ retransmitted ∷ [])
          ≡ some breaks)
        × ((breaks ≡ [])
            ↔ AgreeOn (trade_date ∷ value_date ∷ []) (first_booking ∷ retransmitted ∷ [])))
field_breaks-Agreement_example =
    field_breaks-Agreement provenance (first_booking ∷ retransmitted ∷ []) two-IsTraced

-- A captured trade whose confirmation is pending, and which no execution has reached yet.
abbrev pub capture : Observation
capture = record first_booking {
  observation_id = "obs_capture";
  observation_kind = trade_capture;
  payload = record (payload_of "100.00") { lifecycle_status = "CAPTURED" };
}

abbrev pending : Observation
pending = record first_booking {
  observation_id = "obs_pending";
  observation_kind = confirmation;
  payload = record (payload_of "100.00") { lifecycle_status = "CAPTURED" };
}

abbrev judged_pair : List Judged
judged_pair =
    record { observation = capture; expected_status = "CAPTURED" }
    ∷ record { observation = pending; expected_status = "CONFIRMED" }
    ∷ []

pending_refused :
    lifecycle_break fixture (capture ∷ pending ∷ [])
    ≡ comparison_refused record {
      field_path = "/payload/lifecycle_status";
      expected_value = "CAPTURED";
      observed_value = "CAPTURED";
      expected_source_observation_id = some "obs_capture";
      observed_source_observation_id = some "obs_pending";
    }
unfolding lifecycle_break fixture_config lifecycle_rule
pending_refused = refl

pub judged_pair_lem : judge fixture (capture ∷ pending ∷ []) ≡ some judged_pair
unfolding judge fixture_config lifecycle_rule
judged_pair_lem = refl

lifecycle_break-IsRefused_example : IsRefused (lifecycle_break fixture (capture ∷ pending ∷ [])) ↔ (
    (p : Judged) × (find
        (λ (j : Judged).
          is_other (record { observation = pending; expected_status = "CONFIRMED" }) j
          && as_expected j)
        judged_pair
      ≡ some p)
    × (status p ≡ "CAPTURED"))
lifecycle_break-IsRefused_example =
    lifecycle_break-IsRefused (fixture_config 1000) (capture ∷ pending ∷ []) judged_pair
      (record { observation = pending; expected_status = "CONFIRMED" }) judged_pair_lem refl refl
