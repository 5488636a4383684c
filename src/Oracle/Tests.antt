-- ===== src/Oracle/Tests.antt =====
-- The oracle on the engine's examples.
use tradeops_sentinel.Base.{[], and_then, arith, map_some, refl, some, sorted, ◌↔◌, ◌∷◌, ◌≡◌}
use tradeops_sentinel.Contracts.{
  Observation, ObservationKind, booking, confirmation, execution, trade_capture,
}
use tradeops_sentinel.Oracle.Comparisons.{decimal_text, lifecycle_facts}
use tradeops_sentinel.Oracle.Evaluate.{OracleResult, evaluate_context}
use tradeops_sentinel.Oracle.Parity.{SamePolicy}
use tradeops_sentinel.Oracle.Parity.States.{AsConfigured}
use tradeops_sentinel.Oracle.Parity.Whole.{evaluate_context-run}
use tradeops_sentinel.Oracle.Policy.{
  expected_status_of, fixture_oracle_config, oracle_rule, tolerance_of, window_seconds,
}
use tradeops_sentinel.Reconciliation.Breaks.{lifecycle_status_mismatch}
use tradeops_sentinel.Reconciliation.Config.{
  ArrivalWindowRule, DecimalToleranceRule, EconomicField, LifecycleExpectedStatusRule,
  MissingSourceKind, ProductType, arrival_rule, base_amount, booking_source, confirmation_source,
  decimal_rule, execution_source, fixture_config, fx_forward, fx_spot, lifecycle_rule, quoted_rate,
  terms_amount,
}
use tradeops_sentinel.Reconciliation.Lifecycle.{lifecycle_break, no_break}
use tradeops_sentinel.Reconciliation.Run.{ReconciliationRun, pass, run, show}
use tradeops_sentinel.Reconciliation.Run.Tests.{
  fixture_running, fixture_started, path_id, three, three-IsSettledInput, three_context,
}
use tradeops_sentinel.Reconciliation.Tests.{capture, fixture}

windows_same :
    (p : ProductType) (k : MissingSourceKind)
    → window_seconds fixture_oracle_config p k
      ≡ map_some (λ (r : ArrivalWindowRule). r.window_seconds) (arrival_rule fixture p k)
unfolding fixture_oracle_config fixture_config window_seconds arrival_rule
windows_same fx_spot execution_source = refl
windows_same fx_spot confirmation_source = refl
windows_same fx_spot booking_source = refl
windows_same fx_forward execution_source = refl
windows_same fx_forward confirmation_source = refl
windows_same fx_forward booking_source = refl

tolerances_same :
    (p : ProductType) (f : EconomicField)
    → oracle_rule fixture_oracle_config p f
      ≡ and_then
          (decimal_rule fixture p f)
          (λ (r : DecimalToleranceRule). tolerance_of r.mode r.value)
unfolding fixture_oracle_config fixture_config oracle_rule decimal_rule
tolerances_same fx_spot base_amount = refl
tolerances_same fx_spot terms_amount = refl
tolerances_same fx_spot quoted_rate = refl
tolerances_same fx_forward base_amount = refl
tolerances_same fx_forward terms_amount = refl
tolerances_same fx_forward quoted_rate = refl

statuses_same :
    (k : ObservationKind)
    → expected_status_of fixture_oracle_config k
      ≡ map_some (λ (r : LifecycleExpectedStatusRule). r.expected_status) (lifecycle_rule fixture k)
unfolding fixture_oracle_config fixture_config expected_status_of lifecycle_rule
statuses_same execution = refl
statuses_same trade_capture = refl
statuses_same confirmation = refl
statuses_same booking = refl

fixture-SamePolicy : SamePolicy fixture_oracle_config fixture
unfolding fixture_oracle_config
fixture-SamePolicy = record {
  has_id = refl;
  has_version = refl;
  same_windows = windows_same;
  same_tolerances = tolerances_same;
  same_statuses = statuses_same;
}

evaluate_context-run_example :
    ((r : OracleResult) × (evaluate_context fixture_oracle_config three_context ≡ some r)
      × (r.families ≡ []))
    ↔ (((r : ReconciliationRun) × (run path_id fixture three_context ≡ some r) × (r.result ≡ pass))
        × AsConfigured fixture three)
evaluate_context-run_example =
    evaluate_context-run fixture_oracle_config path_id fixture three_context fixture-SamePolicy
      three-IsSettledInput (omega (arith, fixture_started.1)) fixture_running

-- A captured trade that is booked already, alone: the oracle reports it and the engine does not.
abbrev too_early : Observation
too_early = record capture { payload = record capture.payload { lifecycle_status = "BOOKED" } }

lone_reported :
    lifecycle_facts fixture_oracle_config (too_early ∷ [])
    ≡ record {
      family = lifecycle_status_mismatch;
      field_path = "/payload/lifecycle_status";
      expected_value = "CAPTURED";
      observed_value = "BOOKED";
      source_observation_ids = "obs_capture" ∷ [];
    }
      ∷ []
unfolding lifecycle_facts fixture_oracle_config sorted
lone_reported = refl

lone_passes : lifecycle_break fixture (too_early ∷ []) ≡ no_break
unfolding lifecycle_break fixture_config lifecycle_rule
lone_passes = refl

texts :
    decimal_text (record { coefficient = 10000; scale = 2 }) ≡ "100.00"
    × decimal_text (record { coefficient = 5; scale = 3 }) ≡ "0.005"
    × decimal_text (record { coefficient = 15; scale = 8 }) ≡ "1.5E-7"
unfolding decimal_text show
texts = (refl, refl, refl)
