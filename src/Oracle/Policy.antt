-- ===== src/Oracle/Policy.antt =====
-- packages/oracle/evaluator.py: the rules of the oracle, their look-ups and its decimal tests. A
-- text of a closed list is a constructor of its own type.
use tradeops_sentinel.Base.{
  Bool, List, Option, String, [], and_then, find, if◌then◌else◌, map, map_some, nat_eq, none, some,
  ℕ, ◌&&◌, ◌++◌, ◌==◌, ◌∷◌,
}
use tradeops_sentinel.Contracts.{
  ObservationKind, SourceSystem, booking, confirmation, execution, fix_execution, fpml_confirmation,
  kind_name, mock_legacy_booking, trade_capture,
}
use tradeops_sentinel.Reconciliation.Config.{
  EconomicField, MissingSourceKind, ProductType, ToleranceMode, absolute_decimal, base_amount,
  booking_source, confirmation_source, execution_source, fx_forward, fx_spot, no_tolerance,
  product_name, quoted_rate, relative_decimal, terms_amount,
}
use tradeops_sentinel.Reconciliation.Decimal.{
  Decimal, abs_difference, abs_product, decimal_le, decimal_of,
}
use tradeops_sentinel.Reconciliation.Economic.{economic_path}

pub record OracleWindow : Type 0 where
  pub product_type : ProductType
  pub observation_kind : MissingSourceKind
  pub source_system : SourceSystem
  pub window_seconds : ℕ

pub record OracleTolerance : Type 0 where
  pub product_type : ProductType
  pub field_path : EconomicField
  pub mode : ToleranceMode
  pub value : Option String

pub record OracleStatus : Type 0 where
  pub observation_kind : ObservationKind
  pub expected_status : String

pub record OracleConfig : Type 0 where
  pub config_id : String
  pub config_version : String
  pub arrival_windows : List OracleWindow
  pub decimal_tolerances : List OracleTolerance
  pub lifecycle_expected_statuses : List OracleStatus

-- `_REQUIRED_SOURCE_KINDS`
abbrev pub required_source_kinds : List MissingSourceKind
required_source_kinds = execution_source ∷ confirmation_source ∷ booking_source ∷ []

abbrev pub required_name : MissingSourceKind → String
required_name execution_source = "EXECUTION"
required_name confirmation_source = "CONFIRMATION"
required_name booking_source = "BOOKING"

-- `source_systems`
abbrev pub oracle_system : MissingSourceKind → SourceSystem
oracle_system execution_source = fix_execution
oracle_system confirmation_source = fpml_confirmation
oracle_system booking_source = mock_legacy_booking

abbrev pub oracle_window : ProductType → MissingSourceKind → OracleWindow
oracle_window p k = record {
  product_type = p;
  observation_kind = k;
  source_system = oracle_system k;
  window_seconds = 0;
}

abbrev pub oracle_value : EconomicField → String
oracle_value quoted_rate = "0.0001"
oracle_value _ = "0.01"

abbrev pub oracle_tolerance : ProductType → EconomicField → OracleTolerance
oracle_tolerance p f = record {
  product_type = p;
  field_path = f;
  mode = absolute_decimal;
  value = some (oracle_value f);
}

-- `_fixture_oracle_config`
unfoldable pub fixture_oracle_config : OracleConfig
fixture_oracle_config = record {
  config_id = "ts12_fixture_oracle_policy";
  config_version = "1.0.0";
  arrival_windows =
      map (oracle_window fx_spot) required_source_kinds
      ++ map (oracle_window fx_forward) required_source_kinds;
  decimal_tolerances =
      map (oracle_tolerance fx_spot) (base_amount ∷ terms_amount ∷ quoted_rate ∷ [])
      ++ map (oracle_tolerance fx_forward) (base_amount ∷ terms_amount ∷ quoted_rate ∷ []);
  lifecycle_expected_statuses =
      record { observation_kind = execution; expected_status = "NEW" }
      ∷ record { observation_kind = trade_capture; expected_status = "CAPTURED" }
      ∷ record { observation_kind = confirmation; expected_status = "CONFIRMED" }
      ∷ record { observation_kind = booking; expected_status = "BOOKED" }
      ∷ [];
}

-- `_window_seconds`, with none for its `ValueError`.
unfoldable pub window_seconds : OracleConfig → ProductType → MissingSourceKind → Option ℕ
window_seconds oc p k =
    map_some (λ (w : OracleWindow). w.window_seconds)
      (find
        (λ (w : OracleWindow).
          (product_name w.product_type == product_name p)
          && (required_name w.observation_kind == required_name k))
        oc.arrival_windows)

-- The mode of a tolerance with its value, which is zero if there is none.
abbrev pub tolerance_of : ToleranceMode → Option String → Option (ToleranceMode × Decimal)
tolerance_of mode none = some (mode, record { coefficient = 0; scale = 0 })
tolerance_of mode (some text) = map_some (λ d. (mode, d)) (decimal_of text)

-- `_decimal_rule`
unfoldable pub oracle_rule :
    OracleConfig → ProductType → EconomicField → Option (ToleranceMode × Decimal)
oracle_rule oc p f =
    and_then
      (find
        (λ (r : OracleTolerance).
          (product_name r.product_type == product_name p)
          && (economic_path r.field_path == economic_path f))
        oc.decimal_tolerances)
      (λ r. tolerance_of r.mode r.value)

-- `_within_tolerance`
unfoldable pub oracle_within : Decimal → Decimal → ToleranceMode × Decimal → Bool
unfolding abs_difference abs_product
oracle_within expected observed (no_tolerance, allowed) =
    nat_eq (abs_difference observed expected).coefficient 0
oracle_within expected observed (absolute_decimal, allowed) =
    decimal_le (abs_difference observed expected) allowed
oracle_within expected observed (relative_decimal, allowed) =
    decimal_le (abs_difference observed expected) (abs_product expected allowed)

-- `expected_statuses.get(kind)`: the last rule for a kind holds.
pub expected_status_from : ObservationKind → List OracleStatus → Option String → Option String
expected_status_from k [] found = found
expected_status_from k (r ∷ rs) found =
    expected_status_from k rs
      (if kind_name r.observation_kind == kind_name k then some r.expected_status else found)

unfoldable pub expected_status_of : OracleConfig → ObservationKind → Option String
unfolding expected_status_from
expected_status_of oc k = expected_status_from k oc.lifecycle_expected_statuses none
