-- ===== src/Reconciliation/Config.antt =====
-- packages/reconciliation/config.py: what a valid configuration holds, and the look-ups in it.
pub mod Complete
use tradeops_sentinel.Base.{
  Bool, List, Option, String, [], any, false, find, length, ltb, map, nat_eq, none, not, some, true,
  ℕ, ◌&&◌, ◌==◌, ◌∷◌,
}
use tradeops_sentinel.Contracts.{
  ObservationKind, SourceSystem, booking, confirmation, execution, fix_execution, fpml_confirmation,
  mock_legacy_booking, system_name, trade_capture,
}

pub data ProductType : Type 0 where
  fx_spot fx_forward : ProductType

abbrev pub product_name : ProductType → String
product_name fx_spot = "FX_SPOT"
product_name fx_forward = "FX_FORWARD"

pub data MissingSourceKind : Type 0 where
  execution_source confirmation_source booking_source : MissingSourceKind

pub data EconomicField : Type 0 where
  base_amount terms_amount quoted_rate : EconomicField

abbrev pub same_product : ProductType → ProductType → Bool
same_product fx_spot fx_spot = true
same_product fx_forward fx_forward = true
same_product _ _ = false

abbrev pub same_source : MissingSourceKind → MissingSourceKind → Bool
same_source execution_source execution_source = true
same_source confirmation_source confirmation_source = true
same_source booking_source booking_source = true
same_source _ _ = false

abbrev pub same_field : EconomicField → EconomicField → Bool
same_field base_amount base_amount = true
same_field terms_amount terms_amount = true
same_field quoted_rate quoted_rate = true
same_field _ _ = false

abbrev pub same_kind : ObservationKind → ObservationKind → Bool
same_kind execution execution = true
same_kind trade_capture trade_capture = true
same_kind confirmation confirmation = true
same_kind booking booking = true
same_kind _ _ = false

-- `_SOURCE_SYSTEM_BY_KIND` and `_MISSING_FIELD_BY_KIND`
abbrev pub system_of_missing : MissingSourceKind → SourceSystem
system_of_missing execution_source = fix_execution
system_of_missing confirmation_source = fpml_confirmation
system_of_missing booking_source = mock_legacy_booking

abbrev pub field_of_missing : MissingSourceKind → String
field_of_missing execution_source = "/source/execution_observation"
field_of_missing confirmation_source = "/source/confirmation_observation"
field_of_missing booking_source = "/source/booking_observation"

pub record ArrivalWindowRule : Type 0 where
  pub product_type : ProductType
  pub observation_kind : MissingSourceKind
  pub source_system : SourceSystem
  pub field_path : String
  pub window_seconds : ℕ

pub data ToleranceMode : Type 0 where
  no_tolerance absolute_decimal relative_decimal : ToleranceMode

pub record DecimalToleranceRule : Type 0 where
  pub product_type : ProductType
  pub field_path : EconomicField
  pub mode : ToleranceMode
  pub value : Option String

pub record LifecycleExpectedStatusRule : Type 0 where
  pub observation_kind : ObservationKind
  pub expected_status : String

pub data ApprovalStatus : Type 0 where
  fixture_only owner_approved : ApprovalStatus

pub record ReconciliationConfig : Type 0 where
  pub approval_status : ApprovalStatus
  pub approval_reference : Option String
  pub effective_from : ℕ
  pub effective_to : Option ℕ
  pub arrival_windows : List ArrivalWindowRule
  pub decimal_tolerances : List DecimalToleranceRule
  pub lifecycle_expected_statuses : List LifecycleExpectedStatusRule

-- `validate_source_shape`
unfoldable pub validate_source_shape : ArrivalWindowRule → Bool
validate_source_shape r =
    (system_name r.source_system == system_name (system_of_missing r.observation_kind))
    && (r.field_path == field_of_missing r.observation_kind)

abbrev pub is_arrival : ProductType → MissingSourceKind → ArrivalWindowRule → Bool
is_arrival p k r = same_product r.product_type p && same_source r.observation_kind k

abbrev pub is_tolerance : ProductType → EconomicField → DecimalToleranceRule → Bool
is_tolerance p f r = same_product r.product_type p && same_field r.field_path f

abbrev pub is_lifecycle : ObservationKind → LifecycleExpectedStatusRule → Bool
is_lifecycle k r = same_kind r.observation_kind k

-- `expected_arrival_keys` and `expected_tolerance_keys`
abbrev pub arrival_keys : List (ProductType × MissingSourceKind)
arrival_keys =
    (fx_spot, execution_source)
    ∷ (fx_spot, confirmation_source)
    ∷ (fx_spot, booking_source)
    ∷ (fx_forward, execution_source)
    ∷ (fx_forward, confirmation_source)
    ∷ (fx_forward, booking_source)
    ∷ []

abbrev pub tolerance_keys : List (ProductType × EconomicField)
tolerance_keys =
    (fx_spot, base_amount)
    ∷ (fx_spot, terms_amount)
    ∷ (fx_spot, quoted_rate)
    ∷ (fx_forward, base_amount)
    ∷ (fx_forward, terms_amount)
    ∷ (fx_forward, quoted_rate)
    ∷ []

abbrev pub lifecycle_keys : List ObservationKind
lifecycle_keys = execution ∷ trade_capture ∷ confirmation ∷ booking ∷ []

-- `set(keys) == set(expected) and len(keys) == len(expected)`, where `has` compares an item's key
-- with an expected one.
module _ {K R : Type 0} (has : K → R → Bool) where
  -- Every expected key has an item.
  pub covers : List K → List R → Bool
  covers [] rules = true
  covers (k ∷ ks) rules = any (has k) rules && covers ks rules

  -- Every item has an expected key.
  pub is_within : List K → List R → Bool
  is_within ks [] = true
  is_within ks (r ∷ rs) = any (λ k. has k r) ks && is_within ks rs

  unfoldable pub exactly_one_each : List K → List R → Bool
  unfolding covers is_within
  exactly_one_each ks rules =
      covers ks rules && is_within ks rules && nat_eq (length rules) (length ks)

abbrev pub is_arrival_of : ProductType × MissingSourceKind → ArrivalWindowRule → Bool
is_arrival_of (p, k) = is_arrival p k

abbrev pub is_tolerance_of : ProductType × EconomicField → DecimalToleranceRule → Bool
is_tolerance_of (p, f) = is_tolerance p f

abbrev pub interval_valid : ℕ → Option ℕ → Bool
interval_valid effective_from none = true
interval_valid effective_from (some effective_to) = ltb effective_from effective_to

abbrev pub approval_valid : ApprovalStatus → Option String → Bool
approval_valid owner_approved none = false
approval_valid owner_approved (some reference) = not (reference == "")
approval_valid fixture_only _ = true

-- `validate_complete_policy`: true if it raises nothing. Times have their zone already.
unfoldable pub validate_complete_policy : ReconciliationConfig → Bool
unfolding exactly_one_each
validate_complete_policy c =
    interval_valid c.effective_from c.effective_to
    && approval_valid c.approval_status c.approval_reference
    && exactly_one_each is_arrival_of arrival_keys c.arrival_windows
    && exactly_one_each is_tolerance_of tolerance_keys c.decimal_tolerances
    && exactly_one_each is_lifecycle lifecycle_keys c.lifecycle_expected_statuses

-- The look-ups, with none for a `KeyError`.
unfoldable pub arrival_rule :
    ReconciliationConfig → ProductType → MissingSourceKind → Option ArrivalWindowRule
arrival_rule c p k = find (is_arrival p k) c.arrival_windows

unfoldable pub decimal_rule :
    ReconciliationConfig → ProductType → EconomicField → Option DecimalToleranceRule
decimal_rule c p f = find (is_tolerance p f) c.decimal_tolerances

unfoldable pub lifecycle_rule :
    ReconciliationConfig → ObservationKind → Option LifecycleExpectedStatusRule
lifecycle_rule c k = find (is_lifecycle k) c.lifecycle_expected_statuses

-- `_default_lifecycle_rules`
abbrev pub default_lifecycle_rules : List LifecycleExpectedStatusRule
default_lifecycle_rules =
    record { observation_kind = execution; expected_status = "NEW" }
    ∷ record { observation_kind = trade_capture; expected_status = "CAPTURED" }
    ∷ record { observation_kind = confirmation; expected_status = "CONFIRMED" }
    ∷ record { observation_kind = booking; expected_status = "BOOKED" }
    ∷ []

abbrev pub fixture_arrival : ProductType × MissingSourceKind → ArrivalWindowRule
fixture_arrival (p, k) = record {
  product_type = p;
  observation_kind = k;
  source_system = system_of_missing k;
  field_path = field_of_missing k;
  window_seconds = 0;
}

abbrev pub fixture_value : EconomicField → String
fixture_value quoted_rate = "0.0001"
fixture_value _ = "0.01"

abbrev pub fixture_tolerance : ProductType × EconomicField → DecimalToleranceRule
fixture_tolerance (p, f) = record {
  product_type = p;
  field_path = f;
  mode = absolute_decimal;
  value = some (fixture_value f);
}

-- `fixture_config`, which takes effect at the time `start`.
unfoldable pub fixture_config : ℕ → ReconciliationConfig
fixture_config start = record {
  approval_status = fixture_only;
  approval_reference = none;
  effective_from = start;
  effective_to = none;
  arrival_windows = map fixture_arrival arrival_keys;
  decimal_tolerances = map fixture_tolerance tolerance_keys;
  lifecycle_expected_statuses = default_lifecycle_rules;
}
