-- ===== src/Reconciliation/Economic.antt =====
-- packages/reconciliation/engine.py: the break for amounts and rates outside their tolerance.
pub mod Tolerance
pub mod Agreement
use tradeops_sentinel.Base.{
  Bool, List, Option, String, [], and_then, collect, false, first_or_raise, if◌then◌else◌, map_some,
  none, not, some, ◌==◌, ◌∷◌,
}
use tradeops_sentinel.Contracts.{Observation}
use tradeops_sentinel.Reconciliation.Breaks.{
  Break, FieldComparison, break_of, economic_value_mismatch,
}
use tradeops_sentinel.Reconciliation.Config.{
  DecimalToleranceRule, EconomicField, ProductType, ReconciliationConfig, ToleranceMode,
  base_amount, decimal_rule, quoted_rate, terms_amount,
}
use tradeops_sentinel.Reconciliation.Decimal.{Decimal, decimal_of, within_tolerance}
use tradeops_sentinel.Reconciliation.Fields.{authoritative_observation, field_path}

-- `_field_value`
abbrev pub economic_value : EconomicField → Observation → String
economic_value base_amount o = o.payload.base_amount
economic_value terms_amount o = o.payload.terms_amount
economic_value quoted_rate o = o.payload.quoted_rate

abbrev pub economic_path : EconomicField → String
economic_path base_amount = "/payload/base_amount"
economic_path terms_amount = "/payload/terms_amount"
economic_path quoted_rate = "/payload/quoted_rate"

-- `_within_tolerance`, with the tolerance of a rule; none if it raises.
abbrev pub economic_name : EconomicField → String
economic_name base_amount = "base_amount"
economic_name terms_amount = "terms_amount"
economic_name quoted_rate = "quoted_rate"

abbrev pub allows : ToleranceMode → Option String → Decimal → Decimal → Option Bool
allows mode none expected observed = within_tolerance expected observed mode none
allows mode (some value) expected observed =
    and_then (decimal_of value) (λ allowed. within_tolerance expected observed mode (some allowed))

-- The body of the inner loop: whether a comparison of the observation is due.
abbrev pub is_outside :
    EconomicField → DecimalToleranceRule → Observation → Decimal → Observation → Option Bool
is_outside f rule baseline expected observed =
    if observed.observation_id == baseline.observation_id
    then some false
    else and_then (decimal_of (economic_value f observed))
        (λ value. map_some not (allows rule.mode rule.value expected value))

abbrev pub economic_comparison :
    EconomicField → Observation → Option Observation → List FieldComparison
economic_comparison f baseline none = []
economic_comparison f baseline (some observed) =
    record {
      field_path = economic_path f;
      expected_value = economic_value f baseline;
      observed_value = economic_value f observed;
      expected_source_observation_id = some baseline.observation_id;
      observed_source_observation_id = some observed.observation_id;
    }
    ∷ []

-- The body of the loop over fields, for the identifier in the canonical provenance.
unfoldable pub compare_economic :
    ReconciliationConfig
    → ProductType
    → List Observation
    → String
    → EconomicField
    → Option (List FieldComparison)
compare_economic c p observations source_id f =
    and_then (authoritative_observation source_id observations) (λ baseline.
      and_then (decimal_of (economic_value f baseline)) (λ expected.
        and_then (decimal_rule c p f) (λ rule.
          map_some (economic_comparison f baseline)
            (first_or_raise (is_outside f rule baseline expected) observations))))

abbrev pub economic_fields : List EconomicField
economic_fields = base_amount ∷ terms_amount ∷ quoted_rate ∷ []

-- `_economic_breaks`
unfoldable pub economic_breaks :
    ReconciliationConfig
    → ProductType
    → (EconomicField → String)
    → List Observation
    → Option (List Break)
unfolding compare_economic
economic_breaks c p provenance observations =
    break_of economic_value_mismatch
      (collect (λ f. compare_economic c p observations (provenance f) f) economic_fields)
