-- ===== src/Oracle/Comparisons.antt =====
-- packages/oracle/evaluator.py: the facts for currencies, sides, dates, amounts, rates and statuses.
use Prim.Native.String
use tradeops_sentinel.Base.{
  Bool, List, Option, String, [], and_then, collect, false, find, first_or_raise, if◌then◌else◌,
  ltb, map_some, nat_eq, none, not, some, suc, true, zero, ℕ, ◌+◌, ◌-◌, ◌==◌, ◌∷◌,
}
use tradeops_sentinel.Contracts.{Observation}
use tradeops_sentinel.Oracle.Facts.{OracleFact, oracle_ordered}
use tradeops_sentinel.Oracle.Policy.{OracleConfig, expected_status_of, oracle_rule, oracle_within}
use tradeops_sentinel.Reconciliation.Breaks.{
  BreakFamily, economic_value_mismatch, lifecycle_status_mismatch, trade_or_value_date_mismatch,
}
use tradeops_sentinel.Reconciliation.Config.{
  EconomicField, ProductType, ToleranceMode, base_amount, quoted_rate, terms_amount,
}
use tradeops_sentinel.Reconciliation.Decimal.{Decimal, decimal_of}
use tradeops_sentinel.Reconciliation.Economic.{economic_path, economic_value}
use tradeops_sentinel.Reconciliation.Fields.{
  ExactField, authoritative_observation, field_path, field_value, is_mismatch, trade_date,
  value_date,
}
use tradeops_sentinel.Reconciliation.Lifecycle.{is_exempt}
use tradeops_sentinel.Reconciliation.Run.{show}

-- `str` of a decimal: how many digits stand before the point, and scientific notation for a small
-- number with a long scale.
text_length : String → ℕ
text_length String.[] = 0
text_length (String.◌∷◌ c s) = suc (text_length s)

with_point : ℕ → String → String
with_point zero s = String.◌∷◌ "." s
with_point (suc n) String.[] = String.[]
with_point (suc n) (String.◌∷◌ c s) = String.◌∷◌ c (with_point n s)

zeros : ℕ → String → String
zeros zero after = after
zeros (suc n) after = String.◌∷◌ "0" (zeros n after)

plain_text : ℕ → ℕ → String → String
unfolding with_point zeros
plain_text digits scale s =
    if ltb scale digits
    then with_point (digits - scale) s
    else String.◌++◌ "0." (zeros (scale - digits) s)

scientific_text : ℕ → ℕ → String → String
unfolding with_point
scientific_text digits scale s =
    let mantissa = if ltb 1 digits then with_point 1 s else s in
    String.◌++◌ mantissa (String.◌++◌ "E-" (show (scale + 1 - digits)))

unfoldable pub decimal_text : Decimal → String
unfolding text_length plain_text scientific_text
decimal_text d =
    let s = show d.coefficient in
    let digits = text_length s in
    if nat_eq d.scale 0
    then s
    else if ltb d.scale (digits + 6)
    then plain_text digits d.scale s
    else scientific_text digits d.scale s

abbrev pub exact_fact : BreakFamily → ExactField → Observation → Observation → OracleFact
exact_fact family f baseline observed = record {
  family = family;
  field_path = field_path f;
  expected_value = field_value f baseline;
  observed_value = field_value f observed;
  source_observation_ids = baseline.observation_id ∷ observed.observation_id ∷ [];
}

abbrev pub exact_facts_of :
    BreakFamily → ExactField → Observation → Option Observation → List OracleFact
exact_facts_of family f baseline none = []
exact_facts_of family f baseline (some observed) = exact_fact family f baseline observed ∷ []

-- `_comparison_facts`, and the body of the loop of `_date_facts`, for the identifier in the
-- provenance of the field; none if it names no observation.
unfoldable pub exact_facts :
    BreakFamily → List Observation → String → ExactField → Option (List OracleFact)
unfolding oracle_ordered authoritative_observation
exact_facts family observations source_id f =
    map_some
      (λ baseline.
        exact_facts_of family f baseline
          (find (is_mismatch f baseline) (oracle_ordered observations)))
      (authoritative_observation source_id observations)

-- `_date_facts`
unfoldable pub date_facts : (ExactField → String) → List Observation → Option (List OracleFact)
unfolding exact_facts
date_facts provenance observations =
    collect (λ f. exact_facts trade_or_value_date_mismatch observations (provenance f) f)
      (trade_date ∷ value_date ∷ [])

abbrev pub economic_fact :
    EconomicField → Observation → Decimal → Option Observation → List OracleFact
economic_fact f baseline expected none = []
economic_fact f baseline expected (some observed) =
    record {
      family = economic_value_mismatch;
      field_path = economic_path f;
      expected_value = decimal_text expected;
      observed_value = economic_value f observed;
      source_observation_ids = baseline.observation_id ∷ observed.observation_id ∷ [];
    }
    ∷ []

-- The body of the inner loop: whether a fact is due for the observation.
abbrev pub is_beyond :
    EconomicField → ToleranceMode × Decimal → Observation → Decimal → Observation → Option Bool
is_beyond f rule baseline expected observed =
    if observed.observation_id == baseline.observation_id
    then some false
    else map_some (λ value. not (oracle_within expected value rule))
        (decimal_of (economic_value f observed))

-- The body of the loop of `_economic_facts` over the fields.
unfoldable pub economic_facts_of :
    OracleConfig
    → ProductType
    → List Observation
    → String
    → EconomicField
    → Option (List OracleFact)
unfolding oracle_ordered authoritative_observation oracle_rule oracle_within
economic_facts_of oc p observations source_id f =
    and_then (authoritative_observation source_id observations) (λ baseline.
      and_then (decimal_of (economic_value f baseline)) (λ expected.
        and_then (oracle_rule oc p f) (λ rule.
          map_some (economic_fact f baseline expected)
            (first_or_raise (is_beyond f rule baseline expected) (oracle_ordered observations)))))

-- `_economic_facts`
unfoldable pub economic_facts :
    OracleConfig
    → ProductType
    → (EconomicField → String)
    → List Observation
    → Option (List OracleFact)
unfolding economic_facts_of
economic_facts oc p provenance observations =
    collect (λ f. economic_facts_of oc p observations (provenance f) f)
      (base_amount ∷ terms_amount ∷ quoted_rate ∷ [])

abbrev pub unexpected_for : String → Option String → Bool
unexpected_for observed none = true
unexpected_for observed (some expected) = not (observed == expected)

abbrev pub is_unexpected : OracleConfig → Observation → Bool
is_unexpected oc o =
    unexpected_for o.payload.lifecycle_status (expected_status_of oc o.observation_kind)

-- `expected or "configured_expected_status"`
abbrev pub status_text : Option String → String
status_text none = "configured_expected_status"
status_text (some expected) = if expected == "" then "configured_expected_status" else expected

abbrev pub lifecycle_fact : OracleConfig → Option Observation → List OracleFact
lifecycle_fact oc none = []
lifecycle_fact oc (some o) =
    record {
      family = lifecycle_status_mismatch;
      field_path = "/payload/lifecycle_status";
      expected_value = status_text (expected_status_of oc o.observation_kind);
      observed_value = o.payload.lifecycle_status;
      source_observation_ids = o.observation_id ∷ [];
    }
    ∷ []

-- `_lifecycle_facts`
unfoldable pub lifecycle_facts : OracleConfig → List Observation → List OracleFact
unfolding oracle_ordered expected_status_of
lifecycle_facts oc observations =
    if is_exempt observations
    then []
    else lifecycle_fact oc (find (is_unexpected oc) (oracle_ordered observations))
