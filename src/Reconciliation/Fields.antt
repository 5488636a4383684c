-- ===== src/Reconciliation/Fields.antt =====
-- packages/reconciliation/engine.py: the breaks for currencies, sides and dates that differ.
pub mod Agreement
use tradeops_sentinel.Base.{Bool, List, Option, String, [], find, none, not, some, ◌&&◌, ◌==◌, ◌∷◌}
use tradeops_sentinel.Contracts.{Observation}
use tradeops_sentinel.Reconciliation.Breaks.{
  Break, FieldComparison, break_of, currency_pair_or_side_mismatch, then_comparisons,
  trade_or_value_date_mismatch,
}

pub data ExactField : Type 0 where
  base_currency terms_currency side trade_date value_date : ExactField

-- `_field_value`
abbrev pub field_value : ExactField → Observation → String
field_value base_currency o = o.payload.base_currency
field_value terms_currency o = o.payload.terms_currency
field_value side o = o.payload.side
field_value trade_date o = o.payload.trade_date
field_value value_date o = o.payload.value_date

abbrev pub field_path : ExactField → String
field_path base_currency = "/payload/base_currency"
field_path terms_currency = "/payload/terms_currency"
field_path side = "/payload/side"
field_path trade_date = "/payload/trade_date"
field_path value_date = "/payload/value_date"

-- `field_path.rsplit("/", 1)[1]`
abbrev pub exact_name : ExactField → String
exact_name base_currency = "base_currency"
exact_name terms_currency = "terms_currency"
exact_name side = "side"
exact_name trade_date = "trade_date"
exact_name value_date = "value_date"

-- `_authoritative_observation`, for the identifier in the canonical provenance of the field; with
-- none for its `ValueError`.
unfoldable pub authoritative_observation : String → List Observation → Option Observation
authoritative_observation source_id = find (λ o. o.observation_id == source_id)

-- The test of the inner loop: an observation that the loop does not pass over.
abbrev pub is_mismatch : ExactField → Observation → Observation → Bool
is_mismatch f baseline observed =
    not (observed.observation_id == baseline.observation_id)
    && not (field_value f observed == field_value f baseline)

abbrev pub comparison : ExactField → Observation → Observation → FieldComparison
comparison f baseline observed = record {
  field_path = field_path f;
  expected_value = field_value f baseline;
  observed_value = field_value f observed;
  expected_source_observation_id = some baseline.observation_id;
  observed_source_observation_id = some observed.observation_id;
}

abbrev pub comparison_of : ExactField → Observation → Option Observation → List FieldComparison
comparison_of f baseline none = []
comparison_of f baseline (some observed) = comparison f baseline observed ∷ []

-- The body of the loop over fields: at most one comparison, with the first mismatch.
unfoldable pub compare_field :
    ExactField → List Observation → Option Observation → Option (List FieldComparison)
compare_field f observations none = none
compare_field f observations (some baseline) =
    some (comparison_of f baseline (find (is_mismatch f baseline) observations))

-- The loop over fields, with the identifiers of the canonical provenance.
unfoldable pub exact_comparisons :
    (ExactField → String) → List Observation → List ExactField → Option (List FieldComparison)
unfolding authoritative_observation compare_field
exact_comparisons provenance observations [] = some []
exact_comparisons provenance observations (f ∷ fs) =
    then_comparisons
      (compare_field f observations (authoritative_observation (provenance f) observations))
      (exact_comparisons provenance observations fs)

-- `_currency_breaks`
unfoldable pub currency_breaks : (ExactField → String) → List Observation → Option (List Break)
unfolding exact_comparisons
currency_breaks provenance observations =
    break_of currency_pair_or_side_mismatch
      (exact_comparisons provenance observations (base_currency ∷ terms_currency ∷ side ∷ []))

-- `_date_break`
unfoldable pub date_break : (ExactField → String) → List Observation → Option (List Break)
unfolding exact_comparisons
date_break provenance observations =
    break_of trade_or_value_date_mismatch
      (exact_comparisons provenance observations (trade_date ∷ value_date ∷ []))
