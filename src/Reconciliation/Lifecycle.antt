-- ===== src/Reconciliation/Lifecycle.antt =====
-- packages/reconciliation/engine.py: the break for statuses of the trade's life cycle.
pub mod Refusal
use tradeops_sentinel.Base.{
  Bool, List, Option, String, [], any, false, find, if◌then◌else◌, none, not, some, ◌&&◌, ◌==◌,
  ◌||◌, ◌∷◌,
}
use tradeops_sentinel.Contracts.{Observation}
use tradeops_sentinel.Reconciliation.Breaks.{FieldComparison}
use tradeops_sentinel.Reconciliation.Config.{
  LifecycleExpectedStatusRule, ReconciliationConfig, lifecycle_rule,
}
use tradeops_sentinel.Reconciliation.Fields.{field_path}

-- An observation with the status that the rule of its kind expects.
pub record Judged : Type 0 where
  pub observation : Observation
  pub expected_status : String

abbrev pub status : Judged → String
status j = j.observation.payload.lifecycle_status

abbrev pub judged_by :
    Observation → Option LifecycleExpectedStatusRule → Option (List Judged) → Option (List Judged)
judged_by o (some rule) (some rest) =
    some (record { observation = o; expected_status = rule.expected_status } ∷ rest)
judged_by _ _ _ = none

-- The look-ups of the rules for all observations, with none for a `KeyError`.
unfoldable pub judge : ReconciliationConfig → List Observation → Option (List Judged)
judge c [] = some []
judge c (o ∷ os) = judged_by o (lifecycle_rule c o.observation_kind) (judge c os)

abbrev pub as_expected : Judged → Bool
as_expected j = status j == j.expected_status

-- `item is not observed`, by the identifier, which no two observations of a context share.
abbrev pub is_other : Judged → Judged → Bool
is_other observed j = not (j.observation.observation_id == observed.observation.observation_id)

-- `len(set(statuses)) == 1 and statuses[0] in {"AMENDED", "CANCELLED"}`
abbrev pub is_exempt : List Observation → Bool
is_exempt [] = false
is_exempt (o ∷ os) =
    let here = o.payload.lifecycle_status in
    not (any (λ (x : Observation). not (x.payload.lifecycle_status == here)) os)
    && (here == "AMENDED" || here == "CANCELLED")

abbrev pub or_else : Option Judged → Option Judged → Option Judged
or_else (some j) _ = some j
or_else none next = next

-- The three searches for the expected observation.
unfoldable pub expected_for : Judged → List Judged → Option Judged
expected_for observed js = or_else (find (λ j. is_other observed j && as_expected j) js) (
    or_else (find (λ j. is_other observed j && not (status j == status observed)) js)
      (find (is_other observed) js))

abbrev pub expected_value_for : Judged → Judged → String
expected_value_for observed expected =
    if status expected == status observed then expected.expected_status else status expected

abbrev pub status_comparison : Judged → Judged → FieldComparison
status_comparison observed expected = record {
  field_path = "/payload/lifecycle_status";
  expected_value = expected_value_for observed expected;
  observed_value = status observed;
  expected_source_observation_id = some expected.observation.observation_id;
  observed_source_observation_id = some observed.observation.observation_id;
}

pub data LifecycleOutcome : Type 0 where
  no_break key_error : LifecycleOutcome
  mismatch_found comparison_refused : FieldComparison → LifecycleOutcome

-- A comparison, which `BreakComparison` refuses if its two values are equal.
abbrev pub compare_values : FieldComparison → LifecycleOutcome
compare_values c =
    if c.expected_value == c.observed_value then comparison_refused c else mismatch_found c

abbrev pub compare_with : Judged → Option Judged → LifecycleOutcome
compare_with observed none = no_break
compare_with observed (some expected) = compare_values (status_comparison observed expected)

abbrev pub first_invalid : List Judged → Option Judged
first_invalid js = find (λ j. not (as_expected j)) js

abbrev pub report_invalid : List Judged → Option Judged → LifecycleOutcome
report_invalid js none = no_break
report_invalid js (some observed) = compare_with observed (expected_for observed js)

abbrev pub outcome_of : Option (List Judged) → LifecycleOutcome
outcome_of none = key_error
outcome_of (some js) = report_invalid js (first_invalid js)

-- `_lifecycle_break`
unfoldable pub lifecycle_break : ReconciliationConfig → List Observation → LifecycleOutcome
unfolding judge expected_for
lifecycle_break c observations =
    if is_exempt observations then no_break else outcome_of (judge c observations)
