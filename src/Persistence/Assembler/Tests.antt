-- ===== src/Persistence/Assembler/Tests.antt =====
-- A trade with an execution in two versions and a booking, under a policy like the packaged one.
use mathlib.Core.List.{Memᴰ}
use tradeops_sentinel.Base.{
  List, String, [], if◌then◌else◌, insert, int_of, map, refl, sorted, text_le, ℕ, ◌==◌, ◌∷◌, ◌≡◌,
}
use tradeops_sentinel.Contracts.{
  Observation, canonical_field_names, execution, fix_execution, fix_trade_capture,
  fpml_confirmation, hash_matches, mock_legacy_booking,
}
use tradeops_sentinel.Persistence.Assembler.{
  FieldRule, SourceOfTruthPolicy, done, eligible_for_trade, path_of, resolve_field_selection,
  resolved_observation,
}
use tradeops_sentinel.Persistence.Assembler.Choice.{Resolution, resolved_observation-Resolution}
use tradeops_sentinel.Persistence.Assembler.Stability.{SameItems, resolve_field_selection_same}
use tradeops_sentinel.Persistence.Tests.{digest, observation_of}

abbrev pub execution_of : (id version : String) (ingest_time : ℕ) → Observation
execution_of id version ingest_time = record (observation_of id "100.00" ingest_time) {
  observation_kind = execution;
  source_system = fix_execution;
  source_version = version;
}

abbrev old_execution : Observation
old_execution = execution_of "exec_1" "9" 20

abbrev new_execution : Observation
new_execution = execution_of "exec_2" "10" 30

abbrev booked : Observation
booked = observation_of "book_1" "90.00" 40

abbrev sources : List Observation
sources = old_execution ∷ booked ∷ new_execution ∷ []

abbrev sources_again : List Observation
sources_again = new_execution ∷ old_execution ∷ booked ∷ []

abbrev rule_of : String → FieldRule
rule_of name = record {
  field_path = path_of name;
  trusted_sources = fix_execution ∷ fix_trade_capture ∷ [];
  source_precedence =
      fix_execution ∷ fix_trade_capture ∷ fpml_confirmation ∷ mock_legacy_booking ∷ [];
}

abbrev book_rule : FieldRule
book_rule = record {
  field_path = path_of "book_id";
  trusted_sources = mock_legacy_booking ∷ [];
  source_precedence = mock_legacy_booking ∷ fix_execution ∷ [];
}

abbrev policy : SourceOfTruthPolicy
policy = record {
  policy_version = "1.0.0";
  field_rules = book_rule ∷ map rule_of canonical_field_names;
}

abbrev policy_digest : SourceOfTruthPolicy → String
policy_digest p = p.policy_version

abbrev selection : List (String × Observation)
selection =
    ("product_type", new_execution)
    ∷ ("settlement_rule_version", new_execution)
    ∷ ("base_currency", new_execution)
    ∷ ("terms_currency", new_execution)
    ∷ ("side", new_execution)
    ∷ ("base_amount", new_execution)
    ∷ ("terms_amount", new_execution)
    ∷ ("quoted_rate", new_execution)
    ∷ ("trade_date", new_execution)
    ∷ ("value_date", new_execution)
    ∷ ("lifecycle_status", new_execution)
    ∷ ("counterparty_id", new_execution)
    ∷ ("book_id", booked)
    ∷ []

abbrev selection_again : List (String × Observation)
selection_again =
    map (λ name. (name, if name == "book_id" then booked else new_execution)) canonical_field_names

-- Version 10 is later than version 9, and the book is the booking's.
selected :
    resolve_field_selection digest policy_digest policy "trade_1" sources policy ≡ done selection
unfolding resolve_field_selection eligible_for_trade hash_matches text_le int_of sorted insert
selected = refl

selected_again :
    resolve_field_selection digest policy_digest policy "trade_1" sources_again policy
    ≡ done selection_again
unfolding resolve_field_selection eligible_for_trade hash_matches text_le int_of sorted insert
selected_again = refl

same_sources : SameItems sources sources_again
same_sources = (
  λ o m. elim m [
    | Memᴰ.head e ↦ Memᴰ.tail (Memᴰ.head e)
    | Memᴰ.tail n ↦ elim n [
      | Memᴰ.head e ↦ Memᴰ.tail (Memᴰ.tail (Memᴰ.head e))
      | Memᴰ.tail n' ↦ elim n' [ Memᴰ.head e ↦ Memᴰ.head e | Memᴰ.tail n'' ↦ elim n'' [ ] ]
    ]
  ],
  λ o m. elim m [
    | Memᴰ.head e ↦ Memᴰ.tail (Memᴰ.tail (Memᴰ.head e))
    | Memᴰ.tail n ↦ elim n [
      | Memᴰ.head e ↦ Memᴰ.head e
      | Memᴰ.tail n' ↦ elim n' [
        | Memᴰ.head e ↦ Memᴰ.tail (Memᴰ.head e)
        | Memᴰ.tail n'' ↦ elim n'' [ ]
      ]
    ]
  ],
)

resolve_field_selection_same_example : selection ≡ selection_again
resolve_field_selection_same_example =
    resolve_field_selection_same digest policy_digest policy "trade_1" sources sources_again policy
      selection selection_again same_sources selected selected_again

resolved_observation-Resolution_example :
    Resolution "base_amount" "trade_1" sources policy
      (resolved_observation "base_amount" "trade_1" sources policy)
resolved_observation-Resolution_example =
    resolved_observation-Resolution "base_amount" "trade_1" sources policy
