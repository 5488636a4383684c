-- ===== src/TradeBreaks/Comparisons.antt =====
-- packages/contracts/models.py (TradeBreak.validate_break_invariants): the fields that a break
-- compares, with their sources and their evidence.
use tradeops_sentinel.Base.{
  Bool, List, Option, String, [], any, false, ids_distinct, if◌then◌else◌, is_none, map, none, not,
  some, true, ◌&&◌, ◌==◌, ◌||◌, ◌∷◌,
}
use tradeops_sentinel.TradeBreaks.Break.{
  BreakComparison, BreakEvidence, TradeBreak, evidence_of, has_version, is_in, is_text, source_of,
}
use tradeops_sentinel.TradeBreaks.Policy.{
  comparison_policy, comparison_roles, is_missing_family, role_name, value_type_name,
  wants_distinct_sources,
}

module _ (b : TradeBreak) where
  abbrev pub operand_valid : Option String → Option String → Bool
  operand_valid (some id) (some version) = has_version version (source_of b id)
  operand_valid _ _ = false

  abbrev pub same_operand : Option String → Option String → Bool
  same_operand none none = true
  same_operand (some id) (some other) = id == other
  same_operand _ _ = false

  abbrev pub operands_valid : BreakComparison → Bool
  operands_valid c =
      (if is_missing_family b.family
        then is_none c.expected_source_observation_id && is_none c.expected_source_version
        else operand_valid c.expected_source_observation_id c.expected_source_version)
      && operand_valid c.observed_source_observation_id c.observed_source_version

  abbrev pub cites : String → Option BreakEvidence → Bool
  cites id none = false
  cites id (some e) = is_text e.source_observation_id id

  -- `operand in cited_source_ids`
  abbrev pub operand_cited : BreakComparison → Option String → Bool
  operand_cited c none = false
  operand_cited c (some id) = any (λ i. cites id (evidence_of b i)) c.evidence_ids

  abbrev pub binds : BreakComparison → Option BreakEvidence → Bool
  binds c none = false
  binds c (some e) =
      is_text e.field_path c.field_path
      && is_in (map role_name (comparison_roles b.family)) (role_name e.role)

  abbrev pub comparison_checks : BreakComparison → List Bool
  comparison_checks c =
      any
        (λ (path, type).
          path == c.field_path && value_type_name type == value_type_name c.value_type)
        (comparison_policy b.family)
      ∷ ids_distinct c.evidence_ids
      ∷ operands_valid c
      ∷ (not (wants_distinct_sources b.family)
          || not (same_operand c.expected_source_observation_id c.observed_source_observation_id))
      ∷ (is_missing_family b.family
          || operand_cited c c.expected_source_observation_id
            && operand_cited c c.observed_source_observation_id)
      ∷ not (any (λ i. not (binds c (evidence_of b i))) c.evidence_ids)
      ∷ []
