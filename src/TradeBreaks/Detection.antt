-- ===== src/TradeBreaks/Detection.antt =====
-- packages/contracts/models.py (TradeBreak.validate_break_invariants): what a break of each family
-- must carry.
use tradeops_sentinel.Base.{
  Bool, List, Option, String, [], all_pass, any, false, find, ids_distinct, is_none, leb, ltb, map,
  nat_eq, none, not, some, true, ℕ, ◌&&◌, ◌+◌, ◌==◌, ◌||◌, ◌∷◌,
}
use tradeops_sentinel.Reconciliation.Config.{ProductType, product_name, same_kind}
use tradeops_sentinel.Reconciliation.Sources.{
  BreakSeverity, DeadlineStatus, critical, due, high, medium, no_configured_deadline,
  observation_of, overdue,
}
use tradeops_sentinel.TradeBreaks.Agreement.{Decimals}
use tradeops_sentinel.TradeBreaks.Break.{
  BreakComparison, BreakEvidence, BreakSourceReference, DuplicateSourceConflict, MaterialityBand,
  MissingSourceExpectation, TradeBreak, all_in, has_version, is_in, is_text, material, negated,
  non_material, pos, same_integer, same_set, source_of, unassessed,
}
use tradeops_sentinel.TradeBreaks.Comparisons.{comparison_checks}
use tradeops_sentinel.TradeBreaks.Policy.{
  BreakEvidenceRole, condition_name, condition_of, expected_severity, expected_source,
  ingestion_watermark, is_duplicate_family, is_missing_family, required_roles, role_name,
}
use tradeops_sentinel.TradeBreaks.Resolution.{resolution_checked}
use tradeops_sentinel.TradeBreaks.Transitions.{permitted}

abbrev pub materiality_rank : MaterialityBand → ℕ
materiality_rank material = 1
materiality_rank unassessed = 2
materiality_rank non_material = 3

abbrev pub severity_rank : BreakSeverity → ℕ
severity_rank critical = 1
severity_rank high = 2
severity_rank medium = 3

abbrev pub deadline_rank : DeadlineStatus → ℕ
deadline_rank overdue = 1
deadline_rank due = 2
deadline_rank no_configured_deadline = 3

abbrev pub same_severity : Option BreakSeverity → BreakSeverity → Bool
same_severity none s = false
same_severity (some r) s = nat_eq (severity_rank r) (severity_rank s)

-- `_validate_settlement_window`
abbrev pub settlement_window_valid : ProductType → ℕ → ℕ → Bool
settlement_window_valid product traded valued =
    leb traded valued
    && (not (product_name product == "FX_FORWARD") || ltb traded valued)
    && (not (product_name product == "FX_SPOT") || leb valued (traded + 4))

module _ (b : TradeBreak) where
  -- The checks of the expected source of a missing-source break; none of the others has one.
  abbrev pub expectation_valid : Bool → Option MissingSourceExpectation → Bool
  expectation_valid false expectation = is_none expectation
  expectation_valid true none = false
  expectation_valid true (some m) =
      (elim b.severity_context [
        | none ↦ false
        | some kind ↦ same_kind kind (observation_of m.expected_observation_kind)
      ])
      && leb m.expected_by b.detected_at

  abbrev pub expected_absent : Bool → Option MissingSourceExpectation → Bool
  expected_absent false _ = true
  expected_absent true none = false
  expected_absent true (some m) = not (
      any
        (λ (s : BreakSourceReference).
          same_kind s.observation_kind (observation_of m.expected_observation_kind))
        b.source_version_set)

  -- `next(item for item in evidence if item.role == role)`
  abbrev pub first_with : BreakEvidenceRole → Option BreakEvidence
  first_with role = find (λ (e : BreakEvidence). role_name e.role == role_name role) b.evidence

  abbrev pub captured_then : ℕ → Option BreakEvidence → Bool
  captured_then at none = false
  captured_then at (some e) = nat_eq e.captured_at at

  abbrev pub names_path : String → Option BreakEvidence → Bool
  names_path path none = false
  names_path path (some e) = is_text e.field_path path

  abbrev pub watermark_shown : Bool → Option MissingSourceExpectation → Bool
  watermark_shown false _ = true
  watermark_shown true none = false
  watermark_shown true (some m) =
      captured_then m.watermark_at (first_with ingestion_watermark)
      && names_path m.field_path (first_with expected_source)

  abbrev pub of_conflict : DuplicateSourceConflict → Option BreakSourceReference → Bool
  of_conflict k none = false
  of_conflict k (some s) =
      s.source_business_key == k.source_business_key && s.source_version == k.source_version

  -- `len({source.content_hash for source in sources}) >= 2`
  abbrev pub hashes_differ : List BreakSourceReference → Bool
  hashes_differ [] = false
  hashes_differ (one ∷ rest) =
      any (λ (s : BreakSourceReference). not (s.content_hash == one.content_hash)) rest

  abbrev pub conflict_valid : Bool → Option DuplicateSourceConflict → Bool
  conflict_valid false conflict = is_none conflict
  conflict_valid true none = false
  conflict_valid true (some k) =
      same_set k.source_observation_ids
        (map (λ (s : BreakSourceReference). s.source_observation_id) b.source_version_set)
      && not (any (λ id. not (of_conflict k (source_of b id))) k.source_observation_ids)
      && hashes_differ b.source_version_set

  -- The evidence names a source of the break, with its version, or no source.
  abbrev pub evidence_strays : BreakEvidence → Bool
  evidence_strays e = elim e.source_observation_id [
    | none ↦ false
    | some id ↦ elim e.source_version [
      | none ↦ true
      | some version ↦ not (has_version version (source_of b id))
    ]
  ]

  abbrev pub path_unknown : BreakEvidence → Bool
  path_unknown e = elim e.field_path [
    | none ↦ false
    | some path ↦ not (is_in b.evaluated_field_paths path)
  ]

  -- `self.priority.ordering_key == expected_ordering_key`
  abbrev pub ordering_key_valid : Bool
  ordering_key_valid =
      let (m, s, d, a) = b.priority.ordering_key in
      same_integer m (pos (materiality_rank b.priority.materiality_band))
      && same_integer s (pos (severity_rank b.severity))
      && same_integer d (pos (deadline_rank b.priority.deadline_status))
      && same_integer a (negated b.priority.case_age_seconds)

  abbrev pub version_valid : Option String → Bool
  version_valid none = not (ltb 1 b.break_version)
  version_valid (some id) =
      not (nat_eq b.break_version 1) && not (ltb 1 b.break_version && id == b.break_id)

  -- The checks up to those of the resolution, in their order.
  abbrev pub detection_checks : List Bool
  unfolding all_pass permitted ids_distinct
  detection_checks =
      let missing = is_missing_family b.family in
      let expectation = b.missing_source_expectation in
      let paths = map (λ (c : BreakComparison). c.field_path) b.comparisons in
      let roles = map (λ (e : BreakEvidence). role_name e.role) b.evidence in
      (product_name b.product_context.product_type == product_name b.product_type)
      ∷ settlement_window_valid b.product_type b.product_context.trade_date
          b.product_context.value_date
      ∷ (condition_name b.condition_code == condition_name (condition_of b.family))
      ∷ same_severity (expected_severity b.family b.severity_context) b.severity
      ∷ expectation_valid missing expectation
      ∷ ids_distinct
          (map (λ (s : BreakSourceReference). s.source_observation_id) b.source_version_set)
      ∷ not (
          any
            (λ (s : BreakSourceReference).
              not (s.source_tenant_id == b.tenant_id && s.source_portfolio_id == b.portfolio_id))
            b.source_version_set)
      ∷ expected_absent missing expectation
      ∷ ids_distinct b.evaluated_field_paths
      ∷ ids_distinct paths
      ∷ same_set b.evaluated_field_paths paths
      ∷ ids_distinct (map (λ (e : BreakEvidence). e.evidence_id) b.evidence)
      ∷ all_in (map role_name (required_roles b.family)) roles
      ∷ watermark_shown missing expectation
      ∷ conflict_valid (is_duplicate_family b.family) b.duplicate_source_conflict
      ∷ not (any evidence_strays b.evidence)
      ∷ not (any (λ c. not (all_pass (comparison_checks b c))) b.comparisons)
      ∷ not (any path_unknown b.evidence)
      ∷ ordering_key_valid
      ∷ permitted b.previous_state b.state b.transition_reason
      ∷ leb b.detected_at b.state_changed_at
      ∷ version_valid b.supersedes_break_id
      ∷ []

  -- `TradeBreak.validate_break_invariants`
  unfoldable pub validate_break_invariants : Decimals → Bool
  unfolding all_pass permitted ids_distinct resolution_checked
  validate_break_invariants d = all_pass detection_checks && resolution_checked d b
