-- ===== src/TradeBreaks/Resolution.antt =====
-- packages/contracts/models.py (BreakResolution and the last part of
-- TradeBreak.validate_break_invariants): when a break counts as resolved.
use tradeops_sentinel.Base.{
  Bool, List, Option, String, [], all_pass, any, false, find, ids_distinct, if◌then◌else◌, is_none,
  leb, ltb, map, none, not, some, true, ℕ, ◌&&◌, ◌==◌, ◌||◌, ◌∷◌,
}
use tradeops_sentinel.Contracts.{Actor, agent, human, source, system}
use tradeops_sentinel.Reconciliation.Breaks.{family_name}
use tradeops_sentinel.TradeBreaks.Agreement.{Decimals, values_agree}
use tradeops_sentinel.TradeBreaks.Break.{
  BreakComparison, BreakEvidence, BreakResolution, BreakSourceReference,
  ReconciliationPassComparison, ReconciliationPassProof, ReconciliationSourceReference,
  ReconciliationSourceValue, TradeBreak, evidence_of, has_version, is_in, is_text, same_set,
  source_of,
}
use tradeops_sentinel.TradeBreaks.Policy.{
  BreakEvidenceRole, BreakResolutionType, condition_name, disposition_approval, is_missing_family,
  owner_approved_non_action, reconciliation_pass, reconciliation_result, resolution_allowed,
  resolution_code, role_name, value_type_name, wants_distinct_sources,
}
use tradeops_sentinel.TradeBreaks.Transitions.{resolved, same_state}

abbrev pub has_role : BreakEvidenceRole → List BreakEvidenceRole → Bool
has_role role roles = is_in (map role_name roles) (role_name role)

abbrev pub is_human : Option Actor → Bool
is_human none = false
is_human (some a) = elim a.identity_type [
  | system ↦ false
  | human ↦ true
  | agent ↦ false
  | source ↦ false
]

abbrev pub shape_checks : BreakResolution → BreakResolutionType → List Bool
shape_checks r reconciliation_pass =
    not (is_none r.reconciliation_run_id)
    ∷ not (is_none r.reconciliation_proof)
    ∷ (is_none r.disposition_id && is_none r.approver)
    ∷ has_role reconciliation_result r.evidence_roles
    ∷ []
shape_checks r owner_approved_non_action =
    (not (is_none r.disposition_id) && not (is_none r.approver))
    ∷ is_human r.approver
    ∷ is_none r.reconciliation_run_id
    ∷ is_none r.reconciliation_proof
    ∷ has_role disposition_approval r.evidence_roles
    ∷ []

-- `BreakResolution.resolution_shape`
unfoldable pub resolution_shape : BreakResolution → Bool
unfolding all_pass ids_distinct
resolution_shape r =
    ids_distinct r.evidence_ids
    && ids_distinct (map role_name r.evidence_roles)
    && all_pass (shape_checks r r.resolution_type)

abbrev pub also : Option BreakEvidence → Option (List BreakEvidence) → Option (List BreakEvidence)
also (some e) (some es) = some (e ∷ es)
also _ _ = none

-- The evidence that the identifiers name; none if one is not of the break.
abbrev pub cited : TradeBreak → List String → Option (List BreakEvidence)
cited b [] = some []
cited b (id ∷ ids) = let rest = cited b ids in also (evidence_of b id) rest

-- `role in resolution_roles`
abbrev pub shows : BreakEvidenceRole → List BreakEvidence → Bool
shows role = any (λ (e : BreakEvidence). role_name e.role == role_name role)

module _ (d : Decimals) (b : TradeBreak) where
  -- `proof_source_versions != expected_source_versions`, negated, for identifiers that are unique.
  abbrev pub same_versions : List ReconciliationSourceReference → Bool
  same_versions references =
      not (
        any
          (λ (r : ReconciliationSourceReference).
            not (has_version r.source_version (source_of b r.source_observation_id)))
          references)
      && not (
          any
            (λ (s : BreakSourceReference). not (
              any
                (λ (r : ReconciliationSourceReference).
                  r.source_observation_id == s.source_observation_id
                  && r.source_version == s.source_version)
                references))
            b.source_version_set)

  abbrev pub proof_ids : ReconciliationPassComparison → List String
  proof_ids p = map (λ (v : ReconciliationSourceValue). v.source_observation_id) p.values

  -- `required_proof_ids.issubset(proof_ids)`
  abbrev pub operand_shown : ReconciliationPassComparison → Option String → Bool
  operand_shown p none = false
  operand_shown p (some id) = is_in (proof_ids p) id

  -- `len(ids) >= 2` for the set of the identifiers.
  abbrev pub two_differ : List String → Bool
  two_differ [] = false
  two_differ (one ∷ rest) = any (λ id. not (id == one)) rest

  abbrev pub proof_checks : BreakComparison → ReconciliationPassComparison → List Bool
  proof_checks c p =
      (value_type_name p.value_type == value_type_name c.value_type)
      ∷ not (
          any
            (λ (v : ReconciliationSourceValue).
              not (has_version v.source_version (source_of b v.source_observation_id)))
            p.values)
      ∷ (is_missing_family b.family || operand_shown p c.expected_source_observation_id)
      ∷ operand_shown p c.observed_source_observation_id
      ∷ (not (wants_distinct_sources b.family) || two_differ (proof_ids p))
      ∷ values_agree d (map (λ (v : ReconciliationSourceValue). v.value) p.values) c.value_type
          c.tolerance
      ∷ []

  -- `proof_by_path[comparison.field_path]`, for paths that are unique.
  abbrev pub proof_of :
      ReconciliationPassProof → BreakComparison → Option ReconciliationPassComparison
  proof_of proof c =
      find (λ (p : ReconciliationPassComparison). p.field_path == c.field_path) proof.comparisons

  unfoldable pub proves : BreakComparison → Option ReconciliationPassComparison → Bool
  unfolding all_pass
  proves c none = false
  proves c (some p) = all_pass (proof_checks c p)

  abbrev pub pass_proof_checks : ReconciliationPassProof → List Bool
  unfolding proves
  pass_proof_checks proof =
      (proof.reconciliation_run_id == b.reconciliation_run_id)
      ∷ (family_name proof.family == family_name b.family)
      ∷ (condition_name proof.condition_code == condition_name b.condition_code)
      ∷ (proof.predicate_code == resolution_code b.family)
      ∷ same_versions proof.source_version_set
      ∷ same_set (map (λ (p : ReconciliationPassComparison). p.field_path) proof.comparisons)
          (map (λ (c : BreakComparison). c.field_path) b.comparisons)
      ∷ not (any (λ c. not (proves c (proof_of proof c))) b.comparisons)
      ∷ []

  unfoldable pub proof_accepted : Option ReconciliationPassProof → Bool
  unfolding all_pass proves
  proof_accepted none = false
  proof_accepted (some proof) = all_pass (pass_proof_checks proof)

  -- What a resolution of either type needs, besides its evidence.
  unfoldable pub type_accepted : BreakResolution → BreakResolutionType → List BreakEvidence → Bool
  unfolding proof_accepted
  type_accepted r reconciliation_pass items =
      shows reconciliation_result items
      && is_text r.reconciliation_run_id b.reconciliation_run_id
      && proof_accepted r.reconciliation_proof
  type_accepted r owner_approved_non_action items = shows disposition_approval items

  unfoldable pub evidence_accepted : ℕ → BreakResolution → Option (List BreakEvidence) → Bool
  unfolding type_accepted
  evidence_accepted resolved_at r none = false
  evidence_accepted resolved_at r (some items) =
      same_set (map (λ (e : BreakEvidence). role_name e.role) items)
        (map role_name r.evidence_roles)
      && type_accepted r r.resolution_type items
      && not (any (λ (e : BreakEvidence). ltb resolved_at e.captured_at) items)

  -- The checks of a resolved break.
  unfoldable pub resolved_valid : Option ℕ → Option BreakResolution → Bool
  unfolding evidence_accepted
  resolved_valid (some resolved_at) (some r) =
      leb b.state_changed_at resolved_at
      && resolution_allowed b.family r.resolution_type
      && evidence_accepted resolved_at r (cited b r.evidence_ids)
  resolved_valid _ _ = false

  -- The end of `validate_break_invariants`.
  unfoldable pub resolution_checked : Bool
  unfolding resolved_valid
  resolution_checked =
      if same_state b.state resolved
      then resolved_valid b.resolved_at b.resolution
      else is_none b.resolved_at && is_none b.resolution
