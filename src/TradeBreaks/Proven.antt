-- ===== src/TradeBreaks/Proven.antt =====
-- What a validated break that counts as resolved rests on.
use mathlib.Core.Option.{some-injective}
use mathlib.Core.List.{Memᴰ}
use mathlib.Core.Path.{subst}
use tradeops_sentinel.Base.{
  Bool, List, Option, Option-cases, String, [], all_pass, any, any_found, ap, arith,
  check_at_passes, eq_of_test, fails_of_any, false, false_of_not, find, find_holds, find_mem, inl,
  inr, is_none, ltb, map, none, not, refl, some, sym, true, true_ne_false, true_of_not, ℕ, ◌==◌,
  ◌∷◌, ◌≡◌, ◌≤◌, ◌⊎◌,
}
use tradeops_sentinel.Contracts.{Actor, IdentityType, agent, human, source, system}
use tradeops_sentinel.Reconciliation.Breaks.{
  BreakFamily, ambiguous_or_unmatched_linkage, currency_pair_or_side_mismatch,
  duplicate_source_conflict, economic_value_mismatch, lifecycle_status_mismatch,
  missing_required_source, post_action_verification_failure, trade_or_value_date_mismatch,
}
use tradeops_sentinel.TradeBreaks.Agreement.{Decimals, values_agree}
use tradeops_sentinel.TradeBreaks.Break.{
  BreakComparison, BreakEvidence, BreakResolution, ReconciliationPassComparison,
  ReconciliationPassProof, ReconciliationSourceValue, TradeBreak, evidence_of,
}
use tradeops_sentinel.TradeBreaks.Policy.{
  BreakEvidenceRole, owner_approved_non_action, resolution_allowed, role_name,
}
use tradeops_sentinel.TradeBreaks.Resolution.{
  also, cited, is_human, pass_proof_checks, proof_accepted, proof_checks, proof_of, proves, shows,
}
use tradeops_sentinel.TradeBreaks.Transitions.{
  BreakLifecycleState, BreakTransitionReason, action_pending, escalated,
  no_action_disposition_pending, opened, permitted, resolution_proposed, resolved,
  under_investigation, verifying,
}

-- The proof of a reconciliation that passed.
pub record IsProven (d : Decimals) (b : TradeBreak) (r : BreakResolution) : Type 0 where
  pub proof : ReconciliationPassProof
  pub given : r.reconciliation_proof ≡ some proof
  pub same_run : proof.reconciliation_run_id ≡ b.reconciliation_run_id
  pub agrees :
      (c : BreakComparison)
      → Memᴰ c b.comparisons
      → (p : ReconciliationPassComparison) × Memᴰ p proof.comparisons
        × (p.field_path ≡ c.field_path)
        × (values_agree d
              (map (λ (v : ReconciliationSourceValue). v.value) p.values)
              c.value_type
              c.tolerance
            ≡ true)

-- The approval of leaving a break as it is.
pub record IsApproved (b : TradeBreak) (r : BreakResolution) : Type 0 where
  pub approver : Actor
  pub given : r.approver ≡ some approver
  pub by_human : approver.identity_type ≡ human
  pub family_allows :
      (b.family ≡ missing_required_source) ⊎ (b.family ≡ post_action_verification_failure)

-- Evidence of a role that was captured before a time.
abbrev pub HasEvidence : TradeBreak → BreakEvidenceRole → ℕ → Type 0
HasEvidence b role at =
    (e : BreakEvidence) × Memᴰ e b.evidence
    × (role_name e.role ≡ role_name role)
    × (e.captured_at ≤ at)

pub resolved_from :
    (previous : Option BreakLifecycleState) (reason : BreakTransitionReason)
    → permitted previous resolved reason ≡ true
    → previous ≡ some verifying
unfolding permitted
resolved_from none reason h = absurd (true_ne_false (sym h))
resolved_from (some opened) reason h = absurd (true_ne_false (sym h))
resolved_from (some under_investigation) reason h = absurd (true_ne_false (sym h))
resolved_from (some resolution_proposed) reason h = absurd (true_ne_false (sym h))
resolved_from (some action_pending) reason h = absurd (true_ne_false (sym h))
resolved_from (some no_action_disposition_pending) reason h = absurd (true_ne_false (sym h))
resolved_from (some verifying) reason h = refl
resolved_from (some resolved) reason h = absurd (true_ne_false (sym h))
resolved_from (some escalated) reason h = absurd (true_ne_false (sym h))

also_parts :
    (x : Option BreakEvidence) (xs : Option (List BreakEvidence)) {items : List BreakEvidence}
    → also x xs ≡ some items
    → (e : BreakEvidence) × (es : List BreakEvidence) × (x ≡ some e)
      × (xs ≡ some es)
      × (e ∷ es ≡ items)
also_parts none xs h = absurd (true_ne_false (ap is_none h))
also_parts (some e) none h = absurd (true_ne_false (ap is_none h))
also_parts (some e) (some es) h = (e, es, refl, refl, some-injective _ _ h)

cited_mem :
    (b : TradeBreak) (ids : List String) {items : List BreakEvidence} {e : BreakEvidence}
    → cited b ids ≡ some items
    → Memᴰ e items
    → Memᴰ e b.evidence
cited_mem b [] {items} {e} h m = elim (subst (λ xs. Memᴰ e xs) (sym (some-injective _ _ h)) m) [ ]
cited_mem b (id ∷ ids) {items} {e} h m =
    let (x, xs, at, rest, whole) = also_parts (evidence_of b id) (cited b ids) h in
    elim (subst (λ ys. Memᴰ e ys) (sym whole) m) [
      | Memᴰ.head same ↦
          subst (λ y. Memᴰ y b.evidence) (sym same)
            (find_mem (λ (i : BreakEvidence). i.evidence_id == id) b.evidence at)
      | Memᴰ.tail n ↦ cited_mem b ids rest n
    ]

pub evidence_of_role :
    (b : TradeBreak) (role : BreakEvidenceRole) (ids : List String) (at : ℕ)
    {items : List BreakEvidence}
    → cited b ids ≡ some items
    → shows role items ≡ true
    → any (λ (e : BreakEvidence). ltb at e.captured_at) items ≡ false
    → HasEvidence b role at
evidence_of_role b role ids at {items} h shown early =
    let (e, m, same) =
      any_found (λ (i : BreakEvidence). role_name i.role == role_name role) items shown in
    let before = fails_of_any (λ (i : BreakEvidence). ltb at i.captured_at) early m in
    (e, cited_mem b ids h m, eq_of_test _ _ same, ground (arith, before))

proof_agrees :
    (d : Decimals) (b : TradeBreak) (proof : ReconciliationPassProof) (c : BreakComparison)
    → proves d b c (proof_of d b proof c) ≡ true
    → (p : ReconciliationPassComparison) × Memᴰ p proof.comparisons
      × (p.field_path ≡ c.field_path)
      × (values_agree d
            (map (λ (v : ReconciliationSourceValue). v.value) p.values)
            c.value_type
            c.tolerance
          ≡ true)
unfolding proves
proof_agrees d b proof c h =
    let is_it : ReconciliationPassComparison → Bool = λ p. p.field_path == c.field_path in
    elim (Option-cases (find is_it proof.comparisons)) [
      | inl nothing ↦
          let clash : false ≡ true = rw nothing at h in absurd (true_ne_false (sym clash))
      | inr (p, at) ↦
          let passes : all_pass (proof_checks d b c p) ≡ true = rw at at h in
          (
            p,
            find_mem is_it proof.comparisons at,
            eq_of_test _ _ (find_holds is_it proof.comparisons at),
            check_at_passes 5 (proof_checks d b c p) passes,
          )
    ]

pub accepted-IsProven :
    (d : Decimals) (b : TradeBreak) (r : BreakResolution)
    → proof_accepted d b r.reconciliation_proof ≡ true
    → IsProven d b r
unfolding proof_accepted
accepted-IsProven d b r h = elim (Option-cases r.reconciliation_proof) [
  | inl nothing ↦ let clash : false ≡ true = rw nothing at h in absurd (true_ne_false (sym clash))
  | inr (proof, given) ↦
      let passes : all_pass (pass_proof_checks d b proof) ≡ true = rw given at h in
      let all_proven = false_of_not (check_at_passes 6 (pass_proof_checks d b proof) passes) in
      record {
        proof = proof;
        given = given;
        same_run = eq_of_test _ _ (check_at_passes 0 (pass_proof_checks d b proof) passes);
        agrees = λ c m. proof_agrees d b proof c (
            true_of_not
              (fails_of_any (λ x. not (proves d b x (proof_of d b proof x))) all_proven m));
      }
]

human_of :
    (t : IdentityType)
    → (elim t [ system ↦ false | human ↦ true | agent ↦ false | source ↦ false ]) ≡ true
    → t ≡ human
human_of system h = absurd (true_ne_false (sym h))
human_of human h = refl
human_of agent h = absurd (true_ne_false (sym h))
human_of source h = absurd (true_ne_false (sym h))

pub approver_of :
    (a : Option Actor) → is_human a ≡ true → (x : Actor) × (a ≡ some x) × (x.identity_type ≡ human)
approver_of none h = absurd (true_ne_false (sym h))
approver_of (some a) h = (a, refl, human_of a.identity_type h)

pub allowed_families :
    (family : BreakFamily)
    → resolution_allowed family owner_approved_non_action ≡ true
    → (family ≡ missing_required_source) ⊎ (family ≡ post_action_verification_failure)
allowed_families missing_required_source h = inl refl
allowed_families ambiguous_or_unmatched_linkage h = absurd (true_ne_false (sym h))
allowed_families duplicate_source_conflict h = absurd (true_ne_false (sym h))
allowed_families currency_pair_or_side_mismatch h = absurd (true_ne_false (sym h))
allowed_families economic_value_mismatch h = absurd (true_ne_false (sym h))
allowed_families trade_or_value_date_mismatch h = absurd (true_ne_false (sym h))
allowed_families lifecycle_status_mismatch h = absurd (true_ne_false (sym h))
allowed_families post_action_verification_failure h = inr refl
