-- ===== src/TradeBreaks/Resolved.antt =====
-- Validated breaks that are resolved.
use tradeops_sentinel.Base.{
  List, Option, Option-cases, all_pass, any, arith, both_true, check_at_passes, false, false_of_not,
  inl, inr, leb, ltb, none, refl, some, sym, true, true_ne_false, ℕ, ◌≡◌, ◌≤◌, ◌⊎◌,
}
use tradeops_sentinel.TradeBreaks.Agreement.{Decimals}
use tradeops_sentinel.TradeBreaks.Break.{BreakEvidence, BreakResolution, TradeBreak}
use tradeops_sentinel.TradeBreaks.Detection.{detection_checks, validate_break_invariants}
use tradeops_sentinel.TradeBreaks.Policy.{
  BreakResolutionType, disposition_approval, owner_approved_non_action, reconciliation_pass,
  reconciliation_result, resolution_allowed,
}
use tradeops_sentinel.TradeBreaks.Proven.{
  HasEvidence, IsApproved, IsProven, accepted-IsProven, allowed_families, approver_of,
  evidence_of_role, resolved_from,
}
use tradeops_sentinel.TradeBreaks.Resolution.{
  cited, evidence_accepted, resolution_checked, resolution_shape, resolved_valid, shape_checks,
  shows, type_accepted,
}
use tradeops_sentinel.TradeBreaks.Transitions.{permitted, resolved, verifying}

-- What a resolution of either type guarantees.
abbrev pub IsJustified : Decimals → TradeBreak → BreakResolution → ℕ → Type 0
IsJustified d b r at =
    (IsProven d b r × HasEvidence b reconciliation_result at)
    ⊎ (IsApproved b r × HasEvidence b disposition_approval at)

shape_passes :
    (r : BreakResolution)
    → resolution_shape r ≡ true
    → all_pass (shape_checks r r.resolution_type) ≡ true
unfolding resolution_shape
shape_passes r h = (both_true h).1

type_accepted-IsJustified :
    (d : Decimals) (b : TradeBreak) (r : BreakResolution) (at : ℕ) (type : BreakResolutionType)
    {items : List BreakEvidence}
    → cited b r.evidence_ids ≡ some items
    → resolution_allowed b.family type ≡ true
    → all_pass (shape_checks r type) ≡ true
    → type_accepted d b r type items ≡ true
    → any (λ (e : BreakEvidence). ltb at e.captured_at) items ≡ false
    → IsJustified d b r at
unfolding all_pass type_accepted
type_accepted-IsJustified d b r at reconciliation_pass {items} named allowed shape taken early =
    let (shown, proven) = both_true taken in
    inl (
      accepted-IsProven d b r proven,
      evidence_of_role b reconciliation_result r.evidence_ids at named
          (both_true {a = shows reconciliation_result items} shown).0 early,
    )
type_accepted-IsJustified d b r at owner_approved_non_action named allowed shape taken early =
    let (x, given, by_human) =
      approver_of r.approver (check_at_passes 1 (shape_checks r owner_approved_non_action) shape) in
    inr (
      record {
        approver = x;
        given = given;
        by_human = by_human;
        family_allows = allowed_families b.family allowed;
      },
      evidence_of_role b disposition_approval r.evidence_ids at named taken early,
    )

evidence_accepted-IsJustified :
    (d : Decimals) (b : TradeBreak) (r : BreakResolution) (at : ℕ)
    → resolution_allowed b.family r.resolution_type ≡ true
    → resolution_shape r ≡ true
    → evidence_accepted d b at r (cited b r.evidence_ids) ≡ true
    → IsJustified d b r at
unfolding evidence_accepted
evidence_accepted-IsJustified d b r at allowed shape h =
    elim (Option-cases (cited b r.evidence_ids)) [
      | inl nothing ↦
          let clash : false ≡ true = rw nothing at h in absurd (true_ne_false (sym clash))
      | inr (items, named) ↦
          let taken : evidence_accepted d b at r (some items) ≡ true = rw named at h in
          let (roles_and_type, in_time) = both_true taken in
          type_accepted-IsJustified d b r at r.resolution_type named allowed (shape_passes r shape)
            (both_true {b = type_accepted d b r r.resolution_type items} roles_and_type).1
            (false_of_not in_time)
    ]

resolved_valid-IsJustified :
    (d : Decimals) (b : TradeBreak) (at : Option ℕ) (r : Option BreakResolution)
    → ((x : BreakResolution) → r ≡ some x → resolution_shape x ≡ true)
    → resolved_valid d b at r ≡ true
    → (n : ℕ) × (x : BreakResolution) × (at ≡ some n)
      × (r ≡ some x)
      × (b.state_changed_at ≤ n)
      × IsJustified d b x n
unfolding resolved_valid
resolved_valid-IsJustified d b none r shape h = absurd (true_ne_false (sym h))
resolved_valid-IsJustified d b (some n) none shape h = absurd (true_ne_false (sym h))
resolved_valid-IsJustified d b (some n) (some x) shape h =
    let (times, evidenced) = both_true h in
    let (after, allowed) = both_true {a = leb b.state_changed_at n} times in
    (
      n,
      x,
      refl,
      refl,
      ground (arith, after),
      evidence_accepted-IsJustified d b x n allowed (shape x refl) evidenced,
    )

-- A validated break in the state RESOLVED, whose resolution is validated too, was being verified
-- before, carries a resolution and the time of it, which is not before its change of state, and is
-- justified: either by the proof of a passed reconciliation of its own run, in which the values of
-- every compared field agree, with evidence of the result, or, for a missing source or a failed
-- verification only, by a human who approved to leave it, with evidence of that; the evidence was
-- captured no later than the resolution.
pub resolved-IsJustified :
    (d : Decimals) (b : TradeBreak)
    → validate_break_invariants b d ≡ true
    → ((r : BreakResolution) → b.resolution ≡ some r → resolution_shape r ≡ true)
    → b.state ≡ resolved
    → (b.previous_state ≡ some verifying)
      × (n : ℕ) × (r : BreakResolution) × (b.resolved_at ≡ some n)
      × (b.resolution ≡ some r)
      × (b.state_changed_at ≤ n)
      × IsJustified d b r n
unfolding validate_break_invariants resolution_checked
resolved-IsJustified d b h shape at =
    let (described, rest) = both_true h in
    let moved : permitted b.previous_state b.state b.transition_reason ≡ true =
      check_at_passes 19 (detection_checks b) described in
    let valid : resolved_valid d b b.resolved_at b.resolution ≡ true = rw at at rest in
    let (n, r, timed, given, after, justified) =
      resolved_valid-IsJustified d b b.resolved_at b.resolution shape valid in
    (
      resolved_from b.previous_state b.transition_reason (rw at at moved),
      n,
      r,
      timed,
      given,
      after,
      justified,
    )
