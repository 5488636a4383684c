-- ===== src/Reconciliation/Run/Pass/Arrivals.antt =====
-- When the detector of missing sources is quiet in a run.
use mathlib.Core.Option.{some-injective}
use mathlib.Core.Path.{subst}
use tradeops_sentinel.Base.{
  List, Option, [], ap, arith, count, false, inl, inr, map, map_some, none, refl, some, sym, true,
  true_ne_false, ◌<◌, ◌↔◌, ◌∙◌, ◌∷◌, ◌≡◌, ◌≤◌, ◌⊎◌,
}
use tradeops_sentinel.Contracts.{Observation}
use tradeops_sentinel.Reconciliation.Config.{
  ArrivalWindowRule, MissingSourceKind, ReconciliationConfig, arrival_rule,
  validate_complete_policy,
}
use tradeops_sentinel.Reconciliation.Context.{Context, effective_evaluated_at}
use tradeops_sentinel.Reconciliation.Run.{missing_to_break}
use tradeops_sentinel.Reconciliation.Run.Pass.{AllArrived}
use tradeops_sentinel.Reconciliation.Sources.{
  MissingSourceBreak, deadline, is_available, missing_source_breaks,
}
use tradeops_sentinel.Reconciliation.Sources.Reported.{
  Reported, is_for, missing_source_breaks-Reported, same_source_refl,
}

map_some-nil_iff :
    {A B : Type 0} (f : A → B) (found : Option (List A))
    → (map_some (map f) found ≡ some []) ↔ (found ≡ some [])
map_some-nil_iff f none = (λ h. cc, λ h. cc)
map_some-nil_iff f (some []) = (λ h. refl, λ h. refl)
map_some-nil_iff f (some (x ∷ xs)) = (λ h. cc, λ h. cc)

-- Breaks of missing sources, of which each kind has none.
no_source_breaks :
    (breaks : List MissingSourceBreak)
    → ((k : MissingSourceKind) → count (is_for k) breaks ≡ 0)
    → breaks ≡ []
no_source_breaks [] h = refl
no_source_breaks (b ∷ bs) h =
    let clash = h b.expected_observation_kind in
    absurd (ground (arith, clash, same_source_refl b.expected_observation_kind))

module _ (c : ReconciliationConfig) (ctx : Context) (observations : List Observation) where
  -- What `AllArrived` asks of one source.
  abbrev Arrived : MissingSourceKind → Type 0
  Arrived k =
      (is_available k observations ≡ true)
      ⊎ ((rule : ArrivalWindowRule) × (arrival_rule c ctx.canonical_state.product_type k
            ≡ some rule)
          × (effective_evaluated_at ctx < deadline ctx.canonical_state.source_watermark rule)
          × (deadline ctx.canonical_state.source_watermark rule ≤ ctx.canonical_state.latest_time))

  none_of :
      (k : MissingSourceKind) (rule : ArrivalWindowRule) (breaks : List MissingSourceBreak)
      → arrival_rule c ctx.canonical_state.product_type k ≡ some rule
      → Reported rule ctx.canonical_state.source_watermark ctx.canonical_state.latest_time
          (effective_evaluated_at ctx)
          observations
          k
          breaks
      → Arrived k
      → count (is_for k) breaks ≡ 0
  none_of k rule breaks at (inr (zero_, _)) h = zero_
  none_of k rule breaks at (inl (one, _, absent, late)) (inl there) =
      absurd (true_ne_false (sym there ∙ absent))
  none_of k rule breaks at (inl (one, _, absent, late)) (inr (other, at_other, open_, _)) =
      let same : other ≡ rule = some-injective _ _ (sym at_other ∙ at) in
      let still : effective_evaluated_at ctx < deadline ctx.canonical_state.source_watermark rule =
        subst
          (λ (r : ArrivalWindowRule).
            effective_evaluated_at ctx < deadline ctx.canonical_state.source_watermark r)
          same open_ in
      absurd (omega (arith, late, still))

  not_over :
      (k : MissingSourceKind) (rule : ArrivalWindowRule)
      → arrival_rule c ctx.canonical_state.product_type k ≡ some rule
      → is_available k observations ≡ false
      → ctx.canonical_state.latest_time < deadline ctx.canonical_state.source_watermark rule
      → Arrived k
      → ⊥
  not_over k rule at absent over (inl there) = true_ne_false (sym there ∙ absent)
  not_over k rule at absent over (inr (other, at_other, _, fits)) =
      let same : other ≡ rule = some-injective _ _ (sym at_other ∙ at) in
      let fits' : deadline ctx.canonical_state.source_watermark rule
          ≤ ctx.canonical_state.latest_time =
        subst
          (λ (r : ArrivalWindowRule).
            deadline ctx.canonical_state.source_watermark r ≤ ctx.canonical_state.latest_time)
          same fits in
      omega (arith, over, fits')

  missing_of_none :
      (k : MissingSourceKind) (rule : ArrivalWindowRule) (breaks : List MissingSourceBreak)
      → arrival_rule c ctx.canonical_state.product_type k ≡ some rule
      → breaks ≡ []
      → Reported rule ctx.canonical_state.source_watermark ctx.canonical_state.latest_time
          (effective_evaluated_at ctx)
          observations
          k
          breaks
      → Arrived k
  missing_of_none k rule breaks at empty (inl (one, _, _, _)) =
      let zero_ : count (is_for k) breaks ≡ 0 = rw empty refl in absurd (omega (arith, one, zero_))
  missing_of_none k rule breaks at empty (inr (_, inl there)) = inl there
  missing_of_none k rule breaks at empty (inr (_, inr (open_, fits))) = inr (rule, at, open_, fits)

  pub arrived_iff :
      validate_complete_policy c ≡ true
      → (map_some (map (missing_to_break observations)) (
            missing_source_breaks c ctx.canonical_state.product_type
              ctx.canonical_state.source_watermark ctx.canonical_state.latest_time
              (effective_evaluated_at ctx)
              observations)
          ≡ some [])
        ↔ AllArrived c ctx observations
  arrived_iff valid =
      let found =
        missing_source_breaks c ctx.canonical_state.product_type
          ctx.canonical_state.source_watermark ctx.canonical_state.latest_time
          (effective_evaluated_at ctx) observations in
      let (out, into) = map_some-nil_iff (missing_to_break observations) found in
      elim (missing_source_breaks-Reported c ctx.canonical_state.product_type
        ctx.canonical_state.source_watermark ctx.canonical_state.latest_time
        (effective_evaluated_at ctx) observations valid) [
          | inl (breaks, at, each) ↦ (
            λ h k.
                let (rule, at_rule, reported) = each k in
                let empty : breaks ≡ [] = some-injective _ _ (sym at ∙ out h) in
                missing_of_none k rule breaks at_rule empty reported,
            λ all.
                let empty : breaks ≡ [] = no_source_breaks breaks (λ k.
                  let (rule, at_rule, reported) = each k in
                  none_of k rule breaks at_rule reported (all k)) in
                into (at ∙ ap some empty),
          )
          | inr (k, rule, at_rule, absent, over, raised) ↦ (
            λ h. let clash : none ≡ some [] = sym raised ∙ out h in cc,
            λ all. absurd (not_over k rule at_rule absent over (all k)),
          )
        ]
