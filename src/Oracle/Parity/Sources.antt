-- ===== src/Oracle/Parity/Sources.antt =====
-- The facts for missing sources, the linkage and duplicates, against the engine's detectors.
use mathlib.Core.Option.{some-injective}
use mathlib.Core.List.{Memᴰ}
use mathlib.Core.Path.{subst}
use tradeops_sentinel.Base.{
  Bool-cases, List, Option, Option-cases, [], any_eq_of, any_eq_of_mem, arith, collect-nil_iff,
  false, first, inl, inr, ltb, map_some, none, refl, some, sym, true, true_ne_false, ◌<◌, ◌==◌, ◌↔◌,
  ◌∙◌, ◌∷◌, ◌≡◌, ◌≢◌, ◌≤◌, ◌⊎◌,
}
use tradeops_sentinel.Contracts.{
  Observation, ObservationKind, booking, confirmation, execution, kind_name, trade_capture,
}
use tradeops_sentinel.Oracle.Facts.{
  OracleFact, duplicate_fact, duplicate_facts, group_facts, linkage_fact, linkage_facts,
  missing_fact, missing_facts_of, missing_source_facts, oracle_linkage_invalid, oracle_ordered,
  required_there, when_over,
}
use tradeops_sentinel.Oracle.Parity.{SamePolicy}
use tradeops_sentinel.Oracle.Policy.{OracleConfig, required_name, required_source_kinds}
use tradeops_sentinel.Reconciliation.Config.{
  ArrivalWindowRule, MissingSourceKind, ReconciliationConfig, arrival_rule, booking_source,
  confirmation_source, execution_source, same_kind,
}
use tradeops_sentinel.Reconciliation.Context.{CanonicalTradeState, Context, effective_evaluated_at}
use tradeops_sentinel.Reconciliation.Duplicates.{
  first_of_each, group_of, has_conflict, ordered_observations,
}
use tradeops_sentinel.Reconciliation.Duplicates.Conflicts.{groups_quiet_iff}
use tradeops_sentinel.Reconciliation.Duplicates.Members.{mem_of_ordered, mem_ordered}
use tradeops_sentinel.Reconciliation.Linkage.{LinkageDecision, linkage_break, linkage_invalid}
use tradeops_sentinel.Reconciliation.Run.Pass.{AllArrived, IsLinked, NoConflict}
use tradeops_sentinel.Reconciliation.Run.Pass.Detectors.{
  IsScoped, linkage_breaks-nil_iff, linked_iff,
}
use tradeops_sentinel.Reconciliation.Sources.{deadline, is_available, observation_of}

kind_matches :
    (kind : ObservationKind) (k : MissingSourceKind)
    → (kind_name kind == required_name k) ≡ same_kind kind (observation_of k)
kind_matches execution execution_source = refl
kind_matches execution confirmation_source = refl
kind_matches execution booking_source = refl
kind_matches trade_capture execution_source = refl
kind_matches trade_capture confirmation_source = refl
kind_matches trade_capture booking_source = refl
kind_matches confirmation execution_source = refl
kind_matches confirmation confirmation_source = refl
kind_matches confirmation booking_source = refl
kind_matches booking execution_source = refl
kind_matches booking confirmation_source = refl
kind_matches booking booking_source = refl

required_there_eq :
    (os : List Observation) (k : MissingSourceKind)
    → required_there os k ≡ is_available k (ordered_observations os)
required_there_eq os k =
    any_eq_of (λ (o : Observation). kind_name o.observation_kind == required_name k)
      (λ o. same_kind o.observation_kind (observation_of k)) os
      (λ o. kind_matches o.observation_kind k)
    ∙ any_eq_of_mem (λ o. same_kind o.observation_kind (observation_of k)) os
        (ordered_observations os) (λ o. mem_ordered os) (λ o. mem_of_ordered os)

map_some-ne-nil :
    {A : Type 0} (f : A → OracleFact) (found : Option A) → map_some (λ a. f a ∷ []) found ≢ some []
map_some-ne-nil f none h = cc
map_some-ne-nil f (some a) h = cc

module _ (oc : OracleConfig) (c : ReconciliationConfig) (ctx : Context)
    (same : SamePolicy oc c) where
  -- The window of the rule is open, and its end is representable.
  abbrev IsOpen : ArrivalWindowRule → Type 0
  IsOpen rule =
      (effective_evaluated_at ctx < deadline ctx.canonical_state.source_watermark rule)
      × (deadline ctx.canonical_state.source_watermark rule ≤ ctx.canonical_state.latest_time)

  abbrev Arrived : MissingSourceKind → Type 0
  Arrived k =
      (is_available k (ordered_observations ctx.source_observations) ≡ true)
      ⊎ ((rule : ArrivalWindowRule) × (arrival_rule c ctx.canonical_state.product_type k
            ≡ some rule)
          × (effective_evaluated_at ctx < deadline ctx.canonical_state.source_watermark rule)
          × (deadline ctx.canonical_state.source_watermark rule ≤ ctx.canonical_state.latest_time))

  abbrev when : MissingSourceKind → Option ArrivalWindowRule → Option (List OracleFact)
  when k found =
      when_over k ctx.canonical_state.source_watermark ctx.canonical_state.latest_time
        (effective_evaluated_at ctx) ctx.source_observations
        (map_some (λ (r : ArrivalWindowRule). r.window_seconds) found)

  when-nil_iff :
      (k : MissingSourceKind) (rule : ArrivalWindowRule)
      → (when k (some rule) ≡ some []) ↔ IsOpen rule
  when-nil_iff k rule =
      let due = deadline ctx.canonical_state.source_watermark rule in
      elim (Bool-cases (ltb ctx.canonical_state.latest_time due)) [
        | inl over ↦ (
          λ h. let clash : none ≡ some [] = rw over at h in cc,
          λ (early, fits). absurd (ground (arith, over, fits)),
        )
        | inr fits ↦ elim (Bool-cases (ltb (effective_evaluated_at ctx) due)) [
          | inl early ↦
              (λ _. (ground (arith, early), ground (arith, fits)), λ _. rw (fits, early) refl)
          | inr late ↦ (
            λ h. absurd (
                map_some-ne-nil (missing_fact k) (first (oracle_ordered ctx.source_observations))
                  (rw (fits, late) at h)),
            λ (early, _). absurd (ground (arith, late, early)),
          )
        ]
      ]

  missing_facts_of-nil_iff :
      (k : MissingSourceKind)
      → (missing_facts_of oc ctx.canonical_state
            (effective_evaluated_at ctx)
            ctx.source_observations
            k
          ≡ some [])
        ↔ Arrived k
  unfolding missing_facts_of
  missing_facts_of-nil_iff k =
      let p = ctx.canonical_state.product_type in
      let there = required_there_eq ctx.source_observations k in
      elim (Bool-cases (is_available k (ordered_observations ctx.source_observations))) [
        | inl here ↦ (λ _. inl here, λ _. rw (there, here) refl)
        | inr absent ↦ elim (Option-cases (arrival_rule c p k)) [
          | inl nothing ↦ (
            λ h.
                let clash : none ≡ some [] =
                  rw (there, absent, same.same_windows p k, nothing) at h in
                cc,
            λ h. elim h [
              | inl here ↦ absurd (true_ne_false (sym here ∙ absent))
              | inr (rule, at, _, _) ↦ let clash : none ≡ some rule = sym nothing ∙ at in cc
            ],
          )
          | inr (rule, at) ↦
              let (out, into) = when-nil_iff k rule in
              (
                λ h.
                    let (early, fits) = out (rw (there, absent, same.same_windows p k, at) at h) in
                    inr (rule, at, early, fits),
                λ h. elim h [
                  | inl here ↦ absurd (true_ne_false (sym here ∙ absent))
                  | inr (rule', at', early, fits) ↦
                      let same_rule : rule' ≡ rule = some-injective _ _ (sym at' ∙ at) in
                      rw (there, absent, same.same_windows p k, at)
                        (into (subst (λ (r : ArrivalWindowRule). IsOpen r) same_rule (early, fits)))
                ],
              )
        ]
      ]

  required_listed : (k : MissingSourceKind) → Memᴰ k required_source_kinds
  required_listed execution_source = Memᴰ.head refl
  required_listed confirmation_source = Memᴰ.tail (Memᴰ.head refl)
  required_listed booking_source = Memᴰ.tail (Memᴰ.tail (Memᴰ.head refl))

  pub missing_source_facts-nil_iff :
      (missing_source_facts oc ctx.canonical_state
          (effective_evaluated_at ctx)
          ctx.source_observations
        ≡ some [])
      ↔ AllArrived c ctx (ordered_observations ctx.source_observations)
  unfolding missing_source_facts
  missing_source_facts-nil_iff =
      let (out, into) =
        collect-nil_iff
          (missing_facts_of oc ctx.canonical_state (effective_evaluated_at ctx)
            ctx.source_observations)
          required_source_kinds in
      (
        λ h k. (missing_facts_of-nil_iff k).0 (out h k (required_listed k)),
        λ all. into (λ k _. (missing_facts_of-nil_iff k).1 (all k)),
      )

linkage_invalid_eq :
    (s : CanonicalTradeState) (decision : Option LinkageDecision)
    → oracle_linkage_invalid s decision
      ≡ linkage_invalid s.trade_id s.tenant_id s.portfolio_id decision
unfolding oracle_linkage_invalid linkage_invalid
linkage_invalid_eq s none = refl
linkage_invalid_eq s (some d) = refl

pub linkage_facts-nil_iff :
    (c : ReconciliationConfig) (ctx : Context)
    → IsScoped ctx
    → (linkage_facts ctx.canonical_state ctx.source_observations ctx.linkage_decision ≡ some [])
      ↔ IsLinked c ctx (ordered_observations ctx.source_observations)
unfolding linkage_facts linkage_break
linkage_facts-nil_iff c ctx scoped =
    let s = ctx.canonical_state in
    let os = ordered_observations ctx.source_observations in
    let same = linkage_invalid_eq s ctx.linkage_decision in
    let (out, into) = linked_iff c ctx os scoped in
    let (to, from) =
      linkage_breaks-nil_iff os
        (linkage_break s.trade_id s.tenant_id s.portfolio_id ctx.linkage_decision) in
    elim (Bool-cases (linkage_invalid s.trade_id s.tenant_id s.portfolio_id ctx.linkage_decision)) [
      | inl bad ↦ (
        λ h. absurd (
            map_some-ne-nil (linkage_fact ctx.linkage_decision)
              (first (oracle_ordered ctx.source_observations)) (rw (same, bad) at h)),
        λ linked. let clash : some _ ≡ none = rw bad at (to (into linked)) in cc,
      )
      | inr good ↦ (λ h. out (from (rw good refl)), λ _. rw (same, good) refl)
    ]

duplicate_fact-ne-nil : (group : List Observation) → duplicate_fact group ≢ some []
duplicate_fact-ne-nil [] h = cc
duplicate_fact-ne-nil (a ∷ []) h = cc
duplicate_fact-ne-nil (a ∷ b ∷ rest) h = cc

group_facts-nil_iff :
    (group : List Observation) → (group_facts group ≡ some []) ↔ (has_conflict group ≡ false)
unfolding group_facts
group_facts-nil_iff group = elim (Bool-cases (has_conflict group)) [
  | inl conflict ↦ (
    λ h. absurd (duplicate_fact-ne-nil (oracle_ordered group) (rw conflict at h)),
    λ h. absurd (true_ne_false (sym conflict ∙ h)),
  )
  | inr quiet ↦ (λ _. quiet, λ _. rw quiet refl)
]

pub duplicate_facts-nil_iff :
    (c : ReconciliationConfig) (ctx : Context)
    → (duplicate_facts ctx.source_observations ≡ some [])
      ↔ NoConflict c ctx (ordered_observations ctx.source_observations)
unfolding duplicate_facts
duplicate_facts-nil_iff c ctx =
    let os = ctx.source_observations in
    let (out, into) = groups_quiet_iff os in
    let (to, from) = collect-nil_iff (λ o. group_facts (group_of os o)) (first_of_each os) in
    (
      λ h a b ma mb.
          out (λ r m. (group_facts-nil_iff (group_of os r)).0 (to h r m)) a b (mem_of_ordered os ma)
            (mem_of_ordered os mb),
      λ all. from (λ r m.
          (group_facts-nil_iff (group_of os r)).1
            (into (λ a b ma mb. all a b (mem_ordered os ma) (mem_ordered os mb)) r m)),
    )
