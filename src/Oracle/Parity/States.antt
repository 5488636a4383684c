-- ===== src/Oracle/Parity/States.antt =====
-- The facts for statuses and for actions, against the engine's detectors.
use mathlib.Core.Option.{some-injective}
use mathlib.Core.List.{Memᴰ}
use tradeops_sentinel.Base.{
  Bool, Bool-cases, List, Option, Option-cases, [], any, any_found, any_of_find-none, ap, arith,
  both_true, eq_iff, eq_of_test, fails_of_any, false, false_of_not, find, find_holds, find_mem, inl,
  inr, none, not, refl, some, sym, true, true_ne_false, true_of_not, ◌==◌, ◌||◌, ◌↔◌, ◌∙◌, ◌∷◌, ◌≡◌,
  ◌⊎◌,
}
use tradeops_sentinel.Contracts.{Observation}
use tradeops_sentinel.Oracle.Comparisons.{is_unexpected, lifecycle_fact, lifecycle_facts}
use tradeops_sentinel.Oracle.Parity.{SamePolicy, oracle_ordered_eq}
use tradeops_sentinel.Oracle.Policy.{OracleConfig}
use tradeops_sentinel.Reconciliation.Config.{
  LifecycleExpectedStatusRule, ReconciliationConfig, lifecycle_rule,
}
use tradeops_sentinel.Reconciliation.Context.{Context}
use tradeops_sentinel.Reconciliation.Duplicates.{ordered_observations}
use tradeops_sentinel.Reconciliation.Duplicates.Members.{mem_of_ordered, mem_ordered}
use tradeops_sentinel.Reconciliation.Lifecycle.{Judged, first_invalid, is_exempt, judge}
use tradeops_sentinel.Reconciliation.Run.Pass.{IsLifecycleClean}
use tradeops_sentinel.Remediation.Store.AtMostOnce.{back}

-- One status, amended or cancelled, for all observations.
AllTerminal : List Observation → Type 0
AllTerminal os =
    (o : Observation) × Memᴰ o os
    × ((o.payload.lifecycle_status == "AMENDED" || o.payload.lifecycle_status == "CANCELLED")
        ≡ true)
    × ((x : Observation) → Memᴰ x os → x.payload.lifecycle_status ≡ o.payload.lifecycle_status)

is_exempt_iff : (os : List Observation) → (is_exempt os ≡ true) ↔ AllTerminal os
unfolding AllTerminal
is_exempt_iff [] = (λ h. cc, λ (o, m, _, _). elim m [ ])
is_exempt_iff (o ∷ os) =
    let differs : Observation → Bool =
      λ x. not (x.payload.lifecycle_status == o.payload.lifecycle_status) in
    (
      λ h.
          let (alike, terminal) = both_true {a = not (any differs os)} h in
          (
            o,
            Memᴰ.head refl,
            terminal,
            λ x m. elim m [
              | Memᴰ.head e ↦ ap (λ (y : Observation). y.payload.lifecycle_status) e
              | Memᴰ.tail n ↦
                  let fails = fails_of_any differs (false_of_not alike) n in
                  eq_of_test _ _ (true_of_not fails)
            ],
          ),
      λ (p, m, terminal, alike).
          let same : o.payload.lifecycle_status ≡ p.payload.lifecycle_status =
            alike o (Memᴰ.head refl) in
          let none_differs : any differs os ≡ false = elim (Bool-cases (any differs os)) [
            | inr fails ↦ fails
            | inl holds ↦
                let (x, mx, e) = any_found differs os holds in
                let equal : x.payload.lifecycle_status ≡ o.payload.lifecycle_status =
                  alike x (Memᴰ.tail mx) ∙ sym same in
                let test = (eq_iff x.payload.lifecycle_status o.payload.lifecycle_status).1 equal in
                absurd (ground (arith, e, test))
          ] in
          rw (none_differs, same, terminal) refl,
    )

pub is_exempt_ordered :
    (os : List Observation) → (is_exempt os ≡ true) ↔ (is_exempt (ordered_observations os) ≡ true)
unfolding AllTerminal
is_exempt_ordered os =
    let (out, back) = is_exempt_iff os in
    let (out', back') = is_exempt_iff (ordered_observations os) in
    (
      λ h.
          let (o, m, terminal, alike) = out h in
          back' (o, mem_ordered os m, terminal, λ x mx. alike x (mem_of_ordered os mx)),
      λ h.
          let (o, m, terminal, alike) = out' h in
          back (o, mem_of_ordered os m, terminal, λ x mx. alike x (mem_ordered os mx)),
    )

-- Each observation has the status that the rule of its kind expects.
abbrev pub AllExpected : ReconciliationConfig → List Observation → Type 0
AllExpected c os =
    (o : Observation)
    → Memᴰ o os
    → (rule : LifecycleExpectedStatusRule) × (lifecycle_rule c o.observation_kind ≡ some rule)
      × (o.payload.lifecycle_status ≡ rule.expected_status)

-- Nothing is to be said about the statuses.
abbrev pub AsConfigured : ReconciliationConfig → List Observation → Type 0
AsConfigured c os = (is_exempt os ≡ true) ⊎ AllExpected c os

module _ (oc : OracleConfig) (c : ReconciliationConfig) (same : SamePolicy oc c) where
  is_unexpected_iff :
      (o : Observation)
      → (is_unexpected oc o ≡ false) ↔ (
          (rule : LifecycleExpectedStatusRule) × (lifecycle_rule c o.observation_kind ≡ some rule)
          × (o.payload.lifecycle_status ≡ rule.expected_status))
  is_unexpected_iff o = elim (Option-cases (lifecycle_rule c o.observation_kind)) [
    | inl nothing ↦ (
      λ h.
          let clash : true ≡ false = rw (same.same_statuses o.observation_kind, nothing) at h in
          absurd (true_ne_false clash),
      λ (rule, at, _). let clash : none ≡ some rule = sym nothing ∙ at in cc,
    )
    | inr (rule, at) ↦
        let e = eq_iff o.payload.lifecycle_status rule.expected_status in
        (
          λ h.
              let test : not (o.payload.lifecycle_status == rule.expected_status) ≡ false =
                rw (same.same_statuses o.observation_kind, at) at h in
              (rule, at, e.0 (true_of_not test)),
          λ (rule', at', equal).
              let same_rule : rule' ≡ rule = some-injective _ _ (sym at' ∙ at) in
              let equal' : o.payload.lifecycle_status ≡ rule.expected_status =
                equal ∙ ap (λ (r : LifecycleExpectedStatusRule). r.expected_status) same_rule in
              rw (same.same_statuses o.observation_kind, at, e.1 equal') refl,
        )
  ]

  lifecycle_fact-nil_iff :
      (found : Option Observation) → (lifecycle_fact oc found ≡ []) ↔ (found ≡ none)
  lifecycle_fact-nil_iff none = (λ _. refl, λ _. refl)
  lifecycle_fact-nil_iff (some o) = (λ h. cc, λ h. cc)

  none_unexpected_iff :
      (os : List Observation)
      → (find (is_unexpected oc) (ordered_observations os) ≡ none) ↔ AllExpected c os
  none_unexpected_iff os = (
    λ h o m. (is_unexpected_iff o).0 (
        fails_of_any (is_unexpected oc) (any_of_find-none _ (ordered_observations os) h)
          (mem_ordered os m)),
    λ all. elim (Option-cases (find (is_unexpected oc) (ordered_observations os))) [
      | inl nothing ↦ nothing
      | inr (o, at) ↦
          let m = find_mem (is_unexpected oc) (ordered_observations os) at in
          let quiet = (is_unexpected_iff o).1 (all o (mem_of_ordered os m)) in
          let holds = find_holds (is_unexpected oc) (ordered_observations os) at in
          absurd (true_ne_false (sym holds ∙ quiet))
    ],
  )

  pub lifecycle_facts-nil_iff :
      (os : List Observation) → (lifecycle_facts oc os ≡ []) ↔ AsConfigured c os
  unfolding lifecycle_facts
  lifecycle_facts-nil_iff os =
      let (out, back) = none_unexpected_iff os in
      let (to, from) = lifecycle_fact-nil_iff (find (is_unexpected oc) (ordered_observations os)) in
      elim (Bool-cases (is_exempt os)) [
        | inl exempt ↦ (λ _. inl exempt, λ _. rw exempt refl)
        | inr more ↦ (
          λ h. inr (out (to (rw (more, oracle_ordered_eq os) at h))),
          λ h. elim h [
            | inl exempt ↦ absurd (true_ne_false (sym exempt ∙ more))
            | inr all ↦ rw (more, oracle_ordered_eq os) (from (back all))
          ],
        )
      ]

-- The engine judges observations as expected that the oracle does not report.
judged_expected :
    (c : ReconciliationConfig) (os : List Observation)
    → AllExpected c os
    → (js : List Judged) × (judge c os ≡ some js) × (first_invalid js ≡ none)
unfolding judge
judged_expected c [] all = ([], refl, refl)
judged_expected c (o ∷ os) all =
    let (rule, at, equal) = all o (Memᴰ.head refl) in
    let (js, e, quiet) = judged_expected c os (λ x m. all x (Memᴰ.tail m)) in
    let test = (eq_iff o.payload.lifecycle_status rule.expected_status).1 equal in
    (
      record { observation = o; expected_status = rule.expected_status } ∷ js,
      rw (at, e) refl,
      rw (test, quiet) refl,
    )

pub configured-IsLifecycleClean :
    (c : ReconciliationConfig) (ctx : Context)
    → AsConfigured c ctx.source_observations
    → IsLifecycleClean c ctx (ordered_observations ctx.source_observations)
configured-IsLifecycleClean c ctx (inl exempt) =
    inl ((is_exempt_ordered ctx.source_observations).0 exempt)
configured-IsLifecycleClean c ctx (inr all) =
    let os = ctx.source_observations in
    let (js, e, quiet) =
      judged_expected c (ordered_observations os) (λ o m. all o (mem_of_ordered os m)) in
    inr (js, e, inl quiet)
