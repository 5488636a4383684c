-- ===== src/TradeBreaks/Transitions/Histories.antt =====
-- Sequences of permitted changes of the state of a break: they end, and they can end well.
use mathlib.Core.List.{Memᴰ}
use tradeops_sentinel.Base.{
  Bool, Option-cases, any, any_found, ap, arith, both_true, fails_of_any, false, if◌then◌else◌, inl,
  inr, ltb, nat_eq, none, not, refl, some, suc, sym, true, true_ne_false, true_of_not, ℕ, ◌+◌, ◌<◌,
  ◌∙◌, ◌≡◌, ◌≤◌, ◌⊎◌,
}
use tradeops_sentinel.TradeBreaks.Transitions.{
  BreakLifecycleState, BreakTransitionReason, Transition, action_authorisation_pending,
  action_pending, begin_investigation, begin_verification, escalate, escalated,
  no_action_disposition_pending, opened, permitted, propose_resolution, resolution_proposed,
  resolution_verified, resolved, same_previous, same_state, same_transition, state_index,
  transition_of, transition_policy, under_investigation, verifying,
}

-- A history of validated versions of a break, each of which has the state before it as its previous
-- state, with the number of changes.
pub data Moves : BreakLifecycleState → BreakLifecycleState → ℕ → Type 0 where
  stay : {s : BreakLifecycleState} → Moves s s 0
  move :
      {n : ℕ} {s t u : BreakLifecycleState} (reason : BreakTransitionReason)
      → permitted (some s) t reason ≡ true
      → Moves t u n
      → Moves s u (suc n)

-- How many changes a break can still have.
abbrev pub changes_left : BreakLifecycleState → ℕ
changes_left opened = 5
changes_left under_investigation = 4
changes_left resolution_proposed = 3
changes_left action_pending = 2
changes_left no_action_disposition_pending = 2
changes_left verifying = 1
changes_left resolved = 0
changes_left escalated = 0

state_at : ℕ → BreakLifecycleState
state_at n =
    if nat_eq n 0
    then opened
    else if nat_eq n 1
    then under_investigation
    else if nat_eq n 2
    then resolution_proposed
    else if nat_eq n 3
    then action_pending
    else if nat_eq n 4
    then no_action_disposition_pending
    else if nat_eq n 5
    then verifying
    else if nat_eq n 6
    then resolved
    else escalated

state_at-state_index : (s : BreakLifecycleState) → state_at (state_index s) ≡ s
unfolding state_at
state_at-state_index opened = refl
state_at-state_index under_investigation = refl
state_at-state_index resolution_proposed = refl
state_at-state_index action_pending = refl
state_at-state_index no_action_disposition_pending = refl
state_at-state_index verifying = refl
state_at-state_index resolved = refl
state_at-state_index escalated = refl

eq_of_same_state : (s t : BreakLifecycleState) → same_state s t ≡ true → s ≡ t
eq_of_same_state s t h =
    let e : state_index s ≡ state_index t = ground (arith, h) in
    sym (state_at-state_index s) ∙ ap state_at e ∙ state_at-state_index t

-- A row that does not bring a break nearer to its end.
abbrev stalls : Transition → Bool
stalls t = elim t.from_state [
  | none ↦ false
  | some s ↦ not (ltb (changes_left t.to_state) (changes_left s))
]

none_stalls : any stalls transition_policy ≡ false
none_stalls = refl

-- A permitted change is a row of the table.
row_of :
    (s t : BreakLifecycleState) (reason : BreakTransitionReason)
    → permitted (some s) t reason ≡ true
    → (x : Transition) × Memᴰ x transition_policy × (x.from_state ≡ some s) × (x.to_state ≡ t)
unfolding permitted
row_of s t reason h =
    let asked = transition_of (some s) t reason in
    let (x, m, same) = any_found (same_transition asked) transition_policy h in
    let from_same : same_previous (some s) x.from_state ≡ true = (both_true (both_true same).0).0 in
    let to_same : same_state t x.to_state ≡ true = (both_true (both_true same).0).1 in
    elim (Option-cases x.from_state) [
      | inl nothing ↦
          let clash : false ≡ true = rw nothing at from_same in absurd (true_ne_false (sym clash))
      | inr (s', at) ↦
          let same_s : same_state s s' ≡ true = rw at at from_same in
          (
            x,
            m,
            at ∙ ap some (sym (eq_of_same_state s s' same_s)),
            sym (eq_of_same_state t x.to_state to_same),
          )
    ]

stalls_from :
    (x : Transition) (s t : BreakLifecycleState)
    → x.from_state ≡ some s
    → x.to_state ≡ t
    → stalls x ≡ false
    → ltb (changes_left t) (changes_left s) ≡ true
stalls_from x s t from_s to_t quiet = true_of_not (rw (from_s, to_t) at quiet)

change_counts :
    (s t : BreakLifecycleState) (reason : BreakTransitionReason)
    → permitted (some s) t reason ≡ true
    → changes_left t < changes_left s
change_counts s t reason h =
    let (x, m, from_s, to_t) = row_of s t reason h in
    let quiet = fails_of_any stalls none_stalls m in
    let moves_on = stalls_from x s t from_s to_t quiet in ground (arith, moves_on)

left_after : {s t : BreakLifecycleState} {n : ℕ} → Moves s t n → n + changes_left t ≤ changes_left s
left_after stay = omega arith
left_after (move {n} {s} {t} {u} reason allowed rest) =
    omega (arith, left_after rest, change_counts s t reason allowed)

at_most_five : (s : BreakLifecycleState) → changes_left s ≤ 5
at_most_five s = ground arith

-- Every sequence of permitted changes of a break is finite: from its detection on there are at most
-- five, and from any state no more than its distance from an end, of which the changes that remain
-- are left.
pub Moves-bounded :
    (s t : BreakLifecycleState) (n : ℕ)
    → Moves s t n
    → (n + changes_left t ≤ changes_left s) × (n ≤ 5)
Moves-bounded s t n m = (left_after m, omega (arith, left_after m, at_most_five s))

from_verifying : Moves verifying resolved 1
unfolding permitted
from_verifying = move resolution_verified refl stay

from_action : Moves action_pending resolved 2
unfolding permitted
from_action = move begin_verification refl from_verifying

from_disposition : Moves no_action_disposition_pending resolved 2
unfolding permitted
from_disposition = move begin_verification refl from_verifying

from_proposed : Moves resolution_proposed resolved 3
unfolding permitted
from_proposed = move action_authorisation_pending refl from_action

from_investigation : Moves under_investigation resolved 4
unfolding permitted
from_investigation = move propose_resolution refl from_proposed

from_opened : Moves opened resolved 5
unfolding permitted
from_opened = move begin_investigation refl from_investigation

-- A break that is neither resolved nor escalated can be escalated by one change, and can be resolved
-- by a sequence of permitted changes; a resolved or escalated break has no permitted change.
pub lifecycle_live :
    (s : BreakLifecycleState)
    → (((s ≡ resolved) ⊎ (s ≡ escalated))
        × ((t : BreakLifecycleState) (reason : BreakTransitionReason)
            → permitted (some s) t reason ≡ false))
      ⊎ ((permitted (some s) escalated escalate ≡ true) × (n : ℕ) × Moves s resolved n)
unfolding permitted
lifecycle_live opened = inr (refl, 5, from_opened)
lifecycle_live under_investigation = inr (refl, 4, from_investigation)
lifecycle_live resolution_proposed = inr (refl, 3, from_proposed)
lifecycle_live action_pending = inr (refl, 2, from_action)
lifecycle_live no_action_disposition_pending = inr (refl, 2, from_disposition)
lifecycle_live verifying = inr (refl, 1, from_verifying)
lifecycle_live resolved = inl (inl refl, λ t reason. refl)
lifecycle_live escalated = inl (inr refl, λ t reason. refl)
