-- ===== src/Reconciliation/Run/Pass.antt =====
-- When a run passes.
pub mod Arrivals
pub mod Detectors
pub mod Whole
use mathlib.Core.List.{Memᴰ}
use tradeops_sentinel.Base.{List, [], find, none, some, true, ◌<◌, ◌∷◌, ◌≡◌, ◌≤◌, ◌⊎◌}
use tradeops_sentinel.Contracts.{Observation}
use tradeops_sentinel.Reconciliation.Config.{
  ArrivalWindowRule, EconomicField, MissingSourceKind, ReconciliationConfig, arrival_rule,
}
use tradeops_sentinel.Reconciliation.Context.{Context, effective_evaluated_at}
use tradeops_sentinel.Reconciliation.Duplicates.{same_key}
use tradeops_sentinel.Reconciliation.Economic.Agreement.{IsWithin}
use tradeops_sentinel.Reconciliation.Fields.{
  base_currency, side, terms_currency, trade_date, value_date,
}
use tradeops_sentinel.Reconciliation.Fields.Agreement.{AgreeOn}
use tradeops_sentinel.Reconciliation.Lifecycle.{Judged, first_invalid, is_exempt, is_other, judge}
use tradeops_sentinel.Reconciliation.Linkage.{LinkageDecision, accepted}
use tradeops_sentinel.Reconciliation.PostAction.Verified.{Verified}
use tradeops_sentinel.Reconciliation.Run.{economic_provenance}
use tradeops_sentinel.Reconciliation.Sources.{deadline, is_available}

-- Each detector reports nothing, and raises nothing, on the observations in the engine's order.
module _ (c : ReconciliationConfig) (ctx : Context) (observations : List Observation) where
  -- Each required source is there, or its window is still open and ends at a time that is representable.
  abbrev pub AllArrived : Type 0
  AllArrived =
      (k : MissingSourceKind)
      → (is_available k observations ≡ true)
        ⊎ ((rule : ArrivalWindowRule) × (arrival_rule c ctx.canonical_state.product_type k
              ≡ some rule)
            × (effective_evaluated_at ctx < deadline ctx.canonical_state.source_watermark rule)
            × (deadline ctx.canonical_state.source_watermark rule
                ≤ ctx.canonical_state.latest_time))

  -- The observations are linked to the canonical trade.
  abbrev pub IsLinked : Type 0
  IsLinked =
      (d : LinkageDecision) × (ctx.linkage_decision ≡ some d)
      × (d.decision ≡ accepted)
      × (d.chosen_trade_id ≡ some ctx.canonical_state.trade_id)

  -- No version of a source has two contents.
  abbrev pub NoConflict : Type 0
  NoConflict =
      (a b : Observation)
      → Memᴰ a observations
      → Memᴰ b observations
      → same_key a b ≡ true
      → a.content_hash ≡ b.content_hash

  abbrev pub AllWithin : Type 0
  AllWithin =
      (f : EconomicField) (o : Observation)
      → Memᴰ o observations
      → IsWithin c ctx.canonical_state.product_type (economic_provenance ctx) observations f o

  -- No life cycle break: all observations have the status of an amended trade, or all that of a
  -- cancelled one; or each has the status that its rule expects; or one has a status that its rule does
  -- not expect, but no other observation is there to compare it with, which the engine lets pass.
  abbrev pub IsLifecycleClean : Type 0
  IsLifecycleClean =
      (is_exempt observations ≡ true)
      ⊎ ((js : List Judged) × (judge c observations ≡ some js)
          × ((first_invalid js ≡ none)
              ⊎ ((o : Judged) × (first_invalid js ≡ some o) × (find (is_other o) js ≡ none))))

  abbrev pub IsClean : Type 0
  IsClean =
      AllArrived
      × IsLinked
      × NoConflict
      × AgreeOn (base_currency ∷ terms_currency ∷ side ∷ []) observations
      × AllWithin
      × AgreeOn (trade_date ∷ value_date ∷ []) observations
      × IsLifecycleClean
      × Verified ctx.post_action_verification
