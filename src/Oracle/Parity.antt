-- ===== src/Oracle/Parity.antt =====
-- The oracle and the engine on the same inputs.
pub mod Sources
pub mod Values
use mathlib.Core.List.{Memᴰ}
use tradeops_sentinel.Base.{
  List, and_then, false, map_some, mem-sorted, mem_sorted_of_mem, refl, ◌==◌, ◌≡◌,
}
use tradeops_sentinel.Contracts.{Observation, ObservationKind}
use tradeops_sentinel.Oracle.Facts.{oracle_ordered}
use tradeops_sentinel.Oracle.Policy.{
  OracleConfig, expected_status_of, oracle_rule, tolerance_of, window_seconds,
}
use tradeops_sentinel.Reconciliation.Config.{
  ArrivalWindowRule, DecimalToleranceRule, EconomicField, LifecycleExpectedStatusRule,
  MissingSourceKind, ProductType, ReconciliationConfig, arrival_rule, decimal_rule, lifecycle_rule,
}
use tradeops_sentinel.Reconciliation.Duplicates.{observation_le, ordered_observations}
pub mod States
pub mod Actions
pub mod Result
pub mod Whole
use mathlib.Core.List.{Memᴰ}
use tradeops_sentinel.Base.{
  List, and_then, false, map_some, mem-sorted, mem_sorted_of_mem, refl, ◌==◌, ◌≡◌,
}
use tradeops_sentinel.Contracts.{Observation, ObservationKind}
use tradeops_sentinel.Oracle.Facts.{oracle_ordered}
use tradeops_sentinel.Oracle.Policy.{
  OracleConfig, expected_status_of, oracle_rule, tolerance_of, window_seconds,
}
use tradeops_sentinel.Reconciliation.Config.{
  ArrivalWindowRule, DecimalToleranceRule, EconomicField, LifecycleExpectedStatusRule,
  MissingSourceKind, ProductType, ReconciliationConfig, arrival_rule, decimal_rule, lifecycle_rule,
}
use tradeops_sentinel.Reconciliation.Duplicates.{observation_le, ordered_observations}

-- The two configurations have the same rules, and that of the oracle has a name and a version.
pub record SamePolicy (oc : OracleConfig) (c : ReconciliationConfig) : Type 0 where
  pub has_id : (oc.config_id == "") ≡ false
  pub has_version : (oc.config_version == "") ≡ false
  pub same_windows :
      (p : ProductType) (k : MissingSourceKind)
      → window_seconds oc p k
        ≡ map_some (λ (r : ArrivalWindowRule). r.window_seconds) (arrival_rule c p k)
  pub same_tolerances :
      (p : ProductType) (f : EconomicField)
      → oracle_rule oc p f
        ≡ and_then (decimal_rule c p f) (λ (r : DecimalToleranceRule). tolerance_of r.mode r.value)
  pub same_statuses :
      (k : ObservationKind)
      → expected_status_of oc k
        ≡ map_some (λ (r : LifecycleExpectedStatusRule). r.expected_status) (lifecycle_rule c k)

pub oracle_ordered_eq : (os : List Observation) → oracle_ordered os ≡ ordered_observations os
unfolding ordered_observations oracle_ordered
oracle_ordered_eq os = refl
