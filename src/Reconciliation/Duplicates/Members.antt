-- ===== src/Reconciliation/Duplicates/Members.antt =====
-- The members of the observations in the engine's order.
use mathlib.Core.List.{Memᴰ}
use tradeops_sentinel.Base.{List, mem-sorted, mem_sorted_of_mem}
use tradeops_sentinel.Contracts.{Observation}
use tradeops_sentinel.Reconciliation.Duplicates.{observation_le, ordered_observations}

pub mem_ordered :
    (os : List Observation) {o : Observation} → Memᴰ o os → Memᴰ o (ordered_observations os)
unfolding ordered_observations
mem_ordered os m = mem_sorted_of_mem observation_le os m

pub mem_of_ordered :
    (os : List Observation) {o : Observation} → Memᴰ o (ordered_observations os) → Memᴰ o os
unfolding ordered_observations
mem_of_ordered os m = mem-sorted observation_le os m
