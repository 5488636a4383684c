-- ===== src/TradeBreaks/Agreement.antt =====
-- packages/contracts/models.py (_reconciliation_values_agree): when the values of a proof agree.
-- What the decimal module computes for the texts of a proof: the number of a text, `a == b`,
-- `abs(a - b)`, `abs(a) * b` and `a <= b`, with false and none for what raises.
use tradeops_sentinel.Base.{
  Bool, List, Option, String, [], and_then, any, collect, false, is_none, map_some, none, not, some,
  true, ◌&&◌, ◌==◌, ◌∷◌,
}
use tradeops_sentinel.Reconciliation.Config.{
  ToleranceMode, absolute_decimal, no_tolerance, relative_decimal,
}
use tradeops_sentinel.TradeBreaks.Break.{BreakTolerance}
use tradeops_sentinel.TradeBreaks.Policy.{BreakValueType, decimal}

pub record Decimals : Type 1 where
  pub Number : Type 0
  pub number_of : String → Option Number
  pub equal : Number → Number → Bool
  pub difference : Number → Number → Option Number
  pub product : Number → Number → Option Number
  pub less_eq : Number → Number → Bool

module _ (d : Decimals) where
  abbrev pub within : Option d.Number → Option d.Number → Bool
  within (some x) (some y) = d.less_eq x y
  within _ _ = false

  -- `value` agrees with the first of the values.
  abbrev pub close : BreakTolerance → d.Number → d.Number → Bool
  close t one value = elim t.mode [
    | no_tolerance ↦ d.equal value one
    | absolute_decimal ↦ within (d.difference value one) (and_then t.value d.number_of)
    | relative_decimal ↦
        within (d.difference value one) (and_then (and_then t.value d.number_of) (d.product one))
  ]

  -- The tolerance is read before any value is compared.
  abbrev pub tolerance_read : BreakTolerance → ToleranceMode → Bool
  tolerance_read t no_tolerance = true
  tolerance_read t _ = not (is_none (and_then t.value d.number_of))

  abbrev pub all_close : BreakTolerance → List d.Number → Bool
  all_close t [] = false
  all_close t (one ∷ rest) =
      tolerance_read t t.mode && not (any (λ value. not (close t one value)) rest)

  abbrev pub decimals_agree : Option (List d.Number) → BreakTolerance → Bool
  decimals_agree none t = false
  decimals_agree (some numbers) t = all_close t numbers

  abbrev pub all_same : List String → Bool
  all_same [] = false
  all_same (one ∷ rest) = not (any (λ value. not (value == one)) rest)

  -- `_reconciliation_values_agree`
  abbrev pub values_agree : List String → BreakValueType → BreakTolerance → Bool
  values_agree values decimal t =
      decimals_agree (collect (λ text. map_some (λ n. n ∷ []) (d.number_of text)) values) t
  values_agree values _ t = all_same values
