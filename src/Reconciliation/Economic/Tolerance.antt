-- ===== src/Reconciliation/Economic/Tolerance.antt =====
-- The tolerance of a configured rule: the test never raises, and a number is within it of itself.
use native.Mathlib.Nat.{zero-mul}
use tradeops_sentinel.Base.{
  Bool, Option, String, ap, arith, inl, inr, leb, none, refl, some, true, ℕ, ◌*◌, ◌≡◌, ◌⊎◌,
}
use tradeops_sentinel.Reconciliation.Config.{
  DecimalToleranceRule, ToleranceMode, absolute_decimal, no_tolerance, relative_decimal,
}
use tradeops_sentinel.Reconciliation.Decimal.{
  Decimal, at_scale, decimal_of, distance, max_scale, rounded, within_tolerance,
}
use tradeops_sentinel.Reconciliation.Economic.{allows}

-- `BreakTolerance`, with a value that is a decimal.
abbrev pub IsTolerance : DecimalToleranceRule → Type 0
IsTolerance r =
    ((r.mode ≡ no_tolerance) × (r.value ≡ none))
    ⊎ ((text : String) × (d : Decimal) × (r.value ≡ some text) × (decimal_of text ≡ some d))

pub within_total :
    (expected observed : Decimal) (mode : ToleranceMode) (d : Decimal)
    → (b : Bool) × (within_tolerance expected observed mode (some d) ≡ some b)
unfolding within_tolerance
within_total expected observed no_tolerance d = (_, refl)
within_total expected observed absolute_decimal d = (_, refl)
within_total expected observed relative_decimal d = (_, refl)

rounded_nil : rounded 0 ≡ 0
unfolding rounded
rounded_nil = refl

distance_self : (n : ℕ) → distance n n ≡ 0
distance_self n = ground arith

zero_product_le : (a b : ℕ) → leb (0 * a) b ≡ true
zero_product_le a b = ground (arith, zero-mul a)

-- A number is within every tolerance of itself.
within_self :
    (e : Decimal) (mode : ToleranceMode) (allowed : Option Decimal)
    → (mode ≡ no_tolerance) ⊎ ((d : Decimal) × (allowed ≡ some d))
    → within_tolerance e e mode allowed ≡ some true
unfolding within_tolerance
within_self e no_tolerance allowed h = rw (distance_self (at_scale (max_scale e e) e)) refl
within_self e absolute_decimal none h = ground arith
within_self e relative_decimal none h = ground arith
within_self e absolute_decimal (some d) h =
    rw (distance_self (at_scale (max_scale e e) e), rounded_nil) (ap some (zero_product_le _ _))
within_self e relative_decimal (some d) h =
    rw (distance_self (at_scale (max_scale e e) e), rounded_nil) (ap some (zero_product_le _ _))

none_total :
    (expected observed : Decimal)
    → (b : Bool) × (within_tolerance expected observed no_tolerance none ≡ some b)
unfolding within_tolerance
none_total expected observed = (_, refl)

pub allows_total :
    (r : DecimalToleranceRule) (expected observed : Decimal)
    → IsTolerance r
    → (b : Bool) × (allows r.mode r.value expected observed ≡ some b)
allows_total r expected observed (inl (e, g)) = rw (e, g) (none_total expected observed)
allows_total r expected observed (inr (text, d, e, g)) =
    rw (e, g) (within_total expected observed r.mode d)

pub allows_self :
    (r : DecimalToleranceRule) (e : Decimal) → IsTolerance r → allows r.mode r.value e e ≡ some true
allows_self r e (inl (h, g)) = rw (h, g) (within_self e no_tolerance none (inl refl))
allows_self r e (inr (text, d, h, g)) = rw (h, g) (within_self e r.mode (some d) (inr (d, refl)))
