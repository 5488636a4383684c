-- ===== src/Reconciliation/Decimal.antt =====
-- The decimal arithmetic of packages/reconciliation/engine.py (_decimal and _within_tolerance), for
-- the texts that `DecimalValue` of packages/contracts/models.py allows.
pub mod Rounding
use tradeops_sentinel.Base.{
  Bool, Option, String, code, false, if◌then◌else◌, leb, ltb, nat_eq, none, some, suc, true, zero,
  ℕ, ◌%◌, ◌&&◌, ◌*◌, ◌+◌, ◌-◌, ◌/◌, ◌^◌,
}
use tradeops_sentinel.Reconciliation.Config.{
  ToleranceMode, absolute_decimal, no_tolerance, relative_decimal,
}

-- The number `coefficient / 10 ^ scale`.
pub record Decimal : Type 0 where
  pub coefficient : ℕ
  pub scale : ℕ

abbrev pub is_digit : ℕ → Bool
is_digit c = leb b'0' c && leb c b'9'

-- The digits after the point.
read_fraction : ℕ → ℕ → String → Option Decimal
read_fraction n scale String.[] = some record { coefficient = n; scale = scale }
read_fraction n scale (String.◌∷◌ c s) =
    let rest = read_fraction (n * 10 + (code c - b'0')) (scale + 1) s in
    if is_digit (code c) then rest else none

abbrev some_digit : Bool → Option Decimal → Option Decimal
some_digit true d = d
some_digit false d = none

-- The digits before it, `seen` one already or not.
read_integer : Bool → ℕ → String → Option Decimal
unfolding read_fraction
read_integer seen n String.[] = some_digit seen (some record { coefficient = n; scale = 0 })
read_integer seen n (String.◌∷◌ c s) =
    let rest = read_integer true (n * 10 + (code c - b'0')) s in
    if is_digit (code c)
    then rest
    else if nat_eq (code c) b'.'
    then some_digit seen (read_fraction n 0 s)
    else none

-- `Decimal(value)`, which is exact; none if the text is not of the pattern.
unfoldable pub decimal_of : String → Option Decimal
unfolding read_integer
decimal_of s = read_integer false 0 s

-- The precision of the default context.
abbrev pub precision : ℕ
precision = 28

-- How many of the last digits of a number stand beyond the precision.
unfoldable pub excess_from : ℕ → ℕ → ℕ
excess_from zero n = 0
excess_from (suc fuel) n =
    let rest = suc (excess_from fuel (n / 10)) in if ltb n (10 ^ precision) then 0 else rest

-- `n` to a multiple of `unit`, half to even.
unfoldable pub round_to : ℕ → ℕ → ℕ
round_to unit n =
    let q = n / unit in
    let r = n % unit in
    if ltb unit (2 * r)
    then (q + 1) * unit
    else if nat_eq unit (2 * r) && nat_eq (q % 2) 1
    then (q + 1) * unit
    else q * unit

-- The rounding of a coefficient to the precision.
unfoldable pub rounded : ℕ → ℕ
unfolding excess_from round_to
rounded n = round_to (10 ^ excess_from n n) n

-- A decimal's coefficient at a larger scale.
abbrev pub at_scale : ℕ → Decimal → ℕ
at_scale s d = d.coefficient * 10 ^ (s - d.scale)

abbrev pub max_scale : Decimal → Decimal → ℕ
max_scale a b = if leb a.scale b.scale then b.scale else a.scale

abbrev pub distance : ℕ → ℕ → ℕ
distance a b = if leb a b then b - a else a - b

-- `abs(observed - expected)`
unfoldable pub abs_difference : Decimal → Decimal → Decimal
unfolding rounded
abs_difference observed expected =
    let s = max_scale observed expected in
    record {
      coefficient = rounded (distance (at_scale s observed) (at_scale s expected));
      scale = s;
    }

-- `abs(expected) * allowed`
unfoldable pub abs_product : Decimal → Decimal → Decimal
unfolding rounded
abs_product expected allowed = record {
  coefficient = rounded (rounded expected.coefficient * allowed.coefficient);
  scale = expected.scale + allowed.scale;
}

-- `a <= b`
abbrev pub decimal_le : Decimal → Decimal → Bool
decimal_le a b = leb (a.coefficient * 10 ^ b.scale) (b.coefficient * 10 ^ a.scale)

-- `_within_tolerance`, for a tolerance with its value, if it has one; none if the mode wants a value
-- and there is none.
unfoldable pub within_tolerance : Decimal → Decimal → ToleranceMode → Option Decimal → Option Bool
unfolding abs_difference abs_product
within_tolerance expected observed no_tolerance allowed =
    some (nat_eq (abs_difference observed expected).coefficient 0)
within_tolerance expected observed _ none = none
within_tolerance expected observed absolute_decimal (some allowed) =
    some (decimal_le (abs_difference observed expected) allowed)
within_tolerance expected observed relative_decimal (some allowed) =
    some (decimal_le (abs_difference observed expected) (abs_product expected allowed))
