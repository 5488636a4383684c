-- ===== src/Reconciliation/Decimal/Rounding.antt =====
-- What the rounding of a decimal result to the precision changes.
use mathlib.Core.Option.{some-injective}
use native.Mathlib.Nat.{
  add-mul, div-div-eq-div-mul, div-one, mod-add-div', mod-lt, mod-one, mul-pos, pow-suc, pow-succ',
}
use tradeops_sentinel.Base.{
  Bool, Bool-cases, Option, ap, arith, inl, inr, leb, ltb, nat_eq, refl, some, suc, true, zero, ℕ,
  ◌%◌, ◌&&◌, ◌*◌, ◌+◌, ◌/◌, ◌<◌, ◌^◌, ◌↔◌, ◌≡◌, ◌≤◌, ◌⊎◌,
}
use tradeops_sentinel.Reconciliation.Config.{absolute_decimal, no_tolerance}
use tradeops_sentinel.Reconciliation.Decimal.{
  Decimal, abs_difference, at_scale, distance, excess_from, max_scale, precision, round_to, rounded,
  within_tolerance,
}

ten_pow_pos : (k : ℕ) → 0 < 10 ^ k
ten_pow_pos zero = omega arith
ten_pow_pos (suc k) = rw (pow-suc 10 k) (omega (arith, ten_pow_pos k))

div_ten_pow : (k n : ℕ) → n / 10 / 10 ^ k ≡ n / 10 ^ suc k
div_ten_pow k n = rw (pow-succ' 10 k) (div-div-eq-div-mul n 10 (10 ^ k))

-- The fuel is enough: what is left has no more digits than the precision.
excess_from_enough : (fuel n : ℕ) → n ≤ fuel → n / 10 ^ excess_from fuel n < 10 ^ precision
unfolding excess_from
excess_from_enough zero n h = omega arith
excess_from_enough (suc fuel) n h = elim (Bool-cases (ltb n (10 ^ precision))) [
  | inl small ↦ rw small (ground arith)
  | inr large ↦ rw large (
      rw (← div_ten_pow (excess_from fuel (n / 10)) n)
        (excess_from_enough fuel (n / 10) (omega arith)))
]

excess_from_pos : (fuel n : ℕ) → 0 < n → 0 < n / 10 ^ excess_from fuel n
unfolding excess_from
excess_from_pos zero n h = omega arith
excess_from_pos (suc fuel) n h = elim (Bool-cases (ltb n (10 ^ precision))) [
  | inl small ↦ rw small (omega arith)
  | inr large ↦ rw large (
      rw (← div_ten_pow (excess_from fuel (n / 10)) n)
        (excess_from_pos fuel (n / 10) (ground arith)))
]

round_to_near : (unit n : ℕ) → 0 < unit → 2 * distance (round_to unit n) n ≤ unit
unfolding round_to
round_to_near unit n h = ground (arith, mod-add-div' n unit, mod-lt n h, add-mul (n / unit) 1 unit)

excess_from_small : (fuel n : ℕ) → n < 10 ^ precision → excess_from fuel n ≡ 0
unfolding excess_from
excess_from_small zero n h = refl
excess_from_small (suc fuel) n h = ground arith

round_to_one : (n : ℕ) → round_to 1 n ≡ n
unfolding round_to
round_to_one n = ground (arith, div-one n, mod-one n)

round_to_pos : (unit n : ℕ) → 0 < unit → 0 < n / unit → 0 < round_to unit n
unfolding round_to
round_to_pos unit n h g = ground (arith, mul-pos g h, add-mul (n / unit) 1 unit)

rounded_small : (n : ℕ) → n < 10 ^ precision → rounded n ≡ n
unfolding rounded
rounded_small n h = rw (excess_from_small n n h) (round_to_one n)

zero_or_pos : (n : ℕ) → (n ≡ 0) ⊎ (0 < n)
zero_or_pos zero = inl refl
zero_or_pos (suc n) = inr (omega arith)

rounded_zero_iff : (n : ℕ) → (rounded n ≡ 0) ↔ (n ≡ 0)
unfolding rounded
rounded_zero_iff n = (
  λ h. elim (zero_or_pos n) [
    | inl e ↦ e
    | inr positive ↦ absurd (
        omega (
          arith,
          h,
          round_to_pos (10 ^ excess_from n n) n (ten_pow_pos (excess_from n n))
              (excess_from_pos n n positive),
        ))
  ],
  λ h. rw h refl,
)

distance_zero_iff : (a b : ℕ) → (distance a b ≡ 0) ↔ (a ≡ b)
distance_zero_iff a b = (λ h. ground arith, λ h. ground arith)

nat_eq_iff : (a b : ℕ) → (nat_eq a b ≡ true) ↔ (a ≡ b)
nat_eq_iff a b = (λ h. ground arith, λ h. ground arith)

leb_iff : (a b : ℕ) → (leb a b ≡ true) ↔ (a ≤ b)
leb_iff a b = (λ h. ground arith, λ h. ground arith)

rounded_near : (n : ℕ) → 2 * distance (rounded n) n ≤ 10 ^ excess_from n n
unfolding rounded
rounded_near n = round_to_near (10 ^ excess_from n n) n (ten_pow_pos (excess_from n n))

then_iff : {P Q R : Type 0} → P ↔ Q → Q ↔ R → P ↔ R
then_iff f g = (λ p. g.0 (f.0 p), λ r. f.1 (g.1 r))

some_test : (b : Bool) {P : Type 0} → (b ≡ true) ↔ P → (some b ≡ some true) ↔ P
some_test b iff = (λ h. iff.0 (some-injective _ _ h), λ p. ap some (iff.1 p))

-- The exact difference of two decimals, in units of their larger scale.
abbrev pub exact_difference : Decimal → Decimal → ℕ
exact_difference observed expected =
    let s = max_scale observed expected in distance (at_scale s observed) (at_scale s expected)

-- A rounding to the precision: to the nearest multiple of a power of ten that leaves as many digits as
-- the precision has, or to the number itself if it has no more.
pub record IsRounding (n r : ℕ) : Type 0 where
  pub dropped : ℕ
  pub fits : n / 10 ^ dropped < 10 ^ precision
  pub full : (dropped ≡ 0) ⊎ (10 ^ 27 ≤ n / 10 ^ dropped)
  pub multiple : (q : ℕ) × (r ≡ q * 10 ^ dropped)
  pub nearest : 2 * distance r n ≤ 10 ^ dropped

excess_from_full : (fuel n : ℕ) → (excess_from fuel n ≡ 0) ⊎ (10 ^ 27 ≤ n / 10 ^ excess_from fuel n)
unfolding excess_from
excess_from_full zero n = inl refl
excess_from_full (suc fuel) n = elim (Bool-cases (ltb n (10 ^ precision))) [
  | inl small ↦ rw small (inl refl)
  | inr large ↦ rw large (elim (excess_from_full fuel (n / 10)) [
    | inl none_left ↦ inr (rw none_left (ground (arith, large)))
    | inr full ↦ inr (rw (← div_ten_pow (excess_from fuel (n / 10)) n) full)
  ])
]

round_to_multiple : (unit n : ℕ) → (q : ℕ) × (round_to unit n ≡ q * unit)
unfolding round_to
round_to_multiple unit n = elim (Bool-cases (ltb unit (2 * (n % unit)))) [
  | inl up ↦ (n / unit + 1, rw up refl)
  | inr down ↦ elim (Bool-cases (nat_eq unit (2 * (n % unit)) && nat_eq (n / unit % 2) 1)) [
    | inl odd ↦ (n / unit + 1, rw (down, odd) refl)
    | inr even ↦ (n / unit, rw (down, even) refl)
  ]
]

rounded-IsRounding : (n : ℕ) → IsRounding n (rounded n)
unfolding rounded
rounded-IsRounding n = record {
  dropped = excess_from n n;
  fits = excess_from_enough n n (omega arith);
  full = excess_from_full n n;
  multiple = round_to_multiple (10 ^ excess_from n n) n;
  nearest = rounded_near n;
}

-- Without a tolerance two decimals agree exactly when they are the same number, however long they
-- are, and with an absolute tolerance they agree exactly when their exact difference is at most the
-- tolerance, if that difference has no more digits than the precision of the arithmetic; any
-- difference is rounded to the nearest multiple of a power of ten, which is one or leaves exactly 28
-- digits, so by at most half a unit of the last digit that is kept.
pub within_tolerance-exact :
    (expected observed : Decimal)
    → ((allowed : Option Decimal)
        → (within_tolerance expected observed no_tolerance allowed ≡ some true)
          ↔ (exact_difference observed expected ≡ 0))
      × ((allowed : Decimal)
          → exact_difference observed expected < 10 ^ precision
          → (within_tolerance expected observed absolute_decimal (some allowed) ≡ some true) ↔ (
              exact_difference observed expected * 10 ^ allowed.scale
              ≤ allowed.coefficient * 10 ^ max_scale observed expected))
      × IsRounding
          (exact_difference observed expected)
          (abs_difference observed expected).coefficient
unfolding within_tolerance
within_tolerance-exact expected observed =
    let n : ℕ = exact_difference observed expected in
    (
      λ allowed. some_test _ (then_iff (nat_eq_iff (rounded n) 0) (rounded_zero_iff n)),
      λ allowed small. some_test _ (
          rw (rounded_small n small) (
            leb_iff (n * 10 ^ allowed.scale)
              (allowed.coefficient * 10 ^ max_scale observed expected))),
      rounded-IsRounding n,
    )
