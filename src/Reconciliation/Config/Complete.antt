-- ===== src/Reconciliation/Config/Complete.antt =====
-- A configuration that was validated has exactly one rule for each key.
use mathlib.Core.List.{Memᴰ}
use tradeops_sentinel.Base.{
  Bool, Bool-cases, List, Option, Option-cases, [], any, any_of_find-none, arith, count, find,
  find_holds, inl, inr, length, none, refl, some, sym, true, true_ne_false, ℕ, ◌&&◌, ◌+◌, ◌∙◌, ◌∷◌,
  ◌≡◌, ◌≤◌,
}
use tradeops_sentinel.Contracts.{ObservationKind, booking, confirmation, execution, trade_capture}
use tradeops_sentinel.Reconciliation.Config.{
  EconomicField, MissingSourceKind, ProductType, ReconciliationConfig, arrival_keys, arrival_rule,
  base_amount, booking_source, confirmation_source, covers, decimal_rule, exactly_one_each,
  execution_source, fx_forward, fx_spot, is_arrival, is_arrival_of, is_lifecycle, is_tolerance,
  is_tolerance_of, is_within, lifecycle_keys, lifecycle_rule, quoted_rate, same_field, same_kind,
  same_product, same_source, terms_amount, tolerance_keys, validate_complete_policy,
}

find_of_any :
    {A : Type 0} (p : A → Bool) (xs : List A) → any p xs ≡ true → (a : A) × (find p xs ≡ some a)
find_of_any p xs h = elim (Option-cases (find p xs)) [
  | inr found ↦ found
  | inl absent ↦ absurd (true_ne_false (sym h ∙ any_of_find-none p xs absent))
]

pos_of_any : {A : Type 0} (p : A → Bool) (xs : List A) → any p xs ≡ true → 1 ≤ count p xs
pos_of_any p [] h = cc
pos_of_any p (x ∷ xs) h = ground (arith, pos_of_any p xs)

module _ {K R : Type 0} (has : K → R → Bool) where
  -- The numbers of items of the keys, added up.
  sum_counts : List K → List R → ℕ
  sum_counts [] rules = 0
  sum_counts (k ∷ ks) rules = count (has k) rules + sum_counts ks rules

  sum_counts_nil : (ks : List K) → sum_counts ks [] ≡ 0
  unfolding sum_counts
  sum_counts_nil [] = refl
  sum_counts_nil (k ∷ ks) = omega (arith, sum_counts_nil ks)

  sum_counts_cons :
      (ks : List K) (r : R) (rs : List R)
      → sum_counts ks (r ∷ rs) ≡ count (λ k. has k r) ks + sum_counts ks rs
  unfolding sum_counts
  sum_counts_cons [] r rs = refl
  sum_counts_cons (k ∷ ks) r rs = elim (Bool-cases (has k r)) [
    | inl here ↦ rw here (omega (arith, sum_counts_cons ks r rs))
    | inr not_here ↦ rw not_here (omega (arith, sum_counts_cons ks r rs))
  ]

  -- No item has two of the keys.
  abbrev pub Separate : List K → Type 0
  Separate ks = (r : R) → any (λ k. has k r) ks ≡ true → count (λ k. has k r) ks ≡ 1

  sum_counts-length :
      (ks : List K) (rules : List R)
      → Separate ks
      → is_within has ks rules ≡ true
      → sum_counts ks rules ≡ length rules
  unfolding is_within
  sum_counts-length ks [] separate h = sum_counts_nil ks
  sum_counts-length ks (r ∷ rs) separate h =
      let here : any (λ k. has k r) ks ≡ true = ground arith in
      let rest : is_within has ks rs ≡ true = ground arith in
      omega (arith, sum_counts_cons ks r rs, separate r here, sum_counts-length ks rs separate rest)

  length_le_sum :
      (ks : List K) (rules : List R) → covers has ks rules ≡ true → length ks ≤ sum_counts ks rules
  unfolding covers sum_counts
  length_le_sum [] rules h = omega arith
  length_le_sum (k ∷ ks) rules h =
      let here : any (has k) rules ≡ true = ground arith in
      let rest : covers has ks rules ≡ true = ground arith in
      omega (arith, pos_of_any (has k) rules here, length_le_sum ks rules rest)

  each_once :
      (ks : List K) (rules : List R)
      → covers has ks rules ≡ true
      → sum_counts ks rules ≡ length ks
      → {k : K} → Memᴰ k ks
      → (any (has k) rules ≡ true) × (count (has k) rules ≡ 1)
  unfolding covers sum_counts
  each_once [] rules h sizes m = elim m [ ]
  each_once (k ∷ ks) rules h sizes m =
      let here : any (has k) rules ≡ true = ground arith in
      let rest : covers has ks rules ≡ true = ground arith in
      let one : count (has k) rules ≡ 1 =
        omega (arith, pos_of_any (has k) rules here, length_le_sum ks rules rest) in
      let others : sum_counts ks rules ≡ length ks = omega arith in
      elim m [ Memᴰ.head e ↦ rw e (here, one) | Memᴰ.tail n ↦ each_once ks rules rest others n ]

  -- The one item of a key.
  abbrev pub OneRule : K → List R → Type 0
  OneRule k rules =
      (r : R) × (find (has k) rules ≡ some r) × (has k r ≡ true) × (count (has k) rules ≡ 1)

  pub exactly_one_each-OneRule :
      (ks : List K) (rules : List R)
      → Separate ks
      → exactly_one_each has ks rules ≡ true
      → {k : K} → Memᴰ k ks
      → OneRule k rules
  unfolding exactly_one_each
  exactly_one_each-OneRule ks rules separate h {k} m =
      let covered : covers has ks rules ≡ true = ground arith in
      let within : is_within has ks rules ≡ true = ground arith in
      let sizes : length rules ≡ length ks = ground arith in
      let (here, one) =
        each_once ks rules covered (sum_counts-length ks rules separate within ∙ sizes) m in
      let (r, found) = find_of_any (has k) rules here in
      (r, found, find_holds (has k) rules found, one)

Separate-arrival : Separate is_arrival_of arrival_keys
Separate-arrival r h = go r.product_type r.observation_kind
  where
    go :
        (p : ProductType) (k : MissingSourceKind)
        → count
            (λ (key : ProductType × MissingSourceKind). same_product p key.0 && same_source k key.1)
            arrival_keys
          ≡ 1
    go fx_spot execution_source = refl
    go fx_spot confirmation_source = refl
    go fx_spot booking_source = refl
    go fx_forward execution_source = refl
    go fx_forward confirmation_source = refl
    go fx_forward booking_source = refl

Separate-tolerance : Separate is_tolerance_of tolerance_keys
Separate-tolerance r h = go r.product_type r.field_path
  where
    go :
        (p : ProductType) (f : EconomicField)
        → count
            (λ (key : ProductType × EconomicField). same_product p key.0 && same_field f key.1)
            tolerance_keys
          ≡ 1
    go fx_spot base_amount = refl
    go fx_spot terms_amount = refl
    go fx_spot quoted_rate = refl
    go fx_forward base_amount = refl
    go fx_forward terms_amount = refl
    go fx_forward quoted_rate = refl

Separate-lifecycle : Separate is_lifecycle lifecycle_keys
Separate-lifecycle r h = go r.observation_kind
  where
    go : (k : ObservationKind) → count (same_kind k) lifecycle_keys ≡ 1
    go execution = refl
    go trade_capture = refl
    go confirmation = refl
    go booking = refl

arrival_key_listed : (p : ProductType) (k : MissingSourceKind) → Memᴰ (p, k) arrival_keys
arrival_key_listed fx_spot execution_source = Memᴰ.head refl
arrival_key_listed fx_spot confirmation_source = Memᴰ.tail (Memᴰ.head refl)
arrival_key_listed fx_spot booking_source = Memᴰ.tail (Memᴰ.tail (Memᴰ.head refl))
arrival_key_listed fx_forward execution_source = Memᴰ.tail (Memᴰ.tail (Memᴰ.tail (Memᴰ.head refl)))
arrival_key_listed fx_forward confirmation_source =
    Memᴰ.tail (Memᴰ.tail (Memᴰ.tail (Memᴰ.tail (Memᴰ.head refl))))
arrival_key_listed fx_forward booking_source =
    Memᴰ.tail (Memᴰ.tail (Memᴰ.tail (Memᴰ.tail (Memᴰ.tail (Memᴰ.head refl)))))

tolerance_key_listed : (p : ProductType) (f : EconomicField) → Memᴰ (p, f) tolerance_keys
tolerance_key_listed fx_spot base_amount = Memᴰ.head refl
tolerance_key_listed fx_spot terms_amount = Memᴰ.tail (Memᴰ.head refl)
tolerance_key_listed fx_spot quoted_rate = Memᴰ.tail (Memᴰ.tail (Memᴰ.head refl))
tolerance_key_listed fx_forward base_amount = Memᴰ.tail (Memᴰ.tail (Memᴰ.tail (Memᴰ.head refl)))
tolerance_key_listed fx_forward terms_amount =
    Memᴰ.tail (Memᴰ.tail (Memᴰ.tail (Memᴰ.tail (Memᴰ.head refl))))
tolerance_key_listed fx_forward quoted_rate =
    Memᴰ.tail (Memᴰ.tail (Memᴰ.tail (Memᴰ.tail (Memᴰ.tail (Memᴰ.head refl)))))

lifecycle_key_listed : (k : ObservationKind) → Memᴰ k lifecycle_keys
lifecycle_key_listed execution = Memᴰ.head refl
lifecycle_key_listed trade_capture = Memᴰ.tail (Memᴰ.head refl)
lifecycle_key_listed confirmation = Memᴰ.tail (Memᴰ.tail (Memᴰ.head refl))
lifecycle_key_listed booking = Memᴰ.tail (Memᴰ.tail (Memᴰ.tail (Memᴰ.head refl)))

-- The look-up of a rule, which is there, is for the key that was asked for, and is the only one.
abbrev pub OneFound : {R : Type 0} → (R → Bool) → List R → Option R → Type 0
OneFound is rules none = ⊥
OneFound is rules (some r) = (is r ≡ true) × (count is rules ≡ 1)

pub rule_found :
    {R : Type 0} (is : R → Bool) (rules : List R) (found : Option R)
    → OneFound is rules found
    → (r : R) × (found ≡ some r)
rule_found is rules none h = absurd h
rule_found is rules (some r) h = (r, refl)

-- In a configuration that was validated no look-up fails, for any product, source kind, economic
-- field or observation kind, and the rule that it returns is the only one of its key.
pub validate_complete_policy-OneFound :
    (c : ReconciliationConfig)
    → validate_complete_policy c ≡ true
    → ((p : ProductType) (k : MissingSourceKind)
        → OneFound (is_arrival p k) c.arrival_windows (arrival_rule c p k))
      × ((p : ProductType) (f : EconomicField)
          → OneFound (is_tolerance p f) c.decimal_tolerances (decimal_rule c p f))
      × ((k : ObservationKind)
          → OneFound (is_lifecycle k) c.lifecycle_expected_statuses (lifecycle_rule c k))
unfolding validate_complete_policy arrival_rule decimal_rule lifecycle_rule
validate_complete_policy-OneFound c h = (
  λ p k.
      let (r, found, holds, one) =
        exactly_one_each-OneRule is_arrival_of arrival_keys c.arrival_windows Separate-arrival
          (ground arith) (arrival_key_listed p k) in
      rw found (holds, one),
  λ p f.
      let (r, found, holds, one) =
        exactly_one_each-OneRule is_tolerance_of tolerance_keys c.decimal_tolerances
          Separate-tolerance (ground arith) (tolerance_key_listed p f) in
      rw found (holds, one),
  λ k.
      let (r, found, holds, one) =
        exactly_one_each-OneRule is_lifecycle lifecycle_keys c.lifecycle_expected_statuses
          Separate-lifecycle (ground arith) (lifecycle_key_listed k) in
      rw found (holds, one),
)
