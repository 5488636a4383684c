-- ===== src/Reconciliation/Fields/Agreement.antt =====
-- When the sources agree on a field.
use mathlib.Core.Option.{some-injective}
use mathlib.Core.List.{Memᴰ}
use tradeops_sentinel.Base.{
  Bool, Bool-cases, List, Option, Option-cases, String, [], any, any_of_find-none, any_of_mem, ap,
  arith, both_empty, eq_iff, eq_refl, fails_of_any, false, find, find_holds, find_mem, inl, inr,
  none, refl, some, sym, true, true_ne_false, ◌++◌, ◌==◌, ◌↔◌, ◌∙◌, ◌∷◌, ◌≡◌, ◌≢◌,
}
use tradeops_sentinel.Contracts.{Observation}
use tradeops_sentinel.Reconciliation.Breaks.{
  Break, BreakFamily, FieldComparison, break_of, currency_pair_or_side_mismatch,
  trade_or_value_date_mismatch,
}
use tradeops_sentinel.Reconciliation.Fields.{
  ExactField, authoritative_observation, base_currency, compare_field, comparison, comparison_of,
  currency_breaks, date_break, exact_comparisons, field_value, is_mismatch, side, terms_currency,
  trade_date, value_date,
}

abbrev pub AgreeOn : List ExactField → List Observation → Type 0
AgreeOn fs observations =
    (f : ExactField)
    → Memᴰ f fs
    → (a b : Observation) → Memᴰ a observations
    → Memᴰ b observations
    → field_value f a ≡ field_value f b

-- An observation is named in the provenance of every field, and identifiers are unique.
abbrev pub IsTraced : {F : Type 0} → (F → String) → List Observation → Type 0
IsTraced {F} provenance observations =
    ((f : F) → (o : Observation) × Memᴰ o observations × (o.observation_id ≡ provenance f))
    × ((a b : Observation)
        → Memᴰ a observations
        → Memᴰ b observations
        → a.observation_id ≡ b.observation_id
        → a ≡ b)

mismatch_differs :
    (f : ExactField) (base o : Observation)
    → is_mismatch f base o ≡ true
    → field_value f o ≢ field_value f base
mismatch_differs f base o h e = ground (arith, eq_iff (field_value f o) (field_value f base))

pub break_of-nil :
    (family : BreakFamily) (cs : List FieldComparison)
    → (breaks : List Break) × (break_of family (some cs) ≡ some breaks)
      × ((breaks ≡ []) ↔ (cs ≡ []))
break_of-nil family [] = ([], refl, (λ _. refl, λ _. refl))
break_of-nil family (c ∷ cs) = (_, refl, (λ h. cc, λ h. cc))

-- A detector that does not raise reports nothing exactly when its list of breaks is empty.
pub found-nil_iff :
    (found : Option (List Break)) (P : Type 0)
    → ((breaks : List Break) × (found ≡ some breaks) × ((breaks ≡ []) ↔ P))
    → (found ≡ some []) ↔ P
found-nil_iff found P (breaks, at, (to, from)) =
    (λ h. to (some-injective _ _ (sym at ∙ h)), λ p. at ∙ ap some (from p))

pub break_of-nil_iff :
    (family : BreakFamily) (found : Option (List FieldComparison))
    → (break_of family found ≡ some []) ↔ (found ≡ some [])
break_of-nil_iff family none = (λ h. cc, λ h. cc)
break_of-nil_iff family (some []) = (λ _. refl, λ _. refl)
break_of-nil_iff family (some (c ∷ cs)) = (λ h. cc, λ h. cc)

pub authoritative_some :
    (source_id : String) (observations : List Observation) {o : Observation}
    → Memᴰ o observations
    → o.observation_id ≡ source_id
    → (a : Observation) × (authoritative_observation source_id observations ≡ some a)
      × Memᴰ a observations
unfolding authoritative_observation
authoritative_some source_id observations m e =
    let is_source : Observation → Bool = λ x. x.observation_id == source_id in
    let is_there : any is_source observations ≡ true =
      any_of_mem is_source m (rw e (eq_refl source_id)) in
    elim (Option-cases (find is_source observations)) [
      | inr (a, h) ↦ (a, h, find_mem _ observations h)
      | inl h ↦ absurd (true_ne_false (sym is_there ∙ any_of_find-none _ observations h))
    ]

module _ (provenance : ExactField → String) (observations : List Observation)
    (traced : IsTraced provenance observations) where
  authoritative_found :
      (f : ExactField)
      → (o : Observation) × (authoritative_observation (provenance f) observations ≡ some o)
        × Memᴰ o observations
  authoritative_found f =
      let (o, m, e) = traced.0 f in authoritative_some (provenance f) observations m e

  agrees :
      (f : ExactField) (base o : Observation)
      → Memᴰ base observations
      → Memᴰ o observations
      → is_mismatch f base o ≡ false
      → field_value f o ≡ field_value f base
  agrees f base o mb mo h = elim (Bool-cases (o.observation_id == base.observation_id)) [
    | inl same ↦
        ap (field_value f)
          (traced.1 o base mo mb (ground (arith, eq_iff o.observation_id base.observation_id)))
    | inr other ↦ ground (arith, eq_iff (field_value f o) (field_value f base))
  ]

  pub comparison_of-Agreement :
      (f : ExactField) (base : Observation)
      → Memᴰ base observations
      → (comparison_of f base (find (is_mismatch f base) observations) ≡ [])
        ↔ AgreeOn (f ∷ []) observations
  comparison_of-Agreement f base mb = elim (Option-cases (find (is_mismatch f base) observations)) [
    | inl h ↦ (
      λ _ g mg a b ma mb'. elim mg [
        | Memᴰ.head e ↦
            let all : (o : Observation)
                → Memᴰ o observations
                → field_value f o ≡ field_value f base =
              λ o mo.
                agrees f base o mb mo
                  (fails_of_any (is_mismatch f base) (any_of_find-none _ observations h) mo) in
            rw e (all a ma ∙ sym (all b mb'))
        | Memᴰ.tail n ↦ elim n [ ]
      ],
      λ _. rw h refl,
    )
    | inr (o, h) ↦ (
      λ e. let e' : comparison f base o ∷ [] ≡ [] = rw h at e in cc,
      λ agree.
          let same =
            agree f (Memᴰ.head refl) o base (find_mem (is_mismatch f base) observations h) mb in
          let differs : is_mismatch f base o ≡ true =
            find_holds (is_mismatch f base) observations h in
          absurd (mismatch_differs f base o differs same),
    )
  ]

  compare_field-Agreement :
      (f : ExactField)
      → (cs : List FieldComparison) × (compare_field f observations
            (authoritative_observation (provenance f) observations)
          ≡ some cs)
        × ((cs ≡ []) ↔ AgreeOn (f ∷ []) observations)
  unfolding compare_field
  compare_field-Agreement f =
      let (base, at, m) = authoritative_found f in
      (
        comparison_of f base (find (is_mismatch f base) observations),
        rw at refl,
        comparison_of-Agreement f base m,
      )

  exact_comparisons-Agreement :
      (fs : List ExactField)
      → (cs : List FieldComparison) × (exact_comparisons provenance observations fs ≡ some cs)
        × ((cs ≡ []) ↔ AgreeOn fs observations)
  unfolding exact_comparisons
  exact_comparisons-Agreement [] = ([], refl, (λ _ f m. elim m [ ], λ _. refl))
  exact_comparisons-Agreement (f ∷ fs) =
      let (cs, e, (to, from)) = compare_field-Agreement f in
      let (ds, e', (to', from')) = exact_comparisons-Agreement fs in
      (
        cs ++ ds,
        rw (e, e') refl,
        (
          λ h g m.
              let (nothing, nothing') = both_empty cs ds h in
              elim m [
                | Memᴰ.head same ↦ to nothing g (Memᴰ.head same)
                | Memᴰ.tail n ↦ to' nothing' g n
              ],
          λ agree.
              let here = from (λ g m. elim m [
                | Memᴰ.head same ↦ agree g (Memᴰ.head same)
                | Memᴰ.tail n ↦ elim n [ ]
              ]) in
              let there = from' (λ g m. agree g (Memᴰ.tail m)) in rw (here, there) refl,
        ),
      )

  break_of-Agreement :
      (family : BreakFamily) (fs : List ExactField)
      → (breaks : List Break) × (break_of family (exact_comparisons provenance observations fs)
          ≡ some breaks)
        × ((breaks ≡ []) ↔ AgreeOn fs observations)
  break_of-Agreement family fs =
      let (cs, e, iff) = exact_comparisons-Agreement fs in
      let (breaks, e', (to, from)) = break_of-nil family cs in
      (breaks, rw e e', (λ h. iff.0 (to h), λ agree. from (iff.1 agree)))

-- If observations have different identifiers and the canonical provenance of each field names one
-- of them, neither detector raises; there is no currency break exactly when all observations agree
-- on the two currencies and the side, and no date break exactly when all agree on the trade date
-- and the value date.
pub field_breaks-Agreement :
    (provenance : ExactField → String) (observations : List Observation)
    → IsTraced provenance observations
    → ((breaks : List Break) × (currency_breaks provenance observations ≡ some breaks)
        × ((breaks ≡ []) ↔ AgreeOn (base_currency ∷ terms_currency ∷ side ∷ []) observations))
      × ((breaks : List Break) × (date_break provenance observations ≡ some breaks)
          × ((breaks ≡ []) ↔ AgreeOn (trade_date ∷ value_date ∷ []) observations))
unfolding currency_breaks date_break
field_breaks-Agreement provenance observations traced = (
  break_of-Agreement provenance observations traced currency_pair_or_side_mismatch _,
  break_of-Agreement provenance observations traced trade_or_value_date_mismatch _,
)
