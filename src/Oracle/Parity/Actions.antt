-- ===== src/Oracle/Parity/Actions.antt =====
-- The facts for the verification of an action, against the engine's detector.
use mathlib.Core.Option.{some-injective}
use mathlib.Core.List.{Memᴰ}
use mathlib.Core.Path.{subst}
use tradeops_sentinel.Base.{
  Bool, Bool-cases, List, Option, [], any, eq_iff, false, inl, inr, map, none, not, refl, some, sym,
  true, true_ne_false, ◌&&◌, ◌++◌, ◌==◌, ◌↔◌, ◌∙◌, ◌∷◌, ◌≡◌, ◌≢◌,
}
use tradeops_sentinel.Oracle.Actions.{
  OracleChange, changes_observed, fact_of_change, listed_change, observe_changes, observed_change,
  post_action_facts, with_remaining, without_readback,
}
use tradeops_sentinel.Reconciliation.PostAction.{
  BookingObservation, ChangedField, PostActionField, PostActionVerification, book_id_field,
  booking_value, booking_version_field, lifecycle_status_field, post_action_fields,
  post_action_path, record_fingerprint_field,
}
use tradeops_sentinel.Reconciliation.PostAction.Verified.{ReadsAgree, Verified}
use tradeops_sentinel.Remediation.Store.AtMostOnce.{back}
use tradeops_sentinel.Remediation.Tables.{empty}

module _ (pre post : BookingObservation) where
  observe_changes-ne-nil :
      (fs : List PostActionField) (c : OracleChange) (cs : List OracleChange)
      → observe_changes pre post fs (c ∷ cs) ≢ []
  unfolding observe_changes
  observe_changes-ne-nil [] c cs h = cc
  observe_changes-ne-nil (f ∷ fs) c cs h =
      elim (Bool-cases (
        not (booking_value f pre == booking_value f post)
        && not (any (λ (x : OracleChange). x.changed_path == post_action_path f) (c ∷ cs)))) [
          | inl new ↦
              observe_changes-ne-nil fs c (cs ++ observed_change pre post f ∷ []) (rw new at h)
          | inr old ↦ observe_changes-ne-nil fs c cs (rw old at h)
        ]

  observe_changes-nil_iff :
      (fs : List PostActionField)
      → (observe_changes pre post fs [] ≡ [])
        ↔ ((f : PostActionField) → Memᴰ f fs → booking_value f pre ≡ booking_value f post)
  unfolding observe_changes
  observe_changes-nil_iff [] = (λ _ f m. elim m [ ], λ _. refl)
  observe_changes-nil_iff (f ∷ fs) =
      let (out, back) = observe_changes-nil_iff fs in
      let e = eq_iff (booking_value f pre) (booking_value f post) in
      elim (Bool-cases (booking_value f pre == booking_value f post)) [
        | inl same ↦ (
          λ h g m. elim m [
            | Memᴰ.head at ↦ rw at (e.0 same)
            | Memᴰ.tail n ↦ out (rw same at h) g n
          ],
          λ all. rw same (back (λ g n. all g (Memᴰ.tail n))),
        )
        | inr other ↦ (
          λ h. absurd (observe_changes-ne-nil fs (observed_change pre post f) [] (rw other at h)),
          λ all.
              let clash = e.1 (all f (Memᴰ.head refl)) in
              absurd (true_ne_false (sym clash ∙ other)),
        )
      ]

every_field : (f : PostActionField) → Memᴰ f post_action_fields
every_field book_id_field = Memᴰ.head refl
every_field lifecycle_status_field = Memᴰ.tail (Memᴰ.head refl)
every_field booking_version_field = Memᴰ.tail (Memᴰ.tail (Memᴰ.head refl))
every_field record_fingerprint_field = Memᴰ.tail (Memᴰ.tail (Memᴰ.tail (Memᴰ.head refl)))

observed-nil_iff :
    (pre : BookingObservation) (post : Option BookingObservation) (listed : List ChangedField)
    → (changes_observed pre post (map (listed_change pre) listed) ≡ [])
      ↔ ((listed ≡ []) × ReadsAgree pre post)
observed-nil_iff pre none [] = (λ _. (refl, tt), λ _. refl)
observed-nil_iff pre none (c ∷ cs) = (λ h. cc, λ h. let clash : c ∷ cs ≡ [] = h.0 in cc)
observed-nil_iff pre (some post) [] =
    let (out, back) = observe_changes-nil_iff pre post post_action_fields in
    (λ h. (refl, λ f. out h f (every_field f)), λ (_, all). back (λ f _. all f))
observed-nil_iff pre (some post) (c ∷ cs) = (
  λ h. absurd (
      observe_changes-ne-nil pre post post_action_fields (listed_change pre c)
        (map (listed_change pre) cs) h),
  λ h. let clash : c ∷ cs ≡ [] = h.0 in cc,
)

remaining-nil_iff :
    (available remaining : Bool) (pre : BookingObservation) (changed : List OracleChange)
    → (map fact_of_change
          (with_remaining available remaining pre (without_readback available pre changed))
        ≡ [])
      ↔ ((changed ≡ []) × (available ≡ true) × (remaining ≡ false))
remaining-nil_iff true true pre [] = (λ h. cc, λ h. let clash : true ≡ false = h.2 in cc)
remaining-nil_iff true false pre [] = (λ _. (refl, refl, refl), λ _. refl)
remaining-nil_iff false remaining pre [] = (λ h. cc, λ h. let clash : false ≡ true = h.1 in cc)
remaining-nil_iff true remaining pre (c ∷ cs) = (λ h. cc, λ h. let clash : c ∷ cs ≡ [] = h.0 in cc)
remaining-nil_iff false remaining pre (c ∷ cs) = (λ h. cc, λ h. let clash : c ∷ cs ≡ [] = h.0 in cc)

Verified-parts :
    (v : PostActionVerification)
    → Verified (some v) ↔ (
        (v.changed_fields ≡ [])
        × ReadsAgree v.pre_action v.post_action
        × (v.readback_available ≡ true)
        × (v.original_break_remaining ≡ false))
Verified-parts v = (
  λ h. elim h [
    | inl nothing ↦ cc
    | inr (w, at, empty, agree, available, gone) ↦
        subst
          (λ (x : PostActionVerification).
            (x.changed_fields ≡ [])
            × ReadsAgree x.pre_action x.post_action
            × (x.readback_available ≡ true)
            × (x.original_break_remaining ≡ false))
          (sym (some-injective _ _ at)) (empty, agree, available, gone)
  ],
  λ (empty, agree, available, gone). inr (v, refl, empty, agree, available, gone),
)

pub post_action_facts-nil_iff :
    (verification : Option PostActionVerification)
    → (post_action_facts verification ≡ []) ↔ Verified verification
unfolding post_action_facts
post_action_facts-nil_iff none = (λ _. inl refl, λ _. refl)
post_action_facts-nil_iff (some v) =
    let listed = map (listed_change v.pre_action) v.changed_fields in
    let (out, back) = Verified-parts v in
    let (out', back') = observed-nil_iff v.pre_action v.post_action v.changed_fields in
    let (to, from) =
      remaining-nil_iff v.readback_available v.original_break_remaining v.pre_action
        (changes_observed v.pre_action v.post_action listed) in
    (
      λ h.
          let (nothing, available, gone) = to h in
          let (empty, agree) = out' nothing in back (empty, agree, available, gone),
      λ h.
          let (empty, agree, available, gone) = out h in
          from (back' (empty, agree), available, gone),
    )
