-- ===== src/Reconciliation/PostAction/Verified.antt =====
-- When an action counts as verified.
use mathlib.Core.Option.{some-injective}
use mathlib.Core.List.{Memᴰ}
use mathlib.Core.Path.{subst}
use tradeops_sentinel.Base.{
  Bool-cases, List, Option, [], any, arith, eq_iff, false, inl, inr, map, mem-append_left,
  mem-map_of_mem, none, not, refl, some, sym, true, ◌&&◌, ◌++◌, ◌==◌, ◌↔◌, ◌∷◌, ◌≡◌, ◌≢◌, ◌⊎◌,
}
use tradeops_sentinel.Reconciliation.Breaks.{
  FieldComparison, break_of, post_action_verification_failure,
}
use tradeops_sentinel.Reconciliation.PostAction.{
  BookingObservation, ChangedField, PostActionField, PostActionVerification, accepted_only,
  book_id_field, booking_value, booking_version_field, change_comparison, changes_read,
  changes_to_report, comparisons_accepted, lifecycle_status_field, note_change, note_changes,
  post_action_break, post_action_fields, record_fingerprint_field, same_path,
}

abbrev pub ReadsAgree : BookingObservation → Option BookingObservation → Type 0
ReadsAgree pre none = Unit
ReadsAgree pre (some post) = (f : PostActionField) → booking_value f pre ≡ booking_value f post

append_last_ne_nil : {A : Type 0} (xs : List A) (y : A) → xs ++ y ∷ [] ≢ []
append_last_ne_nil [] y h = cc
append_last_ne_nil (x ∷ xs) y h = cc

note_change-ne-nil :
    (pre post : BookingObservation) (f : PostActionField) (c : ChangedField)
    (cs : List ChangedField)
    → note_change pre post f (c ∷ cs) ≢ []
note_change-ne-nil pre post f c cs h =
    elim (Bool-cases (
      not (booking_value f pre == booking_value f post)
      && not (any (λ (c' : ChangedField). same_path c'.changed_path f) (c ∷ cs)))) [
        | inl new ↦
            let e : c
                  ∷ (cs
                      ++ record {
                        changed_path = f;
                        expected_value = booking_value f pre;
                        observed_value = booking_value f post;
                      }
                        ∷ [])
                ≡ [] =
              rw new at h in
            cc
        | inr old ↦ let e : c ∷ cs ≡ [] = rw old at h in cc
      ]

note_change_nil :
    (pre post : BookingObservation) (f : PostActionField) (changed : List ChangedField)
    → note_change pre post f changed ≡ []
    → (changed ≡ []) × (booking_value f pre ≡ booking_value f post)
note_change_nil pre post f [] h =
    (refl, ground (arith, eq_iff (booking_value f pre) (booking_value f post)))
note_change_nil pre post f (c ∷ cs) h = absurd (note_change-ne-nil pre post f c cs h)

note_changes_nil :
    (pre post : BookingObservation) (fs : List PostActionField) (changed : List ChangedField)
    → note_changes pre post fs changed ≡ []
    → (changed ≡ [])
      × ((f : PostActionField) → Memᴰ f fs → booking_value f pre ≡ booking_value f post)
unfolding note_changes
note_changes_nil pre post [] changed h = (h, λ f m. elim m [ ])
note_changes_nil pre post (f ∷ fs) changed h =
    let (nothing, later) = note_changes_nil pre post fs (note_change pre post f changed) h in
    let (empty, same) = note_change_nil pre post f changed nothing in
    (empty, λ g m. elim m [ Memᴰ.head e ↦ rw e same | Memᴰ.tail n ↦ later g n ])

note_changes_same :
    (pre post : BookingObservation) (fs : List PostActionField)
    → ((f : PostActionField) → booking_value f pre ≡ booking_value f post)
    → note_changes pre post fs [] ≡ []
unfolding note_changes
note_changes_same pre post [] h = refl
note_changes_same pre post (f ∷ fs) h =
    rw ((eq_iff (booking_value f pre) (booking_value f post)).1 (h f))
      (note_changes_same pre post fs h)

field_listed : (f : PostActionField) → Memᴰ f post_action_fields
field_listed book_id_field = Memᴰ.head refl
field_listed lifecycle_status_field = Memᴰ.tail (Memᴰ.head refl)
field_listed booking_version_field = Memᴰ.tail (Memᴰ.tail (Memᴰ.head refl))
field_listed record_fingerprint_field = Memᴰ.tail (Memᴰ.tail (Memᴰ.tail (Memᴰ.head refl)))

changes_read-nil_iff :
    (pre : BookingObservation) (post : Option BookingObservation) (changed : List ChangedField)
    → (changes_read pre post changed ≡ []) ↔ ((changed ≡ []) × ReadsAgree pre post)
changes_read-nil_iff pre none changed = (λ h. (h, tt), λ h. h.0)
changes_read-nil_iff pre (some post) changed = (
  λ h.
      let (empty, same) = note_changes_nil pre post post_action_fields changed h in
      (empty, λ f. same f (field_listed f)),
  λ (empty, same). rw empty (note_changes_same pre post post_action_fields same),
)

changes_to_report-nil_iff :
    (v : PostActionVerification) (changed : List ChangedField)
    → (changes_to_report v changed ≡ [])
      ↔ ((changed ≡ []) × (v.readback_available ≡ true) × (v.original_break_remaining ≡ false))
changes_to_report-nil_iff v [] = (λ h. (refl, ground arith, ground arith), λ h. ground arith)
changes_to_report-nil_iff v (c ∷ cs) = (λ h. cc, λ h. h.0)

accepted-ne-nil :
    (d : FieldComparison) (ds : List FieldComparison)
    → break_of post_action_verification_failure (accepted_only (d ∷ ds)) ≢ some []
accepted-ne-nil d ds h = elim (Bool-cases (comparisons_accepted (d ∷ ds))) [
  | inl yes_ ↦
      let e : break_of post_action_verification_failure (some (d ∷ ds)) ≡ some [] = rw yes_ at h in
      cc
  | inr no_ ↦ let e : break_of post_action_verification_failure none ≡ some [] = rw no_ at h in cc
]

reported-nil_iff :
    (v : PostActionVerification) (changed : List ChangedField)
    → (break_of post_action_verification_failure (accepted_only (map (change_comparison v) changed))
        ≡ some [])
      ↔ (changed ≡ [])
unfolding comparisons_accepted
reported-nil_iff v [] = (λ h. refl, λ h. refl)
reported-nil_iff v (c ∷ cs) = (
  λ h. absurd (accepted-ne-nil (change_comparison v c) (map (change_comparison v) cs) h),
  λ h. cc,
)

abbrev pub Verified : Option PostActionVerification → Type 0
Verified verification =
    (verification ≡ none)
    ⊎ ((v : PostActionVerification) × (verification ≡ some v)
        × (v.changed_fields ≡ [])
        × ReadsAgree v.pre_action v.post_action
        × (v.readback_available ≡ true)
        × (v.original_break_remaining ≡ false))

verified :
    (v : PostActionVerification)
    → Verified (some v)
    → (changes_read v.pre_action v.post_action v.changed_fields ≡ [])
      × (v.readback_available ≡ true)
      × (v.original_break_remaining ≡ false)
verified v (inl h) = cc
verified v (inr (w, e, empty, agree, available, gone)) =
    let same : w ≡ v = sym (some-injective _ _ e) in
    let facts =
      subst
        (λ (x : PostActionVerification).
          (x.changed_fields ≡ [])
          × ReadsAgree x.pre_action x.post_action
          × (x.readback_available ≡ true)
          × (x.original_break_remaining ≡ false))
        same (empty, agree, available, gone) in
    (
      (changes_read-nil_iff v.pre_action v.post_action v.changed_fields).1 (facts.0, facts.1),
      facts.2,
      facts.3,
    )

-- No post-action break is reported exactly when there is nothing to verify, or when no change was
-- declared, the two reads agree on each of the four fields, the read-back was available, and the
-- original break is gone.
pub post_action_break-nil_iff :
    (verification : Option PostActionVerification)
    → (post_action_break verification ≡ some []) ↔ Verified verification
unfolding post_action_break
post_action_break-nil_iff none = (λ _. inl refl, λ _. refl)
post_action_break-nil_iff (some v) =
    let changed = changes_to_report v (changes_read v.pre_action v.post_action v.changed_fields) in
    let (out, back) = reported-nil_iff v changed in
    let (out', back') =
      changes_to_report-nil_iff v (changes_read v.pre_action v.post_action v.changed_fields) in
    let (out'', back'') = changes_read-nil_iff v.pre_action v.post_action v.changed_fields in
    (
      λ h.
          let (nothing, available, gone) = out' (out h) in
          let (empty, agree) = out'' nothing in inr (v, refl, empty, agree, available, gone),
      λ h. back (back' (verified v h)),
    )

note_change_keeps :
    (pre post : BookingObservation) (f : PostActionField) (changed : List ChangedField)
    {c : ChangedField}
    → Memᴰ c changed
    → Memᴰ c (note_change pre post f changed)
note_change_keeps pre post f changed m =
    elim (Bool-cases (
      not (booking_value f pre == booking_value f post)
      && not (any (λ (c' : ChangedField). same_path c'.changed_path f) changed))) [
        | inl new ↦ rw new (mem-append_left _ m)
        | inr old ↦ rw old m
      ]

note_changes_keeps :
    (pre post : BookingObservation) (fs : List PostActionField) {changed : List ChangedField}
    {c : ChangedField}
    → Memᴰ c changed
    → Memᴰ c (note_changes pre post fs changed)
unfolding note_changes
note_changes_keeps pre post [] m = m
note_changes_keeps pre post (f ∷ fs) {changed} m =
    note_changes_keeps pre post fs (note_change_keeps pre post f changed m)

changes_read_keeps :
    (pre : BookingObservation) (post : Option BookingObservation) {changed : List ChangedField}
    {c : ChangedField}
    → Memᴰ c changed
    → Memᴰ c (changes_read pre post changed)
changes_read_keeps pre none m = m
changes_read_keeps pre (some post) m = note_changes_keeps pre post post_action_fields m

changes_to_report_keeps :
    (v : PostActionVerification) (changed : List ChangedField) {c : ChangedField}
    → Memᴰ c changed
    → Memᴰ c (changes_to_report v changed)
changes_to_report_keeps v [] m = elim m [ ]
changes_to_report_keeps v (x ∷ xs) m = m

comparisons_accepted_of_mem :
    (ds : List FieldComparison) {d : FieldComparison}
    → Memᴰ d ds
    → d.expected_value ≡ d.observed_value
    → comparisons_accepted ds ≡ false
unfolding comparisons_accepted
comparisons_accepted_of_mem [] m e = elim m [ ]
comparisons_accepted_of_mem (x ∷ xs) {d} (Memᴰ.head h) e =
    let here : x.expected_value ≡ x.observed_value =
      subst (λ (y : FieldComparison). y.expected_value ≡ y.observed_value) h e in
    rw ((eq_iff x.expected_value x.observed_value).1 here) refl
comparisons_accepted_of_mem (x ∷ xs) {d} (Memᴰ.tail m) e =
    ground (arith, comparisons_accepted_of_mem xs m e)

-- A change that is listed with two equal values makes the engine raise, whatever the reads say.
pub post_action_break_refused :
    (v : PostActionVerification) (c : ChangedField)
    → Memᴰ c v.changed_fields
    → c.expected_value ≡ c.observed_value
    → post_action_break (some v) ≡ none
unfolding post_action_break
post_action_break_refused v c m e =
    let kept =
      changes_to_report_keeps v (changes_read v.pre_action v.post_action v.changed_fields)
        (changes_read_keeps v.pre_action v.post_action m) in
    rw
      (comparisons_accepted_of_mem
        (map (change_comparison v)
          (changes_to_report v (changes_read v.pre_action v.post_action v.changed_fields)))
        (mem-map_of_mem (change_comparison v) kept) e)
      refl
