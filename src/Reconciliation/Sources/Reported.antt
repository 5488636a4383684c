-- ===== src/Reconciliation/Sources/Reported.antt =====
-- Which missing sources the engine reports.
use tradeops_sentinel.Base.{
  Bool, Bool-cases, List, [], arith, count, false, find, if◌then◌else◌, inl, inr, ltb, none, not,
  refl, some, true, ℕ, ◌&&◌, ◌++◌, ◌<◌, ◌∙◌, ◌∷◌, ◌≡◌, ◌≤◌, ◌⊎◌,
}
use tradeops_sentinel.Contracts.{Observation}
use tradeops_sentinel.Reconciliation.Config.{
  ArrivalWindowRule, MissingSourceKind, ProductType, ReconciliationConfig, arrival_rule,
  booking_source, confirmation_source, execution_source, same_source, validate_complete_policy,
}
use tradeops_sentinel.Reconciliation.Config.Complete.{rule_found, validate_complete_policy-OneFound}
use tradeops_sentinel.Reconciliation.Sources.{
  MissingSourceBreak, deadline, is_available, missing_break, missing_source, missing_source_breaks,
}

-- The test for the breaks of one source.
abbrev pub is_for : MissingSourceKind → MissingSourceBreak → Bool
is_for k b = same_source b.expected_observation_kind k

-- What `breaks` holds for a source: one break, of the rule, if no observation of the source is there
-- and the window is over; none if an observation is there or the window is open.
abbrev pub Reported :
    ArrivalWindowRule
    → ℕ
    → ℕ
    → ℕ
    → List Observation
    → MissingSourceKind
    → List MissingSourceBreak
    → Type 0
Reported rule watermark latest evaluated_at observations k breaks =
    ((count (is_for k) breaks ≡ 1)
      × (find (is_for k) breaks ≡ some (missing_break k rule watermark evaluated_at))
      × (is_available k observations ≡ false)
      × (deadline watermark rule ≤ evaluated_at))
    ⊎ ((count (is_for k) breaks ≡ 0)
        × ((is_available k observations ≡ true)
            ⊎ ((evaluated_at < deadline watermark rule) × (deadline watermark rule ≤ latest))))

pub same_source_refl : (k : MissingSourceKind) → same_source k k ≡ true
same_source_refl execution_source = refl
same_source_refl confirmation_source = refl
same_source_refl booking_source = refl

-- The break of a source, if it is missing.
abbrev slot : Bool → MissingSourceBreak → List MissingSourceBreak
slot true b = b ∷ []
slot false b = []

slot_first :
    (k : MissingSourceKind) (late : Bool) (rule : ArrivalWindowRule) (w t : ℕ)
    (rest : List MissingSourceBreak)
    → count (is_for k) rest ≡ 0
    → find (is_for k) rest ≡ none
    → (count (is_for k) (slot late (missing_break k rule w t) ++ rest) ≡ (if late then 1 else 0))
      × (find (is_for k) (slot late (missing_break k rule w t) ++ rest)
          ≡ (if late then some (missing_break k rule w t) else none))
slot_first k true rule w t rest h g =
    (rw (same_source_refl k, h) refl, rw (same_source_refl k) refl)
slot_first k false rule w t rest h g = (h, g)

slot_other :
    (k l : MissingSourceKind) (late : Bool) (rule : ArrivalWindowRule) (w t : ℕ)
    (rest : List MissingSourceBreak)
    → same_source l k ≡ false
    → (count (is_for k) (slot late (missing_break l rule w t) ++ rest) ≡ count (is_for k) rest)
      × (find (is_for k) (slot late (missing_break l rule w t) ++ rest) ≡ find (is_for k) rest)
slot_other k l true rule w t rest h = (rw h refl, rw h refl)
slot_other k l false rule w t rest h = (refl, refl)

module _ (c : ReconciliationConfig) (p : ProductType) (watermark latest evaluated_at : ℕ)
    (observations : List Observation) where
  abbrev is_late : MissingSourceKind → ArrivalWindowRule → Bool
  is_late k rule =
      not (is_available k observations) && not (ltb evaluated_at (deadline watermark rule))

  abbrev slot_of : MissingSourceKind → ArrivalWindowRule → List MissingSourceBreak
  slot_of k rule = slot (is_late k rule) (missing_break k rule watermark evaluated_at)

  -- The deadline of a source that is not there can be computed.
  abbrev Fits : MissingSourceKind → ArrivalWindowRule → Type 0
  Fits k rule = (is_available k observations ≡ true) ⊎ (deadline watermark rule ≤ latest)

  missing_source-cases :
      (k : MissingSourceKind) (rule : ArrivalWindowRule)
      → arrival_rule c p k ≡ some rule
      → (Fits k rule
          × (missing_source c p watermark latest evaluated_at observations k
              ≡ some (slot_of k rule)))
        ⊎ ((is_available k observations ≡ false)
            × (latest < deadline watermark rule)
            × (missing_source c p watermark latest evaluated_at observations k ≡ none))
  unfolding missing_source
  missing_source-cases k rule h = elim (Bool-cases (is_available k observations)) [
    | inl here ↦ inl (inl here, ground (arith, h, here))
    | inr absent ↦ elim (Bool-cases (ltb latest (deadline watermark rule))) [
      | inl over ↦ inr (absent, ground (arith, over), ground (arith, h, absent, over))
      | inr fits ↦ inl (inr (ground (arith, fits)), ground (arith, h, absent, fits))
    ]
  ]

  Reported-slot :
      (k : MissingSourceKind) (rule : ArrivalWindowRule) (breaks : List MissingSourceBreak)
      → (count (is_for k) breaks ≡ (if is_late k rule then 1 else 0))
        × (find (is_for k) breaks
            ≡ (if is_late k rule then some (missing_break k rule watermark evaluated_at) else none))
      → Fits k rule
      → Reported rule watermark latest evaluated_at observations k breaks
  Reported-slot k rule breaks (h, g) fits = ground arith

  -- The breaks of the three sources, with their rules.
  abbrev breaks_of :
      ArrivalWindowRule → ArrivalWindowRule → ArrivalWindowRule → List MissingSourceBreak
  breaks_of e f b =
      slot_of execution_source e
      ++ (slot_of confirmation_source f ++ (slot_of booking_source b ++ []))

  elsewhere :
      (k l : MissingSourceKind) (rule : ArrivalWindowRule) (rest : List MissingSourceBreak)
      → same_source l k ≡ false
      → (count (is_for k) (slot_of l rule ++ rest) ≡ count (is_for k) rest)
        × (find (is_for k) (slot_of l rule ++ rest) ≡ find (is_for k) rest)
  elsewhere k l rule rest h = slot_other k l (is_late l rule) rule watermark evaluated_at rest h

  breaks_of-execution :
      (e f b : ArrivalWindowRule)
      → Fits execution_source e
      → Reported e watermark latest evaluated_at observations execution_source (breaks_of e f b)
  breaks_of-execution e f b fits =
      let (n, g) = elsewhere execution_source booking_source b [] refl in
      let (n', g') =
        elsewhere execution_source confirmation_source f (slot_of booking_source b ++ []) refl in
      Reported-slot execution_source e (breaks_of e f b)
        (slot_first execution_source (is_late execution_source e) e watermark evaluated_at
          (slot_of confirmation_source f ++ (slot_of booking_source b ++ [])) (n' ∙ n) (g' ∙ g))
        fits

  breaks_of-confirmation :
      (e f b : ArrivalWindowRule)
      → Fits confirmation_source f
      → Reported f watermark latest evaluated_at observations confirmation_source (breaks_of e f b)
  breaks_of-confirmation e f b fits =
      let (n, g) = elsewhere confirmation_source booking_source b [] refl in
      let (n', g') =
        elsewhere confirmation_source execution_source e
          (slot_of confirmation_source f ++ (slot_of booking_source b ++ [])) refl in
      let (m, q) =
        slot_first confirmation_source (is_late confirmation_source f) f watermark evaluated_at
          (slot_of booking_source b ++ []) n g in
      Reported-slot confirmation_source f (breaks_of e f b) (n' ∙ m, g' ∙ q) fits

  breaks_of-booking :
      (e f b : ArrivalWindowRule)
      → Fits booking_source b
      → Reported b watermark latest evaluated_at observations booking_source (breaks_of e f b)
  breaks_of-booking e f b fits =
      let (n, g) =
        elsewhere booking_source confirmation_source f (slot_of booking_source b ++ []) refl in
      let (n', g') =
        elsewhere booking_source execution_source e
          (slot_of confirmation_source f ++ (slot_of booking_source b ++ [])) refl in
      let (m, q) =
        slot_first booking_source (is_late booking_source b) b watermark evaluated_at [] refl
          refl in
      Reported-slot booking_source b (breaks_of e f b) (n' ∙ n ∙ m, g' ∙ g ∙ q) fits

-- With a configuration that was validated the search for missing sources finds a rule for each of the
-- three required sources. Either it ends, and then for each of them there is one break, the one of its
-- rule, if no observation of it is there and the time of evaluation has reached the watermark plus the
-- window, and none if an observation is there or the window is still open; or no observation of some
-- source is there, the watermark plus its window lies past the latest time that a `datetime` in the
-- watermark's zone can be, and the search raises.
pub missing_source_breaks-Reported :
    (c : ReconciliationConfig) (p : ProductType) (watermark latest evaluated_at : ℕ)
    (observations : List Observation)
    → validate_complete_policy c ≡ true
    → ((breaks : List MissingSourceBreak) × (missing_source_breaks c p watermark latest evaluated_at
            observations
          ≡ some breaks)
        × ((k : MissingSourceKind)
            → (rule : ArrivalWindowRule) × (arrival_rule c p k ≡ some rule)
              × Reported rule watermark latest evaluated_at observations k breaks))
      ⊎ ((k : MissingSourceKind) × (rule : ArrivalWindowRule) × (arrival_rule c p k ≡ some rule)
          × (is_available k observations ≡ false)
          × (latest < deadline watermark rule)
          × (missing_source_breaks c p watermark latest evaluated_at observations ≡ none))
unfolding missing_source_breaks
missing_source_breaks-Reported c p watermark latest evaluated_at observations valid =
    let (found, _, _) = validate_complete_policy-OneFound c valid in
    let rule_of : (k : MissingSourceKind)
        → (r : ArrivalWindowRule) × (arrival_rule c p k ≡ some r) =
      λ k. rule_found _ _ (arrival_rule c p k) (found p k) in
    let (e, at_e) = rule_of execution_source in
    let (f, at_f) = rule_of confirmation_source in
    let (b, at_b) = rule_of booking_source in
    let here = missing_source-cases c p watermark latest evaluated_at observations in
    elim (here execution_source e at_e) [
      | inr (absent, over, raised) ↦ inr (execution_source, e, at_e, absent, over, rw raised refl)
      | inl (fits_e, slot_e) ↦ elim (here confirmation_source f at_f) [
        | inr (absent, over, raised) ↦
            inr (confirmation_source, f, at_f, absent, over, rw (slot_e, raised) refl)
        | inl (fits_f, slot_f) ↦ elim (here booking_source b at_b) [
          | inr (absent, over, raised) ↦
              inr (booking_source, b, at_b, absent, over, rw (slot_e, slot_f, raised) refl)
          | inl (fits_b, slot_b) ↦ inl (
            breaks_of c p watermark latest evaluated_at observations e f b,
            rw (slot_e, slot_f, slot_b) refl,
            λ k.
                elim k
                  as (λ k.
                    (rule : ArrivalWindowRule) × (arrival_rule c p k ≡ some rule)
                    × Reported rule watermark latest evaluated_at observations k
                        (breaks_of c p watermark latest evaluated_at observations e f b)) [
                          | execution_source ↦ (
                            e,
                            at_e,
                            breaks_of-execution c p watermark latest evaluated_at observations e f b
                                fits_e,
                          )
                          | confirmation_source ↦ (
                            f,
                            at_f,
                            breaks_of-confirmation c p watermark latest evaluated_at observations e
                                f b fits_f,
                          )
                          | booking_source ↦ (
                            b,
                            at_b,
                            breaks_of-booking c p watermark latest evaluated_at observations e f b
                                fits_b,
                          )
                        ],
          )
        ]
      ]
    ]
