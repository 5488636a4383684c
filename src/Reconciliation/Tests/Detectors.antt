-- ===== src/Reconciliation/Tests/Detectors.antt =====
-- The detectors of the engine on examples.
use mathlib.Core.List.{Memᴰ}
use mathlib.Core.Path.{subst}
use tradeops_sentinel.Base.{
  List, Option, String, [], ap, false, inr, map, none, refl, some, sorted, sym, text_le, true,
  true_ne_false, ◌*◌, ◌<◌, ◌==◌, ◌^◌, ◌↔◌, ◌∷◌, ◌≡◌, ◌≢◌, ◌≤◌,
}
use tradeops_sentinel.Contracts.{Observation}
use tradeops_sentinel.Persistence.Tests.{contradicting, first_booking, payload_of, retransmitted}
use tradeops_sentinel.Reconciliation.Breaks.{Break}
use tradeops_sentinel.Reconciliation.Config.{
  DecimalToleranceRule, EconomicField, ProductType, absolute_decimal, base_amount, fixture_config,
  fixture_tolerance, fx_spot, no_tolerance, quoted_rate, terms_amount, tolerance_keys,
}
use tradeops_sentinel.Reconciliation.Decimal.{
  Decimal, abs_difference, decimal_of, max_scale, precision, within_tolerance,
}
use tradeops_sentinel.Reconciliation.Decimal.Rounding.{
  IsRounding, exact_difference, within_tolerance-exact,
}
use tradeops_sentinel.Reconciliation.Duplicates.{
  duplicate_breaks, group_of, ordered_observations, same_key,
}
use tradeops_sentinel.Reconciliation.Duplicates.Conflicts.{
  duplicate_breaks-nil_iff, duplicate_breaks_refused,
}
use tradeops_sentinel.Reconciliation.Economic.{economic_breaks, economic_value}
use tradeops_sentinel.Reconciliation.Economic.Agreement.{
  AreDecimals, IsWithin, economic_breaks-IsWithin,
}
use tradeops_sentinel.Reconciliation.Economic.Tolerance.{IsTolerance}
use tradeops_sentinel.Reconciliation.PostAction.{
  BookingObservation, ChangedField, PostActionVerification, book_id_field, post_action_break,
}
use tradeops_sentinel.Reconciliation.PostAction.Verified.{
  Verified, post_action_break-nil_iff, post_action_break_refused,
}
use tradeops_sentinel.Reconciliation.Tests.{fixture, fixture_valid, two-IsTraced}

-- The confirmed amount differs by half a cent from the booked one.
abbrev booked_amount : Decimal
booked_amount = record { coefficient = 10000; scale = 2 }

abbrev confirmed_amount : Decimal
confirmed_amount = record { coefficient = 100005; scale = 3 }

within_tolerance-exact_example :
    ((allowed : Option Decimal)
      → (within_tolerance booked_amount confirmed_amount no_tolerance allowed ≡ some true)
        ↔ (exact_difference confirmed_amount booked_amount ≡ 0))
    × ((allowed : Decimal)
        → exact_difference confirmed_amount booked_amount < 10 ^ precision
        → (within_tolerance booked_amount confirmed_amount absolute_decimal (some allowed)
            ≡ some true)
          ↔ (exact_difference confirmed_amount booked_amount * 10 ^ allowed.scale
              ≤ allowed.coefficient * 10 ^ max_scale confirmed_amount booked_amount))
    × IsRounding
        (exact_difference confirmed_amount booked_amount)
        (abs_difference confirmed_amount booked_amount).coefficient
within_tolerance-exact_example = within_tolerance-exact booked_amount confirmed_amount

abbrev pub HasDecimals : Observation → Type 0
HasDecimals o = (f : EconomicField) → (d : Decimal) × (decimal_of (economic_value f o) ≡ some d)

pub hundred-HasDecimals : (o : Observation) → o.payload ≡ payload_of "100.00" → HasDecimals o
unfolding decimal_of
hundred-HasDecimals o e base_amount = (record { coefficient = 10000; scale = 2 }, rw e refl)
hundred-HasDecimals o e terms_amount = (record { coefficient = 11000; scale = 2 }, rw e refl)
hundred-HasDecimals o e quoted_rate = (record { coefficient = 110; scale = 2 }, rw e refl)

value_decimal :
    (f : EconomicField) (o : Observation)
    → Memᴰ o (first_booking ∷ retransmitted ∷ [])
    → (d : Decimal) × (decimal_of (economic_value f o) ≡ some d)
value_decimal f o (Memᴰ.head e) = hundred-HasDecimals o (rw e refl) f
value_decimal f o (Memᴰ.tail (Memᴰ.head e)) = hundred-HasDecimals o (rw e refl) f
value_decimal f o (Memᴰ.tail (Memᴰ.tail m)) = elim m [ ]

fixture-IsTolerance : (p : ProductType) (f : EconomicField) → IsTolerance (fixture_tolerance (p, f))
unfolding decimal_of
fixture-IsTolerance p base_amount = inr ("0.01", _, refl, refl)
fixture-IsTolerance p terms_amount = inr ("0.01", _, refl, refl)
fixture-IsTolerance p quoted_rate = inr ("0.0001", _, refl, refl)

pub tolerances_of :
    (keys : List (ProductType × EconomicField)) (r : DecimalToleranceRule)
    → Memᴰ r (map fixture_tolerance keys)
    → IsTolerance r
tolerances_of [] r m = elim m [ ]
tolerances_of ((p, f) ∷ keys) r (Memᴰ.head e) =
    subst (λ x. IsTolerance x) (sym e) (fixture-IsTolerance p f)
tolerances_of ((p, f) ∷ keys) r (Memᴰ.tail m) = tolerances_of keys r m

two-AreDecimals : AreDecimals fixture (first_booking ∷ retransmitted ∷ [])
unfolding fixture_config
two-AreDecimals = (value_decimal, λ r m. tolerances_of tolerance_keys r m)

abbrev one_provenance : EconomicField → String
one_provenance f = "obs_1"

economic_breaks-IsWithin_example :
    let os = first_booking ∷ retransmitted ∷ [] in
    (breaks : List Break) × (economic_breaks fixture fx_spot one_provenance os ≡ some breaks)
    × ((breaks ≡ []) ↔ (
        (f : EconomicField) (o : Observation)
        → Memᴰ o os
        → IsWithin fixture fx_spot one_provenance os f o))
economic_breaks-IsWithin_example =
    economic_breaks-IsWithin fixture fx_spot one_provenance (first_booking ∷ retransmitted ∷ [])
      fixture_valid ((λ f. (first_booking, Memᴰ.head refl, refl)), two-IsTraced.1) two-AreDecimals

duplicate_breaks-nil_iff_example :
    (duplicate_breaks (first_booking ∷ contradicting ∷ []) ≡ some []) ↔ (
      (a b : Observation)
      → Memᴰ a (first_booking ∷ contradicting ∷ [])
      → Memᴰ b (first_booking ∷ contradicting ∷ [])
      → same_key a b ≡ true
      → a.content_hash ≡ b.content_hash)
duplicate_breaks-nil_iff_example = duplicate_breaks-nil_iff (first_booking ∷ contradicting ∷ [])

hashes_differ : ◌≢◌ {A = String} "100.00" "90.00"
hashes_differ e = true_ne_false (ap (λ h. h == "100.00") e)

group_ordered :
    ordered_observations
      (group_of (first_booking ∷ retransmitted ∷ contradicting ∷ []) first_booking)
    ≡ first_booking ∷ retransmitted ∷ contradicting ∷ []
unfolding ordered_observations sorted text_le
group_ordered = refl

duplicate_breaks_refused_example :
    duplicate_breaks (first_booking ∷ retransmitted ∷ contradicting ∷ []) ≡ none
duplicate_breaks_refused_example =
    duplicate_breaks_refused (first_booking ∷ retransmitted ∷ contradicting ∷ []) first_booking
      contradicting first_booking retransmitted (contradicting ∷ []) (Memᴰ.head refl)
      (Memᴰ.tail (Memᴰ.tail (Memᴰ.head refl))) refl hashes_differ group_ordered refl

abbrev read_of : Observation → BookingObservation
read_of o = record { observation = o; booking_version = "1"; record_fingerprint = "print_1" }

abbrev rebooked : PostActionVerification
rebooked = record {
  pre_action = read_of first_booking;
  post_action = some (record (read_of retransmitted) { booking_version = "2" });
  changed_fields = [];
  readback_available = true;
  original_break_remaining = false;
}

post_action_break-nil_iff_example :
    (post_action_break (some rebooked) ≡ some []) ↔ Verified (some rebooked)
post_action_break-nil_iff_example = post_action_break-nil_iff (some rebooked)

abbrev unchanged : ChangedField
unchanged = record {
  changed_path = book_id_field;
  expected_value = "book_1";
  observed_value = "book_1";
}

abbrev misreported : PostActionVerification
misreported = record rebooked { changed_fields = unchanged ∷ [] }

post_action_break_refused_example : post_action_break (some misreported) ≡ none
post_action_break_refused_example =
    post_action_break_refused misreported unchanged (Memᴰ.head refl) refl
