-- ===== src/Remediation/Store/Bookings.antt =====
-- The mock legacy record under corrections: what one attempt does, and how often a key is applied.
use mathlib.Core.Option
use tradeops_sentinel.Base.{
  Bool-cases, List, Option, String, [], arith, eq_iff, eq_of_test, find, if◌then◌else◌, inl, inr,
  ne_of_test, none, refl, some, true, ◌==◌, ◌↔◌, ◌∷◌, ◌≡◌, ◌≢◌,
}
use tradeops_sentinel.Remediation.Result.{Result, err, ok}
use tradeops_sentinel.Remediation.Store.{
  BookingOutcome, Correction, applied, apply_legacy_booking_correction, correct_row, corrected_row,
  duplicate_noop, find_booking, is_booking, is_key, not_found, update_bookings, value_mismatch,
}
use tradeops_sentinel.Remediation.Tables.{BookingRecord, Db, TradeKey, key_eq, key_eq_iff}

find_update :
    (c : Correction) (k : TradeKey) (rows : List BookingRecord)
    → find (is_booking k) (update_bookings c rows) ≡ (
        if key_eq c.trade k
        then Option.map (corrected_row c) (find (is_booking k) rows)
        else find (is_booking k) rows)
unfolding update_bookings
find_update c k [] = ground arith
find_update c k (row ∷ rows) = ground (
  arith,
  find_update c k rows,
  key_eq_iff row.key c.trade,
  key_eq_iff row.key k,
  key_eq_iff c.trade k,
)

-- The four outcomes of one attempt. The value is replaced, its version counted and the key recorded
-- exactly when the attempt is reported as applied; any other attempt leaves the tables as they were.
abbrev pub Attempt : Correction → Db → Result (BookingOutcome × Option String) × Db → Type 0
Attempt c db (ok (applied, read), db') =
    (old : BookingRecord) × (find_booking c.trade db ≡ some old)
    × (old.base_amount_value ≡ c.expected_old_value)
    × (old.last_applied_idempotency_key ≢ some c.idempotency_key)
    × (read ≡ some c.approved_value)
    × (find_booking c.trade db' ≡ some (corrected_row c old))
    × ((k : TradeKey) → k ≢ c.trade → find_booking k db' ≡ find_booking k db)
    × (db' ≡ record db { bookings = db'.bookings })
Attempt c db (ok (duplicate_noop, read), db') =
    (old : BookingRecord) × (find_booking c.trade db ≡ some old)
    × (old.last_applied_idempotency_key ≡ some c.idempotency_key)
    × (read ≡ some old.base_amount_value)
    × (db' ≡ db)
Attempt c db (ok (value_mismatch, read), db') =
    (old : BookingRecord) × (find_booking c.trade db ≡ some old)
    × (old.base_amount_value ≢ c.expected_old_value)
    × (old.last_applied_idempotency_key ≢ some c.idempotency_key)
    × (read ≡ some old.base_amount_value)
    × (db' ≡ db)
Attempt c db (ok (not_found, read), db') =
    (find_booking c.trade db ≡ none) × (read ≡ none) × (db' ≡ db)
Attempt c db (err _, db') = ⊥

pub is_key_iff : (key : String) (o : Option String) → (is_key key o ≡ true) ↔ (o ≡ some key)
is_key_iff key none = ground arith
is_key_iff key (some last) = ground (arith, eq_iff last key)

find_update_self :
    (c : Correction) (rows : List BookingRecord) {row : BookingRecord}
    → find (is_booking c.trade) rows ≡ some row
    → find (is_booking c.trade) (update_bookings c rows) ≡ some (corrected_row c row)
find_update_self c rows e = rw (find_update c c.trade rows, (key_eq_iff c.trade c.trade).1 refl, e)

find_update_ne :
    (c : Correction) (k : TradeKey) (rows : List BookingRecord)
    → k ≢ c.trade
    → find (is_booking k) (update_bookings c rows) ≡ find (is_booking k) rows
find_update_ne c k rows ne = ground (arith, find_update c k rows, key_eq_iff c.trade k)

correct_row-Attempt :
    (c : Correction) (o : Option BookingRecord) (db : Db)
    → find (is_booking c.trade) db.bookings ≡ o
    → Attempt c db (correct_row c o db)
unfolding correct_row find_booking
correct_row-Attempt c none db e = (e, refl, refl)
correct_row-Attempt c (some row) db e =
    elim (Bool-cases (is_key c.idempotency_key row.last_applied_idempotency_key)) [
      | inl replay ↦ rw replay (
        row,
        e,
        (is_key_iff c.idempotency_key row.last_applied_idempotency_key).0 replay,
        refl,
        refl,
      )
      | inr fresh ↦
          let other_key : row.last_applied_idempotency_key ≢ some c.idempotency_key =
            ground (arith, is_key_iff c.idempotency_key row.last_applied_idempotency_key) in
          elim (Bool-cases (row.base_amount_value == c.expected_old_value)) [
            | inl fits ↦
                rw (fresh, fits)
                  (
                    row,
                    e,
                    eq_of_test row.base_amount_value c.expected_old_value fits,
                    other_key,
                    refl,
                    find_update_self c db.bookings e,
                    λ k ne. find_update_ne c k db.bookings ne,
                    refl,
                  )
            | inr other ↦
                rw (fresh, other)
                  (
                    row,
                    e,
                    ne_of_test row.base_amount_value c.expected_old_value other,
                    other_key,
                    refl,
                    refl,
                  )
          ]
    ]

-- One correction attempt: whether the record is missing, already carries the key, holds another
-- value than expected, or is corrected; what the caller is told; and that only the last of these
-- changes anything, namely that one record.
pub apply-Attempt : (c : Correction) (db : Db) → Attempt c db (apply_legacy_booking_correction c db)
unfolding apply_legacy_booking_correction
apply-Attempt c db = correct_row-Attempt c (find (is_booking c.trade) db.bookings) db refl

-- A key that the record carries already changes nothing.
pub apply_replay :
    (c : Correction) (db : Db) (row : BookingRecord)
    → find_booking c.trade db ≡ some row
    → row.last_applied_idempotency_key ≡ some c.idempotency_key
    → apply_legacy_booking_correction c db ≡ (ok (duplicate_noop, some row.base_amount_value), db)
unfolding apply_legacy_booking_correction correct_row find_booking
apply_replay c db row e last =
    rw (e, (is_key_iff c.idempotency_key row.last_applied_idempotency_key).1 last)
