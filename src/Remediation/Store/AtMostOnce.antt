-- ===== src/Remediation/Store/AtMostOnce.antt =====
-- How often one idempotency key is applied to one record, over any sequence of attempts.
use tradeops_sentinel.Base.{
  Bool, Bool-cases, List, Option, String, [], arith, count, eq_iff, false, if◌then◌else◌, inl, inr,
  map, none, not, refl, some, true, ℕ, ◌&&◌, ◌+◌, ◌==◌, ◌∷◌, ◌≡◌, ◌≢◌, ◌≤◌,
}
use tradeops_sentinel.Remediation.Result.{Result, err, ok}
use tradeops_sentinel.Remediation.Store.{
  BookingOutcome, Correction, applied, apply_legacy_booking_correction, corrected_row,
  duplicate_noop, find_booking, is_key, not_found, value_mismatch,
}
use tradeops_sentinel.Remediation.Store.Bookings.{Attempt, apply-Attempt, is_key_iff}
use tradeops_sentinel.Remediation.Tables.{BookingRecord, Db, TradeKey, key_eq, key_eq_iff}

abbrev pub Entry : Type 0
Entry = Correction × Result (BookingOutcome × Option String)

-- A sequence of attempts, each with what it returned.
pub attempts : List Correction → Db → List Entry
attempts [] db = []
attempts (c ∷ cs) db =
    let (r, db') = apply_legacy_booking_correction c db in (c, r) ∷ attempts cs db'

abbrev pub is_applied : Result (BookingOutcome × Option String) → Bool
is_applied (ok (applied, _)) = true
is_applied _ = false

module _ (t : TradeKey) (key : String) where
  -- An attempt on record `t` that was applied, under `key` or under another key.
  abbrev pub applies_key : Entry → Bool
  applies_key (c, r) = is_applied r && key_eq c.trade t && (c.idempotency_key == key)

  abbrev pub applies_other : Entry → Bool
  applies_other (c, r) = is_applied r && key_eq c.trade t && not (c.idempotency_key == key)

  -- One application of `key` is owed unless it is the last one that the record saw.
  abbrev slack : Option BookingRecord → ℕ
  slack none = 1
  slack (some row) = if is_key key row.last_applied_idempotency_key then 0 else 1

  abbrev one_if : Bool → ℕ
  one_if true = 1
  one_if false = 0

  slack_le_of_Attempt :
      (c : Correction) (db : Db) (out : Result (BookingOutcome × Option String) × Db)
      → Attempt c db out
      → one_if (applies_key (c, out.0)) + slack (find_booking t out.1)
        ≤ one_if (applies_other (c, out.0)) + slack (find_booking t db)
  slack_le_of_Attempt c db (ok (applied, read), db') (old, e, fits, fresh, _, e', others, _) =
      elim (Bool-cases (key_eq c.trade t)) [
        | inl here ↦
            let same : c.trade ≡ t = (key_eq_iff c.trade t).0 here in
            let before : find_booking t db ≡ some old = rw same at e in
            let after : find_booking t db' ≡ some (corrected_row c old) = rw same at e' in
            rw (before, after, here)
              (ground (
                arith,
                is_key_iff key old.last_applied_idempotency_key,
                eq_iff c.idempotency_key key,
              ))
        | inr away ↦
            let ne : t ≢ c.trade = ground (arith, key_eq_iff c.trade t) in
            rw (away, others t ne) (omega arith)
      ]
  slack_le_of_Attempt c db (ok (duplicate_noop, read), db') (old, e, _, _, same) =
      rw same (omega arith)
  slack_le_of_Attempt c db (ok (value_mismatch, read), db') (old, e, _, _, _, same) =
      rw same (omega arith)
  slack_le_of_Attempt c db (ok (not_found, read), db') (e, _, same) = rw same (omega arith)
  slack_le_of_Attempt c db (err x, db') h = absurd h

  slack-le_one : (o : Option BookingRecord) → slack o ≤ 1
  slack-le_one none = omega arith
  slack-le_one (some row) = ground arith

  count-cons :
      (p : Entry → Bool) (x : Entry) (xs : List Entry)
      → count p (x ∷ xs) ≡ one_if (p x) + count p xs
  count-cons p x xs = ground arith

  attempts-slack :
      (cs : List Correction) (db : Db)
      → count applies_key (attempts cs db)
        ≤ count applies_other (attempts cs db) + slack (find_booking t db)
  unfolding attempts
  attempts-slack [] db = omega arith
  attempts-slack (c ∷ cs) db =
      let out = apply_legacy_booking_correction c db in
      omega (
        arith,
        count-cons applies_key (c, out.0) (attempts cs out.1),
        count-cons applies_other (c, out.0) (attempts cs out.1),
        slack_le_of_Attempt c db out (apply-Attempt c db),
        attempts-slack cs out.1,
      )

  -- Over any sequence of attempts, on any records and with any keys and values, a key is applied to a
  -- record at most once more than other keys are: a second application needs another key between.
  pub count-applies_key_le :
      (cs : List Correction) (db : Db)
      → count applies_key (attempts cs db) ≤ count applies_other (attempts cs db) + 1
  count-applies_key_le cs db = omega (arith, attempts-slack cs db, slack-le_one (find_booking t db))

apply_fresh :
    (c : Correction) (db : Db) (row : BookingRecord)
    → find_booking c.trade db ≡ some row
    → row.base_amount_value ≡ c.expected_old_value
    → row.last_applied_idempotency_key ≢ some c.idempotency_key
    → ((apply_legacy_booking_correction c db).0 ≡ ok (applied, some c.approved_value))
      × (find_booking c.trade (apply_legacy_booking_correction c db).1 ≡ some (corrected_row c row))
apply_fresh c db row e fits fresh = go (apply_legacy_booking_correction c db) (apply-Attempt c db)
  where
    go :
        (out : Result (BookingOutcome × Option String) × Db)
        → Attempt c db out
        → (out.0 ≡ ok (applied, some c.approved_value))
          × (find_booking c.trade out.1 ≡ some (corrected_row c row))
    go (ok (applied, read), db') (old, e', _, _, told, after, _, _) =
        let same : row ≡ old = cc in (cc, rw same after)
    go (ok (duplicate_noop, read), db') (old, e', stale, _, _) =
        let same : row ≡ old = cc in absurd (fresh (rw same stale))
    go (ok (value_mismatch, read), db') (old, e', other, _, _, _) =
        let same : row ≡ old = cc in absurd (other (rw (← same) fits))
    go (ok (not_found, read), db') (e', _, _) = cc
    go (err x, db') h = absurd h

module _ (t : TradeKey) (v w first second : String) where
  -- The correction from `v` to `w`, and the one that takes it back under another key.
  abbrev pub forth : Correction
  forth = record { trade = t; approved_value = w; expected_old_value = v; idempotency_key = first }

  abbrev pub back : Correction
  back = record { trade = t; approved_value = v; expected_old_value = w; idempotency_key = second }

  -- The bound is reached: the record keeps only its last key, so after a correction was taken back
  -- under another key, a replay of the first correction is applied a second time.
  pub replay_after_other_key_applies :
      (db : Db) (row : BookingRecord)
      → find_booking t db ≡ some row
      → row.base_amount_value ≡ v
      → row.last_applied_idempotency_key ≢ some first
      → first ≢ second
      → map (λ (e : Entry). e.1) (attempts (forth ∷ back ∷ forth ∷ []) db)
        ≡ ok (applied, some w) ∷ ok (applied, some v) ∷ ok (applied, some w) ∷ []
  unfolding attempts
  replay_after_other_key_applies db row e fits fresh ne =
      let db1 = (apply_legacy_booking_correction forth db).1 in
      let db2 = (apply_legacy_booking_correction back db1).1 in
      let row1 = corrected_row forth row in
      let row2 = corrected_row back row1 in
      let (a, ea) = apply_fresh forth db row e fits fresh in
      let (b, eb) = apply_fresh back db1 row1 ea refl (ground arith) in
      let (c, _) = apply_fresh forth db2 row2 eb refl (ground arith) in cc (a, b, c)
