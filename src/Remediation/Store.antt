-- ===== src/Remediation/Store.antt =====
-- packages/remediation/store.py, with the constraints of ddl/0004_ai_remediation.sql.
pub mod Bookings
pub mod AtMostOnce
pub mod Approvals
use tradeops_sentinel.Base.{
  Bool, List, Option, String, [], any, false, filter, find, if◌then◌else◌, none, not, some, ℕ, ◌&&◌,
  ◌++◌, ◌+◌, ◌==◌, ◌∷◌,
}
use tradeops_sentinel.Remediation.Exec.{Exec, gets, ◌>>=◌, ◌>>◌}
use tradeops_sentinel.Remediation.Models.{ApprovalRole, checker, maker, same_role}
use tradeops_sentinel.Remediation.Result.{
  assertion_failed, duplicate_approval_role, err, foreign_key_violation, ok, unique_violation,
}
use tradeops_sentinel.Remediation.Tables.{
  ApprovalRow, BookingRecord, CaseRow, Db, EnvelopeRow, EvidenceRow, ExecutionRow, TradeKey, key_eq,
}

pub data BookingOutcome : Type 0 where
  applied duplicate_noop value_mismatch not_found : BookingOutcome

abbrev pub is_booking : TradeKey → BookingRecord → Bool
is_booking k row = key_eq row.key k

-- `read_legacy_booking_record`
unfoldable pub find_booking : TradeKey → Db → Option BookingRecord
find_booking k db = find (is_booking k) db.bookings

-- `seed_legacy_booking_record`: `ON CONFLICT … DO NOTHING`
unfoldable pub seed_legacy_booking_record :
    TradeKey
    → (value currency : String) (scale : ℕ) (source_observation_id : String) → Exec (Unit {0})
seed_legacy_booking_record k value currency scale source db =
    elim (find (is_booking k) db.bookings) [
      | some _ ↦ (ok tt, db)
      | none ↦ (
        ok tt,
        record db {
          bookings =
              db.bookings
              ++ record {
                key = k;
                base_amount_value = value;
                base_amount_currency = currency;
                base_amount_scale = scale;
                source_observation_id = source;
                booking_version = 1;
                last_applied_idempotency_key = none;
              }
                ∷ [];
        },
      )
    ]

pub record Correction : Type 0 where
  pub trade : TradeKey
  pub approved_value : String
  pub expected_old_value : String
  pub idempotency_key : String

abbrev pub is_key : String → Option String → Bool
is_key key none = false
is_key key (some last) = last == key

-- The `SET` of the `UPDATE`, and its `WHERE`.
abbrev pub corrected_row : Correction → BookingRecord → BookingRecord
corrected_row c row = record row {
  base_amount_value = c.approved_value;
  booking_version = row.booking_version + 1;
  last_applied_idempotency_key = some c.idempotency_key;
}

pub update_bookings : Correction → List BookingRecord → List BookingRecord
update_bookings c [] = []
update_bookings c (row ∷ rows) =
    (if is_booking c.trade row then corrected_row c row else row) ∷ update_bookings c rows

pub correct_row : Correction → Option BookingRecord → Exec (BookingOutcome × Option String)
correct_row c none db = (ok (not_found, none), db)
correct_row c (some row) db =
    if is_key c.idempotency_key row.last_applied_idempotency_key
    then (ok (duplicate_noop, some row.base_amount_value), db)
    else if not (row.base_amount_value == c.expected_old_value)
    then (ok (value_mismatch, some row.base_amount_value), db)
    else (
      ok (applied, some c.approved_value),
      record db { bookings = update_bookings c db.bookings },
    )

unfoldable pub apply_legacy_booking_correction : Correction → Exec (BookingOutcome × Option String)
unfolding correct_row
apply_legacy_booking_correction c db = correct_row c (find (is_booking c.trade) db.bookings) db

abbrev pub is_case : String → CaseRow → Bool
is_case id row = row.case_id == id

unfoldable pub get_case : String → Db → Option CaseRow
get_case id db = find (is_case id) db.cases

unfoldable pub insert_case : CaseRow → Exec (Unit {0})
insert_case row db =
    if any (is_case row.case_id) db.cases
    then (err unique_violation, db)
    else (ok tt, record db { cases = db.cases ++ row ∷ [] })

abbrev pub is_approval : String → ApprovalRole → ApprovalRow → Bool
is_approval id role row = (row.case_id == id) && same_role row.role role

unfoldable pub insert_approval : ApprovalRow → Exec (Unit {0})
insert_approval row db =
    if any (is_approval row.case_id row.role) db.approvals
    then (err duplicate_approval_role, db)
    else if not (any (is_case row.case_id) db.cases)
    then (err foreign_key_violation, db)
    else (ok tt, record db { approvals = db.approvals ++ row ∷ [] })

-- `ORDER BY role`: 'CHECKER' comes before 'MAKER'.
unfoldable pub get_approvals : String → Db → List ApprovalRow
get_approvals id db =
    filter (is_approval id checker) db.approvals ++ filter (is_approval id maker) db.approvals

abbrev pub is_envelope : String → EnvelopeRow → Bool
is_envelope id row = row.case_id == id

unfoldable pub get_envelope : String → Db → Option EnvelopeRow
get_envelope id db = find (is_envelope id) db.envelopes

-- The `INSERT … ON CONFLICT (case_id) DO NOTHING`.
unfoldable pub insert_envelope : EnvelopeRow → Exec (Unit {0})
insert_envelope row db =
    if any (is_envelope row.case_id) db.envelopes
    then (ok tt, db)
    else if any (λ r. r.idempotency_key == row.idempotency_key) db.envelopes
    then (err unique_violation, db)
    else if not (any (is_case row.case_id) db.cases)
    then (err foreign_key_violation, db)
    else (ok tt, record db { envelopes = db.envelopes ++ row ∷ [] })

-- `assert existing is not None`
abbrev pub some_or_assert : {A : Type 0} → Option A → Exec A
some_or_assert none db = (err assertion_failed, db)
some_or_assert (some a) db = (ok a, db)

unfoldable pub insert_envelope_if_absent : EnvelopeRow → Exec EnvelopeRow
unfolding insert_envelope get_envelope
insert_envelope_if_absent row = do
  insert_envelope row
  existing ← gets (get_envelope row.case_id)
  some_or_assert existing

unfoldable pub insert_execution : ExecutionRow → Exec (Unit {0})
insert_execution row db =
    if not (any (is_case row.case_id) db.cases)
    then (err foreign_key_violation, db)
    else (ok tt, record db { executions = db.executions ++ row ∷ [] })

-- `ORDER BY attempted_at, row_id`: the order of insertion.
unfoldable pub get_executions : String → Db → List ExecutionRow
get_executions id db = filter (λ r. r.case_id == id) db.executions

abbrev pub is_evidence : String → EvidenceRow → Bool
is_evidence id row = row.case_id == id

unfoldable pub get_evidence : String → Db → Option EvidenceRow
get_evidence id db = find (is_evidence id) db.evidence

unfoldable pub insert_evidence : EvidenceRow → Exec (Unit {0})
insert_evidence row db =
    if any (is_evidence row.case_id) db.evidence
    then (ok tt, db)
    else if any (λ r. r.evidence_id == row.evidence_id) db.evidence
    then (err unique_violation, db)
    else if not (any (is_case row.case_id) db.cases)
    then (err foreign_key_violation, db)
    else (ok tt, record db { evidence = db.evidence ++ row ∷ [] })

unfoldable pub insert_evidence_if_absent : EvidenceRow → Exec EvidenceRow
unfolding insert_evidence get_evidence
insert_evidence_if_absent row = do
  insert_evidence row
  existing ← gets (get_evidence row.case_id)
  some_or_assert existing
