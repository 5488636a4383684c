-- ===== src/Remediation/Tests/Witnesses.antt =====
-- The theorems of the remediation slice, at the worked example.
use mathlib.Core.Sum.{inl-injective}
use mathlib.Core.List.{Memᴰ}
use tradeops_sentinel.Base.{
  List, String, [], any, count, if◌then◌else◌, leb, map, ne_of_test, refl, some, true, ℕ, ◌+◌, ◌<◌,
  ◌↔◌, ◌∷◌, ◌≡◌, ◌≤◌, ◌⊎◌,
}
use tradeops_sentinel.Remediation.Api.{create_case, submit_approval}
use tradeops_sentinel.Remediation.Deterministic.{
  citations_of, correction_recommended, is_supported, recommend, root_cause,
}
use tradeops_sentinel.Remediation.Envelope.{
  build_envelope, content_hash_of, envelope_ttl, is_ascii, signing_secret, verify_envelope,
}
use tradeops_sentinel.Remediation.Envelope.Laws.{
  approved_value_field, verify-build, verify-eq-ok_iff, verify_altered, verify_resigned,
}
use tradeops_sentinel.Remediation.Evidence.{case_view}
use tradeops_sentinel.Remediation.Executor.{
  AttemptContext, execute, normal, require_valid_approvals, returned, timeout_recovery_attempt,
}
use tradeops_sentinel.Remediation.Executor.Guards.{execute-Execution}
use tradeops_sentinel.Remediation.Executor.Outcomes.{Execution}
use tradeops_sentinel.Remediation.Executor.Replay.{execute_replay, executions_after, replay_result}
use tradeops_sentinel.Remediation.Models.{
  ActionEnvelope, AiRecommendation, BreakFacts, ExecutionResult, checker, content_mismatch,
  corrected, eligible_for_approval, maker, signature_invalid, success,
}
use tradeops_sentinel.Remediation.Policy.{confidence_threshold, evaluate, supports}
use tradeops_sentinel.Remediation.Policy.Deterministic.{
  correct_field, expected_outcome, recommend_outcome,
}
use tradeops_sentinel.Remediation.Policy.Laws.{
  InFavour, IsClosed, IsEligible, evaluate-cases, evaluate-eligible_iff,
}
use tradeops_sentinel.Remediation.Result.{Result, err, expired, ok, tampered}
use tradeops_sentinel.Remediation.Retrieval.{
  RetrievedSection, citation_exists, citation_supports_action,
}
use tradeops_sentinel.Remediation.Store.{
  Correction, applied, apply_legacy_booking_correction, find_booking, get_approvals, get_case,
  get_envelope, get_evidence, get_executions, insert_approval, insert_case, insert_execution,
  is_case, seed_legacy_booking_record,
}
use tradeops_sentinel.Remediation.Store.AtMostOnce.{
  Entry, applies_key, applies_other, attempts, back, count-applies_key_le, forth,
  replay_after_other_key_applies,
}
use tradeops_sentinel.Remediation.Store.Bookings.{Attempt, apply-Attempt}
use tradeops_sentinel.Remediation.System.{Reach, approved, created, executed, next, start}
use tradeops_sentinel.Remediation.System.Safety.{IsBackedUp, applied-IsBackedUp}
use tradeops_sentinel.Remediation.Tables.{Db, empty, key_eq}
use tradeops_sentinel.Remediation.Tests.{
  applied_row, approvals, booked_row, break_row, db_approved, db_created, db_executed, db_made,
  documents, envelope, executions_example, facts, index, platform, recommendation, request,
  services, settings, trade,
}
use tradeops_sentinel.Remediation.Triage.{build_break_facts, decimal_scale, generate_case}

created_reachable : Reach services db_created
created_reachable = next start (created empty "tenant_1" "case_1" (some break_row) documents)

approved_reachable : Reach services db_approved
approved_reachable =
    next (next created_reachable (approved db_created "case_1" maker "alice"))
      (approved db_made "case_1" checker "bob")

executed_reachable : Reach services db_executed
executed_reachable = next approved_reachable (executed db_approved 1000 "case_1")

applied-IsBackedUp_example : IsBackedUp services db_executed applied_row
applied-IsBackedUp_example =
    applied-IsBackedUp services db_executed applied_row executed_reachable
      (rw executions_example (Memᴰ.head refl)) refl

case_known : any (is_case "case_1") db_approved.cases ≡ true
unfolding create_case submit_approval get_case generate_case build_break_facts evaluate
    confidence_threshold citation_supports_action citation_exists decimal_scale insert_case
    seed_legacy_booking_record get_approvals insert_approval case_view get_executions get_evidence
    get_envelope
case_known = refl

abbrev executed_once : Result ExecutionResult × Db
executed_once = execute platform settings 2000 envelope approvals normal db_approved

execute-Execution_example :
    Execution platform settings 2000 envelope approvals normal db_approved executed_once
execute-Execution_example =
    execute-Execution platform settings 2000 envelope approvals normal db_approved case_known

abbrev applied_result : ExecutionResult
applied_result = record {
  outcome = success;
  detail = corrected;
  read_back_value = some "100.00";
  applied = true;
}

execute_run : executed_once ≡ (ok applied_result, executed_once.1)
unfolding is_ascii create_case submit_approval get_case generate_case build_break_facts evaluate
    confidence_threshold citation_supports_action citation_exists decimal_scale insert_case
    seed_legacy_booking_record get_approvals insert_approval case_view get_executions get_evidence
    get_envelope execute verify_envelope require_valid_approvals apply_legacy_booking_correction
    key_eq insert_execution
execute_run = refl

-- Two more calls in between, the second after the envelope has expired.
abbrev between : List (ℕ × AttemptContext)
between = (2500, normal) ∷ (1000000000, timeout_recovery_attempt) ∷ []

abbrev db_between : Db
db_between = executions_after platform settings 2000 envelope approvals between executed_once.1

execute_replay_example :
    (db_between.bookings ≡ executed_once.1.bookings)
    × ((execute platform settings 3000 envelope approvals timeout_recovery_attempt db_between).0
        ≡ ok (returned platform (replay_result envelope 3000 timeout_recovery_attempt)))
    × ((execute platform settings 3000 envelope approvals timeout_recovery_attempt
          db_between).1.bookings
        ≡ executed_once.1.bookings)
execute_replay_example =
    execute_replay platform settings 2000 envelope approvals normal db_approved executed_once.1
      applied_result case_known execute_run refl between 3000 timeout_recovery_attempt

abbrev db_booked : Db
db_booked = record empty { bookings = booked_row ∷ [] }

apply-Attempt_example :
    Attempt
      (forth trade "90.00" "100.00" "k1" "k2")
      db_booked
      (apply_legacy_booking_correction (forth trade "90.00" "100.00" "k1" "k2") db_booked)
apply-Attempt_example = apply-Attempt (forth trade "90.00" "100.00" "k1" "k2") db_booked

abbrev corrections : List Correction
corrections = forth trade "90.00" "100.00" "k1" "k2" ∷ back trade "90.00" "100.00" "k1" "k2" ∷ []

count-applies_key_le_example :
    count (applies_key trade "k1") (attempts corrections db_booked)
    ≤ count (applies_other trade "k1") (attempts corrections db_booked) + 1
count-applies_key_le_example = count-applies_key_le trade "k1" corrections db_booked

replay_after_other_key_applies_example :
    map
      (λ (e : Entry). e.1)
      (attempts
        (forth trade "90.00" "100.00" "k1" "k2"
          ∷ back trade "90.00" "100.00" "k1" "k2"
          ∷ forth trade "90.00" "100.00" "k1" "k2"
          ∷ [])
        db_booked)
    ≡ ok (applied, some "100.00") ∷ ok (applied, some "90.00") ∷ ok (applied, some "100.00") ∷ []
unfolding find_booking key_eq
replay_after_other_key_applies_example =
    replay_after_other_key_applies trade "90.00" "100.00" "k1" "k2" db_booked booked_row refl refl
      (λ h. cc) (ne_of_test "k1" "k2" refl)

envelope_built : build_envelope platform settings request 1000 envelope_ttl ≡ ok envelope
unfolding build_envelope is_ascii
envelope_built = refl

verify-build_example :
    verify_envelope platform settings 2000 envelope
    ≡ (if leb (1000 + envelope_ttl) 2000 then err (expired (1000 + envelope_ttl)) else ok tt)
verify-build_example = verify-build platform settings request 1000 envelope_ttl 2000 envelope_built

verify-eq-ok_iff_example : (verify_envelope platform settings 2000 envelope ≡ ok tt) ↔ (
    (key : String) × (signing_secret settings ≡ ok key)
    × (content_hash_of platform envelope ≡ envelope.content_hash)
    × (platform.hmac_sha256 key envelope.content_hash ≡ envelope.signature)
    × (2000 < envelope.expires_at))
verify-eq-ok_iff_example = verify-eq-ok_iff platform settings 2000 envelope

envelope_accepted : verify_envelope platform settings 2000 envelope ≡ ok tt
unfolding is_ascii verify_envelope
envelope_accepted = refl

abbrev altered : ActionEnvelope
altered = record envelope { approved_value = "999.00" }

verify_altered_example :
    verify_envelope platform settings 2500 altered ≡ err (tampered content_mismatch)
verify_altered_example =
    verify_altered platform settings 2000 envelope altered approved_value_field 2500
      envelope_accepted refl (λ same. ne_of_test "999.00" "100.00" refl (inl-injective _ _ same))
      (λ same. absurd (ne_of_test "case_1999.00" "case_1100.00" refl same))

abbrev resigned : ActionEnvelope
resigned = record altered { content_hash = "case_1999.00" }

verify_resigned_example :
    verify_envelope platform settings 2500 resigned ≡ err (tampered signature_invalid)
unfolding is_ascii signing_secret content_hash_of
verify_resigned_example =
    verify_resigned platform settings 2000 envelope resigned 2500 refl envelope_accepted refl refl
      (ne_of_test "kcase_1999.00" "kcase_1100.00" refl)

evaluate-eligible_iff_example :
    ((evaluate index recommendation facts).outcome ≡ eligible_for_approval)
    ↔ IsEligible index recommendation facts
evaluate-eligible_iff_example = evaluate-eligible_iff index recommendation facts

evaluate-cases_example :
    InFavour (evaluate index recommendation facts) facts.expected_value
    ⊎ IsClosed (evaluate index recommendation facts)
evaluate-cases_example = evaluate-cases index recommendation facts

abbrev pattern_facts : BreakFacts
pattern_facts = record facts {
  expected_source_system = "FIX_EXECUTION";
  observed_source_system = "MOCK_LEGACY_BOOKING";
}

abbrev candidates : List RetrievedSection
candidates =
    record {
      document_id = "RB-003";
      section = "2";
      title = "Read back before deciding";
      snippet = "Read back.";
    }
    ∷ record {
      document_id = "RB-001";
      section = "3";
      title = "Correction rule";
      snippet = "Correct.";
    }
    ∷ []

abbrev recommended : AiRecommendation
recommended = correction_recommended (λ s. s) pattern_facts candidates

recommend_run : recommend (λ s. s) pattern_facts candidates ≡ ok recommended
unfolding recommend is_supported root_cause
recommend_run = refl

recommend_outcome_example :
    (evaluate index recommended pattern_facts).outcome
    ≡ expected_outcome
        (is_supported pattern_facts)
        (any (supports index correct_field) (citations_of (λ s. s) candidates))
recommend_outcome_example =
    recommend_outcome index (λ s. s) pattern_facts candidates recommended refl refl recommend_run

outcome_is_eligible : (evaluate index recommended pattern_facts).outcome ≡ eligible_for_approval
unfolding evaluate confidence_threshold correction_recommended citations_of citation_supports_action
    citation_exists
outcome_is_eligible = refl
