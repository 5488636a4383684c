-- ===== src/Remediation/Deterministic.antt =====
-- packages/remediation/ai_provider.py: `DeterministicTestProvider`.
use Prim.Native.String
use tradeops_sentinel.Base.{
  Bool, List, String, [], filter, if◌then◌else◌, leb, map, none, not, some, ℕ, ◌&&◌, ◌*◌, ◌==◌, ◌^◌,
  ◌∷◌,
}
use tradeops_sentinel.Remediation.Models.{
  AiRecommendation, BreakFacts, Citation, Priority, RiskTier, checker, contains, maker,
}
use tradeops_sentinel.Remediation.Result.{Result, err, ok, validation_error}
use tradeops_sentinel.Remediation.Retrieval.{RetrievedSection, key_of}

-- The one pattern that it supports.
unfoldable pub is_supported : BreakFacts → Bool
is_supported facts =
    (facts.break_family == "ECONOMIC_VALUE_MISMATCH")
    && (facts.field_path == "/payload/base_amount")
    && (facts.expected_source_system == "FIX_EXECUTION")
    && (facts.observed_source_system == "MOCK_LEGACY_BOOKING")

abbrev pub is_preferred : RetrievedSection → Bool
is_preferred c = contains (key_of c.document_id c.section) ("RB-001#3" ∷ "RB-002#1" ∷ [])

abbrev pub first_two : {A : Type 0} → List A → List A
first_two (a ∷ b ∷ _) = a ∷ b ∷ []
first_two xs = xs

abbrev pub or_first_two : List RetrievedSection → List RetrievedSection → List RetrievedSection
or_first_two candidates [] = first_two candidates
or_first_two candidates (c ∷ cs) = c ∷ cs

unfoldable pub chosen_sections : List RetrievedSection → List RetrievedSection
chosen_sections candidates = or_first_two candidates (filter is_preferred candidates)

-- The floats 0.93 and 0.2, as multiples of 2^-1074.
pub high_confidence : ℕ
high_confidence = 8376695306909123 * 2 ^ 1021

pub low_confidence : ℕ
low_confidence = 3602879701896397 * 2 ^ 1020

unfoldable pub abstention : AiRecommendation
unfolding low_confidence
abstention = record {
  predicted_root_cause =
      "Break facts do not match the single automated-remediation pattern this slice supports.";
  confidence = low_confidence;
  priority = Priority.medium;
  recommended_action = none;
  proposed_fields = [];
  risk_tier = RiskTier.low;
  required_approvals = [];
  citations = [];
  abstain_reason = some "unsupported_break_pattern";
}

abbrev append : List String → String
append [] = ""
append (s ∷ ss) = String.◌++◌ s (append ss)

module _ (strip : String → String) where
  unfoldable pub root_cause : BreakFacts → String
  root_cause facts = strip (
      append (
        "Legacy booking " ∷ facts.field_path ∷ " (" ∷ facts.observed_value
        ∷ ") diverges from the authoritative " ∷ facts.expected_source_system ∷ " value ("
        ∷ facts.expected_value
        ∷ ") with no evidenced corporate action or rate revision, consistent with a booking data-entry error."
        ∷ []))

  unfoldable pub citations_of : List RetrievedSection → List Citation
  unfolding chosen_sections
  citations_of candidates =
      map (λ c. record { document_id = strip c.document_id; section = strip c.section })
        (chosen_sections candidates)

  unfoldable pub correction_recommended : BreakFacts → List RetrievedSection → AiRecommendation
  unfolding high_confidence root_cause citations_of
  correction_recommended facts candidates = record {
    predicted_root_cause = root_cause facts;
    confidence = high_confidence;
    priority = Priority.high;
    recommended_action = some "CORRECT_LEGACY_BOOKING_FIELD";
    proposed_fields = (strip facts.field_path, strip facts.expected_value) ∷ [];
    risk_tier = RiskTier.medium;
    required_approvals = maker ∷ checker ∷ [];
    citations = citations_of candidates;
    abstain_reason = none;
  }

  -- `recommend`; pydantic refuses a root cause of no or more than 2000 characters.
  unfoldable pub recommend : BreakFacts → List RetrievedSection → Result AiRecommendation
  unfolding correction_recommended abstention
  recommend facts candidates =
      if not (is_supported facts)
      then ok abstention
      else if leb 1 (String.count (root_cause facts)) && leb (String.count (root_cause facts)) 2000
      then ok (correction_recommended facts candidates)
      else err validation_error
