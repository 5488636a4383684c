-- ===== src/Remediation/Policy/Deterministic.antt =====
-- How the policy engine judges what the deterministic provider recommends.
use tradeops_sentinel.Base.{
  Bool, Bool-cases, List, String, [], any, arith, eq_iff, false, inl, inr, refl, true, ◌∷◌, ◌≡◌,
}
use tradeops_sentinel.Remediation.Deterministic.{
  abstention, citations_of, correction_recommended, is_supported, recommend,
}
use tradeops_sentinel.Remediation.Models.{
  AiRecommendation, BreakFacts, Citation, PolicyOutcome, eligible_for_approval,
  manual_investigation, rejected,
}
use tradeops_sentinel.Remediation.Policy.{
  confidence_threshold, decide_action, decide_citations, decide_field, decide_fields, evaluate,
  investigate, reject_with, supports,
}
use tradeops_sentinel.Remediation.Result.{ok}
use tradeops_sentinel.Remediation.Retrieval.{RetrievedSection, RunbookSection}

abbrev pub correct_field : String
correct_field = "CORRECT_LEGACY_BOOKING_FIELD"

-- What is expected of the decision.
abbrev pub expected_outcome : (pattern : Bool) (supported : Bool) → PolicyOutcome
expected_outcome false supported = manual_investigation
expected_outcome true false = rejected
expected_outcome true true = eligible_for_approval

module _ (index : List RunbookSection) (strip : String → String) (facts : BreakFacts)
    (candidates : List RetrievedSection) where
  abstention_outcome : (evaluate index abstention facts).outcome ≡ manual_investigation
  unfolding evaluate abstention confidence_threshold investigate
  abstention_outcome = refl

  -- The checks of the proposal, on the field and the value of the break itself.
  proposal_outcome :
      (path value : String)
      → path ≡ facts.field_path
      → value ≡ facts.expected_value
      → facts.field_path ≡ "/payload/base_amount"
      → (decide_field facts path value).outcome ≡ eligible_for_approval
  unfolding decide_field
  proposal_outcome path value same_path same_value field = ground (
    arith,
    eq_iff "/payload/base_amount" path,
    eq_iff path facts.field_path,
    eq_iff value facts.expected_value,
  )

  citations_outcome :
      (cs : List Citation)
      → is_supported facts ≡ true
      → strip facts.field_path ≡ facts.field_path
      → strip facts.expected_value ≡ facts.expected_value
      → (decide_citations index
          (correction_recommended strip facts candidates)
          facts
          correct_field
          cs).outcome
        ≡ expected_outcome true (any (supports index correct_field) cs)
  unfolding decide_citations correction_recommended is_supported reject_with decide_fields
  citations_outcome [] pattern path value = refl
  citations_outcome (c ∷ cs) pattern path value =
      elim (Bool-cases (any (supports index correct_field) (c ∷ cs))) [
        | inr unsupported ↦ rw unsupported refl
        | inl supported ↦ rw supported (
            proposal_outcome (strip facts.field_path) (strip facts.expected_value) path value
              (ground (arith, eq_iff facts.field_path "/payload/base_amount")))
      ]

  correction_outcome :
      is_supported facts ≡ true
      → strip facts.field_path ≡ facts.field_path
      → strip facts.expected_value ≡ facts.expected_value
      → (evaluate index (correction_recommended strip facts candidates) facts).outcome
        ≡ expected_outcome true (any (supports index correct_field) (citations_of strip candidates))
  unfolding evaluate decide_action correction_recommended confidence_threshold
  correction_outcome pattern path value =
      citations_outcome (citations_of strip candidates) pattern path value

  -- Whatever the offline provider returns for stripped facts, the policy engine decides by two tests:
  -- facts outside the one supported pattern go to manual investigation, and a proposed correction is
  -- eligible exactly when a section that was chosen supports it, and rejected otherwise.
  pub recommend_outcome :
      (r : AiRecommendation)
      → strip facts.field_path ≡ facts.field_path
      → strip facts.expected_value ≡ facts.expected_value
      → recommend strip facts candidates ≡ ok r
      → (evaluate index r facts).outcome
        ≡ expected_outcome
            (is_supported facts)
            (any (supports index correct_field) (citations_of strip candidates))
  unfolding recommend
  recommend_outcome r path value h = elim (Bool-cases (is_supported facts)) [
    | inr other ↦ let same : abstention ≡ r = ground arith in rw (other, ← same) abstention_outcome
    | inl pattern ↦
        let same : correction_recommended strip facts candidates ≡ r = ground arith in
        rw (pattern, ← same) (correction_outcome pattern path value)
  ]
