-- ===== src/Remediation/Policy/Laws.antt =====
-- What the policy engine lets through: exactly the corrections that meet every rule.
use mathlib.Core.List.{Memᴰ}
use tradeops_sentinel.Base.{
  List, Option, String, [], any, any_found, any_of_mem, arith, eq_iff, eq_refl, none, refl, some,
  true, ◌↔◌, ◌∷◌, ◌≡◌, ◌≢◌, ◌≤◌, ◌⊎◌,
}
use tradeops_sentinel.Remediation.Models.{
  AiRecommendation, BreakFacts, Citation, PolicyDecision, checker, eligible_for_approval, maker,
}
use tradeops_sentinel.Remediation.Policy.{
  confidence_threshold, decide_action, decide_citations, decide_field, decide_fields, evaluate,
  investigate, reject_with, supports,
}
use tradeops_sentinel.Remediation.Retrieval.{RunbookSection, citation_key, citation_supports_action}

-- The decision in favour of a value: which field, which value, and whose approvals.
abbrev pub InFavour : PolicyDecision → String → Type 0
InFavour d value =
    (d.outcome ≡ eligible_for_approval)
    × (d.required_approvals ≡ maker ∷ checker ∷ [])
    × (d.approved_field_path ≡ some "/payload/base_amount")
    × (d.approved_value ≡ some value)

-- A decision against names no field, no value and no approver.
abbrev pub IsClosed : PolicyDecision → Type 0
IsClosed d =
    (d.outcome ≢ eligible_for_approval)
    × (d.required_approvals ≡ [])
    × (d.approved_field_path ≡ none)
    × (d.approved_value ≡ none)

decide_field-cases :
    (facts : BreakFacts) (path value : String)
    → InFavour (decide_field facts path value) facts.expected_value
      ⊎ IsClosed (decide_field facts path value)
unfolding decide_field
decide_field-cases facts path value = ground (
  arith,
  eq_iff "/payload/base_amount" path,
  eq_iff path facts.field_path,
  eq_iff value facts.expected_value,
)

decide_field-eligible :
    (facts : BreakFacts) (path value : String)
    → (decide_field facts path value).outcome ≡ eligible_for_approval
    → (path ≡ "/payload/base_amount") × (facts.field_path ≡ path) × (value ≡ facts.expected_value)
unfolding decide_field reject_with
decide_field-eligible facts path value = ground (
  arith,
  eq_iff "/payload/base_amount" path,
  eq_iff path facts.field_path,
  eq_iff value facts.expected_value,
)

decide_fields-eligible :
    (facts : BreakFacts) (fields : List (String × String))
    → (decide_fields facts fields).outcome ≡ eligible_for_approval
    → (fields ≡ ("/payload/base_amount", facts.expected_value) ∷ [])
      × (facts.field_path ≡ "/payload/base_amount")
unfolding decide_fields reject_with
decide_fields-eligible facts [] h = cc
decide_fields-eligible facts ((path, value) ∷ []) h =
    ground (arith, decide_field-eligible facts path value h)
decide_fields-eligible facts (_ ∷ _ ∷ _) h = cc

decide_fields_of_proposal :
    (facts : BreakFacts)
    → facts.field_path ≡ "/payload/base_amount"
    → (decide_fields facts (("/payload/base_amount", facts.expected_value) ∷ [])).outcome
      ≡ eligible_for_approval
unfolding decide_fields decide_field
decide_fields_of_proposal facts h = rw (h, eq_refl facts.expected_value)

decide_fields-cases :
    (facts : BreakFacts) (fields : List (String × String))
    → InFavour (decide_fields facts fields) facts.expected_value
      ⊎ IsClosed (decide_fields facts fields)
unfolding decide_fields reject_with
decide_fields-cases facts [] = ground arith
decide_fields-cases facts ((path, value) ∷ []) = decide_field-cases facts path value
decide_fields-cases facts (_ ∷ _ ∷ _) = ground arith

module _ (index : List RunbookSection) (r : AiRecommendation) (facts : BreakFacts) where
  decide_citations-eligible :
      (action : String) (cs : List Citation)
      → (decide_citations index r facts action cs).outcome ≡ eligible_for_approval
      → (any (supports index action) cs ≡ true)
        × ((decide_fields facts r.proposed_fields).outcome ≡ eligible_for_approval)
  unfolding decide_citations reject_with
  decide_citations-eligible action [] h = cc
  decide_citations-eligible action (c ∷ cs) h = ground arith

  decide_citations_of_any :
      (action : String) (cs : List Citation)
      → any (supports index action) cs ≡ true
      → decide_citations index r facts action cs ≡ decide_fields facts r.proposed_fields
  unfolding decide_citations
  decide_citations_of_any action [] h = cc
  decide_citations_of_any action (c ∷ cs) h = ground arith

  decide_citations-cases :
      (action : String) (cs : List Citation)
      → InFavour (decide_citations index r facts action cs) facts.expected_value
        ⊎ IsClosed (decide_citations index r facts action cs)
  unfolding decide_citations reject_with
  decide_citations-cases action [] = ground arith
  decide_citations-cases action (c ∷ cs) =
      ground (arith, decide_fields-cases facts r.proposed_fields)

  -- The action list admits one action.
  decide_action-eligible :
      (o : Option String)
      → (decide_action index r facts o).outcome ≡ eligible_for_approval
      → (o ≡ some "CORRECT_LEGACY_BOOKING_FIELD")
        × ((decide_citations index r facts "CORRECT_LEGACY_BOOKING_FIELD" r.citations).outcome
            ≡ eligible_for_approval)
  unfolding decide_action investigate reject_with
  decide_action-eligible none h = cc
  decide_action-eligible (some action) h =
      ground (arith, eq_iff "CORRECT_LEGACY_BOOKING_FIELD" action)

  decide_action_of_correction :
      decide_action index r facts (some "CORRECT_LEGACY_BOOKING_FIELD")
      ≡ decide_citations index r facts "CORRECT_LEGACY_BOOKING_FIELD" r.citations
  unfolding decide_action
  decide_action_of_correction = refl

  decide_action-cases :
      (o : Option String)
      → InFavour (decide_action index r facts o) facts.expected_value
        ⊎ IsClosed (decide_action index r facts o)
  unfolding decide_action investigate reject_with
  decide_action-cases none = ground arith
  decide_action-cases (some action) = ground (arith, decide_citations-cases action r.citations)

  -- Every rule of the engine, met.
  pub record IsEligible : Type 0 where
    pub confident : confidence_threshold ≤ r.confidence
    pub action : r.recommended_action ≡ some "CORRECT_LEGACY_BOOKING_FIELD"
    pub citation : Citation
    pub cited : Memᴰ citation r.citations
    pub supported :
        citation_supports_action index (citation_key citation) "CORRECT_LEGACY_BOOKING_FIELD" ≡ true
    pub proposal : r.proposed_fields ≡ ("/payload/base_amount", facts.expected_value) ∷ []
    pub field : facts.field_path ≡ "/payload/base_amount"

  -- A recommendation is eligible for approval exactly when it is confident enough, asks for the one
  -- supported action, cites a section that supports it, and proposes for the break's own field, the
  -- base amount, exactly the authoritative value.
  pub evaluate-eligible_iff :
      ((evaluate index r facts).outcome ≡ eligible_for_approval) ↔ IsEligible
  unfolding evaluate
  evaluate-eligible_iff = (forth, back)
    where
      forth : (evaluate index r facts).outcome ≡ eligible_for_approval → IsEligible
      forth h =
          let sure : confidence_threshold ≤ r.confidence = ground arith in
          let (action, rest) = decide_action-eligible r.recommended_action (ground arith) in
          let (found, fields) =
            decide_citations-eligible "CORRECT_LEGACY_BOOKING_FIELD" r.citations rest in
          let (c, m, e) =
            any_found (supports index "CORRECT_LEGACY_BOOKING_FIELD") r.citations found in
          let (proposal, field) = decide_fields-eligible facts r.proposed_fields fields in
          record {
            confident = sure;
            action = action;
            citation = c;
            cited = m;
            supported = unfold supports in e;
            proposal = proposal;
            field = field;
          }

      back : IsEligible → (evaluate index r facts).outcome ≡ eligible_for_approval
      back h =
          let found : any (supports index "CORRECT_LEGACY_BOOKING_FIELD") r.citations ≡ true =
            any_of_mem (supports index "CORRECT_LEGACY_BOOKING_FIELD") h.cited
              (unfold supports in h.supported) in
          ground (
            arith,
            decide_action_of_correction,
            decide_citations_of_any "CORRECT_LEGACY_BOOKING_FIELD" r.citations found,
            decide_fields_of_proposal facts h.field,
          )

  -- A decision is either in favour of the authoritative value, by a maker and a checker, or closed.
  pub evaluate-cases :
      InFavour (evaluate index r facts) facts.expected_value ⊎ IsClosed (evaluate index r facts)
  unfolding evaluate investigate
  evaluate-cases = ground (arith, decide_action-cases r.recommended_action)
