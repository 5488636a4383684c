-- ===== src/Remediation/Triage.antt =====
-- packages/remediation/triage.py: from a break to a case. The break row, the canonical document and
-- the recommendation come from other components; a new case identifier is an argument.
use Prim.Native.Char.{code}
use Prim.Native.String
use tradeops_sentinel.Base.{
  List, Option, String, [], find, if◌then◌else◌, nat_eq, none, not, some, ℕ, ◌==◌, ◌∷◌,
}
use tradeops_sentinel.Remediation.Envelope.{Platform}
use tradeops_sentinel.Remediation.Exec.{Exec, lift, pure, raise, ◌>>=◌, ◌>>◌}
use tradeops_sentinel.Remediation.Models.{AiRecommendation, BreakFacts, PolicyDecision}
use tradeops_sentinel.Remediation.Policy.{evaluate}
use tradeops_sentinel.Remediation.Result.{
  Result, break_not_found, case_not_eligible, err, index_error, ok,
}
use tradeops_sentinel.Remediation.Retrieval.{RetrievedSection, RunbookSection}
use tradeops_sentinel.Remediation.Retrieval.Search.{search}
use tradeops_sentinel.Remediation.Store.{insert_case, seed_legacy_booking_record}
use tradeops_sentinel.Remediation.Tables.{CaseRow}

-- What `_build_break_facts` reads of a comparison, of a source reference, and of the rows.
pub record Comparison : Type 0 where
  pub field_path : String
  pub expected_value : String
  pub observed_value : String
  pub expected_source_observation_id : Option String
  pub observed_source_observation_id : Option String

pub record SourceReference : Type 0 where
  pub source_observation_id : String
  pub source_system : String

pub record BreakRow : Type 0 where
  pub break_id : String
  pub run_id : String
  pub break_family : String
  pub condition_code : String
  pub product_type : String
  pub trade_id : String
  pub comparisons : List Comparison
  pub source_version_set : List SourceReference

pub record CanonicalDocument : Type 0 where
  pub portfolio_id : String
  pub base_amount_currency : String  -- "" if the state has no base amount

abbrev pub supported_field_path : String
supported_field_path = "/payload/base_amount"

-- The dict `references`: of two references with one identifier it keeps the later.
pub find_reference : String → List SourceReference → Option SourceReference
find_reference id [] = none
find_reference id (r ∷ rest) = elim (find_reference id rest) [
  | some later ↦ some later
  | none ↦ if r.source_observation_id == id then some r else none
]

pub get_reference : Option String → List SourceReference → Option SourceReference
get_reference none refs = none
get_reference (some id) refs = find_reference id refs

-- `value.partition(".")[2]`, and its length.
pub after_point : String → String
after_point String.[] = ""
after_point (String.◌∷◌ c rest) = if nat_eq (code c) b'.' then rest else after_point rest

unfoldable pub decimal_scale : String → ℕ
unfolding after_point
decimal_scale value = String.count (after_point value)

module _ (x : Platform) where
  pub facts_of :
      BreakRow
      → CanonicalDocument
      → Comparison
      → Option SourceReference
      → Option SourceReference
      → Result (BreakFacts × SourceReference)
  facts_of row doc c (some expected_ref) (some observed_ref) = ok (
    record {
      break_id = x.strip row.break_id;
      break_family = x.strip row.break_family;
      condition_code = x.strip row.condition_code;
      product_type = x.strip row.product_type;
      trade_id = x.strip row.trade_id;
      field_path = x.strip c.field_path;
      expected_value = x.strip c.expected_value;
      observed_value = x.strip c.observed_value;
      expected_source_system = x.strip expected_ref.source_system;
      observed_source_system = x.strip observed_ref.source_system;
      trade_value_amount = x.strip c.expected_value;
      trade_value_currency = x.strip doc.base_amount_currency;
    },
    observed_ref,
  )
  facts_of row doc c _ _ = err case_not_eligible

  pub facts_of_comparison :
      BreakRow → CanonicalDocument → Option Comparison → Result (BreakFacts × SourceReference)
  unfolding facts_of get_reference find_reference
  facts_of_comparison row doc none = err case_not_eligible
  facts_of_comparison row doc (some c) =
      facts_of row doc c (get_reference c.expected_source_observation_id row.source_version_set)
        (get_reference c.observed_source_observation_id row.source_version_set)

  unfoldable pub build_break_facts :
      BreakRow → CanonicalDocument → Result (BreakFacts × SourceReference)
  unfolding facts_of_comparison
  build_break_facts row doc =
      if not (row.break_family == "ECONOMIC_VALUE_MISMATCH")
      then err case_not_eligible
      else facts_of_comparison row doc
          (find (λ c. c.field_path == supported_field_path) row.comparisons)

  -- The case row of a break, and the booking record to seed.
  abbrev pub case_row :
      (tenant_id case_id provider_name : String)
      → BreakRow
      → CanonicalDocument
      → BreakFacts
      → AiRecommendation
      → PolicyDecision
      → CaseRow
  case_row tenant_id case_id provider_name row doc facts recommendation decision = record {
    case_id = case_id;
    break_id = facts.break_id;
    run_id = row.run_id;
    trade_id = row.trade_id;
    tenant_id = tenant_id;
    portfolio_id = doc.portfolio_id;
    product_type = facts.product_type;
    ai_provider = provider_name;
    break_facts = facts;
    ai_recommendation = recommendation;
    policy_decision = decision;
  }

-- A provider, by its name and what it answers to facts and candidates; it may raise.
pub record Provider : Type 0 where
  pub name : String
  pub recommend : BreakFacts → List RetrievedSection → Result AiRecommendation

pub record CaseGenerated : Type 0 where
  pub case_id : String
  pub recommendation : AiRecommendation
  pub decision : PolicyDecision

abbrev pub joined : List String → String
joined [] = ""
joined (s ∷ ss) = String.◌++◌ s (joined ss)

abbrev pub candidate_query : BreakFacts → String
candidate_query facts = joined (
    facts.break_family ∷ " " ∷ facts.field_path ∷ " economic value mismatch "
    ∷ facts.expected_source_system ∷ " " ∷ facts.observed_source_system
    ∷ " correction authoritative source booking" ∷ [])

module _ (x : Platform) (index : List RunbookSection) (provider : Provider) where
  abbrev pub answer_to : BreakFacts → Option (List RetrievedSection) → Result AiRecommendation
  answer_to facts none = err index_error
  answer_to facts (some candidates) = provider.recommend facts candidates

  -- The search for candidates, and what the provider answers.
  unfoldable pub advise : BreakFacts → Result AiRecommendation
  unfolding search
  advise facts = answer_to facts (search x.lower (candidate_query facts) index 5)

  unfoldable pub store_case :
      (tenant_id case_id : String)
      → BreakRow
      → CanonicalDocument
      → BreakFacts × SourceReference
      → AiRecommendation
      → Exec CaseGenerated
  unfolding insert_case seed_legacy_booking_record
  store_case tenant_id case_id row doc (facts, observed_ref) recommendation = do
    let decision = evaluate index recommendation facts
    insert_case (case_row x tenant_id case_id provider.name row doc facts recommendation decision)
    seed_legacy_booking_record
        (record { tenant_id = tenant_id; portfolio_id = doc.portfolio_id; trade_id = row.trade_id })
        facts.observed_value facts.trade_value_currency (decimal_scale facts.observed_value)
        observed_ref.source_observation_id
    pure (record { case_id = case_id; recommendation = recommendation; decision = decision })

  unfoldable pub generate_from :
      (tenant_id case_id : String) → BreakRow → Option CanonicalDocument → Exec CaseGenerated
  unfolding store_case advise
  generate_from tenant_id case_id row none = raise case_not_eligible
  generate_from tenant_id case_id row (some doc) = do
    facts ← lift (build_break_facts x row doc)
    recommendation ← lift (advise facts.0)
    store_case tenant_id case_id row doc facts recommendation

  -- `generate_case`, on what `break_detail` and `canonical_state_document` returned.
  unfoldable pub generate_case :
      (tenant_id case_id : String)
      → Option BreakRow
      → (String → Option CanonicalDocument)
      → Exec CaseGenerated
  unfolding generate_from
  generate_case tenant_id case_id none documents = raise break_not_found
  generate_case tenant_id case_id (some row) documents =
      generate_from tenant_id case_id row (documents row.trade_id)
