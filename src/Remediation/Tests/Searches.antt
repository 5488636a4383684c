-- ===== src/Remediation/Tests/Searches.antt =====
-- A search of three sections.
use mathlib.Core.List.{Memᴰ}
use tradeops_sentinel.Base.{
  List, String, [], false, length, map, map_some, refl, some, ℕ, ◌==◌, ◌∷◌, ◌≡◌,
}
use tradeops_sentinel.Remediation.Deterministic.{
  correction_recommended, is_supported, recommend, root_cause,
}
use tradeops_sentinel.Remediation.Models.{AiRecommendation, BreakFacts, eligible_for_approval}
use tradeops_sentinel.Remediation.Policy.{evaluate}
use tradeops_sentinel.Remediation.Result.{ok}
use tradeops_sentinel.Remediation.Retrieval.{RetrievedSection, RunbookSection}
use tradeops_sentinel.Remediation.Retrieval.Search.{search}
use tradeops_sentinel.Remediation.Retrieval.Search.Eligible.{search_eligible}
use tradeops_sentinel.Remediation.Retrieval.Search.Results.{IsBest, named, search-IsBest, shown}
use tradeops_sentinel.Remediation.Tests.{facts}

abbrev sections : List RunbookSection
sections =
    record {
      document_id = "RB-001";
      section_number = "3";
      title = "correction rule";
      content = "correct the legacy booking to the\nauthoritative value";
    }
    ∷ record {
      document_id = "RB-002";
      section_number = "2";
      title = "identities";
      content = "maker and checker differ";
    }
    ∷ record {
      document_id = "RB-003";
      section_number = "1";
      title = "recovery";
      content = "never resubmit a booking";
    }
    ∷ []

abbrev query : String
query = "booking: correction-rule 12"

abbrev found : List RetrievedSection
found =
    record {
      document_id = "RB-001";
      section = "3";
      title = "correction rule";
      snippet = "correct the legacy booking to the";
    }
    ∷ record {
      document_id = "RB-003";
      section = "1";
      title = "recovery";
      snippet = "never resubmit a booking";
    }
    ∷ []

search_run : search (λ s. s) query sections 5 ≡ some found
unfolding search
search_run = refl

search_one : map_some length (search (λ s. s) query sections 1) ≡ some 1
unfolding search
search_one = refl

search_wordless : search (λ s. s) "-- !" sections 5 ≡ some []
unfolding search
search_wordless = refl

sections_filled : (s : RunbookSection) → Memᴰ s sections → (s.content == "") ≡ false
sections_filled s (Memᴰ.head e) = rw e refl
sections_filled s (Memᴰ.tail (Memᴰ.head e)) = rw e refl
sections_filled s (Memᴰ.tail (Memᴰ.tail (Memᴰ.head e))) = rw e refl
sections_filled s (Memᴰ.tail (Memᴰ.tail (Memᴰ.tail m))) = elim m [ ]

search-IsBest_example :
    (rs : List RetrievedSection) × (chosen : List (ℕ × RunbookSection)) × (search
        (λ s. s)
        query
        sections
        2
      ≡ some rs)
    × (map shown rs ≡ map (λ p. named p.1) chosen)
    × IsBest (λ s. s) query sections 2 chosen
search-IsBest_example = search-IsBest (λ s. s) query sections 2 sections_filled

abbrev search_facts : BreakFacts
search_facts = record facts {
  expected_source_system = "FIX_EXECUTION";
  observed_source_system = "MOCK_LEGACY_BOOKING";
}

abbrev searched : AiRecommendation
searched = correction_recommended (λ s. s) search_facts found

searched_run : recommend (λ s. s) search_facts found ≡ ok searched
unfolding recommend is_supported root_cause
searched_run = refl

search_eligible_example : (evaluate sections searched search_facts).outcome ≡ eligible_for_approval
unfolding is_supported
search_eligible_example =
    search_eligible (λ s. s) (λ s. s) query sections 5 search_facts found searched
      (λ s m. (sections_filled s m, refl, refl)) refl refl refl search_run refl searched_run
