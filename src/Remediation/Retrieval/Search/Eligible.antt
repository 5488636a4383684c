-- ===== src/Remediation/Retrieval/Search/Eligible.antt =====
-- From the search, through the offline provider, to the decision of the policy engine.
use mathlib.Core.Option.{some-injective}
use mathlib.Core.List.{Memᴰ}
use mathlib.Core.Path.{subst}
use tradeops_sentinel.Base.{
  Bool, List, List-cases, String, [], any, any_found, any_of_mem, ap, arith, eq_refl, false, filter,
  inl, inr, map, mem-map_of_mem, mem_filter_of_mem, refl, some, sym, true, ℕ, ◌==◌, ◌∙◌, ◌∷◌, ◌≡◌,
}
use tradeops_sentinel.Remediation.Deterministic.{
  chosen_sections, citations_of, is_preferred, is_supported, recommend,
}
use tradeops_sentinel.Remediation.Models.{
  AiRecommendation, BreakFacts, Citation, contains, eligible_for_approval,
}
use tradeops_sentinel.Remediation.Policy.{evaluate, supports}
use tradeops_sentinel.Remediation.Policy.Deterministic.{correct_field, recommend_outcome}
use tradeops_sentinel.Remediation.Result.{ok}
use tradeops_sentinel.Remediation.Retrieval.{
  RetrievedSection, RunbookSection, citation_exists, citation_key, citation_supports_action, key_of,
}
use tradeops_sentinel.Remediation.Retrieval.Search.{search}
use tradeops_sentinel.Remediation.Retrieval.Search.Results.{named, search-IsBest, shown}

mem_map_inverse :
    {A B : Type 0} (f : A → B) (xs : List A) {y : B}
    → Memᴰ y (map f xs)
    → (x : A) × Memᴰ x xs × (y ≡ f x)
mem_map_inverse f [] m = elim m [ ]
mem_map_inverse f (x ∷ xs) (Memᴰ.head e) = (x, Memᴰ.head refl, e)
mem_map_inverse f (x ∷ xs) (Memᴰ.tail m) =
    let (z, n, e) = mem_map_inverse f xs m in (z, Memᴰ.tail n, e)

-- A result stands for a section of the index.
result_known :
    (lower : String → String) (query : String) (index : List RunbookSection) (k : ℕ)
    {rs : List RetrievedSection} {r : RetrievedSection}
    → ((s : RunbookSection) → Memᴰ s index → (s.content == "") ≡ false)
    → search lower query index k ≡ some rs
    → Memᴰ r rs
    → (s : RunbookSection) × Memᴰ s index
      × (r.document_id ≡ s.document_id)
      × (r.section ≡ s.section_number)
result_known lower query index k {rs} {r} filled found m =
    let (rs', chosen, found', same, best) = search-IsBest lower query index k filled in
    let equal : rs ≡ rs' = some-injective _ _ (sym found ∙ found') in
    let shown_in =
      subst (λ ts. Memᴰ (shown r) ts) (ap (map shown) equal ∙ same) (mem-map_of_mem shown m) in
    let (p, n, e) = mem_map_inverse (λ (q : ℕ × RunbookSection). named q.1) chosen shown_in in
    (p.1, (best.sharing p n).0, ap (λ t. t.0) e, ap (λ t. t.1) e)

abbrev citation_of : (strip : String → String) → RetrievedSection → Citation
citation_of strip c = record { document_id = strip c.document_id; section = strip c.section }

preferred_listed :
    (key : String)
    → contains key ("RB-001#3" ∷ "RB-002#1" ∷ []) ≡ true
    → contains key ("RB-001#3" ∷ "RB-001#1" ∷ "RB-001#2" ∷ "RB-002#1" ∷ "RB-002#7" ∷ []) ≡ true
preferred_listed key h = ground (arith, h)

chosen_preferred :
    (rs : List RetrievedSection)
    → any is_preferred rs ≡ true
    → (r : RetrievedSection) × Memᴰ r (chosen_sections rs) × Memᴰ r rs × (is_preferred r ≡ true)
unfolding chosen_sections
chosen_preferred rs h =
    let (r, m, preferred) = any_found is_preferred rs h in
    elim (List-cases (filter is_preferred rs)) [
      | inl nothing ↦
          elim (subst (λ xs. Memᴰ r xs) nothing (mem_filter_of_mem is_preferred rs m preferred)) [ ]
      | inr (c, cs, at) ↦ (
        r,
        rw at (subst (λ xs. Memᴰ r xs) at (mem_filter_of_mem is_preferred rs m preferred)),
        m,
        preferred,
      )
    ]

-- A citation of a preferred section of the index supports the correction.
known_supported :
    (index : List RunbookSection) {s : RunbookSection} (c : Citation)
    → Memᴰ s index
    → c.document_id ≡ s.document_id
    → c.section ≡ s.section_number
    → contains (citation_key c) ("RB-001#3" ∷ "RB-002#1" ∷ []) ≡ true
    → supports index correct_field c ≡ true
unfolding supports citation_supports_action citation_exists
known_supported index {s} c known same_document same_section preferred =
    let is_it : RunbookSection → Bool =
      λ x. key_of x.document_id x.section_number == citation_key c in
    let same : is_it s ≡ true =
      rw (same_document, same_section) (eq_refl (key_of s.document_id s.section_number)) in
    rw (any_of_mem is_it known same) (preferred_listed (citation_key c) preferred)

-- When a search over an index without empty sections finds a section that the offline provider
-- prefers, the recommendation that the provider makes of the results, for stripped facts of the
-- supported pattern, is eligible for approval under the policy engine.
pub search_eligible :
    (lower strip : String → String) (query : String) (index : List RunbookSection) (k : ℕ)
    (facts : BreakFacts) (rs : List RetrievedSection) (r : AiRecommendation)
    → ((s : RunbookSection)
        → Memᴰ s index
        → ((s.content == "") ≡ false)
          × (strip s.document_id ≡ s.document_id)
          × (strip s.section_number ≡ s.section_number))
    → strip facts.field_path ≡ facts.field_path
    → strip facts.expected_value ≡ facts.expected_value
    → is_supported facts ≡ true
    → search lower query index k ≡ some rs
    → any is_preferred rs ≡ true
    → recommend strip facts rs ≡ ok r
    → (evaluate index r facts).outcome ≡ eligible_for_approval
unfolding citations_of
search_eligible lower strip query index k facts rs r stripped path value pattern found liked
      answered =
    let (c, chosen, m, preferred) = chosen_preferred rs liked in
    let (s, known, same_document, same_section) =
      result_known lower query index k (λ x n. (stripped x n).0) found m in
    let document : strip c.document_id ≡ c.document_id = rw same_document (stripped s known).1 in
    let section : strip c.section ≡ c.section = rw same_section (stripped s known).2 in
    let cited : Citation = record {
      document_id = strip c.document_id;
      section = strip c.section;
    } in
    let backed : supports index correct_field cited ≡ true =
      known_supported index cited known (document ∙ same_document) (section ∙ same_section)
        (rw (document, section) preferred) in
    let outcome = recommend_outcome index strip facts rs r path value answered in
    let any_backed : any (supports index correct_field) (citations_of strip rs) ≡ true =
      any_of_mem (supports index correct_field) (mem-map_of_mem (citation_of strip) chosen)
        backed in
    rw (pattern, any_backed) at outcome
