-- ===== src/Remediation/Retrieval/Search/Results.antt =====
-- What a search returns, as a whole.
use mathlib.Core.List.{Memᴰ}
use tradeops_sentinel.Base.{
  List, List-cases, String, [], ap, arith, false, inl, inr, length, map, mem-sorted,
  mem_sorted_of_mem, refl, some, sorted, true_ne_false, ℕ, ◌==◌, ◌∷◌, ◌≡◌, ◌≤◌, ◌⊎◌,
}
use tradeops_sentinel.Remediation.Retrieval.{RetrievedSection, RunbookSection}
use tradeops_sentinel.Remediation.Retrieval.Search.{
  overlap_of, results, score_ge, scored, search, snippet_of, take, tokens,
}
use tradeops_sentinel.Remediation.Retrieval.Search.Ranking.{
  Falls, length-take_le, mem-scored, mem-take, mem_scored_of_mem, sorted-Falls, take-Falls,
  take_best,
}

-- The parts of a result, and of a section.
abbrev pub shown : RetrievedSection → String × String × String
shown r = (r.document_id, r.section, r.title)

abbrev pub named : RunbookSection → String × String × String
named s = (s.document_id, s.section_number, s.title)

snippet_given :
    (content : String) → (content == "") ≡ false → (t : String) × (snippet_of content ≡ some t)
unfolding snippet_of
snippet_given String.[] h = absurd (true_ne_false h)
snippet_given (String.◌∷◌ c s) h = (_, refl)

results-shown :
    (ps : List (ℕ × RunbookSection))
    → ((p : ℕ × RunbookSection) → Memᴰ p ps → (p.1.content == "") ≡ false)
    → (rs : List RetrievedSection) × (results ps ≡ some rs)
      × (map shown rs ≡ map (λ p. named p.1) ps)
unfolding results
results-shown [] filled = ([], refl, refl)
results-shown ((n, s) ∷ ps) filled =
    let (t, at) = snippet_given s.content (filled (n, s) (Memᴰ.head refl)) in
    let (rs, found, same) = results-shown ps (λ p m. filled p (Memᴰ.tail m)) in
    let r : RetrievedSection = record {
      document_id = s.document_id;
      section = s.section_number;
      title = s.title;
      snippet = t;
    } in
    (r ∷ rs, rw (at, found) refl, ap (λ xs. named s ∷ xs) same)

-- The sections that a search chose, with their scores.
pub record IsBest (lower : String → String) (query : String) (index : List RunbookSection) (k : ℕ)
    (chosen : List (ℕ × RunbookSection)) : Type 0 where
  pub within : length chosen ≤ k
  pub ranked : Falls chosen
  pub sharing :
      (p : ℕ × RunbookSection)
      → Memᴰ p chosen
      → Memᴰ p.1 index × (p.0 ≡ overlap_of lower query p.1) × (1 ≤ p.0)
  pub best :
      (s : RunbookSection)
      → Memᴰ s index
      → 1 ≤ overlap_of lower query s
      → Memᴰ (overlap_of lower query s, s) chosen
        ⊎ ((length chosen ≡ k)
            × ((p : ℕ × RunbookSection) → Memᴰ p chosen → overlap_of lower query s ≤ p.0))

module _ (lower : String → String) (query : String) (index : List RunbookSection) (k : ℕ) where
  chosen_of : List (ℕ × RunbookSection)
  chosen_of = take k (sorted score_ge (scored lower query index))

  chosen-sharing :
      (p : ℕ × RunbookSection)
      → Memᴰ p chosen_of
      → Memᴰ p.1 index × (p.0 ≡ overlap_of lower query p.1) × (1 ≤ p.0)
  unfolding chosen_of
  chosen-sharing p m = mem-scored lower query index (
      mem-sorted score_ge (scored lower query index)
        (mem-take k (sorted score_ge (scored lower query index)) m))

  chosen-IsBest : IsBest lower query index k chosen_of
  unfolding chosen_of
  chosen-IsBest = record {
    within = length-take_le k (sorted score_ge (scored lower query index));
    ranked =
        take-Falls k (sorted score_ge (scored lower query index))
          (sorted-Falls (scored lower query index));
    sharing = chosen-sharing;
    best = λ s m h.
        take_best k (sorted score_ge (scored lower query index)) (overlap_of lower query s, s)
          (sorted-Falls (scored lower query index))
          (mem_sorted_of_mem score_ge (scored lower query index)
            (mem_scored_of_mem lower query index m h));
  }

  none_shared : tokens lower query ≡ [] → (s : RunbookSection) → overlap_of lower query s ≡ 0
  unfolding overlap_of
  none_shared wordless s = rw wordless refl

  nothing-IsBest : tokens lower query ≡ [] → IsBest lower query index k []
  nothing-IsBest wordless = record {
    within = omega arith;
    ranked = tt;
    sharing = λ p m. elim m [ ];
    best = λ s m h. absurd (omega (arith, none_shared wordless s, h));
  }

  -- On an index without empty sections a search returns, and the results are the best sections: no
  -- more than asked for, in the order of falling overlap, each of the index and sharing a word with
  -- the query; and a section that shares a word and was left out overlaps no more than any result,
  -- and there are as many results as asked for.
  pub search-IsBest :
      ((s : RunbookSection) → Memᴰ s index → (s.content == "") ≡ false)
      → (rs : List RetrievedSection) × (chosen : List (ℕ × RunbookSection)) × (search lower query
            index k
          ≡ some rs)
        × (map shown rs ≡ map (λ p. named p.1) chosen)
        × IsBest lower query index k chosen
  unfolding search chosen_of
  search-IsBest filled = elim (List-cases (tokens lower query)) [
    | inl wordless ↦ ([], [], rw wordless refl, refl, nothing-IsBest wordless)
    | inr (t, ts, at) ↦
        let (rs, found, same) =
          results-shown chosen_of (λ p m. filled p.1 (chosen-sharing p m).0) in
        (rs, chosen_of, rw at found, same, chosen-IsBest)
  ]
