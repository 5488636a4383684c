-- ===== src/Remediation/Retrieval/Search.antt =====
-- packages/remediation/retrieval.py (search): the sections that share most words with a query.
-- Lower-casing, which follows the tables of Unicode, is an argument.
pub mod Ranking
pub mod Results
pub mod Eligible
use Prim.Native.String
use tradeops_sentinel.Base.{
  Bool, List, Option, String, [], code, count, if◌then◌else◌, leb, ltb, nat_eq, none, some, sorted,
  suc, zero, ℕ, ◌&&◌, ◌||◌, ◌∷◌,
}
use tradeops_sentinel.Remediation.Models.{contains}
use tradeops_sentinel.Remediation.Retrieval.{RetrievedSection, RunbookSection}

-- `[a-z0-9]`
abbrev pub is_word : ℕ → Bool
is_word c = leb b'a' c && leb c b'z' || leb b'0' c && leb c b'9'

abbrev pub close_word : String → List String → List String
close_word String.[] ws = ws
close_word w ws = w ∷ ws

-- The word that a text begins with, and the words after it.
pub words_from : String → String × List String
words_from String.[] = ("", [])
words_from (String.◌∷◌ c s) =
    let (w, ws) = words_from s in
    if is_word (code c) then (String.◌∷◌ c w, ws) else ("", close_word w ws)

-- `_WORD.findall(text)`
unfoldable pub find_words : String → List String
unfolding words_from
find_words s = let (w, ws) = words_from s in close_word w ws

-- `set(tokens)`
unfoldable pub distinct : List String → List String
distinct [] = []
distinct (t ∷ ts) = let rest = distinct ts in if contains t ts then rest else t ∷ rest

-- The characters at which `splitlines` ends a line.
abbrev pub ends_line : ℕ → Bool
ends_line c =
    leb 10 c && leb c 13 || leb 28 c && leb c 30 || nat_eq c 133 || nat_eq c 8232 || nat_eq c 8233

first_line : String → String
first_line String.[] = ""
first_line (String.◌∷◌ c s) =
    let rest = first_line s in if ends_line (code c) then "" else String.◌∷◌ c rest

take_text : ℕ → String → String
take_text zero s = ""
take_text (suc n) String.[] = ""
take_text (suc n) (String.◌∷◌ c s) = String.◌∷◌ c (take_text n s)

-- `content.splitlines()[0][:200]`, which raises if there is no line.
unfoldable pub snippet_of : String → Option String
unfolding first_line take_text
snippet_of String.[] = none
snippet_of content = some (take_text 200 (first_line content))

abbrev pub take {ℓ} : {A : Type ℓ} → ℕ → List A → List A
take zero xs = []
take (suc n) [] = []
take (suc n) (x ∷ xs) = x ∷ take n xs

-- The result for a section, with its snippet.
abbrev pub retrieved_with : RunbookSection → Option String → Option RetrievedSection
retrieved_with s none = none
retrieved_with s (some snippet) = some record {
  document_id = s.document_id;
  section = s.section_number;
  title = s.title;
  snippet = snippet;
}

abbrev pub then_result :
    Option RetrievedSection → Option (List RetrievedSection) → Option (List RetrievedSection)
then_result (some r) (some rs) = some (r ∷ rs)
then_result _ _ = none

pub results : List (ℕ × RunbookSection) → Option (List RetrievedSection)
unfolding snippet_of
results [] = some []
results ((overlap, s) ∷ scored) =
    let rest = results scored in then_result (retrieved_with s (snippet_of s.content)) rest

-- `scored.sort(key=lambda pair: pair[0], reverse=True)`
abbrev pub score_ge : ℕ × RunbookSection → ℕ × RunbookSection → Bool
score_ge p q = leb q.0 p.0

-- `_tokens`
unfoldable pub tokens : (lower : String → String) → String → List String
unfolding find_words distinct
tokens lower text = distinct (find_words (lower text))

module _ (lower : String → String) (query : String) where
  -- `len(query_tokens & section_tokens)`
  unfoldable pub overlap_of : RunbookSection → ℕ
  unfolding tokens
  overlap_of s =
      let section_tokens = tokens lower (String.◌++◌ s.title (String.◌++◌ " " s.content)) in
      count (λ t. contains t section_tokens) (tokens lower query)

  unfoldable pub scored : List RunbookSection → List (ℕ × RunbookSection)
  unfolding overlap_of
  scored [] = []
  scored (s ∷ index) =
      let overlap = overlap_of s in
      let rest = scored index in if ltb 0 overlap then (overlap, s) ∷ rest else rest

  abbrev pub search_for : List String → List RunbookSection → ℕ → Option (List RetrievedSection)
  unfolding scored sorted results
  search_for [] index top_k = some []
  search_for (t ∷ ts) index top_k = results (take top_k (sorted score_ge (scored index)))

  -- `search`, for a `top_k` that is not negative; none if it raises.
  unfoldable pub search : List RunbookSection → ℕ → Option (List RetrievedSection)
  unfolding tokens scored sorted results
  search index top_k = search_for (tokens lower query) index top_k
