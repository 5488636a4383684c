-- ===== src/Remediation/Retrieval.antt =====
-- packages/remediation/retrieval.py: the closed list of citations that support an action. The index
-- of sections, which the code parses from the runbooks, is an argument.
pub mod Search
use Prim.Native.String
use tradeops_sentinel.Base.{
  Bool, List, Option, String, [], any, false, if◌then◌else◌, none, some, ◌==◌, ◌∷◌,
}
use tradeops_sentinel.Remediation.Models.{Citation, contains}

pub record RunbookSection : Type 0 where
  pub document_id : String
  pub section_number : String  -- printed in decimal
  pub title : String
  pub content : String

pub record RetrievedSection : Type 0 where
  pub document_id : String
  pub section : String
  pub title : String
  pub snippet : String

-- `citation_key` of a section, and of a citation.
abbrev pub key_of : String → String → String
key_of document section = String.◌++◌ document (String.◌++◌ "#" section)

abbrev pub citation_key : Citation → String
citation_key c = key_of c.document_id c.section

abbrev pub supporting_sections : String → Option (List String)
supporting_sections action =
    if action == "CORRECT_LEGACY_BOOKING_FIELD"
    then some ("RB-001#3" ∷ "RB-001#1" ∷ "RB-001#2" ∷ "RB-002#1" ∷ "RB-002#7" ∷ [])
    else if action == "MANUAL_INVESTIGATION"
    then some ("RB-001#5" ∷ "RB-002#4" ∷ [])
    else none

abbrev is_listed : String → Option (List String) → Bool
is_listed key none = false
is_listed key (some allowed) = contains key allowed

unfoldable pub citation_exists : List RunbookSection → String → Bool
citation_exists index key = any (λ s. key_of s.document_id s.section_number == key) index

unfoldable pub citation_supports_action : List RunbookSection → String → String → Bool
citation_supports_action index key action =
    if citation_exists index key then is_listed key (supporting_sections action) else false
