-- ===== src/Contracts.antt =====
-- packages/contracts/models.py and hashing.py: observations of trades and their content hash.
use tradeops_sentinel.Base.{
  Bool, List, Option, String, [], ap, if◌then◌else◌, refl, sym, ℕ, ◌==◌, ◌∙◌, ◌∷◌, ◌≡◌,
}

pub data ObservationKind : Type 0 where
  execution trade_capture confirmation booking : ObservationKind

pub data SourceSystem : Type 0 where
  fix_execution fix_trade_capture fpml_confirmation mock_legacy_booking : SourceSystem

abbrev pub kind_name : ObservationKind → String
kind_name execution = "EXECUTION"
kind_name trade_capture = "TRADE_CAPTURE"
kind_name confirmation = "CONFIRMATION"
kind_name booking = "BOOKING"

abbrev pub system_name : SourceSystem → String
system_name fix_execution = "FIX_EXECUTION"
system_name fix_trade_capture = "FIX_TRADE_CAPTURE"
system_name fpml_confirmation = "FPML_CONFIRMATION"
system_name mock_legacy_booking = "MOCK_LEGACY_BOOKING"

kind_of : String → ObservationKind
kind_of name =
    if name == "EXECUTION"
    then execution
    else if name == "TRADE_CAPTURE"
    then trade_capture
    else if name == "CONFIRMATION"
    then confirmation
    else booking

kind_of-kind_name : (k : ObservationKind) → kind_of (kind_name k) ≡ k
unfolding kind_of
kind_of-kind_name execution = refl
kind_of-kind_name trade_capture = refl
kind_of-kind_name confirmation = refl
kind_of-kind_name booking = refl

system_of : String → SourceSystem
system_of name =
    if name == "FIX_EXECUTION"
    then fix_execution
    else if name == "FIX_TRADE_CAPTURE"
    then fix_trade_capture
    else if name == "FPML_CONFIRMATION"
    then fpml_confirmation
    else mock_legacy_booking

system_of-system_name : (s : SourceSystem) → system_of (system_name s) ≡ s
unfolding system_of
system_of-system_name fix_execution = refl
system_of-system_name fix_trade_capture = refl
system_of-system_name fpml_confirmation = refl
system_of-system_name mock_legacy_booking = refl

pub kind_name_inj : (k l : ObservationKind) → kind_name k ≡ kind_name l → k ≡ l
kind_name_inj k l e = sym (kind_of-kind_name k) ∙ ap kind_of e ∙ kind_of-kind_name l

pub system_name_inj : (s t : SourceSystem) → system_name s ≡ system_name t → s ≡ t
system_name_inj s t e = sym (system_of-system_name s) ∙ ap system_of e ∙ system_of-system_name t

pub data IdentityType : Type 0 where
  system human agent source : IdentityType

pub record Actor : Type 0 where
  pub identity_type : IdentityType
  pub actor_id : String

-- The fields that every payload has, by the texts that its JSON shows; amounts carry their scale in
-- their text.
pub record FxPayload : Type 0 where
  pub product_type : String
  pub settlement_rule_version : String
  pub source_trade_id : String
  pub base_currency : String
  pub terms_currency : String
  pub side : String
  pub base_amount : String
  pub terms_amount : String
  pub quoted_rate : String
  pub trade_date : String
  pub value_date : String
  pub counterparty_id : String
  pub book_id : String
  pub lifecycle_status : String
  pub rest : List (String × String)  -- the fields of one kind of observation only

-- Times are microseconds, in UTC.
pub record Observation : Type 0 where
  pub observation_id : String
  pub observation_kind : ObservationKind
  pub entity_version : ℕ
  pub tenant_id : String
  pub portfolio_id : String
  pub correlation_id : String
  pub source_system : SourceSystem
  pub source_event_id : String
  pub source_business_key : String
  pub source_version : String
  pub content_hash : String
  pub event_time : ℕ
  pub effective_time : ℕ
  pub ingest_time : ℕ
  pub source_sequence : ℕ
  pub lineage_group_id : String
  pub actor : Actor
  pub supersedes_observation_id : Option String
  pub supersession_reason : Option String
  pub payload : FxPayload

-- Every field of an observation but `_DELIVERY_FIELDS`.
pub record SemanticContent : Type 0 where
  pub observation_kind : ObservationKind
  pub entity_version : ℕ
  pub tenant_id : String
  pub portfolio_id : String
  pub source_system : SourceSystem
  pub source_business_key : String
  pub source_version : String
  pub event_time : ℕ
  pub effective_time : ℕ
  pub source_sequence : ℕ
  pub lineage_group_id : String
  pub actor : Actor
  pub supersedes_observation_id : Option String
  pub supersession_reason : Option String
  pub payload : FxPayload

-- `canonical_observation_document`
abbrev pub semantic_content : Observation → SemanticContent
semantic_content o = record {
  observation_kind = o.observation_kind;
  entity_version = o.entity_version;
  tenant_id = o.tenant_id;
  portfolio_id = o.portfolio_id;
  source_system = o.source_system;
  source_business_key = o.source_business_key;
  source_version = o.source_version;
  event_time = o.event_time;
  effective_time = o.effective_time;
  source_sequence = o.source_sequence;
  lineage_group_id = o.lineage_group_id;
  actor = o.actor;
  supersedes_observation_id = o.supersedes_observation_id;
  supersession_reason = o.supersession_reason;
  payload = o.payload;
}

-- SHA-256 of the canonical JSON of the content is the argument `digest`.
module _ (digest : SemanticContent → String) where
  -- `compute_observation_content_hash`
  unfoldable pub observation_hash : Observation → String
  observation_hash o = digest (semantic_content o)

  -- `validate_observation_content_hash`: false if it raises.
  unfoldable pub hash_matches : Observation → Bool
  unfolding observation_hash
  hash_matches o = o.content_hash == observation_hash o

abbrev pub canonical_field_names : List String
canonical_field_names =
    "product_type" ∷ "settlement_rule_version" ∷ "base_currency" ∷ "terms_currency" ∷ "side"
    ∷ "base_amount" ∷ "terms_amount" ∷ "quoted_rate" ∷ "trade_date" ∷ "value_date"
    ∷ "lifecycle_status" ∷ "counterparty_id" ∷ "book_id" ∷ []
