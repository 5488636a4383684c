-- ===== src/Oracle/Facts.antt =====
-- packages/oracle/evaluator.py: the facts that the oracle derives from the observations. The
-- context and the verification of an action are those of the engine, which have the same fields.
use tradeops_sentinel.Base.{
  Bool, List, Option, String, [], any, collect, count, first, if◌then◌else◌, length, ltb, map,
  map_some, nat_eq, none, not, some, sorted, text_le, then_number, then_text, true, ℕ, ◌&&◌, ◌*◌,
  ◌+◌, ◌==◌, ◌||◌, ◌∷◌,
}
use tradeops_sentinel.Contracts.{
  Observation, ObservationKind, booking, confirmation, execution, kind_name, trade_capture,
}
use tradeops_sentinel.Oracle.Policy.{
  OracleConfig, required_name, required_source_kinds, window_seconds,
}
use tradeops_sentinel.Reconciliation.Breaks.{
  BreakFamily, ambiguous_or_unmatched_linkage, duplicate_source_conflict, missing_required_source,
}
use tradeops_sentinel.Reconciliation.Config.{
  MissingSourceKind, booking_source, confirmation_source, execution_source,
}
use tradeops_sentinel.Reconciliation.Context.{CanonicalTradeState}
use tradeops_sentinel.Reconciliation.Duplicates.{first_of_each, group_of, has_conflict}
use tradeops_sentinel.Reconciliation.Linkage.{
  CandidateLink, LinkageDecision, candidate_count, chose, is_refusal,
}
use tradeops_sentinel.Reconciliation.Run.{show}

pub record OracleFact : Type 0 where
  pub family : BreakFamily
  pub field_path : String
  pub expected_value : String
  pub observed_value : String
  pub source_observation_ids : List String

-- `rank` in `_ordered_observations`
abbrev pub oracle_rank : ObservationKind → ℕ
oracle_rank execution = 1
oracle_rank trade_capture = 2
oracle_rank confirmation = 3
oracle_rank booking = 4

abbrev pub oracle_le : Observation → Observation → Bool
oracle_le a b = then_number (oracle_rank a.observation_kind) (oracle_rank b.observation_kind) (
    then_number a.source_sequence b.source_sequence (
      then_text a.observation_id b.observation_id
        (then_text a.source_version b.source_version (text_le a.content_hash b.content_hash))))

-- `_ordered_observations`
unfoldable pub oracle_ordered : List Observation → List Observation
oracle_ordered = sorted oracle_le

abbrev pub required_there : List Observation → MissingSourceKind → Bool
required_there observations k =
    any (λ (o : Observation). kind_name o.observation_kind == required_name k) observations

-- `/source/{kind.lower()}_observation`
abbrev pub missing_path : MissingSourceKind → String
missing_path execution_source = "/source/execution_observation"
missing_path confirmation_source = "/source/confirmation_observation"
missing_path booking_source = "/source/booking_observation"

abbrev pub missing_fact : MissingSourceKind → Observation → OracleFact
missing_fact k o = record {
  family = missing_required_source;
  field_path = missing_path k;
  expected_value = "present";
  observed_value = "absent_after_watermark";
  source_observation_ids = o.observation_id ∷ [];
}

-- None if it raises, the `OverflowError` of a deadline past the `latest` time included.
abbrev pub when_over :
    MissingSourceKind → ℕ → ℕ → ℕ → List Observation → Option ℕ → Option (List OracleFact)
when_over k watermark latest evaluated observations none = none
when_over k watermark latest evaluated observations (some window) =
    if ltb latest (watermark + window * 1000000)
    then none
    else if ltb evaluated (watermark + window * 1000000)
    then some []
    else map_some (λ o. missing_fact k o ∷ []) (first (oracle_ordered observations))

-- The body of the loop of `_missing_source_facts`.
unfoldable pub missing_facts_of :
    OracleConfig
    → CanonicalTradeState
    → ℕ
    → List Observation
    → MissingSourceKind
    → Option (List OracleFact)
missing_facts_of oc s evaluated observations k =
    if required_there observations k
    then some []
    else when_over k s.source_watermark s.latest_time evaluated observations
        (window_seconds oc s.product_type k)

-- `_missing_source_facts`
unfoldable pub missing_source_facts :
    OracleConfig → CanonicalTradeState → ℕ → List Observation → Option (List OracleFact)
unfolding missing_facts_of
missing_source_facts oc s evaluated observations =
    collect (missing_facts_of oc s evaluated observations) required_source_kinds

-- `invalid` in `_linkage_facts`
unfoldable pub oracle_linkage_invalid : CanonicalTradeState → Option LinkageDecision → Bool
oracle_linkage_invalid s none = true
oracle_linkage_invalid s (some d) =
    any
      (λ (c : CandidateLink). not (c.tenant_id == s.tenant_id && c.portfolio_id == s.portfolio_id))
      d.candidate_links
    || is_refusal d.decision
    || not (chose s.trade_id d.chosen_trade_id)
    || not (nat_eq (length d.candidate_links) 1)

abbrev pub count_text : String → String
count_text count = if count == "1" then "0" else count

abbrev pub linkage_fact : Option LinkageDecision → Observation → OracleFact
linkage_fact decision o = record {
  family = ambiguous_or_unmatched_linkage;
  field_path = "/linkage/trade_id";
  expected_value = "1";
  observed_value = count_text (show (candidate_count decision));
  source_observation_ids = o.observation_id ∷ [];
}

-- `_linkage_facts`
unfoldable pub linkage_facts :
    CanonicalTradeState → List Observation → Option LinkageDecision → Option (List OracleFact)
unfolding oracle_linkage_invalid
linkage_facts s observations decision =
    if oracle_linkage_invalid s decision
    then map_some (λ o. linkage_fact decision o ∷ []) (first (oracle_ordered observations))
    else some []

abbrev pub duplicate_fact : List Observation → Option (List OracleFact)
duplicate_fact (expected ∷ observed ∷ rest) = some (
    record {
      family = duplicate_source_conflict;
      field_path = "/source/content_hash";
      expected_value = expected.content_hash;
      observed_value = observed.content_hash;
      source_observation_ids =
          map (λ (o : Observation). o.observation_id) (expected ∷ observed ∷ rest);
    }
    ∷ [])
duplicate_fact _ = none

-- The body of the loop of `_duplicate_facts` over the groups.
unfoldable pub group_facts : List Observation → Option (List OracleFact)
unfolding oracle_ordered
group_facts group = if has_conflict group then duplicate_fact (oracle_ordered group) else some []

-- `_duplicate_facts`
unfoldable pub duplicate_facts : List Observation → Option (List OracleFact)
unfolding group_facts first_of_each
duplicate_facts observations =
    collect (λ o. group_facts (group_of observations o)) (first_of_each observations)
