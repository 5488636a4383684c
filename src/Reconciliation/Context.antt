-- ===== src/Reconciliation/Context.antt =====
-- packages/contracts/models.py (CanonicalTradeState) and packages/reconciliation/models.py
-- (ReconciliationContext): the input of a run, and what its validators demand.
pub mod Traced
use tradeops_sentinel.Base.{
  Bool, List, Option, String, [], all_pass, any, false, find, ids_distinct, leb, length, ltb, map,
  none, not, some, true, ℕ, ◌&&◌, ◌==◌, ◌||◌, ◌∷◌,
}
use tradeops_sentinel.Contracts.{
  Observation, ObservationKind, SourceSystem, canonical_field_names, system_name,
}
use tradeops_sentinel.Reconciliation.Config.{ProductType, product_name, same_kind}
use tradeops_sentinel.Reconciliation.Linkage.{LinkageDecision, accepted}
use tradeops_sentinel.Reconciliation.PostAction.{BookingObservation, PostActionVerification}

pub record SourceVersionSetItem : Type 0 where
  pub observation_id : String
  pub observation_kind : ObservationKind
  pub source_system : SourceSystem
  pub source_tenant_id : String
  pub source_portfolio_id : String
  pub source_version : String
  pub content_hash : String

-- The fields of a `FieldProvenance` that a validator or the engine reads.
pub record FieldProvenance : Type 0 where
  pub source_type : ObservationKind
  pub source_system : SourceSystem
  pub source_tenant_id : String
  pub source_portfolio_id : String
  pub source_observation_id : String
  pub source_version : String
  pub ingested_at : ℕ

-- Times are microseconds; `latest_time` is the last one that a `datetime` in the time zone of the
-- watermark can be. The provenance is a function of the name of the field.
pub record CanonicalTradeState : Type 0 where
  pub trade_id : String
  pub tenant_id : String
  pub portfolio_id : String
  pub correlation_id : String
  pub product_type : ProductType
  pub settlement_rule_version : String
  pub as_of_time : ℕ
  pub source_watermark : ℕ
  pub latest_time : ℕ
  pub source_version_set : List SourceVersionSetItem
  pub field_provenance : String → FieldProvenance

-- The conditions under which the loops of the validators raise.
module _ (s : CanonicalTradeState) where
  abbrev pub provenance_strays : String → Bool
  provenance_strays name =
      let p = s.field_provenance name in
      not (p.source_tenant_id == s.tenant_id && p.source_portfolio_id == s.portfolio_id)

  abbrev pub item_strays : SourceVersionSetItem → Bool
  item_strays i = not (i.source_tenant_id == s.tenant_id && i.source_portfolio_id == s.portfolio_id)

  abbrev pub provenance_differs : FieldProvenance → Option SourceVersionSetItem → Bool
  provenance_differs p none = true
  provenance_differs p (some item) =
      not (same_kind item.observation_kind p.source_type)
      || not (system_name item.source_system == system_name p.source_system)
      || not (item.source_tenant_id == p.source_tenant_id)
      || not (item.source_portfolio_id == p.source_portfolio_id)
      || not (item.source_version == p.source_version)
      || ltb s.source_watermark p.ingested_at

  -- The source of a field, and whether it is the one that the provenance describes.
  abbrev pub provenance_unbacked : String → Bool
  provenance_unbacked name =
      let p = s.field_provenance name in
      provenance_differs p (
        find (λ (i : SourceVersionSetItem). i.observation_id == p.source_observation_id)
          s.source_version_set)

  -- `_validate_provenance_scope`: true if it raises nothing.
  abbrev pub validate_provenance_scope : Bool
  validate_provenance_scope = not (any provenance_strays canonical_field_names)

  abbrev pub source_set_checks : List Bool
  source_set_checks =
      ids_distinct (map (λ (i : SourceVersionSetItem). i.observation_id) s.source_version_set)
      ∷ not (any item_strays s.source_version_set)
      ∷ not (any provenance_unbacked canonical_field_names)
      ∷ []

  -- `_validate_source_version_set_scope`
  unfoldable pub validate_source_version_set_scope : Bool
  unfolding all_pass ids_distinct
  validate_source_version_set_scope = all_pass source_set_checks

  abbrev pub state_checks : List Bool
  state_checks =
      leb s.source_watermark s.as_of_time
      ∷ validate_provenance_scope
      ∷ validate_source_version_set_scope
      ∷ []

  -- `validate_state_scope_and_availability`
  unfoldable pub validate_state_scope_and_availability : Bool
  unfolding all_pass validate_source_version_set_scope
  validate_state_scope_and_availability = all_pass state_checks

-- `ReconciliationContext`; the name and the version of the run are left out.
pub record Context : Type 0 where
  pub canonical_state : CanonicalTradeState
  pub evaluated_at : Option ℕ
  pub source_observations : List Observation
  pub linkage_decision : Option LinkageDecision
  pub post_action_verification : Option PostActionVerification

-- `effective_evaluated_at`
abbrev pub effective_evaluated_at : Context → ℕ
effective_evaluated_at ctx = elim ctx.evaluated_at [
  | none ↦ ctx.canonical_state.source_watermark
  | some t ↦ t
]

-- The comparison of the members of `expected_keys` and `actual_keys`.
abbrev pub is_source_of : SourceVersionSetItem → Observation → Bool
is_source_of i o =
    (i.observation_id == o.observation_id)
    && same_kind i.observation_kind o.observation_kind
    && (system_name i.source_system == system_name o.source_system)
    && (i.source_version == o.source_version)
    && (i.content_hash == o.content_hash)

-- Every observation is a source of the canonical state, and every source is an observation.
abbrev pub same_sources : List SourceVersionSetItem → List Observation → Bool
same_sources items observations =
    not (any (λ o. not (any (λ i. is_source_of i o) items)) observations)
    && not (any (λ i. not (any (is_source_of i) observations)) items)

abbrev pub time_valid : ℕ → Option ℕ → Bool
time_valid watermark none = true
time_valid watermark (some evaluated_at) = leb watermark evaluated_at

-- `linkage_is_resolved`
abbrev pub is_resolved : Option LinkageDecision → Bool
is_resolved none = false
is_resolved (some d) = elim d.decision [ accepted ↦ true | _ ↦ false ]

-- The conditions under which the loop over the observations raises.
abbrev pub observation_fails : CanonicalTradeState → Bool → Observation → Bool
observation_fails s is_linked o =
    not (
      (o.tenant_id == s.tenant_id)
      && (o.portfolio_id == s.portfolio_id)
      && (o.correlation_id == s.correlation_id))
    || ltb s.source_watermark o.ingest_time
    || is_linked && not (o.payload.source_trade_id == s.trade_id)
    || not (o.payload.product_type == product_name s.product_type)
    || not (o.payload.settlement_rule_version == s.settlement_rule_version)

abbrev pub has_id : List Observation → String → Bool
has_id observations id = any (λ (o : Observation). o.observation_id == id) observations

abbrev pub linkage_valid : Context → Option LinkageDecision → Bool
linkage_valid ctx none = true
linkage_valid ctx (some d) =
    (d.tenant_id == ctx.canonical_state.tenant_id)
    && (d.portfolio_id == ctx.canonical_state.portfolio_id)
    && (d.correlation_id == ctx.canonical_state.correlation_id)
    && has_id ctx.source_observations d.source_observation_id

abbrev pub read_known : List Observation → Option BookingObservation → Bool
read_known observations none = true
read_known observations (some post) = has_id observations post.observation.observation_id

abbrev pub action_known : List Observation → Option PostActionVerification → Bool
action_known observations none = true
action_known observations (some v) =
    has_id observations v.pre_action.observation.observation_id
    && read_known observations v.post_action

abbrev pub context_checks : Context → List Bool
context_checks ctx =
    let s = ctx.canonical_state in
    ltb 0 (length ctx.source_observations)
    ∷ time_valid s.source_watermark ctx.evaluated_at
    ∷ ids_distinct (map (λ (o : Observation). o.observation_id) ctx.source_observations)
    ∷ same_sources s.source_version_set ctx.source_observations
    ∷ not (any (observation_fails s (is_resolved ctx.linkage_decision)) ctx.source_observations)
    ∷ linkage_valid ctx ctx.linkage_decision
    ∷ action_known ctx.source_observations ctx.post_action_verification
    ∷ []

-- `validate_context_scope`, and the `min_length` of the observations: true if nothing is raised.
unfoldable pub validate_context_scope : Context → Bool
unfolding all_pass ids_distinct
validate_context_scope ctx = all_pass (context_checks ctx)
