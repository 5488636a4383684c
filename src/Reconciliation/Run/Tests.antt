-- ===== src/Reconciliation/Run/Tests.antt =====
-- The detectors, the validators of the input and whole runs on examples.
use mathlib.Core.Option.{some-injective}
use mathlib.Core.List.{Memᴰ}
use mathlib.Core.Path.{subst}
use tradeops_sentinel.Base.{
  List, String, [], arith, false, map, none, refl, some, sorted, sym, text_le, true, ◌↔◌, ◌∷◌, ◌≡◌,
  ◌≤◌,
}
use tradeops_sentinel.Contracts.{
  Observation, booking, confirmation, execution, fix_execution, fpml_confirmation,
  mock_legacy_booking,
}
use tradeops_sentinel.Persistence.Tests.{first_booking, payload_of}
use tradeops_sentinel.Reconciliation.Breaks.{Break}
use tradeops_sentinel.Reconciliation.Config.{
  EconomicField, base_amount, decimal_rule, fixture_config, fx_spot, lifecycle_rule, quoted_rate,
  terms_amount, tolerance_keys,
}
use tradeops_sentinel.Reconciliation.Context.{
  CanonicalTradeState, Context, SourceVersionSetItem, validate_context_scope,
  validate_state_scope_and_availability,
}
use tradeops_sentinel.Reconciliation.Decimal.{Decimal, decimal_of, within_tolerance}
use tradeops_sentinel.Reconciliation.Duplicates.{duplicate_breaks, ordered_observations}
use tradeops_sentinel.Reconciliation.Economic.{economic_breaks, economic_value}
use tradeops_sentinel.Reconciliation.Fields.{currency_breaks, date_break}
use tradeops_sentinel.Reconciliation.Lifecycle.{lifecycle_break}
use tradeops_sentinel.Reconciliation.Linkage.{
  LinkageDecision, accepted, exact_deterministic_key, linkage_break, validate_decision_shape,
}
use tradeops_sentinel.Reconciliation.PostAction.{post_action_break}
use tradeops_sentinel.Reconciliation.Run.{ReconciliationRun, is_over, pass, run, run_of}
use tradeops_sentinel.Reconciliation.Run.Pass.{IsClean}
use tradeops_sentinel.Reconciliation.Run.Pass.Whole.{IsSettledInput, run-pass_iff}
use tradeops_sentinel.Reconciliation.Sources.{missing_source_breaks}
use tradeops_sentinel.Reconciliation.Tests.{fixture, fixture_valid}
use tradeops_sentinel.Reconciliation.Tests.Detectors.{
  HasDecimals, hundred-HasDecimals, tolerances_of,
}

abbrev an_execution : Observation
an_execution = record first_booking {
  observation_id = "obs_execution";
  observation_kind = execution;
  source_system = fix_execution;
  payload = record (payload_of "100.00") { lifecycle_status = "NEW" };
}

abbrev a_confirmation : Observation
a_confirmation = record first_booking {
  observation_id = "obs_confirmation";
  observation_kind = confirmation;
  source_system = fpml_confirmation;
  payload = record (payload_of "100.005") { lifecycle_status = "CONFIRMED" };
}

abbrev pub three : List Observation
three = first_booking ∷ an_execution ∷ a_confirmation ∷ []

abbrev item_of : Observation → SourceVersionSetItem
item_of o = record {
  observation_id = o.observation_id;
  observation_kind = o.observation_kind;
  source_system = o.source_system;
  source_tenant_id = o.tenant_id;
  source_portfolio_id = o.portfolio_id;
  source_version = o.source_version;
  content_hash = o.content_hash;
}

abbrev three_state : CanonicalTradeState
three_state = record {
  trade_id = "trade_1";
  tenant_id = "tenant_1";
  portfolio_id = "portfolio_1";
  correlation_id = "corr_1";
  product_type = fx_spot;
  settlement_rule_version = "1.0.0";
  as_of_time = 3000;
  source_watermark = 2000;
  latest_time = 1000000000000000;
  source_version_set = map item_of three;
  field_provenance = λ name. record {
    source_type = booking;
    source_system = mock_legacy_booking;
    source_tenant_id = "tenant_1";
    source_portfolio_id = "portfolio_1";
    source_observation_id = "obs_1";
    source_version = "1";
    ingested_at = 20;
  };
}

abbrev three_link : LinkageDecision
three_link = record {
  tenant_id = "tenant_1";
  portfolio_id = "portfolio_1";
  correlation_id = "corr_1";
  source_observation_id = "obs_execution";
  decision = accepted;
  candidate_links =
      record { trade_id = "trade_1"; tenant_id = "tenant_1"; portfolio_id = "portfolio_1" } ∷ [];
  chosen_trade_id = some "trade_1";
  reason_code = exact_deterministic_key;
}

abbrev pub three_context : Context
three_context = record {
  canonical_state = three_state;
  evaluated_at = none;
  source_observations = three;
  linkage_decision = some three_link;
  post_action_verification = none;
}

state_valid : validate_state_scope_and_availability three_state ≡ true
unfolding validate_state_scope_and_availability
state_valid = refl

context_valid : validate_context_scope three_context ≡ true
unfolding validate_context_scope
context_valid = refl

link_shape : validate_decision_shape three_link ≡ true
unfolding validate_decision_shape
link_shape = refl

-- The identifier of a break in the examples: the path of its first comparison.
abbrev pub path_id : Break → String
path_id b = elim b.comparisons [ [] ↦ "" | c ∷ cs ↦ c.field_path ]

three_pass :
    run path_id fixture three_context ≡ some (run_of path_id (ordered_observations three) [])
unfolding run fixture_config missing_source_breaks ordered_observations sorted duplicate_breaks
    text_le currency_breaks economic_breaks decimal_of decimal_rule within_tolerance date_break
    lifecycle_break lifecycle_rule post_action_break linkage_break
three_pass = refl

execution-HasDecimals : HasDecimals an_execution
unfolding decimal_of
execution-HasDecimals base_amount = (_, refl)
execution-HasDecimals terms_amount = (_, refl)
execution-HasDecimals quoted_rate = (_, refl)

confirmation-HasDecimals : HasDecimals a_confirmation
unfolding decimal_of
confirmation-HasDecimals base_amount = (_, refl)
confirmation-HasDecimals terms_amount = (_, refl)
confirmation-HasDecimals quoted_rate = (_, refl)

three_decimal :
    (f : EconomicField) (o : Observation)
    → Memᴰ o three
    → (d : Decimal) × (decimal_of (economic_value f o) ≡ some d)
three_decimal f o (Memᴰ.head e) = hundred-HasDecimals o (rw e refl) f
three_decimal f o (Memᴰ.tail (Memᴰ.head e)) =
    subst (λ x. HasDecimals x) (sym e) execution-HasDecimals f
three_decimal f o (Memᴰ.tail (Memᴰ.tail (Memᴰ.head e))) =
    subst (λ x. HasDecimals x) (sym e) confirmation-HasDecimals f
three_decimal f o (Memᴰ.tail (Memᴰ.tail (Memᴰ.tail m))) = elim m [ ]

pub three-IsSettledInput : IsSettledInput fixture three_context
unfolding fixture_config
three-IsSettledInput = record {
  config_valid = fixture_valid;
  state_valid = state_valid;
  context_valid = context_valid;
  decision_valid =
      λ d at. subst (λ x. validate_decision_shape x ≡ true) (some-injective _ _ at) link_shape;
  decimals = (three_decimal, λ r m. tolerances_of tolerance_keys r m);
}

pub fixture_started : (1000 ≤ 2000) × (fixture.effective_from ≡ 1000)
unfolding fixture_config
fixture_started = (omega arith, refl)

pub fixture_running : is_over 2000 fixture.effective_to ≡ false
unfolding fixture_config
fixture_running = refl

run-pass_iff_example :
    ((r : ReconciliationRun) × (run path_id fixture three_context ≡ some r) × (r.result ≡ pass))
    ↔ IsClean fixture three_context (ordered_observations three)
run-pass_iff_example =
    run-pass_iff path_id fixture three_context three-IsSettledInput
      (omega (arith, fixture_started.1)) fixture_running
