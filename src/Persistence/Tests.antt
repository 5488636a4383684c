-- ===== src/Persistence/Tests.antt =====
-- A booking, its retransmission, a contradicting revision, and batches of them.
use tradeops_sentinel.Base.{All, List, String, [], length, ne_of_test, none, refl, ℕ, ◌∷◌, ◌≡◌, ◌≤◌}
use tradeops_sentinel.Contracts.{
  FxPayload, Observation, SemanticContent, booking, hash_matches, mock_legacy_booking, system,
}
use tradeops_sentinel.Persistence.Adapter.{
  IngestSummary, Tables, committed, ingest_observations, insert_observation, quarantine,
  quarantine_conflict, raise, rolled_back, tables_after, total,
}
use tradeops_sentinel.Persistence.Adapter.Commit.{IsKept, ingest_observations-Commit, replay_of}
use tradeops_sentinel.Persistence.Adapter.Settled.{Extends}
use tradeops_sentinel.Persistence.Adapter.Unique.{IsSound, ingest_observations-IsSound}
use tradeops_sentinel.Persistence.Identity.{
  conflict_of, identity_eq, identity_key, source_conflict, too_few_observation_ids,
}
use tradeops_sentinel.Persistence.Inbox.{done, get, idempotent_replay, ingest, record_of, refused}
use tradeops_sentinel.Persistence.Inbox.Revisions.{
  ingest_altered, ingest_retransmission, same_id_ends_batch,
}

-- A stand-in for SHA-256 of the canonical JSON.
abbrev pub digest : SemanticContent → String
digest c = c.payload.base_amount

abbrev pub payload_of : String → FxPayload
payload_of amount = record {
  product_type = "FX_SPOT";
  settlement_rule_version = "1.0.0";
  source_trade_id = "trade_1";
  base_currency = "EUR";
  terms_currency = "USD";
  side = "BUY_BASE";
  base_amount = amount;
  terms_amount = "110.00";
  quoted_rate = "1.10";
  trade_date = "2026-08-03";
  value_date = "2026-08-05";
  counterparty_id = "cp_1";
  book_id = "book_1";
  lifecycle_status = "BOOKED";
  rest = [];
}

abbrev pub observation_of : (id amount : String) (ingest_time : ℕ) → Observation
observation_of id amount ingest_time = record {
  observation_id = id;
  observation_kind = booking;
  entity_version = 1;
  tenant_id = "tenant_1";
  portfolio_id = "portfolio_1";
  correlation_id = "corr_1";
  source_system = mock_legacy_booking;
  source_event_id = id;
  source_business_key = "trade_1";
  source_version = "1";
  content_hash = amount;
  event_time = 10;
  effective_time = 10;
  ingest_time = ingest_time;
  source_sequence = 0;
  lineage_group_id = "lineage_1";
  actor = record { identity_type = system; actor_id = "loader" };
  supersedes_observation_id = none;
  supersession_reason = none;
  payload = payload_of amount;
}

abbrev pub first_booking : Observation
first_booking = observation_of "obs_1" "100.00" 20

abbrev pub retransmitted : Observation
retransmitted = observation_of "obs_2" "100.00" 30

abbrev pub contradicting : Observation
contradicting = observation_of "obs_3" "90.00" 40

abbrev pub reusing : Observation
reusing = observation_of "obs_1" "90.00" 50

abbrev pub no_tables : Tables
no_tables = record { source_event_inbox = []; source_event_conflicts = [] }

abbrev pub first_tables : Tables
first_tables = record { source_event_inbox = first_booking ∷ []; source_event_conflicts = [] }

abbrev pub all_tables : Tables
all_tables = record {
  source_event_inbox = first_booking ∷ [];
  source_event_conflicts =
      record {
        observation = contradicting;
        conflicting_observation_id = "obs_1";
        conflicting_content_hash = "100.00";
      }
      ∷ [];
}

abbrev pub batch : List Observation
batch = first_booking ∷ retransmitted ∷ contradicting ∷ []

abbrev pub counts : IngestSummary
counts = record { inserted = 1; replayed = 1; conflicted = 1 }

pub batch_commits :
    ingest_observations digest quarantine batch no_tables ≡ committed counts all_tables
unfolding ingest_observations hash_matches insert_observation quarantine_conflict conflict_of
    identity_eq
batch_commits = refl

strict_batch_stops :
    ingest_observations digest raise batch no_tables
    ≡ rolled_back (
        source_conflict (record {
          first_observation_id = "obs_1";
          second_observation_id = "obs_3";
          source_business_key = "trade_1";
          source_version = "1";
        }))
unfolding ingest_observations hash_matches insert_observation conflict_of identity_eq
strict_batch_stops = refl

ingest_observations-Commit_example :
    (total counts ≡ 3)
    × (x : Extends no_tables all_tables) × (length x.rows ≡ counts.inserted)
    × (length x.kept ≤ counts.conflicted)
    × All (IsKept digest quarantine all_tables) batch
    × (ingest_observations digest quarantine batch all_tables
        ≡ committed (replay_of counts) all_tables)
ingest_observations-Commit_example =
    ingest_observations-Commit digest quarantine batch no_tables all_tables counts batch_commits

ingest_observations-IsSound_example :
    IsSound digest
      (tables_after
        (ingest_observations digest quarantine batch no_tables)
        no_tables).source_event_inbox
ingest_observations-IsSound_example =
    ingest_observations-IsSound digest quarantine batch no_tables tt

ingest_retransmission_example : ingest digest retransmitted (ingest digest first_booking []).1 ≡ (
  done (record { outcome = idempotent_replay; stored = record_of first_booking }),
  (ingest digest first_booking []).1,
)
unfolding hash_matches get
ingest_retransmission_example =
    ingest_retransmission digest first_booking retransmitted [] refl refl refl refl

ingest_altered_example : ingest digest contradicting (ingest digest first_booking []).1 ≡ (
  refused (conflict_of "obs_1" "obs_3" (identity_key first_booking)),
  (ingest digest first_booking []).1,
)
unfolding hash_matches get
ingest_altered_example =
    ingest_altered digest first_booking contradicting [] refl refl refl refl
      (ne_of_test "90.00" "100.00" refl)

same_id_ends_batch_example :
    ingest_observations digest quarantine
      (retransmitted ∷ reusing ∷ retransmitted ∷ [])
      first_tables
    ≡ rolled_back too_few_observation_ids
unfolding hash_matches identity_eq ingest_observations
same_id_ends_batch_example =
    same_id_ends_batch digest quarantine (retransmitted ∷ []) (retransmitted ∷ []) reusing
      first_booking (record { inserted = 0; replayed = 1; conflicted = 0 }) first_tables
      first_tables refl refl refl (ne_of_test "100.00" "90.00" refl) refl
