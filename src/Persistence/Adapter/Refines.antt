-- ===== src/Persistence/Adapter/Refines.antt =====
-- In its strict mode a batch is a sequence of calls of `InboxStore.ingest`.
use mathlib.Core.Option
use tradeops_sentinel.Base.{List, String, [], map, ◌∷◌}
use tradeops_sentinel.Contracts.{Observation, SemanticContent}
use tradeops_sentinel.Persistence.Adapter.{
  Batch, Effect, IngestSummary, Move, committed, inserts, moves, raises, replays, rolled_back,
  tally,
}
use tradeops_sentinel.Persistence.Identity.{Fault}
use tradeops_sentinel.Persistence.Inbox.{
  InboxRecord, IngestOutcome, Reply, done, idempotent_replay, ingest, record_of, refused,
}

abbrev pub records_of : List Observation → List InboxRecord
records_of rows = map record_of rows

-- What is seen of one call: how it counts and the records after it, or its exception.
pub data Seen : Type 0 where
  went : Move → List InboxRecord → Seen
  halted : Fault → Seen

abbrev pub move_of : IngestOutcome → Move
move_of IngestOutcome.inserted = inserts
move_of idempotent_replay = replays

abbrev pub seen_of_reply : Reply × List InboxRecord → Seen
seen_of_reply (done r, records) = went (move_of r.outcome) records
seen_of_reply (refused fault, records) = halted fault

abbrev seen_of_effect : Effect → Seen
seen_of_effect (moves m db) = went m (records_of db.source_event_inbox)
seen_of_effect (raises fault) = halted fault

-- The calls one after another, up to the first that raises.
pub data Sequence : Type 0 where
  finished : IngestSummary → List InboxRecord → Sequence
  stopped : Fault → Sequence

abbrev pub seen_of_batch : Batch → Sequence
seen_of_batch (committed s db) = finished s (records_of db.source_event_inbox)
seen_of_batch (rolled_back fault) = stopped fault

module _ (digest : SemanticContent → String) where
  pub ingest_each : List Observation → IngestSummary → List InboxRecord → Sequence
  ingest_each [] s records = finished s records
  ingest_each (o ∷ os) s records = elim (seen_of_reply (ingest digest o records)) [
    | went m records' ↦ ingest_each os (tally m s) records'
    | halted fault ↦ stopped fault
  ]
