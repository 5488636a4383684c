-- ===== src/Persistence/Adapter.antt =====
-- packages/persistence/adapter.py: `ingest_observations`, one transaction for a batch.
pub mod Settled
pub mod Refines
pub mod Unique
pub mod Commit
pub mod Landed
use tradeops_sentinel.Base.{
  Bool, List, Option, String, [], any, find, if◌then◌else◌, none, some, ℕ, ◌&&◌, ◌++◌, ◌+◌, ◌==◌,
  ◌∷◌,
}
use tradeops_sentinel.Contracts.{Observation, SemanticContent, hash_matches}
use tradeops_sentinel.Persistence.Identity.{
  Fault, IdentityKey, conflict_of, hash_mismatch, identity_eq, identity_key, source_conflict,
}

-- A row of `source_event_conflicts`.
pub record ConflictRow : Type 0 where
  pub observation : Observation
  pub conflicting_observation_id : String
  pub conflicting_content_hash : String

-- The two tables; a row of the inbox holds the whole observation.
pub record Tables : Type 0 where
  pub source_event_inbox : List Observation
  pub source_event_conflicts : List ConflictRow

pub record IngestSummary : Type 0 where
  pub inserted : ℕ
  pub replayed : ℕ
  pub conflicted : ℕ

abbrev pub total : IngestSummary → ℕ
total s = s.inserted + s.replayed + s.conflicted

-- `on_conflict`, which is refused if it is neither of these.
pub data OnConflict : Type 0 where
  raise quarantine : OnConflict

pub data Batch : Type 0 where
  committed : IngestSummary → Tables → Batch
  rolled_back : Fault → Batch

abbrev pub is_row : IdentityKey → Observation → Bool
is_row k row = identity_eq (identity_key row) k

-- The unique key of `source_event_conflicts`.
abbrev pub is_conflict : Observation → ConflictRow → Bool
is_conflict o row =
    (row.observation.tenant_id == o.tenant_id)
    && (row.observation.portfolio_id == o.portfolio_id)
    && (row.observation.observation_id == o.observation_id)

unfoldable pub insert_observation : Observation → Tables → Tables
insert_observation o db = record db { source_event_inbox = db.source_event_inbox ++ o ∷ [] }

-- `_quarantine_conflict`: `ON CONFLICT … DO NOTHING`
unfoldable pub quarantine_conflict : Observation → (existing : Observation) → Tables → Tables
quarantine_conflict o existing db =
    if any (is_conflict o) db.source_event_conflicts then db else record db {
      source_event_conflicts =
          db.source_event_conflicts
          ++ record {
            observation = o;
            conflicting_observation_id = existing.observation_id;
            conflicting_content_hash = existing.content_hash;
          }
            ∷ [];
    }

-- What one observation does inside the transaction.
pub data Move : Type 0 where
  inserts replays conflicts : Move

pub data Effect : Type 0 where
  moves : Move → Tables → Effect
  raises : Fault → Effect

-- The `DuplicateSourceConflict` is built in both modes, so its own error is raised in both.
pub settle : OnConflict → Fault → Observation → Observation → Tables → Effect
unfolding quarantine_conflict
settle quarantine (source_conflict c) o existing db =
    moves conflicts (quarantine_conflict o existing db)
settle _ fault o existing db = raises fault

pub place : OnConflict → Observation → Option Observation → Tables → Effect
unfolding insert_observation settle
place mode o none db = moves inserts (insert_observation o db)
place mode o (some existing) db =
    if existing.content_hash == o.content_hash
    then moves replays db
    else settle mode (conflict_of existing.observation_id o.observation_id (identity_key o)) o
        existing db

abbrev pub zero_summary : IngestSummary
zero_summary = record { inserted = 0; replayed = 0; conflicted = 0 }

abbrev pub tally : Move → IngestSummary → IngestSummary
tally inserts s = record s { inserted = s.inserted + 1 }
tally replays s = record s { replayed = s.replayed + 1 }
tally conflicts s = record s { conflicted = s.conflicted + 1 }

module _ (digest : SemanticContent → String) (mode : OnConflict) where
  pub step : Observation → Tables → Effect
  unfolding place
  step o db =
      if hash_matches digest o
      then place mode o (find (is_row (identity_key o)) db.source_event_inbox) db
      else raises (hash_mismatch o.observation_id)

  pub run_batch : List Observation → IngestSummary → Tables → Batch
  unfolding step
  run_batch [] s db = committed s db
  run_batch (o ∷ os) s db = elim (step o db) [
    | moves m db' ↦ run_batch os (tally m s) db'
    | raises fault ↦ rolled_back fault
  ]

  -- The answer of `ingest_observations`; nothing is kept of a batch that is rolled back.
  unfoldable pub ingest_observations : List Observation → Tables → Batch
  unfolding run_batch
  ingest_observations os db = run_batch os zero_summary db

abbrev pub tables_after : Batch → Tables → Tables
tables_after (committed s db') db = db'
tables_after (rolled_back fault) db = db
