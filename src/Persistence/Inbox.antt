-- ===== src/Persistence/Inbox.antt =====
use tradeops_sentinel.Base.{
  Bool, List, Option, String, [], find, if◌then◌else◌, none, some, ◌++◌, ◌==◌, ◌∷◌,
}
use tradeops_sentinel.Contracts.{Observation, SemanticContent, hash_matches}
use tradeops_sentinel.Persistence.Identity.{
  Fault, IdentityKey, conflict_of, hash_mismatch, identity_eq, identity_key,
}
-- packages/persistence/inbox.py: `InboxStore`. Its dict is the list of its records, in the order of
-- insertion.
pub mod Revisions
use tradeops_sentinel.Base.{
  Bool, List, Option, String, [], find, if◌then◌else◌, none, some, ◌++◌, ◌==◌, ◌∷◌,
}
use tradeops_sentinel.Contracts.{Observation, SemanticContent, hash_matches}
use tradeops_sentinel.Persistence.Identity.{
  Fault, IdentityKey, conflict_of, hash_mismatch, identity_eq, identity_key,
}

pub record InboxRecord : Type 0 where
  pub observation : Observation
  pub key : IdentityKey

pub data IngestOutcome : Type 0 where
  inserted idempotent_replay : IngestOutcome

pub record IngestResult : Type 0 where
  pub outcome : IngestOutcome
  pub stored : InboxRecord

pub data Reply : Type 0 where
  done : IngestResult → Reply
  refused : Fault → Reply

abbrev pub has_key : IdentityKey → InboxRecord → Bool
has_key k r = identity_eq r.key k

-- `InboxStore.get`
unfoldable pub get : IdentityKey → List InboxRecord → Option InboxRecord
get k records = find (has_key k) records

abbrev pub record_of : Observation → InboxRecord
record_of o = record { observation = o; key = identity_key o }

unfoldable pub classify :
    Observation → Option InboxRecord → List InboxRecord → Reply × List InboxRecord
classify o none records =
    (done (record { outcome = inserted; stored = record_of o }), records ++ record_of o ∷ [])
classify o (some existing) records =
    if existing.observation.content_hash == o.content_hash
    then (done (record { outcome = idempotent_replay; stored = existing }), records)
    else (
      refused (conflict_of existing.observation.observation_id o.observation_id (identity_key o)),
      records,
    )

module _ (digest : SemanticContent → String) where
  -- `InboxStore.ingest`
  unfoldable pub ingest : Observation → List InboxRecord → Reply × List InboxRecord
  unfolding classify
  ingest o records =
      if hash_matches digest o
      then classify o (find (has_key (identity_key o)) records) records
      else (refused (hash_mismatch o.observation_id), records)
