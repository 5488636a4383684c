-- ===== src/Persistence/Adapter/Unique.antt =====
-- The inbox holds one verified row for each source revision.
use tradeops_sentinel.Base.{
  Bool-cases, List, Option-cases, String, [], any, arith, false, find, inl, inr, none,
  none-append_last, refl, true, ◌++◌, ◌==◌, ◌∷◌, ◌≡◌,
}
use tradeops_sentinel.Contracts.{Observation, SemanticContent, hash_matches}
use tradeops_sentinel.Persistence.Adapter.{
  Effect, IngestSummary, OnConflict, Tables, ingest_observations, insert_observation, is_row, moves,
  place, quarantine, raise, raises, rolled_back, run_batch, settle, step, tables_after, tally,
  zero_summary,
}
use tradeops_sentinel.Persistence.Adapter.Landed.{Moved-quarantine}
use tradeops_sentinel.Persistence.Identity.{
  Fault, conflict_of, hash_mismatch, identity_eq_iff, identity_key, source_conflict,
  too_few_observation_ids,
}

still_alone :
    (row : Observation) (rows : List Observation) (o : Observation)
    → any (is_row (identity_key row)) rows ≡ false
    → find (is_row (identity_key o)) (row ∷ rows) ≡ none
    → any (is_row (identity_key row)) (rows ++ o ∷ []) ≡ false
still_alone row rows o alone absent = none-append_last (is_row (identity_key row)) rows o alone (
    ground (
      arith,
      identity_eq_iff (identity_key o) (identity_key row),
      identity_eq_iff (identity_key row) (identity_key o),
    ))

module _ (digest : SemanticContent → String) where
  -- No later row has the identity of an earlier one, and each has its own hash.
  abbrev pub IsSound : List Observation → Type 0
  IsSound [] = Unit
  IsSound (o ∷ os) =
      (hash_matches digest o ≡ true) × (any (is_row (identity_key o)) os ≡ false) × IsSound os

  IsSound-append :
      (rows : List Observation) (o : Observation)
      → IsSound rows
      → hash_matches digest o ≡ true
      → find (is_row (identity_key o)) rows ≡ none
      → IsSound (rows ++ o ∷ [])
  IsSound-append [] o sound verified absent = (verified, refl, tt)
  IsSound-append (row ∷ rows) o (own, alone, rest) verified absent =
      (own, still_alone row rows o alone absent, IsSound-append rows o rest verified (ground arith))

  abbrev pub IsSoundEffect : Effect → Type 0
  IsSoundEffect (moves m db) = IsSound db.source_event_inbox
  IsSoundEffect (raises fault) = Unit

  settle-IsSound :
      (mode : OnConflict) (fault : Fault) (o row : Observation) (db : Tables)
      → IsSound db.source_event_inbox
      → IsSoundEffect (settle mode fault o row db)
  unfolding settle
  settle-IsSound quarantine (source_conflict c) o row db sound =
      let (_, _, same) = Moved-quarantine o row db in rw same sound
  settle-IsSound quarantine (hash_mismatch x) o row db sound = tt
  settle-IsSound quarantine too_few_observation_ids o row db sound = tt
  settle-IsSound raise fault o row db sound = tt

  step-IsSound :
      (mode : OnConflict) (o : Observation) (db : Tables)
      → IsSound db.source_event_inbox
      → IsSoundEffect (step digest mode o db)
  unfolding step place insert_observation
  step-IsSound mode o db sound = elim (Bool-cases (hash_matches digest o)) [
    | inr forged ↦ rw forged tt
    | inl verified ↦ elim (Option-cases (find (is_row (identity_key o)) db.source_event_inbox)) [
      | inl absent ↦
          rw (verified, absent) (IsSound-append db.source_event_inbox o sound verified absent)
      | inr (row, found) ↦ elim (Bool-cases (row.content_hash == o.content_hash)) [
        | inl same ↦ rw (verified, found, same) sound
        | inr differ ↦
            rw (verified, found, differ)
              (settle-IsSound mode
                (conflict_of row.observation_id o.observation_id (identity_key o)) o row db sound)
      ]
    ]
  ]

  run_batch-IsSound :
      (mode : OnConflict) (os : List Observation) (s : IngestSummary) (db before : Tables)
      → IsSound before.source_event_inbox
      → IsSound db.source_event_inbox
      → IsSound (tables_after (run_batch digest mode os s db) before).source_event_inbox
  unfolding run_batch
  run_batch-IsSound mode [] s db before old sound = sound
  run_batch-IsSound mode (o ∷ os) s db before old sound =
      go (λ s' db'. run_batch-IsSound mode os s' db' before old) (step digest mode o db)
        (step-IsSound mode o db sound)
    where
      go :
          ((s' : IngestSummary) (db' : Tables)
            → IsSound db'.source_event_inbox
            → IsSound (tables_after (run_batch digest mode os s' db') before).source_event_inbox)
          → (e : Effect) → IsSoundEffect e
          → IsSound
              (tables_after
                (elim e [
                  | moves m db1 ↦ run_batch digest mode os (tally m s) db1
                  | raises fault ↦ rolled_back fault
                ])
                before).source_event_inbox
      go rest (moves m db1) sound = rest (tally m s) db1 sound
      go rest (raises fault) _ = old

  -- Whatever batch comes, in either mode and with whatever hashes it declares, the inbox keeps one row
  -- for each source revision, and each row has the hash of its own content.
  pub ingest_observations-IsSound :
      (mode : OnConflict) (os : List Observation) (db : Tables)
      → IsSound db.source_event_inbox
      → IsSound (tables_after (ingest_observations digest mode os db) db).source_event_inbox
  unfolding ingest_observations
  ingest_observations-IsSound mode os db sound =
      run_batch-IsSound mode os zero_summary db db sound sound
