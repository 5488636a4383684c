-- ===== src/Persistence/Inbox/Revisions.antt =====
-- What a later delivery of a source revision does to the inbox.
use text.Mathlib.TextPositions.{compare_refl}
use tradeops_sentinel.Base.{
  List, String, [], ap, arith, eq_iff, eq_of_test, false, find, find-append_none, none, refl, some,
  sym, true, ◌++◌, ◌==◌, ◌∙◌, ◌∷◌, ◌≡◌, ◌≢◌,
}
use tradeops_sentinel.Contracts.{Observation, SemanticContent, hash_matches, semantic_content}
use tradeops_sentinel.Persistence.Adapter.{
  IngestSummary, OnConflict, Tables, committed, ingest_observations, is_row, rolled_back,
}
use tradeops_sentinel.Persistence.Adapter.Landed.{ingest_observations_raises, step_conflict}
use tradeops_sentinel.Persistence.Identity.{
  IdentityKey, conflict_of, identity_eq_iff, identity_key, too_few_observation_ids,
}
use tradeops_sentinel.Persistence.Inbox.{
  InboxRecord, classify, done, get, has_key, idempotent_replay, ingest, record_of, refused,
}

identity_of_content :
    (o o' : Observation)
    → semantic_content o' ≡ semantic_content o
    → identity_key o' ≡ identity_key o
identity_of_content o o' same = ap key_of_content same
  where
    key_of_content : SemanticContent → IdentityKey
    key_of_content c = record {
      tenant_id = c.tenant_id;
      portfolio_id = c.portfolio_id;
      source_system = c.source_system;
      observation_kind = c.observation_kind;
      source_business_key = c.source_business_key;
      source_version = c.source_version;
    }

get-record_of :
    (o : Observation) (records : List InboxRecord)
    → find (has_key (identity_key o)) records ≡ none
    → find (has_key (identity_key o)) (records ++ record_of o ∷ []) ≡ some (record_of o)
get-record_of o records absent =
    rw
      (
        find-append_none (has_key (identity_key o)) records (record_of o ∷ []) absent,
        (identity_eq_iff (identity_key o) (identity_key o)).1 refl,
      )
      refl

module _ (digest : SemanticContent → String) where
  hash_of :
      (o : Observation)
      → hash_matches digest o ≡ true
      → o.content_hash ≡ digest (semantic_content o)
  unfolding hash_matches
  hash_of o h = eq_of_test o.content_hash (digest (semantic_content o)) h

  first_ingest :
      (o : Observation) (records : List InboxRecord)
      → hash_matches digest o ≡ true
      → get (identity_key o) records ≡ none
      → (ingest digest o records).1 ≡ records ++ record_of o ∷ []
  unfolding ingest classify get
  first_ingest o records verified absent = rw (verified, absent) refl

  -- A retransmission, which may differ in its observation and event identifiers, its correlation and
  -- its time of ingestion but not in its content, is answered by the record of the first delivery and
  -- changes nothing.
  pub ingest_retransmission :
      (o o' : Observation) (records : List InboxRecord)
      → hash_matches digest o ≡ true
      → hash_matches digest o' ≡ true
      → get (identity_key o) records ≡ none
      → semantic_content o' ≡ semantic_content o
      → let stored = (ingest digest o records).1 in
        ingest digest o' stored
        ≡ (done (record { outcome = idempotent_replay; stored = record_of o }), stored)
  unfolding ingest classify get
  ingest_retransmission o o' records verified verified' absent same =
      let key = identity_of_content o o' same in
      let equal : (o.content_hash == o'.content_hash) ≡ true =
        (eq_iff o.content_hash o'.content_hash).1
          (hash_of o verified ∙ sym (ap digest same) ∙ sym (hash_of o' verified')) in
      rw (verified, absent) (rw (verified', key, get-record_of o records absent, equal) refl)

  -- A delivery of the same source revision with other content is refused and changes nothing: by a
  -- conflict that names both observations, or, if it reuses the identifier of the stored observation,
  -- because a conflict must name two.
  pub ingest_altered :
      (o o' : Observation) (records : List InboxRecord)
      → hash_matches digest o ≡ true
      → hash_matches digest o' ≡ true
      → get (identity_key o) records ≡ none
      → identity_key o' ≡ identity_key o
      → o'.content_hash ≢ o.content_hash
      → let stored = (ingest digest o records).1 in
        ingest digest o' stored
        ≡ (refused (conflict_of o.observation_id o'.observation_id (identity_key o)), stored)
  unfolding ingest classify get
  ingest_altered o o' records verified verified' absent key differ =
      let unequal : (o.content_hash == o'.content_hash) ≡ false =
        ground (arith, eq_iff o.content_hash o'.content_hash) in
      rw (verified, absent)
        (rw (verified', key, get-record_of o records absent, unequal)
          (ap
            (λ k. (
              refused (conflict_of o.observation_id o'.observation_id k),
              records ++ record_of o ∷ [],
            ))
            key))

conflict_of_self :
    (id : String) (key : IdentityKey) → conflict_of id id key ≡ too_few_observation_ids
unfolding conflict_of
conflict_of_self id key = rw (conflict_of, compare_refl id) refl

-- A revision that reuses the identifier of the stored observation with other content is never
-- quarantined: wherever it comes in a batch whose earlier observations raise nothing, and whatever
-- follows it, it ends the whole batch, in either mode, with the error of a conflict that names one
-- observation only, so that nothing of the batch is kept.
pub same_id_ends_batch :
    (digest : SemanticContent → String) (mode : OnConflict) (before os : List Observation)
    (o row : Observation) (s : IngestSummary) (db db' : Tables)
    → ingest_observations digest mode before db ≡ committed s db'
    → hash_matches digest o ≡ true
    → find (is_row (identity_key o)) db'.source_event_inbox ≡ some row
    → row.content_hash ≢ o.content_hash
    → row.observation_id ≡ o.observation_id
    → ingest_observations digest mode (before ++ o ∷ os) db ≡ rolled_back too_few_observation_ids
same_id_ends_batch digest mode before os o row s db db' run verified found differ same =
    ingest_observations_raises digest mode before o os db db' s too_few_observation_ids run (
      step_conflict digest mode o row db' verified found differ
        (rw same (conflict_of_self o.observation_id (identity_key o))))
