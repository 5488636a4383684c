-- ===== src/Persistence/Adapter/Landed.antt =====
-- Every step of a batch settles its observation.
use tradeops_sentinel.Base.{
  Bool-cases, List, Option-cases, String, [], any, any-append_last, ap, append-nil, arith, eq_iff,
  eq_refl, false, find, find-append_none, inl, inr, none, refl, some, sym, true, ◌++◌, ◌==◌, ◌∙◌,
  ◌∷◌, ◌≡◌, ◌≢◌, ◌⊎◌,
}
use tradeops_sentinel.Contracts.{Observation, SemanticContent, hash_matches}
use tradeops_sentinel.Persistence.Adapter.{
  Batch, ConflictRow, Effect, IngestSummary, Move, OnConflict, Tables, committed, conflicts,
  ingest_observations, insert_observation, inserts, is_conflict, is_row, moves, place, quarantine,
  quarantine_conflict, raise, raises, rolled_back, run_batch, settle, step, tables_after, tally,
  zero_summary,
}
use tradeops_sentinel.Persistence.Adapter.Settled.{
  IsSettled, Moved, Moved-conflicts, Moved-replays, again,
}
use tradeops_sentinel.Persistence.Identity.{
  Fault, IdentityKey, conflict_of, hash_mismatch, identity_eq, identity_eq_iff, identity_key,
  source_conflict, too_few_observation_ids,
}

pub identity_eq_refl : (k : IdentityKey) → identity_eq k k ≡ true
identity_eq_refl k = (identity_eq_iff k k).1 refl

Moved-insert : (o : Observation) (db : Tables) → Moved inserts db (insert_observation o db)
unfolding insert_observation
Moved-insert o db = record {
  grown = record {
    rows = o ∷ [];
    kept = [];
    inbox = refl;
    evidence = sym (append-nil db.source_event_conflicts);
  };
  adds = (refl, refl);
}

find_inserted :
    (o : Observation) (rows : List Observation)
    → find (is_row (identity_key o)) rows ≡ none
    → find (is_row (identity_key o)) (rows ++ o ∷ []) ≡ some o
find_inserted o rows absent =
    rw
      (
        find-append_none (is_row (identity_key o)) rows (o ∷ []) absent,
        identity_eq_refl (identity_key o),
      )
      refl

is_conflict_self :
    (o : Observation) (row : ConflictRow) → row.observation ≡ o → is_conflict o row ≡ true
is_conflict_self o row e =
    rw e (simp (eq_refl o.tenant_id, eq_refl o.portfolio_id, eq_refl o.observation_id) refl)

pub Moved-quarantine :
    (o existing : Observation) (db : Tables)
    → Moved conflicts db (quarantine_conflict o existing db)
      × (any (is_conflict o) (quarantine_conflict o existing db).source_event_conflicts ≡ true)
      × ((quarantine_conflict o existing db).source_event_inbox ≡ db.source_event_inbox)
unfolding quarantine_conflict
Moved-quarantine o existing db = elim (Bool-cases (any (is_conflict o) db.source_event_conflicts)) [
  | inl there ↦ rw (there, there) (Moved-conflicts db, refl, refl)
  | inr fresh ↦
      let row : ConflictRow = record {
        observation = o;
        conflicting_observation_id = existing.observation_id;
        conflicting_content_hash = existing.content_hash;
      } in
      rw fresh (
        record {
          grown = record {
            rows = [];
            kept = row ∷ [];
            inbox = sym (append-nil db.source_event_inbox);
            evidence = refl;
          };
          adds = (refl, omega arith);
        },
        any-append_last (is_conflict o) db.source_event_conflicts row (is_conflict_self o row refl),
        refl,
      )
]

module _ (digest : SemanticContent → String) where
  abbrev pub IsLanded : OnConflict → Observation → Tables → Effect → Type 0
  IsLanded mode o db (moves m db') = Moved m db db' × IsSettled digest mode (again m) o db'
  IsLanded mode o db (raises fault) = Unit

  settle-IsLanded :
      (mode : OnConflict) (fault : Fault) (o row : Observation) (db : Tables)
      → hash_matches digest o ≡ true
      → find (is_row (identity_key o)) db.source_event_inbox ≡ some row
      → (row.content_hash == o.content_hash) ≡ false
      → conflict_of row.observation_id o.observation_id (identity_key o) ≡ fault
      → IsLanded mode o db (settle mode fault o row db)
  unfolding settle
  settle-IsLanded quarantine (source_conflict c) o row db verified found differ built =
      let (moved, kept, same) = Moved-quarantine o row db in
      (
        moved,
        record {
          verified = verified;
          row = row;
          found = rw same found;
          placed = (differ, refl, (c, built), kept);
        },
      )
  settle-IsLanded quarantine (hash_mismatch x) o row db verified found differ built = tt
  settle-IsLanded quarantine too_few_observation_ids o row db verified found differ built = tt
  settle-IsLanded raise fault o row db verified found differ built = tt

  pub step-IsLanded :
      (mode : OnConflict) (o : Observation) (db : Tables)
      → IsLanded mode o db (step digest mode o db)
  unfolding step place
  step-IsLanded mode o db = elim (Bool-cases (hash_matches digest o)) [
    | inr forged ↦ rw forged tt
    | inl verified ↦ elim (Option-cases (find (is_row (identity_key o)) db.source_event_inbox)) [
      | inl absent ↦
          rw (verified, absent)
            (
              Moved-insert o db,
              record {
                verified = verified;
                row = o;
                found = unfold insert_observation in find_inserted o db.source_event_inbox absent;
                placed = eq_refl o.content_hash;
              },
            )
      | inr (row, found) ↦ elim (Bool-cases (row.content_hash == o.content_hash)) [
        | inl same ↦
            rw (verified, found, same)
              (
                Moved-replays db,
                record { verified = verified; row = row; found = found; placed = same },
              )
        | inr differ ↦
            rw (verified, found, differ)
              (settle-IsLanded mode
                (conflict_of row.observation_id o.observation_id (identity_key o)) o row db verified
                found differ refl)
      ]
    ]
  ]

settle_too_few :
    (mode : OnConflict) (o row : Observation) (db : Tables)
    → settle mode too_few_observation_ids o row db ≡ raises too_few_observation_ids
unfolding settle
settle_too_few raise o row db = refl
settle_too_few quarantine o row db = refl

-- A conflict that cannot be built raises in both modes.
pub step_conflict :
    (digest : SemanticContent → String) (mode : OnConflict) (o row : Observation) (db : Tables)
    → hash_matches digest o ≡ true
    → find (is_row (identity_key o)) db.source_event_inbox ≡ some row
    → row.content_hash ≢ o.content_hash
    → conflict_of row.observation_id o.observation_id (identity_key o) ≡ too_few_observation_ids
    → step digest mode o db ≡ raises too_few_observation_ids
unfolding step place settle
step_conflict digest mode o row db verified found differ built =
    let unequal : (row.content_hash == o.content_hash) ≡ false =
      ground (arith, eq_iff row.content_hash o.content_hash) in
    rw (verified, found, unequal, built) (settle_too_few mode o row db)

Effect-cases :
    (e : Effect)
    → ((m : Move) × (db : Tables) × (e ≡ moves m db)) ⊎ ((fault : Fault) × (e ≡ raises fault))
Effect-cases (moves m db) = inl (m, db, refl)
Effect-cases (raises fault) = inr (fault, refl)

abbrev summary_of : Batch → IngestSummary → IngestSummary
summary_of (committed s _) _ = s
summary_of (rolled_back _) s = s

run_batch-append :
    (digest : SemanticContent → String) (mode : OnConflict) (before rest : List Observation)
    (s s' : IngestSummary) (db db' : Tables)
    → run_batch digest mode before s db ≡ committed s' db'
    → run_batch digest mode (before ++ rest) s db ≡ run_batch digest mode rest s' db'
unfolding run_batch
run_batch-append digest mode [] rest s s' db db' h =
    ap (λ b. run_batch digest mode rest (summary_of b s) (tables_after b db)) h
run_batch-append digest mode (o ∷ before) rest s s' db db' h =
    elim (Effect-cases (step digest mode o db)) [
      | inl (m, next, at) ↦
          let later : run_batch digest mode before (tally m s) next ≡ committed s' db' =
            rw (run_batch, at) at h in
          rw (run_batch, at)
            (run_batch-append digest mode before rest (tally m s) s' next db' later)
      | inr (fault, at) ↦
          let clash : rolled_back fault ≡ committed s' db' = rw (run_batch, at) at h in cc
    ]

pub ingest_observations_raises :
    (digest : SemanticContent → String) (mode : OnConflict) (before : List Observation)
    (o : Observation) (os : List Observation) (db db' : Tables) (s : IngestSummary) (fault : Fault)
    → ingest_observations digest mode before db ≡ committed s db'
    → step digest mode o db' ≡ raises fault
    → ingest_observations digest mode (before ++ o ∷ os) db ≡ rolled_back fault
unfolding ingest_observations run_batch
ingest_observations_raises digest mode before o os db db' s fault run h =
    let rest : run_batch digest mode (o ∷ os) s db' ≡ rolled_back fault = rw (run_batch, h) refl in
    run_batch-append digest mode before (o ∷ os) zero_summary s db db' run ∙ rest
