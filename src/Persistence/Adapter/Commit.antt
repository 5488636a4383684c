-- ===== src/Persistence/Adapter/Commit.antt =====
-- A batch that commits, and the same batch again.
use mathlib.Core.Path.{subst}
use tradeops_sentinel.Base.{
  All, List, String, [], ap, arith, length, refl, suc, sym, ℕ, ◌+◌, ◌∙◌, ◌∷◌, ◌≡◌, ◌≤◌,
}
use tradeops_sentinel.Contracts.{Observation, SemanticContent}
use tradeops_sentinel.Persistence.Adapter.{
  Batch, Effect, IngestSummary, Move, OnConflict, Tables, committed, conflicts, ingest_observations,
  inserts, moves, raises, replays, rolled_back, run_batch, step, tally, total, zero_summary,
}
use tradeops_sentinel.Persistence.Adapter.Landed.{IsLanded, step-IsLanded}
use tradeops_sentinel.Persistence.Adapter.Settled.{
  Extends, Extends-trans, IsSettled, IsSettled-Extends, Moved, Moved-replays, again, length_trans,
  step-IsSettled,
}

abbrev pub plus : IngestSummary → IngestSummary → IngestSummary
plus s d = record {
  inserted = s.inserted + d.inserted;
  replayed = s.replayed + d.replayed;
  conflicted = s.conflicted + d.conflicted;
}

-- The summary of a batch that comes again.
abbrev pub replay_of : IngestSummary → IngestSummary
replay_of d = record { inserted = 0; replayed = d.inserted + d.replayed; conflicted = d.conflicted }

summary_eq :
    {s t : IngestSummary}
    → s.inserted ≡ t.inserted
    → s.replayed ≡ t.replayed
    → s.conflicted ≡ t.conflicted
    → s ≡ t
summary_eq a b c = cc

plus-tally : (m : Move) (s d : IngestSummary) → plus (tally m s) d ≡ plus s (tally m d)
plus-tally inserts s d = summary_eq (omega arith) refl refl
plus-tally replays s d = summary_eq refl (omega arith) refl
plus-tally conflicts s d = summary_eq refl refl (omega arith)

tally-again :
    (m : Move) (t d : IngestSummary)
    → plus (tally (again m) t) (replay_of d) ≡ plus t (replay_of (tally m d))
tally-again inserts t d = summary_eq refl (omega arith) refl
tally-again replays t d = summary_eq refl (omega arith) refl
tally-again conflicts t d = summary_eq refl refl (omega arith)

total-tally : (m : Move) (d : IngestSummary) → total (tally m d) ≡ suc (total d)
total-tally inserts d = omega arith
total-tally replays d = omega arith
total-tally conflicts d = omega arith

-- The rows that a move and the rest of the batch add fit the summary of both.
tally-rows :
    (m : Move) {db db' : Tables} (x : Moved m db db') (d : IngestSummary) {n k : ℕ}
    → n ≡ d.inserted
    → k ≤ d.conflicted
    → (length x.grown.rows + n ≡ (tally m d).inserted)
      × (length x.grown.kept + k ≤ (tally m d).conflicted)
tally-rows inserts x d h g = let (a, b) = x.adds in (omega (arith, a, h), omega (arith, b, g))
tally-rows replays x d h g = let (a, b) = x.adds in (omega (arith, a, h), omega (arith, b, g))
tally-rows conflicts x d h g = let (a, b) = x.adds in (omega (arith, a, h), omega (arith, b, g))

plus-zero : (s : IngestSummary) → plus s zero_summary ≡ s
plus-zero s = summary_eq (omega arith) (omega arith) (omega arith)

zero-plus : (d : IngestSummary) → plus zero_summary d ≡ d
zero-plus d = summary_eq (omega arith) (omega arith) (omega arith)

module _ (digest : SemanticContent → String) (mode : OnConflict) where
  -- An observation of a committed batch: verified, and either in the inbox with its content or in
  -- conflict with a row there, with a conflict row under its tenant, portfolio and identifier.
  abbrev pub IsKept : Tables → Observation → Type 0
  IsKept db o = (m : Move) × IsSettled digest mode m o db

  pub record Commit (os : List Observation) (s : IngestSummary) (db : Tables) (s' : IngestSummary)
      (db' : Tables) : Type 0 where
    pub grown : Extends db db'
    pub kept : All (IsKept db') os
    pub delta : IngestSummary
    pub inserted : length grown.rows ≡ delta.inserted
    pub conflicted : length grown.kept ≤ delta.conflicted
    pub summary : s' ≡ plus s delta
    pub size : total delta ≡ length os
    pub rerun :
        (t : IngestSummary)
        → run_batch digest mode os t db' ≡ committed (plus t (replay_of delta)) db'

  -- How a batch may end.
  abbrev pub Ending : List Observation → IngestSummary → Tables → Batch → Type 0
  Ending os s db (committed s' db') = Commit os s db s' db'
  Ending os s db (rolled_back fault) = Unit

  Ending-cons :
      (o : Observation) (os : List Observation) (s : IngestSummary) (db db1 : Tables) (m : Move)
      → Moved m db db1
      → IsSettled digest mode (again m) o db1
      → (b : Batch) → Ending os (tally m s) db1 b
      → Ending (o ∷ os) s db b
  unfolding run_batch
  Ending-cons o os s db db1 m moved settled (rolled_back fault) rest = tt
  Ending-cons o os s db db1 m moved settled (committed s' db') rest =
      let settled' = IsSettled-Extends digest mode (again m) o rest.grown settled in
      record {
        grown = Extends-trans moved.grown rest.grown;
        kept = ((again m, settled'), rest.kept);
        delta = tally m rest.delta;
        inserted =
            (length_trans moved.grown rest.grown).0
            ∙ (tally-rows m moved rest.delta rest.inserted rest.conflicted).0;
        conflicted =
            rw ((length_trans moved.grown rest.grown).1)
              (tally-rows m moved rest.delta rest.inserted rest.conflicted).1;
        summary = rest.summary ∙ plus-tally m s rest.delta;
        size = total-tally m rest.delta ∙ ap suc rest.size;
        rerun = λ t.
            rw (run_batch, step-IsSettled digest mode (again m) o db' settled')
              (rest.rerun (tally (again m) t)
                ∙ ap (λ d. committed d db') (tally-again m t rest.delta));
      }

  pub run_batch-Ending :
      (os : List Observation) (s : IngestSummary) (db : Tables)
      → Ending os s db (run_batch digest mode os s db)
  unfolding run_batch
  run_batch-Ending [] s db = record {
    grown = (Moved-replays db).grown;
    kept = tt;
    delta = zero_summary;
    inserted = (Moved-replays db).adds.0;
    conflicted = rw ((Moved-replays db).adds.1) (omega arith);
    summary = sym (plus-zero s);
    size = refl;
    rerun = λ t. ap (λ d. committed d db) (sym (plus-zero t));
  }
  run_batch-Ending (o ∷ os) s db =
      go (run_batch-Ending os) (step digest mode o db) (step-IsLanded digest mode o db)
    where
      go :
          ((s' : IngestSummary) (db' : Tables) → Ending os s' db' (run_batch digest mode os s' db'))
          → (e : Effect) → IsLanded digest mode o db e
          → Ending (o ∷ os) s db (elim e [
            | moves m db1 ↦ run_batch digest mode os (tally m s) db1
            | raises fault ↦ rolled_back fault
          ])
      go rest (moves m db1) (moved, settled) =
          Ending-cons o os s db db1 m moved settled (run_batch digest mode os (tally m s) db1)
            (rest (tally m s) db1)
      go rest (raises fault) _ = tt

  -- A batch that commits has counted each of its observations. Every one is verified and either stands
  -- in the inbox with its content hash, or the inbox has another content hash under its identity, and
  -- then there is a conflict row under its tenant, portfolio and observation identifier, its own or
  -- that of an earlier delivery under the same identifier, which is kept in its place. Both tables
  -- only grew at their ends, the inbox by as many rows as were counted as inserted and the conflicts by
  -- at most as many as were counted as conflicted, and the same batch again commits, inserts nothing
  -- and leaves the tables as they are.
  pub ingest_observations-Commit :
      (os : List Observation) (db db' : Tables) (s : IngestSummary)
      → ingest_observations digest mode os db ≡ committed s db'
      → (total s ≡ length os)
        × (x : Extends db db') × (length x.rows ≡ s.inserted)
        × (length x.kept ≤ s.conflicted)
        × All (IsKept db') os
        × (ingest_observations digest mode os db' ≡ committed (replay_of s) db')
  unfolding ingest_observations
  ingest_observations-Commit os db db' s run =
      let c : Commit os zero_summary db s db' =
        subst (Ending os zero_summary db) run (run_batch-Ending os zero_summary db) in
      let same : s ≡ c.delta = c.summary ∙ zero-plus c.delta in
      (
        ap total same ∙ c.size,
        c.grown,
        c.inserted ∙ ap (λ (t : IngestSummary). t.inserted) (sym same),
        subst (λ (t : IngestSummary). length c.grown.kept ≤ t.conflicted) (sym same) c.conflicted,
        c.kept,
        c.rerun zero_summary
            ∙ ap (λ d. committed d db') (zero-plus (replay_of c.delta) ∙ ap replay_of (sym same)),
      )
