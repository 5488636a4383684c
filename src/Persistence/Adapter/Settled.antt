-- ===== src/Persistence/Adapter/Settled.antt =====
-- What an observation has left in the tables, and that nothing later takes it away.
use tradeops_sentinel.Base.{
  List, String, [], any, any-append_left, ap, append-nil, append_assoc, arith, false, find,
  find-append_some, length, length-append, refl, some, sym, true, ◌++◌, ◌+◌, ◌==◌, ◌∙◌, ◌≡◌, ◌≤◌,
}
use tradeops_sentinel.Contracts.{Observation, SemanticContent, hash_matches}
use tradeops_sentinel.Persistence.Adapter.{
  ConflictRow, Move, OnConflict, Tables, conflicts, inserts, is_conflict, is_row, moves, place,
  quarantine, quarantine_conflict, replays, settle, step,
}
use tradeops_sentinel.Persistence.Identity.{
  DuplicateSourceConflict, conflict_of, identity_key, source_conflict,
}

-- The tables grew at their ends.
pub record Extends (db db' : Tables) : Type 0 where
  pub rows : List Observation
  pub kept : List ConflictRow
  pub inbox : db'.source_event_inbox ≡ db.source_event_inbox ++ rows
  pub evidence : db'.source_event_conflicts ≡ db.source_event_conflicts ++ kept

pub Extends-refl : (db : Tables) → Extends db db
Extends-refl db = record {
  rows = [];
  kept = [];
  inbox = sym (append-nil db.source_event_inbox);
  evidence = sym (append-nil db.source_event_conflicts);
}

pub Extends-trans : {a b c : Tables} → Extends a b → Extends b c → Extends a c
Extends-trans {a} {b} {c} f g = record {
  rows = f.rows ++ g.rows;
  kept = f.kept ++ g.kept;
  inbox = g.inbox ∙ ap (λ l. l ++ g.rows) f.inbox ∙ append_assoc a.source_event_inbox f.rows g.rows;
  evidence =
      g.evidence
      ∙ ap (λ l. l ++ g.kept) f.evidence
      ∙ append_assoc a.source_event_conflicts f.kept g.kept;
}

pub length_trans :
    {a b c : Tables} (f : Extends a b) (g : Extends b c)
    → (length (Extends-trans f g).rows ≡ length f.rows + length g.rows)
      × (length (Extends-trans f g).kept ≡ length f.kept + length g.kept)
unfolding Extends-trans
length_trans f g = (length-append f.rows g.rows, length-append f.kept g.kept)

-- A move adds a row to the table that its count is about: an insertion one to the inbox, a conflict at
-- most one to the conflicts.
abbrev pub Adds : Move → {db db' : Tables} → Extends db db' → Type 0
Adds inserts x = (length x.rows ≡ 1) × (length x.kept ≡ 0)
Adds replays x = (length x.rows ≡ 0) × (length x.kept ≡ 0)
Adds conflicts x = (length x.rows ≡ 0) × (length x.kept ≤ 1)

pub record Moved (m : Move) (db db' : Tables) : Type 0 where
  pub grown : Extends db db'
  pub adds : Adds m grown

pub Moved-replays : (db : Tables) → Moved replays db db
unfolding Extends-refl
Moved-replays db = record { grown = Extends-refl db; adds = (refl, refl) }

pub Moved-conflicts : (db : Tables) → Moved conflicts db db
unfolding Extends-refl
Moved-conflicts db = record { grown = Extends-refl db; adds = (refl, omega arith) }

-- How an observation counts when it comes a second time.
abbrev pub again : Move → Move
again inserts = replays
again replays = replays
again conflicts = conflicts

module _ (digest : SemanticContent → String) (mode : OnConflict) where
  -- The row of its identity has its content; or it has another content, the batch quarantines, a
  -- `DuplicateSourceConflict` can be built, and a row of `source_event_conflicts` has its tenant, its
  -- portfolio and its observation identifier. That row may be of an earlier delivery under the same
  -- identifier, whose content `ON CONFLICT DO NOTHING` keeps in place of this one's.
  abbrev pub IsPlaced : Move → Observation → Observation → Tables → Type 0
  IsPlaced inserts o row db = ⊥
  IsPlaced replays o row db = (row.content_hash == o.content_hash) ≡ true
  IsPlaced conflicts o row db =
      ((row.content_hash == o.content_hash) ≡ false)
      × (mode ≡ quarantine)
      × ((c : DuplicateSourceConflict) × (conflict_of row.observation_id o.observation_id
              (identity_key o)
            ≡ source_conflict c))
      × (any (is_conflict o) db.source_event_conflicts ≡ true)

  pub record IsSettled (m : Move) (o : Observation) (db : Tables) : Type 0 where
    pub verified : hash_matches digest o ≡ true
    pub row : Observation
    pub found : find (is_row (identity_key o)) db.source_event_inbox ≡ some row
    pub placed : IsPlaced m o row db

  IsPlaced-Extends :
      (m : Move) (o row : Observation) {db db' : Tables}
      → Extends db db'
      → IsPlaced m o row db
      → IsPlaced m o row db'
  IsPlaced-Extends inserts o row x p = p
  IsPlaced-Extends replays o row x p = p
  IsPlaced-Extends conflicts o row {db} {db'} x (differ, quarantined, c, kept) = (
    differ,
    quarantined,
    c,
    rw x.evidence (any-append_left (is_conflict o) db.source_event_conflicts x.kept kept),
  )

  pub IsSettled-Extends :
      (m : Move) (o : Observation) {db db' : Tables}
      → Extends db db'
      → IsSettled m o db
      → IsSettled m o db'
  IsSettled-Extends m o {db} {db'} x s = record {
    verified = s.verified;
    row = s.row;
    found =
        rw x.inbox
          (find-append_some (is_row (identity_key o)) db.source_event_inbox x.rows s.found);
    placed = IsPlaced-Extends m o s.row x s.placed;
  }

  -- A settled observation changes nothing.
  pub step-IsSettled :
      (m : Move) (o : Observation) (db : Tables)
      → IsSettled m o db
      → step digest mode o db ≡ moves m db
  unfolding step place settle quarantine_conflict
  step-IsSettled inserts o db s = absurd s.placed
  step-IsSettled replays o db s = rw (s.verified, s.found, s.placed) refl
  step-IsSettled conflicts o db s =
      let (differ, quarantined, (c, built), kept) = s.placed in
      rw (s.verified, s.found, differ, quarantined, built, kept) refl
