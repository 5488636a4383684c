-- ===== src/Persistence/Assembler/Choice.antt =====
-- Which observation a canonical field is taken from.
use mathlib.Core.List.{Memᴰ}
use mathlib.Core.Path.{subst}
use tradeops_sentinel.Base.{
  Bool-cases, IsLeast, List, Option, Option-cases, String, [], ap, false, filter, find, first,
  first-sorted_cons, inl, inr, int_of, mem-filter, mem_filter_of_mem, none, refl, some, sorted, sym,
  true, ◌++◌, ◌==◌, ◌∷◌, ◌≡◌, ◌≤◌, ◌⊎◌,
}
use tradeops_sentinel.Contracts.{Observation, SourceSystem}
use tradeops_sentinel.Persistence.Assembler.{
  Assembly, FieldRule, SourceOfTruthPolicy, candidate_le, done, eligible_for_trade, failed,
  from_system, no_rule, no_source, or_else, path_of, pick, resolved_observation, some_or_fail,
}
use tradeops_sentinel.Persistence.Assembler.Order.{
  candidate_le-total, candidate_le_trans, candidate_le-version,
}

-- From the first system of the precedence that any of the observations is from, and of those one
-- with the highest version.
pub record IsChosen (precedence : List SourceSystem) (eligible : List Observation) (o : Observation)
    : Type 0 where
  pub earlier : List SourceSystem
  pub chosen_system : SourceSystem
  pub later : List SourceSystem
  pub split : precedence ≡ earlier ++ chosen_system ∷ later
  pub comes_from : from_system chosen_system o ≡ true
  pub member : Memᴰ o eligible
  pub none_earlier :
      (s : SourceSystem) (c : Observation)
      → Memᴰ s earlier
      → Memᴰ c eligible
      → from_system s c ≡ false
  pub newest :
      (c : Observation)
      → Memᴰ c eligible
      → from_system chosen_system c ≡ true
      → int_of c.source_version ≤ int_of o.source_version

-- What the first candidate of a system is, if there is one.
abbrev pub Head : SourceSystem → List Observation → Option Observation → Type 0
Head s eligible none = (c : Observation) → Memᴰ c eligible → from_system s c ≡ false
Head s eligible (some o) = IsLeast candidate_le o (filter (from_system s) eligible)

pub first_candidate-Head :
    (s : SourceSystem) (eligible : List Observation)
    → Head s eligible (first (sorted candidate_le (filter (from_system s) eligible)))
unfolding sorted
first_candidate-Head s eligible = go (filter (from_system s) eligible) refl
  where
    go :
        (l : List Observation)
        → filter (from_system s) eligible ≡ l
        → Head s eligible (first (sorted candidate_le l))
    go [] e = λ c m. elim (Bool-cases (from_system s c)) [
      | inl from ↦ elim (subst (Memᴰ c) e (mem_filter_of_mem (from_system s) eligible m from)) [ ]
      | inr other ↦ other
    ]
    go (x ∷ xs) e =
        let (m, at, least) =
          first-sorted_cons candidate_le candidate_le-total candidate_le_trans x xs in
        rw at (subst (IsLeast candidate_le m) (sym e) least)

IsChosen-later :
    (s : SourceSystem) (ss : List SourceSystem) (eligible : List Observation) (o : Observation)
    → ((c : Observation) → Memᴰ c eligible → from_system s c ≡ false)
    → IsChosen ss eligible o
    → IsChosen (s ∷ ss) eligible o
IsChosen-later s ss eligible o nothing i = record {
  earlier = s ∷ i.earlier;
  chosen_system = i.chosen_system;
  later = i.later;
  split = ap (λ l. s ∷ l) i.split;
  comes_from = i.comes_from;
  member = i.member;
  none_earlier = λ t c m n. elim m [
    | Memᴰ.head e ↦ rw e (nothing c n)
    | Memᴰ.tail m' ↦ i.none_earlier t c m' n
  ];
  newest = i.newest;
}

IsChosen-here :
    (s : SourceSystem) (ss : List SourceSystem) (eligible : List Observation) (o : Observation)
    → IsLeast candidate_le o (filter (from_system s) eligible)
    → IsChosen (s ∷ ss) eligible o
IsChosen-here s ss eligible o (m, least) =
    let (member, comes_from) = mem-filter (from_system s) eligible m in
    record {
      earlier = [];
      chosen_system = s;
      later = ss;
      split = refl;
      comes_from = comes_from;
      member = member;
      none_earlier = λ t c m' n. elim m' [ ];
      newest = λ c n from.
          candidate_le-version o c (least c (mem_filter_of_mem (from_system s) eligible n from));
    }

-- What the loop over the precedence finds.
abbrev pub Picked : List SourceSystem → List Observation → Option Observation → Type 0
Picked precedence eligible none =
    (s : SourceSystem) (c : Observation)
    → Memᴰ s precedence
    → Memᴰ c eligible
    → from_system s c ≡ false
Picked precedence eligible (some o) = IsChosen precedence eligible o

pub pick-Picked :
    (precedence : List SourceSystem) (eligible : List Observation)
    → Picked precedence eligible (pick precedence eligible)
unfolding pick
pick-Picked [] eligible = λ s c m n. elim m [ ]
pick-Picked (s ∷ ss) eligible =
    go (first (sorted candidate_le (filter (from_system s) eligible))) (pick ss eligible)
      (first_candidate-Head s eligible) (pick-Picked ss eligible)
  where
    go :
        (here rest : Option Observation)
        → Head s eligible here
        → Picked ss eligible rest
        → Picked (s ∷ ss) eligible (or_else here rest)
    go (some o) rest h r = IsChosen-here s ss eligible o h
    go none (some o) h r = IsChosen-later s ss eligible o h r
    go none none h r = λ t c m n. elim m [ Memᴰ.head e ↦ rw e (h c n) | Memᴰ.tail m' ↦ r t c m' n ]

-- The answer for one field: the chosen observation under the field's rule, or why there is none.
abbrev pub Resolution :
    String → String → List Observation → SourceOfTruthPolicy → Assembly Observation → Type 0
Resolution name trade_id sources policy (done o) =
    (rule : FieldRule) × (find (λ (r : FieldRule). r.field_path == path_of name) policy.field_rules
      ≡ some rule)
    × (IsChosen rule.source_precedence (filter (eligible_for_trade trade_id) sources) o)
Resolution name trade_id sources policy (failed e) =
    ((e ≡ no_rule (path_of name))
      × (find (λ (r : FieldRule). r.field_path == path_of name) policy.field_rules ≡ none))
    ⊎ ((rule : FieldRule) × (find (λ (r : FieldRule). r.field_path == path_of name)
            policy.field_rules
          ≡ some rule)
        × (e ≡ no_source (path_of name))
        × Picked rule.source_precedence (filter (eligible_for_trade trade_id) sources) none)

-- A canonical field is taken, of the observations of the trade, from the first source system in the
-- field's precedence that has one, and there from one with the highest version; it fails only if the
-- policy has no rule for the field, or none of the systems named by the rule has an observation.
pub resolved_observation-Resolution :
    (name trade_id : String) (sources : List Observation) (policy : SourceOfTruthPolicy)
    → Resolution name trade_id sources policy (resolved_observation name trade_id sources policy)
unfolding resolved_observation
resolved_observation-Resolution name trade_id sources policy =
    elim (Option-cases
      (find (λ (r : FieldRule). r.field_path == path_of name) policy.field_rules)) [
        | inl absent ↦ rw absent (inl (refl, absent))
        | inr (rule, found) ↦ rw found (
            go rule found
              (pick rule.source_precedence (filter (eligible_for_trade trade_id) sources))
              (pick-Picked rule.source_precedence (filter (eligible_for_trade trade_id) sources)))
      ]
  where
    go :
        (rule : FieldRule)
        → find (λ (r : FieldRule). r.field_path == path_of name) policy.field_rules ≡ some rule
        → (o : Option Observation)
        → Picked rule.source_precedence (filter (eligible_for_trade trade_id) sources) o
        → Resolution name trade_id sources policy (some_or_fail (no_source (path_of name)) o)
    go rule found (some o) p = (rule, found, p)
    go rule found none p = inr (rule, found, refl, p)
