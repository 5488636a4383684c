-- ===== src/Persistence/Assembler/Stability.antt =====
-- The selection does not depend on the order in which the observations arrive.
use mathlib.Core.List.{Memᴰ}
use mathlib.Core.Path.{fun_ext, subst}
use tradeops_sentinel.Base.{
  Bool, List, Option, String, [], any, any_of_mem, ap, arith, eq_iff, false, filter, find, first,
  mem-filter, mem-sorted, mem_filter_of_mem, mem_sorted_of_mem, none, not, refl, some, sorted, sym,
  true, true_ne_false, ◌==◌, ◌∙◌, ◌∷◌, ◌≡◌, ◌≢◌,
}
use tradeops_sentinel.Contracts.{Observation, SemanticContent, SourceSystem, canonical_field_names}
use tradeops_sentinel.Persistence.Assembler.{
  Assembly, AssemblyError, FieldRule, SourceOfTruthPolicy, candidate_le, check, check_hashes,
  cross_scope, done, eligible_for_trade, failed, from_system, ids_unique, in_scope_of,
  locked_source_set, no_rule, no_source, observation_ids_not_unique, or_else, path_of, pick,
  resolve_field_selection, resolve_fields, resolved_observation, some_or_fail, source_le,
  validate_policy, ◌>>=◌, ◌>>◌,
}
use tradeops_sentinel.Persistence.Assembler.Choice.{Head, first_candidate-Head}
use tradeops_sentinel.Persistence.Assembler.Order.{candidate_le-antisym}

-- Two lists with the same items.
abbrev pub SameItems : List Observation → List Observation → Type 0
SameItems os os' =
    ((o : Observation) → Memᴰ o os → Memᴰ o os') × ((o : Observation) → Memᴰ o os' → Memᴰ o os)

SameItems-filter :
    (p : Observation → Bool) {os os' : List Observation}
    → SameItems os os'
    → SameItems (filter p os) (filter p os')
SameItems-filter p {os} {os'} (f, g) = (
  λ o m. let (n, h) = mem-filter p os m in mem_filter_of_mem p os' (f o n) h,
  λ o m. let (n, h) = mem-filter p os' m in mem_filter_of_mem p os (g o n) h,
)

abbrev pub IdsDiffer : List Observation → Type 0
IdsDiffer os =
    (a b : Observation) → Memᴰ a os → Memᴰ b os → a.observation_id ≡ b.observation_id → a ≡ b

not_listed :
    (o p : Observation) (os : List Observation)
    → any (λ (q : Observation). q.observation_id == o.observation_id) os ≡ false
    → Memᴰ p os
    → p.observation_id ≢ o.observation_id
not_listed o p os alone m same = true_ne_false (
    sym (
      any_of_mem (λ (q : Observation). q.observation_id == o.observation_id) m
        ((eq_iff p.observation_id o.observation_id).1 same))
    ∙ alone)

IdsDiffer-of : (os : List Observation) → ids_unique os ≡ true → IdsDiffer os
unfolding ids_unique
IdsDiffer-of [] h = λ a b m n same. elim m [ ]
IdsDiffer-of (o ∷ os) h =
    let alone : any (λ (p : Observation). p.observation_id == o.observation_id) os ≡ false =
      ground arith in
    let rest = IdsDiffer-of os (ground arith) in
    λ a b m n same. elim m [
      | Memᴰ.head e ↦ elim n [
        | Memᴰ.head e' ↦ e ∙ sym e'
        | Memᴰ.tail n' ↦
            absurd
              (not_listed o b os alone n' (sym same ∙ ap (λ (p : Observation). p.observation_id) e))
      ]
      | Memᴰ.tail m' ↦ elim n [
        | Memᴰ.head e' ↦
            absurd
              (not_listed o a os alone m' (same ∙ ap (λ (p : Observation). p.observation_id) e'))
        | Memᴰ.tail n' ↦ rest a b m' n' same
      ]
    ]

Head-unique :
    (s : SourceSystem) (os os' : List Observation)
    → SameItems os os'
    → IdsDiffer os
    → (here here' : Option Observation) → Head s os here
    → Head s os' here'
    → here ≡ here'
Head-unique s os os' same differ none none h h' = refl
Head-unique s os os' same differ (some a) (some b) (m, least) (n, least') =
    let (f, g) = SameItems-filter (from_system s) same in
    let b_in = g b n in
    ap some (
      differ a b (mem-filter (from_system s) os m).0 (mem-filter (from_system s) os b_in).0
        (candidate_le-antisym a b (least b b_in) (least' a (f a m))))
Head-unique s os os' same differ none (some b) h (n, least') =
    let (member, comes_from) = mem-filter (from_system s) os' n in
    absurd (true_ne_false (sym comes_from ∙ h b (same.1 b member)))
Head-unique s os os' same differ (some a) none (m, least) h =
    let (member, comes_from) = mem-filter (from_system s) os m in
    absurd (true_ne_false (sym comes_from ∙ h a (same.0 a member)))

pick_same :
    (precedence : List SourceSystem) (os os' : List Observation)
    → SameItems os os'
    → IdsDiffer os
    → pick precedence os ≡ pick precedence os'
unfolding pick
pick_same [] os os' same differ = refl
pick_same (s ∷ ss) os os' same differ =
    let here = first (sorted candidate_le (filter (from_system s) os)) in
    let here' = first (sorted candidate_le (filter (from_system s) os')) in
    let equal : here ≡ here' =
      Head-unique s os os' same differ here here' (first_candidate-Head s os)
        (first_candidate-Head s os') in
    ap (λ o. or_else o (pick ss os)) equal ∙ ap (or_else here') (pick_same ss os os' same differ)

resolved_same :
    (name trade_id : String) (os os' : List Observation) (policy : SourceOfTruthPolicy)
    → SameItems os os'
    → IdsDiffer os
    → resolved_observation name trade_id os policy ≡ resolved_observation name trade_id os' policy
unfolding resolved_observation
resolved_same name trade_id os os' policy same differ =
    let p = eligible_for_trade trade_id in
    ap
      (λ k.
        some_or_fail (no_rule (path_of name))
          (find (λ (r : FieldRule). r.field_path == path_of name) policy.field_rules)
        >>= k)
      (fun_ext (λ (rule : FieldRule). ap (some_or_fail (no_source (path_of name))) (
        pick_same rule.source_precedence (filter p os) (filter p os') (SameItems-filter p same)
          (λ a b m n. differ a b (mem-filter p os m).0 (mem-filter p os n).0))))

fields_same :
    (names : List String) (trade_id : String) (os os' : List Observation)
    (policy : SourceOfTruthPolicy)
    → SameItems os os'
    → IdsDiffer os
    → resolve_fields names trade_id os policy ≡ resolve_fields names trade_id os' policy
unfolding resolve_fields
fields_same [] trade_id os os' policy same differ = refl
fields_same (name ∷ names) trade_id os os' policy same differ =
    rw
      (
        resolved_same name trade_id os os' policy same differ,
        fields_same names trade_id os os' policy same differ,
      )
      refl

done_of_bind :
    {A B : Type 0} (m : Assembly A) (k : A → Assembly B) (b : B)
    → (m >>= k) ≡ done b
    → (a : A) × (m ≡ done a) × (k a ≡ done b)
done_of_bind (failed e) k b h = cc
done_of_bind (done a) k b h = (a, refl, h)

done_of_check : (holds : Bool) (e : AssemblyError) → check holds e ≡ done tt → holds ≡ true
done_of_check true e h = refl
done_of_check false e h = cc

SameItems-trans : {a b c : List Observation} → SameItems a b → SameItems b c → SameItems a c
SameItems-trans (f, g) (f', g') = (λ o m. f' o (f o m), λ o m. g o (g' o m))

module _ (digest : SemanticContent → String) where
  abbrev IsLocked : List Observation → List Observation → Type 0
  IsLocked os l = SameItems os l × IdsDiffer os

  locked_source_set-IsLocked :
      (os l : List Observation) → locked_source_set digest os ≡ done l → IsLocked os l
  unfolding locked_source_set
  locked_source_set-IsLocked [] l h = cc
  locked_source_set-IsLocked (o ∷ os) l h =
      let in_order : Assembly (List Observation) = done (sorted source_le (o ∷ os)) in
      let scoped : Assembly (List Observation) =
        check (not (any (λ p. not (in_scope_of o p)) os)) cross_scope >> in_order in
      let distinct : Assembly (List Observation) =
        check (ids_unique (o ∷ os)) observation_ids_not_unique >> scoped in
      let (_, _, h1) = done_of_bind (check_hashes digest (o ∷ os)) (λ _. distinct) l h in
      let (_, unique, h2) =
        done_of_bind (check (ids_unique (o ∷ os)) observation_ids_not_unique) (λ _. scoped) l h1 in
      let (_, _, h3) =
        done_of_bind (check (not (any (λ p. not (in_scope_of o p)) os)) cross_scope) (λ _. in_order)
          l h2 in
      let equal : sorted source_le (o ∷ os) ≡ l = cc in
      (
        (
          λ p m. subst (Memᴰ p) equal (mem_sorted_of_mem source_le (o ∷ os) m),
          λ p m. mem-sorted source_le (o ∷ os) (subst (Memᴰ p) (sym equal) m),
        ),
        IdsDiffer-of (o ∷ os)
            (done_of_check (ids_unique (o ∷ os)) observation_ids_not_unique unique),
      )

  -- The fields are taken from the same observations in whatever order these arrive: two calls on the
  -- same observations that both return have returned the same selection.
  pub resolve_field_selection_same :
      (policy_digest : SourceOfTruthPolicy → String) (packaged : SourceOfTruthPolicy)
      (trade_id : String) (os os' : List Observation) (policy : SourceOfTruthPolicy)
      (chosen chosen' : List (String × Observation))
      → SameItems os os'
      → resolve_field_selection digest policy_digest packaged trade_id os policy ≡ done chosen
      → resolve_field_selection digest policy_digest packaged trade_id os' policy ≡ done chosen'
      → chosen ≡ chosen'
  unfolding resolve_field_selection
  resolve_field_selection_same policy_digest packaged trade_id os os' policy chosen chosen' same h
        h' =
      let (l, locked, fields) = split os chosen h in
      let (l', locked', fields') = split os' chosen' h' in
      let (f, g) = locked_source_set-IsLocked os l locked in
      let (f', _) = locked_source_set-IsLocked os' l' locked' in
      let both : SameItems l l' = SameItems-trans (f.1, f.0) (SameItems-trans same f') in
      let differ : IdsDiffer l = λ a b m n. g a b (f.1 a m) (f.1 b n) in
      let equal = fields_same canonical_field_names trade_id l l' policy both differ in
      cc (equal, fields, fields')
    where
      split :
          (os : List Observation) (chosen : List (String × Observation))
          → resolve_field_selection digest policy_digest packaged trade_id os policy ≡ done chosen
          → (l : List Observation) × (locked_source_set digest os ≡ done l)
            × (resolve_fields canonical_field_names trade_id l policy ≡ done chosen)
      split os chosen h =
          let fields =
            λ (l : List Observation). resolve_fields canonical_field_names trade_id l policy in
          let (_, _, h1) =
            done_of_bind (validate_policy policy_digest packaged policy)
              (λ _. locked_source_set digest os >>= fields) chosen h in
          done_of_bind (locked_source_set digest os) fields chosen h1
