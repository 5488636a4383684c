-- ===== src/Reconciliation/Duplicates/Conflicts.antt =====
-- When a version of a source has two contents.
use mathlib.Core.List.{Memᴰ}
use tradeops_sentinel.Base.{
  Bool, Bool-cases, List, Option, [], any_found, ap, arith, collect-nil_iff, collect-none, eq_iff,
  fails_of_any, false, filter_eq_of, first, inl, inr, mem-filter, mem-sorted, mem_filter_of_mem,
  mem_sorted_of_mem, none, not, refl, some, sorted, sym, true, true_ne_false, ◌==◌, ◌↔◌, ◌∙◌, ◌∷◌,
  ◌≡◌, ◌≢◌,
}
use tradeops_sentinel.Contracts.{Observation, kind_name}
use tradeops_sentinel.Reconciliation.Breaks.{Break}
use tradeops_sentinel.Reconciliation.Duplicates.{
  conflict_break, duplicate_breaks, first_of_each, group_break, group_of, has_conflict, key_le,
  ordered_observations, same_key,
}

SameKey : Observation → Observation → Type 0
SameKey a b =
    (kind_name a.observation_kind ≡ kind_name b.observation_kind)
    × (a.source_business_key ≡ b.source_business_key)
    × (a.source_version ≡ b.source_version)

same_key_iff : (a b : Observation) → (same_key a b ≡ true) ↔ SameKey a b
unfolding SameKey
same_key_iff a b =
    let e = eq_iff (kind_name a.observation_kind) (kind_name b.observation_kind) in
    let f = eq_iff a.source_business_key b.source_business_key in
    let g = eq_iff a.source_version b.source_version in
    (
      λ h. (e.0 (ground arith), f.0 (ground arith), g.0 (ground arith)),
      λ (x, y, z). rw (e.1 x, f.1 y, g.1 z) refl,
    )

same_key_self : (a : Observation) → same_key a a ≡ true
unfolding SameKey
same_key_self a = (same_key_iff a a).1 (refl, refl, refl)

same_key_trans :
    (a b c : Observation) → same_key a b ≡ true → same_key b c ≡ true → same_key a c ≡ true
unfolding SameKey
same_key_trans a b c h k =
    let (x, y, z) = (same_key_iff a b).0 h in
    let (x', y', z') = (same_key_iff b c).0 k in (same_key_iff a c).1 (x ∙ x', y ∙ y', z ∙ z')

-- Every observation has a first one of its key.
first_of_each_covers :
    (os : List Observation) {o : Observation}
    → Memᴰ o os
    → (r : Observation) × Memᴰ r (first_of_each os) × (same_key r o ≡ true)
unfolding first_of_each
first_of_each_covers [] m = elim m [ ]
first_of_each_covers (x ∷ os) {o} (Memᴰ.head e) = (x, Memᴰ.head refl, rw e (same_key_self x))
first_of_each_covers (x ∷ os) {o} (Memᴰ.tail m) =
    let (r, mr, h) = first_of_each_covers os m in
    elim (Bool-cases (same_key x r)) [
      | inl same ↦ (x, Memᴰ.head refl, same_key_trans x r o same h)
      | inr other ↦ (
        r,
        Memᴰ.tail
            (mem_filter_of_mem (λ p. not (same_key x p)) (first_of_each os) mr (rw other refl)),
        h,
      )
    ]

mem-first_of_each :
    (os : List Observation) {r : Observation} → Memᴰ r (first_of_each os) → Memᴰ r os
unfolding first_of_each
mem-first_of_each [] m = elim m [ ]
mem-first_of_each (x ∷ os) (Memᴰ.head e) = Memᴰ.head e
mem-first_of_each (x ∷ os) (Memᴰ.tail m) =
    Memᴰ.tail (mem-first_of_each os (mem-filter (λ p. not (same_key x p)) (first_of_each os) m).0)

conflict_break-ne-nil : (group : List Observation) → conflict_break group ≢ some []
conflict_break-ne-nil [] h = cc
conflict_break-ne-nil (a ∷ []) h = cc
conflict_break-ne-nil (a ∷ b ∷ rest) h = ground arith

group_break-nil_iff :
    (group : List Observation) → (group_break group ≡ some []) ↔ (has_conflict group ≡ false)
unfolding group_break
group_break-nil_iff group = elim (Bool-cases (has_conflict group)) [
  | inl conflict ↦ (
    λ h. absurd (conflict_break-ne-nil (ordered_observations group) (rw conflict at h)),
    λ h. absurd (true_ne_false (sym conflict ∙ h)),
  )
  | inr same ↦ (λ h. same, λ h. rw same refl)
]

head_hash :
    (x : Observation) (xs : List Observation)
    → has_conflict (x ∷ xs) ≡ false
    → {o : Observation} → Memᴰ o (x ∷ xs)
    → o.content_hash ≡ x.content_hash
head_hash x xs h (Memᴰ.head e) = ap (λ (o : Observation). o.content_hash) e
head_hash x xs h {o} (Memᴰ.tail m) =
    let same = fails_of_any (λ (p : Observation). not (p.content_hash == x.content_hash)) h m in
    ground (arith, eq_iff o.content_hash x.content_hash)

same_hashes :
    (group : List Observation) (r : Observation)
    → has_conflict group ≡ false
    → Memᴰ r group
    → (o : Observation) → Memᴰ o group
    → r.content_hash ≡ o.content_hash
same_hashes [] r h m o n = elim m [ ]
same_hashes (x ∷ xs) r h m o n = head_hash x xs h m ∙ sym (head_hash x xs h n)

same_key_sym : (a b : Observation) → same_key a b ≡ true → same_key b a ≡ true
unfolding SameKey
same_key_sym a b h =
    let (x, y, z) = (same_key_iff a b).0 h in (same_key_iff b a).1 (sym x, sym y, sym z)

conflict_of_group :
    (group : List Observation)
    → ((a b : Observation) → Memᴰ a group → Memᴰ b group → a.content_hash ≡ b.content_hash)
    → has_conflict group ≡ false
conflict_of_group [] h = refl
conflict_of_group (x ∷ xs) h = elim (Bool-cases (has_conflict (x ∷ xs))) [
  | inr none_there ↦ none_there
  | inl there ↦
      let (o, m, e) =
        any_found (λ (p : Observation). not (p.content_hash == x.content_hash)) xs there in
      let same = h o x (Memᴰ.tail m) (Memᴰ.head refl) in
      ground (arith, eq_iff o.content_hash x.content_hash)
]

-- The groups have one content each exactly when observations of one key have one content.
pub groups_quiet_iff :
    (observations : List Observation)
    → ((r : Observation)
        → Memᴰ r (first_of_each observations)
        → has_conflict (group_of observations r) ≡ false)
      ↔ ((a b : Observation)
          → Memᴰ a observations
          → Memᴰ b observations
          → same_key a b ≡ true
          → a.content_hash ≡ b.content_hash)
groups_quiet_iff observations = (
  λ h a b ma mb same.
      let (r, mr, hr) = first_of_each_covers observations ma in
      same_hashes (group_of observations r) a (h r mr)
        (mem_filter_of_mem (same_key r) observations ma hr) b
        (mem_filter_of_mem (same_key r) observations mb (same_key_trans r a b hr same)),
  λ all r _. conflict_of_group (group_of observations r) (λ a b ma mb.
      let (na, ha) = mem-filter (same_key r) observations ma in
      let (nb, hb) = mem-filter (same_key r) observations mb in
      all a b na nb (same_key_trans a r b (same_key_sym r a ha) hb)),
)

-- No duplicate break is reported, and none is refused, exactly when any two observations of one
-- kind, business key and source version have the same content hash.
pub duplicate_breaks-nil_iff :
    (observations : List Observation)
    → (duplicate_breaks observations ≡ some []) ↔ (
        (a b : Observation)
        → Memᴰ a observations
        → Memᴰ b observations
        → same_key a b ≡ true
        → a.content_hash ≡ b.content_hash)
unfolding duplicate_breaks
duplicate_breaks-nil_iff observations =
    let body : Observation → Option (List Break) = λ o. group_break (group_of observations o) in
    let firsts = first_of_each observations in
    let (to, from) = collect-nil_iff body (sorted key_le firsts) in
    let (out, back) = groups_quiet_iff observations in
    (
      λ h. out (λ r mr.
          (group_break-nil_iff (group_of observations r)).0
            (to h r (mem_sorted_of_mem key_le firsts mr))),
      λ all. from (λ r m.
          (group_break-nil_iff (group_of observations r)).1
            (back all r (mem-sorted key_le firsts m))),
    )

eq_of_both : (a b : Bool) → (a ≡ true → b ≡ true) → (b ≡ true → a ≡ true) → a ≡ b
eq_of_both true b f g = sym (f refl)
eq_of_both false true f g = g refl
eq_of_both false false f g = refl

group_of_same :
    (observations : List Observation) (r a : Observation)
    → same_key r a ≡ true
    → group_of observations r ≡ group_of observations a
group_of_same observations r a h = filter_eq_of (same_key r) (same_key a) observations (λ x.
    eq_of_both (same_key r x) (same_key a x) (λ g. same_key_trans a r x (same_key_sym r a h) g)
      (λ g. same_key_trans r a x h g))

group_break_refused :
    (group : List Observation) {first second : Observation} {rest : List Observation}
    → has_conflict group ≡ true
    → ordered_observations group ≡ first ∷ second ∷ rest
    → first.content_hash ≡ second.content_hash
    → group_break group ≡ none
unfolding group_break
group_break_refused group {first} {second} conflict at equal =
    rw (conflict, at, (eq_iff first.content_hash second.content_hash).1 equal) refl

-- If two observations of one key have different hashes, and the first two of the group in the
-- engine's order have the same hash, then the engine raises instead of reporting the conflict.
pub duplicate_breaks_refused :
    (observations : List Observation) (a b first second : Observation) (rest : List Observation)
    → Memᴰ a observations
    → Memᴰ b observations
    → same_key a b ≡ true
    → a.content_hash ≢ b.content_hash
    → ordered_observations (group_of observations a) ≡ first ∷ second ∷ rest
    → first.content_hash ≡ second.content_hash
    → duplicate_breaks observations ≡ none
unfolding duplicate_breaks
duplicate_breaks_refused observations a b first second rest ma mb same differ at equal =
    let (r, mr, hr) = first_of_each_covers observations ma in
    let whole = group_of_same observations r a hr in
    let conflict : has_conflict (group_of observations a) ≡ true =
      elim (Bool-cases (has_conflict (group_of observations a))) [
        | inl there ↦ there
        | inr quiet ↦ absurd (
            differ (
              same_hashes (group_of observations a) a quiet
                (mem_filter_of_mem (same_key a) observations ma (same_key_self a)) b
                (mem_filter_of_mem (same_key a) observations mb same)))
      ] in
    collect-none (λ o. group_break (group_of observations o))
      (sorted key_le (first_of_each observations))
      (mem_sorted_of_mem key_le (first_of_each observations) mr)
      (rw whole (group_break_refused (group_of observations a) conflict at equal))
