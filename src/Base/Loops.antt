-- ===== src/Base/Loops.antt =====
-- Loops over a list whose body may raise, with none.
use mathlib.Core.Path.{◌≡◌, refl, ap, ◌∙◌}
use mathlib.Core.Logic.{◌↔◌}
use mathlib.Core.Bool.{Bool}
use mathlib.Core.Option.{Option, none, some, some-injective}
use mathlib.Core.List.{List, [], ◌∷◌, ◌++◌, Memᴰ}
use native.Mathlib.Omega.{arith}
use tradeops_sentinel.Base.Tests.{if◌then◌else◌, and_then, map_some}
use tradeops_sentinel.Base.Lists.{find, both_empty}

-- A loop that stops at the first item with the test, which may raise.
abbrev pub first_or_raise {ℓ} : {A : Type ℓ} → (A → Option Bool) → List A → Option (Option A)
first_or_raise test [] = some none
first_or_raise test (x ∷ xs) =
    let rest = first_or_raise test xs in
    and_then (test x) (λ holds. if holds then some (some x) else rest)

-- A loop that collects the results of a body that may raise.
abbrev pub collect {ℓ κ} :
    {A : Type ℓ} {B : Type κ} → (A → Option (List B)) → List A → Option (List B)
collect body [] = some []
collect body (x ∷ xs) =
    let rest = collect body xs in and_then (body x) (λ bs. map_some (λ cs. bs ++ cs) rest)

find_step :
    {A : Type 0} (p : A → Bool) (x : A) (xs : List A)
    → (if p x then some (some x) else some (find p xs)) ≡ some (find p (x ∷ xs))
find_step p x xs = ground arith

-- When no test raises, the loop is a search.
pub first_or_raise-find :
    {A : Type 0} (test : A → Option Bool) (p : A → Bool) (xs : List A)
    → ((x : A) → Memᴰ x xs → test x ≡ some (p x))
    → first_or_raise test xs ≡ some (find p xs)
first_or_raise-find test p [] h = refl
first_or_raise-find test p (x ∷ xs) h =
    let rest = first_or_raise-find test p xs (λ y m. h y (Memᴰ.tail m)) in
    rw (h x (Memᴰ.head refl), rest) (find_step p x xs)

and_then-none :
    {B : Type 0} (here : Option (List B))
    → and_then here (λ bs. map_some (λ cs. bs ++ cs) none) ≡ none
and_then-none none = refl
and_then-none (some bs) = refl

collected_nil :
    {B : Type 0} (here rest : Option (List B))
    → and_then here (λ bs. map_some (λ cs. bs ++ cs) rest) ≡ some []
    → (here ≡ some []) × (rest ≡ some [])
collected_nil none rest h = cc
collected_nil (some bs) none h = cc
collected_nil (some bs) (some cs) h =
    let (e, f) = both_empty bs cs (some-injective _ _ h) in (ap some e, ap some f)

pub collect-nil_iff :
    {A B : Type 0} (body : A → Option (List B)) (xs : List A)
    → (collect body xs ≡ some []) ↔ ((x : A) → Memᴰ x xs → body x ≡ some [])
collect-nil_iff body [] = (λ _ x m. elim m [ ], λ _. refl)
collect-nil_iff body (x ∷ xs) =
    let (to, from) = collect-nil_iff body xs in
    (
      λ h y m.
          let (here, there) = collected_nil (body x) (collect body xs) h in
          elim m [ Memᴰ.head e ↦ rw e here | Memᴰ.tail n ↦ to there y n ],
      λ all. rw (all x (Memᴰ.head refl), from (λ y m. all y (Memᴰ.tail m))) refl,
    )

-- One body that raises ends the loop.
pub collect-none :
    {A B : Type 0} (body : A → Option (List B)) (xs : List A) {x : A}
    → Memᴰ x xs
    → body x ≡ none
    → collect body xs ≡ none
collect-none body [] m h = elim m [ ]
collect-none body (y ∷ ys) (Memᴰ.head e) h = rw (← e, h) refl
collect-none body (y ∷ ys) (Memᴰ.tail m) h = rw (collect-none body ys m h) (and_then-none (body y))

-- Detectors report nothing, and raise nothing, if the first one does, and the rest.
abbrev pub Quiet : {B : Type 0} → List (Option (List B)) → Type 0
Quiet {B} ds = collect (λ (d : Option (List B)). d) ds ≡ some []

pub Quiet-cons :
    {B : Type 0} (d : Option (List B)) (ds : List (Option (List B))) {P Q : Type 0}
    → (d ≡ some []) ↔ P
    → Quiet ds ↔ Q
    → Quiet (d ∷ ds) ↔ (P × Q)
Quiet-cons {B} d ds (p, p') (q, q') =
    let (out, back) = collect-nil_iff (λ (x : Option (List B)). x) (d ∷ ds) in
    let (out', back') = collect-nil_iff (λ (x : Option (List B)). x) ds in
    (
      λ h.
          let each = out h in
          (p (each d (Memᴰ.head refl)), q (back' (λ x m. each x (Memᴰ.tail m)))),
      λ (a, b). back (λ x m. elim m [ Memᴰ.head e ↦ e ∙ p' a | Memᴰ.tail n ↦ out' (q' b) x n ]),
    )

pub Quiet-nil : {B : Type 0} → Quiet {B = B} [] ↔ Unit {0}
Quiet-nil = (λ h. tt, λ h. refl)

pub first_or_raise_eq_of :
    {A : Type 0} (test test' : A → Option Bool) (xs : List A)
    → ((x : A) → Memᴰ x xs → test x ≡ test' x)
    → first_or_raise test xs ≡ first_or_raise test' xs
first_or_raise_eq_of test test' [] h = refl
first_or_raise_eq_of test test' (x ∷ xs) h =
    rw (h x (Memᴰ.head refl), first_or_raise_eq_of test test' xs (λ y m. h y (Memᴰ.tail m))) refl
