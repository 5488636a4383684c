-- ===== src/Base/Lists.antt =====
-- List helpers over the native numbers: lengths, searches and the order of insertion.
use Prim.Native.Nat.{ℕ, suc, ◌+◌}
use mathlib.Core.Path.{◌≡◌, ap, ◌∙◌, refl, sym}
use mathlib.Core.Logic.{◌⊎◌, inl, inr}
use mathlib.Core.Bool.{Bool, true, false, ◌||◌}
use mathlib.Core.Option.{Option, none, some}
use mathlib.Core.List.{List, [], ◌∷◌, ◌++◌, Memᴰ, map}
use native.Mathlib.Omega.{arith}
use tradeops_sentinel.Base.Tests.{if◌then◌else◌, Bool-cases, true_ne_false}

module _ {ℓ} {A : Type ℓ} where
  abbrev pub length : List A → ℕ
  length [] = 0
  length (x ∷ xs) = suc (length xs)

  -- `next((x for x in xs if p(x)), None)`, and `fetchone` of a query.
  abbrev pub find : (A → Bool) → List A → Option A
  find p [] = none
  find p (x ∷ xs) = if p x then some x else find p xs

  -- `any(p(x) for x in xs)`
  abbrev pub any : (A → Bool) → List A → Bool
  any p [] = false
  any p (x ∷ xs) = p x || any p xs

  -- `[x for x in xs if p(x)]`, and `fetchall` of a query.
  abbrev pub filter : (A → Bool) → List A → List A
  filter p [] = []
  filter p (x ∷ xs) = let rest = filter p xs in if p x then x ∷ rest else rest

  abbrev pub count : (A → Bool) → List A → ℕ
  count p [] = 0
  count p (x ∷ xs) = let rest = count p xs in if p x then suc rest else rest

  -- Every item satisfies `P`.
  abbrev pub All {κ} : (A → Type κ) → List A → Type κ
  All P [] = Unit
  All P (x ∷ xs) = P x × All P xs

pub length-append {ℓ} : {A : Type ℓ} → (xs ys : List A) → length (xs ++ ys) ≡ length xs + length ys
length-append [] ys = omega arith
length-append (x ∷ xs) ys = let rest = length-append xs ys in omega (arith, rest)

-- What `any` found, and that it finds what is there.
pub any_found {ℓ} :
    {A : Type ℓ} (p : A → Bool) (xs : List A) → any p xs ≡ true → (x : A) × Memᴰ x xs × (p x ≡ true)
any_found p [] h = cc
any_found p (x ∷ xs) h = elim (Bool-cases (p x)) [
  | inl here ↦ (x, Memᴰ.head refl, here)
  | inr not_here ↦ let (y, m, e) = any_found p xs (ground arith) in (y, Memᴰ.tail m, e)
]

pub any_of_mem {ℓ} :
    {A : Type ℓ} (p : A → Bool) {x : A} {xs : List A} → Memᴰ x xs → p x ≡ true → any p xs ≡ true
any_of_mem p {x} (Memᴰ.head e) h = rw (← e, h)
any_of_mem p (Memᴰ.tail m) h = ground (arith, any_of_mem p m h)

module _ {ℓ} {A : Type ℓ} (p : A → Bool) where
  pub find-none_of_any : (xs : List A) → any p xs ≡ false → find p xs ≡ none
  find-none_of_any [] h = refl
  find-none_of_any (x ∷ xs) h = ground (arith, find-none_of_any xs)

  pub find-append_some : (xs ys : List A) {a : A} → find p xs ≡ some a → find p (xs ++ ys) ≡ some a
  find-append_some [] ys h = cc
  find-append_some (x ∷ xs) ys {a} h = ground (arith, find-append_some xs ys {a = a})

  pub find-append_none : (xs ys : List A) → find p xs ≡ none → find p (xs ++ ys) ≡ find p ys
  find-append_none [] ys h = refl
  find-append_none (x ∷ xs) ys h = ground (arith, find-append_none xs ys)

  pub any-append_left : (xs ys : List A) → any p xs ≡ true → any p (xs ++ ys) ≡ true
  any-append_left [] ys h = cc
  any-append_left (x ∷ xs) ys h = ground (arith, any-append_left xs ys)

  pub any-append_last : (xs : List A) (y : A) → p y ≡ true → any p (xs ++ y ∷ []) ≡ true
  any-append_last [] y h = ground arith
  any-append_last (x ∷ xs) y h = ground (arith, any-append_last xs y h)

  pub none-append_last :
      (xs : List A) (y : A) → any p xs ≡ false → p y ≡ false → any p (xs ++ y ∷ []) ≡ false
  none-append_last [] y h g = ground arith
  none-append_last (x ∷ xs) y h g = ground (arith, none-append_last xs y)

  pub any_of_find : (xs : List A) {a : A} → find p xs ≡ some a → any p xs ≡ true
  any_of_find [] h = cc
  any_of_find (x ∷ xs) {a} h = ground (arith, any_of_find xs {a = a})

  pub any_of_find-none : (xs : List A) → find p xs ≡ none → any p xs ≡ false
  any_of_find-none [] h = refl
  any_of_find-none (x ∷ xs) h = ground (arith, any_of_find-none xs)

  pub find_holds : (xs : List A) {a : A} → find p xs ≡ some a → p a ≡ true
  find_holds [] h = cc
  find_holds (x ∷ xs) {a} h = ground (arith, find_holds xs {a = a})

  pub find-filter :
      (q : A → Bool) (xs : List A)
      → ((x : A) → q x ≡ true → p x ≡ true)
      → find p (filter q xs) ≡ find q xs
  find-filter q [] h = refl
  find-filter q (x ∷ xs) h = ground (arith, h x, find-filter q xs h)

  pub find-filter-none :
      (q : A → Bool) (xs : List A)
      → ((x : A) → q x ≡ true → p x ≡ false)
      → find p (filter q xs) ≡ none
  find-filter-none q [] h = refl
  find-filter-none q (x ∷ xs) h = ground (arith, h x, find-filter-none q xs h)

  -- What was there before an insertion, or what was inserted.
  pub find-append_last :
      (xs : List A) (y : A) {a : A}
      → find p (xs ++ y ∷ []) ≡ some a
      → (find p xs ≡ some a) ⊎ ((find p xs ≡ none) × (p y ≡ true) × (a ≡ y))
  find-append_last [] y h = ground arith
  find-append_last (x ∷ xs) y {a} h = ground (arith, find-append_last xs y {a = a})

pub mem-append_last {ℓ} :
    {A : Type ℓ} (xs : List A) (y : A) {x : A} → Memᴰ x (xs ++ y ∷ []) → Memᴰ x xs ⊎ (x ≡ y)
mem-append_last [] y (Memᴰ.head e) = inr e
mem-append_last [] y (Memᴰ.tail m) = elim m [ ]
mem-append_last (z ∷ xs) y (Memᴰ.head e) = inl (Memᴰ.head e)
mem-append_last (z ∷ xs) y (Memᴰ.tail m) = elim (mem-append_last xs y m) [
  | inl old ↦ inl (Memᴰ.tail old)
  | inr new ↦ inr new
]

module _ {ℓ} {A : Type ℓ} (p : A → Bool) where
  pub mem-filter : (xs : List A) {x : A} → Memᴰ x (filter p xs) → Memᴰ x xs × (p x ≡ true)
  mem-filter [] m = elim m [ ]
  mem-filter (y ∷ ys) {x} m = elim (Bool-cases (p y)) [
    | inl holds ↦ elim (rw holds at m) [
      | Memᴰ.head e ↦ (Memᴰ.head e, rw e holds)
      | Memᴰ.tail n ↦ let (n', h) = mem-filter ys n in (Memᴰ.tail n', h)
    ]
    | inr fails ↦ let (n', h) = mem-filter ys (rw fails at m) in (Memᴰ.tail n', h)
  ]

  pub mem_filter_of_mem : (xs : List A) {x : A} → Memᴰ x xs → p x ≡ true → Memᴰ x (filter p xs)
  mem_filter_of_mem [] m h = elim m [ ]
  mem_filter_of_mem (y ∷ ys) {x} (Memᴰ.head e) h =
      let here : p y ≡ true = rw (← e) h in rw here (Memᴰ.head e)
  mem_filter_of_mem (y ∷ ys) {x} (Memᴰ.tail m) h = elim (Bool-cases (p y)) [
    | inl holds ↦ rw holds (Memᴰ.tail (mem_filter_of_mem ys m h))
    | inr fails ↦ rw fails (mem_filter_of_mem ys m h)
  ]

pub find_mem : {A : Type 0} (p : A → Bool) (xs : List A) {a : A} → find p xs ≡ some a → Memᴰ a xs
find_mem p [] h = cc
find_mem p (x ∷ xs) {a} h = elim (Bool-cases (p x)) [
  | inl here ↦ Memᴰ.head (ground arith)
  | inr not_here ↦ Memᴰ.tail (find_mem p xs (ground arith))
]

pub fails_of_any :
    {A : Type 0} (p : A → Bool) {x : A} {xs : List A} → any p xs ≡ false → Memᴰ x xs → p x ≡ false
fails_of_any p {x} h m = elim (Bool-cases (p x)) [
  | inl holds ↦ absurd (true_ne_false (sym (any_of_mem p m holds) ∙ h))
  | inr fails ↦ fails
]

pub both_empty : {A : Type 0} (xs ys : List A) → xs ++ ys ≡ [] → (xs ≡ []) × (ys ≡ [])
both_empty [] ys h = (refl, h)
both_empty (x ∷ xs) ys h = cc

pub filter_eq_of {ℓ} :
    {A : Type ℓ} (p q : A → Bool) (xs : List A) → ((x : A) → p x ≡ q x) → filter p xs ≡ filter q xs
filter_eq_of p q [] h = refl
filter_eq_of p q (x ∷ xs) h = ground (arith, h x, filter_eq_of p q xs h)

pub mem-append_left {ℓ} :
    {A : Type ℓ} {x : A} {xs : List A} (ys : List A) → Memᴰ x xs → Memᴰ x (xs ++ ys)
mem-append_left ys (Memᴰ.head e) = Memᴰ.head e
mem-append_left ys (Memᴰ.tail m) = Memᴰ.tail (mem-append_left ys m)

pub mem-map_of_mem {ℓ κ} :
    {A : Type ℓ} {B : Type κ} (f : A → B) {x : A} {xs : List A} → Memᴰ x xs → Memᴰ (f x) (map f xs)
mem-map_of_mem f (Memᴰ.head e) = Memᴰ.head (ap f e)
mem-map_of_mem f (Memᴰ.tail m) = Memᴰ.tail (mem-map_of_mem f m)

pub any_eq_of {ℓ} :
    {A : Type ℓ} (p q : A → Bool) (xs : List A) → ((x : A) → p x ≡ q x) → any p xs ≡ any q xs
any_eq_of p q [] h = refl
any_eq_of p q (x ∷ xs) h = rw (h x, any_eq_of p q xs h) refl

-- A test of a member depends on the members only.
pub any_eq_of_mem :
    {A : Type 0} (p : A → Bool) (xs ys : List A)
    → ((x : A) → Memᴰ x xs → Memᴰ x ys)
    → ((x : A) → Memᴰ x ys → Memᴰ x xs)
    → any p xs ≡ any p ys
any_eq_of_mem p xs ys f g = elim (Bool-cases (any p xs)) [
  | inl holds ↦ let (x, m, e) = any_found p xs holds in holds ∙ sym (any_of_mem p (f x m) e)
  | inr fails ↦ elim (Bool-cases (any p ys)) [
    | inl holds ↦
        let (x, m, e) = any_found p ys holds in
        absurd (true_ne_false (sym (any_of_mem p (g x m) e) ∙ fails))
    | inr fails' ↦ fails ∙ sym fails'
  ]
]

pub List-cases {ℓ} :
    {A : Type ℓ} (xs : List A) → (xs ≡ []) ⊎ ((y : A) × (ys : List A) × (xs ≡ y ∷ ys))
List-cases [] = inl refl
List-cases (y ∷ ys) = inr (y, ys, refl)
