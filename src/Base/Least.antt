-- ===== src/Base/Least.antt =====
-- The first item of a sorted list.
use mathlib.Core.Path.{◌≡◌, refl}
use mathlib.Core.Logic.{◌⊎◌, inl, inr}
use mathlib.Core.Bool.{Bool, true, false}
use mathlib.Core.Option.{Option, none, some}
use mathlib.Core.List.{List, [], ◌∷◌, Memᴰ}
use native.Mathlib.Omega.{arith}
use tradeops_sentinel.Base.Tests.{Bool-cases}
use tradeops_sentinel.Base.Order.{insert, sorted}

abbrev pub first {ℓ} : {A : Type ℓ} → List A → Option A
first [] = none
first (x ∷ xs) = some x

module _ {ℓ} {A : Type ℓ} (le : A → A → Bool) where
  pub mem-insert : (x : A) (ys : List A) {z : A} → Memᴰ z (insert le x ys) → (z ≡ x) ⊎ Memᴰ z ys
  unfolding insert
  mem-insert x [] (Memᴰ.head e) = inl e
  mem-insert x [] (Memᴰ.tail m) = inr m
  mem-insert x (y ∷ ys) {z} m = elim (Bool-cases (le x y)) [
    | inl before ↦ elim (rw before at m) [ Memᴰ.head e ↦ inl e | Memᴰ.tail n ↦ inr n ]
    | inr after ↦ elim (rw after at m) [
      | Memᴰ.head e ↦ inr (Memᴰ.head e)
      | Memᴰ.tail n ↦ elim (mem-insert x ys n) [ inl e ↦ inl e | inr n' ↦ inr (Memᴰ.tail n') ]
    ]
  ]

  pub mem-sorted : (xs : List A) {z : A} → Memᴰ z (sorted le xs) → Memᴰ z xs
  unfolding sorted
  mem-sorted [] m = m
  mem-sorted (x ∷ xs) m = elim (mem-insert x (sorted le xs) m) [
    | inl e ↦ Memᴰ.head e
    | inr n ↦ Memᴰ.tail (mem-sorted xs n)
  ]

  pub mem_insert_of_eq : (x : A) (ys : List A) → Memᴰ x (insert le x ys)
  unfolding insert
  mem_insert_of_eq x [] = Memᴰ.head refl
  mem_insert_of_eq x (y ∷ ys) = elim (Bool-cases (le x y)) [
    | inl before ↦ rw before (Memᴰ.head refl)
    | inr after ↦ rw after (Memᴰ.tail (mem_insert_of_eq x ys))
  ]

  pub mem_insert_of_mem : (x : A) (ys : List A) {z : A} → Memᴰ z ys → Memᴰ z (insert le x ys)
  unfolding insert
  mem_insert_of_mem x [] m = elim m [ ]
  mem_insert_of_mem x (y ∷ ys) m = elim (Bool-cases (le x y)) [
    | inl before ↦ rw before (Memᴰ.tail m)
    | inr after ↦
        rw after (elim m [
          | Memᴰ.head e ↦ Memᴰ.head e
          | Memᴰ.tail n ↦ Memᴰ.tail (mem_insert_of_mem x ys n)
        ])
  ]

  pub mem_sorted_of_mem : (xs : List A) {z : A} → Memᴰ z xs → Memᴰ z (sorted le xs)
  unfolding sorted
  mem_sorted_of_mem [] m = elim m [ ]
  mem_sorted_of_mem (x ∷ xs) (Memᴰ.head e) = rw e (mem_insert_of_eq x (sorted le xs))
  mem_sorted_of_mem (x ∷ xs) (Memᴰ.tail m) =
      mem_insert_of_mem x (sorted le xs) (mem_sorted_of_mem xs m)

  first-insert_before :
      (x y : A) (ys : List A) → first ys ≡ some y → le x y ≡ true → first (insert le x ys) ≡ some x
  unfolding insert
  first-insert_before x y [] at h = cc
  first-insert_before x y (z ∷ zs) at h = ground arith

  first-insert_after :
      (x y : A) (ys : List A) → first ys ≡ some y → le x y ≡ false → first (insert le x ys) ≡ some y
  unfolding insert
  first-insert_after x y [] at h = cc
  first-insert_after x y (z ∷ zs) at h = ground arith

  -- An item that precedes all.
  abbrev pub IsLeast : A → List A → Type ℓ
  IsLeast m xs = Memᴰ m xs × ((y : A) → Memᴰ y xs → le m y ≡ true)

  module _ (total : (a b : A) → (le a b ≡ true) ⊎ (le b a ≡ true))
      (trans : (a b c : A) → le a b ≡ true → le b c ≡ true → le a c ≡ true) where
    le_self : (a : A) → le a a ≡ true
    le_self a = elim (total a a) [ inl h ↦ h | inr h ↦ h ]

    IsLeast-cons :
        (x y : A) (xs : List A)
        → IsLeast y xs
        → ((le x y ≡ true) × IsLeast x (x ∷ xs)) ⊎ ((le x y ≡ false) × IsLeast y (x ∷ xs))
    IsLeast-cons x y xs (m, below) = elim (Bool-cases (le x y)) [
      | inl before ↦ inl (
        before,
        (
          Memᴰ.head refl,
          λ z n. elim n [
            | Memᴰ.head e ↦ rw e (le_self x)
            | Memᴰ.tail n' ↦ trans x y z before (below z n')
          ],
        ),
      )
      | inr after ↦ inr (
        after,
        (
          Memᴰ.tail m,
          λ z n. elim n [
            | Memᴰ.head e ↦ rw e (elim (total y x) [ inl h ↦ h | inr h ↦ cc ])
            | Memᴰ.tail n' ↦ below z n'
          ],
        ),
      )
    ]

    -- The first item of a sorted list that is not empty precedes all.
    pub first-sorted_cons :
        (x : A) (xs : List A) → (m : A) × (first (sorted le (x ∷ xs)) ≡ some m) × IsLeast m (x ∷ xs)
    unfolding sorted insert
    first-sorted_cons x [] = (
      x,
      refl,
      (
        Memᴰ.head refl,
        λ z n. elim n [ Memᴰ.head e ↦ rw e (le_self x) | Memᴰ.tail n' ↦ elim n' [ ] ],
      ),
    )
    first-sorted_cons x (w ∷ ws) =
        let (y, at, least) = first-sorted_cons w ws in
        elim (IsLeast-cons x y (w ∷ ws) least) [
          | inl (before, smallest) ↦
              (x, first-insert_before x y (sorted le (w ∷ ws)) at before, smallest)
          | inr (after, smallest) ↦
              (y, first-insert_after x y (sorted le (w ∷ ws)) at after, smallest)
        ]
