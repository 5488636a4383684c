-- ===== src/Base/Order.antt =====
-- Python's order of texts, `int` of a numeral, and its stable `sorted`.
use Prim.Native.Nat.{ℕ, ◌+◌, ◌*◌, ◌-◌}
use Prim.Native.Char.{code}
use Prim.Native.String.{String}
use mathlib.Core.Path.{◌≡◌, refl}
use mathlib.Core.Logic.{◌⊎◌, inl, inr}
use mathlib.Core.Bool.{Bool, true, false}
use mathlib.Core.List.{List, [], ◌∷◌}
use native.Mathlib.Omega.{arith}
use text.Mathlib.Text.{◌==◌}
use text.Mathlib.TextEquality.{Char-path}
use tradeops_sentinel.Base.Tests.{ltb, nat_eq, if◌then◌else◌}

-- `a <= b`, by code points.
unfoldable pub text_le : String → String → Bool
text_le String.[] b = true
text_le (String.◌∷◌ c s) String.[] = false
text_le (String.◌∷◌ c s) (String.◌∷◌ d t) =
    let rest = text_le s t in
    if ltb (code c) (code d) then true else if nat_eq (code c) (code d) then rest else false

pub text_le-total : (a b : String) → (text_le a b ≡ true) ⊎ (text_le b a ≡ true)
unfolding text_le
text_le-total String.[] b = inl refl
text_le-total (String.◌∷◌ c s) String.[] = inr refl
text_le-total (String.◌∷◌ c s) (String.◌∷◌ d t) = ground (arith, text_le-total s t)

pub text_le_trans : (a b c : String) → text_le a b ≡ true → text_le b c ≡ true → text_le a c ≡ true
unfolding text_le
text_le_trans String.[] b c f g = refl
text_le_trans (String.◌∷◌ x s) String.[] c f g = ground arith
text_le_trans (String.◌∷◌ x s) (String.◌∷◌ y t) String.[] f g = ground arith
text_le_trans (String.◌∷◌ x s) (String.◌∷◌ y t) (String.◌∷◌ z u) f g =
    ground (arith, text_le_trans s t u)

pub text_le-antisym : (a b : String) → text_le a b ≡ true → text_le b a ≡ true → a ≡ b
unfolding text_le
text_le-antisym String.[] String.[] f g = refl
text_le-antisym String.[] (String.◌∷◌ d t) f g = ground arith
text_le-antisym (String.◌∷◌ c s) String.[] f g = ground arith
text_le-antisym (String.◌∷◌ c s) (String.◌∷◌ d t) f g =
    ground (arith, text_le-antisym s t, Char-path c d)

-- The parts of a tuple, compared one after another.
abbrev pub then_text : String → String → Bool → Bool
then_text a b rest = if a == b then rest else text_le a b

abbrev pub then_number : ℕ → ℕ → Bool → Bool
then_number a b rest = if nat_eq a b then rest else ltb a b

-- `int(s)`, for a text of decimal digits.
int_from : ℕ → String → ℕ
int_from n String.[] = n
int_from n (String.◌∷◌ c s) = int_from (n * 10 + (code c - b'0')) s

unfoldable pub int_of : String → ℕ
unfolding int_from
int_of s = int_from 0 s

-- A sort by insertion, which keeps the order of equal items.
module _ {ℓ} {A : Type ℓ} (le : A → A → Bool) where
  unfoldable pub insert : A → List A → List A
  insert x [] = x ∷ []
  insert x (y ∷ ys) = let rest = insert x ys in if le x y then x ∷ y ∷ ys else y ∷ rest

  unfoldable pub sorted : List A → List A
  unfolding insert
  sorted [] = []
  sorted (x ∷ xs) = insert x (sorted xs)
