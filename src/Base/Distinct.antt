-- ===== src/Base/Distinct.antt =====
-- Lists of distinct identifiers.
use Prim.Native.String.{String}
use mathlib.Core.Path.{◌≡◌, ap, ◌∙◌, sym}
use mathlib.Core.Bool.{Bool, true, false, not, ◌&&◌}
use mathlib.Core.List.{List, [], ◌∷◌, Memᴰ, map}
use native.Mathlib.Omega.{arith}
use text.Mathlib.Text.{◌==◌}
use text.Mathlib.TextEquality.{eq_iff}
use tradeops_sentinel.Base.Tests.{true_ne_false}
use tradeops_sentinel.Base.Lists.{any, fails_of_any, mem-map_of_mem}

-- `len(xs) == len(set(xs))`
unfoldable pub ids_distinct : List String → Bool
ids_distinct [] = true
ids_distinct (i ∷ is) = not (any (λ j. j == i) is) && ids_distinct is

-- Items with distinct identifiers that have the same identifier are the same.
pub eq_of_ids_distinct :
    {A : Type 0} (id : A → String) (xs : List A) {a b : A}
    → ids_distinct (map id xs) ≡ true
    → Memᴰ a xs
    → Memᴰ b xs
    → id a ≡ id b
    → a ≡ b
unfolding ids_distinct
eq_of_ids_distinct id [] d m n e = elim m [ ]
eq_of_ids_distinct id (x ∷ xs) d (Memᴰ.head h) (Memᴰ.head g) e = h ∙ sym g
eq_of_ids_distinct id (x ∷ xs) {a} {b} d (Memᴰ.head h) (Memᴰ.tail n) e =
    let same : id b ≡ id x = sym e ∙ ap id h in
    let fails : any (λ j. j == id x) (map id xs) ≡ false = ground (arith, d) in
    let clash = fails_of_any (λ j. j == id x) fails (mem-map_of_mem id n) in
    absurd (true_ne_false (sym ((eq_iff (id b) (id x)).1 same) ∙ clash))
eq_of_ids_distinct id (x ∷ xs) {a} {b} d (Memᴰ.tail m) (Memᴰ.head g) e =
    let same : id a ≡ id x = e ∙ ap id g in
    let fails : any (λ j. j == id x) (map id xs) ≡ false = ground (arith, d) in
    let clash = fails_of_any (λ j. j == id x) fails (mem-map_of_mem id m) in
    absurd (true_ne_false (sym ((eq_iff (id a) (id x)).1 same) ∙ clash))
eq_of_ids_distinct id (x ∷ xs) d (Memᴰ.tail m) (Memᴰ.tail n) e =
    eq_of_ids_distinct id xs (ground (arith, d)) m n e
