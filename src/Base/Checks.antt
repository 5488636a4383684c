-- ===== src/Base/Checks.antt =====
-- A validator that raises at the first of its checks that fails.
use Prim.Native.Nat.{ℕ, zero, suc}
use mathlib.Core.Path.{◌≡◌, refl}
use mathlib.Core.Bool.{Bool, true, ◌&&◌}
use mathlib.Core.List.{List, [], ◌∷◌}
use tradeops_sentinel.Base.Tests.{both_true}

unfoldable pub all_pass : List Bool → Bool
all_pass [] = true
all_pass (check ∷ checks) = check && all_pass checks

-- The check at a place, counted from 0.
abbrev pub check_at : ℕ → List Bool → Bool
check_at n [] = true
check_at zero (c ∷ cs) = c
check_at (suc n) (c ∷ cs) = check_at n cs

pub check_at_passes :
    (n : ℕ) (checks : List Bool) → all_pass checks ≡ true → check_at n checks ≡ true
unfolding all_pass
check_at_passes n [] h = refl
check_at_passes zero (c ∷ cs) h = (both_true {a = c} {b = all_pass cs} h).0
check_at_passes (suc n) (c ∷ cs) h = check_at_passes n cs (both_true {a = c} {b = all_pass cs} h).1
