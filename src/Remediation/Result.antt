-- ===== src/Remediation/Result.antt =====
-- The exceptions of the remediation slice, as values.
-- `status` is the HTTP status of an `HTTPException`, `validation_error` pydantic's,
-- `unique_violation` and `foreign_key_violation` are the database's.
use tradeops_sentinel.Base.{Bool, false, inl, inr, refl, true, ℕ, ◌≡◌, ◌⊎◌}
use tradeops_sentinel.Remediation.Models.{Detail}

pub data Error : Type 0 where
  signing_unavailable : Error
  tampered : Detail → Error
  expired : ℕ → Error
  approvals_incomplete : Error
  same_identity : Detail → Error
  duplicate_approval_role validation_error unique_violation foreign_key_violation : Error
  assertion_failed unknown_case verification_failed break_not_found case_not_eligible : Error
  index_error type_error : Error
  status : ℕ → Error

pub data Result (A : Type 0) : Type 0 where
  ok : A → Result A
  err : Error → Result A

-- Goes on if the test holds, and raises if not.
abbrev pub guard : (holds : Bool) (otherwise : Error) → Result (Unit {0})
guard false otherwise = err otherwise
guard true _ = ok tt

pub Result-cases :
    {A : Type 0} (r : Result A) → ((a : A) × (r ≡ ok a)) ⊎ ((e : Error) × (r ≡ err e))
Result-cases (ok a) = inl (a, refl)
Result-cases (err e) = inr (e, refl)

infixl 5 ◌>>=◌ ◌>>◌
abbrev pub ◌>>=◌ : {A B : Type 0} (m : Result A) (k : A → Result B) → Result B
◌>>=◌ (err raised) k = err raised
◌>>=◌ (ok value) k = k value

abbrev pub ◌>>◌ : {B : Type 0} (m : Result (Unit {0})) (next : Result B) → Result B
◌>>◌ m next = m >>= λ _. next

-- Whatever is raised satisfies `P`, with a rule for each way to build a block.
abbrev pub Faults : {A : Type 0} → (Error → Type 0) → Result A → Type 0
Faults P (ok _) = Unit
Faults P (err e) = P e

pub Faults-bind :
    {A B : Type 0} (P : Error → Type 0) (m : Result A) (f : A → Result B)
    → Faults P m
    → ((a : A) → Faults P (f a))
    → Faults P (m >>= f)
Faults-bind P (ok a) f hm hf = hf a
Faults-bind P (err e) f hm hf = hm

pub Faults-guard : (P : Error → Type 0) (b : Bool) (e : Error) → P e → Faults P (guard b e)
Faults-guard P true e h = tt
Faults-guard P false e h = h
