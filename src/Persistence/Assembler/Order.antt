-- ===== src/Persistence/Assembler/Order.antt =====
-- The key of `_resolved_observation` orders the candidates.
use tradeops_sentinel.Base.{
  Bool, String, arith, eq_iff, int_of, text_le, text_le-antisym, text_le-total, text_le_trans,
  then_number, then_text, true, ℕ, ◌≡◌, ◌≤◌, ◌⊎◌,
}
use tradeops_sentinel.Contracts.{Observation}
use tradeops_sentinel.Persistence.Assembler.{candidate_le}

-- One more component in front of an order keeps it total, transitive and antisymmetric.
then_text-total :
    (a b : String) (r r' : Bool)
    → (r ≡ true) ⊎ (r' ≡ true)
    → (then_text a b r ≡ true) ⊎ (then_text b a r' ≡ true)
then_text-total a b r r' h = ground (arith, eq_iff a b, eq_iff b a, text_le-total a b)

then_text_trans :
    (a b c : String) (r r' r'' : Bool)
    → (r ≡ true → r' ≡ true → r'' ≡ true)
    → then_text a b r ≡ true
    → then_text b c r' ≡ true
    → then_text a c r'' ≡ true
then_text_trans a b c r r' r'' h f g =
    ground (arith, eq_iff a b, eq_iff b c, eq_iff a c, text_le_trans a b c, text_le-antisym a b)

then_text-antisym :
    (a b : String) (r r' : Bool) → then_text a b r ≡ true → then_text b a r' ≡ true → a ≡ b
then_text-antisym a b r r' f g = ground (arith, eq_iff a b, eq_iff b a, text_le-antisym a b)

then_number-total :
    (a b : ℕ) (r r' : Bool)
    → (r ≡ true) ⊎ (r' ≡ true)
    → (then_number a b r ≡ true) ⊎ (then_number b a r' ≡ true)
then_number-total a b r r' h = ground arith

then_number_trans :
    (a b c : ℕ) (r r' r'' : Bool)
    → (r ≡ true → r' ≡ true → r'' ≡ true)
    → then_number a b r ≡ true
    → then_number b c r' ≡ true
    → then_number a c r'' ≡ true
then_number_trans a b c r r' r'' h f g = ground arith

then_number_rest :
    (a b : ℕ) (r r' : Bool)
    → then_number a b r ≡ true
    → then_number b a r' ≡ true
    → (r ≡ true) × (r' ≡ true)
then_number_rest a b r r' f g = ground arith

pub candidate_le-total : (a b : Observation) → (candidate_le a b ≡ true) ⊎ (candidate_le b a ≡ true)
unfolding candidate_le
candidate_le-total a b =
    then_number-total (int_of b.source_version) (int_of a.source_version)
      (then_text a.observation_id b.observation_id (text_le a.content_hash b.content_hash))
      (then_text b.observation_id a.observation_id (text_le b.content_hash a.content_hash))
      (then_text-total a.observation_id b.observation_id (text_le a.content_hash b.content_hash)
        (text_le b.content_hash a.content_hash) (text_le-total a.content_hash b.content_hash))

pub candidate_le_trans :
    (a b c : Observation)
    → candidate_le a b ≡ true
    → candidate_le b c ≡ true
    → candidate_le a c ≡ true
unfolding candidate_le
candidate_le_trans a b c f g =
    let hash = λ (x y : Observation). text_le x.content_hash y.content_hash in
    let id = λ (x y : Observation). then_text x.observation_id y.observation_id (hash x y) in
    then_number_trans (int_of c.source_version) (int_of b.source_version) (int_of a.source_version)
      (id b c) (id a b) (id a c)
      (λ q p.
        then_text_trans a.observation_id b.observation_id c.observation_id (hash a b) (hash b c)
          (hash a c) (text_le_trans a.content_hash b.content_hash c.content_hash) p q)
      g f

-- Two candidates that precede each other have one identifier.
pub candidate_le-antisym :
    (a b : Observation)
    → candidate_le a b ≡ true
    → candidate_le b a ≡ true
    → a.observation_id ≡ b.observation_id
unfolding candidate_le
candidate_le-antisym a b f g =
    let hash = λ (x y : Observation). text_le x.content_hash y.content_hash in
    let id = λ (x y : Observation). then_text x.observation_id y.observation_id (hash x y) in
    let (p, q) =
      then_number_rest (int_of b.source_version) (int_of a.source_version) (id a b) (id b a) f g in
    then_text-antisym a.observation_id b.observation_id (hash a b) (hash b a) p q

-- The first candidate has the highest version.
pub candidate_le-version :
    (a b : Observation)
    → candidate_le a b ≡ true
    → int_of b.source_version ≤ int_of a.source_version
unfolding candidate_le
candidate_le-version a b h =
    then_number_le (int_of b.source_version) (int_of a.source_version)
      (then_text a.observation_id b.observation_id (text_le a.content_hash b.content_hash)) h
  where
    then_number_le : (m n : ℕ) (r : Bool) → then_number m n r ≡ true → m ≤ n
    then_number_le m n r k = ground arith
