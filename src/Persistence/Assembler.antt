-- ===== src/Persistence/Assembler.antt =====
-- packages/persistence/assembler.py: which source each canonical field is taken from.
pub mod Order
pub mod Choice
mod Tests
pub mod Stability
use Prim.Native.String
use tradeops_sentinel.Base.{
  Bool, List, Option, String, [], any, false, filter, find, first, int_of, none, not, some, sorted,
  text_le, then_number, then_text, true, ◌&&◌, ◌==◌, ◌||◌, ◌∷◌,
}
use tradeops_sentinel.Contracts.{
  Observation, SemanticContent, SourceSystem, canonical_field_names, hash_matches, kind_name,
  system_name,
}
use tradeops_sentinel.Persistence.Tests.{digest}

-- What the assembler reads of a `SourceOfTruthFieldRule` and of the policy.
pub record FieldRule : Type 0 where
  pub field_path : String
  pub trusted_sources : List SourceSystem
  pub source_precedence : List SourceSystem

pub record SourceOfTruthPolicy : Type 0 where
  pub policy_version : String
  pub field_rules : List FieldRule

pub data AssemblyError : Type 0 where
  unsupported_version content_not_approved : AssemblyError
  no_observations observation_ids_not_unique cross_scope : AssemblyError
  hash_not_matching : String → AssemblyError
  no_rule no_source : String → AssemblyError

pub data Assembly (A : Type 0) : Type 0 where
  done : A → Assembly A
  failed : AssemblyError → Assembly A

infixl 5 ◌>>=◌ ◌>>◌
abbrev pub ◌>>=◌ : {A B : Type 0} (m : Assembly A) (k : A → Assembly B) → Assembly B
◌>>=◌ (failed e) k = failed e
◌>>=◌ (done value) k = k value

abbrev pub ◌>>◌ : {B : Type 0} (m : Assembly (Unit {0})) (after : Assembly B) → Assembly B
◌>>◌ m after = m >>= λ _. after

abbrev pub check : (holds : Bool) (e : AssemblyError) → Assembly (Unit {0})
check false e = failed e
check true _ = done tt

abbrev pub supported_policy_version : String
supported_policy_version = "1.0.0"

-- One component of a tuple in a comparison, and the components after it.
-- The `key` of `_locked_source_set`.
pub source_le : Observation → Observation → Bool
source_le a b = then_text (kind_name a.observation_kind) (kind_name b.observation_kind) (
    then_text (system_name a.source_system) (system_name b.source_system) (
      then_text a.source_business_key b.source_business_key (
        then_number (int_of a.source_version) (int_of b.source_version)
          (then_text a.observation_id b.observation_id (text_le a.content_hash b.content_hash)))))

-- The `key` of `_resolved_observation`: the highest version first.
pub candidate_le : Observation → Observation → Bool
candidate_le a b =
    then_number (int_of b.source_version) (int_of a.source_version)
      (then_text a.observation_id b.observation_id (text_le a.content_hash b.content_hash))

-- `len(ids) == len(set(ids))`
pub ids_unique : List Observation → Bool
ids_unique [] = true
ids_unique (o ∷ os) = not (any (λ p. p.observation_id == o.observation_id) os) && ids_unique os

abbrev pub in_scope_of : Observation → Observation → Bool
in_scope_of anchor o =
    (o.tenant_id == anchor.tenant_id)
    && (o.portfolio_id == anchor.portfolio_id)
    && (o.correlation_id == anchor.correlation_id)

unfoldable pub eligible_for_trade : String → Observation → Bool
eligible_for_trade trade_id o =
    (o.source_business_key == trade_id) || (o.payload.source_trade_id == trade_id)

abbrev pub from_system : SourceSystem → Observation → Bool
from_system s o = system_name o.source_system == system_name s

-- The loop over `rule.source_precedence`.
abbrev pub or_else : {A : Type 0} → Option A → Option A → Option A
or_else none later = later
or_else (some a) later = some a

pub pick : List SourceSystem → List Observation → Option Observation
unfolding candidate_le
pick [] eligible = none
pick (s ∷ ss) eligible =
    or_else (first (sorted candidate_le (filter (from_system s) eligible))) (pick ss eligible)

abbrev pub some_or_fail : {A : Type 0} → AssemblyError → Option A → Assembly A
some_or_fail e none = failed e
some_or_fail e (some a) = done a

abbrev pub path_of : String → String
path_of field_name = String.◌++◌ "/payload/" field_name

unfoldable pub resolved_observation :
    (field_name trade_id : String) → List Observation → SourceOfTruthPolicy → Assembly Observation
unfolding pick eligible_for_trade
resolved_observation field_name trade_id sources policy = do
  rule ←
      some_or_fail (no_rule (path_of field_name))
        (find (λ r. r.field_path == path_of field_name) policy.field_rules)
  some_or_fail (no_source (path_of field_name))
      (pick rule.source_precedence (filter (eligible_for_trade trade_id) sources))

-- The dict comprehension of `resolve_field_selection`, which ends at the first field that raises.
pub resolve_fields :
    List String
    → String
    → List Observation
    → SourceOfTruthPolicy
    → Assembly (List (String × Observation))
unfolding resolved_observation
resolve_fields [] trade_id sources policy = done []
resolve_fields (name ∷ names) trade_id sources policy = do
  chosen ← resolved_observation name trade_id sources policy
  rest ← resolve_fields names trade_id sources policy
  done ((name, chosen) ∷ rest)

-- The content hash of a policy, and the packaged policy, are arguments.
module _ (policy_digest : SourceOfTruthPolicy → String) (packaged : SourceOfTruthPolicy) where
  unfoldable pub validate_policy : SourceOfTruthPolicy → Assembly (Unit {0})
  validate_policy policy = do
    check (policy.policy_version == supported_policy_version) unsupported_version
    check (policy_digest policy == policy_digest packaged) content_not_approved

module _ (digest : SemanticContent → String) where
  -- The validation of the hashes, which raises at the first that differs.
  pub check_hashes : List Observation → Assembly (Unit {0})
  check_hashes [] = done tt
  check_hashes (o ∷ os) =
      check (hash_matches digest o) (hash_not_matching o.observation_id) >> check_hashes os

  unfoldable pub locked_source_set : List Observation → Assembly (List Observation)
  unfolding check_hashes ids_unique source_le
  locked_source_set [] = failed no_observations
  locked_source_set (o ∷ os) = do
    check_hashes (o ∷ os)
    check (ids_unique (o ∷ os)) observation_ids_not_unique
    check (not (any (λ p. not (in_scope_of o p)) os)) cross_scope
    done (sorted source_le (o ∷ os))

  unfoldable pub resolve_field_selection :
      (SourceOfTruthPolicy → String)
      → (packaged : SourceOfTruthPolicy) → String
      → List Observation
      → SourceOfTruthPolicy
      → Assembly (List (String × Observation))
  unfolding validate_policy locked_source_set resolve_fields
  resolve_field_selection policy_digest packaged trade_id observations policy = do
    validate_policy policy_digest packaged policy
    locked ← locked_source_set observations
    resolve_fields canonical_field_names trade_id locked policy
