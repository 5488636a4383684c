-- ===== src/Persistence/Identity.antt =====
-- packages/persistence/inbox.py: the identity of a source revision, and what may be raised.
use Prim.Native.String
use Prim.Native.Nat.{Ordering}
use tradeops_sentinel.Base.{Bool, String, arith, eq_iff, true, ◌&&◌, ◌==◌, ◌↔◌, ◌≡◌}
use tradeops_sentinel.Contracts.{
  Observation, ObservationKind, SourceSystem, kind_name, kind_name_inj, system_name,
  system_name_inj,
}

pub record IdentityKey : Type 0 where
  pub tenant_id : String
  pub portfolio_id : String
  pub source_system : SourceSystem
  pub observation_kind : ObservationKind
  pub source_business_key : String
  pub source_version : String

abbrev pub identity_key : Observation → IdentityKey
identity_key o = record {
  tenant_id = o.tenant_id;
  portfolio_id = o.portfolio_id;
  source_system = o.source_system;
  observation_kind = o.observation_kind;
  source_business_key = o.source_business_key;
  source_version = o.source_version;
}

-- `==` of two keys.
unfoldable pub identity_eq : IdentityKey → IdentityKey → Bool
identity_eq k l =
    (k.tenant_id == l.tenant_id)
    && (k.portfolio_id == l.portfolio_id)
    && (system_name k.source_system == system_name l.source_system)
    && (kind_name k.observation_kind == kind_name l.observation_kind)
    && (k.source_business_key == l.source_business_key)
    && (k.source_version == l.source_version)

pub identity_eq_iff : (k l : IdentityKey) → (identity_eq k l ≡ true) ↔ (k ≡ l)
unfolding identity_eq
identity_eq_iff k l = ground (
  arith,
  eq_iff k.tenant_id l.tenant_id,
  eq_iff k.portfolio_id l.portfolio_id,
  eq_iff (system_name k.source_system) (system_name l.source_system),
  system_name_inj k.source_system l.source_system,
  eq_iff (kind_name k.observation_kind) (kind_name l.observation_kind),
  kind_name_inj k.observation_kind l.observation_kind,
  eq_iff k.source_business_key l.source_business_key,
  eq_iff k.source_version l.source_version,
)

-- A `DuplicateSourceConflict`: the two identifiers in order.
pub record DuplicateSourceConflict : Type 0 where
  pub first_observation_id : String
  pub second_observation_id : String
  pub source_business_key : String
  pub source_version : String

-- `ObservationContentHashMismatchError`, `SourceConflictError`, and pydantic's error for a conflict
-- that names fewer than two observations.
pub data Fault : Type 0 where
  hash_mismatch : String → Fault
  source_conflict : DuplicateSourceConflict → Fault
  too_few_observation_ids : Fault

-- `sorted({a, b})`, and the exception built of it.
unfoldable pub conflict_of : (existing new : String) → IdentityKey → Fault
conflict_of existing new key = elim (String.compare existing new) [
  | Ordering.lt ↦ source_conflict (record {
    first_observation_id = existing;
    second_observation_id = new;
    source_business_key = key.source_business_key;
    source_version = key.source_version;
  })
  | Ordering.gt ↦ source_conflict (record {
    first_observation_id = new;
    second_observation_id = existing;
    source_business_key = key.source_business_key;
    source_version = key.source_version;
  })
  | Ordering.eq ↦ too_few_observation_ids
]
