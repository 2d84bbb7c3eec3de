-- ===== src/Contracts.antt =====
-- gen/meshyantsv1/contracts.pb.go: the messages on the blackboard, with their fields in order. A Go
-- string is its bytes. A timestamp is an instant, counted in nanoseconds from year 1, where both
-- Go's and protobuf's calendars begin; `none` is a nil pointer. A float64 is its 64 bits.
use meshyants.Base.{ℕ, Bytes, Map, Option, List}

abbrev pub Instant : Type 0
Instant = ℕ

-- An enum of proto3 is open: any other number may arrive.
pub data RuntimeTier : Type 0 where
  tier_unspecified tier_relay tier_executor_basic tier_executor_wasm : RuntimeTier
  tier_other : ℕ → RuntimeTier

pub data PheromoneKind : Type 0 where
  kind_unspecified kind_safe kind_todo kind_insight kind_danger : PheromoneKind
  kind_other : ℕ → PheromoneKind

pub record JoinGrant : Type 0 where
  pub schema_version : ℕ
  pub grant_id : Bytes
  pub trust_domain : Bytes
  pub issuer : Bytes
  pub expires_at : Option Instant
  pub signature : Bytes

pub record ProvisioningManifest : Type 0 where
  pub schema_version : ℕ
  pub device_id : Bytes
  pub trust_domain : Bytes
  pub runtime_tier : RuntimeTier
  pub issuer : Bytes
  pub build_policy : Bytes
  pub expires_at : Option Instant
  pub signature : Bytes

pub record ResourceHints : Type 0 where
  pub memory_bytes : ℕ
  pub cpu_millicores : ℕ

pub record CapabilityAdvertisement : Type 0 where
  pub schema_version : ℕ
  pub device_id : Bytes
  pub trust_domain : Bytes
  pub runtime_tier : RuntimeTier
  pub resources : Option ResourceHints
  pub accelerators : List Bytes
  pub queue_depth : ℕ
  pub transport_profile : Bytes
  pub valid_until : Option Instant
  pub signature : Bytes

pub record TaskAtom : Type 0 where
  pub schema_version : ℕ
  pub task_id : Bytes
  pub idempotency_key : Bytes
  pub issuer : Bytes
  pub trust_domain : Bytes
  pub causal_parents : List Bytes
  pub requirements_json : Bytes
  pub payload : Bytes
  pub expires_at : Option Instant
  pub content_ref : Bytes
  pub signature : Bytes

pub record PheromoneRecord : Type 0 where
  pub schema_version : ℕ
  pub record_id : Bytes
  pub kind : PheromoneKind
  pub subject : Bytes
  pub strength : ℕ
  pub decay_policy : Option (Bytes × ℕ)
  pub issuer : Bytes
  pub trust_domain : Bytes
  pub causal_parents : List Bytes
  pub issued_at : Option Instant
  pub signature : Bytes

pub record QuarantineNotice : Type 0 where
  pub schema_version : ℕ
  pub subject_device : Bytes
  pub trust_domain : Bytes
  pub reason : Bytes
  pub scope : Bytes
  pub duration : ℕ
  pub issuer : Bytes
  pub issued_at : Option Instant
  pub signature : Bytes

pub record UpdateManifest : Type 0 where
  pub schema_version : ℕ
  pub release_id : Bytes
  pub trust_domain : Bytes
  pub targets : List Bytes
  pub compat_window : Bytes
  pub hashes : Map Bytes Bytes
  pub rollback_target : Bytes
  pub issuer : Bytes
  pub valid_until : Option Instant
  pub signature : Bytes
