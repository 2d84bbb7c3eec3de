-- ===== src/Validate.antt =====
-- internal/validate/validate.go: which messages are well formed. `error` is a `Result` whose value
-- says nothing; `time.Now()` is an argument, and so is the wire size of a task, which protobuf's
-- `Marshal` determines (`none` where it fails).
pub mod Exact
mod Tests
use meshyants.Base.{
  ℕ, String, Bytes, Result, ok, err, ◌>>=◌, ◌>>◌, refuse_if, ltb, Bool, true, false, not, ◌&&◌,
  ◌||◌, is_empty, Option, none, some, [], if◌then◌else◌,
}
use meshyants.Contracts.{
  Instant, RuntimeTier, tier_unspecified, PheromoneKind, kind_unspecified, JoinGrant,
  ProvisioningManifest, TaskAtom, PheromoneRecord, UpdateManifest, CapabilityAdvertisement,
}

-- The texts behind ErrValidation; `over_budget` carries the wire size.
pub data Invalid : Type 0 where
  nil_message schema_version body_required marshal_failed : Invalid
  missing : String → Invalid
  required : String → Invalid
  in_the_past : String → Invalid
  unspecified : String → Invalid
  over_budget : ℕ → Invalid

abbrev pub min_schema_version : ℕ
min_schema_version = 1

abbrev pub dtn_max_task_atom_wire_bytes : ℕ
dtn_max_task_atom_wire_bytes = 2048

abbrev pub Checked : Type 0
Checked = Result Invalid (Unit {0})

unfoldable pub non_empty : Bytes → String → Checked
non_empty s name = refuse_if (is_empty s) (missing name)

abbrev pub is_nil {ℓ} : {A : Type ℓ} → Option A → Bool
is_nil none = true
is_nil (some _) = false

-- t.AsTime().Before(now); the callers have refused a nil timestamp.
abbrev pub before : Option Instant → Instant → Bool
before none now = false
before (some t) now = ltb t now

abbrev pub is_unspecified_tier : RuntimeTier → Bool
is_unspecified_tier tier_unspecified = true
is_unspecified_tier _ = false

abbrev pub is_unspecified_kind : PheromoneKind → Bool
is_unspecified_kind kind_unspecified = true
is_unspecified_kind _ = false

unfoldable pub join_grant : Instant → Option JoinGrant → Checked
unfolding non_empty
join_grant now none = err nil_message
join_grant now (some g) = do
  refuse_if (ltb g.schema_version min_schema_version) schema_version
  non_empty g.grant_id "grant_id"
  non_empty g.trust_domain "trust_domain"
  non_empty g.issuer "issuer"
  refuse_if (is_nil g.expires_at) (required "expires_at")
  refuse_if (before g.expires_at now) (in_the_past "expires_at")
  refuse_if (is_empty g.signature) (required "signature")

unfoldable pub provisioning_manifest : Option ProvisioningManifest → Checked
unfolding non_empty
provisioning_manifest none = err nil_message
provisioning_manifest (some m) = do
  refuse_if (ltb m.schema_version min_schema_version) schema_version
  non_empty m.device_id "device_id"
  non_empty m.trust_domain "trust_domain"
  refuse_if (is_unspecified_tier m.runtime_tier) (unspecified "runtime_tier")
  non_empty m.issuer "issuer"
  refuse_if (is_nil m.expires_at) (required "expires_at")
  refuse_if (is_empty m.signature) (required "signature")

-- The last test of `TaskAtom`, on the wire size of the clone without a signature.
unfoldable pub within_budget : Option ℕ → Checked
within_budget none = err marshal_failed
within_budget (some size) = refuse_if (ltb dtn_max_task_atom_wire_bytes size) (over_budget size)

unfoldable pub task_atom : (TaskAtom → Option ℕ) → Option TaskAtom → Bool → Checked
unfolding non_empty within_budget
task_atom wire_size none dtn = err nil_message
task_atom wire_size (some t) dtn = do
  refuse_if (ltb t.schema_version min_schema_version) schema_version
  non_empty t.task_id "task_id"
  non_empty t.idempotency_key "idempotency_key"
  non_empty t.issuer "issuer"
  non_empty t.trust_domain "trust_domain"
  refuse_if (is_empty t.causal_parents) (required "causal_parents")
  refuse_if (is_nil t.expires_at) (required "expires_at")
  refuse_if (is_empty t.signature) (required "signature")
  refuse_if (not (not (is_empty t.payload) || not (is_empty t.content_ref))) body_required
  if dtn then within_budget (wire_size (record t { signature = [] })) else ok tt

unfoldable pub pheromone_record : Option PheromoneRecord → Checked
unfolding non_empty
pheromone_record none = err nil_message
pheromone_record (some p) = do
  refuse_if (ltb p.schema_version min_schema_version) schema_version
  non_empty p.record_id "record_id"
  refuse_if (is_unspecified_kind p.kind) (unspecified "kind")
  non_empty p.subject "subject"
  non_empty p.issuer "issuer"
  non_empty p.trust_domain "trust_domain"
  refuse_if (is_nil p.issued_at) (required "issued_at")
  refuse_if (is_empty p.signature) (required "signature")

unfoldable pub update_manifest : Instant → Option UpdateManifest → Checked
unfolding non_empty
update_manifest now none = err nil_message
update_manifest now (some u) = do
  refuse_if (ltb u.schema_version min_schema_version) schema_version
  non_empty u.release_id "release_id"
  non_empty u.trust_domain "trust_domain"
  refuse_if (is_empty u.targets) (required "targets")
  non_empty u.compat_window "compat_window"
  refuse_if (is_empty u.hashes) (required "hashes")
  non_empty u.issuer "issuer"
  refuse_if (is_nil u.valid_until) (required "valid_until")
  refuse_if (before u.valid_until now) (in_the_past "valid_until")
  refuse_if (is_empty u.signature) (required "signature")

unfoldable pub capability_advertisement : Option CapabilityAdvertisement → Checked
unfolding non_empty
capability_advertisement none = err nil_message
capability_advertisement (some c) = do
  refuse_if (ltb c.schema_version min_schema_version) schema_version
  non_empty c.device_id "device_id"
  non_empty c.trust_domain "trust_domain"
  refuse_if (is_unspecified_tier c.runtime_tier) (unspecified "runtime_tier")
  non_empty c.transport_profile "transport_profile"
  refuse_if (is_nil c.valid_until) (required "valid_until")
  refuse_if (is_empty c.signature) (required "signature")
