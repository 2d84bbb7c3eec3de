-- ===== src/Validate/Exact.antt =====
-- internal/validate/validate.go accepts exactly the messages that have what the contract asks for.
use meshyants.Base.{
  ℕ, ◌≤◌, ◌≡◌, ◌≢◌, ◌⊎◌, ◌↔◌, ok, true, false, Option, none, some, [], is_empty_iff, arith,
}
use meshyants.Contracts.{
  Instant, tier_unspecified, kind_unspecified, JoinGrant, ProvisioningManifest, TaskAtom,
  PheromoneRecord, UpdateManifest, CapabilityAdvertisement,
}
use meshyants.Validate.{
  join_grant, provisioning_manifest, task_atom, pheromone_record, update_manifest,
  capability_advertisement,
}

-- A present timestamp that is not before `now`.
abbrev pub Lasts : Instant → Option Instant → Type 0
Lasts now o = (t : Instant) × (o ≡ some t) × (now ≤ t)

pub record IsJoinGrant (now : Instant) (g : JoinGrant) : Type 0 where
  pub versioned : 1 ≤ g.schema_version
  pub named : g.grant_id ≢ []
  pub in_domain : g.trust_domain ≢ []
  pub issued : g.issuer ≢ []
  pub lasting : Lasts now g.expires_at
  pub signed : g.signature ≢ []

-- At time `now` a JoinGrant is accepted exactly if it has a schema version, an ID, a trust domain, an
-- issuer, a signature and an expiry that is not in the past.
pub join_grant_iff :
    (now : Instant) (g : JoinGrant) → (join_grant now (some g) ≡ ok tt) ↔ IsJoinGrant now g
unfolding join_grant
join_grant_iff now g = ground arith

pub record IsProvisioningManifest (m : ProvisioningManifest) : Type 0 where
  pub versioned : 1 ≤ m.schema_version
  pub for_device : m.device_id ≢ []
  pub in_domain : m.trust_domain ≢ []
  pub tiered : m.runtime_tier ≢ tier_unspecified
  pub issued : m.issuer ≢ []
  pub expiring : m.expires_at ≢ none
  pub signed : m.signature ≢ []

-- A ProvisioningManifest is accepted exactly if it has a schema version, a device, a trust domain, a
-- runtime tier, an issuer, an expiry and a signature.
pub provisioning_manifest_iff :
    (m : ProvisioningManifest) → (provisioning_manifest (some m) ≡ ok tt) ↔ IsProvisioningManifest m
unfolding provisioning_manifest
provisioning_manifest_iff m = ground arith

pub record IsTaskAtom (t : TaskAtom) : Type 0 where
  pub versioned : 1 ≤ t.schema_version
  pub named : t.task_id ≢ []
  pub keyed : t.idempotency_key ≢ []
  pub issued : t.issuer ≢ []
  pub in_domain : t.trust_domain ≢ []
  pub caused : t.causal_parents ≢ []
  pub expiring : t.expires_at ≢ none
  pub signed : t.signature ≢ []
  pub with_body : (t.payload ≢ []) ⊎ (t.content_ref ≢ [])

-- The task without its signature takes at most 2048 bytes on the wire.
abbrev pub FitsBudget : (TaskAtom → Option ℕ) → TaskAtom → Type 0
FitsBudget wire_size t = (n : ℕ) × (wire_size (record t { signature = [] }) ≡ some n) × (n ≤ 2048)

-- On the fast lane a TaskAtom is accepted exactly if it has all its fields and a payload or a content
-- reference; on the delay-tolerant lane exactly if it also fits 2048 bytes without its signature.
pub task_atom_iff :
    (wire_size : TaskAtom → Option ℕ) (t : TaskAtom)
    → ((task_atom wire_size (some t) false ≡ ok tt) ↔ IsTaskAtom t)
      × ((task_atom wire_size (some t) true ≡ ok tt) ↔ (IsTaskAtom t × FitsBudget wire_size t))
unfolding task_atom
task_atom_iff wire_size t = (ground arith, ground arith)

pub record IsPheromoneRecord (p : PheromoneRecord) : Type 0 where
  pub versioned : 1 ≤ p.schema_version
  pub named : p.record_id ≢ []
  pub of_kind : p.kind ≢ kind_unspecified
  pub about : p.subject ≢ []
  pub issued : p.issuer ≢ []
  pub in_domain : p.trust_domain ≢ []
  pub dated : p.issued_at ≢ none
  pub signed : p.signature ≢ []

-- A PheromoneRecord is accepted exactly if it has a schema version, an ID, a kind, a subject, an
-- issuer, a trust domain, an issue time and a signature.
pub pheromone_record_iff :
    (p : PheromoneRecord) → (pheromone_record (some p) ≡ ok tt) ↔ IsPheromoneRecord p
unfolding pheromone_record
pheromone_record_iff p = ground arith

pub record IsUpdateManifest (now : Instant) (u : UpdateManifest) : Type 0 where
  pub versioned : 1 ≤ u.schema_version
  pub named : u.release_id ≢ []
  pub in_domain : u.trust_domain ≢ []
  pub targeted : u.targets ≢ []
  pub compatible : u.compat_window ≢ []
  pub hashed : u.hashes ≢ []
  pub issued : u.issuer ≢ []
  pub lasting : Lasts now u.valid_until
  pub signed : u.signature ≢ []

-- At time `now` an UpdateManifest is accepted exactly if it has a schema version, a release, a trust
-- domain, targets, a compatibility window, hashes, an issuer, a signature and a validity that has not
-- ended.
pub update_manifest_iff :
    (now : Instant) (u : UpdateManifest)
    → (update_manifest now (some u) ≡ ok tt) ↔ IsUpdateManifest now u
unfolding update_manifest
update_manifest_iff now u = ground (arith, is_empty_iff u.hashes, is_empty_iff u.targets)

pub record IsCapabilityAdvertisement (c : CapabilityAdvertisement) : Type 0 where
  pub versioned : 1 ≤ c.schema_version
  pub for_device : c.device_id ≢ []
  pub in_domain : c.trust_domain ≢ []
  pub tiered : c.runtime_tier ≢ tier_unspecified
  pub profiled : c.transport_profile ≢ []
  pub valid : c.valid_until ≢ none
  pub signed : c.signature ≢ []

-- A CapabilityAdvertisement is accepted exactly if it has a schema version, a device, a trust domain,
-- a runtime tier, a transport profile, a validity and a signature.
pub capability_advertisement_iff :
    (c : CapabilityAdvertisement)
    → (capability_advertisement (some c) ≡ ok tt) ↔ IsCapabilityAdvertisement c
unfolding capability_advertisement
capability_advertisement_iff c = ground arith
