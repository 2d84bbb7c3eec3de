-- ===== src/Queen.antt =====
-- cmd/queen/main.go: the provisioning authority, which signs join grants and provisioning manifests.
-- JSON, base64, protobuf and Ed25519 are the fields of `Site`; the flags of the command are `Settings`.
pub mod Keys
pub mod Provisioning
pub mod Elsewhere
mod Tests
use meshyants.Base.{
  ℕ, ◌+◌, ◌*◌, Bytes, Result, ok, err, ◌>>=◌, ◌>>◌, refuse_if, not, Bool, true, false, is_empty,
  Option, none, some, List, [], ◌∷◌, ◌++◌, if◌then◌else◌,
}
use meshyants.Text.{codes}
use meshyants.Text.Decimal.{decimal}
use meshyants.Contracts.{Instant, RuntimeTier, JoinGrant, ProvisioningManifest}
use meshyants.Signing
use meshyants.Signing.{Ed25519, sign}
use meshyants.Signing.Messages.{signable_grant, signable_manifest}

pub record GrantRequest : Type 0 where
  pub device_id : Bytes
  pub trust_domain : Bytes

pub record ProvisionRequest : Type 0 where
  pub runtime_tier : RuntimeTier
  pub build_policy : Bytes

pub record BundleRequest : Type 0 where
  pub device_id : Bytes
  pub trust_domain : Bytes
  pub runtime_tier : RuntimeTier
  pub build_policy : Bytes

pub record Settings : Type 0 where
  pub issuer_name : Bytes
  pub td : Bytes
  pub key_ttl : ℕ

-- The key of the store.
pub record Queen : Type 0 where
  pub settings : Settings
  pub key : Bytes

pub record Site : Type 0 where
  pub decode_grant : Bytes → Option GrantRequest
  pub decode_provision : Bytes → Option ProvisionRequest
  pub decode_bundle : Bytes → Option BundleRequest
  pub marshal_grant : JoinGrant → Option Bytes
  pub marshal_manifest : ProvisioningManifest → Option Bytes
  pub base64 : Bytes → Bytes
  pub ed : Ed25519

-- Whether the method is POST, the device in the path, and the body.
pub record Request : Type 0 where
  pub is_post : Bool
  pub device_path : Bytes
  pub body : Bytes

-- The readings of the clock: the time in seconds for the ID of the grant, and those from which the two
-- validities count.
pub record Clock : Type 0 where
  pub unix : ℕ
  pub grant_at : Instant
  pub manifest_at : Instant

-- The answers other than 200.
pub data Refusal : Type 0 where
  post_only not_decoded device_id_required marshal_failed : Refusal
  sign_failed sign_grant_failed sign_manifest_failed : Signing.Fault → Refusal

unfoldable pub status : Refusal → ℕ
status post_only = 405
status not_decoded = 400
status device_id_required = 400
status _ = 500

abbrev pub or_refuse : {A : Type 0} → Refusal → Option A → Result Refusal A
or_refuse f none = err f
or_refuse f (some x) = ok x

abbrev pub signed_or :
    {A : Type 0} → (Signing.Fault → Refusal) → Result Signing.Fault A → Result Refusal A
signed_or f (err e) = err (f e)
signed_or f (ok x) = ok x

-- proto.Marshal with its error dropped: nil where it fails.
abbrev pub or_nil : Option Bytes → Bytes
or_nil none = []
or_nil (some b) = b

pub record Bundle : Type 0 where
  pub join_grant_b64 : Bytes
  pub provisioning_manifest_b64 : Bytes

module _ (site : Site) (q : Queen) where
  open q use {settings, key}

  unfoldable pub default_td : Bytes → Bytes
  default_td req_td = if is_empty req_td then settings.td else req_td

  -- The grant that handleGrant and handleBundle build.
  unfoldable pub new_grant : Bytes → Bytes → Clock → JoinGrant
  new_grant device_id trust_domain clock = record {
    schema_version = 1;
    grant_id = codes "grant-" ++ (device_id ++ (codes "-" ++ decimal clock.unix));
    trust_domain = trust_domain;
    issuer = settings.issuer_name;
    expires_at = some (clock.grant_at + settings.key_ttl);
    signature = [];
  }

  -- The manifest that handleProvision and handleBundle build.
  unfoldable pub new_manifest : Bytes → Bytes → RuntimeTier → Bytes → Clock → ProvisioningManifest
  new_manifest device_id trust_domain runtime_tier build_policy clock = record {
    schema_version = 1;
    device_id = device_id;
    trust_domain = trust_domain;
    runtime_tier = runtime_tier;
    issuer = settings.issuer_name;
    build_policy = build_policy;
    expires_at = some (clock.manifest_at + settings.key_ttl);
    signature = [];
  }

  abbrev pub sign_grant : JoinGrant → Result Signing.Fault JoinGrant
  sign_grant g = sign (signable_grant site.marshal_grant) site.ed g key

  abbrev pub sign_manifest : ProvisioningManifest → Result Signing.Fault ProvisioningManifest
  sign_manifest m = sign (signable_manifest site.marshal_manifest) site.ed m key

  unfoldable pub handle_grant : Request → Clock → Result Refusal Bytes
  unfolding default_td new_grant
  handle_grant r clock = do
    refuse_if (not r.is_post) post_only
    req ← or_refuse not_decoded (site.decode_grant r.body)
    refuse_if (is_empty req.device_id) device_id_required
    g ←
        signed_or sign_failed
          (sign_grant (new_grant req.device_id (default_td req.trust_domain) clock))
    payload ← or_refuse marshal_failed (site.marshal_grant g)
    ok (site.base64 payload)

  -- The trust domain is the queen's own.
  unfoldable pub handle_provision : Request → Clock → Result Refusal Bytes
  unfolding new_manifest
  handle_provision r clock = do
    refuse_if (not r.is_post) post_only
    refuse_if (is_empty r.device_path) device_id_required
    req ← or_refuse not_decoded (site.decode_provision r.body)
    m ← signed_or sign_failed (
        sign_manifest
          (new_manifest r.device_path settings.td req.runtime_tier req.build_policy clock))
    payload ← or_refuse marshal_failed (site.marshal_manifest m)
    ok (site.base64 payload)

  unfoldable pub handle_bundle : Request → Clock → Result Refusal Bundle
  unfolding default_td new_grant new_manifest
  handle_bundle r clock = do
    refuse_if (not r.is_post) post_only
    req ← or_refuse not_decoded (site.decode_bundle r.body)
    let trust_domain = default_td req.trust_domain
    g ← signed_or sign_grant_failed (sign_grant (new_grant req.device_id trust_domain clock))
    m ← signed_or sign_manifest_failed (
        sign_manifest
          (new_manifest req.device_id trust_domain req.runtime_tier req.build_policy clock))
    ok (record {
      join_grant_b64 = site.base64 (or_nil (site.marshal_grant g));
      provisioning_manifest_b64 = site.base64 (or_nil (site.marshal_manifest m));
    })
