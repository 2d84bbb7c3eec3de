-- ===== src/Queen/Tests.antt =====
-- A queen and two devices, for cmd/queen/main.go.
use meshyants.Base.{
  ◌≡◌, refl, Bytes, list_eq, nat_eq, ◌==◌, ==-refl, lookup, true, ok, some, [], ◌∷◌, arith,
}
use meshyants.Contracts.{JoinGrant, ProvisioningManifest, tier_relay}
use meshyants.Signing.{Ed25519, IsPair, sign}
use meshyants.Onboarding.{trust_mismatch, apply_provisioning_manifest}
use meshyants.Onboarding.Joining.{confirmed}
use meshyants.Queen.{
  ProvisionRequest, BundleRequest, Site, Queen, Request, Clock, Bundle, handle_provision,
  handle_bundle,
}
use meshyants.Queen.Provisioning.{Admits, bundle-Admits}
use meshyants.Queen.Elsewhere.{provisioned_elsewhere}

-- A signature is a 1 before the payload.
abbrev toy : Ed25519
toy = record { sign = λ key p. 1 ∷ p; verify = λ key p s. s == (1 ∷ p) }

toy-IsPair : IsPair toy [] []
toy-IsPair payload = ((λ p. ground arith), ==-refl (1 ∷ payload))

abbrev bundle_request : BundleRequest
bundle_request = record {
  device_id = 7 ∷ [];
  trust_domain = [];
  runtime_tier = tier_relay;
  build_policy = [];
}

abbrev provision_request : ProvisionRequest
provision_request = record { runtime_tier = tier_relay; build_policy = [] }

-- Every body is read as the same request.
abbrev site : Site
site = record {
  decode_grant = λ body. some (record { device_id = 7 ∷ []; trust_domain = [] });
  decode_provision = λ body. some provision_request;
  decode_bundle = λ body. some bundle_request;
  marshal_grant = λ g. some g.trust_domain;
  marshal_manifest = λ m. some m.device_id;
  base64 = λ s. s;
  ed = toy;
}

abbrev queen : Queen
queen = record {
  settings = record { issuer_name = b'q' ∷ []; td = b'm' ∷ []; key_ttl = 100 };
  key = [];
}

abbrev request : Request
request = record { is_post = true; device_path = 7 ∷ []; body = [] }

abbrev clock : Clock
clock = record { unix = 3; grant_at = 3; manifest_at = 4 }

abbrev bundle : Bundle
bundle = record { join_grant_b64 = b'm' ∷ []; provisioning_manifest_b64 = 7 ∷ [] }

bundled : handle_bundle site queen request clock ≡ ok bundle
unfolding handle_bundle sign
bundled = refl

bundle-Admits_example : Admits site queen bundle_request bundle 50 [] []
unfolding lookup handle_bundle
bundle-Admits_example =
    bundle-Admits site queen request clock bundle bundle_request 50 [] [] toy-IsPair refl bundled
      (λ e. cc) (λ e. cc) (λ e. cc) (λ e. cc) (omega arith) refl

-- The grant of another queen, for another trust domain.
abbrev foreign_grant : JoinGrant
foreign_grant = record {
  schema_version = 1;
  grant_id = 1 ∷ [];
  trust_domain = b'x' ∷ [];
  issuer = b'q' ∷ [];
  expires_at = some 100;
  signature = 1 ∷ [];
}

provisioned : handle_provision site queen request clock ≡ ok (7 ∷ [])
unfolding handle_provision sign
provisioned = refl

provisioned_elsewhere_example :
    (m : ProvisioningManifest) × (payload : Bytes) × (site.marshal_manifest m ≡ some payload)
    × ((7 ∷ []) ≡ site.base64 payload)
    × (apply_provisioning_manifest (some m) [] (confirmed foreign_grant)
        ≡ (confirmed foreign_grant, some trust_mismatch))
provisioned_elsewhere_example =
    provisioned_elsewhere site queen request clock (7 ∷ []) provision_request foreign_grant [] []
      toy-IsPair refl provisioned (λ e. cc) (λ e. cc) (λ e. cc) (λ e. cc) (λ e. ground (arith, e))
