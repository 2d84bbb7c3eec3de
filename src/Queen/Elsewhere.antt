-- ===== src/Queen/Elsewhere.antt =====
-- The manifests of handleProvision in cmd/queen/main.go, which bear the queen's own trust domain
-- whatever the grant of the device said.
use meshyants.Base.{
  ◌≡◌, ◌≢◌, refl, sym, subst, ◌∙◌, Bytes, list_eq, nat_eq, Map, ok, >>=-eq-ok, refuse_if, not,
  is_empty, some, [], arith,
}
use meshyants.Contracts.{JoinGrant, ProvisioningManifest, tier_unspecified}
use meshyants.Signing.{IsPair}
use meshyants.Onboarding.{trust_mismatch, apply_provisioning_manifest}
use meshyants.Onboarding.Joining.{confirmed, foreign_manifest}
use meshyants.Queen.{
  ProvisionRequest, BundleRequest, Site, Queen, Request, Clock, post_only, device_id_required,
  not_decoded, or_refuse, signed_or, sign_failed, marshal_failed, new_manifest, sign_manifest,
  handle_provision,
}
use meshyants.Queen.Provisioning.{signed-eq-ok, or_refuse-eq-ok, manifest_valid}

module _ (site : Site) (q : Queen) where
  open q use {settings, key}

  -- What handleProvision has signed and sent.
  Sent : Request → Clock → Bytes → ProvisionRequest → Type 0
  Sent r clock answer req =
      (m : ProvisioningManifest) × (payload : Bytes) × (r.device_path ≢ [])
      × (sign_manifest site q
            (new_manifest site q r.device_path settings.td req.runtime_tier req.build_policy clock)
          ≡ ok m)
      × (site.marshal_manifest m ≡ some payload)
      × (answer ≡ site.base64 payload)

  handle_provision-Sent :
      (r : Request) (clock : Clock) (answer : Bytes) (req : ProvisionRequest)
      → site.decode_provision r.body ≡ some req
      → handle_provision site q r clock ≡ ok answer
      → Sent r clock answer req
  unfolding handle_provision Sent
  handle_provision-Sent r clock answer req parsed d =
      let (_, _, d1) = >>=-eq-ok (refuse_if (not r.is_post) post_only) _ d in
      let (_, named, d2) = >>=-eq-ok (refuse_if (is_empty r.device_path) device_id_required) _ d1 in
      let (req', e, d3) = >>=-eq-ok (or_refuse not_decoded (site.decode_provision r.body)) _ d2 in
      let same : req' ≡ req =
        cc (or_refuse-eq-ok site q not_decoded (site.decode_provision r.body) req' e, parsed) in
      let (m, em, d4) =
        >>=-eq-ok
          (signed_or sign_failed (
            sign_manifest site q (
              new_manifest site q r.device_path settings.td req'.runtime_tier req'.build_policy
                clock)))
          _ d3 in
      let (payload, ep, d5) = >>=-eq-ok (or_refuse marshal_failed (site.marshal_manifest m)) _ d4 in
      subst (Sent r clock answer) same (
        m,
        payload,
        ground (arith, named),
        signed-eq-ok site q sign_failed _ m em,
        or_refuse-eq-ok site q marshal_failed _ payload ep,
        cc d5,
      )

  -- A device that was granted another trust domain than the queen's default one and then asks that queen for its
  -- manifest is sent a signed manifest that it refuses for its trust domain, with its session unchanged: given an issuer name, a
  -- default trust domain and a runtime tier.
  pub provisioned_elsewhere :
      (r : Request) (clock : Clock) (answer : Bytes) (req : ProvisionRequest) (g : JoinGrant)
      (existing : Map Bytes Bytes) (public_key : Bytes)
      → IsPair site.ed public_key key
      → site.decode_provision r.body ≡ some req
      → handle_provision site q r clock ≡ ok answer
      → settings.issuer_name ≢ []
      → settings.td ≢ []
      → req.runtime_tier ≢ tier_unspecified
      → g.trust_domain ≢ []
      → g.trust_domain ≢ settings.td
      → (m : ProvisioningManifest) × (payload : Bytes) × (site.marshal_manifest m ≡ some payload)
        × (answer ≡ site.base64 payload)
        × (apply_provisioning_manifest (some m) existing (confirmed g)
            ≡ (confirmed g, some trust_mismatch))
  unfolding Sent
  provisioned_elsewhere r clock answer req g existing public_key pair parsed d issued named tiered
        granted other =
      let (m, payload, device, signed, wire, sent) =
        handle_provision-Sent r clock answer req parsed d in
      let as_bundle : BundleRequest = record {
        device_id = r.device_path;
        trust_domain = settings.td;
        runtime_tier = req.runtime_tier;
        build_policy = req.build_policy;
      } in
      let (valid, m_td, _) =
        manifest_valid site q as_bundle settings.td clock m public_key pair signed issued named
          device tiered in
      (
        m,
        payload,
        wire,
        sent,
        foreign_manifest m existing (confirmed g) refl valid granted (λ e. other (sym e ∙ m_td)),
      )
