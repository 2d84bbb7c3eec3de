-- ===== src/Queen/Provisioning.antt =====
-- What becomes of the contracts that cmd/queen/main.go signs on the device that receives them, by
-- internal/validate and internal/onboarding.
use meshyants.Base.{
  ◌+◌, ◌≤◌, ◌≡◌, ◌≢◌, refl, sym, ap, subst, ◌∙◌, Bytes, list_eq, nat_eq, Map, lookup, Result, ok,
  err, ◌>>=◌, >>=-eq-ok, refuse_if, not, Option, none, some, [], arith,
}
use meshyants.Contracts.{Instant, JoinGrant, ProvisioningManifest, tier_unspecified}
use meshyants.Signing.{IsPair, verify}
use meshyants.Signing.Messages.{signable_grant, signable_manifest}
use meshyants.Signing.Trust.{verify-sign, sign-eq-ok}
use meshyants.Validate.{join_grant, provisioning_manifest}
use meshyants.Validate.Exact.{join_grant_iff, provisioning_manifest_iff}
use meshyants.Onboarding.{new_session}
use meshyants.Onboarding.Admission.{run}
use meshyants.Onboarding.Joining.{joining, joined, run-joined}
use meshyants.Queen.{
  BundleRequest, Site, Queen, Request, Clock, Bundle, Refusal, post_only, not_decoded, or_refuse,
  signed_or, or_nil, sign_grant_failed, sign_manifest_failed, default_td, new_grant, new_manifest,
  sign_grant, sign_manifest, handle_bundle,
}

module _ (site : Site) (q : Queen) where
  open q use {settings, key}

  pub signed-eq-ok :
      {A : Type 0} (f : _ → Refusal) (r : Result _ A) (x : A) → signed_or f r ≡ ok x → r ≡ ok x
  signed-eq-ok f (err e) x h = absurd cc
  signed-eq-ok f (ok y) x h = cc

  pub or_refuse-eq-ok :
      {A : Type 0} (f : Refusal) (o : Option A) (x : A) → or_refuse f o ≡ ok x → o ≡ some x
  or_refuse-eq-ok f none x h = absurd cc
  or_refuse-eq-ok f (some y) x h = cc

  abbrev pub bundle_of : JoinGrant → ProvisioningManifest → Bundle
  bundle_of g m = record {
    join_grant_b64 = site.base64 (or_nil (site.marshal_grant g));
    provisioning_manifest_b64 = site.base64 (or_nil (site.marshal_manifest m));
  }

  -- The contracts of a bundle.
  pub record Contracts (req : BundleRequest) (clock : Clock) (b : Bundle) : Type 0 where
    pub grant : JoinGrant
    pub manifest : ProvisioningManifest
    pub signed_grant :
        sign_grant site q
          (new_grant site q req.device_id (default_td site q req.trust_domain) clock)
        ≡ ok grant
    pub signed_manifest :
        sign_manifest site q (
          new_manifest site q req.device_id
            (default_td site q req.trust_domain)
            req.runtime_tier
            req.build_policy
            clock)
        ≡ ok manifest
    pub sent : b ≡ bundle_of grant manifest

  handle_bundle-Contracts :
      (r : Request) (clock : Clock) (b : Bundle) (req : BundleRequest)
      → site.decode_bundle r.body ≡ some req
      → handle_bundle site q r clock ≡ ok b
      → Contracts req clock b
  unfolding handle_bundle
  handle_bundle-Contracts r clock b req parsed d =
      let (_, _, d1) = >>=-eq-ok (refuse_if (not r.is_post) post_only) _ d in
      let (req', e, d2) = >>=-eq-ok (or_refuse not_decoded (site.decode_bundle r.body)) _ d1 in
      let same : req' ≡ req =
        cc (or_refuse-eq-ok not_decoded (site.decode_bundle r.body) req' e, parsed) in
      subst (λ x. Contracts x clock b) same (parts req' d2)
    where
      parts :
          (x : BundleRequest)
          → (do
            g ← signed_or sign_grant_failed (
                sign_grant site q
                  (new_grant site q x.device_id (default_td site q x.trust_domain) clock))
            m ← signed_or sign_manifest_failed (
                sign_manifest site q (
                  new_manifest site q x.device_id
                    (default_td site q x.trust_domain)
                    x.runtime_tier
                    x.build_policy
                    clock))
            ok (bundle_of g m))
            ≡ ok b
          → Contracts x clock b
      parts x d2 =
          let (g, eg, d3) =
            >>=-eq-ok
              (signed_or sign_grant_failed (
                sign_grant site q
                  (new_grant site q x.device_id (default_td site q x.trust_domain) clock)))
              _ d2 in
          let (m, em, d4) =
            >>=-eq-ok
              (signed_or sign_manifest_failed (
                sign_manifest site q (
                  new_manifest site q x.device_id (default_td site q x.trust_domain) x.runtime_tier
                    x.build_policy clock)))
              _ d3 in
          let made : bundle_of g m ≡ b = cc d4 in
          record {
            grant = g;
            manifest = m;
            signed_grant = signed-eq-ok sign_grant_failed _ g eg;
            signed_manifest = signed-eq-ok sign_manifest_failed _ m em;
            sent = sym made;
          }

  grant_valid :
      (device_id trust_domain : Bytes) (clock : Clock) (g : JoinGrant) (now : Instant)
      (public_key : Bytes)
      → IsPair site.ed public_key key
      → sign_grant site q (new_grant site q device_id trust_domain clock) ≡ ok g
      → settings.issuer_name ≢ []
      → trust_domain ≢ []
      → now ≤ clock.grant_at + settings.key_ttl
      → (join_grant now (some g) ≡ ok tt) × (g.trust_domain ≡ trust_domain)
  unfolding new_grant
  grant_valid device_id trust_domain clock g now public_key pair signed issued named lasts =
      let (payload, e) = sign-eq-ok (signable_grant site.marshal_grant) site.ed _ g key signed in
      (
        (join_grant_iff now g).1 (
            rw e (record {
              versioned = omega arith;
              named = λ h. cc;
              in_domain = named;
              issued = issued;
              lasting = (clock.grant_at + settings.key_ttl, refl, lasts);
              signed = (pair payload).0;
            })),
        ap (λ x. x.trust_domain) e,
      )

  pub manifest_valid :
      (req : BundleRequest) (trust_domain : Bytes) (clock : Clock) (m : ProvisioningManifest)
      (public_key : Bytes)
      → IsPair site.ed public_key key
      → sign_manifest site q
          (new_manifest site q req.device_id trust_domain req.runtime_tier req.build_policy clock)
        ≡ ok m
      → settings.issuer_name ≢ []
      → trust_domain ≢ []
      → req.device_id ≢ []
      → req.runtime_tier ≢ tier_unspecified
      → (provisioning_manifest (some m) ≡ ok tt)
        × (m.trust_domain ≡ trust_domain)
        × (m.device_id ≡ req.device_id)
  unfolding new_manifest
  manifest_valid req trust_domain clock m public_key pair signed issued named device tiered =
      let (payload, e) =
        sign-eq-ok (signable_manifest site.marshal_manifest) site.ed _ m key signed in
      (
        (provisioning_manifest_iff m).1 (
            rw e (record {
              versioned = omega arith;
              for_device = device;
              in_domain = named;
              tiered = tiered;
              issued = issued;
              expiring = λ h. cc;
              signed = (pair payload).0;
            })),
        ap (λ x. x.trust_domain) e,
        ap (λ x. x.device_id) e,
      )

  -- What the device makes of the bundle `b` at time `now`: both contracts bear the queen's signature, and the
  -- grant, the operator's confirmation, the manifest and a promotion bring a new session to normal state
  -- as the device asked for.
  pub record Admits (req : BundleRequest) (b : Bundle) (now : Instant) (existing : Map Bytes Bytes)
      (public_key : Bytes) : Type 0 where
    pub grant : JoinGrant
    pub manifest : ProvisioningManifest
    pub sent : b ≡ bundle_of grant manifest
    pub genuine_grant : verify (signable_grant site.marshal_grant) site.ed grant public_key ≡ ok tt
    pub genuine_manifest :
        verify (signable_manifest site.marshal_manifest) site.ed manifest public_key ≡ ok tt
    pub admitted :
        run (joining now grant manifest existing) new_session ≡ record (joined grant manifest) {
          trust_domain = default_td site q req.trust_domain;
          device_id = req.device_id;
        }

  -- A bundle for a device with an ID and a runtime tier, from a queen with an issuer name and a key pair, for a
  -- trust domain that is not empty: its contracts verify with the queen's public key, and before the grant
  -- expires they bring a new device, whose ID no other instance holds, to normal state in that trust domain.
  pub bundle-Admits :
      (r : Request) (clock : Clock) (b : Bundle) (req : BundleRequest) (now : Instant)
      (existing : Map Bytes Bytes) (public_key : Bytes)
      → IsPair site.ed public_key key
      → site.decode_bundle r.body ≡ some req
      → handle_bundle site q r clock ≡ ok b
      → settings.issuer_name ≢ []
      → default_td site q req.trust_domain ≢ []
      → req.device_id ≢ []
      → req.runtime_tier ≢ tier_unspecified
      → now ≤ clock.grant_at + settings.key_ttl
      → lookup req.device_id existing ≡ none
      → Admits req b now existing public_key
  bundle-Admits r clock b req now existing public_key pair parsed d issued named device tiered lasts
        free =
      let c = handle_bundle-Contracts r clock b req parsed d in
      let td = default_td site q req.trust_domain in
      let (g_valid, g_td) =
        grant_valid req.device_id td clock c.grant now public_key pair c.signed_grant issued named
          lasts in
      let (m_valid, m_td, m_device) =
        manifest_valid req td clock c.manifest public_key pair c.signed_manifest issued named device
          tiered in
      record {
        grant = c.grant;
        manifest = c.manifest;
        sent = c.sent;
        genuine_grant =
            verify-sign (signable_grant site.marshal_grant) site.ed _ c.grant public_key key pair
              c.signed_grant;
        genuine_manifest =
            verify-sign (signable_manifest site.marshal_manifest) site.ed _ c.manifest public_key
              key pair c.signed_manifest;
        admitted =
            run-joined now c.grant c.manifest existing g_valid m_valid (m_td ∙ sym g_td)
              (ap (λ k. lookup k existing) m_device ∙ free)
            ∙ cc (g_td, m_device);
      }
