-- ===== src/Onboarding/Joining.antt =====
-- The way of a device through internal/onboarding/onboarding.go from its first start to normal state.
use meshyants.Base.{
  ◌≡◌, ◌≢◌, refl, ap, ◌∙◌, Bytes, list_eq, nat_eq, ==-refl, ==-ne, Map, lookup, ok, true, none,
  some, List, [], ◌∷◌, arith,
}
use meshyants.Contracts.{Instant, JoinGrant, ProvisioningManifest}
use meshyants.Validate.{join_grant, provisioning_manifest}
use meshyants.Onboarding.{
  Session, Call, grant_call, confirm_call, manifest_call, promote_call, call_session, new_session,
  apply_join_grant, apply_provisioning_manifest, confirm_local, promote_to_normal, admit,
  state_normal, state_warmup, trust_mismatch,
}
use meshyants.Onboarding.Admission.{run}

-- The calls of a device that joins.
abbrev pub joining : Instant → JoinGrant → ProvisioningManifest → Map Bytes Bytes → List Call
joining now g m existing =
    grant_call now (some g) ∷ confirm_call ∷ manifest_call (some m) existing ∷ promote_call ∷ []

-- The session of a device that has joined.
abbrev pub joined : JoinGrant → ProvisioningManifest → Session
joined g m = record {
  state = state_normal;
  trust_domain = g.trust_domain;
  device_id = m.device_id;
  grant_seen = true;
  local_confirmed = true;
  manifest_applied = true;
  instance_nonce = [];
}

-- The session once the grant is applied and the operator has confirmed.
abbrev pub confirmed : JoinGrant → Session
confirmed g = record new_session {
  grant_seen = true;
  trust_domain = g.trust_domain;
  local_confirmed = true;
}

run-confirmed :
    (now : Instant) (g : JoinGrant) (rest : List Call)
    → join_grant now (some g) ≡ ok tt
    → run (grant_call now (some g) ∷ confirm_call ∷ rest) new_session ≡ run rest (confirmed g)
unfolding run call_session new_session
run-confirmed now g rest valid =
    let granted : apply_join_grant now (some g) new_session
        ≡ (record new_session { grant_seen = true; trust_domain = g.trust_domain }, none) =
      rw valid refl in
    ap (λ r. run rest (confirm_local r.0).0) granted

admit_free :
    (g : JoinGrant) (m : ProvisioningManifest) (existing : Map Bytes Bytes)
    → m.trust_domain ≡ g.trust_domain
    → lookup m.device_id existing ≡ none
    → admit m existing (confirmed g) ≡ (record (joined g m) { state = state_warmup }, none)
unfolding admit new_session
admit_free g m existing same free =
    rw (same, free, ==-refl {A = Bytes} g.trust_domain) (ground arith)

-- A device with a well-formed grant and a well-formed manifest for the same trust domain, whose ID no
-- other instance holds, joins.
pub run-joined :
    (now : Instant) (g : JoinGrant) (m : ProvisioningManifest) (existing : Map Bytes Bytes)
    → join_grant now (some g) ≡ ok tt
    → provisioning_manifest (some m) ≡ ok tt
    → m.trust_domain ≡ g.trust_domain
    → lookup m.device_id existing ≡ none
    → run (joining now g m existing) new_session ≡ joined g m
unfolding run call_session
run-joined now g m existing valid_grant valid_manifest same free =
    let applied : apply_provisioning_manifest (some m) existing (confirmed g)
        ≡ (record (joined g m) { state = state_warmup }, none) =
      rw valid_manifest (admit_free g m existing same free) in
    run-confirmed now g (manifest_call (some m) existing ∷ promote_call ∷ []) valid_grant
    ∙ ap (λ r. (promote_to_normal r.0).0) applied

-- A manifest for another trust domain than that of the session's grant is refused, and changes
-- nothing.
pub foreign_manifest :
    (m : ProvisioningManifest) (existing : Map Bytes Bytes) (s : Session)
    → s.local_confirmed ≡ true
    → provisioning_manifest (some m) ≡ ok tt
    → s.trust_domain ≢ []
    → m.trust_domain ≢ s.trust_domain
    → apply_provisioning_manifest (some m) existing s ≡ (s, some trust_mismatch)
unfolding apply_provisioning_manifest
foreign_manifest m existing s confirmed valid named other =
    rw confirmed
      (rw valid (rw (==-ne {A = Bytes} m.trust_domain s.trust_domain other) (ground arith)))
