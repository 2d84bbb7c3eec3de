-- ===== src/Onboarding/Tests.antt =====
-- Devices that join by internal/onboarding/onboarding.go.
use meshyants.Base.{◌≡◌, refl, Bytes, list_eq, nat_eq, list_beq, Map, lookup, some, List, [], ◌∷◌}
use meshyants.Contracts.{JoinGrant, ProvisioningManifest, tier_relay}
use meshyants.Validate.{join_grant, provisioning_manifest}
use meshyants.Onboarding.{
  state_normal, out_of_order, new_session, Call, grant_call, confirm_call, manifest_call,
  promote_call, call_session,
}
use meshyants.Onboarding.Admission.{IsOrdered, new_session-IsOrdered, run, run-IsOrdered}

abbrev grant : JoinGrant
grant = record {
  schema_version = 1;
  grant_id = 1 ∷ [];
  trust_domain = 2 ∷ [];
  issuer = 3 ∷ [];
  expires_at = some 100;
  signature = 9 ∷ [];
}

abbrev manifest : ProvisioningManifest
manifest = record {
  schema_version = 1;
  device_id = 4 ∷ [];
  trust_domain = 2 ∷ [];
  runtime_tier = tier_relay;
  issuer = 3 ∷ [];
  build_policy = [];
  expires_at = some 100;
  signature = 9 ∷ [];
}

abbrev no_others : Map Bytes Bytes
no_others = []

abbrev joined : List Call
joined =
    grant_call 50 (some grant)
    ∷ confirm_call
    ∷ manifest_call (some manifest) no_others
    ∷ promote_call
    ∷ []

joined_normal : (run joined new_session).state ≡ state_normal
unfolding run new_session call_session join_grant provisioning_manifest lookup list_beq
joined_normal = refl

run-IsOrdered_example : IsOrdered (run joined new_session)
run-IsOrdered_example = run-IsOrdered joined new_session new_session-IsOrdered

too_early : (call_session promote_call new_session).1 ≡ some out_of_order
unfolding call_session new_session
too_early = refl
