-- ===== src/Onboarding.antt =====
-- internal/onboarding/onboarding.go: the join state machine of one device. A method on a possibly nil
-- `*Session` takes and returns an `Option Session`; `none` as an error is `nil`.
pub mod Admission
pub mod Joining
mod Tests
use meshyants.Base.{
  Bytes, list_eq, nat_eq, ◌==◌, Map, lookup, Result, ok, err, Bool, true, false, not, ◌&&◌,
  is_empty, Option, none, some, [], if◌then◌else◌,
}
use meshyants.Contracts.{Instant, JoinGrant, ProvisioningManifest}
use meshyants.Validate.{Invalid, Checked, join_grant, provisioning_manifest}

pub data AdmissionState : Type 0 where
  state_pending state_warmup state_normal state_quarantine state_revoked : AdmissionState

pub data Fault : Type 0 where
  nil_session out_of_order not_confirmed grant_consumed identity_clash trust_mismatch : Fault
  invalid : Invalid → Fault

pub record Session : Type 0 where
  pub state : AdmissionState
  pub trust_domain : Bytes
  pub device_id : Bytes
  pub grant_seen : Bool
  pub local_confirmed : Bool
  pub manifest_applied : Bool
  pub instance_nonce : Bytes

unfoldable pub new_session : Session
new_session = record {
  state = state_pending;
  trust_domain = [];
  device_id = [];
  grant_seen = false;
  local_confirmed = false;
  manifest_applied = false;
  instance_nonce = [];
}

-- After a validation: `if err != nil { return err }`.
abbrev pub checked : Checked → Session × Option Fault → Session → Session × Option Fault
checked (err e) next s = (s, some (invalid e))
checked (ok x) next s = next

abbrev granted_domain : Option JoinGrant → Bytes
granted_domain none = []
granted_domain (some g) = g.trust_domain

unfoldable pub apply_join_grant : Instant → Option JoinGrant → Session → Session × Option Fault
apply_join_grant now g s =
    if s.grant_seen
    then (s, some grant_consumed)
    else checked (join_grant now g)
        (record s { grant_seen = true; trust_domain = granted_domain g }, none) s

unfoldable pub confirm_local : Session → Session × Option Fault
confirm_local s =
    if not s.grant_seen then (s, some out_of_order) else (record s { local_confirmed = true }, none)

-- `prev, ok := existingDeviceNonces[m.DeviceId]; ok && prev != s.InstanceNonce`; a nil map holds
-- nothing.
abbrev pub clashes : Bytes → Option Bytes → Bool
clashes nonce none = false
clashes nonce (some prev) = not (prev == nonce)

unfoldable pub admit : ProvisioningManifest → Map Bytes Bytes → Session → Session × Option Fault
admit m existing s =
    if not (is_empty s.trust_domain) && not (m.trust_domain == s.trust_domain)
    then (s, some trust_mismatch)
    else if clashes s.instance_nonce (lookup m.device_id existing)
    then (s, some identity_clash)
    else (record s { device_id = m.device_id; manifest_applied = true; state = state_warmup }, none)

-- `admit` on a manifest that validation has found not to be nil.
abbrev pub admit_option :
    Option ProvisioningManifest → Map Bytes Bytes → Session → Session × Option Fault
admit_option none existing s = (s, none)
admit_option (some m) existing s = admit m existing s

unfoldable pub apply_provisioning_manifest :
    Option ProvisioningManifest → Map Bytes Bytes → Session → Session × Option Fault
unfolding admit
apply_provisioning_manifest m existing s =
    if not s.local_confirmed
    then (s, some not_confirmed)
    else checked (provisioning_manifest m) (admit_option m existing s) s

unfoldable pub promote_to_normal : Session → Session × Option Fault
promote_to_normal s =
    if not s.manifest_applied
    then (s, some out_of_order)
    else (record s { state = state_normal }, none)

unfoldable pub quarantine : Session → Session × Option Fault
quarantine s = (record s { state = state_quarantine }, none)

-- The calls on one session.
pub data Call : Type 0 where
  grant_call : Instant → Option JoinGrant → Call
  confirm_call : Call
  manifest_call : Option ProvisioningManifest → Map Bytes Bytes → Call
  promote_call : Call
  quarantine_call : Call

unfoldable pub call_session : Call → Session → Session × Option Fault
unfolding apply_join_grant confirm_local apply_provisioning_manifest promote_to_normal quarantine
call_session (grant_call now g) = apply_join_grant now g
call_session confirm_call = confirm_local
call_session (manifest_call m existing) = apply_provisioning_manifest m existing
call_session promote_call = promote_to_normal
call_session quarantine_call = quarantine

-- The error of each method when its receiver is nil.
abbrev pub nil_fault : Call → Option Fault
nil_fault (grant_call now g) = some nil_session
nil_fault quarantine_call = none
nil_fault _ = some out_of_order

unfoldable pub call : Call → Option Session → Option Session × Option Fault
unfolding call_session
call c none = (none, nil_fault c)
call c (some s) = let (t, e) = call_session c s in (some t, e)
