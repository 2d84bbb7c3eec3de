-- ===== src/Onboarding/Admission.antt =====
-- What holds of a session of internal/onboarding/onboarding.go after any sequence of calls.
use meshyants.Base.{
  ◌≡◌, ◌≢◌, ◌⊎◌, refl, Bytes, list_eq, nat_eq, eq_of_==, ==-refl, ==-ne, ap, Map, lookup, ok, true,
  Option-cases, inl, inr, none, some, List, [], ◌∷◌, arith, sym, subst, ◌∙◌,
}
use meshyants.Contracts.{Instant, ProvisioningManifest}
use meshyants.Validate.{join_grant, provisioning_manifest}
use meshyants.Validate.Exact.{IsProvisioningManifest, join_grant_iff, provisioning_manifest_iff}
use meshyants.Onboarding.{
  state_warmup, state_normal, state_quarantine, Session, Fault, identity_clash, new_session,
  apply_join_grant, apply_provisioning_manifest, promote_to_normal, quarantine, admit, Call,
  grant_call, manifest_call, call_session,
}

-- Each step rests on the one before it.
pub record IsOrdered (s : Session) : Type 0 where
  pub confirmed_after_grant : s.local_confirmed ≡ true → s.grant_seen ≡ true
  pub applied_after_confirmed : s.manifest_applied ≡ true → s.local_confirmed ≡ true
  pub active_after_applied :
      (s.state ≡ state_warmup) ⊎ (s.state ≡ state_normal) → s.manifest_applied ≡ true
  pub in_domain : s.grant_seen ≡ true → s.trust_domain ≢ []
  pub with_identity : s.manifest_applied ≡ true → s.device_id ≢ []

pub new_session-IsOrdered : IsOrdered new_session
unfolding new_session
new_session-IsOrdered = ground arith

-- A nil message is refused, and changes nothing.
nil_grant : (now : Instant) (s : Session) → (apply_join_grant now none s).0 ≡ s
unfolding apply_join_grant join_grant
nil_grant now s = ground arith

nil_manifest :
    (existing : Map Bytes Bytes) (s : Session)
    → apply_provisioning_manifest none existing s
      ≡ (s, (apply_provisioning_manifest none existing s).1)
unfolding apply_provisioning_manifest provisioning_manifest
nil_manifest existing s = ground arith

call_session-IsOrdered : (c : Call) (s : Session) → IsOrdered s → IsOrdered (call_session c s).0
unfolding call_session
call_session-IsOrdered (grant_call now none) s h = subst IsOrdered (sym (nil_grant now s)) h
call_session-IsOrdered (grant_call now (some g)) s h = ground (arith, join_grant_iff now g)
call_session-IsOrdered (manifest_call none existing) s h =
    subst IsOrdered (ap (λ r. r.0) (sym (nil_manifest existing s))) h
call_session-IsOrdered (manifest_call (some m) existing) s h =
    ground (arith, provisioning_manifest_iff m)
call_session-IsOrdered _ s h = ground arith

unfoldable pub run : List Call → Session → Session
run [] s = s
run (c ∷ cs) s = run cs (call_session c s).0

-- After any sequence of calls, failed ones included, a session that was ordered is ordered: a device
-- in warmup or normal state has an identity and has passed the manifest, the local confirmation and
-- the grant, which named a trust domain.
pub run-IsOrdered : (cs : List Call) (s : Session) → IsOrdered s → IsOrdered (run cs s)
unfolding run
run-IsOrdered [] s h = h
run-IsOrdered (c ∷ cs) s h = run-IsOrdered cs (call_session c s).0 (call_session-IsOrdered c s h)

-- A call that reports an error leaves the session as it was.
pub call_session_error :
    (c : Call) (s : Session) {f : Fault} → (call_session c s).1 ≡ some f → (call_session c s).0 ≡ s
unfolding call_session
call_session_error c s h = ground arith

granted_keeps :
    (c : Call) (s : Session)
    → s.grant_seen ≡ true
    → ((call_session c s).0.grant_seen ≡ true)
      × ((call_session c s).0.trust_domain ≡ s.trust_domain)
unfolding call_session
granted_keeps (grant_call now g) s h = ground arith
granted_keeps (manifest_call none existing) s h = ground (arith, nil_manifest existing s)
granted_keeps _ s h = ground arith

-- A join grant is used once: whatever calls follow it, the session stays in the trust domain that it
-- named.
pub run_granted :
    (cs : List Call) (s : Session)
    → s.grant_seen ≡ true
    → ((run cs s).grant_seen ≡ true) × ((run cs s).trust_domain ≡ s.trust_domain)
unfolding run
run_granted [] s h = (h, refl)
run_granted (c ∷ cs) s h =
    let (seen, same) = granted_keeps c s h in
    let (seen', same') = run_granted cs (call_session c s).0 seen in (seen', same' ∙ same)

accepted_steps :
    (m : ProvisioningManifest) (existing : Map Bytes Bytes) (s : Session)
    → (apply_provisioning_manifest (some m) existing s).1 ≡ none
    → (s.local_confirmed ≡ true)
      × (provisioning_manifest (some m) ≡ ok tt)
      × (apply_provisioning_manifest (some m) existing s ≡ admit m existing s)
unfolding apply_provisioning_manifest
accepted_steps m existing s h = ground arith

admitted :
    (m : ProvisioningManifest) (existing : Map Bytes Bytes) (s : Session)
    → (admit m existing s).1 ≡ none
    → ((s.trust_domain ≡ []) ⊎ (m.trust_domain ≡ s.trust_domain))
      × ((lookup m.device_id existing ≡ none)
          ⊎ (lookup m.device_id existing ≡ some s.instance_nonce))
      × ((admit m existing s).0
          ≡ record s { device_id = m.device_id; manifest_applied = true; state = state_warmup })
unfolding admit
admitted m existing s h = elim (Option-cases (lookup m.device_id existing)) [
  | inl free ↦ ground (arith, eq_of_== {A = Bytes} m.trust_domain s.trust_domain)
  | inr (prev, held) ↦ ground (
    arith,
    held,
    eq_of_== {A = Bytes} m.trust_domain s.trust_domain,
    eq_of_== {A = Bytes} prev s.instance_nonce,
  )
]

-- If a manifest is accepted, then the operator had confirmed, the manifest is well formed, it names
-- the trust domain of the session where that has one, and no other instance has the device's ID; the
-- session takes the device's ID, is in warmup, and is otherwise as it was.
pub accepted_manifest :
    (m : ProvisioningManifest) (existing : Map Bytes Bytes) (s : Session)
    → (apply_provisioning_manifest (some m) existing s).1 ≡ none
    → (s.local_confirmed ≡ true)
      × IsProvisioningManifest m
      × ((s.trust_domain ≡ []) ⊎ (m.trust_domain ≡ s.trust_domain))
      × ((lookup m.device_id existing ≡ none)
          ⊎ (lookup m.device_id existing ≡ some s.instance_nonce))
      × ((apply_provisioning_manifest (some m) existing s).0
          ≡ record s { device_id = m.device_id; manifest_applied = true; state = state_warmup })
unfolding apply_provisioning_manifest
accepted_manifest m existing s h =
    let (confirmed, valid, same) = accepted_steps m existing s h in
    let (domain, identity, result) = admitted m existing s (ap (λ r. r.1) (sym same) ∙ h) in
    (
      confirmed,
      (provisioning_manifest_iff m).0 valid,
      domain,
      identity,
      ap (λ r. r.0) same ∙ result,
    )

-- A device ID that another instance holds is refused, and the session is unchanged: given a confirmed
-- session and a well-formed manifest for its trust domain.
pub clone_refused :
    (m : ProvisioningManifest) (existing : Map Bytes Bytes) (s : Session) (prev : Bytes)
    → s.local_confirmed ≡ true
    → IsProvisioningManifest m
    → m.trust_domain ≡ s.trust_domain
    → lookup m.device_id existing ≡ some prev
    → prev ≢ s.instance_nonce
    → apply_provisioning_manifest (some m) existing s ≡ (s, some identity_clash)
unfolding apply_provisioning_manifest
clone_refused m existing s prev c v d l n = rw c (
    rw ((provisioning_manifest_iff m).1 v) (
      rw (d, l, ==-refl {A = Bytes} s.trust_domain, ==-ne {A = Bytes} prev s.instance_nonce n)
        (ground arith)))

-- Containment does not hold against a promotion: a device whose manifest was applied goes from
-- quarantine back to normal state by `PromoteToNormal`, with no error.
pub quarantine_promoted :
    (s : Session)
    → s.manifest_applied ≡ true
    → ((quarantine s).0.state ≡ state_quarantine)
      × (promote_to_normal (quarantine s).0 ≡ (record s { state = state_normal }, none))
unfolding quarantine promote_to_normal
quarantine_promoted s h = ground arith
