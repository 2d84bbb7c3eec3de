-- ===== src/Ops/Preflight.antt =====
-- What the preflight of internal/ops/update.go lets through, and what that means for the pipeline of
-- internal/ops/apply.go.
use meshyants.Base.{
  ℕ, ◌≤◌, ◌≡◌, ◌≢◌, ◌⊎◌, ◌↔◌, inl, inr, refl, Bytes, list_eq, nat_eq, Result, ok, err, Bool-cases,
  eq_of_==, ne_of_==, true, false, is_empty, is_empty_iff, some, List, [], ◌∷◌, arith,
}
use meshyants.Text.{Unicode, codes, trim_space, equal_fold}
use meshyants.Contracts.{Instant, UpdateManifest}
use meshyants.Validate.{Checked, update_manifest}
use meshyants.Validate.Exact.{IsUpdateManifest, update_manifest_iff}
use meshyants.Signing
use meshyants.Signing.{verify}
use meshyants.Signing.Messages.{signable_update}
use meshyants.Ops.{
  PreflightResult, is_target, matches, preflight_valid, preflight_checked, preflight_update, Fault,
  preflight_failed, signature_invalid, World, Site, after_signature, after_preflight, apply_update,
}

-- One of the targets is the tier but for case and white space, or is "*".
abbrev pub Targets : Unicode → Bytes → List Bytes → Type 0
Targets u runtime_tier [] = ⊥
Targets u runtime_tier (t ∷ ts) =
    (equal_fold u (trim_space u t) (trim_space u runtime_tier) ≡ true)
    ⊎ (t ≡ codes "*")
    ⊎ Targets u runtime_tier ts

is_target_iff :
    (u : Unicode) (runtime_tier t : Bytes)
    → (is_target u runtime_tier t ≡ true)
      ↔ ((equal_fold u (trim_space u t) (trim_space u runtime_tier) ≡ true) ⊎ (t ≡ codes "*"))
is_target_iff u runtime_tier t = ground (arith, eq_of_== t (codes "*"), ne_of_== t (codes "*"))

matches_iff :
    (u : Unicode) (runtime_tier : Bytes) (ts : List Bytes)
    → (matches u runtime_tier ts ≡ true) ↔ Targets u runtime_tier ts
unfolding matches
matches_iff u runtime_tier [] = ground arith
matches_iff u runtime_tier (t ∷ ts) =
    ground (arith, matches_iff u runtime_tier ts, is_target_iff u runtime_tier t)

nonempty : (ts : List Bytes) → ts ≢ [] → is_empty ts ≡ false
nonempty [] h = absurd (h refl)
nonempty (t ∷ ts) h = refl

valid_iff :
    (u : Unicode) (m : UpdateManifest) (runtime_tier : Bytes) (free : ℕ)
    → m.targets ≢ []
    → ((preflight_valid u m runtime_tier free).is_ok ≡ true)
      ↔ ((m.rollback_target ≢ []) × Targets u runtime_tier m.targets × (16777216 ≤ free))
unfolding preflight_valid
valid_iff u m runtime_tier free targeted =
    let aimed = matches_iff u runtime_tier m.targets in
    let some_target : is_empty m.targets ≡ false = nonempty m.targets targeted in
    elim (Bool-cases (is_empty m.rollback_target)) [
      | inl e ↦ rw e (ground (arith, is_empty_iff m.rollback_target))
      | inr n ↦ elim (Bool-cases (matches u runtime_tier m.targets)) [
        | inl e ↦ rw (n, some_target, e) (ground (arith, aimed, is_empty_iff m.rollback_target))
        | inr e ↦ rw (n, some_target, e) (ground (arith, aimed))
      ]
    ]

checked_iff :
    (u : Unicode) (now : Instant) (m : UpdateManifest) (runtime_tier : Bytes) (free : ℕ)
    (r : Checked)
    → update_manifest now (some m) ≡ r
    → ((preflight_checked u (some m) runtime_tier free r).is_ok ≡ true) ↔ (
        IsUpdateManifest now m
        × (m.rollback_target ≢ [])
        × Targets u runtime_tier m.targets
        × (16777216 ≤ free))
checked_iff u now m runtime_tier free (err e) h =
    (λ g. ground arith, λ g. absurd (cc ((update_manifest_iff now m).1 g.0, h)))
checked_iff u now m runtime_tier free (ok x) h =
    let valid : IsUpdateManifest now m = (update_manifest_iff now m).0 h in
    let (to, fro) = valid_iff u m runtime_tier free valid.targeted in
    (λ g. let (a, b, c) = to g in (valid, a, b, c), λ (v, a, b, c). fro (a, b, c))

-- PreflightUpdate accepts exactly the valid manifests that name a rollback target and the node's tier
-- or "*", on a node with 16 MiB, 16777216 bytes, of free space.
pub preflight_update_iff :
    (u : Unicode) (now : Instant) (m : UpdateManifest) (runtime_tier : Bytes) (free : ℕ)
    → ((preflight_update u now (some m) runtime_tier free).is_ok ≡ true) ↔ (
        IsUpdateManifest now m
        × (m.rollback_target ≢ [])
        × Targets u runtime_tier m.targets
        × (16777216 ≤ free))
unfolding preflight_update
preflight_update_iff u now m runtime_tier free =
    checked_iff u now m runtime_tier free (update_manifest now (some m)) refl

module _ (site : Site) where
  refused_below :
      (m : UpdateManifest) (pf : PreflightResult) (w : World)
      → pf.is_ok ≡ false
      → after_preflight site m pf w ≡ (w, some (preflight_failed pf.reason))
  refused_below m pf w h = rw h refl

  no_space :
      (now : Instant) (m : UpdateManifest)
      → (preflight_update site.unicode now (some m) (codes "RELAY") 0).is_ok ≡ false
  no_space now m =
      elim (Bool-cases (preflight_update site.unicode now (some m) (codes "RELAY") 0).is_ok) [
        | inl good ↦
            let (valid, back, aimed, room) =
              (preflight_update_iff site.unicode now m (codes "RELAY") 0).0 good in
            absurd (omega (arith, room))
        | inr bad ↦ bad
      ]

  refused_after :
      (now : Instant) (m : UpdateManifest) (r : Result Signing.Fault (Unit {0})) (w : World)
      → (f : Fault) × (after_signature site now m r w ≡ (w, some f))
  refused_after now m (err f) w = (signature_invalid f, refl)
  refused_after now m (ok x) w =
      let pf = preflight_update site.unicode now (some m) (codes "RELAY") 0 in
      (preflight_failed pf.reason, refused_below m pf w (no_space now m))

  -- ApplyUpdate refuses every manifest, whatever its signature and its content: it runs its preflight
  -- for a node with no free space. Nothing is downloaded or applied.
  pub apply_update_refused :
      (now : Instant) (m : UpdateManifest) (public_key : Bytes) (w : World)
      → (f : Fault) × (apply_update site now m public_key w ≡ (w, some f))
  unfolding apply_update
  apply_update_refused now m public_key w =
      refused_after now m (verify (signable_update site.marshal_update) site.ed m public_key) w
