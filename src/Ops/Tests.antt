-- ===== src/Ops/Tests.antt =====
-- A release for internal/ops.
use meshyants.Base.{◌≤◌, ◌≡◌, ◌≢◌, ◌↔◌, list_eq, nat_eq, true, false, some, [], ◌∷◌}
use meshyants.Text.{ascii_only, codes}
use meshyants.Contracts.{UpdateManifest}
use meshyants.Validate.Exact.{IsUpdateManifest}
use meshyants.Ops.{preflight_update, Site, World, Fault, apply_update}
use meshyants.Ops.Preflight.{Targets, preflight_update_iff, apply_update_refused}

abbrev release : UpdateManifest
release = record {
  schema_version = 1;
  release_id = 1 ∷ [];
  trust_domain = 2 ∷ [];
  targets = codes "*" ∷ [];
  compat_window = 3 ∷ [];
  hashes = (4 ∷ [], 5 ∷ []) ∷ [];
  rollback_target = 6 ∷ [];
  issuer = 7 ∷ [];
  valid_until = some 100;
  signature = 8 ∷ [];
}

preflight_update_iff_example :
    ((preflight_update ascii_only 50 (some release) (codes "relay") 16777216).is_ok ≡ true) ↔ (
      IsUpdateManifest 50 release
      × (release.rollback_target ≢ [])
      × Targets ascii_only (codes "relay") release.targets
      × (16777216 ≤ 16777216))
preflight_update_iff_example = preflight_update_iff ascii_only 50 release (codes "relay") 16777216

-- Every signature holds, and every download gives what its hash says.
abbrev site : Site
site = record {
  fetch = λ url. some url;
  sum = λ s. s;
  apply_fn = λ path m. true;
  mkdir_fails = λ path. false;
  write_fails = λ path. false;
  temp_dir = [];
  ed = record { sign = λ key p. p; verify = λ key p s. true };
  marshal_update = λ m. some [];
  unicode = ascii_only;
}

abbrev before : World
before = record { files = []; applied = [] }

apply_update_refused_example :
    (f : Fault) × (apply_update site 50 release [] before ≡ (before, some f))
apply_update_refused_example = apply_update_refused site 50 release [] before
