-- ===== src/Ops.antt =====
-- internal/ops: the preflight of update.go and the pipeline of apply.go. A path is the list of its
-- elements, below a clean TempDir; downloads and the platform's apply function are parameters.
pub mod Preflight
mod Tests
use meshyants.Base.{
  ℕ, ◌+◌, ◌*◌, Bytes, list_eq, nat_eq, ◌==◌, not, ◌&&◌, ◌||◌, Map, lookup, insert, Result, ok, err,
  ◌>>=◌, ◌>>◌, refuse_if, ltb, Bool, true, false, is_empty, Option, none, some, List, [], ◌∷◌, ◌++◌,
  length, if◌then◌else◌,
}
use meshyants.Text.{Unicode, codes, trim_space, equal_fold}
use meshyants.Text.Decimal.{decimal}
use meshyants.Contracts.{Instant, UpdateManifest}
use meshyants.Validate.{Invalid, Checked, update_manifest}
use meshyants.Signing
use meshyants.Signing.{Ed25519, verify}
use meshyants.Signing.Messages.{signable_update}

-- What the texts of `Reason` say.
pub data Reason : Type 0 where
  no_reason rollback_target_required : Reason
  invalid : Invalid → Reason
  tier_not_in_targets : Bytes → Reason
  insufficient_free_space : ℕ → Reason

pub record PreflightResult : Type 0 where
  pub rollback_target : Bytes
  pub release_id : Bytes
  pub is_ok : Bool
  pub reason : Reason

abbrev pub min_free : ℕ
min_free = 16 * 1024 * 1024

module _ (u : Unicode) where
  abbrev pub is_target : Bytes → Bytes → Bool
  is_target runtime_tier t =
      equal_fold u (trim_space u t) (trim_space u runtime_tier) || t == codes "*"

  -- The loop over the targets.
  unfoldable pub matches : Bytes → List Bytes → Bool
  matches runtime_tier [] = false
  matches runtime_tier (t ∷ ts) =
      let rest = matches runtime_tier ts in if is_target runtime_tier t then true else rest

  abbrev pub refusal : Bytes → Bytes → Reason → PreflightResult
  refusal rollback_target release_id reason = record {
    rollback_target = rollback_target;
    release_id = release_id;
    is_ok = false;
    reason = reason;
  }

  -- A manifest that validation has accepted.
  unfoldable pub preflight_valid : UpdateManifest → Bytes → ℕ → PreflightResult
  unfolding matches
  preflight_valid m runtime_tier free_space_bytes =
      if is_empty m.rollback_target
      then refusal [] [] rollback_target_required
      else if not (is_empty m.targets) && not (matches runtime_tier m.targets)
      then refusal m.rollback_target m.release_id (tier_not_in_targets runtime_tier)
      else if ltb free_space_bytes min_free
      then refusal m.rollback_target m.release_id (insufficient_free_space free_space_bytes)
      else (record {
        rollback_target = m.rollback_target;
        release_id = m.release_id;
        is_ok = true;
        reason = no_reason;
      })

  abbrev pub target_or_empty : Option UpdateManifest → Bytes
  target_or_empty none = []
  target_or_empty (some m) = m.rollback_target

  abbrev pub preflight_checked : Option UpdateManifest → Bytes → ℕ → Checked → PreflightResult
  preflight_checked m runtime_tier free (err e) = refusal (target_or_empty m) [] (invalid e)
  preflight_checked none runtime_tier free (ok x) = refusal [] [] no_reason
  preflight_checked (some m) runtime_tier free (ok x) = preflight_valid m runtime_tier free

  -- PreflightUpdate at time `now`.
  unfoldable pub preflight_update : Instant → Option UpdateManifest → Bytes → ℕ → PreflightResult
  unfolding preflight_valid
  preflight_update now m runtime_tier free_space_bytes =
      preflight_checked m runtime_tier free_space_bytes (update_manifest now m)

  -- ValidateConfigDryRun: whether it returns nil.
  unfoldable pub validate_config_dry_run : Bytes → Bool
  validate_config_dry_run config_bytes = not (is_empty (trim_space u config_bytes))

abbrev pub FilePath : Type 0
FilePath = List Bytes

pub data Fault : Type 0 where
  signature_invalid : Signing.Fault → Fault
  preflight_failed : Reason → Fault
  download_failed hash_mismatch : Bytes → Fault
  stage_failed apply_failed : Fault
  rolled_back : Bytes → Fault

-- The files, and the calls of the apply function that succeeded, the last one first.
pub record World : Type 0 where
  pub files : Map FilePath Bytes
  pub applied : List (FilePath × Bytes)

-- `fetch`: the body that a GET returns with status 200, cut at 100 MB, or `none`. `sum`: SHA-256.
-- `apply_fn`: whether ApplyFn returns nil.
pub record Site : Type 0 where
  pub fetch : Bytes → Option Bytes
  pub sum : Bytes → Bytes
  pub apply_fn : FilePath → UpdateManifest → Bool
  pub mkdir_fails : FilePath → Bool
  pub write_fails : FilePath → Bool
  pub temp_dir : Bytes
  pub ed : Ed25519
  pub marshal_update : UpdateManifest → Option Bytes
  pub unicode : Unicode

abbrev pub remove : FilePath → Map FilePath Bytes → Map FilePath Bytes
remove path [] = []
remove path (f ∷ fs) = if f.0 == path then remove path fs else f ∷ remove path fs

-- filepath.Base
abbrev pub base : FilePath → Bytes
base [] = []
base (x ∷ []) = x
base (x ∷ (y ∷ rest)) = base (y ∷ rest)

module _ (site : Site) where
  abbrev pub artifact_path : Bytes → FilePath
  artifact_path content = site.temp_dir ∷ (codes "artifact-" ++ decimal (length content)) ∷ []

  abbrev pub write_artifact :
      Option Bytes → World → Result Bytes (FilePath × World) → Result Bytes (FilePath × World)
  write_artifact none w failed = failed
  write_artifact (some content) w failed =
      let path = artifact_path content in
      if site.write_fails path
      then failed
      else ok (path, record w { files = insert path content w.files })

  unfoldable pub download : Bytes → World → Result Bytes (FilePath × World)
  download url w = write_artifact (site.fetch url) w (err url)

  abbrev pub hash_is : Option Bytes → Bytes → Bool
  hash_is none expected = false
  hash_is (some content) expected = site.sum content == expected

  unfoldable pub verify_hash : FilePath → Bytes → World → Bool
  verify_hash path expected w = hash_is (lookup path w.files) expected

  abbrev Step : Type 0
  Step = World × Option Fault

  -- The loop that downloads and checks; `done` maps each URL to its file. A file that was written
  -- stays when a later step fails.
  unfoldable pub fetch_all :
      Map Bytes Bytes → Map Bytes FilePath → World → World × Result Fault (Map Bytes FilePath)
  unfolding download verify_hash
  fetch_all [] done w = (w, ok done)
  fetch_all ((url, expected) ∷ hashes) done w = elim (download url w) [
    | err u ↦ (w, err (download_failed url))
    | ok r ↦
        if verify_hash r.0 expected r.1
        then fetch_all hashes (insert url r.0 done) r.1
        else (r.1, err (hash_mismatch url))
  ]

  abbrev pub moved : FilePath → FilePath → World → Option Bytes → Option World
  moved path dest w none = none
  moved path dest w (some content) =
      some (record w { files = insert dest content (remove path w.files) })

  -- os.Rename, which fails where there is no file.
  unfoldable pub rename : FilePath → FilePath → World → Option World
  rename path dest w = moved path dest w (lookup path w.files)

  -- The loop that stages.
  unfoldable pub stage_all : FilePath → Map Bytes FilePath → World → World × Bool
  unfolding rename
  stage_all stage_dir [] w = (w, true)
  stage_all stage_dir ((url, path) ∷ rest) w =
      elim (rename path (stage_dir ++ (base path ∷ [])) w) [
        | none ↦ (w, false)
        | some v ↦ stage_all stage_dir rest v
      ]

  abbrev pub primary : Map Bytes FilePath → FilePath
  primary [] = []
  primary ((url, path) ∷ rest) = path

  -- Step 5; `rollback` only logs.
  unfoldable pub run_apply : UpdateManifest → Bytes → FilePath → World → Step
  run_apply m rollback_target path w =
      if site.apply_fn path m
      then (record w { applied = (path, m.release_id) ∷ w.applied }, none)
      else if is_empty rollback_target
      then (w, some apply_failed)
      else (w, some (rolled_back rollback_target))

  abbrev pub apply_staged : UpdateManifest → Bytes → Map Bytes FilePath → World × Bool → Step
  apply_staged m rollback_target done (w, false) = (w, some stage_failed)
  apply_staged m rollback_target done (w, true) = run_apply m rollback_target (primary done) w

  abbrev pub stage_dir_of : UpdateManifest → FilePath
  stage_dir_of m = site.temp_dir ∷ (codes "stage-" ++ m.release_id) ∷ []

  abbrev pub stage : UpdateManifest → Bytes → World × Result Fault (Map Bytes FilePath) → Step
  stage m rollback_target (w, err f) = (w, some f)
  stage m rollback_target (w, ok done) =
      if site.mkdir_fails (stage_dir_of m)
      then (w, some stage_failed)
      else apply_staged m rollback_target done (stage_all (stage_dir_of m) done w)

  abbrev pub after_preflight : UpdateManifest → PreflightResult → World → Step
  after_preflight m pf w =
      if not pf.is_ok
      then (w, some (preflight_failed pf.reason))
      else stage m pf.rollback_target (fetch_all m.hashes [] w)

  abbrev pub after_signature :
      Instant → UpdateManifest → Result Signing.Fault (Unit {0}) → World → Step
  after_signature now m (err f) w = (w, some (signature_invalid f))
  after_signature now m (ok x) w =
      after_preflight m (preflight_update site.unicode now (some m) (codes "RELAY") 0) w

  -- ApplyUpdate at time `now`.
  unfoldable pub apply_update : Instant → UpdateManifest → Bytes → World → Step
  unfolding fetch_all stage_all run_apply preflight_update
  apply_update now m public_key w =
      after_signature now m (verify (signable_update site.marshal_update) site.ed m public_key) w
