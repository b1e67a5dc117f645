-- ===== src/ModelVersions/Retention.antt =====
-- `apply_retention` of crates/tiletopia-server/src/model_versions.rs and the statements of db.rs that
-- it runs, on the world of the job queue and the table of versions. Parameters are the statements
-- that fail, what `forget_asset` (reports, checks and topics, in tables of their own) and the removal
-- of a directory answer, and the bytes of a directory.
use tiletopia.Prelude.{
  ℕ, ◌+◌, ◌*◌, String, Bool, ◌&&◌, ◌||◌, Option, none, some, List, [], ◌∷◌, ltb, leb, ◌==◌,
  if◌then◌else◌,
}
use tiletopia.Prelude.Res.{Res, ok, err}
use tiletopia.JobQueue.{
  JobRecord, Asset, AssetStatus, uploading, tiling, ready, error, World, get_asset, try_write,
}

pub record AssetVersion : Type 0 where
  pub asset_id : ℕ
  pub base_asset_id : ℕ
  pub version_number : ℕ

-- The rows, and the assets whose removal was announced, the last first.
pub record Store : Type 0 where
  pub world : World
  pub versions : List AssetVersion
  pub announced : List ℕ

abbrev pub most_versions_kept : ℕ
most_versions_kept = 5

abbrev pub most_bytes_kept_per_model : ℕ
most_bytes_kept_per_model = 20 * 1024 * 1024 * 1024

abbrev pub version_of : ℕ → List AssetVersion → Option AssetVersion
version_of id [] = none
version_of id (v ∷ versions) =
    let rest = version_of id versions in if v.asset_id == id then some v else rest

abbrev pub insert_newest : AssetVersion → List AssetVersion → List AssetVersion
insert_newest v [] = v ∷ []
insert_newest v (w ∷ versions) =
    let rest = insert_newest v versions in
    if leb w.version_number v.version_number then v ∷ w ∷ versions else w ∷ rest

-- `WHERE base_asset_id = ? ORDER BY version_number DESC`
abbrev pub versions_newest_first : ℕ → List AssetVersion → List AssetVersion
versions_newest_first base [] = []
versions_newest_first base (v ∷ versions) =
    let rest = versions_newest_first base versions in
    if v.base_asset_id == base then insert_newest v rest else rest

abbrev pub without_jobs : ℕ → List JobRecord → List JobRecord
without_jobs id [] = []
without_jobs id (row ∷ rows) =
    let rest = without_jobs id rows in if row.asset_id == id then rest else row ∷ rest

abbrev pub without_asset : ℕ → List Asset → List Asset
without_asset id [] = []
without_asset id (row ∷ rows) =
    let rest = without_asset id rows in if row.id == id then rest else row ∷ rest

abbrev pub without_version : ℕ → List AssetVersion → List AssetVersion
without_version id [] = []
without_version id (v ∷ versions) =
    let rest = without_version id versions in if v.asset_id == id then rest else v ∷ rest

abbrev pub StepResult : Type 0
StepResult = Res String (Unit {0}) × Store

-- `?` after a statement
infixl 5 ◌then◌
abbrev pub ◌then◌ : StepResult → (Store → StepResult) → StepResult
(ok _, s) then k = k s
(err e, s) then k = (err e, s)

abbrev pub set_jobs : List JobRecord → Store → Store
set_jobs jobs s = record {
  world = record {
    jobs = jobs;
    assets = s.world.assets;
    events = s.world.events;
    clock = s.world.clock;
    tried = s.world.tried;
  };
  versions = s.versions;
  announced = s.announced;
}

abbrev pub set_assets : List Asset → Store → Store
set_assets assets s = record {
  world = record {
    jobs = s.world.jobs;
    assets = assets;
    events = s.world.events;
    clock = s.world.clock;
    tried = s.world.tried;
  };
  versions = s.versions;
  announced = s.announced;
}

abbrev pub ticked : Store → Store
ticked s = record {
  world = record {
    jobs = s.world.jobs;
    assets = s.world.assets;
    events = s.world.events;
    clock = s.world.clock;
    tried = s.world.tried + 1;
  };
  versions = s.versions;
  announced = s.announced;
}

-- The four `DELETE`s of `delete_asset`, the second of them in a table that is not kept here.
abbrev pub drop_jobs : ℕ → Store → Store
drop_jobs id s = set_jobs (without_jobs id s.world.jobs) s

abbrev pub drop_version : ℕ → Store → Store
drop_version id s = record {
  world = s.world;
  versions = without_version id s.versions;
  announced = s.announced;
}

abbrev pub drop_asset : ℕ → Store → Store
drop_asset id s = set_assets (without_asset id s.world.assets) s

abbrev pub announce : ℕ → Store → Store
announce id s = record { world = s.world; versions = s.versions; announced = id ∷ s.announced }

abbrev pub fits_limits : ℕ → ℕ → ℕ → Bool
fits_limits kept_versions kept_bytes bytes =
    (kept_versions == 0)
    || (ltb kept_versions most_versions_kept && leb (kept_bytes + bytes) most_bytes_kept_per_model)

-- The rest of the loop, given what it keeps so far.
abbrev pub Rest : Type 0
Rest = ℕ → ℕ → Store → StepResult

module _ (fault : ℕ → Option String) where
  abbrev pub run_statement : (Store → Store) → Store → Res String (Unit {0}) → StepResult
  run_statement f s (ok _) = (ok tt, f (ticked s))
  run_statement f s (err e) = (err e, ticked s)

  -- A statement that changes rows unless it fails.
  abbrev pub statement : (Store → Store) → Store → StepResult
  statement f s = run_statement f s (try_write fault s.world)

  unfoldable pub delete_asset : ℕ → Store → StepResult
  delete_asset id s =
      statement (drop_jobs id) s
      then statement (λ s. s)
      then statement (drop_version id)
      then statement (drop_asset id)

module _ (fault : ℕ → Option String) (forget_asset : ℕ → Res String (Unit {0}))
    (remove_dir_all : ℕ → Res String (Unit {0})) (directory_bytes : ℕ → Res String ℕ) where
  unfoldable pub remove_version : ℕ → Store → StepResult
  remove_version id s =
      (forget_asset id, s)
      then delete_asset fault id
      then (λ s. (remove_dir_all id, s))
      then (λ s. (ok tt, announce id s))

  abbrev pub retain_ready : ℕ → Rest → ℕ → ℕ → Store → Res String ℕ → StepResult
  retain_ready id rest kept_versions kept_bytes s (err e) = (err e, s)
  retain_ready id rest kept_versions kept_bytes s (ok bytes) =
      if fits_limits kept_versions kept_bytes bytes
      then rest (kept_versions + 1) (kept_bytes + bytes) s
      else (remove_version id s then rest kept_versions kept_bytes)

  abbrev pub retain_member : ℕ → AssetStatus → Rest → ℕ → ℕ → Store → StepResult
  retain_member id uploading rest kept_versions kept_bytes s = rest kept_versions kept_bytes s
  retain_member id tiling rest kept_versions kept_bytes s = rest kept_versions kept_bytes s
  retain_member id error rest kept_versions kept_bytes s =
      if ltb 0 kept_versions
      then (remove_version id s then rest kept_versions kept_bytes)
      else rest kept_versions kept_bytes s
  retain_member id ready rest kept_versions kept_bytes s =
      retain_ready id rest kept_versions kept_bytes s (directory_bytes id)

  abbrev pub retain_found : Res String (Option Asset) → Rest → ℕ → ℕ → Store → StepResult
  retain_found (err e) rest kept_versions kept_bytes s = (err e, s)
  retain_found (ok none) rest kept_versions kept_bytes s = rest kept_versions kept_bytes s
  retain_found (ok (some member)) rest kept_versions kept_bytes s =
      retain_member member.id member.status rest kept_versions kept_bytes s

  unfoldable pub retain : List AssetVersion → ℕ → ℕ → Store → StepResult
  retain [] kept_versions kept_bytes s = (ok tt, s)
  retain (version ∷ versions) kept_versions kept_bytes s =
      retain_found (get_asset fault version.asset_id s.world) (retain versions) kept_versions
        kept_bytes (ticked s)

  abbrev pub retain_of : Option AssetVersion → Store → StepResult
  retain_of none s = (ok tt, s)
  retain_of (some version) s =
      statement fault (λ s. s) s
      then (λ s'. retain (versions_newest_first version.base_asset_id s.versions) 0 0 s')

  unfoldable pub apply_retention : ℕ → Store → StepResult
  apply_retention asset_id s =
      statement fault (λ s. s) s then retain_of (version_of asset_id s.versions)
