-- ===== src/ModelVersions/Tests.antt =====
-- Retention over three versions of a model, and at the end of a job.
use tiletopia.Prelude.{ℕ, ◌*◌, String, ◌≡◌, refl, ◌≢◌, true, Option, none, some, [], ◌∷◌}
use tiletopia.Prelude.Res.{Res, ok}
use tiletopia.JobQueue.{
  running, done, model, ready, JobRecord, Asset, TiledAsset, Reason, find_asset, get_asset,
  try_write,
}
use tiletopia.JobQueue.Settle.{record_outcome}
use tiletopia.JobQueue.Laws.{find_job}
use tiletopia.JobQueue.Served.{Served}
use tiletopia.ModelVersions.Retention.{
  AssetVersion, Store, versions_newest_first, delete_asset, remove_version, retain, apply_retention,
}
use tiletopia.ModelVersions.Rows.{Belongs}
use tiletopia.ModelVersions.JobEnd.{retention, record_outcome-retention}
use tiletopia.ModelVersions.Limits.{apply_retention-IsWithin}
use tiletopia.ModelVersions.Shrinking.{IsWithin, ready_versions, ready_bytes}

abbrev tower : ℕ → Asset
tower id = record { id = id; asset_type = model; status = ready; tile_count = 0; owner_id = some 5 }

abbrev version : ℕ → ℕ → AssetVersion
version id number = record { asset_id = id; base_asset_id = 7; version_number = number }

abbrev tiling_job : JobRecord
tiling_job = record {
  id = 1;
  asset_id = 9;
  status = running;
  progress = 0;
  created_at = 1;
  started_at = none;
  completed_at = none;
  error = none;
  tiles_written = 0;
}

-- Assets 7, 8 and 9 are versions 1, 2 and 3 of one model.
abbrev three : Store
three = record {
  world = record {
    jobs = tiling_job ∷ [];
    assets = tower 7 ∷ tower 8 ∷ tower 9 ∷ [];
    events = [];
    clock = 100;
    tried = 0;
  };
  versions = version 7 1 ∷ version 8 2 ∷ version 9 3 ∷ [];
  announced = [];
}

abbrev nothing_fails : ℕ → Option String
nothing_fails n = none

abbrev done_well : ℕ → Res String (Unit {0})
done_well id = ok tt

-- Each version is of 15 GiB, so only the newest is left.
abbrev large : ℕ → Res String ℕ
large id = ok (15 * 1024 * 1024 * 1024)

abbrev newest_left : Store
newest_left = record {
  world = record {
    jobs = tiling_job ∷ [];
    assets = tower 9 ∷ [];
    events = [];
    clock = 100;
    tried = 13;
  };
  versions = version 9 3 ∷ [];
  announced = 7 ∷ 8 ∷ [];
}

newest_stays :
    apply_retention nothing_fails done_well done_well large 9 three ≡ (ok tt, newest_left)
unfolding apply_retention retain remove_version delete_asset get_asset find_asset try_write
newest_stays = refl

apply_retention-IsWithin_example :
    let members = versions_newest_first 7 three.versions in
    IsWithin
      (ready_versions members newest_left.world.assets)
      (ready_bytes large members newest_left.world.assets)
apply_retention-IsWithin_example =
    apply_retention-IsWithin nothing_fails done_well done_well large 9 (version 9 3) three
      newest_left refl newest_stays

abbrev nine_tiles : Res Reason TiledAsset
nine_tiles = ok (record { tiles_written = 9; dropped = none })

belongs : Belongs 1 9 three.world.jobs
belongs = ((λ e. refl), tt)

found : find_job 1 three.world.jobs ≡ some tiling_job
unfolding find_job
found = refl

open_row : running ≢ done
open_row h = cc

record_outcome-retention_example : Served tiling_job (
    record_outcome nothing_fails
      (retention nothing_fails done_well done_well large three.versions)
      tiling_job
      true
      nine_tiles
      three.world)
record_outcome-retention_example =
    record_outcome-retention nothing_fails done_well done_well large three.versions tiling_job
      tiling_job nine_tiles three.world belongs found open_row
