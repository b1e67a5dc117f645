-- ===== src/JobQueue/Settle.antt =====
-- How a job of crates/tiletopia-server/src/job_queue.rs ends: `record_outcome`, which writes the
-- asset, and then `finish`, which writes the job and emits the event. The parameters are the
-- operations that fail, and `apply_retention` of model_versions.rs, as what it does to the world.
use tiletopia.Prelude.{
  ℕ, ◌+◌, String, Bool, true, false, not, ◌||◌, Option, none, some, [], ◌∷◌, ◌++◌, if◌then◌else◌,
}
use tiletopia.Prelude.Res.{Res, ok, err, is_ok}
use tiletopia.JobQueue.{
  done, failed, AssetType, imagery, czml, AssetStatus, ready, error, Reason, deleted_asset,
  asset_unread, asset_unwritten, outcome_unwritten, wrote_tiles, and_failed, JobRecord, Asset,
  TiledAsset, WebhookEvent, job_completed, job_failed, Emitted, World, tick, get_asset, try_write,
  update_job, update_asset,
}

unfoldable pub asset_status_follows_job : Asset → Bool
asset_status_follows_job asset = not (matches asset.asset_type) || not (is_ready asset.status)
  where
    matches : AssetType → Bool
    matches imagery = true
    matches czml = true
    matches t = false

    is_ready : AssetStatus → Bool
    is_ready ready = true
    is_ready s = false

unfoldable pub settled_job : ℕ → JobRecord → Res Reason TiledAsset → JobRecord × WebhookEvent
settled_job now job (ok tiled) = (
  record {
    id = job.id;
    asset_id = job.asset_id;
    status = done;
    progress = 100;
    created_at = job.created_at;
    started_at = job.started_at;
    completed_at = some now;
    error = tiled.dropped;
    tiles_written = tiled.tiles_written;
  },
  job_completed,
)
settled_job now job (err reason) = (
  record {
    id = job.id;
    asset_id = job.asset_id;
    status = failed;
    progress = job.progress;
    created_at = job.created_at;
    started_at = job.started_at;
    completed_at = some now;
    error = some reason;
    tiles_written = job.tiles_written;
  },
  job_failed,
)

unfoldable pub unrecorded_outcome_error : Res Reason TiledAsset → Reason → Reason
unrecorded_outcome_error (ok tiled) failed_write = wrote_tiles tiled.tiles_written failed_write
unrecorded_outcome_error (err reason) failed_write = and_failed reason failed_write

-- `asset.and_then(|asset| asset.owner_id)`, and no owner where the read fails
unfoldable pub owner_of : Res String (Option Asset) → Option ℕ
owner_of (ok (some asset)) = asset.owner_id
owner_of (ok none) = none
owner_of (err e) = none

unfoldable pub with_status : AssetStatus → ℕ → Asset → Asset
with_status status tiles asset = record {
  id = asset.id;
  asset_type = asset.asset_type;
  status = status;
  tile_count = tiles;
  owner_id = asset.owner_id;
}

module _ (fault : ℕ → Option String) where
  unfoldable pub emitted : JobRecord × WebhookEvent → World → Emitted
  unfolding get_asset owner_of
  emitted (settled, event) w = record {
    event = event;
    owner = owner_of (get_asset fault settled.asset_id w);
    about = settled;
  }

  -- The end of `finish`: the event with the settled job.
  unfoldable pub tell : JobRecord × WebhookEvent → World → World
  unfolding emitted
  tell settled w = record {
    jobs = w.jobs;
    assets = w.assets;
    events = w.events ++ emitted settled w ∷ [];
    clock = w.clock;
    tried = w.tried + 1;
  }

  -- The second write of `finish`, of the failure.
  unfoldable pub finish_failed : JobRecord × WebhookEvent → World → World
  unfolding update_job try_write tell
  finish_failed settled w =
      let written = update_job fault settled.0 w in
      if is_ok (try_write fault w) then tell settled written else written

  -- `finish` after its first write
  unfoldable pub finish_after :
      JobRecord → Res Reason TiledAsset → World → Res String (Unit {0}) → World
  unfolding settled_job unrecorded_outcome_error update_job finish_failed tell
  finish_after job outcome w (ok _) =
      let settled = settled_job w.clock job outcome in tell settled (update_job fault settled.0 w)
  finish_after job outcome w (err e) =
      finish_failed
        (settled_job w.clock job (err (unrecorded_outcome_error outcome (outcome_unwritten e))))
        (update_job fault (settled_job w.clock job outcome).0 w)

  unfoldable pub finish : JobRecord → Res Reason TiledAsset → World → World
  unfolding finish_after try_write
  finish job outcome w = finish_after job outcome w (try_write fault w)

  unfoldable pub asset_after : Res Reason TiledAsset → Asset → Asset
  unfolding with_status
  asset_after (ok tiled) asset = with_status ready tiled.tiles_written asset
  asset_after (err reason) asset = with_status error asset.tile_count asset

  -- `write_asset_outcome` after its first write: the outcome that the job is given, and the world
  unfoldable pub write_asset_after :
      Asset → Res Reason TiledAsset → World → Res String (Unit {0}) → Res Reason TiledAsset × World
  unfolding asset_after update_asset unrecorded_outcome_error
  write_asset_after asset outcome w (ok _) =
      (outcome, update_asset fault (asset_after outcome asset) w)
  write_asset_after asset outcome w (err e) =
      let settled = asset_after outcome asset in
      (
        err (unrecorded_outcome_error outcome (asset_unwritten asset.id e)),
        update_asset fault (with_status error settled.tile_count asset)
            (update_asset fault settled w),
      )

  unfoldable pub write_asset_outcome :
      Asset → Res Reason TiledAsset → World → Res Reason TiledAsset × World
  unfolding write_asset_after try_write
  write_asset_outcome asset outcome w = write_asset_after asset outcome w (try_write fault w)

  module _ (apply_retention : ℕ → World → World) where
    -- The end of `record_outcome`, with the outcome that is recorded.
    unfoldable pub retain_and_finish : JobRecord → Res Reason TiledAsset × World → World
    unfolding finish
    retain_and_finish job (outcome, w) =
        finish job outcome (if is_ok outcome then apply_retention job.asset_id w else w)

    -- `record_outcome` after it has read the asset
    unfoldable pub record_for :
        JobRecord → Bool → Res Reason TiledAsset → World → Res String (Option Asset) → World
    unfolding finish write_asset_outcome retain_and_finish unrecorded_outcome_error
    record_for job follows outcome w (err e) =
        finish job (err (unrecorded_outcome_error outcome (asset_unread job.asset_id e))) w
    record_for job follows outcome w (ok none) = finish job (err deleted_asset) w
    record_for job follows outcome w (ok (some asset)) =
        retain_and_finish job
          (if follows then write_asset_outcome asset outcome w else (outcome, w))

    unfoldable pub record_outcome : JobRecord → Bool → Res Reason TiledAsset → World → World
    unfolding get_asset record_for
    record_outcome job follows outcome w =
        record_for job follows outcome (tick w) (get_asset fault job.asset_id w)
