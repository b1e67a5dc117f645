-- ===== src/JobQueue/Run.antt =====
-- `run_job`, `fail_interrupted_jobs` and `submit` of crates/tiletopia-server/src/job_queue.rs. The
-- parameters are the failing operations, `apply_retention`, the removal of the element store, and
-- the tiler: what it hands back, and what the rest of the server does to the world meanwhile. A
-- photo set is reconstructed in a task of its own, which ends in `record_outcome` like a tiler.
use tiletopia.Prelude.{
  ℕ, String, Bool, true, false, Option, none, some, List, [], ◌∷◌, if◌then◌else◌, length,
}
use tiletopia.Prelude.Res.{Res, ok, err, ◌>>◌}
use tiletopia.JobQueue.{
  running, AssetType, tiling, Reason, interrupted, asset_gone, asset_unread, tiling_unwritten,
  JobRecord, Asset, TiledAsset, World, is_status, tick, get_asset, try_write, update_job,
  update_asset,
}
use tiletopia.JobQueue.Settle.{asset_status_follows_job, with_status, finish, record_outcome}

unfoldable pub started : ℕ → JobRecord → JobRecord
started now job = record {
  id = job.id;
  asset_id = job.asset_id;
  status = running;
  progress = job.progress;
  created_at = job.created_at;
  started_at = some now;
  completed_at = job.completed_at;
  error = job.error;
  tiles_written = job.tiles_written;
}

module _ (fault : ℕ → Option String) (apply_retention : ℕ → World → World)
    (remove_store : ℕ → Res Reason (Unit {0}))
    (tile : AssetType → JobRecord → Res Reason TiledAsset) (meanwhile : World → World) where
  -- From the removal of the element store on.
  unfoldable pub run_tiler : JobRecord → AssetType → Bool → World → World
  unfolding record_outcome
  run_tiler job asset_type follows w = elim (remove_store job.asset_id) [
    | err reason ↦ record_outcome fault apply_retention job follows (err reason) w
    | ok _ ↦ record_outcome fault apply_retention job follows (tile asset_type job) (meanwhile w)
  ]

  -- The asset is marked as tiling, where its status follows the job.
  unfoldable pub mark_tiling : JobRecord → Asset → World → World
  unfolding asset_status_follows_job with_status update_asset try_write record_outcome run_tiler
  mark_tiling job asset w =
      if asset_status_follows_job asset
      then elim (try_write fault w) [
        | ok _ ↦
            run_tiler job asset.asset_type true
              (update_asset fault (with_status tiling asset.tile_count asset) w)
        | err e ↦
            record_outcome fault apply_retention job true (err (tiling_unwritten job.asset_id e))
              (update_asset fault (with_status tiling asset.tile_count asset) w)
      ]
      else run_tiler job asset.asset_type false w

  -- The job is written as running; the asset is read.
  unfoldable pub run_started : JobRecord → World → World
  unfolding get_asset finish mark_tiling
  run_started job w = elim (get_asset fault job.asset_id w) [
    | ok (some asset) ↦ mark_tiling job asset (tick w)
    | ok none ↦ finish fault job (err (asset_gone job.asset_id)) (tick w)
    | err e ↦ finish fault job (err (asset_unread job.asset_id e)) (tick w)
  ]

  unfoldable pub run_job : JobRecord → World → World
  unfolding started update_job try_write run_started
  run_job job w = elim (try_write fault w) [
    | err e ↦ update_job fault (started w.clock job) w
    | ok _ ↦ run_started (started w.clock job) (update_job fault (started w.clock job) w)
  ]

-- `Database::list_running_jobs`
unfoldable pub running_jobs : List JobRecord → List JobRecord
unfolding is_status
running_jobs [] = []
running_jobs (job ∷ jobs) =
    let rest = running_jobs jobs in if is_status job.status running then job ∷ rest else rest

module _ (fault : ℕ → Option String) (apply_retention : ℕ → World → World) where
  -- `is_some_and(|asset| asset_status_follows_job(&asset))`
  unfoldable pub follows_of : Option Asset → Bool
  unfolding asset_status_follows_job
  follows_of none = false
  follows_of (some asset) = asset_status_follows_job asset

  -- The loop of `fail_interrupted_jobs`; a failing read of an asset ends it.
  unfoldable pub fail_jobs : List JobRecord → World → Res String (Unit {0}) × World
  unfolding get_asset record_outcome follows_of
  fail_jobs [] w = (ok tt, w)
  fail_jobs (job ∷ jobs) w = elim (get_asset fault job.asset_id w) [
    | err e ↦ (err e, tick w)
    | ok asset ↦
        fail_jobs jobs
          (record_outcome fault apply_retention job (follows_of asset) (err interrupted) (tick w))
  ]

  unfoldable pub fail_interrupted_jobs : World → Res String ℕ × World
  unfolding try_write running_jobs fail_jobs
  fail_interrupted_jobs w =
      let listed = running_jobs w.jobs in
      elim (try_write fault w) [
        | err e ↦ (err e, tick w)
        | ok _ ↦ let (ended, v) = fail_jobs listed (tick w) in (ended >> ok (length listed), v)
      ]
