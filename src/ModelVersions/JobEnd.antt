-- ===== src/ModelVersions/JobEnd.antt =====
-- The end of a job of crates/tiletopia-server/src/job_queue.rs with the retention of
-- crates/tiletopia-server/src/model_versions.rs that it runs.
use tiletopia.Prelude.{ℕ, String, ◌≡◌, refl, sym, subst, ◌≢◌, inl, true, Option, some, List, []}
use tiletopia.Prelude.Res.{Res}
use tiletopia.JobQueue.{JobRecord, World, TiledAsset, Reason, done}
use tiletopia.JobQueue.Settle.{record_outcome}
use tiletopia.JobQueue.Laws.{find_job}
use tiletopia.JobQueue.Served.{Served, record_outcome-Served_at}
use tiletopia.ModelVersions.Retention.{AssetVersion, apply_retention}
use tiletopia.ModelVersions.Kept.{apply_retention-Safe}
use tiletopia.ModelVersions.Rows.{Belongs}

module _ (fault : ℕ → Option String) (forget_asset : ℕ → Res String (Unit {0}))
    (remove_dir_all : ℕ → Res String (Unit {0})) (directory_bytes : ℕ → Res String ℕ)
    (versions : List AssetVersion) where
  -- What retention does to the job queue's world, given the table of versions.
  unfoldable pub retention : ℕ → World → World
  retention asset_id w =
      (apply_retention fault forget_asset remove_dir_all directory_bytes asset_id
        (record { world = w; versions = versions; announced = [] })).1.world

  -- Where the row of a job that is not done stands in the table, and every row with its id is a job
  -- of its asset: record_outcome with status_follows_job true, and with the retention that it runs,
  -- leaves the job as done only if its asset is ready with as many tiles, whichever operations fail.
  pub record_outcome-retention :
      (job row : JobRecord) (outcome : Res Reason TiledAsset) (w : World)
      → Belongs job.id job.asset_id w.jobs
      → find_job job.id w.jobs ≡ some row
      → row.status ≢ done
      → Served job (record_outcome fault retention job true outcome w)
  unfolding retention
  record_outcome-retention job row outcome w belongs found open_row =
      record_outcome-Served_at fault retention job row outcome w
        (λ v same.
          (apply_retention-Safe fault forget_asset remove_dir_all directory_bytes job.id
            job.asset_id _ _ job.asset_id
            (record { world = v; versions = versions; announced = [] })
            (subst (Belongs job.id job.asset_id) (sym same) belongs, inl (refl, refl))).1)
        found open_row
