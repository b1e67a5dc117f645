-- ===== src/JobQueue/Tests.antt =====
-- Runs of the queue on one job and its asset.
use tiletopia.Prelude.{ℕ, String, ◌≡◌, refl, Option, none, some, [], ◌∷◌, ◌==◌, if◌then◌else◌}
use tiletopia.Prelude.Res.{Res, ok}
use tiletopia.JobQueue.{
  JobStatus, queued, running, model, uploading, ready, Reason, JobRecord, Asset, TiledAsset, World,
  find_asset, write_asset, tick, get_asset, try_write, update_job, older, next_queued_job,
}
use tiletopia.JobQueue.Settle.{finish, record_outcome}
use tiletopia.JobQueue.Run.{run_job}
use tiletopia.JobQueue.Laws.{find_job, finish_lem, Ends}
use tiletopia.JobQueue.Recovery.{Taken, Oldest, next_queued_job_lem}

abbrev waiting : ℕ → JobStatus → JobRecord
waiting id status = record {
  id = id;
  asset_id = 7;
  status = status;
  progress = 0;
  created_at = id;
  started_at = none;
  completed_at = none;
  error = none;
  tiles_written = 0;
}

abbrev tower : Asset
tower = record { id = 7; asset_type = model; status = uploading; tile_count = 0; owner_id = some 5 }

abbrev table : World
table = record {
  jobs = waiting 1 running ∷ waiting 3 queued ∷ waiting 2 queued ∷ [];
  assets = tower ∷ [];
  events = [];
  clock = 100;
  tried = 0;
}

-- The first operation fails, and no other.
abbrev first_fails : ℕ → Option String
first_fails n = if n == 0 then some "locked" else none

abbrev nothing_fails : ℕ → Option String
nothing_fails n = none

abbrev nine_tiles : Res Reason TiledAsset
nine_tiles = ok (record { tiles_written = 9; dropped = none })

abbrev keeps_all : ℕ → World → World
keeps_all id w = w

run_job_run :
    (run_job nothing_fails keeps_all
      (λ id. ok tt)
      (λ t j. nine_tiles)
      (λ w. w)
      (waiting 2 queued)
      table).assets
    ≡ record { id = 7; asset_type = model; status = ready; tile_count = 9; owner_id = some 5 } ∷ []
unfolding run_job try_write update_job get_asset find_asset write_asset record_outcome tick
run_job_run = refl

found : find_job 1 table.jobs ≡ some (waiting 1 running)
unfolding find_job
found = refl

taken : next_queued_job [] table.jobs ≡ some (waiting 2 queued)
unfolding next_queued_job older
taken = refl

finish_lem_example :
    Ends first_fails
      (waiting 1 running)
      nine_tiles
      table
      (finish first_fails (waiting 1 running) nine_tiles table)
finish_lem_example =
    finish_lem first_fails (waiting 1 running) (waiting 1 running) nine_tiles table found

next_queued_job_lem_example : Taken [] (waiting 2 queued) × Oldest [] (waiting 2 queued) table.jobs
next_queued_job_lem_example = next_queued_job_lem [] table.jobs (waiting 2 queued) taken
