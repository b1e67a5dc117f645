-- ===== src/JobQueue.antt =====
-- Tiling jobs: the rows of crates/tiletopia-server/src/db.rs that the queue of
-- crates/tiletopia-server/src/job_queue.rs works on, as lists in a world with a clock and the
-- webhook events that were emitted. A query or a write may fail: the parameter `fault` says which
-- of the operations do, counted from the start. A text of an error is a `Reason`, one constructor
-- per format string. The columns of a job that only the tilers read are left out.
use tiletopia.Prelude.{
  ℕ, ◌+◌, String, Bool, false, not, ◌&&◌, ◌||◌, Option, none, some, List, [], ◌∷◌, leb, ◌==◌,
  if◌then◌else◌,
}
use tiletopia.Prelude.Res.{Res, ok, err, is_ok}
pub mod Settle
pub mod Run
pub mod Laws
pub mod Served
pub mod Recovery
pub mod Tests

pub data JobStatus : Type 0 where
  queued running done failed : JobStatus

pub data AssetType : Type 0 where
  point_cloud terrain model imagery vector czml : AssetType

pub data AssetStatus : Type 0 where
  uploading tiling ready error : AssetStatus

pub data Reason : Type 0 where
  tiler_error : String → Reason
  interrupted : Reason
  deleted_asset : Reason
  asset_gone : ℕ → Reason
  asset_unread : ℕ → String → Reason
  tiling_unwritten : ℕ → String → Reason
  asset_unwritten : ℕ → String → Reason
  outcome_unwritten : String → Reason
  dropped_elements : String → Reason
  wrote_tiles : ℕ → Reason → Reason
  and_failed : Reason → Reason → Reason

pub record JobRecord : Type 0 where
  pub id : ℕ
  pub asset_id : ℕ
  pub status : JobStatus
  -- in hundredths
  pub progress : ℕ
  pub created_at : ℕ
  pub started_at : Option ℕ
  pub completed_at : Option ℕ
  pub error : Option Reason
  pub tiles_written : ℕ

pub record Asset : Type 0 where
  pub id : ℕ
  pub asset_type : AssetType
  pub status : AssetStatus
  pub tile_count : ℕ
  pub owner_id : Option ℕ

-- What a tiler hands back: the tiles, and what it dropped.
pub record TiledAsset : Type 0 where
  pub tiles_written : ℕ
  pub dropped : Option Reason

pub data WebhookEvent : Type 0 where
  job_completed job_failed : WebhookEvent

pub record Emitted : Type 0 where
  pub event : WebhookEvent
  pub owner : Option ℕ
  pub about : JobRecord

pub record World : Type 0 where
  pub jobs : List JobRecord
  pub assets : List Asset
  pub events : List Emitted
  pub clock : ℕ
  -- how many queries and writes were tried
  pub tried : ℕ

unfoldable pub status_code : JobStatus → ℕ
status_code queued = 0
status_code running = 1
status_code done = 2
status_code failed = 3

-- `JobStatus: PartialEq`
unfoldable pub is_status : JobStatus → JobStatus → Bool
unfolding status_code
is_status a b = status_code a == status_code b

unfoldable pub find_asset : ℕ → List Asset → Option Asset
find_asset id [] = none
find_asset id (asset ∷ assets) = if asset.id == id then some asset else find_asset id assets

-- `UPDATE jobs SET … WHERE id = ?`, which keeps the time of creation
unfoldable pub write_job : JobRecord → List JobRecord → List JobRecord
write_job job [] = []
write_job job (row ∷ rows) =
    let rest = write_job job rows in
    if row.id == job.id
    then record {
      id = row.id;
      asset_id = job.asset_id;
      status = job.status;
      progress = job.progress;
      created_at = row.created_at;
      started_at = job.started_at;
      completed_at = job.completed_at;
      error = job.error;
      tiles_written = job.tiles_written;
    }
      ∷ rest
    else row ∷ rest

-- `UPDATE assets SET … WHERE id = ?`, which keeps the owner
unfoldable pub write_asset : Asset → List Asset → List Asset
write_asset asset [] = []
write_asset asset (row ∷ rows) =
    let rest = write_asset asset rows in
    if row.id == asset.id
    then record {
      id = row.id;
      asset_type = asset.asset_type;
      status = asset.status;
      tile_count = asset.tile_count;
      owner_id = row.owner_id;
    }
      ∷ rest
    else row ∷ rest

unfoldable pub tick : World → World
tick w = record {
  jobs = w.jobs;
  assets = w.assets;
  events = w.events;
  clock = w.clock;
  tried = w.tried + 1;
}

module _ (fault : ℕ → Option String) where
  abbrev outcome_of {ℓ} : {A : Type ℓ} → Option String → A → Res String A
  outcome_of none a = ok a
  outcome_of (some e) a = err e

  unfoldable pub get_asset : ℕ → World → Res String (Option Asset)
  unfolding find_asset
  get_asset id w = outcome_of (fault w.tried) (find_asset id w.assets)

  -- The outcome of the next write.
  unfoldable pub try_write : World → Res String (Unit {0})
  try_write w = outcome_of (fault w.tried) tt

  -- The world after `Database::update_job`.
  unfoldable pub update_job : JobRecord → World → World
  unfolding try_write write_job
  update_job job w = record {
    jobs = if is_ok (try_write w) then write_job job w.jobs else w.jobs;
    assets = w.assets;
    events = w.events;
    clock = w.clock;
    tried = w.tried + 1;
  }

  -- The world after `Database::update_asset`.
  unfoldable pub update_asset : Asset → World → World
  unfolding try_write write_asset
  update_asset asset w = record {
    jobs = w.jobs;
    assets = if is_ok (try_write w) then write_asset asset w.assets else w.assets;
    events = w.events;
    clock = w.clock;
    tried = w.tried + 1;
  }

-- `Database::next_queued_job`: the oldest of the queued jobs whose asset is not excluded
unfoldable pub member : ℕ → List ℕ → Bool
member x [] = false
member x (y ∷ ys) = y == x || member x ys

unfoldable pub older : JobRecord → Option JobRecord → JobRecord
older job none = job
older job (some other) = if leb job.created_at other.created_at then job else other

unfoldable pub next_queued_job : List ℕ → List JobRecord → Option JobRecord
unfolding is_status member older
next_queued_job excluded [] = none
next_queued_job excluded (job ∷ jobs) =
    let rest = next_queued_job excluded jobs in
    if is_status job.status queued && not (member job.asset_id excluded)
    then some (older job rest)
    else rest
