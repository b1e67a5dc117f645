-- ===== src/JobQueue/Laws.antt =====
-- What holds of a job's end in crates/tiletopia-server/src/job_queue.rs: its row, the event that
-- tells of it, and its asset.
use tiletopia.Prelude.{
  ℕ, ◌+◌, String, ◌≡◌, refl, sym, ap, subst, ◌∙◌, ◌≢◌, ◌⊎◌, inl, inr, true, Option, none, some,
  List, [], ◌∷◌, ◌++◌, arith, ◌==◌, if◌then◌else◌, Bool-cases, Option-cases, is_some,
}
use tiletopia.Prelude.Res.{Res, ok, err}
use tiletopia.JobQueue.{
  JobStatus, done, failed, Reason, outcome_unwritten, JobRecord, Asset, TiledAsset, WebhookEvent,
  job_completed, job_failed, Emitted, World, find_asset, write_job, write_asset, try_write,
  update_job,
}
use mathlib.Core.Option.{some-injective}
use tiletopia.JobQueue.Settle.{
  settled_job, unrecorded_outcome_error, emitted, tell, finish_failed, finish_after, finish,
}

unfoldable pub find_job : ℕ → List JobRecord → Option JobRecord
find_job id [] = none
find_job id (job ∷ jobs) = if job.id == id then some job else find_job id jobs

-- The row after the write of a job, and the job it stands for.
pub Holds : JobRecord → JobRecord → Type 0
Holds row job =
    (row.id ≡ job.id)
    × (row.status ≡ job.status)
    × (row.tiles_written ≡ job.tiles_written)
    × (row.error ≡ job.error)
    × (row.completed_at ≡ job.completed_at)

find_job-write_job :
    (job row : JobRecord) (rows : List JobRecord)
    → find_job job.id rows ≡ some row
    → (after : JobRecord) × (find_job job.id (write_job job rows) ≡ some after) × Holds after job
unfolding find_job write_job Holds
find_job-write_job job row [] h = cc
find_job-write_job job row (other ∷ rows) h = elim (Bool-cases (other.id == job.id)) [
  | inl e ↦ rw (e, e) (_, refl, ground arith)
  | inr e ↦
      let (after, found, holds) = find_job-write_job job row rows (rw e at h) in
      (after, ground arith, holds)
]

-- What `update_asset` leaves of a row: its owner, with the asset's other columns.
abbrev pub updated : Asset → Asset → Asset
updated asset row = record {
  id = row.id;
  asset_type = asset.asset_type;
  status = asset.status;
  tile_count = asset.tile_count;
  owner_id = row.owner_id;
}

pub find_asset-write_asset :
    (asset row : Asset) (rows : List Asset)
    → find_asset asset.id rows ≡ some row
    → find_asset asset.id (write_asset asset rows) ≡ some (updated asset row)
unfolding find_asset write_asset
find_asset-write_asset asset row [] h = cc
find_asset-write_asset asset row (other ∷ rows) h = elim (Bool-cases (other.id == asset.id)) [
  | inl e ↦
      let same = some-injective _ _ (rw e at h) in rw (e, e) (ap (λ r. some (updated asset r)) same)
  | inr e ↦ rw (e, e) (find_asset-write_asset asset row rows (rw e at h))
]

-- The status that an event reports.
abbrev pub reported : WebhookEvent → JobStatus
reported job_completed = done
reported job_failed = failed

-- The outcome that a row with so many tiles stands for.
abbrev pub Tiled : Res Reason TiledAsset → JobRecord → Type 0
Tiled outcome row = (t : TiledAsset) × (outcome ≡ ok t) × (row.tiles_written ≡ t.tiles_written)

module _ (fault : ℕ → Option String) where
  -- What finish does to the row of its job: it settles it and tells of it, or, where both of its
  -- writes fail, leaves everything as it was.
  abbrev pub Ends : JobRecord → Res Reason TiledAsset → World → World → Type 0
  Ends job outcome w after =
      ((row : JobRecord) × (e : Emitted) × (find_job job.id after.jobs ≡ some row)
        × (after.events ≡ w.events ++ e ∷ [])
        × (row.status ≡ reported e.event)
        × (row.tiles_written ≡ e.about.tiles_written)
        × (row.error ≡ e.about.error)
        × (row.completed_at ≡ some w.clock)
        × (row.status ≡ done → Tiled outcome row))
      ⊎ ((after.jobs ≡ w.jobs)
          × (after.events ≡ w.events)
          × (is_some (fault w.tried) ≡ true)
          × (is_some (fault (w.tried + 1)) ≡ true))

  settled_job-Reported :
      (now : ℕ) (job : JobRecord) (outcome : Res Reason TiledAsset)
      → let settled = settled_job now job outcome in
        (settled.0.id ≡ job.id)
        × (settled.0.status ≡ reported settled.1)
        × (settled.0.completed_at ≡ some now)
  unfolding settled_job
  settled_job-Reported now job (ok tiled) = (refl, refl, refl)
  settled_job-Reported now job (err reason) = (refl, refl, refl)

  settled_job-Tiled :
      (now : ℕ) (job : JobRecord) (outcome : Res Reason TiledAsset)
      → (settled_job now job outcome).0.status ≡ done
      → Tiled outcome (settled_job now job outcome).0
  unfolding settled_job
  settled_job-Tiled now job (ok tiled) h = (tiled, refl, refl)
  settled_job-Tiled now job (err reason) h = cc

  tell-Ends :
      (job row : JobRecord) (outcome : Res Reason TiledAsset) (settled : JobRecord × WebhookEvent)
      (w v : World)
      → settled.0.id ≡ job.id
      → settled.0.status ≡ reported settled.1
      → settled.0.completed_at ≡ some w.clock
      → find_job job.id w.jobs ≡ some row
      → v.jobs ≡ write_job settled.0 w.jobs
      → v.events ≡ w.events
      → (settled.0.status ≡ done → Tiled outcome settled.0)
      → Ends job outcome w (tell fault settled v)
  unfolding tell Holds emitted
  tell-Ends job row outcome settled w v same status completed found wrote events tiled =
      let (after, found_after, holds) = find_job-write_job settled.0 row w.jobs (rw same found) in
      inl (
        after,
        emitted fault settled v,
        cc,
        cc,
        cc,
        holds.2,
        holds.3,
        cc,
        λ h. let (t, e, n) = tiled (sym holds.1 ∙ h) in (t, e, holds.2 ∙ n),
      )

  pub update_job_ok :
      (job : JobRecord) (w : World)
      → fault w.tried ≡ none
      → (update_job fault job w).jobs ≡ write_job job w.jobs
  unfolding update_job try_write
  update_job_ok job w e = rw e refl

  update_job_err :
      (job : JobRecord) (w : World) {text : String}
      → fault w.tried ≡ some text
      → (update_job fault job w).jobs ≡ w.jobs
  unfolding update_job try_write
  update_job_err job w e = rw e refl

  finish_failed_ok :
      (settled : JobRecord × WebhookEvent) (v : World)
      → fault v.tried ≡ none
      → finish_failed fault settled v ≡ tell fault settled (update_job fault settled.0 v)
  unfolding finish_failed try_write
  finish_failed_ok settled v e = rw e refl

  finish_failed_err :
      (settled : JobRecord × WebhookEvent) (v : World) {text : String}
      → fault v.tried ≡ some text
      → finish_failed fault settled v ≡ update_job fault settled.0 v
  unfolding finish_failed try_write
  finish_failed_err settled v e = rw e refl

  pub try_write_ok : (w : World) → fault w.tried ≡ none → try_write fault w ≡ ok tt
  unfolding try_write
  try_write_ok w e = rw e refl

  pub try_write_err :
      (w : World) {text : String} → fault w.tried ≡ some text → try_write fault w ≡ err text
  unfolding try_write
  try_write_err w e = rw e refl

  finish_failed-Ends :
      (job row : JobRecord) (outcome : Res Reason TiledAsset) (reason : Reason) (w : World)
      {text : String}
      → find_job job.id w.jobs ≡ some row
      → fault w.tried ≡ some text
      → (settled : JobRecord)
      → Ends job outcome w
          (finish_failed fault (settled_job w.clock job (err reason)) (update_job fault settled w))
  unfolding settled_job update_job
  finish_failed-Ends job row outcome reason w found failed_first settled =
      let v = update_job fault settled w in
      let last = settled_job w.clock job (err reason) in
      elim (Option-cases (fault (w.tried + 1))) [
        | inl e ↦ subst (Ends job outcome w) (sym (finish_failed_ok last v e)) (
            tell-Ends job row outcome last w (update_job fault last.0 v) refl refl refl found
              (update_job_ok last.0 v e
                ∙ ap (write_job last.0) (update_job_err settled w failed_first))
              refl (λ h. cc))
        | inr (text, e) ↦ subst (Ends job outcome w) (sym (finish_failed_err last v e)) (
            inr (
              update_job_err last.0 v e ∙ update_job_err settled w failed_first,
              refl,
              ap is_some failed_first,
              ap is_some e,
            ))
      ]

  -- Finishing a job whose row is there settles the row and emits the one event that reports it,
  -- with the tiles, the error and the time of the row; only where both of its writes fail does it
  -- leave the rows and the events as they were.
  pub finish_lem :
      (job row : JobRecord) (outcome : Res Reason TiledAsset) (w : World)
      → find_job job.id w.jobs ≡ some row
      → Ends job outcome w (finish fault job outcome w)
  unfolding finish finish_after update_job
  finish_lem job row outcome w found =
      let settled = settled_job w.clock job outcome in
      let (same, status, completed) = settled_job-Reported w.clock job outcome in
      elim (Option-cases (fault w.tried)) [
        | inl e ↦
            subst (Ends job outcome w)
              (sym (ap (finish_after fault job outcome w) (try_write_ok w e)))
              (tell-Ends job row outcome settled w (update_job fault settled.0 w) same status
                completed found (update_job_ok settled.0 w e) refl
                (settled_job-Tiled w.clock job outcome))
        | inr (text, e) ↦
            subst (Ends job outcome w)
              (sym (ap (finish_after fault job outcome w) (try_write_err w e)))
              (finish_failed-Ends job row outcome
                (unrecorded_outcome_error outcome (outcome_unwritten text)) w found e settled.0)
      ]

  pub finish-assets :
      (job : JobRecord) (outcome : Res Reason TiledAsset) (w : World)
      → (finish fault job outcome w).assets ≡ w.assets
  unfolding finish finish_after finish_failed tell update_job try_write
  finish-assets job outcome w = ground arith

  -- A row that finish leaves as done has the tiles of the outcome, which is no error.
  pub finish-Tiled :
      (job row after : JobRecord) (outcome : Res Reason TiledAsset) (w : World)
      → find_job job.id w.jobs ≡ some row
      → row.status ≢ done
      → find_job job.id (finish fault job outcome w).jobs ≡ some after
      → after.status ≡ done
      → Tiled outcome after
  finish-Tiled job row after outcome w found open_row found_after is_done =
      elim (finish_lem job row outcome w found) [
        | inl (row', e, found', events, status, tiles, reason, completed, tiled) ↦
            let same = some-injective row' after (sym found' ∙ found_after) in
            subst (λ r. r.status ≡ done → Tiled outcome r) same tiled is_done
        | inr (jobs, events, first, second) ↦
            let same =
              some-injective row after
                (sym found ∙ sym (ap (find_job job.id) jobs) ∙ found_after) in
            absurd (open_row (ap (λ r. r.status) same ∙ is_done))
      ]

  pub find_asset-id :
      (id : ℕ) (assets : List Asset) {asset : Asset}
      → find_asset id assets ≡ some asset
      → asset.id ≡ id
  unfolding find_asset
  find_asset-id id [] h = cc
  find_asset-id id (other ∷ assets) h = elim (Bool-cases (other.id == id)) [
    | inl e ↦ ground arith
    | inr e ↦ find_asset-id id assets (rw e at h)
  ]
