-- ===== src/JobQueue/Served.antt =====
-- What a client that polls a job of crates/tiletopia-server/src/job_queue.rs finds of its asset once
-- the job says Done.
use tiletopia.Prelude.{
  ℕ, String, ◌≡◌, refl, sym, ap, subst, ◌∙◌, ◌≢◌, ◌⊎◌, inl, inr, true, Option, none, some, List, [],
  ◌∷◌, ◌==◌, Bool-cases, Option-cases,
}
use tiletopia.Prelude.Res.{Res, ok, err, is_ok, ok-injective, err≢ok}
use tiletopia.JobQueue.{
  done, ready, Reason, JobRecord, Asset, TiledAsset, WebhookEvent, World, find_asset, write_job,
  write_asset, tick, get_asset, try_write, update_job, update_asset,
}
use tiletopia.JobQueue.Settle.{
  settled_job, tell, finish_failed, finish_after, asset_after, finish, write_asset_after,
  write_asset_outcome, record_for, retain_and_finish, record_outcome,
}
use tiletopia.JobQueue.Laws.{
  find_job, updated, find_asset-write_asset, find_asset-id, finish-assets, finish-Tiled,
}

-- Where a job reads as done, its asset reads as ready, with as many tiles.
pub Served : JobRecord → World → Type 0
Served job w =
    (row : JobRecord)
    → find_job job.id w.jobs ≡ some row
    → row.status ≡ done
    → (asset : Asset) × (find_asset job.asset_id w.assets ≡ some asset)
      × (asset.status ≡ ready)
      × (asset.tile_count ≡ row.tiles_written)

-- `apply_retention` for an asset either leaves the asset and each of its jobs as they were, or
-- removes that asset with its jobs; what it does to the other versions is open.
abbrev pub RetainsAt : (ℕ → World → World) → JobRecord → World → Type 0
RetainsAt apply_retention job w =
    let after = apply_retention job.asset_id w in
    ((find_job job.id after.jobs ≡ find_job job.id w.jobs)
      × (find_asset job.asset_id after.assets ≡ find_asset job.asset_id w.assets))
    ⊎ (find_job job.id after.jobs ≡ none)

write_job-gone :
    (id : ℕ) (job : JobRecord) (rows : List JobRecord)
    → find_job id rows ≡ none
    → find_job id (write_job job rows) ≡ none
unfolding find_job write_job
write_job-gone id job [] h = refl
write_job-gone id job (row ∷ rows) h = elim (Bool-cases (row.id == id)) [
  | inl e ↦ let no = rw e at h in cc
  | inr e ↦
      let rest = write_job-gone id job rows (rw e at h) in
      elim (Bool-cases (row.id == job.id)) [
        | inl same ↦ rw (same, e) rest
        | inr other ↦ rw (other, e) rest
      ]
]

module _ (fault : ℕ → Option String) (apply_retention : ℕ → World → World) where
  asset_after-id :
      (asset : Asset) (outcome : Res Reason TiledAsset)
      → (asset_after fault outcome asset).id ≡ asset.id
  unfolding asset_after
  asset_after-id asset (ok tiled) = refl
  asset_after-id asset (err reason) = refl

  stored_lem :
      (job : JobRecord) (asset : Asset) (outcome : Res Reason TiledAsset) (assets : List Asset)
      → find_asset job.asset_id assets ≡ some asset
      → find_asset job.asset_id (write_asset (asset_after fault outcome asset) assets)
        ≡ some (updated (asset_after fault outcome asset) asset)
  stored_lem job asset outcome assets stored =
      let same = asset_after-id asset outcome ∙ find_asset-id fault job.asset_id assets stored in
      subst
        (λ id.
          find_asset id (write_asset (asset_after fault outcome asset) assets)
          ≡ some (updated (asset_after fault outcome asset) asset))
        same
        (find_asset-write_asset (asset_after fault outcome asset) asset assets
          (subst (λ id. find_asset id assets ≡ some asset) (sym same) stored))

  get_asset-found :
      (id : ℕ) (w : World) {asset : Asset}
      → get_asset fault id w ≡ ok (some asset)
      → find_asset id w.assets ≡ some asset
  unfolding get_asset
  get_asset-found id w e = elim (Option-cases (fault w.tried)) [
    | inl f ↦ ok-injective (rw f at e)
    | inr (text, f) ↦ absurd (err≢ok (rw f at e))
  ]

  finish_err-Served :
      (job row : JobRecord) (reason : Reason) (w : World)
      → find_job job.id w.jobs ≡ some row
      → row.status ≢ done
      → Served job (finish fault job (err reason) w)
  unfolding Served
  finish_err-Served job row reason w found open_row after found_after is_done =
      let (t, e, n) =
        finish-Tiled fault job row after (err reason) w found open_row found_after is_done in
      absurd (err≢ok e)

  update_job-gone :
      (id : ℕ) (job : JobRecord) (w : World)
      → find_job id w.jobs ≡ none
      → find_job id (update_job fault job w).jobs ≡ none
  unfolding update_job
  update_job-gone id job w h = elim (Bool-cases (is_ok (try_write fault w))) [
    | inl e ↦ rw e (write_job-gone id job w.jobs h)
    | inr e ↦ rw e h
  ]

  finish_failed-gone :
      (id : ℕ) (settled : JobRecord × WebhookEvent) (w : World)
      → find_job id w.jobs ≡ none
      → find_job id (finish_failed fault settled w).jobs ≡ none
  unfolding finish_failed tell
  finish_failed-gone id settled w h = elim (Bool-cases (is_ok (try_write fault w))) [
    | inl e ↦ rw e (write_job-gone id settled.0 w.jobs h)
    | inr e ↦ rw e h
  ]

  finish-gone :
      (id : ℕ) (job : JobRecord) (outcome : Res Reason TiledAsset) (w : World)
      → find_job id w.jobs ≡ none
      → find_job id (finish fault job outcome w).jobs ≡ none
  unfolding finish finish_after tell
  finish-gone id job outcome w h = go (try_write fault w)
    where
      go :
          (written : Res String (Unit {0}))
          → find_job id (finish_after fault job outcome w written).jobs ≡ none
      go (ok _) = update_job-gone id (settled_job w.clock job outcome).0 w h
      go (err e) =
          finish_failed-gone id _ _ (update_job-gone id (settled_job w.clock job outcome).0 w h)

  retain_and_finish-Served :
      (job row : JobRecord) (asset : Asset) (outcome : Res Reason TiledAsset) (w : World)
      → RetainsAt apply_retention job w
      → find_job job.id w.jobs ≡ some row
      → row.status ≢ done
      → find_asset job.asset_id w.assets ≡ some (updated (asset_after fault outcome asset) asset)
      → Served job (retain_and_finish fault apply_retention job (outcome, w))
  unfolding Served retain_and_finish asset_after
  retain_and_finish-Served job row asset (err reason) w retains found open_row stored after
        found_after is_done =
      let (t, e, n) =
        finish-Tiled fault job row after (err reason) w found open_row found_after is_done in
      absurd (err≢ok e)
  retain_and_finish-Served job row asset (ok tiled) w retains found open_row stored after
        found_after is_done =
      let v = apply_retention job.asset_id w in
      elim retains [
        | inl (jobs, kept) ↦
            let (t, e, n) =
              finish-Tiled fault job row after (ok tiled) v (jobs ∙ found) open_row found_after
                is_done in
            (
              updated (asset_after fault (ok tiled) asset) asset,
              ap (find_asset job.asset_id) (finish-assets fault job (ok tiled) v) ∙ kept ∙ stored,
              refl,
              ap (λ u. u.tiles_written) (ok-injective e) ∙ sym n,
            )
        | inr gone ↦ let clash = sym (finish-gone job.id job (ok tiled) v gone) ∙ found_after in cc
      ]

  write_asset_after-Served :
      (job row : JobRecord) (asset : Asset) (outcome : Res Reason TiledAsset) (w : World)
      (written : Res String (Unit {0}))
      → try_write fault w ≡ written
      → ((v : World) → v.jobs ≡ w.jobs → RetainsAt apply_retention job v)
      → find_job job.id w.jobs ≡ some row
      → row.status ≢ done
      → find_asset job.asset_id w.assets ≡ some asset
      → Served job (
          retain_and_finish fault apply_retention job
            (write_asset_after fault asset outcome w written))
  unfolding write_asset_after update_asset
  write_asset_after-Served job row asset outcome w (ok _) tried retains found open_row stored =
      retain_and_finish-Served job row asset outcome
        (update_asset fault (asset_after fault outcome asset) w)
        (retains (update_asset fault (asset_after fault outcome asset) w) refl) found open_row
        (rw tried (stored_lem job asset outcome w.assets stored))
  write_asset_after-Served job row asset outcome w (err e) tried retains found open_row stored =
      unfold retain_and_finish in finish_err-Served job row _ _ found open_row

  -- Where the row of a job that is not done stands in the table, and retention, run while the jobs
  -- are as they were, leaves its asset with its jobs alone or removes them together, record_outcome
  -- with status_follows_job true leaves the job as done only if its asset is ready with as
  -- many tiles, whichever operations fail.
  pub record_outcome-Served_at :
      (job row : JobRecord) (outcome : Res Reason TiledAsset) (w : World)
      → ((v : World) → v.jobs ≡ w.jobs → RetainsAt apply_retention job v)
      → find_job job.id w.jobs ≡ some row
      → row.status ≢ done
      → Served job (record_outcome fault apply_retention job true outcome w)
  unfolding record_outcome record_for get_asset write_asset_outcome tick
  record_outcome-Served_at job row outcome w retains found open_row =
      go (get_asset fault job.asset_id w) refl
    where
      go :
          (read : Res String (Option Asset))
          → get_asset fault job.asset_id w ≡ read
          → Served job (record_for fault apply_retention job true outcome (tick w) read)
      go (err e) same = finish_err-Served job row _ (tick w) found open_row
      go (ok none) same = finish_err-Served job row _ (tick w) found open_row
      go (ok (some asset)) same =
          write_asset_after-Served job row asset outcome (tick w) (try_write fault (tick w)) refl
            retains found open_row (get_asset-found job.asset_id w same)
