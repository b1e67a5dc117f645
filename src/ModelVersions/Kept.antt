-- ===== src/ModelVersions/Kept.antt =====
-- What retention, as crates/tiletopia-server/src/model_versions.rs does it, leaves of a job and its
-- asset.
use tiletopia.Prelude.{
  ℕ, ◌+◌, String, ◌≡◌, sym, subst, ◌∙◌, ◌⊎◌, inl, inr, false, Option, none, some, List, [], ◌∷◌,
  ltb, ◌==◌, if◌then◌else◌, ==_iff, Bool-cases,
}
use tiletopia.Prelude.Res.{Res, ok, err, Res-cases}
use tiletopia.JobQueue.{
  JobRecord, Asset, AssetStatus, uploading, tiling, ready, error, find_asset, get_asset, try_write,
}
use tiletopia.JobQueue.Laws.{find_job}
use tiletopia.ModelVersions.Retention.{
  AssetVersion, Store, version_of, versions_newest_first, without_jobs, without_asset,
  without_version, drop_jobs, drop_version, drop_asset, StepResult, ◌then◌, set_assets, ticked,
  statement, delete_asset, announce, remove_version, fits_limits, Rest, retain_ready, retain_member,
  retain_found, retain, retain_of, apply_retention,
}
use tiletopia.ModelVersions.Rows.{
  Belongs, without_jobs-Belongs, without_jobs-gone, without_jobs-other, without_asset-other,
}

module _ (fault : ℕ → Option String) (forget_asset : ℕ → Res String (Unit {0}))
    (remove_dir_all : ℕ → Res String (Unit {0})) (directory_bytes : ℕ → Res String ℕ) (id : ℕ)
    (asset_id : ℕ) (job_before : Option JobRecord) (asset_before : Option Asset) where
  -- The job and its asset are as they were, or the job is gone.
  abbrev Safe : Store → Type 0
  Safe s =
      Belongs id asset_id s.world.jobs
      × (((find_job id s.world.jobs ≡ job_before)
            × (find_asset asset_id s.world.assets ≡ asset_before))
          ⊎ (find_job id s.world.jobs ≡ none))

  abbrev NoJob : Store → Type 0
  NoJob s = find_job id s.world.jobs ≡ none

  then-keeps :
      (P : Store → Type 0) (o : StepResult) (k : Store → StepResult)
      → P o.1
      → ((s : Store) → P s → P (k s).1)
      → P (o then k).1
  then-keeps P (ok _, s) k h keeps = keeps s h
  then-keeps P (err e, s) k h keeps = h

  -- A statement leads to the rows before it or to those it makes.
  statement-keeps :
      (P : Store → Type 0) (f : Store → Store) (s : Store)
      → P (ticked s)
      → P (f (ticked s))
      → P (statement fault f s).1
  statement-keeps P f s h changed = elim (Res-cases (try_write fault s.world)) [
    | inl (_, e) ↦ rw e changed
    | inr (why, e) ↦ rw e h
  ]

  -- What the statements after the jobs' do not change.
  record IsClosed (P : Store → Type 0) (gone : ℕ) : Type 0 where
    ticks : (s : Store) → P s → P (ticked s)
    versions :
        (s : Store) (versions : List AssetVersion)
        → P s
        → P (record { world = s.world; versions = versions; announced = s.announced })
    assets : (s : Store) → P s → P (set_assets (without_asset gone s.world.assets) s)

  rest-keeps :
      (P : Store → Type 0) (gone : ℕ) (o : StepResult)
      → IsClosed P gone
      → P o.1
      → P
          (o
            then statement fault (λ s. s)
            then statement fault (drop_version gone)
            then statement fault (drop_asset gone)).1
  rest-keeps P gone o closed h =
      let first : Store → StepResult = statement fault (λ s. s) in
      let second : Store → StepResult = statement fault (drop_version gone) in
      let third : Store → StepResult = statement fault (drop_asset gone) in
      then-keeps P (o then first then second) third
        (then-keeps P (o then first) second
          (then-keeps P o first h
            (λ s p. statement-keeps P (λ s. s) s (closed.ticks s p) (closed.ticks s p)))
          (λ s p.
            statement-keeps P (drop_version gone) s (closed.ticks s p)
              (closed.versions (ticked s) (without_version gone s.versions) (closed.ticks s p))))
        (λ s p.
          statement-keeps P (drop_asset gone) s (closed.ticks s p)
            (closed.assets (ticked s) (closed.ticks s p)))

  Lost : Store → Type 0
  Lost s = Belongs id asset_id s.world.jobs × NoJob s

  Lost-IsClosed : (gone : ℕ) → IsClosed Lost gone
  unfolding Lost
  Lost-IsClosed gone = record { ticks = λ s p. p; versions = λ s versions p. p; assets = λ s p. p }

  Safe-IsClosed : (gone : ℕ) → (gone == asset_id) ≡ false → IsClosed Safe gone
  Safe-IsClosed gone apart = record {
    ticks = λ s p. p;
    versions = λ s versions p. p;
    assets = λ s (belongs, state). (
      belongs,
      elim state [
        | inl (job, asset) ↦
            inl (job, without_asset-other gone asset_id s.world.assets apart ∙ asset)
        | inr lost ↦ inr lost
      ],
    );
  }

  delete_asset-Safe : (gone : ℕ) (s : Store) → Safe s → Safe (delete_asset fault gone s).1
  unfolding delete_asset Lost
  delete_asset-Safe gone s (belongs, state) =
      let fewer = without_jobs-Belongs gone id asset_id s.world.jobs belongs in
      elim (Res-cases (try_write fault s.world)) [
        | inr (why, e) ↦ rw e (belongs, state)
        | inl (_, e) ↦ elim (Bool-cases (gone == asset_id)) [
          | inl same ↦
              let lost : find_job id (without_jobs gone s.world.jobs) ≡ none =
                subst (λ a. find_job id (without_jobs a s.world.jobs) ≡ none)
                  (sym ((==_iff gone asset_id).0 same))
                  (without_jobs-gone id asset_id s.world.jobs belongs) in
              let after =
                rest-keeps Lost gone (statement fault (drop_jobs gone) s) (Lost-IsClosed gone)
                  (rw e (fewer, lost)) in
              (after.0, inr after.1)
          | inr apart ↦
              let kept = without_jobs-other gone id asset_id s.world.jobs apart belongs in
              rest-keeps Safe gone (statement fault (drop_jobs gone) s) (Safe-IsClosed gone apart) (
                rw e (
                  fewer,
                  (elim state [
                    | inl (job, asset) ↦ inl (kept ∙ job, asset)
                    | inr lost ↦ inr (kept ∙ lost)
                  ]),
                ))
        ]
      ]

  remove_version-Safe :
      (gone : ℕ) (s : Store)
      → Safe s
      → Safe (remove_version fault forget_asset remove_dir_all directory_bytes gone s).1
  unfolding remove_version
  remove_version-Safe gone s h =
      let removed : StepResult = (forget_asset gone, s) then delete_asset fault gone in
      let directory : Store → StepResult = λ s. (remove_dir_all gone, s) in
      then-keeps Safe (removed then directory) (λ s. (ok tt, announce gone s))
        (then-keeps Safe removed directory
          (then-keeps Safe (forget_asset gone, s) (delete_asset fault gone) h
            (λ s p. delete_asset-Safe gone s p))
          (λ s p. p))
        (λ s p. p)

  module _ (rest : Rest)
      (rest-Safe : (kept_versions kept_bytes : ℕ) (s : Store)
        → Safe s
        → Safe (rest kept_versions kept_bytes s).1) where
    removed-Safe :
        (gone kept_versions kept_bytes : ℕ) (s : Store)
        → Safe s
        → Safe
            (remove_version fault forget_asset remove_dir_all directory_bytes gone s
              then rest kept_versions kept_bytes).1
    removed-Safe gone kept_versions kept_bytes s h =
        then-keeps Safe (remove_version fault forget_asset remove_dir_all directory_bytes gone s)
          (rest kept_versions kept_bytes) (remove_version-Safe gone s h)
          (rest-Safe kept_versions kept_bytes)

    retain_ready-Safe :
        (gone kept_versions kept_bytes : ℕ) (s : Store) (bytes : Res String ℕ)
        → Safe s
        → Safe
            (retain_ready fault forget_asset remove_dir_all directory_bytes gone rest kept_versions
              kept_bytes s bytes).1
    retain_ready-Safe gone kept_versions kept_bytes s (err e) h = h
    retain_ready-Safe gone kept_versions kept_bytes s (ok bytes) h =
        elim (Bool-cases (fits_limits kept_versions kept_bytes bytes)) [
          | inl e ↦ rw e (rest-Safe (kept_versions + 1) (kept_bytes + bytes) s h)
          | inr e ↦ rw e (removed-Safe gone kept_versions kept_bytes s h)
        ]

    retain_member-Safe :
        (gone : ℕ) (status : AssetStatus) (kept_versions kept_bytes : ℕ) (s : Store)
        → Safe s
        → Safe
            (retain_member fault forget_asset remove_dir_all directory_bytes gone status rest
              kept_versions kept_bytes s).1
    retain_member-Safe gone uploading kept_versions kept_bytes s h =
        rest-Safe kept_versions kept_bytes s h
    retain_member-Safe gone tiling kept_versions kept_bytes s h =
        rest-Safe kept_versions kept_bytes s h
    retain_member-Safe gone error kept_versions kept_bytes s h =
        elim (Bool-cases (ltb 0 kept_versions)) [
          | inl e ↦ rw e (removed-Safe gone kept_versions kept_bytes s h)
          | inr e ↦ rw e (rest-Safe kept_versions kept_bytes s h)
        ]
    retain_member-Safe gone ready kept_versions kept_bytes s h =
        retain_ready-Safe gone kept_versions kept_bytes s (directory_bytes gone) h

    retain_found-Safe :
        (read : Res String (Option Asset)) (kept_versions kept_bytes : ℕ) (s : Store)
        → Safe s
        → Safe
            (retain_found fault forget_asset remove_dir_all directory_bytes read rest kept_versions
              kept_bytes s).1
    retain_found-Safe (err e) kept_versions kept_bytes s h = h
    retain_found-Safe (ok none) kept_versions kept_bytes s h =
        rest-Safe kept_versions kept_bytes s h
    retain_found-Safe (ok (some member)) kept_versions kept_bytes s h =
        retain_member-Safe member.id member.status kept_versions kept_bytes s h

  retain-Safe :
      (versions : List AssetVersion) (kept_versions kept_bytes : ℕ) (s : Store)
      → Safe s
      → Safe
          (retain fault forget_asset remove_dir_all directory_bytes versions kept_versions
            kept_bytes s).1
  unfolding retain
  retain-Safe [] kept_versions kept_bytes s h = h
  retain-Safe (version ∷ versions) kept_versions kept_bytes s h =
      retain_found-Safe (retain fault forget_asset remove_dir_all directory_bytes versions)
        (retain-Safe versions) (get_asset fault version.asset_id s.world) kept_versions kept_bytes
        (ticked s) h

  retain_of-Safe :
      (version : Option AssetVersion) (s : Store)
      → Safe s
      → Safe (retain_of fault forget_asset remove_dir_all directory_bytes version s).1
  retain_of-Safe none s h = h
  retain_of-Safe (some version) s h =
      then-keeps Safe (statement fault (λ s. s) s)
        (retain fault forget_asset remove_dir_all directory_bytes
          (versions_newest_first version.base_asset_id s.versions) 0 0)
        (statement-keeps Safe (λ s. s) s h h)
        (λ s' p. retain-Safe (versions_newest_first version.base_asset_id s.versions) 0 0 s' p)

  pub apply_retention-Safe :
      (newest : ℕ) (s : Store)
      → Safe s
      → Safe (apply_retention fault forget_asset remove_dir_all directory_bytes newest s).1
  unfolding apply_retention
  apply_retention-Safe newest s h =
      then-keeps Safe (statement fault (λ s. s) s)
        (retain_of fault forget_asset remove_dir_all directory_bytes (version_of newest s.versions))
        (statement-keeps Safe (λ s. s) s h h)
        (λ s' p. retain_of-Safe (version_of newest s.versions) s' p)
