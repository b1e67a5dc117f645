-- ===== src/ModelVersions/Limits.antt =====
-- How many versions of a model are left, and how many bytes, once retention as
-- crates/tiletopia-server/src/model_versions.rs does it has come to its end.
use tiletopia.Prelude.{
  ℕ, ◌+◌, String, ◌≡◌, refl, sym, ap, subst, ◌∙◌, inl, inr, true, false, Option, none, some, List,
  [], ◌∷◌, arith, ltb, if◌then◌else◌, Bool-cases, Option-cases,
}
use tiletopia.Prelude.Res.{Res, ok, err, ok-injective, err≢ok}
use tiletopia.JobQueue.{
  Asset, AssetStatus, uploading, tiling, ready, error, World, find_asset, get_asset,
}
use tiletopia.JobQueue.Laws.{find_asset-id}
use tiletopia.ModelVersions.Retention.{
  AssetVersion, Store, version_of, versions_newest_first, StepResult, ◌then◌, ticked, statement,
  delete_asset, announce, remove_version, fits_limits, Rest, retain_ready, retain_member,
  retain_found, retain, retain_of, apply_retention,
}
use tiletopia.ModelVersions.Shrinking.{
  then-ok, Shrunk, then-Shrunk, is_ready_status, is_ready, ready_versions, ready_bytes, IsWithin,
  IsWithin-less, fits_limits-IsWithin, statement-ok, delete_asset-Shrunk, delete_asset-gone,
}

module _ (fault : ℕ → Option String) (forget_asset : ℕ → Res String (Unit {0}))
    (remove_dir_all : ℕ → Res String (Unit {0})) (directory_bytes : ℕ → Res String ℕ) where
  remove_version-Shrunk :
      (gone : ℕ) (s : Store)
      → Shrunk s (remove_version fault forget_asset remove_dir_all directory_bytes gone s).1
  unfolding remove_version
  remove_version-Shrunk gone s =
      let forgotten : StepResult = (forget_asset gone, s) in
      let removed : StepResult = forgotten then delete_asset fault gone in
      let directory : Store → StepResult = λ s. (remove_dir_all gone, s) in
      then-Shrunk s (removed then directory) (λ s. (ok tt, announce gone s))
        (then-Shrunk s removed directory
          (then-Shrunk s forgotten (delete_asset fault gone) (λ id. inl refl)
            (delete_asset-Shrunk fault gone))
          (λ s id. inl refl))
        (λ s id. inl refl)

  remove_version-gone :
      (gone : ℕ) (s : Store) {after : Store}
      → remove_version fault forget_asset remove_dir_all directory_bytes gone s ≡ (ok tt, after)
      → find_asset gone after.world.assets ≡ none
  unfolding remove_version
  remove_version-gone gone s h =
      let forgotten : StepResult = (forget_asset gone, s) in
      let removed : StepResult = forgotten then delete_asset fault gone in
      let directory : Store → StepResult = λ s. (remove_dir_all gone, s) in
      let (s2, e2, last) = then-ok (removed then directory) (λ s. (ok tt, announce gone s)) h in
      let (s1, e1, cleared) = then-ok removed directory e2 in
      let (s0, e0, deleted) = then-ok forgotten (delete_asset fault gone) e1 in
      let there = delete_asset-gone fault gone s0 deleted in
      let same1 : s1.world.assets ≡ s2.world.assets = ap (λ o. o.1.world.assets) cleared in
      let same2 = ap (λ o. o.1.world.assets) last in
      ap (find_asset gone) (sym same2) ∙ (ap (find_asset gone) (sym same1) ∙ there)

  -- What holds of the loop's rest: it adds no asset, and if it ends well the limits hold with the
  -- versions it is about.
  record IsLimited (versions : List AssetVersion) (rest : Rest) : Type 0 where
    shrinks : (k b : ℕ) (s : Store) → Shrunk s (rest k b s).1
    within :
        (k b : ℕ) (s after : Store)
        → IsWithin k b
        → rest k b s ≡ (ok tt, after)
        → IsWithin
            (k + ready_versions versions after.world.assets)
            (b + ready_bytes directory_bytes versions after.world.assets)

  -- The limits with one more version, which is counted with what it adds.
  abbrev WithinMore : AssetVersion → List AssetVersion → ℕ → ℕ → StepResult → Type 0
  WithinMore v versions k b outcome =
      (after : Store)
      → outcome ≡ (ok tt, after)
      → IsWithin (k + ready_versions (v ∷ versions) after.world.assets)
          (b + ready_bytes directory_bytes (v ∷ versions) after.world.assets)

  module _ (v : AssetVersion) (versions : List AssetVersion) (rest : Rest)
      (limited : IsLimited versions rest) (k b : ℕ) (within : IsWithin k b) where
    -- A version whose asset is not ready adds nothing.
    passed :
        (s : Store)
        → is_ready (find_asset v.asset_id s.world.assets) ≡ false
        → WithinMore v versions k b (rest k b s)
    unfolding ready_versions ready_bytes
    passed s idle after h =
        let shrunk = subst (λ (o : StepResult). Shrunk s o.1) h (limited.shrinks k b s) in
        let still : is_ready (find_asset v.asset_id after.world.assets) ≡ false =
          elim (shrunk v.asset_id) [
            | inl same ↦ ap is_ready same ∙ idle
            | inr gone ↦ ap is_ready gone
          ] in
        rw still
          (IsWithin-less _ _ _ _ (limited.within k b s after within h) (omega arith) (omega arith))

    removed :
        (s : Store)
        → WithinMore v versions k b (
            remove_version fault forget_asset remove_dir_all directory_bytes v.asset_id s
            then rest k b)
    removed s after h =
        let (s1, gone, goes_on) =
          then-ok (remove_version fault forget_asset remove_dir_all directory_bytes v.asset_id s)
            (rest k b) h in
        passed s1 (ap is_ready (remove_version-gone v.asset_id s gone)) after goes_on

    -- A version that fits is counted with its bytes.
    fitted :
        (s : Store) (bytes : ℕ)
        → directory_bytes v.asset_id ≡ ok bytes
        → fits_limits k b bytes ≡ true
        → WithinMore v versions k b (rest (k + 1) (b + bytes) s)
    unfolding ready_versions ready_bytes
    fitted s bytes size room after h =
        let more =
          limited.within (k + 1) (b + bytes) s after (fits_limits-IsWithin k b bytes within room)
            h in
        elim (Bool-cases (is_ready (find_asset v.asset_id after.world.assets))) [
          | inl e ↦ rw (e, size) (IsWithin-less _ _ _ _ more (omega arith) (omega arith))
          | inr e ↦ rw e (IsWithin-less _ _ _ _ more (omega arith) (omega arith))
        ]

    measured :
        (s : Store) (bytes : Res String ℕ)
        → directory_bytes v.asset_id ≡ bytes
        → WithinMore v versions k b (
            retain_ready fault forget_asset remove_dir_all directory_bytes v.asset_id rest k b s
              bytes)
    measured s (err e) size after h = absurd (err≢ok (ap (λ o. o.0) h))
    measured s (ok bytes) size after h = elim (Bool-cases (fits_limits k b bytes)) [
      | inl room ↦ fitted s bytes size room after (rw room at h)
      | inr full ↦ removed s after (rw full at h)
    ]

    of_status :
        (s : Store) (status : AssetStatus)
        → is_ready (find_asset v.asset_id s.world.assets) ≡ is_ready_status status
        → WithinMore v versions k b (
            retain_member fault forget_asset remove_dir_all directory_bytes v.asset_id status rest k
              b s)
    of_status s uploading idle after h = passed s idle after h
    of_status s tiling idle after h = passed s idle after h
    of_status s error idle after h = elim (Bool-cases (ltb 0 k)) [
      | inl some_kept ↦ removed s after (rw some_kept at h)
      | inr none_kept ↦ passed s idle after (rw none_kept at h)
    ]
    of_status s ready there after h = measured s (directory_bytes v.asset_id) refl after h

    found :
        (s : Store) (read : Res String (Option Asset))
        → ((member : Option Asset)
            → read ≡ ok member
            → find_asset v.asset_id s.world.assets ≡ member)
        → WithinMore v versions k b
            (retain_found fault forget_asset remove_dir_all directory_bytes read rest k b s)
    found s (err e) reads after h = absurd (err≢ok (ap (λ o. o.0) h))
    found s (ok none) reads after h = passed s (ap is_ready (reads none refl)) after h
    found s (ok (some member)) reads after h =
        let there = reads (some member) refl in
        let same = find_asset-id fault v.asset_id s.world.assets there in
        of_status s member.status (ap is_ready there) after (
          subst
            (λ id.
              retain_member fault forget_asset remove_dir_all directory_bytes id member.status rest
                k b s
              ≡ (ok tt, after))
            same h)

  get_asset-ok :
      (id : ℕ) (w : World) (member : Option Asset)
      → get_asset fault id w ≡ ok member
      → find_asset id w.assets ≡ member
  unfolding get_asset
  get_asset-ok id w member h = elim (Option-cases (fault w.tried)) [
    | inl e ↦ ok-injective (rw e at h)
    | inr (why, e) ↦ absurd (err≢ok (rw e at h))
  ]

  found-Shrunk :
      (rest : Rest)
      → ((k b : ℕ) (s : Store) → Shrunk s (rest k b s).1)
      → (read : Res String (Option Asset)) (k b : ℕ) (s : Store)
      → Shrunk s (retain_found fault forget_asset remove_dir_all directory_bytes read rest k b s).1
  found-Shrunk rest shrinks (err e) k b s = λ id. inl refl
  found-Shrunk rest shrinks (ok none) k b s = shrinks k b s
  found-Shrunk rest shrinks (ok (some member)) k b s = by_status member.status
    where
      removed :
          (k b : ℕ)
          → Shrunk s
              (remove_version fault forget_asset remove_dir_all directory_bytes member.id s
                then rest k b).1
      removed k b =
          then-Shrunk s
            (remove_version fault forget_asset remove_dir_all directory_bytes member.id s)
            (rest k b) (remove_version-Shrunk member.id s) (shrinks k b)

      measured :
          (bytes : Res String ℕ)
          → Shrunk s
              (retain_ready fault forget_asset remove_dir_all directory_bytes member.id rest k b s
                bytes).1
      measured (err e) = λ id. inl refl
      measured (ok bytes) = elim (Bool-cases (fits_limits k b bytes)) [
        | inl e ↦ rw e (shrinks (k + 1) (b + bytes) s)
        | inr e ↦ rw e (removed k b)
      ]

      by_status :
          (status : AssetStatus)
          → Shrunk s
              (retain_member fault forget_asset remove_dir_all directory_bytes member.id status rest
                k b s).1
      by_status uploading = shrinks k b s
      by_status tiling = shrinks k b s
      by_status error = elim (Bool-cases (ltb 0 k)) [
        | inl e ↦ rw e (removed k b)
        | inr e ↦ rw e (shrinks k b s)
      ]
      by_status ready = measured (directory_bytes member.id)

  retain-IsLimited :
      (versions : List AssetVersion)
      → IsLimited versions (retain fault forget_asset remove_dir_all directory_bytes versions)
  unfolding retain ready_versions ready_bytes
  retain-IsLimited [] = record {
    shrinks = λ k b s id. inl refl;
    within = λ k b s after w h. IsWithin-less k b _ _ w (omega arith) (omega arith);
  }
  retain-IsLimited (v ∷ versions) =
      let rest = retain fault forget_asset remove_dir_all directory_bytes versions in
      let limited = retain-IsLimited versions in
      record {
        shrinks = λ k b s.
            found-Shrunk rest limited.shrinks (get_asset fault v.asset_id s.world) k b (ticked s);
        within = λ k b s after w h.
            found v versions rest limited k b w (ticked s) (get_asset fault v.asset_id s.world)
              (λ member read. get_asset-ok v.asset_id s.world member read) after h;
      }

  -- Where retention for an asset that is a version of a model comes to its end, at most five ready
  -- versions of the model are left, and if more than one is, at most 20 GiB of them.
  pub apply_retention-IsWithin :
      (asset_id : ℕ) (version : AssetVersion) (s after : Store)
      → version_of asset_id s.versions ≡ some version
      → apply_retention fault forget_asset remove_dir_all directory_bytes asset_id s
        ≡ (ok tt, after)
      → let members = versions_newest_first version.base_asset_id s.versions in
        IsWithin
          (ready_versions members after.world.assets)
          (ready_bytes directory_bytes members after.world.assets)
  unfolding apply_retention
  apply_retention-IsWithin asset_id version s after is_version h =
      let members = versions_newest_first version.base_asset_id s.versions in
      let first : StepResult = statement fault (λ s. s) s in
      let (s1, e1, looked_up) =
        then-ok first
          (retain_of fault forget_asset remove_dir_all directory_bytes
            (version_of asset_id s.versions))
          h in
      let kept : s1.versions ≡ s.versions =
        ap (λ r. r.versions) (sym (statement-ok fault (λ s. s) s e1)) in
      let listed = rw is_version at looked_up in
      let second : StepResult = statement fault (λ s. s) s1 in
      let (s2, e2, done_well) =
        then-ok second
          (retain fault forget_asset remove_dir_all directory_bytes
            (versions_newest_first version.base_asset_id s1.versions) 0 0)
          listed in
      let limit : IsWithin
          (0
            + ready_versions (versions_newest_first version.base_asset_id s1.versions)
                after.world.assets)
          (0
            + ready_bytes directory_bytes (versions_newest_first version.base_asset_id s1.versions)
                after.world.assets) =
        (retain-IsLimited (versions_newest_first version.base_asset_id s1.versions)).within 0 0 s2
          after (omega arith, inl (omega arith)) done_well in
      subst
        (λ vs.
          IsWithin
            (ready_versions (versions_newest_first version.base_asset_id vs) after.world.assets)
            (ready_bytes directory_bytes (versions_newest_first version.base_asset_id vs)
              after.world.assets))
        kept (IsWithin-less _ _ _ _ limit (omega arith) (omega arith))
