-- ===== src/ModelVersions/Shrinking.antt =====
-- That retention, of crates/tiletopia-server/src/model_versions.rs, makes no asset, and what counts
-- towards its limits.
use tiletopia.Prelude.{
  ℕ, ◌+◌, ◌*◌, ◌≤◌, String, ◌≡◌, refl, ap, subst, ◌∙◌, ◌⊎◌, inl, inr, Bool, true, false, ◌&&◌,
  Option, none, some, List, [], ◌∷◌, arith, ltb, leb, ◌==◌, if◌then◌else◌, ==_iff, Bool-cases,
}
use tiletopia.Prelude.Res.{Res, ok, err, Res-cases, err≢ok}
use tiletopia.JobQueue.{Asset, AssetStatus, uploading, tiling, ready, error, find_asset, try_write}
use tiletopia.ModelVersions.Rows.{without_asset-other}
use tiletopia.ModelVersions.Retention.{
  AssetVersion, Store, without_asset, StepResult, ◌then◌, ticked, statement, drop_jobs,
  drop_version, drop_asset, delete_asset, fits_limits,
}

-- A chain that ends well did so in its first part, and then in the rest.
pub then-ok :
    (o : StepResult) (k : Store → StepResult) {after : Store}
    → (o then k) ≡ (ok tt, after)
    → (s : Store) × (o ≡ (ok tt, s)) × (k s ≡ (ok tt, after))
then-ok (ok _, s) k h = (s, refl, h)
then-ok (err e, s) k h = (let clash = ap (λ o. o.0) h in absurd (err≢ok clash))

without_asset-gone :
    (gone : ℕ) (rows : List Asset) → find_asset gone (without_asset gone rows) ≡ none
unfolding find_asset
without_asset-gone gone [] = refl
without_asset-gone gone (row ∷ rows) = elim (Bool-cases (row.id == gone)) [
  | inl e ↦ rw e (without_asset-gone gone rows)
  | inr e ↦ rw (e, e) (without_asset-gone gone rows)
]

without_asset-fewer :
    (gone id : ℕ) (rows : List Asset)
    → (find_asset id (without_asset gone rows) ≡ find_asset id rows)
      ⊎ (find_asset id (without_asset gone rows) ≡ none)
without_asset-fewer gone id rows = elim (Bool-cases (gone == id)) [
  | inl e ↦ inr (
      subst (λ j. find_asset j (without_asset gone rows) ≡ none) ((==_iff gone id).0 e)
        (without_asset-gone gone rows))
  | inr e ↦ inl (without_asset-other gone id rows e)
]

-- No asset is new or changed.
abbrev pub Shrunk : Store → Store → Type 0
Shrunk s after =
    (id : ℕ)
    → (find_asset id after.world.assets ≡ find_asset id s.world.assets)
      ⊎ (find_asset id after.world.assets ≡ none)

Shrunk-trans : (a b c : Store) → Shrunk a b → Shrunk b c → Shrunk a c
Shrunk-trans a b c h k id = elim (k id) [
  | inr gone ↦ inr gone
  | inl same ↦ elim (h id) [ inl before ↦ inl (same ∙ before) | inr gone ↦ inr (same ∙ gone) ]
]

pub then-Shrunk :
    (s : Store) (o : StepResult) (k : Store → StepResult)
    → Shrunk s o.1
    → ((s : Store) → Shrunk s (k s).1)
    → Shrunk s (o then k).1
then-Shrunk s (ok _, s1) k h keeps = Shrunk-trans s s1 (k s1).1 h (keeps s1)
then-Shrunk s (err e, s1) k h keeps = h

-- Whether an asset is there and ready.
abbrev pub is_ready_status : AssetStatus → Bool
is_ready_status uploading = false
is_ready_status tiling = false
is_ready_status error = false
is_ready_status ready = true

abbrev pub is_ready : Option Asset → Bool
is_ready none = false
is_ready (some asset) = is_ready_status asset.status

-- How many of these versions have a ready asset, and how many bytes those have.
unfoldable pub ready_versions : List AssetVersion → List Asset → ℕ
ready_versions [] assets = 0
ready_versions (v ∷ versions) assets =
    (if is_ready (find_asset v.asset_id assets) then 1 else 0) + ready_versions versions assets

abbrev pub or_zero : Res String ℕ → ℕ
or_zero (ok bytes) = bytes
or_zero (err e) = 0

unfoldable pub ready_bytes : (ℕ → Res String ℕ) → List AssetVersion → List Asset → ℕ
ready_bytes directory_bytes [] assets = 0
ready_bytes directory_bytes (v ∷ versions) assets =
    (if is_ready (find_asset v.asset_id assets) then or_zero (directory_bytes v.asset_id) else 0)
    + ready_bytes directory_bytes versions assets

-- At most five versions, and at most 20 GiB of them unless there is but one.
abbrev pub IsWithin : ℕ → ℕ → Type 0
IsWithin versions bytes = (versions ≤ 5) × ((versions ≤ 1) ⊎ (bytes ≤ 20 * 1024 * 1024 * 1024))

pub IsWithin-less : (k b k' b' : ℕ) → IsWithin k b → k' ≤ k → b' ≤ b → IsWithin k' b'
IsWithin-less k b k' b' (few, state) hk hb =
    (omega arith, elim state [ inl one ↦ inl (omega arith) | inr small ↦ inr (omega arith) ])

-- One more version that fits leaves them within the limits.
pub fits_limits-IsWithin :
    (k b bytes : ℕ) → IsWithin k b → fits_limits k b bytes ≡ true → IsWithin (k + 1) (b + bytes)
fits_limits-IsWithin k b bytes (few, state) h = elim (Bool-cases (k == 0)) [
  | inl e ↦ (ground arith, inl (ground arith))
  | inr e ↦
      let others : (ltb k 5 && leb (b + bytes) 21474836480) ≡ true = rw e at h in
      (ground arith, inr (ground arith))
]

module _ (fault : ℕ → Option String) where
  statement-Shrunk :
      (f : Store → Store) (s : Store) → Shrunk s (f (ticked s)) → Shrunk s (statement fault f s).1
  statement-Shrunk f s h = elim (Res-cases (try_write fault s.world)) [
    | inl (_, e) ↦ rw e h
    | inr (why, e) ↦ rw e (λ id. inl refl)
  ]

  pub statement-ok :
      (f : Store → Store) (s : Store) {after : Store}
      → statement fault f s ≡ (ok tt, after)
      → f (ticked s) ≡ after
  statement-ok f s h = elim (Res-cases (try_write fault s.world)) [
    | inl (_, e) ↦ (let same = rw e at h in ap (λ o. o.1) same)
    | inr (why, e) ↦ (let clash = rw e at h in absurd (err≢ok (ap (λ o. o.0) clash)))
  ]

  pub delete_asset-Shrunk : (gone : ℕ) (s : Store) → Shrunk s (delete_asset fault gone s).1
  unfolding delete_asset
  delete_asset-Shrunk gone s =
      let first : StepResult = statement fault (drop_jobs gone) s in
      let second : StepResult = first then statement fault (λ s. s) in
      let third : StepResult = second then statement fault (drop_version gone) in
      then-Shrunk s third (statement fault (drop_asset gone))
        (then-Shrunk s second (statement fault (drop_version gone))
          (then-Shrunk s first (statement fault (λ s. s))
            (statement-Shrunk (drop_jobs gone) s (λ id. inl refl))
            (λ s. statement-Shrunk (λ s. s) s (λ id. inl refl)))
          (λ s. statement-Shrunk (drop_version gone) s (λ id. inl refl)))
        (λ s.
          statement-Shrunk (drop_asset gone) s (λ id. without_asset-fewer gone id s.world.assets))

  pub delete_asset-gone :
      (gone : ℕ) (s : Store) {after : Store}
      → delete_asset fault gone s ≡ (ok tt, after)
      → find_asset gone after.world.assets ≡ none
  unfolding delete_asset
  delete_asset-gone gone s {after} h =
      let third : StepResult =
        statement fault (drop_jobs gone) s
        then statement fault (λ s. s)
        then statement fault (drop_version gone) in
      let (s3, before, last) = then-ok third (statement fault (drop_asset gone)) h in
      subst (λ a. find_asset gone a.world.assets ≡ none) (statement-ok (drop_asset gone) s3 last)
        (without_asset-gone gone s3.world.assets)
