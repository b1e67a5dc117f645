-- ===== src/ModelVersions/Rows.antt =====
-- Rows of jobs and assets that the statements of crates/tiletopia-server/src/db.rs leave.
use tiletopia.Prelude.{
  ℕ, ◌≡◌, refl, sym, ◌∙◌, inl, inr, false, none, List, [], ◌∷◌, arith, ◌==◌, ==_iff, Bool-cases,
  All,
}
use tiletopia.JobQueue.{JobRecord, Asset, find_asset}
use tiletopia.JobQueue.Laws.{find_job}
use tiletopia.ModelVersions.Retention.{without_jobs, without_asset}

-- Every row with this id is a job of this asset.
abbrev pub Belongs : ℕ → ℕ → List JobRecord → Type 0
Belongs id asset_id rows = All (λ row. row.id ≡ id → row.asset_id ≡ asset_id) rows

pub without_jobs-Belongs :
    (gone id asset_id : ℕ) (rows : List JobRecord)
    → Belongs id asset_id rows
    → Belongs id asset_id (without_jobs gone rows)
without_jobs-Belongs gone id asset_id [] h = tt
without_jobs-Belongs gone id asset_id (row ∷ rows) h = elim (Bool-cases (row.asset_id == gone)) [
  | inl e ↦ rw e (without_jobs-Belongs gone id asset_id rows h.1)
  | inr e ↦ rw e (h.0, without_jobs-Belongs gone id asset_id rows h.1)
]

-- Without the jobs of its asset, a job is gone.
pub without_jobs-gone :
    (id asset_id : ℕ) (rows : List JobRecord)
    → Belongs id asset_id rows
    → find_job id (without_jobs asset_id rows) ≡ none
unfolding find_job
without_jobs-gone id asset_id [] h = refl
without_jobs-gone id asset_id (row ∷ rows) h = elim (Bool-cases (row.asset_id == asset_id)) [
  | inl e ↦ rw e (without_jobs-gone id asset_id rows h.1)
  | inr e ↦ elim (Bool-cases (row.id == id)) [
    | inl f ↦
        let same = h.0 ((==_iff row.id id).0 f) in
        let yes = (==_iff row.asset_id asset_id).1 same in cc
    | inr f ↦ rw (e, f) (without_jobs-gone id asset_id rows h.1)
  ]
]

-- Without the jobs of another asset it is as it was.
pub without_jobs-other :
    (gone id asset_id : ℕ) (rows : List JobRecord)
    → (gone == asset_id) ≡ false
    → Belongs id asset_id rows
    → find_job id (without_jobs gone rows) ≡ find_job id rows
unfolding find_job
without_jobs-other gone id asset_id [] apart h = refl
without_jobs-other gone id asset_id (row ∷ rows) apart h =
    elim (Bool-cases (row.asset_id == gone)) [
      | inl e ↦ elim (Bool-cases (row.id == id)) [
        | inl f ↦
            let same = h.0 ((==_iff row.id id).0 f) in
            let moved = (==_iff row.asset_id gone).0 e in
            let yes = (==_iff gone asset_id).1 (sym moved ∙ same) in cc
        | inr f ↦ rw (e, f) (without_jobs-other gone id asset_id rows apart h.1)
      ]
      | inr e ↦ elim (Bool-cases (row.id == id)) [
        | inl f ↦ rw (e, f) refl
        | inr f ↦ rw (e, f) (without_jobs-other gone id asset_id rows apart h.1)
      ]
    ]

pub without_asset-other :
    (gone id : ℕ) (rows : List Asset)
    → (gone == id) ≡ false
    → find_asset id (without_asset gone rows) ≡ find_asset id rows
unfolding find_asset
without_asset-other gone id [] apart = refl
without_asset-other gone id (row ∷ rows) apart = elim (Bool-cases (row.id == gone)) [
  | inl e ↦
      let other : (row.id == id) ≡ false = ground (arith, (==_iff row.id gone).0 e) in
      rw (e, other) (without_asset-other gone id rows apart)
  | inr e ↦ elim (Bool-cases (row.id == id)) [
    | inl f ↦ rw (e, f) refl
    | inr f ↦ rw (e, f) (without_asset-other gone id rows apart)
  ]
]
