-- ===== src/JobQueue/Recovery.antt =====
-- A restart of the queue of crates/tiletopia-server/src/job_queue.rs, and the job that it takes.
use tiletopia.Prelude.{
  ℕ, ◌≤◌, ◌≡◌, subst, inl, inr, true, false, not, ◌&&◌, none, some, List, [], ◌∷◌, arith, leb,
  Bool-cases, Option-cases, All,
}
use tiletopia.JobQueue.{queued, JobRecord, is_status, member, older, next_queued_job}
use mathlib.Core.Option.{some-injective}

-- A queued job whose asset is not excluded.
abbrev pub Taken : List ℕ → JobRecord → Type 0
Taken excluded job = (is_status job.status queued ≡ true) × (member job.asset_id excluded ≡ false)

-- No queued job of an asset that is not excluded is older.
abbrev pub Oldest : List ℕ → JobRecord → List JobRecord → Type 0
Oldest excluded job rows =
    All
      (λ row.
        is_status row.status queued ≡ true
        → member row.asset_id excluded ≡ false
        → job.created_at ≤ row.created_at)
      rows

next_queued_job-none :
    (excluded : List ℕ) (job : JobRecord) (rows : List JobRecord)
    → next_queued_job excluded rows ≡ none
    → Oldest excluded job rows
unfolding next_queued_job
next_queued_job-none excluded job [] e = tt
next_queued_job-none excluded job (row ∷ rows) e =
    elim (Bool-cases (is_status row.status queued && not (member row.asset_id excluded))) [
      | inl c ↦ ground arith
      | inr c ↦ (λ q m. ground arith, next_queued_job-none excluded job rows (rw c at e))
    ]

Oldest-trans :
    (excluded : List ℕ) (job other : JobRecord) (rows : List JobRecord)
    → job.created_at ≤ other.created_at
    → Oldest excluded other rows
    → Oldest excluded job rows
Oldest-trans excluded job other [] le h = tt
Oldest-trans excluded job other (row ∷ rows) le h =
    (λ q m. let bound = h.0 q m in omega arith, Oldest-trans excluded job other rows le h.1)

-- The job that is taken next is queued, its asset is not excluded, and no row of which both hold
-- was created before it.
pub next_queued_job_lem :
    (excluded : List ℕ) (rows : List JobRecord) (job : JobRecord)
    → next_queued_job excluded rows ≡ some job
    → Taken excluded job × Oldest excluded job rows
unfolding next_queued_job older
next_queued_job_lem excluded [] job e = cc
next_queued_job_lem excluded (row ∷ rows) job e =
    elim (Bool-cases (is_status row.status queued && not (member row.asset_id excluded))) [
      | inl c ↦ elim (Option-cases (next_queued_job excluded rows)) [
        | inl n ↦
            let same = some-injective row job (rw (c, n) at e) in
            let rest = next_queued_job-none excluded job rows n in
            (
              subst (Taken excluded) same (ground arith, ground arith),
              (λ q m. subst (λ j. j.created_at ≤ row.created_at) same (omega arith), rest),
            )
        | inr (other, n) ↦ elim (Bool-cases (leb row.created_at other.created_at)) [
          | inl le ↦
              let same = some-injective row job (rw (c, n, le) at e) in
              let ((q, m), oldest) = next_queued_job_lem excluded rows other n in
              (
                subst (Taken excluded) same (ground arith),
                (
                  λ q m. subst (λ j. j.created_at ≤ row.created_at) same (omega arith),
                  Oldest-trans excluded job other rows
                      (subst (λ j. j.created_at ≤ other.created_at) same (ground arith)) oldest,
                ),
              )
          | inr le ↦
              let same = some-injective other job (rw (c, n, le) at e) in
              let ((q, m), oldest) = next_queued_job_lem excluded rows other n in
              (
                subst (Taken excluded) same (q, m),
                (
                  λ q m. subst (λ j. j.created_at ≤ row.created_at) same (ground arith),
                  subst (λ j. Oldest excluded j rows) same oldest,
                ),
              )
        ]
      ]
      | inr c ↦
          let ((q, m), oldest) = next_queued_job_lem excluded rows job (rw c at e) in
          ((q, m), (λ q m. ground arith, oldest))
    ]
