-- ===== src/Scheduler/Settling.antt =====
-- What holds of the runs of scheduled jobs (crates/tiletopia-server/src/scheduler.rs): the rows that
-- a run leaves, the order of the due jobs, and the rows that a batch leaves alone.
use tiletopia.Prelude.{
  ℕ, ◌+◌, ◌≤◌, ◌≡◌, refl, ◌∙◌, ◌≢◌, inl, inr, Bool, true, false, ◌&&◌, List, [], ◌∷◌, arith, ltb,
  leb, ◌==◌, if◌then◌else◌, Bool-cases, is_some, length, All, All-map,
}
use tiletopia.Prelude.Res.{ok, err, >>=-eq-ok}
use tiletopia.Scheduler.{Chrono, CronCrate, ScheduledJob, max_run_attempts}
use tiletopia.Scheduler.Runs.{
  Run, run_outcome, is_due, due_at, insert_due, due_scheduled_jobs, record_scheduled_run, write_run,
  next_state, ran_job, run_all, run_due,
}

-- A row at rest: it is enabled exactly while it has a next run, the failures in a row are at
-- most three, and three of them leave it disabled.
pub record IsSettled (job : ScheduledJob) : Type 0 where
  pub enabled_scheduled : job.enabled ≡ is_some job.next_run
  pub failures_capped : job.consecutive_failures ≤ max_run_attempts
  pub exhausted_disabled : job.consecutive_failures ≡ max_run_attempts → job.enabled ≡ false

-- The rows of an id.
pub rows_with : ℕ → List ScheduledJob → List ScheduledJob
rows_with id [] = []
rows_with id (row ∷ table) =
    let rest = rows_with id table in if row.id == id then row ∷ rest else rest

rows_with-record_scheduled_run :
    (id : ℕ) (job : ScheduledJob) (table : List ScheduledJob)
    → job.id ≢ id
    → rows_with id (record_scheduled_run job table) ≡ rows_with id table
unfolding rows_with record_scheduled_run
rows_with-record_scheduled_run id job [] h = refl
rows_with-record_scheduled_run id job (row ∷ table) h =
    ground (arith, rows_with-record_scheduled_run id job table h)

rows_with-write_run :
    (b : Bool) (id : ℕ) (job : ScheduledJob) (table : List ScheduledJob)
    → job.id ≢ id
    → rows_with id (write_run b job table) ≡ rows_with id table
unfolding write_run
rows_with-write_run true id job table h = rows_with-record_scheduled_run id job table h
rows_with-write_run false id job table h = refl

insert_due-All :
    (P : ScheduledJob → Type 0) (job : ScheduledJob) (l : List ScheduledJob)
    → P job
    → All P l
    → All P (insert_due job l)
unfolding insert_due
insert_due-All P job [] p h = (p, h)
insert_due-All P job (k ∷ rest) p h = elim (Bool-cases (leb (due_at job) (due_at k))) [
  | inl e ↦ rw e (p, h)
  | inr e ↦ rw e (h.0, insert_due-All P job rest p h.1)
]

-- Every job that the query returns is due.
due_scheduled_jobs-due :
    (now : ℕ) (table : List ScheduledJob)
    → All (λ (job : ScheduledJob). is_due now job ≡ true) (due_scheduled_jobs now table)
unfolding due_scheduled_jobs
due_scheduled_jobs-due now [] = tt
due_scheduled_jobs-due now (job ∷ table) = elim (Bool-cases (is_due now job)) [
  | inl e ↦ rw e (
      insert_due-All (λ (j : ScheduledJob). is_due now j ≡ true) job _ e
        (due_scheduled_jobs-due now table))
  | inr e ↦ rw e (due_scheduled_jobs-due now table)
]

abbrev pub IsSorted : List ScheduledJob → Type 0
IsSorted [] = Unit
IsSorted (job ∷ l) = All (λ (k : ScheduledJob). due_at job ≤ due_at k) l × IsSorted l

insert_due-IsSorted :
    (job : ScheduledJob) (l : List ScheduledJob) → IsSorted l → IsSorted (insert_due job l)
unfolding insert_due
insert_due-IsSorted job [] h = (tt, tt)
insert_due-IsSorted job (k ∷ rest) h = elim (Bool-cases (leb (due_at job) (due_at k))) [
  | inl e ↦
      let first : due_at job ≤ due_at k = ground arith in
      rw e ((first, All-map _ _ (λ j p. omega arith) rest h.0), h)
  | inr e ↦
      let first : due_at k ≤ due_at job = ground arith in
      rw e (
        insert_due-All (λ (j : ScheduledJob). due_at k ≤ due_at j) job rest first h.0,
        insert_due-IsSorted job rest h.1,
      )
]

-- The query returns the jobs in the order in which they came due.
due_scheduled_jobs-IsSorted :
    (now : ℕ) (table : List ScheduledJob) → IsSorted (due_scheduled_jobs now table)
unfolding due_scheduled_jobs
due_scheduled_jobs-IsSorted now [] = tt
due_scheduled_jobs-IsSorted now (job ∷ table) = elim (Bool-cases (is_due now job)) [
  | inl e ↦ rw e (insert_due-IsSorted job _ (due_scheduled_jobs-IsSorted now table))
  | inr e ↦ rw e (due_scheduled_jobs-IsSorted now table)
]

-- Every job that the query returns is due, and they stand in the order in which they came due.
pub due_scheduled_jobs_lem :
    (now : ℕ) (table : List ScheduledJob)
    → All (λ (job : ScheduledJob). is_due now job ≡ true) (due_scheduled_jobs now table)
      × IsSorted (due_scheduled_jobs now table)
due_scheduled_jobs_lem now table =
    (due_scheduled_jobs-due now table, due_scheduled_jobs-IsSorted now table)

module _ (crate : CronCrate) (time : Chrono) where
  -- Every run of a due job leaves its row settled.
  pub ran_job-IsSettled :
      (job next : ScheduledJob) (run : Run) (now : ℕ)
      → IsSettled job
      → is_due now job ≡ true
      → ran_job crate time job run ≡ ok next
      → IsSettled next
  unfolding ran_job is_due
  ran_job-IsSettled job next run now s d e = ground arith

  -- A run of a due job whose action fails: the job is retried at once while fewer than three runs
  -- in a row have failed, and then it is disabled and never due again. The run is counted.
  pub ran_job_failure :
      (job next : ScheduledJob) (run : Run) (detail : List ℕ)
      → run.result ≡ err detail
      → ran_job crate time job run ≡ ok next
      → (next.run_count ≡ job.run_count + 1)
        × (next.consecutive_failures ≡ job.consecutive_failures + 1)
        × ((now : ℕ)
            → is_due now next
              ≡ (ltb (job.consecutive_failures + 1) max_run_attempts && leb run.finished_at now))
  unfolding ran_job is_due
  ran_job_failure job next run detail r e = (ground arith, ground arith, λ now. ground arith)

  id-ran_job :
      (job next : ScheduledJob) (run : Run)
      → ran_job crate time job run ≡ ok next
      → next.id ≡ job.id
  unfolding ran_job
  id-ran_job job next run e =
      let (state, _, same) =
        >>=-eq-ok (next_state crate time job (run_outcome run.result).outcome run.finished_at) _
          e in
      ground arith

  run_all_count :
      (env : ScheduledJob → Run) (due table table' : List ScheduledJob) (ran n : ℕ)
      → run_all crate time env due table ran ≡ ok (table', n)
      → n ≡ ran + length due
  unfolding run_all
  run_all_count env [] table table' ran n e = ground arith
  run_all_count env (job ∷ due) table table' ran n e =
      let (row, _, later) = >>=-eq-ok (ran_job crate time job (env job)) _ e in
      omega (arith, run_all_count env due _ table' (ran + 1) n later)

  -- Rows with an id that no job of the batch has.
  run_all_untouched :
      (env : ScheduledJob → Run) (id : ℕ) (due table table' : List ScheduledJob) (ran n : ℕ)
      → All (λ (job : ScheduledJob). job.id ≢ id) due
      → run_all crate time env due table ran ≡ ok (table', n)
      → rows_with id table' ≡ rows_with id table
  unfolding run_all
  run_all_untouched env id [] table table' ran n h e = ground arith
  run_all_untouched env id (job ∷ due) table table' ran n h e =
      let (row, ran_now, later) = >>=-eq-ok (ran_job crate time job (env job)) _ e in
      run_all_untouched env id due _ table' (ran + 1) n h.1 later
      ∙ rows_with-write_run (env job).recorded id row table
          (rw (id-ran_job job row (env job) ran_now) h.0)

  -- `run_due` reports as many runs as jobs were due, and a row that was not due, where no due
  -- job has its id, is as it was.
  pub run_due_lem :
      (env : ScheduledJob → Run) (now : ℕ) (table table' : List ScheduledJob) (n : ℕ)
      → run_due crate time env now table ≡ ok (table', n)
      → (n ≡ length (due_scheduled_jobs now table))
        × ((id : ℕ)
            → All (λ (job : ScheduledJob). job.id ≢ id) (due_scheduled_jobs now table)
            → rows_with id table' ≡ rows_with id table)
  unfolding run_due
  run_due_lem env now table table' n e = (
    omega (arith, run_all_count env (due_scheduled_jobs now table) table table' 0 n e),
    λ id h. run_all_untouched env id (due_scheduled_jobs now table) table table' 0 n h e,
  )
