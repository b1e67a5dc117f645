-- ===== src/Scheduler/Runs.antt =====
-- `next_state` and `Scheduler::run_due` of crates/tiletopia-server/src/scheduler.rs, with
-- `due_scheduled_jobs` and `record_scheduled_run` of db.rs.
use tiletopia.Prelude.{
  ℕ, ◌+◌, Bool, true, false, ◌&&◌, none, some, List, [], ◌∷◌, leb, ◌==◌, if◌then◌else◌, is_some,
}
use tiletopia.Prelude.Res.{Res, ok, err, ◌>>=◌}
use tiletopia.Scheduler.{
  Chrono, Panic, CronCrate, Outcome, success, failure, RunOutcome, ScheduledJob, NextState,
  max_run_attempts,
}
use tiletopia.Scheduler.Cron.{next_run_after}

-- What a run of one due job brings: the result of `execute`, the clock when it ends, and whether
-- the row could be written.
pub record Run : Type 0 where
  pub result : Res (List ℕ) (List ℕ)
  pub finished_at : ℕ
  pub recorded : Bool

-- `RunOutcome` of a result
abbrev pub run_outcome : Res (List ℕ) (List ℕ) → RunOutcome
run_outcome (ok detail) = record { outcome = success; detail = detail }
run_outcome (err detail) = record { outcome = failure; detail = detail }

-- WHERE enabled = 1 AND next_run IS NOT NULL AND next_run <= now. The columns are RFC 3339 texts; up
-- to the year 9999, where times are taken to lie, their order is that of the times.
unfoldable pub is_due : ℕ → ScheduledJob → Bool
is_due now job = job.enabled && elim job.next_run [ none ↦ false | some at ↦ leb at now ]

-- ORDER BY next_run
abbrev pub due_at : ScheduledJob → ℕ
due_at job = elim job.next_run [ none ↦ 0 | some at ↦ at ]

unfoldable pub insert_due : ScheduledJob → List ScheduledJob → List ScheduledJob
insert_due job [] = job ∷ []
insert_due job (k ∷ rest) =
    if leb (due_at job) (due_at k) then job ∷ k ∷ rest else k ∷ insert_due job rest

-- `Database::due_scheduled_jobs`
unfoldable pub due_scheduled_jobs : ℕ → List ScheduledJob → List ScheduledJob
unfolding insert_due is_due
due_scheduled_jobs now [] = []
due_scheduled_jobs now (job ∷ table) =
    let rest = due_scheduled_jobs now table in if is_due now job then insert_due job rest else rest

-- `Database::record_scheduled_run`: the name, action, schedule and creator stay.
unfoldable pub record_scheduled_run : ScheduledJob → List ScheduledJob → List ScheduledJob
record_scheduled_run job [] = []
record_scheduled_run job (row ∷ table) =
    (if row.id == job.id
      then record row {
        enabled = job.enabled;
        next_run = job.next_run;
        last_run = job.last_run;
        last_outcome = job.last_outcome;
        run_count = job.run_count;
        consecutive_failures = job.consecutive_failures;
      }
      else row)
    ∷ record_scheduled_run job table

-- A write that fails leaves the row as it was.
unfoldable pub write_run : Bool → ScheduledJob → List ScheduledJob → List ScheduledJob
unfolding record_scheduled_run
write_run true job table = record_scheduled_run job table
write_run false job table = table

module _ (crate : CronCrate) (time : Chrono) where
  -- `next_state`
  unfoldable pub next_state : ScheduledJob → Outcome → ℕ → Res Panic NextState
  next_state job success finished_at = do
    next_run ← next_run_after crate time job.schedule finished_at
    ok (record { next_run = next_run; enabled = is_some next_run; consecutive_failures = 0 })
  next_state job failure finished_at =
      let failures = job.consecutive_failures + 1 in
      if leb max_run_attempts failures
      then ok (record { next_run = none; enabled = false; consecutive_failures = failures })
      else ok
          (record { next_run = some finished_at; enabled = true; consecutive_failures = failures })

  -- The row after one run, the body of the loop of `run_due` up to the write.
  unfoldable pub ran_job : ScheduledJob → Run → Res Panic ScheduledJob
  unfolding next_state
  ran_job job run = do
    next ← next_state job (run_outcome run.result).outcome run.finished_at
    ok (record job {
      last_run = some run.finished_at;
      last_outcome = some (run_outcome run.result);
      run_count = job.run_count + 1;
      next_run = next.next_run;
      enabled = next.enabled;
      consecutive_failures = next.consecutive_failures;
    })

  -- The loop of `run_due`, with the number of jobs that ran.
  unfoldable pub run_all :
      (ScheduledJob → Run)
      → List ScheduledJob
      → List ScheduledJob
      → ℕ
      → Res Panic (List ScheduledJob × ℕ)
  unfolding ran_job write_run
  run_all env [] table ran = ok (table, ran)
  run_all env (job ∷ due) table ran = do
    row ← ran_job job (env job)
    run_all env due (write_run (env job).recorded row table) (ran + 1)

  -- `Scheduler::run_due`, where the query succeeds.
  unfoldable pub run_due :
      (ScheduledJob → Run) → ℕ → List ScheduledJob → Res Panic (List ScheduledJob × ℕ)
  unfolding run_all
  run_due env now table = run_all env (due_scheduled_jobs now table) table 0
