-- ===== src/Scheduler/Tests.antt =====
-- Runs of the scheduler at concrete inputs.
use tiletopia.Prelude.{
  ℕ, suc, ◌+◌, ◌-◌, ◌*◌, ◌/◌, ◌<◌, ◌≡◌, refl, ◌≢◌, true, false, ◌&&◌, Option, none, some, List, [],
  ◌∷◌, arith, ltb, leb, if◌then◌else◌, length, All,
}
use tiletopia.Prelude.Res.{ok, err}
use tiletopia.Prelude.Int.{ℤ, pos, negsuc}
use tiletopia.Scheduler.{
  Chrono, retile_asset, prune_export_files, prune_age_too_low, interval, CronCrate, success,
  failure, ScheduledJob, as_i64, check,
}
use tiletopia.Scheduler.Cron.{
  field_count, parse_cron, parse_cron_fields, first_run, first_run_later, first_run_wraps,
}
use tiletopia.Scheduler.Runs.{Run, is_due, due_scheduled_jobs, ran_job, run_due}
use tiletopia.Scheduler.Settling.{
  rows_with, IsSettled, ran_job-IsSettled, ran_job_failure, run_due_lem,
}

-- A time library whose range ends at the year 262142.
abbrev last_second : ℕ
last_second = 8210266876799

abbrev clock_plus : ℕ → ℤ → Option ℕ
clock_plus t (pos n) = if leb (t + n) last_second then some (t + n) else none
clock_plus t (negsuc n) = if leb (suc n) t then some (t - suc n) else none

clock_plus_pos : (t n u : ℕ) → clock_plus t (pos n) ≡ some u → u ≡ t + n
clock_plus_pos t n u h = ground arith

clock_plus_neg : (t n u : ℕ) → clock_plus t (negsuc n) ≡ some u → u + suc n ≡ t
clock_plus_neg t n u h = ground arith

abbrev clock : Chrono
clock = record { plus = clock_plus; plus_pos = clock_plus_pos; plus_neg = clock_plus_neg }

-- A crate that reads every expression as "each minute".
abbrev next_minute : Unit {0} → ℕ → Option ℕ
next_minute _ t = some ((t / 60 + 1) * 60)

next_minute_later : (p : Unit {0}) (t u : ℕ) → next_minute p t ≡ some u → t < u
next_minute_later p t u h = ground arith

abbrev each_minute : CronCrate
each_minute = record {
  Plan = Unit {0};
  parse = λ _. some tt;
  after = next_minute;
  after_later = next_minute_later;
}

-- "* * * * *"
abbrev stars : List ℕ
stars = 42 ∷ 32 ∷ 42 ∷ 32 ∷ 42 ∷ 32 ∷ 42 ∷ 32 ∷ 42 ∷ []

stars_fields : field_count stars ≡ 5
unfolding field_count
stars_fields = refl

short_prune_refused : check (prune_export_files 0) ≡ err prune_age_too_low
unfolding check
short_prune_refused = refl

parse_cron_fields_example : field_count stars ≡ 5
unfolding parse_cron field_count
parse_cron_fields_example = parse_cron_fields each_minute clock stars tt refl

first_run_later_example : 1000 < 1060
unfolding first_run as_i64
first_run_later_example =
    first_run_later each_minute clock (interval 60) 1000 1060 (omega arith) refl

first_run_wraps_example : 940 + 60 ≡ 1000
unfolding first_run as_i64
first_run_wraps_example =
    first_run_wraps each_minute clock 60 1000 940 (omega arith) (omega arith) refl

abbrev hourly : ScheduledJob
hourly = record {
  id = 7;
  name = [];
  action = retile_asset 3;
  schedule = interval 3600;
  enabled = true;
  created_by = [];
  created_at = 0;
  next_run = some 1000;
  last_run = none;
  last_outcome = none;
  run_count = 0;
  consecutive_failures = 2;
}

abbrev later_job : ScheduledJob
later_job = record hourly { id = 8; next_run = some 900; consecutive_failures = 0 }

abbrev failed_run : Run
failed_run = record { result = err []; finished_at = 1005; recorded = true }

abbrev good_run : Run
good_run = record { result = ok []; finished_at = 1005; recorded = true }

abbrev disabled : ScheduledJob
disabled = record hourly {
  enabled = false;
  next_run = none;
  last_run = some 1005;
  last_outcome = some (record { outcome = failure; detail = [] });
  run_count = 1;
  consecutive_failures = 3;
}

abbrev followed : ScheduledJob
followed = record hourly {
  next_run = some 4605;
  last_run = some 1005;
  last_outcome = some (record { outcome = success; detail = [] });
  run_count = 1;
  consecutive_failures = 0;
}

ran_job-IsSettled_example : IsSettled disabled
unfolding ran_job is_due
ran_job-IsSettled_example =
    ran_job-IsSettled each_minute clock hourly disabled failed_run 1000 (ground arith) refl refl

ran_job_failure_example :
    (disabled.run_count ≡ 0 + 1)
    × (disabled.consecutive_failures ≡ 2 + 1)
    × ((now : ℕ) → is_due now disabled ≡ (ltb (2 + 1) 3 && leb 1005 now))
unfolding ran_job
ran_job_failure_example = ran_job_failure each_minute clock hourly disabled failed_run [] refl refl

abbrev waiting : ScheduledJob
waiting = record hourly { id = 9; next_run = some 5000 }

abbrev jobs_table : List ScheduledJob
jobs_table = hourly ∷ waiting ∷ later_job ∷ []

due_order : due_scheduled_jobs 1000 jobs_table ≡ later_job ∷ hourly ∷ []
unfolding due_scheduled_jobs
due_order = refl

run_due_lem_example :
    (1 ≡ length (due_scheduled_jobs 1000 (hourly ∷ waiting ∷ [])))
    × ((id : ℕ)
        → All
            (λ (job : ScheduledJob). job.id ≢ id)
            (due_scheduled_jobs 1000 (hourly ∷ waiting ∷ []))
        → rows_with id (disabled ∷ waiting ∷ []) ≡ rows_with id (hourly ∷ waiting ∷ []))
unfolding run_due due_scheduled_jobs
run_due_lem_example =
    run_due_lem each_minute clock (λ _. failed_run) 1000 (hourly ∷ waiting ∷ [])
      (disabled ∷ waiting ∷ []) 1 refl
