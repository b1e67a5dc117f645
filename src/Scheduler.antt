-- ===== src/Scheduler.antt =====
-- crates/tiletopia-server/src/scheduler.rs and the `scheduled_jobs` table of db.rs: what a
-- scheduled job may ask for, when it runs, and the state its row takes after each run.
-- Times are whole seconds since 1970. The time library's addition and the `cron` crate are the
-- parameters `Chrono` and `Cron`; what an action does is the parameter `env`.
pub mod Cron
pub mod Runs
pub mod Settling
pub mod Tests
use tiletopia.Prelude.{
  ℕ, zero, suc, ◌+◌, ◌-◌, ◌*◌, ◌/◌, ◌%◌, ◌^◌, ◌≤◌, ◌<◌, min, max, String, ◌≡◌, refl, sym, ap, ◌∙◌,
  ◌≢◌, ◌↔◌, ◌⊎◌, inl, inr, Bool, true, false, not, ◌&&◌, ◌||◌, Option, none, some, List, [], ◌∷◌,
  ◌++◌, map, arith, ltb, leb, ◌==◌, if◌then◌else◌, ltb→lt, ==_iff, Bool-cases, Option-cases,
  is_some, length, get_elem?, set, drop, replicate, All, length-append, length-set, length-drop,
  length-replicate, length-map, All-append,
}
use tiletopia.Prelude.Res.{Res, ok, err, ◌>>=◌, ◌>>◌, guard, map_err, is_ok}
use tiletopia.Prelude.Int.{ℤ, pos, negsuc}

-- chrono's `DateTime + Duration::seconds(n)`: `none` is its panic on a value out of range.
pub record Chrono : Type 0 where
  pub plus : ℕ → ℤ → Option ℕ
  pub plus_pos : (t n u : ℕ) → plus t (pos n) ≡ some u → u ≡ t + n
  pub plus_neg : (t n u : ℕ) → plus t (negsuc n) ≡ some u → u + suc n ≡ t

pub data Panic : Type 0 where
  time_out_of_range : Panic

pub data ScheduledAction : Type 0 where
  retile_asset : ℕ → ScheduledAction
  prune_export_files prune_finished_jobs : ℕ → ScheduledAction

pub data Schedule : Type 0 where
  interval : ℕ → Schedule
  cron : List ℕ → Schedule
  one_shot : ℕ → Schedule

pub data ScheduleError : Type 0 where
  seconds_below_one no_run_left not_in_future not_a_cron prune_age_too_low : ScheduleError
  panicked : Panic → ScheduleError

abbrev pub max_run_attempts : ℕ
max_run_attempts = 3

abbrev pub min_interval_seconds : ℕ
min_interval_seconds = 1

abbrev pub min_prune_age_days : ℕ
min_prune_age_days = 1

-- `ScheduledAction::check`
unfoldable pub check : ScheduledAction → Res ScheduleError (Unit {0})
check (retile_asset _) = ok tt
check (prune_export_files days) =
    if ltb days min_prune_age_days then err prune_age_too_low else ok tt
check (prune_finished_jobs days) =
    if ltb days min_prune_age_days then err prune_age_too_low else ok tt

-- `seconds as i64`
unfoldable pub as_i64 : ℕ → ℤ
as_i64 n = if ltb n (2 ^ 63) then pos n else negsuc (2 ^ 64 - n - 1)

-- The `cron` crate: an expression that it parses, and the first run after a time.
pub record CronCrate : Type 1 where
  pub Plan : Type 0
  pub parse : List ℕ → Option Plan
  pub after : Plan → ℕ → Option ℕ
  pub after_later : (p : Plan) (t u : ℕ) → after p t ≡ some u → t < u

pub data Outcome : Type 0 where
  success failure : Outcome

pub record RunOutcome : Type 0 where
  pub outcome : Outcome
  pub detail : List ℕ

pub record ScheduledJob : Type 0 where
  pub id : ℕ
  pub name : List ℕ
  pub action : ScheduledAction
  pub schedule : Schedule
  pub enabled : Bool
  pub created_by : List ℕ
  pub created_at : ℕ
  pub next_run : Option ℕ
  pub last_run : Option ℕ
  pub last_outcome : Option RunOutcome
  pub run_count : ℕ
  pub consecutive_failures : ℕ

pub record NextState : Type 0 where
  pub next_run : Option ℕ
  pub enabled : Bool
  pub consecutive_failures : ℕ
