-- ===== src/Scheduler/Cron.antt =====
-- `parse_cron` and the two clocks of a schedule, `first_run` and `next_run_after`, of
-- crates/tiletopia-server/src/scheduler.rs.
use tiletopia.Prelude.{
  ℕ, suc, ◌+◌, ◌-◌, ◌^◌, ◌≤◌, ◌<◌, ◌≡◌, Bool, false, not, ◌&&◌, ◌||◌, Option, none, some, List, [],
  ◌∷◌, ◌++◌, arith, ltb, leb, ◌==◌, if◌then◌else◌,
}
use tiletopia.Prelude.Res.{Res, ok, err, ◌>>=◌, ok_or, ok_or-eq-ok, >>=-eq-ok}
use tiletopia.Scheduler.{
  Chrono, Panic, time_out_of_range, Schedule, interval, cron, one_shot, ScheduleError,
  seconds_below_one, no_run_left, not_in_future, not_a_cron, panicked, min_interval_seconds, as_i64,
  CronCrate,
}

-- `char::is_whitespace`
unfoldable pub is_whitespace : ℕ → Bool
is_whitespace c =
    (leb 9 c && leb c 13)
    || (c == 32)
    || (c == 0x85)
    || (c == 0xa0)
    || (c == 0x1680)
    || (leb 0x2000 c && leb c 0x200a)
    || (c == 0x2028)
    || (c == 0x2029)
    || (c == 0x202f)
    || (c == 0x205f)
    || (c == 0x3000)

-- The number of words: `inside` says that the character before was part of one.
count_words : Bool → List ℕ → ℕ
unfolding is_whitespace
count_words inside [] = 0
count_words inside (c ∷ s) =
    let rest = count_words (not (is_whitespace c)) s in
    if is_whitespace c then rest else if inside then rest else suc rest

-- `expression.split_whitespace().count()`
unfoldable pub field_count : List ℕ → ℕ
unfolding count_words
field_count s = count_words false s

abbrev pub cron_fields : ℕ
cron_fields = 5

module _ (crate : CronCrate) where
  open crate use {Plan, parse, after, after_later}

  -- `format!("0 {expression} *")`
  padded : List ℕ → List ℕ
  padded expression = b'0' ∷ b' ' ∷ (expression ++ b' ' ∷ b'*' ∷ [])

  unfoldable pub parse_cron : List ℕ → Res ScheduleError Plan
  unfolding padded
  parse_cron expression =
      if field_count expression == cron_fields
      then ok_or not_a_cron (parse (padded expression))
      else err not_a_cron

  module _ (time : Chrono) where
    open time use {plus, plus_pos, plus_neg}

    -- `Schedule::next_run_after`
    unfoldable pub next_run_after : Schedule → ℕ → Res Panic (Option ℕ)
    unfolding as_i64 parse_cron
    next_run_after (interval seconds) t = elim (plus t (as_i64 seconds)) [
      | some u ↦ ok (some u)
      | none ↦ err time_out_of_range
    ]
    next_run_after (cron expression) t = elim (parse_cron expression) [
      | ok p ↦ ok (after p t)
      | err _ ↦ ok none
    ]
    next_run_after (one_shot _) t = ok none

    -- `Schedule::first_run`
    unfoldable pub first_run : Schedule → ℕ → Res ScheduleError ℕ
    first_run (interval seconds) now =
        if ltb seconds min_interval_seconds
        then err seconds_below_one
        else ok_or (panicked time_out_of_range) (plus now (as_i64 seconds))
    first_run (cron expression) now = do
      plan ← parse_cron expression
      ok_or no_run_left (after plan now)
    first_run (one_shot at) now = if leb at now then err not_in_future else ok at

    -- An interval below 2^63 seconds, and every other schedule.
    abbrev pub Fits : Schedule → Type 0
    Fits (interval seconds) = seconds < 2 ^ 63
    Fits _ = Unit

    first_run-cron :
        (expression : List ℕ) (now t : ℕ)
        → first_run (cron expression) now ≡ ok t
        → (plan : Plan) × (after plan now ≡ some t)
    unfolding first_run
    first_run-cron expression now t e =
        let (plan, parsed, found) = >>=-eq-ok (parse_cron expression) _ e in
        (plan, ok_or-eq-ok no_run_left (after plan now) found)

    -- A schedule that is accepted, with an interval below 2^63 seconds, first runs in the future.
    pub first_run_later : (s : Schedule) (now t : ℕ) → Fits s → first_run s now ≡ ok t → now < t
    unfolding first_run as_i64
    first_run_later (interval seconds) now t h e = ground (arith, plus_pos now seconds t)
    first_run_later (cron expression) now t h e =
        let (plan, found) = first_run-cron expression now t e in after_later plan now t found
    first_run_later (one_shot at) now t h e = ground arith

    -- An interval of 2^64 - k seconds, for k up to 2^63, is accepted where the time library has the
    -- sum, and its first run is k seconds in the past.
    pub first_run_wraps :
        (k now t : ℕ)
        → 0 < k
        → k ≤ 2 ^ 63
        → first_run (interval (2 ^ 64 - k)) now ≡ ok t
        → t + k ≡ now
    unfolding first_run as_i64
    first_run_wraps k now t p q e = ground (arith, plus_neg now (k - 1) t)

    -- `parse_cron` accepts no text that does not have five words.
    pub parse_cron_fields :
        (expression : List ℕ) (plan : Plan)
        → parse_cron expression ≡ ok plan
        → field_count expression ≡ cron_fields
    unfolding parse_cron
    parse_cron_fields expression plan e = ground arith
