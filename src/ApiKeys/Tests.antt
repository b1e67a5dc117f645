-- ===== src/ApiKeys/Tests.antt =====
-- Runs of the key names, the shape check and the rate limiter, with whole tokens per millisecond.
use tiletopia.Prelude.{
  ℕ, ◌+◌, ◌-◌, ◌*◌, ◌/◌, ◌≤◌, min, ◌≡◌, refl, ◌≢◌, true, false, some, List, [], ◌∷◌, ◌++◌, leb,
  arith, length, replicate, take,
}
use tiletopia.ApiKeys.{
  RateLimit, key_prefix, strip_prefix, is_hex, hash_presented_key, all_hex, hash_presented_key_lem,
}
use tiletopia.ApiKeys.Limiter.{
  Seconds, RateLimiter, DailyCounter, allowed, day, check_rate_limit, get_usage,
}
use tiletopia.ApiKeys.Daily.{Call, run_calls, daily_limit_bound}

abbrev whole : Seconds
whole = record {
  F = ℕ;
  plus = λ a b. a + b;
  minus = λ a b. a - b;
  times = λ a b. a * b;
  min_F = min;
  leb_F = leb;
  one = 1;
  of_nat = λ n. n;
  elapsed = λ a b. b - a;
  retry_after = λ rate. 1000 / rate;
}

abbrev nobody : RateLimiter whole
nobody = record { buckets = []; daily_counts = [] }

abbrev two_a_day : RateLimit
two_a_day = record { requests_per_second = 1; requests_per_day = 2 }

abbrev once : RateLimiter whole
once = (check_rate_limit whole 0 50 4 two_a_day nobody).1

second_is_refused : (check_rate_limit whole 0 50 4 two_a_day once).0 ≢ allowed
unfolding check_rate_limit
second_is_refused h = cc

abbrev call_of : ℕ → ℕ → Call whole
call_of now key_id = record { now = now; today = 60; key_id = key_id; rate_limit = two_a_day }

abbrev calls : List (Call whole)
calls = call_of 1 4 ∷ call_of 2 9 ∷ call_of 3 4 ∷ call_of 4 4 ∷ []

abbrev first_counted : DailyCounter
first_counted = record { requests = 1; reset_at = 50 + day }

once_counted : get_usage whole 4 once ≡ some first_counted
unfolding get_usage check_rate_limit
once_counted = refl

-- Of three more requests of the key, one is within its limit of two.
one_more : (run_calls whole 4 calls once).0 ≡ 1
unfolding run_calls check_rate_limit
one_more = refl

daily_limit_bound_example :
    let (n, after) = run_calls whole 4 calls once in
    (get_usage whole 4 after ≡ some (record { requests = 1 + n; reset_at = 50 + day }))
    × (1 + n ≤ 2)
daily_limit_bound_example =
    daily_limit_bound whole 4 2 first_counted calls once once_counted (omega arith) (omega arith) (
      (omega arith, λ e. refl),
      ((omega arith, λ e. refl), ((omega arith, λ e. refl), ((omega arith, λ e. refl), tt))),
    )

abbrev some_key : List ℕ
some_key = key_prefix ++ replicate 64 97

abbrev first_four : List ℕ → List ℕ
first_four text = take 4 text

hashed : hash_presented_key first_four some_key ≡ some key_prefix
unfolding hash_presented_key strip_prefix is_hex
hashed = refl

hash_presented_key_lem_example :
    (key_prefix ≡ first_four some_key)
    × ((hex : List ℕ) × (some_key ≡ key_prefix ++ hex) × (length hex ≡ 64) × (all_hex hex ≡ true))
    × (all_hex some_key ≡ false)
hash_presented_key_lem_example = hash_presented_key_lem first_four some_key hashed
