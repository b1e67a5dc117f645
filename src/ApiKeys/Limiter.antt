-- ===== src/ApiKeys/Limiter.antt =====
-- The rate limiter of crates/tiletopia-server/src/api_keys.rs, with its maps as association lists.
-- The parameter `Seconds` stands for the f64 of a token bucket, with the elapsed time in seconds
-- between two instants. Times of the day are milliseconds.
use tiletopia.Prelude.{
  ℕ, ◌+◌, ◌-◌, max, String, Bool, not, ◌&&◌, Option, none, some, List, [], ◌∷◌, ltb, leb, ◌==◌,
  if◌then◌else◌,
}
use tiletopia.ApiKeys.{RateLimit}

pub record Seconds : Type 1 where
  pub F : Type 0
  pub plus : F → F → F
  pub minus : F → F → F
  pub times : F → F → F
  pub min_F : F → F → F
  pub leb_F : F → F → Bool
  pub one : F
  pub of_nat : ℕ → F
  pub elapsed : ℕ → ℕ → F
  -- `(1000.0 / rate).ceil() as u64`
  pub retry_after : ℕ → ℕ

pub record DailyCounter : Type 0 where
  pub requests : ℕ
  pub reset_at : ℕ

pub data RateLimitResult : Type 0 where
  allowed : RateLimitResult
  denied : String → ℕ → RateLimitResult

abbrev pub day : ℕ
day = 86400000

-- `HashMap::get`
unfoldable pub lookup : {A : Type 0} → ℕ → List (ℕ × A) → Option A
lookup k [] = none
lookup k ((j, v) ∷ rest) = let found = lookup k rest in if j == k then some v else found

-- The write through `HashMap::entry`.
unfoldable pub put : {A : Type 0} → ℕ → A → List (ℕ × A) → List (ℕ × A)
put k v [] = (k, v) ∷ []
put k v ((j, w) ∷ rest) = let more = put k v rest in if j == k then (k, v) ∷ rest else (j, w) ∷ more

-- `DailyCounter::new`
unfoldable pub new_counter : ℕ → DailyCounter
new_counter now = record { requests = 0; reset_at = now + day }

unfoldable pub maybe_reset : ℕ → DailyCounter → DailyCounter
maybe_reset now counter =
    if leb counter.reset_at now then record { requests = 0; reset_at = now + day } else counter

unfoldable pub count_request : DailyCounter → DailyCounter
count_request counter = record { requests = counter.requests + 1; reset_at = counter.reset_at }

-- `or_insert_with`
abbrev pub or_insert : {A : Type 0} → A → Option A → A
or_insert a none = a
or_insert a (some b) = b

module _ (seconds : Seconds) where
  open seconds use {F, plus, minus, times, min_F, leb_F, one, of_nat, elapsed, retry_after}

  pub record TokenBucket : Type 0 where
    pub tokens : F
    pub max_tokens : F
    pub refill_rate : F
    pub last_refill : ℕ

  pub record RateLimiter : Type 0 where
    pub buckets : List (ℕ × TokenBucket)
    pub daily_counts : List (ℕ × DailyCounter)

  -- `TokenBucket::new`
  unfoldable pub new_bucket : F → F → ℕ → TokenBucket
  new_bucket max rate now = record {
    tokens = max;
    max_tokens = max;
    refill_rate = rate;
    last_refill = now;
  }

  unfoldable pub try_consume : ℕ → TokenBucket → Bool × TokenBucket
  try_consume now bucket =
      let tokens =
        min_F (plus bucket.tokens (times (elapsed bucket.last_refill now) bucket.refill_rate))
          bucket.max_tokens in
      let enough = leb_F one tokens in
      (
        enough,
        record {
          tokens = if enough then minus tokens one else tokens;
          max_tokens = bucket.max_tokens;
          refill_rate = bucket.refill_rate;
          last_refill = now;
        },
      )

  -- The counter of a key when a request comes.
  unfoldable pub counter_now : ℕ → ℕ → RateLimiter → DailyCounter
  unfolding new_counter maybe_reset lookup
  counter_now today key_id limiter =
      maybe_reset today (or_insert (new_counter today) (lookup key_id limiter.daily_counts))

  unfoldable pub bucket_now : ℕ → ℕ → RateLimit → RateLimiter → TokenBucket
  unfolding new_bucket lookup
  bucket_now now key_id rate_limit limiter =
      let rate = of_nat rate_limit.requests_per_second in
      or_insert (new_bucket rate rate now) (lookup key_id limiter.buckets)

  -- `check_rate_limit`, at an instant `now` and a wall-clock time `today`
  unfoldable pub check_rate_limit :
      ℕ → ℕ → ℕ → RateLimit → RateLimiter → RateLimitResult × RateLimiter
  unfolding try_consume counter_now bucket_now count_request put
  check_rate_limit now today key_id rate_limit limiter =
      let (enough, bucket) = try_consume now (bucket_now now key_id rate_limit limiter) in
      let buckets = put key_id bucket limiter.buckets in
      let counter = counter_now today key_id limiter in
      if not enough
      then (
        denied "rate limit exceeded (per second)" (retry_after rate_limit.requests_per_second),
        record { buckets = buckets; daily_counts = limiter.daily_counts },
      )
      else if ltb 0 rate_limit.requests_per_day && leb rate_limit.requests_per_day counter.requests
      then (
        denied "daily request limit exceeded" (counter.reset_at - today),
        record { buckets = buckets; daily_counts = put key_id counter limiter.daily_counts },
      )
      else (
        allowed,
        record {
          buckets = buckets;
          daily_counts = put key_id (count_request counter) limiter.daily_counts;
        },
      )

  -- `get_usage`
  unfoldable pub get_usage : ℕ → RateLimiter → Option DailyCounter
  unfolding lookup
  get_usage key_id limiter = lookup key_id limiter.daily_counts
