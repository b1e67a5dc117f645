-- ===== src/ApiKeys/Daily.antt =====
-- What the rate limiter of crates/tiletopia-server/src/api_keys.rs lets through in a day.
use tiletopia.Prelude.{
  ℕ, ◌+◌, ◌≤◌, ◌<◌, ◌≡◌, refl, ◌≢◌, inl, inr, false, ◌&&◌, some, List, [], ◌∷◌, arith, ltb, leb,
  ◌==◌, if◌then◌else◌, ==_iff, Bool-cases, sym, subst, ◌∙◌, All,
}
use tiletopia.ApiKeys.{RateLimit}
use tiletopia.ApiKeys.Limiter.{
  Seconds, RateLimiter, DailyCounter, RateLimitResult, allowed, denied, lookup, put, count_request,
  counter_now, bucket_now, try_consume, check_rate_limit, get_usage,
}

module _ (seconds : Seconds) where
  lookup-put : {A : Type 0} (k : ℕ) (v : A) (rows : List (ℕ × A)) → lookup k (put k v rows) ≡ some v
  unfolding lookup put
  lookup-put k v [] = ground arith
  lookup-put k v ((j, w) ∷ rows) = elim (Bool-cases (j == k)) [
    | inl e ↦ ground arith
    | inr e ↦ rw (e, e) (lookup-put k v rows)
  ]

  lookup-put_other :
      {A : Type 0} (k m : ℕ) (v : A) (rows : List (ℕ × A))
      → m ≢ k
      → lookup m (put k v rows) ≡ lookup m rows
  unfolding lookup put
  lookup-put_other k m v [] other = ground arith
  lookup-put_other k m v ((j, w) ∷ rows) other =
      let rest = lookup-put_other k m v rows other in ground arith

  -- The counter of a key with so many more requests.
  abbrev pub with_more : ℕ → DailyCounter → DailyCounter
  with_more n counter = record { requests = counter.requests + n; reset_at = counter.reset_at }

  abbrev pub count_allowed : RateLimitResult → ℕ
  count_allowed allowed = 1
  count_allowed (denied reason ms) = 0

  counter_now-open :
      (today key_id : ℕ) (counter : DailyCounter) (limiter : RateLimiter seconds)
      → get_usage seconds key_id limiter ≡ some counter
      → today < counter.reset_at
      → counter_now seconds today key_id limiter ≡ counter
  unfolding counter_now get_usage
  counter_now-open today key_id counter limiter found h =
      let early : leb counter.reset_at today ≡ false = ground arith in rw (found, early) refl

  -- What a request does to the counter of its key whose window is open.
  check_rate_limit-own :
      (now today key_id : ℕ) (rate_limit : RateLimit) (counter : DailyCounter)
      (limiter : RateLimiter seconds)
      → get_usage seconds key_id limiter ≡ some counter
      → today < counter.reset_at
      → let (result, after) = check_rate_limit seconds now today key_id rate_limit limiter in
        (get_usage seconds key_id after ≡ some (with_more (count_allowed result) counter))
        × (0 < rate_limit.requests_per_day
            → counter.requests ≤ rate_limit.requests_per_day
            → counter.requests + count_allowed result ≤ rate_limit.requests_per_day)
  unfolding check_rate_limit get_usage count_request
  check_rate_limit-own now today key_id rate_limit counter limiter found h =
      let same = counter_now-open today key_id counter limiter found h in
      let as_before : counter.requests + 0 ≡ counter.requests = omega arith in
      elim (Bool-cases
        (try_consume seconds now (bucket_now seconds now key_id rate_limit limiter)).0) [
          | inr e ↦ rw (e, as_before) (found, λ limited within. omega arith)
          | inl e ↦
              elim (Bool-cases (
                ltb 0 rate_limit.requests_per_day
                && leb rate_limit.requests_per_day counter.requests)) [
                  | inl f ↦
                      rw (e, same, f, as_before)
                        (lookup-put key_id _ _, λ limited within. omega arith)
                  | inr f ↦ rw (e, same, f) (lookup-put key_id _ _, λ limited within. ground arith)
                ]
        ]

  -- A request of one key leaves the counters of the others alone.
  check_rate_limit-other :
      (now today key_id other : ℕ) (rate_limit : RateLimit) (limiter : RateLimiter seconds)
      → other ≢ key_id
      → get_usage seconds other (check_rate_limit seconds now today key_id rate_limit limiter).1
        ≡ get_usage seconds other limiter
  unfolding check_rate_limit get_usage
  check_rate_limit-other now today key_id other rate_limit limiter away =
      let counter = counter_now seconds today key_id limiter in
      elim (Bool-cases
        (try_consume seconds now (bucket_now seconds now key_id rate_limit limiter)).0) [
          | inr e ↦ rw e refl
          | inl e ↦
              elim (Bool-cases (
                ltb 0 rate_limit.requests_per_day
                && leb rate_limit.requests_per_day counter.requests)) [
                  | inl f ↦ rw (e, f) (lookup-put_other key_id other counter _ away)
                  | inr f ↦ rw (e, f) (lookup-put_other key_id other (count_request counter) _ away)
                ]
        ]

  -- A request as `check_rate_limit` meets it.
  pub record Call : Type 0 where
    pub now : ℕ
    pub today : ℕ
    pub key_id : ℕ
    pub rate_limit : RateLimit

  -- How many of a run of requests, of any keys, are allowed to one key, and the limiter after them.
  unfoldable pub run_calls : ℕ → List Call → RateLimiter seconds → ℕ × RateLimiter seconds
  run_calls key_id [] limiter = (0, limiter)
  run_calls key_id (call ∷ calls) limiter =
      let (result, after) =
        check_rate_limit seconds call.now call.today call.key_id call.rate_limit limiter in
      let (more, last) = run_calls key_id calls after in
      ((if call.key_id == key_id then count_allowed result else 0) + more, last)

  -- A request that comes before a time, and has a given daily limit if it is of a given key.
  abbrev pub InWindow : ℕ → ℕ → ℕ → Call → Type 0
  InWindow key_id per_day until call =
      (call.today < until) × (call.key_id ≡ key_id → call.rate_limit.requests_per_day ≡ per_day)

  add_assoc : (a b c : ℕ) → a + (b + c) ≡ a + b + c
  add_assoc a b c = omega arith

  -- Over any requests of any keys, all before the counter of a key is due to be reset, where the
  -- requests of that key have one daily limit and its counter stands within it: the counter grows
  -- by exactly the requests of the key that are allowed, and stays within the limit.
  pub daily_limit_bound :
      (key_id per_day : ℕ) (counter : DailyCounter) (calls : List Call)
      (limiter : RateLimiter seconds)
      → get_usage seconds key_id limiter ≡ some counter
      → 0 < per_day
      → counter.requests ≤ per_day
      → All (InWindow key_id per_day counter.reset_at) calls
      → let (n, after) = run_calls key_id calls limiter in
        (get_usage seconds key_id after
          ≡ some (record { requests = counter.requests + n; reset_at = counter.reset_at }))
        × (counter.requests + n ≤ per_day)
  unfolding run_calls
  daily_limit_bound key_id per_day counter [] limiter found limited within h =
      let same : counter.requests + 0 ≡ counter.requests = omega arith in rw same (found, within)
  daily_limit_bound key_id per_day counter (call ∷ calls) limiter found limited within h =
      let (result, after) =
        check_rate_limit seconds call.now call.today call.key_id call.rate_limit limiter in
      elim (Bool-cases (call.key_id == key_id)) [
        | inl e ↦
            let own = (==_iff call.key_id key_id).0 e in
            let (counted, bounded) =
              check_rate_limit-own call.now call.today call.key_id call.rate_limit counter limiter
                (subst (λ k. get_usage seconds k limiter ≡ some counter) (sym own) found) h.0.0 in
            let day_limit = h.0.1 own in
            let grown = with_more (count_allowed result) counter in
            let (last, most) =
              daily_limit_bound key_id per_day grown calls after
                (subst (λ k. get_usage seconds k after ≡ some grown) own counted) limited
                (omega (arith, bounded (omega arith) (omega arith))) h.1 in
            let sums =
              add_assoc counter.requests (count_allowed result) (run_calls key_id calls after).0 in
            rw (e, sums) (last, most)
        | inr e ↦
            let away : key_id ≢ call.key_id =
              λ p. (let q = (==_iff call.key_id key_id).1 (sym p) in cc) in
            let counted =
              check_rate_limit-other call.now call.today call.key_id key_id call.rate_limit limiter
                away
              ∙ found in
            let unchanged : 0 + (run_calls key_id calls after).0
                ≡ (run_calls key_id calls after).0 =
              omega arith in
            rw (e, unchanged)
              (daily_limit_bound key_id per_day counter calls after counted limited within h.1)
      ]
