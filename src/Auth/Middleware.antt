-- ===== src/Auth/Middleware.antt =====
-- `authorize_api_key` and `auth_middleware` of crates/tiletopia-server/src/auth.rs. The parameters
-- are what the environment says, the lookup of a key by its digest, the verification of a token
-- with the secret, and which asset ids name the global terrain. The write of a key's last use is
-- left out.
use tiletopia.Prelude.{
  ℕ, ◌+◌, ◌/◌, max, String, Bool, true, false, not, ◌&&◌, ◌||◌, Option, none, some, List, [], ◌∷◌,
  if◌then◌else◌,
}
use tiletopia.Prelude.Res.{Res, ok, err}
use text.Mathlib.Text
use tiletopia.ApiKeys.{ApiKey, allows, expired_at, rate_limit, hash_presented_key}
use tiletopia.ApiKeys.Limiter.{
  Seconds, RateLimiter, RateLimitResult, allowed, denied, check_rate_limit,
}
use tiletopia.Auth.{
  Method, StatusCode, unauthorized, forbidden, internal_server_error, Verified, AuthenticatedClaims,
  authorize_request, without_empty, lit, matches, below, realtime_prefix,
}
use tiletopia.Auth.Routes.{
  RouteAccess, no_key, any_key, needs, route_access, is_public_read, is_get,
}

-- The response to a refused key; a refusal by the limiter says when to try again.
pub data Refusal : Type 0 where
  key_refusal : StatusCode → String → Refusal
  over_limit : String → ℕ → ℕ → Refusal

unfoldable pub grants : ApiKey → RouteAccess → Bool
unfolding allows
grants key no_key = false
grants key any_key = true
grants key (needs permission) = allows key permission

-- `retry_after_ms.div_ceil(1000).max(1)`
unfoldable pub retry_seconds : ℕ → ℕ
retry_seconds ms = max ((ms + 999) / 1000) 1

pub record Request : Type 0 where
  pub method : Method
  pub path : List String
  pub api_key_header : Option (List ℕ)
  pub bearer : Option String
  pub subprotocol : Option String

-- `presented_api_key`: an empty header is none
unfoldable pub presented_api_key : Request → Option (List ℕ)
presented_api_key request = present request.api_key_header
  where
    present : Option (List ℕ) → Option (List ℕ)
    present none = none
    present (some []) = none
    present (some (b ∷ bytes)) = some (b ∷ bytes)

abbrev nonempty : Option String → Option String
nonempty none = none
nonempty (some token) = if Text.◌==◌ token "" then none else some token

-- `request_token`
unfoldable pub request_token : Request → Option String
request_token request = elim request.bearer [
  | some token ↦ nonempty (some token)
  | none ↦ if below realtime_prefix request.path then nonempty request.subprotocol else none
]

-- `is_global_terrain_endpoint`
unfoldable pub is_global_terrain_endpoint : (String → Bool) → Method → List String → Bool
unfolding is_get without_empty
is_global_terrain_endpoint named method path = is_get method && endpoint (without_empty path)
  where
    endpoint : List String → Bool
    endpoint (v ∷ assets ∷ id ∷ e ∷ []) =
        Text.◌==◌ v "v1" && Text.◌==◌ assets "assets" && Text.◌==◌ e "endpoint" && named id
    endpoint s = false

-- The paths that are always public.
unfoldable pub is_exempt : List String → Bool
is_exempt path =
    matches (lit "" ∷ lit "api" ∷ lit "v1" ∷ lit "health" ∷ []) path
    || matches (lit "" ∷ lit "metrics" ∷ []) path
    || below (lit "" ∷ lit "api" ∷ lit "v1" ∷ lit "auth" ∷ []) path
    || below (lit "" ∷ lit "api" ∷ lit "v1" ∷ lit "stories" ∷ lit "share" ∷ []) path

pub data Response : Type 0 where
  -- the handler runs, with the key that was resolved
  passed : Option ApiKey → Response
  refused : Refusal → Response
  failed : StatusCode → Response

pub record Environment (seconds : Seconds) : Type 0 where
  pub auth_disabled : Bool
  -- `TILETOPIA_JWT_SECRET`, which may be no UTF-8
  pub secret : Res String (Option String)
  pub digest : List ℕ → List ℕ
  pub key_by_hash : List ℕ → Res String (Option ApiKey)
  pub verify : String → String → Option Verified
  pub names_terrain : String → Bool
  -- the wall clock and the instant
  pub today : ℕ
  pub now : ℕ

-- The answer of the limiter, for a key.
unfoldable pub limited_key : ApiKey → RateLimitResult → Res Refusal ApiKey
unfolding retry_seconds
limited_key key allowed = ok key
limited_key key (denied reason ms) = err (over_limit reason ms (retry_seconds ms))

module _ (seconds : Seconds) (env : Environment seconds) where
  -- `authorize_api_key`, from the key that was found on
  unfoldable pub authorize_key :
      ApiKey → Method → List String → RateLimiter seconds → Res Refusal ApiKey × RateLimiter seconds
  unfolding expired_at grants route_access check_rate_limit rate_limit limited_key
  authorize_key key method path limiter =
      if key.revoked
      then (err (key_refusal unauthorized "revoked api key"), limiter)
      else if expired_at key env.today
      then (err (key_refusal unauthorized "expired api key"), limiter)
      else if not (grants key (route_access method path))
      then (err (key_refusal forbidden "api key not permitted on this route"), limiter)
      else let (result, after) =
          check_rate_limit seconds env.now env.today key.id (rate_limit key) limiter in
        (limited_key key result, after)

  unfoldable pub authorize_found :
      Res String (Option ApiKey)
      → Method
      → List String
      → RateLimiter seconds
      → Res Refusal ApiKey × RateLimiter seconds
  unfolding authorize_key
  authorize_found (err e) method path limiter =
      (err (key_refusal internal_server_error "api key lookup failed"), limiter)
  authorize_found (ok none) method path limiter =
      (err (key_refusal unauthorized "unknown api key"), limiter)
  authorize_found (ok (some key)) method path limiter = authorize_key key method path limiter

  unfoldable pub authorize_api_key :
      List ℕ → Method → List String → RateLimiter seconds → Res Refusal ApiKey × RateLimiter seconds
  unfolding hash_presented_key authorize_found
  authorize_api_key presented method path limiter = elim (hash_presented_key env.digest presented) [
    | none ↦ (err (key_refusal unauthorized "malformed api key"), limiter)
    | some hash ↦ authorize_found (env.key_by_hash hash) method path limiter
  ]

  abbrev pub answer : Res Refusal ApiKey × RateLimiter seconds → Response × RateLimiter seconds
  answer (ok key, limiter) = (passed (some key), limiter)
  answer (err refusal, limiter) = (refused refusal, limiter)

  abbrev pub admit : Res StatusCode AuthenticatedClaims → Response
  admit (ok claims) = passed none
  admit (err status) = failed status

  -- The end of `auth_middleware`: the bearer token.
  unfoldable pub check_token : String → Request → Response
  unfolding request_token authorize_request
  check_token secret request = elim (request_token request) [
    | none ↦ failed unauthorized
    | some token ↦ admit (authorize_request (env.verify token secret) request.method request.path)
  ]

  -- A request that needs a credential.
  unfoldable pub check_credential :
      String → Request → RateLimiter seconds → Response × RateLimiter seconds
  unfolding presented_api_key authorize_api_key check_token
  check_credential secret request limiter = elim (presented_api_key request) [
    | some presented ↦ answer (authorize_api_key presented request.method request.path limiter)
    | none ↦ (check_token secret request, limiter)
  ]

  -- Whether a request is let through before any credential is read.
  unfoldable pub is_open : Request → Bool
  unfolding is_exempt is_public_read is_global_terrain_endpoint
  is_open request =
      is_exempt request.path
      || is_public_read request.method request.path
      || is_global_terrain_endpoint env.names_terrain request.method request.path

  unfoldable pub auth_middleware : Request → RateLimiter seconds → Response × RateLimiter seconds
  unfolding check_credential is_open
  auth_middleware request limiter =
      if env.auth_disabled then (passed none, limiter) else elim env.secret [
        | err e ↦ (failed internal_server_error, limiter)
        | ok none ↦ (passed none, limiter)
        | ok (some secret) ↦
            if is_open request
            then (passed none, limiter)
            else check_credential secret request limiter
      ]
