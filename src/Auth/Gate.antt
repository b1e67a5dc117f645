-- ===== src/Auth/Gate.antt =====
-- What a request that crates/tiletopia-server/src/auth.rs lets through has shown.
use tiletopia.Prelude.{
  ℕ, String, ◌≡◌, refl, sym, ap, subst, ◌∙◌, ◌≢◌, inl, inr, true, false, Option, none, some, List,
  Bool-cases, Option-cases, set,
}
use tiletopia.Prelude.Res.{Res, ok, err, Res-cases, ok-injective, err≢ok}
use tiletopia.ApiKeys.{ApiKey, expired_at, hash_presented_key}
use tiletopia.ApiKeys.Limiter.{Seconds, RateLimiter, RateLimitResult, allowed, denied}
use tiletopia.Auth.{
  Method, other, Verified, AuthenticatedClaims, write_scope, allows_scope, authorize_request,
  required_tool_scope, reads_only, verify_token_with_secret, below, without_empty, realtime_prefix,
}
use tiletopia.Auth.Routes.{route_access, route_of-other}
use tiletopia.Auth.Middleware.{
  Refusal, grants, Request, presented_api_key, request_token, passed, Environment, limited_key,
  authorize_key, authorize_found, authorize_api_key, answer, check_token, check_credential, is_open,
  auth_middleware,
}

module _ (seconds : Seconds) (env : Environment seconds) where
  -- A key that is in force and may reach the route.
  abbrev pub Authorized : ApiKey → Method → List String → Type 0
  Authorized key method path =
      (key.revoked ≡ false)
      × (expired_at key env.today ≡ false)
      × (grants key (route_access method path) ≡ true)

  limited_key-eq :
      (found : ApiKey) (result : RateLimitResult) {key : ApiKey}
      → limited_key found result ≡ ok key
      → found ≡ key
  unfolding limited_key
  limited_key-eq found allowed h = ok-injective h
  limited_key-eq found (denied reason ms) h = absurd (err≢ok h)

  authorize_key-Authorized :
      (found key : ApiKey) (method : Method) (path : List String) (limiter : RateLimiter seconds)
      → (authorize_key seconds env found method path limiter).0 ≡ ok key
      → Authorized key method path
  unfolding authorize_key
  authorize_key-Authorized found key method path limiter h = elim (Bool-cases found.revoked) [
    | inl r ↦ absurd (err≢ok (rw r at h))
    | inr r ↦ elim (Bool-cases (expired_at found env.today)) [
      | inl x ↦ absurd (err≢ok (rw (r, x) at h))
      | inr x ↦ elim (Bool-cases (grants found (route_access method path))) [
        | inr g ↦ absurd (err≢ok (rw (r, x, g) at h))
        | inl g ↦
            subst (λ k. Authorized k method path) (limited_key-eq _ _ (rw (r, x, g) at h))
              (refl, x, g)
      ]
    ]
  ]

  -- A presented key is authorized only if it is neither revoked nor expired and its permissions
  -- reach the route.
  pub authorize_api_key-Authorized :
      (presented : List ℕ) (key : ApiKey) (method : Method) (path : List String)
      (limiter : RateLimiter seconds)
      → (authorize_api_key seconds env presented method path limiter).0 ≡ ok key
      → Authorized key method path
  unfolding authorize_api_key authorize_found
  authorize_api_key-Authorized presented key method path limiter h =
      elim (Option-cases (hash_presented_key env.digest presented)) [
        | inl n ↦ absurd (err≢ok (rw n at h))
        | inr (hash, f) ↦ go (env.key_by_hash hash) (rw f at h)
      ]
    where
      go :
          (found : Res String (Option ApiKey))
          → (authorize_found seconds env found method path limiter).0 ≡ ok key
          → Authorized key method path
      go (err e) h = absurd (err≢ok h)
      go (ok none) h = absurd (err≢ok h)
      go (ok (some found)) h = authorize_key-Authorized found key method path limiter h

  -- A verified token of the platform, whatever its role, or of a tool that has the write scope.
  abbrev pub ScopedToken : String → Request → Type 0
  ScopedToken secret request =
      (token : String) × (claims : AuthenticatedClaims) × (request_token request ≡ some token)
      × (verify_token_with_secret (env.verify token secret) ≡ ok claims)
      × (allows_scope claims.authority write_scope ≡ true)

  required_writes :
      (method : Method) (path : List String)
      → reads_only method ≡ false
      → required_tool_scope method path ≡ write_scope
  unfolding required_tool_scope
  required_writes method path h = elim (Bool-cases (below realtime_prefix path)) [
    | inl e ↦ rw e refl
    | inr e ↦ rw (e, h) refl
  ]

  authorize_request-writes :
      (verified : Option Verified) (method : Method) (path : List String)
      {claims : AuthenticatedClaims}
      → reads_only method ≡ false
      → authorize_request verified method path ≡ ok claims
      → (verify_token_with_secret verified ≡ ok claims)
        × (allows_scope claims.authority write_scope ≡ true)
  unfolding authorize_request
  authorize_request-writes verified method path writes h =
      elim (Res-cases (verify_token_with_secret verified)) [
        | inr (e, v) ↦ absurd (err≢ok (rw v at h))
        | inl (who, v) ↦
            elim (Bool-cases (allows_scope who.authority (required_tool_scope method path))) [
              | inr s ↦ absurd (err≢ok (rw (v, s) at h))
              | inl s ↦
                  let same = ok-injective (rw (v, s) at h) in
                  (
                    v ∙ ap ok same,
                    subst (λ c. allows_scope c.authority write_scope ≡ true) same
                        (subst (λ scope. allows_scope who.authority scope ≡ true)
                          (required_writes method path writes) s),
                  )
            ]
      ]

  -- No key is authorized for a method that route_access does not name.
  other_refused :
      (presented : List ℕ) (key : ApiKey) (path : List String) (limiter : RateLimiter seconds)
      → (authorize_api_key seconds env presented other path limiter).0 ≢ ok key
  unfolding grants route_access
  other_refused presented key path limiter h =
      let (r, x, g) = authorize_api_key-Authorized presented key other path limiter h in
      let none_granted = sym (ap (grants key) (route_of-other (without_empty path))) ∙ g in cc

  answer-passed :
      (result : Res Refusal ApiKey × RateLimiter seconds) {key : Option ApiKey}
      → (answer seconds env result).0 ≡ passed key
      → (found : ApiKey) × (result.0 ≡ ok found)
  answer-passed (ok found, limiter) h = (found, refl)
  answer-passed (err refusal, limiter) h = cc

  check_token-writes :
      (secret : String) (request : Request) (key : Option ApiKey)
      → reads_only request.method ≡ false
      → check_token seconds env secret request ≡ passed key
      → (key ≡ none) × ScopedToken secret request
  unfolding check_token
  check_token-writes secret request key writes h = elim (Option-cases (request_token request)) [
    | inl n ↦ let no = rw (check_token, n) at h in cc
    | inr (token, t) ↦
        elim (Res-cases (authorize_request (env.verify token secret) request.method request.path)) [
          | inr (e, a) ↦ let no = rw (check_token, t, a) at h in cc
          | inl (claims, a) ↦
              let (verified, allowed_scope) =
                authorize_request-writes (env.verify token secret) request.method request.path
                  writes a in
              let same = rw (check_token, t, a) at h in
              (cc, (token, claims, t, verified, allowed_scope))
        ]
  ]

  check_credential-writes :
      (secret : String) (request : Request) (limiter : RateLimiter seconds) (key : Option ApiKey)
      → request.method ≡ other
      → (check_credential seconds env secret request limiter).0 ≡ passed key
      → (key ≡ none) × ScopedToken secret request
  unfolding check_credential reads_only
  check_credential-writes secret request limiter key method h =
      elim (Option-cases (presented_api_key request)) [
        | inr (presented, p) ↦
            let (found, f) =
              answer-passed
                (authorize_api_key seconds env presented request.method request.path limiter)
                (rw (check_credential, p) at h) in
            absurd (
              other_refused presented found request.path limiter (
                subst
                  (λ m.
                    (authorize_api_key seconds env presented m request.path limiter).0 ≡ ok found)
                  method f))
        | inl p ↦
            check_token-writes secret request key (ap reads_only method)
              (rw (check_credential, p) at h)
      ]

  -- With a secret set and the middleware on, a request that is not open, by a method other than
  -- GET, HEAD, OPTIONS and POST, gets through only with a verified token that is a platform token,
  -- of whatever role, or a tool token with the write scope, never with an API key.
  pub auth_middleware-ScopedToken :
      (secret : String) (request : Request) (limiter : RateLimiter seconds) (key : Option ApiKey)
      → env.auth_disabled ≡ false
      → env.secret ≡ ok (some secret)
      → is_open seconds env request ≡ false
      → request.method ≡ other
      → (auth_middleware seconds env request limiter).0 ≡ passed key
      → (key ≡ none) × ScopedToken secret request
  unfolding auth_middleware
  auth_middleware-ScopedToken secret request limiter key on set closed method h =
      check_credential-writes secret request limiter key method (rw (on, set, closed) at h)
