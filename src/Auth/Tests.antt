-- ===== src/Auth/Tests.antt =====
-- Runs of the authorisation on one environment with a live key and a tool token.
use tiletopia.Prelude.{
  ℕ, ◌+◌, ◌-◌, ◌*◌, ◌/◌, min, String, ◌≡◌, refl, ◌⊎◌, false, Option, none, some, List, [], ◌∷◌,
  ◌++◌, leb, replicate,
}
use tiletopia.Prelude.Res.{ok}
use tiletopia.ApiKeys.{
  ApiKey, terrain, analytics, export, free, key_prefix, strip_prefix, is_hex, hash_presented_key,
  allows,
}
use tiletopia.ApiKeys.Limiter.{Seconds, RateLimiter, check_rate_limit}
use tiletopia.Auth.{
  Method, options, post, other, tool_scopes, write_scope, authorize_request,
  verify_token_with_secret, without_empty,
}
use tiletopia.Auth.Routes.{no_key, needs, route_access, route_access_lem}
use tiletopia.Auth.Middleware.{
  grants, Request, passed, Environment, authorize_api_key, is_open, auth_middleware,
}
use tiletopia.Auth.Gate.{
  Authorized, authorize_api_key-Authorized, ScopedToken, auth_middleware-ScopedToken,
}

abbrev whole : Seconds
whole = record {
  F = ℕ;
  plus = λ a b. a + b;
  minus = λ a b. a - b;
  times = λ a b. a * b;
  min_F = min;
  leb_F = leb;
  one = 1;
  of_nat = λ n. n;
  elapsed = λ a b. b - a;
  retry_after = λ rate. 1000 / rate;
}

abbrev nobody : RateLimiter whole
nobody = record { buckets = []; daily_counts = [] }

abbrev live_key : ApiKey
live_key = record {
  id = 4;
  key_hash = [];
  permissions = terrain ∷ [];
  tier = free;
  expires_at = some 100;
  revoked = false;
}

abbrev server : Environment whole
server = record {
  auth_disabled = false;
  secret = ok (some "secret");
  digest = λ text. text;
  key_by_hash = λ hash. ok (some live_key);
  verify = λ token secret.
      some (record { sub = "bot"; exp = 9; authority = tool_scopes (write_scope ∷ []) });
  names_terrain = λ id. false;
  today = 50;
  now = 0;
}

abbrev profile : List String
profile = "" ∷ "api" ∷ "v1" ∷ "elevation" ∷ "profile" ∷ []

abbrev some_key : List ℕ
some_key = key_prefix ++ replicate 64 97

route_access_lem_example :
    (route_access other profile ≡ no_key)
    × (route_access options profile ≡ no_key)
    × ((route_access post profile ≡ no_key ⊎ route_access post profile ≡ needs terrain)
        ⊎ (route_access post profile ≡ needs analytics ⊎ route_access post profile ≡ needs export))
    × ((method : Method) (name : String) (rest : List String)
        → without_empty profile ≡ "api" ∷ "v1" ∷ name ∷ rest
        → (name ≡ "admin") ⊎ (name ≡ "users")
        → route_access method profile ≡ no_key)
route_access_lem_example = route_access_lem profile

let_in : (authorize_api_key whole server some_key post profile nobody).0 ≡ ok live_key
unfolding authorize_api_key hash_presented_key strip_prefix is_hex check_rate_limit route_access
    without_empty grants allows
let_in = refl

authorize_api_key-Authorized_example : Authorized whole server live_key post profile
authorize_api_key-Authorized_example =
    authorize_api_key-Authorized whole server some_key live_key post profile nobody let_in

abbrev removal : Request
removal = record {
  method = other;
  path = "" ∷ "v1" ∷ "assets" ∷ "7" ∷ [];
  api_key_header = none;
  bearer = some "token";
  subprotocol = none;
}

closed : is_open whole server removal ≡ false
unfolding is_open
closed = refl

removed : (auth_middleware whole server removal nobody).0 ≡ passed none
unfolding auth_middleware is_open authorize_request verify_token_with_secret
removed = refl

abbrev no_key_given : Option ApiKey
no_key_given = none

auth_middleware-ScopedToken_example :
    (no_key_given ≡ none) × ScopedToken whole server "secret" removal
auth_middleware-ScopedToken_example =
    auth_middleware-ScopedToken whole server "secret" removal nobody no_key_given refl refl closed
      refl removed
