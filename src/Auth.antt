-- ===== src/Auth.antt =====
-- Authorisation of requests, crates/tiletopia-server/src/auth.rs. A path is the list of the pieces
-- that `split('/')` makes of it, so "/api/v1/health" is "", "api", "v1", "health". A method that the
-- code does not name is `other`. Verifying a token (the platform_auth crate), looking a key up, the
-- digest of a key and the rate limiter are parameters of what uses them.
use tiletopia.Prelude.{
  ℕ, ◌+◌, String, Bool, true, false, not, ◌&&◌, ◌||◌, Option, none, some, List, [], ◌∷◌, ◌++◌, ◌==◌,
  if◌then◌else◌,
}
use tiletopia.Prelude.Res.{◌>>=◌, Res, ok, err, guard}
use text.Mathlib.Text
use tiletopia.ApiKeys.{Permission, read, terrain, analytics, export, ApiKey, allows, expired_at}
use tiletopia.ApiKeys.Limiter.{RateLimitResult, allowed, denied}
pub mod Routes
pub mod Middleware
pub mod Gate
pub mod Tests

pub data Method : Type 0 where
  get head options post other : Method

pub data UserRole : Type 0 where
  admin editor viewer : UserRole

-- `UserRole::from_claim`
unfoldable pub from_claim : String → Option UserRole
from_claim s =
    if Text.◌==◌ s "admin"
    then some admin
    else if Text.◌==◌ s "editor"
    then some editor
    else if Text.◌==◌ s "viewer"
    then some viewer
    else none

pub record Claims : Type 0 where
  pub sub : String
  pub exp : ℕ
  pub role : String

pub data TokenAuthority : Type 0 where
  platform : TokenAuthority
  tool : List String → TokenAuthority

pub record AuthenticatedClaims : Type 0 where
  pub claims : Claims
  pub authority : TokenAuthority

abbrev read_scope : String
read_scope = "tiletopia:read"

abbrev pub write_scope : String
write_scope = "tiletopia:write"

-- `scopes.iter().any`
unfoldable pub has_scope : String → List String → Bool
has_scope required [] = false
has_scope required (scope ∷ scopes) = Text.◌==◌ scope required || has_scope required scopes

-- `Claims::can_write` and `Claims::can_admin`
unfoldable pub role_writes : Option UserRole → Bool
role_writes none = false
role_writes (some admin) = true
role_writes (some editor) = true
role_writes (some viewer) = false

unfoldable pub role_admins : Option UserRole → Bool
role_admins none = false
role_admins (some admin) = true
role_admins (some editor) = false
role_admins (some viewer) = false

-- `AuthenticatedClaims::can_write`
unfoldable pub can_write : AuthenticatedClaims → Bool
unfolding role_writes from_claim has_scope
can_write who = elim who.authority [
  | platform ↦ role_writes (from_claim who.claims.role)
  | tool scopes ↦ has_scope write_scope scopes
]

-- `AuthenticatedClaims::can_admin`
unfoldable pub can_admin : AuthenticatedClaims → Bool
unfolding role_admins from_claim
can_admin who = elim who.authority [
  | platform ↦ role_admins (from_claim who.claims.role)
  | tool scopes ↦ false
]

-- `AuthenticatedClaims::allows_scope`
unfoldable pub allows_scope : TokenAuthority → String → Bool
unfolding has_scope
allows_scope platform required = true
allows_scope (tool scopes) required = has_scope required scopes

-- What platform_auth reads from a token.
pub data VerifiedAuthority : Type 0 where
  platform_role : Option String → VerifiedAuthority
  tool_scopes : List String → VerifiedAuthority

pub record Verified : Type 0 where
  pub sub : String
  pub exp : ℕ
  pub authority : VerifiedAuthority

pub data StatusCode : Type 0 where
  unauthorized forbidden internal_server_error too_many_requests : StatusCode

-- `verify_token_with_secret`, of what platform_auth answers
unfoldable pub verify_token_with_secret : Option Verified → Res StatusCode AuthenticatedClaims
verify_token_with_secret none = err unauthorized
verify_token_with_secret (some verified) = elim verified.authority [
  | platform_role none ↦ err unauthorized
  | platform_role (some role) ↦ ok record {
    claims = record { sub = verified.sub; exp = verified.exp; role = role };
    authority = platform;
  }
  | tool_scopes scopes ↦ ok record {
    claims = record { sub = verified.sub; exp = verified.exp; role = "" };
    authority = tool scopes;
  }
]

-- A segment of a pattern: a text or `_`.
pub data Segment : Type 0 where
  lit : String → Segment
  any : Segment

abbrev pub fits : Segment → String → Bool
fits (lit text) s = Text.◌==◌ s text
fits any s = true

-- A slice pattern without a rest, and one that ends in `..`.
abbrev pub matches : List Segment → List String → Bool
matches [] [] = true
matches [] (s ∷ segments) = false
matches (p ∷ pattern) [] = false
matches (p ∷ pattern) (s ∷ segments) = fits p s && matches pattern segments

abbrev pub begins : List Segment → List String → Bool
begins [] segments = true
begins (p ∷ pattern) [] = false
begins (p ∷ pattern) (s ∷ segments) = fits p s && begins pattern segments

-- `filter(|s| !s.is_empty())`
unfoldable pub without_empty : List String → List String
without_empty [] = []
without_empty (s ∷ path) =
    let rest = without_empty path in if Text.◌==◌ s "" then rest else s ∷ rest

-- `starts_with` of a prefix that ends in a slash: another piece follows
abbrev pub below : List Segment → List String → Bool
below prefix path = begins (prefix ++ any ∷ []) path

abbrev pub realtime_prefix : List Segment
realtime_prefix = lit "" ∷ lit "api" ∷ lit "v1" ∷ lit "realtime" ∷ []

unfoldable pub reads_only : Method → Bool
reads_only get = true
reads_only head = true
reads_only options = true
reads_only post = false
reads_only other = false

unfoldable pub required_tool_scope : Method → List String → String
unfolding reads_only
required_tool_scope method path =
    if below realtime_prefix path || not (reads_only method) then write_scope else read_scope

-- `authorize_request`
unfoldable pub authorize_request :
    Option Verified → Method → List String → Res StatusCode AuthenticatedClaims
unfolding verify_token_with_secret allows_scope required_tool_scope
authorize_request verified method path = do
  authenticated ← verify_token_with_secret verified
  _ ← guard (allows_scope authenticated.authority (required_tool_scope method path)) forbidden
  ok authenticated
