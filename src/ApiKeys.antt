-- ===== src/ApiKeys.antt =====
-- API keys of crates/tiletopia-server/src/api_keys.rs: what a key carries, its names, and the shape
-- check of a presented key. The SHA-256 digest and its printing are the parameter `digest`. Times are
-- milliseconds.
use tiletopia.Prelude.{
  ℕ, ◌+◌, ◌-◌, String, ◌≡◌, refl, sym, subst, ◌↔◌, inl, inr, Bool, true, false, ◌&&◌, ◌||◌, Option,
  none, some, List, [], ◌∷◌, ◌++◌, arith, leb, ◌==◌, if◌then◌else◌, ==_iff, Bool-cases,
  Option-cases, length,
}
use mathlib.Core.Option.{some-injective}
use text.Mathlib.TextEquality.{eq_iff}
use text.Mathlib.Text
pub mod Limiter
pub mod Daily
pub mod Tests

pub data Permission : Type 0 where
  read terrain analytics export : Permission

pub data RateLimitTier : Type 0 where
  free pro enterprise : RateLimitTier

pub record RateLimit : Type 0 where
  pub requests_per_second : ℕ
  -- 0 means unlimited
  pub requests_per_day : ℕ

unfoldable pub permission_name : Permission → String
permission_name read = "read"
permission_name terrain = "terrain"
permission_name analytics = "analytics"
permission_name export = "export"

abbrev pub all_permissions : List Permission
all_permissions = read ∷ terrain ∷ analytics ∷ export ∷ []

-- `into_iter().find`
abbrev pub find {ℓ} : {A : Type ℓ} → (A → Bool) → List A → Option A
find test [] = none
find test (x ∷ xs) = let rest = find test xs in if test x then some x else rest

-- `Permission::from_name`
unfoldable pub permission_from_name : String → Option Permission
unfolding permission_name
permission_from_name name = find (λ p. Text.◌==◌ (permission_name p) name) all_permissions

unfoldable pub tier_name : RateLimitTier → String
tier_name free = "free"
tier_name pro = "pro"
tier_name enterprise = "enterprise"

abbrev pub all_tiers : List RateLimitTier
all_tiers = free ∷ pro ∷ enterprise ∷ []

-- `RateLimitTier::from_name`
unfoldable pub tier_from_name : String → Option RateLimitTier
unfolding tier_name
tier_from_name name = find (λ t. Text.◌==◌ (tier_name t) name) all_tiers

unfoldable pub limits : RateLimitTier → RateLimit
limits free = record { requests_per_second = 10; requests_per_day = 10000 }
limits pro = record { requests_per_second = 100; requests_per_day = 500000 }
limits enterprise = record { requests_per_second = 1000; requests_per_day = 0 }

pub record ApiKey : Type 0 where
  pub id : ℕ
  pub key_hash : List ℕ
  pub permissions : List Permission
  pub tier : RateLimitTier
  pub expires_at : Option ℕ
  pub revoked : Bool

unfoldable pub permission_code : Permission → ℕ
permission_code read = 0
permission_code terrain = 1
permission_code analytics = 2
permission_code export = 3

-- `permissions.contains`
unfoldable pub holds : Permission → List Permission → Bool
unfolding permission_code
holds p [] = false
holds p (q ∷ qs) = permission_code p == permission_code q || holds p qs

-- `ApiKey::allows`
unfoldable pub allows : ApiKey → Permission → Bool
unfolding holds
allows key permission = holds permission key.permissions

unfoldable pub expired_at : ApiKey → ℕ → Bool
expired_at key now = elim key.expires_at [ none ↦ false | some expiry ↦ leb expiry now ]

unfoldable pub rate_limit : ApiKey → RateLimit
unfolding limits
rate_limit key = limits key.tier

-- the bytes of "ttk_"
abbrev pub key_prefix : List ℕ
key_prefix = 116 ∷ 116 ∷ 107 ∷ 95 ∷ []

unfoldable pub strip_prefix : List ℕ → List ℕ → Option (List ℕ)
strip_prefix [] text = some text
strip_prefix (c ∷ cs) [] = none
strip_prefix (c ∷ cs) (d ∷ ds) = let rest = strip_prefix cs ds in if c == d then rest else none

-- `is_ascii_digit() || (b'a'..=b'f').contains`
unfoldable pub is_hex : ℕ → Bool
is_hex byte = leb 48 byte && leb byte 57 || leb 97 byte && leb byte 102

abbrev pub all_hex : List ℕ → Bool
all_hex [] = true
all_hex (b ∷ bs) = is_hex b && all_hex bs

-- `hash_presented_key`
unfoldable pub hash_presented_key : (List ℕ → List ℕ) → List ℕ → Option (List ℕ)
unfolding strip_prefix is_hex
hash_presented_key digest presented = elim (strip_prefix key_prefix presented) [
  | none ↦ none
  | some hex ↦ if length hex == 64 && all_hex hex then some (digest presented) else none
]

strip_prefix-eq :
    (prefix text : List ℕ) {rest : List ℕ}
    → strip_prefix prefix text ≡ some rest
    → text ≡ prefix ++ rest
unfolding strip_prefix
strip_prefix-eq [] text e = some-injective _ _ e
strip_prefix-eq (c ∷ cs) [] e = cc
strip_prefix-eq (c ∷ cs) (d ∷ ds) e = elim (Bool-cases (c == d)) [
  | inl same ↦
      let rest = strip_prefix-eq cs ds (rw same at e) in let head = (==_iff c d).0 same in cc
  | inr other ↦ let no = rw other at e in cc
]

-- A presented text is hashed only if it is the prefix and 64 lower-case hexadecimal digits; a bare
-- digest of such digits never is.
pub hash_presented_key_lem :
    (digest : List ℕ → List ℕ) (presented : List ℕ) {hash : List ℕ}
    → hash_presented_key digest presented ≡ some hash
    → (hash ≡ digest presented)
      × ((hex : List ℕ) × (presented ≡ key_prefix ++ hex)
          × (length hex ≡ 64)
          × (all_hex hex ≡ true))
      × (all_hex presented ≡ false)
unfolding hash_presented_key
hash_presented_key_lem digest presented e =
    elim (Option-cases (strip_prefix key_prefix presented)) [
      | inl n ↦ let no = rw n at e in cc
      | inr (hex, h) ↦
          let shape = strip_prefix-eq key_prefix presented h in
          let counted = rw h at e in
          (ground arith, (hex, shape, ground arith, ground arith), rw shape refl)
    ]

find-passes :
    {A : Type 0} (test : A → Bool) (xs : List A) {x : A} → find test xs ≡ some x → test x ≡ true
find-passes test [] e = cc
find-passes test (y ∷ xs) e = elim (Bool-cases (test y)) [
  | inl passes ↦ subst (λ z. test z ≡ true) (some-injective _ _ (rw passes at e)) passes
  | inr fails ↦ find-passes test xs (rw fails at e)
]

permission_name-back : (p : Permission) → permission_from_name (permission_name p) ≡ some p
unfolding permission_from_name permission_name
permission_name-back read = refl
permission_name-back terrain = refl
permission_name-back analytics = refl
permission_name-back export = refl

tier_name-back : (t : RateLimitTier) → tier_from_name (tier_name t) ≡ some t
unfolding tier_from_name tier_name
tier_name-back free = refl
tier_name-back pro = refl
tier_name-back enterprise = refl

-- The names of permissions and of tiers are read back, and no other name is: a text is read as a
-- permission or a tier exactly if it is its name.
pub from_name_lem :
    (name : String)
    → ((p : Permission) → (permission_from_name name ≡ some p) ↔ (name ≡ permission_name p))
      × ((t : RateLimitTier) → (tier_from_name name ≡ some t) ↔ (name ≡ tier_name t))
unfolding permission_from_name tier_from_name
from_name_lem name = (
  λ p. (
    (λ e.
        sym (
          (eq_iff _ _).0
            (find-passes (λ x. Text.◌==◌ (permission_name x) name) all_permissions e))),
    λ e. subst (λ n. permission_from_name n ≡ some p) (sym e) (permission_name-back p),
  ),
  λ t. (
    (λ e. sym ((eq_iff _ _).0 (find-passes (λ x. Text.◌==◌ (tier_name x) name) all_tiers e))),
    λ e. subst (λ n. tier_from_name n ≡ some t) (sym e) (tier_name-back t),
  ),
)
