-- ===== src/Auth/Routes.antt =====
-- Which requests of crates/tiletopia-server/src/auth.rs are open to everyone, and which an API key
-- may make: `is_public_read` and `route_access`.
use tiletopia.Prelude.{
  String, ◌≡◌, refl, ◌⊎◌, inl, inr, Bool, true, false, ◌&&◌, ◌||◌, List, [], ◌∷◌, ◌++◌,
  if◌then◌else◌, Bool-cases, All,
}
use tiletopia.ApiKeys.{Permission, read, terrain, analytics, export}
use tiletopia.Auth.{
  Method, get, head, options, post, other, Segment, lit, any, matches, begins, without_empty,
}

abbrev under_assets : List Segment → List Segment
under_assets rest = lit "api" ∷ lit "v1" ∷ lit "assets" ∷ any ∷ rest

-- The arms of `is_public_read`.
unfoldable pub public_segments : List String → Bool
public_segments s =
    matches (under_assets (lit "tileset.json" ∷ [])) s
    || matches (under_assets (lit "tiles" ∷ any ∷ [])) s
    || matches (under_assets (lit "data" ∷ any ∷ [])) s
    || matches (under_assets (lit "imagery" ∷ lit "tilejson.json" ∷ [])) s
    || matches (under_assets (lit "imagery" ∷ any ∷ any ∷ any ∷ [])) s
    || matches (under_assets (lit "imagery" ∷ lit "wmts" ∷ [])) s
    || matches (under_assets (lit "imagery" ∷ lit "tms" ∷ lit "tilemapresource.xml" ∷ [])) s
    || matches (under_assets (lit "imagery" ∷ lit "tms" ∷ any ∷ any ∷ any ∷ [])) s
    || matches (under_assets (lit "czml" ∷ [])) s
    || begins (lit "api" ∷ lit "v1" ∷ lit "terrain" ∷ any ∷ []) s
    || matches (lit "api" ∷ lit "v1" ∷ lit "analysis" ∷ lit "xyz" ∷ any ∷ any ∷ any ∷ any ∷ []) s

unfoldable pub is_get : Method → Bool
is_get get = true
is_get head = false
is_get options = false
is_get post = false
is_get other = false

unfoldable pub is_public_read : Method → List String → Bool
unfolding is_get public_segments without_empty
is_public_read method path = is_get method && public_segments (without_empty path)

pub data RouteAccess : Type 0 where
  no_key any_key : RouteAccess
  needs : Permission → RouteAccess

-- `matches!(*method, Method::GET | Method::HEAD)` and `matches!(*method, Method::GET | Method::POST)`
unfoldable pub key_reads : Method → Bool
key_reads get = true
key_reads head = true
key_reads options = false
key_reads post = false
key_reads other = false

unfoldable pub computes : Method → Bool
computes get = true
computes head = false
computes options = false
computes post = true
computes other = false

abbrev area : String → List Segment
area name = lit "api" ∷ lit "v1" ∷ lit name ∷ []

-- The arms of `route_access`: a pattern with its guard, and what a key needs.
unfoldable pub arms : Method → List String → List (Bool × RouteAccess)
unfolding key_reads computes
arms method s =
    let read_only = key_reads method in
    let compute = computes method in
    (matches (lit "api" ∷ lit "v1" ∷ lit "api-keys" ∷ lit "usage" ∷ []) s && read_only, any_key)
    ∷ (begins (area "catalog") s && read_only, needs read)
    ∷ (begins (area "stac") s && read_only, needs read)
    ∷ (begins (area "cog") s && read_only, needs read)
    ∷ (begins (area "analysis" ++ lit "export" ∷ []) s && read_only, needs export)
    ∷ (begins (area "analysis" ++ lit "export" ∷ []) s, no_key)
    ∷ (begins (area "static-map") s && compute, needs export)
    ∷ (begins (area "elevation") s && compute, needs terrain)
    ∷ (begins (area "analysis") s && compute, needs analytics)
    ∷ (begins (area "geostatistics") s && compute, needs analytics)
    ∷ (begins (area "geoprocessing") s && compute, needs analytics)
    ∷ []

-- The first arm that applies.
unfoldable pub first_arm : List (Bool × RouteAccess) → RouteAccess
first_arm [] = no_key
first_arm ((applies, access) ∷ rest) =
    let later = first_arm rest in if applies then access else later

unfoldable pub route_access : Method → List String → RouteAccess
unfolding arms first_arm without_empty
route_access method path = first_arm (arms method (without_empty path))

first_arm-keeps :
    (P : RouteAccess → Type 0)
    → P no_key
    → (rows : List (Bool × RouteAccess)) → All (λ row. row.0 ≡ true → P row.1) rows
    → P (first_arm rows)
unfolding first_arm
first_arm-keeps P none_left [] h = none_left
first_arm-keeps P none_left ((applies, access) ∷ rest) h = elim (Bool-cases applies) [
  | inl e ↦ rw e (h.0 e)
  | inr e ↦ rw e (first_arm-keeps P none_left rest h.1)
]

-- An arm whose guard is false does not apply.
unguarded : {P : Type 0} (a : Bool) → a && false ≡ true → P
unguarded true h = cc
unguarded false h = cc

module _ (s : List String) where
  pub route_of-other : first_arm (arms other s) ≡ no_key
  unfolding arms
  route_of-other =
      first_arm-keeps (λ access. access ≡ no_key) refl (arms other s)
        (
          unguarded _,
          (
            unguarded _,
            (
              unguarded _,
              (
                unguarded _,
                (
                  unguarded _,
                  (
                    (λ h. refl),
                    (unguarded _, (unguarded _, (unguarded _, (unguarded _, (unguarded _, tt))))),
                  ),
                ),
              ),
            ),
          ),
        )

  route_of-options : first_arm (arms options s) ≡ no_key
  unfolding arms
  route_of-options =
      first_arm-keeps (λ access. access ≡ no_key) refl (arms options s)
        (
          unguarded _,
          (
            unguarded _,
            (
              unguarded _,
              (
                unguarded _,
                (
                  unguarded _,
                  (
                    (λ h. refl),
                    (unguarded _, (unguarded _, (unguarded _, (unguarded _, (unguarded _, tt))))),
                  ),
                ),
              ),
            ),
          ),
        )

  -- What a POST may need.
  abbrev Computed : RouteAccess → Type 0
  Computed access =
      (access ≡ no_key ⊎ access ≡ needs terrain)
      ⊎ (access ≡ needs analytics ⊎ access ≡ needs export)

  route_of-post : Computed (first_arm (arms post s))
  unfolding arms
  route_of-post = first_arm-keeps Computed (inl (inl refl)) (arms post s) (
    unguarded _,
    (
      unguarded _,
      (
        unguarded _,
        (
          unguarded _,
          (
            unguarded _,
            (
              (λ h. inl (inl refl)),
              (
                (λ h. inr (inr refl)),
                (
                  (λ h. inl (inr refl)),
                  ((λ h. inr (inl refl)), ((λ h. inr (inl refl)), ((λ h. inr (inl refl)), tt))),
                ),
              ),
            ),
          ),
        ),
      ),
    ),
  )

route_of-admin :
    (method : Method) (s rest : List String) (name : String)
    → s ≡ "api" ∷ "v1" ∷ name ∷ rest
    → (name ≡ "admin") ⊎ (name ≡ "users")
    → first_arm (arms method s) ≡ no_key
unfolding arms first_arm
route_of-admin method s rest name e (inl a) = rw (e, a) refl
route_of-admin method s rest name e (inr a) = rw (e, a) refl

-- No key reaches a route by a method other than GET, HEAD and POST; a POST is refused to every key
-- or needs the permission for terrain, analytics or export; and no key reaches a route under
-- /api/v1/admin or /api/v1/users.
pub route_access_lem :
    (path : List String)
    → (route_access other path ≡ no_key)
      × (route_access options path ≡ no_key)
      × ((route_access post path ≡ no_key ⊎ route_access post path ≡ needs terrain)
          ⊎ (route_access post path ≡ needs analytics ⊎ route_access post path ≡ needs export))
      × ((method : Method) (name : String) (rest : List String)
          → without_empty path ≡ "api" ∷ "v1" ∷ name ∷ rest
          → (name ≡ "admin") ⊎ (name ≡ "users")
          → route_access method path ≡ no_key)
unfolding route_access
route_access_lem path =
    let s = without_empty path in
    (
      route_of-other s,
      route_of-options s,
      route_of-post s,
      λ method name rest e a. route_of-admin method s rest name e a,
    )
