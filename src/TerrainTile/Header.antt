-- ===== src/TerrainTile/Header.antt =====
-- The header of a terrain tile and the quantization of its vertices, as `encode_quantized_mesh` of
-- crates/tiletopia-server/src/terrain_api.rs computes them, with `TerrainTileCoord::bounds` of
-- crates/tiletopia-terrain/src/global_dem.rs.
use tiletopia.Prelude.{
  ℕ, ◌≤◌, ◌≡◌, refl, inl, inr, true, List, [], ◌∷◌, ◌++◌, if◌then◌else◌, Bool-cases, length, All,
  length-append,
}
use tiletopia.TerrainTile.Floats.{Float}

pub record TerrainTileCoord : Type 0 where
  pub zoom : ℕ
  pub x : ℕ
  pub y : ℕ

module _ (float : Float) where
  open float use {
    F, leb_F, ltb_F, min_F, max_F, plus, minus, times, over, abs, sqrt, sin, cos, asin, to_radians,
    square, power_of_two, of_nat, decimal, greatest, least, as_u16, f64_bytes, f32_bytes,
  }

  pub record Vertex : Type 0 where
    pub lon : F
    pub lat : F
    pub elevation : F

  pub record Bounds : Type 0 where
    pub west : F
    pub south : F
    pub east : F
    pub north : F

  -- `TerrainTileCoord::bounds`
  unfoldable pub bounds_of : TerrainTileCoord → Bounds
  bounds_of coord =
      let span = over (of_nat 180) (power_of_two coord.zoom) in
      let west = minus (times (of_nat coord.x) span) (of_nat 180) in
      let south = minus (times (of_nat coord.y) span) (of_nat 90) in
      record { west = west; south = south; east = plus west span; north = plus south span }

  unfoldable pub geodetic_to_ecef : F → F → F → F × F × F
  geodetic_to_ecef lat_deg lon_deg alt_m =
      let a = of_nat 6378137 in
      let f = over (of_nat 1) (decimal 298257223563 9) in
      let e2 = minus (times (of_nat 2) f) (times f f) in
      let lat = to_radians lat_deg in
      let lon = to_radians lon_deg in
      let sin_lat = sin lat in
      let cos_lat = cos lat in
      let n = over a (sqrt (minus (of_nat 1) (times (times e2 sin_lat) sin_lat))) in
      (
        times (times (plus n alt_m) cos_lat) (cos lon),
        times (times (plus n alt_m) cos_lat) (sin lon),
        times (plus (times n (minus (of_nat 1) e2)) alt_m) sin_lat,
      )

  unfoldable pub haversine_distance_km : F → F → F → F → F
  haversine_distance_km lat1 lon1 lat2 lon2 =
      let r = of_nat 6371 in
      let dlat = to_radians (minus lat2 lat1) in
      let dlon = to_radians (minus lon2 lon1) in
      let a = plus (square (sin (over dlat (of_nat 2)))) (
        times (times (cos (to_radians lat1)) (cos (to_radians lat2)))
          (square (sin (over dlon (of_nat 2))))) in
      times (times (of_nat 2) r) (asin (sqrt a))

  -- `min_h` and `max_h`
  unfoldable pub lowest : F → List Vertex → F
  lowest low [] = low
  lowest low (v ∷ vertices) = lowest (min_F low v.elevation) vertices

  unfoldable pub highest : F → List Vertex → F
  highest high [] = high
  highest high (v ∷ vertices) = highest (max_F high v.elevation) vertices

  unfoldable pub height_range : F → F → F
  height_range low high =
      if ltb_F (abs (minus high low)) (decimal 1 6) then of_nat 1 else minus high low

  unfoldable pub quantize : F → F → F → ℕ
  quantize value origin range = as_u16 (times (over (minus value origin) range) (of_nat 32767))

  -- A point's coordinates.
  unfoldable pub point_bytes : F × F × F → List ℕ
  point_bytes (cx, cy, cz) = f64_bytes cx ++ (f64_bytes cy ++ f64_bytes cz)

  unfoldable pub header : Bounds → List Vertex → List ℕ
  unfolding geodetic_to_ecef haversine_distance_km lowest highest point_bytes
  header bounds positions =
      let center_lon = over (plus bounds.west bounds.east) (of_nat 2) in
      let center_lat = over (plus bounds.south bounds.north) (of_nat 2) in
      let center = point_bytes (geodetic_to_ecef center_lat center_lon (of_nat 0)) in
      let radius =
        times
          (over (haversine_distance_km bounds.south bounds.west bounds.north bounds.east)
            (of_nat 2))
          (of_nat 1000) in
      center
      ++ (f32_bytes (lowest greatest positions)
          ++ (f32_bytes (highest least positions) ++ (center ++ (f64_bytes radius ++ center))))

  unfoldable pub quantize_u : Bounds → Vertex → ℕ
  unfolding quantize
  quantize_u bounds v = quantize v.lon bounds.west (minus bounds.east bounds.west)

  unfoldable pub quantize_v : Bounds → Vertex → ℕ
  unfolding quantize
  quantize_v bounds v = quantize v.lat bounds.south (minus bounds.north bounds.south)

  unfoldable pub quantize_h : List Vertex → Vertex → ℕ
  unfolding quantize height_range lowest highest
  quantize_h positions v =
      let min_h = lowest greatest positions in
      quantize v.elevation min_h (height_range min_h (highest least positions))

  pub header-length :
      (bounds : Bounds) (positions : List Vertex) → length (header bounds positions) ≡ 88
  unfolding header
  header-length bounds positions =
      simp (length-append, float.f64_bytes_eight, float.f32_bytes_four) refl

  -- A vertex within the bounds of its tile, with an elevation that is a number.
  abbrev pub IsWithin : Bounds → Vertex → Type 0
  IsWithin bounds v =
      (leb_F bounds.west v.lon ≡ true)
      × (leb_F v.lon bounds.east ≡ true)
      × (leb_F bounds.south v.lat ≡ true)
      × (leb_F v.lat bounds.north ≡ true)
      × (leb_F v.elevation v.elevation ≡ true)

  pub quantize_u-fits :
      (bounds : Bounds) (v : Vertex) → IsWithin bounds v → quantize_u bounds v ≤ 32767
  unfolding quantize_u
  quantize_u-fits bounds v h = float.scaled_fits bounds.west bounds.east v.lon h.0 h.1

  pub quantize_v-fits :
      (bounds : Bounds) (v : Vertex) → IsWithin bounds v → quantize_v bounds v ≤ 32767
  unfolding quantize_v
  quantize_v-fits bounds v h = float.scaled_fits bounds.south bounds.north v.lat h.2 h.3

  abbrev pub HasNumber : Vertex → Type 0
  HasNumber v = leb_F v.elevation v.elevation ≡ true

  -- The lowest elevation is at most the start and each elevation, all of them numbers.
  lowest-le :
      (low : F) (vertices : List Vertex)
      → leb_F low low ≡ true
      → All HasNumber vertices
      → (leb_F (lowest low vertices) low ≡ true)
        × All (λ v. leb_F (lowest low vertices) v.elevation ≡ true) vertices
  unfolding lowest
  lowest-le low [] number h = (number, tt)
  lowest-le low (v ∷ vertices) number h =
      let left = float.min_left low v.elevation number h.0 in
      let right = float.min_right low v.elevation number h.0 in
      let (below, all) = lowest-le (min_F low v.elevation) vertices (float.leb_left _ _ left) h.1 in
      (float.leb_trans _ _ _ below left, (float.leb_trans _ _ _ below right, all))

  highest-ge :
      (high : F) (vertices : List Vertex)
      → leb_F high high ≡ true
      → All HasNumber vertices
      → (leb_F high (highest high vertices) ≡ true)
        × All (λ v. leb_F v.elevation (highest high vertices) ≡ true) vertices
  unfolding highest
  highest-ge high [] number h = (number, tt)
  highest-ge high (v ∷ vertices) number h =
      let left = float.max_left high v.elevation number h.0 in
      let right = float.max_right high v.elevation number h.0 in
      let (above, all) =
        highest-ge (max_F high v.elevation) vertices (float.leb_right _ _ left) h.1 in
      (float.leb_trans _ _ _ left above, (float.leb_trans _ _ _ right above, all))

  height_fits :
      (low high value : F)
      → leb_F low value ≡ true
      → leb_F value high ≡ true
      → quantize value low (height_range low high) ≤ 32767
  unfolding quantize height_range
  height_fits low high value above below =
      elim (Bool-cases (ltb_F (abs (minus high low)) (decimal 1 6))) [
        | inl e ↦ rw e (float.flat_fits low high value above below e)
        | inr e ↦ rw e (float.scaled_fits low high value above below)
      ]

  heights_fit :
      (low high : F) (vertices : List Vertex)
      → All (λ v. leb_F low v.elevation ≡ true) vertices
      → All (λ v. leb_F v.elevation high ≡ true) vertices
      → All (λ v. quantize v.elevation low (height_range low high) ≤ 32767) vertices
  heights_fit low high [] h k = tt
  heights_fit low high (v ∷ vertices) h k =
      (height_fits low high v.elevation h.0 k.0, heights_fit low high vertices h.1 k.1)

  -- Where every elevation is a number, every height is quantized to at most 32767.
  pub quantize_h-fits :
      (positions : List Vertex)
      → All HasNumber positions
      → All (λ v. quantize_h positions v ≤ 32767) positions
  unfolding quantize_h
  quantize_h-fits positions h =
      heights_fit _ _ positions (lowest-le greatest positions float.greatest_number h).1
        (highest-ge least positions float.least_number h).1
