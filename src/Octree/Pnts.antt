-- ===== src/Octree/Pnts.antt =====
-- `write_pnts` of crates/tiletopia-core/src/tile.rs: the bytes of a point-cloud tile. The JSON of
-- the feature table (serde_json) and the four bytes of an `f32` that a difference of coordinates
-- becomes are parameters.
use tiletopia.Prelude.{
  ℕ, ◌+◌, ◌-◌, ◌*◌, ◌/◌, ◌%◌, ◌<◌, ◌≡◌, sym, ◌∙◌, List, [], ◌∷◌, ◌++◌, arith, length, drop,
  replicate, length-append, length-replicate,
}
use tiletopia.Octree.Bounds.{Coord, Vec3}
use tiletopia.Octree.Build.{OctreePoint}

-- `u32::to_le_bytes`, after the truncation of `as u32`
unfoldable pub to_le_bytes : ℕ → List ℕ
to_le_bytes v = v % 256 ∷ v / 256 % 256 ∷ v / 65536 % 256 ∷ v / 16777216 % 256 ∷ []

-- What a reader of the header makes of four bytes.
unfoldable pub from_le_bytes : List ℕ → ℕ
from_le_bytes (a ∷ b ∷ c ∷ d ∷ rest) = a + 256 * b + 65536 * c + 16777216 * d
from_le_bytes bytes = 0

unfoldable pub padding_to_8 : ℕ → ℕ
padding_to_8 size = (8 - size % 8) % 8

module _ (coord : Coord) (f32_bytes : coord.F → List ℕ)
    (feature_table_json : ℕ → Vec3 coord → List ℕ) where
  -- the loops that write the positions relative to the origin, and the colours
  unfoldable pub positions : Vec3 coord → List (OctreePoint coord) → List ℕ
  positions origin [] = []
  positions origin (p ∷ points) =
      f32_bytes (coord.minus p.position.x origin.x)
      ++ f32_bytes (coord.minus p.position.y origin.y)
      ++ f32_bytes (coord.minus p.position.z origin.z)
      ++ positions origin points

  unfoldable pub colors : List (OctreePoint coord) → List ℕ
  colors [] = []
  colors (p ∷ points) = p.color.0 ∷ p.color.1 ∷ p.color.2 ∷ colors points

  unfoldable pub write_pnts : List (OctreePoint coord) → List ℕ
  unfolding to_le_bytes padding_to_8 positions colors
  write_pnts [] = []
  write_pnts (p ∷ points) =
      let num_points = length (p ∷ points) in
      let json = feature_table_json num_points p.position in
      let json_padding = padding_to_8 (28 + length json) in
      let padded_json_len = length json + json_padding in
      let colors_padding = padding_to_8 (num_points * 12 + num_points * 3) in
      let binary_size = num_points * 12 + num_points * 3 + colors_padding in
      let total_size = 28 + padded_json_len + binary_size in
      (112 ∷ 110 ∷ 116 ∷ 115 ∷ [])
      ++ to_le_bytes 1
      ++ to_le_bytes total_size
      ++ to_le_bytes padded_json_len
      ++ to_le_bytes binary_size
      ++ to_le_bytes 0
      ++ to_le_bytes 0
      ++ json
      ++ replicate json_padding 32
      ++ positions p.position (p ∷ points)
      ++ colors (p ∷ points)
      ++ replicate colors_padding 0

  length-positions :
      ((x : coord.F) → length (f32_bytes x) ≡ 4)
      → (origin : Vec3 coord) (points : List (OctreePoint coord))
      → length (positions origin points) ≡ 12 * length points
  unfolding positions
  length-positions four origin [] = omega arith
  length-positions four origin (p ∷ points) = simp (length-append) (
      let rest = length-positions four origin points in
      let x = four (coord.minus p.position.x origin.x) in
      let y = four (coord.minus p.position.y origin.y) in
      let z = four (coord.minus p.position.z origin.z) in omega arith)

  length-colors : (points : List (OctreePoint coord)) → length (colors points) ≡ 3 * length points
  unfolding colors
  length-colors [] = omega arith
  length-colors (p ∷ points) = let rest = length-colors points in omega arith

  from-to_le_bytes :
      (v : ℕ) (rest : List ℕ) → v < 4294967296 → from_le_bytes (to_le_bytes v ++ rest) ≡ v
  unfolding from_le_bytes to_le_bytes
  from-to_le_bytes v rest h = omega arith

  padding_to_8-aligns : (size : ℕ) → (size + padding_to_8 size) % 8 ≡ 0
  unfolding padding_to_8
  padding_to_8-aligns size = omega arith

  -- The length that the header gives.
  abbrev total_size : OctreePoint coord → List (OctreePoint coord) → ℕ
  total_size p points =
      let num_points = length (p ∷ points) in
      let json_len = length (feature_table_json num_points p.position) in
      28
      + (json_len + padding_to_8 (28 + json_len))
      + (num_points * 12 + num_points * 3 + padding_to_8 (num_points * 12 + num_points * 3))

  length-write_pnts :
      ((x : coord.F) → length (f32_bytes x) ≡ 4)
      → (p : OctreePoint coord) (points : List (OctreePoint coord))
      → length (write_pnts (p ∷ points)) ≡ total_size p points
  unfolding write_pnts to_le_bytes positions
  length-write_pnts four p points =
      let body = length-positions four p.position points in
      let tints = length-colors points in
      let x = four (coord.minus p.position.x p.position.x) in
      let y = four (coord.minus p.position.y p.position.y) in
      let z = four (coord.minus p.position.z p.position.z) in
      simp (length-append, length-replicate) (omega arith)

  -- Where an f32 has four bytes, a tile of at least one point whose file stays below 4 GiB says
  -- in its header (from the ninth byte on) how long it is, and is a whole number of 8 bytes long.
  pub write_pnts-length :
      ((x : coord.F) → length (f32_bytes x) ≡ 4)
      → (p : OctreePoint coord) (points : List (OctreePoint coord))
      → length (write_pnts (p ∷ points)) < 4294967296
      → (from_le_bytes (drop 8 (write_pnts (p ∷ points))) ≡ length (write_pnts (p ∷ points)))
        × (length (write_pnts (p ∷ points)) % 8 ≡ 0)
  unfolding write_pnts
  write_pnts-length four p points h =
      let len = length-write_pnts four p points in
      let json_len = length (feature_table_json (length (p ∷ points)) p.position) in
      let a = padding_to_8-aligns (28 + json_len) in
      let b = padding_to_8-aligns (length (p ∷ points) * 12 + length (p ∷ points) * 3) in
      (from-to_le_bytes (total_size p points) _ (omega arith) ∙ sym len, omega arith)
