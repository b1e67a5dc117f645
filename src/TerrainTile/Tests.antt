-- ===== src/TerrainTile/Tests.antt =====
-- A terrain tile of two triangles, written and read.
use tiletopia.Prelude.{
  ◌+◌, ◌-◌, ◌*◌, ◌/◌, ◌%◌, ◌^◌, max, leb, true, ℕ, ◌≤◌, ◌<◌, min, ◌≡◌, refl, ◌&&◌, List, [], ◌∷◌,
  map, arith, ltb, ◌==◌, if◌then◌else◌, length, get_elem?, All,
}
use tiletopia.Prelude.Res.{ok}
use tiletopia.TerrainTile.Codes.{
  delta_encode_from, delta_encode_u16, zigzag, high_water_mark_from, mark, FirstUse,
}
use tiletopia.TerrainTile.Reorder.{
  TerrainMesh, renumber, reorder_by_first_use, reorder_by_first_use_lem, flattened,
}
use tiletopia.TerrainTile.Edges.{edge_indices, edge_indices_lem, IsSortedBy, at, count}
use tiletopia.TerrainTile.Floats.{Float}
use tiletopia.TerrainTile.Header.{TerrainTileCoord, Vertex, bounds_of, IsWithin}
use tiletopia.TerrainTile.Tile.{encode_quantized_mesh}
use tiletopia.TerrainTile.Reading.{Reads, encode_quantized_mesh-read_tile}
use native.Mathlib.Nat.{div-le_of_le-mul}

share_fits :
    (low high x : ℕ)
    → leb low x ≡ true
    → leb x high ≡ true
    → min ((x - low) / (high - low) * 32767) 65535 ≤ 32767
share_fits low high x h k =
    let below : x - low ≤ (high - low) * 1 = ground arith in
    let once = div-le_of_le-mul (high - low) below in omega arith

flat_share :
    (low high x : ℕ)
    → leb low x ≡ true
    → leb x high ≡ true
    → ltb (high - low) 1 ≡ true
    → min ((x - low) / 1 * 32767) 65535 ≤ 32767
flat_share low high x h k flat =
    let nothing : x - low ≡ 0 = ground arith in rw nothing (omega arith)

-- A square of four vertices named by their two coordinates, and one that no triangle uses.
abbrev corner : ℕ → ℕ → ℕ × ℕ
corner x y = (x, y)

abbrev square : TerrainMesh (ℕ × ℕ)
square = record {
  vertices = corner 0 0 ∷ corner 5 5 ∷ corner 32767 0 ∷ corner 0 32767 ∷ corner 32767 32767 ∷ [];
  indices = record { a = 2; b = 0; c = 4 } ∷ record { a = 0; b = 3; c = 4 } ∷ [];
}

codes : delta_encode_u16 (3 ∷ 1 ∷ 32767 ∷ 0 ∷ []) ≡ 6 ∷ 3 ∷ 65532 ∷ 65533 ∷ []
unfolding delta_encode_from zigzag
codes = refl

renumbers :
    reorder_by_first_use square
    ≡ ok (
      corner 32767 0 ∷ corner 0 0 ∷ corner 32767 32767 ∷ corner 0 32767 ∷ [],
      0 ∷ 1 ∷ 2 ∷ 1 ∷ 3 ∷ 2 ∷ [],
    )
unfolding reorder_by_first_use renumber
renumbers = refl

marks : high_water_mark_from 0 (0 ∷ 1 ∷ 2 ∷ 1 ∷ 3 ∷ 2 ∷ []) ≡ 0 ∷ 0 ∷ 0 ∷ 2 ∷ 0 ∷ 2 ∷ []
unfolding high_water_mark_from
marks = refl

abbrev square_named : All (λ old. old < 5) (flattened square.indices)
square_named =
    (omega arith, (omega arith, (omega arith, (omega arith, (omega arith, (omega arith, tt))))))

reorder_by_first_use_lem_example :
    (positions : List (ℕ × ℕ)) × (flat : List ℕ) × (reorder_by_first_use square
      ≡ ok (positions, flat))
    × FirstUse 0 flat
    × (mark 0 flat ≡ length positions)
    × (map (get_elem? positions) flat ≡ map (get_elem? square.vertices) (flattened square.indices))
    × (length positions ≤ 5)
reorder_by_first_use_lem_example = reorder_by_first_use_lem square (omega arith) square_named

edge_indices_lem_example :
    IsSortedBy (at (9 ∷ 4 ∷ 7 ∷ [])) (edge_indices (0 ∷ 1 ∷ 0 ∷ []) 0 (9 ∷ 4 ∷ 7 ∷ []))
    × ((i : ℕ)
        → count i (edge_indices (0 ∷ 1 ∷ 0 ∷ []) 0 (9 ∷ 4 ∷ 7 ∷ []))
          ≡ (if ltb i 3 && (at (0 ∷ 1 ∷ 0 ∷ []) i == 0) then 1 else 0))
edge_indices_lem_example = edge_indices_lem (0 ∷ 1 ∷ 0 ∷ []) 0 (9 ∷ 4 ∷ 7 ∷ []) (omega arith)

-- Whole numbers in place of floats, with a millionth that is 1 and the circle functions left out.
abbrev whole : Float
whole = record {
  F = ℕ;
  leb_F = leb;
  ltb_F = ltb;
  min_F = min;
  max_F = max;
  plus = λ a b. a + b;
  minus = λ a b. a - b;
  times = λ a b. a * b;
  over = λ a b. a / b;
  abs = λ a. a;
  sqrt = λ a. a;
  sin = λ a. 0;
  cos = λ a. 1;
  asin = λ a. a;
  to_radians = λ a. a;
  square = λ a. a * a;
  power_of_two = λ n. 2 ^ n;
  of_nat = λ n. n;
  decimal = λ digits places. 1;
  greatest = 100000;
  least = 0;
  as_u16 = λ a. min a 65535;
  f64_bytes = λ a. a % 256 ∷ a / 256 % 256 ∷ 0 ∷ 0 ∷ 0 ∷ 0 ∷ 0 ∷ 0 ∷ [];
  f32_bytes = λ a. a % 256 ∷ a / 256 % 256 ∷ 0 ∷ 0 ∷ [];
  leb_trans = λ a b c h k. ground arith;
  leb_left = λ a b h. ground arith;
  leb_right = λ a b h. ground arith;
  min_left = λ a b h k. ground arith;
  min_right = λ a b h k. ground arith;
  max_left = λ a b h k. ground arith;
  max_right = λ a b h k. ground arith;
  greatest_number = refl;
  least_number = refl;
  scaled_fits = λ low high x h k. share_fits low high x h k;
  flat_fits = λ low high x h k flat. flat_share low high x h k flat;
  f64_bytes_eight = λ a. refl;
  f32_bytes_four = λ a. refl;
}

-- The corners of the tile that lies north-east of the origin, with relief, and a point in it.
abbrev relief : TerrainMesh (Vertex whole)
relief = record {
  vertices =
      record { lon = 0; lat = 0; elevation = 12 }
      ∷ record { lon = 90; lat = 90; elevation = 2 }
      ∷ record { lon = 90; lat = 0; elevation = 0 }
      ∷ record { lon = 0; lat = 90; elevation = 30 }
      ∷ [];
  indices = record { a = 2; b = 0; c = 1 } ∷ record { a = 0; b = 3; c = 1 } ∷ [];
}

abbrev north_east : TerrainTileCoord
north_east = record { zoom = 1; x = 2; y = 1 }

relief_fits : All (IsWithin whole (bounds_of whole north_east)) relief.vertices
unfolding bounds_of
relief_fits = (
  (refl, refl, refl, refl, refl),
  (
    (refl, refl, refl, refl, refl),
    ((refl, refl, refl, refl, refl), ((refl, refl, refl, refl, refl), tt)),
  ),
)

encode_quantized_mesh-read_tile_example :
    (positions : List (Vertex whole)) × (flat bytes : List ℕ) × (encode_quantized_mesh whole relief
        north_east
      ≡ ok bytes)
    × Reads whole (bounds_of whole north_east) positions flat bytes
    × (map (get_elem? positions) flat ≡ map (get_elem? relief.vertices) (flattened relief.indices))
encode_quantized_mesh-read_tile_example =
    encode_quantized_mesh-read_tile whole relief north_east relief_fits (omega arith) (omega arith)
      (omega arith, (omega arith, (omega arith, (omega arith, (omega arith, (omega arith, tt))))))
