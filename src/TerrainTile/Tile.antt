-- ===== src/TerrainTile/Tile.antt =====
-- A terrain tile's bytes, `encode_quantized_mesh` of crates/tiletopia-server/src/terrain_api.rs, and
-- how a client that follows the quantized-mesh format reads them.
use tiletopia.Prelude.{ℕ, zero, suc, ◌+◌, ◌*◌, ◌/◌, ◌%◌, List, [], ◌∷◌, ◌++◌, map, length, drop}
use tiletopia.Prelude.Res.{Res, ok, err, ◌>>=◌}
use tiletopia.Octree.Pnts.{to_le_bytes}
use tiletopia.TerrainTile.Codes.{
  delta_encode_u16, delta_decode_from, high_water_mark_encode, high_water_decode_from, as_u16,
}
use tiletopia.TerrainTile.Reorder.{TerrainMesh, Panic, reorder_by_first_use}
use tiletopia.TerrainTile.Edges.{edge_indices}
use tiletopia.TerrainTile.Floats.{Float}
use tiletopia.TerrainTile.Header.{
  TerrainTileCoord, Vertex, Bounds, bounds_of, header, quantize_u, quantize_v, quantize_h,
}

-- `u16::to_le_bytes` of each
unfoldable pub u16_bytes : List ℕ → List ℕ
u16_bytes [] = []
u16_bytes (v ∷ values) = v % 256 ∷ v / 256 % 256 ∷ u16_bytes values

unfoldable pub write_edges : List (List ℕ) → List ℕ
write_edges [] = []
write_edges (edge ∷ edges) = to_le_bytes (length edge) ++ (u16_bytes edge ++ write_edges edges)

unfoldable pub tile_edges : List ℕ → List ℕ → List (List ℕ)
tile_edges u_values v_values =
    let west = edge_indices u_values 0 v_values in
    let south = edge_indices v_values 0 u_values in
    let east = edge_indices u_values 32767 v_values in
    let north = edge_indices v_values 32767 u_values in west ∷ south ∷ east ∷ north ∷ []

-- The bytes after the header, of the quantized coordinates and the renumbered triangles.
unfoldable pub tile_bytes : ℕ → ℕ → List ℕ → List ℕ → List ℕ → List ℕ → List ℕ
tile_bytes vertices triangles u_values v_values h_values flat_indices =
    to_le_bytes vertices
    ++ (u16_bytes (delta_encode_u16 u_values)
        ++ (u16_bytes (delta_encode_u16 v_values)
            ++ (u16_bytes (delta_encode_u16 h_values)
                ++ (to_le_bytes triangles
                    ++ (u16_bytes (as_u16 (high_water_mark_encode flat_indices))
                        ++ write_edges (tile_edges u_values v_values))))))

-- `encode_quantized_mesh` after the renumbering
unfoldable pub encode_renumbered :
    (float : Float) → Bounds float → ℕ → List (Vertex float) × List ℕ → List ℕ
unfolding header tile_bytes quantize_u quantize_v quantize_h
encode_renumbered float bounds triangles (positions, flat_indices) =
    header float bounds positions
    ++ tile_bytes (length positions) triangles (map (quantize_u float bounds) positions)
        (map (quantize_v float bounds) positions) (map (quantize_h float positions) positions)
        flat_indices

unfoldable pub encode_quantized_mesh :
    (float : Float) → TerrainMesh (Vertex float) → TerrainTileCoord → Res Panic (List ℕ)
unfolding bounds_of encode_renumbered reorder_by_first_use
encode_quantized_mesh float mesh coord = do
  renumbered ← reorder_by_first_use mesh
  ok (encode_renumbered float (bounds_of float coord) (length mesh.indices) renumbered)

-- The client's view of a tile.
pub record ClientTile : Type 0 where
  pub u : List ℕ
  pub v : List ℕ
  pub height : List ℕ
  pub corners : List ℕ
  pub edges : List (List ℕ)

pub data TooShort : Type 0 where
  too_short : TooShort

-- A value and the bytes after it.
abbrev Read : Type 0 → Type 0
Read A = List ℕ → Res TooShort (A × List ℕ)

unfoldable pub read_u32 : Read ℕ
read_u32 (a ∷ b ∷ c ∷ d ∷ rest) = ok (a + 256 * b + 65536 * c + 16777216 * d, rest)
read_u32 bytes = err too_short

unfoldable pub read_u16s : ℕ → Read (List ℕ)
read_u16s zero bytes = ok ([], bytes)
read_u16s (suc n) (a ∷ b ∷ bytes) = do
  (values, rest) ← read_u16s n bytes
  ok ((a + 256 * b) ∷ values, rest)
read_u16s (suc n) bytes = err too_short

unfoldable pub read_edges : ℕ → Read (List (List ℕ))
read_edges zero bytes = ok ([], bytes)
read_edges (suc n) bytes = do
  (many, bytes) ← read_u32 bytes
  (edge, bytes) ← read_u16s many bytes
  (edges, bytes) ← read_edges n bytes
  ok (edge ∷ edges, bytes)

unfoldable pub read_tile : Read ClientTile
read_tile bytes = do
  (vertices, r1) ← read_u32 (drop 88 bytes)
  (u, r2) ← read_u16s vertices r1
  (v, r3) ← read_u16s vertices r2
  (height, r4) ← read_u16s vertices r3
  (triangles, r5) ← read_u32 r4
  (codes, r6) ← read_u16s (triangles * 3) r5
  (edges, r7) ← read_edges 4 r6
  ok (
    record {
      u = delta_decode_from 0 u;
      v = delta_decode_from 0 v;
      height = delta_decode_from 0 height;
      corners = high_water_decode_from 0 codes;
      edges = edges;
    },
    r7,
  )
