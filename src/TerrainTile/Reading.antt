-- ===== src/TerrainTile/Reading.antt =====
-- A terrain tile that crates/tiletopia-server/src/terrain_api.rs wrote, read by a client.
use tiletopia.Prelude.{
  ℕ, zero, suc, ◌+◌, ◌*◌, ◌/◌, ◌%◌, ◌≤◌, ◌<◌, ◌≡◌, refl, sym, ap, subst, ◌∙◌, ◌&&◌, List, [], ◌∷◌,
  ◌++◌, map, arith, ltb, ◌==◌, if◌then◌else◌, length, get_elem?, drop, All, length-map,
  drop-length_append,
}
use tiletopia.Prelude.Res.{ok}
use tiletopia.Octree.Pnts.{to_le_bytes}
use tiletopia.TerrainTile.Codes.{
  delta_encode_u16, high_water_mark_encode, mark, FirstUse, as_u16, delta_encode_u16-decode,
  high_water-decode, delta_encode_u16-length, delta_encode_u16-All, high_water-length, as_u16-All,
}
use tiletopia.TerrainTile.Reorder.{Triangle, flattened, TerrainMesh, reorder_by_first_use_lem}
use tiletopia.TerrainTile.Kept.{reorder_by_first_use-All}
use tiletopia.TerrainTile.Edges.{
  edge_indices, edge_indices-few, edge_indices-All, edge_indices_lem, at, count, IsSortedBy,
}
use tiletopia.TerrainTile.Floats.{Float}
use tiletopia.TerrainTile.Header.{
  TerrainTileCoord, Vertex, Bounds, bounds_of, header, quantize_u, quantize_v, quantize_h, IsWithin,
  HasNumber, header-length, quantize_u-fits, quantize_v-fits, quantize_h-fits,
}
use tiletopia.TerrainTile.Tile.{
  u16_bytes, write_edges, tile_edges, tile_bytes, encode_renumbered, encode_quantized_mesh,
  read_u32, read_u16s, read_edges, read_tile,
}

read_u32-write :
    (n : ℕ) (rest : List ℕ) → n < 4294967296 → read_u32 (to_le_bytes n ++ rest) ≡ ok (n, rest)
unfolding read_u32 to_le_bytes
read_u32-write n rest h =
    let whole : n % 256
          + 256 * (n / 256 % 256)
          + 65536 * (n / 65536 % 256)
          + 16777216 * (n / 16777216 % 256)
        ≡ n =
      omega arith in
    rw whole refl

read_u16s-write :
    (values rest : List ℕ) (n : ℕ)
    → length values ≡ n
    → All (λ v. v < 65536) values
    → read_u16s n (u16_bytes values ++ rest) ≡ ok (values, rest)
unfolding read_u16s u16_bytes
read_u16s-write [] rest zero l h = refl
read_u16s-write [] rest (suc n) l h = absurd (omega arith)
read_u16s-write (v ∷ values) rest zero l h = absurd (omega arith)
read_u16s-write (v ∷ values) rest (suc n) l h =
    let whole : v % 256 + 256 * (v / 256 % 256) ≡ v = omega arith in
    rw (read_u16s-write values rest n (omega arith) h.1, whole) refl

read_edges-write :
    (edges : List (List ℕ)) (n : ℕ)
    → length edges ≡ n
    → All (λ edge. (length edge < 65536) × All (λ v. v < 65536) edge) edges
    → read_edges n (write_edges edges) ≡ ok (edges, [])
unfolding read_edges write_edges
read_edges-write [] zero l h = refl
read_edges-write [] (suc n) l h = absurd (omega arith)
read_edges-write (edge ∷ edges) zero l h = absurd (omega arith)
read_edges-write (edge ∷ edges) (suc n) l h =
    rw
      (
        read_u32-write (length edge) (u16_bytes edge ++ write_edges edges) (omega (arith, h.0.0)),
        read_u16s-write edge (write_edges edges) (length edge) refl h.0.1,
        read_edges-write edges n (omega arith) h.1,
      )
      refl

flattened-length : (triangles : List Triangle) → length (flattened triangles) ≡ length triangles * 3
flattened-length [] = refl
flattened-length (t ∷ triangles) = omega (arith, flattened-length triangles)

-- What a client reads where a column of coordinates was written.
read_column :
    (values rest : List ℕ) (n : ℕ)
    → length values ≡ n
    → read_u16s n (u16_bytes (delta_encode_u16 values) ++ rest) ≡ ok (delta_encode_u16 values, rest)
read_column values rest n l =
    read_u16s-write (delta_encode_u16 values) rest n (delta_encode_u16-length values ∙ l)
      (delta_encode_u16-All values)

edges_fit :
    (u_values v_values : List ℕ)
    → All (λ edge. (length edge < 65536) × All (λ v. v < 65536) edge) (tile_edges u_values v_values)
unfolding tile_edges
edges_fit u_values v_values = (
  (edge_indices-few _ _ _, edge_indices-All _ _ _),
  (
    (edge_indices-few _ _ _, edge_indices-All _ _ _),
    (
      (edge_indices-few _ _ _, edge_indices-All _ _ _),
      ((edge_indices-few _ _ _, edge_indices-All _ _ _), tt),
    ),
  ),
)

read_tile-bytes :
    (head : List ℕ) (vertices triangles : ℕ) (us vs hs flat : List ℕ)
    → length head ≡ 88
    → length us ≡ vertices
    → length vs ≡ vertices
    → length hs ≡ vertices
    → All (λ v. v ≤ 32767) us
    → All (λ v. v ≤ 32767) vs
    → All (λ v. v ≤ 32767) hs
    → vertices ≤ 65535
    → triangles < 4294967296
    → length flat ≡ triangles * 3
    → FirstUse 0 flat
    → mark 0 flat ≡ vertices
    → read_tile (head ++ tile_bytes vertices triangles us vs hs flat)
      ≡ ok (record { u = us; v = vs; height = hs; corners = flat; edges = tile_edges us vs }, [])
unfolding read_tile tile_bytes
read_tile-bytes head vertices triangles us vs hs flat head_88 u_long v_long h_long u_fits v_fits
      h_fits few t_few corners uses marked =
    let codes = as_u16 (high_water_mark_encode flat) in
    let tail5 = u16_bytes codes ++ write_edges (tile_edges us vs) in
    let tail4 = to_le_bytes triangles ++ tail5 in
    let tail3 = u16_bytes (delta_encode_u16 hs) ++ tail4 in
    let tail2 = u16_bytes (delta_encode_u16 vs) ++ tail3 in
    let tail1 = u16_bytes (delta_encode_u16 us) ++ tail2 in
    let body = to_le_bytes vertices ++ tail1 in
    let skipped : drop 88 (head ++ body) ≡ body =
      subst (λ n. drop n (head ++ body) ≡ body) head_88 (drop-length_append head body) in
    let many : length codes ≡ triangles * 3 =
      length-map (high_water_mark_encode flat) (λ i. i % 65536)
      ∙ (high_water-length 0 flat ∙ corners) in
    rw
      (
        skipped,
        read_u32-write vertices tail1 (omega arith),
        read_column us tail2 vertices u_long,
        read_column vs tail3 vertices v_long,
        read_column hs tail4 vertices h_long,
        read_u32-write triangles tail5 t_few,
        read_u16s-write codes (write_edges (tile_edges us vs)) (triangles * 3) many
            (as_u16-All (high_water_mark_encode flat)),
        read_edges-write (tile_edges us vs) 4 (unfold tile_edges in refl) (edges_fit us vs),
        delta_encode_u16-decode us u_fits,
        delta_encode_u16-decode vs v_fits,
        delta_encode_u16-decode hs h_fits,
        high_water-decode 0 flat uses (omega arith),
      )
      refl

-- The vertices at a value of one coordinate, each once, in the order of the other.
abbrev pub IsEdge : List ℕ → ℕ → List ℕ → List ℕ → Type 0
IsEdge across across_value along edge =
    IsSortedBy (at along) edge
    × ((i : ℕ)
        → count i edge ≡ (if ltb i (length across) && (at across i == across_value) then 1 else 0))

-- What a client reads from the bytes of a tile of these vertices and corners.
pub Reads : (float : Float) → Bounds float → List (Vertex float) → List ℕ → List ℕ → Type 0
Reads float bounds positions flat bytes =
    (west south east north : List ℕ) × (let us = map (quantize_u float bounds) positions in
      let vs = map (quantize_v float bounds) positions in
      (read_tile bytes
        ≡ ok (
          record {
            u = us;
            v = vs;
            height = map (quantize_h float positions) positions;
            corners = flat;
            edges = west ∷ south ∷ east ∷ north ∷ [];
          },
          [],
        ))
      × IsEdge us 0 vs west
      × IsEdge vs 0 us south
      × IsEdge us 32767 vs east
      × IsEdge vs 32767 us north)

map-All :
    {V : Type 0} (q : V → ℕ) (xs : List V)
    → All (λ x. q x ≤ 32767) xs
    → All (λ v. v ≤ 32767) (map q xs)
map-All q [] h = tt
map-All q (x ∷ xs) h = (h.0, map-All q xs h.1)

All-then :
    {V : Type 0} (P Q : V → Type 0) (xs : List V) → ((x : V) → P x → Q x) → All P xs → All Q xs
All-then P Q [] f h = tt
All-then P Q (x ∷ xs) f h = (f x h.0, All-then P Q xs f h.1)

module _ (float : Float) where
  encode_renumbered-Reads :
      (bounds : Bounds float) (triangles : ℕ) (positions : List (Vertex float)) (flat : List ℕ)
      → All (IsWithin float bounds) positions
      → length positions ≤ 65535
      → triangles < 4294967296
      → length flat ≡ triangles * 3
      → FirstUse 0 flat
      → mark 0 flat ≡ length positions
      → Reads float bounds positions flat
          (encode_renumbered float bounds triangles (positions, flat))
  unfolding encode_renumbered Reads tile_edges
  encode_renumbered-Reads bounds triangles positions flat within few t_few corners uses marked =
      let us = map (quantize_u float bounds) positions in
      let vs = map (quantize_v float bounds) positions in
      let u_long : length us ≡ length positions = length-map positions (quantize_u float bounds) in
      let v_long : length vs ≡ length positions = length-map positions (quantize_v float bounds) in
      let numbers =
        All-then (IsWithin float bounds) (HasNumber float) positions (λ v h. h.4) within in
      (
        edge_indices us 0 vs,
        edge_indices vs 0 us,
        edge_indices us 32767 vs,
        edge_indices vs 32767 us,
        (
          read_tile-bytes (header float bounds positions) (length positions) triangles us vs
              (map (quantize_h float positions) positions) flat
              (header-length float bounds positions) u_long v_long
              (length-map positions (quantize_h float positions))
              (map-All _ positions (All-then _ _ positions (quantize_u-fits float bounds) within))
              (map-All _ positions (All-then _ _ positions (quantize_v-fits float bounds) within))
              (map-All _ positions (quantize_h-fits float positions numbers)) few t_few corners uses
              marked,
          edge_indices_lem us 0 vs (omega arith),
          edge_indices_lem vs 0 us (omega arith),
          edge_indices_lem us 32767 vs (omega arith),
          edge_indices_lem vs 32767 us (omega arith),
        ),
      )

  -- For a mesh of at most 65535 vertices and fewer than 2^32 triangles, which name only vertices it
  -- has, all vertices within the bounds of the tile and with elevations that are numbers, the tile
  -- is written, and a client reads from its bytes, to the last one, the quantized coordinates of the
  -- renumbered vertices, the corners of the triangles, and the vertices of the west, south, east
  -- and north edge, which are those with u = 0, v = 0, u = 32767 and v = 32767, each once and in
  -- the order of its place along the edge; each corner is the vertex that it is in the mesh.
  pub encode_quantized_mesh-read_tile :
      (mesh : TerrainMesh (Vertex float)) (coord : TerrainTileCoord)
      → All (IsWithin float (bounds_of float coord)) mesh.vertices
      → length mesh.vertices ≤ 65535
      → length mesh.indices < 4294967296
      → All (λ old. old < length mesh.vertices) (flattened mesh.indices)
      → (positions : List (Vertex float)) × (flat bytes : List ℕ) × (encode_quantized_mesh float
            mesh coord
          ≡ ok bytes)
        × Reads float (bounds_of float coord) positions flat bytes
        × (map (get_elem? positions) flat ≡ map (get_elem? mesh.vertices) (flattened mesh.indices))
  unfolding encode_quantized_mesh
  encode_quantized_mesh-read_tile mesh coord within few t_few named =
      let (positions, flat, renumbered, uses, marked, same, fewer) =
        reorder_by_first_use_lem mesh (omega arith) named in
      let corners : length flat ≡ length mesh.indices * 3 =
        sym (length-map flat (get_elem? positions))
        ∙ (ap length same
            ∙ (length-map (flattened mesh.indices) (get_elem? mesh.vertices)
                ∙ flattened-length mesh.indices)) in
      let bounds = bounds_of float coord in
      let kept = reorder_by_first_use-All (IsWithin float bounds) mesh within renumbered in
      (
        positions,
        flat,
        encode_renumbered float bounds (length mesh.indices) (positions, flat),
        rw renumbered refl,
        encode_renumbered-Reads bounds (length mesh.indices) positions flat kept (omega arith) t_few
            corners uses marked,
        same,
      )
