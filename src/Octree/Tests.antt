-- ===== src/Octree/Tests.antt =====
-- Runs of the point-cloud tiler on small inputs, with coordinates that are natural numbers.
use tiletopia.Prelude.{
  ℕ, ◌+◌, ◌-◌, ◌*◌, ◌/◌, ◌%◌, ◌≤◌, ◌<◌, min, max, ◌≡◌, refl, Bool, not, List, [], ◌∷◌, ◌++◌, map,
  arith, ltb, leb, length, drop,
}
use tiletopia.Prelude.Res.{Res, ok}
use tiletopia.Octree.Bounds.{Coord, Vec3, empty, expand_point, max_extent, octants}
use tiletopia.Octree.Build.{
  OctreePoint, OctreeConfig, OctreeNode, stays_leaf, build_octree, build_node, expand_all,
}
use tiletopia.Octree.Contains.{Fits, build_octree-Fits}
use tiletopia.Octree.Counts.{count, in_leaves, build_octree-counted}
use tiletopia.Octree.Shape.{build_node_enough}
use tiletopia.Octree.Stats.{
  collect_stats, nodes_of, is_leaf, deepest, all_points, collect_stats-build_octree,
}
use tiletopia.Octree.Tiles.{Written, generate_tile, write_node_tiles, uris, write_node_tiles-uris}
use tiletopia.Octree.Names.{Distinct, write_node_tiles-Distinct}
use tiletopia.Octree.Pnts.{write_pnts, from_le_bytes, write_pnts-length}

abbrev grid : Coord
grid = record {
  F = ℕ;
  leb_F = leb;
  ltb_F = ltb;
  min_F = min;
  max_F = max;
  plus = λ a b. a + b;
  minus = λ a b. a - b;
  times = λ a b. a * b / 2;
  half = 1;
  two = 4;
  infinity = 1000;
  neg_infinity = 0;
  leb_total = λ a b h. ground arith;
  leb_trans = λ a b c h k. ground arith;
  leb_refl = λ a. ground arith;
  min_left = λ a b. ground arith;
  min_right = λ a b. ground arith;
  max_left = λ a b. ground arith;
  max_right = λ a b. ground arith;
}

abbrev at : ℕ → ℕ → OctreePoint grid
at x y = record {
  position = record { x = x; y = y; z = 0 };
  color = (1, 2, 3);
  intensity = 0;
  classification = 0;
}

abbrev some_points : List (OctreePoint grid)
some_points = at 0 0 ∷ at 8 0 ∷ at 0 8 ∷ at 8 8 ∷ at 7 7 ∷ []

abbrev small_config : OctreeConfig grid
small_config = record { max_points_per_node = 1; max_depth = 2; min_extent = 1 }

abbrev right_half : OctreePoint grid → Bool
right_half p = leb 4 p.position.x

abbrev some_tree : OctreeNode grid
some_tree = build_octree grid some_points small_config

in_leaves_run : in_leaves grid right_half some_tree ≡ 3
unfolding build_octree in_leaves stays_leaf max_extent expand_point empty octants count
in_leaves_run = refl

build_octree-Fits_example : Fits grid some_tree
build_octree-Fits_example = build_octree-Fits grid some_points small_config

build_octree-counted_example : in_leaves grid right_half some_tree ≡ count right_half some_points
build_octree-counted_example = build_octree-counted grid right_half some_points small_config

build_node_enough_example :
    build_node grid small_config 7 1 (expand_all grid (empty grid) some_points) some_points
    ≡ build_node grid small_config 1 1 (expand_all grid (empty grid) some_points) some_points
build_node_enough_example =
    build_node_enough grid small_config 1 7 1 (expand_all grid (empty grid) some_points) some_points
      (omega arith) (omega arith)

collect_stats-build_octree_example :
    let stats = collect_stats grid some_tree in
    (stats.total_nodes ≡ length (nodes_of grid some_tree))
    × (stats.leaf_nodes ≡ count is_leaf (nodes_of grid some_tree))
    × (stats.internal_nodes ≡ count (λ n. not (is_leaf n)) (nodes_of grid some_tree))
    × (stats.max_depth ≡ deepest grid 0 (nodes_of grid some_tree))
    × (stats.max_depth ≤ small_config.max_depth)
    × (stats.total_points ≡ all_points grid (nodes_of grid some_tree))
collect_stats-build_octree_example = collect_stats-build_octree grid some_points small_config

abbrev creates : List ℕ → Res ℕ (Unit {0})
creates name = ok tt

write_node_tiles-uris_example :
    (files : Written grid) × (write_node_tiles grid creates [] some_tree ≡ ok files)
    × (map (λ f. (116 ∷ []) ++ f.0) files
        ≡ uris (generate_tile grid (λ x. x) 0 (116 ∷ []) [] some_tree))
write_node_tiles-uris_example =
    write_node_tiles-uris grid (λ x. x) 0 creates (116 ∷ []) [] some_tree (λ name. refl)

write_node_tiles-Distinct_example :
    (files : Written grid) × (write_node_tiles grid creates [] some_tree ≡ ok files)
    × Distinct grid files
write_node_tiles-Distinct_example =
    write_node_tiles-Distinct grid creates some_points small_config (λ name. refl)

abbrev four_bytes : ℕ → List ℕ
four_bytes x = x % 256 ∷ 0 ∷ 0 ∷ 0 ∷ []

abbrev short_json : ℕ → Vec3 grid → List ℕ
short_json n origin = 123 ∷ 125 ∷ []

abbrev some_tile : List ℕ
some_tile = write_pnts grid four_bytes short_json some_points

below_4_gib : length some_tile < 4294967296
unfolding write_pnts
below_4_gib = omega arith

write_pnts-length_example :
    (from_le_bytes (drop 8 some_tile) ≡ length some_tile) × (length some_tile % 8 ≡ 0)
write_pnts-length_example =
    write_pnts-length grid four_bytes short_json (λ x. refl) (at 0 0)
      (at 8 0 ∷ at 0 8 ∷ at 8 8 ∷ at 7 7 ∷ []) below_4_gib
