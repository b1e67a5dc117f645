-- ===== src/Octree/Build.antt =====
-- `OctreeNode`, `build_octree` and `build_node` of crates/tiletopia-core/src/octree.rs.
-- The recursion ends at `max_depth`; it runs on fuel, the levels that are left, and the root has
-- `max_depth` of them. The children are built in parallel in the source, each from its own bucket;
-- here they are built in order. A configuration with `max_points_per_node` 0 divides by zero in
-- the source and is left out.
use tiletopia.Prelude.{
  ℕ, zero, suc, ◌+◌, ◌/◌, ◌%◌, min, max, Bool, ◌||◌, List, [], ◌∷◌, ◌++◌, leb, ◌==◌, if◌then◌else◌,
  length,
}
use tiletopia.Octree.Bounds.{Coord, Vec3, Aabb, empty, expand_point, center, max_extent, octants}

pub record OctreePoint (coord : Coord) : Type 0 where
  pub position : Vec3 coord
  pub color : ℕ × ℕ × ℕ
  pub intensity : ℕ
  pub classification : ℕ

pub record OctreeConfig (coord : Coord) : Type 0 where
  pub max_points_per_node : ℕ
  pub max_depth : ℕ
  pub min_extent : coord.F

mutual
  pub data OctreeNode (coord : Coord) : Type 0 where
    leaf : Aabb coord → List (OctreePoint coord) → ℕ → OctreeNode coord
    internal : Aabb coord → Children coord → List (OctreePoint coord) → ℕ → OctreeNode coord

  -- The slots of `[Option<Box<OctreeNode>>; 8]` that are left.
  pub data Children (coord : Coord) : Type 0 where
    nil : Children coord
    absent : Children coord → Children coord
    child : OctreeNode coord → Children coord → Children coord

module _ (coord : Coord) where
  open coord use {leb_F, ltb_F}

  -- the three comparisons of a point with the center, as bits
  abbrev bit : Bool → ℕ → ℕ
  bit b weight = if b then weight else 0

  unfoldable pub octant_of : Vec3 coord → Vec3 coord → ℕ
  octant_of c p = bit (leb_F c.x p.x) 1 + bit (leb_F c.y p.y) 2 + bit (leb_F c.z p.z) 4

  -- `buckets[idx].push(p)`
  unfoldable pub push_at :
      ℕ → OctreePoint coord → List (List (OctreePoint coord)) → List (List (OctreePoint coord))
  push_at i p [] = []
  push_at zero p (b ∷ buckets) = (b ++ p ∷ []) ∷ buckets
  push_at (suc i) p (b ∷ buckets) = b ∷ push_at i p buckets

  abbrev pub Buckets : Type 0
  Buckets = List (List (OctreePoint coord))

  abbrev pub no_points : Buckets
  no_points = [] ∷ [] ∷ [] ∷ [] ∷ [] ∷ [] ∷ [] ∷ [] ∷ []

  -- The loop over the points, which fills the buckets.
  unfoldable pub distribute : Aabb coord → List (OctreePoint coord) → Buckets → Buckets
  unfolding octant_of push_at
  distribute bounds [] buckets = buckets
  distribute bounds (p ∷ points) buckets =
      distribute bounds points (push_at (octant_of (center coord bounds) p.position) p buckets)

  -- The points that the loop keeps for this level, each `stride`-th one from the index `i` on.
  unfoldable pub every : ℕ → ℕ → List (OctreePoint coord) → List (OctreePoint coord)
  every stride i [] = []
  every stride i (p ∷ points) =
      let rest = every stride (i + 1) points in if i % stride == 0 then p ∷ rest else rest

  -- `8.max(points.len() / max_points_per_node).min(64)`
  unfoldable pub stride_of : ℕ → ℕ → ℕ
  stride_of count max_points = min (max 8 (count / max_points)) 64

  unfoldable pub children_of :
      (Aabb coord → List (OctreePoint coord) → OctreeNode coord)
      → List (Aabb coord)
      → Buckets
      → Children coord
  children_of build [] buckets = nil
  children_of build (o ∷ octants) [] = nil
  children_of build (o ∷ octants) ([] ∷ buckets) = absent (children_of build octants buckets)
  children_of build (o ∷ octants) ((p ∷ points) ∷ buckets) =
      child (build o (p ∷ points)) (children_of build octants buckets)

  -- The three conditions of a leaf.
  unfoldable pub stays_leaf : OctreeConfig coord → ℕ → Aabb coord → List (OctreePoint coord) → Bool
  stays_leaf config depth bounds points =
      leb (length points) config.max_points_per_node
      || leb config.max_depth depth
      || ltb_F (max_extent coord bounds) config.min_extent

  -- `build_node`, with the fuel behind the configuration
  unfoldable pub build_node :
      OctreeConfig coord → ℕ → ℕ → Aabb coord → List (OctreePoint coord) → OctreeNode coord
  unfolding children_of distribute every stride_of
  build_node config zero depth bounds points = leaf bounds points depth
  build_node config (suc levels) depth bounds points =
      if stays_leaf config depth bounds points
      then leaf bounds points depth
      else internal bounds
          (children_of (build_node config levels (depth + 1)) (octants coord bounds)
            (distribute bounds points no_points))
          (every (stride_of (length points) config.max_points_per_node) 0 points) depth

  unfoldable pub expand_all : Aabb coord → List (OctreePoint coord) → Aabb coord
  expand_all b [] = b
  expand_all b (p ∷ points) = expand_all (expand_point coord b p.position) points

  -- `build_octree`
  unfoldable pub build_octree : List (OctreePoint coord) → OctreeConfig coord → OctreeNode coord
  unfolding build_node expand_all
  build_octree points config =
      build_node config config.max_depth 0 (expand_all (empty coord) points) points
