-- ===== src/Octree/Shape.antt =====
-- The shape of the tree of crates/tiletopia-core/src/octree.rs: where a node is a leaf, how deep
-- the tree is, and that the fuel of `build_node` is enough.
use tiletopia.Prelude.{
  ℕ, zero, suc, ◌+◌, ◌≤◌, ◌<◌, ◌≡◌, refl, sym, subst, ◌∙◌, ◌⊎◌, inl, inr, true, false, List, [],
  ◌∷◌, arith, leb, Bool-cases, length,
}
use tiletopia.Octree.Bounds.{Coord, Aabb, max_extent, octants}
use tiletopia.Octree.Build.{
  OctreePoint, OctreeConfig, OctreeNode, leaf, internal, Children, nil, absent, child, Buckets,
  no_points, distribute, children_of, stays_leaf, build_node, build_octree,
}
use tiletopia.Octree.Counts.{count, in_leaves, build_node-counted}

-- The points that the leaves of a tree hold together.
abbrev pub points_below : (coord : Coord) → OctreeNode coord → ℕ
points_below coord node = in_leaves coord (λ p. true) node

-- A leaf that has few enough points, stands at the deepest level, or is too small to split.
abbrev pub Ends : (coord : Coord) → OctreeConfig coord → Aabb coord → ℕ → ℕ → Type 0
Ends coord config bounds many depth =
    (many ≤ config.max_points_per_node)
    ⊎ ((depth ≡ config.max_depth)
        ⊎ (coord.ltb_F (max_extent coord bounds) config.min_extent ≡ true))

unfoldable mutual
  -- A leaf at this level that ends there; or an internal node at this level, above the deepest one,
  -- with too many points below it and large enough to split, whose children stand one level below.
  pub Shaped : (coord : Coord) → OctreeConfig coord → ℕ → OctreeNode coord → Type 0
  Shaped coord config at (leaf bounds points depth) =
      (depth ≡ at) × (depth ≤ config.max_depth) × Ends coord config bounds (length points) depth
  Shaped coord config at (internal bounds children lod_points depth) =
      (depth ≡ at)
      × (depth < config.max_depth)
      × (config.max_points_per_node
          < points_below coord (internal bounds children lod_points depth))
      × (coord.ltb_F (max_extent coord bounds) config.min_extent ≡ false)
      × ShapedAll coord config (at + 1) children

  pub ShapedAll : (coord : Coord) → OctreeConfig coord → ℕ → Children coord → Type 0
  ShapedAll coord config at nil = Unit
  ShapedAll coord config at (absent children) = ShapedAll coord config at children
  ShapedAll coord config at (child node children) =
      Shaped coord config at node × ShapedAll coord config at children

module _ (coord : Coord) where
  count-all : (points : List (OctreePoint coord)) → count (λ p. true) points ≡ length points
  unfolding count
  count-all [] = refl
  count-all (p ∷ points) = omega (arith, count-all points)

  -- Where the code goes on, each of its three conditions of a leaf fails.
  splits_lem :
      (config : OctreeConfig coord) (depth : ℕ) (bounds : Aabb coord)
      (points : List (OctreePoint coord))
      → stays_leaf coord config depth bounds points ≡ false
      → (config.max_points_per_node < length points)
        × (coord.ltb_F (max_extent coord bounds) config.min_extent ≡ false)
  unfolding stays_leaf
  splits_lem config depth bounds points h = (ground arith, ground arith)

  ends_lem :
      (config : OctreeConfig coord) (depth : ℕ) (bounds : Aabb coord)
      (points : List (OctreePoint coord))
      → stays_leaf coord config depth bounds points ≡ true
      → depth ≤ config.max_depth
      → Ends coord config bounds (length points) depth
  unfolding stays_leaf
  ends_lem config depth bounds points h within =
      elim (Bool-cases (leb (length points) config.max_points_per_node)) [
        | inl few ↦ inl (ground arith)
        | inr many ↦ elim (Bool-cases (leb config.max_depth depth)) [
          | inl deep ↦ inr (inl (ground arith))
          | inr above ↦ inr (inr (rw (many, above) at h))
        ]
      ]

  children_of-ShapedAll :
      (config : OctreeConfig coord) (at : ℕ)
      (build : Aabb coord → List (OctreePoint coord) → OctreeNode coord)
      → ((b : Aabb coord) (points : List (OctreePoint coord))
          → Shaped coord config at (build b points))
      → (os : List (Aabb coord)) (bs : Buckets coord)
      → ShapedAll coord config at (children_of coord build os bs)
  unfolding children_of Shaped
  children_of-ShapedAll config at build keep [] bs = tt
  children_of-ShapedAll config at build keep (o ∷ os) [] = tt
  children_of-ShapedAll config at build keep (o ∷ os) ([] ∷ bs) =
      children_of-ShapedAll config at build keep os bs
  children_of-ShapedAll config at build keep (o ∷ os) ((p ∷ points) ∷ bs) =
      (keep o (p ∷ points), children_of-ShapedAll config at build keep os bs)

  build_node-Shaped :
      (config : OctreeConfig coord) (levels depth : ℕ) (bounds : Aabb coord)
      (points : List (OctreePoint coord))
      → depth + levels ≡ config.max_depth
      → Shaped coord config depth (build_node coord config levels depth bounds points)
  unfolding build_node Shaped
  build_node-Shaped config zero depth bounds points h = (refl, omega arith, inr (inl (omega arith)))
  build_node-Shaped config (suc levels) depth bounds points h =
      elim (Bool-cases (stays_leaf coord config depth bounds points)) [
        | inl e ↦ rw e (refl, omega arith, ends_lem config depth bounds points e (omega arith))
        | inr e ↦
            let (many, large) = splits_lem config depth bounds points e in
            let below =
              build_node-counted coord (λ p. true) config (suc levels) depth bounds points
              ∙ count-all points in
            rw e (
              refl,
              omega arith,
              subst (λ n. config.max_points_per_node < n) (sym (rw e at below)) many,
              large,
              children_of-ShapedAll config (depth + 1) _
                  (λ b ps. build_node-Shaped config levels (depth + 1) b ps (omega arith))
                  (octants coord bounds) (distribute coord bounds points (no_points coord)),
            )
      ]

  pub build_octree-Shaped :
      (points : List (OctreePoint coord)) (config : OctreeConfig coord)
      → Shaped coord config 0 (build_octree coord points config)
  unfolding build_octree
  build_octree-Shaped points config =
      build_node-Shaped config config.max_depth 0 _ points (omega arith)

  children_of-same :
      (build built : Aabb coord → List (OctreePoint coord) → OctreeNode coord)
      → ((b : Aabb coord) (points : List (OctreePoint coord)) → build b points ≡ built b points)
      → (os : List (Aabb coord)) (bs : Buckets coord)
      → children_of coord build os bs ≡ children_of coord built os bs
  unfolding children_of
  children_of-same build built same [] bs = refl
  children_of-same build built same (o ∷ os) [] = refl
  children_of-same build built same (o ∷ os) ([] ∷ bs) =
      rw (children_of-same build built same os bs) refl
  children_of-same build built same (o ∷ os) ((p ∷ points) ∷ bs) =
      rw (children_of-same build built same os bs, same o (p ∷ points)) refl

  deepest_lem :
      (config : OctreeConfig coord) (depth : ℕ) (bounds : Aabb coord)
      (points : List (OctreePoint coord))
      → config.max_depth ≤ depth
      → stays_leaf coord config depth bounds points ≡ true
  unfolding stays_leaf
  deepest_lem config depth bounds points h = ground arith

  -- Fuel that reaches the deepest level is enough: with any more levels build_node makes the same
  -- tree.
  pub build_node_enough :
      (config : OctreeConfig coord) (levels more depth : ℕ) (bounds : Aabb coord)
      (points : List (OctreePoint coord))
      → config.max_depth ≤ depth + levels
      → levels ≤ more
      → build_node coord config more depth bounds points
        ≡ build_node coord config levels depth bounds points
  unfolding build_node
  build_node_enough config zero zero depth bounds points h le = refl
  build_node_enough config zero (suc more) depth bounds points h le =
      rw (deepest_lem config depth bounds points (omega arith)) refl
  build_node_enough config (suc levels) zero depth bounds points h le = ground arith
  build_node_enough config (suc levels) (suc more) depth bounds points h le =
      rw
        (children_of-same (build_node coord config more (depth + 1))
          (build_node coord config levels (depth + 1))
          (λ b ps.
            build_node_enough config levels more (depth + 1) b ps (omega arith) (omega arith))
          (octants coord bounds) (distribute coord bounds points (no_points coord)))
        refl
