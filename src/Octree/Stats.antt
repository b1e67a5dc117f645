-- ===== src/Octree/Stats.antt =====
-- What `collect_stats` of crates/tiletopia-core/src/octree.rs reports of a tree, against the list
-- of the tree's nodes.
use tiletopia.Prelude.{
  ℕ, ◌+◌, ◌≤◌, max, ◌≡◌, refl, sym, ap, subst, ◌∙◌, Bool, true, false, not, List, [], ◌∷◌, ◌++◌,
  arith, length, length-append,
}
use tiletopia.Octree.Bounds.{Coord, Aabb}
use tiletopia.Octree.Build.{
  OctreePoint, OctreeConfig, OctreeNode, leaf, internal, Children, nil, absent, child, build_octree,
}
use tiletopia.Octree.Counts.{count, count-append}
use tiletopia.Octree.Shape.{Shaped, ShapedAll, build_octree-Shaped}

pub record OctreeStats : Type 0 where
  pub total_nodes : ℕ
  pub leaf_nodes : ℕ
  pub internal_nodes : ℕ
  pub max_depth : ℕ
  pub total_points : ℕ

-- `OctreeNode::depth` and `OctreeNode::bounds`
unfoldable pub node_depth : (coord : Coord) → OctreeNode coord → ℕ
node_depth coord (leaf bounds points depth) = depth
node_depth coord (internal bounds children lod_points depth) = depth

unfoldable pub node_bounds : (coord : Coord) → OctreeNode coord → Aabb coord
node_bounds coord (leaf bounds points depth) = bounds
node_bounds coord (internal bounds children lod_points depth) = bounds

unfoldable mutual
  -- `OctreeNode::point_count`
  pub point_count : (coord : Coord) → OctreeNode coord → ℕ
  point_count coord (leaf bounds points depth) = length points
  point_count coord (internal bounds children lod_points depth) =
      length lod_points + children_point_count coord children

  pub children_point_count : (coord : Coord) → Children coord → ℕ
  children_point_count coord nil = 0
  children_point_count coord (absent children) = children_point_count coord children
  children_point_count coord (child node children) =
      point_count coord node + children_point_count coord children

unfoldable mutual
  -- `collect_stats_recursive`, which adds a node to the statistics
  pub collect_stats_recursive : (coord : Coord) → OctreeNode coord → OctreeStats → OctreeStats
  collect_stats_recursive coord (leaf bounds points depth) stats = record {
    total_nodes = stats.total_nodes + 1;
    leaf_nodes = stats.leaf_nodes + 1;
    internal_nodes = stats.internal_nodes;
    max_depth = max stats.max_depth depth;
    total_points = stats.total_points + length points;
  }
  collect_stats_recursive coord (internal bounds children lod_points depth) stats =
      collect_stats_children coord children record {
        total_nodes = stats.total_nodes + 1;
        leaf_nodes = stats.leaf_nodes;
        internal_nodes = stats.internal_nodes + 1;
        max_depth = max stats.max_depth depth;
        total_points = stats.total_points + length lod_points;
      }

  pub collect_stats_children : (coord : Coord) → Children coord → OctreeStats → OctreeStats
  collect_stats_children coord nil stats = stats
  collect_stats_children coord (absent children) stats = collect_stats_children coord children stats
  collect_stats_children coord (child node children) stats =
      collect_stats_children coord children (collect_stats_recursive coord node stats)

-- `collect_stats`
unfoldable pub collect_stats : (coord : Coord) → OctreeNode coord → OctreeStats
unfolding collect_stats_recursive
collect_stats coord node =
    collect_stats_recursive coord node record {
      total_nodes = 0;
      leaf_nodes = 0;
      internal_nodes = 0;
      max_depth = 0;
      total_points = 0;
    }

-- The nodes of a tree, each parent before its children.
unfoldable mutual
  pub nodes_of : (coord : Coord) → OctreeNode coord → List (OctreeNode coord)
  nodes_of coord (leaf bounds points depth) = leaf bounds points depth ∷ []
  nodes_of coord (internal bounds children lod_points depth) =
      internal bounds children lod_points depth ∷ nodes_below coord children

  pub nodes_below : (coord : Coord) → Children coord → List (OctreeNode coord)
  nodes_below coord nil = []
  nodes_below coord (absent children) = nodes_below coord children
  nodes_below coord (child node children) = nodes_of coord node ++ nodes_below coord children

abbrev pub is_leaf : {coord : Coord} → OctreeNode coord → Bool
is_leaf (leaf bounds points depth) = true
is_leaf (internal bounds children lod_points depth) = false

-- The greatest depth of the nodes of a list, and at least that which is given.
abbrev pub deepest : (coord : Coord) → ℕ → List (OctreeNode coord) → ℕ
deepest coord d [] = d
deepest coord d (node ∷ nodes) = deepest coord (max d (node_depth coord node)) nodes

-- The points that the nodes of a list hold themselves.
abbrev own_points : {coord : Coord} → OctreeNode coord → ℕ
own_points (leaf bounds points depth) = length points
own_points (internal bounds children lod_points depth) = length lod_points

abbrev pub all_points : (coord : Coord) → List (OctreeNode coord) → ℕ
all_points coord [] = 0
all_points coord (node ∷ nodes) = own_points node + all_points coord nodes

-- The statistics, given those so far, of the nodes of a list.
abbrev pub stats_of : (coord : Coord) → List (OctreeNode coord) → OctreeStats → OctreeStats
stats_of coord nodes stats = record {
  total_nodes = stats.total_nodes + length nodes;
  leaf_nodes = stats.leaf_nodes + count is_leaf nodes;
  internal_nodes = stats.internal_nodes + count (λ node. not (is_leaf node)) nodes;
  max_depth = deepest coord stats.max_depth nodes;
  total_points = stats.total_points + all_points coord nodes;
}

stats_equal :
    (a b : OctreeStats)
    → a.total_nodes ≡ b.total_nodes
    → a.leaf_nodes ≡ b.leaf_nodes
    → a.internal_nodes ≡ b.internal_nodes
    → a.max_depth ≡ b.max_depth
    → a.total_points ≡ b.total_points
    → a ≡ b
stats_equal a b n l m d p = λ i. record {
  total_nodes = n i;
  leaf_nodes = l i;
  internal_nodes = m i;
  max_depth = d i;
  total_points = p i;
}

module _ (coord : Coord) where
  deepest-append :
      (d : ℕ) (xs ys : List (OctreeNode coord))
      → deepest coord d (xs ++ ys) ≡ deepest coord (deepest coord d xs) ys
  deepest-append d [] ys = refl
  deepest-append d (x ∷ xs) ys = deepest-append (max d (node_depth coord x)) xs ys

  all_points-append :
      (xs ys : List (OctreeNode coord))
      → all_points coord (xs ++ ys) ≡ all_points coord xs + all_points coord ys
  all_points-append [] ys = omega arith
  all_points-append (x ∷ xs) ys = omega (arith, all_points-append xs ys)

  stats_of-append :
      (xs ys : List (OctreeNode coord)) (stats : OctreeStats)
      → stats_of coord (xs ++ ys) stats ≡ stats_of coord ys (stats_of coord xs stats)
  stats_of-append xs ys stats =
      stats_equal _ _ (omega (arith, length-append xs ys))
        (omega (arith, count-append is_leaf xs ys))
        (omega (arith, count-append (λ node. not (is_leaf node)) xs ys))
        (deepest-append stats.max_depth xs ys) (omega (arith, all_points-append xs ys))

  mutual
    unfolding collect_stats_recursive nodes_of count node_depth

    collect_stats_recursive-stats_of :
        (node : OctreeNode coord) (stats : OctreeStats)
        → collect_stats_recursive coord node stats ≡ stats_of coord (nodes_of coord node) stats
    collect_stats_recursive-stats_of (leaf bounds points depth) stats =
        stats_equal _ _ (omega arith) (omega arith) (omega arith) refl (omega arith)
    collect_stats_recursive-stats_of (internal bounds children lod_points depth) stats =
        collect_stats_children-stats_of children _
        ∙ stats_equal _ _ (omega arith) (omega arith) (omega arith) refl (omega arith)

    collect_stats_children-stats_of :
        (children : Children coord) (stats : OctreeStats)
        → collect_stats_children coord children stats
          ≡ stats_of coord (nodes_below coord children) stats
    collect_stats_children-stats_of nil stats =
        stats_equal _ _ (omega arith) (omega arith) (omega arith) refl (omega arith)
    collect_stats_children-stats_of (absent children) stats =
        collect_stats_children-stats_of children stats
    collect_stats_children-stats_of (child node children) stats =
        rw
          (
            collect_stats_recursive-stats_of node stats,
            collect_stats_children-stats_of children (stats_of coord (nodes_of coord node) stats),
            stats_of-append (nodes_of coord node) (nodes_below coord children) stats,
          )
          refl

  mutual
    unfolding nodes_of Shaped node_depth

    nodes_of-within :
        (config : OctreeConfig coord) (at d : ℕ) (node : OctreeNode coord)
        → Shaped coord config at node
        → d ≤ config.max_depth
        → deepest coord d (nodes_of coord node) ≤ config.max_depth
    nodes_of-within config at d (leaf bounds points depth) h within = omega arith
    nodes_of-within config at d (internal bounds children lod_points depth) h within =
        nodes_below-within config (at + 1) (max d depth) children h.4 (omega arith)

    nodes_below-within :
        (config : OctreeConfig coord) (at d : ℕ) (children : Children coord)
        → ShapedAll coord config at children
        → d ≤ config.max_depth
        → deepest coord d (nodes_below coord children) ≤ config.max_depth
    nodes_below-within config at d nil h within = within
    nodes_below-within config at d (absent children) h within =
        nodes_below-within config at d children h within
    nodes_below-within config at d (child node children) h within =
        rw (deepest-append d (nodes_of coord node) (nodes_below coord children)) (
          nodes_below-within config at (deepest coord d (nodes_of coord node)) children h.1
            (nodes_of-within config at d node h.0 within))

  -- What collect_stats reports of the tree of build_octree: the number of its nodes, of its leaves
  -- and of its internal nodes, the greatest depth of a node, which is at most max_depth, and the
  -- number of all points that the nodes hold.
  pub collect_stats-build_octree :
      (points : List (OctreePoint coord)) (config : OctreeConfig coord)
      → let node = build_octree coord points config in
        let stats = collect_stats coord node in
        (stats.total_nodes ≡ length (nodes_of coord node))
        × (stats.leaf_nodes ≡ count is_leaf (nodes_of coord node))
        × (stats.internal_nodes ≡ count (λ n. not (is_leaf n)) (nodes_of coord node))
        × (stats.max_depth ≡ deepest coord 0 (nodes_of coord node))
        × (stats.max_depth ≤ config.max_depth)
        × (stats.total_points ≡ all_points coord (nodes_of coord node))
  unfolding collect_stats
  collect_stats-build_octree points config =
      let node = build_octree coord points config in
      let nodes = nodes_of coord node in
      let no_stats : OctreeStats = record {
        total_nodes = 0;
        leaf_nodes = 0;
        internal_nodes = 0;
        max_depth = 0;
        total_points = 0;
      } in
      let same : collect_stats coord node ≡ stats_of coord nodes no_stats =
        collect_stats_recursive-stats_of node no_stats in
      let within =
        nodes_of-within config 0 0 node (build_octree-Shaped coord points config) (omega arith) in
      (
        ap (λ s. s.total_nodes) same ∙ omega arith,
        ap (λ s. s.leaf_nodes) same ∙ omega arith,
        ap (λ s. s.internal_nodes) same ∙ omega arith,
        ap (λ s. s.max_depth) same,
        subst (λ d. d ≤ config.max_depth) (sym (ap (λ s. s.max_depth) same)) within,
        ap (λ s. s.total_points) same ∙ omega arith,
      )
