-- ===== src/Octree/Contains.antt =====
-- Every point that the tiler of crates/tiletopia-core/src/octree.rs puts into a node lies in the
-- node's box.
use mathlib.Core.Option.{some-injective}
use tiletopia.Prelude.{
  ℕ, zero, suc, ◌+◌, ◌%◌, ◌≡◌, inl, inr, true, some, List, [], ◌∷◌, arith, ◌==◌, if◌then◌else◌,
  Bool-cases, get_elem?, All, All-append,
}
use tiletopia.Octree.Bounds.{
  Coord, Vec3, Aabb, empty, expand_point, center, octants, contains_point,
}
use tiletopia.Octree.Build.{
  OctreePoint, OctreeConfig, OctreeNode, leaf, internal, Children, nil, absent, child, octant_of,
  push_at, Buckets, no_points, distribute, every, children_of, stays_leaf, build_node, expand_all,
  build_octree,
}

module _ (coord : Coord) where
  open coord use {
    leb_F, leb_total, leb_trans, leb_refl, min_F, max_F, min_left, min_right, max_left, max_right,
  }

  abbrev pub Inside : Aabb coord → OctreePoint coord → Type 0
  Inside b p = contains_point coord b p.position ≡ true

unfoldable mutual
  -- The points of every leaf, and those kept for every level, lie in the box of their node.
  pub Fits : (coord : Coord) → OctreeNode coord → Type 0
  Fits coord (leaf bounds points depth) = All (Inside coord bounds) points
  Fits coord (internal bounds children lod_points depth) =
      All (Inside coord bounds) lod_points × FitsAll coord children

  pub FitsAll : (coord : Coord) → Children coord → Type 0
  FitsAll coord nil = Unit
  FitsAll coord (absent children) = FitsAll coord children
  FitsAll coord (child node children) = Fits coord node × FitsAll coord children

module _ (coord : Coord) where
  open coord use {
    leb_F, leb_total, leb_trans, leb_refl, min_F, max_F, min_left, min_right, max_left, max_right,
  }

  abbrev BucketsFit : List (Aabb coord) → Buckets coord → Type 0
  BucketsFit [] buckets = Unit
  BucketsFit (o ∷ octants) [] = Unit
  BucketsFit (o ∷ octants) (b ∷ buckets) = All (Inside coord o) b × BucketsFit octants buckets

  -- The box that the three comparisons of a point with the center name.
  abbrev octant_box : Aabb coord → Vec3 coord → Vec3 coord → Aabb coord
  octant_box b c p = record {
    low = record {
      x = if leb_F c.x p.x then c.x else b.low.x;
      y = if leb_F c.y p.y then c.y else b.low.y;
      z = if leb_F c.z p.z then c.z else b.low.z;
    };
    high = record {
      x = if leb_F c.x p.x then b.high.x else c.x;
      y = if leb_F c.y p.y then b.high.y else c.y;
      z = if leb_F c.z p.z then b.high.z else c.z;
    };
  }

  octants-octant_of :
      (b : Aabb coord) (p : Vec3 coord)
      → get_elem? (octants coord b) (octant_of coord (center coord b) p)
        ≡ some (octant_box b (center coord b) p)
  unfolding octants octant_of
  octants-octant_of b p = ground arith

  octant_box-Inside :
      (b : Aabb coord) (c : Vec3 coord) (p : OctreePoint coord)
      → Inside coord b p
      → Inside coord (octant_box b c p.position) p
  unfolding contains_point
  octant_box-Inside b c p h =
      ground
        (arith, leb_total c.x p.position.x, leb_total c.y p.position.y, leb_total c.z p.position.z)

  push_at-BucketsFit :
      (os : List (Aabb coord)) (bs : Buckets coord) (i : ℕ) (o : Aabb coord) (p : OctreePoint coord)
      → get_elem? os i ≡ some o
      → Inside coord o p
      → BucketsFit os bs
      → BucketsFit os (push_at coord i p bs)
  unfolding push_at
  push_at-BucketsFit [] bs i o p e h f = tt
  push_at-BucketsFit (q ∷ os) [] i o p e h f = tt
  push_at-BucketsFit (q ∷ os) (b ∷ bs) zero o p e h f =
      (All-append (Inside coord q) b (p ∷ []) f.0 (rw (some-injective _ _ e) h, tt), f.1)
  push_at-BucketsFit (q ∷ os) (b ∷ bs) (suc i) o p e h f =
      (f.0, push_at-BucketsFit os bs i o p e h f.1)

  distribute-BucketsFit :
      (bounds : Aabb coord) (points : List (OctreePoint coord)) (bs : Buckets coord)
      → All (Inside coord bounds) points
      → BucketsFit (octants coord bounds) bs
      → BucketsFit (octants coord bounds) (distribute coord bounds points bs)
  unfolding distribute
  distribute-BucketsFit bounds [] bs h f = f
  distribute-BucketsFit bounds (p ∷ points) bs h f = distribute-BucketsFit bounds points _ h.1 (
      push_at-BucketsFit _ bs _ _ p (octants-octant_of bounds p.position)
        (octant_box-Inside bounds (center coord bounds) p h.0) f)

  no_points-BucketsFit : (bounds : Aabb coord) → BucketsFit (octants coord bounds) (no_points coord)
  unfolding octants
  no_points-BucketsFit bounds = (tt, (tt, (tt, (tt, (tt, (tt, (tt, (tt, tt))))))))

  All-every :
      (P : OctreePoint coord → Type 0) (stride i : ℕ) (points : List (OctreePoint coord))
      → All P points
      → All P (every coord stride i points)
  unfolding every
  All-every P stride i [] h = tt
  All-every P stride i (p ∷ points) h = elim (Bool-cases (i % stride == 0)) [
    | inl e ↦ rw e (h.0, All-every P stride (i + 1) points h.1)
    | inr e ↦ rw e (All-every P stride (i + 1) points h.1)
  ]

  children_of-FitsAll :
      (build : Aabb coord → List (OctreePoint coord) → OctreeNode coord)
      → ((b : Aabb coord) (points : List (OctreePoint coord))
          → All (Inside coord b) points
          → Fits coord (build b points))
      → (os : List (Aabb coord)) (bs : Buckets coord) → BucketsFit os bs
      → FitsAll coord (children_of coord build os bs)
  unfolding children_of Fits
  children_of-FitsAll build keep [] bs f = tt
  children_of-FitsAll build keep (o ∷ os) [] f = tt
  children_of-FitsAll build keep (o ∷ os) ([] ∷ bs) f = children_of-FitsAll build keep os bs f.1
  children_of-FitsAll build keep (o ∷ os) ((p ∷ points) ∷ bs) f =
      (keep o (p ∷ points) f.0, children_of-FitsAll build keep os bs f.1)

  build_node-Fits :
      (config : OctreeConfig coord) (levels depth : ℕ) (bounds : Aabb coord)
      (points : List (OctreePoint coord))
      → All (Inside coord bounds) points
      → Fits coord (build_node coord config levels depth bounds points)
  unfolding build_node Fits
  build_node-Fits config zero depth bounds points h = h
  build_node-Fits config (suc levels) depth bounds points h =
      elim (Bool-cases (stays_leaf coord config depth bounds points)) [
        | inl e ↦ rw e h
        | inr e ↦ rw e (
          All-every (Inside coord bounds) _ 0 points h,
          children_of-FitsAll _ (build_node-Fits config levels (depth + 1)) _ _ (
              distribute-BucketsFit bounds points (no_points coord) h
                (no_points-BucketsFit bounds)),
        )
      ]

  below : (a q p : coord.F) → leb_F a p ≡ true → leb_F (min_F a q) p ≡ true
  below a q p h = leb_trans (min_F a q) a p (min_left a q) h

  above : (a q p : coord.F) → leb_F p a ≡ true → leb_F p (max_F a q) ≡ true
  above a q p h = leb_trans p a (max_F a q) h (max_left a q)

  -- Expansion keeps the points that a box holds, and takes the new one in.
  expand_point-Inside :
      (b : Aabb coord) (p q : OctreePoint coord)
      → Inside coord b p
      → Inside coord (expand_point coord b q.position) p
  unfolding expand_point contains_point
  expand_point-Inside b p q h = ground (
    arith,
    below b.low.x q.position.x p.position.x,
    below b.low.y q.position.y p.position.y,
    below b.low.z q.position.z p.position.z,
    above b.high.x q.position.x p.position.x,
    above b.high.y q.position.y p.position.y,
    above b.high.z q.position.z p.position.z,
  )

  expand_point-takes :
      (b : Aabb coord) (p : OctreePoint coord) → Inside coord (expand_point coord b p.position) p
  unfolding expand_point contains_point
  expand_point-takes b p =
      let q = p.position in
      ground (
        arith,
        min_right b.low.x q.x,
        min_right b.low.y q.y,
        min_right b.low.z q.z,
        max_right b.high.x q.x,
        max_right b.high.y q.y,
        max_right b.high.z q.z,
      )

  -- The box that `build_octree` makes holds all the points.
  expand_all-Inside :
      (b : Aabb coord) (p : OctreePoint coord) (points : List (OctreePoint coord))
      → Inside coord b p
      → Inside coord (expand_all coord b points) p
  unfolding expand_all
  expand_all-Inside b p [] h = h
  expand_all-Inside b p (q ∷ points) h =
      expand_all-Inside (expand_point coord b q.position) p points (expand_point-Inside b p q h)

  expand_all-All :
      (points : List (OctreePoint coord)) (b : Aabb coord)
      → All (Inside coord (expand_all coord b points)) points
  unfolding expand_all
  expand_all-All [] b = tt
  expand_all-All (p ∷ points) b = (
    expand_all-Inside (expand_point coord b p.position) p points (expand_point-takes b p),
    expand_all-All points _,
  )

  -- Every point of every leaf, and every point that an internal node keeps for its level, lies
  -- in the box of its node, in the tree that build_octree makes of any points.
  pub build_octree-Fits :
      (points : List (OctreePoint coord)) (config : OctreeConfig coord)
      → Fits coord (build_octree coord points config)
  unfolding build_octree
  build_octree-Fits points config =
      build_node-Fits config _ 0 _ points (expand_all-All points (empty coord))
