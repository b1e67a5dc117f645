-- ===== src/Octree/Counts.antt =====
-- No point is lost by the tiler of crates/tiletopia-core/src/octree.rs: the leaves together hold
-- each input point as often as the input does.
use tiletopia.Prelude.{
  ℕ, zero, suc, ◌+◌, ◌<◌, ◌≡◌, refl, sym, ap, ◌∙◌, inl, inr, Bool, List, [], ◌∷◌, ◌++◌, arith,
  if◌then◌else◌, Bool-cases, length,
}
use tiletopia.Octree.Bounds.{Coord, Vec3, Aabb, center, octants}
use tiletopia.Octree.Build.{
  OctreePoint, OctreeConfig, OctreeNode, leaf, internal, Children, nil, absent, child, octant_of,
  push_at, Buckets, no_points, distribute, children_of, stays_leaf, build_node, build_octree,
}

unfoldable pub count {ℓ} : {A : Type ℓ} → (A → Bool) → List A → ℕ
count test [] = 0
count test (x ∷ xs) = (if test x then 1 else 0) + count test xs

pub count-append {ℓ} :
    {A : Type ℓ} (test : A → Bool) (xs ys : List A)
    → count test (xs ++ ys) ≡ count test xs + count test ys
unfolding count
count-append test [] ys = omega arith
count-append test (x ∷ xs) ys = rw (count-append test xs ys) omega arith

unfoldable mutual
  -- How many points of the leaves pass a test.
  pub in_leaves : (coord : Coord) → (OctreePoint coord → Bool) → OctreeNode coord → ℕ
  in_leaves coord test (leaf bounds points depth) = count test points
  in_leaves coord test (internal bounds children lod_points depth) = in_children coord test children

  pub in_children : (coord : Coord) → (OctreePoint coord → Bool) → Children coord → ℕ
  in_children coord test nil = 0
  in_children coord test (absent children) = in_children coord test children
  in_children coord test (child node children) =
      in_leaves coord test node + in_children coord test children

module _ (coord : Coord) (test : OctreePoint coord → Bool) where
  abbrev in_buckets : Buckets coord → ℕ
  in_buckets [] = 0
  in_buckets (b ∷ bs) = count test b + in_buckets bs

  octant_of_bound : (c p : Vec3 coord) → octant_of coord c p < 8
  unfolding octant_of
  octant_of_bound c p = ground arith

  push_at-counted :
      (i : ℕ) (p : OctreePoint coord) (bs : Buckets coord)
      → i < length bs
      → in_buckets (push_at coord i p bs) ≡ in_buckets bs + (if test p then 1 else 0)
  unfolding push_at count
  push_at-counted i p [] h = omega arith
  push_at-counted zero p (b ∷ bs) h = rw (count-append test b (p ∷ [])) omega arith
  push_at-counted (suc i) p (b ∷ bs) h = rw (push_at-counted i p bs (omega arith)) omega arith

  length-push_at :
      (i : ℕ) (p : OctreePoint coord) (bs : Buckets coord)
      → length (push_at coord i p bs) ≡ length bs
  unfolding push_at
  length-push_at i p [] = refl
  length-push_at zero p (b ∷ bs) = refl
  length-push_at (suc i) p (b ∷ bs) = ap suc (length-push_at i p bs)

  length-distribute :
      (bounds : Aabb coord) (points : List (OctreePoint coord)) (bs : Buckets coord)
      → length (distribute coord bounds points bs) ≡ length bs
  unfolding distribute
  length-distribute bounds [] bs = refl
  length-distribute bounds (p ∷ points) bs =
      length-distribute bounds points
        (push_at coord (octant_of coord (center coord bounds) p.position) p bs)
      ∙ length-push_at _ p bs

  distribute-counted :
      (bounds : Aabb coord) (points : List (OctreePoint coord)) (bs : Buckets coord)
      → length bs ≡ 8
      → in_buckets (distribute coord bounds points bs) ≡ in_buckets bs + count test points
  unfolding distribute count
  distribute-counted bounds [] bs h = omega arith
  distribute-counted bounds (p ∷ points) bs h =
      let i = octant_of coord (center coord bounds) p.position in
      let bound = octant_of_bound (center coord bounds) p.position in
      let rest =
        distribute-counted bounds points (push_at coord i p bs) (length-push_at i p bs ∙ h) in
      let one = push_at-counted i p bs (omega arith) in omega arith

  children_of-counted :
      (build : Aabb coord → List (OctreePoint coord) → OctreeNode coord)
      → ((b : Aabb coord) (points : List (OctreePoint coord))
          → in_leaves coord test (build b points) ≡ count test points)
      → (os : List (Aabb coord)) (bs : Buckets coord) → length os ≡ length bs
      → in_children coord test (children_of coord build os bs) ≡ in_buckets bs
  unfolding children_of in_leaves count
  children_of-counted build keep [] [] h = refl
  children_of-counted build keep [] (b ∷ bs) h = omega arith
  children_of-counted build keep (o ∷ os) [] h = omega arith
  children_of-counted build keep (o ∷ os) ([] ∷ bs) h =
      let rest = children_of-counted build keep os bs (omega arith) in omega arith
  children_of-counted build keep (o ∷ os) ((p ∷ points) ∷ bs) h =
      rw (keep o (p ∷ points), children_of-counted build keep os bs (omega arith)) refl

  pub length-octants : (b : Aabb coord) → length (octants coord b) ≡ 8
  unfolding octants
  length-octants b = refl

  pub build_node-counted :
      (config : OctreeConfig coord) (levels depth : ℕ) (bounds : Aabb coord)
      (points : List (OctreePoint coord))
      → in_leaves coord test (build_node coord config levels depth bounds points)
        ≡ count test points
  unfolding build_node in_leaves count
  build_node-counted config zero depth bounds points = refl
  build_node-counted config (suc levels) depth bounds points =
      elim (Bool-cases (stays_leaf coord config depth bounds points)) [
        | inl e ↦ rw e refl
        | inr e ↦ rw e (
            let counted = distribute-counted bounds points (no_points coord) refl in
            children_of-counted (λ b ps. build_node coord config levels (depth + 1) b ps)
              (build_node-counted config levels (depth + 1)) _ _
              (length-octants bounds ∙ sym (length-distribute bounds points (no_points coord)))
            ∙ omega arith)
      ]

  -- The leaves of the tree that build_octree makes hold, together, as many points that pass a test
  -- as the input has, whatever the test: no point is lost and none comes twice into the leaves.
  pub build_octree-counted :
      (points : List (OctreePoint coord)) (config : OctreeConfig coord)
      → in_leaves coord test (build_octree coord points config) ≡ count test points
  unfolding build_octree
  build_octree-counted points config = build_node-counted config _ 0 _ points
