-- ===== src/Octree/Names.antt =====
-- The names that `write_node_tiles` of crates/tiletopia-core/src/tile.rs gives to the files it
-- writes.
use tiletopia.Prelude.{
  ℕ, zero, suc, ◌+◌, ◌≤◌, ◌<◌, ◌≡◌, refl, sym, ap, ◌∙◌, ◌≢◌, append_assoc, append-nil, inl, inr,
  Bool-cases, true, List, [], ◌∷◌, ◌++◌, arith, length, All, All-append,
}
use tiletopia.Prelude.Res.{Res, ok}
use tiletopia.Octree.Bounds.{Coord, Aabb, octants}
use tiletopia.Octree.Build.{
  OctreePoint, OctreeConfig, OctreeNode, leaf, internal, Children, nil, absent, child, Buckets,
  no_points, distribute, children_of, stays_leaf, build_node, build_octree,
}
use tiletopia.Octree.Counts.{length-octants}
use tiletopia.Octree.TileNames
use tiletopia.Octree.TileNames.{pnts}
use tiletopia.Octree.Spelling.{Octants, to_filename_injective, same_step, longer}
use tiletopia.Octree.Tiles.{NodePath, Written, write_file, write_node_tiles, write_child_tiles}

-- Files of which no two have the same name.
abbrev pub Distinct : (coord : Coord) → Written coord → Type 0
Distinct coord [] = Unit
Distinct coord (file ∷ files) = All (λ other. file.0 ≢ other.0) files × Distinct coord files

Distinct-append :
    (coord : Coord) (xs ys : Written coord)
    → Distinct coord xs
    → Distinct coord ys
    → All (λ x. All (λ y. x.0 ≢ y.0) ys) xs
    → Distinct coord (xs ++ ys)
Distinct-append coord [] ys a b h = b
Distinct-append coord (x ∷ xs) ys a b h =
    (All-append _ xs ys a.0 h.0, Distinct-append coord xs ys a.1 b h.1)

unfoldable mutual
  -- A tree whose nodes have at most eight slots for children.
  HasOctants : (coord : Coord) → OctreeNode coord → Type 0
  HasOctants coord (leaf bounds points depth) = Unit
  HasOctants coord (internal bounds children lod_points depth) = HasOctantsFrom coord 0 children

  HasOctantsFrom : (coord : Coord) → ℕ → Children coord → Type 0
  HasOctantsFrom coord i nil = Unit
  HasOctantsFrom coord i (absent children) = (i < 8) × HasOctantsFrom coord (i + 1) children
  HasOctantsFrom coord i (child node children) =
      (i < 8) × HasOctants coord node × HasOctantsFrom coord (i + 1) children

-- A file whose name is that of a path that goes on from this one.
abbrev Under : (coord : Coord) → NodePath → List ℕ × List (OctreePoint coord) → Type 0
Under coord path file =
    (rest : NodePath) × (file.0 ≡ TileNames.to_filename (path ++ rest) pnts) × Octants rest

-- The same, where the path goes on into a slot from `i` on.
abbrev UnderFrom : (coord : Coord) → NodePath → ℕ → List ℕ × List (OctreePoint coord) → Type 0
UnderFrom coord path i file =
    (j : ℕ) × (rest : NodePath) × (i ≤ j)
    × (j < 8)
    × (file.0 ≡ TileNames.to_filename (path ++ (j ∷ rest)) pnts)
    × Octants rest

All-then :
    {V : Type 0} (P Q : V → Type 0) (xs : List V) → ((x : V) → P x → Q x) → All P xs → All Q xs
All-then P Q [] f h = tt
All-then P Q (x ∷ xs) f h = (f x h.0, All-then P Q xs f h.1)

module _ {E : Type 0} (coord : Coord) (create : List ℕ → Res E (Unit {0})) where
  -- What is written for a node, or for its children.
  abbrev Apart : (List ℕ × List (OctreePoint coord) → Type 0) → Res E (Written coord) → Type 0
  Apart P result =
      (files : Written coord) × (result ≡ ok files) × All P files × Distinct coord files

  write_file-Apart :
      (path : NodePath) (points : List (OctreePoint coord))
      → ((name : List ℕ) → create name ≡ ok tt)
      → Apart
          (λ file. file.0 ≡ TileNames.to_filename path pnts)
          (write_file coord create path points)
  unfolding write_file
  write_file-Apart path [] works = ([], refl, tt, tt)
  write_file-Apart path (p ∷ points) works =
      rw (works (TileNames.to_filename path pnts)) (_, refl, (refl, tt), (tt, tt))

  own_apart :
      (path : NodePath)
      → Octants path
      → (x y : List ℕ × List (OctreePoint coord)) → x.0 ≡ TileNames.to_filename path pnts
      → UnderFrom coord path 0 y
      → x.0 ≢ y.0
  own_apart path octants x y own (j, rest, low, below, named, more) same = longer path rest j (
      to_filename_injective path (path ++ (j ∷ rest)) octants
        (All-append _ path (j ∷ rest) octants (below, more)) (sym own ∙ (same ∙ named)))

  slots_apart :
      (path : NodePath) (i : ℕ)
      → Octants path
      → i < 8
      → (x y : List ℕ × List (OctreePoint coord)) → Under coord (path ++ (i ∷ [])) x
      → UnderFrom coord path (i + 1) y
      → x.0 ≢ y.0
  slots_apart path i octants slot x y (r, own, here) (j, rest, low, below, named, more) same =
      let at : (path ++ (i ∷ [])) ++ r ≡ path ++ (i ∷ r) = append_assoc path (i ∷ []) r in
      let joined =
        to_filename_injective (path ++ (i ∷ r)) (path ++ (j ∷ rest))
          (All-append _ path (i ∷ r) octants (slot, here))
          (All-append _ path (j ∷ rest) octants (below, more))
          (ap (λ p. TileNames.to_filename p pnts) (sym at) ∙ (sym own ∙ (same ∙ named))) in
      let equal : i ≡ j = same_step path r rest i j joined in absurd (omega arith)

  own_path :
      (path : NodePath) (file : List ℕ × List (OctreePoint coord))
      → file.0 ≡ TileNames.to_filename path pnts
      → Under coord path file
  own_path path file own =
      ([], own ∙ ap (λ p. TileNames.to_filename p pnts) (sym (append-nil path)), tt)

  any_slot :
      (path : NodePath) (i : ℕ) (file : List ℕ × List (OctreePoint coord))
      → UnderFrom coord path i file
      → Under coord path file
  any_slot path i file (j, rest, low, below, named, more) = (j ∷ rest, named, (below, more))

  later :
      (path : NodePath) (i : ℕ) (file : List ℕ × List (OctreePoint coord))
      → UnderFrom coord path (i + 1) file
      → UnderFrom coord path i file
  later path i file (j, rest, low, below, named, more) = (j, rest, omega arith, below, named, more)

  one_slot :
      (path : NodePath) (i : ℕ)
      → i < 8
      → (file : List ℕ × List (OctreePoint coord)) → Under coord (path ++ (i ∷ [])) file
      → UnderFrom coord path i file
  one_slot path i slot file (rest, named, more) = (
    i,
    rest,
    omega arith,
    slot,
    named ∙ ap (λ p. TileNames.to_filename p pnts) (append_assoc path (i ∷ []) rest),
    more,
  )

  mutual
    unfolding write_node_tiles HasOctants

    node_tiles-Apart :
        (path : NodePath) (node : OctreeNode coord)
        → ((name : List ℕ) → create name ≡ ok tt)
        → Octants path
        → HasOctants coord node
        → Apart (Under coord path) (write_node_tiles coord create path node)
    node_tiles-Apart path (leaf bounds points depth) works octants h =
        let (files, e, named, apart) = write_file-Apart path points works in
        (files, e, All-then _ (Under coord path) files (own_path path) named, apart)
    node_tiles-Apart path (internal bounds children lod_points depth) works octants h =
        let (first, e, named, apart) = write_file-Apart path lod_points works in
        let (rest, f, below, others) = child_tiles-Apart path 0 children works octants h in
        (
          first ++ rest,
          rw (e, f) refl,
          All-append _ first rest (All-then _ (Under coord path) first (own_path path) named)
              (All-then _ (Under coord path) rest (any_slot path 0) below),
          Distinct-append coord first rest apart others (
              All-then _ _ first
                (λ x own. All-then _ _ rest (λ y under. own_apart path octants x y own under) below)
                named),
        )

    child_tiles-Apart :
        (path : NodePath) (i : ℕ) (children : Children coord)
        → ((name : List ℕ) → create name ≡ ok tt)
        → Octants path
        → HasOctantsFrom coord i children
        → Apart (UnderFrom coord path i) (write_child_tiles coord create path i children)
    child_tiles-Apart path i nil works octants h = ([], refl, tt, tt)
    child_tiles-Apart path i (absent children) works octants h =
        let (files, e, below, apart) = child_tiles-Apart path (i + 1) children works octants h.1 in
        (files, e, All-then _ (UnderFrom coord path i) files (later path i) below, apart)
    child_tiles-Apart path i (child node children) works octants h =
        let here = All-append (λ j. j < 8) path (i ∷ []) octants (h.0, tt) in
        let (first, e, named, apart) = node_tiles-Apart (path ++ (i ∷ [])) node works here h.1 in
        let (rest, f, below, others) = child_tiles-Apart path (i + 1) children works octants h.2 in
        (
          first ++ rest,
          rw (e, f) refl,
          All-append _ first rest
              (All-then _ (UnderFrom coord path i) first (one_slot path i h.0) named)
              (All-then _ (UnderFrom coord path i) rest (later path i) below),
          Distinct-append coord first rest apart others (
              All-then _ _ first
                (λ x own.
                  All-then _ _ rest (λ y under. slots_apart path i octants h.0 x y own under) below)
                named),
        )

  children_of-HasOctants :
      (build : Aabb coord → List (OctreePoint coord) → OctreeNode coord)
      → ((b : Aabb coord) (points : List (OctreePoint coord)) → HasOctants coord (build b points))
      → (i : ℕ) (os : List (Aabb coord)) (bs : Buckets coord) → i + length os ≤ 8
      → HasOctantsFrom coord i (children_of coord build os bs)
  unfolding children_of HasOctants
  children_of-HasOctants build keep i [] bs h = tt
  children_of-HasOctants build keep i (o ∷ os) [] h = tt
  children_of-HasOctants build keep i (o ∷ os) ([] ∷ bs) h =
      (omega arith, children_of-HasOctants build keep (i + 1) os bs (omega arith))
  children_of-HasOctants build keep i (o ∷ os) ((p ∷ points) ∷ bs) h = (
    omega arith,
    keep o (p ∷ points),
    children_of-HasOctants build keep (i + 1) os bs (omega arith),
  )

  build_node-HasOctants :
      (config : OctreeConfig coord) (levels depth : ℕ) (bounds : Aabb coord)
      (points : List (OctreePoint coord))
      → HasOctants coord (build_node coord config levels depth bounds points)
  unfolding build_node HasOctants
  build_node-HasOctants config zero depth bounds points = tt
  build_node-HasOctants config (suc levels) depth bounds points =
      elim (Bool-cases (stays_leaf coord config depth bounds points)) [
        | inl e ↦ rw e tt
        | inr e ↦
            let eight = length-octants coord (λ p. true) bounds in
            rw e (
              children_of-HasOctants (build_node coord config levels (depth + 1))
                (build_node-HasOctants config levels (depth + 1)) 0 (octants coord bounds)
                (distribute coord bounds points (no_points coord)) (omega arith))
      ]

  -- Where no file fails to be created, write_node_tiles writes the tree that build_octree makes,
  -- from its root, under names of which no two are the same.
  pub write_node_tiles-Distinct :
      (points : List (OctreePoint coord)) (config : OctreeConfig coord)
      → ((name : List ℕ) → create name ≡ ok tt)
      → (files : Written coord) × (write_node_tiles coord create []
            (build_octree coord points config)
          ≡ ok files)
        × Distinct coord files
  unfolding build_octree
  write_node_tiles-Distinct points config works =
      let node = build_octree coord points config in
      let octants = build_node-HasOctants config config.max_depth 0 _ points in
      let (files, e, named, apart) = node_tiles-Apart [] node works tt octants in (files, e, apart)
