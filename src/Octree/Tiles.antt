-- ===== src/Octree/Tiles.antt =====
-- The tiles of a point cloud: `generate_tile` of crates/tiletopia-core/src/lod.rs, which names the
-- content of each tile, and `write_node_tiles` of crates/tiletopia-core/src/tile.rs, which writes
-- the files. A file name is the list of its bytes. The parameter `create` is the creation of a
-- file with the write that follows: it fails or not. `path.push` and `path.pop`, which surround
-- every visit of a child, are the longer path that the visit has. The refinement (always `Add`)
-- and the transform (always `None`) of a tile are left out.
use tiletopia.Prelude.{
  ℕ, ◌+◌, ◌≡◌, refl, sym, ap, ◌∙◌, append-nil, Option, none, some, List, [], ◌∷◌, ◌++◌, map,
}
use tiletopia.Prelude.Res.{Res, ok, ◌>>=◌, ◌>>◌}
use tiletopia.Octree.Bounds.{Coord, Aabb, half_extents}
use tiletopia.Octree.TileNames
use tiletopia.Octree.TileNames.{pnts}
use tiletopia.Octree.Build.{OctreePoint, OctreeNode, leaf, internal, Children, nil, absent, child}

-- `NodePath`, by its segments
abbrev pub NodePath : Type 0
NodePath = List ℕ

abbrev pub pnts_extension : List ℕ
pnts_extension = 46 ∷ 112 ∷ 110 ∷ 116 ∷ 115 ∷ []

-- `NodePath::to_filename` of lod.rs
unfoldable pub to_filename : NodePath → List ℕ
to_filename [] = 114 ∷ 111 ∷ 111 ∷ 116 ∷ pnts_extension
to_filename (i ∷ path) = map (λ s. 48 + s) (i ∷ path) ++ pnts_extension

mutual
  pub data Tile (coord : Coord) : Type 0 where
    tile : Aabb coord → coord.F → Option (List ℕ) → Tiles coord → Tile coord

  pub data Tiles (coord : Coord) : Type 0 where
    no_tiles : Tiles coord
    more_tiles : Tile coord → Tiles coord → Tiles coord

-- `content`, for the points of a node
unfoldable pub content_of : {A : Type 0} → List A → List ℕ → NodePath → Option (List ℕ)
unfolding to_filename
content_of [] base_url path = none
content_of (p ∷ points) base_url path = some (base_url ++ to_filename path)

-- `geometric_error_for`, with the square root and the zero of the coordinates
unfoldable pub geometric_error_for : (coord : Coord) → (coord.F → coord.F) → Aabb coord → coord.F
unfolding half_extents
geometric_error_for coord sqrt bounds =
    let h = half_extents coord bounds in
    sqrt (coord.plus (coord.plus (coord.times h.x h.x) (coord.times h.y h.y)) (coord.times h.z h.z))

unfoldable mutual
  unfolding content_of geometric_error_for

  pub generate_tile :
      (coord : Coord)
      → (coord.F → coord.F)
      → coord.F
      → List ℕ
      → NodePath
      → OctreeNode coord
      → Tile coord
  generate_tile coord sqrt zero_error base_url path (leaf bounds points depth) =
      tile bounds zero_error (content_of points base_url path) no_tiles
  generate_tile coord sqrt zero_error base_url path (internal bounds children lod_points depth) =
      tile bounds (geometric_error_for coord sqrt bounds) (content_of lod_points base_url path)
        (generate_tiles coord sqrt zero_error base_url path 0 children)

  -- The loop over the children, from the slot `i` on.
  pub generate_tiles :
      (coord : Coord)
      → (coord.F → coord.F)
      → coord.F
      → List ℕ
      → NodePath
      → ℕ
      → Children coord
      → Tiles coord
  generate_tiles coord sqrt zero_error base_url path i nil = no_tiles
  generate_tiles coord sqrt zero_error base_url path i (absent children) =
      generate_tiles coord sqrt zero_error base_url path (i + 1) children
  generate_tiles coord sqrt zero_error base_url path i (child node children) =
      more_tiles (generate_tile coord sqrt zero_error base_url (path ++ i ∷ []) node)
        (generate_tiles coord sqrt zero_error base_url path (i + 1) children)

-- A file that was written: its name and its points.
abbrev pub Written : Coord → Type 0
Written coord = List (List ℕ × List (OctreePoint coord))

-- `File::create` and `write_pnts`, unless there is nothing to write
unfoldable pub write_file :
    {E : Type 0} (coord : Coord)
    → (List ℕ → Res E (Unit {0}))
    → NodePath
    → List (OctreePoint coord)
    → Res E (Written coord)
unfolding TileNames.to_filename
write_file coord create path [] = ok []
write_file coord create path (p ∷ points) =
    create (TileNames.to_filename path pnts)
    >> ok ((TileNames.to_filename path pnts, p ∷ points) ∷ [])

unfoldable mutual
  unfolding write_file

  pub write_node_tiles :
      {E : Type 0} (coord : Coord)
      → (List ℕ → Res E (Unit {0}))
      → NodePath
      → OctreeNode coord
      → Res E (Written coord)
  write_node_tiles coord create path (leaf bounds points depth) =
      write_file coord create path points
  write_node_tiles coord create path (internal bounds children lod_points depth) = do
    first ← write_file coord create path lod_points
    rest ← write_child_tiles coord create path 0 children
    ok (first ++ rest)

  pub write_child_tiles :
      {E : Type 0} (coord : Coord)
      → (List ℕ → Res E (Unit {0}))
      → NodePath
      → ℕ
      → Children coord
      → Res E (Written coord)
  write_child_tiles coord create path i nil = ok []
  write_child_tiles coord create path i (absent children) =
      write_child_tiles coord create path (i + 1) children
  write_child_tiles coord create path i (child node children) = do
    first ← write_node_tiles coord create (path ++ i ∷ []) node
    rest ← write_child_tiles coord create path (i + 1) children
    ok (first ++ rest)

-- The URIs of a tile and of those below it, in order.
abbrev uri_of : Option (List ℕ) → List (List ℕ)
uri_of none = []
uri_of (some uri) = uri ∷ []

unfoldable mutual
  pub uris : {coord : Coord} → Tile coord → List (List ℕ)
  uris (tile bounds error content children) = uri_of content ++ all_uris children

  pub all_uris : {coord : Coord} → Tiles coord → List (List ℕ)
  all_uris no_tiles = []
  all_uris (more_tiles t ts) = uris t ++ all_uris ts

map-append : {A B : Type 0} (f : A → B) (xs ys : List A) → map f (xs ++ ys) ≡ map f xs ++ map f ys
map-append f [] ys = refl
map-append f (x ∷ xs) ys = ap (λ zs. f x ∷ zs) (map-append f xs ys)

-- The tileset and the writer of the files name a node alike.
to_filename-same : (path : NodePath) → TileNames.to_filename path pnts ≡ to_filename path
unfolding to_filename TileNames.to_filename TileNames.extension
to_filename-same [] = refl
to_filename-same (i ∷ path) = refl

module _ {E : Type 0} (coord : Coord) (sqrt : coord.F → coord.F) (zero_error : coord.F)
    (create : List ℕ → Res E (Unit {0})) (base_url : List ℕ) where
  write_file-names :
      (path : NodePath) (points : List (OctreePoint coord))
      → ((name : List ℕ) → create name ≡ ok tt)
      → (files : Written coord) × (write_file coord create path points ≡ ok files)
        × (map (λ f. base_url ++ f.0) files ≡ uri_of (content_of points base_url path))
  unfolding write_file content_of
  write_file-names path [] works = ([], refl, refl)
  write_file-names path (p ∷ points) works =
      rw (works (TileNames.to_filename path pnts))
        (_, refl, ap (λ name. (base_url ++ name) ∷ []) (to_filename-same path))

  mutual
    unfolding write_node_tiles generate_tile uris

    node_tiles-uris :
        (path : NodePath) (node : OctreeNode coord)
        → ((name : List ℕ) → create name ≡ ok tt)
        → (files : Written coord) × (write_node_tiles coord create path node ≡ ok files)
          × (map (λ f. base_url ++ f.0) files
              ≡ uris (generate_tile coord sqrt zero_error base_url path node))
    node_tiles-uris path (leaf bounds points depth) works =
        let (files, e, n) = write_file-names path points works in (files, e, n ∙ sym (append-nil _))
    node_tiles-uris path (internal bounds children lod_points depth) works =
        let (first, e, n) = write_file-names path lod_points works in
        let (rest, f, k) = child_tiles-uris path 0 children works in
        (first ++ rest, rw (e, f) refl, map-append _ first rest ∙ rw (n, k) refl)

    child_tiles-uris :
        (path : NodePath) (i : ℕ) (children : Children coord)
        → ((name : List ℕ) → create name ≡ ok tt)
        → (files : Written coord) × (write_child_tiles coord create path i children ≡ ok files)
          × (map (λ f. base_url ++ f.0) files
              ≡ all_uris (generate_tiles coord sqrt zero_error base_url path i children))
    child_tiles-uris path i nil works = ([], refl, refl)
    child_tiles-uris path i (absent children) works = child_tiles-uris path (i + 1) children works
    child_tiles-uris path i (child node children) works =
        let (first, e, n) = node_tiles-uris (path ++ i ∷ []) node works in
        let (rest, f, k) = child_tiles-uris path (i + 1) children works in
        (first ++ rest, rw (e, f) refl, map-append _ first rest ∙ rw (n, k) refl)

  -- Where no file fails to be created, write_node_tiles writes exactly the files that the tree
  -- of generate_tile refers to, in the order of its tiles: each URI of the tileset is the base
  -- URL before the name of a file that is written, and each file is referred to.
  pub write_node_tiles-uris :
      (path : NodePath) (node : OctreeNode coord)
      → ((name : List ℕ) → create name ≡ ok tt)
      → (files : Written coord) × (write_node_tiles coord create path node ≡ ok files)
        × (map (λ f. base_url ++ f.0) files
            ≡ uris (generate_tile coord sqrt zero_error base_url path node))
  write_node_tiles-uris path node works = node_tiles-uris path node works
