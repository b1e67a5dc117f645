-- ===== src/Octree/TileNames.antt =====
-- The names of tile files, `TileFormat` and `NodePath::to_filename` of
-- crates/tiletopia-core/src/tile.rs. A name is the list of its bytes.
use tiletopia.Prelude.{ℕ, ◌+◌, List, [], ◌∷◌, ◌++◌, map}

pub data TileFormat : Type 0 where
  pnts glb : TileFormat

unfoldable pub extension : TileFormat → List ℕ
extension pnts = 112 ∷ 110 ∷ 116 ∷ 115 ∷ []
extension glb = 103 ∷ 108 ∷ 98 ∷ []

unfoldable pub to_filename : List ℕ → TileFormat → List ℕ
unfolding extension
to_filename [] format = (114 ∷ 111 ∷ 111 ∷ 116 ∷ 46 ∷ []) ++ extension format
to_filename (i ∷ path) format = map (λ s. 48 + s) (i ∷ path) ++ (46 ∷ extension format)
