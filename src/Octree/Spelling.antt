-- ===== src/Octree/Spelling.antt =====
-- The file names of crates/tiletopia-core/src/tile.rs, read back as the paths they spell.
use tiletopia.Prelude.{
  ℕ, ◌+◌, ◌-◌, ◌<◌, ◌≡◌, refl, sym, ap, ◌∙◌, ◌≢◌, false, List, [], ◌∷◌, ◌++◌, map, arith, ◌==◌,
  if◌then◌else◌, length, All, length-append,
}
use tiletopia.Octree.TileNames
use tiletopia.Octree.TileNames.{pnts}
use tiletopia.Octree.Tiles.{NodePath}

-- The path that a name spells.
read_name : List ℕ → NodePath
read_name [] = []
read_name (c ∷ name) = if c == 46 then [] else (c - 48) ∷ read_name name

abbrev pub Octants : NodePath → Type 0
Octants path = All (λ i. i < 8) path

read_name-spelled :
    (path : NodePath) (rest : List ℕ) → read_name (map (λ s. 48 + s) path ++ (46 ∷ rest)) ≡ path
unfolding read_name
read_name-spelled [] rest = refl
read_name-spelled (i ∷ path) rest =
    let digit : (48 + i == 46) ≡ false = ground arith in
    let same : 48 + i - 48 ≡ i = omega arith in rw (digit, same, read_name-spelled path rest) refl

abbrev first : NodePath → ℕ
first [] = 0
first (i ∷ path) = i

-- What the name of a path reads as; "root" is no path of octants.
abbrev spelled : NodePath → NodePath
spelled [] = 66 ∷ 63 ∷ 63 ∷ 68 ∷ []
spelled (i ∷ path) = i ∷ path

read_name-to_filename :
    (path : NodePath) → read_name (TileNames.to_filename path pnts) ≡ spelled path
unfolding TileNames.to_filename TileNames.extension read_name
read_name-to_filename [] = refl
read_name-to_filename (i ∷ path) = read_name-spelled (i ∷ path) (TileNames.extension pnts)

spelled_injective : (p q : NodePath) → Octants p → Octants q → spelled p ≡ spelled q → p ≡ q
spelled_injective [] [] a b e = refl
spelled_injective [] (i ∷ q) a b e = let clash : 66 ≡ i = ap first e in absurd (omega arith)
spelled_injective (i ∷ p) [] a b e = let clash : i ≡ 66 = ap first e in absurd (omega arith)
spelled_injective (i ∷ p) (j ∷ q) a b e = e

pub to_filename_injective :
    (p q : NodePath)
    → Octants p
    → Octants q
    → TileNames.to_filename p pnts ≡ TileNames.to_filename q pnts
    → p ≡ q
to_filename_injective p q a b e =
    spelled_injective p q a b
      (sym (read_name-to_filename p) ∙ (ap read_name e ∙ read_name-to_filename q))

pub same_step : (p r s : NodePath) (i j : ℕ) → p ++ (i ∷ r) ≡ p ++ (j ∷ s) → i ≡ j
same_step [] r s i j e = ap first e
same_step (k ∷ p) r s i j e = same_step p r s i j (ap tail e)
  where
    tail : NodePath → NodePath
    tail [] = []
    tail (i ∷ path) = path

pub longer : (p r : NodePath) (i : ℕ) → p ≢ p ++ (i ∷ r)
longer p r i e = let l = length-append p (i ∷ r) in let same = ap length e in absurd (omega arith)
