-- ===== src/GlbWriter/Tests.antt =====
-- A mesh of one triangle, written.
use tiletopia.Prelude.{
  ℕ, zero, suc, ◌+◌, ◌%◌, ◌<◌, ◌≡◌, refl, none, some, List, [], ◌∷◌, ◌++◌, arith, length,
}
use tiletopia.Prelude.Res.{ok, err}
use tiletopia.GlbWriter.Layout.{
  GlbMesh, strings, uint8, compute_layout, metadata_layout, past, align4,
}
use tiletopia.GlbWriter.Bin.{feature_id_too_high, write_bin, float_feature_id}
use tiletopia.GlbWriter.Places.{floats_of, write_bin-Located}
use tiletopia.GlbWriter.Parts.{Located, mesh_places, mesh_parts}
use tiletopia.GlbWriter.Container.{write_container, read_container, spaces, write_container-read}

abbrev triangle : GlbMesh
triangle = record {
  positions = (0, 0, 0) ∷ (1065353216, 0, 0) ∷ (0, 1065353216, 0) ∷ [];
  normals = none;
  indices = some (0 ∷ 1 ∷ 2 ∷ []);
  colors = none;
  texcoords = none;
  metadata = some (strings ((97 ∷ []) ∷ (98 ∷ 99 ∷ []) ∷ []) ∷ uint8 (7 ∷ []) ∷ []);
  feature_ids = some (0 ∷ 0 ∷ 1 ∷ []);
  texture = none;
}

layout : (compute_layout triangle).indices_offset ≡ 36
unfolding compute_layout past align4
layout = refl

total : (compute_layout triangle).total_len ≡ 80
unfolding compute_layout metadata_layout past align4
total = refl

too_high : float_feature_id (λ n. n) 16777217 ≡ err (feature_id_too_high 16777217)
unfolding float_feature_id
too_high = refl

-- The bits of the floats 0 and 1.
abbrev as_f32 : ℕ → ℕ
as_f32 zero = 0
as_f32 (suc n) = 1065353216

write_bin-Located_example :
    (bin : List ℕ) × (write_bin as_f32 triangle (compute_layout triangle) ≡ ok bin)
    × (length bin ≡ (compute_layout triangle).total_len)
    × Located bin 0
        (mesh_places triangle (compute_layout triangle))
        (mesh_parts triangle (floats_of as_f32 (some (0 ∷ 0 ∷ 1 ∷ []))))
write_bin-Located_example =
    write_bin-Located as_f32 triangle (omega arith, (omega arith, (omega arith, tt)))

few_bytes : 28 + align4 2 + 4 < 4294967296
unfolding align4
few_bytes = omega arith

write_container-read_example :
    (read_container (write_container (123 ∷ 125 ∷ []) (1 ∷ 2 ∷ 3 ∷ 4 ∷ []))
      ≡ ok ((123 ∷ 125 ∷ []) ++ spaces (123 ∷ 125 ∷ []), 1 ∷ 2 ∷ 3 ∷ 4 ∷ []))
    × (length ((123 ∷ 125 ∷ []) ++ spaces (123 ∷ 125 ∷ [])) % 4 ≡ 0)
write_container-read_example = write_container-read (123 ∷ 125 ∷ []) (1 ∷ 2 ∷ 3 ∷ 4 ∷ []) few_bytes
