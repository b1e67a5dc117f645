-- ===== src/GlbWriter/Bin.antt =====
-- The bytes of the binary buffer, `write_bin` of crates/tiletopia-core/src/glb_writer.rs, written to
-- a `Vec<u8>`. How a number is rounded to an f32 is a parameter.
use tiletopia.Prelude.{
  ℕ, ◌+◌, ◌-◌, ◌%◌, Option, none, some, List, [], ◌∷◌, ◌++◌, ltb, if◌then◌else◌, length, replicate,
}
use tiletopia.Prelude.Res.{Res, ok, err, ◌>>=◌}
use tiletopia.Octree.Pnts.{to_le_bytes}
use tiletopia.GlbWriter.Layout.{
  Float2, Float3, Byte4, MetadataValues, strings, float32, int32, uint8, GlbMesh,
  MetadataBufferSegment, BufferLayout, align4, or_no_properties,
}

pub data WriteError : Type 0 where
  feature_id_too_high : ℕ → WriteError
  index_out_of_bounds : WriteError

abbrev pub highest_float_feature_id : ℕ
highest_float_feature_id = 16777216

unfoldable pub write_padding : ℕ → List ℕ
write_padding data_len = replicate (align4 data_len - data_len) 0

unfoldable pub words : List ℕ → List ℕ
words [] = []
words (v ∷ values) = to_le_bytes v ++ words values

abbrev pub scalars_of_vec3 : List Float3 → List ℕ
scalars_of_vec3 [] = []
scalars_of_vec3 ((x, y, z) ∷ values) = x ∷ y ∷ z ∷ scalars_of_vec3 values

abbrev pub scalars_of_vec2 : List Float2 → List ℕ
scalars_of_vec2 [] = []
scalars_of_vec2 ((u, v) ∷ values) = u ∷ v ∷ scalars_of_vec2 values

abbrev pub color_bytes : List Byte4 → List ℕ
color_bytes [] = []
color_bytes ((r, g, b, a) ∷ colors) = r ∷ g ∷ b ∷ a ∷ color_bytes colors

abbrev pub string_bytes : List (List ℕ) → List ℕ
string_bytes [] = []
string_bytes (s ∷ list) = s ++ string_bytes list

-- The running `byte_offset`, a u32 that wraps.
abbrev pub string_offsets : ℕ → List (List ℕ) → List ℕ
string_offsets byte_offset [] = byte_offset ∷ []
string_offsets byte_offset (s ∷ list) =
    byte_offset ∷ string_offsets ((byte_offset + length s) % 4294967296) list

-- A part that may be missing, with its padding.
abbrev pub write_part {ℓ} : {A : Type ℓ} → (List A → List ℕ) → ℕ → Option (List A) → List ℕ
write_part bytes len none = []
write_part bytes len (some items) = bytes items ++ write_padding len

abbrev pub write_values : MetadataValues → MetadataBufferSegment → List ℕ
write_values (float32 v) seg = words v ++ write_padding seg.len
write_values (int32 v) seg = words v ++ write_padding seg.len
write_values (uint8 v) seg = v ++ write_padding seg.len
write_values (strings list) seg =
    (string_bytes list ++ write_padding seg.len)
    ++ (words (string_offsets 0 list) ++ write_padding seg.string_offsets_len)

unfoldable pub write_properties :
    List MetadataValues → List MetadataBufferSegment → Res WriteError (List ℕ)
write_properties [] segments = ok []
write_properties (values ∷ properties) [] = err index_out_of_bounds
write_properties (values ∷ properties) (seg ∷ segments) = do
  rest ← write_properties properties segments
  ok (write_values values seg ++ rest)

module _ (as_f32 : ℕ → ℕ) where
  unfoldable pub float_feature_id : ℕ → Res WriteError ℕ
  float_feature_id id =
      if ltb highest_float_feature_id id then err (feature_id_too_high id) else ok (as_f32 id)

  unfoldable pub float_feature_ids : List ℕ → Res WriteError (List ℕ)
  float_feature_ids [] = ok []
  float_feature_ids (id ∷ ids) = do
    first ← float_feature_id id
    rest ← float_feature_ids ids
    ok (first ∷ rest)

  abbrev pub feature_id_floats : Option (List ℕ) → Res WriteError (Option (List ℕ))
  feature_id_floats none = ok none
  feature_id_floats (some ids) = do floats ← float_feature_ids ids; ok (some floats)

  unfoldable pub write_bin : GlbMesh → BufferLayout → Res WriteError (List ℕ)
  write_bin mesh layout = do
    floats ← feature_id_floats mesh.feature_ids
    metadata ← write_properties (or_no_properties mesh.metadata) layout.metadata_segments
    ok (
        (words (scalars_of_vec3 mesh.positions) ++ write_padding layout.positions_len)
        ++ (write_part (λ n. words (scalars_of_vec3 n)) layout.normals_len mesh.normals
            ++ (write_part words layout.indices_len mesh.indices
                ++ (write_part color_bytes layout.colors_len mesh.colors
                    ++ (write_part (λ t. words (scalars_of_vec2 t)) layout.texcoords_len
                          mesh.texcoords
                        ++ (write_part words layout.feature_ids_len floats
                            ++ (write_part (λ bytes. bytes) layout.texture_len mesh.texture
                                ++ metadata)))))))
