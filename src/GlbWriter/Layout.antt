-- ===== src/GlbWriter/Layout.antt =====
-- Where each part of a mesh stands in the binary buffer, `compute_layout` of
-- crates/tiletopia-core/src/glb_writer.rs. An f32, a u32 or an i32 is the number of its 32 bits; a
-- string is the list of its UTF-8 bytes.
use tiletopia.Prelude.{
  ℕ, ◌+◌, ◌-◌, ◌*◌, ◌%◌, Option, none, some, List, [], ◌∷◌, ltb, if◌then◌else◌, length,
}

abbrev pub Float2 : Type 0
Float2 = ℕ × ℕ

abbrev pub Float3 : Type 0
Float3 = ℕ × ℕ × ℕ

abbrev pub Byte4 : Type 0
Byte4 = ℕ × ℕ × ℕ × ℕ

pub data MetadataValues : Type 0 where
  strings : List (List ℕ) → MetadataValues
  float32 : List ℕ → MetadataValues
  int32 : List ℕ → MetadataValues
  uint8 : List ℕ → MetadataValues

-- The parts of a mesh that the buffer holds: metadata is the values of its properties, a texture
-- the bytes of its image.
pub record GlbMesh : Type 0 where
  pub positions : List Float3
  pub normals : Option (List Float3)
  pub indices : Option (List ℕ)
  pub colors : Option (List Byte4)
  pub texcoords : Option (List Float2)
  pub metadata : Option (List MetadataValues)
  pub feature_ids : Option (List ℕ)
  pub texture : Option (List ℕ)

pub record MetadataBufferSegment : Type 0 where
  pub offset : ℕ
  pub len : ℕ
  pub string_offsets_offset : ℕ
  pub string_offsets_len : ℕ

pub record BufferLayout : Type 0 where
  pub positions_offset : ℕ
  pub positions_len : ℕ
  pub normals_offset : ℕ
  pub normals_len : ℕ
  pub indices_offset : ℕ
  pub indices_len : ℕ
  pub colors_offset : ℕ
  pub colors_len : ℕ
  pub texcoords_offset : ℕ
  pub texcoords_len : ℕ
  pub feature_ids_offset : ℕ
  pub feature_ids_len : ℕ
  pub texture_offset : ℕ
  pub texture_len : ℕ
  pub metadata_segments : List MetadataBufferSegment
  pub total_len : ℕ

-- `(n + 3) & !3` clears the two low bits.
unfoldable pub align4 : ℕ → ℕ
align4 n = n + 3 - (n + 3) % 4

-- `map_or(0, |items| items.len() * size)`
abbrev pub bytes_of {ℓ} : {A : Type ℓ} → ℕ → Option (List A) → ℕ
bytes_of size none = 0
bytes_of size (some items) = length items * size

-- The offset after a part that may be missing.
unfoldable pub past : ℕ → ℕ → ℕ
past offset len = if ltb 0 len then offset + align4 len else offset

abbrev pub sum_lengths : List (List ℕ) → ℕ
sum_lengths [] = 0
sum_lengths (s ∷ list) = length s + sum_lengths list

abbrev pub plain_segment : ℕ → ℕ → MetadataBufferSegment
plain_segment offset len = record {
  offset = offset;
  len = len;
  string_offsets_offset = 0;
  string_offsets_len = 0;
}

-- One property's segment and the offset after it.
abbrev pub property_segment : MetadataValues → ℕ → MetadataBufferSegment × ℕ
property_segment (float32 v) offset =
    (plain_segment offset (length v * 4), offset + align4 (length v * 4))
property_segment (int32 v) offset =
    (plain_segment offset (length v * 4), offset + align4 (length v * 4))
property_segment (uint8 v) offset = (plain_segment offset (length v), offset + align4 (length v))
property_segment (strings list) offset =
    let total_bytes = sum_lengths list in
    let offsets_len = (length list + 1) * 4 in
    let offsets_offset = offset + align4 total_bytes in
    (
      record {
        offset = offset;
        len = total_bytes;
        string_offsets_offset = offsets_offset;
        string_offsets_len = offsets_len;
      },
      offsets_offset + align4 offsets_len,
    )

unfoldable pub metadata_layout : List MetadataValues → ℕ → List MetadataBufferSegment × ℕ
metadata_layout [] offset = ([], offset)
metadata_layout (values ∷ properties) offset =
    let (segment, next) = property_segment values offset in
    let (segments, end) = metadata_layout properties next in (segment ∷ segments, end)

-- `if let Some(ref meta) = mesh.metadata`
abbrev pub or_no_properties : Option (List MetadataValues) → List MetadataValues
or_no_properties none = []
or_no_properties (some properties) = properties

unfoldable pub compute_layout : GlbMesh → BufferLayout
compute_layout mesh =
    let positions_len = length mesh.positions * 12 in
    let normals_offset = 0 + align4 positions_len in
    let normals_len = bytes_of 12 mesh.normals in
    let indices_offset = past normals_offset normals_len in
    let indices_len = bytes_of 4 mesh.indices in
    let colors_offset = past indices_offset indices_len in
    let colors_len = bytes_of 4 mesh.colors in
    let texcoords_offset = past colors_offset colors_len in
    let texcoords_len = bytes_of 8 mesh.texcoords in
    let feature_ids_offset = past texcoords_offset texcoords_len in
    let feature_ids_len = bytes_of 4 mesh.feature_ids in
    let texture_offset = past feature_ids_offset feature_ids_len in
    let texture_len = bytes_of 1 mesh.texture in
    let (segments, end) =
      metadata_layout (or_no_properties mesh.metadata) (past texture_offset texture_len) in
    record {
      positions_offset = 0;
      positions_len = positions_len;
      normals_offset = normals_offset;
      normals_len = normals_len;
      indices_offset = indices_offset;
      indices_len = indices_len;
      colors_offset = colors_offset;
      colors_len = colors_len;
      texcoords_offset = texcoords_offset;
      texcoords_len = texcoords_len;
      feature_ids_offset = feature_ids_offset;
      feature_ids_len = feature_ids_len;
      texture_offset = texture_offset;
      texture_len = texture_len;
      metadata_segments = segments;
      total_len = end;
    }
