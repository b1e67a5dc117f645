-- ===== src/GlbWriter/Parts.antt =====
-- The parts of a mesh that crates/tiletopia-core/src/glb_writer.rs writes, one after the other.
use tiletopia.Prelude.{
  ℕ, zero, suc, ◌+◌, ◌-◌, ◌*◌, ◌%◌, ◌≤◌, ◌≡◌, refl, sym, ap, subst, ◌∙◌, append_assoc, true, Option,
  none, some, List, [], ◌∷◌, ◌++◌, arith, ltb, length, drop, replicate, length-append,
  length-replicate, take, take-length_append, drop-length_append,
}
use tiletopia.Octree.Pnts.{to_le_bytes}
use tiletopia.GlbWriter.Layout.{
  Float2, Float3, Byte4, MetadataValues, strings, float32, int32, uint8, GlbMesh,
  MetadataBufferSegment, BufferLayout, align4, bytes_of, past, sum_lengths, or_no_properties,
}
use tiletopia.GlbWriter.Bin.{
  write_padding, words, scalars_of_vec3, scalars_of_vec2, color_bytes, string_bytes, string_offsets,
  write_part,
}

abbrev pub Place : Type 0
Place = ℕ × ℕ

-- Each part stands in the buffer at its place, an offset and a length: the offset is a multiple of
-- 4, the places are apart and in order, and all are within the buffer.
abbrev pub Located : List ℕ → ℕ → List Place → List (List ℕ) → Type 0
Located bin from [] [] = from ≤ length bin
Located bin from (place ∷ places) [] = ⊥
Located bin from [] (part ∷ parts) = ⊥
Located bin from ((offset, len) ∷ places) (part ∷ parts) =
    (from ≤ offset)
    × (offset % 4 ≡ 0)
    × (length part ≡ len)
    × (take len (drop offset bin) ≡ part)
    × Located bin (offset + len) places parts

abbrev padded : List ℕ → List ℕ
padded part = part ++ write_padding (length part)

abbrev pub joined : List (List ℕ) → List ℕ
joined [] = []
joined (part ∷ parts) = padded part ++ joined parts

abbrev pub places_from : ℕ → List (List ℕ) → List Place
places_from offset [] = []
places_from offset (part ∷ parts) =
    (offset, length part) ∷ places_from (offset + align4 (length part)) parts

abbrev pub padded_size : List (List ℕ) → ℕ
padded_size [] = 0
padded_size (part ∷ parts) = align4 (length part) + padded_size parts

align4-low : (n : ℕ) → (n ≤ align4 n) × (align4 n % 4 ≡ 0)
unfolding align4
align4-low n = (omega arith, omega arith)

padded-length : (part : List ℕ) → length (padded part) ≡ align4 (length part)
unfolding write_padding
padded-length part =
    let n = length part in
    let low = (align4-low n).0 in
    omega (
      arith,
      length-append part (replicate (align4 n - n) 0),
      length-replicate {A = ℕ} (align4 n - n) 0,
    )

pub joined-length : (parts : List (List ℕ)) → length (joined parts) ≡ padded_size parts
joined-length [] = refl
joined-length (part ∷ parts) =
    omega
      (arith, length-append (padded part) (joined parts), padded-length part, joined-length parts)

pub joined-Located :
    (before : List ℕ) (parts : List (List ℕ)) (from : ℕ)
    → from ≤ length before
    → length before % 4 ≡ 0
    → Located (before ++ joined parts) from (places_from (length before) parts) parts
joined-Located before [] from low even = omega (arith, length-append before [])
joined-Located before (part ∷ parts) from low even =
    let after = before ++ padded part in
    let size : length after ≡ length before + align4 (length part) =
      omega (arith, length-append before (padded part), padded-length part) in
    let whole : after ++ joined parts ≡ before ++ joined (part ∷ parts) =
      append_assoc before (padded part) (joined parts) in
    let here : take (length part) (drop (length before) (before ++ joined (part ∷ parts))) ≡ part =
      ap (take (length part)) (drop-length_append before (joined (part ∷ parts)))
      ∙ (ap (take (length part)) (append_assoc part (write_padding (length part)) (joined parts))
          ∙ take-length_append part (write_padding (length part) ++ joined parts)) in
    let (wide, aligned) = align4-low (length part) in
    let rest : Located (after ++ joined parts) (length before + length part)
        (places_from (length after) parts) parts =
      joined-Located after parts (length before + length part) (omega arith) (omega arith) in
    (
      low,
      even,
      refl,
      here,
      subst
          (λ n.
            Located (before ++ joined (part ∷ parts)) (length before + length part)
              (places_from n parts) parts)
          size
          (subst
            (λ l. Located l (length before + length part) (places_from (length after) parts) parts)
            whole rest),
    )

-- The parts of a mesh, those that are missing as empty ones.
abbrev pub part_of {ℓ} : {A : Type ℓ} → (List A → List ℕ) → Option (List A) → List ℕ
part_of bytes none = []
part_of bytes (some items) = bytes items

unfoldable pub metadata_parts : List MetadataValues → List (List ℕ)
metadata_parts [] = []
metadata_parts (float32 v ∷ properties) = words v ∷ metadata_parts properties
metadata_parts (int32 v ∷ properties) = words v ∷ metadata_parts properties
metadata_parts (uint8 v ∷ properties) = v ∷ metadata_parts properties
metadata_parts (strings list ∷ properties) =
    string_bytes list ∷ words (string_offsets 0 list) ∷ metadata_parts properties

unfoldable pub metadata_places : List MetadataValues → List MetadataBufferSegment → List Place
metadata_places (float32 v ∷ properties) (seg ∷ segments) =
    (seg.offset, seg.len) ∷ metadata_places properties segments
metadata_places (int32 v ∷ properties) (seg ∷ segments) =
    (seg.offset, seg.len) ∷ metadata_places properties segments
metadata_places (uint8 v ∷ properties) (seg ∷ segments) =
    (seg.offset, seg.len) ∷ metadata_places properties segments
metadata_places (strings list ∷ properties) (seg ∷ segments) =
    (seg.offset, seg.len)
    ∷ (seg.string_offsets_offset, seg.string_offsets_len)
    ∷ metadata_places properties segments
metadata_places properties segments = []

-- The mesh's parts with its feature ids as floats, and where the layout puts them.
abbrev pub mesh_parts : GlbMesh → Option (List ℕ) → List (List ℕ)
mesh_parts mesh floats =
    words (scalars_of_vec3 mesh.positions)
    ∷ part_of (λ n. words (scalars_of_vec3 n)) mesh.normals
    ∷ part_of words mesh.indices
    ∷ part_of color_bytes mesh.colors
    ∷ part_of (λ t. words (scalars_of_vec2 t)) mesh.texcoords
    ∷ part_of words floats
    ∷ part_of (λ bytes. bytes) mesh.texture
    ∷ metadata_parts (or_no_properties mesh.metadata)

abbrev pub mesh_places : GlbMesh → BufferLayout → List Place
mesh_places mesh layout =
    (layout.positions_offset, layout.positions_len)
    ∷ (layout.normals_offset, layout.normals_len)
    ∷ (layout.indices_offset, layout.indices_len)
    ∷ (layout.colors_offset, layout.colors_len)
    ∷ (layout.texcoords_offset, layout.texcoords_len)
    ∷ (layout.feature_ids_offset, layout.feature_ids_len)
    ∷ (layout.texture_offset, layout.texture_len)
    ∷ metadata_places (or_no_properties mesh.metadata) layout.metadata_segments

pub words-length : (values : List ℕ) → length (words values) ≡ length values * 4
unfolding words to_le_bytes
words-length [] = omega arith
words-length (v ∷ values) = omega (arith, words-length values)

pub vec3-length :
    (values : List Float3) → length (words (scalars_of_vec3 values)) ≡ length values * 12
vec3-length values = omega (arith, words-length (scalars_of_vec3 values), scalars values)
  where
    scalars : (values : List Float3) → length (scalars_of_vec3 values) ≡ length values * 3
    scalars [] = omega arith
    scalars ((x, y, z) ∷ values) = omega (arith, scalars values)

pub vec2-length :
    (values : List Float2) → length (words (scalars_of_vec2 values)) ≡ length values * 8
vec2-length values = omega (arith, words-length (scalars_of_vec2 values), scalars values)
  where
    scalars : (values : List Float2) → length (scalars_of_vec2 values) ≡ length values * 2
    scalars [] = omega arith
    scalars ((u, v) ∷ values) = omega (arith, scalars values)

pub color_bytes-length : (colors : List Byte4) → length (color_bytes colors) ≡ length colors * 4
color_bytes-length [] = omega arith
color_bytes-length ((r, g, b, a) ∷ colors) = omega (arith, color_bytes-length colors)

pub string_bytes-length : (list : List (List ℕ)) → length (string_bytes list) ≡ sum_lengths list
string_bytes-length [] = refl
string_bytes-length (s ∷ list) =
    omega (arith, length-append s (string_bytes list), string_bytes-length list)

pub string_offsets-length :
    (start : ℕ) (list : List (List ℕ)) → length (string_offsets start list) ≡ length list + 1
string_offsets-length start [] = omega arith
string_offsets-length start (s ∷ list) =
    omega (arith, string_offsets-length ((start + length s) % 4294967296) list)

pub part_of-length {ℓ} :
    {A : Type ℓ} (bytes : List A → List ℕ) (size : ℕ) (items : Option (List A))
    → ((l : List A) → length (bytes l) ≡ length l * size)
    → length (part_of bytes items) ≡ bytes_of size items
part_of-length bytes size none h = refl
part_of-length bytes size (some items) h = h items

pub write_part-padded {ℓ} :
    {A : Type ℓ} (bytes : List A → List ℕ) (len : ℕ) (items : Option (List A))
    → length (part_of bytes items) ≡ len
    → write_part bytes len items ≡ padded (part_of bytes items)
unfolding write_padding align4
write_part-padded bytes len none h = let nothing : 0 + 3 - (0 + 3) % 4 - 0 ≡ 0 = refl in refl
write_part-padded bytes len (some items) h = ap (λ n. bytes items ++ write_padding n) (sym h)

pub past-align4 : (offset len : ℕ) → past offset len ≡ offset + align4 len
unfolding align4 past
past-align4 offset zero = omega arith
past-align4 offset (suc len) =
    let some_bytes : ltb 0 (suc len) ≡ true = ground arith in rw some_bytes refl
