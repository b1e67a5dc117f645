-- ===== src/GlbWriter/Places.antt =====
-- That the parts of a mesh stand in the buffer where the layout of
-- crates/tiletopia-core/src/glb_writer.rs says.
use tiletopia.Prelude.{
  ℕ, ◌+◌, ◌*◌, ◌≤◌, ◌≡◌, refl, sym, ap, subst, ◌∙◌, append_assoc, false, Option, none, some, List,
  [], ◌∷◌, map, arith, ltb, length, All, length-map,
}
use tiletopia.Prelude.Res.{ok}
use tiletopia.GlbWriter.Layout.{
  MetadataValues, strings, float32, int32, uint8, GlbMesh, align4, bytes_of, sum_lengths,
  metadata_layout, compute_layout,
}
use tiletopia.GlbWriter.Bin.{
  words, scalars_of_vec3, scalars_of_vec2, color_bytes, string_offsets, write_properties,
  float_feature_id, float_feature_ids, feature_id_floats, write_bin,
}
use tiletopia.GlbWriter.Parts.{
  Located, joined, places_from, padded_size, joined-length, joined-Located, part_of, metadata_parts,
  metadata_places, mesh_parts, mesh_places, words-length, vec3-length, vec2-length,
  color_bytes-length, string_bytes-length, string_offsets-length, part_of-length, write_part-padded,
  past-align4,
}

-- The metadata of a mesh, from an offset on.
record IsLaid (properties : List MetadataValues) (offset : ℕ) : Type 0 where
  written :
      write_properties properties (metadata_layout properties offset).0
      ≡ ok (joined (metadata_parts properties))
  placed :
      metadata_places properties (metadata_layout properties offset).0
      ≡ places_from offset (metadata_parts properties)
  ended : (metadata_layout properties offset).1 ≡ offset + padded_size (metadata_parts properties)

metadata-IsLaid : (properties : List MetadataValues) (offset : ℕ) → IsLaid properties offset
unfolding write_properties metadata_layout metadata_parts metadata_places
metadata-IsLaid [] offset = record { written = refl; placed = refl; ended = omega arith }
metadata-IsLaid (float32 v ∷ properties) offset =
    let rest = metadata-IsLaid properties (offset + align4 (length v * 4)) in
    record {
      written = rw (rest.written, words-length v) refl;
      placed = rw (words-length v, rest.placed) refl;
      ended = rw (words-length v) (omega (arith, rest.ended));
    }
metadata-IsLaid (int32 v ∷ properties) offset =
    let rest = metadata-IsLaid properties (offset + align4 (length v * 4)) in
    record {
      written = rw (rest.written, words-length v) refl;
      placed = rw (words-length v, rest.placed) refl;
      ended = rw (words-length v) (omega (arith, rest.ended));
    }
metadata-IsLaid (uint8 v ∷ properties) offset =
    let rest = metadata-IsLaid properties (offset + align4 (length v)) in
    record {
      written = rw rest.written refl;
      placed = rw rest.placed refl;
      ended = omega (arith, rest.ended);
    }
metadata-IsLaid (strings list ∷ properties) offset =
    let text = string_bytes-length list in
    let table : length (words (string_offsets 0 list)) ≡ (length list + 1) * 4 =
      words-length (string_offsets 0 list) ∙ ap (λ n. n * 4) (string_offsets-length 0 list) in
    let rest =
      metadata-IsLaid properties
        (offset + align4 (sum_lengths list) + align4 ((length list + 1) * 4)) in
    record {
      written = rw (rest.written, text, table, append_assoc) refl;
      placed = rw (text, table, rest.placed) refl;
      ended = rw (text, table) (omega (arith, rest.ended));
    }

metadata-written :
    (properties : List MetadataValues) (offset : ℕ)
    → write_properties properties (metadata_layout properties offset).0
      ≡ ok (joined (metadata_parts properties))
metadata-written properties offset = (metadata-IsLaid properties offset).written

metadata-placed :
    (properties : List MetadataValues) (offset : ℕ)
    → metadata_places properties (metadata_layout properties offset).0
      ≡ places_from offset (metadata_parts properties)
metadata-placed properties offset = (metadata-IsLaid properties offset).placed

metadata-ended :
    (properties : List MetadataValues) (offset : ℕ)
    → (metadata_layout properties offset).1 ≡ offset + padded_size (metadata_parts properties)
metadata-ended properties offset = (metadata-IsLaid properties offset).ended

abbrev pub floats_of : (ℕ → ℕ) → Option (List ℕ) → Option (List ℕ)
floats_of as_f32 none = none
floats_of as_f32 (some ids) = some (map as_f32 ids)

abbrev pub or_no_ids : Option (List ℕ) → List ℕ
or_no_ids none = []
or_no_ids (some ids) = ids

float_feature_ids-map :
    (as_f32 : ℕ → ℕ) (ids : List ℕ)
    → All (λ id. id ≤ 16777216) ids
    → float_feature_ids as_f32 ids ≡ ok (map as_f32 ids)
unfolding float_feature_ids float_feature_id
float_feature_ids-map as_f32 [] h = refl
float_feature_ids-map as_f32 (id ∷ ids) h =
    let low : ltb 16777216 id ≡ false = ground arith in
    rw (low, float_feature_ids-map as_f32 ids h.1) refl

feature_id_floats-floats_of :
    (as_f32 : ℕ → ℕ) (ids : Option (List ℕ))
    → All (λ id. id ≤ 16777216) (or_no_ids ids)
    → feature_id_floats as_f32 ids ≡ ok (floats_of as_f32 ids)
feature_id_floats-floats_of as_f32 none h = refl
feature_id_floats-floats_of as_f32 (some ids) h = rw (float_feature_ids-map as_f32 ids h) refl

floats_of-length :
    (as_f32 : ℕ → ℕ) (ids : Option (List ℕ))
    → length (part_of words (floats_of as_f32 ids)) ≡ bytes_of 4 ids
floats_of-length as_f32 none = refl
floats_of-length as_f32 (some ids) =
    words-length (map as_f32 ids) ∙ ap (λ n. n * 4) (length-map ids as_f32)

-- For a mesh whose feature ids are at most 2^24, the buffer is written, has the length that the
-- layout says, and holds each part of the mesh at the place that the layout gives it, each at a
-- multiple of 4, in order and apart.
pub write_bin-Located :
    (as_f32 : ℕ → ℕ) (mesh : GlbMesh)
    → All (λ id. id ≤ 16777216) (or_no_ids mesh.feature_ids)
    → let layout = compute_layout mesh in
      (bin : List ℕ) × (write_bin as_f32 mesh layout ≡ ok bin)
      × (length bin ≡ layout.total_len)
      × Located bin 0
          (mesh_places mesh layout)
          (mesh_parts mesh (floats_of as_f32 mesh.feature_ids))
unfolding write_bin compute_layout
write_bin-Located as_f32 mesh few =
    let layout = compute_layout mesh in
    let floats = floats_of as_f32 mesh.feature_ids in
    let parts = mesh_parts mesh floats in
    let l0 = vec3-length mesh.positions in
    let l1 = part_of-length (λ n. words (scalars_of_vec3 n)) 12 mesh.normals vec3-length in
    let l2 = part_of-length words 4 mesh.indices words-length in
    let l3 = part_of-length color_bytes 4 mesh.colors color_bytes-length in
    let l4 = part_of-length (λ t. words (scalars_of_vec2 t)) 8 mesh.texcoords vec2-length in
    let l5 = floats_of-length as_f32 mesh.feature_ids in
    let l6 = part_of-length (λ bytes. bytes) 1 mesh.texture (λ l. omega arith) in
    let placed : mesh_places mesh layout ≡ places_from 0 parts =
      rw
        (
          l0, l1, l2, l3, l4, l5, l6, past-align4, past-align4, past-align4, past-align4,
          past-align4, past-align4, metadata-placed,
        )
        refl in
    let ended : layout.total_len ≡ padded_size parts =
      rw
        (
          l0, l1, l2, l3, l4, l5, l6, past-align4, past-align4, past-align4, past-align4,
          past-align4, past-align4, metadata-ended,
        )
        (omega arith) in
    let written : write_bin as_f32 mesh layout ≡ ok (joined parts) =
      rw
        (
          feature_id_floats-floats_of as_f32 mesh.feature_ids few,
          metadata-written,
          write_part-padded _ _ mesh.normals l1,
          write_part-padded _ _ mesh.indices l2,
          write_part-padded _ _ mesh.colors l3,
          write_part-padded _ _ mesh.texcoords l4,
          write_part-padded _ _ floats l5,
          write_part-padded _ _ mesh.texture l6,
          l0,
        )
        refl in
    (
      joined parts,
      written,
      joined-length parts ∙ sym ended,
      subst (λ ps. Located (joined parts) 0 ps parts) (sym placed)
          (joined-Located [] parts 0 (omega arith) (omega arith)),
    )
