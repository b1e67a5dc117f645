-- ===== src/GlbWriter/Container.antt =====
-- The container around the JSON document and the binary buffer, `write_container` of
-- crates/tiletopia-core/src/glb_writer.rs, and how a reader of the format takes it apart. The bytes
-- of the JSON (serde_json) are given.
use tiletopia.Prelude.{
  ℕ, ◌+◌, ◌-◌, ◌*◌, ◌/◌, ◌%◌, ◌≤◌, ◌<◌, ◌≡◌, refl, ap, subst, append-nil, true, ◌&&◌, List, [], ◌∷◌,
  ◌++◌, arith, ltb, leb, ◌==◌, if◌then◌else◌, ==_iff, length, drop, replicate, length-append,
  length-replicate, take, take-length_append, drop-length_append,
}
use tiletopia.Prelude.Res.{Res, ok, err, ◌>>=◌, ◌>>◌, guard}
use tiletopia.Octree.Pnts.{to_le_bytes}
use tiletopia.GlbWriter.Layout.{align4}

abbrev pub glb_magic : ℕ
glb_magic = 0x46546C67

abbrev pub glb_version : ℕ
glb_version = 2

abbrev pub chunk_type_json : ℕ
chunk_type_json = 0x4E4F534A

abbrev pub chunk_type_bin : ℕ
chunk_type_bin = 0x004E4942

-- The whole length, a u32 that wraps.
unfoldable pub total_len : ℕ → ℕ → ℕ
total_len json_padded_len bin_padded_len =
    (12 + (8 + json_padded_len) + (if ltb 0 bin_padded_len then 8 + bin_padded_len else 0))
    % 4294967296

abbrev pub bin_chunk : List ℕ → List ℕ
bin_chunk bin =
    if ltb 0 (length bin)
    then to_le_bytes (length bin) ++ (to_le_bytes chunk_type_bin ++ bin)
    else []

unfoldable pub write_container : List ℕ → List ℕ → List ℕ
write_container json_bytes bin =
    let json_padded_len = align4 (length json_bytes) in
    to_le_bytes glb_magic
    ++ (to_le_bytes glb_version
        ++ (to_le_bytes (total_len json_padded_len (length bin))
            ++ (to_le_bytes json_padded_len
                ++ (to_le_bytes chunk_type_json
                    ++ ((json_bytes ++ replicate (json_padded_len - length json_bytes) 32)
                        ++ bin_chunk bin)))))

pub data ReadError : Type 0 where
  bad_header : ReadError
  bad_chunk : ReadError
  too_short : ReadError

-- A chunk's type and data, with the bytes after it.
unfoldable pub read_u32 : List ℕ → Res ReadError (ℕ × List ℕ)
read_u32 (a ∷ b ∷ c ∷ d ∷ rest) = ok (a + 256 * b + 65536 * c + 16777216 * d, rest)
read_u32 bytes = err too_short

unfoldable pub read_chunk : ℕ → List ℕ → Res ReadError (List ℕ × List ℕ)
read_chunk wanted bytes = do
  (size, bytes) ← read_u32 bytes
  (kind, bytes) ← read_u32 bytes
  guard (kind == wanted) bad_chunk
  guard (leb size (length bytes)) too_short
  ok (take size bytes, drop size bytes)

-- The binary chunk is there when bytes are left.
abbrev pub read_bin : List ℕ → Res ReadError (List ℕ)
read_bin [] = ok []
read_bin (b ∷ bytes) = do (data_bytes, rest) ← read_chunk chunk_type_bin (b ∷ bytes); ok data_bytes

-- The JSON and the binary buffer, if the header's length is that of the file.
unfoldable pub read_container : List ℕ → Res ReadError (List ℕ × List ℕ)
read_container file = do
  (magic, bytes) ← read_u32 file
  (version, bytes) ← read_u32 bytes
  (whole, bytes) ← read_u32 bytes
  guard ((magic == glb_magic) && (version == glb_version) && (whole == length file)) bad_header
  (json, bytes) ← read_chunk chunk_type_json bytes
  bin ← read_bin bytes
  ok (json, bin)

read_u32-write :
    (n : ℕ) (rest : List ℕ) → n < 4294967296 → read_u32 (to_le_bytes n ++ rest) ≡ ok (n, rest)
unfolding read_u32 to_le_bytes
read_u32-write n rest h =
    let whole : n % 256
          + 256 * (n / 256 % 256)
          + 65536 * (n / 65536 % 256)
          + 16777216 * (n / 16777216 % 256)
        ≡ n =
      omega arith in
    rw whole refl

read_chunk-write :
    (kind : ℕ) (part rest : List ℕ)
    → kind < 4294967296
    → length part < 4294967296
    → read_chunk kind (to_le_bytes (length part) ++ (to_le_bytes kind ++ (part ++ rest)))
      ≡ ok (part, rest)
unfolding read_chunk
read_chunk-write kind part rest k l =
    let same : (kind == kind) ≡ true = ground arith in
    let fits : leb (length part) (length (part ++ rest)) ≡ true =
      ground (arith, length-append part rest) in
    rw
      (
        read_u32-write (length part) (to_le_bytes kind ++ (part ++ rest)) l,
        read_u32-write kind (part ++ rest) k,
        same,
        fits,
        take-length_append part rest,
        drop-length_append part rest,
      )
      refl

read_bin-chunk : (bin : List ℕ) → length bin < 4294967296 → read_bin (bin_chunk bin) ≡ ok bin
unfolding to_le_bytes
read_bin-chunk [] l = refl
read_bin-chunk (b ∷ bin) l =
    let some_bytes : ltb 0 (length (b ∷ bin)) ≡ true = ground arith in
    let chunk = read_chunk-write chunk_type_bin (b ∷ bin) [] (omega arith) l in
    rw some_bytes (ap (λ r. r >>= λ p. ok p.0) (rw append-nil at chunk))

abbrev pub spaces : List ℕ → List ℕ
spaces json_bytes = replicate (align4 (length json_bytes) - length json_bytes) 32

align4-low : (n : ℕ) → (n ≤ align4 n) × (align4 n % 4 ≡ 0)
unfolding align4
align4-low n = (omega arith, omega arith)

json-length :
    (json_bytes : List ℕ) → length (json_bytes ++ spaces json_bytes) ≡ align4 (length json_bytes)
json-length json_bytes =
    let n = length json_bytes in
    let low = (align4-low n).0 in
    omega (
      arith,
      length-append json_bytes (spaces json_bytes),
      length-replicate {A = ℕ} (align4 n - n) 32,
    )

bin_chunk-length :
    (bin : List ℕ) → length (bin_chunk bin) ≡ (if ltb 0 (length bin) then 8 + length bin else 0)
unfolding to_le_bytes
bin_chunk-length [] = refl
bin_chunk-length (b ∷ bin) =
    let some_bytes : ltb 0 (length (b ∷ bin)) ≡ true = ground arith in rw some_bytes (omega arith)

word-length : (n : ℕ) (rest : List ℕ) → length (to_le_bytes n ++ rest) ≡ 4 + length rest
unfolding to_le_bytes
word-length n rest = omega arith

-- A file of fewer than 2^32 bytes reads back as the JSON, padded with spaces to a multiple of 4,
-- and the binary buffer as it was; the length in the header is that of the file.
pub write_container-read :
    (json_bytes bin : List ℕ)
    → 28 + align4 (length json_bytes) + length bin < 4294967296
    → (read_container (write_container json_bytes bin) ≡ ok (json_bytes ++ spaces json_bytes, bin))
      × (length (json_bytes ++ spaces json_bytes) % 4 ≡ 0)
unfolding read_container write_container total_len
write_container-read json_bytes bin small =
    let n = align4 (length json_bytes) in
    let json = json_bytes ++ spaces json_bytes in
    let size = json-length json_bytes in
    let total = (12 + (8 + n) + (if ltb 0 (length bin) then 8 + length bin else 0)) % 4294967296 in
    let r4 = to_le_bytes n ++ (to_le_bytes chunk_type_json ++ (json ++ bin_chunk bin)) in
    let r3 = to_le_bytes total ++ r4 in
    let r2 = to_le_bytes glb_version ++ r3 in
    let file = to_le_bytes glb_magic ++ r2 in
    let chunk : read_chunk chunk_type_json r4 ≡ ok (json, bin_chunk bin) =
      subst
        (λ k.
          read_chunk chunk_type_json
            (to_le_bytes k ++ (to_le_bytes chunk_type_json ++ (json ++ bin_chunk bin)))
          ≡ ok (json, bin_chunk bin))
        size
        (read_chunk-write chunk_type_json json (bin_chunk bin) (omega arith)
          (omega (arith, size))) in
    let counted : total ≡ length file = ground (
      arith,
      word-length glb_magic r2,
      word-length glb_version r3,
      word-length total r4,
      word-length n (to_le_bytes chunk_type_json ++ (json ++ bin_chunk bin)),
      word-length chunk_type_json (json ++ bin_chunk bin),
      length-append json (bin_chunk bin),
      size,
      bin_chunk-length bin,
    ) in
    let right : ((glb_magic == glb_magic) && (glb_version == glb_version) && (total == length file))
        ≡ true =
      (==_iff total (length file)).1 counted in
    (
      rw
          (
            read_u32-write glb_magic r2 (omega arith),
            read_u32-write glb_version r3 (omega arith),
            read_u32-write total r4 (omega arith),
            right,
            chunk,
            read_bin-chunk bin (omega arith),
          )
          refl,
      rw size (align4-low (length json_bytes)).1,
    )
