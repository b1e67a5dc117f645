-- ===== src/TerrainTile/Codes.antt =====
-- The two codes of the numbers of a terrain tile, of crates/tiletopia-server/src/terrain_api.rs, and
-- how a client that follows the quantized-mesh format reads them.
use tiletopia.Prelude.{
  ℕ, zero, suc, ◌+◌, ◌-◌, ◌*◌, ◌/◌, ◌%◌, ◌≤◌, ◌<◌, ◌≡◌, refl, ap, inl, inr, List, [], ◌∷◌, map,
  arith, leb, ◌==◌, if◌then◌else◌, Bool-cases, length, All,
}
use Prim.Native.Nat.{bit_xor, bit_xor-bitwise, digits, differ}

-- An i32 is kept as its 32 bits; `x >> 31` of an i32 copies the sign to every bit.
abbrev shift_left_1 : ℕ → ℕ
shift_left_1 x = x * 2 % 4294967296

abbrev shift_right_31 : ℕ → ℕ
shift_right_31 x = if leb 2147483648 x then 4294967295 else 0

abbrev i32_sub : ℕ → ℕ → ℕ
i32_sub a b = (a + 4294967296 - b) % 4294967296

unfoldable pub zigzag : ℕ → ℕ
zigzag delta = bit_xor (shift_left_1 delta) (shift_right_31 delta) % 65536

unfoldable pub delta_encode_from : ℕ → List ℕ → List ℕ
delta_encode_from prev [] = []
delta_encode_from prev (v ∷ values) = zigzag (i32_sub v prev) ∷ delta_encode_from v values

abbrev pub delta_encode_u16 : List ℕ → List ℕ
delta_encode_u16 values = delta_encode_from 0 values

-- The client's reading: an even code is a step up by its half, an odd one a step down.
abbrev pub unzigzag : ℕ → ℕ → ℕ
unzigzag prev code = if code % 2 == 0 then prev + code / 2 else prev - (code / 2 + 1)

unfoldable pub delta_decode_from : ℕ → List ℕ → List ℕ
delta_decode_from prev [] = []
delta_decode_from prev (code ∷ codes) =
    unzigzag prev code ∷ delta_decode_from (unzigzag prev code) codes

abbrev ones : ℕ → ℕ
ones zero = 0
ones (suc k) = ones k * 2 + 1

differ_one : (x : ℕ) → x < 2 → differ x 1 ≡ 1 - x
differ_one zero h = refl
differ_one (suc zero) h = refl
differ_one (suc (suc x)) h = absurd (omega arith)

differ_zero : (x : ℕ) → differ x 0 ≡ x
differ_zero zero = refl
differ_zero (suc x) = refl

xor_ones : (n k a : ℕ) → a ≤ n → a ≤ ones k → digits (λ b. b) differ n a (ones k) ≡ ones k - a
xor_ones zero k zero h l = omega arith
xor_ones zero k (suc a) h l = absurd (omega arith)
xor_ones (suc n) k zero h l = omega arith
xor_ones (suc n) zero (suc a) h l = absurd (omega arith)
xor_ones (suc n) (suc k) (suc a) h l =
    let half : (ones k * 2 + 1) / 2 ≡ ones k = omega arith in
    let low : (ones k * 2 + 1) % 2 ≡ 1 = omega arith in
    rw (half, low)
      (omega (
        arith,
        xor_ones n k (suc a / 2) (omega arith) (omega arith),
        differ_one (suc a % 2) (omega arith),
      ))

xor_zero : (n a : ℕ) → a ≤ n → digits (λ b. b) differ n a 0 ≡ a
xor_zero zero zero h = refl
xor_zero zero (suc a) h = absurd (omega arith)
xor_zero (suc n) zero h = refl
xor_zero (suc n) (suc a) h =
    omega (arith, xor_zero n (suc a / 2) (omega arith), differ_zero (suc a % 2))

zigzag_up : (prev v : ℕ) → prev ≤ v → v ≤ 32767 → zigzag (i32_sub v prev) ≡ 2 * (v - prev)
unfolding zigzag
zigzag_up prev v h l =
    let step : i32_sub v prev ≡ v - prev = omega arith in
    let up : shift_right_31 (v - prev) ≡ 0 = ground arith in
    let same : shift_left_1 (v - prev) ≡ 2 * (v - prev) = omega arith in
    rw (step, up, same)
      (omega (
        arith,
        bit_xor-bitwise (2 * (v - prev)) 0,
        xor_zero (2 * (v - prev)) (2 * (v - prev)) (omega arith),
      ))

zigzag_down : (prev v : ℕ) → v < prev → prev ≤ 32767 → zigzag (i32_sub v prev) ≡ 2 * (prev - v) - 1
unfolding zigzag
zigzag_down prev v h l =
    let step : i32_sub v prev ≡ 4294967296 - (prev - v) = omega arith in
    let down : shift_right_31 (4294967296 - (prev - v)) ≡ ones 32 = ground arith in
    let doubled : shift_left_1 (4294967296 - (prev - v)) ≡ 4294967296 - 2 * (prev - v) =
      omega arith in
    rw (step, down, doubled)
      (omega (
        arith,
        bit_xor-bitwise (4294967296 - 2 * (prev - v)) (ones 32),
        xor_ones (4294967296 - 2 * (prev - v)) 32 (4294967296 - 2 * (prev - v)) (omega arith)
            (omega arith),
      ))

unzigzag-zigzag :
    (prev v : ℕ) → prev ≤ 32767 → v ≤ 32767 → unzigzag prev (zigzag (i32_sub v prev)) ≡ v
unzigzag-zigzag prev v p q = elim (Bool-cases (leb prev v)) [
  | inl up ↦ rw (zigzag_up prev v (ground arith) q) (ground arith)
  | inr down ↦ rw (zigzag_down prev v (ground arith) p) (ground arith)
]

delta_decode-encode :
    (prev : ℕ) (values : List ℕ)
    → prev ≤ 32767
    → All (λ v. v ≤ 32767) values
    → delta_decode_from prev (delta_encode_from prev values) ≡ values
unfolding delta_decode_from delta_encode_from
delta_decode-encode prev [] p h = refl
delta_decode-encode prev (v ∷ values) p h =
    rw (unzigzag-zigzag prev v p h.0, delta_decode-encode v values h.0 h.1) refl

-- Values of at most 32767, which is what a tile's coordinates are quantized to, are read back from
-- their 16-bit delta codes as they were.
pub delta_encode_u16-decode :
    (values : List ℕ)
    → All (λ v. v ≤ 32767) values
    → delta_decode_from 0 (delta_encode_u16 values) ≡ values
delta_encode_u16-decode values h = delta_decode-encode 0 values (omega arith) h

-- The high-water mark after one index.
abbrev pub advance : ℕ → ℕ → ℕ
advance highest idx = if idx == highest then highest + 1 else highest

-- u32, `highest - idx` and `highest += 1` with their wrap-around
unfoldable pub high_water_mark_from : ℕ → List ℕ → List ℕ
high_water_mark_from highest [] = []
high_water_mark_from highest (idx ∷ indices) =
    (highest + 4294967296 - idx) % 4294967296
    ∷ high_water_mark_from (advance highest idx % 4294967296) indices

abbrev pub high_water_mark_encode : List ℕ → List ℕ
high_water_mark_encode indices = high_water_mark_from 0 indices

-- The client's reading.
unfoldable pub high_water_decode_from : ℕ → List ℕ → List ℕ
high_water_decode_from highest [] = []
high_water_decode_from highest (code ∷ codes) =
    (highest - code) ∷ high_water_decode_from (if code == 0 then highest + 1 else highest) codes

-- The high-water mark after all of them, and that no index is above the mark it meets.
abbrev pub mark : ℕ → List ℕ → ℕ
mark highest [] = highest
mark highest (idx ∷ indices) = mark (advance highest idx) indices

abbrev pub FirstUse : ℕ → List ℕ → Type 0
FirstUse highest [] = Unit
FirstUse highest (idx ∷ indices) = (idx ≤ highest) × FirstUse (advance highest idx) indices

advance-grows : (highest idx : ℕ) → highest ≤ advance highest idx
advance-grows highest idx = ground arith

mark-grows : (highest : ℕ) (indices : List ℕ) → highest ≤ mark highest indices
mark-grows highest [] = omega arith
mark-grows highest (idx ∷ indices) =
    omega (arith, mark-grows (advance highest idx) indices, advance-grows highest idx)

abbrev pub as_u16 : List ℕ → List ℕ
as_u16 = map (λ idx. idx % 65536)

zero_code : (highest idx : ℕ) → idx ≤ highest → (highest - idx == 0) ≡ (idx == highest)
zero_code highest idx h = ground arith

pub high_water-decode :
    (highest : ℕ) (indices : List ℕ)
    → FirstUse highest indices
    → mark highest indices ≤ 65535
    → high_water_decode_from highest (as_u16 (high_water_mark_from highest indices)) ≡ indices
unfolding high_water_decode_from high_water_mark_from
high_water-decode highest [] u m = refl
high_water-decode highest (idx ∷ indices) u m =
    let low = mark-grows (advance highest idx) indices in
    let grows = advance-grows highest idx in
    let code : (highest + 4294967296 - idx) % 4294967296 % 65536 ≡ highest - idx = omega arith in
    let whole : advance highest idx % 4294967296 ≡ advance highest idx = omega arith in
    let back : highest - (highest - idx) ≡ idx = omega arith in
    rw
      (
        code,
        whole,
        zero_code highest idx u.0,
        back,
        high_water-decode (advance highest idx) indices u.1 m,
      )
      refl

-- The lengths of the codes, and their size.
delta_encode-length :
    (prev : ℕ) (values : List ℕ) → length (delta_encode_from prev values) ≡ length values
unfolding delta_encode_from
delta_encode-length prev [] = refl
delta_encode-length prev (v ∷ values) = ap suc (delta_encode-length v values)

pub delta_encode_u16-length : (values : List ℕ) → length (delta_encode_u16 values) ≡ length values
delta_encode_u16-length values = delta_encode-length 0 values

delta_encode-All :
    (prev : ℕ) (values : List ℕ) → All (λ v. v < 65536) (delta_encode_from prev values)
unfolding delta_encode_from zigzag
delta_encode-All prev [] = tt
delta_encode-All prev (v ∷ values) = (omega arith, delta_encode-All v values)

pub delta_encode_u16-All : (values : List ℕ) → All (λ v. v < 65536) (delta_encode_u16 values)
delta_encode_u16-All values = delta_encode-All 0 values

pub high_water-length :
    (highest : ℕ) (indices : List ℕ)
    → length (high_water_mark_from highest indices) ≡ length indices
unfolding high_water_mark_from
high_water-length highest [] = refl
high_water-length highest (idx ∷ indices) =
    ap suc (high_water-length (advance highest idx % 4294967296) indices)

pub as_u16-All : (values : List ℕ) → All (λ v. v < 65536) (as_u16 values)
as_u16-All [] = tt
as_u16-All (v ∷ values) = (omega arith, as_u16-All values)
