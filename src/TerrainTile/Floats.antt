-- ===== src/TerrainTile/Floats.antt =====
-- What the terrain tiles of crates/tiletopia-server/src/terrain_api.rs use of f64, as a parameter.
-- The laws hold of IEEE 754 arithmetic: NaN is the one value that is not at most itself, rounding
-- keeps the order, and a cast to u16 saturates and takes NaN to 0.
use tiletopia.Prelude.{ℕ, ◌≤◌, ◌≡◌, Bool, true, List, length}

pub record Float : Type 1 where
  pub F : Type 0
  pub leb_F : F → F → Bool
  pub ltb_F : F → F → Bool
  pub min_F : F → F → F
  pub max_F : F → F → F
  pub plus : F → F → F
  pub minus : F → F → F
  pub times : F → F → F
  pub over : F → F → F
  pub abs : F → F
  pub sqrt : F → F
  pub sin : F → F
  pub cos : F → F
  pub asin : F → F
  pub to_radians : F → F
  -- `powi(2)`, and `2f64.powi`
  pub square : F → F
  pub power_of_two : ℕ → F
  -- `as f64`, and a literal by its digits and how many of them stand after the point
  pub of_nat : ℕ → F
  pub decimal : ℕ → ℕ → F
  -- `f64::MAX` and `f64::MIN`
  pub greatest : F
  pub least : F
  pub as_u16 : F → ℕ
  pub f64_bytes : F → List ℕ
  -- the bytes of `as f32`
  pub f32_bytes : F → List ℕ
  pub leb_trans : (a b c : F) → leb_F a b ≡ true → leb_F b c ≡ true → leb_F a c ≡ true
  pub leb_left : (a b : F) → leb_F a b ≡ true → leb_F a a ≡ true
  pub leb_right : (a b : F) → leb_F a b ≡ true → leb_F b b ≡ true
  pub min_left : (a b : F) → leb_F a a ≡ true → leb_F b b ≡ true → leb_F (min_F a b) a ≡ true
  pub min_right : (a b : F) → leb_F a a ≡ true → leb_F b b ≡ true → leb_F (min_F a b) b ≡ true
  pub max_left : (a b : F) → leb_F a a ≡ true → leb_F b b ≡ true → leb_F a (max_F a b) ≡ true
  pub max_right : (a b : F) → leb_F a a ≡ true → leb_F b b ≡ true → leb_F b (max_F a b) ≡ true
  pub greatest_number : leb_F greatest greatest ≡ true
  pub least_number : leb_F least least ≡ true
  -- A share of a range is at most the whole.
  pub scaled_fits :
      (low high x : F)
      → leb_F low x ≡ true
      → leb_F x high ≡ true
      → as_u16 (times (over (minus x low) (minus high low)) (of_nat 32767)) ≤ 32767
  -- What lies in a range below a millionth is a small part of 1.
  pub flat_fits :
      (low high x : F)
      → leb_F low x ≡ true
      → leb_F x high ≡ true
      → ltb_F (abs (minus high low)) (decimal 1 6) ≡ true
      → as_u16 (times (over (minus x low) (of_nat 1)) (of_nat 32767)) ≤ 32767
  pub f64_bytes_eight : (x : F) → length (f64_bytes x) ≡ 8
  pub f32_bytes_four : (x : F) → length (f32_bytes x) ≡ 4
