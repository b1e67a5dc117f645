-- ===== src/Octree/Bounds.antt =====
-- `Aabb` of crates/tiletopia-core/src/bounding_volume.rs, over the parameter `Coord` that stands
-- for f64: its operations, and what the tiler needs of the order and of `min` and `max`, which
-- holds of the floats that are not NaN.
use tiletopia.Prelude.{◌≡◌, Bool, true, false, ◌&&◌, List, [], ◌∷◌}

pub record Coord : Type 1 where
  pub F : Type 0
  pub leb_F : F → F → Bool
  pub ltb_F : F → F → Bool
  pub min_F : F → F → F
  pub max_F : F → F → F
  pub plus : F → F → F
  pub minus : F → F → F
  pub times : F → F → F
  pub half : F
  pub two : F
  pub infinity : F
  pub neg_infinity : F
  pub leb_total : (a b : F) → leb_F a b ≡ false → leb_F b a ≡ true
  pub leb_trans : (a b c : F) → leb_F a b ≡ true → leb_F b c ≡ true → leb_F a c ≡ true
  pub leb_refl : (a : F) → leb_F a a ≡ true
  pub min_left : (a b : F) → leb_F (min_F a b) a ≡ true
  pub min_right : (a b : F) → leb_F (min_F a b) b ≡ true
  pub max_left : (a b : F) → leb_F a (max_F a b) ≡ true
  pub max_right : (a b : F) → leb_F b (max_F a b) ≡ true

module _ (coord : Coord) where
  open coord use {F, leb_F, min_F, max_F, plus, minus, times, half, two, infinity, neg_infinity}

  pub record Vec3 : Type 0 where
    pub x : F
    pub y : F
    pub z : F

  pub record Aabb : Type 0 where
    pub low : Vec3
    pub high : Vec3

  -- `Aabb::empty`
  unfoldable pub empty : Aabb
  empty = record {
    low = record { x = infinity; y = infinity; z = infinity };
    high = record { x = neg_infinity; y = neg_infinity; z = neg_infinity };
  }

  -- `Aabb::expand_point`
  unfoldable pub expand_point : Aabb → Vec3 → Aabb
  expand_point b p = record {
    low = record { x = min_F b.low.x p.x; y = min_F b.low.y p.y; z = min_F b.low.z p.z };
    high = record { x = max_F b.high.x p.x; y = max_F b.high.y p.y; z = max_F b.high.z p.z };
  }

  -- `Aabb::center`
  unfoldable pub center : Aabb → Vec3
  center b = record {
    x = times (plus b.low.x b.high.x) half;
    y = times (plus b.low.y b.high.y) half;
    z = times (plus b.low.z b.high.z) half;
  }

  -- `Aabb::half_extents`
  unfoldable pub half_extents : Aabb → Vec3
  half_extents b = record {
    x = times (minus b.high.x b.low.x) half;
    y = times (minus b.high.y b.low.y) half;
    z = times (minus b.high.z b.low.z) half;
  }

  -- `Aabb::max_extent`
  unfoldable pub max_extent : Aabb → F
  unfolding half_extents
  max_extent b = let h = half_extents b in times (max_F (max_F h.x h.y) h.z) two

  abbrev box : F → F → F → F → F → F → Aabb
  box a b c d e f = record {
    low = record { x = a; y = b; z = c };
    high = record { x = d; y = e; z = f };
  }

  -- `Aabb::octants`
  unfoldable pub octants : Aabb → List Aabb
  unfolding center
  octants b =
      let c = center b in
      let mx = b.low.x in
      let my = b.low.y in
      let mz = b.low.z in
      let ax = b.high.x in
      let ay = b.high.y in
      let az = b.high.z in
      box mx my mz c.x c.y c.z
      ∷ box c.x my mz ax c.y c.z
      ∷ box mx c.y mz c.x ay c.z
      ∷ box c.x c.y mz ax ay c.z
      ∷ box mx my c.z c.x c.y az
      ∷ box c.x my c.z ax c.y az
      ∷ box mx c.y c.z c.x ay az
      ∷ box c.x c.y c.z ax ay az
      ∷ []

  -- `Aabb::contains_point`
  unfoldable pub contains_point : Aabb → Vec3 → Bool
  contains_point b p =
      leb_F b.low.x p.x
      && leb_F p.x b.high.x
      && leb_F b.low.y p.y
      && leb_F p.y b.high.y
      && leb_F b.low.z p.z
      && leb_F p.z b.high.z
