-- ===== src/TerrainTile/Reorder.antt =====
-- The renumbering of a mesh's vertices, `reorder_by_first_use` of
-- crates/tiletopia-server/src/terrain_api.rs.
use tiletopia.Prelude.{
  ℕ, zero, suc, ◌+◌, ◌%◌, ◌≤◌, ◌<◌, ◌≡◌, refl, sym, ap, subst, ◌∙◌, append_assoc, append-nil, ◌≢◌,
  inl, inr, Option, none, some, List, [], ◌∷◌, ◌++◌, map, arith, ◌==◌, if◌then◌else◌, ==_iff,
  Bool-cases, length, get_elem?, set, replicate, All, length-append, length-set, length-replicate,
}
use tiletopia.Prelude.Res.{Res, ok, err, ◌>>=◌}
use mathlib.Core.Option.{some-injective}
use tiletopia.TerrainTile.Codes.{advance, mark, FirstUse}

pub record Triangle : Type 0 where
  pub a : ℕ
  pub b : ℕ
  pub c : ℕ

abbrev pub flattened : List Triangle → List ℕ
flattened [] = []
flattened (t ∷ triangles) = t.a ∷ t.b ∷ t.c ∷ flattened triangles

pub record TerrainMesh (V : Type 0) : Type 0 where
  pub vertices : List V
  pub indices : List Triangle

-- u32::MAX, for a vertex that has no new number yet
abbrev pub unnumbered : ℕ
unnumbered = 4294967295

-- Vertices that have no new number yet.
abbrev count_unnumbered : List ℕ → ℕ
count_unnumbered [] = 0
count_unnumbered (slot ∷ slots) = (if slot == unnumbered then 1 else 0) + count_unnumbered slots

get_elem?-set : (xs : List ℕ) (i j v : ℕ) → i ≢ j → get_elem? (set xs i v) j ≡ get_elem? xs j
get_elem?-set [] i j v h = refl
get_elem?-set (x ∷ xs) zero zero v h = absurd (h refl)
get_elem?-set (x ∷ xs) zero (suc j) v h = refl
get_elem?-set (x ∷ xs) (suc i) zero v h = refl
get_elem?-set (x ∷ xs) (suc i) (suc j) v h = get_elem?-set xs i j v (λ e. h (ap suc e))

get_elem?-set_same : (xs : List ℕ) (i v slot : ℕ) → get_elem? (set xs i v) i ≡ some slot → slot ≡ v
get_elem?-set_same [] i v slot h = cc
get_elem?-set_same (x ∷ xs) zero v slot h = cc
get_elem?-set_same (x ∷ xs) (suc i) v slot h = get_elem?-set_same xs i v slot h

count-set :
    (slots : List ℕ) (i v slot : ℕ)
    → get_elem? slots i ≡ some slot
    → slot ≡ unnumbered
    → v < unnumbered
    → count_unnumbered (set slots i v) + 1 ≡ count_unnumbered slots
count-set [] i v slot h e l = cc
count-set (x ∷ slots) zero v slot h e l = let same = some-injective _ _ h in ground arith
count-set (x ∷ slots) (suc i) v slot h e l = omega (arith, count-set slots i v slot h e l)

get_elem?-total :
    {A : Type 0} (xs : List A) (i : ℕ) → i < length xs → (x : A) × (get_elem? xs i ≡ some x)
get_elem?-total [] i h = absurd (omega arith)
get_elem?-total (x ∷ xs) zero h = (x, refl)
get_elem?-total (x ∷ xs) (suc i) h = get_elem?-total xs i (omega arith)

pub data Panic : Type 0 where
  index_out_of_bounds : Panic

module _ {V : Type 0} where
  -- The new number of one vertex, then `new_of_old` and `positions` after it; an index
  -- out of range panics.
  abbrev pub number_vertex :
      List V → ℕ → Option ℕ → Option V → List ℕ → List V → Res Panic (ℕ × List ℕ × List V)
  number_vertex vertices old none vertex new_of_old positions = err index_out_of_bounds
  number_vertex vertices old (some slot) none new_of_old positions =
      if slot == unnumbered then err index_out_of_bounds else ok (slot, new_of_old, positions)
  number_vertex vertices old (some slot) (some vertex) new_of_old positions =
      if slot == unnumbered
      then ok (
        length positions % 4294967296,
        set new_of_old old (length positions % 4294967296),
        positions ++ (vertex ∷ []),
      )
      else ok (slot, new_of_old, positions)

  unfoldable pub renumber : List V → List ℕ → List ℕ → List V → Res Panic (List V × List ℕ)
  renumber vertices [] new_of_old positions = ok (positions, [])
  renumber vertices (old ∷ olds) new_of_old positions = do
    (slot, slots, placed) ←
        number_vertex vertices old (get_elem? new_of_old old) (get_elem? vertices old) new_of_old
          positions
    (all, flat) ← renumber vertices olds slots placed
    ok (all, slot ∷ flat)

  unfoldable pub reorder_by_first_use : TerrainMesh V → Res Panic (List V × List ℕ)
  unfolding renumber
  reorder_by_first_use mesh =
      renumber mesh.vertices (flattened mesh.indices) (replicate (length mesh.vertices) unnumbered)
        []

  -- A number, once given, is that of the vertex's place in `positions`.
  abbrev IsNumbering : List V → List ℕ → List V → Type 0
  IsNumbering vertices slots positions =
      (length slots ≡ length vertices)
      × ((i slot : ℕ)
          → get_elem? slots i ≡ some slot
          → slot ≢ unnumbered
          → (slot < length positions) × (get_elem? positions slot ≡ get_elem? vertices i))
      × (count_unnumbered slots + length positions ≤ length vertices)

  get_elem?-append_left :
      (xs ys : List V) (i : ℕ) → i < length xs → get_elem? (xs ++ ys) i ≡ get_elem? xs i
  get_elem?-append_left [] ys i h = absurd (omega arith)
  get_elem?-append_left (x ∷ xs) ys zero h = refl
  get_elem?-append_left (x ∷ xs) ys (suc i) h = get_elem?-append_left xs ys i (omega arith)

  get_elem?-last : (xs : List V) (x : V) → get_elem? (xs ++ (x ∷ [])) (length xs) ≡ some x
  get_elem?-last [] x = refl
  get_elem?-last (y ∷ xs) x = get_elem?-last xs x

  -- What numbering one vertex gives.
  abbrev Numbered : List V → ℕ → List V → Res Panic (ℕ × List ℕ × List V) → Type 0
  Numbered vertices old positions result =
      (slot : ℕ) × (slots : List ℕ) × (more : List V) × (result
        ≡ ok (slot, slots, positions ++ more))
      × IsNumbering vertices slots (positions ++ more)
      × (slot ≤ length positions)
      × (length (positions ++ more) ≡ advance (length positions) slot)
      × (get_elem? (positions ++ more) slot ≡ get_elem? vertices old)

  number_vertex-Numbered :
      (vertices : List V) (old : ℕ) (slots : List ℕ) (positions : List V)
      → length vertices < unnumbered
      → old < length vertices
      → IsNumbering vertices slots positions
      → Numbered vertices old positions (
          number_vertex vertices old (get_elem? slots old) (get_elem? vertices old) slots positions)
  number_vertex-Numbered vertices old slots positions few within (long, placed, room) =
      let (vertex, at_old) = get_elem?-total vertices old within in
      let (slot, slot_at) = get_elem?-total slots old (omega arith) in
      elim (Bool-cases (slot == unnumbered)) [
        | inl fresh ↦
            let new : slot ≡ unnumbered = (==_iff slot unnumbered).0 fresh in
            let n = length positions in
            let counted = count-set slots old n slot slot_at new (omega arith) in
            let long1 = length-append positions (vertex ∷ []) in
            let same : n % 4294967296 ≡ n = omega arith in
            let here : get_elem? (positions ++ (vertex ∷ [])) n ≡ get_elem? vertices old =
              get_elem?-last positions vertex ∙ sym at_old in
            (
              n,
              set slots old n,
              vertex ∷ [],
              rw (slot_at, at_old, fresh, same) refl,
              (
                length-set slots old n ∙ long,
                (λ i s found numbered. elim (Bool-cases (old == i)) [
                  | inl e ↦
                      let i_old : old ≡ i = (==_iff old i).0 e in
                      let s_n : s ≡ n =
                        get_elem?-set_same slots old n s
                          (subst (λ j. get_elem? (set slots old n) j ≡ some s) (sym i_old) found) in
                      (
                        omega arith,
                        (ap (get_elem? (positions ++ (vertex ∷ []))) s_n ∙ here)
                            ∙ ap (get_elem? vertices) i_old,
                      )
                  | inr e ↦
                      let apart : old ≢ i = λ p. (let q = (==_iff old i).1 p in cc) in
                      let before =
                        placed i s (sym (get_elem?-set slots old i n apart) ∙ found) numbered in
                      (
                        omega arith,
                        get_elem?-append_left positions (vertex ∷ []) s before.0 ∙ before.1,
                      )
                ]),
                omega arith,
              ),
              omega arith,
              ground arith,
              here,
            )
        | inr old_slot ↦
            let numbered : slot ≢ unnumbered = λ p. (let q = (==_iff slot unnumbered).1 p in cc) in
            let (below, same) = placed old slot slot_at numbered in
            (
              slot,
              slots,
              [],
              rw (slot_at, at_old, old_slot, append-nil) refl,
              rw append-nil (long, placed, room),
              omega arith,
              rw append-nil (ground arith),
              rw append-nil same,
            )
      ]

  -- What numbering a list of vertices gives.
  abbrev Renumbered : List V → List ℕ → List V → Res Panic (List V × List ℕ) → Type 0
  Renumbered vertices olds positions result =
      (more : List V) × (flat : List ℕ) × (result ≡ ok (positions ++ more, flat))
      × FirstUse (length positions) flat
      × (mark (length positions) flat ≡ length (positions ++ more))
      × (map (get_elem? (positions ++ more)) flat ≡ map (get_elem? vertices) olds)
      × (length (positions ++ more) ≤ length vertices)

  renumber-Renumbered :
      (vertices : List V) (olds slots : List ℕ) (positions : List V)
      → length vertices < unnumbered
      → All (λ old. old < length vertices) olds
      → IsNumbering vertices slots positions
      → Renumbered vertices olds positions (renumber vertices olds slots positions)
  unfolding renumber
  renumber-Renumbered vertices [] slots positions few h inv = (
    [],
    [],
    rw append-nil refl,
    tt,
    rw append-nil refl,
    refl,
    rw append-nil (let counted = inv.2 in omega arith),
  )
  renumber-Renumbered vertices (old ∷ olds) slots positions few h inv =
      let (slot, slots1, more, step, inv1, low, counted, found) =
        number_vertex-Numbered vertices old slots positions few h.0 inv in
      let (more1, flat, rest, uses, marked, same, bounded) =
        renumber-Renumbered vertices olds slots1 (positions ++ more) few h.1 inv1 in
      let within : slot < length (positions ++ more) = ground arith in
      let joined = append_assoc positions more more1 in
      let stays = get_elem?-append_left (positions ++ more) more1 slot within in
      (
        more ++ more1,
        slot ∷ flat,
        rw (step, rest, joined) refl,
        (low, subst (λ n. FirstUse n flat) counted uses),
        (ap (λ n. mark n flat) (sym counted) ∙ marked) ∙ ap length joined,
        (let first : get_elem? (positions ++ (more ++ more1)) slot ≡ get_elem? vertices old =
              ap (λ l. get_elem? l slot) (sym joined) ∙ (stays ∙ found) in
            let others : map (get_elem? (positions ++ (more ++ more1))) flat
                ≡ map (get_elem? vertices) olds =
              ap (λ l. map (get_elem? l) flat) (sym joined) ∙ same in
            rw (first, others) refl),
        subst (λ l. length l ≤ length vertices) joined bounded,
      )

  unnumbered-IsNumbering :
      (vertices : List V) → IsNumbering vertices (replicate (length vertices) unnumbered) []
  unnumbered-IsNumbering vertices = (
    length-replicate (length vertices) unnumbered,
    (λ i slot found numbered. absurd (numbered (all_same (length vertices) i slot found))),
    counts (length vertices),
  )
    where
      all_same :
          (n i slot : ℕ) → get_elem? (replicate n unnumbered) i ≡ some slot → slot ≡ unnumbered
      all_same zero i slot h = cc
      all_same (suc n) zero slot h = cc
      all_same (suc n) (suc i) slot h = all_same n i slot h

      counts : (n : ℕ) → count_unnumbered (replicate n unnumbered) + 0 ≤ n
      counts zero = omega arith
      counts (suc n) = omega (arith, counts n)

  -- For a mesh of fewer than 2^32 - 1 vertices whose triangles name only vertices it has, the
  -- renumbering does not panic, gives at most as many vertices as before, and each corner of each
  -- triangle is the vertex that it was; no index is above the number of vertices used before it,
  -- and in the end as many are used as there are.
  pub reorder_by_first_use_lem :
      (mesh : TerrainMesh V)
      → length mesh.vertices < 4294967295
      → All (λ old. old < length mesh.vertices) (flattened mesh.indices)
      → (positions : List V) × (flat : List ℕ) × (reorder_by_first_use mesh ≡ ok (positions, flat))
        × FirstUse 0 flat
        × (mark 0 flat ≡ length positions)
        × (map (get_elem? positions) flat ≡ map (get_elem? mesh.vertices) (flattened mesh.indices))
        × (length positions ≤ length mesh.vertices)
  unfolding reorder_by_first_use
  reorder_by_first_use_lem mesh few named =
      renumber-Renumbered mesh.vertices (flattened mesh.indices)
        (replicate (length mesh.vertices) unnumbered) [] few named
        (unnumbered-IsNumbering mesh.vertices)
