-- ===== src/TerrainTile/Kept.antt =====
-- The vertices that `reorder_by_first_use` of crates/tiletopia-server/src/terrain_api.rs returns.
use tiletopia.Prelude.{
  ℕ, zero, suc, ◌≡◌, refl, subst, inl, inr, Option, none, some, List, [], ◌∷◌, ◌==◌, Bool-cases,
  get_elem?, length, replicate, All, All-append,
}
use tiletopia.Prelude.Res.{ok, Res-cases, ok-injective, err≢ok}
use mathlib.Core.Option.{some-injective}
use tiletopia.TerrainTile.Reorder.{
  TerrainMesh, flattened, unnumbered, number_vertex, renumber, reorder_by_first_use,
}

module _ {V : Type 0} (P : V → Type 0) where
  get_elem?-All : (xs : List V) (i : ℕ) {x : V} → All P xs → get_elem? xs i ≡ some x → P x
  get_elem?-All [] i h e = cc
  get_elem?-All (x ∷ xs) zero h e = subst P (some-injective _ _ e) h.0
  get_elem?-All (x ∷ xs) (suc i) h e = get_elem?-All xs i h.1 e

  number_vertex-All :
      (vertices : List V) (old : ℕ) (slot : Option ℕ) (vertex : Option V) (slots : List ℕ)
      (positions : List V) {result : ℕ × List ℕ × List V}
      → ((v : V) → vertex ≡ some v → P v)
      → All P positions
      → number_vertex vertices old slot vertex slots positions ≡ ok result
      → All P result.2
  number_vertex-All vertices old none vertex slots positions named h e = absurd (err≢ok e)
  number_vertex-All vertices old (some slot) none slots positions named h e =
      elim (Bool-cases (slot == unnumbered)) [
        | inl new ↦ absurd (err≢ok (rw new at e))
        | inr had ↦ subst (λ r. All P r.2) (ok-injective (rw had at e)) h
      ]
  number_vertex-All vertices old (some slot) (some vertex) slots positions named h e =
      elim (Bool-cases (slot == unnumbered)) [
        | inl new ↦
            subst (λ r. All P r.2) (ok-injective (rw new at e))
              (All-append P positions (vertex ∷ []) h (named vertex refl, tt))
        | inr had ↦ subst (λ r. All P r.2) (ok-injective (rw had at e)) h
      ]

  renumber-All :
      (vertices : List V) (olds slots : List ℕ) (positions : List V) {result : List V × List ℕ}
      → All P vertices
      → All P positions
      → renumber vertices olds slots positions ≡ ok result
      → All P result.0
  unfolding renumber
  renumber-All vertices [] slots positions named h e = subst (λ r. All P r.0) (ok-injective e) h
  renumber-All vertices (old ∷ olds) slots positions named h e =
      elim (Res-cases (
        number_vertex vertices old (get_elem? slots old) (get_elem? vertices old) slots
          positions)) [
            | inr (p, n) ↦ absurd (err≢ok (rw n at e))
            | inl (step, n) ↦
                let placed =
                  number_vertex-All vertices old (get_elem? slots old) (get_elem? vertices old)
                    slots positions (λ v. get_elem?-All vertices old named) h n in
                elim (Res-cases (renumber vertices olds step.1 step.2)) [
                  | inr (p, m) ↦ absurd (err≢ok (rw (n, m) at e))
                  | inl (rest, m) ↦
                      subst (λ r. All P r.0) (ok-injective (rw (n, m) at e))
                        (renumber-All vertices olds step.1 step.2 named placed m)
                ]
          ]

  pub reorder_by_first_use-All :
      (mesh : TerrainMesh V) {result : List V × List ℕ}
      → All P mesh.vertices
      → reorder_by_first_use mesh ≡ ok result
      → All P result.0
  unfolding reorder_by_first_use
  reorder_by_first_use-All mesh named e =
      renumber-All mesh.vertices (flattened mesh.indices)
        (replicate (length mesh.vertices) unnumbered) [] named tt e
