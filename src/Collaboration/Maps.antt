-- ===== src/Collaboration/Maps.antt =====
-- `HashMap`, as a list of keys and values with no key twice; keys are numbers that stand for the
-- strings of the source.
use tiletopia.Prelude.{
  ℕ, ◌+◌, ◌≡◌, refl, sym, ap, subst, ◌∙◌, inl, inr, Bool, true, false, Option, none, some, List, [],
  ◌∷◌, arith, ◌==◌, if◌then◌else◌, ==_iff, Bool-cases, length,
}
use mathlib.Core.Option.{some-injective}

unfoldable pub get {ℓ} : {V : Type ℓ} → ℕ → List (ℕ × V) → Option V
get k [] = none
get k ((j, v) ∷ m) = let rest = get k m in if j == k then some v else rest

unfoldable pub insert {ℓ} : {V : Type ℓ} → ℕ → V → List (ℕ × V) → List (ℕ × V)
insert k v [] = (k, v) ∷ []
insert k v ((j, w) ∷ m) = let rest = insert k v m in if j == k then (j, v) ∷ m else (j, w) ∷ rest

unfoldable pub remove {ℓ} : {V : Type ℓ} → ℕ → List (ℕ × V) → List (ℕ × V)
remove k [] = []
remove k ((j, w) ∷ m) = let rest = remove k m in if j == k then rest else (j, w) ∷ rest

-- How many values pass a test.
unfoldable pub tally {ℓ} : {V : Type ℓ} → (V → Bool) → List (ℕ × V) → ℕ
tally p [] = 0
tally p ((j, w) ∷ m) = (if p w then 1 else 0) + tally p m

abbrev pub IsMap {ℓ} : {V : Type ℓ} → List (ℕ × V) → Type ℓ
IsMap [] = Unit
IsMap ((j, w) ∷ m) = (get j m ≡ none) × IsMap m

module _ {ℓ} {V : Type ℓ} where
  pub get-insert_same : (m : List (ℕ × V)) (k : ℕ) (v : V) → get k (insert k v m) ≡ some v
  unfolding get insert
  get-insert_same [] k v = let e : (k == k) ≡ true = ground arith in rw e refl
  get-insert_same ((j, w) ∷ m) k v = elim (Bool-cases (j == k)) [
    | inl e ↦ rw (e, e) refl
    | inr e ↦ rw (e, e) (get-insert_same m k v)
  ]

  pub get-insert_other :
      (m : List (ℕ × V)) (k i : ℕ) (v : V) → (k == i) ≡ false → get i (insert k v m) ≡ get i m
  unfolding get insert
  get-insert_other [] k i v apart = rw apart refl
  get-insert_other ((j, w) ∷ m) k i v apart = elim (Bool-cases (j == k)) [
    | inl e ↦ let other : (j == i) ≡ false = ground (arith, (==_iff j k).0 e) in rw (e, other) refl
    | inr e ↦ elim (Bool-cases (j == i)) [
      | inl f ↦ rw (e, f) refl
      | inr f ↦ rw (e, f) (get-insert_other m k i v apart)
    ]
  ]

  pub get-remove_same : (m : List (ℕ × V)) (k : ℕ) → get k (remove k m) ≡ none
  unfolding get remove
  get-remove_same [] k = refl
  get-remove_same ((j, w) ∷ m) k = elim (Bool-cases (j == k)) [
    | inl e ↦ rw e (get-remove_same m k)
    | inr e ↦ rw (e, e) (get-remove_same m k)
  ]

  pub get-remove_other :
      (m : List (ℕ × V)) (k i : ℕ) → (k == i) ≡ false → get i (remove k m) ≡ get i m
  unfolding get remove
  get-remove_other [] k i apart = refl
  get-remove_other ((j, w) ∷ m) k i apart = elim (Bool-cases (j == k)) [
    | inl e ↦
        let other : (j == i) ≡ false = ground (arith, (==_iff j k).0 e) in
        rw (e, other) (get-remove_other m k i apart)
    | inr e ↦ elim (Bool-cases (j == i)) [
      | inl f ↦ rw (e, f) refl
      | inr f ↦ rw (e, f) (get-remove_other m k i apart)
    ]
  ]

  pub insert-IsMap : (m : List (ℕ × V)) (k : ℕ) (v : V) → IsMap m → IsMap (insert k v m)
  unfolding insert get
  insert-IsMap [] k v h = (refl, tt)
  insert-IsMap ((j, w) ∷ m) k v h = elim (Bool-cases (j == k)) [
    | inl e ↦ rw e h
    | inr e ↦
        let apart : (k == j) ≡ false = ground arith in
        rw e (get-insert_other m k j v apart ∙ h.0, insert-IsMap m k v h.1)
  ]

  remove_absent : (m : List (ℕ × V)) (k : ℕ) → get k m ≡ none → remove k m ≡ m
  unfolding get remove
  remove_absent [] k h = refl
  remove_absent ((j, w) ∷ m) k h = elim (Bool-cases (j == k)) [
    | inl e ↦ (let clash = rw e at h in cc)
    | inr e ↦ rw e (ap (λ l. (j, w) ∷ l) (remove_absent m k (rw e at h)))
  ]

  pub remove-IsMap : (m : List (ℕ × V)) (k : ℕ) → IsMap m → IsMap (remove k m)
  unfolding remove
  remove-IsMap [] k h = tt
  remove-IsMap ((j, w) ∷ m) k h = elim (Bool-cases (j == k)) [
    | inl e ↦ rw e (remove-IsMap m k h.1)
    | inr e ↦
        let apart : (k == j) ≡ false = ground arith in
        rw e (get-remove_other m k j apart ∙ h.0, remove-IsMap m k h.1)
  ]

  pub tally-insert_new :
      (p : V → Bool) (m : List (ℕ × V)) (k : ℕ) (v : V)
      → get k m ≡ none
      → tally p (insert k v m) ≡ tally p m + (if p v then 1 else 0)
  unfolding tally insert get
  tally-insert_new p [] k v h = omega arith
  tally-insert_new p ((j, w) ∷ m) k v h = elim (Bool-cases (j == k)) [
    | inl e ↦ (let clash = rw e at h in cc)
    | inr e ↦ rw e (let rest = tally-insert_new p m k v (rw e at h) in omega (arith, rest))
  ]

  pub tally-insert_same :
      (p : V → Bool) (m : List (ℕ × V)) (k : ℕ) (v old : V)
      → get k m ≡ some old
      → p v ≡ p old
      → tally p (insert k v m) ≡ tally p m
  unfolding tally insert get
  tally-insert_same p [] k v old h same = cc
  tally-insert_same p ((j, w) ∷ m) k v old h same = elim (Bool-cases (j == k)) [
    | inl e ↦
        let head : ◌≡◌ {A = Option V} (some w) (some old) = rw e at h in
        let kept : p v ≡ p w = same ∙ ap p (sym (some-injective _ _ head)) in rw (e, kept) refl
    | inr e ↦
        rw e (let rest = tally-insert_same p m k v old (rw e at h) same in omega (arith, rest))
  ]

  pub tally-remove :
      (p : V → Bool) (m : List (ℕ × V)) (k : ℕ) (v : V)
      → IsMap m
      → get k m ≡ some v
      → tally p (remove k m) + (if p v then 1 else 0) ≡ tally p m
  unfolding tally remove get
  tally-remove p [] k v u h = cc
  tally-remove p ((j, w) ∷ m) k v u h = elim (Bool-cases (j == k)) [
    | inl e ↦
        let head : ◌≡◌ {A = Option V} (some w) (some v) = rw e at h in
        let same : p w ≡ p v = ap p (some-injective _ _ head) in
        let j_k : j ≡ k = (==_iff j k).0 e in
        let gone = remove_absent m k (subst (λ i. get i m ≡ none) j_k u.0) in
        rw (e, gone, same) (omega arith)
    | inr e ↦ rw e (let rest = tally-remove p m k v u.1 (rw e at h) in omega (arith, rest))
  ]

  pub length-tally : (m : List (ℕ × V)) → tally (λ _. true) m ≡ length m
  unfolding tally
  length-tally [] = refl
  length-tally ((j, w) ∷ m) = omega (arith, length-tally m)

  -- A map where no key is found is empty.
  pub get-all_none : (m : List (ℕ × V)) → ((k : ℕ) → get k m ≡ none) → m ≡ []
  unfolding get
  get-all_none [] h = refl
  get-all_none ((j, w) ∷ m) h =
      let e : (j == j) ≡ true = ground arith in let clash = rw e at (h j) in cc
