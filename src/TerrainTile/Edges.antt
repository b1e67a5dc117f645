-- ===== src/TerrainTile/Edges.antt =====
-- The vertices on an edge of a terrain tile, `edge_indices` of
-- crates/tiletopia-server/src/terrain_api.rs.
use tiletopia.Prelude.{
  ℕ, zero, suc, ◌+◌, ◌%◌, ◌≤◌, ◌<◌, ◌≡◌, refl, ap, ◌∙◌, inl, inr, Bool, ◌&&◌, List, [], ◌∷◌, arith,
  ltb, leb, ◌==◌, if◌then◌else◌, ==_iff, Bool-cases, length, All,
}

-- An element of a slice at an index that is in range.
abbrev pub at : List ℕ → ℕ → ℕ
at [] i = 0
at (x ∷ xs) zero = x
at (x ∷ xs) (suc i) = at xs i

abbrev pub range : ℕ → ℕ → List ℕ
range start zero = []
range start (suc n) = start ∷ range (suc start) n

abbrev pub filter : (ℕ → Bool) → List ℕ → List ℕ
filter p [] = []
filter p (x ∷ xs) = if p x then x ∷ filter p xs else filter p xs

abbrev pub insert_by : (ℕ → ℕ) → ℕ → List ℕ → List ℕ
insert_by key x [] = x ∷ []
insert_by key x (y ∷ ys) =
    let rest = insert_by key x ys in if leb (key x) (key y) then x ∷ y ∷ ys else y ∷ rest

-- `sort_by_key`, which is stable
abbrev pub sort_by_key : (ℕ → ℕ) → List ℕ → List ℕ
sort_by_key key [] = []
sort_by_key key (x ∷ xs) = insert_by key x (sort_by_key key xs)

unfoldable pub edge_indices : List ℕ → ℕ → List ℕ → List ℕ
edge_indices across across_value along =
    sort_by_key (at along)
      (filter (λ i. at across i == across_value) (range 0 (length across % 65536)))

abbrev pub count : ℕ → List ℕ → ℕ
count i [] = 0
count i (x ∷ xs) = (if x == i then 1 else 0) + count i xs

abbrev pub IsSortedBy : (ℕ → ℕ) → List ℕ → Type 0
IsSortedBy key [] = Unit
IsSortedBy key (x ∷ []) = Unit
IsSortedBy key (x ∷ y ∷ ys) = (key x ≤ key y) × IsSortedBy key (y ∷ ys)

count-insert_by :
    (key : ℕ → ℕ) (i x : ℕ) (xs : List ℕ) → count i (insert_by key x xs) ≡ count i (x ∷ xs)
count-insert_by key i x [] = refl
count-insert_by key i x (y ∷ ys) = elim (Bool-cases (leb (key x) (key y))) [
  | inl l ↦ rw l refl
  | inr l ↦ rw l (omega (arith, count-insert_by key i x ys))
]

count-sort_by_key : (key : ℕ → ℕ) (i : ℕ) (xs : List ℕ) → count i (sort_by_key key xs) ≡ count i xs
count-sort_by_key key i [] = refl
count-sort_by_key key i (x ∷ xs) =
    omega (arith, count-insert_by key i x (sort_by_key key xs), count-sort_by_key key i xs)

insert_by-IsSortedBy :
    (key : ℕ → ℕ) (x : ℕ) (xs : List ℕ) → IsSortedBy key xs → IsSortedBy key (insert_by key x xs)
insert_by-IsSortedBy key x [] h = tt
insert_by-IsSortedBy key x (y ∷ []) h = elim (Bool-cases (leb (key x) (key y))) [
  | inl l ↦ rw l (ground arith, tt)
  | inr l ↦ rw l (ground arith, tt)
]
insert_by-IsSortedBy key x (y ∷ z ∷ zs) h = elim (Bool-cases (leb (key x) (key y))) [
  | inl l ↦ rw l (ground arith, h)
  | inr l ↦
      let rest = insert_by-IsSortedBy key x (z ∷ zs) h.1 in
      elim (Bool-cases (leb (key x) (key z))) [
        | inl m ↦ rw (l, m) (ground arith, rw m at rest)
        | inr m ↦ rw (l, m) (h.0, rw m at rest)
      ]
]

sort_by_key-IsSortedBy : (key : ℕ → ℕ) (xs : List ℕ) → IsSortedBy key (sort_by_key key xs)
sort_by_key-IsSortedBy key [] = tt
sort_by_key-IsSortedBy key (x ∷ xs) =
    insert_by-IsSortedBy key x (sort_by_key key xs) (sort_by_key-IsSortedBy key xs)

count-filter :
    (p : ℕ → Bool) (i : ℕ) (xs : List ℕ) → count i (filter p xs) ≡ (if p i then count i xs else 0)
count-filter p i [] = elim (Bool-cases (p i)) [ inl e ↦ rw e refl | inr e ↦ rw e refl ]
count-filter p i (x ∷ xs) = elim (Bool-cases (x == i)) [
  | inl e ↦
      let same : x ≡ i = (==_iff x i).0 e in
      let moved = ap p same in
      elim (Bool-cases (p i)) [
        | inl q ↦
            let qx = moved ∙ q in
            let rest = rw q at (count-filter p i xs) in rw (qx, q) (omega (arith, rest))
        | inr q ↦ let qx = moved ∙ q in let rest = rw q at (count-filter p i xs) in rw (qx, q) rest
      ]
  | inr e ↦ elim (Bool-cases (p x)) [
    | inl q ↦
        rw (q, e)
          (elim (Bool-cases (p i)) [
            | inl r ↦ (let rest = rw r at (count-filter p i xs) in rw r (omega (arith, rest)))
            | inr r ↦ (let rest = rw r at (count-filter p i xs) in rw r (omega (arith, rest)))
          ])
    | inr q ↦
        rw (q, e)
          (elim (Bool-cases (p i)) [
            | inl r ↦ (let rest = rw r at (count-filter p i xs) in rw r (omega (arith, rest)))
            | inr r ↦ (let rest = rw r at (count-filter p i xs) in rw r (omega (arith, rest)))
          ])
  ]
]

count-range :
    (start n i : ℕ) → count i (range start n) ≡ (if leb start i && ltb i (start + n) then 1 else 0)
count-range start zero i = ground arith
count-range start (suc n) i = ground (arith, count-range (suc start) n i)

length-insert_by :
    (key : ℕ → ℕ) (x : ℕ) (xs : List ℕ) → length (insert_by key x xs) ≡ suc (length xs)
length-insert_by key x [] = refl
length-insert_by key x (y ∷ ys) = elim (Bool-cases (leb (key x) (key y))) [
  | inl l ↦ rw l refl
  | inr l ↦ rw l (ap suc (length-insert_by key x ys))
]

length-sort_by_key : (key : ℕ → ℕ) (xs : List ℕ) → length (sort_by_key key xs) ≡ length xs
length-sort_by_key key [] = refl
length-sort_by_key key (x ∷ xs) =
    length-insert_by key x (sort_by_key key xs) ∙ ap suc (length-sort_by_key key xs)

length-filter : (p : ℕ → Bool) (xs : List ℕ) → length (filter p xs) ≤ length xs
length-filter p [] = omega arith
length-filter p (x ∷ xs) = elim (Bool-cases (p x)) [
  | inl q ↦ rw q (omega (arith, length-filter p xs))
  | inr q ↦ rw q (omega (arith, length-filter p xs))
]

length-range : (start n : ℕ) → length (range start n) ≡ n
length-range start zero = refl
length-range start (suc n) = ap suc (length-range (suc start) n)

pub edge_indices-few :
    (across : List ℕ) (across_value : ℕ) (along : List ℕ)
    → length (edge_indices across across_value along) < 65536
unfolding edge_indices
edge_indices-few across across_value along =
    let p : ℕ → Bool = λ i. at across i == across_value in
    let n = length across % 65536 in
    omega (
      arith,
      length-sort_by_key (at along) (filter p (range 0 n)),
      length-filter p (range 0 n),
      length-range 0 n,
    )

insert_by-All :
    (P : ℕ → Type 0) (key : ℕ → ℕ) (x : ℕ) (xs : List ℕ)
    → P x
    → All P xs
    → All P (insert_by key x xs)
insert_by-All P key x [] h hs = (h, tt)
insert_by-All P key x (y ∷ ys) h hs = elim (Bool-cases (leb (key x) (key y))) [
  | inl l ↦ rw l (h, hs)
  | inr l ↦ rw l (hs.0, insert_by-All P key x ys h hs.1)
]

sort_by_key-All :
    (P : ℕ → Type 0) (key : ℕ → ℕ) (xs : List ℕ) → All P xs → All P (sort_by_key key xs)
sort_by_key-All P key [] h = tt
sort_by_key-All P key (x ∷ xs) h =
    insert_by-All P key x (sort_by_key key xs) h.0 (sort_by_key-All P key xs h.1)

filter-All : (P : ℕ → Type 0) (p : ℕ → Bool) (xs : List ℕ) → All P xs → All P (filter p xs)
filter-All P p [] h = tt
filter-All P p (x ∷ xs) h = elim (Bool-cases (p x)) [
  | inl q ↦ rw q (h.0, filter-All P p xs h.1)
  | inr q ↦ rw q (filter-All P p xs h.1)
]

range-All : (start n most : ℕ) → start + n ≤ most → All (λ i. i < most) (range start n)
range-All start zero most h = tt
range-All start (suc n) most h = (omega arith, range-All (suc start) n most (omega arith))

pub edge_indices-All :
    (across : List ℕ) (across_value : ℕ) (along : List ℕ)
    → All (λ i. i < 65536) (edge_indices across across_value along)
unfolding edge_indices
edge_indices-All across across_value along = sort_by_key-All _ (at along) _ (
    filter-All _ (λ i. at across i == across_value) _
      (range-All 0 (length across % 65536) 65536 (omega arith)))

-- Of fewer than 65536 vertices, those on the edge are named once each, the others never, in the
-- order of their places along the edge.
pub edge_indices_lem :
    (across : List ℕ) (across_value : ℕ) (along : List ℕ)
    → length across < 65536
    → IsSortedBy (at along) (edge_indices across across_value along)
      × ((i : ℕ)
          → count i (edge_indices across across_value along)
            ≡ (if ltb i (length across) && (at across i == across_value) then 1 else 0))
unfolding edge_indices
edge_indices_lem across across_value along few =
    let p : ℕ → Bool = λ i. at across i == across_value in
    let n = length across % 65536 in
    let whole : n ≡ length across = omega arith in
    (
      sort_by_key-IsSortedBy (at along) (filter p (range 0 n)),
      (λ i.
          let named = count-range 0 n i in
          let kept = count-filter p i (range 0 n) in
          let sorted = count-sort_by_key (at along) i (filter p (range 0 n)) in
          elim (Bool-cases (p i)) [
            | inl q ↦ rw q (let k = rw q at kept in ground arith)
            | inr q ↦ rw q (let k = rw q at kept in ground arith)
          ]),
    )
