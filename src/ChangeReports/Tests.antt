-- ===== src/ChangeReports/Tests.antt =====
-- Two small stores, compared.
use tiletopia.Prelude.{ℕ, ◌≡◌, refl, Bool, false, Option, none, some, List, [], ◌∷◌, arith}
use tiletopia.ChangeReports.Compare.{
  ComparableElement, ReportWriter, new_writer, compare_stores, merge,
}
use tiletopia.ChangeReports.Merge.{Ascending, Merged, compare_stores-Merged}

abbrev wall : ℕ → ℕ → ComparableElement ℕ
wall id label = record {
  global_id = id;
  label = some label;
  ifc_class = 3;
  storey = none;
  parent_id = none;
  location = none;
  mesh_hash = none;
  properties = [];
}

abbrev never : ℕ → ℕ → Bool
never a b = false

-- Element 1 is gone, 2 has another label, 3 is as it was and 4 is new.
abbrev before : List (ComparableElement ℕ)
before = wall 1 0 ∷ wall 2 0 ∷ wall 3 0 ∷ []

abbrev now : List (ComparableElement ℕ)
now = wall 2 5 ∷ wall 3 0 ∷ wall 4 0 ∷ []

abbrev counts_of : Option (ReportWriter ℕ) → List ℕ
counts_of none = []
counts_of (some report) =
    report.counts.added ∷ report.counts.removed ∷ report.counts.changed ∷ report.counts.unchanged
    ∷ []

counts : counts_of (compare_stores never before now) ≡ 1 ∷ 1 ∷ 1 ∷ 1 ∷ []
unfolding compare_stores merge
counts = refl

before_in_order : Ascending before
before_in_order = ((omega arith, (omega arith, tt)), ((omega arith, tt), (tt, tt)))

now_in_order : Ascending now
now_in_order = ((omega arith, (omega arith, tt)), ((omega arith, tt), (tt, tt)))

compare_stores-Merged_example : Merged never before now new_writer (compare_stores never before now)
compare_stores-Merged_example = compare_stores-Merged never before now before_in_order now_in_order
