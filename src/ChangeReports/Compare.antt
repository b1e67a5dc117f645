-- ===== src/ChangeReports/Compare.antt =====
-- The comparison of two element stores, of crates/tiletopia-server/src/change_reports.rs. Texts are
-- numbers in the texts' order; how far apart two locations are, in f64, is a parameter, and the
-- elements of a store are a list in the order of their global ids. No write fails.
use tiletopia.Prelude.{
  ℕ, zero, suc, ◌+◌, Bool, true, false, not, ◌&&◌, Option, none, some, List, [], ◌∷◌, ◌++◌, map,
  ltb, leb, ◌==◌, if◌then◌else◌, is_some, length,
}

pub record ComparableElement (L : Type 0) : Type 0 where
  pub global_id : ℕ
  pub label : Option ℕ
  pub ifc_class : ℕ
  pub storey : Option ℕ
  pub parent_id : Option ℕ
  pub location : Option L
  pub mesh_hash : Option ℕ
  pub properties : List (ℕ × ℕ)

pub record ChangeCounts : Type 0 where
  pub added : ℕ
  pub removed : ℕ
  pub changed : ℕ
  pub unchanged : ℕ

pub data ChangedKey : Type 0 where
  label_key class_key storey_key parent_key : ChangedKey
  property_key : ℕ → ChangedKey

pub data ChangeKind : Type 0 where
  added_kind removed_kind changed_kind : ChangeKind

pub record ChangeRow (L : Type 0) : Type 0 where
  pub kind : ChangeKind
  pub element : ComparableElement L
  pub changed_keys : List ChangedKey
  pub geometry_changed : Bool
  pub location_changed : Bool

pub record ReportWriter (L : Type 0) : Type 0 where
  pub rows : List (ChangeRow L)
  pub counts : ChangeCounts

abbrev pub new_writer : {L : Type 0} → ReportWriter L
new_writer = record {
  rows = [];
  counts = record { added = 0; removed = 0; changed = 0; unchanged = 0 };
}

abbrev pub same_text : Option ℕ → Option ℕ → Bool
same_text none none = true
same_text none (some b) = false
same_text (some a) none = false
same_text (some a) (some b) = a == b

abbrev pub get : ℕ → List (ℕ × ℕ) → Option ℕ
get key [] = none
get key ((k, v) ∷ properties) = let rest = get key properties in if k == key then some v else rest

abbrev pub differing : List (ℕ × ℕ) → List (ℕ × ℕ) → List ℕ
differing [] newer = []
differing ((key, value) ∷ older) newer =
    let rest = differing older newer in
    if same_text (get key newer) (some value) then rest else key ∷ rest

abbrev pub absent : List (ℕ × ℕ) → List (ℕ × ℕ) → List ℕ
absent [] older = []
absent ((key, value) ∷ newer) older =
    let rest = absent newer older in if is_some (get key older) then rest else key ∷ rest

abbrev pub insert_sorted : ℕ → List ℕ → List ℕ
insert_sorted key [] = key ∷ []
insert_sorted key (other ∷ keys) =
    let rest = insert_sorted key keys in if leb key other then key ∷ other ∷ keys else other ∷ rest

abbrev pub sort_unstable : List ℕ → List ℕ
sort_unstable [] = []
sort_unstable (key ∷ keys) = insert_sorted key (sort_unstable keys)

abbrev pub when : {A : Type 0} → Bool → A → List A
when true a = a ∷ []
when false a = []

module _ {L : Type 0} (too_far : L → L → Bool) where
  abbrev pub changed_keys : ComparableElement L → ComparableElement L → List ChangedKey
  changed_keys older newer =
      when (not (same_text older.label newer.label)) label_key
      ++ when (not (older.ifc_class == newer.ifc_class)) class_key
      ++ when (not (same_text older.storey newer.storey)) storey_key
      ++ when (not (same_text older.parent_id newer.parent_id)) parent_key
      ++ map property_key (
          sort_unstable (
            differing older.properties newer.properties
            ++ absent newer.properties older.properties))

  abbrev pub location_changed : Option L → Option L → Bool
  location_changed (some older) (some newer) = too_far older newer
  location_changed none none = false
  location_changed (some older) none = true
  location_changed none (some newer) = true

  abbrev pub insert : ChangeRow L → ChangeCounts → ReportWriter L → ReportWriter L
  insert row counts writer = record { rows = writer.rows ++ (row ∷ []); counts = counts }

  abbrev pub plain_row : ChangeKind → ComparableElement L → ChangeRow L
  plain_row kind element = record {
    kind = kind;
    element = element;
    changed_keys = [];
    geometry_changed = false;
    location_changed = false;
  }

  abbrev pub write_added : ComparableElement L → ReportWriter L → ReportWriter L
  write_added element writer =
      let c = writer.counts in
      insert (plain_row added_kind element)
        (record {
          added = c.added + 1;
          removed = c.removed;
          changed = c.changed;
          unchanged = c.unchanged;
        })
        writer

  abbrev pub write_removed : ComparableElement L → ReportWriter L → ReportWriter L
  write_removed element writer =
      let c = writer.counts in
      insert (plain_row removed_kind element)
        (record {
          added = c.added;
          removed = c.removed + 1;
          changed = c.changed;
          unchanged = c.unchanged;
        })
        writer

  abbrev pub is_empty : List ChangedKey → Bool
  is_empty [] = true
  is_empty (key ∷ keys) = false

  abbrev pub is_unchanged : ComparableElement L → ComparableElement L → Bool
  is_unchanged older newer =
      is_empty (changed_keys older newer)
      && same_text older.mesh_hash newer.mesh_hash
      && not (location_changed older.location newer.location)

  abbrev pub changed_row : ComparableElement L → ComparableElement L → ChangeRow L
  changed_row older newer = record {
    kind = changed_kind;
    element = newer;
    changed_keys = changed_keys older newer;
    geometry_changed = not (same_text older.mesh_hash newer.mesh_hash);
    location_changed = location_changed older.location newer.location;
  }

  abbrev pub compared : ComparableElement L → ComparableElement L → ReportWriter L → ReportWriter L
  compared older newer writer =
      let c = writer.counts in
      if is_unchanged older newer
      then record {
        rows = writer.rows;
        counts = record {
          added = c.added;
          removed = c.removed;
          changed = c.changed;
          unchanged = c.unchanged + 1;
        };
      }
      else insert (changed_row older newer)
          (record {
            added = c.added;
            removed = c.removed;
            changed = c.changed + 1;
            unchanged = c.unchanged;
          })
          writer

  -- The loop of `compare_stores`, on fuel: none when that runs out.
  unfoldable pub merge :
      ℕ
      → List (ComparableElement L)
      → List (ComparableElement L)
      → ReportWriter L
      → Option (ReportWriter L)
  merge zero older newer writer = none
  merge (suc fuel) [] [] writer = some writer
  merge (suc fuel) (o ∷ older) [] writer = merge fuel older [] (write_removed o writer)
  merge (suc fuel) [] (n ∷ newer) writer = merge fuel [] newer (write_added n writer)
  merge (suc fuel) (o ∷ older) (n ∷ newer) writer =
      let less = merge fuel older (n ∷ newer) (write_removed o writer) in
      let greater = merge fuel (o ∷ older) newer (write_added n writer) in
      let equal = merge fuel older newer (compared o n writer) in
      if ltb o.global_id n.global_id
      then less
      else (if ltb n.global_id o.global_id then greater else equal)

  unfoldable pub compare_stores :
      List (ComparableElement L) → List (ComparableElement L) → Option (ReportWriter L)
  compare_stores older newer = merge (length older + length newer + 1) older newer new_writer
