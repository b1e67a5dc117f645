-- ===== src/ChangeReports/Merge.antt =====
-- That the merge of crates/tiletopia-server/src/change_reports.rs finds what a comparison of every
-- element with every other finds.
use tiletopia.Prelude.{
  ℕ, zero, suc, ◌+◌, ◌<◌, ◌≡◌, refl, sym, ap, subst, ◌∙◌, append_assoc, append-nil, inl, inr, Bool,
  true, false, Option, none, some, List, [], ◌∷◌, ◌++◌, map, arith, ltb, ◌==◌, if◌then◌else◌,
  Bool-cases, is_some, length, All, All-map,
}
use tiletopia.ChangeReports.Compare.{
  ComparableElement, ChangeKind, added_kind, removed_kind, changed_kind, ChangeRow, ReportWriter,
  new_writer, plain_row, write_added, write_removed, is_unchanged, changed_row, compared, merge,
  compare_stores,
}

abbrev is_kind : ChangeKind → ChangeKind → Bool
is_kind added_kind added_kind = true
is_kind added_kind removed_kind = false
is_kind added_kind changed_kind = false
is_kind removed_kind added_kind = false
is_kind removed_kind removed_kind = true
is_kind removed_kind changed_kind = false
is_kind changed_kind added_kind = false
is_kind changed_kind removed_kind = false
is_kind changed_kind changed_kind = true

module _ {L : Type 0} where
  -- The rows of one kind.
  abbrev pub of_kind : ChangeKind → List (ChangeRow L) → List (ChangeRow L)
  of_kind kind [] = []
  of_kind kind (row ∷ rows) =
      if is_kind kind row.kind then row ∷ of_kind kind rows else of_kind kind rows

  abbrev pub find_element : ℕ → List (ComparableElement L) → Option (ComparableElement L)
  find_element id [] = none
  find_element id (e ∷ elements) = if e.global_id == id then some e else find_element id elements

  -- The elements that the other store does not hold.
  abbrev pub missing :
      List (ComparableElement L) → List (ComparableElement L) → List (ComparableElement L)
  missing [] others = []
  missing (e ∷ elements) others =
      if is_some (find_element e.global_id others)
      then missing elements others
      else e ∷ missing elements others

  abbrev pub common : List (ComparableElement L) → List (ComparableElement L) → ℕ
  common [] others = 0
  common (e ∷ elements) others =
      let rest = common elements others in
      if is_some (find_element e.global_id others) then suc rest else rest

  abbrev pub Ascending : List (ComparableElement L) → Type 0
  Ascending [] = Unit
  Ascending (e ∷ elements) = All (λ f. e.global_id < f.global_id) elements × Ascending elements

  find_element-below :
      (id : ℕ) (elements : List (ComparableElement L))
      → All (λ f. id < f.global_id) elements
      → find_element id elements ≡ none
  find_element-below id [] h = refl
  find_element-below id (e ∷ elements) h =
      let apart : (e.global_id == id) ≡ false = ground arith in
      rw apart (find_element-below id elements h.1)

  above_trans :
      (low high : ℕ) (elements : List (ComparableElement L))
      → low < high
      → All (λ f. high < f.global_id) elements
      → All (λ f. low < f.global_id) elements
  above_trans low high elements l h =
      All-map (λ f. high < f.global_id) (λ f. low < f.global_id) (λ f m. omega arith) elements h

  -- An element below all of these is none of them.
  missing-below :
      (elements : List (ComparableElement L)) (low : ComparableElement L)
      (others : List (ComparableElement L))
      → All (λ f. low.global_id < f.global_id) elements
      → (missing elements (low ∷ others) ≡ missing elements others)
        × (common elements (low ∷ others) ≡ common elements others)
  missing-below [] low others h = (refl, refl)
  missing-below (e ∷ elements) low others h =
      let apart : (low.global_id == e.global_id) ≡ false = ground arith in
      let (rest, count) = missing-below elements low others h.1 in
      rw (apart, rest, count) (refl, refl)

module _ {L : Type 0} (too_far : L → L → Bool) where
  abbrev change_of : ComparableElement L → Option (ComparableElement L) → List (ChangeRow L)
  change_of older none = []
  change_of older (some newer) =
      if is_unchanged too_far older newer then [] else changed_row too_far older newer ∷ []

  -- The rows of the elements that both stores hold and that differ.
  abbrev pub changes : List (ComparableElement L) → List (ComparableElement L) → List (ChangeRow L)
  changes [] newer = []
  changes (o ∷ older) newer = change_of o (find_element o.global_id newer) ++ changes older newer

  changes-below :
      (older : List (ComparableElement L)) (low : ComparableElement L)
      (newer : List (ComparableElement L))
      → All (λ f. low.global_id < f.global_id) older
      → changes older (low ∷ newer) ≡ changes older newer
  changes-below [] low newer h = refl
  changes-below (e ∷ older) low newer h =
      let apart : (low.global_id == e.global_id) ≡ false = ground arith in
      rw (apart, changes-below older low newer h.1) refl

  of_kind-append :
      (kind : ChangeKind) (rows more : List (ChangeRow L))
      → of_kind kind (rows ++ more) ≡ of_kind kind rows ++ of_kind kind more
  of_kind-append kind [] more = refl
  of_kind-append kind (row ∷ rows) more = elim (Bool-cases (is_kind kind row.kind)) [
    | inl e ↦ rw e (ap (λ l. row ∷ l) (of_kind-append kind rows more))
    | inr e ↦ rw e (of_kind-append kind rows more)
  ]

  -- What a report gains over a writer: the rows of each kind, and the counts.
  pub record Gains (removed added : List (ComparableElement L)) (changed : List (ChangeRow L))
      (shared : ℕ) (writer report : ReportWriter L) : Type 0 where
    pub removed_rows :
        of_kind removed_kind report.rows
        ≡ of_kind removed_kind writer.rows ++ map (plain_row too_far removed_kind) removed
    pub added_rows :
        of_kind added_kind report.rows
        ≡ of_kind added_kind writer.rows ++ map (plain_row too_far added_kind) added
    pub changed_rows :
        of_kind changed_kind report.rows ≡ of_kind changed_kind writer.rows ++ changed
    pub removed_count : report.counts.removed ≡ writer.counts.removed + length removed
    pub added_count : report.counts.added ≡ writer.counts.added + length added
    pub changed_count : report.counts.changed ≡ writer.counts.changed + length changed
    pub shared_count :
        report.counts.changed + report.counts.unchanged
        ≡ writer.counts.changed + writer.counts.unchanged + shared

  nothing-Gains : (writer : ReportWriter L) → Gains [] [] [] 0 writer writer
  nothing-Gains writer = record {
    removed_rows = rw append-nil refl;
    added_rows = rw append-nil refl;
    changed_rows = rw append-nil refl;
    removed_count = omega arith;
    added_count = omega arith;
    changed_count = omega arith;
    shared_count = omega arith;
  }

  module _ (o : ComparableElement L) (removed added : List (ComparableElement L))
      (changed : List (ChangeRow L)) (shared : ℕ) (writer report : ReportWriter L) where
    removed-Gains :
        Gains removed added changed shared (write_removed too_far o writer) report
        → Gains (o ∷ removed) added changed shared writer report
    removed-Gains g =
        let row = plain_row too_far removed_kind o in
        record {
          removed_rows =
              g.removed_rows
              ∙ rw (of_kind-append removed_kind writer.rows (row ∷ []), append_assoc) refl;
          added_rows =
              g.added_rows ∙ rw (of_kind-append added_kind writer.rows (row ∷ []), append-nil) refl;
          changed_rows =
              g.changed_rows
              ∙ rw (of_kind-append changed_kind writer.rows (row ∷ []), append-nil) refl;
          removed_count = omega (arith, g.removed_count);
          added_count = g.added_count;
          changed_count = g.changed_count;
          shared_count = g.shared_count;
        }

    added-Gains :
        Gains removed added changed shared (write_added too_far o writer) report
        → Gains removed (o ∷ added) changed shared writer report
    added-Gains g =
        let row = plain_row too_far added_kind o in
        record {
          removed_rows =
              g.removed_rows
              ∙ rw (of_kind-append removed_kind writer.rows (row ∷ []), append-nil) refl;
          added_rows =
              g.added_rows
              ∙ rw (of_kind-append added_kind writer.rows (row ∷ []), append_assoc) refl;
          changed_rows =
              g.changed_rows
              ∙ rw (of_kind-append changed_kind writer.rows (row ∷ []), append-nil) refl;
          removed_count = g.removed_count;
          added_count = omega (arith, g.added_count);
          changed_count = g.changed_count;
          shared_count = g.shared_count;
        }

    compared-Gains :
        (n : ComparableElement L)
        → Gains removed added changed shared (compared too_far o n writer) report
        → Gains removed added (change_of o (some n) ++ changed) (suc shared) writer report
    compared-Gains n g = elim (Bool-cases (is_unchanged too_far o n)) [
      | inl e ↦
          let h = rw e at g in
          rw e (record {
            removed_rows = h.removed_rows;
            added_rows = h.added_rows;
            changed_rows = h.changed_rows;
            removed_count = h.removed_count;
            added_count = h.added_count;
            changed_count = h.changed_count;
            shared_count = omega (arith, h.shared_count);
          })
      | inr e ↦
          let h = rw e at g in
          let row = changed_row too_far o n in
          rw e (record {
            removed_rows =
                h.removed_rows
                ∙ rw (of_kind-append removed_kind writer.rows (row ∷ []), append-nil) refl;
            added_rows =
                h.added_rows
                ∙ rw (of_kind-append added_kind writer.rows (row ∷ []), append-nil) refl;
            changed_rows =
                h.changed_rows
                ∙ rw (of_kind-append changed_kind writer.rows (row ∷ []), append_assoc) refl;
            removed_count = h.removed_count;
            added_count = h.added_count;
            changed_count = omega (arith, h.changed_count);
            shared_count = omega (arith, h.shared_count);
          })
    ]

  -- What the loop makes of two stores in order.
  abbrev pub Merged :
      List (ComparableElement L)
      → List (ComparableElement L)
      → ReportWriter L
      → Option (ReportWriter L)
      → Type 0
  Merged older newer writer result =
      (report : ReportWriter L) × (result ≡ some report)
      × Gains (missing older newer) (missing newer older) (changes older newer) (common older newer)
          writer report

  merge-Merged :
      (fuel : ℕ) (older newer : List (ComparableElement L)) (writer : ReportWriter L)
      → length older + length newer < fuel
      → Ascending older
      → Ascending newer
      → Merged older newer writer (merge too_far fuel older newer writer)
  unfolding merge
  merge-Merged zero older newer writer enough up un = absurd (omega arith)
  merge-Merged (suc fuel) [] [] writer enough up un = (writer, refl, nothing-Gains writer)
  merge-Merged (suc fuel) (o ∷ older) [] writer enough up un =
      let (report, e, g) =
        merge-Merged fuel older [] (write_removed too_far o writer) (omega arith) up.1 tt in
      (
        report,
        e,
        removed-Gains o (missing older []) [] (changes older []) (common older []) writer report g,
      )
  merge-Merged (suc fuel) [] (n ∷ newer) writer enough up un =
      let (report, e, g) =
        merge-Merged fuel [] newer (write_added too_far n writer) (omega arith) tt un.1 in
      (report, e, added-Gains n [] (missing newer []) [] 0 writer report g)
  merge-Merged (suc fuel) (o ∷ older) (n ∷ newer) writer enough up un =
      elim (Bool-cases (ltb o.global_id n.global_id)) [
        | inl less ↦
            let (report, e, g) =
              merge-Merged fuel older (n ∷ newer) (write_removed too_far o writer) (omega arith)
                up.1 un in
            let low : o.global_id < n.global_id = ground arith in
            let above : All (λ f. o.global_id < f.global_id) (n ∷ newer) =
              (low, above_trans o.global_id n.global_id newer low un.0) in
            let none_there = find_element-below o.global_id (n ∷ newer) above in
            let (skip, count) = missing-below (n ∷ newer) o older above in
            rw (less, none_there, skip)
              (
                report,
                e,
                removed-Gains o (missing older (n ∷ newer)) (missing (n ∷ newer) older)
                    (changes older (n ∷ newer)) (common older (n ∷ newer)) writer report g,
              )
        | inr not_less ↦ elim (Bool-cases (ltb n.global_id o.global_id)) [
          | inl greater ↦
              let (report, e, g) =
                merge-Merged fuel (o ∷ older) newer (write_added too_far n writer) (omega arith) up
                  un.1 in
              let low : n.global_id < o.global_id = ground arith in
              let above : All (λ f. n.global_id < f.global_id) (o ∷ older) =
                (low, above_trans n.global_id o.global_id older low up.0) in
              let none_there = find_element-below n.global_id (o ∷ older) above in
              let (skip, count) = missing-below (o ∷ older) n newer above in
              let same_changes = changes-below (o ∷ older) n newer above in
              rw (not_less, greater, none_there, skip, count, same_changes)
                (
                  report,
                  e,
                  added-Gains n (missing (o ∷ older) newer) (missing newer (o ∷ older))
                      (changes (o ∷ older) newer) (common (o ∷ older) newer) writer report g,
                )
          | inr not_greater ↦
              let (report, e, g) =
                merge-Merged fuel older newer (compared too_far o n writer) (omega arith) up.1
                  un.1 in
              let same : o.global_id ≡ n.global_id = ground arith in
              let o_n : (o.global_id == n.global_id) ≡ true = ground arith in
              let n_o : (n.global_id == o.global_id) ≡ true = ground arith in
              let (skip, count) =
                missing-below older n newer
                  (subst (λ i. All (λ f. i < f.global_id) older) same up.0) in
              let same_changes =
                changes-below older n newer
                  (subst (λ i. All (λ f. i < f.global_id) older) same up.0) in
              let (skip_newer, count_newer) =
                missing-below newer o older
                  (subst (λ i. All (λ f. i < f.global_id) newer) (sym same) un.0) in
              rw (not_less, not_greater, o_n, n_o, skip, count, same_changes, skip_newer)
                (
                  report,
                  e,
                  compared-Gains o (missing older newer) (missing newer older) (changes older newer)
                      (common older newer) writer report n g,
                )
        ]
      ]

  -- Of two stores in the order of their global ids, each id once, the comparison ends with a report
  -- where the rows of removed elements are those of the older store that the newer one does not
  -- hold, the rows of added ones those of the newer store that the older one does not hold, and the
  -- rows of changed ones those of the pairs with one id that differ, all in the stores' order; and
  -- the counts are how many there are of each, and of pairs in all.
  pub compare_stores-Merged :
      (older newer : List (ComparableElement L))
      → Ascending older
      → Ascending newer
      → Merged older newer new_writer (compare_stores too_far older newer)
  unfolding compare_stores
  compare_stores-Merged older newer up un =
      merge-Merged (length older + length newer + 1) older newer new_writer (omega arith) up un
