-- ===== src/DataIssues/Upsert.antt =====
-- services/api/app/repository/data_issue_repo.py: what `upsert_open_issue` leaves in the table.
use auto_scheduling_system.Prelude.{
  true_is_not_false, ℕ, ◌+◌, ◌≡◌, refl, ap, ◌∙◌, subst, Bool, true, false, ◌&&◌, Option, none, some,
  List, [], ◌∷◌, ◌++◌, map, ◌==◌, ==_false_comm, ==_iff, if◌then◌else◌, Text, text_eq, text_eq_refl,
  where_true, sort_by, inl, inr, ◌⊎◌, Bool-cases, All, All-imp, All-where_both, All-sort_by,
  any_where-sort_by, All-append, All-map, All-both,
}
use auto_scheduling_system.Prelude.Result.{Result, ok, err, value_error}
use auto_scheduling_system.DataIssues.{
  DataIssue, Issues, IssueReport, normalize_order_link, normalize_source_system, set_order_line_id,
  null_eq, matches_open_issue, mark_duplicate_issue_resolved, newer, is_row_in, keep_latest,
  find_latest_matching_open_issue, new_issue, write_issue, upsert_open_issue, open_status,
  matches_link,
}
use auto_scheduling_system.DataIssues.Links.{
  Agree, Agree-again, normalize_order_link-IsLink, link_cases, IsLinked, refreshed,
  refresh_issue-Agree, null_eq_refl, both, matches-Agree,
}
use auto_scheduling_system.DataIssues.Rows.{
  AreDistinct, IsOnly, AreDistinct-IsOnly, AreKept, Collapses, where_true-collapse,
}

-- What matches a report after the row is written.
matches_link-refreshed :
    (report : IssueReport) (issue : DataIssue) (order_line_id : Option ℕ)
    → report.order_line_id ≡ order_line_id
    → matches_link report (refreshed report issue) order_line_id ≡ true
matches_link-refreshed report issue (some id) same = rw same ((==_iff id id).1 refl)
matches_link-refreshed report issue none same =
    rw (text_eq_refl report.issue_title) (null_eq_refl report.biz_key)

matches_open_issue-refreshed :
    (report : IssueReport) (issue : DataIssue)
    → matches_open_issue report issue ≡ true
    → matches_open_issue report (refreshed report issue) ≡ true
unfolding matches_open_issue
matches_open_issue-refreshed report issue h =
    let (kind, rest) = both (text_eq issue.issue_type report.issue_type) _ h in
    let (source, more) =
      both (null_eq issue.source_system (normalize_source_system report.source_system)) _ rest in
    let (status, _) = both (text_eq issue.status open_status) _ more in
    rw kind (rw source (rw status (matches_link-refreshed report issue report.order_line_id refl)))

and_and_false : (a b : Bool) → (a && (b && false)) ≡ false
and_and_false true true = refl
and_and_false true false = refl
and_and_false false b = refl

-- The latest row that matches, and what is left of the others.
module _ (report : IssueReport) (rows : List DataIssue) (canonical : DataIssue)
    (duplicates : List DataIssue)
    (sorted : sort_by newer (where_true (matches_open_issue report) rows)
      ≡ canonical ∷ duplicates) where
  abbrev mark : DataIssue → DataIssue
  mark row =
      if is_row_in duplicates row then mark_duplicate_issue_resolved canonical.id row else row

  abbrev write : DataIssue → DataIssue
  write row = if row.id == canonical.id then refreshed report canonical else row

  canonical-matches :
      AreDistinct rows
      → All IsLinked rows
      → (matches_open_issue report canonical ≡ true) × IsOnly rows canonical × IsLinked canonical
  canonical-matches distinct linked =
      let facts = All-both (IsOnly rows) IsLinked rows (AreDistinct-IsOnly rows distinct) linked in
      let kept = All-where_both _ (matches_open_issue report) rows facts in
      let all = All-sort_by _ newer _ kept in
      let first = (subst (All _) sorted all).0 in (first.1, first.0.0, first.0.1)

  mark-id : (row : DataIssue) → (mark row).id ≡ row.id
  unfolding mark_duplicate_issue_resolved
  mark-id row = elim (Bool-cases (is_row_in duplicates row)) [
    | inl e ↦ rw e refl
    | inr e ↦ rw e refl
  ]

  resolved-matches :
      (row : DataIssue)
      → matches_open_issue report (mark_duplicate_issue_resolved canonical.id row) ≡ false
  unfolding matches_open_issue mark_duplicate_issue_resolved
  resolved-matches row =
      and_and_false (text_eq row.issue_type report.issue_type)
        (null_eq row.source_system (normalize_source_system report.source_system))

  mark-matches :
      (row : DataIssue)
      → (row.id == canonical.id) ≡ false
      → (matches_open_issue report row ≡ true
          → is_row_in (where_true (matches_open_issue report) rows) row ≡ true)
      → matches_open_issue report (mark row) ≡ false
  mark-matches row other kept = elim (Bool-cases (is_row_in duplicates row)) [
    | inl e ↦ rw e (resolved-matches row)
    | inr e ↦ elim (Bool-cases (matches_open_issue report row)) [
      | inl m ↦
          let found =
            any_where-sort_by newer (λ r. r.id == row.id)
              (where_true (matches_open_issue report) rows)
            ∙ kept m in
          let listed : is_row_in (canonical ∷ duplicates) row ≡ true =
            subst (λ l. is_row_in l row ≡ true) sorted found in
          true_is_not_false e (rw (==_false_comm canonical.id row.id other) at listed)
      | inr m ↦ rw e m
    ]
  ]

  row-Collapses :
      (row : DataIssue)
      → (matches_open_issue report row ≡ true
          → is_row_in (where_true (matches_open_issue report) rows) row ≡ true)
      → (matches : matches_open_issue report (refreshed report canonical) ≡ true)
      → Collapses
          (matches_open_issue report)
          write
          mark
          canonical.id
          (refreshed report canonical)
          matches
          row
  row-Collapses row kept matches =
      let same : ((mark row).id == canonical.id) ≡ (row.id == canonical.id) =
        ap (λ i. i == canonical.id) (mark-id row) in
      elim (Bool-cases (row.id == canonical.id)) [
        | inl own ↦ inl (own, rw (same ∙ own) refl)
        | inr other ↦
            let unmarked : write (mark row) ≡ mark row = rw (same ∙ other) refl in
            inr (other, ap (matches_open_issue report) unmarked ∙ mark-matches row other kept)
      ]

  refresh-single :
      AreDistinct rows
      → All IsLinked rows
      → where_true (matches_open_issue report) (map write (map mark rows))
        ≡ refreshed report canonical ∷ []
  refresh-single distinct linked =
      let (own, only, _) = canonical-matches distinct linked in
      let matches = matches_open_issue-refreshed report canonical own in
      where_true-collapse (matches_open_issue report) write mark canonical.id
        (refreshed report canonical) matches rows
        (All-imp rows (λ row kept. row-Collapses row kept matches)
          (AreKept (matches_open_issue report) rows))
      ∙ ap (map (λ _. refreshed report canonical)) only

  mark-IsLinked : (row : DataIssue) → IsLinked row → IsLinked (mark row)
  unfolding mark_duplicate_issue_resolved
  mark-IsLinked row h = elim (Bool-cases (is_row_in duplicates row)) [
    | inl e ↦ rw e h
    | inr e ↦ rw e h
  ]

  write-IsLinked :
      Agree report.biz_key report.order_line_id
      → (row : DataIssue) → IsLinked row
      → IsLinked (write row)
  write-IsLinked agree row h = elim (Bool-cases (row.id == canonical.id)) [
    | inl e ↦ rw e agree
    | inr e ↦ rw e h
  ]

-- The row that is added where none matches.
abbrev added : ℕ → IssueReport → DataIssue
unfolding new_issue
added id report = record (new_issue id report) {
  biz_key = report.biz_key;
  order_line_id = report.order_line_id;
}

matches_link-added :
    (id : ℕ) (report : IssueReport) (order_line_id : Option ℕ)
    → report.order_line_id ≡ order_line_id
    → matches_link report (added id report) order_line_id ≡ true
unfolding added new_issue
matches_link-added id report (some order) same = rw same ((==_iff order order).1 refl)
matches_link-added id report none same =
    rw (text_eq_refl report.issue_title) (null_eq_refl report.biz_key)

matches_open_issue-added :
    (id : ℕ) (report : IssueReport) → matches_open_issue report (added id report) ≡ true
unfolding matches_open_issue added new_issue
matches_open_issue-added id report = rw (text_eq_refl report.issue_type) (
    rw (null_eq_refl (normalize_source_system report.source_system))
      (matches_link-added id report report.order_line_id refl))

add-single {ℓ} :
    {A : Type ℓ} (keep : A → Bool) (rows : List A) (x : A)
    → All (λ row. keep row ≡ false) rows
    → keep x ≡ true
    → where_true keep (rows ++ x ∷ []) ≡ x ∷ []
add-single keep [] x none_kept k = rw k
add-single keep (row ∷ rows) x none_kept k = rw none_kept.0 (add-single keep rows x none_kept.1 k)

none_matches :
    (report : IssueReport) (rows : List DataIssue)
    → sort_by newer (where_true (matches_open_issue report) rows) ≡ []
    → All (λ row. matches_open_issue report row ≡ false) rows
none_matches report rows empty =
    All-imp rows
      (λ row kept. elim (Bool-cases (matches_open_issue report row)) [
        | inl m ↦
            let found =
              any_where-sort_by newer (λ r. r.id == row.id)
                (where_true (matches_open_issue report) rows)
              ∙ kept m in
            let listed : is_row_in [] row ≡ true =
              subst (λ l. is_row_in l row ≡ true) empty found in
            cc
        | inr m ↦ m
      ])
      (AreKept (matches_open_issue report) rows)

-- The outcome of a write: it returns, and one open row matches, the one that is returned.
abbrev pub IsReported : IssueReport → Result (DataIssue × Issues) → Type 0
IsReported report result =
    (entity : DataIssue) × (after : Issues) × (result ≡ ok (entity, after))
    × (where_true (matches_open_issue report) after.rows ≡ entity ∷ [])
    × All IsLinked after.rows

write_issue-IsReported :
    (report : IssueReport) (next_id : ℕ) (rows : List DataIssue) (matches : List DataIssue)
    → sort_by newer (where_true (matches_open_issue report) rows) ≡ matches
    → Agree report.biz_key report.order_line_id
    → AreDistinct rows
    → All IsLinked rows
    → IsReported report (write_issue report next_id (keep_latest matches rows))
unfolding write_issue keep_latest set_order_line_id
write_issue-IsReported report next_id rows [] sorted agree distinct linked = (
  added next_id report,
  record { rows = rows ++ added next_id report ∷ []; next_id = next_id + 1 },
  rw (Agree-again report.biz_key report.order_line_id agree) refl,
  add-single (matches_open_issue report) rows (added next_id report)
      (none_matches report rows sorted) (matches_open_issue-added next_id report),
  All-append IsLinked rows (added next_id report ∷ []) linked (agree, tt),
)
write_issue-IsReported report next_id rows (canonical ∷ duplicates) sorted agree distinct linked =
    let (own, only, link) =
      canonical-matches report rows canonical duplicates sorted distinct linked in
    let link_of = matches-Agree report canonical agree link own in
    (
      refreshed report canonical,
      record {
        rows =
            map (write report rows canonical duplicates sorted)
              (map (mark report rows canonical duplicates sorted) rows);
        next_id = next_id;
      },
      rw (refresh_issue-Agree report canonical link_of agree) refl,
      refresh-single report rows canonical duplicates sorted distinct linked,
      All-map IsLinked IsLinked (write report rows canonical duplicates sorted)
          (map (mark report rows canonical duplicates sorted) rows)
          (write-IsLinked report rows canonical duplicates sorted agree)
          (All-map IsLinked IsLinked (mark report rows canonical duplicates sorted) rows
            (mark-IsLinked report rows canonical duplicates sorted) linked),
    )

-- The report with its keys as `upsert_open_issue` uses them.
abbrev pub normalized : IssueReport → Option Text × Option ℕ → IssueReport
normalized report link = record report {
  biz_key = link.0;
  order_line_id = link.1;
  source_system = normalize_source_system report.source_system;
}

-- In a table with distinct ids, in which the key of every row that belongs to an order is that
-- order's: where the report's key and order contradict each other the upsert raises; else it
-- returns, and of the rows that then match the report as open there is one, the row returned, however
-- many there were before. The keys still agree with the orders.
pub upsert_open_issue-IsReported :
    (report : IssueReport) (issues : Issues)
    → AreDistinct issues.rows
    → All IsLinked issues.rows
    → ((normalize_order_link report.biz_key report.order_line_id ≡ err value_error)
        × (upsert_open_issue report issues ≡ err value_error))
      ⊎ ((link : Option Text × Option ℕ) × (normalize_order_link report.biz_key report.order_line_id
            ≡ ok link)
          × IsReported (normalized report link) (upsert_open_issue report issues))
unfolding upsert_open_issue find_latest_matching_open_issue
upsert_open_issue-IsReported report issues distinct linked =
    elim (link_cases report.biz_key report.order_line_id) [
      | inl e ↦ inl (e, rw e refl)
      | inr (link, e) ↦
          let agree = (normalize_order_link-IsLink report.biz_key report.order_line_id e).0 in
          inr (
            link,
            e,
            rw e (
                write_issue-IsReported (normalized report link) issues.next_id issues.rows _ refl
                  agree distinct linked),
          )
    ]
