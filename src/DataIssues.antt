-- ===== src/DataIssues.antt =====
-- services/api/app/models/data_issue.py and repository/data_issue_repo.py: the issues that the
-- scheduler and the synchronisations report, at most one of them open for an order and a kind. The
-- validators of the model run at each assignment, and may raise. Times, the handler and the paged
-- queries are left out.
pub mod Links
pub mod Rows
pub mod Upsert
mod Tests
use auto_scheduling_system.Prelude.{
  ℕ, ◌+◌, Bool, true, false, not, ◌&&◌, Option, none, some, List, [], ◌∷◌, ◌++◌, map, length, leb,
  ◌==◌, if◌then◌else◌, Text, codes, text_eq, is_empty, or_empty, none_if_empty, strip, show_nat,
  any_where, where_true, sort_by,
}
use auto_scheduling_system.Prelude.Result.{Result, ok, err, value_error, ◌>>=◌}

pub record DataIssue : Type 0 where
  pub id : ℕ
  pub issue_type : Text
  pub issue_level : Option Text
  pub source_system : Option Text
  pub biz_key : Option Text
  pub order_line_id : Option ℕ
  pub issue_title : Text
  pub issue_detail : Option Text
  pub status : Text
  pub remark : Option Text

-- The table, and the id of the next row.
pub record Issues : Type 0 where
  pub rows : List DataIssue
  pub next_id : ℕ

-- The key of an order that has none, or one that agrees with the order.
unfoldable pub normalize_order_link : Option Text → Option ℕ → Result (Option Text × Option ℕ)
unfolding strip text_eq show_nat
normalize_order_link biz_key none = ok (biz_key, none)
normalize_order_link none (some id) = ok (some (show_nat id), some id)
normalize_order_link (some key) (some id) =
    if is_empty (strip key)
    then ok (some (show_nat id), some id)
    else (if text_eq key (show_nat id) then ok (some (show_nat id), some id) else err value_error)

unfoldable pub normalize_source_system : Option Text → Option Text
unfolding strip
normalize_source_system source_system = none_if_empty (strip (or_empty source_system))

-- `entity.biz_key = value`, with its validator.
unfoldable pub set_biz_key : Option Text → DataIssue → Result DataIssue
unfolding normalize_order_link
set_biz_key value issue = normalize_order_link value issue.order_line_id >>= λ link.
    ok (record issue { biz_key = link.0 })

-- `entity.order_line_id = value`, with its validator.
unfoldable pub set_order_line_id : Option ℕ → DataIssue → Result DataIssue
unfolding normalize_order_link
set_order_line_id value issue = normalize_order_link issue.biz_key value >>= λ link.
    ok (record issue { biz_key = link.0; order_line_id = link.1 })

abbrev pub open_status : Text
open_status = codes "open"

abbrev pub resolved_status : Text
resolved_status = codes "resolved"

-- Equality of nullable columns with a value; `== None` is `IS NULL`.
abbrev pub null_eq : Option Text → Option Text → Bool
null_eq none none = true
null_eq (some a) (some b) = text_eq a b
null_eq _ _ = false

abbrev pub is_of_order : ℕ → Option ℕ → Bool
is_of_order id none = false
is_of_order id (some order_line_id) = order_line_id == id

-- The keyword arguments of `upsert_open_issue`.
pub record IssueReport : Type 0 where
  pub issue_type : Text
  pub issue_level : Option Text
  pub source_system : Option Text
  pub biz_key : Option Text
  pub order_line_id : Option ℕ
  pub issue_title : Text
  pub issue_detail : Option Text

-- The second half of the conditions: by the order, or else by the title and the key.
abbrev pub matches_link : IssueReport → DataIssue → Option ℕ → Bool
matches_link report issue (some id) = is_of_order id issue.order_line_id
matches_link report issue none =
    text_eq issue.issue_title report.issue_title && null_eq issue.biz_key report.biz_key

-- `_build_open_issue_match_conditions`
unfoldable pub matches_open_issue : IssueReport → DataIssue → Bool
unfolding text_eq normalize_source_system
matches_open_issue report issue =
    text_eq issue.issue_type report.issue_type
    && (null_eq issue.source_system (normalize_source_system report.source_system)
        && (text_eq issue.status open_status && matches_link report issue report.order_line_id))

unfoldable pub mark_duplicate_issue_resolved : ℕ → DataIssue → DataIssue
unfolding show_nat
mark_duplicate_issue_resolved canonical_id issue = record issue {
  status = resolved_status;
  remark = some (codes "auto-deduped into open issue " ++ show_nat canonical_id);
}

-- `order_by(desc(id))`
abbrev pub newer : DataIssue → DataIssue → Bool
newer a b = leb b.id a.id

abbrev pub is_row_in : List DataIssue → DataIssue → Bool
is_row_in rows issue = any_where (λ row. row.id == issue.id) rows

-- The latest row that matches, and the rows after the others that match are resolved.
unfoldable pub keep_latest : List DataIssue → List DataIssue → Option DataIssue × List DataIssue
unfolding mark_duplicate_issue_resolved
keep_latest [] rows = (none, rows)
keep_latest (canonical ∷ duplicates) rows = (
  some canonical,
  map
      (λ row.
        if is_row_in duplicates row then mark_duplicate_issue_resolved canonical.id row else row)
      rows,
)

unfoldable pub find_latest_matching_open_issue :
    IssueReport → List DataIssue → Option DataIssue × List DataIssue
unfolding matches_open_issue keep_latest sort_by
find_latest_matching_open_issue report rows =
    keep_latest (sort_by newer (where_true (matches_open_issue report) rows)) rows

-- The constructor before it sets the order's id.
unfoldable pub new_issue : ℕ → IssueReport → DataIssue
unfolding normalize_source_system
new_issue id report = record {
  id = id;
  issue_type = report.issue_type;
  issue_level = report.issue_level;
  source_system = normalize_source_system report.source_system;
  biz_key = report.biz_key;
  order_line_id = none;
  issue_title = report.issue_title;
  issue_detail = report.issue_detail;
  status = open_status;
  remark = none;
}

-- The writes to a row that is there, in their order.
unfoldable pub refresh_issue : IssueReport → DataIssue → Result DataIssue
unfolding set_biz_key set_order_line_id
refresh_issue report issue =
    set_biz_key report.biz_key (record issue {
      issue_level = report.issue_level;
      issue_title = report.issue_title;
      issue_detail = report.issue_detail;
    })
    >>= set_order_line_id report.order_line_id

-- The row that is found is written, or a new one is added.
unfoldable pub write_issue :
    IssueReport → ℕ → Option DataIssue × List DataIssue → Result (DataIssue × Issues)
unfolding refresh_issue set_order_line_id new_issue
write_issue report next_id (none, rows) =
    set_order_line_id report.order_line_id (new_issue next_id report) >>= λ entity.
    ok (entity, record { rows = rows ++ entity ∷ []; next_id = next_id + 1 })
write_issue report next_id (some existing, rows) = refresh_issue report existing >>= λ entity. ok (
  entity,
  record {
    rows = map (λ row. if row.id == entity.id then entity else row) rows;
    next_id = next_id;
  },
)

unfoldable pub upsert_open_issue : IssueReport → Issues → Result (DataIssue × Issues)
unfolding normalize_order_link normalize_source_system find_latest_matching_open_issue write_issue
upsert_open_issue report issues =
    normalize_order_link report.biz_key report.order_line_id >>= λ link.
    let normalized = record report {
      biz_key = link.0;
      order_line_id = link.1;
      source_system = normalize_source_system report.source_system;
    } in
    write_issue normalized issues.next_id (find_latest_matching_open_issue normalized issues.rows)

abbrev pub is_open_of : List ℕ → DataIssue → Bool
is_open_of ids issue =
    text_eq issue.status open_status && any_where (λ id. is_of_order id issue.order_line_id) ids

unfoldable pub list_open_by_order_line_ids : List ℕ → List DataIssue → List DataIssue
unfolding sort_by text_eq
list_open_by_order_line_ids ids rows = sort_by newer (where_true (is_open_of ids) rows)

abbrev pub is_keyed : Text → Text → DataIssue → Bool
is_keyed biz_key source_system issue =
    null_eq issue.biz_key (some biz_key) && null_eq issue.source_system (some source_system)

-- The number of rows deleted, and what the deletion leaves.
unfoldable pub delete_by_biz_key_and_source_system :
    Text → Text → List DataIssue → ℕ × List DataIssue
unfolding text_eq
delete_by_biz_key_and_source_system biz_key source_system rows = (
  length (where_true (is_keyed biz_key source_system) rows),
  where_true (λ row. not (is_keyed biz_key source_system row)) rows,
)
