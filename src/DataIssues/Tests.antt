-- ===== src/DataIssues/Tests.antt =====
-- A report for an order that has two open issues of its kind.
use auto_scheduling_system.Prelude.{
  ℕ, ◌≡◌, refl, ◌⊎◌, Option, none, some, List, [], ◌∷◌, Text, codes, show_nat, map,
}
use auto_scheduling_system.Prelude.Result.{Result, ok, err, value_error}
use auto_scheduling_system.DataIssues.{
  DataIssue, Issues, IssueReport, normalize_order_link, upsert_open_issue, open_status,
}
use auto_scheduling_system.DataIssues.Upsert.{IsReported, normalized, upsert_open_issue-IsReported}

abbrev issue_of : ℕ → DataIssue
issue_of id = record {
  id = id;
  issue_type = codes "BOM缺失";
  issue_level = none;
  source_system = some (codes "scheduler");
  biz_key = some (codes "12");
  order_line_id = some 12;
  issue_title = codes "old";
  issue_detail = none;
  status = open_status;
  remark = none;
}

abbrev issues : Issues
issues = record { rows = issue_of 1 ∷ issue_of 2 ∷ []; next_id = 3 }

abbrev report : IssueReport
report = record {
  issue_type = codes "BOM缺失";
  issue_level = some (codes "high");
  source_system = some (codes " scheduler ");
  biz_key = none;
  order_line_id = some 12;
  issue_title = codes "new";
  issue_detail = none;
}

abbrev titles : Result (DataIssue × Issues) → List (Text × Text)
titles (err e) = []
titles (ok (entity, after)) =
    map {B = Text × Text} (λ (row : DataIssue). (row.issue_title, row.status)) after.rows

upsert_run :
    titles (upsert_open_issue report issues)
    ≡ (codes "old", codes "resolved") ∷ (codes "new", codes "open") ∷ []
unfolding upsert_open_issue
upsert_run = refl

upsert_open_issue-IsReported_example :
    ((normalize_order_link none (some 12) ≡ err value_error)
      × (upsert_open_issue report issues ≡ err value_error))
    ⊎ ((link : Option Text × Option ℕ) × (normalize_order_link none (some 12) ≡ ok link)
        × IsReported (normalized report link) (upsert_open_issue report issues))
unfolding show_nat
upsert_open_issue-IsReported_example =
    upsert_open_issue-IsReported report issues ((refl, tt), (tt, tt)) (refl, (refl, tt))
