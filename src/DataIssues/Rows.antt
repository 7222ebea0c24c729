-- ===== src/DataIssues/Rows.antt =====
-- services/api/app/repository/data_issue_repo.py: the rows of the table, by their ids.
use auto_scheduling_system.Prelude.{
  ℕ, ◌≡◌, refl, ap, Bool, true, false, List, [], ◌∷◌, map, ◌==◌, ==_false_comm, ==_iff, found_later,
  where_true, inl, inr, ◌⊎◌, Bool-cases, All, All-imp, All-both,
}
use auto_scheduling_system.DataIssues.{DataIssue, is_row_in}

-- Ids that differ from one row to the next.
abbrev pub AreDistinct : List DataIssue → Type 0
AreDistinct [] = Unit
AreDistinct (row ∷ rows) = All (λ other. (other.id == row.id) ≡ false) rows × AreDistinct rows

-- Where ids are distinct, a row is the only one of its id.
module _ (id : ℕ) where
  pub where_id-none :
      (rows : List DataIssue)
      → All (λ other. (other.id == id) ≡ false) rows
      → where_true (λ row. row.id == id) rows ≡ []
  where_id-none [] h = refl
  where_id-none (row ∷ rows) h = rw h.0 (where_id-none rows h.1)

abbrev pub IsOnly : List DataIssue → DataIssue → Type 0
IsOnly rows issue = where_true (λ row. row.id == issue.id) rows ≡ issue ∷ []

pub AreDistinct-IsOnly : (rows : List DataIssue) → AreDistinct rows → All (IsOnly rows) rows
AreDistinct-IsOnly [] h = tt
AreDistinct-IsOnly (row ∷ rows) h =
    let own : (row.id == row.id) ≡ true = (==_iff row.id row.id).1 refl in
    (
      rw own (ap (λ (l : List DataIssue). row ∷ l) (where_id-none row.id rows h.0)),
      All-imp rows (λ other both_of. rw (==_false_comm row.id other.id both_of.0) both_of.1)
          (All-both (λ other. (other.id == row.id) ≡ false) (IsOnly rows) rows h.0
            (AreDistinct-IsOnly rows h.1)),
    )

module _ (keep : DataIssue → Bool) (row : DataIssue) (rows : List DataIssue) where
  pub kept_first : keep row ≡ true → is_row_in (where_true keep (row ∷ rows)) row ≡ true
  kept_first k =
      let own : (row.id == row.id) ≡ true = (==_iff row.id row.id).1 refl in rw k (rw own refl)

  pub kept_later :
      (other : DataIssue)
      → is_row_in (where_true keep rows) other ≡ true
      → is_row_in (where_true keep (row ∷ rows)) other ≡ true
  kept_later other h = elim (Bool-cases (keep row)) [
    | inl e ↦ rw e (found_later (row.id == other.id) h)
    | inr e ↦ rw e h
  ]

-- A row that passes a test is among those that the test keeps.
pub AreKept :
    (keep : DataIssue → Bool) (rows : List DataIssue)
    → All (λ row. keep row ≡ true → is_row_in (where_true keep rows) row ≡ true) rows
AreKept keep [] = tt
AreKept keep (row ∷ rows) = (
  kept_first keep row rows,
  All-imp rows (λ other h k. kept_later keep row rows other (h k)) (AreKept keep rows),
)

-- The rows after a change, where only the row of one id matches then.
module _ (keep : DataIssue → Bool) (f g : DataIssue → DataIssue) (id : ℕ) (entity : DataIssue)
    (kept : keep entity ≡ true) where
  abbrev pub Collapses : DataIssue → Type 0
  Collapses row =
      ((row.id == id) ≡ true) × (f (g row) ≡ entity)
      ⊎ ((row.id == id) ≡ false) × (keep (f (g row)) ≡ false)

  pub where_true-collapse :
      (rows : List DataIssue)
      → All Collapses rows
      → where_true keep (map f (map g rows))
        ≡ map (λ _. entity) (where_true (λ row. row.id == id) rows)
  where_true-collapse [] h = refl
  where_true-collapse (row ∷ rows) h = elim h.0 [
    | inl own ↦ rw own.1 (
        rw kept (rw own.0 (ap (λ (l : List DataIssue). entity ∷ l) (where_true-collapse rows h.1))))
    | inr other ↦ rw other.1 (rw other.0 (where_true-collapse rows h.1))
  ]
