-- ===== src/MachineCycles/Distinct.antt =====
-- repository/machine_cycle_baseline_repo.py: rows with ids of their own, in the order of a query.
use auto_scheduling_system.Prelude.{
  ◌≡◌, Bool, false, List, [], ◌∷◌, inl, inr, Bool-cases, ◌==◌, ==_false_comm, where_true, sort_by,
  insert_by, All, All-where, All-insert_by, All-sort_by,
}
use auto_scheduling_system.MachineCycles.Baselines.{MachineCycleBaseline}

-- Ids that differ from one row to the next.
abbrev pub AreDistinct : List MachineCycleBaseline → Type 0
AreDistinct [] = Unit
AreDistinct (row ∷ rows) = All (λ other. (other.id == row.id) ≡ false) rows × AreDistinct rows

pub where_true-AreDistinct :
    (test : MachineCycleBaseline → Bool) (rows : List MachineCycleBaseline)
    → AreDistinct rows
    → AreDistinct (where_true test rows)
where_true-AreDistinct test [] d = tt
where_true-AreDistinct test (row ∷ rows) d = elim (Bool-cases (test row)) [
  | inl e ↦ rw e (
    All-where (λ other. (other.id == row.id) ≡ false) test rows d.0,
    where_true-AreDistinct test rows d.1,
  )
  | inr e ↦ rw e (where_true-AreDistinct test rows d.1)
]

module _ (le : MachineCycleBaseline → MachineCycleBaseline → Bool) where
  insert_by-AreDistinct :
      (x : MachineCycleBaseline) (rows : List MachineCycleBaseline)
      → All (λ other. (other.id == x.id) ≡ false) rows
      → AreDistinct rows
      → AreDistinct (insert_by le x rows)
  unfolding insert_by
  insert_by-AreDistinct x [] h d = (tt, tt)
  insert_by-AreDistinct x (row ∷ rows) h d = elim (Bool-cases (le x row)) [
    | inl e ↦ rw e (h, d)
    | inr e ↦ rw e (
      All-insert_by (λ other. (other.id == row.id) ≡ false) le x rows
          (==_false_comm x.id row.id h.0) d.0,
      insert_by-AreDistinct x rows h.1 d.1,
    )
  ]

  pub sort_by-AreDistinct :
      (rows : List MachineCycleBaseline) → AreDistinct rows → AreDistinct (sort_by le rows)
  unfolding sort_by
  sort_by-AreDistinct [] d = tt
  sort_by-AreDistinct (row ∷ rows) d =
      insert_by-AreDistinct row (sort_by le rows)
        (All-sort_by (λ other. (other.id == row.id) ≡ false) le rows d.0)
        (sort_by-AreDistinct rows d.1)
