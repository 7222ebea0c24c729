-- ===== src/MachineSchedules/Rows.antt =====
-- services/api/app/repository/machine_schedule_result_repo.py: the one row of an order.
use auto_scheduling_system.Prelude.{
  ℕ, ◌≡◌, refl, ap, sym, ◌∙◌, subst, true, false, Option, none, some, List, [], ◌∷◌, ◌++◌, map,
  ◌==◌, ==_false_comm, ==_iff, if◌then◌else◌, where_true, where_true-append, inl, inr, Bool-cases,
  All, All-imp, All-where,
}
use auto_scheduling_system.Prelude.Result.{ok}
use auto_scheduling_system.Assemblies.Repo.{scalar_one_or_none}
use auto_scheduling_system.MachineSchedules.{
  MachineScheduleResult, MachineResults, is_result_of, write_result, empty_result_row,
}

-- The primary key and the unique key of the table.
abbrev pub AreUnique : List MachineScheduleResult → Type 0
AreUnique [] = Unit
AreUnique (row ∷ rows) =
    All
      (λ other.
        ((other.id == row.id) ≡ false) × ((other.order_line_id == row.order_line_id) ≡ false))
      rows
    × AreUnique rows

module _ (id : ℕ) (existing : MachineScheduleResult) where
  -- The row is found by its own id exactly where it is found by the order's.
  abbrev IsPinned : MachineScheduleResult → Type 0
  IsPinned row = (row.id == existing.id) ≡ is_result_of id row

  first_of :
      {x y : MachineScheduleResult} {xs ys : List MachineScheduleResult} → x ∷ xs ≡ y ∷ ys → x ≡ y
  first_of h = cc

  rest_of :
      {x y : MachineScheduleResult} {xs ys : List MachineScheduleResult} → x ∷ xs ≡ y ∷ ys → xs ≡ ys
  rest_of h = cc

  AreUnique-IsPinned :
      (rows : List MachineScheduleResult)
      → AreUnique rows
      → where_true (is_result_of id) rows ≡ existing ∷ []
      → All IsPinned rows
  AreUnique-IsPinned [] u h = tt
  AreUnique-IsPinned (row ∷ rows) u h = elim (Bool-cases (is_result_of id row)) [
    | inl e ↦
        let same = first_of (rw e at h) in
        let of_order : row.order_line_id ≡ id = (==_iff row.order_line_id id).0 e in
        (
          rw (← same) ((==_iff row.id row.id).1 refl ∙ sym e),
          All-imp rows
              (λ other d.
                subst (λ (r : MachineScheduleResult). (other.id == r.id) ≡ is_result_of id other)
                  same (d.0 ∙ sym (subst (λ i. (other.order_line_id == i) ≡ false) of_order d.1)))
              u.0,
        )
    | inr e ↦
        let found = rw e at h in
        let apart = All-where _ (is_result_of id) rows u.0 in
        let differs = (subst (All _) found apart).0.0 in
        (==_false_comm row.id existing.id differs ∙ sym e, AreUnique-IsPinned rows u.1 found)
  ]

-- The order's row afterwards, and the rows of the others.
abbrev pub IsWritten :
    ℕ → List MachineScheduleResult → MachineScheduleResult → List MachineScheduleResult → Type 0
IsWritten id before row after =
    (where_true (is_result_of id) after ≡ row ∷ [])
    × ((other : ℕ)
        → (id == other) ≡ false
        → where_true (is_result_of other) after ≡ where_true (is_result_of other) before)

scalar_some {ℓ} :
    {A : Type ℓ} (xs : List A) {x : A} → scalar_one_or_none xs ≡ ok (some x) → xs ≡ x ∷ []
scalar_some [] h = cc
scalar_some (x ∷ []) h = cc
scalar_some (x ∷ y ∷ xs) h = cc

scalar_none {ℓ} : {A : Type ℓ} (xs : List A) → scalar_one_or_none xs ≡ ok none → xs ≡ []
scalar_none [] h = refl
scalar_none (x ∷ []) h = cc
scalar_none (x ∷ y ∷ xs) h = cc

module _ (id : ℕ) (values : MachineScheduleResult → MachineScheduleResult)
    (kept : (row : MachineScheduleResult) → (values row).order_line_id ≡ row.order_line_id) where
  abbrev change : MachineScheduleResult → MachineScheduleResult → MachineScheduleResult
  change existing row = if row.id == existing.id then values row else row

  where_true-change :
      (existing : MachineScheduleResult) (rows : List MachineScheduleResult)
      → All (IsPinned id existing) rows
      → where_true (is_result_of id) (map (change existing) rows)
        ≡ map values (where_true (is_result_of id) rows)
  where_true-change existing [] h = refl
  where_true-change existing (row ∷ rows) h = elim (Bool-cases (is_result_of id row)) [
    | inl e ↦
        let after : is_result_of id (values row) ≡ true = ap (λ i. i == id) (kept row) ∙ e in
        rw (h.0 ∙ e) (
          rw after (
            rw e (
              ap (λ (l : List MachineScheduleResult). values row ∷ l)
                (where_true-change existing rows h.1))))
    | inr e ↦ rw (h.0 ∙ e) (rw e (where_true-change existing rows h.1))
  ]

  where_true-change_other :
      (existing : MachineScheduleResult) (other : ℕ) (rows : List MachineScheduleResult)
      → (id == other) ≡ false
      → All (IsPinned id existing) rows
      → where_true (is_result_of other) (map (change existing) rows)
        ≡ where_true (is_result_of other) rows
  where_true-change_other existing other [] d h = refl
  where_true-change_other existing other (row ∷ rows) d h =
      let rest = where_true-change_other existing other rows d h.1 in
      elim (Bool-cases (is_result_of id row)) [
        | inl e ↦
            let of_order : row.order_line_id ≡ id = (==_iff row.order_line_id id).0 e in
            let before : is_result_of other row ≡ false = ap (λ i. i == other) of_order ∙ d in
            let after : is_result_of other (values row) ≡ false =
              ap (λ i. i == other) (kept row) ∙ before in
            rw (h.0 ∙ e) (rw after (rw before rest))
        | inr e ↦ elim (Bool-cases (is_result_of other row)) [
          | inl o ↦ rw (h.0 ∙ e) (rw o (ap (λ (l : List MachineScheduleResult). row ∷ l) rest))
          | inr o ↦ rw (h.0 ∙ e) (rw o rest)
        ]
      ]

  append-nil : (rows : List MachineScheduleResult) → rows ++ [] ≡ rows
  append-nil [] = refl
  append-nil (row ∷ rows) = ap (λ (l : List MachineScheduleResult). row ∷ l) (append-nil rows)

  pub write_result-IsWritten :
      (results : MachineResults) (existing : Option MachineScheduleResult)
      → AreUnique results.rows
      → scalar_one_or_none (where_true (is_result_of id) results.rows) ≡ ok existing
      → IsWritten id results.rows
          (write_result id values results existing).0
          (write_result id values results existing).1.rows
  unfolding write_result
  write_result-IsWritten results (some existing) u h =
      let found = scalar_some (where_true (is_result_of id) results.rows) h in
      let pinned = AreUnique-IsPinned id existing results.rows u found in
      (
        where_true-change existing results.rows pinned ∙ ap (map values) found,
        λ other d. where_true-change_other existing other results.rows d pinned,
      )
  write_result-IsWritten results none u h =
      let entity = values (empty_result_row results.next_id id) in
      let own : is_result_of id entity ≡ true =
        ap (λ i. i == id) (kept (empty_result_row results.next_id id)) ∙ (==_iff id id).1 refl in
      (
        where_true-append (is_result_of id) results.rows (entity ∷ [])
            ∙ ap (λ l. l ++ where_true (is_result_of id) (entity ∷ [])) (scalar_none _ h)
            ∙ rw own,
        λ other d.
            let not_own : is_result_of other entity ≡ false =
              ap (λ i. i == other) (kept (empty_result_row results.next_id id)) ∙ d in
            where_true-append (is_result_of other) results.rows (entity ∷ [])
            ∙ rw not_own (append-nil (where_true (is_result_of other) results.rows)),
      )

AreUnique-none :
    (id : ℕ) (row : MachineScheduleResult) (rows : List MachineScheduleResult)
    → row.order_line_id ≡ id
    → All
        (λ (other : MachineScheduleResult).
          ((other.id == row.id) ≡ false) × ((other.order_line_id == row.order_line_id) ≡ false))
        rows
    → where_true (is_result_of id) rows ≡ []
AreUnique-none id row [] e h = refl
AreUnique-none id row (other ∷ rows) e h =
    rw (subst (λ i. (other.order_line_id == i) ≡ false) e h.0.1) (AreUnique-none id row rows e h.1)

-- The look-up of an order's row never finds two.
pub find_by_order_line_id-ok :
    (id : ℕ) (rows : List MachineScheduleResult)
    → AreUnique rows
    → (existing : Option MachineScheduleResult) × (scalar_one_or_none
          (where_true (is_result_of id) rows)
        ≡ ok existing)
find_by_order_line_id-ok id [] u = (none, refl)
find_by_order_line_id-ok id (row ∷ rows) u = elim (Bool-cases (is_result_of id row)) [
  | inl e ↦
      let of_order : row.order_line_id ≡ id = (==_iff row.order_line_id id).0 e in
      rw e (rw (AreUnique-none id row rows of_order u.0) (some row, refl))
  | inr e ↦ rw e (find_by_order_line_id-ok id rows u.1)
]
