-- ===== src/PartSchedule/Replace.antt =====
-- services/api/app/scheduler/part_schedule_service.py: the rows that a build leaves in the table.
use auto_scheduling_system.Prelude.{
  ℕ, ◌+◌, ◌-◌, ◌*◌, ◌≤◌, ◌<◌, ◌≡◌, refl, ap, ◌∙◌, Bool, true, false, not, List, [], ◌∷◌, ◌++◌, inl,
  inr, arith, Bool-cases, leb, ◌==◌, ==_iff, length, where_true, where_true-append, All, All-imp,
}
use auto_scheduling_system.Prelude.Result.{ok}
use auto_scheduling_system.Calendar.{Date, max_date}
use auto_scheduling_system.Calendar.Workdays.{reach}
use auto_scheduling_system.Assemblies.{Assembly}
use auto_scheduling_system.Orders.{SalesPlanOrderLine}
use auto_scheduling_system.PartSchedule.Rows.{PartScheduleResult}
use auto_scheduling_system.PartSchedule.{
  MachineSchedule, Source, Store, sorted_seqs, delete_by_order_line_id, build_parts, plan_of,
}
use auto_scheduling_system.PartSchedule.Backward.{schedule_machine-EndsBy}

module _ {ℓ} {A : Type ℓ} (p : A → Bool) where
  -- The items that pass are not among those that do not.
  where_true-not : (xs : List A) → where_true p (where_true (λ x. not (p x)) xs) ≡ []
  where_true-not [] = refl
  where_true-not (x ∷ xs) = elim (Bool-cases (p x)) [
    | inl e ↦ rw e (where_true-not xs)
    | inr e ↦ rw (e, e) (where_true-not xs)
  ]

  where_true_idem : (xs : List A) → where_true p (where_true p xs) ≡ where_true p xs
  where_true_idem [] = refl
  where_true_idem (x ∷ xs) = elim (Bool-cases (p x)) [
    | inl e ↦ rw (e, e) (ap (λ l. x ∷ l) (where_true_idem xs))
    | inr e ↦ rw e (where_true_idem xs)
  ]

  where_true-All : (xs : List A) → All (λ x. p x ≡ true) xs → where_true p xs ≡ xs
  where_true-All [] h = refl
  where_true-All (x ∷ xs) h = rw h.0 (ap (λ l. x ∷ l) (where_true-All xs h.1))

  where_true-none : (xs : List A) → All (λ x. p x ≡ false) xs → where_true p xs ≡ []
  where_true-none [] h = refl
  where_true-none (x ∷ xs) h = rw h.0 (where_true-none xs h.1)

append-nil {ℓ} : {A : Type ℓ} (xs : List A) → xs ++ [] ≡ xs
append-nil [] = refl
append-nil (x ∷ xs) = ap (λ l. x ∷ l) (append-nil xs)

abbrev pub is_row_of : ℕ → PartScheduleResult → Bool
is_row_of id row = row.order_line_id == id

abbrev pub is_row_of_other : ℕ → PartScheduleResult → Bool
is_row_of_other id row = not (row.order_line_id == id)

is_row_of-true :
    (id : ℕ) (row : PartScheduleResult) → row.order_line_id ≡ id → is_row_of id row ≡ true
is_row_of-true id row e = (==_iff row.order_line_id id).1 e

module _ (id : ℕ) (old rows : List PartScheduleResult)
    (same : All (λ row. row.order_line_id ≡ id) rows) where
  replaced_own : where_true (is_row_of id) (delete_by_order_line_id id old ++ rows) ≡ rows
  replaced_own =
      where_true-append (is_row_of id) (delete_by_order_line_id id old) rows
      ∙ ap (λ l. l ++ where_true (is_row_of id) rows) (where_true-not (is_row_of id) old)
      ∙ where_true-All (is_row_of id) rows (All-imp rows (is_row_of-true id) same)

  replaced_others :
      where_true (is_row_of_other id) (delete_by_order_line_id id old ++ rows)
      ≡ where_true (is_row_of_other id) old
  replaced_others =
      where_true-append (is_row_of_other id) (delete_by_order_line_id id old) rows
      ∙ ap (λ l. l ++ where_true (is_row_of_other id) rows)
          (where_true_idem (is_row_of_other id) old)
      ∙ ap (λ l. where_true (is_row_of_other id) old ++ l)
          (where_true-none (is_row_of_other id) rows
            (All-imp rows (λ row e. rw (is_row_of-true id row e) refl) same))
      ∙ append-nil (where_true (is_row_of_other id) old)

le→leb : (a b : ℕ) → a ≤ b → leb a b ≡ true
le→leb a b h = ground arith

-- Where the machine ends late enough and within the calendar of Python, a build for assemblies
-- returns, the rows of the order in the table are those that it returns, and the rows of other
-- orders are as they were.
pub build_parts-replaces :
    (source : Source) (store : Store) (order : SalesPlanOrderLine) (msr : MachineSchedule)
    (assemblies : List Assembly) (machine_end : Date)
    → reach * (length (sorted_seqs assemblies) + 1) < machine_end
    → machine_end + 30 ≤ max_date
    → (rows : List PartScheduleResult) × (built : Store) × (build_parts source store order msr
          assemblies machine_end
        ≡ ok (rows, built))
      × (where_true (is_row_of order.id) built.part_results ≡ rows)
      × (where_true (is_row_of_other order.id) built.part_results
          ≡ where_true (is_row_of_other order.id) store.part_results)
unfolding build_parts plan_of
build_parts-replaces source store order msr assemblies machine_end far early =
    let plan = plan_of source order msr assemblies (machine_end - 365) (machine_end + 30) in
    let (current_end, rows, _, _, e, h) =
      schedule_machine-EndsBy plan assemblies msr.machine_assembly_days machine_end far in
    let same = All-imp rows (λ row ends. ends.0) h in
    (
      rows,
      record store { part_results = delete_by_order_line_id order.id store.part_results ++ rows },
      rw
          (
            le→leb 366 machine_end (omega arith),
            le→leb (machine_end + 30) max_date early,
            e,
            build_parts,
          )
          refl,
      replaced_own order.id store.part_results rows same,
      replaced_others order.id store.part_results rows same,
    )
