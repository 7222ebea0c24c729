-- ===== src/Assemblies/Final.antt =====
-- services/api/app/baseline/assembly_time_default_service.py: the sequence of the whole
-- machine's final assembly.
use auto_scheduling_system.Prelude.{
  ℕ, ◌+◌, ◌≤◌, ◌<◌, ◌≡◌, refl, Bool, true, false, Option, none, some, List, [], ◌∷◌, inl, inr,
  arith, Bool-cases, Option-cases, ◌==◌, if◌then◌else◌, Text, where_true, All, All-both, All-map,
  All-always,
}
use auto_scheduling_system.Prelude.Result.{ok}
use auto_scheduling_system.Assemblies.Repo.{
  AssemblyTimeBaseline, is_sub_of, max_sequence, find_final_assembly,
  find_max_sub_assembly_sequence,
}
use auto_scheduling_system.Assemblies.Defaults.{
  update_row, mark_final, set_sequence, is_whole_machine_final_assembly, resolve_default_sequence,
  reconcile_final_assembly_sequence,
}

or_zero : Option ℕ → ℕ
or_zero o = elim o [ none ↦ 0 | some n ↦ n ]

max_sequence_bounds :
    (row : AssemblyTimeBaseline) (rows : List AssemblyTimeBaseline)
    → (row.production_sequence ≤ or_zero (max_sequence (row ∷ rows)))
      × or_zero (max_sequence rows) ≤ or_zero (max_sequence (row ∷ rows))
unfolding max_sequence or_zero
max_sequence_bounds row rows = elim (Option-cases (max_sequence rows)) [
  | inl e ↦ rw (e, max_sequence) (omega arith, omega arith)
  | inr (n, e) ↦ rw (e, max_sequence) (omega arith, omega arith)
]

-- The same where the row is put in front for a test.
max_sequence-if :
    (b : Bool) (row : AssemblyTimeBaseline) (rows : List AssemblyTimeBaseline)
    → (b ≡ true
        → row.production_sequence < or_zero (max_sequence (if b then row ∷ rows else rows)) + 1)
      × or_zero (max_sequence rows) ≤ or_zero (max_sequence (if b then row ∷ rows else rows))
max_sequence-if true row rows =
    (λ e. omega (arith, (max_sequence_bounds row rows).0), (max_sequence_bounds row rows).1)
max_sequence-if false row rows = (λ e. cc, omega arith)

module _ (machine_model : Text) where
  -- A sub-assembly of the model comes before n.
  abbrev pub SubIsBefore : ℕ → AssemblyTimeBaseline → Type 0
  SubIsBefore n row = is_sub_of machine_model row ≡ true → row.production_sequence < n

  SubIsBefore-mono :
      (m n : ℕ) (rows : List AssemblyTimeBaseline)
      → m ≤ n
      → All (SubIsBefore m) rows
      → All (SubIsBefore n) rows
  SubIsBefore-mono m n [] h k = tt
  SubIsBefore-mono m n (row ∷ rows) h k =
      (λ e. omega (arith, k.0 e), SubIsBefore-mono m n rows h k.1)

  max_sequence-SubIsBefore :
      (rows : List AssemblyTimeBaseline)
      → All
          (SubIsBefore (or_zero (max_sequence (where_true (is_sub_of machine_model) rows)) + 1))
          rows
  max_sequence-SubIsBefore [] = tt
  max_sequence-SubIsBefore (row ∷ rows) =
      let (here, later) =
        max_sequence-if (is_sub_of machine_model row) row
          (where_true (is_sub_of machine_model) rows) in
      (here, SubIsBefore-mono _ _ rows (omega (arith, later)) (max_sequence-SubIsBefore rows))

  resolve-SubIsBefore :
      (rows : List AssemblyTimeBaseline) (assembly_name : Text)
      → is_whole_machine_final_assembly assembly_name true ≡ true
      → All (SubIsBefore (resolve_default_sequence rows machine_model assembly_name true)) rows
  unfolding resolve_default_sequence find_max_sub_assembly_sequence or_zero
  resolve-SubIsBefore rows assembly_name h =
      rw (h, resolve_default_sequence) (max_sequence-SubIsBefore rows)

  -- The row of the final assembly has the sequence n, and every sub-assembly of the model an
  -- earlier one.
  abbrev pub IsLast : ℕ → ℕ → AssemblyTimeBaseline → Type 0
  IsLast id n row = ((row.id == id) ≡ true → row.production_sequence ≡ n) × SubIsBefore n row

  abbrev Marked : ℕ → ℕ → AssemblyTimeBaseline → Type 0
  Marked id n row = SubIsBefore n row × ((row.id == id) ≡ true → row.is_final_assembly ≡ true)

  final_or_sub :
      (row : AssemblyTimeBaseline)
      → row.is_final_assembly ≡ true
      → ¬ (is_sub_of machine_model row ≡ true)
  final_or_sub row final e = ground arith

  mark_final-row :
      (id : ℕ) (row : AssemblyTimeBaseline)
      → let marked = update_row id (λ r. record r { is_final_assembly = true }) row in
        (marked.id == id) ≡ true → marked.is_final_assembly ≡ true
  mark_final-row id row e = elim (Bool-cases (row.id == id)) [ inl k ↦ rw k refl | inr k ↦ cc ]

  set_sequence-row :
      (id n : ℕ) (row : AssemblyTimeBaseline)
      → Marked id n row
      → IsLast id n (update_row id (λ r. record r { production_sequence = n }) row)
  set_sequence-row id n row (before, final) = elim (Bool-cases (row.id == id)) [
    | inl k ↦ rw (k, update_row) (λ _. refl, λ e. absurd (final_or_sub row (final k) e))
    | inr k ↦ rw (k, update_row) (λ e. absurd (cc), before)
  ]

  reconcile-IsLast :
      (id : ℕ) (assembly_name : Text) (rows : List AssemblyTimeBaseline)
      → is_whole_machine_final_assembly assembly_name true ≡ true
      → let marked = mark_final id rows in
        let n = resolve_default_sequence marked machine_model assembly_name true in
        All (IsLast id n) (set_sequence id n marked)
  reconcile-IsLast id assembly_name rows h =
      let marked = mark_final id rows in
      let n = resolve_default_sequence marked machine_model assembly_name true in
      All-map (Marked id n) (IsLast id n) _ marked (set_sequence-row id n) (
        All-both (SubIsBefore n) _ marked (resolve-SubIsBefore marked assembly_name h) (
          All-map (λ _. Unit {0}) (λ row. (row.id == id) ≡ true → row.is_final_assembly ≡ true) _
            rows (λ row _. mark_final-row id row) (All-always (λ _. Unit {0}) rows (λ _. tt))))

-- A reconciliation with a final assembly of the whole machine gives it a sequence, and leaves every
-- sub-assembly of the model with an earlier one.
pub reconcile_final_assembly_sequence-IsLast :
    (rows : List AssemblyTimeBaseline) (machine_model : Text) (final_record : AssemblyTimeBaseline)
    → find_final_assembly rows machine_model ≡ ok (some final_record)
    → is_whole_machine_final_assembly final_record.assembly_name true ≡ true
    → (n : ℕ) × (reconciled : List AssemblyTimeBaseline) × (reconcile_final_assembly_sequence rows
          machine_model
        ≡ ok reconciled)
      × All (IsLast machine_model final_record.id n) reconciled
unfolding reconcile_final_assembly_sequence
reconcile_final_assembly_sequence-IsLast rows machine_model final_record found whole =
    rw (found, reconcile_final_assembly_sequence)
      (
        _,
        _,
        refl,
        reconcile-IsLast machine_model final_record.id final_record.assembly_name rows whole,
      )
