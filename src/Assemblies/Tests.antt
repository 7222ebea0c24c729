-- ===== src/Assemblies/Tests.antt =====
-- Runs of the assembly times, and the theorems at concrete inputs.
use auto_scheduling_system.Prelude.{
  ℕ, ◌≡◌, refl, Bool, true, false, none, some, List, [], ◌∷◌, Text, codes, All,
}
use auto_scheduling_system.Prelude.Result.{Result, ok, err}
use auto_scheduling_system.Prelude.Decimal.{decimal}
use auto_scheduling_system.Assemblies.Repo.{
  AssemblyTimeBaseline, AssemblyTimeTable, find_final_assembly,
}
use auto_scheduling_system.Assemblies.Defaults.{
  is_whole_machine_final_assembly, reconcile_final_assembly_sequence, ensure_sub_assembly_defaults,
}
use auto_scheduling_system.Assemblies.Final.{IsLast, reconcile_final_assembly_sequence-IsLast}

abbrev time : ℕ → Text → Bool → ℕ → AssemblyTimeBaseline
time id name is_final sequence = record {
  id = id;
  machine_model = codes "P1";
  product_series = none;
  assembly_name = name;
  assembly_time_days = decimal 1;
  is_final_assembly = is_final;
  production_sequence = sequence;
  is_default = true;
  remark = none;
}

abbrev final_record : AssemblyTimeBaseline
final_record = time 1 (codes "整机总装") false 2

abbrev rows : List AssemblyTimeBaseline
rows = final_record ∷ time 2 (codes "电气") false 5 ∷ []

rows_final : find_final_assembly rows (codes "P1") ≡ ok (some final_record)
unfolding find_final_assembly
rows_final = refl

rows_whole : is_whole_machine_final_assembly final_record.assembly_name true ≡ true
unfolding is_whole_machine_final_assembly
rows_whole = refl

reconcile_final_assembly_sequence-IsLast_example :
    (n : ℕ) × (reconciled : List AssemblyTimeBaseline) × (reconcile_final_assembly_sequence rows
        (codes "P1")
      ≡ ok reconciled)
    × All (IsLast (codes "P1") 1 n) reconciled
reconcile_final_assembly_sequence-IsLast_example =
    reconcile_final_assembly_sequence-IsLast rows (codes "P1") final_record rows_final rows_whole

abbrev names_of : Result (AssemblyTimeTable × List (Text × ℕ)) → List (Text × ℕ)
names_of (ok (table, result_map)) = result_map
names_of (err e) = []

ensure_runs :
    names_of (
      ensure_sub_assembly_defaults
        (record { rows = rows; next_id = 3 })
        (codes "P1")
        none
        (codes "电气" ∷ codes "滑块" ∷ codes "电气" ∷ []))
    ≡ (codes "电气", 2) ∷ (codes "滑块", 3) ∷ []
unfolding ensure_sub_assembly_defaults
ensure_runs = refl
