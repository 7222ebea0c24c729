-- ===== src/Assemblies.antt =====
-- services/api/app/scheduler/assembly_identify_service.py: the assemblies of a machine.
pub mod Repo
pub mod Defaults
pub mod Final
mod Tests
use auto_scheduling_system.Prelude.{
  ℕ, Bool, Option, none, some, List, [], ◌∷◌, ◌||◌, leb, if◌then◌else◌, Text, is_empty, or_empty,
  member, map, sort_by,
}
use auto_scheduling_system.Prelude.Result.{Result, ok, err, key_error, ◌>>=◌}
use auto_scheduling_system.Prelude.Decimal.{Decimal}
use auto_scheduling_system.Prelude.Dict.{dict_get}
use auto_scheduling_system.TextParse.{normalize_assembly_name}
use auto_scheduling_system.Bom.{BomRelation, find_direct_children}
use auto_scheduling_system.Assemblies.Repo.{AssemblyTimeBaseline, AssemblyTimeTable}
use auto_scheduling_system.Assemblies.Defaults.{get_row, ensure_sub_assembly_defaults}

pub record Assembly : Type 0 where
  pub assembly_name : Text
  pub production_sequence : ℕ
  pub assembly_time_days : Decimal
  pub is_default_time : Bool
  pub bom_component_no : Option Text
  pub bom_component_desc : Option Text

-- The rows of the direct children by name, the first for each name.
unfoldable pub collect_assembly_rows : List Text → List BomRelation → List (Text × BomRelation)
unfolding normalize_assembly_name member
collect_assembly_rows seen_names [] = []
collect_assembly_rows seen_names (row ∷ rows) =
    let name = normalize_assembly_name (or_empty row.bom_component_desc) in
    let later = collect_assembly_rows (name ∷ seen_names) rows in
    let rest = collect_assembly_rows seen_names rows in
    if is_empty name || member name seen_names then rest else (name, row) ∷ later

abbrev pub assembly : Text → AssemblyTimeBaseline → BomRelation → Assembly
assembly name record_ row = record {
  assembly_name = name;
  production_sequence = record_.production_sequence;
  assembly_time_days = record_.assembly_time_days;
  is_default_time = record_.is_default;
  bom_component_no = row.bom_component_no;
  bom_component_desc = row.bom_component_desc;
}

-- `assembly_time_map[name]`
unfoldable pub time_record :
    List (Text × ℕ) → List AssemblyTimeBaseline → Text → Result AssemblyTimeBaseline
unfolding dict_get get_row
time_record assembly_time_map rows name = elim (dict_get name assembly_time_map) [
  | none ↦ err key_error
  | some id ↦ elim (get_row id rows) [ none ↦ err key_error | some row ↦ ok row ]
]

unfoldable pub build_assemblies :
    List (Text × ℕ) → List AssemblyTimeBaseline → List (Text × BomRelation) → Result (List Assembly)
unfolding time_record
build_assemblies assembly_time_map rows [] = ok []
build_assemblies assembly_time_map rows ((name, row) ∷ assembly_rows) =
    time_record assembly_time_map rows name >>= λ at_record.
    build_assemblies assembly_time_map rows assembly_rows >>= λ assemblies.
    ok (assembly name at_record row ∷ assemblies)

abbrev pub assembly_before : Assembly → Assembly → Bool
assembly_before a b = leb a.production_sequence b.production_sequence

-- What follows once the rows are collected.
unfoldable pub identify_rows :
    AssemblyTimeTable
    → Text
    → Option Text
    → List (Text × BomRelation)
    → Result (List Assembly × AssemblyTimeTable)
unfolding ensure_sub_assembly_defaults build_assemblies sort_by
identify_rows table machine_model product_series assembly_rows =
    let built =
      ensure_sub_assembly_defaults table machine_model product_series
        (map (λ item. item.0) assembly_rows)
      >>= λ ensured. build_assemblies ensured.1 ensured.0.rows assembly_rows >>= λ assemblies.
          ok (sort_by assembly_before assemblies, ensured.0) in
    elim assembly_rows [ [] ↦ ok ([], table) | _ ∷ _ ↦ built ]

-- The assemblies, and the table with the default rows added.
unfoldable pub identify :
    (default_plant : Text)
    → List BomRelation
    → AssemblyTimeTable
    → Text
    → Option Text
    → Text
    → Option Text
    → Result (List Assembly × AssemblyTimeTable)
unfolding find_direct_children collect_assembly_rows identify_rows
identify default_plant bom table machine_material_no plant machine_model product_series =
    identify_rows table machine_model product_series
      (collect_assembly_rows [] (find_direct_children default_plant bom machine_material_no plant))
