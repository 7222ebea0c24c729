-- ===== src/Assemblies/Defaults.antt =====
-- services/api/app/baseline/assembly_time_default_service.py. The entities that the service holds
-- are the rows of the table, so a dict of entities is a dict of ids.
use auto_scheduling_system.Prelude.{
  ℕ, suc, ◌+◌, Bool, true, false, ◌&&◌, ◌||◌, Option, none, some, List, [], ◌∷◌, ◌++◌, ◌==◌,
  if◌then◌else◌, Text, codes, text_eq, is_empty, strip, member, first_where, map,
}
use auto_scheduling_system.Prelude.Result.{Result, ok, ◌>>=◌}
use auto_scheduling_system.Prelude.Decimal.{Decimal, decimal}
use auto_scheduling_system.Prelude.Dict.{dict_get, dict_set, has_key}
use auto_scheduling_system.Assemblies.Repo.{
  AssemblyTimeBaseline, AssemblyTimeTable, final_assembly_name, find_by_model_and_assembly,
  find_final_assembly, find_all_by_model, find_max_sub_assembly_sequence,
}

abbrev pub default_sub_assembly_days : Decimal
default_sub_assembly_days = decimal 1

abbrev pub default_final_assembly_days : Decimal
default_final_assembly_days = decimal 3

abbrev pub default_sequence_map : List (Text × ℕ)
default_sequence_map =
    (codes "机身", 1)
    ∷ (codes "传动", 2)
    ∷ (codes "滑块", 2)
    ∷ (codes "平衡缸", 3)
    ∷ (codes "空气管路", 4)
    ∷ (codes "电气", 5)
    ∷ []

abbrev pub default_sequence_fallback : ℕ
default_sequence_fallback = 3

unfoldable pub default_sequence : Text → ℕ
unfolding dict_get
default_sequence assembly_name = elim (dict_get assembly_name default_sequence_map) [
  | none ↦ default_sequence_fallback
  | some n ↦ n
]

unfoldable pub is_whole_machine_final_assembly : Text → Bool → Bool
unfolding strip text_eq
is_whole_machine_final_assembly assembly_name is_final =
    is_final && text_eq (strip assembly_name) final_assembly_name

unfoldable pub resolve_default_sequence : List AssemblyTimeBaseline → Text → Text → Bool → ℕ
unfolding is_whole_machine_final_assembly find_max_sub_assembly_sequence default_sequence
resolve_default_sequence rows machine_model assembly_name is_final =
    if is_whole_machine_final_assembly assembly_name is_final
    then (elim (find_max_sub_assembly_sequence rows machine_model) [ none ↦ 0 | some n ↦ n ]) + 1
    else default_sequence assembly_name

-- `session.add` and `flush` of a new row.
abbrev pub add_row : AssemblyTimeBaseline → AssemblyTimeTable → AssemblyTimeTable
add_row row table = record { rows = table.rows ++ row ∷ []; next_id = suc table.next_id }

abbrev pub default_row : ℕ → Text → Option Text → Text → Bool → Decimal → ℕ → AssemblyTimeBaseline
default_row id machine_model product_series assembly_name is_final days sequence = record {
  id = id;
  machine_model = machine_model;
  product_series = product_series;
  assembly_name = assembly_name;
  assembly_time_days = days;
  is_final_assembly = is_final;
  production_sequence = sequence;
  is_default = true;
  remark = none;
}

unfoldable pub ensure_default :
    AssemblyTimeTable
    → Text
    → Option Text
    → Text
    → Bool
    → Result (AssemblyTimeBaseline × AssemblyTimeTable)
unfolding find_by_model_and_assembly resolve_default_sequence
ensure_default table machine_model product_series assembly_name is_final =
    find_by_model_and_assembly table.rows machine_model assembly_name >>= λ existing.
    elim existing [
      | some row ↦ ok (row, table)
      | none ↦
          let row =
            default_row table.next_id machine_model product_series assembly_name is_final
              (if is_final then default_final_assembly_days else default_sub_assembly_days)
              (resolve_default_sequence table.rows machine_model assembly_name is_final) in
          ok (row, add_row row table)
    ]

-- `session.get`
unfoldable pub get_row : ℕ → List AssemblyTimeBaseline → Option AssemblyTimeBaseline
get_row id rows = first_where (λ row. row.id == id) rows

abbrev pub update_row :
    ℕ → (AssemblyTimeBaseline → AssemblyTimeBaseline) → AssemblyTimeBaseline → AssemblyTimeBaseline
update_row id change row = if row.id == id then change row else row

-- `final_record.is_final_assembly = True`, which the query for the maximum flushes.
abbrev pub mark_final : ℕ → List AssemblyTimeBaseline → List AssemblyTimeBaseline
mark_final id rows = map (update_row id (λ row. record row { is_final_assembly = true })) rows

abbrev pub set_sequence : ℕ → ℕ → List AssemblyTimeBaseline → List AssemblyTimeBaseline
set_sequence id n rows = map (update_row id (λ row. record row { production_sequence = n })) rows

unfoldable pub reconcile_final_assembly_sequence :
    List AssemblyTimeBaseline → Text → Result (List AssemblyTimeBaseline)
unfolding find_final_assembly resolve_default_sequence
reconcile_final_assembly_sequence rows machine_model =
    find_final_assembly rows machine_model >>= λ final_record. elim final_record [
      | none ↦ ok rows
      | some record_ ↦
          let marked = mark_final record_.id rows in
          ok (
            set_sequence record_.id
              (resolve_default_sequence marked machine_model record_.assembly_name true) marked)
    ]

-- The names that are not empty, each once.
unfoldable pub normalize_names : List Text → List Text → List Text
unfolding member
normalize_names seen_names [] = []
normalize_names seen_names (name ∷ names) =
    let later = normalize_names (name ∷ seen_names) names in
    let rest = normalize_names seen_names names in
    if is_empty name || member name seen_names then rest else name ∷ later

-- `{item.assembly_name: item for item in ... if item.assembly_name}`
unfoldable pub existing_map : List AssemblyTimeBaseline → List (Text × ℕ) → List (Text × ℕ)
unfolding dict_set
existing_map [] items = items
existing_map (row ∷ rows) items =
    existing_map rows
      (if is_empty row.assembly_name then items else dict_set row.assembly_name row.id items)

-- `{name: existing_map[name] for name in normalized_names if name in existing_map}`
unfoldable pub known_names : List (Text × ℕ) → List Text → List (Text × ℕ) → List (Text × ℕ)
unfolding dict_set dict_get
known_names existing [] result_map = result_map
known_names existing (name ∷ names) result_map =
    known_names existing names
      (elim (dict_get name existing) [ none ↦ result_map | some id ↦ dict_set name id result_map ])

-- The table and the dict of the result.
abbrev pub Ensured : Type 0
Ensured = AssemblyTimeTable × List (Text × ℕ)

-- One round of the loop over the names.
unfoldable pub ensure_name : Text → Option Text → Ensured → Text → Ensured
unfolding dict_get dict_set default_sequence
ensure_name machine_model product_series (table, result_map) assembly_name =
    if has_key assembly_name result_map then (table, result_map) else (
      add_row
          (default_row table.next_id machine_model product_series assembly_name false
            default_sub_assembly_days (default_sequence assembly_name))
          table,
      dict_set assembly_name table.next_id result_map,
    )

unfoldable pub ensure_names : Text → Option Text → Ensured → List Text → Ensured
unfolding ensure_name
ensure_names machine_model product_series ensured [] = ensured
ensure_names machine_model product_series ensured (name ∷ names) =
    ensure_names machine_model product_series
      (ensure_name machine_model product_series ensured name) names

unfoldable pub ensure_sub_assembly_defaults :
    AssemblyTimeTable → Text → Option Text → List Text → Result Ensured
unfolding normalize_names find_all_by_model existing_map known_names ensure_names
    reconcile_final_assembly_sequence
ensure_sub_assembly_defaults table machine_model product_series assembly_names =
    let names = normalize_names [] assembly_names in
    let existing = existing_map (find_all_by_model table.rows machine_model) [] in
    let ensured =
      ensure_names machine_model product_series (table, known_names existing names []) names in
    let returned = reconcile_final_assembly_sequence ensured.0.rows machine_model >>= λ rows.
    ok (record { rows = rows; next_id = ensured.0.next_id }, ensured.1) in
    elim names [ [] ↦ ok (table, []) | _ ∷ _ ↦ returned ]
