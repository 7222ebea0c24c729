-- ===== src/Assemblies/Repo.antt =====
-- services/api/app/models/assembly_time.py and repository/assembly_time_repo.py: the times
-- and the order of a model's assemblies. A sequence is not negative.
use auto_scheduling_system.Prelude.{
  ℕ, max, Bool, true, false, ◌&&◌, ◌||◌, not, Option, none, some, List, [], ◌∷◌, leb, if◌then◌else◌,
  Text, codes, text_eq, where_true, sort_by,
}
use auto_scheduling_system.Prelude.Result.{Result, ok, err, multiple_results_found}
use auto_scheduling_system.Prelude.Decimal.{Decimal}

pub record AssemblyTimeBaseline : Type 0 where
  pub id : ℕ
  pub machine_model : Text
  pub product_series : Option Text
  pub assembly_name : Text
  pub assembly_time_days : Decimal
  pub is_final_assembly : Bool
  pub production_sequence : ℕ
  pub is_default : Bool
  pub remark : Option Text

-- The table, and the id of the next row.
pub record AssemblyTimeTable : Type 0 where
  pub rows : List AssemblyTimeBaseline
  pub next_id : ℕ

abbrev pub final_assembly_name : Text
final_assembly_name = codes "整机总装"

-- `scalar_one_or_none`
abbrev pub scalar_one_or_none {ℓ} : {A : Type ℓ} → List A → Result (Option A)
scalar_one_or_none [] = ok none
scalar_one_or_none (x ∷ []) = ok (some x)
scalar_one_or_none (x ∷ y ∷ xs) = err multiple_results_found

unfoldable pub find_by_model_and_assembly :
    List AssemblyTimeBaseline → Text → Text → Result (Option AssemblyTimeBaseline)
unfolding text_eq
find_by_model_and_assembly rows machine_model assembly_name = scalar_one_or_none (
    where_true
      (λ row. text_eq row.machine_model machine_model && text_eq row.assembly_name assembly_name)
      rows)

abbrev pub is_final_of : Text → AssemblyTimeBaseline → Bool
is_final_of machine_model row =
    text_eq row.machine_model machine_model
    && (row.is_final_assembly || text_eq row.assembly_name final_assembly_name)

-- `order_by(is_final_assembly.desc(), id.asc())`
abbrev pub final_before : AssemblyTimeBaseline → AssemblyTimeBaseline → Bool
final_before a b =
    if a.is_final_assembly
    then (if b.is_final_assembly then leb a.id b.id else true)
    else (if b.is_final_assembly then false else leb a.id b.id)

unfoldable pub find_final_assembly :
    List AssemblyTimeBaseline → Text → Result (Option AssemblyTimeBaseline)
unfolding sort_by text_eq
find_final_assembly rows machine_model =
    scalar_one_or_none (sort_by final_before (where_true (is_final_of machine_model) rows))

abbrev pub sequence_before : AssemblyTimeBaseline → AssemblyTimeBaseline → Bool
sequence_before a b = leb a.production_sequence b.production_sequence

unfoldable pub find_all_by_model : List AssemblyTimeBaseline → Text → List AssemblyTimeBaseline
unfolding sort_by text_eq
find_all_by_model rows machine_model =
    sort_by sequence_before (where_true (λ row. text_eq row.machine_model machine_model) rows)

abbrev pub is_sub_of : Text → AssemblyTimeBaseline → Bool
is_sub_of machine_model row =
    text_eq row.machine_model machine_model
    && (not row.is_final_assembly && not (text_eq row.assembly_name final_assembly_name))

-- `func.max`, which is null for no row.
unfoldable pub max_sequence : List AssemblyTimeBaseline → Option ℕ
max_sequence [] = none
max_sequence (row ∷ rows) = elim (max_sequence rows) [
  | none ↦ some row.production_sequence
  | some n ↦ some (max row.production_sequence n)
]

unfoldable pub find_max_sub_assembly_sequence : List AssemblyTimeBaseline → Text → Option ℕ
unfolding max_sequence text_eq
find_max_sub_assembly_sequence rows machine_model =
    max_sequence (where_true (is_sub_of machine_model) rows)
