-- ===== src/PartSchedule/Rows.antt =====
-- services/api/app/models/part_schedule_result.py, and of scheduler/part_schedule_service.py the
-- rows for one assembly. A time is a date, at midnight; the JSON of flags is the list of the flags
-- that are true. The id that the database gives is left out, and the columns that the service does
-- not write.
use auto_scheduling_system.Prelude.{
  ℕ, Bool, false, Option, none, some, List, [], ◌∷◌, ◌++◌, if◌then◌else◌, Text, codes, text_eq, map,
}
use auto_scheduling_system.Prelude.Result.{Result, ok, ◌>>=◌}
use auto_scheduling_system.Prelude.Decimal.{Decimal, to_int}
use auto_scheduling_system.Prelude.Dict.{dict_get}
use auto_scheduling_system.Calendar.{Date, Calendar, subtract_workdays}
use auto_scheduling_system.Assemblies.{Assembly}
use auto_scheduling_system.KeyParts.Tree.{RecursiveNode}
use auto_scheduling_system.KeyParts.Matching.{
  CycleLookup, KeyNode, match_part_cycle_from_lookup, identify_from_recursive_nodes,
}

pub record PartScheduleResult : Type 0 where
  pub order_line_id : ℕ
  pub machine_schedule_id : ℕ
  pub assembly_name : Text
  pub production_sequence : ℕ
  pub assembly_time_days : Decimal
  pub assembly_is_default : Bool
  pub parent_material_no : Option Text
  pub parent_name : Option Text
  pub node_level : Option ℕ
  pub bom_path : Option Text
  pub bom_path_key : Option Text
  pub part_material_no : Option Text
  pub part_name : Option Text
  pub part_raw_material_desc : Option Text
  pub is_key_part : Bool
  pub part_cycle_days : Option Decimal
  pub part_cycle_is_default : Bool
  pub part_cycle_match_rule : Option Text
  pub key_part_material_no : Option Text
  pub key_part_name : Option Text
  pub key_part_raw_material_desc : Option Text
  pub key_part_cycle_days : Option Decimal
  pub key_part_is_default : Bool
  pub cycle_match_rule : Text
  pub planned_start_date : Option Date
  pub planned_end_date : Date
  pub warning_level : Text
  pub default_flags : List Text
  pub issue_flags : List Text

-- `x.get(...) if x else None`
abbrev of_some {ℓ κ} : {A : Type ℓ} {B : Type κ} → (A → B) → Option A → Option B
of_some f none = none
of_some f (some a) = some (f a)

abbrev of_nullable {ℓ κ} : {A : Type ℓ} {B : Type κ} → (A → Option B) → Option A → Option B
of_nullable f none = none
of_nullable f (some a) = f a

abbrev flag : Bool → Text → List Text
flag b name = if b then name ∷ [] else []

abbrev is_default_key : Option KeyNode → Bool
is_default_key none = false
is_default_key (some key) = key.part.is_default

-- The rows of an assembly share these.
pub record Shared : Type 0 where
  pub order_line_id : ℕ
  pub machine_schedule_id : ℕ
  pub assembly : Assembly
  pub key_part : Option KeyNode
  pub part_start : Option Date
  pub part_end : Date

abbrev is_key : Option KeyNode → Option RecursiveNode → Bool
is_key key none = false
is_key none (some node) = false
is_key (some key) (some node) = text_eq node.bom_path_key key.node.bom_path_key

-- The row of a node, or the one row of an assembly without nodes.
unfoldable pub part_row : CycleLookup → Shared → Option RecursiveNode → PartScheduleResult
unfolding match_part_cycle_from_lookup text_eq
part_row cycle_lookup shared part_node =
    let cycle =
      of_some (λ node. match_part_cycle_from_lookup node.row.bom_component_desc (some cycle_lookup))
        part_node in
    let part_cycle_is_default : Bool = elim cycle [ none ↦ false | some c ↦ c.is_default ] in
    record {
      order_line_id = shared.order_line_id;
      machine_schedule_id = shared.machine_schedule_id;
      assembly_name = shared.assembly.assembly_name;
      production_sequence = shared.assembly.production_sequence;
      assembly_time_days = shared.assembly.assembly_time_days;
      assembly_is_default = shared.assembly.is_default_time;
      parent_material_no = of_nullable (λ node. node.parent_material_no) part_node;
      parent_name = of_nullable (λ node. node.parent_name) part_node;
      node_level = of_some (λ node. node.node_level) part_node;
      bom_path = of_some (λ node. node.bom_path) part_node;
      bom_path_key = of_some (λ node. node.bom_path_key) part_node;
      part_material_no = of_nullable (λ node. node.row.bom_component_no) part_node;
      part_name = of_nullable (λ node. node.row.bom_component_desc) part_node;
      part_raw_material_desc = of_nullable (λ node. node.row.bom_component_desc) part_node;
      is_key_part = is_key shared.key_part part_node;
      part_cycle_days = of_some (λ c. c.cycle_days) cycle;
      part_cycle_is_default = part_cycle_is_default;
      part_cycle_match_rule = of_some (λ c. c.match_rule) cycle;
      key_part_material_no = of_nullable (λ key. key.part.key_part_material_no) shared.key_part;
      key_part_name = of_nullable (λ key. key.part.key_part_name) shared.key_part;
      key_part_raw_material_desc =
          of_nullable (λ key. key.part.key_part_raw_material_desc) shared.key_part;
      key_part_cycle_days = of_some (λ key. key.part.key_part_cycle_days) shared.key_part;
      key_part_is_default = is_default_key shared.key_part;
      cycle_match_rule = elim shared.key_part [ none ↦ [] | some key ↦ key.part.match_rule ];
      planned_start_date = shared.part_start;
      planned_end_date = shared.part_end;
      warning_level = codes "normal";
      default_flags =
          flag shared.assembly.is_default_time (codes "assembly_time")
          ++ (flag (is_default_key shared.key_part) (codes "key_part_cycle")
              ++ flag part_cycle_is_default (codes "part_cycle"));
      issue_flags = [];
    }

-- `recursive_self_made_parts or [None]`
abbrev part_rows : List RecursiveNode → List (Option RecursiveNode)
part_rows [] = none ∷ []
part_rows (node ∷ nodes) = map (λ n. some n) (node ∷ nodes)

abbrev pub nodes_of : List (Text × List RecursiveNode) → Assembly → List RecursiveNode
nodes_of parts_map asm = elim asm.bom_component_no [
  | none ↦ []
  | some no_text ↦ elim (dict_get no_text parts_map) [ none ↦ [] | some nodes ↦ nodes ]
]

-- The start of an assembly with a key part.
unfoldable pub part_start_of : Calendar → Date → Option KeyNode → Result (Option Date)
unfolding subtract_workdays to_int
part_start_of calendar part_end none = ok none
part_start_of calendar part_end (some key) =
    subtract_workdays part_end (to_int key.part.key_part_cycle_days) calendar >>= λ start.
    ok (some start)

-- The rows of one assembly whose group ends at the date.
unfoldable pub schedule_assembly :
    ℕ
    → ℕ
    → Calendar
    → List (Text × List RecursiveNode)
    → CycleLookup
    → Date
    → Assembly
    → Result (List PartScheduleResult)
unfolding dict_get identify_from_recursive_nodes part_start_of part_row
schedule_assembly order_line_id machine_schedule_id calendar parts_map cycle_lookup group_end asm =
    let nodes = nodes_of parts_map asm in
    let key_part = identify_from_recursive_nodes nodes (some cycle_lookup) in
    part_start_of calendar group_end key_part >>= λ part_start. ok (
      map
        (part_row cycle_lookup (record {
          order_line_id = order_line_id;
          machine_schedule_id = machine_schedule_id;
          assembly = asm;
          key_part = key_part;
          part_start = part_start;
          part_end = group_end;
        }))
        (part_rows nodes))
