-- ===== src/KeyParts/Matching.antt =====
-- services/api/app/scheduler/key_part_identify_service.py: the cycle of a part, and the part with
-- the longest cycle.
use auto_scheduling_system.Prelude.{
  Bool, true, false, ◌||◌, Option, none, some, List, [], ◌∷◌, ◌++◌, if◌then◌else◌, Text, codes,
  text_eq, is_empty, or_empty, strip, starts_with, first_where,
}
use auto_scheduling_system.Prelude.Int.{ltb_ℤ}
use auto_scheduling_system.Prelude.Dict.{dict_get, has_key}
use auto_scheduling_system.Prelude.Decimal.{Decimal, decimal, minus_one}
use auto_scheduling_system.TextParse.{extract_part_type}
use auto_scheduling_system.Bom.{BomRelation}
use auto_scheduling_system.KeyParts.Baselines.{
  PartCycleBaseline, list_active_by_model, find_by_model_and_part_type,
  find_by_model_and_desc_prefix,
}
use auto_scheduling_system.KeyParts.Tree.{RecursiveNode}

abbrev pub default_part_cycle_days : Decimal
default_part_cycle_days = decimal 1

pub record CycleLookup : Type 0 where
  pub machine_model : Text
  pub plant : Option Text
  pub exact_map : List (Text × PartCycleBaseline)
  pub baselines : List PartCycleBaseline

-- `(baseline.core_part_name or baseline.material_no or "").strip()`
unfoldable pub part_type_of : PartCycleBaseline → Text
unfolding strip
part_type_of baseline =
    strip
      (if is_empty baseline.core_part_name then baseline.material_no else baseline.core_part_name)

-- One round of the loop of `build_cycle_lookup`.
unfoldable pub add_baseline :
    List (Text × PartCycleBaseline) → PartCycleBaseline → List (Text × PartCycleBaseline)
unfolding part_type_of dict_get
add_baseline exact_map baseline =
    if is_empty (part_type_of baseline) || has_key (part_type_of baseline) exact_map
    then exact_map
    else exact_map ++ (part_type_of baseline, baseline) ∷ []

unfoldable pub add_baselines :
    List (Text × PartCycleBaseline) → List PartCycleBaseline → List (Text × PartCycleBaseline)
unfolding add_baseline
add_baselines exact_map [] = exact_map
add_baselines exact_map (baseline ∷ baselines) =
    add_baselines (add_baseline exact_map baseline) baselines

unfoldable pub build_cycle_lookup : List PartCycleBaseline → Text → Option Text → CycleLookup
unfolding list_active_by_model add_baselines
build_cycle_lookup table machine_model plant =
    let found = list_active_by_model table machine_model plant in
    record {
      machine_model = machine_model;
      plant = plant;
      exact_map = add_baselines [] found;
      baselines = found;
    }

-- The tuple of the days, whether they are the default, and the rule.
pub record PartCycle : Type 0 where
  pub cycle_days : Decimal
  pub is_default : Bool
  pub match_rule : Text

abbrev pub default_cycle : PartCycle
default_cycle = record {
  cycle_days = default_part_cycle_days;
  is_default = true;
  match_rule = codes "default";
}

abbrev pub cycle_by : Text → PartCycleBaseline → PartCycle
cycle_by rule baseline = record {
  cycle_days = baseline.cycle_days;
  is_default = false;
  match_rule = rule;
}

-- A baseline of the part type, or one whose description begins with it.
unfoldable pub is_prefix_match : Text → PartCycleBaseline → Bool
unfolding part_type_of starts_with
is_prefix_match part_type item =
    text_eq (part_type_of item) part_type || starts_with item.material_desc part_type

-- The look-up once the part type is known.
unfoldable pub match_part_type : Text → CycleLookup → PartCycle
unfolding dict_get is_prefix_match
match_part_type part_type lookup = elim (dict_get part_type lookup.exact_map) [
  | some baseline ↦ cycle_by (codes "part_type_exact") baseline
  | none ↦
      if is_empty part_type
      then default_cycle
      else (elim (first_where (is_prefix_match part_type) lookup.baselines) [
        | some item ↦ cycle_by (codes "part_type_prefix") item
        | none ↦ default_cycle
      ])
]

unfoldable pub match_part_cycle_from_lookup : Option Text → Option CycleLookup → PartCycle
unfolding extract_part_type match_part_type
match_part_cycle_from_lookup desc none = default_cycle
match_part_cycle_from_lookup desc (some lookup) =
    match_part_type (extract_part_type (or_empty desc)) lookup

-- `get_part_cycle` without a look-up asks the database.
unfoldable pub get_part_cycle :
    List PartCycleBaseline → Text → Option Text → Option Text → Option CycleLookup → PartCycle
unfolding match_part_cycle_from_lookup extract_part_type find_by_model_and_part_type
    find_by_model_and_desc_prefix
get_part_cycle table machine_model desc plant (some lookup) =
    match_part_cycle_from_lookup desc (some lookup)
get_part_cycle table machine_model desc plant none =
    let part_type = extract_part_type (or_empty desc) in
    if is_empty part_type
    then default_cycle
    else (elim (find_by_model_and_part_type table machine_model part_type plant) [
      | some baseline ↦ cycle_by (codes "part_type_exact") baseline
      | none ↦ elim (find_by_model_and_desc_prefix table machine_model part_type plant) [
        | some baseline ↦ cycle_by (codes "part_type_prefix") baseline
        | none ↦ default_cycle
      ]
    ])

-- The loops of `identify_from_children` and `identify_from_recursive_nodes`: `cycle_of` is what the
-- loop looks up for an item, `describe` the dict that it makes.
module _ {ℓ κ} {A : Type ℓ} {B : Type κ} (cycle_of : A → PartCycle)
    (describe : A → PartCycle → B) where
  abbrev pub better : Decimal × Option B → A → Decimal × Option B
  better (best_cycle, best) item =
      if ltb_ℤ best_cycle (cycle_of item).cycle_days
      then ((cycle_of item).cycle_days, some (describe item (cycle_of item)))
      else (best_cycle, best)

  unfoldable pub longest : Decimal × Option B → List A → Decimal × Option B
  longest best [] = best
  longest best (item ∷ items) = longest (better best item) items

pub record KeyPart : Type 0 where
  pub key_part_material_no : Option Text
  pub key_part_name : Option Text
  pub key_part_raw_material_desc : Option Text
  pub key_part_cycle_days : Decimal
  pub is_default : Bool
  pub match_rule : Text

abbrev pub key_part : BomRelation → PartCycle → KeyPart
key_part row cycle = record {
  key_part_material_no = row.bom_component_no;
  key_part_name = row.bom_component_desc;
  key_part_raw_material_desc = row.bom_component_desc;
  key_part_cycle_days = cycle.cycle_days;
  is_default = cycle.is_default;
  match_rule = cycle.match_rule;
}

unfoldable pub identify_from_children : List BomRelation → Option CycleLookup → Option KeyPart
unfolding longest match_part_cycle_from_lookup
identify_from_children children cycle_lookup =
    (longest (λ row. match_part_cycle_from_lookup row.bom_component_desc cycle_lookup) key_part
      (minus_one, none) children).1

-- The dict has the fields of the node that it was found at as well.
pub record KeyNode : Type 0 where
  pub part : KeyPart
  pub node : RecursiveNode

abbrev pub key_node : RecursiveNode → PartCycle → KeyNode
key_node node cycle = record { part = key_part node.row cycle; node = node }

abbrev pub node_cycle : Option CycleLookup → RecursiveNode → PartCycle
node_cycle cycle_lookup node = match_part_cycle_from_lookup node.row.bom_component_desc cycle_lookup

unfoldable pub identify_from_recursive_nodes :
    List RecursiveNode → Option CycleLookup → Option KeyNode
unfolding longest match_part_cycle_from_lookup
identify_from_recursive_nodes nodes cycle_lookup =
    (longest (node_cycle cycle_lookup) key_node (minus_one, none) nodes).1
