-- ===== src/KeyParts.antt =====
-- services/api/app/scheduler/key_part_identify_service.py: the self-made parts under assemblies,
-- and the key part. The tables that the service reads are arguments.
pub mod Baselines
pub mod Tree
pub mod Visits
pub mod Nodes
pub mod Matching
pub mod Cycles
pub mod Longest
pub mod Exact
pub mod Grouped
mod Tests
use auto_scheduling_system.Prelude.{
  Option, none, some, List, [], ◌∷◌, if◌then◌else◌, Text, is_empty, or_empty, strip,
}
use auto_scheduling_system.Prelude.Dict.{dict_set, dict_append}
use auto_scheduling_system.Bom.{
  BomRelation, find_by_machine, find_self_made_children_for_assemblies,
}
use auto_scheduling_system.Assemblies.{Assembly}
use auto_scheduling_system.KeyParts.Baselines.{PartCycleBaseline}
use auto_scheduling_system.KeyParts.Tree.{
  RecursiveNode, collect_recursive_self_made_parts_from_rows,
}
use auto_scheduling_system.KeyParts.Matching.{KeyPart, build_cycle_lookup, identify_from_children}

unfoldable pub list_self_made_parts :
    (default_plant : Text) → List BomRelation → Text → Text → Option Text → List BomRelation
unfolding find_self_made_children_for_assemblies
list_self_made_parts default_plant bom machine_material_no assembly_no plant =
    find_self_made_children_for_assemblies default_plant bom machine_material_no (assembly_no ∷ [])
      plant

unfoldable pub list_recursive_self_made_parts :
    (default_plant : Text)
    → List BomRelation
    → Text
    → Text
    → Option Text
    → Text
    → Option (List BomRelation)
    → Option (List RecursiveNode)
unfolding find_by_machine collect_recursive_self_made_parts_from_rows
list_recursive_self_made_parts default_plant bom machine_material_no assembly_no plant name rows =
    collect_recursive_self_made_parts_from_rows assembly_no name (elim rows [
      | some given ↦ given
      | none ↦ find_by_machine default_plant bom machine_material_no plant
    ])

-- `grouped[key] = nodes`, where the nodes are there.
abbrev pub set_nodes :
    Text
    → Option (List RecursiveNode)
    → List (Text × List RecursiveNode)
    → Option (List (Text × List RecursiveNode))
set_nodes key none grouped = none
set_nodes key (some nodes) grouped = some (dict_set key nodes grouped)

-- One round of the loop over the assemblies.
unfoldable pub group_assembly :
    List BomRelation
    → List (Text × List RecursiveNode)
    → Assembly
    → Option (List (Text × List RecursiveNode))
unfolding strip dict_set collect_recursive_self_made_parts_from_rows
group_assembly rows grouped assembly =
    let assembly_no = strip (or_empty assembly.bom_component_no) in
    let name = if is_empty assembly.assembly_name then assembly_no else assembly.assembly_name in
    let added =
      set_nodes assembly_no (collect_recursive_self_made_parts_from_rows assembly_no name rows)
        grouped in
    if is_empty assembly_no then some grouped else added

unfoldable pub group_assemblies :
    List BomRelation
    → List (Text × List RecursiveNode)
    → List Assembly
    → Option (List (Text × List RecursiveNode))
unfolding group_assembly
group_assemblies rows grouped [] = some grouped
group_assemblies rows grouped (assembly ∷ assemblies) =
    elim (group_assembly rows grouped assembly) [
      | none ↦ none
      | some next ↦ group_assemblies rows next assemblies
    ]

unfoldable pub list_recursive_self_made_parts_for_assemblies :
    (default_plant : Text)
    → List BomRelation
    → Text
    → Option Text
    → List Assembly
    → Option (List (Text × List RecursiveNode))
unfolding find_by_machine group_assemblies
list_recursive_self_made_parts_for_assemblies default_plant bom machine_material_no plant [] =
    some []
list_recursive_self_made_parts_for_assemblies default_plant bom machine_material_no plant
      (assembly ∷ assemblies) =
    group_assemblies (find_by_machine default_plant bom machine_material_no plant) []
      (assembly ∷ assemblies)

-- Every row that the query gives has a material.
unfoldable pub group_rows :
    List (Text × List BomRelation) → List BomRelation → List (Text × List BomRelation)
unfolding dict_append
group_rows grouped [] = grouped
group_rows grouped (row ∷ rows) =
    group_rows (dict_append (or_empty row.material_no) row grouped) rows

unfoldable pub list_self_made_parts_for_assemblies :
    (default_plant : Text)
    → List BomRelation
    → Text
    → Option Text
    → List Text
    → List (Text × List BomRelation)
unfolding find_self_made_children_for_assemblies group_rows
list_self_made_parts_for_assemblies default_plant bom machine_material_no plant assembly_nos =
    group_rows [] (
      find_self_made_children_for_assemblies default_plant bom machine_material_no assembly_nos
        plant)

unfoldable pub identify_key_part :
    (default_plant : Text)
    → List BomRelation
    → List PartCycleBaseline
    → Text
    → Text
    → Option Text
    → Text
    → Option KeyPart
unfolding list_self_made_parts build_cycle_lookup identify_from_children
identify_key_part default_plant bom table machine_material_no assembly_no plant machine_model =
    identify_from_children
      (list_self_made_parts default_plant bom machine_material_no assembly_no plant)
      (some (build_cycle_lookup table machine_model plant))
