-- ===== src/KeyParts/Tests.antt =====
-- Runs of key_part_identify_service.py, and the theorems at concrete inputs.
use auto_scheduling_system.Prelude.{
  ℕ, ◌≡◌, refl, true, Option, none, some, List, [], ◌∷◌, arith, Text, codes, text_eq, All,
  first_where, map,
}
use auto_scheduling_system.Prelude.Int.{◌≤ℤ◌}
use auto_scheduling_system.Prelude.Decimal.{decimal}
use auto_scheduling_system.Prelude.Dict.{dict_get}
use auto_scheduling_system.Bom.{BomRelation, find_by_machine}
use auto_scheduling_system.KeyParts.Baselines.{PartCycleBaseline, list_active_by_model}
use auto_scheduling_system.KeyParts.Tree.{
  RecursiveNode, collect_recursive_self_made_parts_from_rows,
}
use auto_scheduling_system.KeyParts.Nodes.{
  IsCollected, collect_recursive_self_made_parts_from_rows-IsCollected,
}
use auto_scheduling_system.KeyParts.Matching.{
  build_cycle_lookup, part_type_of, key_node, node_cycle, identify_from_recursive_nodes,
}
use auto_scheduling_system.Assemblies.{Assembly}
use auto_scheduling_system.KeyParts.{list_recursive_self_made_parts_for_assemblies}
use auto_scheduling_system.KeyParts.Grouped.{
  last_walk, list_recursive_self_made_parts_for_assemblies_lem,
}
use auto_scheduling_system.KeyParts.Longest.{identify_from_recursive_nodes-IsLongest}
use auto_scheduling_system.KeyParts.Exact.{build_cycle_lookup-first}

abbrev row : ℕ → Text → Text → Text → BomRelation
row id parent child desc = record {
  id = id;
  machine_material_no = codes "M";
  plant = none;
  material_no = some parent;
  bom_component_no = some child;
  bom_component_desc = some desc;
  bom_level = some 1;
  is_self_made = true;
}

-- A is made of B, B of C, and C of A again.
abbrev cyclic : List BomRelation
cyclic =
    row 1 (codes "A") (codes "B") (codes "飞轮")
    ∷ row 2 (codes "B") (codes "C") (codes "齿轮")
    ∷ row 3 (codes "C") (codes "A") (codes "传动")
    ∷ []

abbrev collected : Option (List RecursiveNode)
collected = collect_recursive_self_made_parts_from_rows (codes "A") (codes "传动") cyclic

node_ids : Option (List RecursiveNode) → List ℕ
node_ids none = []
node_ids (some nodes) = map (λ node. node.row.id) nodes

collected_runs : node_ids collected ≡ 1 ∷ 2 ∷ []
unfolding node_ids collect_recursive_self_made_parts_from_rows
collected_runs = refl

collect_recursive_self_made_parts_from_rows-IsCollected_example :
    (nodes : List RecursiveNode) × (collected ≡ some nodes)
    × All (IsCollected (λ row. row.machine_material_no ≡ codes "M") (codes "A")) nodes
collect_recursive_self_made_parts_from_rows-IsCollected_example =
    collect_recursive_self_made_parts_from_rows-IsCollected
      (λ row. row.machine_material_no ≡ codes "M") (codes "A") (codes "传动") cyclic
      (refl, (refl, (refl, tt)))

abbrev baseline : ℕ → Text → ℕ → PartCycleBaseline
baseline id part_type days = record {
  id = id;
  material_no = part_type;
  material_desc = part_type;
  core_part_name = part_type;
  machine_model = some (codes "P1");
  plant = none;
  cycle_days = decimal days;
  sample_count = id;
  is_active = true;
  updated_at = 0;
}

abbrev table : List PartCycleBaseline
table = baseline 1 (codes "飞轮") 3 ∷ baseline 2 (codes "齿轮") 5 ∷ baseline 3 (codes "飞轮") 4 ∷ []

abbrev node : BomRelation → RecursiveNode
node r = record {
  row = r;
  parent_material_no = none;
  parent_name = none;
  node_level = 1;
  bom_path = [];
  bom_path_key = [];
}

build_cycle_lookup-first_example :
    dict_get (codes "飞轮") (build_cycle_lookup table (codes "P1") none).exact_map
    ≡ first_where
        (λ b. text_eq (codes "飞轮") (part_type_of b))
        (list_active_by_model table (codes "P1") none)
build_cycle_lookup-first_example =
    build_cycle_lookup-first table (codes "P1") none (codes "飞轮") refl

-- The later of the two has more samples.
exact_runs :
    dict_get (codes "飞轮") (build_cycle_lookup table (codes "P1") none).exact_map
    ≡ some (baseline 3 (codes "飞轮") 4)
unfolding build_cycle_lookup dict_get
exact_runs = refl

abbrev lookup_nodes : List RecursiveNode
lookup_nodes =
    node (row 1 (codes "A") (codes "B") (codes "飞轮A"))
    ∷ node (row 2 (codes "B") (codes "C") (codes "齿轮"))
    ∷ []

identify_from_recursive_nodes-IsLongest_example :
    let lookup = some (build_cycle_lookup table (codes "P1") none) in
    (found : RecursiveNode) × (found.node_level ≡ 1)
    × (identify_from_recursive_nodes lookup_nodes lookup
        ≡ some (key_node found (node_cycle lookup found)))
    × All
        (λ other. (node_cycle lookup other).cycle_days ≤ℤ (node_cycle lookup found).cycle_days)
        lookup_nodes
identify_from_recursive_nodes-IsLongest_example =
    identify_from_recursive_nodes-IsLongest (λ n. n.node_level ≡ 1) table (codes "P1") none
      (node (row 1 (codes "A") (codes "B") (codes "飞轮A")))
      (node (row 2 (codes "B") (codes "C") (codes "齿轮")) ∷ [])
      (omega arith, (omega arith, (omega arith, tt))) (refl, (refl, tt))

abbrev cyclic_assembly : Assembly
cyclic_assembly = record {
  assembly_name = codes "传动";
  production_sequence = 2;
  assembly_time_days = decimal 1;
  is_default_time = true;
  bom_component_no = some (codes "A");
  bom_component_desc = none;
}

list_recursive_self_made_parts_for_assemblies_lem_example :
    (grouped : List (Text × List RecursiveNode)) × (list_recursive_self_made_parts_for_assemblies
        (codes "1000")
        cyclic
        (codes "M")
        none
        (cyclic_assembly ∷ [])
      ≡ some grouped)
    × ((number : Text)
        → dict_get number grouped
          ≡ last_walk
              (find_by_machine (codes "1000") cyclic (codes "M") none)
              number
              (cyclic_assembly ∷ []))
list_recursive_self_made_parts_for_assemblies_lem_example =
    list_recursive_self_made_parts_for_assemblies_lem (codes "1000") cyclic (codes "M") none
      (cyclic_assembly ∷ [])
