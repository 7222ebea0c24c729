-- ===== src/KeyParts/Tree.antt =====
-- services/api/app/scheduler/key_part_identify_service.py: the walk down a BOM from an assembly.
-- The walk calls itself once for each level, on fuel.
use auto_scheduling_system.Prelude.{
  ℕ, zero, suc, ◌+◌, Bool, true, false, ◌&&◌, not, Option, none, some, List, [], ◌∷◌, ◌++◌, ltb,
  ◌==◌, if◌then◌else◌, length, Text, codes, text_eq, text_leb, is_empty, or_empty, none_if_empty,
  strip, member, join, show_nat, where_true, sort_by,
}
use auto_scheduling_system.Bom.{BomRelation}

pub record RecursiveNode : Type 0 where
  pub row : BomRelation
  pub parent_material_no : Option Text
  pub parent_name : Option Text
  pub node_level : ℕ
  pub bom_path : Text
  pub bom_path_key : Text

abbrev pub parent_no : BomRelation → Text
parent_no row = strip (or_empty row.material_no)

abbrev pub component_no : BomRelation → Text
component_no row = strip (or_empty row.bom_component_no)

abbrev level_or_zero : BomRelation → ℕ
level_or_zero row = elim row.bom_level [ none ↦ 0 | some level ↦ level ]

-- The key of the children's sort.
abbrev pub child_before : BomRelation → BomRelation → Bool
child_before a b =
    if ltb (level_or_zero a) (level_or_zero b)
    then true
    else (if level_or_zero a == level_or_zero b
        then (if text_eq (or_empty a.bom_component_no) (or_empty b.bom_component_no)
            then not (ltb b.id a.id)
            else text_leb (or_empty a.bom_component_no) (or_empty b.bom_component_no))
        else false)

-- `_build_bom_children_index(rows).get(parent, [])`
unfoldable pub build_bom_children_index : List BomRelation → Text → List BomRelation
unfolding sort_by strip
build_bom_children_index rows parent =
    sort_by child_before
      (where_true (λ row. not (is_empty (parent_no row)) && text_eq (parent_no row) parent) rows)

-- The arguments of `walk`.
pub record Frame : Type 0 where
  pub parent_material_no : Text
  pub parent_name : Text
  pub depth : ℕ
  pub path_segments : List Text
  pub path_key_segments : List Text
  pub visited_materials : List Text

-- `f"{name}({no})"`
abbrev segment : Text → Text → Text
segment name no_text = name ++ codes "(" ++ no_text ++ codes ")"

abbrev or_text : Text → Text → Text
or_text t other = if is_empty t then other else t

abbrev child_name : BomRelation → Text
child_name child =
    or_text (strip (or_empty child.bom_component_desc)) (or_text (component_no child) (codes "-"))

abbrev key_segment : Frame → BomRelation → Text
key_segment frame child =
    if child.id == 0
    then frame.parent_material_no ++ codes "->" ++ component_no child
    else show_nat child.id

-- The arguments of the call for a child.
unfoldable pub child_frame : Frame → BomRelation → Frame
unfolding strip show_nat
child_frame frame child = record {
  parent_material_no = component_no child;
  parent_name = child_name child;
  depth = frame.depth + 1;
  path_segments = frame.path_segments ++ segment (child_name child) (component_no child) ∷ [];
  path_key_segments = frame.path_key_segments ++ key_segment frame child ∷ [];
  visited_materials = component_no child ∷ frame.visited_materials;
}

-- What a child adds to the results before its own children do.
unfoldable pub child_node : Frame → BomRelation → List RecursiveNode
unfolding child_frame join
child_node frame child =
    if child.is_self_made
    then record {
      row = child;
      parent_material_no = none_if_empty frame.parent_material_no;
      parent_name = none_if_empty frame.parent_name;
      node_level = frame.depth;
      bom_path = join (codes " / ") (child_frame frame child).path_segments;
      bom_path_key = join (codes ">") (child_frame frame child).path_key_segments;
    }
      ∷ []
    else []

abbrev pub append_results :
    Option (List RecursiveNode) → Option (List RecursiveNode) → Option (List RecursiveNode)
append_results none _ = none
append_results (some xs) none = none
append_results (some xs) (some ys) = some (xs ++ ys)

-- One round of the `for` of `walk`, which calls `go`.
unfoldable pub visit_child :
    (Frame → Option (List RecursiveNode)) → Frame → BomRelation → Option (List RecursiveNode)
unfolding strip member child_frame child_node
visit_child go frame child =
    let below = append_results (some (child_node frame child)) (go (child_frame frame child)) in
    if is_empty (component_no child)
    then some []
    else (if member (component_no child) frame.visited_materials then some [] else below)

unfoldable pub visit_children :
    (Frame → Option (List RecursiveNode)) → Frame → List BomRelation → Option (List RecursiveNode)
unfolding visit_child
visit_children go frame [] = some []
visit_children go frame (child ∷ children) =
    append_results (visit_child go frame child) (visit_children go frame children)

unfoldable pub walk : ℕ → List BomRelation → Frame → Option (List RecursiveNode)
unfolding build_bom_children_index visit_children
walk zero rows frame = none
walk (suc fuel) rows frame =
    visit_children (walk fuel rows) frame (build_bom_children_index rows frame.parent_material_no)

abbrev root_segment : Text → Text → Text
root_segment assembly_bom_component_no assembly_name =
    segment (or_text assembly_name (or_text assembly_bom_component_no (codes "-")))
      (or_text assembly_bom_component_no (codes "-"))

unfoldable pub root_frame : Text → Text → Frame
root_frame assembly_bom_component_no assembly_name = record {
  parent_material_no = assembly_bom_component_no;
  parent_name = assembly_name;
  depth = 1;
  path_segments = root_segment assembly_bom_component_no assembly_name ∷ [];
  path_key_segments = (codes "root:" ++ assembly_bom_component_no) ∷ [];
  visited_materials = assembly_bom_component_no ∷ [];
}

-- No path visits a material twice, so its length is at most the number of rows.
unfoldable pub collect_recursive_self_made_parts_from_rows :
    Text → Text → List BomRelation → Option (List RecursiveNode)
unfolding walk root_frame
collect_recursive_self_made_parts_from_rows assembly_bom_component_no assembly_name rows =
    walk (length rows + 1) rows (root_frame assembly_bom_component_no assembly_name)
