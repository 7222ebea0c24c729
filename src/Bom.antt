-- ===== src/Bom.antt =====
-- services/api/app/models/bom_relation.py, repository/bom_relation_repo.py and
-- common/plant_utils.py: the rows of a machine's BOM and the queries on them. A level is not
-- negative.
use auto_scheduling_system.Prelude.{
  ℕ, Bool, true, false, ◌&&◌, not, Option, none, some, List, leb, ltb, if◌then◌else◌, Text, text_eq,
  text_leb, member, is_empty, or_empty, strip, where_true, sort_by, length,
}

pub record BomRelation : Type 0 where
  pub id : ℕ
  pub machine_material_no : Text
  pub plant : Option Text
  pub material_no : Option Text
  pub bom_component_no : Option Text
  pub bom_component_desc : Option Text
  pub bom_level : Option ℕ
  pub is_self_made : Bool

-- A nullable text column equals a text.
abbrev pub column_eq : Option Text → Text → Bool
column_eq none t = false
column_eq (some c) t = text_eq c t

-- `default_plant` is the setting of this name.
unfoldable pub normalize_plant : (default_plant : Text) → Option Text → Text
unfolding strip
normalize_plant default_plant value =
    let normalized = strip (or_empty value) in
    if is_empty normalized then default_plant else normalized

-- The condition that the queries add for a plant that is not None; `coalesce` replaces null only.
abbrev pub plant_matches : (default_plant : Text) → Option Text → BomRelation → Bool
plant_matches default_plant none row = true
plant_matches default_plant (some plant) row =
    text_eq (elim row.plant [ none ↦ normalize_plant default_plant none | some p ↦ p ])
      (normalize_plant default_plant (some plant))

abbrev pub is_of_machine : (default_plant : Text) → Text → Option Text → BomRelation → Bool
is_of_machine default_plant machine_material_no plant row =
    text_eq row.machine_material_no machine_material_no && plant_matches default_plant plant row

-- `order_by(bom_level)`, nulls last.
abbrev pub level_before : BomRelation → BomRelation → Bool
level_before a b = elim a.bom_level [
  | none ↦ elim b.bom_level [ none ↦ true | some _ ↦ false ]
  | some m ↦ elim b.bom_level [ none ↦ true | some n ↦ leb m n ]
]

unfoldable pub find_by_machine :
    (default_plant : Text) → List BomRelation → Text → Option Text → List BomRelation
unfolding sort_by
find_by_machine default_plant rows machine_material_no plant =
    sort_by level_before (where_true (is_of_machine default_plant machine_material_no plant) rows)

unfoldable pub find_direct_children :
    (default_plant : Text) → List BomRelation → Text → Option Text → List BomRelation
find_direct_children default_plant rows machine_material_no plant =
    where_true
      (λ row.
        is_of_machine default_plant machine_material_no plant row
        && column_eq row.material_no machine_material_no)
      rows

-- `order_by(material_no.asc(), bom_component_no.asc())`, nulls last.
abbrev pub column_before : Option Text → Option Text → Bool
column_before none none = true
column_before none (some _) = false
column_before (some _) none = true
column_before (some a) (some b) = text_leb a b

abbrev pub children_before : BomRelation → BomRelation → Bool
children_before a b =
    if column_before a.material_no b.material_no
    then (if column_before b.material_no a.material_no
        then column_before a.bom_component_no b.bom_component_no
        else true)
    else false

unfoldable pub find_self_made_children_for_assemblies :
    (default_plant : Text) → List BomRelation → Text → List Text → Option Text → List BomRelation
unfolding sort_by member
find_self_made_children_for_assemblies default_plant rows machine_material_no nos plant =
    sort_by children_before (
      where_true
        (λ row.
          is_of_machine default_plant machine_material_no plant row
          && (elim row.material_no [ none ↦ false | some m ↦ member m nos ] && row.is_self_made))
        rows)

unfoldable pub has_machine_bom :
    (default_plant : Text) → List BomRelation → Text → Option Text → Bool
has_machine_bom default_plant rows machine_material_no plant =
    ltb 0 (length (where_true (is_of_machine default_plant machine_material_no plant) rows))

-- What the deletion leaves, and the number of rows deleted.
unfoldable pub delete_by_machine_and_plant :
    (default_plant : Text) → List BomRelation → Text → Text → ℕ × List BomRelation
delete_by_machine_and_plant default_plant rows machine_material_no plant =
    let gone = is_of_machine default_plant machine_material_no (some plant) in
    (length (where_true gone rows), where_true (λ row. not (gone row)) rows)
