-- ===== src/KeyParts/Grouped.antt =====
-- services/api/app/scheduler/key_part_identify_service.py: the walks for all assemblies.
use auto_scheduling_system.Prelude.{
  ◌≡◌, refl, sym, ap, ◌∙◌, not, ◌&&◌, none, text_eq, Bool-cases, inl, inr, Bool, true, false,
  Option, some, List, [], ◌∷◌, if◌then◌else◌, Text, is_empty, or_empty, strip, All-always,
}
use auto_scheduling_system.Prelude.Dict.{
  dict_set, dict_get, dict_get-dict_set, or_else, or_else-none, or_else_assoc,
}
use auto_scheduling_system.Bom.{BomRelation, find_by_machine}
use auto_scheduling_system.Assemblies.{Assembly}
use auto_scheduling_system.KeyParts.Tree.{
  RecursiveNode, collect_recursive_self_made_parts_from_rows,
}
use auto_scheduling_system.KeyParts.Nodes.{collect_recursive_self_made_parts_from_rows-IsCollected}
use auto_scheduling_system.KeyParts.{
  set_nodes, group_assembly, group_assemblies, list_recursive_self_made_parts_for_assemblies,
}

abbrev Nodes : Type 0
Nodes = List (Text × List RecursiveNode)

-- The number of an assembly, and the walk from it.
abbrev pub number_of : Assembly → Text
number_of assembly = strip (or_empty assembly.bom_component_no)

abbrev pub walk_of : List BomRelation → Assembly → Option (List RecursiveNode)
walk_of rows assembly =
    collect_recursive_self_made_parts_from_rows (number_of assembly)
      (if is_empty assembly.assembly_name then number_of assembly else assembly.assembly_name) rows

-- The walk of an assembly of the number, which is not empty.
abbrev pub walk_for : List BomRelation → Text → Assembly → Option (List RecursiveNode)
walk_for rows number assembly =
    if not (is_empty (number_of assembly)) && text_eq number (number_of assembly)
    then walk_of rows assembly
    else none

-- The walk of the last assembly of the number.
abbrev pub last_walk : List BomRelation → Text → List Assembly → Option (List RecursiveNode)
last_walk rows number [] = none
last_walk rows number (assembly ∷ assemblies) =
    or_else (last_walk rows number assemblies) (walk_for rows number assembly)

-- A dict whose entry of each number is the given one, or that of an earlier dict.
abbrev IsUpdated : Option Nodes → (Text → Option (List RecursiveNode)) → Nodes → Type 0
IsUpdated result entry earlier =
    (grouped : Nodes) × (result ≡ some grouped)
    × ((number : Text) → dict_get number grouped ≡ or_else (entry number) (dict_get number earlier))

walk_of-some :
    (rows : List BomRelation) (assembly : Assembly)
    → (nodes : List RecursiveNode) × (walk_of rows assembly ≡ some nodes)
walk_of-some rows assembly =
    let (nodes, e, _) =
      collect_recursive_self_made_parts_from_rows-IsCollected (λ _. Unit {0}) (number_of assembly) _
        rows (All-always (λ _. Unit {0}) rows (λ _. tt)) in
    (nodes, e)

dict_set-entry :
    (number key : Text) (walk : Option (List RecursiveNode)) (nodes : List RecursiveNode)
    (earlier : Nodes)
    → is_empty key ≡ false
    → walk ≡ some nodes
    → dict_get number (dict_set key nodes earlier)
      ≡ or_else
          (if not (is_empty key) && text_eq number key then walk else none)
          (dict_get number earlier)
dict_set-entry number key walk nodes earlier full e =
    dict_get-dict_set number key nodes earlier ∙ (elim (Bool-cases (text_eq number key)) [
      | inl same ↦ rw (full, same, e) refl
      | inr other ↦ rw (full, other) refl
    ])

if_false {ℓ} : {A : Type ℓ} (b : Bool) (x y : A) → b ≡ false → (if b then x else y) ≡ y
if_false true x y h = cc
if_false false x y h = refl

group_assembly-IsUpdated :
    (rows : List BomRelation) (earlier : Nodes) (assembly : Assembly)
    → IsUpdated
        (group_assembly rows earlier assembly)
        (λ number. walk_for rows number assembly)
        earlier
unfolding group_assembly
group_assembly-IsUpdated rows earlier assembly =
    let (nodes, e) = walk_of-some rows assembly in
    elim (Bool-cases (is_empty (number_of assembly))) [
      | inl empty ↦ rw empty (earlier, refl, λ number. refl)
      | inr full ↦ (
        dict_set (number_of assembly) nodes earlier,
        if_false (is_empty (number_of assembly)) _ _ full
            ∙ ap (λ walk. set_nodes (number_of assembly) walk earlier) e,
        λ number.
            dict_set-entry number (number_of assembly) (walk_of rows assembly) nodes earlier full e,
      )
    ]

group_assemblies-IsUpdated :
    (rows : List BomRelation) (earlier : Nodes) (assemblies : List Assembly)
    → IsUpdated
        (group_assemblies rows earlier assemblies)
        (λ number. last_walk rows number assemblies)
        earlier
unfolding group_assemblies
group_assemblies-IsUpdated rows earlier [] = (earlier, refl, λ number. refl)
group_assemblies-IsUpdated rows earlier (assembly ∷ assemblies) =
    let (next, e, first) = group_assembly-IsUpdated rows earlier assembly in
    let (grouped, f, rest) = group_assemblies-IsUpdated rows next assemblies in
    rw (e, group_assemblies)
      (
        grouped,
        f,
        λ number.
            rest number
            ∙ ap (or_else (last_walk rows number assemblies)) (first number)
            ∙ sym (
                or_else_assoc (last_walk rows number assemblies) (walk_for rows number assembly)
                  (dict_get number earlier)),
      )

-- The parts are listed for every BOM, cyclic ones included: the dict has for each number that is not
-- empty what the walk from the last assembly of that number collects from the machine's rows, and
-- nothing for a number of no assembly.
pub list_recursive_self_made_parts_for_assemblies_lem :
    (default_plant : Text) (bom : List BomRelation) (machine_material_no : Text)
    (plant : Option Text) (assemblies : List Assembly)
    → (grouped : List (Text × List RecursiveNode)) × (list_recursive_self_made_parts_for_assemblies
          default_plant bom machine_material_no plant assemblies
        ≡ some grouped)
      × ((number : Text)
          → dict_get number grouped
            ≡ last_walk
                (find_by_machine default_plant bom machine_material_no plant)
                number
                assemblies)
unfolding list_recursive_self_made_parts_for_assemblies dict_get
list_recursive_self_made_parts_for_assemblies_lem default_plant bom machine_material_no plant [] =
    ([], refl, λ number. refl)
list_recursive_self_made_parts_for_assemblies_lem default_plant bom machine_material_no plant
      (assembly ∷ assemblies) =
    let (grouped, e, entries) =
      group_assemblies-IsUpdated (find_by_machine default_plant bom machine_material_no plant) []
        (assembly ∷ assemblies) in
    (grouped, e, λ number. entries number ∙ or_else-none _)
