-- ===== src/KeyParts/Nodes.antt =====
-- services/api/app/scheduler/key_part_identify_service.py: the nodes that the walk collects.
use auto_scheduling_system.Prelude.{
  ℕ, zero, suc, ◌+◌, ◌≤◌, ◌<◌, ◌≡◌, ◌≢◌, refl, true, false, Bool, Option, some, List, [], ◌∷◌, ◌++◌,
  arith, if◌then◌else◌, length, Text, is_empty, member, All, All-append, All-imp, All-both,
  All-where, All-sort_by,
}
use auto_scheduling_system.Bom.{BomRelation}
use auto_scheduling_system.KeyParts.Tree.{
  Frame, RecursiveNode, component_no, child_before, build_bom_children_index, child_frame,
  child_node, visit_child, visit_children, walk, root_frame, append_results,
  collect_recursive_self_made_parts_from_rows,
}
use auto_scheduling_system.KeyParts.Visits.{
  fresh_count, fresh_count_bound, Shrinks, fresh_count-Shrinks, member_self, member_later,
}

-- A node of a self-made part other than the root, whose row has the property P.
abbrev pub IsCollected : (BomRelation → Type 0) → Text → RecursiveNode → Type 0
IsCollected P root node =
    P node.row
    × (node.row.is_self_made ≡ true)
    × (is_empty (component_no node.row) ≡ false)
    × (component_no node.row ≢ root)
    × 1 ≤ node.node_level

abbrev pub Returns : (BomRelation → Type 0) → Text → Option (List RecursiveNode) → Type 0
Returns P root result =
    (nodes : List RecursiveNode) × (result ≡ some nodes) × All (IsCollected P root) nodes

module _ (P : BomRelation → Type 0) (root : Text) where
  append_results-Returns :
      (a b : Option (List RecursiveNode))
      → Returns P root a
      → Returns P root b
      → Returns P root (append_results a b)
  append_results-Returns a b (xs, e, h) (ys, k, m) =
      rw (e, k) (xs ++ ys, refl, All-append (IsCollected P root) xs ys h m)

  other_than_root :
      (visited : List Text) (t : Text)
      → member root visited ≡ true
      → member t visited ≡ false
      → t ≢ root
  other_than_root visited t h k e = cc (rw e at k)

  All-if_single :
      (b : Bool) (node : RecursiveNode)
      → (b ≡ true → IsCollected P root node)
      → All (IsCollected P root) (if b then node ∷ [] else [])
  All-if_single true node h = (h refl, tt)
  All-if_single false node h = tt

  if-Returns :
      (b : Bool) (x y : Option (List RecursiveNode))
      → (b ≡ true → Returns P root x)
      → (b ≡ false → Returns P root y)
      → Returns P root (if b then x else y)
  if-Returns true x y hx hy = hx refl
  if-Returns false x y hx hy = hy refl

  child_node-All :
      (frame : Frame) (child : BomRelation)
      → P child
      → is_empty (component_no child) ≡ false
      → component_no child ≢ root
      → 1 ≤ frame.depth
      → All (IsCollected P root) (child_node frame child)
  unfolding child_node
  child_node-All frame child p filled other deep =
      All-if_single child.is_self_made _ (λ e. (p, e, filled, other, deep))

  visit_child-Returns :
      (go : Frame → Option (List RecursiveNode)) (frame : Frame) (child : BomRelation)
      → P child
      → member root frame.visited_materials ≡ true
      → 1 ≤ frame.depth
      → (member (component_no child) frame.visited_materials ≡ false
          → Returns P root (go (child_frame frame child)))
      → Returns P root (visit_child go frame child)
  unfolding visit_child
  visit_child-Returns go frame child p seen deep below =
      if-Returns (is_empty (component_no child)) (some []) _ (λ e. ([], refl, tt))
        (λ e.
          if-Returns (member (component_no child) frame.visited_materials) (some []) _
            (λ k. ([], refl, tt))
            (λ k.
              append_results-Returns (some (child_node frame child)) (go (child_frame frame child))
                (
                  child_node frame child,
                  refl,
                  child_node-All frame child p e
                      (other_than_root frame.visited_materials (component_no child) seen k) deep,
                )
                (below k)))

  visit_children-Returns :
      (go : Frame → Option (List RecursiveNode)) (frame : Frame) (children : List BomRelation)
      → member root frame.visited_materials ≡ true
      → 1 ≤ frame.depth
      → All
          (λ child.
            P child
            × (member (component_no child) frame.visited_materials ≡ false
                → Returns P root (go (child_frame frame child))))
          children
      → Returns P root (visit_children go frame children)
  unfolding visit_children
  visit_children-Returns go frame [] seen deep h = ([], refl, tt)
  visit_children-Returns go frame (child ∷ children) seen deep h =
      append_results-Returns (visit_child go frame child) (visit_children go frame children)
        (visit_child-Returns go frame child h.0.0 seen deep h.0.1)
        (visit_children-Returns go frame children seen deep h.1)

  Visitable : (List BomRelation) → List Text → BomRelation → Type 0
  Visitable rows visited row = P row × Shrinks visited rows row

  children_index-Visitable :
      (rows : List BomRelation) (visited : List Text) (parent : Text)
      → All P rows
      → All (Visitable rows visited) (build_bom_children_index rows parent)
  unfolding build_bom_children_index Visitable
  children_index-Visitable rows visited parent h =
      All-sort_by (Visitable rows visited) child_before _ (
        All-where (Visitable rows visited) _ rows
          (All-both P (Shrinks visited rows) rows h (fresh_count-Shrinks visited rows)))

  -- A call with enough fuel returns, and what it returns is collected.
  walk-Returns :
      (fuel : ℕ) (rows : List BomRelation) (frame : Frame)
      → All P rows
      → fresh_count frame.visited_materials rows < fuel
      → member root frame.visited_materials ≡ true
      → 1 ≤ frame.depth
      → Returns P root (walk fuel rows frame)
  unfolding walk child_frame Visitable Shrinks
  walk-Returns zero rows frame h enough seen deep = absurd (omega arith)
  walk-Returns (suc fuel) rows frame h enough seen deep =
      visit_children-Returns (walk fuel rows) frame
        (build_bom_children_index rows frame.parent_material_no) seen deep
        (All-imp (build_bom_children_index rows frame.parent_material_no)
          (λ child visitable. (
            visitable.0,
            λ unseen.
                walk-Returns fuel rows (child_frame frame child) h
                  (omega (arith, visitable.1 unseen))
                  (member_later root (component_no child) frame.visited_materials seen)
                  (omega arith),
          ))
          (children_index-Visitable rows frame.visited_materials frame.parent_material_no h))

-- The collection returns for every BOM, cyclic ones included. Every collected node is the row of a
-- self-made part with a number that is not the assembly's, at level one or deeper, and has any
-- property that all rows of the BOM have.
pub collect_recursive_self_made_parts_from_rows-IsCollected :
    (P : BomRelation → Type 0) (assembly_bom_component_no assembly_name : Text)
    (rows : List BomRelation)
    → All P rows
    → (nodes : List RecursiveNode) × (collect_recursive_self_made_parts_from_rows
          assembly_bom_component_no assembly_name rows
        ≡ some nodes)
      × All (IsCollected P assembly_bom_component_no) nodes
unfolding collect_recursive_self_made_parts_from_rows root_frame
collect_recursive_self_made_parts_from_rows-IsCollected P no_text assembly_name rows h =
    walk-Returns P no_text (length rows + 1) rows (root_frame no_text assembly_name) h
      (omega (arith, fresh_count_bound (no_text ∷ []) rows)) (member_self no_text []) (omega arith)
