-- ===== src/KeyParts/Longest.antt =====
-- services/api/app/scheduler/key_part_identify_service.py: the key part of a list of nodes.
use auto_scheduling_system.Prelude.{
  ◌≡◌, refl, ◌∙◌, false, Option, none, some, List, [], ◌∷◌, ◌⊎◌, inl, inr, arith, tests, Bool-cases,
  Text, ap, subst, All,
}
use auto_scheduling_system.Prelude.Int.{◌≤ℤ◌, ltb_ℤ}
use auto_scheduling_system.Prelude.Decimal.{Decimal, minus_one}
use auto_scheduling_system.KeyParts.Baselines.{PartCycleBaseline}
use auto_scheduling_system.KeyParts.Tree.{RecursiveNode}
use auto_scheduling_system.KeyParts.Cycles.{
  CycleIsNonneg, build_cycle_lookup-IsNonneg, match_part_cycle_from_lookup-IsNonneg,
}
use auto_scheduling_system.KeyParts.Matching.{
  PartCycle, build_cycle_lookup, longest, better, key_node, node_cycle,
  identify_from_recursive_nodes,
}

not_ltb_ℤ : (a b : Decimal) → ltb_ℤ a b ≡ false → b ≤ℤ a
not_ltb_ℤ a b h = grind tests

≤ℤ_trans : (a b c : Decimal) → a ≤ℤ b → b ≤ℤ c → a ≤ℤ c
≤ℤ_trans a b c h k = omega arith

module _ {ℓ κ μ} {A : Type ℓ} {B : Type κ} (cycle_of : A → PartCycle) (describe : A → PartCycle → B)
    (P : A → Type μ) where
  -- The pair of the loop is the first one, or comes from an item.
  abbrev Attained : Decimal × Option B → Decimal × Option B → Type (ℓ ⊔ κ ⊔ μ)
  Attained first best =
      (best ≡ first)
      ⊎ ((item : A) × P item
          × (best ≡ ((cycle_of item).cycle_days, some (describe item (cycle_of item)))))

  better_lem :
      (first : Decimal × Option B) (item : A)
      → P item
      → (first.0 ≤ℤ (better cycle_of describe first item).0)
        × ((cycle_of item).cycle_days ≤ℤ (better cycle_of describe first item).0)
        × Attained first (better cycle_of describe first item)
  better_lem (d, b) item p = elim (Bool-cases (ltb_ℤ d (cycle_of item).cycle_days)) [
    | inl e ↦ rw e (omega (tests, e), omega arith, inr (item, p, refl))
    | inr e ↦ rw e (omega arith, not_ltb_ℤ d (cycle_of item).cycle_days e, inl refl)
  ]

  Attained-trans :
      (first next best : Decimal × Option B)
      → Attained first next
      → Attained next best
      → Attained first best
  Attained-trans first next best h (inr k) = inr k
  Attained-trans first next best (inl e) (inl k) = inl (k ∙ e)
  Attained-trans first next best (inr (item, p, e)) (inl k) = inr (item, p, k ∙ e)

  longest_lem :
      (first : Decimal × Option B) (items : List A)
      → All P items
      → (first.0 ≤ℤ (longest cycle_of describe first items).0)
        × All
            (λ item. (cycle_of item).cycle_days ≤ℤ (longest cycle_of describe first items).0)
            items
        × Attained first (longest cycle_of describe first items)
  unfolding longest
  longest_lem first [] h = (omega arith, tt, inl refl)
  longest_lem first (item ∷ items) h =
      let next = better cycle_of describe first item in
      let (first_le, item_le, from_first) = better_lem first item h.0 in
      let (next_le, items_le, from_next) = longest_lem next items h.1 in
      (
        ≤ℤ_trans first.0 next.0 _ first_le next_le,
        (≤ℤ_trans (cycle_of item).cycle_days next.0 _ item_le next_le, items_le),
        Attained-trans first next _ from_first from_next,
      )

-- Where no cycle of the baselines is negative, the key part of a list of nodes that is not empty is
-- that of one of the nodes, with that node's cycle, and no node has a longer cycle.
pub identify_from_recursive_nodes-IsLongest :
    (P : RecursiveNode → Type 0) (table : List PartCycleBaseline) (machine_model : Text)
    (plant : Option Text) (first : RecursiveNode) (nodes : List RecursiveNode)
    → All CycleIsNonneg table
    → All P (first ∷ nodes)
    → let lookup = some (build_cycle_lookup table machine_model plant) in
      (node : RecursiveNode) × P node
      × (identify_from_recursive_nodes (first ∷ nodes) lookup
          ≡ some (key_node node (node_cycle lookup node)))
      × All
          (λ other. (node_cycle lookup other).cycle_days ≤ℤ (node_cycle lookup node).cycle_days)
          (first ∷ nodes)
unfolding identify_from_recursive_nodes
identify_from_recursive_nodes-IsLongest P table machine_model plant first nodes h p =
    let built = build_cycle_lookup table machine_model plant in
    let lookup = some built in
    let (_, longer, attained) =
      longest_lem (node_cycle lookup) key_node P (minus_one, none) (first ∷ nodes) p in
    elim attained [
      | inl e ↦ absurd (
          omega (
            arith,
            (subst
                (λ pair.
                  All (λ other. (node_cycle lookup other).cycle_days ≤ℤ pair.0) (first ∷ nodes))
                e longer).0,
            match_part_cycle_from_lookup-IsNonneg first.row.bom_component_desc built
                (build_cycle_lookup-IsNonneg table machine_model plant h),
          ))
      | inr (node, q, e) ↦ (
        node,
        q,
        ap (λ pair. pair.1) e,
        subst
            (λ pair. All (λ other. (node_cycle lookup other).cycle_days ≤ℤ pair.0) (first ∷ nodes))
            e longer,
      )
    ]
