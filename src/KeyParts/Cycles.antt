-- ===== src/KeyParts/Cycles.antt =====
-- services/api/app/scheduler/key_part_identify_service.py: the signs of the cycles.
use auto_scheduling_system.Prelude.{
  ◌≡◌, Option, some, List, [], ◌∷◌, inl, inr, arith, Bool-cases, Text, text_eq, ◌||◌, Option-cases,
  some-injective, or_empty, All, All-append, All-where, All-first_where, All-sort_by, is_empty,
  first_where,
}
use auto_scheduling_system.Prelude.Dict.{dict_get, has_key}
use auto_scheduling_system.Prelude.Int.{pos, ◌≤ℤ◌}
use auto_scheduling_system.TextParse.{extract_part_type}
use auto_scheduling_system.KeyParts.Baselines.{PartCycleBaseline, list_active_by_model}
use auto_scheduling_system.KeyParts.Matching.{
  CycleLookup, part_type_of, add_baseline, add_baselines, build_cycle_lookup, match_part_type,
  match_part_cycle_from_lookup, is_prefix_match,
}

-- The baselines of a table have cycles that are not negative.
abbrev pub CycleIsNonneg : PartCycleBaseline → Type 0
CycleIsNonneg baseline = pos 0 ≤ℤ baseline.cycle_days

abbrev pub LookupIsNonneg : CycleLookup → Type 0
LookupIsNonneg lookup =
    All (λ item. CycleIsNonneg item.1) lookup.exact_map × All CycleIsNonneg lookup.baselines

add_baseline-IsNonneg :
    (exact_map : List (Text × PartCycleBaseline)) (baseline : PartCycleBaseline)
    → All (λ item. CycleIsNonneg item.1) exact_map
    → CycleIsNonneg baseline
    → All (λ item. CycleIsNonneg item.1) (add_baseline exact_map baseline)
unfolding add_baseline
add_baseline-IsNonneg exact_map baseline h k =
    elim (Bool-cases
      (is_empty (part_type_of baseline) || has_key (part_type_of baseline) exact_map)) [
        | inl e ↦ rw e h
        | inr e ↦ rw e (All-append (λ item. CycleIsNonneg item.1) exact_map _ h (k, tt))
      ]

add_baselines-IsNonneg :
    (exact_map : List (Text × PartCycleBaseline)) (baselines : List PartCycleBaseline)
    → All (λ item. CycleIsNonneg item.1) exact_map
    → All CycleIsNonneg baselines
    → All (λ item. CycleIsNonneg item.1) (add_baselines exact_map baselines)
unfolding add_baselines
add_baselines-IsNonneg exact_map [] h k = h
add_baselines-IsNonneg exact_map (baseline ∷ baselines) h k =
    add_baselines-IsNonneg (add_baseline exact_map baseline) baselines
      (add_baseline-IsNonneg exact_map baseline h k.0) k.1

pub build_cycle_lookup-IsNonneg :
    (table : List PartCycleBaseline) (machine_model : Text) (plant : Option Text)
    → All CycleIsNonneg table
    → LookupIsNonneg (build_cycle_lookup table machine_model plant)
unfolding build_cycle_lookup list_active_by_model
build_cycle_lookup-IsNonneg table machine_model plant h =
    let found = All-sort_by CycleIsNonneg _ _ (All-where CycleIsNonneg _ table h) in
    (add_baselines-IsNonneg [] _ tt found, found)

All-dict_get :
    (key : Text) (items : List (Text × PartCycleBaseline)) {b : PartCycleBaseline}
    → All (λ item. CycleIsNonneg item.1) items
    → dict_get key items ≡ some b
    → CycleIsNonneg b
unfolding dict_get
All-dict_get key [] h e = cc
All-dict_get key ((k, v) ∷ items) {b} h e = elim (Bool-cases (text_eq key k)) [
  | inl t ↦ let same : v ≡ b = some-injective _ _ (rw t at e) in rw (← same) h.0
  | inr t ↦ All-dict_get key items h.1 (rw t at e)
]

match_part_type-IsNonneg :
    (part_type : Text) (lookup : CycleLookup)
    → LookupIsNonneg lookup
    → pos 0 ≤ℤ (match_part_type part_type lookup).cycle_days
unfolding match_part_type
match_part_type-IsNonneg part_type lookup h =
    elim (Option-cases (dict_get part_type lookup.exact_map)) [
      | inr (b, e) ↦ rw (e, match_part_type) (All-dict_get part_type lookup.exact_map h.0 e)
      | inl e ↦ elim (Bool-cases (is_empty part_type)) [
        | inl k ↦ rw (e, k, match_part_type) (omega arith)
        | inr k ↦ elim (Option-cases (first_where (is_prefix_match part_type) lookup.baselines)) [
          | inl m ↦ rw (e, k, m, match_part_type) (omega arith)
          | inr (b, m) ↦
              rw (e, k, m, match_part_type)
                (All-first_where CycleIsNonneg (is_prefix_match part_type) lookup.baselines h.1 m).0
        ]
      ]
    ]

pub match_part_cycle_from_lookup-IsNonneg :
    (desc : Option Text) (lookup : CycleLookup)
    → LookupIsNonneg lookup
    → pos 0 ≤ℤ (match_part_cycle_from_lookup desc (some lookup)).cycle_days
unfolding match_part_cycle_from_lookup
match_part_cycle_from_lookup-IsNonneg desc lookup h =
    match_part_type-IsNonneg (extract_part_type (or_empty desc)) lookup h
