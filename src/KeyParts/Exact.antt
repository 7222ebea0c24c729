-- ===== src/KeyParts/Exact.antt =====
-- services/api/app/scheduler/key_part_identify_service.py: what `build_cycle_lookup` puts under a
-- part type.
use auto_scheduling_system.Prelude.{
  ◌≡◌, refl, sym, ap, ◌∙◌, Bool, true, false, Option, none, some, List, [], ◌∷◌, inl, inr,
  if◌then◌else◌, Bool-cases, Option-cases, Text, text_eq, text_eq→≡, is_empty, first_where,
}
use auto_scheduling_system.Prelude.Dict.{
  dict_get, has_key, or_else, or_else-none, or_else_assoc, dict_get-append,
}
use auto_scheduling_system.KeyParts.Baselines.{PartCycleBaseline, list_active_by_model}
use auto_scheduling_system.KeyParts.Matching.{
  part_type_of, add_baseline, add_baselines, build_cycle_lookup,
}

abbrev is_of_type : Text → PartCycleBaseline → Bool
is_of_type key baseline = text_eq key (part_type_of baseline)

abbrev single : Text → PartCycleBaseline → Option PartCycleBaseline
single key baseline = if is_of_type key baseline then some baseline else none

text_eq-nil : (key t : Text) → is_empty key ≡ false → is_empty t ≡ true → text_eq key t ≡ false
unfolding text_eq
text_eq-nil [] t h k = cc
text_eq-nil (c ∷ key) [] h k = refl
text_eq-nil (c ∷ key) (d ∷ t) h k = cc

dict_get-single :
    (key : Text) (baseline : PartCycleBaseline)
    → dict_get key ((part_type_of baseline, baseline) ∷ []) ≡ single key baseline
unfolding dict_get
dict_get-single key baseline = refl

or_else-kept :
    (key : Text) (exact_map : List (Text × PartCycleBaseline)) (baseline : PartCycleBaseline)
    → has_key (part_type_of baseline) exact_map ≡ true
    → dict_get key exact_map ≡ or_else (dict_get key exact_map) (single key baseline)
or_else-kept key exact_map baseline h = elim (Bool-cases (is_of_type key baseline)) [
  | inr e ↦ rw e (sym (or_else-none (dict_get key exact_map)))
  | inl e ↦ elim (Option-cases (dict_get key exact_map)) [
    | inr (b, k) ↦ rw k refl
    | inl k ↦
        let missing : dict_get (part_type_of baseline) exact_map ≡ none =
          rw (← text_eq→≡ key (part_type_of baseline) e) k in
        cc (rw (missing, has_key) at h)
  ]
]

add_baseline_lem :
    (key : Text) (exact_map : List (Text × PartCycleBaseline)) (baseline : PartCycleBaseline)
    → is_empty key ≡ false
    → dict_get key (add_baseline exact_map baseline)
      ≡ or_else (dict_get key exact_map) (single key baseline)
unfolding add_baseline
add_baseline_lem key exact_map baseline h = elim (Bool-cases (is_empty (part_type_of baseline))) [
  | inl e ↦
      rw (e, text_eq-nil key (part_type_of baseline) h e)
        (sym (or_else-none (dict_get key exact_map)))
  | inr e ↦ elim (Bool-cases (has_key (part_type_of baseline) exact_map)) [
    | inl k ↦ rw (e, k) (or_else-kept key exact_map baseline k)
    | inr k ↦
        rw (e, k)
          (dict_get-append key exact_map ((part_type_of baseline, baseline) ∷ [])
            ∙ ap (or_else (dict_get key exact_map)) (dict_get-single key baseline))
  ]
]

or_else-first_where :
    (key : Text) (baseline : PartCycleBaseline) (baselines : List PartCycleBaseline)
    → or_else (single key baseline) (first_where (is_of_type key) baselines)
      ≡ first_where (is_of_type key) (baseline ∷ baselines)
or_else-first_where key baseline baselines = elim (Bool-cases (is_of_type key baseline)) [
  | inl e ↦ rw e refl
  | inr e ↦ rw e refl
]

add_baselines_lem :
    (key : Text) (exact_map : List (Text × PartCycleBaseline)) (baselines : List PartCycleBaseline)
    → is_empty key ≡ false
    → dict_get key (add_baselines exact_map baselines)
      ≡ or_else (dict_get key exact_map) (first_where (is_of_type key) baselines)
unfolding add_baselines
add_baselines_lem key exact_map [] h = sym (or_else-none (dict_get key exact_map))
add_baselines_lem key exact_map (baseline ∷ baselines) h =
    add_baselines_lem key (add_baseline exact_map baseline) baselines h
    ∙ ap (λ o. or_else o (first_where (is_of_type key) baselines))
        (add_baseline_lem key exact_map baseline h)
    ∙ or_else_assoc (dict_get key exact_map) (single key baseline)
        (first_where (is_of_type key) baselines)
    ∙ ap (or_else (dict_get key exact_map)) (or_else-first_where key baseline baselines)

-- Under a part type that is not empty, the look-up has the first baseline of this type in the order
-- of `list_active_by_model`.
pub build_cycle_lookup-first :
    (table : List PartCycleBaseline) (machine_model : Text) (plant : Option Text) (part_type : Text)
    → is_empty part_type ≡ false
    → dict_get part_type (build_cycle_lookup table machine_model plant).exact_map
      ≡ first_where
          (λ baseline. text_eq part_type (part_type_of baseline))
          (list_active_by_model table machine_model plant)
unfolding build_cycle_lookup dict_get
build_cycle_lookup-first table machine_model plant part_type h =
    add_baselines_lem part_type [] (list_active_by_model table machine_model plant) h
