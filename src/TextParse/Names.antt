-- ===== src/TextParse/Names.antt =====
-- The prefixes and the normalised names of text_parse_utils.py.
use auto_scheduling_system.Prelude.{
  ◌≡◌, refl, ◌⊎◌, inl, inr, ap, ◌∙◌, sym, true, false, ◌||◌, List, [], ◌∷◌, ◌++◌, Bool-cases, Text,
  codes, contains, All, is_empty,
}
use auto_scheduling_system.TextParse.{
  is_chinese, extract_chinese_prefix, is_excluded_assembly, assembly_alias_rules, apply_alias_rules,
  normalize_prefix, normalize_assembly_name,
}

-- `rest` does not go on with a Chinese character.
abbrev pub StopsChinese : Text → Type 0
StopsChinese [] = Unit
StopsChinese (c ∷ t) = is_chinese c ≡ false

-- The extracted text holds Chinese characters only, and it is followed in the text by a rest that
-- does not begin with one.
pub extract_chinese_prefix_lem :
    (text : Text)
    → (rest : Text) × (text ≡ extract_chinese_prefix text ++ rest)
      × All (λ c. is_chinese c ≡ true) (extract_chinese_prefix text)
      × StopsChinese rest
unfolding extract_chinese_prefix
extract_chinese_prefix_lem [] = ([], refl, tt, tt)
extract_chinese_prefix_lem (c ∷ t) = elim (Bool-cases (is_chinese c)) [
  | inl e ↦
      let (rest, split, chinese, stops) = extract_chinese_prefix_lem t in
      rw e (rest, ap (λ u. c ∷ u) split, (e, chinese), stops)
  | inr e ↦ rw e (c ∷ t, refl, tt, e)
]

extract_chinese_prefix_idem :
    (text : Text)
    → extract_chinese_prefix (extract_chinese_prefix text) ≡ extract_chinese_prefix text
unfolding extract_chinese_prefix
extract_chinese_prefix_idem [] = refl
extract_chinese_prefix_idem (c ∷ t) = elim (Bool-cases (is_chinese c)) [
  | inl e ↦ rw e (rw e (ap (λ u. c ∷ u) (extract_chinese_prefix_idem t)))
  | inr e ↦ rw e
]

-- Each normalized name of the rules stands for itself.
abbrev IsFixed : Text → Type 0
IsFixed name = normalize_assembly_name name ≡ name

rules-IsFixed : All (λ rule. IsFixed rule.1) assembly_alias_rules
unfolding normalize_assembly_name
rules-IsFixed = (
  refl,
  (
    refl,
    (
      refl,
      (
        refl,
        (
          refl,
          (
            refl,
            (refl, (refl, (refl, (refl, (refl, (refl, (refl, (refl, (refl, (refl, tt)))))))))),
          ),
        ),
      ),
    ),
  ),
)

nil-IsFixed : IsFixed []
unfolding normalize_assembly_name
nil-IsFixed = refl

-- The rules give a name that stands for itself, or the prefix.
apply_alias_rules_cases :
    (rules : List (Text × Text)) (prefix : Text)
    → All (λ rule. IsFixed rule.1) rules
    → IsFixed (apply_alias_rules rules prefix) ⊎ (apply_alias_rules rules prefix ≡ prefix)
unfolding apply_alias_rules
apply_alias_rules_cases [] prefix h =
    elim (Bool-cases (contains prefix (codes "总成") || contains prefix (codes "部装"))) [
      | inl e ↦ rw e (inr refl)
      | inr e ↦ rw e (inl nil-IsFixed)
    ]
apply_alias_rules_cases ((keyword, normalized) ∷ rules) prefix h =
    elim (Bool-cases (contains prefix keyword)) [
      | inl e ↦ rw e (inl h.0)
      | inr e ↦ rw e (apply_alias_rules_cases rules prefix h.1)
    ]

normalize_prefix_cases :
    (prefix : Text) → IsFixed (normalize_prefix prefix) ⊎ (normalize_prefix prefix ≡ prefix)
unfolding normalize_prefix
normalize_prefix_cases prefix = elim (Bool-cases (is_empty prefix || is_excluded_assembly prefix)) [
  | inl e ↦ rw e (inl nil-IsFixed)
  | inr e ↦ rw e (apply_alias_rules_cases assembly_alias_rules prefix rules-IsFixed)
]

normalize_assembly_name_lem :
    (text : Text) → normalize_assembly_name text ≡ normalize_prefix (extract_chinese_prefix text)
unfolding normalize_assembly_name
normalize_assembly_name_lem text = refl

-- Normalising a normalised assembly name changes nothing.
pub normalize_assembly_name_idem :
    (text : Text)
    → normalize_assembly_name (normalize_assembly_name text) ≡ normalize_assembly_name text
normalize_assembly_name_idem text =
    let e = normalize_assembly_name_lem text in
    let prefix = extract_chinese_prefix text in
    elim (normalize_prefix_cases prefix) [
      | inl fixed ↦ rw e fixed
      | inr same ↦
          ap normalize_assembly_name (e ∙ same)
          ∙ normalize_assembly_name_lem prefix
          ∙ ap normalize_prefix (extract_chinese_prefix_idem text)
          ∙ sym e
    ]
