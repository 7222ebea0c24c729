-- ===== src/TextParse.antt =====
-- services/api/app/common/text_parse_utils.py: the Chinese prefix of a material's description, and
-- the assembly name that it stands for.
pub mod Names
mod Tests
use auto_scheduling_system.Prelude.{
  ℕ, Bool, true, false, ◌&&◌, ◌||◌, List, [], ◌∷◌, leb, if◌then◌else◌, Text, codes, is_empty,
  starts_with, contains, any_where,
}

-- A character of the class `[\u4e00-\u9fff]`.
abbrev pub is_chinese : ℕ → Bool
is_chinese c = leb 0x4e00 c && leb c 0x9fff

unfoldable pub extract_chinese_prefix : Text → Text
extract_chinese_prefix [] = []
extract_chinese_prefix (c ∷ t) = if is_chinese c then c ∷ extract_chinese_prefix t else []

unfoldable pub extract_part_type : Text → Text
unfolding extract_chinese_prefix
extract_part_type = extract_chinese_prefix

abbrev pub excluded_prefixes : List Text
excluded_prefixes = codes "润滑" ∷ codes "附件" ∷ codes "油漆" ∷ codes "标牌" ∷ codes "包装" ∷ []

unfoldable pub is_excluded_assembly : Text → Bool
unfolding starts_with
is_excluded_assembly assembly_name = any_where (starts_with assembly_name) excluded_prefixes

abbrev pub assembly_alias_rules : List (Text × Text)
assembly_alias_rules =
    (codes "机身", codes "机身")
    ∷ (codes "滑块", codes "滑块")
    ∷ (codes "平衡缸", codes "平衡缸")
    ∷ (codes "空气管路", codes "空气管路")
    ∷ (codes "储气筒", codes "空气管路")
    ∷ (codes "双联阀", codes "空气管路")
    ∷ (codes "连接头", codes "空气管路")
    ∷ (codes "电气", codes "电气")
    ∷ (codes "按钮站", codes "电气")
    ∷ (codes "编码器", codes "电气")
    ∷ (codes "光电", codes "电气")
    ∷ (codes "传动", codes "传动")
    ∷ (codes "飞轮", codes "传动")
    ∷ (codes "齿轮", codes "传动")
    ∷ (codes "轴承座", codes "传动")
    ∷ (codes "支承", codes "传动")
    ∷ []

-- The loop over the rules, and what follows it.
unfoldable pub apply_alias_rules : List (Text × Text) → Text → Text
unfolding contains
apply_alias_rules [] prefix =
    if contains prefix (codes "总成") || contains prefix (codes "部装") then prefix else []
apply_alias_rules ((keyword, normalized) ∷ rules) prefix =
    if contains prefix keyword then normalized else apply_alias_rules rules prefix

-- The rules for a prefix that has been extracted.
unfoldable pub normalize_prefix : Text → Text
unfolding is_excluded_assembly apply_alias_rules
normalize_prefix prefix =
    if is_empty prefix || is_excluded_assembly prefix
    then []
    else apply_alias_rules assembly_alias_rules prefix

unfoldable pub normalize_assembly_name : Text → Text
unfolding extract_chinese_prefix normalize_prefix
normalize_assembly_name text = normalize_prefix (extract_chinese_prefix text)
