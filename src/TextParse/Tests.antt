-- ===== src/TextParse/Tests.antt =====
-- Runs of text_parse_utils.py, and its theorems at concrete inputs.
use auto_scheduling_system.Prelude.{◌≡◌, refl, ◌++◌, Text, codes, All, true}
use auto_scheduling_system.TextParse.{is_chinese, extract_chinese_prefix, normalize_assembly_name}
use auto_scheduling_system.TextParse.Names.{
  StopsChinese, extract_chinese_prefix_lem, normalize_assembly_name_idem,
}

normalize_alias : normalize_assembly_name (codes "飞轮部装JH21") ≡ codes "传动"
unfolding normalize_assembly_name
normalize_alias = refl

normalize_excluded : normalize_assembly_name (codes "润滑总成") ≡ codes ""
unfolding normalize_assembly_name
normalize_excluded = refl

normalize_other : normalize_assembly_name (codes "模垫总成2") ≡ codes "模垫总成"
unfolding normalize_assembly_name
normalize_other = refl

extract_chinese_prefix_lem_example :
    (rest : Text) × (codes "机身A1" ≡ extract_chinese_prefix (codes "机身A1") ++ rest)
    × All (λ c. is_chinese c ≡ true) (extract_chinese_prefix (codes "机身A1"))
    × StopsChinese rest
extract_chinese_prefix_lem_example = extract_chinese_prefix_lem (codes "机身A1")

normalize_assembly_name_idem_example :
    normalize_assembly_name (normalize_assembly_name (codes "飞轮部装JH21"))
    ≡ normalize_assembly_name (codes "飞轮部装JH21")
normalize_assembly_name_idem_example = normalize_assembly_name_idem (codes "飞轮部装JH21")
