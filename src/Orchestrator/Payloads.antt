-- ===== src/Orchestrator/Payloads.antt =====
-- services/api/app/scheduler/schedule_orchestrator_helpers.py: the issues that a run reports.
use auto_scheduling_system.Prelude.{
  ℕ, ◌||◌, Option, some, List, [], ◌∷◌, length, take, leb, if◌then◌else◌, Text, codes, member,
  is_empty, or_empty, join, show_nat,
}
use auto_scheduling_system.Orders.{SalesPlanOrderLine}
use auto_scheduling_system.DataIssues.{IssueReport}
use auto_scheduling_system.MachineSchedules.{MachineScheduleResult}
use auto_scheduling_system.BomBackfill.Messages.{concat}

-- `text or '-'`
abbrev pub or_dash : Option Text → Text
or_dash text = if is_empty (or_empty text) then codes "-" else or_empty text

-- The items that are not empty, each once, in their order.
unfoldable pub unique_texts : List Text → List Text → List Text
unfolding member
unique_texts seen [] = []
unique_texts seen (item ∷ items) =
    let later = unique_texts (item ∷ seen) items in
    let rest = unique_texts seen items in
    if is_empty item || member item seen then rest else item ∷ later

abbrev pub summary : ℕ → List Text → Text
summary limit [] = codes "-"
summary limit (item ∷ items) =
    if leb (length (item ∷ items)) limit
    then join (codes "、") (item ∷ items)
    else concat (
        join (codes "、") (take limit (item ∷ items))
        ∷ codes " 等"
        ∷ show_nat (length (item ∷ items))
        ∷ codes "项"
        ∷ [])

unfoldable pub summarize_items : List Text → ℕ → Text
unfolding unique_texts concat join show_nat
summarize_items items limit = summary limit (unique_texts [] items)

abbrev pub scheduler : Option Text
scheduler = some (codes "scheduler")

-- What the issues of one order have in common.
abbrev pub order_issue : ℕ → (kind level title : Text) → List Text → IssueReport
order_issue id kind level title detail = record {
  issue_type = kind;
  issue_level = some level;
  source_system = scheduler;
  biz_key = some (show_nat id);
  order_line_id = some id;
  issue_title = title;
  issue_detail = some (concat (codes "订单行 " ∷ show_nat id ∷ detail));
}

abbrev pub order_columns : SalesPlanOrderLine → List Text
order_columns order =
    codes "；order_no="
    ∷ or_dash order.order_no
    ∷ codes "；material_no="
    ∷ or_dash order.material_no
    ∷ codes "。"
    ∷ []

unfoldable pub missing_bom_issue : ℕ → SalesPlanOrderLine → IssueReport
unfolding concat show_nat
missing_bom_issue id order =
    order_issue id (codes "BOM缺失") (codes "high") (codes "排产前缺少 BOM 数据")
      (codes " 缺少 BOM 数据" ∷ order_columns order)

unfoldable pub pending_delivery_issue : ℕ → SalesPlanOrderLine → IssueReport
unfolding concat show_nat
pending_delivery_issue id order =
    order_issue id (codes "确认交货期缺失") (codes "medium") (codes "排产前缺少确认交货期")
      (codes " 缺少确认交货期" ∷ order_columns order)

unfoldable pub pending_drawing_issue : ℕ → SalesPlanOrderLine → IssueReport
unfolding concat show_nat
pending_drawing_issue id order =
    order_issue id (codes "发图状态未完成") (codes "medium") (codes "排产前发图状态未完成")
      (codes " 未完成发图" ∷ order_columns order)

abbrev pub machine_columns : MachineScheduleResult → Text → List Text
machine_columns machine ending =
    codes "；product_model="
    ∷ or_dash machine.product_model
    ∷ codes "；material_no="
    ∷ or_dash machine.material_no
    ∷ ending
    ∷ []

unfoldable pub machine_cycle_default_issue : MachineScheduleResult → IssueReport
unfolding concat show_nat
machine_cycle_default_issue machine =
    order_issue machine.order_line_id (codes "整机周期基准缺失") (codes "medium") (codes "整机周期基准缺失，已按默认值排产")
      (codes " 缺少整机周期基准" ∷ machine_columns machine (codes "；已按默认 90 天排产。"))

unfoldable pub final_assembly_time_default_issue : MachineScheduleResult → IssueReport
unfolding concat show_nat
final_assembly_time_default_issue machine =
    order_issue machine.order_line_id (codes "装配时长基准缺失") (codes "medium") (codes "装配时长基准缺失，已按默认值排产")
      (codes " 缺少整机总装时长基准" ∷ machine_columns machine (codes "；已按默认 3 天排产。"))

unfoldable pub part_assembly_time_default_issue : MachineScheduleResult → List Text → IssueReport
unfolding concat show_nat summarize_items
part_assembly_time_default_issue machine assembly_defaults =
    order_issue machine.order_line_id (codes "装配时长基准缺失") (codes "medium") (codes "装配时长基准缺失，已按默认值排产")
      (codes " 缺少部装时长基准；涉及部装：" ∷ summarize_items assembly_defaults 5 ∷ codes "；已按默认值排产。" ∷ [])

unfoldable pub part_cycle_default_issue : MachineScheduleResult → List Text → IssueReport
unfolding concat show_nat summarize_items
part_cycle_default_issue machine cycle_defaults =
    order_issue machine.order_line_id (codes "零件周期基准缺失") (codes "medium") (codes "零件周期基准缺失，已按默认值排产")
      (codes " 缺少零件周期基准；涉及物料：" ∷ summarize_items cycle_defaults 5 ∷ codes "；已按默认值排产。" ∷ [])
