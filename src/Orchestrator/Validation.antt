-- ===== src/Orchestrator/Validation.antt =====
-- services/api/app/scheduler/schedule_orchestrator.py: `validate_part_schedule_run`, and what follows
-- a validation that has failed. `isoformat` is the date's method.
use auto_scheduling_system.Prelude.{
  ℕ, zero, suc, ◌+◌, Bool, true, false, ◌||◌, Option, none, some, List, [], ◌∷◌, ◌++◌, map, length,
  if◌then◌else◌, Text, codes, is_empty, or_empty, member, where_true,
}
use auto_scheduling_system.Prelude.Result.{Result, ok, ◌>>=◌}
use auto_scheduling_system.Prelude.Decimal.{Decimal, decimal}
use auto_scheduling_system.Prelude.Dict.{dict_get}
use auto_scheduling_system.Calendar.{Date}
use auto_scheduling_system.TextParse.{normalize_assembly_name}
use auto_scheduling_system.Bom.{BomRelation, find_direct_children}
use auto_scheduling_system.Assemblies.{Assembly}
use auto_scheduling_system.KeyParts.Tree.{RecursiveNode}
use auto_scheduling_system.KeyParts.{list_recursive_self_made_parts_for_assemblies}
use auto_scheduling_system.Orders.{SalesPlanOrderLine}
use auto_scheduling_system.ScheduleCheck.{CheckStatus, CheckResult}
use auto_scheduling_system.Orchestrator.Warnings.{ValidationItem, build_validation_item}
use auto_scheduling_system.Orchestrator.Runs.{check_order_line, with_snapshots}
use auto_scheduling_system.Orchestrator.{
  Source, World, SnapshotService, get_order, status_text, record_precheck_issue,
}

-- The response; `counts` are those of the assemblies and of the candidates, where the check passes.
pub record Validation : Type 0 where
  pub order_line_id : ℕ
  pub success : Bool
  pub status : Text
  pub message : Text
  pub validation_items : List ValidationItem
  pub counts : Option (ℕ × ℕ)
  pub check : Option CheckResult

unfoldable pub build_precheck_failure_response :
    ℕ → (status message : Text) → List ValidationItem → Option CheckResult → Validation
build_precheck_failure_response id status message validation_items check = record {
  order_line_id = id;
  success = false;
  status = status;
  message = message;
  validation_items = validation_items;
  counts = none;
  check = check;
}

-- A failure with one blocking item.
abbrev pub blocked : ℕ → (status message code label text : Text) → Option CheckResult → Validation
blocked id status message code label text check =
    build_precheck_failure_response id status message
      (build_validation_item code label text (codes "blocking") ∷ []) check

abbrev pub trigger_text : (isoformat : Date → Text) → Option Date → Text
trigger_text isoformat none = codes "-"
trigger_text isoformat (some date) = isoformat date

-- The response to a check that refuses the order, by its status.
unfoldable pub refusal_by_status :
    (isoformat : Date → Text) → ℕ → CheckResult → CheckStatus → Validation
unfolding build_precheck_failure_response build_validation_item
refusal_by_status isoformat id result CheckStatus.pending_delivery =
    blocked id (status_text CheckStatus.pending_delivery) (codes "订单缺少确认交货期，零件排产校验未通过。")
      (codes "missing_delivery_date") (codes "状态确认") (codes "缺少确认交货期，暂不允许发起零件排产。") (some result)
refusal_by_status isoformat id result CheckStatus.pending_drawing =
    blocked id (status_text CheckStatus.pending_drawing) (codes "订单尚未完成发图，零件排产校验未通过。")
      (codes "pending_drawing") (codes "状态确认") (codes "发图状态未完成，暂不允许发起零件排产。") (some result)
refusal_by_status isoformat id result CheckStatus.missing_bom =
    blocked id (status_text CheckStatus.missing_bom) (codes "订单缺少 BOM 数据，零件排产校验未通过。")
      (codes "missing_bom") (codes "BOM数据") (codes "缺少整机 BOM 数据，暂不允许发起零件排产。") (some result)
refusal_by_status isoformat id result CheckStatus.pending_trigger =
    blocked id (status_text CheckStatus.pending_trigger) (codes "订单尚未达到排产触发条件，零件排产校验未通过。")
      (codes "pending_trigger") (codes "状态确认")
      (codes "未到排产触发日期（" ++ (trigger_text isoformat result.trigger_date ++ codes "），暂不允许发起零件排产。"))
      (some result)
refusal_by_status isoformat id result status =
    blocked id (status_text status) (codes "当前订单不满足零件排产条件。") (status_text status) (codes "状态确认")
      (elim result.reason [ none ↦ codes "当前订单不满足零件排产条件。" | some reason ↦ reason ]) (some result)

abbrev pub refusal_response : (isoformat : Date → Text) → ℕ → CheckResult → Validation
refusal_response isoformat id result = refusal_by_status isoformat id result result.status

-- The numbers of the assemblies below the machine, each once.
unfoldable pub assembly_component_nos : List Text → List BomRelation → List Text
unfolding normalize_assembly_name member
assembly_component_nos seen [] = []
assembly_component_nos seen (row ∷ rows) =
    let component_no = or_empty row.bom_component_no in
    let later = assembly_component_nos (component_no ∷ seen) rows in
    let rest = assembly_component_nos seen rows in
    if is_empty (normalize_assembly_name (or_empty row.bom_component_desc))
      || (is_empty component_no || member component_no seen)
    then rest
    else component_no ∷ later

-- The assemblies that the look-up is given; it reads their name and their number.
abbrev pub listed_assembly : BomRelation → Assembly
listed_assembly row = record {
  assembly_name = normalize_assembly_name (or_empty row.bom_component_desc);
  production_sequence = 0;
  assembly_time_days = decimal 0;
  is_default_time = false;
  bom_component_no = row.bom_component_no;
  bom_component_desc = row.bom_component_desc;
}

abbrev pub no_parts_if_none :
    Option (List (Text × List RecursiveNode)) → List (Text × List RecursiveNode)
no_parts_if_none none = []
no_parts_if_none (some grouped) = grouped

-- `len(parts_map.get(component_no, []))`
abbrev pub parts_of : List (Text × List RecursiveNode) → Text → ℕ
parts_of parts_map component_no = elim (dict_get component_no parts_map) [
  | none ↦ 0
  | some nodes ↦ length nodes
]

unfoldable pub part_candidate_count : List (Text × List RecursiveNode) → List Text → ℕ
unfolding dict_get
part_candidate_count parts_map [] = 0
part_candidate_count parts_map (component_no ∷ nos) =
    parts_of parts_map component_no + part_candidate_count parts_map nos

-- The response by the number of candidates.
unfoldable pub candidate_response : ℕ → CheckResult → (assemblies candidates : ℕ) → Validation
unfolding build_precheck_failure_response build_validation_item
candidate_response id result assemblies candidates = elim candidates [
  | zero ↦
      blocked id (codes "missing_part_data") (codes "部装下未识别到可排产的自制零件数据。")
        (codes "missing_part_data") (codes "零件数据") (codes "部装下缺少可排产的自制零件，请检查零件 BOM 数据。") none
  | suc n ↦ record {
    order_line_id = id;
    success = true;
    status = codes "schedulable";
    message = codes "校验通过，可发起零件排产。";
    validation_items = [];
    counts = some (assemblies, suc n);
    check = some result;
  }
]

-- From the machine's direct children on.
unfoldable pub validate_children :
    Source → SalesPlanOrderLine → CheckResult → List BomRelation → List Text → Validation
unfolding list_recursive_self_made_parts_for_assemblies part_candidate_count candidate_response
    build_precheck_failure_response build_validation_item member normalize_assembly_name
validate_children source order result children [] =
    blocked order.id (codes "missing_part_bom") (codes "BOM 中未识别到可用于零件排产的部装结构。")
      (codes "missing_part_bom") (codes "零件数据") (codes "未识别到有效部装结构，请检查 BOM 层级和部装命名。") none
validate_children source order result children (no_text ∷ nos) =
    let assemblies =
      map listed_assembly
        (where_true (λ row. member (or_empty row.bom_component_no) (no_text ∷ nos)) children) in
    let parts_map = no_parts_if_none (
      list_recursive_self_made_parts_for_assemblies source.default_plant source.bom
        (or_empty order.material_no) order.delivery_plant assemblies) in
    candidate_response order.id result (length (no_text ∷ nos))
      (part_candidate_count parts_map (no_text ∷ nos))

module _ {Float : Type 0} (ratio : Decimal → Decimal → Float) (one : Float)
    (scale : Decimal → Float → Decimal) {S : Type 0} (service : SnapshotService S) (source : Source)
    (isoformat : Date → Text) where
  unfoldable pub validate_order : SalesPlanOrderLine → CheckResult → Validation
  unfolding refusal_by_status validate_children find_direct_children assembly_component_nos
  validate_order order result =
      let children =
        find_direct_children source.default_plant source.bom (or_empty order.material_no)
          order.delivery_plant in
      if result.is_schedulable
      then validate_children source order result children (assembly_component_nos [] children)
      else refusal_response isoformat order.id result

  unfoldable pub validate_part_schedule_run : ℕ → Result Validation
  unfolding get_order check_order_line validate_order build_precheck_failure_response
      build_validation_item
  validate_part_schedule_run id = elim (get_order source.orders id) [
    | none ↦ ok (
        blocked id (codes "not_found") (codes "未找到对应订单，无法发起零件排产。") (codes "not_found")
          (codes "订单数据") (codes "订单不存在或已被删除。") none)
    | some order ↦ check_order_line ratio one scale service source id >>= λ result.
        ok (validate_order order result)
  ]

  unfoldable pub handle_part_schedule_precheck_failure : Validation → World S → Result (World S)
  unfolding record_precheck_issue
  handle_part_schedule_precheck_failure validation world =
      (elim validation.check [
        | none ↦ ok world
        | some result ↦ record_precheck_issue source.orders validation.order_line_id result world
      ])
      >>= λ recorded. with_snapshots ratio one scale service source recorded (
          service.refresh_one validation.order_line_id
            (codes "part_schedule_precheck_failed:" ++ validation.status) recorded)
