-- ===== src/PartSchedule/Backward.antt =====
-- services/api/app/scheduler/part_schedule_service.py: the dates of the parts.
use auto_scheduling_system.Prelude.{
  ℕ, ◌+◌, ◌*◌, ◌≤◌, ◌<◌, ◌≡◌, refl, Option, none, some, List, [], ◌∷◌, ◌++◌, arith, length, All,
  All-append, All-imp, All-map, All-always,
}
use auto_scheduling_system.Prelude.Int.{pos}
use auto_scheduling_system.Prelude.Result.{Result, ok}
use auto_scheduling_system.Prelude.Decimal.{Decimal, to_int}
use auto_scheduling_system.Calendar.{Date, Calendar, subtract_workdays}
use auto_scheduling_system.Calendar.Workdays.{reach, subtract_workdays_bounds}
use auto_scheduling_system.Assemblies.{Assembly}
use auto_scheduling_system.KeyParts.Tree.{RecursiveNode}
use auto_scheduling_system.KeyParts.Matching.{CycleLookup, KeyNode, identify_from_recursive_nodes}
use auto_scheduling_system.PartSchedule.Rows.{
  PartScheduleResult, Shared, nodes_of, part_row, part_start_of, schedule_assembly,
}
use auto_scheduling_system.PartSchedule.{
  Plan, group_of, max_assembly_time, schedule_group, schedule_groups, schedule_machine, sorted_seqs,
  final_assembly_time,
}

-- A start that is not after the end.
abbrev StartsBy : Date → Option Date → Type 0
StartsBy end none = Unit
StartsBy end (some start) = start ≤ end

-- A part of the order that ends by the date, and does not start after its end.
abbrev pub EndsBy : Plan → Date → PartScheduleResult → Type 0
EndsBy plan end row =
    (row.order_line_id ≡ plan.order_line_id)
    × (row.planned_end_date ≤ end)
    × StartsBy row.planned_end_date row.planned_start_date

abbrev Scheduled : Plan → Date → Result (List PartScheduleResult) → Type 0
Scheduled plan end result =
    (rows : List PartScheduleResult) × (result ≡ ok rows) × All (EndsBy plan end) rows

part_start_of-StartsBy :
    (calendar : Calendar) (end : Date) (key : Option KeyNode)
    → reach < end
    → (start : Option Date) × (part_start_of calendar end key ≡ ok start) × StartsBy end start
unfolding part_start_of
part_start_of-StartsBy calendar end none far = (none, refl, tt)
part_start_of-StartsBy calendar end (some key) far =
    let (start, walked, before, _) =
      subtract_workdays_bounds calendar end (to_int key.part.key_part_cycle_days) far in
    rw (walked, part_start_of) (some start, refl, before)

part_row-EndsBy :
    (plan : Plan) (end : Date) (cycle_lookup : CycleLookup) (shared : Shared)
    (part_node : Option RecursiveNode)
    → shared.order_line_id ≡ plan.order_line_id
    → shared.part_end ≤ end
    → StartsBy shared.part_end shared.part_start
    → EndsBy plan end (part_row cycle_lookup shared part_node)
unfolding part_row
part_row-EndsBy plan end cycle_lookup shared part_node same ends starts = (same, ends, starts)

schedule_assembly-Scheduled :
    (plan : Plan) (end : Date) (asm : Assembly)
    → reach < end
    → Scheduled plan end (
        schedule_assembly plan.order_line_id plan.machine_schedule_id plan.calendar plan.parts_map
          plan.cycle_lookup end asm)
unfolding schedule_assembly
schedule_assembly-Scheduled plan end asm far =
    let key =
      identify_from_recursive_nodes (nodes_of plan.parts_map asm) (some plan.cycle_lookup) in
    let (start, found, before) = part_start_of-StartsBy plan.calendar end key far in
    let shared : Shared = record {
      order_line_id = plan.order_line_id;
      machine_schedule_id = plan.machine_schedule_id;
      assembly = asm;
      key_part = key;
      part_start = start;
      part_end = end;
    } in
    rw (found, schedule_assembly)
      (
        _,
        refl,
        All-map (λ _. Unit {0}) (EndsBy plan end) (part_row plan.cycle_lookup shared) _
            (λ node _.
              part_row-EndsBy plan end plan.cycle_lookup shared node refl (omega arith) before)
            (All-always (λ _. Unit {0}) _ (λ _. tt)),
      )

schedule_group-Scheduled :
    (plan : Plan) (end : Date) (group : List Assembly)
    → reach < end
    → Scheduled plan end (schedule_group plan end group)
unfolding schedule_group
schedule_group-Scheduled plan end [] far = ([], refl, tt)
schedule_group-Scheduled plan end (asm ∷ group) far =
    let (rows, e, h) = schedule_assembly-Scheduled plan end asm far in
    let (later, k, m) = schedule_group-Scheduled plan end group far in
    rw (e, k, schedule_group) (rows ++ later, refl, All-append (EndsBy plan end) rows later h m)

EndsBy-mono :
    (plan : Plan) (a b : Date) (rows : List PartScheduleResult)
    → a ≤ b
    → All (EndsBy plan a) rows
    → All (EndsBy plan b) rows
EndsBy-mono plan a b rows le h =
    All-imp rows (λ row (same, ends, starts). (same, omega arith, starts)) h

schedule_groups-Scheduled :
    (plan : Plan) (assemblies : List Assembly) (end : Date) (seqs : List ℕ)
    → reach * length seqs < end
    → Scheduled plan end (schedule_groups plan assemblies end seqs)
unfolding schedule_groups
schedule_groups-Scheduled plan assemblies end [] far = ([], refl, tt)
schedule_groups-Scheduled plan assemblies end (seq ∷ seqs) far =
    let group = group_of assemblies seq in
    let (rows, e, h) = schedule_group-Scheduled plan end group (omega arith) in
    let (next, walked, before, within) =
      subtract_workdays_bounds plan.calendar end (to_int (max_assembly_time (pos 0) group))
        (omega arith) in
    let (later, k, m) =
      schedule_groups-Scheduled plan assemblies next seqs (omega (arith, within)) in
    rw (e, walked, k, schedule_groups)
      (
        rows ++ later,
        refl,
        All-append (EndsBy plan end) rows later h (EndsBy-mono plan next end later before m),
      )

-- Where the machine ends late enough, the service returns rows of the order only, each of them ends
-- no later than the machine's end less the time of the final assembly, and none starts after its
-- end.
pub schedule_machine-EndsBy :
    (plan : Plan) (assemblies : List Assembly) (machine_assembly_days : Option Decimal)
    (machine_end : Date)
    → reach * (length (sorted_seqs assemblies) + 1) < machine_end
    → (current_end : Date) × (rows : List PartScheduleResult) × (subtract_workdays machine_end
          (to_int (final_assembly_time machine_assembly_days))
          plan.calendar
        ≡ ok current_end)
      × (current_end ≤ machine_end)
      × (schedule_machine plan assemblies machine_assembly_days machine_end ≡ ok rows)
      × All (EndsBy plan current_end) rows
unfolding schedule_machine
schedule_machine-EndsBy plan assemblies machine_assembly_days machine_end far =
    let (current_end, walked, before, within) =
      subtract_workdays_bounds plan.calendar machine_end
        (to_int (final_assembly_time machine_assembly_days)) (omega arith) in
    let (rows, e, h) =
      schedule_groups-Scheduled plan assemblies current_end (sorted_seqs assemblies)
        (omega (arith, within)) in
    (current_end, rows, walked, before, rw (walked, e, schedule_machine) refl, h)
