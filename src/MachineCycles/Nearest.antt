-- ===== src/MachineCycles/Nearest.antt =====
-- `_get_machine_cycle`: a model without a baseline of the quantity.
use auto_scheduling_system.Prelude.{if◌then◌else◌}
use auto_scheduling_system.Prelude.Int.{ltb_ℤ}
use auto_scheduling_system.Prelude.Decimal.{Decimal}
use auto_scheduling_system.MachineCycles.Baselines.{MachineCycleBaseline}
use auto_scheduling_system.MachineCycles.{distance}

nearer : (qty : Decimal) (a b : MachineCycleBaseline) → MachineCycleBaseline
nearer qty best other = if ltb_ℤ (distance qty other) (distance qty best) then other else best
