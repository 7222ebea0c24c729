-- ===== src/Orchestrator/Passed.antt =====
-- services/api/app/scheduler/schedule_orchestrator.py: the validations that let an order through.
use auto_scheduling_system.Prelude.{
  ℕ, zero, suc, ◌≤◌, ◌≡◌, refl, true, false, some, List, [], ◌∷◌, length, Text, or_empty, inl, inr,
  Bool-cases, true_is_not_false, Option-cases, arith, ap, ◌∙◌, subst,
}
use auto_scheduling_system.Prelude.Result.{ok, returns_first}
use auto_scheduling_system.Prelude.Decimal.{Decimal}
use auto_scheduling_system.Calendar.{Date}
use auto_scheduling_system.Bom.{BomRelation, find_direct_children}
use auto_scheduling_system.Orders.{SalesPlanOrderLine}
use auto_scheduling_system.ScheduleCheck.{CheckStatus, CheckResult}
use auto_scheduling_system.Orchestrator.Runs.{check_order_line}
use auto_scheduling_system.Orchestrator.{Source, SnapshotService, get_order}
use auto_scheduling_system.Orchestrator.Validation.{
  Validation, build_precheck_failure_response, refusal_by_status, refusal_response,
  assembly_component_nos, validate_children, candidate_response, validate_order,
  validate_part_schedule_run,
}

-- A response that lets the order through, with the check's result and what was found.
abbrev pub IsPassed : CheckResult → Validation → Type 0
IsPassed result validation =
    (validation.check ≡ some result)
    × (assemblies : ℕ) × (candidates : ℕ) × (validation.counts ≡ some (assemblies, candidates))
    × (1 ≤ assemblies)
    × (1 ≤ candidates)

candidate_response-IsPassed :
    (id : ℕ) (result : CheckResult) (assemblies candidates : ℕ)
    → 1 ≤ assemblies
    → (candidate_response id result assemblies candidates).success ≡ true
    → IsPassed result (candidate_response id result assemblies candidates)
unfolding candidate_response build_precheck_failure_response
candidate_response-IsPassed id result assemblies zero h success = cc
candidate_response-IsPassed id result assemblies (suc n) h success =
    (refl, assemblies, suc n, refl, h, omega arith)

validate_children-IsPassed :
    (source : Source) (order : SalesPlanOrderLine) (result : CheckResult)
    (children : List BomRelation) (nos : List Text)
    → (validate_children source order result children nos).success ≡ true
    → IsPassed result (validate_children source order result children nos)
unfolding validate_children build_precheck_failure_response
validate_children-IsPassed source order result children [] success = cc
validate_children-IsPassed source order result children (no_text ∷ nos) success =
    candidate_response-IsPassed order.id result (length (no_text ∷ nos)) _ (omega arith) success

refusal_by_status-success :
    (isoformat : Date → Text) (id : ℕ) (result : CheckResult) (status : CheckStatus)
    → (refusal_by_status isoformat id result status).success ≡ false
unfolding refusal_by_status build_precheck_failure_response
refusal_by_status-success isoformat id result CheckStatus.not_found = refl
refusal_by_status-success isoformat id result CheckStatus.pending_delivery = refl
refusal_by_status-success isoformat id result CheckStatus.pending_drawing = refl
refusal_by_status-success isoformat id result CheckStatus.missing_bom = refl
refusal_by_status-success isoformat id result CheckStatus.pending_trigger = refl
refusal_by_status-success isoformat id result CheckStatus.schedulable = refl

ok-injective {ℓ} : {A : Type ℓ} {a b : A} → ok a ≡ ok b → a ≡ b
ok-injective h = cc

module _ {Float : Type 0} (ratio : Decimal → Decimal → Float) (one : Float)
    (scale : Decimal → Float → Decimal) {S : Type 0} (service : SnapshotService S) (source : Source)
    (isoformat : Date → Text) where
  validate_order-IsPassed :
      (order : SalesPlanOrderLine) (result : CheckResult)
      → (validate_order ratio one scale service source isoformat order result).success ≡ true
      → (result.is_schedulable ≡ true)
        × IsPassed result (validate_order ratio one scale service source isoformat order result)
  unfolding validate_order
  validate_order-IsPassed order result success =
      let children =
        find_direct_children source.default_plant source.bom (or_empty order.material_no)
          order.delivery_plant in
      let response =
        validate_children source order result children (assembly_component_nos [] children) in
      elim (Bool-cases result.is_schedulable) [
        | inl e ↦
            let same : response
                ≡ validate_order ratio one scale service source isoformat order result =
              rw e refl in
            let passed : response.success ≡ true =
              ap (λ (v : Validation). v.success) same ∙ success in
            (
              e,
              subst (IsPassed result) same (
                  validate_children-IsPassed source order result children
                    (assembly_component_nos [] children) passed),
            )
        | inr e ↦
            let same : refusal_response isoformat order.id result
                ≡ validate_order ratio one scale service source isoformat order result =
              rw e refl in
            let refused = refusal_by_status-success isoformat order.id result result.status in
            true_is_not_false refused (ap (λ (v : Validation). v.success) same ∙ success)
      ]

  -- A validation lets an order through only where the schedule check has found it schedulable, and
  -- where it has counted an assembly and a self-made part at least.
  pub validate_part_schedule_run-IsPassed :
      (id : ℕ) {validation : Validation}
      → validate_part_schedule_run ratio one scale service source isoformat id ≡ ok validation
      → validation.success ≡ true
      → (result : CheckResult) × (check_order_line ratio one scale service source id ≡ ok result)
        × (result.is_schedulable ≡ true)
        × IsPassed result validation
  unfolding validate_part_schedule_run build_precheck_failure_response
  validate_part_schedule_run-IsPassed id {validation} h success =
      elim (Option-cases (get_order source.orders id)) [
        | inl e ↦
            let same = ok-injective (rw (e, validate_part_schedule_run) at h) in
            true_is_not_false refl (ap (λ (v : Validation). v.success) same ∙ success)
        | inr (order, e) ↦
            let (result, checked, rest) =
              returns_first (check_order_line ratio one scale service source id)
                (λ r. ok (validate_order ratio one scale service source isoformat order r))
                validation (rw (e, validate_part_schedule_run) at h) in
            let same : validate_order ratio one scale service source isoformat order result
                ≡ validation =
              ok-injective rest in
            let (schedulable, passed) =
              validate_order-IsPassed order result
                (ap (λ (v : Validation). v.success) same ∙ success) in
            (result, checked, schedulable, subst (IsPassed result) same passed)
      ]
