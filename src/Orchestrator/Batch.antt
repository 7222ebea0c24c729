-- ===== src/Orchestrator/Batch.antt =====
-- services/api/app/scheduler/schedule_orchestrator.py: what a run and a batch promise.
use auto_scheduling_system.Prelude.{
  ℕ, suc, ◌+◌, ◌≡◌, refl, true, false, List, [], ◌∷◌, ◌++◌, length, length-append, codes, inl, inr,
  Bool-cases, true_is_not_false, arith, subst, ◌∙◌,
}
use auto_scheduling_system.Prelude.Result.{Result, ok, err, returns_first}
use auto_scheduling_system.Prelude.Decimal.{Decimal}
use auto_scheduling_system.ScheduleCheck.{CheckResult}
use auto_scheduling_system.Orchestrator.{
  Source, World, SnapshotService, Outcome, refused, is_success, record_precheck_issue, status_text,
}
use auto_scheduling_system.Orchestrator.Runs.{
  BatchResult, finished, failed_with, check_order_line, refuse, schedule_checked, schedule_order,
  schedule_orders, schedule_batch, add_order, with_snapshots,
}

-- The counts of a batch that has done `n` orders.
abbrev pub IsCounted : ℕ → BatchResult → Type 0
IsCounted n batch = (batch.scheduled_count + batch.failed_count ≡ n) × (length batch.results ≡ n)

first_of {ℓ κ} : {A : Type ℓ} {B : Type κ} {p q : A × B} → ok p ≡ ok q → p.0 ≡ q.0
first_of h = cc

module _ {Float : Type 0} (ratio : Decimal → Decimal → Float) (one : Float)
    (scale : Decimal → Float → Decimal) {S : Type 0} (service : SnapshotService S)
    (source : Source) where
  refuse-is_success :
      (id : ℕ) (result : CheckResult) (world : World S) {outcome : Outcome} {after : World S}
      → refuse ratio one scale service source id result world ≡ ok (outcome, after)
      → is_success outcome ≡ false
  unfolding refuse
  refuse-is_success id result world {outcome} {after} h =
      let (recorded, _, rest) =
        returns_first (record_precheck_issue source.orders id result world) _ (outcome, after) h in
      let (last, _, done) =
        returns_first
          (with_snapshots ratio one scale service source recorded (
            service.refresh_one id (codes "precheck_failed:" ++ status_text result.status)
              recorded))
          (λ (w : World S). ok (refused id result, w)) (outcome, after) rest in
      subst (λ o. is_success o ≡ false) (first_of done) refl

  -- A run succeeds only for an order that the check has found schedulable.
  pub schedule_order-is_success :
      (id : ℕ) (world : World S) {outcome : Outcome} {after : World S}
      → schedule_order ratio one scale service source id world ≡ ok (outcome, after)
      → is_success outcome ≡ true
      → (result : CheckResult) × (check_order_line ratio one scale service source id ≡ ok result)
        × (result.is_schedulable ≡ true)
  unfolding schedule_order schedule_checked
  schedule_order-is_success id world {outcome} {after} h success =
      let (result, checked, rest) =
        returns_first (check_order_line ratio one scale service source id) _ _ h in
      elim (Bool-cases result.is_schedulable) [
        | inl e ↦ (result, checked, e)
        | inr e ↦ true_is_not_false (refuse-is_success id result world (rw e at rest)) success
      ]

  add_order-IsCounted :
      (n : ℕ) (state : BatchResult × World S) (id : ℕ) (run : Result (Outcome × World S))
      → IsCounted n state.0
      → IsCounted (suc n) (add_order ratio one scale service source state id run).0
  unfolding add_order
  add_order-IsCounted n (batch, world) id (err exception) h =
      (omega arith, omega (arith, length-append batch.results (failed_with id exception ∷ [])))
  add_order-IsCounted n (batch, world) id (ok (outcome, after)) h =
      let longer = length-append batch.results (finished outcome ∷ []) in
      elim (Bool-cases (is_success outcome)) [
        | inl e ↦ rw e (omega arith, omega arith)
        | inr e ↦ rw e (omega arith, omega arith)
      ]

  add_order-total :
      (state : BatchResult × World S) (id : ℕ) (run : Result (Outcome × World S))
      → (add_order ratio one scale service source state id run).0.total ≡ state.0.total
  unfolding add_order
  add_order-total (batch, world) id (err exception) = refl
  add_order-total (batch, world) id (ok (outcome, after)) = refl

  schedule_orders-IsCounted :
      (n : ℕ) (state : BatchResult × World S) (ids : List ℕ)
      → IsCounted n state.0
      → IsCounted (n + length ids) (schedule_orders ratio one scale service source state ids).0
  unfolding schedule_orders
  schedule_orders-IsCounted n state [] h = (omega arith, omega arith)
  schedule_orders-IsCounted n (batch, world) (id ∷ ids) h =
      let run = schedule_order ratio one scale service source id world in
      let next = add_order ratio one scale service source (batch, world) id run in
      let counted =
        schedule_orders-IsCounted (suc n) next ids
          (add_order-IsCounted n (batch, world) id run h) in
      (omega arith, omega arith)

  schedule_orders-total :
      (state : BatchResult × World S) (ids : List ℕ)
      → (schedule_orders ratio one scale service source state ids).0.total ≡ state.0.total
  unfolding schedule_orders
  schedule_orders-total state [] = refl
  schedule_orders-total (batch, world) (id ∷ ids) =
      let run = schedule_order ratio one scale service source id world in
      schedule_orders-total (add_order ratio one scale service source (batch, world) id run) ids
      ∙ add_order-total (batch, world) id run

  -- A batch reports one result for each order; its total is their number, and that of those scheduled
  -- and those that failed together, also where runs raise.
  pub schedule_batch-IsCounted :
      (ids : List ℕ) (world : World S)
      → ((schedule_batch ratio one scale service source ids world).0.total ≡ length ids)
        × IsCounted (length ids) (schedule_batch ratio one scale service source ids world).0
  unfolding schedule_batch
  schedule_batch-IsCounted ids world =
      let start : BatchResult = record {
        total = length ids;
        scheduled_count = 0;
        failed_count = 0;
        results = [];
      } in
      let counted = schedule_orders-IsCounted 0 (start, world) ids (refl, refl) in
      (schedule_orders-total (start, world) ids, (omega arith, omega arith))
