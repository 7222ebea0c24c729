-- ===== src/KeyParts/Visits.antt =====
-- services/api/app/scheduler/key_part_identify_service.py: the measure of a call of `walk`, the
-- number of rows whose component it has not visited.
use auto_scheduling_system.Prelude.{
  ℕ, ◌+◌, ◌≤◌, ◌<◌, ◌≡◌, refl, true, false, List, [], ◌∷◌, inl, inr, arith, if◌then◌else◌,
  Bool-cases, length, Text, text_eq_refl, member, All, All-imp,
}
use auto_scheduling_system.Bom.{BomRelation}
use auto_scheduling_system.KeyParts.Tree.{component_no}

unfoldable pub fresh_count : List Text → List BomRelation → ℕ
fresh_count visited [] = 0
fresh_count visited (row ∷ rows) =
    (if member (component_no row) visited then 0 else 1) + fresh_count visited rows

pub fresh_count_bound :
    (visited : List Text) (rows : List BomRelation) → fresh_count visited rows ≤ length rows
unfolding fresh_count
fresh_count_bound visited [] = omega arith
fresh_count_bound visited (row ∷ rows) = elim (Bool-cases (member (component_no row) visited)) [
  | inl e ↦ rw e (omega (arith, fresh_count_bound visited rows))
  | inr e ↦ rw e (omega (arith, fresh_count_bound visited rows))
]

pub member_later :
    (t u : Text) (visited : List Text) → member t visited ≡ true → member t (u ∷ visited) ≡ true
unfolding member
member_later t u visited h = ground arith

pub member_self : (t : Text) (visited : List Text) → member t (t ∷ visited) ≡ true
unfolding member
member_self t visited = rw (text_eq_refl t) refl

fresh_count_mono :
    (u : Text) (visited : List Text) (rows : List BomRelation)
    → fresh_count (u ∷ visited) rows ≤ fresh_count visited rows
unfolding fresh_count
fresh_count_mono u visited [] = omega arith
fresh_count_mono u visited (row ∷ rows) = elim (Bool-cases (member (component_no row) visited)) [
  | inl e ↦
      rw (e, member_later (component_no row) u visited e)
        (omega (arith, fresh_count_mono u visited rows))
  | inr e ↦ elim (Bool-cases (member (component_no row) (u ∷ visited))) [
    | inl k ↦ rw (e, k) (omega (arith, fresh_count_mono u visited rows))
    | inr k ↦ rw (e, k) (omega (arith, fresh_count_mono u visited rows))
  ]
]

-- A visit to a row's component leaves fewer rows.
unfoldable pub Shrinks : List Text → List BomRelation → BomRelation → Type 0
Shrinks visited rows row =
    member (component_no row) visited ≡ false
    → fresh_count (component_no row ∷ visited) rows < fresh_count visited rows

pub fresh_count-Shrinks :
    (visited : List Text) (rows : List BomRelation) → All (Shrinks visited rows) rows
unfolding Shrinks fresh_count
fresh_count-Shrinks visited [] = tt
fresh_count-Shrinks visited (row ∷ rows) = (
  λ e.
      rw (e, member_self (component_no row) visited)
        (omega (arith, fresh_count_mono (component_no row) visited rows)),
  All-imp rows
      (λ other shrinks e. elim (Bool-cases (member (component_no row) visited)) [
        | inl k ↦
            rw (k, member_later (component_no row) (component_no other) visited k)
              (omega (arith, shrinks e))
        | inr k ↦ elim (Bool-cases (member (component_no row) (component_no other ∷ visited))) [
          | inl m ↦ rw (k, m) (omega (arith, shrinks e))
          | inr m ↦ rw (k, m) (omega (arith, shrinks e))
        ]
      ])
      (fresh_count-Shrinks visited rows),
)
