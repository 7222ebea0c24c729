-- ===== src/MachineCycles/Kept.antt =====
-- repository/machine_cycle_baseline_repo.py: the active baselines that a deactivation keeps.
use mathlib.Core.List.{Memᴰ}
use auto_scheduling_system.Prelude.{
  ◌≡◌, refl, sym, subst, ◌&&◌, text_eq→≡, arith, ap, ◌∙◌, Bool, true, false, List, [], ◌∷◌, map,
  ◌⊎◌, inl, inr, Bool-cases, ◌==◌, ==_false_comm, any_where, where_true, sort_by, All, All-both,
  All-where, All-where_true, All-sort_by,
}
use auto_scheduling_system.Prelude.Int.{pos, negsuc}
use auto_scheduling_system.Prelude.Decimal.{Decimal, equal_ℤ}
use auto_scheduling_system.Prelude.Members.{All-self, All-Memᴰ, All-from, Memᴰ-map}
use auto_scheduling_system.MachineCycles.Deactivation.{
  same_key, duplicates, deactivate_in, active_duplicates, deactivate_duplicate_active_rows,
}
use auto_scheduling_system.MachineCycles.Baselines.{MachineCycleBaseline, better_baseline}
use auto_scheduling_system.MachineCycles.Distinct.{
  AreDistinct, where_true-AreDistinct, sort_by-AreDistinct,
}
use auto_scheduling_system.MachineCycles.Duplicates.{
  same_key_refl, active-Memᴰ, deactivate_duplicate_active_rows_unique,
}

-- No row of another id is a duplicate of this id.
duplicates-other :
    (kept rows : List MachineCycleBaseline) (row : MachineCycleBaseline)
    → All (λ other. (other.id == row.id) ≡ false) rows
    → any_where (λ other. other.id == row.id) (duplicates kept rows) ≡ false
unfolding duplicates
duplicates-other kept [] row h = refl
duplicates-other kept (next ∷ rows) row h = elim (Bool-cases (any_where (same_key next) kept)) [
  | inl seen ↦ rw (seen, h.0) (duplicates-other kept rows row h.1)
  | inr new ↦ rw new (duplicates-other (next ∷ kept) rows row h.1)
]

-- A row of the key of a row is among the rows, and no duplicate.
abbrev IsKept :
    List MachineCycleBaseline → (kept : List MachineCycleBaseline) → MachineCycleBaseline → Type 0
IsKept rows kept a =
    (b : MachineCycleBaseline) × Memᴰ b rows
    × (same_key a b ≡ true)
    × (any_where (λ other. other.id == b.id) (duplicates kept rows) ≡ false)

duplicates-IsKept :
    (kept rows : List MachineCycleBaseline) (a : MachineCycleBaseline)
    → AreDistinct rows
    → Memᴰ a rows
    → (any_where (same_key a) kept ≡ true) ⊎ IsKept rows kept a
unfolding duplicates
duplicates-IsKept kept [] a d m = elim m [ ]
duplicates-IsKept kept (row ∷ rows) a d (Memᴰ.head e) =
    elim (Bool-cases (any_where (same_key row) kept)) [
      | inl seen ↦ inl (ap (λ r. any_where (same_key r) kept) e ∙ seen)
      | inr new ↦ rw new (
          inr (
            row,
            Memᴰ.head refl,
            ap (λ r. same_key r row) e ∙ same_key_refl row row refl refl,
            duplicates-other (row ∷ kept) rows row d.0,
          ))
    ]
duplicates-IsKept kept (row ∷ rows) a d (Memᴰ.tail m) =
    elim (Bool-cases (any_where (same_key row) kept)) [
      | inl seen ↦ elim (duplicates-IsKept kept rows a d.1 m) [
        | inl k ↦ inl k
        | inr (b, n, key, none_of) ↦
            let other : (row.id == b.id) ≡ false =
              ==_false_comm row.id b.id (All-Memᴰ (λ r. (r.id == row.id) ≡ false) rows d.0 n) in
            rw seen (inr (b, Memᴰ.tail n, key, rw other none_of))
      ]
      | inr new ↦ elim (duplicates-IsKept (row ∷ kept) rows a d.1 m) [
        | inl k ↦ elim (Bool-cases (same_key a row)) [
          | inl key ↦
              rw new (inr (row, Memᴰ.head refl, key, duplicates-other (row ∷ kept) rows row d.0))
          | inr key ↦ inl (rw key at k)
        ]
        | inr (b, n, key, none_of) ↦ rw new (inr (b, Memᴰ.tail n, key, none_of))
      ]
    ]

equal_ℤ→≡ : (p q : Decimal) → equal_ℤ p q ≡ true → p ≡ q
equal_ℤ→≡ (pos m) (pos n) h = ap pos (ground arith)
equal_ℤ→≡ (negsuc m) (negsuc n) h = ap negsuc (ground arith)
equal_ℤ→≡ (pos m) (negsuc n) h = cc
equal_ℤ→≡ (negsuc m) (pos n) h = cc

both_true : {p q : Bool} → (p && q) ≡ true → (p ≡ true) × (q ≡ true)
both_true {p = true} h = (refl, h)
both_true {p = false} h = cc

same_key→≡ :
    (a b : MachineCycleBaseline)
    → same_key a b ≡ true
    → (a.machine_model ≡ b.machine_model) × (a.order_qty ≡ b.order_qty)
same_key→≡ a b h =
    let both = both_true h in
    (text_eq→≡ a.machine_model b.machine_model both.0, equal_ℤ→≡ a.order_qty b.order_qty both.1)

-- The sorted active rows are active rows of the table.
sort_by-active :
    (table : List MachineCycleBaseline)
    → All
        (λ b. Memᴰ b table × (b.is_active ≡ true))
        (sort_by better_baseline (where_true (λ row. row.is_active) table))
sort_by-active table =
    All-sort_by (λ b. Memᴰ b table × (b.is_active ≡ true)) better_baseline actives
      (All-both (λ b. Memᴰ b table) (λ b. b.is_active ≡ true) actives
        (All-where (λ b. Memᴰ b table) (λ row. row.is_active) table (All-self table))
        (All-where_true (λ b. b.is_active ≡ true) (λ row. row.is_active) table (λ row on. on)))
  where
    actives : List MachineCycleBaseline
    actives = where_true (λ row. row.is_active) table

-- A row of the key is active, and no other of the key is.
abbrev pub IsOneActive : List MachineCycleBaseline → MachineCycleBaseline → Type 0
IsOneActive rows a =
    (b : MachineCycleBaseline) × Memᴰ b rows
    × (b.is_active ≡ true)
    × (same_key a b ≡ true)
    × All (λ c. ((c.is_active && same_key a c) ≡ false) ⊎ (c.id ≡ b.id)) rows

-- A row that is no duplicate stays as it is.
deactivate_in-kept :
    (changed table : List MachineCycleBaseline) (b : MachineCycleBaseline)
    → Memᴰ b table
    → any_where (λ other. other.id == b.id) changed ≡ false
    → Memᴰ b (map (deactivate_in changed) table)
deactivate_in-kept changed table b m none_of =
    let same : deactivate_in changed b ≡ b = rw none_of refl in
    subst (λ r. Memᴰ r (map (deactivate_in changed) table)) same
      (Memᴰ-map (deactivate_in changed) table m)

deactivate_duplicate_active_rows-kept :
    (table : List MachineCycleBaseline) (a : MachineCycleBaseline)
    → AreDistinct table
    → Memᴰ a table
    → a.is_active ≡ true
    → (b : MachineCycleBaseline) × Memᴰ b (deactivate_duplicate_active_rows table).0
      × (b.is_active ≡ true)
      × (same_key a b ≡ true)
unfolding deactivate_duplicate_active_rows active_duplicates
deactivate_duplicate_active_rows-kept table a d m on =
    elim (duplicates-IsKept [] sorted a
      (sort_by-AreDistinct better_baseline _
        (where_true-AreDistinct (λ row. row.is_active) table d))
      (active-Memᴰ table a m on)) [
        | inl none_kept ↦ cc
        | inr (b, n, key, none_of) ↦
            let found =
              All-Memᴰ (λ r. Memᴰ r table × (r.is_active ≡ true)) sorted (sort_by-active table) n in
            (b, deactivate_in-kept (duplicates [] sorted) table b found.0 none_of, found.1, key)
      ]
  where
    sorted : List MachineCycleBaseline
    sorted = sort_by better_baseline (where_true (λ row. row.is_active) table)

-- Where ids are distinct, each model and quantity with an active row has exactly one active row
-- after the duplicates are deactivated.
pub deactivate_duplicate_active_rows-IsOneActive :
    (table : List MachineCycleBaseline) (a : MachineCycleBaseline)
    → AreDistinct table
    → Memᴰ a table
    → a.is_active ≡ true
    → IsOneActive (deactivate_duplicate_active_rows table).0 a
deactivate_duplicate_active_rows-IsOneActive table a d m on =
    let (b, n, active, key) = deactivate_duplicate_active_rows-kept table a d m on in
    (
      b,
      n,
      active,
      key,
      All-from _ after
          (λ c in_after. only b n active key c in_after (Bool-cases (c.is_active && same_key a c))),
    )
  where
    after : List MachineCycleBaseline
    after = (deactivate_duplicate_active_rows table).0

    only :
        (b : MachineCycleBaseline)
        → Memᴰ b after
        → b.is_active ≡ true
        → same_key a b ≡ true
        → (c : MachineCycleBaseline) → Memᴰ c after
        → ((c.is_active && same_key a c) ≡ true) ⊎ ((c.is_active && same_key a c) ≡ false)
        → ((c.is_active && same_key a c) ≡ false) ⊎ (c.id ≡ b.id)
    only b n active key c in_after (inr off) = inl off
    only b n active key c in_after (inl both) =
        let (c_on, c_key) = both_true both in
        let (model_c, qty_c) = same_key→≡ a c c_key in
        let (model_b, qty_b) = same_key→≡ a b key in
        inr (
          deactivate_duplicate_active_rows_unique table c b in_after n c_on active
            (sym model_c ∙ model_b) (sym qty_c ∙ qty_b))
