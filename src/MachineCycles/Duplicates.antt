-- ===== src/MachineCycles/Duplicates.antt =====
-- repository/machine_cycle_baseline_repo.py: the duplicates of active baselines.
use mathlib.Core.List.{Memᴰ}
use auto_scheduling_system.Prelude.Int.{pos, negsuc}
use auto_scheduling_system.Prelude.{
  ℕ, ◌≡◌, refl, sym, ap, ◌∙◌, Bool, true, false, List, [], ◌∷◌, map, inl, inr, Bool-cases,
  true_is_not_false, found_later, if◌then◌else◌, ◌==◌, any_where, where_true, text_eq_refl, sort_by,
  arith,
}
use auto_scheduling_system.Prelude.Decimal.{Decimal, equal_ℤ}
use auto_scheduling_system.Prelude.Members.{Memᴰ-sort_by, Memᴰ-where_true}
use auto_scheduling_system.MachineCycles.Deactivation.{
  same_key, duplicates, deactivate_in, active_duplicates, deactivate_duplicate_active_rows,
}
use auto_scheduling_system.MachineCycles.Baselines.{MachineCycleBaseline, better_baseline}

-- A row that is active after the loop was so before, and is none of those that were deactivated.
Memᴰ-deactivate_in :
    (changed table : List MachineCycleBaseline) (a : MachineCycleBaseline)
    → Memᴰ a (map (deactivate_in changed) table)
    → a.is_active ≡ true
    → Memᴰ a table × (any_where (λ other. other.id == a.id) changed ≡ false)
Memᴰ-deactivate_in changed [] a m active = elim m [ ]
Memᴰ-deactivate_in changed (row ∷ table) a (Memᴰ.tail m) active =
    let h = Memᴰ-deactivate_in changed table a m active in (Memᴰ.tail h.0, h.1)
Memᴰ-deactivate_in changed (row ∷ table) a (Memᴰ.head e) active =
    elim (Bool-cases (any_where (λ other. other.id == row.id) changed)) [
      | inl off ↦
          true_is_not_false (ap (λ (r : MachineCycleBaseline). r.is_active) e ∙ rw off refl) active
      | inr on ↦
          let same : a ≡ row = e ∙ rw on in
          (
            Memᴰ.head same,
            ap (λ (r : MachineCycleBaseline). any_where (λ other. other.id == r.id) changed) same
                ∙ on,
          )
    ]

equal_ℤ_refl : (q : Decimal) → equal_ℤ q q ≡ true
equal_ℤ_refl (pos n) = ground arith
equal_ℤ_refl (negsuc n) = ground arith

pub same_key_refl :
    (a b : MachineCycleBaseline)
    → a.machine_model ≡ b.machine_model
    → a.order_qty ≡ b.order_qty
    → same_key a b ≡ true
same_key_refl a b model qty =
    rw (model, qty, text_eq_refl b.machine_model) (equal_ℤ_refl b.order_qty)

==_refl : (n : ℕ) → (n == n) ≡ true
==_refl n = ground arith

-- A later row whose key is kept is a duplicate.
duplicates-kept :
    (kept rows : List MachineCycleBaseline) (a : MachineCycleBaseline)
    → Memᴰ a rows
    → any_where (same_key a) kept ≡ true
    → any_where (λ other. other.id == a.id) (duplicates kept rows) ≡ true
unfolding duplicates
duplicates-kept kept [] a m k = elim m [ ]
duplicates-kept kept (row ∷ rows) a (Memᴰ.head e) k =
    rw
      (
        ap (λ r. any_where (same_key r) kept) (sym e) ∙ k,
        ap (λ (r : MachineCycleBaseline). r.id) e,
        ==_refl row.id,
      )
      refl
duplicates-kept kept (row ∷ rows) a (Memᴰ.tail m) k =
    elim (Bool-cases (any_where (same_key row) kept)) [
      | inl seen ↦ rw (seen, duplicates-kept kept rows a m k) (found_later (row.id == a.id) refl)
      | inr new ↦ rw new (duplicates-kept (row ∷ kept) rows a m (found_later (same_key a row) k))
    ]

head_is_no_duplicate : (a : Bool) {b : Bool} → (if a then true else b) ≡ false → b ≡ false
head_is_no_duplicate true h = true_is_not_false {b = true} h refl
head_is_no_duplicate false h = h

-- A row at the head that is no duplicate is kept, so a later one of its key is a duplicate.
head_is_unique :
    (kept rows : List MachineCycleBaseline) (row a b : MachineCycleBaseline)
    → a ≡ row
    → Memᴰ b rows
    → same_key b a ≡ true
    → any_where (λ other. other.id == a.id) (duplicates kept (row ∷ rows)) ≡ false
    → any_where (λ other. other.id == b.id) (duplicates kept (row ∷ rows)) ≡ true
unfolding duplicates
head_is_unique kept rows row a b e m ba n = elim (Bool-cases (any_where (same_key row) kept)) [
  | inl seen ↦
      let own : (row.id == a.id) ≡ true =
        ap (λ (r : MachineCycleBaseline). row.id == r.id) e ∙ ==_refl row.id in
      true_is_not_false (rw (seen, own) at n) refl
  | inr new ↦
      let key : same_key b row ≡ true = ap (same_key b) (sym e) ∙ ba in
      rw new (duplicates-kept (row ∷ kept) rows b m (rw key refl))
]

-- Two rows of a key of which neither is a duplicate are one.
duplicates_unique :
    (kept rows : List MachineCycleBaseline) (a b : MachineCycleBaseline)
    → Memᴰ a rows
    → Memᴰ b rows
    → same_key a b ≡ true
    → same_key b a ≡ true
    → any_where (λ other. other.id == a.id) (duplicates kept rows) ≡ false
    → any_where (λ other. other.id == b.id) (duplicates kept rows) ≡ false
    → a.id ≡ b.id
unfolding duplicates
duplicates_unique kept [] a b ma mb ab ba na nb = elim ma [ ]
duplicates_unique kept (row ∷ rows) a b (Memᴰ.head ea) (Memᴰ.head eb) ab ba na nb =
    ap (λ (r : MachineCycleBaseline). r.id) (ea ∙ sym eb)
duplicates_unique kept (row ∷ rows) a b (Memᴰ.head ea) (Memᴰ.tail mb) ab ba na nb =
    true_is_not_false nb (head_is_unique kept rows row a b ea mb ba na)
duplicates_unique kept (row ∷ rows) a b (Memᴰ.tail ma) (Memᴰ.head eb) ab ba na nb =
    true_is_not_false na (head_is_unique kept rows row b a eb ma ab nb)
duplicates_unique kept (row ∷ rows) a b (Memᴰ.tail ma) (Memᴰ.tail mb) ab ba na nb =
    elim (Bool-cases (any_where (same_key row) kept)) [
      | inl seen ↦
          duplicates_unique kept rows a b ma mb ab ba
            (head_is_no_duplicate (row.id == a.id) (rw seen at na))
            (head_is_no_duplicate (row.id == b.id) (rw seen at nb))
      | inr new ↦ duplicates_unique (row ∷ kept) rows a b ma mb ab ba (rw new at na) (rw new at nb)
    ]

pub active-Memᴰ :
    (table : List MachineCycleBaseline) (a : MachineCycleBaseline)
    → Memᴰ a table
    → a.is_active ≡ true
    → Memᴰ a (sort_by better_baseline (where_true (λ row. row.is_active) table))
active-Memᴰ table a m on =
    Memᴰ-sort_by better_baseline (where_true (λ row. row.is_active) table)
      (Memᴰ-where_true (λ row. row.is_active) table m on)

-- After the loop two active rows with one model and one quantity are the same row.
pub deactivate_duplicate_active_rows_unique :
    (table : List MachineCycleBaseline) (a b : MachineCycleBaseline)
    → Memᴰ a (deactivate_duplicate_active_rows table).0
    → Memᴰ b (deactivate_duplicate_active_rows table).0
    → a.is_active ≡ true
    → b.is_active ≡ true
    → a.machine_model ≡ b.machine_model
    → a.order_qty ≡ b.order_qty
    → a.id ≡ b.id
unfolding deactivate_duplicate_active_rows active_duplicates
deactivate_duplicate_active_rows_unique table a b ma mb on_a on_b model qty =
    let (in_a, new_a) = Memᴰ-deactivate_in (active_duplicates table) table a ma on_a in
    let (in_b, new_b) = Memᴰ-deactivate_in (active_duplicates table) table b mb on_b in
    duplicates_unique [] (sort_by better_baseline (where_true (λ row. row.is_active) table)) a b
      (active-Memᴰ table a in_a on_a) (active-Memᴰ table b in_b on_b) (same_key_refl a b model qty)
      (same_key_refl b a (sym model) (sym qty)) new_a new_b
