-- ===== src/Orchestrator/FirstWarning.antt =====
-- services/api/app/scheduler/schedule_orchestrator_helpers.py: any sequence of calls of `add_warning`.
use auto_scheduling_system.Prelude.{
  Bool, List, [], ◌∷◌, ◌++◌, if◌then◌else◌, Text, codes, member, ◌≡◌, ◌∙◌, ◌||◌, Option, ap, sym,
  subst, text_eq→≡, text_eq_refl, true_is_not_false, where_true-append, refl, inl, inr, Bool-cases,
  true, false, none, some, text_eq, where_true, first_where,
}
use auto_scheduling_system.Orchestrator.Warnings.{
  ValidationItem, build_validation_item, add_warning,
}

-- A call of `add_warning`.
pub record Warning : Type 0 where
  pub code : Text
  pub label : Text
  pub message : Text

abbrev pub item_of : Warning → ValidationItem
item_of warning = build_validation_item warning.code warning.label warning.message (codes "warning")

-- The state after some calls, one after the other.
abbrev pub add_warnings :
    List Warning → List Text × List ValidationItem → List Text × List ValidationItem
add_warnings [] state = state
add_warnings (warning ∷ warnings) state =
    add_warnings warnings (add_warning warning.code warning.label warning.message state)

abbrev pub shown : Option Warning → List ValidationItem
shown none = []
shown (some warning) = item_of warning ∷ []

-- What is shown of a code: the first call of it, once.
abbrev pub first_of : Text → List Warning → List ValidationItem
first_of key warnings = shown (first_where (λ (w : Warning). text_eq w.code key) warnings)

abbrev pub items_of : Text → List ValidationItem → List ValidationItem
items_of key items = where_true (λ (item : ValidationItem). text_eq item.code key) items

-- One call, by whether its code was seen.
add_warning-again :
    (warning : Warning) (seen_codes : List Text) (items : List ValidationItem)
    → member warning.code seen_codes ≡ true
    → add_warning warning.code warning.label warning.message (seen_codes, items)
      ≡ (seen_codes, items)
unfolding add_warning
add_warning-again warning seen_codes items again = rw again refl

add_warning-new :
    (warning : Warning) (seen_codes : List Text) (items : List ValidationItem)
    → member warning.code seen_codes ≡ false
    → add_warning warning.code warning.label warning.message (seen_codes, items)
      ≡ (warning.code ∷ seen_codes, items ++ item_of warning ∷ [])
unfolding add_warning build_validation_item
add_warning-new warning seen_codes items new = rw new refl

first_of-here :
    (key : Text) (warning : Warning) (warnings : List Warning)
    → text_eq warning.code key ≡ true
    → first_of key (warning ∷ warnings) ≡ item_of warning ∷ []
first_of-here key warning warnings same = ap shown {y = some warning} (rw same refl)

first_of-later :
    (key : Text) (warning : Warning) (warnings : List Warning)
    → text_eq warning.code key ≡ false
    → first_of key (warning ∷ warnings) ≡ first_of key warnings
first_of-later key warning warnings other = ap shown (rw other refl)

append_nil : (items : List ValidationItem) → items ++ [] ≡ items
append_nil [] = refl
append_nil (item ∷ items) = ap (λ rest. item ∷ rest) (append_nil items)

items_of-append :
    (key : Text) (items : List ValidationItem) (warning : Warning)
    → items_of key (items ++ item_of warning ∷ [])
      ≡ items_of key items ++ (if text_eq warning.code key then item_of warning ∷ [] else [])
unfolding build_validation_item
items_of-append key items warning =
    where_true-append (λ (item : ValidationItem). text_eq item.code key) items
      (item_of warning ∷ [])

or_right : (a : Bool) {b : Bool} → b ≡ true → (a || b) ≡ true
or_right true h = refl
or_right false h = h

module _ (key code : Text) (seen_codes : List Text) where
  member-later : member key seen_codes ≡ true → member key (code ∷ seen_codes) ≡ true
  unfolding member
  member-later seen = or_right (text_eq key code) seen

  member-here : text_eq code key ≡ true → member key (code ∷ seen_codes) ≡ true
  unfolding member
  member-here same = rw (text_eq→≡ code key same, text_eq_refl key) refl

  member-other :
      text_eq code key ≡ false
      → member key seen_codes ≡ false
      → member key (code ∷ seen_codes) ≡ false
  unfolding member
  member-other other unseen = elim (Bool-cases (text_eq key code)) [
    | inl e ↦ true_is_not_false other (rw (text_eq→≡ key code e) (text_eq_refl code))
    | inr e ↦ rw (e, unseen) refl
  ]

  -- A code that is not among those seen is another than one that is.
  member-differs :
      member key seen_codes ≡ true → member code seen_codes ≡ false → text_eq code key ≡ false
  member-differs seen new = elim (Bool-cases (text_eq code key)) [
    | inl e ↦
        true_is_not_false (subst (λ c. member c seen_codes ≡ false) (text_eq→≡ code key e) new) seen
    | inr e ↦ e
  ]

module _ (key : Text) where
  add_warnings-seen :
      (warnings : List Warning) (seen_codes : List Text) (items : List ValidationItem)
      → member key seen_codes ≡ true
      → items_of key (add_warnings warnings (seen_codes, items)).1 ≡ items_of key items
  add_warnings-seen [] seen_codes items seen = refl
  add_warnings-seen (warning ∷ warnings) seen_codes items seen =
      elim (Bool-cases (member warning.code seen_codes)) [
        | inl again ↦
            ap (λ state. items_of key (add_warnings warnings state).1)
              (add_warning-again warning seen_codes items again)
            ∙ add_warnings-seen warnings seen_codes items seen
        | inr new ↦
            ap (λ state. items_of key (add_warnings warnings state).1)
              (add_warning-new warning seen_codes items new)
            ∙ add_warnings-seen warnings (warning.code ∷ seen_codes) (items ++ item_of warning ∷ [])
                (member-later key warning.code seen_codes seen)
            ∙ items_of-append key items warning
            ∙ rw (member-differs key warning.code seen_codes seen new)
                (append_nil (items_of key items))
      ]

  add_warnings-unseen :
      (warnings : List Warning) (seen_codes : List Text) (items : List ValidationItem)
      → member key seen_codes ≡ false
      → items_of key items ≡ []
      → items_of key (add_warnings warnings (seen_codes, items)).1 ≡ first_of key warnings
  add_warnings-unseen [] seen_codes items unseen none_of = none_of
  add_warnings-unseen (warning ∷ warnings) seen_codes items unseen none_of =
      elim (Bool-cases (text_eq warning.code key)) [
        | inl same ↦
            ap (λ state. items_of key (add_warnings warnings state).1)
              (add_warning-new warning seen_codes items (
                subst (λ c. member c seen_codes ≡ false) (sym (text_eq→≡ warning.code key same))
                  unseen))
            ∙ add_warnings-seen warnings (warning.code ∷ seen_codes) (items ++ item_of warning ∷ [])
                (member-here key warning.code seen_codes same)
            ∙ items_of-append key items warning
            ∙ rw (none_of, same) refl
            ∙ sym (first_of-here key warning warnings same)
        | inr other ↦ elim (Bool-cases (member warning.code seen_codes)) [
          | inl again ↦
              ap (λ state. items_of key (add_warnings warnings state).1)
                (add_warning-again warning seen_codes items again)
              ∙ add_warnings-unseen warnings seen_codes items unseen none_of
              ∙ sym (first_of-later key warning warnings other)
          | inr new ↦
              ap (λ state. items_of key (add_warnings warnings state).1)
                (add_warning-new warning seen_codes items new)
              ∙ add_warnings-unseen warnings (warning.code ∷ seen_codes)
                  (items ++ item_of warning ∷ [])
                  (member-other key warning.code seen_codes other unseen)
                  (items_of-append key items warning ∙ rw (none_of, other) refl)
              ∙ sym (first_of-later key warning warnings other)
        ]
      ]

-- Whatever warnings are added one after the other, of each code the items have the first one, once.
pub add_warnings-first :
    (key : Text) (warnings : List Warning)
    → where_true
        (λ (item : ValidationItem). text_eq item.code key)
        (add_warnings warnings ([], [])).1
      ≡ first_of key warnings
unfolding member
add_warnings-first key warnings = add_warnings-unseen key warnings [] [] refl refl
