-- ===== src/Prelude/Dict.antt =====
-- A dict with texts as keys: the list of its items, in the order of their insertion.
use mathlib.Core.Path.{◌≡◌, refl}
use mathlib.Core.Logic.{inl, inr}
use mathlib.Core.Bool.{Bool, true, false}
use mathlib.Core.Option.{Option, none, some}
use mathlib.Core.List.{List, [], ◌∷◌, ◌++◌}
use auto_scheduling_system.Prelude.Tests.{if◌then◌else◌, Bool-cases, true_is_not_false}
use auto_scheduling_system.Prelude.Texts.{Text, text_eq, text_eq→≡}

unfoldable pub dict_get {ℓ} : {A : Type ℓ} → Text → List (Text × A) → Option A
unfolding text_eq
dict_get key [] = none
dict_get key ((k, v) ∷ items) = if text_eq key k then some v else dict_get key items

abbrev pub has_key {ℓ} : {A : Type ℓ} → Text → List (Text × A) → Bool
has_key key items = elim (dict_get key items) [ none ↦ false | some _ ↦ true ]

-- `items[key] = value`
unfoldable pub dict_set {ℓ} : {A : Type ℓ} → Text → A → List (Text × A) → List (Text × A)
unfolding text_eq
dict_set key value [] = (key, value) ∷ []
dict_set key value ((k, v) ∷ items) =
    if text_eq key k then (k, value) ∷ items else (k, v) ∷ dict_set key value items

-- `items.setdefault(key, []).append(value)`
unfoldable pub dict_append {ℓ} :
    {A : Type ℓ} → Text → A → List (Text × List A) → List (Text × List A)
unfolding text_eq
dict_append key value [] = (key, value ∷ []) ∷ []
dict_append key value ((k, vs) ∷ items) =
    if text_eq key k then (k, vs ++ value ∷ []) ∷ items else (k, vs) ∷ dict_append key value items

-- The first value that there is.
abbrev pub or_else {ℓ} : {A : Type ℓ} → Option A → Option A → Option A
or_else none b = b
or_else (some a) b = some a

pub or_else-none {ℓ} : {A : Type ℓ} (o : Option A) → or_else o none ≡ o
or_else-none none = refl
or_else-none (some a) = refl

pub or_else_assoc {ℓ} :
    {A : Type ℓ} (a b c : Option A) → or_else (or_else a b) c ≡ or_else a (or_else b c)
or_else_assoc none b c = refl
or_else_assoc (some a) b c = refl

pub dict_get-append {ℓ} :
    {A : Type ℓ} (key : Text) (xs ys : List (Text × A))
    → dict_get key (xs ++ ys) ≡ or_else (dict_get key xs) (dict_get key ys)
unfolding dict_get
dict_get-append key [] ys = refl
dict_get-append key ((k, v) ∷ xs) ys = elim (Bool-cases (text_eq key k)) [
  | inl e ↦ rw e refl
  | inr e ↦ rw e (dict_get-append key xs ys)
]

pub dict_get-dict_set {ℓ} :
    {A : Type ℓ} (key k : Text) (v : A) (items : List (Text × A))
    → dict_get key (dict_set k v items) ≡ (if text_eq key k then some v else dict_get key items)
unfolding dict_get dict_set
dict_get-dict_set key k v [] = refl
dict_get-dict_set key k v ((j, w) ∷ items) = elim (Bool-cases (text_eq k j)) [
  | inl same ↦ elim (Bool-cases (text_eq key j)) [
    | inl e ↦ rw (same, e, text_eq→≡ k j same, e) refl
    | inr e ↦ rw (same, e, text_eq→≡ k j same, e) refl
  ]
  | inr other ↦ elim (Bool-cases (text_eq key j)) [
    | inl e ↦ elim (Bool-cases (text_eq key k)) [
      | inl f ↦ true_is_not_false other (rw (← text_eq→≡ key k f) e)
      | inr f ↦ rw (other, e, f) refl
    ]
    | inr e ↦ rw (other, e, dict_get-dict_set key k v items) refl
  ]
]
