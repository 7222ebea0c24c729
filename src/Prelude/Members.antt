-- ===== src/Prelude/Members.antt =====
-- The items of a list, one by one, and how the list operations keep them.
use mathlib.Core.Path.{◌≡◌, refl, sym, ap, ◌∙◌, subst}
use mathlib.Core.Logic.{inl, inr}
use mathlib.Core.Bool.{Bool, true}
use mathlib.Core.List.{List, [], ◌∷◌, map, Memᴰ}
use auto_scheduling_system.Prelude.Tests.{Bool-cases}
use auto_scheduling_system.Prelude.Items.{All, All-imp, where_true}
use auto_scheduling_system.Prelude.Sort.{insert_by, sort_by}

module _ {ℓ} {A : Type ℓ} where
  pub Memᴰ-insert_by :
      (le : A → A → Bool) (x : A) (ys : List A) {a : A}
      → Memᴰ a (x ∷ ys)
      → Memᴰ a (insert_by le x ys)
  unfolding insert_by
  Memᴰ-insert_by le x [] m = m
  Memᴰ-insert_by le x (y ∷ ys) (Memᴰ.head e) = elim (Bool-cases (le x y)) [
    | inl h ↦ rw h (Memᴰ.head e)
    | inr h ↦ rw h (Memᴰ.tail (Memᴰ-insert_by le x ys (Memᴰ.head e)))
  ]
  Memᴰ-insert_by le x (y ∷ ys) (Memᴰ.tail (Memᴰ.head e)) = elim (Bool-cases (le x y)) [
    | inl h ↦ rw h (Memᴰ.tail (Memᴰ.head e))
    | inr h ↦ rw h (Memᴰ.head e)
  ]
  Memᴰ-insert_by le x (y ∷ ys) (Memᴰ.tail (Memᴰ.tail m)) = elim (Bool-cases (le x y)) [
    | inl h ↦ rw h (Memᴰ.tail (Memᴰ.tail m))
    | inr h ↦ rw h (Memᴰ.tail (Memᴰ-insert_by le x ys (Memᴰ.tail m)))
  ]

  pub Memᴰ-sort_by : (le : A → A → Bool) (xs : List A) {a : A} → Memᴰ a xs → Memᴰ a (sort_by le xs)
  unfolding sort_by
  Memᴰ-sort_by le [] m = elim m [ ]
  Memᴰ-sort_by le (x ∷ xs) (Memᴰ.head e) = Memᴰ-insert_by le x (sort_by le xs) (Memᴰ.head e)
  Memᴰ-sort_by le (x ∷ xs) (Memᴰ.tail m) =
      Memᴰ-insert_by le x (sort_by le xs) (Memᴰ.tail (Memᴰ-sort_by le xs m))

  pub Memᴰ-where_true :
      (test : A → Bool) (xs : List A) {a : A}
      → Memᴰ a xs
      → test a ≡ true
      → Memᴰ a (where_true test xs)
  Memᴰ-where_true test [] m t = elim m [ ]
  Memᴰ-where_true test (x ∷ xs) (Memᴰ.head e) t = rw (ap test (sym e) ∙ t) (Memᴰ.head e)
  Memᴰ-where_true test (x ∷ xs) (Memᴰ.tail m) t = elim (Bool-cases (test x)) [
    | inl e ↦ rw e (Memᴰ.tail (Memᴰ-where_true test xs m t))
    | inr e ↦ rw e (Memᴰ-where_true test xs m t)
  ]

  pub All-self : (xs : List A) → All (λ x. Memᴰ x xs) xs
  All-self [] = tt
  All-self (x ∷ xs) = (Memᴰ.head refl, All-imp xs (λ y m. Memᴰ.tail m) (All-self xs))

  pub All-Memᴰ {κ} : (P : A → Type κ) (xs : List A) {x : A} → All P xs → Memᴰ x xs → P x
  All-Memᴰ P [] h m = elim m [ ]
  All-Memᴰ P (y ∷ ys) h (Memᴰ.head e) = subst P (sym e) h.0
  All-Memᴰ P (y ∷ ys) h (Memᴰ.tail m) = All-Memᴰ P ys h.1 m

  pub All-from {κ} : (P : A → Type κ) (xs : List A) → ((x : A) → Memᴰ x xs → P x) → All P xs
  All-from P [] f = tt
  All-from P (x ∷ xs) f = (f x (Memᴰ.head refl), All-from P xs (λ y m. f y (Memᴰ.tail m)))

  pub Memᴰ-map {κ} :
      {B : Type κ} (f : A → B) (xs : List A) {x : A} → Memᴰ x xs → Memᴰ (f x) (map f xs)
  Memᴰ-map f [] m = elim m [ ]
  Memᴰ-map f (y ∷ ys) (Memᴰ.head e) = Memᴰ.head (ap f e)
  Memᴰ-map f (y ∷ ys) (Memᴰ.tail m) = Memᴰ.tail (Memᴰ-map f ys m)
