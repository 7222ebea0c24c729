-- ===== src/Prelude/Items.antt =====
-- A predicate at every item of a list, and how the list operations keep it.
use mathlib.Core.Path.{◌≡◌, refl, ap}
use mathlib.Core.Logic.{inl, inr}
use mathlib.Core.Bool.{Bool, true, false}
use mathlib.Core.Option.{Option, none, some}
use mathlib.Core.List.{List, [], ◌∷◌, ◌++◌, map}
use Prim.Native.Nat.{ℕ, zero, suc}
use auto_scheduling_system.Prelude.Tests.{if◌then◌else◌, Bool-cases}
use auto_scheduling_system.Prelude.Lists.{take}

abbrev pub All {ℓ κ} : {A : Type ℓ} → (A → Type κ) → List A → Type κ
All P [] = Unit
All P (x ∷ xs) = P x × All P xs

-- `[x for x in xs if test(x)]`, and the condition of an SQL `where`.
abbrev pub where_true {ℓ} : {A : Type ℓ} → (A → Bool) → List A → List A
where_true p [] = []
where_true p (x ∷ xs) = if p x then x ∷ where_true p xs else where_true p xs

-- The first item that passes, as `session.get` and `next` look one up.
abbrev pub first_where {ℓ} : {A : Type ℓ} → (A → Bool) → List A → Option A
first_where p [] = none
first_where p (x ∷ xs) = if p x then some x else first_where p xs

-- `any(test(x) for x in xs)`
abbrev pub any_where {ℓ} : {A : Type ℓ} → (A → Bool) → List A → Bool
any_where p [] = false
any_where p (x ∷ xs) = if p x then true else any_where p xs

module _ {ℓ κ} {A : Type ℓ} (P : A → Type κ) where
  pub All-append : (xs ys : List A) → All P xs → All P ys → All P (xs ++ ys)
  All-append [] ys hx hy = hy
  All-append (x ∷ xs) ys hx hy = (hx.0, All-append xs ys hx.1 hy)

  pub All-append_left : (xs ys : List A) → All P (xs ++ ys) → All P xs
  All-append_left [] ys h = tt
  All-append_left (x ∷ xs) ys h = (h.0, All-append_left xs ys h.1)

  pub All-append_right : (xs ys : List A) → All P (xs ++ ys) → All P ys
  All-append_right [] ys h = h
  All-append_right (x ∷ xs) ys h = All-append_right xs ys h.1

  pub All-take : (n : ℕ) (xs : List A) → All P xs → All P (take n xs)
  All-take zero xs h = tt
  All-take (suc n) [] h = tt
  All-take (suc n) (x ∷ xs) h = (h.0, All-take n xs h.1)

  pub All-where : (p : A → Bool) (xs : List A) → All P xs → All P (where_true p xs)
  All-where p [] h = tt
  All-where p (x ∷ xs) h = elim (Bool-cases (p x)) [
    | inl e ↦ rw e (h.0, All-where p xs h.1)
    | inr e ↦ rw e (All-where p xs h.1)
  ]

  pub All-first_where :
      (p : A → Bool) (xs : List A) {x : A}
      → All P xs
      → first_where p xs ≡ some x
      → P x × (p x ≡ true)
  All-first_where p [] h e = cc
  All-first_where p (y ∷ ys) {x} h e = elim (Bool-cases (p y)) [
    | inl t ↦ let same : y ≡ x = cc (rw t at e) in rw (← same) (h.0, t)
    | inr t ↦ All-first_where p ys h.1 (rw t at e)
  ]

module _ {ℓ κ} {A : Type ℓ} (P : A → Type κ) where
  pub All-where_true :
      (p : A → Bool) (xs : List A) → ((x : A) → p x ≡ true → P x) → All P (where_true p xs)
  All-where_true p [] t = tt
  All-where_true p (x ∷ xs) t = elim (Bool-cases (p x)) [
    | inl e ↦ rw e (t x e, All-where_true p xs t)
    | inr e ↦ rw e (All-where_true p xs t)
  ]

pub All-imp {ℓ κ μ} :
    {A : Type ℓ} {P : A → Type κ} {Q : A → Type μ} (xs : List A)
    → ((x : A) → P x → Q x)
    → All P xs
    → All Q xs
All-imp [] f h = tt
All-imp (x ∷ xs) f h = (f x h.0, All-imp xs f h.1)

module _ {ℓ κ μ} {A : Type ℓ} (P : A → Type κ) (Q : A → Type μ) where
  -- Two facts about every item.
  pub All-both : (xs : List A) → All P xs → All Q xs → All (λ x. P x × Q x) xs
  All-both [] p q = tt
  All-both (x ∷ xs) p q = ((p.0, q.0), All-both xs p.1 q.1)

-- A change of every item.
pub All-map {ℓ κ μ ν} :
    {A : Type ℓ} {B : Type ν} (P : A → Type κ) (Q : B → Type μ) (f : A → B) (xs : List A)
    → ((x : A) → P x → Q (f x))
    → All P xs
    → All Q (map f xs)
All-map P Q f [] keep h = tt
All-map P Q f (x ∷ xs) keep h = (keep x h.0, All-map P Q f xs keep h.1)

-- What passes a test has the property too.
pub All-where_both {ℓ κ} :
    {A : Type ℓ} (P : A → Type κ) (p : A → Bool) (xs : List A)
    → All P xs
    → All (λ x. P x × (p x ≡ true)) (where_true p xs)
All-where_both P p [] h = tt
All-where_both P p (x ∷ xs) h = elim (Bool-cases (p x)) [
  | inl e ↦ rw e ((h.0, e), All-where_both P p xs h.1)
  | inr e ↦ rw e (All-where_both P p xs h.1)
]

pub All-always {ℓ κ} : {A : Type ℓ} (P : A → Type κ) (xs : List A) → ((x : A) → P x) → All P xs
All-always P [] h = tt
All-always P (x ∷ xs) h = (h x, All-always P xs h)

module _ {ℓ} {A : Type ℓ} (p : A → Bool) where
  pub where_true-append :
      (xs ys : List A) → where_true p (xs ++ ys) ≡ where_true p xs ++ where_true p ys
  where_true-append [] ys = refl
  where_true-append (x ∷ xs) ys = elim (Bool-cases (p x)) [
    | inl e ↦ rw e (ap (λ l. x ∷ l) (where_true-append xs ys))
    | inr e ↦ rw e (where_true-append xs ys)
  ]

-- A row that passes a test is among those that a condition of its keeps.
pub any_where-where_true {ℓ} :
    {A : Type ℓ} (test keep : A → Bool) (xs : List A) {x : A}
    → first_where test xs ≡ some x
    → keep x ≡ true
    → any_where test (where_true keep xs) ≡ true
any_where-where_true test keep [] e k = cc
any_where-where_true test keep (y ∷ xs) {x} e k = elim (Bool-cases (test y)) [
  | inl t ↦
      let same : y ≡ x = cc (rw t at e) in let kept : keep y ≡ true = rw same k in rw kept (rw t)
  | inr t ↦ elim (Bool-cases (keep y)) [
    | inl d ↦ rw d (rw t (any_where-where_true test keep xs (rw t at e) k))
    | inr d ↦ rw d (any_where-where_true test keep xs (rw t at e) k)
  ]
]
