-- ===== src/Prelude/Result.antt =====
-- A call's result: the value, or Python's exception.
use mathlib.Core.Path.{◌≡◌, refl}

pub data Exception : Type 0 where
  overflow_error value_error type_error key_error multiple_results_found : Exception

pub data Result {ℓ} (A : Type ℓ) : Type ℓ where
  err : Exception → Result A
  ok : A → Result A

-- What follows a call that may raise.
infixl 5 ◌>>=◌
abbrev pub ◌>>=◌ {ℓ κ} : {B : Type κ} {A : Type ℓ} → Result A → (A → Result B) → Result B
call >>= continue = elim call [ ok value ↦ continue value | err raised ↦ err raised ]

-- A chain that returns had a first call that returned.
pub returns_first {ℓ κ} :
    {B : Type κ} {A : Type ℓ} (call : Result A) (continue : A → Result B) (b : B)
    → (call >>= continue) ≡ ok b
    → (value : A) × (call ≡ ok value) × (continue value ≡ ok b)
returns_first (err raised) continue b h = cc
returns_first (ok value) continue b h = (value, refl, h)
