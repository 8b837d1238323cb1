-- ===== src/Prelude/Results.antt =====
-- How a call of the program ends: with a value, with `Err(message)`, or in a panic, which ends the
-- process. The text of a panic is not modelled.
use mathlib.Core.Path.{◌≡◌, refl, ap}
use mathlib.Core.Option.{Option, none, some}
use mw_btc_swap.Prelude.Strings.{Text}

pub data Outcome {ℓ} (A : Type ℓ) : Type ℓ where
  ok : A → Outcome A
  err : Text → Outcome A
  panic : Outcome A

module _ {ℓ κ} {A : Type ℓ} {B : Type κ} where
  -- The rest of the function, unless the call has returned or panicked (`?`).
  infixl 5 ◌>>=◌
  abbrev pub ◌>>=◌ : Outcome A → (A → Outcome B) → Outcome B
  ok value >>= next = next value
  err message >>= next = err message
  panic >>= next = panic

-- `Result::unwrap`, `Result::expect`.
abbrev pub unwrap {ℓ} : {A : Type ℓ} → Outcome A → Outcome A
unwrap (ok a) = ok a
unwrap (err e) = panic
unwrap panic = panic

-- `Result::unwrap_or`.
abbrev pub unwrap_or {ℓ} : {A : Type ℓ} → Outcome A → A → Outcome A
unwrap_or (ok a) d = ok a
unwrap_or (err e) d = ok d
unwrap_or panic d = panic

-- `Option::unwrap`, `Option::expect`.
abbrev pub unwrap_option {ℓ} : {A : Type ℓ} → Option A → Outcome A
unwrap_option (some a) = ok a
unwrap_option none = panic

module _ {ℓ κ} {A : Type ℓ} {B : Type κ} where
  -- Where the whole returns, the call has returned, and the rest returns from its value.
  pub >>=-returns :
      (call : Outcome A) (next : A → Outcome B) {result : B}
      → (call >>= next) ≡ ok result
      → (value : A) × (call ≡ ok value) × (next value ≡ ok result)
  >>=-returns (ok value) next run = (value, refl, run)
  >>=-returns (err message) next run = cc
  >>=-returns panic next run = cc

pub ok_injective {ℓ} : {A : Type ℓ} {a b : A} → ok a ≡ ok b → a ≡ b
ok_injective h = cc

pub some_of {ℓ} : {A : Type ℓ} (o : Option A) {a : A} → unwrap_option o ≡ ok a → o ≡ some a
some_of (some b) h = ap some (ok_injective h)
some_of none h = cc

pub some_injective {ℓ} : {A : Type ℓ} {a b : A} → some a ≡ some b → a ≡ b
some_injective h = cc
