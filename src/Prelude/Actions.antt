-- ===== src/Prelude/Actions.antt =====
-- Code that changes a state and may end in `Err` or a panic. What was written before stays written.
use mathlib.Core.Path.{◌≡◌, refl, ap}
use mathlib.Core.Bool.{Bool, true, false}
use mw_btc_swap.Prelude.Tests.{if◌then◌else◌}
use mw_btc_swap.Prelude.Results.{Outcome, ok, err, panic, unwrap, unwrap_option}
use mathlib.Core.Option.{Option, none, some}
use mw_btc_swap.Prelude.Strings.{Text}

abbrev pub Action {ℓ} : Type ℓ → Type ℓ → Type ℓ
Action S A = S → Outcome A × S

module _ {ℓ} {S A : Type ℓ} where
  abbrev pub pure : A → Action S A
  pure value now = (ok value, now)

  -- `Err(message)`
  abbrev pub fail : Text → Action S A
  fail message now = (err message, now)

  abbrev pub gets : (S → A) → Action S A
  gets part now = (ok (part now), now)

  -- A result that does not depend on the state.
  abbrev pub lift : Outcome A → Action S A
  lift result now = (result, now)

  -- A call whose result is used at once: `m.unwrap()`, `m.unwrap_or(d)`.
  abbrev pub after : (Outcome A → Outcome A) → Action S A → Action S A
  after use_result call now = let (result, later) = call now in (use_result result, later)

abbrev pub modify : {S : Type 0} → (S → S) → Action S Unit
modify change now = (ok tt, change now)

module _ {ℓ} {S A B : Type ℓ} where
  abbrev pub continue : Outcome A → (A → Action S B) → Action S B
  continue panic next now = (panic, now)
  continue (err message) next now = (err message, now)
  continue (ok value) next now = next value now

  infixl 5 ◌>>=◌ ◌>>◌
  abbrev pub ◌>>=◌ : Action S A → (A → Action S B) → Action S B
  ◌>>=◌ call next now = let (result, later) = call now in continue result next later

  abbrev pub ◌>>◌ : Action S A → Action S B → Action S B
  call >> rest = call >>= λ done. rest

-- A sequence that succeeds: its first part does, and its second part does from there.
pub >>=-ok {ℓ} :
    {S A B : Type ℓ} (m : Action S A) (f : A → Action S B) {s t : S} {b : B}
    → (m >>= f) s ≡ (ok b, t)
    → (a : A) × (s' : S) × (m s ≡ (ok a, s')) × (f a s' ≡ (ok b, t))
>>=-ok {S = S} {A} m f {s} {t} {b} run = go (m s) refl run
  where
    go :
        (r : Outcome A × S)
        → m s ≡ r
        → continue r.0 f r.1 ≡ (ok b, t)
        → (a : A) × (s' : S) × (m s ≡ (ok a, s')) × (f a s' ≡ (ok b, t))
    go (ok a, s') eq h = (a, s', eq, h)
    go (err e, s') eq h = cc
    go (panic, s') eq h = cc

pub lift-ok {ℓ} :
    {S A : Type ℓ} (r : Outcome A) {s t : S} {a : A} → lift r s ≡ (ok a, t) → (r ≡ ok a) × (s ≡ t)
lift-ok r h = (ap (λ x. x.0) h, ap (λ x. x.1) h)

pub after-unwrap-ok {ℓ} :
    {S A : Type ℓ} (m : Action S A) {s t : S} {a : A}
    → after unwrap m s ≡ (ok a, t)
    → m s ≡ (ok a, t)
after-unwrap-ok {S = S} {A} m {s} {t} {a} h = go (m s) h
  where
    go : (r : Outcome A × S) → ◌≡◌ {A = Outcome A × S} (unwrap r.0, r.1) (ok a, t) → r ≡ (ok a, t)
    go (ok a', s') h = h
    go (err e, s') h = cc
    go (panic, s') h = cc

-- A sequence whose first part is known to succeed goes on with the second.
pub >>=-step {ℓ} :
    {S A B : Type ℓ} (m : Action S A) (f : A → Action S B) {s s' : S} {a : A}
    → m s ≡ (ok a, s')
    → (m >>= f) s ≡ f a s'
>>=-step m f eq = ap (λ r. continue r.0 f r.1) eq

pub after-unwrap-step {ℓ} :
    {S A : Type ℓ} (m : Action S A) {s t : S} {a : A}
    → m s ≡ (ok a, t)
    → after unwrap m s ≡ (ok a, t)
after-unwrap-step m eq = ap (λ r. (unwrap r.0, r.1)) eq

-- The same where the first part does not change the state.
pub lift->>=-ok {ℓ} :
    {S A B : Type ℓ} (r : Outcome A) (f : A → Action S B) {s t : S} {b : B}
    → (lift r >>= f) s ≡ (ok b, t)
    → (a : A) × (r ≡ ok a) × (f a s ≡ (ok b, t))
lift->>=-ok (ok a) f run = (a, refl, run)
lift->>=-ok (err e) f run = cc
lift->>=-ok panic f run = cc

pub need->>=-ok {ℓ} :
    {S A B : Type ℓ} (o : Option A) (f : A → Action S B) {s t : S} {b : B}
    → (lift (unwrap_option o) >>= f) s ≡ (ok b, t)
    → (a : A) × (o ≡ some a) × (f a s ≡ (ok b, t))
need->>=-ok (some a) f run = (a, refl, run)
need->>=-ok none f run = cc

pub need->>=-step {ℓ} :
    {S A B : Type ℓ} (o : Option A) (f : A → Action S B) {s : S} {a : A}
    → o ≡ some a
    → (lift (unwrap_option o) >>= f) s ≡ f a s
need->>=-step o f {s} eq = ap (λ x. (lift (unwrap_option x) >>= f) s) eq

-- The branch that a false test takes.
pub otherwise {ℓ} :
    {S A : Type ℓ} (test : Bool) (first second : Action S A) {now : S}
    → test ≡ false
    → (if test then first else second) now ≡ second now
otherwise test first second {now} off = ap (λ b. (if b then first else second) now) off

-- A function that returns has passed a guard that would have ended it in `Err`.
pub guard-ok {ℓ} :
    {S A : Type ℓ} (test : Bool) (message : Text) (m : Action S A) {s t : S} {a : A}
    → (if test then fail message else m) s ≡ (ok a, t)
    → (test ≡ false) × (m s ≡ (ok a, t))
guard-ok true message m run = cc
guard-ok false message m run = (refl, run)

-- A test that ends in `true` or in an error.
pub guarded {ℓ} :
    {S A : Type ℓ} (test : Bool) (m : Action S A) (message : Text) {s t : S} {a : A}
    → (if test then m else fail message) s ≡ (ok a, t)
    → (test ≡ true) × (m s ≡ (ok a, t))
guarded true m message run = (refl, run)
guarded false m message run = cc
