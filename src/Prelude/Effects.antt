-- ===== src/Prelude/Effects.antt =====
-- Go's results. A call that talks to the outside world takes the state of that world and gives it
-- back beside its outcome: what was written before an error stays written. A nil dereference is
-- the outcome `panic`.
use Prim.Native.String.{String}
use mathlib.Core.Path.{◌≡◌, refl}
use mathlib.Core.Bool.{Bool, true, false}
use mathlib.Core.Option.{Option, none, some}
use mathlib.Core.Path.{◌≡◌, refl}
use mathlib.Core.Bool.{Bool, true, false}

-- `errors.New` and the errors of other packages, and `errors.Wrap` around one.
pub data Error : Type 0 where
  message : String → Error
  wrapped : String → Error → Error

-- `errors.Cause`
abbrev pub cause : Error → Error
cause (message m) = message m
cause (wrapped m e) = cause e

pub data Outcome {ℓ} (A : Type ℓ) : Type ℓ where
  ok : A → Outcome A
  err : Error → Outcome A
  panic : Outcome A

-- The result of a function that returns only an error.
abbrev pub Done : Type 0
Done = Unit {0}

-- `err == nil`
abbrev pub is_ok {ℓ} : {A : Type ℓ} → Outcome A → Bool
is_ok (ok a) = true
is_ok (err e) = false
is_ok panic = false

-- The rest of a function after a call that may return an error.
abbrev pub and_then {ℓ κ} : {A : Type ℓ} {B : Type κ} → Outcome A → (A → Outcome B) → Outcome B
and_then (ok a) f = f a
and_then (err e) f = err e
and_then panic f = panic

-- `*p`
abbrev pub deref {ℓ} : {A : Type ℓ} → Option A → Outcome A
deref none = panic
deref (some a) = ok a

-- `return errors.Wrap(err, m)` when the call failed
abbrev pub rewrap {ℓ} : {A : Type ℓ} → String → Outcome A → Outcome A
rewrap m (ok a) = ok a
rewrap m (err e) = err (wrapped m e)
rewrap m panic = panic

abbrev pub Exec {ℓ} : Type ℓ → Type ℓ → Type ℓ
Exec S A = S → Outcome A × S

module _ {ℓ} {S A : Type ℓ} where
  abbrev pub pure : A → Exec S A
  pure a s = (ok a, s)

  abbrev pub raise : Error → Exec S A
  raise e s = (err e, s)

  abbrev pub crash : Exec S A
  crash s = (panic, s)

  abbrev pub wrap : String → Exec S A → Exec S A
  wrap m x s = let (r, s') = x s in (rewrap m r, s')

module _ {ℓ} {S A B : Type ℓ} where
  abbrev pub continue : Outcome A → (A → Exec S B) → Exec S B
  continue (ok a) f s = f a s
  continue (err e) f s = (err e, s)
  continue panic f s = (panic, s)

  infixl 5 ◌>>=◌ ◌>>◌
  abbrev pub ◌>>=◌ : Exec S A → (A → Exec S B) → Exec S B
  ◌>>=◌ m f s = let (r, s') = m s in continue r f s'

  abbrev pub ◌>>◌ : Exec S A → Exec S B → Exec S B
  m >> n = m >>= λ _. n

-- Inversion of a successful chain.
pub and_then-eq-ok {ℓ κ} :
    {A : Type ℓ} {B : Type κ} (m : Outcome A) (f : A → Outcome B) {b : B}
    → and_then m f ≡ ok b
    → (a : A) × (m ≡ ok a) × (f a ≡ ok b)
and_then-eq-ok (ok a) f e = (a, refl, e)
and_then-eq-ok (err x) f e = cc
and_then-eq-ok panic f e = cc

pub rewrap_ok : {A : Type 0} (m : String) (r : Outcome A) {a : A} → rewrap m r ≡ ok a → r ≡ ok a
rewrap_ok m (ok b) h = h
rewrap_ok m (err e) h = cc
rewrap_ok m panic h = cc
