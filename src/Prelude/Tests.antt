-- ===== src/Prelude/Tests.antt =====
-- Go's comparisons: `==` for every type whose equality can be decided, and the tests on numbers.
use Prim.Native.Nat.{ℕ, compare, Ordering}
use Prim.Native.String.{String}
use mathlib.Core.Path.{◌≡◌, refl, ap}
use mathlib.Core.Logic.{◌≢◌, ite, dite, ◌⊎◌, inl, inr}
use mathlib.Core.Bool.{Bool, true, false, cond, ◌||◌, Bool-discrete}
use mathlib.Core.Option.{Option, none, some, none-ne-some, some-ne-none, some-injective}
use mathlib.Core.List.{List, [], ◌∷◌}
use native.Mathlib.Omega.{arith}
use text.Mathlib.Text
use text.Mathlib.TextEquality.{eq_iff}

infix 1 if◌then◌else◌
abbrev pub if◌then◌else◌ {ℓ} : {A : Type ℓ} → Bool → A → A → A
if b then x else y = cond b x y

abbrev pub ltb : ℕ → ℕ → Bool
ltb a b = elim (compare a b) [ Ordering.lt ↦ true | _ ↦ false ]

abbrev pub leb : ℕ → ℕ → Bool
leb a b = elim (compare a b) [ Ordering.gt ↦ false | _ ↦ true ]

-- Equality of numbers.
abbrev pub eqb : ℕ → ℕ → Bool
eqb a b = elim (compare a b) [ Ordering.eq ↦ true | _ ↦ false ]

pub record Eq {ℓ} (A : Type ℓ) : Type ℓ where
  pub dec : Discrete A

module _ {ℓ} {A : Type ℓ} ⦃e : Eq A⦄ where
  infix 50 ◌==◌
  abbrev pub ◌==◌ : A → A → Bool
  a == b = ite (e.dec a b) true false

  pub ==_refl : (a : A) → (a == a) ≡ true
  ==_refl a = ground arith

  pub eq_of_== : (a b : A) → (a == b) ≡ true → a ≡ b
  eq_of_== a b h = ground arith

  pub ==_of_ne : (a b : A) → a ≢ b → (a == b) ≡ false
  ==_of_ne a b h = ground arith

  -- util.Contains
  abbrev pub contains : List A → A → Bool
  contains [] a = false
  contains (x ∷ xs) a = x == a || contains xs a

  option_dec : Discrete (Option A)
  option_dec none none = yes refl
  option_dec none (some b) = no (none-ne-some b)
  option_dec (some a) none = no (some-ne-none a)
  option_dec (some a) (some b) =
      dite (e.dec a b) (λ p. yes (ap some p)) (λ n. no (λ p. n (some-injective a b p)))

  instance unfoldable pub option_eq : Eq (Option A)
  unfolding option_dec
  option_eq = record { dec = option_dec }

-- Shut in proofs, where a split on `s == t` yields the equation or its negation.
instance unfoldable pub string_eq : Eq String
string_eq = record {
  dec = λ s t.
      dite (Bool-discrete (Text.◌==◌ s t) true) (λ same. yes ((eq_iff s t).0 same))
        (λ differ. no (λ p. differ ((eq_iff s t).1 p)));
}

-- To split on a computed value and keep the equation.
pub Bool-cases : (b : Bool) → (b ≡ true) ⊎ (b ≡ false)
Bool-cases true = inl refl
Bool-cases false = inr refl

pub Option-cases {ℓ} : {A : Type ℓ} (o : Option A) → (o ≡ none) ⊎ ((a : A) × (o ≡ some a))
Option-cases none = inl refl
Option-cases (some a) = inr (a, refl)
