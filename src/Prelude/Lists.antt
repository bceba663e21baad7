-- ===== src/Prelude/Lists.antt =====
-- Lists measured by native numbers, and the tests and searches that Go writes as loops.
use Prim.Native.Nat.{ℕ, suc, ◌+◌, ◌≤◌}
use mathlib.Core.Path.{◌≡◌, refl, ap}
use mathlib.Core.Bool.{Bool, true, false, ◌&&◌, ◌||◌}
use mathlib.Core.Option.{Option, none, some}
use mathlib.Core.List.{Memᴰ, List, [], ◌∷◌, ◌++◌, map}
use native.Mathlib.Omega.{arith}
use mr_cassop.Prelude.Tests.{if◌then◌else◌, Eq, contains}

module _ {ℓ} {A : Type ℓ} where
  abbrev pub length : List A → ℕ
  length [] = 0
  length (x ∷ xs) = suc (length xs)

  -- `for _, x := range xs { if p(x) { return true } }; return false`
  abbrev pub any : (A → Bool) → List A → Bool
  any p [] = false
  any p (x ∷ xs) = p x || any p xs

  abbrev pub all : (A → Bool) → List A → Bool
  all p [] = true
  all p (x ∷ xs) = p x && all p xs

  abbrev pub filterb : (A → Bool) → List A → List A
  filterb p [] = []
  filterb p (x ∷ xs) = let rest = filterb p xs in if p x then x ∷ rest else rest

  -- The first element that passes the test.
  abbrev pub find? : (A → Bool) → List A → Option A
  find? p [] = none
  find? p (x ∷ xs) = if p x then some x else find? p xs

  abbrev pub countb : (A → Bool) → List A → ℕ
  countb p [] = 0
  countb p (x ∷ xs) = let rest = countb p xs in if p x then suc rest else rest

  abbrev pub is_empty : List A → Bool
  is_empty [] = true
  is_empty (_ ∷ _) = false

  pub length-append : (xs ys : List A) → length (xs ++ ys) ≡ length xs + length ys
  length-append [] ys = omega arith
  length-append (x ∷ xs) ys = omega (arith, length-append xs ys)

  pub countb-le-length : (p : A → Bool) (xs : List A) → countb p xs ≤ length xs
  countb-le-length p [] = omega arith
  countb-le-length p (x ∷ xs) = ground (arith, countb-le-length p xs)

  -- A predicate on every element.
  abbrev pub All {κ} : (A → Type κ) → List A → Type κ
  All P [] = Unit
  All P (x ∷ xs) = P x × All P xs

module _ {ℓ} {A : Type ℓ} ⦃e : Eq A⦄ where
  pub contains-append :
      (xs ys : List A) (a : A) → contains (xs ++ ys) a ≡ (contains xs a || contains ys a)
  contains-append [] ys a = refl
  contains-append (x ∷ xs) ys a = ground (arith, contains-append xs ys a)

pub contains-map {ℓ κ} :
    {A : Type ℓ} {B : Type κ} ⦃e : Eq B⦄ (f : A → B) {a : A} (xs : List A)
    → Memᴰ a xs
    → contains (map f xs) (f a) ≡ true
contains-map f [] h = elim h [ ]
contains-map f {a} (x ∷ xs) (Memᴰ.head p) = ground (arith, ap f p)
contains-map f {a} (x ∷ xs) (Memᴰ.tail t) = ground (arith, contains-map f xs t)
