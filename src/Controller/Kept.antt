-- ===== src/Controller/Kept.antt =====
-- controllers/controller.go: computations of a pass, each with the proof that it keeps a property.
use mr_cassop.Prelude.{
  ℕ, String, Bool, true, false, List, arith, if◌then◌else◌, Outcome, ok, err, panic, Exec, Keeps,
  pure, wrap, ◌>>=◌, Keeps->>=,
}
use mr_cassop.Controller.{Result, ask, retry_on, is_cause, after_delay}

abbrev pub Kept {ℓ} : {S : Type 0} → (S × Bool → Type ℓ) → Type 0 → Type ℓ
Kept {S = S} B A = (m : Exec (S × Bool) A) × Keeps B m

module _ {ℓ} {S : Type 0} {B : S × Bool → Type ℓ} where
  abbrev pub kept_if : {A : Type 0} → Bool → Kept B A → Kept B A → Kept B A
  kept_if b (m, h) (n, l) = (if b then m else n, if-Keeps b m n h l)
    where
      if-Keeps :
          {A : Type 0} (b : Bool) (m n : Exec (S × Bool) A)
          → Keeps B m
          → Keeps B n
          → Keeps B (if b then m else n)
      if-Keeps true m n h l = h
      if-Keeps false m n h l = l

  infixl 5 ◌⊳◌ ◌⊳=◌
  abbrev pub ◌⊳=◌ : {A C : Type 0} → Kept B A → ((a : A) → Kept B C) → Kept B C
  (m, h) ⊳= f = (m >>= λ a. (f a).0, Keeps->>= B m (λ a. (f a).0) h (λ a. (f a).1))

  abbrev pub ◌⊳◌ : {A C : Type 0} → Kept B A → Kept B C → Kept B C
  k ⊳ l = k ⊳= λ _. l

  pub retry_on-Keeps :
      {A : Type 0} (delay : ℕ) (names : List String) (m : Exec (S × Bool) A)
      (next : A → Exec (S × Bool) Result)
      → Keeps B m
      → ((a : A) → Keeps B (next a))
      → Keeps B (retry_on names delay m next)
  unfolding retry_on
  retry_on-Keeps {A = A} delay names m next h l st q = by_outcome (m st).0 (m st).1 (h st q)
    where
      by_outcome :
          (r : Outcome A) (t : S × Bool)
          → B t
          → B
              (elim r as (λ _. Outcome Result × (S × Bool)) [
                | ok a ↦ next a t
                | err e ↦ if is_cause names e then (ok (after_delay delay), t) else (err e, t)
                | panic ↦ (panic, t)
              ]).1
      by_outcome (ok a) t b = l a t b
      by_outcome (err e) t b = ground arith
      by_outcome panic t b = b

  abbrev pub kept_pure : {A : Type 0} → A → Kept B A
  kept_pure a = (pure a, λ s q. q)

  abbrev pub kept_retry :
      {A : Type 0} → ℕ → List String → Kept B A → (A → Kept B Result) → Kept B Result
  kept_retry delay names (m, h) f = (
    retry_on names delay m (λ a. (f a).0),
    retry_on-Keeps delay names m (λ a. (f a).0) h (λ a. (f a).1),
  )

  abbrev pub kept_ask : {A : Type 0} → String → (S → Outcome A) → Kept B A
  kept_ask w f = (wrap w (ask f), λ s q. q)
