-- ===== src/Prelude/Calls.antt =====
-- Commands sent to other systems. The state is the list of the commands sent so far, and what the
-- other system answers may depend on all of it.
use Prim.Native.String.{String}
use mathlib.Core.Path.{◌≡◌, refl, sym, ap, ◌∙◌, subst}
use mathlib.Core.Bool.{false}
use mathlib.Core.Logic.{◌⊎◌, inl, inr}
use mathlib.Core.List.{List, [], ◌∷◌, ◌++◌, map, append_assoc}
use native.Mathlib.Omega.{arith}
use mr_cassop.Prelude.Effects.{
  Outcome, ok, err, panic, Done, Exec, is_ok, pure, ◌>>◌, ◌>>=◌, wrap, continue, rewrap,
}

abbrev pub Answer : Type 0 → Type 0
Answer C = List C → C → Outcome Done

module _ {C : Type 0} where
  abbrev pub send : Answer C → C → Exec (List C) Done
  send answer c sent = (answer sent c, sent ++ c ∷ [])

  -- The commands in their order, up to the first that fails.
  unfoldable pub send_all : Answer C → List C → Exec (List C) Done
  send_all answer [] = pure tt
  send_all answer (c ∷ cs) = send answer c >> send_all answer cs

  -- Two runs that succeed or fail alike and send the same commands.
  abbrev pub SameEffect : Outcome Done × List C → Outcome Done × List C → Type 0
  SameEffect r r' = (is_ok r.0 ≡ is_ok r'.0) × (r.1 ≡ r'.1)

  pub send_all-nil : (answer : Answer C) (s : List C) → send_all answer [] s ≡ (ok tt, s)
  unfolding send_all
  send_all-nil answer s = refl

  pub send_all-cons :
      (answer : Answer C) (c : C) (cs s : List C)
      → send_all answer (c ∷ cs) s ≡ continue (answer s c) (λ _. send_all answer cs) (s ++ c ∷ [])
  unfolding send_all
  send_all-cons answer c cs s = refl

  pub send_all-append :
      (answer : Answer C) (cs ds s : List C)
      → send_all answer (cs ++ ds) s ≡ (send_all answer cs >> send_all answer ds) s
  unfolding send_all
  send_all-append answer [] ds s = refl
  send_all-append answer (c ∷ cs) ds s =
      chain (answer s c) refl (send_all-append answer cs ds (s ++ c ∷ []))
    where
      chain :
          (r : Outcome Done)
          → answer s c ≡ r
          → send_all answer (cs ++ ds) (s ++ c ∷ [])
            ≡ (send_all answer cs >> send_all answer ds) (s ++ c ∷ [])
          → send_all answer (c ∷ cs ++ ds) s ≡ (send_all answer (c ∷ cs) >> send_all answer ds) s
      chain (ok a) e h = ground arith
      chain (err x) e h = cc
      chain panic e h = cc

  SameEffect-continue :
      (r r' : Outcome Done × List C) (m m' : Exec (List C) Done)
      → SameEffect r r'
      → ((s : List C) → SameEffect (m s) (m' s))
      → SameEffect (continue r.0 (λ _. m) r.1) (continue r'.0 (λ _. m') r'.1)
  SameEffect-continue (ok a, s) (ok b, t) m m' (_, e) h = ground (arith, h t)
  SameEffect-continue (ok a, s) (err y, t) m m' (e, _) h = ground arith
  SameEffect-continue (ok a, s) (panic, t) m m' (e, _) h = ground arith
  SameEffect-continue (err x, s) (ok b, t) m m' (e, _) h = ground arith
  SameEffect-continue (err x, s) (err y, t) m m' e h = ground arith
  SameEffect-continue (err x, s) (panic, t) m m' e h = ground arith
  SameEffect-continue (panic, s) (ok b, t) m m' (e, _) h = ground arith
  SameEffect-continue (panic, s) (err y, t) m m' e h = ground arith
  SameEffect-continue (panic, s) (panic, t) m m' e h = ground arith

  -- A step that has the effect of one list of commands, before a rest that has the effect of another.
  pub SameEffect-append :
      (answer : Answer C) (m m' : Exec (List C) Done) (cs ds : List C) (s : List C)
      → SameEffect (m s) (send_all answer cs s)
      → ((t : List C) → SameEffect (m' t) (send_all answer ds t))
      → SameEffect ((m >> m') s) (send_all answer (cs ++ ds) s)
  SameEffect-append answer m m' cs ds s h k =
      subst (λ z. SameEffect ((m >> m') s) z) (sym (send_all-append answer cs ds s))
        (SameEffect-continue (m s) (send_all answer cs s) m' (send_all answer ds) h k)

  pub SameEffect-nil :
      (answer : Answer C) (s : List C) → SameEffect (ok tt, s) (send_all answer [] s)
  unfolding send_all
  SameEffect-nil answer s = (refl, refl)

  -- One command, whose error is wrapped.
  pub SameEffect-one :
      (answer : Answer C) (w : String) (c : C) (s : List C)
      → SameEffect (wrap w (send answer c) s) (send_all answer (c ∷ []) s)
  unfolding send_all
  SameEffect-one answer w c s = split (answer s c) refl
    where
      split :
          (r : Outcome Done)
          → answer s c ≡ r
          → SameEffect (wrap w (send answer c) s) (send_all answer (c ∷ []) s)
      split (ok a) e = ground arith
      split (err x) e = ground arith
      split panic e = ground arith

-- A run that sends commands of one kind, as a part of one that sends several.
unfoldable pub embed :
    {C D : Type 0} → (C → D) → Answer D → (Answer C → Exec (List C) Done) → Exec (List D) Done
embed f answer m sent =
    let (r, cs) = m (λ done c. answer (sent ++ map f done) (f c)) [] in (r, sent ++ map f cs)

-- A property of the state that a run keeps, whatever its outcome.
module _ {ℓ} {S : Type 0} (P : S → Type ℓ) where
  abbrev pub Keeps : {A : Type 0} → Exec S A → Type ℓ
  Keeps m = (s : S) → P s → P (m s).1

  pub Keeps-wrap : {A : Type 0} (w : String) (m : Exec S A) → Keeps m → Keeps (wrap w m)
  Keeps-wrap w m k s p = k s p

  pub Keeps-continue :
      {A B : Type 0} (r : Outcome A) (f : A → Exec S B) (s : S)
      → P s
      → ((a : A) → Keeps (f a))
      → P (continue r f s).1
  Keeps-continue (ok a) f s p k = k a s p
  Keeps-continue (err e) f s p k = p
  Keeps-continue panic f s p k = p

  pub Keeps->>= :
      {A B : Type 0} (m : Exec S A) (f : A → Exec S B)
      → Keeps m
      → ((a : A) → Keeps (f a))
      → Keeps (m >>= f)
  Keeps->>= m f k l s p = Keeps-continue (m s).0 f (m s).1 (k s p) l

pub append-nil : {A : Type 0} (xs : List A) → xs ++ [] ≡ xs
append-nil [] = refl
append-nil (x ∷ xs) = ap (λ ys. x ∷ ys) (append-nil xs)

map_one_more :
    {C D : Type 0} (f : C → D) (s : List D) (ts : List C) (c : C)
    → s ++ map f (ts ++ c ∷ []) ≡ (s ++ map f ts) ++ f c ∷ []
map_one_more f s [] c = ap (λ z. z ++ f c ∷ []) (sym (append-nil s))
map_one_more f s (t ∷ ts) c =
    sym (append_assoc s (f t ∷ []) (map f (ts ++ c ∷ [])))
    ∙ map_one_more f (s ++ f t ∷ []) ts c
    ∙ ap (λ z. z ++ f c ∷ []) (append_assoc s (f t ∷ []) (map f ts))

-- A run that keeps every property that its commands keep, embedded.
pub Keeps-embed {ℓ} :
    {C D : Type 0} (P : List D → Type ℓ) (f : C → D) (answer : Answer D)
    (m : Answer C → Exec (List C) Done)
    → ((Q : List C → Type ℓ)
        → ((t : List C) (c : C) → Q t → Q (t ++ c ∷ []))
        → (a : Answer C) → Keeps Q (m a))
    → ((t : List D) (c : C) → P t → P (t ++ f c ∷ []))
    → Keeps P (embed f answer m)
unfolding embed
Keeps-embed P f answer m k step s p =
    k (λ ts. P (s ++ map f ts))
      (λ ts c q. subst P (sym (map_one_more f s ts c)) (step (s ++ map f ts) c q))
      (λ done c. answer (s ++ map f done) (f c)) [] (subst P (sym (append-nil s)) p)

-- A run that takes the property P to Q, or keeps P and fails.
module _ {ℓ κ} {S : Type 0} (P : S → Type ℓ) (Q : S → Type κ) where
  abbrev pub Leads : {A : Type 0} → Exec S A → Type (ℓ ⊔ κ)
  Leads m = (s : S) → P s → Q (m s).1 ⊎ (P (m s).1 × (is_ok (m s).0 ≡ false))

  Leads_wrapped :
      {A : Type 0} (w : String) (r : Outcome A) → is_ok r ≡ false → is_ok (rewrap w r) ≡ false
  Leads_wrapped w (ok a) h = h
  Leads_wrapped w (err e) h = h
  Leads_wrapped w panic h = h

  pub Leads-wrap : {A : Type 0} (w : String) (m : Exec S A) → Leads m → Leads (wrap w m)
  Leads-wrap w m k s p = elim (k s p) [
    | inl q ↦ inl q
    | inr (p', h) ↦ inr (p', Leads_wrapped w (m s).0 h)
  ]

  Leads-continue :
      {A B : Type 0} (r : Outcome A) (n : Exec S B) (s : S)
      → P s
      → Leads n
      → Q (continue r (λ _. n) s).1
        ⊎ (P (continue r (λ _. n) s).1 × (is_ok (continue r (λ _. n) s).0 ≡ false))
  Leads-continue (ok a) n s p k = k s p
  Leads-continue (err e) n s p k = inr (p, refl)
  Leads-continue panic n s p k = inr (p, refl)

  pub Leads-after :
      {A B : Type 0} (m : Exec S A) (n : Exec S B) → Keeps P m → Leads n → Leads (m >> n)
  Leads-after m n k l s p = Leads-continue (m s).0 n (m s).1 (k s p) l

  Leads_stopped :
      {A B : Type 0} (r : Outcome A) (n : Exec S B) (s : S)
      → is_ok r ≡ false
      → P s
      → P (continue r (λ _. n) s).1 × (is_ok (continue r (λ _. n) s).0 ≡ false)
  Leads_stopped (ok a) n s h p = cc
  Leads_stopped (err e) n s h p = (p, refl)
  Leads_stopped panic n s h p = (p, refl)

  pub Leads-then :
      {A B : Type 0} (m : Exec S A) (n : Exec S B) → Leads m → Keeps Q n → Leads (m >> n)
  Leads-then m n k l s p = elim (k s p) [
    | inl q ↦ inl (Keeps-continue Q (m s).0 (λ _. n) (m s).1 q (λ _. l))
    | inr (p', h) ↦ inr (Leads_stopped (m s).0 n (m s).1 h p')
  ]

-- Inversion of a successful chain.
pub run_ok :
    {S A B : Type 0} (m : Exec S A) (n : Exec S B) (s : S) {b : B}
    → ((m >> n) s).0 ≡ ok b
    → ((n (m s).1).0 ≡ ok b) × (((m >> n) s).1 ≡ (n (m s).1).1)
run_ok {S = S} {A = A} {B = B} m n s {b = b} h = by_outcome (m s).0 (m s).1 h
  where
    by_outcome :
        (r : Outcome A) (t : S)
        → (continue r (λ _. n) t).0 ≡ ok b
        → ((n t).0 ≡ ok b) × ((continue r (λ _. n) t).1 ≡ (n t).1)
    by_outcome (ok a) t h = (h, refl)
    by_outcome (err e) t h = cc
    by_outcome panic t h = cc
