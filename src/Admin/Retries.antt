-- ===== src/Admin/Retries.antt =====
-- controllers/helpers.go, `doWithRetry`: how often a command is sent.
use mr_cassop.Prelude.{
  ℕ, zero, suc, ◌*◌, ◌≤◌, ◌<◌, List, [], ◌∷◌, ◌++◌, false, ◌≡◌, refl, sym, ap, ◌∙◌, ◌⊎◌, inl, inr,
  arith, Error, Outcome, ok, err, panic, Done, is_ok, Answer, send, append-nil,
}
use mathlib.Core.List.{append_assoc}
use mr_cassop.Admin.{
  Command, sleep, initial_retry_delay_seconds, retry_from, do_with_retry, after_attempt,
}

-- So many failed attempts, from the attempt with the given number on, each with its pause.
abbrev pub tried : Command → ℕ → ℕ → List Command
tried c zero attempt = []
tried c (suc k) attempt =
    c ∷ sleep (initial_retry_delay_seconds * attempt) ∷ tried c k (suc attempt)

module _ (answer : Answer Command) (c : Command) where
  -- The attempts with the numbers `attempt`, …, each of which failed.
  abbrev pub Failed : ℕ → ℕ → List Command → Type 0
  Failed zero attempt s = Unit
  Failed (suc k) attempt s =
      ((e : Error) × (answer s c ≡ err e))
      × Failed k (suc attempt) ((s ++ c ∷ []) ++ sleep (initial_retry_delay_seconds * attempt) ∷ [])

  -- What `left` attempts may come to: all fail, or one after fewer failures does not.
  abbrev pub Tried : ℕ → ℕ → List Command → Outcome Done × List Command → Type 0
  Tried left attempt s (r, t) =
      (Failed left attempt s × (is_ok r ≡ false) × (t ≡ s ++ tried c left attempt))
      ⊎ ((k : ℕ) × (k < left)
          × Failed k attempt s
          × (r ≡ answer (s ++ tried c k attempt) c)
          × (t ≡ (s ++ tried c k attempt) ++ c ∷ []))

  two_more :
      (s : List Command) (d : Command) (ts : List Command)
      → ((s ++ c ∷ []) ++ d ∷ []) ++ ts ≡ s ++ (c ∷ d ∷ ts)
  two_more s d ts = append_assoc (s ++ c ∷ []) (d ∷ []) ts ∙ append_assoc s (c ∷ []) (d ∷ ts)

  -- After one more failure.
  Tried-again :
      (left attempt : ℕ) (s : List Command) (e : Error) (r : Outcome Done × List Command)
      → answer s c ≡ err e
      → Tried left
          (suc attempt)
          ((s ++ c ∷ []) ++ sleep (initial_retry_delay_seconds * attempt) ∷ [])
          r
      → Tried (suc left) attempt s r
  Tried-again left attempt s e (r, t) h (inl (f, n, q)) =
      inl (((e, h), f), n, q ∙ two_more s _ (tried c left (suc attempt)))
  Tried-again left attempt s e (r, t) h (inr (k, l, f, n, q)) =
      let same =
        two_more s (sleep (initial_retry_delay_seconds * attempt)) (tried c k (suc attempt)) in
      inr (
        suc k,
        omega arith,
        ((e, h), f),
        n ∙ ap (λ z. answer z c) same,
        q ∙ ap (λ z. z ++ c ∷ []) same,
      )

  Tried-first :
      (left attempt : ℕ) (s : List Command) (r : Outcome Done)
      → r ≡ answer s c
      → Tried (suc left) attempt s (r, s ++ c ∷ [])
  Tried-first left attempt s r h = inr (
    0,
    omega arith,
    tt,
    h ∙ ap (λ z. answer z c) (sym (append-nil s)),
    ap (λ z. z ++ c ∷ []) (sym (append-nil s)),
  )

  retry_from-Tried :
      (left attempt : ℕ) (last : Outcome Done) (s : List Command)
      → (is_ok last ≡ false) ⊎ (1 ≤ left)
      → Tried left attempt s (retry_from left attempt last (send answer c) s)
  unfolding retry_from
  retry_from-Tried zero attempt last s (inl h) = inl (tt, h, sym (append-nil s))
  retry_from-Tried zero attempt last s (inr h) = ground arith
  retry_from-Tried (suc left) attempt last s h = by_outcome (answer s c) refl (λ e.
      retry_from-Tried left (suc attempt) (err e)
        ((s ++ c ∷ []) ++ sleep (initial_retry_delay_seconds * attempt) ∷ []) (inl refl))
    where
      by_outcome :
          (r : Outcome Done)
          → answer s c ≡ r
          → ((e : Error)
              → Tried left
                  (suc attempt)
                  ((s ++ c ∷ []) ++ sleep (initial_retry_delay_seconds * attempt) ∷ [])
                  (retry_from left
                    (suc attempt)
                    (err e)
                    (send answer c)
                    ((s ++ c ∷ []) ++ sleep (initial_retry_delay_seconds * attempt) ∷ [])))
          → Tried (suc left) attempt s (
              after_attempt r
                (λ e t.
                  retry_from left
                    (suc attempt)
                    (err e)
                    (send answer c)
                    (t ++ sleep (initial_retry_delay_seconds * attempt) ∷ []))
                (s ++ c ∷ []))
      by_outcome (ok tt) e k = Tried-first left attempt s (ok tt) (sym e)
      by_outcome panic e k = Tried-first left attempt s panic (sym e)
      by_outcome (err x) e k = Tried-again left attempt s x _ e (k x)

  -- Retrying a command ends after at most three attempts. Either all three failed, with a pause after
  -- each, and an error is returned; or fewer failed, with their pauses, and the outcome is that of
  -- the next attempt, the last.
  pub do_with_retry-Tried : (s : List Command) → Tried 3 1 s (do_with_retry (send answer c) s)
  unfolding do_with_retry
  do_with_retry-Tried s = retry_from-Tried 3 1 (ok tt) s (inr (omega arith))
