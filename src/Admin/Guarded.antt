-- ===== src/Admin/Guarded.antt =====
-- controllers/admin_auth.go and role_admin.go: when the secrets are written.
use mr_cassop.Prelude.{
  ℕ, zero, suc, ◌*◌, String, Bool, true, false, List, [], ◌∷◌, ◌++◌, ◌≡◌, refl, ◌⊎◌, inl, inr,
  arith, string_eq, Outcome, ok, err, panic, Done, Exec, is_ok, Answer, send, wrap, Keeps,
  Keeps-continue, Keeps->>=, Error, rewrap, and_then, Keeps-embed, Leads, ◌≤◌,
}
use mr_cassop.Cluster.{Get, found, not_found, failed}
use mr_cassop.Roles.{merge_map}
use mr_cassop.Objects.{KObject, Write, create, delete, update, merged, reconcile_secret}
use mr_cassop.Admin.{
  World, AuthSpec, Credentials, Command, login, write, sleep, after_attempt,
  initial_retry_delay_seconds, retry_attempts, retry_from, do_with_retry,
}
use mr_cassop.Admin.Secrets.{
  active_admin_secret, admin_auth_config_secret, config_data, replace_active_admin_secret,
  write_config_secret, reconcile_admin_secrets, reconcile_active_admin_secret,
  reconcile_admin_auth_config_secret,
}

abbrev pub is_write : Command → Bool
is_write (write w) = true
is_write _ = false

-- The histories that start with `start` and write a secret only after a login with these credentials
-- that succeeded. The Boolean tells whether there was such a login.
pub data Guarded (answer : Answer Command) (role password : String) (start : List Command)
    : Bool → List Command → Type 0 where
  begin : Guarded answer role password start false start
  logged_in :
      {b : Bool} {t : List Command}
      → Guarded answer role password start b t
      → answer t (login role password) ≡ ok tt
      → Guarded answer role password start true (t ++ login role password ∷ [])
  asked :
      {b : Bool} {t : List Command} (c : Command)
      → is_write c ≡ false
      → Guarded answer role password start b t
      → Guarded answer role password start b (t ++ c ∷ [])
  wrote :
      {t : List Command} (w : Write)
      → Guarded answer role password start true t
      → Guarded answer role password start true (t ++ write w ∷ [])

module _ {ℓ} (Q : List Write → Type ℓ)
    (step : (t : List Write) (w : Write) → Q t → Q (t ++ w ∷ [])) where
  reconcile_secret-Keeps :
      (equal : KObject → KObject → Bool) (answer : Answer Write) (d : KObject) (g : Get KObject)
      → Keeps Q (reconcile_secret equal answer d g)
  unfolding reconcile_secret merged
  reconcile_secret-Keeps equal answer d not_found s q = step s (create d) q
  reconcile_secret-Keeps equal answer d (failed e) s q = q
  reconcile_secret-Keeps equal answer d (found a) s q = ground (
    arith,
    step s (
        update (record a {
          labels = d.labels;
          data_of = d.data_of;
          annotations = merge_map a.annotations (merge_map a.annotations d.annotations);
          owners = d.owners;
        })),
  )

module _ {ℓ} (P : List Command → Type ℓ)
    (step : (t : List Command) (w : Write) → P t → P (t ++ write w ∷ [])) (w : World)
    (cc : AuthSpec) (auth : Credentials) where
  replace_active_admin_secret-Keeps : (d : KObject) → Keeps P (replace_active_admin_secret w d)
  unfolding replace_active_admin_secret
  replace_active_admin_secret-Keeps d s p = by_get (w.secret s d.name) refl
    where
      by_get : (g : Get KObject) → w.secret s d.name ≡ g → P (replace_active_admin_secret w d s).1
      by_get not_found e = rw (e, replace_active_admin_secret) (step s (create d) p)
      by_get (failed x) e = rw (e, replace_active_admin_secret) p
      by_get (found a) e =
          ground (arith, step s (delete a) p, step (s ++ write (delete a) ∷ []) (create d))

  write_config_secret-Keeps : (d : KObject) → Keeps P (write_config_secret w cc d)
  unfolding write_config_secret
  write_config_secret-Keeps d s p =
      Keeps-embed P write w.answer (λ a. reconcile_secret w.equal a d (w.secret s d.name))
        (λ Q k a. reconcile_secret-Keeps Q k w.equal a d (w.secret s d.name)) step s p

  pub reconcile_admin_secrets-Keeps : Keeps P (reconcile_admin_secrets w cc auth)
  unfolding reconcile_admin_secrets reconcile_active_admin_secret reconcile_admin_auth_config_secret
  reconcile_admin_secrets-Keeps =
      Keeps->>= P
        (wrap "failed to update active admin secret" (reconcile_active_admin_secret w cc auth))
        (λ _.
          wrap "failed to reconcile admin auth secret"
            (reconcile_admin_auth_config_secret w cc auth))
        (λ s p.
          Keeps-continue P
            (rewrap "Cannot set controller reference" (w.own (active_admin_secret cc auth)))
            (replace_active_admin_secret w) s p replace_active_admin_secret-Keeps)
        (λ _ s p.
          Keeps-continue P
            (and_then (config_data w cc auth s) (λ d.
              rewrap "Cannot set controller reference"
                (w.own (admin_auth_config_secret cc auth d))))
            (write_config_secret w cc) s p write_config_secret-Keeps)

module _ {ℓ κ} (P : List Command → Type ℓ) (Q : List Command → Type κ)
    (slept : (t : List Command) (n : ℕ) → P t → P (t ++ sleep n ∷ []))
    (retry : Exec (List Command) Done)
    (leads : (s : List Command)
      → P s
      → (Q (retry s).1 × (is_ok (retry s).0 ≡ true))
        ⊎ (P (retry s).1 × (is_ok (retry s).0 ≡ false))) where
  after_attempt-Leads :
      (again : Error → Exec (List Command) Done)
      → ((e : Error) → Leads P Q (again e))
      → (r : Outcome Done) (s : List Command) → (Q s × (is_ok r ≡ true)) ⊎ (P s × (is_ok r ≡ false))
      → Q (after_attempt r again s).1
        ⊎ (P (after_attempt r again s).1 × (is_ok (after_attempt r again s).0 ≡ false))
  after_attempt-Leads again k (ok a) s (inl (q, _)) = inl q
  after_attempt-Leads again k (ok a) s (inr h) = inr h
  after_attempt-Leads again k (err e) s (inl (q, h)) = ground arith
  after_attempt-Leads again k (err e) s (inr (p, h)) = k e s p
  after_attempt-Leads again k panic s (inl (q, _)) = inl q
  after_attempt-Leads again k panic s (inr h) = inr h

  retry_from-Leads :
      (left attempt : ℕ) (last : Outcome Done)
      → (is_ok last ≡ false) ⊎ (1 ≤ left)
      → Leads P Q (retry_from left attempt last retry)
  unfolding retry_from
  retry_from-Leads zero attempt last (inl h) s p = inr (p, h)
  retry_from-Leads zero attempt last (inr h) s p = ground arith
  retry_from-Leads (suc left) attempt last h s p =
      after_attempt-Leads
        (λ e t.
          retry_from left (suc attempt) (err e) retry
            (t ++ sleep (initial_retry_delay_seconds * attempt) ∷ []))
        (λ e t p'.
          retry_from-Leads left (suc attempt) (err e) (inl refl)
            (t ++ sleep (initial_retry_delay_seconds * attempt) ∷ [])
            (slept t (initial_retry_delay_seconds * attempt) p'))
        (retry s).0 (retry s).1 (leads s p)

  pub do_with_retry-Leads : Leads P Q (do_with_retry retry)
  unfolding do_with_retry
  do_with_retry-Leads = retry_from-Leads retry_attempts 1 (ok tt) (inr (omega arith))

module _ (w : World) (role password : String) (start : List Command) where
  -- Some guarded history, with or without a login.
  abbrev pub Watched : List Command → Type 0
  Watched t = (b : Bool) × Guarded w.answer role password start b t

  abbrev pub Verified : List Command → Type 0
  Verified t = Guarded w.answer role password start true t

  pub login-Verified :
      (s : List Command)
      → Watched s
      → (Verified (send w.answer (login role password) s).1
          × (is_ok (send w.answer (login role password) s).0 ≡ true))
        ⊎ (Watched (send w.answer (login role password) s).1
            × (is_ok (send w.answer (login role password) s).0 ≡ false))
  login-Verified s (b, g) = by_outcome (w.answer s (login role password)) refl
    where
      by_outcome :
          (r : Outcome Done)
          → w.answer s (login role password) ≡ r
          → (Verified (s ++ login role password ∷ []) × (is_ok r ≡ true))
            ⊎ (Watched (s ++ login role password ∷ []) × (is_ok r ≡ false))
      by_outcome (ok tt) e = inl (logged_in g e, refl)
      by_outcome (err x) e = inr ((b, asked (login role password) refl g), refl)
      by_outcome panic e = inr ((b, asked (login role password) refl g), refl)

  pub Watched-asked :
      (c : Command) → is_write c ≡ false → (t : List Command) → Watched t → Watched (t ++ c ∷ [])
  Watched-asked c h t (b, g) = (b, asked c h g)
