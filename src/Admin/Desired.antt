-- ===== src/Admin/Desired.antt =====
-- controllers/role_admin.go: the credentials of the session that the reconciliation of the admin role
-- gives back.
use mr_cassop.Prelude.{
  Option, none, some, List, ◌≡◌, refl, Outcome, ok, err, panic, Done, Exec, pure, send, wrap,
  continue, ◌>>◌,
}
use mr_cassop.Cluster.{Dc}
use mr_cassop.Admin.{
  World, AuthSpec, Credentials, Command, login, default_role, default_password, promoted,
  do_with_retry,
}
use mr_cassop.Admin.Secrets.{reconcile_admin_secrets}
use mr_cassop.Admin.Creation.{
  Session, session_of, login_as_created, reconcile_admin_role, admin_role_exists, create_admin_role,
  create_admin_role_in_cassandra, system_auth_step,
}

abbrev pub IsDesired : Credentials → Session → Type 0
IsDesired auth session =
    (session.role ≡ auth.desired_role) × (session.password ≡ auth.desired_password)

-- If a session comes back, it is one of the desired role.
abbrev pub GivesDesired : Credentials → Outcome (Option Session) → Type 0
GivesDesired auth (ok (some session)) = IsDesired auth session
GivesDesired auth (ok none) = Unit
GivesDesired auth (err _) = Unit
GivesDesired auth panic = Unit

module _ (w : World) (cc : AuthSpec) (auth : Credentials) where
  continue-GivesDesired :
      {A : Type 0} (r : Outcome A) (f : A → Exec (List Command) (Option Session)) (s : List Command)
      → ((a : A) (t : List Command) → GivesDesired auth (f a t).0)
      → GivesDesired auth (continue r f s).0
  continue-GivesDesired (ok a) f s h = h a s
  continue-GivesDesired (err e) f s h = tt
  continue-GivesDesired panic f s h = tt

  then-GivesDesired :
      (m : Exec (List Command) Done) (k : Exec (List Command) (Option Session))
      → ((t : List Command) → GivesDesired auth (k t).0)
      → (s : List Command) → GivesDesired auth ((m >> k) s).0
  then-GivesDesired m k h s = continue-GivesDesired (m s).0 (λ _. k) (m s).1 (λ _ t. h t)

  session-GivesDesired :
      (r : Outcome Done) (m : Exec (List Command) Done) (s : List Command)
      → GivesDesired auth (continue (session_of auth r) (λ session. m >> pure session) s).0
  session-GivesDesired (ok d) m s =
      then-GivesDesired m
        (pure (some (record { role = auth.desired_role; password = auth.desired_password })))
        (λ t. (refl, refl)) s
  session-GivesDesired (err e) m s = then-GivesDesired m (pure none) (λ t. tt) s
  session-GivesDesired panic m s = tt

  login_as_created-GivesDesired :
      (s : List Command) → GivesDesired auth (login_as_created w cc auth s).0
  unfolding login_as_created
  login_as_created-GivesDesired s =
      let run = do_with_retry (send w.answer (login auth.desired_role auth.desired_password)) s in
      session-GivesDesired run.0
        (wrap "failed to update admin secrets with new password"
          (reconcile_admin_secrets w cc (promoted auth)))
        run.1

  pub reconcile_admin_role-GivesDesired :
      (all_dcs : List Dc) (s : List Command)
      → GivesDesired auth (reconcile_admin_role w cc auth all_dcs s).0
  unfolding reconcile_admin_role admin_role_exists create_admin_role
  reconcile_admin_role-GivesDesired all_dcs s =
      by_outcome (w.answer s (login auth.desired_role auth.desired_password)) refl
    where
      by_outcome :
          (r : Outcome Done)
          → w.answer s (login auth.desired_role auth.desired_password) ≡ r
          → GivesDesired auth (reconcile_admin_role w cc auth all_dcs s).0
      by_outcome (ok tt) e = rw e (
          then-GivesDesired
            (system_auth_step w cc.cluster all_dcs >> reconcile_admin_secrets w cc (promoted auth))
            (pure (some (record { role = auth.desired_role; password = auth.desired_password })))
            (λ t. (refl, refl)) _)
      by_outcome (err x) e = rw e (
          then-GivesDesired
            (wrap "can't establish cql connection both with default and desired admin roles"
                (send w.answer (login default_role default_password))
              >> wrap "can't create admin role" (
                  create_admin_role_in_cassandra w cc.cluster all_dcs auth.desired_role
                    auth.desired_password))
            (login_as_created w cc auth) login_as_created-GivesDesired _)
      by_outcome panic e = rw e tt
