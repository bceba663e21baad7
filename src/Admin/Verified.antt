-- ===== src/Admin/Verified.antt =====
-- controllers/admin_auth.go and role_admin.go: the secrets are written after a login only.
use mr_cassop.Prelude.{
  true, false, List, [], ◌∷◌, ◌++◌, ◌≡◌, refl, ◌⊎◌, arith, string_eq, Outcome, ok, err, panic, Done,
  is_ok, send, wrap, ◌>>◌, Keeps, Keeps->>=, Leads, Leads-wrap, Leads-after, Leads-then,
}
use mr_cassop.Admin.{
  World, AuthSpec, Credentials, Command, login, update_role_password, create_role, sleep, promoted,
  do_with_retry,
}
use mr_cassop.Admin.Secrets.{reconcile_admin_secrets}
use mr_cassop.Admin.Change.{
  change_admin_role, update_admin_role_in_cassandra, handle_admin_role_change,
}
use mr_cassop.Admin.Guarded.{
  begin, is_write, Watched, Verified, login-Verified, Watched-asked, do_with_retry-Leads,
  reconcile_admin_secrets-Keeps, wrote,
}

module _ {ℓ} (P : List Command → Type ℓ)
    (plain : (c : Command) → is_write c ≡ false → (t : List Command) → P t → P (t ++ c ∷ []))
    (w : World) (auth : Credentials) where
  change_admin_role-Keeps : Keeps P (change_admin_role w auth)
  unfolding change_admin_role
  change_admin_role-Keeps s p = ground (
    arith,
    plain (update_role_password auth.active_role auth.desired_password) refl s p,
    plain
        (create_role (record {
          role = auth.desired_role;
          password = auth.desired_password;
          super = true;
          login = true;
        }))
        refl s p,
  )

  update_admin_role_in_cassandra-Keeps : Keeps P (update_admin_role_in_cassandra w auth)
  unfolding update_admin_role_in_cassandra
  update_admin_role_in_cassandra-Keeps s p =
      by_outcome (w.answer s (login auth.desired_role auth.desired_password)) refl
        (plain (login auth.desired_role auth.desired_password) refl s p)
    where
      by_outcome :
          (r : Outcome Done)
          → w.answer s (login auth.desired_role auth.desired_password) ≡ r
          → P (s ++ login auth.desired_role auth.desired_password ∷ [])
          → P (update_admin_role_in_cassandra w auth s).1
      by_outcome (ok x) e q = rw (e, update_admin_role_in_cassandra) q
      by_outcome panic e q = rw (e, update_admin_role_in_cassandra) q
      by_outcome (err x) e q =
          rw (e, update_admin_role_in_cassandra)
            (Keeps->>= P
              (wrap "Could not log in with existing credentials"
                (send w.answer (login auth.active_role auth.active_password)))
              (λ _. change_admin_role w auth)
              (λ t. plain (login auth.active_role auth.active_password) refl t)
              (λ _. change_admin_role-Keeps)
              (s ++ login auth.desired_role auth.desired_password ∷ []) q)

module _ (w : World) (cc : AuthSpec) (auth : Credentials) (start : List Command) where
  pub desired_login :
      Leads
        (Watched w auth.desired_role auth.desired_password start)
        (Verified w auth.desired_role auth.desired_password start)
        (do_with_retry (send w.answer (login auth.desired_role auth.desired_password)))
  desired_login =
      do_with_retry-Leads (Watched w auth.desired_role auth.desired_password start)
        (Verified w auth.desired_role auth.desired_password start)
        (λ t n. Watched-asked w auth.desired_role auth.desired_password start (sleep n) refl t)
        (send w.answer (login auth.desired_role auth.desired_password))
        (login-Verified w auth.desired_role auth.desired_password start)

  -- A change of the admin role either fails without having written a secret before a login with
  -- the desired credentials succeeded, or has such a login before its first write of a secret.
  pub handle_admin_role_change-guarded :
      Verified w auth.desired_role auth.desired_password start
        (handle_admin_role_change w cc auth start).1
      ⊎ (Watched w auth.desired_role auth.desired_password start
            (handle_admin_role_change w cc auth start).1
          × (is_ok (handle_admin_role_change w cc auth start).0 ≡ false))
  unfolding handle_admin_role_change
  handle_admin_role_change-guarded =
      let P = Watched w auth.desired_role auth.desired_password start in
      let Q = Verified w auth.desired_role auth.desired_password start in
      let retry = send w.answer (login auth.desired_role auth.desired_password) in
      let m1 =
        wrap "failed to update admin role in cassandra" (update_admin_role_in_cassandra w auth) in
      let m2 =
        wrap
          "Couldn't log in with new credentials. Either the role failed to change or the the cluster didn't propagate the role change in timely manner."
          (do_with_retry retry) in
      let m3 =
        wrap "failed to update admin secret" (reconcile_admin_secrets w cc (promoted auth)) in
      Leads-then P Q (m1 >> m2) m3
        (Leads-after P Q m1 m2
          (update_admin_role_in_cassandra-Keeps P
            (Watched-asked w auth.desired_role auth.desired_password start) w auth)
          (Leads-wrap P Q
            "Couldn't log in with new credentials. Either the role failed to change or the the cluster didn't propagate the role change in timely manner."
            (do_with_retry retry) desired_login))
        (reconcile_admin_secrets-Keeps Q (λ t c. wrote c) w cc (promoted auth)) start (false, begin)
