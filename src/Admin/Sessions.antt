-- ===== src/Admin/Sessions.antt =====
-- controllers/role_admin.go: the session that the reconciliation of the admin role gives back.
use mr_cassop.Prelude.{
  ℕ, String, Bool, true, false, Option, none, some, List, [], ◌∷◌, ◌++◌, ◌<>◌, ◌≡◌, refl, sym,
  subst, ◌⊎◌, inl, inr, arith, string_eq, Outcome, ok, err, panic, Done, Exec, is_ok, Answer, pure,
  send, wrap, continue, ◌>>◌, Keeps, Keeps->>=, Keeps-embed, run_ok,
}
use mr_cassop.Admin.{
  World, AuthSpec, Credentials, Command, login, default_role, default_password, keyspace,
  create_role, promoted, do_with_retry,
}
use mr_cassop.Admin.Secrets.{reconcile_admin_secrets}
use mr_cassop.Cluster.{Cluster, Dc}
use mr_cassop.Keyspaces
use mr_cassop.Keyspaces.{
  Keyspace, update_rf, run_repair, system_auth, desired_replication_options,
  reconcile_system_auth_keyspace,
}
use mr_cassop.Admin.Creation.{
  Session, session_of, login_as_created, reconcile_admin_role, admin_role_exists, create_admin_role,
  system_auth_step, create_admin_role_in_cassandra,
}
use mr_cassop.Admin.Guarded.{
  begin, Watched, Verified, Watched-asked, reconcile_admin_secrets-Keeps, wrote, asked, logged_in,
}
use mr_cassop.Admin.Verified.{desired_login}
use mr_cassop.Admin.Desired.{IsDesired, GivesDesired, reconcile_admin_role-GivesDesired}

reconcile_system_auth_keyspace-Keeps {ℓ} :
    (Q : List Keyspaces.Call → Type ℓ)
    → ((t : List Keyspaces.Call) (c : Keyspaces.Call) → Q t → Q (t ++ c ∷ []))
    → (digits : ℕ → String) (a : Answer Keyspaces.Call) (info : Outcome (List Keyspace))
      (reaper : Outcome Bool) (c : Cluster) (all_dcs : List Dc)
    → Keeps Q (reconcile_system_auth_keyspace digits a info reaper c all_dcs)
unfolding reconcile_system_auth_keyspace
reconcile_system_auth_keyspace-Keeps Q step digits a info reaper c all_dcs s q =
    let u = update_rf system_auth (desired_replication_options digits c system_auth all_dcs) in
    ground (arith, step s u q, step (s ++ u ∷ []) (run_repair system_auth))

system_auth_step-Keeps {ℓ} :
    (P : List Command → Type ℓ)
    → ((t : List Command) (c : Keyspaces.Call) → P t → P (t ++ keyspace c ∷ []))
    → (w : World) (c : Cluster) (all_dcs : List Dc) → Keeps P (system_auth_step w c all_dcs)
system_auth_step-Keeps P step w c all_dcs =
    Keeps-embed P keyspace w.answer
      (λ a. reconcile_system_auth_keyspace w.digits a w.keyspaces_info w.reaper_running c all_dcs)
      (λ Q k a.
        reconcile_system_auth_keyspace-Keeps Q k w.digits a w.keyspaces_info w.reaper_running c
          all_dcs)
      step

module _ (w : World) (cc : AuthSpec) (auth : Credentials) (start : List Command) where
  secrets_after : Option Session → Exec (List Command) (Option Session)
  secrets_after session =
      wrap "failed to update admin secrets with new password"
        (reconcile_admin_secrets w cc (promoted auth))
      >> pure session

  secrets_after-Keeps :
      (o : Option Session)
      → Keeps (Verified w auth.desired_role auth.desired_password start) (secrets_after o)
  unfolding secrets_after
  secrets_after-Keeps o =
      Keeps->>= (Verified w auth.desired_role auth.desired_password start)
        (wrap "failed to update admin secrets with new password"
          (reconcile_admin_secrets w cc (promoted auth)))
        (λ _. pure o)
        (reconcile_admin_secrets-Keeps (Verified w auth.desired_role auth.desired_password start)
          (λ t c. wrote c) w cc (promoted auth))
        (λ _ s p. p)

  secrets_after-session :
      (r : Outcome Done) (t : List Command) {session : Session}
      → Verified w auth.desired_role auth.desired_password start t
        ⊎ (Watched w auth.desired_role auth.desired_password start t × (is_ok r ≡ false))
      → (continue (session_of auth r) secrets_after t).0 ≡ ok (some session)
      → Verified w auth.desired_role auth.desired_password start
          (continue (session_of auth r) secrets_after t).1
  unfolding secrets_after
  secrets_after-session (ok x) t (inl v) h =
      secrets_after-Keeps
        (some (record { role = auth.desired_role; password = auth.desired_password })) t v
  secrets_after-session (ok x) t (inr (_, e)) h = ground arith
  secrets_after-session (err e) t v h = ground (
    arith,
    (run_ok
        (wrap "failed to update admin secrets with new password"
          (reconcile_admin_secrets w cc (promoted auth)))
        (pure none) t h).0,
  )
  secrets_after-session panic t v h = ground arith

  login_as_created-Verified :
      (s : List Command) {session : Session}
      → Watched w auth.desired_role auth.desired_password start s
      → (login_as_created w cc auth s).0 ≡ ok (some session)
      → Verified w auth.desired_role auth.desired_password start (login_as_created w cc auth s).1
  unfolding login_as_created secrets_after
  login_as_created-Verified s p h =
      let retry = send w.answer (login auth.desired_role auth.desired_password) in
      secrets_after-session (do_with_retry retry s).0 (do_with_retry retry s).1
        (desired_login w cc auth start s p) h

  admin_role_exists-Keeps :
      (all_dcs : List Dc)
      → Keeps
          (Verified w auth.desired_role auth.desired_password start)
          (admin_role_exists w cc auth all_dcs)
  unfolding admin_role_exists
  admin_role_exists-Keeps all_dcs =
      let Q = Verified w auth.desired_role auth.desired_password start in
      Keeps->>= Q
        (system_auth_step w cc.cluster all_dcs >> reconcile_admin_secrets w cc (promoted auth))
        (λ _. pure (some (record { role = auth.desired_role; password = auth.desired_password })))
        (Keeps->>= Q (system_auth_step w cc.cluster all_dcs)
          (λ _. reconcile_admin_secrets w cc (promoted auth))
          (system_auth_step-Keeps Q (λ t c. asked (keyspace c) refl) w cc.cluster all_dcs)
          (λ _. reconcile_admin_secrets-Keeps Q (λ t c. wrote c) w cc (promoted auth)))
        (λ _ s p. p)

  before_creation : List Dc → Exec (List Command) Done
  before_creation all_dcs =
      wrap "can't establish cql connection both with default and desired admin roles"
        (send w.answer (login default_role default_password))
      >> wrap "can't create admin role" (
          create_admin_role_in_cassandra w cc.cluster all_dcs auth.desired_role
            auth.desired_password)

  before_creation-Keeps :
      (all_dcs : List Dc)
      → Keeps (Watched w auth.desired_role auth.desired_password start) (before_creation all_dcs)
  unfolding before_creation create_admin_role_in_cassandra
  before_creation-Keeps all_dcs =
      let P = Watched w auth.desired_role auth.desired_password start in
      let plain = Watched-asked w auth.desired_role auth.desired_password start in
      let role = create_role (record {
        role = auth.desired_role;
        password = auth.desired_password;
        super = true;
        login = true;
      }) in
      let m1 =
        wrap ("Can't create cql session with role " <> default_role)
          (send w.answer (login default_role default_password)) in
      Keeps->>= P
        (wrap "can't establish cql connection both with default and desired admin roles"
          (send w.answer (login default_role default_password)))
        (λ _. wrap "can't create admin role" (
          create_admin_role_in_cassandra w cc.cluster all_dcs auth.desired_role
            auth.desired_password))
        (plain (login default_role default_password) refl)
        (λ _.
          Keeps->>= P (m1 >> system_auth_step w cc.cluster all_dcs)
            (λ _. wrap ("Can't create role " <> auth.desired_role) (send w.answer role))
            (Keeps->>= P m1 (λ _. system_auth_step w cc.cluster all_dcs)
              (plain (login default_role default_password) refl)
              (λ _.
                system_auth_step-Keeps P (λ t c. plain (keyspace c) refl t) w cc.cluster all_dcs))
            (λ _. plain role refl))

  create_admin_role-Verified :
      (all_dcs : List Dc) (s : List Command) {session : Session}
      → Watched w auth.desired_role auth.desired_password start s
      → (create_admin_role w cc auth all_dcs s).0 ≡ ok (some session)
      → Verified w auth.desired_role auth.desired_password start
          (create_admin_role w cc auth all_dcs s).1
  unfolding create_admin_role before_creation
  create_admin_role-Verified all_dcs s p h =
      let (h', same) = run_ok (before_creation all_dcs) (login_as_created w cc auth) s h in
      subst (Verified w auth.desired_role auth.desired_password start) (sym same) (
        login_as_created-Verified (before_creation all_dcs s).1 (before_creation-Keeps all_dcs s p)
          h')

  desired_login_first :
      (all_dcs : List Dc) {session : Session}
      → (reconcile_admin_role w cc auth all_dcs start).0 ≡ ok (some session)
      → Verified w auth.desired_role auth.desired_password start
          (reconcile_admin_role w cc auth all_dcs start).1
  unfolding reconcile_admin_role
  desired_login_first all_dcs {session = session} h =
      by_outcome (w.answer start (login auth.desired_role auth.desired_password)) refl
    where
      by_outcome :
          (r : Outcome Done)
          → w.answer start (login auth.desired_role auth.desired_password) ≡ r
          → Verified w auth.desired_role auth.desired_password start
              (reconcile_admin_role w cc auth all_dcs start).1
      by_outcome (ok tt) e =
          rw (e, reconcile_admin_role)
            (admin_role_exists-Keeps all_dcs
              (start ++ login auth.desired_role auth.desired_password ∷ []) (logged_in begin e))
      by_outcome (err x) e =
          rw (e, reconcile_admin_role)
            (create_admin_role-Verified all_dcs
              (start ++ login auth.desired_role auth.desired_password ∷ []) {session = session}
              (false, asked (login auth.desired_role auth.desired_password) refl begin)
              (ground arith))
      by_outcome panic e = ground arith

  -- A session that comes back is one of the desired role with the desired password. A login with
  -- these credentials has succeeded, and the secrets were written after it only.
  pub reconcile_admin_role-Verified :
      (all_dcs : List Dc) {session : Session}
      → (reconcile_admin_role w cc auth all_dcs start).0 ≡ ok (some session)
      → IsDesired auth session
        × Verified w auth.desired_role auth.desired_password start
            (reconcile_admin_role w cc auth all_dcs start).1
  reconcile_admin_role-Verified all_dcs {session} h = (
    subst (GivesDesired auth) h (reconcile_admin_role-GivesDesired w cc auth all_dcs start),
    desired_login_first all_dcs h,
  )
