-- ===== src/Admin/Change.antt =====
-- controllers/admin_auth.go: the credentials of a reconciliation, and the change of the admin role.
use mr_cassop.Prelude.{
  String, ◌<>◌, Bool, true, false, not, ◌&&◌, ◌||◌, none, some, List, ◌==◌, string_eq, any,
  is_empty, if◌then◌else◌, wrapped, Outcome, ok, err, panic, Done, Exec, pure, send, wrap, continue,
  ◌>>◌, ◌>>=◌, and_then, rewrap,
}
use mr_cassop.Cluster.{Cluster, found, not_found, failed}
use mr_cassop.Cluster.Names.{prober_ingress_domain}
use mr_cassop.Roles.{text_at}
use mr_cassop.Objects.{KObject}
use mr_cassop.Admin.{
  World, AuthSpec, Credentials, Command, login, update_role_password, create_role, default_role,
  default_password, admin_role, admin_password, is_default, promoted, do_with_retry,
}
use mr_cassop.Admin.Secrets.{active_admin_secret_name, reconcile_admin_secrets}

-- The change over a session with the active credentials.
unfoldable pub change_admin_role : World → Credentials → Exec (List Command) Done
change_admin_role w auth =
    if auth.active_role == auth.desired_role
    then wrap ("Can't update role" <> auth.active_role)
        (send w.answer (update_role_password auth.active_role auth.desired_password))
    else wrap ("Can't create admin role " <> auth.desired_role) (
        send w.answer (
          create_role (record {
            role = auth.desired_role;
            password = auth.desired_password;
            super = true;
            login = true;
          })))

unfoldable pub update_admin_role_in_cassandra : World → Credentials → Exec (List Command) Done
unfolding change_admin_role
update_admin_role_in_cassandra w auth sent =
    let (r, s) = send w.answer (login auth.desired_role auth.desired_password) sent in
    elim r [
      | ok _ ↦ (ok tt, s)
      | panic ↦ (panic, s)
      | err _ ↦
          (wrap "Could not log in with existing credentials"
                (send w.answer (login auth.active_role auth.active_password))
              >> change_admin_role w auth)
            s
    ]

unfoldable pub handle_admin_role_change : World → AuthSpec → Credentials → Exec (List Command) Done
handle_admin_role_change w cc auth =
    wrap "failed to update admin role in cassandra" (update_admin_role_in_cassandra w auth)
    >> wrap
        "Couldn't log in with new credentials. Either the role failed to change or the the cluster didn't propagate the role change in timely manner."
        (do_with_retry (send w.answer (login auth.desired_role auth.desired_password)))
    >> wrap "failed to update admin secret" (reconcile_admin_secrets w cc (promoted auth))

unfoldable pub storage_exists : World → AuthSpec → Outcome Bool
storage_exists w cc =
    if cc.persistence
    then and_then (rewrap "can't get pvcs" w.volume_claims) (λ pvcs. ok (not (is_empty pvcs)))
    else ok false

unfoldable pub joining_existing_managed_region : World → Cluster → Bool
joining_existing_managed_region w c =
    any
      (λ region. elim (w.region_ready (prober_ingress_domain c region)) [
        | none ↦ false
        | some b ↦ b
      ])
      c.managed

unfoldable pub bootstrap_credentials : World → AuthSpec → String → String → Bool → String × String
unfolding joining_existing_managed_region
bootstrap_credentials w cc role password storage =
    if storage
      || not (is_empty cc.cluster.unmanaged)
      || joining_existing_managed_region w cc.cluster
    then (role, password)
    else (default_role, default_password)

unfoldable pub create_cluster_admin_secrets :
    World → AuthSpec → String → String → Exec (List Command) (String × String)
create_cluster_admin_secrets w cc role password sent =
    continue (storage_exists w cc)
      (λ storage.
        let (active_role, active_password) = bootstrap_credentials w cc role password storage in
        wrap "failed to reconcile active admin secrets" (
          reconcile_admin_secrets w cc (record {
            active_role = active_role;
            active_password = active_password;
            desired_role = role;
            desired_password = password;
          }))
        >> pure (active_role, active_password))
      sent

-- The rest of `reconcileAdminAuth` when the active secret exists.
unfoldable pub auth_of_secret : World → AuthSpec → Credentials → Exec (List Command) Credentials
auth_of_secret w cc auth sent =
    let default_role_in_use = is_default auth.active_role auth.active_password in
    let default_role_is_desired = is_default auth.desired_role auth.desired_password in
    if default_role_in_use && default_role_is_desired
    then (ok auth, sent)
    else if default_role_in_use
    then (ok auth, sent)
    else if not (auth.active_role == auth.desired_role)
        || not (auth.active_password == auth.desired_password)
    then (wrap "failed to update operator admin role" (handle_admin_role_change w cc auth)
          >> pure (promoted auth))
        sent
    else (ok auth, sent)

unfoldable pub credentials_in : KObject → String → String → Credentials
credentials_in s role password = record {
  active_role = text_at admin_role s.data_of;
  active_password = text_at admin_password s.data_of;
  desired_role = role;
  desired_password = password;
}

unfoldable pub reconcile_admin_auth :
    World → AuthSpec → String → String → Exec (List Command) Credentials
unfolding active_admin_secret_name
reconcile_admin_auth w cc role password sent =
    let name = active_admin_secret_name cc.cluster.name in
    elim (w.secret sent name) [
      | not_found ↦
          (wrap "failed to create admin secrets for newly created cluster"
                (create_cluster_admin_secrets w cc role password)
              >>= λ p. pure (record {
                active_role = p.0;
                active_password = p.1;
                desired_role = role;
                desired_password = password;
              }))
            sent
      | failed e ↦ (err (wrapped ("failed to get active admin Secret `" <> (name <> "`")) e), sent)
      | found s ↦ auth_of_secret w cc (credentials_in s role password) sent
    ]
