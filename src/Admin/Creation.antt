-- ===== src/Admin/Creation.antt =====
-- controllers/role_admin.go and default_role.go: the secure admin role is created, and the default
-- role of Cassandra is dropped.
use mr_cassop.Prelude.{
  String, ◌<>◌, true, false, not, Option, none, some, List, ◌==◌, string_eq, any, if◌then◌else◌,
  wrapped, message, Outcome, ok, err, panic, Done, Exec, pure, send, wrap, continue, ◌>>◌, embed,
}
use mr_cassop.Cluster.{Cluster, Dc, Get, found, not_found, failed}
use mr_cassop.Keyspaces.{reconcile_system_auth_keyspace}
use mr_cassop.Roles.{CqlRole, text_at}
use mr_cassop.Objects.{KObject}
use mr_cassop.Admin.{
  World, AuthSpec, Credentials, Command, login, keyspace, create_role, drop_role, default_role,
  default_password, admin_role, admin_password, is_default, promoted, do_with_retry,
}
use mr_cassop.Admin.Secrets.{reconcile_admin_secrets}

-- An open CQL session.
pub record Session : Type 0 where
  pub role : String
  pub password : String

abbrev pub system_auth_step : World → Cluster → List Dc → Exec (List Command) Done
system_auth_step w c all_dcs =
    embed keyspace w.answer
      (λ a. reconcile_system_auth_keyspace w.digits a w.keyspaces_info w.reaper_running c all_dcs)

unfoldable pub create_admin_role_in_cassandra :
    World → Cluster → List Dc → String → String → Exec (List Command) Done
create_admin_role_in_cassandra w c all_dcs role password =
    wrap ("Can't create cql session with role " <> default_role)
      (send w.answer (login default_role default_password))
    >> system_auth_step w c all_dcs
    >> wrap ("Can't create role " <> role) (
        send w.answer
          (create_role (record { role = role; password = password; super = true; login = true })))

-- The session that the last attempt to log in left in the variable.
abbrev pub session_of : Credentials → Outcome Done → Outcome (Option Session)
session_of auth (ok _) =
    ok (some (record { role = auth.desired_role; password = auth.desired_password }))
session_of auth (err _) = ok none
session_of auth panic = panic

-- The rest of `reconcileAdminRole` once the role is created: the error of the retried login is not
-- looked at.
unfoldable pub login_as_created :
    World → AuthSpec → Credentials → Exec (List Command) (Option Session)
login_as_created w cc auth sent =
    let (r, s) =
      do_with_retry (send w.answer (login auth.desired_role auth.desired_password)) sent in
    continue (session_of auth r)
      (λ session.
        wrap "failed to update admin secrets with new password"
          (reconcile_admin_secrets w cc (promoted auth))
        >> pure session)
      s

-- The branch of `reconcileAdminRole` in which the desired role could log in.
unfoldable pub admin_role_exists :
    World → AuthSpec → Credentials → List Dc → Exec (List Command) (Option Session)
admin_role_exists w cc auth all_dcs =
    system_auth_step w cc.cluster all_dcs
    >> reconcile_admin_secrets w cc (promoted auth)
    >> pure (some (record { role = auth.desired_role; password = auth.desired_password }))

-- The branch in which it could not.
unfoldable pub create_admin_role :
    World → AuthSpec → Credentials → List Dc → Exec (List Command) (Option Session)
create_admin_role w cc auth all_dcs =
    wrap "can't establish cql connection both with default and desired admin roles"
      (send w.answer (login default_role default_password))
    >> wrap "can't create admin role" (
        create_admin_role_in_cassandra w cc.cluster all_dcs auth.desired_role auth.desired_password)
    >> login_as_created w cc auth

unfoldable pub reconcile_admin_role :
    World → AuthSpec → Credentials → List Dc → Exec (List Command) (Option Session)
unfolding admin_role_exists create_admin_role
reconcile_admin_role w cc auth all_dcs sent =
    let (r, s) = send w.answer (login auth.desired_role auth.desired_password) sent in
    elim r [
      | ok _ ↦ admin_role_exists w cc auth all_dcs s
      | panic ↦ (panic, s)
      | err _ ↦ create_admin_role w cc auth all_dcs s
    ]

-- The end of `removeDefaultRoleIfExists`, once the default role could log in.
unfoldable pub drop_default_role : World → Get KObject → Exec (List Command) Done
drop_default_role w (found s) sent =
    if is_default (text_at admin_role s.data_of) (text_at admin_password s.data_of)
    then (ok tt, sent)
    else wrap ("Can't drop role " <> default_role)
        (send w.answer
          (drop_role (record { role = default_role; password = ""; super = false; login = false })))
        sent
drop_default_role w not_found sent =
    (err (wrapped "can't get admin secret" (message "not found")), sent)
drop_default_role w (failed e) sent = (err (wrapped "can't get admin secret" e), sent)

-- The second argument is the answer of `GetRoles`.
unfoldable pub remove_default_role_if_exists :
    World → AuthSpec → Outcome (List CqlRole) → Exec (List Command) Done
remove_default_role_if_exists w cc get_roles sent =
    continue get_roles
      (λ existing s.
        if not (any (λ r. r.role == default_role) existing)
        then (ok tt, s)
        else let (r, s') = send w.answer (login default_role default_password) s in
          elim r [
            | ok _ ↦ drop_default_role w (w.secret s' cc.admin_role_secret) s'
            | err _ ↦ (ok tt, s')
            | panic ↦ (panic, s')
          ])
      sent
