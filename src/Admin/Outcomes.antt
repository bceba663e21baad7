-- ===== src/Admin/Outcomes.antt =====
-- controllers/admin_auth.go, role_admin.go and default_role.go: what the operations give back, and
-- when the default role is dropped.
use mr_cassop.Prelude.{
  rewrap_ok, String, Bool, true, false, not, ◌&&◌, none, List, [], ◌∷◌, ◌++◌, ◌≡◌, refl, ◌⊎◌, arith,
  ◌==◌, string_eq, any, if◌then◌else◌, Error, Outcome, ok, err, panic, is_ok, pure, continue,
  rewrap, append-nil,
}
use mathlib.Core.List.{append_assoc}
use mr_cassop.Cluster.{Get, found, not_found, failed}
use mr_cassop.Roles.{CqlRole, text_at}
use mr_cassop.Objects.{KObject}
use mr_cassop.Admin.{
  World, AuthSpec, Credentials, Command, login, drop_role, sleep, default_role, default_password,
  admin_role, admin_password, is_default, promoted, do_with_retry, retry_from,
}
use mr_cassop.Admin.Secrets.{active_admin_secret_name, reconcile_admin_secrets}
use mr_cassop.Admin.Change.{
  reconcile_admin_auth, auth_of_secret, credentials_in, create_cluster_admin_secrets,
  bootstrap_credentials,
}
use mr_cassop.Admin.Creation.{login_as_created, remove_default_role_if_exists, drop_default_role}

abbrev pub default_cql_role : CqlRole
default_cql_role = record { role = default_role; password = ""; super = false; login = false }

-- A secret with other credentials than the default ones.
abbrev pub names_another : Get KObject → Bool
names_another (found s) =
    not (is_default (text_at admin_role s.data_of) (text_at admin_password s.data_of))
names_another _ = false

bootstrapped :
    (role password : String) (r : Outcome (String × String)) (t : List Command) {a : Credentials}
    → ((p : String × String)
        → r ≡ ok p
        → ((p.0 ≡ role) × (p.1 ≡ password)) ⊎ ((p.0 ≡ default_role) × (p.1 ≡ default_password)))
    → (continue r
        (λ p. pure (record {
          active_role = p.0;
          active_password = p.1;
          desired_role = role;
          desired_password = password;
        }))
        t).0
      ≡ ok a
    → (a.desired_role ≡ role)
      × (a.desired_password ≡ password)
      × (((a.active_role ≡ role) × (a.active_password ≡ password))
          ⊎ ((a.active_role ≡ default_role) × (a.active_password ≡ default_password)))
bootstrapped role password (ok p) t k h = ground (arith, k p refl)
bootstrapped role password (err e) t k h = cc
bootstrapped role password panic t k h = cc

module _ (w : World) (cc : AuthSpec) where
  auth_of_secret-active :
      (auth : Credentials) (sent : List Command) {a : Credentials}
      → (auth_of_secret w cc auth sent).0 ≡ ok a
      → (a.desired_role ≡ auth.desired_role)
        × (a.desired_password ≡ auth.desired_password)
        × (((a.active_role ≡ a.desired_role) × (a.active_password ≡ a.desired_password))
            ⊎ ((a.active_role ≡ default_role) × (a.active_password ≡ default_password)))
  unfolding auth_of_secret
  auth_of_secret-active auth sent h = ground arith

  create_cluster_admin_secrets-active :
      (role password : String) (sent : List Command) {p : String × String}
      → (create_cluster_admin_secrets w cc role password sent).0 ≡ ok p
      → ((p.0 ≡ role) × (p.1 ≡ password)) ⊎ ((p.0 ≡ default_role) × (p.1 ≡ default_password))
  unfolding create_cluster_admin_secrets bootstrap_credentials
  create_cluster_admin_secrets-active role password sent h = ground arith

  -- When no login with the desired credentials succeeds and the secrets can be written, no session
  -- comes back, and no error.
  pub login_as_created-none :
      (auth : Credentials) (sent : List Command)
      → ((s : List Command)
          → (e : Error) × (w.answer s (login auth.desired_role auth.desired_password) ≡ err e))
      → ((s : List Command) → is_ok (reconcile_admin_secrets w cc (promoted auth) s).0 ≡ true)
      → (login_as_created w cc auth sent).0 ≡ ok none
  unfolding login_as_created do_with_retry retry_from
  login_as_created-none auth sent h k =
      let c = login auth.desired_role auth.desired_password in
      let s1 = (sent ++ c ∷ []) ++ sleep 5 ∷ [] in
      let s2 = (s1 ++ c ∷ []) ++ sleep 10 ∷ [] in
      let s3 = (s2 ++ c ∷ []) ++ sleep 15 ∷ [] in
      ground (arith, (h sent).1, (h s1).1, (h s2).1, k s3)

  -- The credentials that a reconciliation goes on with have the desired role and password as the
  -- desired ones, and as the active ones either the desired or the default ones of Cassandra.
  pub reconcile_admin_auth-active :
      (role password : String) (sent : List Command) {a : Credentials}
      → (reconcile_admin_auth w cc role password sent).0 ≡ ok a
      → (a.desired_role ≡ role)
        × (a.desired_password ≡ password)
        × (((a.active_role ≡ role) × (a.active_password ≡ password))
            ⊎ ((a.active_role ≡ default_role) × (a.active_password ≡ default_password)))
  unfolding reconcile_admin_auth credentials_in
  reconcile_admin_auth-active role password sent {a} h =
      by_get (w.secret sent (active_admin_secret_name cc.cluster.name)) refl
    where
      by_get :
          (g : Get KObject)
          → w.secret sent (active_admin_secret_name cc.cluster.name) ≡ g
          → (a.desired_role ≡ role)
            × (a.desired_password ≡ password)
            × (((a.active_role ≡ role) × (a.active_password ≡ password))
                ⊎ ((a.active_role ≡ default_role) × (a.active_password ≡ default_password)))
      by_get (found s) e =
          ground (arith, auth_of_secret-active (credentials_in s role password) sent {a = a})
      by_get not_found e = ground (
        arith,
        bootstrapped role password
            (rewrap "failed to create admin secrets for newly created cluster"
              (create_cluster_admin_secrets w cc role password sent).0)
            (create_cluster_admin_secrets w cc role password sent).1 {a = a}
            (λ p q. create_cluster_admin_secrets-active role password sent (rewrap_ok _ _ q)),
      )
      by_get (failed x) e = ground arith

  drop_default_role-drops :
      (g : Get KObject) (s : List Command)
      → (drop_default_role w g s).1
        ≡ (if names_another g then s ++ drop_role default_cql_role ∷ [] else s)
  unfolding drop_default_role
  drop_default_role-drops (found o) s = ground arith
  drop_default_role-drops not_found s = refl
  drop_default_role-drops (failed e) s = refl

  -- Once the roles could be read, the default role is dropped exactly if it exists, can log in with the
  -- default password, and the admin secret can be read and names other credentials.
  pub remove_default_role_if_exists-drops :
      (existing : List CqlRole) (sent : List Command)
      → (remove_default_role_if_exists w cc (ok existing) sent).1
        ≡ sent
          ++ (if any (λ r. r.role == default_role) existing
              then login default_role default_password
                ∷ (if is_ok (w.answer sent (login default_role default_password))
                      && names_another (
                          w.secret
                            (sent ++ login default_role default_password ∷ [])
                            cc.admin_role_secret)
                    then drop_role default_cql_role ∷ []
                    else [])
              else [])
  unfolding remove_default_role_if_exists
  remove_default_role_if_exists-drops existing sent =
      let c = login default_role default_password in
      ground (
        arith,
        drop_default_role-drops (w.secret (sent ++ c ∷ []) cc.admin_role_secret) (sent ++ c ∷ []),
        append-nil sent,
        append_assoc sent (c ∷ []) (drop_role default_cql_role ∷ []),
      )
