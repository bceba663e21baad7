-- ===== src/Tests/AdminTests.antt =====
-- The admin role and its secrets at concrete inputs.
use mr_cassop.Prelude.{
  Bool, true, false, none, List, [], ◌∷◌, ◌++◌, ◌≡◌, refl, ◌⊎◌, ◌==◌, string_eq, if◌then◌else◌,
  Outcome, ok, err, message, Done, is_ok, any, embed, option_eq, ◌&&◌, send,
}
use mr_cassop.Prelude.Dict.{lookup, insert}
use mr_cassop.Cluster.{found, not_found}
use mr_cassop.Cluster.Samples.{cluster}
use mr_cassop.Objects.{KObject, reconcile_secret}
use mr_cassop.Objects.Twice.{stored, reconcile_secret-twice}
use mr_cassop.Admin.{
  World, AuthSpec, Credentials, promoted, Command, login, drop_role, default_role, default_password,
  do_with_retry,
}
use mr_cassop.Keyspaces.{reconcile_system_auth_keyspace, desired_replication_options}
use mr_cassop.Admin.Secrets.{
  reconcile_admin_secrets, reconcile_active_admin_secret, replace_active_admin_secret,
  reconcile_admin_auth_config_secret, write_config_secret,
}
use mr_cassop.Admin.Change.{
  auth_of_secret, credentials_in, update_admin_role_in_cassandra, handle_admin_role_change,
  reconcile_admin_auth,
}
use mr_cassop.Admin.Creation.{
  create_admin_role_in_cassandra, login_as_created, reconcile_admin_role,
  remove_default_role_if_exists,
}
use mr_cassop.Admin.Guarded.{Watched, Verified}
use mr_cassop.Admin.Verified.{handle_admin_role_change-guarded}
use mr_cassop.Admin.Sessions.{reconcile_admin_role-Verified}
use mr_cassop.Admin.Retries.{Tried, do_with_retry-Tried}
use mr_cassop.Admin.Outcomes.{
  reconcile_admin_auth-active, remove_default_role_if_exists-drops, login_as_created-none,
  names_another, default_cql_role,
}

abbrev secret : KObject
secret = record {
  name = "s";
  labels = [];
  data_of = ("admin-role", "alice") ∷ ("admin-password", "old") ∷ [];
  annotations = ("k", "v") ∷ [];
  owners = [];
  type_of = "Opaque";
}

abbrev always : KObject → KObject → Bool
always a b = true

reconcile_secret-twice_example :
    reconcile_secret always
      (λ s c. ok tt)
      secret
      (stored not_found (reconcile_secret always (λ s c. ok tt) secret not_found []).1)
      (reconcile_secret always (λ s c. ok tt) secret not_found []).1
    ≡ (ok tt, (reconcile_secret always (λ s c. ok tt) secret not_found []).1)
unfolding reconcile_secret lookup
reconcile_secret-twice_example =
    reconcile_secret-twice always (λ a b n l d m o t. refl) (λ s c. ok tt) secret (refl, tt)
      not_found tt refl

abbrev spec : AuthSpec
spec = record {
  cluster = cluster;
  labels = [];
  admin_role_secret = "admin";
  jmx_auth = "local_files";
  persistence = true;
  client = record {
    enabled = false;
    require_client_auth = none;
    secret_name = "";
    ca_crt_file_key = "";
    file_key = "";
    crt_file_key = "";
    keystore_file_key = "";
    keystore_password_key = "";
    truststore_file_key = "";
    truststore_password_key = "";
  };
}

-- The first command fails.
abbrev late : List Command → Command → Outcome Done
late [] c = err (message "denied")
late (_ ∷ _) c = ok tt

abbrev refused : List Command → Command → Outcome Done
refused s (login r p) = err (message "denied")
refused s _ = ok tt

abbrev world : (List Command → Command → Outcome Done) → World
world answer = record {
  answer = answer;
  secret = λ s n. found secret;
  own = λ o. ok o;
  equal = λ a b. false;
  trim_newlines = λ s. s;
  volume_claims = ok [];
  region_ready = λ h. none;
  digits = λ n. "3";
  keyspaces_info = ok (record { name = "system_auth"; replication = [] } ∷ []);
  reaper_running = ok false;
}

abbrev creds : Credentials
creds = record {
  active_role = "alice";
  active_password = "old";
  desired_role = "alice";
  desired_password = "new";
}

handle_admin_role_change-guarded_example :
    Verified (world late) "alice" "new" [] (handle_admin_role_change (world late) spec creds []).1
    ⊎ (Watched (world late) "alice" "new" [] (handle_admin_role_change (world late) spec creds []).1
        × (is_ok (handle_admin_role_change (world late) spec creds []).0 ≡ false))
handle_admin_role_change-guarded_example =
    handle_admin_role_change-guarded (world late) spec creds []

reconcile_admin_role-Verified_example :
    (("alice" ≡ creds.desired_role) × ("new" ≡ creds.desired_password))
    × Verified
        (world late)
        "alice"
        "new"
        []
        (reconcile_admin_role (world late) spec creds cluster.dcs []).1
unfolding reconcile_admin_role create_admin_role_in_cassandra reconcile_system_auth_keyspace
    string_eq desired_replication_options insert option_eq lookup login_as_created do_with_retry
    reconcile_admin_secrets reconcile_active_admin_secret replace_active_admin_secret
    reconcile_admin_auth_config_secret write_config_secret embed reconcile_secret
reconcile_admin_role-Verified_example =
    reconcile_admin_role-Verified (world late) spec creds [] cluster.dcs
      {session = record { role = "alice"; password = "new" }} refl

login_as_created-none_example : (login_as_created (world refused) spec creds []).0 ≡ ok none
unfolding reconcile_admin_secrets reconcile_active_admin_secret replace_active_admin_secret
    reconcile_admin_auth_config_secret write_config_secret embed reconcile_secret
login_as_created-none_example =
    login_as_created-none (world refused) spec creds [] (λ s. (message "denied", refl)) (λ s. refl)

reconcile_admin_auth-active_example :
    ((promoted creds).desired_role ≡ "alice")
    × ((promoted creds).desired_password ≡ "new")
    × ((((promoted creds).active_role ≡ "alice") × ((promoted creds).active_password ≡ "new"))
        ⊎ (((promoted creds).active_role ≡ default_role)
            × ((promoted creds).active_password ≡ default_password)))
unfolding reconcile_admin_auth auth_of_secret handle_admin_role_change
    update_admin_role_in_cassandra do_with_retry string_eq reconcile_admin_secrets
    reconcile_active_admin_secret replace_active_admin_secret reconcile_admin_auth_config_secret
    write_config_secret embed reconcile_secret credentials_in lookup
reconcile_admin_auth-active_example =
    reconcile_admin_auth-active (world late) spec "alice" "new" [] {a = promoted creds} refl

do_with_retry-Tried_example :
    Tried late (login "alice" "new") 3 1 [] (do_with_retry (send late (login "alice" "new")) [])
do_with_retry-Tried_example = do_with_retry-Tried late (login "alice" "new") []

remove_default_role_if_exists-drops_example :
    (remove_default_role_if_exists (world late) spec (ok (default_cql_role ∷ [])) []).1
    ≡ []
      ++ (if any (λ r. r.role == default_role) (default_cql_role ∷ [])
          then login default_role default_password
            ∷ (if is_ok (late [] (login default_role default_password))
                  && names_another (found secret)
                then drop_role default_cql_role ∷ []
                else [])
          else [])
remove_default_role_if_exists-drops_example =
    remove_default_role_if_exists-drops (world late) spec (default_cql_role ∷ []) []
