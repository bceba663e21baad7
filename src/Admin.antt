-- ===== src/Admin.antt =====
-- controllers/admin_auth.go, role_admin.go and the retries of helpers.go: the admin role that the
-- operator logs in with, and the secrets that hold it.
pub mod Secrets
pub mod Change
pub mod Creation
pub mod Guarded
pub mod Verified
pub mod Desired
pub mod Sessions
pub mod Retries
pub mod Outcomes
use mr_cassop.Prelude.{
  ℕ, zero, suc, ◌+◌, ◌*◌, String, ◌<>◌, Bool, Option, none, some, List, [], ◌∷◌, ◌++◌, ◌==◌,
  string_eq, ◌&&◌, if◌then◌else◌, Error, message, wrapped, Outcome, ok, err, panic, Done, Exec,
  Answer, rewrap,
}
use mr_cassop.Prelude.Dict.{Dict}
use mr_cassop.Cluster.{Cluster, Get, found, not_found, failed}
use mr_cassop.Keyspaces
use mr_cassop.Keyspaces.{Keyspace}
use mr_cassop.Roles.{CqlRole, text_at}
use mr_cassop.Objects.{KObject, Write}

-- spec.encryption.client
pub record ClientEncryption : Type 0 where
  pub enabled : Bool
  pub require_client_auth : Option Bool
  pub secret_name : String
  pub ca_crt_file_key : String
  pub file_key : String
  pub crt_file_key : String
  pub keystore_file_key : String
  pub keystore_password_key : String
  pub truststore_file_key : String
  pub truststore_password_key : String

-- The parts of a CassandraCluster that this module reads.
pub record AuthSpec : Type 0 where
  pub cluster : Cluster
  pub labels : Dict String String
  pub admin_role_secret : String
  pub jmx_auth : String
  pub persistence : Bool
  pub client : ClientEncryption

pub record Credentials : Type 0 where
  pub active_role : String
  pub active_password : String
  pub desired_role : String
  pub desired_password : String

-- `login` opens a CQL session; the other commands of CQL go over one that is open.
pub data Command : Type 0 where
  login : String → String → Command
  keyspace : Keyspaces.Call → Command
  update_role_password : String → String → Command
  create_role drop_role : CqlRole → Command
  write : Write → Command
  sleep : ℕ → Command

-- The other systems: what they answer to a command after those sent so far, the secrets that
-- Kubernetes then holds, and what it and the prober tell. A prober that cannot be asked is `none`.
-- `own` is SetControllerReference, `trim_newlines` is `strings.TrimRight(s, "\r\n")`.
pub record World : Type 0 where
  pub answer : Answer Command
  pub secret : List Command → String → Get KObject
  pub own : KObject → Outcome KObject
  pub equal : KObject → KObject → Bool
  pub trim_newlines : String → String
  pub volume_claims : Outcome (List String)
  pub region_ready : String → Option Bool
  pub digits : ℕ → String
  pub keyspaces_info : Outcome (List Keyspace)
  pub reaper_running : Outcome Bool

abbrev pub default_role : String
default_role = "cassandra"

abbrev pub default_password : String
default_password = "cassandra"

abbrev pub admin_role : String
admin_role = "admin-role"

abbrev pub admin_password : String
admin_password = "admin-password"

abbrev pub is_default : String → String → Bool
is_default role password = role == default_role && password == default_password

abbrev pub promoted : Credentials → Credentials
promoted auth = record auth {
  active_role = auth.desired_role;
  active_password = auth.desired_password;
}

-- `getSecret`
abbrev pub get_secret : String → Get KObject → Outcome KObject
get_secret name (found s) = ok s
get_secret name not_found = err (wrapped (name <> " secret doesn't exist") (message "not found"))
get_secret name (failed e) = err (wrapped ("can't get " <> name) e)

-- `extractCredentials`
unfoldable pub extract_credentials : KObject → Outcome (String × String)
extract_credentials s =
    let role = text_at admin_role s.data_of in
    let password = text_at admin_password s.data_of in
    if role == ""
    then err (message "admin role or password is empty")
    else if password == ""
    then err (message "admin role or password is empty")
    else ok (role, password)

abbrev pub retry_attempts : ℕ
retry_attempts = 3

abbrev pub initial_retry_delay_seconds : ℕ
initial_retry_delay_seconds = 5

-- What an attempt with this outcome is followed by.
abbrev pub after_attempt :
    Outcome Done → (Error → Exec (List Command) Done) → Exec (List Command) Done
after_attempt (ok _) again s = (ok tt, s)
after_attempt (err e) again s = again e s
after_attempt panic again s = (panic, s)

-- The loop of `doWithRetry` with the attempts that are left, the number of the next one, and the last
-- outcome. A failed attempt is followed by a pause, the last one too.
unfoldable pub retry_from :
    ℕ → ℕ → Outcome Done → Exec (List Command) Done → Exec (List Command) Done
retry_from zero attempt last retry sent = (last, sent)
retry_from (suc left) attempt last retry sent =
    let (r, s) = retry sent in
    after_attempt r
      (λ e t.
        retry_from left (suc attempt) (err e) retry
          (t ++ sleep (initial_retry_delay_seconds * attempt) ∷ []))
      s

unfoldable pub do_with_retry : Exec (List Command) Done → Exec (List Command) Done
unfolding retry_from
do_with_retry = retry_from retry_attempts 1 (ok tt)
