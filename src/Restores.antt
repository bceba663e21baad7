-- ===== src/Restores.antt =====
-- controllers/cassandrarestore: which request is sent to Icarus for a CassandraRestore, which of the
-- restores that Icarus lists belongs to it, and what a reconciliation does. The integers of these
-- resources are not negative.
pub mod Changed
use mr_cassop.Prelude.{
  ℕ, String, ◌<>◌, Bool, true, false, not, ◌&&◌, ◌||◌, Option, none, some, List, [], ◌∷◌, ◌==◌,
  string_eq, find?, if◌then◌else◌, eqb, Error, message, Outcome, ok, err, panic, Done, Exec, pure,
  crash, raise, continue, and_then, Answer, send, ◌>>◌,
}
use mr_cassop.Prelude.Dict.{Dict}
use mr_cassop.Cluster.{Cluster, Dc}
use mr_cassop.Keyspaces.{same_options, covers}
use mr_cassop.Backups.{
  Retry, CassandraBackup, add_slash, or_text, or_number, or_retry, same_bool, same_list, same_retry,
}

-- The settings of icarus.RestoreImport that a resource can choose.
pub record Import : Type 0 where
  pub keep_level : Bool
  pub no_verify : Bool
  pub no_verify_tokens : Bool
  pub no_invalidate_caches : Bool
  pub quick : Bool
  pub extended_verify : Bool
  pub keep_repaired : Bool

-- The fields of a CassandraRestore; `state` is that of its status, and `rename` may be a nil map.
pub record CassandraRestore : Type 0 where
  pub namespace : String
  pub cassandra_backup : String
  pub storage_location : String
  pub snapshot_tag : String
  pub secret_name : String
  pub dc : String
  pub entities : String
  pub concurrent_connections : ℕ
  pub timeout : ℕ
  pub no_delete_downloads : Bool
  pub no_delete_truncates : Bool
  pub no_download_data : Bool
  pub insecure : Bool
  pub skip_bucket_verification : Bool
  pub resolve_host_id : Bool
  pub exact_schema_version : Bool
  pub schema_version : String
  pub rename : Option (Dict String String)
  pub settings : Import
  pub retry : Retry
  pub state : String

-- icarus.RestoreRequest. The type and the source of the import are constants of every request, and
-- stand with it as `import_kind` and `import_source`.
pub record RestoreRequest : Type 0 where
  pub kind : String
  pub storage_location : String
  pub snapshot_tag : String
  pub data_dirs : List String
  pub global_request : Bool
  pub strategy : String
  pub phase : String
  pub import_kind : String
  pub import_source : String
  pub settings : Import
  pub namespace : String
  pub secret_name : String
  pub concurrent_connections : ℕ
  pub entities : String
  pub no_delete_truncates : Bool
  pub no_delete_downloads : Bool
  pub no_download_data : Bool
  pub timeout : ℕ
  pub resolve_host_id : Bool
  pub insecure : Bool
  pub skip_bucket_verification : Bool
  pub retry : Retry
  pub rename : Option (Dict String String)
  pub single_phase : Bool
  pub dc : String
  pub schema_version : String
  pub exact_schema_version : Bool

-- icarus.Restore: the fields that repeat those of the request. It has an exact schema version, which
-- no code reads, and no schema version; here both stand in the request, unread.
pub record Restore : Type 0 where
  pub request : RestoreRequest

abbrev or_empty_map : Option (Dict String String) → Option (Dict String String)
or_empty_map none = some []
or_empty_map (some m) = some m

-- A field of the backup that stands in for one that the restore leaves empty; the backup may be nil.
abbrev pub or_backup : String → (CassandraBackup → String) → Option CassandraBackup → Outcome String
or_backup s field b = if s == "" then elim b [ none ↦ panic | some x ↦ ok (field x) ] else ok s

unfoldable pub request_for :
    String → String → String → Cluster → Dc → CassandraRestore → RestoreRequest
request_for location tag secret c dc r = record {
  kind = "restore";
  storage_location = location <> (c.name <> ("/" <> (dc.name <> "/1")));
  snapshot_tag = tag;
  data_dirs = "/var/lib/cassandra/data" ∷ [];
  global_request = true;
  strategy = "HARDLINKS";
  phase = "INIT";
  import_kind = "import";
  import_source = "file:///var/lib/cassandra/downloadedsstables";
  settings = r.settings;
  namespace = r.namespace;
  secret_name = secret;
  concurrent_connections = or_number r.concurrent_connections 10;
  entities = r.entities;
  no_delete_truncates = r.no_delete_truncates;
  no_delete_downloads = r.no_delete_downloads;
  no_download_data = r.no_download_data;
  timeout = or_number r.timeout 5;
  resolve_host_id = r.resolve_host_id;
  insecure = r.insecure;
  skip_bucket_verification = r.skip_bucket_verification;
  retry = or_retry r.retry;
  rename = or_empty_map r.rename;
  single_phase = false;
  dc = r.dc;
  schema_version = r.schema_version;
  exact_schema_version = r.exact_schema_version;
}

abbrev first_dc : List Dc → Outcome Dc
first_dc [] = panic
first_dc (dc ∷ _) = ok dc

unfoldable pub create_restore_req :
    Cluster → Option CassandraBackup → CassandraRestore → Outcome RestoreRequest
unfolding request_for add_slash
create_restore_req c b r =
    and_then (or_backup r.storage_location (λ x. x.storage_location) b) λ location.
      and_then (first_dc c.dcs) λ dc. and_then (or_backup r.snapshot_tag (λ x. x.name) b) λ tag.
        and_then (or_backup r.secret_name (λ x. x.secret_name) b)
          λ secret. ok (request_for (add_slash location) tag secret c dc r)

abbrev pub same_import : Import → Import → Bool
same_import a b =
    (same_bool a.keep_level b.keep_level
      && (same_bool a.no_verify b.no_verify && same_bool a.no_verify_tokens b.no_verify_tokens))
    && ((same_bool a.no_invalidate_caches b.no_invalidate_caches && same_bool a.quick b.quick)
        && (same_bool a.extended_verify b.extended_verify
            && same_bool a.keep_repaired b.keep_repaired))

-- A nil map and an empty one are not equal.
abbrev pub same_map : Option (Dict String String) → Option (Dict String String) → Bool
same_map none none = true
same_map none (some _) = false
same_map (some _) none = false
same_map (some a) (some b) = same_options a b

-- `cmp.Equal` of two requests, without their tags.
unfoldable pub same_request : RestoreRequest → RestoreRequest → Bool
unfolding covers
same_request a b =
    ((a.kind == b.kind
        && (a.storage_location == b.storage_location && same_list a.data_dirs b.data_dirs))
      && (same_bool a.global_request b.global_request
          && (a.strategy == b.strategy && a.phase == b.phase)))
    && (((a.import_kind == b.import_kind && a.import_source == b.import_source)
          && (same_import a.settings b.settings
              && (a.namespace == b.namespace && a.secret_name == b.secret_name)))
        && (((eqb a.concurrent_connections b.concurrent_connections && a.entities == b.entities)
              && (same_bool a.no_delete_truncates b.no_delete_truncates
                  && (same_bool a.no_delete_downloads b.no_delete_downloads
                      && same_bool a.no_download_data b.no_download_data)))
            && (((eqb a.timeout b.timeout && same_bool a.resolve_host_id b.resolve_host_id)
                  && (same_bool a.insecure b.insecure
                      && same_bool a.skip_bucket_verification b.skip_bucket_verification))
                && ((same_retry a.retry b.retry && same_map a.rename b.rename)
                    && ((same_bool a.single_phase b.single_phase && a.dc == b.dc)
                        && (a.schema_version == b.schema_version
                            && same_bool a.exact_schema_version b.exact_schema_version))))))

-- The request is built again from the record without the two fields of the schema version.
unfoldable pub restore_config_changed : Restore → RestoreRequest → Bool
unfolding same_request
restore_config_changed existing request = not (
    same_request
      (record existing.request {
        kind = "restore";
        global_request = true;
        schema_version = "";
        exact_schema_version = false;
      })
      request)

unfoldable pub find_related_icarus_restore : List Restore → String → Option Restore
find_related_icarus_restore all tag =
    find? (λ x. x.request.global_request && x.request.snapshot_tag == tag) all

pub data Call : Type 0 where
  restore : RestoreRequest → Call
  reset_status : Call
  reconcile_status : Restore → Call

module _ (answer : Answer Call) where
  -- `reconcileFailedRestore`. Both branches have a log line that names the backup, so a nil one
  -- crashes; the controller always passes one.
  unfoldable pub reconcile_failed_restore :
      Cluster → Option CassandraBackup → CassandraRestore → Restore → Exec (List Call) Done
  unfolding create_restore_req restore_config_changed
  reconcile_failed_restore c none r related sent =
      continue (create_restore_req c none r) (λ request. crash) sent
  reconcile_failed_restore c (some b) r related sent =
      continue (create_restore_req c (some b) r)
        (λ request.
          if restore_config_changed related request
          then send answer (restore request) >> send answer reset_status
          else pure tt)
        sent

  -- Once the tag is known and the restores were listed.
  unfoldable pub reconcile_found :
      Cluster → Option CassandraBackup → CassandraRestore → Option Restore → Exec (List Call) Done
  unfolding reconcile_failed_restore
  reconcile_found c b r none sent =
      if r.state == "FAILED"
      then (ok tt, sent)
      else continue (create_restore_req c b r) (λ request. send answer (restore request)) sent
  reconcile_found c b r (some related) sent =
      if r.state == "FAILED"
      then reconcile_failed_restore c b r related sent
      else send answer (reconcile_status related) sent

  abbrev tag_of : CassandraRestore → Option CassandraBackup → Outcome String
  tag_of r b =
      if r.snapshot_tag == ""
      then elim b [ none ↦ err (message "No snapshotTag specified.") | some x ↦ ok x.name ]
      else ok r.snapshot_tag

  -- `reconcileRestore`, without the delay after which it asks to be called again.
  unfoldable pub reconcile_restore :
      Outcome (List Restore)
      → Cluster
      → Option CassandraBackup
      → CassandraRestore
      → Exec (List Call) Done
  unfolding reconcile_found find_related_icarus_restore
  reconcile_restore restores c b r sent =
      continue (tag_of r b)
        (λ tag sent'.
          continue restores (λ all. reconcile_found c b r (find_related_icarus_restore all tag))
            sent')
        sent
