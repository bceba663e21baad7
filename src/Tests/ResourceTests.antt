-- ===== src/Tests/ResourceTests.antt =====
-- Webhooks, backups, maintenance and readiness at concrete inputs.
use mathlib.Core.List.{Memᴰ}
use mr_cassop.Prelude.{
  ℕ, String, ◌<>◌, Bool, true, false, not, ◌&&◌, ◌||◌, Option, none, some, List, [], ◌∷◌, any,
  is_empty, ◌≡◌, refl, ◌==◌, string_eq, if◌then◌else◌, Outcome, ok, panic, Done,
}
use mr_cassop.Prelude.Dict.{lookup}
use mr_cassop.Cluster.{
  Cluster, Dc, Pod, Maintenance, StatefulSet, Get, found, dc_label, SystemKeyspaceDc,
}
use mr_cassop.Cluster.Samples.{cluster, pod}
use mr_cassop.InitOrder.PodsConfig.{value_at}
use mr_cassop.InitOrder.Regions.{unready_dcs, dc_unready, unready_regions}
use mr_cassop.Webhooks.{CassandraSpec, Spec, Parsers, general_validation, is_set}
use mr_cassop.Webhooks.Accepted.{
  accepts, seeds_accepted, rf_accepted, general_validation-accepts, general_validation-panics,
}
use mr_cassop.Backups.{
  CassandraBackup, BackupRequest, Backup, create_backup_request, backup_config_changed, add_slash,
  request_for,
}
use mr_cassop.Backups.Requests.{create_backup_request_lem}
use mr_cassop.Restores
use mr_cassop.Restores.{RestoreRequest}
use mr_cassop.Restores.Changed.{restore_config_changed-own}
use mr_cassop.Maintenance.{Call, check_maintenance_running, generate_maintenance_status}
use mr_cassop.Maintenance.Status.{listed, generate_maintenance_status-listed}
use mr_cassop.ClusterReady.{Seen, regions_verdict, cluster_ready}
use mr_cassop.ClusterReady.Verdict.{cluster_ready-true}

abbrev cassandra : Option String → CassandraSpec
cassandra storage_class = record {
  num_seeds = 2;
  persistence = true;
  storage_class = storage_class;
  config_overrides = "";
  scrape_interval = "";
}

abbrev dc1_factor : List SystemKeyspaceDc
dc1_factor = record { name = "dc1"; rf = 3 } ∷ []

abbrev dc2 : Dc
dc2 = record { name = "dc2"; replicas = some 3 }

abbrev spec : Spec
spec = record {
  cassandra = some (cassandra (some "fast"));
  dcs = some (dc2 ∷ []);
  system_dcs = some dc1_factor;
  server_node_tls = "";
  server_ca_tls = "";
  client_node_tls = "";
  client_ca_tls = "";
  reaper = none;
  prober_scrape_interval = "";
  ingress_domain = "a.com";
  ingress_secret = "tls";
  host_port = true;
  managed = some [];
  network_policies = false;
  extra_cassandra_ports = [];
}

-- The configured factors know the first DC, and not the second.
abbrev two_dcs : Spec
two_dcs = record spec { dcs = some (record { name = "dc1"; replicas = some 3 } ∷ dc2 ∷ []) }

general_validation-accepts_example : accepts (general_validation spec) ≡ (
    seeds_accepted spec.cassandra spec.dcs
    && (rf_accepted spec.system_dcs spec.dcs
        && (not (is_set spec.server_node_tls && is_set spec.server_ca_tls)
            && not (is_set spec.client_ca_tls && is_set spec.client_node_tls))))
general_validation-accepts_example = general_validation-accepts spec

general_validation-panics_example : general_validation two_dcs ≡ panic
unfolding string_eq
general_validation-panics_example =
    general_validation-panics two_dcs dc1_factor refl refl (Memᴰ.tail (Memᴰ.head refl)) refl

abbrev parsers : Parsers
parsers = record {
  yaml = λ s. true;
  duration = λ s. true;
  time = λ s. true;
  intensity = λ s. some true;
}

abbrev backup : CassandraBackup
backup = record {
  name = "b";
  namespace = "ns";
  storage_location = "s3://bucket/";
  snapshot_tag = "";
  secret_name = "s";
  concurrent_connections = 0;
  dc = "";
  entities = "";
  timeout = 0;
  duration = "";
  metadata_directive = "";
  insecure = false;
  create_missing_bucket = false;
  skip_bucket_verification = false;
  skip_refreshing = false;
  retry = record { interval = 0; strategy = ""; max_attempts = 0; enabled = false };
  bandwidth = none;
  state = "";
}

abbrev dc1 : Dc
dc1 = record { name = "dc1"; replicas = some 3 }

abbrev request : BackupRequest
request = request_for (add_slash "s3://bucket/") cluster dc1 backup

create_backup_request_lem_example :
    (request.storage_location ≡ ("s3://bucket/" <> "/") <> ("c" <> ("/" <> ("dc1" <> "/1"))))
    × (backup_config_changed
          (record {
            request = record request { snapshot_tag = "b-1" };
            creation_time = "t";
            schema_version = "1";
          })
          request
        ≡ false)
unfolding create_backup_request
create_backup_request_lem_example =
    create_backup_request_lem cluster dc1 (record { name = "dc2"; replicas = some 1 } ∷ []) backup
      request "b-1" "t" "1" refl refl

abbrev parse : String → Option ℕ
parse t = if t == "1" then some 1 else if t == "2" then some 2 else none

abbrev never : String → String → Bool
never s t = false

abbrev created : String → Backup
created t = record { request = request; creation_time = t; schema_version = "1" }

abbrev idle : Pod
idle = pod "dc1-0" "dc1" true

abbrev asked : List Maintenance
asked = record { dc = "dc1"; pods = "dc1-0" ∷ [] } ∷ []

generate_maintenance_status-listed_example :
    listed "dc1" "dc1-0" (generate_maintenance_status (idle ∷ []))
    ≡ any
        (λ p.
          check_maintenance_running p && (value_at dc_label p.labels == "dc1" && p.name == "dc1-0"))
        (idle ∷ [])
generate_maintenance_status-listed_example =
    generate_maintenance_status-listed "dc1" "dc1-0" (idle ∷ [])

abbrev accept : List Call → Call → Outcome Done
accept sent call = ok tt

abbrev ready_sts : String → Get StatefulSet
ready_sts name = found (record {
  name = name;
  labels = [];
  replicas = some 3;
  ready_replicas = if name == "c-cassandra-dc1" then 3 else 1;
})

abbrev seen : Seen
seen = record { get_sts = ready_sts; region_ready = λ host. ok true }

abbrev take : List Bool → Bool → Outcome Done
take sent b = ok tt

abbrev one_dc : Cluster
one_dc = record cluster { dcs = record { name = "dc1"; replicas = some 3 } ∷ [] }

cluster_ready-true_example :
    (unready_dcs ready_sts "c" one_dc.dcs ≡ ok [])
    × (take [] true ≡ ok tt)
    × ((regions : List String) × (unready_regions (λ host. ok true) one_dc [] ≡ ok regions)
        × ((false && not (is_empty regions)) ≡ false))
unfolding cluster_ready regions_verdict unready_dcs dc_unready unready_regions string_eq
cluster_ready-true_example = cluster_ready-true seen take one_dc [] refl

abbrev restore_request : RestoreRequest
restore_request = Restores.request_for "s3://bucket/" "b" "s" cluster dc1 (record {
  namespace = "ns";
  cassandra_backup = "b";
  storage_location = "";
  snapshot_tag = "";
  secret_name = "";
  dc = "";
  entities = "";
  concurrent_connections = 0;
  timeout = 0;
  no_delete_downloads = false;
  no_delete_truncates = false;
  no_download_data = false;
  insecure = false;
  skip_bucket_verification = false;
  resolve_host_id = false;
  exact_schema_version = false;
  schema_version = "42";
  rename = some (("t", "u") ∷ []);
  settings = record {
    keep_level = false;
    no_verify = false;
    no_verify_tokens = false;
    no_invalidate_caches = false;
    quick = false;
    extended_verify = false;
    keep_repaired = false;
  };
  retry = backup.retry;
  state = "";
})

restore_config_changed-own_example :
    Restores.restore_config_changed
      (record { request = record restore_request { snapshot_tag = "b-1" } })
      restore_request
    ≡ (not (restore_request.schema_version == "") || restore_request.exact_schema_version)
unfolding Restores.request_for lookup string_eq
restore_config_changed-own_example =
    restore_config_changed-own restore_request "b-1" (("t", "u") ∷ []) refl refl refl (refl, tt)
