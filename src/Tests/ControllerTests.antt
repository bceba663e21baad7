-- ===== src/Tests/ControllerTests.antt =====
-- A pass of the operator at concrete inputs. The world is the number of changes to Cassandra.
use mr_cassop.Prelude.{
  ℕ, suc, true, false, none, [], ◌∷◌, ◌≡◌, refl, ◌⊎◌, ok, Done, Exec, pure, string_eq,
}
use mr_cassop.Prelude.Dict.{lookup}
use mr_cassop.Cluster.{Cluster, found}
use mr_cassop.Cluster.Samples.{cluster}
use mr_cassop.Controller.{
  Phases, after_delay, by_credentials, by_readiness, reconcile_with_context, done,
}
use mr_cassop.Controller.Untouched.{Prepares, reconcile_with_context-untouched}

abbrev count : Exec ℕ Done
count n = (ok tt, suc n)

abbrev phases : Cluster → Phases ℕ
phases c = record {
  cleanup_network_policies = pure tt;
  cassandra_rbac = pure tt;
  tls_secrets = pure tt;
  cleanup_client_tls_dir = λ s. s;
  base_admin_secret = λ s. found (record {
    name = "s";
    labels = [];
    data_of = ("admin-role", "alice") ∷ ("admin-password", "old") ∷ [];
    annotations = [];
    owners = [];
    type_of = "";
  });
  annotate = λ o. pure tt;
  admin_auth = λ r p.
      pure
        (record { active_role = r; active_password = p; desired_role = r; desired_password = p });
  maintenance_config_map = pure tt;
  prometheus_config_map = pure tt;
  collectd_config_map = pure tt;
  service_monitor = pure tt;
  prober = pure tt;
  prober_ready = λ s. ok true;
  update_dcs = pure tt;
  cassandra_config_map = pure tt;
  get_pods = λ s. ok [];
  list_nodes = λ s. ok [];
  pods_config_map = λ pods nodes. pure tt;
  cassandra = pure tt;
  get_all_dcs = λ s. ok [];
  scaling = λ pods nodes dcs o. pure false;
  maintenance = pure tt;
  system_auth_if_ready = λ dcs. pure tt;
  cluster_ready = pure false;
  admin_role = λ auth dcs. pure none;
  roles = λ session. count;
  wait_for_first_region_reaper = λ s. ok false;
  reaper_keyspace = λ session dcs. count;
  reaper = λ pods nodes. pure done;
  reaper_running = λ s. ok true;
  update_reaper_status = λ b. pure tt;
  reaper_initialization = pure tt;
  repair_schedules = pure tt;
  keyspaces = λ session dcs. count;
  cql_config_maps = λ session. count;
  remove_default_role = λ session. count;
  network_policies = λ pods. pure tt;
  update_status = λ b. pure tt;
}

abbrev prepares : (c : Cluster) → Prepares (λ n. n ≡ 0) (phases c)
prepares c = record {
  keeps_network_policies = λ s q. q;
  keeps_rbac = λ s q. q;
  keeps_tls = λ s q. q;
  keeps_cleanup = λ s q. q;
  keeps_annotations = λ o s q. q;
  keeps_auth = λ r p s q. q;
  keeps_maintenance_map = λ s q. q;
  keeps_prometheus = λ s q. q;
  keeps_collectd = λ s q. q;
  keeps_monitor = λ s q. q;
  keeps_prober = λ s q. q;
  keeps_dcs = λ s q. q;
  keeps_cassandra_map = λ s q. q;
  keeps_pods_map = λ pods nodes s q. q;
  keeps_cassandra = λ s q. q;
  keeps_scaling = λ pods nodes dcs o s q. q;
  keeps_maintenance = λ s q. q;
  keeps_system_auth = λ dcs s q. q;
  keeps_check = λ s q. q;
  keeps_unready = λ s q. q;
}

reconcile_with_context-untouched_example :
    ((reconcile_with_context 15 (λ s. found (cluster, false)) phases 0).1 ≡ 0)
    ⊎ ((c : Cluster) × (t : ℕ) × (t ≡ 0) × (((phases c).cluster_ready t).0 ≡ ok true))
reconcile_with_context-untouched_example =
    reconcile_with_context-untouched (λ n. n ≡ 0) 15 (λ s. found (cluster, false)) phases prepares 0
      refl

-- The pass comes to its check of the cluster, which is not ready.
comes_to_check :
    (reconcile_with_context 15 (λ s. found (cluster, false)) phases 0).0 ≡ ok (after_delay 15)
unfolding reconcile_with_context by_credentials string_eq lookup by_readiness
comes_to_check = refl
