-- ===== src/Cluster/Samples.antt =====
-- Test data: a cluster with two DCs, and pods.
use mr_cassop.Prelude.{String, Bool, false, some, [], ◌∷◌}
use mr_cassop.Cluster.{Cluster, Pod, dc_label}

abbrev pub cluster : Cluster
cluster = record {
  name = "c";
  namespace = "ns";
  dcs =
      record { name = "dc1"; replicas = some 3 } ∷ record { name = "dc2"; replicas = some 1 } ∷ [];
  num_seeds = 2;
  zones_as_racks = false;
  host_port = false;
  use_external_host_ip = false;
  ingress_domain = "";
  managed = [];
  unmanaged = [];
  system_keyspaces = [];
  system_keyspace_dcs = [];
  reaper_keyspace = "reaper";
  maintenance = [];
}

abbrev pub pod : String → String → Bool → Pod
pod name dc ready = record {
  name = name;
  uid = "u";
  labels = (dc_label, dc) ∷ [];
  pod_ip = "10.0.0.1";
  node_name = "n";
  init_statuses = [];
  statuses = record { name = "cassandra"; ready = ready; running = ready } ∷ [];
}
