-- ===== src/Tests/PolicyTests.antt =====
-- Network policies and defaults at concrete inputs.
use mr_cassop.Prelude.{
  ℕ, ◌==◌, if◌then◌else◌, String, true, false, ◌&&◌, ◌||◌, none, some, [], ◌∷◌, ◌≡◌, refl, any,
  is_empty, eqb, ok, and_then, string_eq,
}
use mr_cassop.Cluster.{not_found}
use mr_cassop.Cluster.Samples.{cluster}
use mr_cassop.Policies.{Network, PolicySpec, between_nodes}
use mr_cassop.Policies.Cassandra.{
  hostport_policy, managed_regions_policy, get_external_cassandra_ips,
}
use mr_cassop.Policies.Admitted.{
  policy_admits, one_of, hostport_policy-admits, managed_regions_policy-open,
}
use mr_cassop.Defaults.{Images, Encryption}
use mr_cassop.Defaults.Spec.{ClusterSpec, default_cassandra_cluster}
use mr_cassop.Defaults.Twice.{default_cassandra_cluster-twice}

abbrev net : Network
net = record {
  answer = λ s c. ok tt;
  get_policy = λ s n. not_found;
  own = λ p. ok p;
  equal = λ a b. false;
  listed = ok [];
  region_ips = λ h. none;
  reaper_ips = λ h. none;
  reaper_hosts = none;
  operator_namespace = "ops";
}

abbrev spec : PolicySpec
spec = record {
  cluster = record cluster {
    managed = record { domain = "example.org"; namespace = "" } ∷ [];
    host_port = true;
  };
  labels = [];
  enabled = true;
  allow_reaper_node_ips = some true;
  extra_ingress_rules = none;
  extra_prometheus_rules = [];
  extra_cassandra_rules = [];
  extra_cassandra_ips = [];
  prober_monitor = false;
  reaper_monitor = false;
  monitoring = false;
  agent = "tlp";
}

-- Two addresses of one network.
abbrev address : String → ℕ
address ip = if ip == "10.0.0.1" then 167772161 else 167772162

hostport_policy-admits_example :
    (policy_admits address "10.0.0.1" 7000 (hostport_policy net spec ("10.0.0.2" ∷ [])) ≡ (
      any (λ p. eqb p 7000) between_nodes
      && (is_empty {A = String} ("10.0.0.2" ∷ []) || one_of address ("10.0.0.2" ∷ []) "10.0.0.1")))
    × (policy_admits address "10.0.0.1" 7000 (managed_regions_policy net spec ("10.0.0.2" ∷ [])) ≡ (
        any (λ p. eqb p 7000) between_nodes
        && (is_empty {A = String} ("10.0.0.2" ∷ [])
            || one_of address ("10.0.0.2" ∷ []) "10.0.0.1")))
hostport_policy-admits_example =
    hostport_policy-admits address net spec ("10.0.0.2" ∷ []) "10.0.0.1" 7000

managed_regions_policy-open_example :
    policy_admits address "192.0.2.1" 7000
      (managed_regions_policy net spec (get_external_cassandra_ips net spec.cluster))
    ≡ any (λ p. eqb p 7000) between_nodes
managed_regions_policy-open_example =
    managed_regions_policy-open address net spec "192.0.2.1" 7000 (refl, tt)

abbrev encryption : Encryption
encryption = record {
  require_client_auth = none;
  protocol = "";
  algorithm = "";
  store_type = "";
  cipher_suites = [];
  ca_file_key = "";
  ca_crt_file_key = "";
  node = record {
    file_key = "";
    crt_file_key = "";
    ca_crt_file_key = "";
    keystore_file_key = "";
    keystore_password_key = "";
    truststore_file_key = "";
    truststore_password_key = "";
    generate_keystore_password = "";
  };
}

abbrev cluster_spec : ClusterSpec
cluster_spec = record {
  name = "c";
  dcs = cluster.dcs;
  cql_label_key = "";
  cassandra = none;
  prober = record {
    image = "";
    pull_policy = "";
    log_level = "";
    log_format = "";
    jolokia_image = "";
    jolokia_pull_policy = "";
    monitor = record { enabled = true; interval = "" };
  };
  icarus = record { image = ""; pull_policy = "" };
  reaper = none;
  maintenance = record { dc = "dc1"; pods = [] } ∷ [];
  jmx_auth = "";
  topology_spread_by_zone = none;
  allow_reaper_node_ips = none;
  server = ("", encryption);
  client = encryption;
}

abbrev images : Images
images = record {
  cassandra_image = "cassandra";
  prober_image = "prober";
  jolokia_image = "jolokia";
  icarus_image = "icarus";
  reaper_image = "reaper";
}

default_cassandra_cluster-twice_example :
    and_then
      (default_cassandra_cluster (λ s. false) images (λ n. "0") cluster_spec)
      (default_cassandra_cluster (λ s. false) images (λ n. "0"))
    ≡ default_cassandra_cluster (λ s. false) images (λ n. "0") cluster_spec
default_cassandra_cluster-twice_example =
    default_cassandra_cluster-twice (λ s. false) images (λ n. "0") cluster_spec
