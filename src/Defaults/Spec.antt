-- ===== src/Defaults/Spec.antt =====
-- controllers/defaults.go: the defaults of the parts of a CassandraCluster, in the order of the code.
use mr_cassop.Prelude.{
  ℕ, String, Bool, true, false, ◌&&◌, Option, none, some, List, [], ◌∷◌, ◌++◌, map, is_empty, ◌==◌,
  string_eq, if◌then◌else◌, Outcome, ok, and_then, deref,
}
use mr_cassop.Prelude.Dict.{Dict}
use mr_cassop.Cluster.{Dc, Maintenance}
use mr_cassop.Cluster.Names.{dc_name}
use mr_cassop.Defaults.{
  Images, Encryption, or_text, or_value, or_number, or_duration, default_client_tls,
  default_server_tls, set_sysctls, pod_names,
}

pub record RepairPart : Type 0 where
  pub parallelism : String
  pub incremental : Bool
  pub days_between : ℕ
  pub intensity : String
  pub datacenters : List String
  pub nodes : List String
  pub thread_count : ℕ

-- A service monitor: whether it is enabled, and its interval.
pub record Monitor : Type 0 where
  pub enabled : Bool
  pub interval : String

pub record ReaperPart : Type 0 where
  pub monitor : Monitor
  pub keyspace : String
  pub image : String
  pub pull_policy : String
  pub intensity : String
  pub parallelism : String
  pub thread_count : ℕ
  pub repairs : List RepairPart

pub record ProberPart : Type 0 where
  pub image : String
  pub pull_policy : String
  pub log_level : String
  pub log_format : String
  pub jolokia_image : String
  pub jolokia_pull_policy : String
  pub monitor : Monitor

pub record IcarusPart : Type 0 where
  pub image : String
  pub pull_policy : String

-- The volume modes are those of the claims for the data and for the commit log, and so are the lists
-- of access modes.
pub record CassandraPart : Type 0 where
  pub image : String
  pub pull_policy : String
  pub num_seeds : ℕ
  pub purge_gossip : Option Bool
  pub log_level : String
  pub grace_period : Option ℕ
  pub data_volume_mode : Option String
  pub data_access_modes : List String
  pub log_volume_mode : Option String
  pub log_access_modes : List String
  pub monitoring : Bool
  pub agent : String
  pub monitor : Monitor
  pub sysctls : Option (Dict String String)

unfoldable pub default_repair : List String → RepairPart → RepairPart
default_repair dc_names r = record {
  parallelism = if r.incremental then "PARALLEL" else or_text "DATACENTER_AWARE" r.parallelism;
  incremental = r.incremental;
  days_between = or_number 7 r.days_between;
  intensity = or_text "1.0" r.intensity;
  datacenters = if is_empty r.datacenters && is_empty r.nodes then dc_names else r.datacenters;
  nodes = r.nodes;
  thread_count = or_number 2 r.thread_count;
}

abbrev pub with_interval : (String → Bool) → String → Monitor → Monitor
with_interval parses d m = record m { interval = or_duration parses m.enabled d m.interval }

-- A Reaper that is nil is one without settings.
abbrev pub no_reaper : ReaperPart
no_reaper = record {
  monitor = record { enabled = false; interval = "" };
  keyspace = "";
  image = "";
  pull_policy = "";
  intensity = "";
  parallelism = "";
  thread_count = 0;
  repairs = [];
}

abbrev pub no_cassandra : CassandraPart
no_cassandra = record {
  image = "";
  pull_policy = "";
  num_seeds = 0;
  purge_gossip = none;
  log_level = "";
  grace_period = none;
  data_volume_mode = none;
  data_access_modes = [];
  log_volume_mode = none;
  log_access_modes = [];
  monitoring = false;
  agent = "";
  monitor = record { enabled = false; interval = "" };
  sysctls = none;
}

abbrev pub or_empty {ℓ} : {A : Type ℓ} → A → Option A → A
or_empty d none = d
or_empty d (some a) = a

module _ (parses : String → Bool) (images : Images) where
  unfoldable pub fill_reaper : List String → ReaperPart → ReaperPart
  fill_reaper dc_names r = record {
    monitor = with_interval parses "60s" r.monitor;
    keyspace = or_text "reaper" r.keyspace;
    image = or_text images.reaper_image r.image;
    pull_policy = or_text "IfNotPresent" r.pull_policy;
    intensity = or_text "1.0" r.intensity;
    parallelism = or_text "DATACENTER_AWARE" r.parallelism;
    thread_count = or_number 1 r.thread_count;
    repairs = map (default_repair dc_names) r.repairs;
  }

  unfoldable pub default_reaper : List Dc → Option ReaperPart → ReaperPart
  default_reaper dcs r = fill_reaper (map (λ d. d.name) dcs) (or_empty no_reaper r)

  unfoldable pub default_prober : ProberPart → ProberPart
  default_prober p = record {
    image = or_text images.prober_image p.image;
    pull_policy = or_text "IfNotPresent" p.pull_policy;
    log_level = or_text "info" p.log_level;
    log_format = or_text "json" p.log_format;
    jolokia_image = or_text images.jolokia_image p.jolokia_image;
    jolokia_pull_policy = or_text "IfNotPresent" p.jolokia_pull_policy;
    monitor = with_interval parses "30s" p.monitor;
  }

  unfoldable pub default_icarus : IcarusPart → IcarusPart
  default_icarus i = record {
    image = or_text images.icarus_image i.image;
    pull_policy = or_text "IfNotPresent" i.pull_policy;
  }

  -- With `defaultMonitoring` and `defaultSysctls`.
  unfoldable pub fill_cassandra : CassandraPart → CassandraPart
  fill_cassandra c = record {
    image = or_text images.cassandra_image c.image;
    pull_policy = or_text "IfNotPresent" c.pull_policy;
    num_seeds = or_number 2 c.num_seeds;
    purge_gossip = or_value true c.purge_gossip;
    log_level = or_text "info" c.log_level;
    grace_period = or_value 300 c.grace_period;
    data_volume_mode = or_value "Filesystem" c.data_volume_mode;
    data_access_modes = "ReadWriteOnce" ∷ [];
    log_volume_mode = or_value "Filesystem" c.log_volume_mode;
    log_access_modes = "ReadWriteOnce" ∷ [];
    monitoring = c.monitoring;
    agent = if c.monitoring then or_text "tlp" c.agent else c.agent;
    monitor = if c.monitoring then with_interval parses "30s" c.monitor else c.monitor;
    sysctls = set_sysctls c.sysctls;
  }

  unfoldable pub default_cassandra : Option CassandraPart → CassandraPart
  default_cassandra c = fill_cassandra (or_empty no_cassandra c)

-- The pods of the DCs with this name, behind those so far.
unfoldable pub maintenance_pods :
    (ℕ → String) → String → List Dc → String → List String → Outcome (List String)
unfolding pod_names
maintenance_pods digits cluster [] name pods = ok pods
maintenance_pods digits cluster (dc ∷ dcs) name pods =
    if name == dc.name
    then and_then (deref dc.replicas) (λ n.
      maintenance_pods digits cluster dcs name
        (pods ++ pod_names digits (dc_name cluster dc.name) 0 n))
    else maintenance_pods digits cluster dcs name pods

-- An entry that names no pods is for all pods of its DC.
unfoldable pub default_maintenance :
    (ℕ → String) → String → List Dc → List Maintenance → Outcome (List Maintenance)
default_maintenance digits cluster dcs [] = ok []
default_maintenance digits cluster dcs (m ∷ ms) =
    and_then (if is_empty m.pods then maintenance_pods digits cluster dcs m.dc [] else ok m.pods)
      (λ pods.
        and_then (default_maintenance digits cluster dcs ms)
          (λ rest. ok (record m { pods = pods } ∷ rest)))

pub record ClusterSpec : Type 0 where
  pub name : String
  pub dcs : List Dc
  pub cql_label_key : String
  pub cassandra : Option CassandraPart
  pub prober : ProberPart
  pub icarus : IcarusPart
  pub reaper : Option ReaperPart
  pub maintenance : List Maintenance
  pub jmx_auth : String
  pub topology_spread_by_zone : Option Bool
  pub allow_reaper_node_ips : Option Bool
  pub server : String × Encryption
  pub client : Encryption

-- The cluster with these maintenance requests, and its other defaults.
unfoldable pub with_defaults :
    (String → Bool) → Images → ClusterSpec → List Maintenance → ClusterSpec
with_defaults parses images c maintenance = record {
  name = c.name;
  dcs = c.dcs;
  cql_label_key = or_text "cql-scripts" c.cql_label_key;
  cassandra = some (default_cassandra parses images c.cassandra);
  prober = default_prober parses images c.prober;
  icarus = default_icarus parses images c.icarus;
  reaper = some (default_reaper parses images c.dcs c.reaper);
  maintenance = maintenance;
  jmx_auth = or_text "internal" c.jmx_auth;
  topology_spread_by_zone = or_value true c.topology_spread_by_zone;
  allow_reaper_node_ips = or_value true c.allow_reaper_node_ips;
  server = default_server_tls c.server;
  client = default_client_tls c.client;
}

unfoldable pub default_cassandra_cluster :
    (String → Bool) → Images → (ℕ → String) → ClusterSpec → Outcome ClusterSpec
default_cassandra_cluster parses images digits c =
    and_then (default_maintenance digits c.name c.dcs c.maintenance)
      (λ maintenance. ok (with_defaults parses images c maintenance))
