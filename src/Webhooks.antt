-- ===== src/Webhooks.antt =====
-- api/v1alpha1/cassandracluster_webhook.go: the validation of a CassandraCluster when it is created
-- or updated. An error is a constructor that names it; a nil dereference is the outcome `panic`.
pub mod Accepted
use mr_cassop.Prelude.{
  ℕ, String, Bool, true, false, not, ◌&&◌, ◌||◌, Option, none, some, List, [], ◌∷◌, ◌++◌, ◌==◌,
  string_eq, option_eq, find?, contains, if◌then◌else◌, ltb, eqb, Outcome, ok, err, panic, and_then,
}
use mr_cassop.Cluster.{Dc, ManagedRegion, SystemKeyspaceDc}

pub record CassandraSpec : Type 0 where
  pub num_seeds : ℕ
  pub persistence : Bool
  pub storage_class : Option String
  pub config_overrides : String
  pub scrape_interval : String

pub record RepairSpec : Type 0 where
  pub incremental : Bool
  pub parallelism : String
  pub intensity : String
  pub trigger_time : String

-- `repairs` is `none` for a nil slice.
pub record ReaperSpec : Type 0 where
  pub incremental : Bool
  pub parallelism : String
  pub scrape_interval : String
  pub intensity : String
  pub schedules : Bool
  pub repairs : Option (List RepairSpec)

-- The fields of a CassandraCluster that are validated. A slice is `none` if it is nil.
pub record Spec : Type 0 where
  pub cassandra : Option CassandraSpec
  pub dcs : Option (List Dc)
  pub system_dcs : Option (List SystemKeyspaceDc)
  pub server_node_tls : String
  pub server_ca_tls : String
  pub client_node_tls : String
  pub client_ca_tls : String
  pub reaper : Option ReaperSpec
  pub prober_scrape_interval : String
  pub ingress_domain : String
  pub ingress_secret : String
  pub host_port : Bool
  pub managed : Option (List ManagedRegion)
  pub network_policies : Bool
  pub extra_cassandra_ports : List (List ℕ)

pub data Problem : Type 0 where
  persistence_changed storage_class_changed : Problem
  no_replicas more_seeds_than_replicas rf_above_replicas : String → Problem
  two_server_secrets two_client_secrets : Problem
  invalid_overrides invalid_interval not_parallel invalid_intensity : Problem
  intensity_out_of_range no_repairs invalid_trigger_time : Problem
  no_ingress_secret no_host_port no_ingress_domain no_namespace : Problem
  port_not_allowed : ℕ → Problem

-- `errors = append(errors, ...)` under a condition.
abbrev pub problem : Bool → Problem → List Problem
problem b p = if b then p ∷ [] else []

-- One Outcome after another, with the lists of errors appended.
abbrev pub and_also : Outcome (List Problem) → Outcome (List Problem) → Outcome (List Problem)
and_also a b = and_then a λ ps. and_then b λ qs. ok (ps ++ qs)

-- The message of the storage class names both values, so both pointers are dereferenced.
unfoldable pub storage_class_problems : Option String → Option String → Outcome (List Problem)
storage_class_problems none none = ok []
storage_class_problems none (some _) = panic
storage_class_problems (some _) none = panic
storage_class_problems (some old) (some new) =
    if old == new then ok [] else ok (storage_class_changed ∷ storage_class_changed ∷ [])

abbrev pub differ : Bool → Bool → Bool
differ true b = not b
differ false b = b

unfoldable pub validate_immutable_fields :
    Option CassandraSpec → Option CassandraSpec → Outcome (List Problem)
unfolding storage_class_problems
validate_immutable_fields none old = ok []
validate_immutable_fields (some new) none = ok []
validate_immutable_fields (some new) (some old) =
    and_also (ok (problem (differ old.persistence new.persistence) persistence_changed)) (
      if new.persistence then storage_class_problems old.storage_class new.storage_class else ok [])

unfoldable pub seeds_problems : ℕ → List Dc → Outcome (List Problem)
seeds_problems seeds [] = ok []
seeds_problems seeds (dc ∷ dcs) = elim dc.replicas [
  | none ↦ panic
  | some n ↦
      and_also
        (ok (
          problem (eqb n 0) (no_replicas dc.name)
          ++ problem (not (eqb seeds 1 && eqb n 1) && ltb n seeds)
              (more_seeds_than_replicas dc.name)))
        (seeds_problems seeds dcs)
]

abbrev pub get_system_keyspace_dc_by_name : List SystemKeyspaceDc → String → Option SystemKeyspaceDc
get_system_keyspace_dc_by_name dcs name = find? (λ d. d.name == name) dcs

-- `dcName.RF > *dc.Replicas`, where either pointer may be nil.
unfoldable pub rf_problems : List SystemKeyspaceDc → List Dc → Outcome (List Problem)
rf_problems system_dcs [] = ok []
rf_problems system_dcs (dc ∷ dcs) = elim (get_system_keyspace_dc_by_name system_dcs dc.name) [
  | none ↦ panic
  | some s ↦ elim dc.replicas [
    | none ↦ panic
    | some n ↦
        and_also (ok (problem (ltb n s.rf) (rf_above_replicas dc.name)))
          (rf_problems system_dcs dcs)
  ]
]

abbrev pub is_set : String → Bool
is_set s = not (s == "")

abbrev pub seeds_part : Option CassandraSpec → Option (List Dc) → Outcome (List Problem)
seeds_part (some cass) (some dcs) =
    if ltb 0 cass.num_seeds then seeds_problems cass.num_seeds dcs else ok []
seeds_part (some cass) none = ok []
seeds_part none dcs = ok []

abbrev pub rf_part : Option (List SystemKeyspaceDc) → Option (List Dc) → Outcome (List Problem)
rf_part (some system_dcs) (some dcs) = rf_problems system_dcs dcs
rf_part (some system_dcs) none = ok []
rf_part none dcs = ok []

abbrev pub tls_problems : Spec → List Problem
tls_problems s =
    problem (is_set s.server_node_tls && is_set s.server_ca_tls) two_server_secrets
    ++ problem (is_set s.client_ca_tls && is_set s.client_node_tls) two_client_secrets

unfoldable pub general_validation : Spec → Outcome (List Problem)
general_validation s =
    and_also (seeds_part s.cassandra s.dcs)
      (and_also (rf_part s.system_dcs s.dcs) (ok (tls_problems s)))

-- The parsers of the standard library and of the YAML package. `intensity` is `none` if the number
-- cannot be parsed, and otherwise says whether it lies between the allowed bounds.
pub record Parsers : Type 0 where
  pub yaml : String → Bool
  pub duration : String → Bool
  pub time : String → Bool
  pub intensity : String → Option Bool

module _ (p : Parsers) where
  abbrev pub interval_problems : String → List Problem
  interval_problems t = problem (is_set t && not (p.duration t)) invalid_interval

  abbrev pub validate_cassandra : CassandraSpec → List Problem
  validate_cassandra s =
      problem (is_set s.config_overrides && not (p.yaml s.config_overrides)) invalid_overrides
      ++ interval_problems s.scrape_interval

  -- `checkRepairIntensity`, called for a text that is not empty.
  abbrev pub intensity_problems : String → List Problem
  intensity_problems t =
      if is_set t
      then elim (p.intensity t) [
        | none ↦ invalid_intensity ∷ []
        | some in_range ↦ problem (not in_range) intensity_out_of_range
      ]
      else []

  abbrev pub parallelism_problems : Bool → String → List Problem
  parallelism_problems incremental parallelism =
      problem (incremental && not (parallelism == "PARALLEL")) not_parallel

  unfoldable pub repairs_problems : List RepairSpec → List Problem
  repairs_problems [] = []
  repairs_problems (r ∷ rs) =
      parallelism_problems r.incremental r.parallelism
      ++ (intensity_problems r.intensity
          ++ (problem (not (p.time r.trigger_time)) invalid_trigger_time ++ repairs_problems rs))

  abbrev pub schedules_problems : Bool → Option (List RepairSpec) → List Problem
  schedules_problems false repairs = []
  schedules_problems true none = no_repairs ∷ []
  schedules_problems true (some rs) = repairs_problems rs

  abbrev pub validate_reaper : ReaperSpec → List Problem
  validate_reaper r =
      parallelism_problems r.incremental r.parallelism
      ++ (interval_problems r.scrape_interval
          ++ (intensity_problems r.intensity ++ schedules_problems r.schedules r.repairs))

unfoldable pub regions_problems : String → List ManagedRegion → List Problem
regions_problems domain [] = []
regions_problems domain (m ∷ ms) =
    problem (m.domain == domain && m.namespace == "") no_namespace ++ regions_problems domain ms

abbrev managed_problems : String → Option (List ManagedRegion) → List Problem
managed_problems domain none = []
managed_problems domain (some ms) =
    problem (not (is_set domain)) no_ingress_domain ++ regions_problems domain ms

unfoldable pub validate_ingress : Spec → List Problem
unfolding regions_problems
validate_ingress s =
    problem (is_set s.ingress_domain && not (is_set s.ingress_secret)) no_ingress_secret
    ++ (problem (is_set s.ingress_domain && not s.host_port) no_host_port
        ++ managed_problems s.ingress_domain s.managed)

abbrev allowed_port : ℕ → Bool
allowed_port n = eqb n 7000 || eqb n 7001 || eqb n 7199 || eqb n 9042 || eqb n 9160 || eqb n 4567

abbrev ports_problems : List ℕ → List Problem
ports_problems [] = []
ports_problems (n ∷ ns) = problem (not (allowed_port n)) (port_not_allowed n) ++ ports_problems ns

abbrev rules_problems : List (List ℕ) → List Problem
rules_problems [] = []
rules_problems (rule ∷ rules) = ports_problems rule ++ rules_problems rules

unfoldable pub validate_network_policies : Spec → List Problem
validate_network_policies s =
    if not s.network_policies then [] else rules_problems s.extra_cassandra_ports

abbrev pub cassandra_part : Parsers → Option CassandraSpec → List Problem
cassandra_part p none = []
cassandra_part p (some s) = validate_cassandra p s

abbrev pub reaper_part : Parsers → Option ReaperSpec → List Problem
reaper_part p none = []
reaper_part p (some s) = validate_reaper p s

abbrev pub old_cassandra : Option Spec → Option CassandraSpec
old_cassandra none = none
old_cassandra (some s) = s.cassandra

-- `validateClusterCreateUpdate`; `old` is `none` for a creation.
unfoldable pub validate_cluster_create_update :
    Parsers → Spec → Option Spec → Outcome (List Problem)
validate_cluster_create_update p s old =
    and_also (validate_immutable_fields s.cassandra (old_cassandra old)) (
      and_also (general_validation s) (
        ok (
          cassandra_part p s.cassandra
          ++ (reaper_part p s.reaper
              ++ (interval_problems p s.prober_scrape_interval
                  ++ (validate_ingress s ++ validate_network_policies s))))))
