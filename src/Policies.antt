-- ===== src/Policies.antt =====
-- controllers/network_policies.go: the network policies, as data, and how one of them is written.
pub mod Cassandra
pub mod Others
pub mod Admitted
use mr_cassop.Prelude.{
  ℕ, String, ◌<>◌, Bool, Option, none, some, List, [], ◌∷◌, ◌++◌, map, contains, ◌==◌, string_eq,
  if◌then◌else◌, Outcome, ok, err, Done, Exec, pure, wrap, continue, ◌>>◌, Answer, send, rewrap,
}
use mr_cassop.Prelude.Dict.{Dict}
use mr_cassop.Prelude.Order.{sort_strings}
use mr_cassop.Cluster.{Cluster, Get, found, not_found, failed}

-- A label selector with its labels to match.
abbrev pub Selector : Type 0
Selector = Dict String String

-- `ip_block a n` is the CIDR `a/n`.
pub data Peer : Type 0 where
  selected : Option Selector → Option Selector → Peer
  ip_block : String → ℕ → Peer

pub record Rule : Type 0 where
  pub ports : List ℕ
  pub from : List Peer

-- `component` is the label of the pods that the policy is for.
pub record Policy : Type 0 where
  pub name : String
  pub labels : Dict String String
  pub component : String
  pub ingress : List Rule

-- An extra rule of the spec.
pub record ExtraRule : Type 0 where
  pub pod_selector : Option Selector
  pub namespace_selector : Option Selector
  pub extra_ports : List ℕ

-- The parts of a CassandraCluster that the policies depend on. Extra rules for ingress that are nil
-- are `none`.
pub record PolicySpec : Type 0 where
  pub cluster : Cluster
  pub labels : Dict String String
  pub enabled : Bool
  pub allow_reaper_node_ips : Option Bool
  pub extra_ingress_rules : Option (List ExtraRule)
  pub extra_prometheus_rules : List ExtraRule
  pub extra_cassandra_rules : List ExtraRule
  pub extra_cassandra_ips : List String
  pub prober_monitor : Bool
  pub reaper_monitor : Bool
  pub monitoring : Bool
  pub agent : String

pub data Call : Type 0 where
  create update delete : Policy → Call
  update_region_ips update_reaper_ips : List String → Call

-- What the other systems answer: `region_ips` and `reaper_ips` are asked of the prober of another
-- region, `reaper_hosts` are the hosts of Reaper's pods; `none` is an error.
pub record Network : Type 0 where
  pub answer : Answer Call
  pub get_policy : List Call → String → Get Policy
  pub own : Policy → Outcome Policy
  pub equal : Policy → Policy → Bool
  pub listed : Outcome (List Policy)
  pub region_ips : String → Option (List String)
  pub reaper_ips : String → Option (List String)
  pub reaper_hosts : Option (List String)
  pub operator_namespace : String

-- The addresses of a list that may be missing.
abbrev pub known : Option (List String) → List String
known none = []
known (some ips) = ips

-- util.Uniq, with the result so far.
unfoldable pub uniq_onto : List String → List String → List String
uniq_onto result [] = result
uniq_onto result (s ∷ more) =
    uniq_onto (if contains result s then result else result ++ s ∷ []) more

unfoldable pub uniq : List String → List String
unfolding uniq_onto
uniq s = uniq_onto [] s

unfoldable pub generate_peers : List String → List Peer
unfolding uniq
generate_peers ips = map (λ ip. ip_block ip 32) (sort_strings (uniq ips))

unfoldable pub nw_policy_peer : Selector → String → Peer
nw_policy_peer component_labels namespace =
    selected (some component_labels) (some (("kubernetes.io/metadata.name", namespace) ∷ []))

abbrev pub component_label : String
component_label = "cassandra-cluster-component"

abbrev pub of_component : String → Selector
of_component name = (component_label, name) ∷ []

abbrev pub operator_pod_labels : Selector
operator_pod_labels = ("operator", "cassandra-operator") ∷ []

abbrev pub tls_port : ℕ
tls_port = 7001

abbrev pub intra_port : ℕ
intra_port = 7000

abbrev pub icarus_port : ℕ
icarus_port = 4567

abbrev pub cql_port : ℕ
cql_port = 9042

abbrev pub jmx_port : ℕ
jmx_port = 7199

abbrev pub prober_container_port : ℕ
prober_container_port = 8888

abbrev pub reaper_app_port : ℕ
reaper_app_port = 8080

abbrev pub between_nodes : List ℕ
between_nodes = tls_port ∷ intra_port ∷ icarus_port ∷ []

module _ (net : Network) where
  unfoldable pub write_policy : Policy → Exec (List Call) Done
  write_policy desired sent = elim (net.get_policy sent desired.name) [
    | not_found ↦ send net.answer (create desired) sent
    | failed e ↦ (err e, sent)
    | found actual ↦
        if net.equal actual desired
        then (ok tt, sent)
        else send net.answer
            (update (record actual {
              labels = desired.labels;
              component = desired.component;
              ingress = desired.ingress;
            }))
            sent
  ]

  unfoldable pub reconcile_network_policy : Policy → Exec (List Call) Done
  reconcile_network_policy desired = continue (net.own desired) write_policy

  -- With the wrapped error of all its callers.
  abbrev pub put_policy : Policy → Exec (List Call) Done
  put_policy desired =
      wrap ("Failed to create/update network policy `" <> (desired.name <> "`"))
        (reconcile_network_policy desired)

  unfoldable pub delete_each : List Policy → Exec (List Call) Done
  delete_each [] = pure tt
  delete_each (p ∷ ps) =
      wrap ("Failed to delete network policy " <> p.name) (send net.answer (delete p))
      >> delete_each ps

  unfoldable pub cleanup_network_policies : PolicySpec → Exec (List Call) Done
  cleanup_network_policies c sent =
      if c.enabled
      then (ok tt, sent)
      else continue (rewrap "Failed to list network policies" net.listed) delete_each sent
