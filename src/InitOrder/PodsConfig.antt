-- ===== src/InitOrder/PodsConfig.antt =====
-- The config map that tells each pod how to start (`podsConfigMapData`), and the addresses that are
-- kept for pods (`reconcilePodIPsConfigMap` of cassandra_pod_ips.go).
pub mod Entries
use mr_cassop.Prelude.{
  ℕ, String, ◌<>◌, Bool, true, false, not, ◌&&◌, ◌||◌, Option, none, some, List, [], ◌∷◌, is_empty,
  ◌==◌, string_eq, if◌then◌else◌, Error, message, Outcome, ok, err, panic, Done, and_then, rewrap,
}
use mr_cassop.Prelude.Dict.{Dict, lookup, insert}
use mr_cassop.Cluster.{Cluster, Pod, Node, StatefulSet, Get}
use mr_cassop.InitOrder.Pods.{
  dc_seed_pods_ready, next_non_seed_pod_to_init, pause_pod_init, pod_ready,
}
use mr_cassop.InitOrder.Regions.{InitOrder, get_init_order_info}
use mr_cassop.InitOrder.Seeds.{
  get_broadcast_addresses, get_seeds_list, get_node_by_name, err_pod_not_scheduled,
}

-- `m[k]`, the zero value for a missing key.
unfoldable pub value_at : String → Dict String String → String
value_at k m = elim (lookup k m) [ none ↦ "" | some v ↦ v ]

unfoldable pub join : String → List String → String
join sep [] = ""
join sep (s ∷ []) = s
join sep (s ∷ t ∷ rest) = s <> (sep <> join sep (t ∷ rest))

abbrev println : String → String
println s = s <> "\n"

-- The loop that updates the recorded addresses: a pod's address is taken over once the pod is ready
-- and has one.
unfoldable pub update_pod_ips :
    List Pod → Dict String String → Dict String String → Dict String String
unfolding value_at
update_pod_ips [] addresses recorded = recorded
update_pod_ips (pod ∷ pods) addresses recorded =
    let addr = value_at pod.name addresses in
    update_pod_ips pods addresses (
      if not (value_at pod.name recorded == addr) && not (addr == "") && pod_ready pod
      then insert pod.name addr recorded
      else recorded)

-- What all entries share.
pub record Shared : Type 0 where
  pub addresses : Dict String String
  pub seeds : List String
  pub order : InitOrder
  pub original_ips : Dict String String
  pub seeds_ready : Bool
  pub next_non_seed : String

abbrev zone_label : String
zone_label = "topology.kubernetes.io/zone"

abbrev pub entry_name : Pod → String
entry_name pod = pod.name <> ("_" <> (pod.uid <> ".sh"))

unfoldable pub rack_text : Node → String
unfolding value_at
rack_text node =
    println ("export CASSANDRA_RACK=" <> value_at zone_label node.labels)
    <> println "export CASSANDRA_ENDPOINT_SNITCH=GossipingPropertyFileSnitch"

abbrev format_bool : Bool → String
format_bool true = "true"
format_bool false = "false"

unfoldable pub settings_text : Shared → Pod → String
unfolding value_at join
settings_text sh pod =
    let (pause, reason) =
      pause_pod_init pod sh.order.next_dc sh.order.region_paused sh.seeds_ready sh.next_non_seed in
    println ("export CASSANDRA_BROADCAST_ADDRESS=" <> value_at pod.name sh.addresses)
    <> (println ("export CASSANDRA_BROADCAST_RPC_ADDRESS=" <> pod.pod_ip)
        <> (println ("export CASSANDRA_SEEDS=" <> join "," sh.seeds)
            <> (println ("export CASSANDRA_NODE_PREVIOUS_IP=" <> value_at pod.name sh.original_ips)
                <> (println ("export PAUSE_INIT=" <> format_bool pause)
                    <> ("export PAUSE_REASON=\"" <> (reason <> "\"\n"))))))

-- The rack lines of an entry.
unfoldable pub rack_of : Cluster → List Node → Pod → Outcome String
unfolding rack_text
rack_of c nodes pod =
    if not c.zones_as_racks then ok "" else elim (get_node_by_name nodes pod.node_name) [
      | none ↦ err (message ("Node " <> (pod.node_name <> " not found")))
      | some node ↦ ok (rack_text node)
    ]

-- The loop over the pods. `none` is the nil map with a nil error that is returned for a pod with no
-- broadcast address: the error that is wrapped there is nil.
unfoldable pub entries :
    Cluster
    → List Node
    → Shared
    → List Pod
    → Dict String String
    → Outcome (Option (Dict String String))
unfolding rack_of value_at
entries c nodes sh [] m = ok (some m)
entries c nodes sh (pod ∷ pods) m =
    let rest = λ (rack : String).
      entries c nodes sh pods (
        insert (entry_name pod) (value_at (entry_name pod) m <> (rack <> settings_text sh pod))
          m) in
    if pod.pod_ip == ""
    then err err_pod_not_scheduled
    else and_then (rack_of c nodes pod)
        (λ rack. if value_at pod.name sh.addresses == "" then ok none else rest rack)

-- The requests that `podsConfigMapData` makes.
pub record World : Type 0 where
  pub digits : ℕ → String
  pub get_sts : String → Get StatefulSet
  pub region_ready : String → Outcome Bool
  pub update_seeds : List String → Outcome Done
  pub get_seeds : String → Outcome (List String)
  pub recorded_ips : Dict String String → Outcome (Dict String String)

unfoldable pub pods_config_map_data :
    World → Cluster → List Pod → List Node → Outcome (Option (Dict String String))
pods_config_map_data w c pods nodes =
    if is_empty pods
    then ok none
    else and_then
        (rewrap "error getting broadcast addresses" (get_broadcast_addresses c pods nodes))
        λ addresses.
          and_then
            (rewrap "failed to get seeds list"
              (get_seeds_list w.digits w.update_seeds w.get_seeds c addresses))
            λ seeds.
              and_then
                (rewrap "failed to get init order info"
                  (get_init_order_info w.get_sts w.region_ready c))
                λ order.
                  and_then (rewrap "can't get the list of pod IPs" (w.recorded_ips addresses))
                    λ ips.
                      entries c nodes
                        (record {
                          addresses = addresses;
                          seeds = seeds;
                          order = order;
                          original_ips = ips;
                          seeds_ready = dc_seed_pods_ready pods order.next_dc;
                          next_non_seed = next_non_seed_pod_to_init pods order.next_dc;
                        })
                        pods []
