-- ===== src/Policies/Cassandra.antt =====
-- controllers/network_policies.go: the policies for the Cassandra pods.
use mr_cassop.Prelude.{
  ℕ, String, ◌<>◌, not, ◌&&◌, ◌||◌, Option, none, some, List, [], ◌∷◌, ◌++◌, map, is_empty, ◌==◌,
  string_eq, if◌then◌else◌, message, ok, err, Done, Exec, pure, wrap, continue, ◌>>◌, ◌>>=◌, deref,
  send,
}
use mr_cassop.Cluster.{Cluster, ManagedRegion}
use mr_cassop.Cluster.Names.{prober_ingress_domain}
use mr_cassop.Policies.{
  Peer, selected, Rule, Policy, ExtraRule, PolicySpec, Call, update_region_ips, update_reaper_ips,
  Network, generate_peers, nw_policy_peer, of_component, operator_pod_labels, tls_port, intra_port,
  icarus_port, cql_port, jmx_port, between_nodes, put_policy, known,
}

abbrev pub policy_named : PolicySpec → String → List Rule → Policy
policy_named c suffix rules = record {
  name = c.cluster.name <> suffix;
  labels = c.labels;
  component = "cassandra";
  ingress = rules;
}

-- `getJavaAgentPort`
unfoldable pub get_java_agent_port : String → ℕ
get_java_agent_port agent =
    if agent == "instaclustr"
    then 9500
    else if agent == "datastax"
    then 9103
    else if agent == "tlp"
    then 8090
    else 0

abbrev pub peer_of : ExtraRule → Peer
peer_of r = selected r.pod_selector r.namespace_selector

unfoldable pub cluster_rules : Network → PolicySpec → List Rule
unfolding nw_policy_peer
cluster_rules net c =
    record {
      ports = between_nodes;
      from = nw_policy_peer (of_component "cassandra") c.cluster.namespace ∷ [];
    }
    ∷ record {
      ports = cql_port ∷ icarus_port ∷ [];
      from = nw_policy_peer operator_pod_labels net.operator_namespace ∷ [];
    }
    ∷ record {
      ports = jmx_port ∷ [];
      from = nw_policy_peer (of_component "prober") c.cluster.namespace ∷ [];
    }
    ∷ record {
      ports = cql_port ∷ jmx_port ∷ [];
      from = nw_policy_peer (of_component "reaper") c.cluster.namespace ∷ [];
    }
    ∷ []

-- The addresses that the regions tell; a region that cannot be asked adds none.
unfoldable pub external_ips :
    (String → Option (List String)) → Cluster → List ManagedRegion → List String
external_ips ask c [] = []
external_ips ask c (region ∷ regions) =
    known (ask (prober_ingress_domain c region)) ++ external_ips ask c regions

unfoldable pub get_external_cassandra_ips : Network → Cluster → List String
unfolding external_ips
get_external_cassandra_ips net c = external_ips net.region_ips c c.managed

unfoldable pub extra_cassandra_rule : ExtraRule → Rule
extra_cassandra_rule r = record {
  ports = if is_empty r.extra_ports then cql_port ∷ [] else r.extra_ports;
  from = peer_of r ∷ [];
}

module _ (net : Network) (c : PolicySpec) where
  unfoldable pub cassandra_cluster_policy : Exec (List Call) Done
  unfolding cluster_rules
  cassandra_cluster_policy =
      put_policy net (policy_named c "-cassandra-cluster-policies" (cluster_rules net c))

  unfoldable pub hostport_policy : List String → Policy
  hostport_policy ips =
      policy_named c "-cassandra-hostport-policies"
        (record { ports = between_nodes; from = generate_peers ips } ∷ [])

  -- The argument has the addresses of the hosts of the pods; `none` is a nil list of pods.
  unfoldable pub cassandra_cluster_hostport_policy : Option (List String) → Exec (List Call) Done
  unfolding hostport_policy
  cassandra_cluster_hostport_policy hosts sent =
      if c.cluster.host_port
      then elim hosts [
        | none ↦ (err (message "Pod list is empty"), sent)
        | some ips ↦
            if is_empty ips
            then (err (message "node ip list is empty"), sent)
            else (send net.answer (update_region_ips ips) >> put_policy net (hostport_policy ips))
                sent
      ]
      else (ok tt, sent)

  unfoldable pub managed_regions_policy : List String → Policy
  managed_regions_policy ips =
      policy_named c "-cassandra-ext-managed-regions-policies"
        (record { ports = between_nodes; from = generate_peers ips } ∷ [])

  unfoldable pub cassandra_cluster_external_managed_regions_policy : Exec (List Call) Done
  unfolding managed_regions_policy get_external_cassandra_ips
  cassandra_cluster_external_managed_regions_policy =
      if c.cluster.host_port && not (is_empty c.cluster.managed)
      then put_policy net (managed_regions_policy (get_external_cassandra_ips net c.cluster))
      else pure tt

  -- Reaper's hosts in the region, and then those of the other regions. When the pods cannot be
  -- listed the list is empty.
  unfoldable pub get_external_reaper_ips : Exec (List Call) (List String)
  unfolding external_ips
  get_external_reaper_ips =
      let hosts = known net.reaper_hosts in
      wrap "Failed to update reaper ips" (send net.answer (update_reaper_ips hosts))
      >> pure (hosts ++ external_ips net.reaper_ips c.cluster c.cluster.managed)

  unfoldable pub reaper_policy : List String → Policy
  reaper_policy ips =
      policy_named c "-cassandra-hostport-reaper-policies"
        (record { ports = jmx_port ∷ []; from = generate_peers ips } ∷ [])

  unfoldable pub cassandra_cluster_host_port_reaper_policy : Exec (List Call) Done
  unfolding get_external_reaper_ips reaper_policy
  cassandra_cluster_host_port_reaper_policy sent =
      continue (deref c.allow_reaper_node_ips)
        (λ allowed.
          if not allowed || not c.cluster.host_port
          then pure tt
          else get_external_reaper_ips >>= λ ips. put_policy net (reaper_policy ips))
        sent

  unfoldable pub cassandra_cluster_extra_rules_policy : Exec (List Call) Done
  unfolding extra_cassandra_rule
  cassandra_cluster_extra_rules_policy =
      if is_empty c.extra_cassandra_rules
      then pure tt
      else put_policy net (
          policy_named c "-cassandra-extra-rules-policies"
            (map extra_cassandra_rule c.extra_cassandra_rules))

  unfoldable pub cassandra_cluster_extra_prometheus_rules_policy : Exec (List Call) Done
  unfolding get_java_agent_port
  cassandra_cluster_extra_prometheus_rules_policy =
      if not (is_empty c.extra_prometheus_rules) && c.monitoring
      then put_policy net (
          policy_named c "-cassandra-prometheus-rules-policies" (
            map (λ r. record { ports = get_java_agent_port c.agent ∷ []; from = peer_of r ∷ [] })
              c.extra_prometheus_rules))
      else pure tt

  unfoldable pub cassandra_cluster_extra_ips_policy : Exec (List Call) Done
  cassandra_cluster_extra_ips_policy =
      if is_empty c.extra_cassandra_ips
      then pure tt
      else put_policy net (
          policy_named c "-cassandra-extra-ips-policies" (
            record {
              ports = tls_port ∷ intra_port ∷ [];
              from = generate_peers c.extra_cassandra_ips;
            }
            ∷ []))

  unfoldable pub reconcile_cassandra_network_policies : Option (List String) → Exec (List Call) Done
  unfolding cassandra_cluster_policy cassandra_cluster_hostport_policy
  reconcile_cassandra_network_policies hosts =
      let failed = wrap "Failed to reconcile network policy" in
      failed cassandra_cluster_policy
      >> failed (cassandra_cluster_hostport_policy hosts)
      >> failed cassandra_cluster_external_managed_regions_policy
      >> failed cassandra_cluster_host_port_reaper_policy
      >> failed cassandra_cluster_extra_rules_policy
      >> failed cassandra_cluster_extra_prometheus_rules_policy
      >> failed cassandra_cluster_extra_ips_policy
