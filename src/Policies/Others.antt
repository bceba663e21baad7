-- ===== src/Policies/Others.antt =====
-- controllers/network_policies.go: the policies for the prober and Reaper, and all of them.
use mr_cassop.Prelude.{
  ℕ, String, ◌<>◌, Option, none, some, List, [], ◌∷◌, ◌++◌, map, if◌then◌else◌, ok, Done, Exec,
  pure, wrap, ◌>>◌,
}
use mr_cassop.Policies.{
  Rule, ExtraRule, PolicySpec, Call, Network, nw_policy_peer, of_component, operator_pod_labels,
  prober_container_port, reaper_app_port, put_policy,
}
use mr_cassop.Policies.Cassandra.{peer_of, reconcile_cassandra_network_policies}

abbrev pub rules_for : ℕ → List ExtraRule → List Rule
rules_for port rules = map (λ r. record { ports = port ∷ []; from = peer_of r ∷ [] }) rules

unfoldable pub prober_rules : Network → PolicySpec → List ExtraRule → List Rule
unfolding nw_policy_peer
prober_rules net c extra =
    (record {
      ports = prober_container_port ∷ [];
      from = nw_policy_peer (of_component "cassandra") c.cluster.namespace ∷ [];
    }
      ∷ record {
        ports = prober_container_port ∷ [];
        from = nw_policy_peer operator_pod_labels net.operator_namespace ∷ [];
      }
      ∷ [])
    ++ (if c.prober_monitor then rules_for prober_container_port c.extra_prometheus_rules else [])
    ++ (if c.cluster.host_port then rules_for prober_container_port extra else [])

module _ (net : Network) (c : PolicySpec) where
  unfoldable pub reconcile_prober_network_policies : Exec (List Call) Done
  unfolding prober_rules
  reconcile_prober_network_policies sent = elim c.extra_ingress_rules [
    | none ↦ (ok tt, sent)
    | some extra ↦
        put_policy net
          (record {
            name = c.cluster.name <> "-prober-policies";
            labels = c.labels;
            component = "prober";
            ingress = prober_rules net c extra;
          })
          sent
  ]

  unfoldable pub reconcile_reaper_network_policies : Exec (List Call) Done
  unfolding nw_policy_peer
  reconcile_reaper_network_policies = put_policy net (record {
    name = c.cluster.name <> "-reaper-policies";
    labels = c.labels;
    component = "reaper";
    ingress =
        record {
          ports = reaper_app_port ∷ [];
          from = nw_policy_peer operator_pod_labels net.operator_namespace ∷ [];
        }
        ∷ (if c.reaper_monitor then rules_for reaper_app_port c.extra_prometheus_rules else []);
  })

  unfoldable pub reconcile_network_policies : Option (List String) → Exec (List Call) Done
  unfolding reconcile_prober_network_policies reconcile_reaper_network_policies
  reconcile_network_policies hosts =
      if c.enabled
      then wrap "Failed to reconcile Cassandra Kubernetes Network Policies"
          (reconcile_cassandra_network_policies net c hosts)
        >> wrap "Failed to reconcile Prober Kubernetes Network Policies"
            reconcile_prober_network_policies
        >> wrap "Failed to reconcile Repaer Kubernetes Network Policies"
            reconcile_reaper_network_policies
      else pure tt
