-- ===== src/Cluster/Names.antt =====
-- controllers/names/names.go, the names that other modelled code compares.
use mr_cassop.Prelude.{String, ◌<>◌, ◌==◌, string_eq, if◌then◌else◌}
use mr_cassop.Cluster.{Cluster, ManagedRegion}

unfoldable pub dc_name : String → String → String
dc_name cluster dc = cluster <> ("-cassandra-" <> dc)

unfoldable pub reaper_deployment : String → String → String
unfolding dc_name
reaper_deployment cluster dc = dc_name cluster dc <> "-reaper"

unfoldable pub dc_service : String → String → String
unfolding dc_name
dc_service cluster dc = dc_name cluster dc

unfoldable pub prober_ingress_host : String → String → String → String
prober_ingress_host cluster namespace domain =
    (namespace <> ("-" <> (cluster <> "-cassandra-prober"))) <> ("." <> domain)

unfoldable pub prober_ingress_domain : Cluster → ManagedRegion → String
unfolding prober_ingress_host
prober_ingress_domain cc region =
    prober_ingress_host cc.name (if region.namespace == "" then cc.namespace else region.namespace)
      region.domain
