-- ===== src/InitOrder.antt =====
-- controllers/cassandra_pods_config.go, cassandra_pod_ips.go and the readiness of DCs: which pods may
-- start, in which order.
pub mod Pods
pub mod Regions
pub mod Seeds
pub mod PodsConfig
