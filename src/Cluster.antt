-- ===== src/Cluster.antt =====
-- The resources that the operator reads: the fields of api/v1alpha1 that the modelled code uses
-- (the spec of a CassandraCluster with its nested structs flattened), and the Kubernetes objects.
-- Go's integers of these fields are never negative: the schema of the resource bounds them.
pub mod Names
pub mod Samples
use mr_cassop.Prelude.{ℕ, String, Bool, true, false, Option, none, some, List, [], Error}
use mr_cassop.Prelude.Dict.{Dict}

-- `Replicas` is a pointer.
pub record Dc : Type 0 where
  pub name : String
  pub replicas : Option ℕ

pub record ManagedRegion : Type 0 where
  pub domain : String
  pub namespace : String

pub record UnmanagedDc : Type 0 where
  pub name : String
  pub rf : ℕ

pub record UnmanagedRegion : Type 0 where
  pub dcs : List UnmanagedDc
  pub seeds : List String

pub record SystemKeyspaceDc : Type 0 where
  pub name : String
  pub rf : ℕ

pub record Maintenance : Type 0 where
  pub dc : String
  pub pods : List String

-- The cluster after `defaultCassandraCluster`, so `Cassandra` and `Reaper` are not nil.
pub record Cluster : Type 0 where
  pub name : String
  pub namespace : String
  pub dcs : List Dc
  pub num_seeds : ℕ
  pub zones_as_racks : Bool
  pub host_port : Bool
  pub use_external_host_ip : Bool
  pub ingress_domain : String
  pub managed : List ManagedRegion
  pub unmanaged : List UnmanagedRegion
  pub system_keyspaces : List String
  pub system_keyspace_dcs : List SystemKeyspaceDc
  pub reaper_keyspace : String
  pub maintenance : List Maintenance

pub record ContainerStatus : Type 0 where
  pub name : String
  pub ready : Bool
  pub running : Bool

pub record Pod : Type 0 where
  pub name : String
  pub uid : String
  pub labels : Dict String String
  pub pod_ip : String
  pub node_name : String
  pub init_statuses : List ContainerStatus
  pub statuses : List ContainerStatus

pub data AddressType : Type 0 where
  internal_ip external_ip other_address : AddressType

pub record Node : Type 0 where
  pub name : String
  pub labels : Dict String String
  pub addresses : List (AddressType × String)

pub record StatefulSet : Type 0 where
  pub name : String
  pub labels : Dict String String
  pub replicas : Option ℕ
  pub ready_replicas : ℕ

-- The result of a `Get` of the Kubernetes API.
pub data Get {ℓ} (A : Type ℓ) : Type ℓ where
  found : A → Get A
  not_found : Get A
  failed : Error → Get A

-- The labels of api/v1alpha1/cassandracluster_types.go.
abbrev pub dc_label : String
dc_label = "cassandra-cluster-dc"

abbrev pub seed_label : String
seed_label = "cassandra-cluster-seed"
