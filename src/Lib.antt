-- ===== src/Lib.antt =====
-- cassandra-operator: an operator that runs Cassandra clusters on Kubernetes, and a prober that runs
-- beside each cluster.
--
-- The parts and how they interact. The prober polls the Cassandra nodes through Jolokia, answers the
-- readiness probes of the pods, and keeps the statuses, seeds and DCs that the regions of a cluster
-- exchange. The operator reconciles a CassandraCluster again and again: it decides which region, DC
-- and pod may start and writes that into the pods' config map, scales the statefulsets and
-- decommissions pods and DCs, reconciles keyspaces, roles, repair schedules and maintenance, and
-- tells the prober whether its region is ready. Backups are sent to Icarus. Webhooks validate the
-- resources before any of this.
--
-- Which file models which code:
--   Prober/State, Prober/Readiness: prober/prober/node_states.go (processReadinessProbe,
--     isNodeReady), prober/prober/prober.go (state), prober/jolokia/cassandra.go
--   Prober/Polling: node_states.go (updateNodeStates, updateNodesRequest, allNodesStates, ownedDC)
--   Prober/Server: prober/prober/handlers.go, prober.go (setupRoutes, BasicAuth), auth_secret.go
--   Jobs: controllers/jobs/manager.go
--   Cluster, Cluster/Names: the fields of api/v1alpha1 that are read, controllers/names/names.go
--   InitOrder/Pods, InitOrder/Regions, InitOrder/Seeds, InitOrder/PodsConfig:
--     controllers/cassandra_pods_config.go, cassandra_pod_ips.go, and from readiness.go unreadyDCs
--     and unreadyRegions
--   ClusterReady: controllers/readiness.go (clusterReady, waitForFirstRegionReaper)
--   Scaling, Scaling/Decommission, Scaling/Reconcile: controllers/cassandra_scaling.go
--   Keyspaces: controllers/keyspaces.go
--   Roles: controllers/roles.go
--   Admin, Admin/Secrets, Admin/Change, Admin/Creation: controllers/admin_auth.go, role_admin.go,
--     default_role.go, and doWithRetry of helpers.go
--   Objects: reconcileConfigMap and reconcileSecret of controllers/helpers.go
--   CqlScripts, CqlScripts/Lines, CqlScripts/Execution: controllers/cql_configmaps.go
--   Defaults: controllers/defaults.go
--   Reaper: controllers/reaper_keyspace.go, reaper.go (reconcileReaper), reaper/repairs.go (RunRepair)
--     and getAllDCs of helpers.go
--   Policies: controllers/network_policies.go, and Uniq of controllers/util/utils.go
--   Controller: controllers/controller.go, whose phases are the operations of the other files and of
--     code that is not modelled
--   Repairs: controllers/repair_schedules.go
--   Maintenance: controllers/maintenance.go
--   Webhooks: api/v1alpha1/cassandracluster_webhook.go
--   Backups: controllers/cassandrabackup/backup.go and icarus.go
--   Restores: controllers/cassandrarestore/restore.go and icarus.go
--   Prelude: what they share; Tests: the theorems at concrete inputs
--
-- How code becomes a definition. A Go struct is a record, and a function a function of the same name
-- in snake case; a loop is a recursion over its list, with one turn of the loop under a name of its
-- own where a proof speaks of it. A function that may fail gives an Outcome: a value, an error, or
-- `panic` for a nil dereference or an index out of range. Requests that only read are functions of
-- what is asked. Requests that change another system are commands: the state is the list of the
-- commands sent so far, and the answer to a command may depend on all of it, so an error leaves what
-- was sent before it. Pointers are Option, maps are association lists with the lookups of a Go map,
-- and where the order in which Go ranges over a map cannot matter, one order is taken.
--
-- Bounds. Every recursion is structural, so no fuel is used; the retries have a bound in the code. The
-- integers of the resources are not negative, by the schema of the resource, and small; they are
-- natural numbers here. Texts are compared by their code points, which on UTF-8 is Go's order of
-- bytes. Unless a definition says otherwise, a nil list or map is not told from an empty one. Where
-- code sorts a list in place, what it leaves is passed on.
--
-- Not modelled. HTTP and CQL clients, the Kubernetes client and informers, parsers of JSON, YAML,
-- times and numbers, and checksums: their results are parameters. Log lines and events. The builders
-- of Kubernetes objects, which are literals. The webhooks and controllers of backups and restores. A
-- pass of the operator is modelled over a record of its phases, so it
-- says in which order they are called, not again what they do. CQL scripts are of ASCII characters.
pub mod Prelude
pub mod Prober
pub mod Jobs
pub mod Cluster
pub mod InitOrder
pub mod Keyspaces
pub mod Roles
pub mod Webhooks
pub mod Scaling
pub mod Backups
pub mod Restores
pub mod Maintenance
pub mod Reaper
pub mod Policies
pub mod Defaults
pub mod CqlScripts
pub mod Controller
pub mod Admin
pub mod Objects
pub mod ClusterReady
pub mod Repairs
mod Tests
