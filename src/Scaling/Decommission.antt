-- ===== src/Scaling/Decommission.antt =====
-- controllers/cassandra_scaling.go: the scaling of the statefulsets and the decommission of pods and
-- DCs. The state holds the manager of jobs and the calls that were sent to Kubernetes and Cassandra.
pub mod Safety
pub mod Blocked
pub mod Leftover
use mr_cassop.Prelude.{
  ℕ, ◌-◌, String, ◌<>◌, Bool, true, false, not, ◌&&◌, ◌||◌, Option, none, some, List, [], ◌∷◌, ◌++◌,
  any, is_empty, find?, ◌==◌, string_eq, if◌then◌else◌, ltb, eqb, Error, message, wrapped, Outcome,
  ok, err, panic, Done, Exec, pure, raise, wrap, continue, ◌>>=◌, ◌>>◌, Answer, rewrap,
}
use mr_cassop.Prelude.Dict.{Dict, lookup}
use mr_cassop.Cluster.{Cluster, Dc, Pod, StatefulSet, dc_label}
use mr_cassop.Cluster.Names.{reaper_deployment, dc_service}
use mr_cassop.InitOrder.PodsConfig.{value_at}
use mr_cassop.Jobs.{Manager, run, exists, is_running, remove_job}
use mr_cassop.Keyspaces.{
  Options, Keyspace, system_auth, keyspace_exists, get_keyspace_by_name, same_options, covers,
  desired_keyspaces_to_reconcile, desired_replication_options,
}
use mr_cassop.Scaling.{dcs_map, desired_dcs_sts, decommission_dcs_sts, pod_decommissioned}

pub data Call : Type 0 where
  scale : String → ℕ → Call
  delete_deployment delete_service delete_sts : String → Call
  update_rf : String → Options → Call

pub record World : Type 0 where
  pub jobs : Manager
  pub sent : List Call

-- What the operator reads while it scales, and how its calls are answered. `admin_secret` is the
-- answer of `adminRoleSecret`, and `keyspaces` that of the CQL session and of `GetKeyspacesInfo`.
pub record Ask : Type 0 where
  pub digits : ℕ → String
  pub operation_mode : String → Outcome String
  pub cluster_view : String → Outcome (List String)
  pub admin_secret : Outcome Done
  pub deployment_found : String → Bool
  pub service_found : String → Bool
  pub keyspaces : Outcome (List Keyspace)
  pub answer : Answer Call

abbrev pub err_dc_decommission_blocked : Error
err_dc_decommission_blocked = message "DC decommission blocked"

abbrev pub do_call : Ask → Call → Exec World Done
do_call ask call w = (ask.answer w.sent call, record w { sent = w.sent ++ call ∷ [] })

abbrev pub on_jobs : (Manager → Outcome Done × Manager) → Exec World Done
on_jobs f w = let (r, m) = f w.jobs in (r, record w { jobs = m })

abbrev pub job_name : String → String
job_name pod_name = "pod-decommission-" <> pod_name

-- The pod has left the ring: its statefulset loses a replica.
unfoldable pub scale_down : Ask → StatefulSet → String → Exec World Done
unfolding remove_job
scale_down ask sts pod_name w = elim sts.replicas [
  | none ↦ (panic, w)
  | some n ↦
      (wrap "couldn't scale down the statefulset to remove the decommissioned node"
            (do_call ask (scale sts.name (n - 1)))
          >> wrap "can't remove job" (on_jobs (remove_job (job_name pod_name))))
        w
]

unfoldable pub after_check : Ask → StatefulSet → String → Error → Outcome Bool → Exec World Done
unfolding scale_down
after_check ask sts pod_name e (ok true) w = scale_down ask sts pod_name w
after_check ask sts pod_name e (ok false) w = (
  err (wrapped "failed to get operation mode, but some peer node(s) still see the node as ready" e),
  w,
)
after_check ask sts pod_name e (err x) w =
    (err (wrapped "failed to check if the pod is decommissioned" x), w)
after_check ask sts pod_name e panic w = (panic, w)

-- The rest of `handlePodDecommission` once the operation mode was asked for.
unfoldable pub by_mode :
    Ask
    → Cluster
    → StatefulSet
    → Dict String String
    → Pod
    → List Pod
    → Outcome String
    → Exec World Done
unfolding after_check run
by_mode ask c sts addresses pod pods (ok mode) w =
    if mode == "LEAVING"
    then (ok tt, w)
    else wrap ("failed to start job to decommission pod " <> pod.name)
        (on_jobs (run (job_name pod.name))) w
by_mode ask c sts addresses pod pods (err e) w =
    after_check ask sts pod.name e (pod_decommissioned ask.cluster_view c pods pod addresses) w
by_mode ask c sts addresses pod pods panic w = (panic, w)

-- When the admin secret cannot be read, the warning that is logged names the nil secret.
unfoldable pub handle_found_pod :
    Ask
    → Cluster
    → StatefulSet
    → Dict String String
    → Option Pod
    → List Pod
    → Outcome Done
    → Exec World Done
unfolding by_mode value_at
handle_found_pod ask c sts addresses none pods secret w =
    (err (message "couldn't find pod to start the decommission"), w)
handle_found_pod ask c sts addresses (some pod) pods (ok d) w =
    by_mode ask c sts addresses pod pods (ask.operation_mode (value_at pod.name addresses)) w
handle_found_pod ask c sts addresses (some pod) pods (err e) w = (panic, w)
handle_found_pod ask c sts addresses (some pod) pods panic w = (panic, w)

unfoldable pub handle_pod_decommission :
    Ask → Cluster → StatefulSet → Dict String String → String → List Pod → Exec World Done
unfolding handle_found_pod exists is_running
handle_pod_decommission ask c sts addresses pod_name pods w =
    if exists (job_name pod_name) w.jobs && is_running (job_name pod_name) w.jobs
    then (ok tt, w)
    else handle_found_pod ask c sts addresses (find? (λ p. p.name == pod_name) pods) pods
        ask.admin_secret w

-- The last two steps of `removeDC`. The test of the error of the service's deletion is inverted.
unfoldable pub remove_service : Ask → String → Exec World Done → Exec World Done
remove_service ask name rest w =
    if ask.service_found name
    then elim (ask.answer w.sent (delete_service name)) [
      | ok _ ↦ do_call ask (delete_service name) w
      | err _ ↦ rest (do_call ask (delete_service name) w).1
      | panic ↦ do_call ask (delete_service name) w
    ]
    else rest w

unfoldable pub remove_dc : Ask → Cluster → StatefulSet → Exec World Done
unfolding remove_service value_at
remove_dc ask c sts w =
    let dc = value_at dc_label sts.labels in
    ((if ask.deployment_found (reaper_deployment c.name dc)
          then do_call ask (delete_deployment (reaper_deployment c.name dc))
          else pure tt)
        >> remove_service ask (dc_service c.name dc) (do_call ask (delete_sts sts.name)))
      w
