-- ===== src/Tests/ScalingTests.antt =====
-- Scaling and decommission at concrete inputs.
use mr_cassop.Prelude.{
  ◌≤◌, String, true, false, ◌&&◌, some, List, [], ◌∷◌, any, ◌≡◌, refl, ◌==◌, string_eq,
  if◌then◌else◌, Outcome, ok,
}
use mr_cassop.Prelude.Dict.{Dict, lookup, insert}
use mr_cassop.Cluster.{Pod, StatefulSet, dc_label}
use mr_cassop.Cluster.Samples.{cluster, pod}
use mr_cassop.InitOrder.PodsConfig.{value_at}
use mr_cassop.Jobs.{new_job_manager}
use mr_cassop.Scaling.{pod_decommissioned, in_desired_dc, not_live_view, quorum, dcs_map}
use mr_cassop.Scaling.Quorum.{still_seen_by, pod_decommissioned-quorum}
use mr_cassop.Scaling.Decommission.{World, Ask, handle_pod_decommission, remove_dc}
use mr_cassop.Scaling.Reconcile.{handle_dcs_decommission}
use mr_cassop.Scaling.Decommission.Safety.{has_left, handle_pod_decommission-sent}
use mr_cassop.Scaling.Decommission.Blocked.{Decommission, handle_dcs_decommission-Decommission}
use mr_cassop.Scaling.Decommission.Leftover.{deletions, remove_dc-deletions}

abbrev a0 : Pod
a0 = pod "dc1-0" "dc1" true

abbrev a1 : Pod
a1 = pod "dc1-1" "dc1" true

abbrev addresses : Dict String String
addresses = ("dc1-0", "10.0.0.1") ∷ ("dc1-1", "10.0.0.2") ∷ []

abbrev alone : String → Outcome (List String)
alone ip = ok ("10.0.0.1" ∷ [])

pod_decommissioned-quorum_example :
    (still_seen_by alone addresses cluster.dcs a1 (a0 ∷ a1 ∷ []) ≤ 1)
    × ((if any (λ p. p.name == "dc1-1" && in_desired_dc cluster.dcs p) (a0 ∷ a1 ∷ [])
          then still_seen_by alone addresses cluster.dcs a1 (a0 ∷ a1 ∷ [])
          else 0)
        ≡ 0)
unfolding pod_decommissioned quorum in_desired_dc dcs_map not_live_view value_at lookup insert
    string_eq
pod_decommissioned-quorum_example =
    pod_decommissioned-quorum alone cluster (a0 ∷ a1 ∷ []) a1 addresses refl

abbrev ask : Ask
ask = record {
  digits = λ n. "1";
  operation_mode = λ ip. ok "NORMAL";
  cluster_view = alone;
  admin_secret = ok tt;
  deployment_found = λ name. false;
  service_found = λ name. true;
  keyspaces = ok (record { name = "orders"; replication = ("dc9", "3") ∷ [] } ∷ []);
  answer = λ sent call. ok tt;
}

abbrev world : World
world = record { jobs = new_job_manager; sent = [] }

abbrev sts : String → StatefulSet
sts dc = record { name = dc; labels = (dc_label, dc) ∷ []; replicas = some 2; ready_replicas = 2 }

handle_pod_decommission-sent_example :
    (handle_pod_decommission ask cluster (sts "dc1") addresses "dc1-1" (a0 ∷ a1 ∷ []) world).1.sent
    ≡ []
unfolding has_left string_eq
handle_pod_decommission-sent_example =
    handle_pod_decommission-sent ask cluster (sts "dc1") addresses "dc1-1" (a0 ∷ a1 ∷ []) world refl

-- "orders" still replicates to the DC "dc9", which is to go.
handle_dcs_decommission-Decommission_example :
    Decommission ask cluster
      ("dc9" ∷ [])
      (("dc9", sts "dc9") ∷ [])
      cluster.dcs
      addresses
      (a0 ∷ [])
      world
      (handle_dcs_decommission ask cluster
        ("dc9" ∷ [])
        (("dc9", sts "dc9") ∷ [])
        cluster.dcs
        addresses
        (a0 ∷ [])
        world)
handle_dcs_decommission-Decommission_example =
    handle_dcs_decommission-Decommission ask cluster ("dc9" ∷ []) (("dc9", sts "dc9") ∷ [])
      cluster.dcs addresses (a0 ∷ []) world

-- The service is deleted, and the statefulset stays.
remove_dc-deletions_example : deletions (remove_dc ask cluster (sts "dc9") world).1.sent ≡ 0
remove_dc-deletions_example = remove_dc-deletions ask cluster (sts "dc9") world
