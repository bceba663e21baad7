-- ===== src/ClusterReady.antt =====
-- controllers/readiness.go: whether the cluster is ready, and whether Reaper has to wait for the
-- first region. The requests that only read are answers of `Seen`; the only state is the list of
-- the statuses that were sent to the prober.
pub mod Verdict
use mr_cassop.Prelude.{
  ℕ, String, ◌<>◌, Bool, true, false, not, ◌&&◌, ◌||◌, Option, none, some, List, [], ◌∷◌, ◌++◌,
  is_empty, ◌==◌, string_eq, if◌then◌else◌, Error, Outcome, ok, err, panic, Done, Exec, pure, wrap,
  continue, ◌>>=◌, ◌>>◌, Answer, send, rewrap, and_then,
}
use mr_cassop.Cluster.{Cluster, ManagedRegion, StatefulSet, Get}
use mr_cassop.Cluster.Names.{prober_ingress_host}
use mr_cassop.InitOrder.Regions.{unready_dcs, unready_regions, get_all_regions_hosts}

pub record Seen : Type 0 where
  pub get_sts : String → Get StatefulSet
  pub region_ready : String → Outcome Bool

-- After the first status was sent.
unfoldable pub regions_verdict : Seen → Cluster → Exec (List Bool) Bool
regions_verdict seen c sent =
    continue
      (rewrap "Failed to check region readiness" (unready_regions seen.region_ready c c.managed))
      (λ unready. if c.host_port && not (is_empty unready) then pure false else pure true) sent

unfoldable pub cluster_ready : Seen → Answer Bool → Cluster → Exec (List Bool) Bool
unfolding regions_verdict
cluster_ready seen answer c sent =
    continue (rewrap "Failed to check DCs readiness" (unready_dcs seen.get_sts c.name c.dcs))
      (λ unready.
        if not (is_empty unready)
        then wrap "Failed to set DC status to not ready for prober" (send answer false)
          >> pure false
        else wrap "Failed to set DC's status to ready" (send answer true) >> regions_verdict seen c)
      sent

-- The decision of `waitForFirstRegionReaper`, from the hosts of all regions in their order.
unfoldable pub wait_for : (String → Outcome Bool) → String → List String → Outcome Bool
wait_for reaper_ready here [] = panic
wait_for reaper_ready here (first ∷ _) =
    if first == here
    then ok false
    else and_then (rewrap ("Can't get reaper status from region " <> first) (reaper_ready first))
        λ ready. ok (not ready)

unfoldable pub wait_for_first_region_reaper : (String → Outcome Bool) → Cluster → Outcome Bool
unfolding wait_for get_all_regions_hosts prober_ingress_host
wait_for_first_region_reaper reaper_ready c =
    if is_empty c.managed
    then ok false
    else wait_for reaper_ready (prober_ingress_host c.name c.namespace c.ingress_domain)
        (get_all_regions_hosts c)
