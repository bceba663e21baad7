-- ===== src/Reaper.antt =====
-- controllers/helpers.go (getAllDCs), reaper_keyspace.go, reaper.go (reconcileReaper) and
-- reaper/repairs.go (RunRepair): what Reaper needs before schedules can be made.
pub mod Runs
use mr_cassop.Prelude.{
  ℕ, String, ◌<>◌, Bool, true, false, ◌&&◌, ◌||◌, Option, none, some, List, [], ◌∷◌, ◌++◌, map, any,
  is_empty, ltb, eqb, ◌==◌, string_eq, if◌then◌else◌, Error, message, wrapped, Outcome, ok, err,
  panic, Done, Exec, pure, wrap, continue, ◌>>◌, ◌>>=◌, Answer, send, rewrap, and_then,
}
use mr_cassop.Cluster.{
  Cluster, Dc, ManagedRegion, UnmanagedDc, UnmanagedRegion, Get, found, not_found, failed,
}
use mr_cassop.Cluster.Names.{prober_ingress_domain}
use mr_cassop.Keyspaces.{
  Keyspace, Options, default_rf, desired_replication_options, get_keyspace_by_name, same_options,
  covers,
}

-- The DCs of the managed regions, each asked for its own; `get_dcs` is the answer of its prober.
unfoldable pub managed_dcs :
    (String → Outcome (List Dc)) → Cluster → List ManagedRegion → Outcome (List Dc)
managed_dcs get_dcs c [] = ok []
managed_dcs get_dcs c (region ∷ regions) =
    let url = prober_ingress_domain c region in
    and_then (rewrap ("can't get dcs list from region " <> url) (get_dcs url)) (λ dcs.
      if is_empty dcs
      then err (message "One of the regions is not ready")
      else and_then (managed_dcs get_dcs c regions) (λ rest. ok (dcs ++ rest)))

unmanaged_dc : UnmanagedDc → Dc
unmanaged_dc d = record { name = d.name; replicas = some (if ltb d.rf 3 then d.rf else default_rf) }

unfoldable pub unmanaged_dcs : List UnmanagedRegion → List Dc
unfolding unmanaged_dc
unmanaged_dcs [] = []
unmanaged_dcs (r ∷ rs) = map unmanaged_dc r.dcs ++ unmanaged_dcs rs

unfoldable pub get_all_dcs : (String → Outcome (List Dc)) → Cluster → Outcome (List Dc)
get_all_dcs get_dcs c =
    if is_empty c.managed && is_empty c.unmanaged
    then ok c.dcs
    else and_then (managed_dcs get_dcs c c.managed)
        (λ external. ok ((c.dcs ++ external) ++ unmanaged_dcs c.unmanaged))

-- The queries of the keyspace of Reaper, with their replication.
pub data Query : Type 0 where
  create_keyspace alter_keyspace : String → Options → Query

module _ (digits : ℕ → String) (answer : Answer Query) where
  unfoldable pub reconcile_reaper_keyspace :
      Outcome (List Keyspace) → Cluster → List Dc → Exec (List Query) Done
  unfolding covers
  reconcile_reaper_keyspace keyspaces_info c all_dcs sent =
      continue (rewrap "failed to get keyspaces info" keyspaces_info)
        (λ keyspaces s.
          let options = desired_replication_options digits c c.reaper_keyspace all_dcs in
          elim (get_keyspace_by_name keyspaces c.reaper_keyspace) [
            | none ↦
                wrap "failed to create reaper keyspace"
                  (send answer (create_keyspace c.reaper_keyspace options)) s
            | some k ↦
                if same_options options k.replication
                then (ok tt, s)
                else wrap "failed to create reaper keyspace"
                    (send answer (alter_keyspace c.reaper_keyspace options)) s
          ])
        sent

-- What reconcileReaper calls for each DC, and the ready replicas of its deployment.
pub record Deployments (S : Type 0) : Type 0 where
  pub shiro_config_map : Exec S Done
  pub deployment : Dc → Exec S Done
  pub service : Exec S Done
  pub service_monitor : Exec S Done
  pub ready_replicas : S → Dc → Outcome ℕ

module _ {S : Type 0} (d : Deployments S) where
  deploy : Dc → Exec S Done
  deploy dc =
      wrap "Failed to reconcile reaper deployment" (d.deployment dc)
      >> wrap "Failed to reconcile reaper service" d.service
      >> wrap "Failed to reconcile reaper service monitor" d.service_monitor

  deploy_each : List Dc → Exec S Done
  unfolding deploy
  deploy_each [] = pure tt
  deploy_each (dc ∷ dcs) = deploy dc >> deploy_each dcs

  -- Whether to wait: the deployment of the first DC has to be ready before the others are made.
  unfoldable pub reconcile_reaper : List Dc → Exec S Bool
  unfolding deploy deploy_each
  reconcile_reaper [] = wrap "Error reconciling shiro configmap" d.shiro_config_map >> pure false
  reconcile_reaper (dc ∷ dcs) =
      wrap "Error reconciling shiro configmap" d.shiro_config_map
      >> deploy dc
      >> (λ s. (rewrap "Failed to get reaper deployment" (d.ready_replicas s dc), s))
      >>= λ ready. if eqb ready 1 then deploy_each dcs >> pure false else pure true

pub record RepairRun : Type 0 where
  pub id : String
  pub state : String
  pub keyspace_name : String

-- The requests of RunRepair. The identifier of a new run is in the answer to its creation.
pub data Request : Type 0 where
  create_run : String → String → Request
  start_run : String → Request

abbrev pub is_active : String → RepairRun → Bool
is_active keyspace run =
    run.keyspace_name == keyspace && (run.state == "RUNNING" || run.state == "NOT_STARTED")

-- `runs` is the answer of `getRepairRuns`, `created` that of `createRepairRun`.
unfoldable pub run_repair :
    Answer Request
    → Outcome (List RepairRun)
    → Outcome RepairRun
    → String
    → String
    → Exec (List Request) Done
run_repair answer runs created keyspace cause sent =
    continue runs
      (λ existing s.
        if any (is_active keyspace) existing
        then (ok tt, s)
        else continue created (λ run. send answer (start_run run.id))
            (s ++ create_run keyspace cause ∷ []))
      sent
