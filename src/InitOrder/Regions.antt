-- ===== src/InitOrder/Regions.antt =====
-- Which region, and which of its DCs, is initialised next (cassandra_pods_config.go, and `unreadyDCs`,
-- `unreadyRegions` of readiness.go). Requests to Kubernetes and to the probers of other regions are
-- parameters: functions of what is asked.
pub mod OneAtATime
use mr_cassop.Prelude.{
  ℕ, String, Bool, true, false, not, ◌&&◌, ◌||◌, Option, none, some, List, [], ◌∷◌, ◌++◌, is_empty,
  contains, eqb, ◌==◌, string_eq, if◌then◌else◌, Error, message, Outcome, ok, err, panic, and_then,
  deref, rewrap, length,
}
use mr_cassop.Prelude.Dict.{Dict, lookup, insert}
use mr_cassop.Prelude.Order.{sort_strings}
use mr_cassop.Cluster.{Cluster, Dc, ManagedRegion, StatefulSet, Get, found, not_found, failed}
use mr_cassop.Cluster.Names.{dc_name, prober_ingress_host, prober_ingress_domain}

-- `ErrRegionNotReady`
abbrev pub err_region_not_ready : Error
err_region_not_ready = message "One of the regions is not ready"

abbrev is_unready : ℕ → StatefulSet → Bool
is_unready replicas sts =
    not (eqb replicas sts.ready_replicas) || (eqb sts.ready_replicas 0 && not (eqb replicas 0))

-- One round of the loop of `unreadyDCs`: does the DC belong to the result?
unfoldable pub dc_unready : Get StatefulSet → Dc → Outcome Bool
dc_unready not_found dc = ok true
dc_unready (failed e) dc = rewrap "failed to get statefulset: " (err e)
dc_unready (found sts) dc = and_then (deref dc.replicas) λ replicas. ok (is_unready replicas sts)

module _ (get_sts : String → Get StatefulSet) where
  unfoldable pub unready_dcs : String → List Dc → Outcome (List String)
  unfolding dc_unready dc_name
  unready_dcs cluster [] = ok []
  unready_dcs cluster (dc ∷ dcs) =
      and_then (dc_unready (get_sts (dc_name cluster dc.name)) dc) λ unready.
        and_then (unready_dcs cluster dcs) λ rest. ok (if unready then dc.name ∷ rest else rest)

module _ (region_ready : String → Outcome Bool) where
  abbrev not_ready_on_error : Outcome Bool → Outcome Bool
  not_ready_on_error (ok b) = ok b
  not_ready_on_error (err e) = err err_region_not_ready
  not_ready_on_error panic = panic

  unfoldable pub remote_statuses :
      Cluster → List ManagedRegion → Dict String Bool → Outcome (Dict String Bool)
  unfolding prober_ingress_domain
  remote_statuses cc [] m = ok m
  remote_statuses cc (region ∷ regions) m =
      let host = prober_ingress_domain cc region in
      and_then (not_ready_on_error (region_ready host))
        λ ready. remote_statuses cc regions (insert host ready m)

  unfoldable pub unready_regions : Cluster → List ManagedRegion → Outcome (List String)
  unfolding prober_ingress_domain
  unready_regions cc [] = ok []
  unready_regions cc (region ∷ regions) =
      let host = prober_ingress_domain cc region in
      and_then (not_ready_on_error (region_ready host)) λ ready.
        and_then (unready_regions cc regions) λ rest. ok (if ready then rest else host ∷ rest)

unfoldable pub current_region_host : Cluster → String
unfolding prober_ingress_host
current_region_host cc = prober_ingress_host cc.name cc.namespace cc.ingress_domain

unfoldable pub managed_hosts : Cluster → List ManagedRegion → List String
unfolding prober_ingress_domain
managed_hosts cc [] = []
managed_hosts cc (region ∷ regions) =
    let rest = managed_hosts cc regions in
    if region.domain == "" then rest else prober_ingress_domain cc region ∷ rest

unfoldable pub get_all_regions_hosts : Cluster → List String
unfolding managed_hosts current_region_host
get_all_regions_hosts cc =
    sort_strings (managed_hosts cc cc.managed ++ (current_region_host cc ∷ []))

unfoldable pub get_next_local_dc_to_init : List Dc → List String → String
get_next_local_dc_to_init [] unready = ""
get_next_local_dc_to_init (dc ∷ dcs) unready =
    if contains unready dc.name then dc.name else get_next_local_dc_to_init dcs unready

abbrev status_or_false : Option Bool → Bool
status_or_false none = false
status_or_false (some b) = b

unfoldable pub first_unready : (String → Bool) → List String → String
first_unready ready [] = ""
first_unready ready (host ∷ hosts) = if ready host then first_unready ready hosts else host

unfoldable pub get_next_region_to_init : Cluster → Dict String Bool → String
unfolding first_unready
get_next_region_to_init cc statuses =
    first_unready (λ host. status_or_false (lookup host statuses)) (get_all_regions_hosts cc)

-- The results of `getInitOrderInfo`.
pub record InitOrder : Type 0 where
  pub region_paused : Bool
  pub next_dc : String

abbrev pub nothing_to_init : InitOrder
nothing_to_init = record { region_paused = false; next_dc = "" }

unfoldable pub order_in_region : Cluster → List String → Dict String Bool → InitOrder
order_in_region cc unready remote =
    let here = current_region_host cc in
    let statuses = insert here (is_empty unready) remote in
    let next = get_next_region_to_init cc statuses in
    if next == ""
    then nothing_to_init
    else if status_or_false (lookup here statuses)
    then nothing_to_init
    else if not (next == here)
    then record { region_paused = true; next_dc = "" }
    else record { region_paused = false; next_dc = get_next_local_dc_to_init cc.dcs unready }

unfoldable pub get_init_order_info :
    (String → Get StatefulSet) → (String → Outcome Bool) → Cluster → Outcome InitOrder
unfolding order_in_region
get_init_order_info get_sts region_ready cc =
    and_then (rewrap "Can't get not ready DCs info" (unready_dcs get_sts cc.name cc.dcs)) λ unready.
      if not cc.host_port
      then ok (record { region_paused = false; next_dc = get_next_local_dc_to_init cc.dcs unready })
      else if is_empty cc.managed
      then ok nothing_to_init
      else and_then (remote_statuses region_ready cc cc.managed [])
          λ remote. ok (order_in_region cc unready remote)
