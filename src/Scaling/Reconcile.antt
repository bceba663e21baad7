-- ===== src/Scaling/Reconcile.antt =====
-- controllers/cassandra_scaling.go: the decommission of DCs and the pass over all statefulsets.
use mr_cassop.Prelude.{
  ℕ, ◌-◌, String, ◌<>◌, Bool, true, false, not, ◌&&◌, Option, none, some, List, [], ◌∷◌, any,
  is_empty, ◌==◌, string_eq, if◌then◌else◌, ltb, eqb, Outcome, ok, panic, Done, Exec, pure, raise,
  wrap, continue, ◌>>◌, rewrap,
}
use mr_cassop.Prelude.Dict.{Dict, lookup}
use mr_cassop.Cluster.{Cluster, Dc, Pod, StatefulSet, dc_label}
use mr_cassop.InitOrder.PodsConfig.{value_at}
use mr_cassop.Keyspaces.{
  Keyspace, system_auth, keyspace_exists, get_keyspace_by_name, same_options, covers,
  desired_keyspaces_to_reconcile, desired_replication_options,
}
use mr_cassop.Scaling.{dcs_map, desired_dcs_sts, decommission_dcs_sts}
use mr_cassop.Scaling.Decommission.{
  scale, update_rf, World, Ask, err_dc_decommission_blocked, do_call, handle_pod_decommission,
  remove_dc,
}

-- A keyspace that the operator does not look after replicates to a DC that is to be removed.
unfoldable pub in_use : Cluster → Dict String StatefulSet → List Keyspace → Bool
unfolding desired_keyspaces_to_reconcile lookup value_at
in_use c stss current =
    any
      (λ k.
        not (keyspace_exists (desired_keyspaces_to_reconcile c) k.name)
        && any
            (λ (s : String × StatefulSet).
              elim (lookup (value_at dc_label s.1.labels) k.replication) [
                | none ↦ false
                | some _ ↦ true
              ])
            stss)
      current

unfoldable pub update_system_keyspaces :
    Ask → Cluster → List Dc → List Keyspace → List String → Exec World Done
unfolding covers
update_system_keyspaces ask c all_dcs current [] w = (ok tt, w)
update_system_keyspaces ask c all_dcs current (ks ∷ rest) w =
    let next = update_system_keyspaces ask c all_dcs current rest in
    if ks == system_auth then next w else elim (get_keyspace_by_name current ks) [
      | none ↦ next w
      | some info ↦
          let desired = desired_replication_options ask.digits c ks all_dcs in
          if same_options info.replication desired
          then next w
          else (wrap ("failed to alter \"" <> (ks <> "\" keyspace"))
                  (do_call ask (update_rf ks desired))
                >> next)
              w
    ]

abbrev no_sts : StatefulSet
no_sts = record { name = ""; labels = []; replicas = none; ready_replicas = 0 }

abbrev pub sts_at : String → Dict String StatefulSet → StatefulSet
sts_at name stss = elim (lookup name stss) [ none ↦ no_sts | some s ↦ s ]

abbrev pub last_pod : Ask → StatefulSet → ℕ → String
last_pod ask sts n = sts.name <> ("-" <> ask.digits (n - 1))

-- The loop over the names of the statefulsets to decommission.
unfoldable pub decommission_each :
    Ask
    → Cluster
    → Dict String StatefulSet
    → Dict String String
    → List Pod
    → List String
    → Exec World Done
unfolding remove_dc handle_pod_decommission lookup
decommission_each ask c stss addresses pods [] w = (ok tt, w)
decommission_each ask c stss addresses pods (name ∷ names) w =
    let sts = sts_at name stss in
    let rest = decommission_each ask c stss addresses pods names in
    elim sts.replicas [
      | none ↦ (panic, w)
      | some n ↦
          if eqb n 0
          then wrap "failed to remove dc" (remove_dc ask c sts) w
          else (wrap "failed to handle pod decommission"
                  (handle_pod_decommission ask c sts addresses (last_pod ask sts n) pods)
                >> rest)
              w
    ]

unfoldable pub handle_dcs_decommission :
    Ask
    → Cluster
    → List String
    → Dict String StatefulSet
    → List Dc
    → Dict String String
    → List Pod
    → Exec World Done
unfolding in_use update_system_keyspaces decommission_each
handle_dcs_decommission ask c names stss all_dcs addresses pods w =
    continue ask.keyspaces
      (λ current.
        if in_use c stss current
        then raise err_dc_decommission_blocked
        else (update_system_keyspaces ask c all_dcs current (desired_keyspaces_to_reconcile c)
            >> decommission_each ask c stss addresses pods names))
      w

abbrev or_one : Option ℕ → ℕ
or_one none = 1
or_one (some n) = n

abbrev wanted_at : StatefulSet → Dict String ℕ → ℕ
wanted_at sts replicas = elim (lookup (value_at dc_label sts.labels) replicas) [
  | none ↦ 0
  | some n ↦ n
]

-- The loop over the names of the wanted statefulsets; `rest` is what follows the loop.
unfoldable pub scale_each :
    Ask
    → Cluster
    → Dict String StatefulSet
    → Dict String ℕ
    → Dict String String
    → List Pod
    → Exec World Bool
    → List String
    → Exec World Bool
unfolding handle_pod_decommission lookup value_at
scale_each ask c stss replicas addresses pods rest [] w = rest w
scale_each ask c stss replicas addresses pods rest (name ∷ names) w =
    let sts = sts_at name stss in
    let old = or_one sts.replicas in
    let new = wanted_at sts replicas in
    let next = scale_each ask c stss replicas addresses pods rest names in
    if eqb old new
    then next w
    else if ltb old new
    then (wrap "can't update replicas number for statefulset" (do_call ask (scale sts.name new))
          >> next)
        w
    else if is_empty pods
    then next w
    else (wrap "failed to handle pod decommission"
            (handle_pod_decommission ask c sts addresses (last_pod ask sts old) pods)
          >> pure true)
        w

-- `addresses` is the answer of `getBroadcastAddresses`, and `all` that of the list of statefulsets.
-- The flag that comes with an error is not looked at by the caller.
unfoldable pub reconcile_cassandra_scaling :
    Ask
    → Cluster
    → List Pod
    → Outcome (Dict String String)
    → Outcome (List StatefulSet)
    → List Dc
    → Exec World Bool
unfolding scale_each handle_dcs_decommission dcs_map desired_dcs_sts decommission_dcs_sts
reconcile_cassandra_scaling ask c pods addresses all all_dcs w =
    continue (rewrap "can't get broadcast addresses" addresses)
      (λ ips. continue (rewrap "can't get statefulsets" all) (λ stss.
        if is_empty stss
        then pure false
        else continue (dcs_map c.dcs []) (λ replicas.
          let (gone_names, gone) = decommission_dcs_sts c stss in
          let (names, wanted) = desired_dcs_sts c stss in
          scale_each ask c wanted replicas ips pods
            (if is_empty gone_names
              then pure false
              else (wrap "failed to decommission DCs"
                    (handle_dcs_decommission ask c gone_names gone all_dcs ips pods)
                  >> pure true))
            names)))
      w
