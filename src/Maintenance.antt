-- ===== src/Maintenance.antt =====
-- controllers/maintenance.go: pods that are put into maintenance and taken out again, and the status
-- that says which are.
pub mod Status
pub mod Requests
use mr_cassop.Prelude.{
  String, ◌<>◌, Bool, true, false, not, ◌&&◌, ◌||◌, Option, none, some, List, [], ◌∷◌, ◌++◌, any,
  contains, ◌==◌, string_eq, if◌then◌else◌, Error, Outcome, ok, err, panic, Done, Exec, pure,
  continue, ◌>>◌, Answer, send,
}
use mr_cassop.Prelude.Dict.{Dict, insert, erase}
use mr_cassop.Prelude.Order.{sort_strings}
use mr_cassop.Cluster.{Cluster, Maintenance, Pod, dc_label}
use mr_cassop.InitOrder.PodsConfig.{value_at}

abbrev pub check_maintenance_running : Pod → Bool
check_maintenance_running pod =
    any (λ s. s.name == "maintenance-mode" && s.running) pod.init_statuses

abbrev pub check_cassandra_running : Pod → Bool
check_cassandra_running pod = any (λ s. s.name == "cassandra" && s.running) pod.statuses

abbrev pub in_maintenance_spec : List Maintenance → String → Bool
in_maintenance_spec m name = any (λ e. contains e.pods name) m

abbrev pub contains_dc : List Maintenance → String → Bool
contains_dc m name = any (λ e. e.dc == name) m

-- The inner loop of `generateMaintenanceStatus`: the pod joins the first entry of its DC.
unfoldable pub join_entry : String → String → List Maintenance → List Maintenance
join_entry dc pod [] = []
join_entry dc pod (e ∷ es) =
    if e.dc == dc then record e { pods = e.pods ++ pod ∷ [] } ∷ es else e ∷ join_entry dc pod es

unfoldable pub add_pod : Pod → List Maintenance → List Maintenance
unfolding join_entry value_at
add_pod pod status =
    let dc = value_at dc_label pod.labels in
    if check_maintenance_running pod
    then if contains_dc status dc
      then join_entry dc pod.name status
      else status ++ record { dc = dc; pods = pod.name ∷ [] } ∷ []
    else status

unfoldable pub add_pods : List Pod → List Maintenance → List Maintenance
unfolding add_pod
add_pods [] status = status
add_pods (pod ∷ pods) status = add_pods pods (add_pod pod status)

unfoldable pub sort_entries : List Maintenance → List Maintenance
unfolding sort_strings
sort_entries [] = []
sort_entries (e ∷ es) = record e { pods = sort_strings e.pods } ∷ sort_entries es

-- `generateMaintenanceStatus`, once the pods were listed.
unfoldable pub generate_maintenance_status : List Pod → List Maintenance
unfolding add_pods sort_entries
generate_maintenance_status pods = sort_entries (add_pods pods [])

pub data Call : Type 0 where
  patch_config_map : Dict String String → Call
  fail_pod : String → Call

module _ (answer : Answer Call) (config_map : Outcome (Dict String String)) where
  -- `updateMaintenanceConfigMap`; `config_map` is the answer of `getConfigMap`.
  unfoldable pub update_maintenance_config_map : Bool → String → Exec (List Call) Done
  update_maintenance_config_map enabled pod sent =
      continue config_map
        (λ entries.
          send answer
            (patch_config_map (if enabled then insert pod "true" entries else erase pod entries)))
        sent

  unfoldable pub update_maintenance_mode : Bool → Pod → Exec (List Call) Done
  unfolding update_maintenance_config_map
  update_maintenance_mode enabled pod sent =
      (update_maintenance_config_map enabled pod.name
          >> (if enabled && check_cassandra_running pod
              then send answer (fail_pod pod.name)
              else pure tt))
        sent

  -- `processMaintenanceRequest`, once the pods were listed: it returns at the first pod that it
  -- changes.
  unfoldable pub process_maintenance_request : List Maintenance → List Pod → Exec (List Call) Done
  unfolding update_maintenance_mode
  process_maintenance_request spec [] sent = (ok tt, sent)
  process_maintenance_request spec (pod ∷ pods) sent =
      let wanted = in_maintenance_spec spec pod.name in
      let running = check_maintenance_running pod in
      if wanted && not running
      then update_maintenance_mode true pod sent
      else if not wanted && running
      then update_maintenance_mode false pod sent
      else process_maintenance_request spec pods sent
