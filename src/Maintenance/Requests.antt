-- ===== src/Maintenance/Requests.antt =====
-- What a pass over the maintenance requests changes (maintenance.go `processMaintenanceRequest`).
use mr_cassop.Prelude.{
  String, Bool, true, false, not, none, some, List, [], ◌∷◌, ◌++◌, find?, ◌≡◌, refl, ◌==◌,
  string_eq, if◌then◌else◌, arith, Outcome, ok, Answer,
}
use mr_cassop.Prelude.Dict.{Dict, lookup, insert, erase, lookup-insert, lookup-erase}
use mr_cassop.Cluster.{Maintenance, Pod}
use mr_cassop.Maintenance.{
  check_maintenance_running, in_maintenance_spec, Call, patch_config_map,
  update_maintenance_config_map, update_maintenance_mode, process_maintenance_request,
}

-- The pod is asked to be in maintenance and is not, or the other way round.
unfoldable pub is_unsettled : List Maintenance → Pod → Bool
is_unsettled spec pod =
    if in_maintenance_spec spec pod.name
    then not (check_maintenance_running pod)
    else check_maintenance_running pod

-- A pass changes at most one pod: the first that is not as the spec asks, which is switched to what
-- the spec asks. If there is none, nothing is sent.
pub process_maintenance_request-first :
    (answer : Answer Call) (config_map : Outcome (Dict String String)) (spec : List Maintenance)
    (pods : List Pod) (sent : List Call)
    → process_maintenance_request answer config_map spec pods sent
      ≡ elim (find? (is_unsettled spec) pods) [
        | none ↦ (ok tt, sent)
        | some pod ↦
            update_maintenance_mode answer config_map (in_maintenance_spec spec pod.name) pod sent
      ]
unfolding process_maintenance_request is_unsettled
process_maintenance_request-first answer config_map spec [] sent = refl
process_maintenance_request-first answer config_map spec (pod ∷ pods) sent =
    ground (arith, process_maintenance_request-first answer config_map spec pods sent)

-- The config map that is written for a pod marks that pod if it is put into maintenance and has no
-- mark for it if it is taken out, and keeps every other mark.
pub update_maintenance_config_map_lem :
    (answer : Answer Call) (entries : Dict String String) (enabled : Bool) (pod : String)
    (sent : List Call)
    → (entries' : Dict String String) × ((update_maintenance_config_map answer
          (ok entries)
          enabled
          pod
          sent).1
        ≡ sent ++ patch_config_map entries' ∷ [])
      × ((n : String)
          → lookup n entries'
            ≡ (if n == pod then if enabled then some "true" else none else lookup n entries))
unfolding update_maintenance_config_map
update_maintenance_config_map_lem answer entries true pod sent =
    (insert pod "true" entries, refl, λ n. ground (arith, lookup-insert n pod "true" entries))
update_maintenance_config_map_lem answer entries false pod sent =
    (erase pod entries, refl, λ n. ground (arith, lookup-erase n pod entries))
