-- ===== src/Maintenance/Status.antt =====
-- What the maintenance status lists (maintenance.go `generateMaintenanceStatus`).
use mr_cassop.Prelude.{
  String, Bool, true, ◌&&◌, ◌||◌, List, [], ◌∷◌, ◌++◌, any, contains, contains-append, ◌≡◌, refl,
  ◌∙◌, ◌==◌, string_eq, arith,
}
use mr_cassop.Prelude.Order.{contains-sort_strings}
use mr_cassop.Cluster.{Maintenance, Pod, dc_label}
use mr_cassop.InitOrder.PodsConfig.{value_at}
use mr_cassop.Maintenance.{
  check_maintenance_running, contains_dc, join_entry, add_pod, add_pods, sort_entries,
  generate_maintenance_status,
}

-- The status has an entry for the DC that lists the pod.
unfoldable pub listed : String → String → List Maintenance → Bool
listed dc name m = any (λ e. e.dc == dc && contains e.pods name) m

listed-append :
    (dc name : String) (a b : List Maintenance)
    → listed dc name (a ++ b) ≡ (listed dc name a || listed dc name b)
unfolding listed
listed-append dc name [] b = refl
listed-append dc name (e ∷ a) b = ground (arith, listed-append dc name a b)

listed-join_entry :
    (dc name d p : String) (m : List Maintenance)
    → contains_dc m d ≡ true
    → listed dc name (join_entry d p m) ≡ (listed dc name m || (d == dc && p == name))
unfolding listed join_entry
listed-join_entry dc name d p [] h = ground arith
listed-join_entry dc name d p (e ∷ m) h =
    ground (arith, listed-join_entry dc name d p m, contains-append e.pods (p ∷ []) name)

listed-add_pod :
    (dc name : String) (pod : Pod) (m : List Maintenance)
    → listed dc name (add_pod pod m) ≡ (
        listed dc name m
        || (check_maintenance_running pod
            && (value_at dc_label pod.labels == dc && pod.name == name)))
unfolding add_pod listed
listed-add_pod dc name pod m = ground (
  arith,
  listed-join_entry dc name (value_at dc_label pod.labels) pod.name m,
  listed-append dc name m (record { dc = value_at dc_label pod.labels; pods = pod.name ∷ [] } ∷ []),
)

listed-add_pods :
    (dc name : String) (pods : List Pod) (m : List Maintenance)
    → listed dc name (add_pods pods m) ≡ (
        listed dc name m
        || any
            (λ p.
              check_maintenance_running p && (value_at dc_label p.labels == dc && p.name == name))
            pods)
unfolding add_pods
listed-add_pods dc name [] m = ground arith
listed-add_pods dc name (pod ∷ pods) m =
    ground (arith, listed-add_pods dc name pods (add_pod pod m), listed-add_pod dc name pod m)

listed-sort_entries :
    (dc name : String) (m : List Maintenance) → listed dc name (sort_entries m) ≡ listed dc name m
unfolding sort_entries listed
listed-sort_entries dc name [] = refl
listed-sort_entries dc name (e ∷ m) =
    ground (arith, listed-sort_entries dc name m, contains-sort_strings e.pods name)

-- The maintenance status lists a pod's name under a DC exactly if there is a pod with that name and
-- the label of that DC whose maintenance container is running.
pub generate_maintenance_status-listed :
    (dc name : String) (pods : List Pod)
    → listed dc name (generate_maintenance_status pods)
      ≡ any
          (λ p. check_maintenance_running p && (value_at dc_label p.labels == dc && p.name == name))
          pods
unfolding generate_maintenance_status listed
generate_maintenance_status-listed dc name pods =
    listed-sort_entries dc name (add_pods pods []) ∙ listed-add_pods dc name pods []
