-- ===== src/Scaling/Decommission/Safety.antt =====
-- What scaling never does (cassandra_scaling.go).
use mr_cassop.Prelude.{
  String, Bool, true, false, not, ◌&&◌, Option, none, some, List, ◌≡◌, refl, ap, find?, ◌==◌,
  string_eq, arith, Error, Outcome, ok, err, panic, Done, is_ok,
}
use mr_cassop.Prelude.Dict.{Dict}
use mr_cassop.Cluster.{Cluster, Pod, StatefulSet}
use mr_cassop.InitOrder.PodsConfig.{value_at}
use mr_cassop.Scaling.{pod_decommissioned}
use mr_cassop.Scaling.Decommission.{
  World, Ask, after_check, by_mode, handle_found_pod, handle_pod_decommission,
}

abbrev says_yes : Outcome Bool → Bool
says_yes (ok b) = b
says_yes (err e) = false
says_yes panic = false

-- The pod's node no longer answers and enough of its peers agree that it is gone.
unfoldable pub has_left : Ask → Cluster → Dict String String → List Pod → Option Pod → Bool
unfolding value_at
has_left ask c addresses pods none = false
has_left ask c addresses pods (some pod) =
    not (is_ok (ask.operation_mode (value_at pod.name addresses)))
    && says_yes (pod_decommissioned ask.cluster_view c pods pod addresses)

after_check-sent :
    (ask : Ask) (sts : StatefulSet) (name : String) (e : Error) (b : Outcome Bool) (w : World)
    → says_yes b ≡ false
    → (after_check ask sts name e b w).1 ≡ w
unfolding after_check
after_check-sent ask sts name e (ok true) w h = ground arith
after_check-sent ask sts name e (ok false) w h = refl
after_check-sent ask sts name e (err x) w h = refl
after_check-sent ask sts name e panic w h = refl

by_mode-sent :
    (ask : Ask) (c : Cluster) (sts : StatefulSet) (addresses : Dict String String) (pod : Pod)
    (pods : List Pod) (m : Outcome String) (w : World)
    → (not (is_ok m) && says_yes (pod_decommissioned ask.cluster_view c pods pod addresses)) ≡ false
    → (by_mode ask c sts addresses pod pods m w).1.sent ≡ w.sent
unfolding by_mode
by_mode-sent ask c sts addresses pod pods (ok m) w h = ground arith
by_mode-sent ask c sts addresses pod pods (err e) w h =
    ap (λ x. x.sent)
      (after_check-sent ask sts pod.name e
        (pod_decommissioned ask.cluster_view c pods pod addresses) w h)
by_mode-sent ask c sts addresses pod pods panic w h = refl

handle_found_pod-sent :
    (ask : Ask) (c : Cluster) (sts : StatefulSet) (addresses : Dict String String) (p : Option Pod)
    (pods : List Pod) (secret : Outcome Done) (w : World)
    → has_left ask c addresses pods p ≡ false
    → (handle_found_pod ask c sts addresses p pods secret w).1.sent ≡ w.sent
unfolding handle_found_pod has_left
handle_found_pod-sent ask c sts addresses none pods secret w h = refl
handle_found_pod-sent ask c sts addresses (some pod) pods (ok d) w h =
    by_mode-sent ask c sts addresses pod pods (ask.operation_mode (value_at pod.name addresses)) w h
handle_found_pod-sent ask c sts addresses (some pod) pods (err e) w h = refl
handle_found_pod-sent ask c sts addresses (some pod) pods panic w h = refl

-- A pod whose node still answers with its operation mode, or is not agreed to be gone by its peers,
-- is never scaled away: handling its decommission sends no call, in every case.
pub handle_pod_decommission-sent :
    (ask : Ask) (c : Cluster) (sts : StatefulSet) (addresses : Dict String String) (name : String)
    (pods : List Pod) (w : World)
    → has_left ask c addresses pods (find? (λ p. p.name == name) pods) ≡ false
    → (handle_pod_decommission ask c sts addresses name pods w).1.sent ≡ w.sent
unfolding handle_pod_decommission
handle_pod_decommission-sent ask c sts addresses name pods w h = ground (
  arith,
  handle_found_pod-sent ask c sts addresses (find? (λ p. p.name == name) pods) pods ask.admin_secret
      w h,
)
