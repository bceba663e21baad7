-- ===== src/Scaling.antt =====
-- controllers/cassandra_scaling.go: which statefulsets of a cluster are wanted and which belong to a
-- DC that is being decommissioned, and whether a pod has left the ring. The children
-- Decommission and Reconcile have the scaling itself.
pub mod Partition
pub mod Quorum
pub mod Decommission
pub mod Reconcile
use mr_cassop.Prelude.{
  ℕ, suc, ◌-◌, String, ◌<>◌, Bool, true, false, not, ◌&&◌, ◌||◌, Option, none, some, List, [], ◌∷◌,
  any, countb, ◌==◌, string_eq, contains, if◌then◌else◌, leb, Error, Outcome, ok, err, panic,
  and_then, rewrap,
}
use mr_cassop.Prelude.Dict.{Dict, lookup, insert}
use mr_cassop.Prelude.Order.{sort_strings, insert_sorted}
use mr_cassop.Cluster.{Cluster, Dc, Pod, StatefulSet, dc_label}
use mr_cassop.InitOrder.PodsConfig.{value_at}

-- `dcsMap`; the pointer to the replicas is dereferenced.
unfoldable pub dcs_map : List Dc → Dict String ℕ → Outcome (Dict String ℕ)
dcs_map [] m = ok m
dcs_map (dc ∷ dcs) m = elim dc.replicas [ none ↦ panic | some n ↦ dcs_map dcs (insert dc.name n m) ]

-- The inner loop of both selections: the statefulset's label names a DC of the cluster.
unfoldable pub is_desired : List Dc → StatefulSet → Bool
unfolding value_at
is_desired dcs sts = any (λ dc. value_at dc_label sts.labels == dc.name) dcs

-- The statefulsets that pass a test, as the list of their names and the map by name.
unfoldable pub names_where : (StatefulSet → Bool) → List StatefulSet → List String
names_where p [] = []
names_where p (s ∷ all) = let rest = names_where p all in if p s then s.name ∷ rest else rest

unfoldable pub map_where :
    (StatefulSet → Bool) → List StatefulSet → Dict String StatefulSet → Dict String StatefulSet
map_where p [] m = m
map_where p (s ∷ all) m = map_where p all (if p s then insert s.name s m else m)

unfoldable pub desired_dcs_sts : Cluster → List StatefulSet → List String × Dict String StatefulSet
unfolding is_desired names_where map_where sort_strings
desired_dcs_sts c all =
    (sort_strings (names_where (is_desired c.dcs) all), map_where (is_desired c.dcs) all [])

unfoldable pub decommission_dcs_sts :
    Cluster → List StatefulSet → List String × Dict String StatefulSet
unfolding is_desired names_where map_where sort_strings
decommission_dcs_sts c all = (
  sort_strings (names_where (λ s. not (is_desired c.dcs s)) all),
  map_where (λ s. not (is_desired c.dcs s)) all [],
)

-- The pod belongs to a DC of the cluster.
unfoldable pub in_desired_dc : List Dc → Pod → Bool
unfolding value_at
in_desired_dc dcs pod = any (λ dc. value_at dc_label pod.labels == dc.name) dcs

-- The loop of `podDecommissioned`: the number of peers that do not see the pod as live.
unfoldable pub not_live_view :
    (String → Outcome (List String))
    → Dict String String
    → Dict String ℕ
    → Pod
    → List Pod
    → Outcome ℕ
unfolding value_at
not_live_view cluster_view addresses desired gone [] = ok 0
not_live_view cluster_view addresses desired gone (pod ∷ pods) =
    let rest = not_live_view cluster_view addresses desired gone pods in
    if pod.name == gone.name then rest else elim (lookup (value_at dc_label pod.labels) desired) [
      | none ↦ rest
      | some _ ↦
          and_then (rewrap "can't get cluster view" (cluster_view (value_at pod.name addresses)))
            λ live.
              and_then rest
                λ n. ok (if not (contains live (value_at gone.name addresses)) then suc n else n)
    ]

-- `quorum--` stops at -1 in Go; the count that is compared with it is never negative.
unfoldable pub quorum : List Dc → List Pod → ℕ
unfolding in_desired_dc
quorum dcs pods = countb (in_desired_dc dcs) pods - 1

unfoldable pub pod_decommissioned :
    (String → Outcome (List String)) → Cluster → List Pod → Pod → Dict String String → Outcome Bool
unfolding quorum dcs_map not_live_view
pod_decommissioned cluster_view c pods gone addresses = and_then (dcs_map c.dcs []) λ desired.
    and_then (not_live_view cluster_view addresses desired gone pods)
      λ n. ok (leb (quorum c.dcs pods) n)
