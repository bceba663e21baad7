-- ===== src/InitOrder/Pods.antt =====
-- The pods of a DC: which of them are seeds, which are ready, and whether a pod has to wait.
pub mod OneByOne
use mr_cassop.Prelude.{
  String, Bool, true, false, not, ◌&&◌, ◌||◌, Option, none, some, List, [], ◌∷◌, map, all, is_empty,
  filterb, ◌==◌, string_eq, if◌then◌else◌,
}
use mr_cassop.Prelude.Dict.{Dict, lookup, insert}
use mr_cassop.Prelude.Order.{sort_strings}
use mr_cassop.Cluster.{Pod, ContainerStatus, dc_label, seed_label}

-- `pod.Labels[key]`, the zero value if the label is missing.
abbrev label_or_empty : Option String → String
label_or_empty none = ""
label_or_empty (some v) = v

unfoldable pub dc_of : Pod → String
dc_of pod = label_or_empty (lookup dc_label pod.labels)

abbrev is_some {ℓ} : {A : Type ℓ} → Option A → Bool
is_some none = false
is_some (some _) = true

unfoldable pub is_seed_pod : Pod → Bool
is_seed_pod pod = is_some (lookup seed_label pod.labels)

unfoldable pub pod_ready : Pod → Bool
pod_ready pod =
    if is_empty pod.statuses then false else all (λ (c : ContainerStatus). c.ready) pod.statuses

unfoldable pub dc_seed_pods_ready : List Pod → String → Bool
unfolding dc_of is_seed_pod
dc_seed_pods_ready pods dc =
    if is_empty pods
    then false
    else all
        (λ (p : Pod).
          not (dc_of p == dc && is_seed_pod p) || all (λ (c : ContainerStatus). c.ready) p.statuses)
        pods

-- The first loop of `nextNonSeedPodToInit`: the pods of the DC that is initialised, or all pods if
-- there is none, by name.
unfoldable pub candidates : List Pod → String → List Pod
unfolding dc_of
candidates pods next_dc = filterb (λ (p : Pod). next_dc == "" || dc_of p == next_dc) pods

unfoldable pub pods_by_name : List Pod → Dict String Pod → Dict String Pod
pods_by_name [] m = m
pods_by_name (p ∷ ps) m = pods_by_name ps (insert p.name p m)

abbrev waits : Option Pod → Bool
waits none = false
waits (some p) = not (is_seed_pod p) && not (pod_ready p)

-- The second loop. A name of the list is always a key of the map.
abbrev name_or_empty : Option Pod → String
name_or_empty none = ""
name_or_empty (some p) = p.name

unfoldable pub first_waiting : Dict String Pod → List String → String
first_waiting m [] = ""
first_waiting m (name ∷ names) =
    if waits (lookup name m) then name_or_empty (lookup name m) else first_waiting m names

unfoldable pub next_non_seed_pod_to_init : List Pod → String → String
unfolding candidates pods_by_name first_waiting
next_non_seed_pod_to_init pods next_dc =
    let cs = candidates pods next_dc in
    first_waiting (pods_by_name cs []) (sort_strings (map (λ (p : Pod). p.name) cs))

unfoldable pub pause_pod_init : Pod → String → Bool → Bool → String → Bool × String
unfolding dc_of is_seed_pod pod_ready
pause_pod_init pod next_dc region_paused seeds_ready next_non_seed =
    if region_paused
    then (true, "waiting for other regions to init")
    else if next_dc == ""
    then (false, "pod is not paused")
    else if not (next_dc == dc_of pod)
    then (true, "waiting for other DCs to init")
    else if not seeds_ready && not (is_seed_pod pod)
    then (true, "waiting for seed nodes to init")
    else if seeds_ready && not (is_seed_pod pod) && not (next_non_seed == "")
    then if next_non_seed == pod.name || pod_ready pod then (false, "pod is not paused") else (
      true, "waiting for other non seed nodes since only one non seed node can start at a time",
    )
    else (false, "pod is not paused")
