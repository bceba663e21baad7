-- ===== src/InitOrder/Seeds.antt =====
-- Seeds and broadcast addresses of the local region (cassandra_pods_config.go).
pub mod Bounds
use mr_cassop.Prelude.{
  ℕ, zero, suc, ◌-◌, String, ◌<>◌, Bool, true, false, not, Option, none, some, List, [], ◌∷◌, ◌++◌,
  leb, ◌==◌, string_eq, if◌then◌else◌, Error, message, Outcome, ok, err, panic, Done, and_then,
  deref, rewrap, is_empty,
}
use mr_cassop.Prelude.Dict.{Dict, lookup, insert}
use mr_cassop.Cluster.{
  Cluster, Dc, Pod, Node, AddressType, internal_ip, external_ip, other_address, ManagedRegion,
  UnmanagedRegion,
}
use mr_cassop.Cluster.Names.{dc_name, prober_ingress_domain}
use mr_cassop.InitOrder.Regions.{err_region_not_ready}

-- `ErrPodNotScheduled`
abbrev pub err_pod_not_scheduled : Error
err_pod_not_scheduled = message "One of pods is not scheduled yet"

-- `dcNumberOfSeeds`, from the configured number and the replicas of the DC. The subtraction is
-- reached with 0 replicas only where its result is replaced.
unfoldable pub seeds_for : ℕ → ℕ → ℕ
seeds_for num_seeds replicas =
    if leb replicas num_seeds then if leb replicas 1 then replicas else replicas - 1 else num_seeds

unfoldable pub dc_number_of_seeds : Cluster → Dc → Outcome ℕ
unfolding seeds_for
dc_number_of_seeds cc dc = and_then (deref dc.replicas) λ r. ok (seeds_for cc.num_seeds r)

module _ (digits : ℕ → String) where
  -- `getSeedHostname`; `digits` is `%d`.
  unfoldable pub get_seed_hostname : Cluster → String → ℕ → Bool → String
  unfolding dc_name
  get_seed_hostname cc dc i is_fqdn =
      let svc = dc_name cc.name dc in
      if is_fqdn
      then svc
        <> ("-" <> (digits i <> ("." <> (svc <> ("." <> (cc.namespace <> ".svc.cluster.local"))))))
      else svc <> ("-" <> digits i)

  abbrev address_or_empty : Option String → String
  address_or_empty none = ""
  address_or_empty (some a) = a

  -- The seed with a given number: a broadcast address of a pod with host ports, a name without.
  unfoldable pub local_seed : Cluster → Dict String String → String → ℕ → String
  unfolding get_seed_hostname
  local_seed cc addresses dc i =
      let seed = get_seed_hostname cc dc i (not cc.host_port) in
      if cc.host_port then address_or_empty (lookup seed addresses) else seed

  -- The inner loop, from number `i` on.
  unfoldable pub seeds_from : Cluster → Dict String String → String → ℕ → ℕ → List String
  unfolding local_seed
  seeds_from cc addresses dc i zero = []
  seeds_from cc addresses dc i (suc n) =
      local_seed cc addresses dc i ∷ seeds_from cc addresses dc (suc i) n

  unfoldable pub get_local_seeds_hostnames :
      Cluster → Dict String String → List Dc → Outcome (List String)
  unfolding seeds_from dc_number_of_seeds
  get_local_seeds_hostnames cc addresses [] = ok []
  get_local_seeds_hostnames cc addresses (dc ∷ dcs) = and_then (dc_number_of_seeds cc dc) λ n.
      and_then (get_local_seeds_hostnames cc addresses dcs)
        λ rest. ok (seeds_from cc addresses dc.name 0 n ++ rest)

unfoldable pub get_node_by_name : List Node → String → Option Node
get_node_by_name [] name = none
get_node_by_name (n ∷ ns) name = if n.name == name then some n else get_node_by_name ns name

abbrev same_type : AddressType → AddressType → Bool
same_type internal_ip internal_ip = true
same_type external_ip external_ip = true
same_type other_address other_address = true
same_type _ _ = false

-- `util.GetNodeIP`
unfoldable pub get_node_ip : AddressType → List (AddressType × String) → String
get_node_ip t [] = ""
get_node_ip t ((u, a) ∷ rest) = if same_type u t then a else get_node_ip t rest

node_address : Cluster → String → Option Node → Outcome String
node_address cc name none = err (message ("Node " <> (name <> " not found")))
node_address cc name (some node) =
    ok (get_node_ip (if cc.use_external_host_ip then external_ip else internal_ip) node.addresses)

unfoldable pub get_pod_broadcast_address : Cluster → Pod → List Node → Outcome String
unfolding node_address
get_pod_broadcast_address cc pod nodes =
    if not cc.host_port
    then if pod.pod_ip == "" then err err_pod_not_scheduled else ok pod.pod_ip
    else if pod.node_name == ""
    then err err_pod_not_scheduled
    else node_address cc pod.node_name (get_node_by_name nodes pod.node_name)

unfoldable pub broadcast_addresses_from :
    Cluster → List Node → List Pod → Dict String String → Outcome (Dict String String)
broadcast_addresses_from cc nodes [] m = ok m
broadcast_addresses_from cc nodes (pod ∷ pods) m =
    and_then (rewrap "cannot get pod's broadcast address" (get_pod_broadcast_address cc pod nodes))
      λ addr. broadcast_addresses_from cc nodes pods (insert pod.name addr m)

unfoldable pub get_broadcast_addresses :
    Cluster → List Pod → List Node → Outcome (Dict String String)
unfolding broadcast_addresses_from
get_broadcast_addresses cc pods nodes = broadcast_addresses_from cc nodes pods []

module _ (get_seeds : String → Outcome (List String)) where
  seeds_of_region : Outcome (List String) → Outcome (List String)
  seeds_of_region (ok []) = err err_region_not_ready
  seeds_of_region (ok (s ∷ ss)) = ok (s ∷ ss)
  seeds_of_region (err e) = err err_region_not_ready
  seeds_of_region panic = panic

  -- The loop over the managed regions of `getSeedsList`.
  unfoldable pub managed_seeds : Cluster → List ManagedRegion → Outcome (List String)
  unfolding seeds_of_region prober_ingress_domain
  managed_seeds cc [] = ok []
  managed_seeds cc (region ∷ regions) =
      and_then (seeds_of_region (get_seeds (prober_ingress_domain cc region)))
        λ seeds. and_then (managed_seeds cc regions) λ rest. ok (seeds ++ rest)

abbrev pub unmanaged_seeds : List UnmanagedRegion → List String
unmanaged_seeds [] = []
unmanaged_seeds (region ∷ regions) = region.seeds ++ unmanaged_seeds regions

-- `getSeedsList`. `update_seeds` is the request that gives the prober the local seeds.
unfoldable pub get_seeds_list :
    (digits : ℕ → String) (update_seeds : List String → Outcome Done)
    (get_seeds : String → Outcome (List String))
    → Cluster
    → Dict String String
    → Outcome (List String)
unfolding get_local_seeds_hostnames managed_seeds
get_seeds_list digits update_seeds get_seeds c addresses =
    and_then (get_local_seeds_hostnames digits c addresses c.dcs) λ seeds.
      and_then (rewrap "Prober request to update region seeds failed." (update_seeds seeds)) λ _.
        if c.host_port
        then (and_then (managed_seeds get_seeds c c.managed)
            λ more. ok ((seeds ++ more) ++ unmanaged_seeds c.unmanaged))
        else ok seeds
