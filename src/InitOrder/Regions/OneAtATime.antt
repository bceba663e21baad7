-- ===== src/InitOrder/Regions/OneAtATime.antt =====
-- The regions of a cluster are initialised one at a time, in an order on which they all agree.
use mathlib.Core.List.{Perm}
use mr_cassop.Prelude.{
  String, ◌≡◌, refl, sym, ap, ◌∙◌, ◌≢◌, Bool, true, false, ◌||◌, List, [], ◌∷◌, ◌++◌, map, arith,
  contains, contains-append, is_empty, ◌==◌, ==_refl, string_eq, if◌then◌else◌, Outcome, ok, err,
  panic,
}
use mr_cassop.Prelude.Dict.{Dict, lookup, insert, lookup-insert}
use mr_cassop.Prelude.Order.{sort_strings-perm, contains-sort_strings}
use mr_cassop.Cluster.{Cluster, Dc, ManagedRegion, StatefulSet, Get}
use mr_cassop.Cluster.Names.{prober_ingress_domain}
use mr_cassop.InitOrder.Regions.{
  unready_dcs, remote_statuses, current_region_host, managed_hosts, get_all_regions_hosts,
  get_next_local_dc_to_init, status_or_false, first_unready, get_next_region_to_init, InitOrder,
  order_in_region, get_init_order_info,
}

first_unready-eq :
    (f g : String → Bool) (hosts : List String)
    → ((h : String) → contains hosts h ≡ true → f h ≡ g h)
    → first_unready f hosts ≡ first_unready g hosts
unfolding first_unready
first_unready-eq f g [] e = refl
first_unready-eq f g (h ∷ hosts) e =
    ground (arith, e h, ==_refl h, first_unready-eq f g hosts (λ k c. e k (ground arith)))

abbrev hosts_of : Cluster → List ManagedRegion → List String
hosts_of cc = map (prober_ingress_domain cc)

-- What the map of statuses says of a host once every prober has answered.
lookup-remote_statuses :
    (ready : String → Bool) (c : Cluster) (regions : List ManagedRegion) (m : Dict String Bool)
    {r : Dict String Bool} (h : String)
    → remote_statuses (λ k. ok (ready k)) c regions m ≡ ok r
    → status_or_false (lookup h r)
      ≡ (if contains (hosts_of c regions) h then ready h else status_or_false (lookup h m))
unfolding remote_statuses
lookup-remote_statuses ready c [] m h e = ground arith
lookup-remote_statuses ready c (region ∷ regions) m h e =
    let host = prober_ingress_domain c region in
    lookup-remote_statuses ready c regions (insert host (ready host) m) h e
    ∙ ground (arith, lookup-insert h host (ready host) m)

contains-managed_hosts :
    (c : Cluster) (regions : List ManagedRegion) (h : String)
    → contains (managed_hosts c regions) h ≡ true
    → contains (hosts_of c regions) h ≡ true
unfolding managed_hosts
contains-managed_hosts c [] h known = known
contains-managed_hosts c (region ∷ regions) h known =
    ground (arith, contains-managed_hosts c regions h)

contains-get_all_regions_hosts :
    (c : Cluster) (h : String)
    → contains (get_all_regions_hosts c) h
      ≡ (contains (managed_hosts c c.managed) h || current_region_host c == h)
unfolding get_all_regions_hosts
contains-get_all_regions_hosts c h =
    let here = current_region_host c in
    contains-sort_strings (managed_hosts c c.managed ++ (here ∷ [])) h
    ∙ contains-append (managed_hosts c c.managed) (here ∷ []) h
    ∙ ground arith

-- The truth about the regions, as one region sees it: the probers answer it, and the DCs of the
-- region itself are all ready exactly if it is ready.
pub record Sees (ready : String → Bool) (get_sts : String → Get StatefulSet) (c : Cluster)
    : Type 0 where
  pub unready : List String
  pub unready_eq : unready_dcs get_sts c.name c.dcs ≡ ok unready
  pub truth : is_empty unready ≡ ready (current_region_host c)
  pub exposed : c.host_port ≡ true

next_region :
    (ready : String → Bool) (c : Cluster) (unready : List String) {r : Dict String Bool}
    → is_empty unready ≡ ready (current_region_host c)
    → remote_statuses (λ k. ok (ready k)) c c.managed [] ≡ ok r
    → get_next_region_to_init c (insert (current_region_host c) (is_empty unready) r)
      ≡ first_unready ready (get_all_regions_hosts c)
unfolding get_next_region_to_init
next_region ready c unready {r} truth e =
    let here = current_region_host c in
    first_unready-eq _ ready (get_all_regions_hosts c) λ h known. ground (
      arith,
      lookup-insert h here (is_empty unready) r,
      lookup-remote_statuses ready c c.managed [] {r = r} h e,
      contains-managed_hosts c c.managed h,
      contains-get_all_regions_hosts c h,
    )

initialising :
    (ready : String → Bool) (get_sts : String → Get StatefulSet) (c : Cluster) {o : InitOrder}
    → Sees ready get_sts c
    → get_init_order_info get_sts (λ h. ok (ready h)) c ≡ ok o
    → o.next_dc ≢ ""
    → current_region_host c ≡ first_unready ready (get_all_regions_hosts c)
unfolding get_init_order_info
initialising ready get_sts c {o} v e next =
    split (remote_statuses (λ h. ok (ready h)) c c.managed []) refl
  where
    split :
        (r : Outcome (Dict String Bool))
        → remote_statuses (λ h. ok (ready h)) c c.managed [] ≡ r
        → current_region_host c ≡ first_unready ready (get_all_regions_hosts c)
    split (ok r) f =
        ground (arith, v.unready_eq, v.exposed, next_region ready c v.unready v.truth f)
    split (err x) f = ground (arith, v.unready_eq, v.exposed)
    split panic f = ground (arith, v.unready_eq, v.exposed)

-- Two regions with host ports that know the same regions, in whatever order their specs list them,
-- and that see the same readiness of each, which for the own region is that no DC is unready, never
-- initialise a DC at the same time: where both have a DC to initialise, they are one region.
pub one_region :
    (ready : String → Bool) (get_sts_a get_sts_b : String → Get StatefulSet) (a b : Cluster)
    {oa ob : InitOrder}
    → Sees ready get_sts_a a
    → Sees ready get_sts_b b
    → Perm
        (managed_hosts a a.managed ++ (current_region_host a ∷ []))
        (managed_hosts b b.managed ++ (current_region_host b ∷ []))
    → get_init_order_info get_sts_a (λ h. ok (ready h)) a ≡ ok oa
    → get_init_order_info get_sts_b (λ h. ok (ready h)) b ≡ ok ob
    → oa.next_dc ≢ ""
    → ob.next_dc ≢ ""
    → current_region_host a ≡ current_region_host b
unfolding get_all_regions_hosts
one_region ready get_sts_a get_sts_b a b va vb same ea eb na nb =
    initialising ready get_sts_a a va ea na
    ∙ ap (first_unready ready) (sort_strings-perm same)
    ∙ sym (initialising ready get_sts_b b vb eb nb)

first_unready-unready :
    (ready : String → Bool) (hosts : List String)
    → first_unready ready hosts ≢ ""
    → ready (first_unready ready hosts) ≡ false
unfolding first_unready
first_unready-unready ready [] h = absurd (h refl)
first_unready-unready ready (k ∷ hosts) h = ground (arith, first_unready-unready ready hosts)

get_next_local_dc_to_init-unready :
    (dcs : List Dc) (unready : List String)
    → get_next_local_dc_to_init dcs unready ≢ ""
    → contains unready (get_next_local_dc_to_init dcs unready) ≡ true
unfolding get_next_local_dc_to_init
get_next_local_dc_to_init-unready [] unready h = absurd (h refl)
get_next_local_dc_to_init-unready (dc ∷ dcs) unready h =
    ground (arith, get_next_local_dc_to_init-unready dcs unready)

order_runs :
    (c : Cluster) (unready : List String) (r : Dict String Bool)
    → let next = get_next_region_to_init c (insert (current_region_host c) (is_empty unready) r) in
      (next ≢ "" → next ≡ current_region_host c)
      → ((order_in_region c unready r).region_paused ≡ false)
        × (((order_in_region c unready r).next_dc == ""
              || contains unready (order_in_region c unready r).next_dc)
            ≡ true)
unfolding order_in_region
order_runs c unready r h = ground (arith, get_next_local_dc_to_init-unready c.dcs unready)

-- Where host ports are in use and all regions but the own one are ready, the region is not paused,
-- and what it initialises, if anything, is a DC of the region that is not ready.
pub last_region_runs :
    (ready : String → Bool) (get_sts : String → Get StatefulSet) (c : Cluster) {o : InitOrder}
    (v : Sees ready get_sts c)
    → ((h : String) → h ≢ current_region_host c → ready h ≡ true)
    → get_init_order_info get_sts (λ h. ok (ready h)) c ≡ ok o
    → (o.region_paused ≡ false) × ((o.next_dc == "" || contains v.unready o.next_dc) ≡ true)
unfolding get_init_order_info
last_region_runs ready get_sts c {o} v others e =
    split (remote_statuses (λ h. ok (ready h)) c c.managed []) refl
  where
    next : String
    next = first_unready ready (get_all_regions_hosts c)

    only_here : (h : String) → ready h ≡ false → h ≡ current_region_host c
    only_here h unready = elim (string_eq.dec h (current_region_host c)) [
      | yes here ↦ here
      | no elsewhere ↦ absurd (ground (arith, others h elsewhere))
    ]

    split :
        (r : Outcome (Dict String Bool))
        → remote_statuses (λ h. ok (ready h)) c c.managed [] ≡ r
        → (o.region_paused ≡ false) × ((o.next_dc == "" || contains v.unready o.next_dc) ≡ true)
    split (ok r) f = ground (
      arith,
      v.unready_eq,
      v.exposed,
      f,
      order_runs c v.unready r (
          rw (next_region ready c v.unready v.truth f) (λ some_next.
            only_here next (first_unready-unready ready (get_all_regions_hosts c) some_next))),
    )
    split (err x) f = ground (arith, v.unready_eq, v.exposed)
    split panic f = ground (arith, v.unready_eq, v.exposed)
