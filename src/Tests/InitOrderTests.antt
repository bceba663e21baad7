-- ===== src/Tests/InitOrderTests.antt =====
-- The order of initialisation and the pods' config map at concrete inputs.
use mathlib.Core.List.{Memᴰ, Perm, Permᴰ}
use mr_cassop.Prelude.{
  ℕ, ◌≤◌, ◌<◌, String, ◌<>◌, Bool, true, false, not, ◌||◌, none, some, [], ◌∷◌, ◌++◌, contains, ◌≡◌,
  refl, ◌≢◌, ◌⊎◌, ◌==◌, string_eq, arith, ok,
}
use mr_cassop.Prelude.Order.{sort_strings, insert_sorted, string_leb, codes, codes_leb}
use mr_cassop.Prelude.Dict.{Dict, lookup, insert}
use mr_cassop.Cluster.{Cluster, Pod, StatefulSet, Get, not_found, seed_label}
use mr_cassop.Cluster.Names.{prober_ingress_host, prober_ingress_domain}
use mr_cassop.Cluster.Samples.{cluster, pod}
use mr_cassop.InitOrder.Pods.{
  dc_of, is_seed_pod, pod_ready, dc_seed_pods_ready, candidates, pods_by_name, first_waiting,
  next_non_seed_pod_to_init, pause_pod_init,
}
use mr_cassop.InitOrder.Pods.OneByOne.{may_start, IsJoining, one_joins}
use mr_cassop.InitOrder.Regions.{
  InitOrder, unready_dcs, dc_unready, remote_statuses, current_region_host, managed_hosts,
  get_all_regions_hosts, get_next_local_dc_to_init, first_unready, get_next_region_to_init,
  order_in_region, get_init_order_info,
}
use mr_cassop.InitOrder.Regions.OneAtATime.{Sees, one_region, last_region_runs}
use mr_cassop.InitOrder.Seeds.{seeds_for}
use mr_cassop.InitOrder.Seeds.Bounds.{seeds_for_bounds}
use mr_cassop.InitOrder.PodsConfig.{value_at, Shared, entry_name, settings_text, rack_of, entries}
use mr_cassop.InitOrder.PodsConfig.Entries.{entries_no_address, entries_complete}

-- A region of three that is not ready, with the other two listed in either order.
abbrev region : Cluster
region = record cluster {
  host_port = true;
  ingress_domain = "a.com";
  managed =
      record { domain = "b.com"; namespace = "" }
      ∷ record { domain = "c.com"; namespace = "" }
      ∷ [];
}

abbrev same_region : Cluster
same_region = record region {
  managed =
      record { domain = "c.com"; namespace = "" }
      ∷ record { domain = "b.com"; namespace = "" }
      ∷ [];
}

abbrev no_sts : String → Get StatefulSet
no_sts name = not_found

abbrev none_ready : String → Bool
none_ready host = false

abbrev others_ready : String → Bool
others_ready host = not (host == "ns-c-cassandra-prober.a.com")

region-sees : Sees none_ready no_sts region
unfolding unready_dcs dc_unready
region-sees = record {
  unready = "dc1" ∷ "dc2" ∷ [];
  unready_eq = refl;
  truth = refl;
  exposed = refl;
}

same_region-sees : Sees none_ready no_sts same_region
unfolding unready_dcs dc_unready
same_region-sees = record {
  unready = "dc1" ∷ "dc2" ∷ [];
  unready_eq = refl;
  truth = refl;
  exposed = refl;
}

abbrev first_dc : InitOrder
first_dc = record { region_paused = false; next_dc = "dc1" }

text_differs : (s t : String) → (s == t) ≡ false → s ≢ t
text_differs s t h e = ground arith

same_hosts :
    Perm
      (managed_hosts region region.managed ++ (current_region_host region ∷ []))
      (managed_hosts same_region same_region.managed ++ (current_region_host same_region ∷ []))
unfolding managed_hosts current_region_host prober_ingress_host prober_ingress_domain string_eq
same_hosts = ∣ Permᴰ.swap refl refl ∣₁

region-order : get_init_order_info no_sts (λ h. ok (none_ready h)) region ≡ ok first_dc
unfolding get_init_order_info order_in_region unready_dcs dc_unready remote_statuses
    current_region_host managed_hosts get_all_regions_hosts get_next_local_dc_to_init first_unready
    get_next_region_to_init prober_ingress_host prober_ingress_domain sort_strings insert_sorted
    string_leb codes codes_leb lookup insert string_eq
region-order = refl

same_region-order : get_init_order_info no_sts (λ h. ok (none_ready h)) same_region ≡ ok first_dc
unfolding get_init_order_info order_in_region unready_dcs dc_unready remote_statuses
    current_region_host managed_hosts get_all_regions_hosts get_next_local_dc_to_init first_unready
    get_next_region_to_init prober_ingress_host prober_ingress_domain sort_strings insert_sorted
    string_leb codes codes_leb lookup insert string_eq
same_region-order = refl

dc1_not_empty : first_dc.next_dc ≢ ""
unfolding string_eq
dc1_not_empty = text_differs "dc1" "" refl

one_region_example : current_region_host region ≡ current_region_host same_region
one_region_example =
    one_region none_ready no_sts no_sts region same_region {oa = first_dc} {ob = first_dc}
      region-sees same_region-sees same_hosts region-order same_region-order dc1_not_empty
      dc1_not_empty

abbrev joining : Pod
joining = pod "dc1-1" "dc1" false

abbrev seed : Pod
seed = record (pod "dc1-0" "dc1" true) {
  labels = ("cassandra-cluster-dc", "dc1") ∷ (seed_label, "") ∷ [];
}

joining-IsJoining : IsJoining (seed ∷ joining ∷ []) "dc1" joining
unfolding dc_of is_seed_pod pod_ready lookup string_eq
joining-IsJoining = record {
  listed = Memᴰ.tail (Memᴰ.head refl);
  in_dc = refl;
  no_seed = refl;
  not_ready = refl;
}

one_joins_example :
    (joining.name ≡ joining.name) × (dc_seed_pods_ready (seed ∷ joining ∷ []) "dc1" ≡ true)
unfolding may_start dc_of is_seed_pod pod_ready dc_seed_pods_ready candidates pods_by_name
    first_waiting next_non_seed_pod_to_init pause_pod_init sort_strings insert_sorted string_leb
    codes codes_leb lookup insert string_eq
one_joins_example =
    one_joins {p = joining} {q = joining} (seed ∷ joining ∷ []) "dc1" (refl, (refl, tt)) refl
      (text_differs "dc1" "" refl) joining-IsJoining joining-IsJoining refl refl

seeds_for_bounds_example :
    (0 < seeds_for 3 2)
    × (seeds_for 3 2 ≤ 3)
    × (seeds_for 3 2 ≤ 2)
    × ((◌≡◌ {A = ℕ} 2 1) ⊎ (seeds_for 3 2 < 2))
seeds_for_bounds_example = seeds_for_bounds 3 2 (omega arith) (omega arith)

own_not_ready : (h : String) → h ≢ current_region_host region → others_ready h ≡ true
unfolding current_region_host prober_ingress_host
own_not_ready h n = ground arith

region-sees_others : Sees others_ready no_sts region
unfolding unready_dcs dc_unready current_region_host prober_ingress_host string_eq
region-sees_others = record {
  unready = "dc1" ∷ "dc2" ∷ [];
  unready_eq = refl;
  truth = refl;
  exposed = refl;
}

region-order_others : get_init_order_info no_sts (λ h. ok (others_ready h)) region ≡ ok first_dc
unfolding get_init_order_info order_in_region unready_dcs dc_unready remote_statuses
    current_region_host managed_hosts get_all_regions_hosts get_next_local_dc_to_init first_unready
    get_next_region_to_init prober_ingress_host prober_ingress_domain sort_strings insert_sorted
    string_leb codes codes_leb lookup insert string_eq
region-order_others = refl

last_region_runs_example :
    (first_dc.region_paused ≡ false)
    × ((first_dc.next_dc == "" || contains region-sees_others.unready first_dc.next_dc) ≡ true)
last_region_runs_example =
    last_region_runs others_ready no_sts region {o = first_dc} region-sees_others own_not_ready
      region-order_others

abbrev shared : Dict String String → Shared
shared addresses = record {
  addresses = addresses;
  seeds = "10.0.0.1" ∷ [];
  order = first_dc;
  original_ips = [];
  seeds_ready = true;
  next_non_seed = "dc1-1";
}

entries_no_address_example :
    entries cluster [] (shared (("dc1-0", "10.0.0.1") ∷ [])) (seed ∷ joining ∷ []) [] ≡ ok none
unfolding value_at lookup string_eq
entries_no_address_example =
    entries_no_address cluster [] (shared (("dc1-0", "10.0.0.1") ∷ [])) {p = joining}
      (seed ∷ joining ∷ []) [] refl refl (Memᴰ.tail (Memᴰ.head refl)) refl

entries_complete_example :
    (rack : String) × (rack_of cluster [] joining ≡ ok rack)
    × (lookup
          (entry_name joining)
          ((entry_name joining, settings_text (shared (("dc1-1", "10.0.0.2") ∷ [])) joining) ∷ [])
        ≡ some ("" <> (rack <> settings_text (shared (("dc1-1", "10.0.0.2") ∷ [])) joining)))
unfolding entries value_at lookup insert string_eq rack_of settings_text pause_pod_init
entries_complete_example =
    entries_complete cluster [] (shared (("dc1-1", "10.0.0.2") ∷ [])) {p = joining} (joining ∷ [])
      {r = (entry_name joining, settings_text (shared (("dc1-1", "10.0.0.2") ∷ [])) joining) ∷ []}
      (refl, tt) (Memᴰ.head refl) refl
