-- ===== src/Policies/Admitted.antt =====
-- controllers/network_policies.go: which addresses of nodes the policies let in. A rule without peers
-- lets in every source, as Kubernetes documents it.
use mr_cassop.Prelude.{
  ℕ, zero, suc, ◌-◌, String, Bool, true, false, ◌&&◌, ◌||◌, Option, none, List, [], ◌∷◌, ◌++◌, map,
  any, contains, is_empty, ◌≡◌, refl, sym, ◌∙◌, arith, string_eq, eqb, All,
}
use mr_cassop.Prelude.Order.{sort_strings, insert_sorted}
use Prim.Native.Nat.{◌/◌}
use mr_cassop.Cluster.{Cluster, ManagedRegion}
use mr_cassop.Cluster.Names.{prober_ingress_domain}
use mr_cassop.Policies.{
  Peer, selected, ip_block, Rule, Policy, PolicySpec, Network, uniq_onto, uniq, generate_peers,
  between_nodes,
}
use mr_cassop.Policies.Cassandra.{
  hostport_policy, managed_regions_policy, external_ips, get_external_cassandra_ips,
}

-- An address without its last `n` bits.
abbrev pub without_bits : ℕ → ℕ → ℕ
without_bits zero a = a
without_bits (suc n) a = without_bits n (a / 2)

-- `address` reads an IPv4 address as its number of 32 bits. A block lets in the addresses that agree
-- with its own on as many leading bits as its prefix is long. The address of a node is not that of a
-- pod, so selectors do not let it in.
module _ (address : String → ℕ) where
  abbrev pub peer_admits : String → Peer → Bool
  peer_admits ip (selected p n) = false
  peer_admits ip (ip_block a n) =
      eqb (without_bits (32 - n) (address a)) (without_bits (32 - n) (address ip))

  abbrev pub rule_admits : String → ℕ → Rule → Bool
  rule_admits ip port r =
      any (λ p. eqb p port) r.ports && (is_empty r.from || any (peer_admits ip) r.from)

  abbrev pub policy_admits : String → ℕ → Policy → Bool
  policy_admits ip port p = any (rule_admits ip port) p.ingress

  -- The node has one of these addresses.
  abbrev pub one_of : List String → String → Bool
  one_of ips ip = any (λ a. eqb (address a) (address ip)) ips

any_contained :
    (p : String → Bool) (xs : List String) (x : String)
    → contains xs x ≡ true
    → p x ≡ true
    → any p xs ≡ true
any_contained p [] x h k = ground arith
any_contained p (y ∷ xs) x h k = ground (arith, any_contained p xs x)

any-append : (p : String → Bool) (xs ys : List String) → any p (xs ++ ys) ≡ (any p xs || any p ys)
any-append p [] ys = refl
any-append p (x ∷ xs) ys = ground (arith, any-append p xs ys)

any-uniq_onto :
    (p : String → Bool) (result s : List String)
    → any p (uniq_onto result s) ≡ (any p result || any p s)
unfolding uniq_onto
any-uniq_onto p result [] = ground arith
any-uniq_onto p result (x ∷ s) = ground (
  arith,
  any-uniq_onto p result s,
  any-uniq_onto p (result ++ x ∷ []) s,
  any-append p result (x ∷ []),
  any_contained p result x,
)

any-insert_sorted :
    (p : String → Bool) (a : String) (xs : List String)
    → any p (insert_sorted a xs) ≡ (p a || any p xs)
unfolding insert_sorted
any-insert_sorted p a [] = refl
any-insert_sorted p a (x ∷ xs) = ground (arith, any-insert_sorted p a xs)

any-sort_strings : (p : String → Bool) (xs : List String) → any p (sort_strings xs) ≡ any p xs
unfolding sort_strings
any-sort_strings p [] = refl
any-sort_strings p (x ∷ xs) =
    ground (arith, any-insert_sorted p x (sort_strings xs), any-sort_strings p xs)

not_empty : {A : Type 0} (p : A → Bool) (xs : List A) → any p xs ≡ true → is_empty xs ≡ false
not_empty p [] h = sym h
not_empty p (x ∷ xs) h = refl

eqb_self : (n : ℕ) → eqb n n ≡ true
eqb_self n = ground arith

module _ (address : String → ℕ) where
  any-map_blocks :
      (ip : String) (ips : List String)
      → any (peer_admits address ip) (map (λ a. ip_block a 32) ips) ≡ one_of address ips ip
  any-map_blocks ip [] = refl
  any-map_blocks ip (a ∷ ips) = ground (arith, any-map_blocks ip ips)

  any-generate_peers :
      (ip : String) (ips : List String)
      → any (peer_admits address ip) (generate_peers ips) ≡ one_of address ips ip
  unfolding generate_peers uniq
  any-generate_peers ip ips =
      any-map_blocks ip (sort_strings (uniq ips))
      ∙ any-sort_strings (λ a. eqb (address a) (address ip)) (uniq ips)
      ∙ any-uniq_onto (λ a. eqb (address a) (address ip)) [] ips

  is_empty-generate_peers : (ips : List String) → is_empty (generate_peers ips) ≡ is_empty ips
  unfolding generate_peers uniq uniq_onto sort_strings
  is_empty-generate_peers [] = refl
  is_empty-generate_peers (a ∷ ips) =
      not_empty (peer_admits address a) (generate_peers (a ∷ ips))
        (any-generate_peers a (a ∷ ips) ∙ ground (arith, eqb_self (address a)))

  block_rule :
      (ports : List ℕ) (ips : List String) (ip : String) (port : ℕ)
      → (rule_admits address ip port (record { ports = ports; from = generate_peers ips }) || false)
        ≡ (any (λ p. eqb p port) ports && (is_empty ips || one_of address ips ip))
  block_rule ports ips ip port =
      ground (arith, is_empty-generate_peers ips, any-generate_peers ip ips)

none_known :
    (ask : String → Option (List String)) (c : Cluster) (regions : List ManagedRegion)
    → All (λ r. ask (prober_ingress_domain c r) ≡ none) regions
    → external_ips ask c regions ≡ []
unfolding external_ips
none_known ask c [] _ = refl
none_known ask c (r ∷ regions) (h, hs) = ground (arith, none_known ask c regions hs)

module _ (address : String → ℕ) (net : Network) (c : PolicySpec) where
  -- Each of the policies for the hosts of this region and for those of the other regions lets in, on
  -- the ports between nodes, the nodes that have one of the given addresses, in all of its 32 bits,
  -- and no other node; without addresses, every node.
  pub hostport_policy-admits :
      (ips : List String) (ip : String) (port : ℕ)
      → (policy_admits address ip port (hostport_policy net c ips)
          ≡ (any (λ p. eqb p port) between_nodes && (is_empty ips || one_of address ips ip)))
        × (policy_admits address ip port (managed_regions_policy net c ips)
            ≡ (any (λ p. eqb p port) between_nodes && (is_empty ips || one_of address ips ip)))
  unfolding hostport_policy managed_regions_policy
  hostport_policy-admits ips ip port =
      (block_rule address between_nodes ips ip port, block_rule address between_nodes ips ip port)

  -- When the prober of no other region can be asked, the policy for those regions opens the ports
  -- between nodes to every address.
  pub managed_regions_policy-open :
      (ip : String) (port : ℕ)
      → All (λ r. net.region_ips (prober_ingress_domain c.cluster r) ≡ none) c.cluster.managed
      → policy_admits address ip port
          (managed_regions_policy net c (get_external_cassandra_ips net c.cluster))
        ≡ any (λ p. eqb p port) between_nodes
  unfolding get_external_cassandra_ips
  managed_regions_policy-open ip port h = ground (
    arith,
    none_known net.region_ips c.cluster c.cluster.managed h,
    (hostport_policy-admits (external_ips net.region_ips c.cluster c.cluster.managed) ip port).1,
  )
