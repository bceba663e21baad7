-- ===== src/Scaling/Quorum.antt =====
-- When a pod counts as decommissioned (cassandra_scaling.go `podDecommissioned`).
use mr_cassop.Prelude.{
  ℕ, suc, ◌+◌, ◌≤◌, String, Bool, true, false, not, ◌&&◌, ◌||◌, Option, none, some, List, [], ◌∷◌,
  any, countb, ◌≡◌, refl, ap, ◌∙◌, ◌==◌, string_eq, contains, if◌then◌else◌, leb, arith, Outcome,
  ok, err, panic, and_then, and_then-eq-ok,
}
use mr_cassop.Prelude.Dict.{Dict, lookup, insert, lookup-insert}
use mr_cassop.Cluster.{Cluster, Dc, Pod, dc_label}
use mr_cassop.InitOrder.PodsConfig.{value_at}
use mr_cassop.Scaling.{dcs_map, in_desired_dc, not_live_view, quorum, pod_decommissioned}
use mr_cassop.Scaling.Partition.{is_some}

-- A pod of the cluster's DCs other than the one that leaves.
unfoldable pub is_peer : List Dc → Pod → Pod → Bool
is_peer dcs gone pod = not (pod.name == gone.name) && in_desired_dc dcs pod

-- The pod's node has the leaving node among its live ones, or cannot say.
unfoldable pub may_see : (String → Outcome (List String)) → Dict String String → Pod → Pod → Bool
unfolding value_at
may_see cluster_view addresses gone pod = elim (cluster_view (value_at pod.name addresses)) [
  | ok live ↦ contains live (value_at gone.name addresses)
  | err e ↦ true
  | panic ↦ true
]

lookup-dcs_map :
    (n : String) (dcs : List Dc) (m d : Dict String ℕ)
    → dcs_map dcs m ≡ ok d
    → is_some (lookup n d) ≡ (is_some (lookup n m) || any (λ dc. n == dc.name) dcs)
unfolding dcs_map
lookup-dcs_map n [] m d h = ground arith
lookup-dcs_map n (dc ∷ dcs) m d h =
    replicas_case dc.replicas refl (λ k. lookup-dcs_map n dcs (insert dc.name k m) d)
  where
    replicas_case :
        (r : Option ℕ)
        → dc.replicas ≡ r
        → ((k : ℕ)
            → dcs_map dcs (insert dc.name k m) ≡ ok d
            → is_some (lookup n d)
              ≡ (is_some (lookup n (insert dc.name k m)) || any (λ x. n == x.name) dcs))
        → is_some (lookup n d) ≡ (is_some (lookup n m) || any (λ x. n == x.name) (dc ∷ dcs))
    replicas_case none e ih = ground arith
    replicas_case (some k) e ih = ground (arith, ih k, lookup-insert n dc.name k m)

module _ (view : String → Outcome (List String)) (addresses : Dict String String) (dcs : List Dc)
    (gone : Pod) where
  not_live_view-count :
      (d : Dict String ℕ) (pods : List Pod) (n : ℕ)
      → ((l : String) → is_some (lookup l d) ≡ any (λ dc. l == dc.name) dcs)
      → not_live_view view addresses d gone pods ≡ ok n
      → n + countb (λ p. is_peer dcs gone p && may_see view addresses gone p) pods
        ≡ countb (is_peer dcs gone) pods
  unfolding not_live_view is_peer may_see in_desired_dc
  not_live_view-count d [] n known h = ground arith
  not_live_view-count d (p ∷ pods) n known h =
      rest_case (not_live_view view addresses d gone pods) (view (value_at p.name addresses))
        (lookup (value_at dc_label p.labels) d) refl refl refl
        (λ k. not_live_view-count d pods k known)
    where
      rest_case :
          (r : Outcome ℕ) (v : Outcome (List String)) (l : Option ℕ)
          → not_live_view view addresses d gone pods ≡ r
          → view (value_at p.name addresses) ≡ v
          → lookup (value_at dc_label p.labels) d ≡ l
          → ((k : ℕ)
              → r ≡ ok k
              → k + countb (λ x. is_peer dcs gone x && may_see view addresses gone x) pods
                ≡ countb (is_peer dcs gone) pods)
          → n + countb (λ x. is_peer dcs gone x && may_see view addresses gone x) (p ∷ pods)
            ≡ countb (is_peer dcs gone) (p ∷ pods)
      rest_case (ok k) (ok live) none e f g ih =
          ground (arith, ih k, known (value_at dc_label p.labels))
      rest_case (ok k) (err x) none e f g ih =
          ground (arith, ih k, known (value_at dc_label p.labels))
      rest_case (ok k) panic none e f g ih =
          ground (arith, ih k, known (value_at dc_label p.labels))
      rest_case (ok k) (ok live) (some j) e f g ih =
          ground (arith, ih k, known (value_at dc_label p.labels))
      rest_case (ok k) (err x) (some j) e f g ih =
          ground (arith, ih k, known (value_at dc_label p.labels))
      rest_case (ok k) panic (some j) e f g ih =
          ground (arith, ih k, known (value_at dc_label p.labels))
      rest_case (err x) v l e f g ih = ground arith
      rest_case panic v l e f g ih = ground arith

countb-peers :
    (dcs : List Dc) (gone : Pod) (pods : List Pod)
    → countb (is_peer dcs gone) pods ≤ countb (in_desired_dc dcs) pods
unfolding is_peer
countb-peers dcs gone [] = omega arith
countb-peers dcs gone (p ∷ pods) = ground (arith, countb-peers dcs gone pods)

countb-peers_less :
    (dcs : List Dc) (gone : Pod) (pods : List Pod)
    → any (λ p. p.name == gone.name && in_desired_dc dcs p) pods ≡ true
    → suc (countb (is_peer dcs gone) pods) ≤ countb (in_desired_dc dcs) pods
unfolding is_peer
countb-peers_less dcs gone [] h = ground arith
countb-peers_less dcs gone (p ∷ pods) h =
    ground (arith, countb-peers dcs gone pods, countb-peers_less dcs gone pods)

lookup-nil_false : (n : String) → is_some (lookup {V = ℕ} n []) ≡ false
unfolding lookup
lookup-nil_false n = refl

abbrev pub still_seen_by :
    (String → Outcome (List String)) → Dict String String → List Dc → Pod → List Pod → ℕ
still_seen_by view addresses dcs gone pods =
    countb (λ p. is_peer dcs gone p && may_see view addresses gone p) pods

-- If a pod counts as decommissioned, then among the other pods of the cluster's DCs at most one
-- still sees its node as live or cannot say; and none does, if the pod's name is that of one of the
-- pods of the cluster's DCs.
pub pod_decommissioned-quorum :
    (view : String → Outcome (List String)) (c : Cluster) (pods : List Pod) (gone : Pod)
    (addresses : Dict String String)
    → pod_decommissioned view c pods gone addresses ≡ ok true
    → (still_seen_by view addresses c.dcs gone pods ≤ 1)
      × ((if any (λ p. p.name == gone.name && in_desired_dc c.dcs p) pods
            then still_seen_by view addresses c.dcs gone pods
            else 0)
          ≡ 0)
unfolding pod_decommissioned quorum
pod_decommissioned-quorum view c pods gone addresses h =
    let (d, mapped, h') =
      and_then-eq-ok (dcs_map c.dcs [])
        (λ desired.
          and_then (not_live_view view addresses desired gone pods)
            λ n. ok (leb (quorum c.dcs pods) n))
        h in
    let (n, counted, enough) =
      and_then-eq-ok (not_live_view view addresses d gone pods)
        (λ k. ok (leb (quorum c.dcs pods) k)) h' in
    ground (
      arith,
      enough,
      countb-peers c.dcs gone pods,
      countb-peers_less c.dcs gone pods,
      not_live_view-count view addresses c.dcs gone d pods n
          (λ l.
            lookup-dcs_map l c.dcs [] d mapped
            ∙ ap (λ b. b || any (λ dc. l == dc.name) c.dcs) (lookup-nil_false l))
          counted,
    )
