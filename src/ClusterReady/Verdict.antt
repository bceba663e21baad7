-- ===== src/ClusterReady/Verdict.antt =====
-- What the readiness of the cluster means (readiness.go `clusterReady`).
use mr_cassop.Prelude.{
  String, Bool, true, false, not, ◌&&◌, List, [], ◌∷◌, ◌++◌, is_empty, ◌≡◌, refl, arith, Outcome,
  ok, err, panic, Done, Answer,
}
use mr_cassop.Cluster.{Cluster}
use mr_cassop.InitOrder.Regions.{unready_dcs, unready_regions}
use mr_cassop.ClusterReady.{Seen, regions_verdict, cluster_ready}

-- Once the readiness of the DCs is known, exactly one status is sent to the prober, and it is that
-- all DCs are ready.
pub cluster_ready-sends :
    (seen : Seen) (answer : Answer Bool) (c : Cluster) (sent : List Bool) (unready : List String)
    → unready_dcs seen.get_sts c.name c.dcs ≡ ok unready
    → (cluster_ready seen answer c sent).1 ≡ sent ++ is_empty unready ∷ []
unfolding cluster_ready regions_verdict
cluster_ready-sends seen answer c sent unready h =
    answered (answer sent (is_empty unready)) (unready_regions seen.region_ready c c.managed) refl
      refl
  where
    answered :
        (a : Outcome Done) (r : Outcome (List String))
        → answer sent (is_empty unready) ≡ a
        → unready_regions seen.region_ready c c.managed ≡ r
        → (cluster_ready seen answer c sent).1 ≡ sent ++ is_empty unready ∷ []
    answered (ok d) (ok regions) e f = ground arith
    answered (ok d) (err x) e f = ground arith
    answered (ok d) panic e f = ground arith
    answered (err x) r e f = ground arith
    answered panic r e f = ground arith

-- The cluster counts as ready only if every DC is ready, the prober has taken that status, and, with
-- host ports, every managed region that was asked is ready.
pub cluster_ready-true :
    (seen : Seen) (answer : Answer Bool) (c : Cluster) (sent : List Bool)
    → (cluster_ready seen answer c sent).0 ≡ ok true
    → (unready_dcs seen.get_sts c.name c.dcs ≡ ok [])
      × (answer sent true ≡ ok tt)
      × ((regions : List String) × (unready_regions seen.region_ready c c.managed ≡ ok regions)
          × ((c.host_port && not (is_empty regions)) ≡ false))
unfolding cluster_ready regions_verdict
cluster_ready-true seen answer c sent h =
    known (unready_dcs seen.get_sts c.name c.dcs) (answer sent true) (answer sent false)
      (unready_regions seen.region_ready c c.managed) refl refl refl refl
  where
    known :
        (u : Outcome (List String)) (a b : Outcome Done) (r : Outcome (List String))
        → unready_dcs seen.get_sts c.name c.dcs ≡ u
        → answer sent true ≡ a
        → answer sent false ≡ b
        → unready_regions seen.region_ready c c.managed ≡ r
        → (unready_dcs seen.get_sts c.name c.dcs ≡ ok [])
          × (answer sent true ≡ ok tt)
          × ((regions : List String) × (unready_regions seen.region_ready c c.managed ≡ ok regions)
              × ((c.host_port && not (is_empty regions)) ≡ false))
    known (ok []) (ok d) b (ok regions) e f g i = (e, f, (regions, i, ground arith))
    known (ok []) (ok d) b (err x) e f g i = ground arith
    known (ok []) (ok d) b panic e f g i = ground arith
    known (ok []) (err x) b r e f g i = ground arith
    known (ok []) panic b r e f g i = ground arith
    known (ok (x ∷ xs)) a (ok d) r e f g i = ground arith
    known (ok (x ∷ xs)) a (err y) r e f g i = ground arith
    known (ok (x ∷ xs)) a panic r e f g i = ground arith
    known (err x) a b r e f g i = ground arith
    known panic a b r e f g i = ground arith
