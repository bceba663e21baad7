-- ===== src/Reaper/Runs.antt =====
-- reaper/repairs.go and helpers.go: when a repair is started, and which DCs there are.
use mr_cassop.Prelude.{
  String, Bool, true, false, List, [], ◌∷◌, ◌++◌, any, is_empty, ◌≡◌, refl, arith, if◌then◌else◌,
  Outcome, ok, err, Answer, and_then, and_then-eq-ok, rewrap_ok, Error, All, string_eq,
}
use mr_cassop.Cluster.{Cluster, Dc, ManagedRegion}
use mr_cassop.Cluster.Names.{prober_ingress_domain}
use mr_cassop.Reaper.{managed_dcs, RepairRun, Request, create_run, start_run, is_active, run_repair}

-- A repair is requested exactly if no run of its keyspace is active, and started once it is created.
pub run_repair-active :
    (answer : Answer Request) (existing : List RepairRun) (run : RepairRun)
    (keyspace cause : String) (sent : List Request)
    → (run_repair answer (ok existing) (ok run) keyspace cause sent).1 ≡ (
        if any (is_active keyspace) existing
        then sent
        else (sent ++ create_run keyspace cause ∷ []) ++ start_run run.id ∷ [])
unfolding run_repair
run_repair-active answer existing run keyspace cause sent = ground arith

told :
    {A B : Type 0} (b : Bool) (x : Error) (m : Outcome A) (f : A → Outcome B) {y : B}
    → (if b then err x else and_then m f) ≡ ok y
    → (b ≡ false) × ((a : A) × (m ≡ ok a))
told true x m f h = cc
told false x m f h = let (a, e, _) = and_then-eq-ok m f h in (refl, (a, e))

-- When all DCs of the managed regions are known, each region told at least one.
pub managed_dcs_complete :
    (get_dcs : String → Outcome (List Dc)) (c : Cluster) (regions : List ManagedRegion)
    {dcs : List Dc}
    → managed_dcs get_dcs c regions ≡ ok dcs
    → All
        (λ r.
          (ds : List Dc) × (get_dcs (prober_ingress_domain c r) ≡ ok ds) × (is_empty ds ≡ false))
        regions
unfolding managed_dcs
managed_dcs_complete get_dcs c [] h = tt
managed_dcs_complete get_dcs c (r ∷ rs) h =
    let (ds, e, e') = and_then-eq-ok _ _ h in
    let (full, (rest, e'')) = told _ _ _ _ e' in
    ((ds, rewrap_ok _ _ e, full), managed_dcs_complete get_dcs c rs e'')
