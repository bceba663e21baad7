-- ===== src/Controller.antt =====
-- controllers/controller.go: one pass of the operator over a CassandraCluster. Each phase is an
-- operation on the state of the outside world; the ones that other modules model are their
-- operations, the others stand for the code that writes Kubernetes objects.
pub mod Kept
pub mod Untouched
use mr_cassop.Prelude.{
  ℕ, String, ◌<>◌, Bool, true, false, not, ◌||◌, Option, none, some, List, [], ◌∷◌, ◌==◌, string_eq,
  any, is_empty, ltb, if◌then◌else◌, Error, cause, message, wrapped, Outcome, ok, err, panic, Done,
  Exec, pure, wrap, deref, ◌>>◌, ◌>>=◌, rewrap,
}
use mr_cassop.Cluster.{Cluster, Dc, Pod, Node, Get, found, not_found, failed}
use mr_cassop.Objects.{KObject}
use mr_cassop.Admin.{Credentials, extract_credentials}
use mr_cassop.Admin.Creation.{Session}

-- ctrl.Result, with its delay in seconds.
pub record Result : Type 0 where
  pub requeue : Bool
  pub requeue_after : ℕ

abbrev pub done : Result
done = record { requeue = false; requeue_after = 0 }

abbrev pub after_delay : ℕ → Result
after_delay delay = record { requeue = false; requeue_after = delay }

-- The methods that a pass calls, in its order.
pub record Phases (S : Type 0) : Type 0 where
  pub cleanup_network_policies : Exec S Done
  pub cassandra_rbac : Exec S Done
  pub tls_secrets : Exec S Done
  pub cleanup_client_tls_dir : S → S
  pub base_admin_secret : S → Get KObject
  pub annotate : KObject → Exec S Done
  pub admin_auth : String → String → Exec S Credentials
  pub maintenance_config_map : Exec S Done
  pub prometheus_config_map : Exec S Done
  pub collectd_config_map : Exec S Done
  pub service_monitor : Exec S Done
  pub prober : Exec S Done
  pub prober_ready : S → Outcome Bool
  pub update_dcs : Exec S Done
  pub cassandra_config_map : Exec S Done
  pub get_pods : S → Outcome (List Pod)
  pub list_nodes : S → Outcome (List Node)
  pub pods_config_map : List Pod → List Node → Exec S Done
  pub cassandra : Exec S Done
  pub get_all_dcs : S → Outcome (List Dc)
  pub scaling : List Pod → List Node → List Dc → KObject → Exec S Bool
  pub maintenance : Exec S Done
  pub system_auth_if_ready : List Dc → Exec S Done
  pub cluster_ready : Exec S Bool
  pub admin_role : Credentials → List Dc → Exec S (Option Session)
  pub roles : Session → Exec S Done
  pub wait_for_first_region_reaper : S → Outcome Bool
  pub reaper_keyspace : Session → List Dc → Exec S Done
  pub reaper : List Pod → List Node → Exec S Result
  pub reaper_running : S → Outcome Bool
  pub update_reaper_status : Bool → Exec S Done
  pub reaper_initialization : Exec S Done
  pub repair_schedules : Exec S Done
  pub keyspaces : Session → List Dc → Exec S Done
  pub cql_config_maps : Session → Exec S Done
  pub remove_default_role : Session → Exec S Done
  pub network_policies : List Pod → Exec S Done
  pub update_status : Bool → Exec S Done

-- The sentinel errors that are met by another try.
abbrev pub is_cause : List String → Error → Bool
is_cause names e = elim (cause e) [ message m ↦ any (λ n. n == m) names | wrapped m e' ↦ false ]

unfoldable pub needs_requeue : Outcome Result → Bool
needs_requeue (ok res) = res.requeue || ltb 0 res.requeue_after
needs_requeue (err e) = true
needs_requeue panic = true

module _ {S : Type 0} where
  -- A phase beside the variable `clusterReady`.
  abbrev pub up : {A : Type 0} → Exec S A → Exec (S × Bool) A
  up m (s, ready) = let (r, s') = m s in (r, (s', ready))

  abbrev pub ask : {A : Type 0} → (S → Outcome A) → Exec (S × Bool) A
  ask f (s, ready) = (f s, (s, ready))

  abbrev pub set_ready : Bool → Exec (S × Bool) Done
  set_ready b (s, ready) = (ok tt, (s, b))

  -- An error with one of these causes ends the pass, but not as an error.
  unfoldable pub retry_on :
      {A : Type 0}
      → List String
      → ℕ
      → Exec (S × Bool) A
      → (A → Exec (S × Bool) Result)
      → Exec (S × Bool) Result
  retry_on names delay m next st =
      let (r, t) = m st in
      elim r [
        | ok a ↦ next a t
        | err e ↦ if is_cause names e then (ok (after_delay delay), t) else (err e, t)
        | panic ↦ (panic, t)
      ]

module _ {S : Type 0} (delay : ℕ) (p : Phases S) (c : Cluster) where
  -- From the repair schedules on.
  unfoldable pub cassandra_contents : List Pod → List Dc → Session → Exec (S × Bool) Result
  cassandra_contents pods all_dcs session =
      wrap "Failed to initialize reaper" (up p.reaper_initialization)
      >> up (p.update_reaper_status true)
      >> wrap "Failed to reconcile repair schedules" (up p.repair_schedules)
      >> wrap "Failed to reconcile keyspaces" (up (p.keyspaces session all_dcs))
      >> wrap "Failed to reconcile CQL configmaps" (up (p.cql_config_maps session))
      >> up (p.remove_default_role session)
      >> wrap "Error reconciling network policies" (up (p.network_policies pods))
      >> pure (after_delay 60)

  reaper_down : Exec (S × Bool) Result
  reaper_down = up (p.update_reaper_status false) >> pure (after_delay delay)

  reaper_checked : List Pod → List Dc → Session → Exec (S × Bool) Result
  unfolding cassandra_contents reaper_down
  reaper_checked pods all_dcs session (s, ready) = elim (p.reaper_running s) [
    | err e ↦ reaper_down (s, ready)
    | panic ↦ (panic, (s, ready))
    | ok false ↦ reaper_down (s, ready)
    | ok true ↦ cassandra_contents pods all_dcs session (s, ready)
  ]

  reaper_reconciled : List Pod → List Node → List Dc → Session → Exec (S × Bool) Result
  unfolding needs_requeue reaper_checked
  reaper_reconciled pods nodes all_dcs session st =
      let (r, t) = up (p.reaper pods nodes) st in
      if needs_requeue r then (r, t) else reaper_checked pods all_dcs session t

  -- Once the cluster is ready.
  unfoldable pub when_ready : List Pod → List Node → List Dc → Credentials → Exec (S × Bool) Result
  unfolding reaper_reconciled
  when_ready pods nodes all_dcs auth =
      wrap "Failed to reconcile Admin Role" (up (p.admin_role auth all_dcs)) >>= λ client.
      ask (λ s. deref client) >>= λ session.
      up (p.roles session)
      >> wrap "Error checking for first region reaper readiness"
          (ask p.wait_for_first_region_reaper)
      >>= λ waits.
          if waits
          then pure (after_delay delay)
          else wrap "Error reconciling reaper keyspace" (up (p.reaper_keyspace session all_dcs))
            >> reaper_reconciled pods nodes all_dcs session

  unfoldable pub by_readiness :
      List Pod → List Node → List Dc → Credentials → Bool → Exec (S × Bool) Result
  unfolding when_ready
  by_readiness pods nodes all_dcs auth true = set_ready true >> when_ready pods nodes all_dcs auth
  by_readiness pods nodes all_dcs auth false = pure (after_delay delay)

  unfoldable pub ready_checked :
      List Pod → List Node → List Dc → Credentials → Exec (S × Bool) Result
  ready_checked pods nodes all_dcs auth =
      up p.cluster_ready >>= by_readiness pods nodes all_dcs auth

  unfoldable pub when_not_scaling :
      List Pod → List Node → List Dc → Credentials → Exec (S × Bool) Result
  unfolding ready_checked
  when_not_scaling pods nodes all_dcs auth =
      wrap "Failed to reconcile maintenance" (up p.maintenance)
      >> (if is_empty c.managed then pure tt else up (p.system_auth_if_ready all_dcs))
      >> ready_checked pods nodes all_dcs auth

  unfoldable pub statefulsets :
      List Pod → List Node → Credentials → KObject → Exec (S × Bool) Result
  unfolding when_not_scaling retry_on
  statefulsets pods nodes auth base =
      retry_on ("TLS secret not found" ∷ "TLS secret is not valid" ∷ []) delay
        (wrap "Error reconciling statefulsets" (up p.cassandra))
        (λ _.
          retry_on ("One of the regions is not ready" ∷ []) delay
            (wrap "can't get all dcs across regions" (ask p.get_all_dcs))
            (λ all_dcs.
              retry_on ("DC decommission blocked" ∷ []) delay
                (up (p.scaling pods nodes all_dcs base))
                (λ scaling_in_progress.
                  if scaling_in_progress
                  then pure done
                  else when_not_scaling pods nodes all_dcs auth)))

  unfoldable pub pods_configured : Credentials → KObject → Exec (S × Bool) Result
  unfolding statefulsets retry_on
  pods_configured auth base =
      up p.update_dcs
      >> wrap "Error reconciling cassandra configmaps" (up p.cassandra_config_map)
      >> wrap "Cannot get Cassandra pods list" (ask p.get_pods)
      >>= λ pods.
          (if c.host_port || c.zones_as_racks
            then wrap "can't get list of nodes" (ask p.list_nodes)
            else pure [])
          >>= λ nodes.
              retry_on ("One of pods is not scheduled yet" ∷ "One of the regions is not ready" ∷ [])
                delay
                (wrap "Error reconciling cassandra pods configmap"
                  (up (p.pods_config_map pods nodes)))
                (λ _. statefulsets pods nodes auth base)

  -- A prober that cannot be asked or is not ready is tried again later.
  unfoldable pub prober_checked : Credentials → KObject → Exec (S × Bool) Result
  unfolding pods_configured
  prober_checked auth base (s, ready) = elim (p.prober_ready s) [
    | ok true ↦ pods_configured auth base (s, ready)
    | ok false ↦ (ok (after_delay delay), (s, ready))
    | err e ↦ (ok (after_delay delay), (s, ready))
    | panic ↦ (panic, (s, ready))
  ]

  unfoldable pub with_credentials : KObject → String × String → Exec (S × Bool) Result
  unfolding prober_checked
  with_credentials base (role, password) =
      wrap "Error reconciling Admin Auth Secrets" (up (p.admin_auth role password)) >>= λ auth.
      wrap "Error reconciling maintenance configmap" (up p.maintenance_config_map)
      >> wrap "Error reconciling prometheus configmap" (up p.prometheus_config_map)
      >> wrap "Failed to reconcile collectd configmap" (up p.collectd_config_map)
      >> wrap "Failed to reconcile service monitor" (up p.service_monitor)
      >> wrap "Error reconciling prober" (up p.prober)
      >> prober_checked auth base

  unfoldable pub by_credentials : KObject → Outcome (String × String) → Exec (S × Bool) Result
  unfolding with_credentials
  by_credentials base (ok credentials) = with_credentials base credentials
  by_credentials base (err e) = pure (after_delay delay)
  by_credentials base panic = λ t. (panic, t)

  -- An admin secret that is missing, or without a role or a password, is tried again later.
  unfoldable pub with_admin_secret : Exec (S × Bool) Result
  unfolding extract_credentials
  with_admin_secret (s, ready) = elim (p.base_admin_secret s) [
    | not_found ↦ (ok (after_delay delay), (s, ready))
    | failed e ↦
        (err (wrapped ("Failed to get secret: " <> (c.name <> "-auth-active-admin")) e), (s, ready))
    | found base ↦
        (wrap "failed to reconcile annotations" (up (p.annotate base))
            >> by_credentials base (extract_credentials base))
          (s, ready)
  ]

  unfoldable pub with_tls_dir : Exec (S × Bool) Result
  unfolding with_admin_secret
  with_tls_dir st =
      let (r, (s, ready)) = with_admin_secret st in (r, (p.cleanup_client_tls_dir s, ready))

  -- The pass between the two deferred functions. The directory is cleaned up however the rest ends.
  unfoldable pub body : Exec (S × Bool) Result
  unfolding with_tls_dir
  body =
      up p.cassandra_rbac >> wrap "Error reconciling TLS Secrets" (up p.tls_secrets) >> with_tls_dir

  -- The status is written at the end, however the pass ends, if it is not what was read.
  unfoldable pub with_status : Bool → Exec S Result
  unfolding body
  with_status was_ready s =
      let (r, (s', ready)) = body (s, false) in
      (
        r,
        if was_ready
            then (if ready then s' else (p.update_status false s').1)
            else if ready
            then (p.update_status true s').1
            else s',
      )

-- The resource after its defaults were set, and its status.
unfoldable pub reconcile_with_context :
    {S : Type 0} → ℕ → (S → Get (Cluster × Bool)) → (Cluster → Phases S) → Exec S Result
unfolding with_status
reconcile_with_context delay get phases s = elim (get s) [
  | not_found ↦ (ok done, s)
  | failed e ↦ (err e, s)
  | found (c, was_ready) ↦
      (wrap "Failed to cleanup network policies" (phases c).cleanup_network_policies
          >> with_status delay (phases c) c was_ready)
        s
]

-- `is_conflict` tells a status error whose reason is a conflict.
unfoldable pub reconcile :
    {S : Type 0}
    → ℕ
    → (S → Get (Cluster × Bool))
    → (Cluster → Phases S)
    → (Error → Bool)
    → Exec S Result
unfolding reconcile_with_context
reconcile delay get phases is_conflict s =
    let (r, s') = reconcile_with_context delay get phases s in
    elim r [
      | ok res ↦ (ok res, s')
      | err e ↦
          if is_conflict (cause e)
          then (ok (record { requeue = true; requeue_after = 0 }), s')
          else (err e, s')
      | panic ↦ (panic, s')
    ]
