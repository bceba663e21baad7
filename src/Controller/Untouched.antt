-- ===== src/Controller/Untouched.antt =====
-- controllers/controller.go: what a pass leaves alone before the cluster is ready.
use mr_cassop.Prelude.{
  ℕ, String, Bool, true, false, ◌||◌, List, [], ◌∷◌, ◌≡◌, refl, ◌⊎◌, inl, inr, arith, Outcome, ok,
  err, panic, Exec, wrap, continue, ◌>>◌, Keeps, Keeps-continue, is_empty, rewrap,
}
use mr_cassop.Cluster.{Cluster, Dc, Pod, Node, Get, found, not_found, failed}
use mr_cassop.Objects.{KObject}
use mr_cassop.Admin.{Credentials, extract_credentials}
use mr_cassop.Controller.Kept.{Kept, kept_if, ◌⊳=◌, ◌⊳◌, kept_pure, kept_retry, kept_ask}
use mr_cassop.Controller.{
  Phases, up, ready_checked, by_readiness, when_not_scaling, statefulsets, pods_configured,
  prober_checked, with_credentials, by_credentials, with_tls_dir, with_admin_secret, body,
  with_status, reconcile_with_context, done,
}

-- The phases of the preparation keep a property of the world.
pub record Prepares {ℓ} {S : Type 0} (P : S → Type ℓ) (p : Phases S) : Type ℓ where
  pub keeps_network_policies : Keeps P p.cleanup_network_policies
  pub keeps_rbac : Keeps P p.cassandra_rbac
  pub keeps_tls : Keeps P p.tls_secrets
  pub keeps_cleanup : (s : S) → P s → P (p.cleanup_client_tls_dir s)
  pub keeps_annotations : (o : KObject) → Keeps P (p.annotate o)
  pub keeps_auth : (role password : String) → Keeps P (p.admin_auth role password)
  pub keeps_maintenance_map : Keeps P p.maintenance_config_map
  pub keeps_prometheus : Keeps P p.prometheus_config_map
  pub keeps_collectd : Keeps P p.collectd_config_map
  pub keeps_monitor : Keeps P p.service_monitor
  pub keeps_prober : Keeps P p.prober
  pub keeps_dcs : Keeps P p.update_dcs
  pub keeps_cassandra_map : Keeps P p.cassandra_config_map
  pub keeps_pods_map :
      (pods : List Pod) (nodes : List Node) → Keeps P (p.pods_config_map pods nodes)
  pub keeps_cassandra : Keeps P p.cassandra
  pub keeps_scaling :
      (pods : List Pod) (nodes : List Node) (dcs : List Dc) (o : KObject)
      → Keeps P (p.scaling pods nodes dcs o)
  pub keeps_maintenance : Keeps P p.maintenance
  pub keeps_system_auth : (dcs : List Dc) → Keeps P (p.system_auth_if_ready dcs)
  pub keeps_check : Keeps P p.cluster_ready
  pub keeps_unready : Keeps P (p.update_status false)

module _ {ℓ} {S : Type 0} (P : S → Type ℓ) (delay : ℕ) (p : Phases S) (k : Prepares P p)
    (c : Cluster) where
  -- The check found the cluster ready.
  abbrev pub WasReady : Type ℓ
  WasReady = (s : S) × P s × ((p.cluster_ready s).0 ≡ ok true)

  Before : S × Bool → Type ℓ
  Before (s, ready) = (P s × (ready ≡ false)) ⊎ WasReady

  up-Keeps : {A : Type 0} (m : Exec S A) → Keeps P m → Keeps Before (up m)
  unfolding Before
  up-Keeps m h (s, ready) (inl (q, e)) = inl (h s q, e)
  up-Keeps m h (s, ready) (inr r) = inr r

  ready_checked-Keeps :
      (pods : List Pod) (nodes : List Node) (dcs : List Dc) (auth : Credentials)
      → Keeps Before (ready_checked delay p c pods nodes dcs auth)
  unfolding ready_checked by_readiness Before
  ready_checked-Keeps pods nodes dcs auth st (inr r) = inr r
  ready_checked-Keeps pods nodes dcs auth (s, ready) (inl (q, e)) =
      by_outcome (p.cluster_ready s).0 refl
    where
      by_outcome :
          (r : Outcome Bool)
          → (p.cluster_ready s).0 ≡ r
          → Before
              (continue r
                (by_readiness delay p c pods nodes dcs auth)
                ((p.cluster_ready s).1, ready)).1
      by_outcome (ok true) h = inr (s, q, h)
      by_outcome (ok false) h = inl (k.keeps_check s q, e)
      by_outcome (err x) h = inl (k.keeps_check s q, e)
      by_outcome panic h = inl (k.keeps_check s q, e)

  abbrev kept_up : {A : Type 0} → String → (m : Exec S A) → Keeps P m → Kept Before A
  kept_up w m h = (wrap w (up m), up-Keeps m h)

  when_not_scaling-Keeps :
      (pods : List Pod) (nodes : List Node) (dcs : List Dc) (auth : Credentials)
      → Keeps Before (when_not_scaling delay p c pods nodes dcs auth)
  unfolding when_not_scaling
  when_not_scaling-Keeps pods nodes dcs auth =
      (kept_up "Failed to reconcile maintenance" p.maintenance k.keeps_maintenance
        ⊳ kept_if (is_empty c.managed) (kept_pure tt) (
          up (p.system_auth_if_ready dcs),
          up-Keeps (p.system_auth_if_ready dcs) (k.keeps_system_auth dcs),
        )
        ⊳ (ready_checked delay p c pods nodes dcs auth, ready_checked-Keeps pods nodes dcs auth)).1

  statefulsets-Keeps :
      (pods : List Pod) (nodes : List Node) (auth : Credentials) (base : KObject)
      → Keeps Before (statefulsets delay p c pods nodes auth base)
  unfolding statefulsets
  statefulsets-Keeps pods nodes auth base =
      (kept_retry delay ("TLS secret not found" ∷ "TLS secret is not valid" ∷ [])
        (kept_up "Error reconciling statefulsets" p.cassandra k.keeps_cassandra)
        (λ _.
          kept_retry delay ("One of the regions is not ready" ∷ [])
            (kept_ask "can't get all dcs across regions" p.get_all_dcs)
            (λ all_dcs.
              kept_retry delay ("DC decommission blocked" ∷ [])
                (
                  up (p.scaling pods nodes all_dcs base),
                  up-Keeps (p.scaling pods nodes all_dcs base)
                      (k.keeps_scaling pods nodes all_dcs base),
                )
                (λ scaling. kept_if scaling (kept_pure done) (
                  when_not_scaling delay p c pods nodes all_dcs auth,
                  when_not_scaling-Keeps pods nodes all_dcs auth,
                ))))).1

  pods_configured-Keeps :
      (auth : Credentials) (base : KObject) → Keeps Before (pods_configured delay p c auth base)
  unfolding pods_configured
  pods_configured-Keeps auth base =
      ((up p.update_dcs, up-Keeps p.update_dcs k.keeps_dcs)
        ⊳ kept_up "Error reconciling cassandra configmaps" p.cassandra_config_map
            k.keeps_cassandra_map
        ⊳ kept_ask "Cannot get Cassandra pods list" p.get_pods
        ⊳= λ pods.
            kept_if (c.host_port || c.zones_as_racks)
              (kept_ask "can't get list of nodes" p.list_nodes) (kept_pure [])
            ⊳= λ nodes.
                kept_retry delay
                  ("One of pods is not scheduled yet" ∷ "One of the regions is not ready" ∷ [])
                  (kept_up "Error reconciling cassandra pods configmap"
                    (p.pods_config_map pods nodes) (k.keeps_pods_map pods nodes))
                  (λ _. (
                    statefulsets delay p c pods nodes auth base,
                    statefulsets-Keeps pods nodes auth base,
                  ))).1

  prober_checked-Keeps :
      (auth : Credentials) (base : KObject) → Keeps Before (prober_checked delay p c auth base)
  unfolding prober_checked
  prober_checked-Keeps auth base (s, ready) q = by_answer (p.prober_ready s) refl
    where
      by_answer :
          (r : Outcome Bool)
          → p.prober_ready s ≡ r
          → Before (prober_checked delay p c auth base (s, ready)).1
      by_answer (ok true) e = rw (e, prober_checked) (pods_configured-Keeps auth base (s, ready) q)
      by_answer (ok false) e = rw (e, prober_checked) q
      by_answer (err x) e = rw (e, prober_checked) q
      by_answer panic e = rw (e, prober_checked) q

  with_credentials-Keeps :
      (base : KObject) (role password : String)
      → Keeps Before (with_credentials delay p c base (role, password))
  unfolding with_credentials
  with_credentials-Keeps base role password =
      (kept_up "Error reconciling Admin Auth Secrets" (p.admin_auth role password)
          (k.keeps_auth role password)
        ⊳= λ auth.
            kept_up "Error reconciling maintenance configmap" p.maintenance_config_map
              k.keeps_maintenance_map
            ⊳ kept_up "Error reconciling prometheus configmap" p.prometheus_config_map
                k.keeps_prometheus
            ⊳ kept_up "Failed to reconcile collectd configmap" p.collectd_config_map
                k.keeps_collectd
            ⊳ kept_up "Failed to reconcile service monitor" p.service_monitor k.keeps_monitor
            ⊳ kept_up "Error reconciling prober" p.prober k.keeps_prober
            ⊳ (prober_checked delay p c auth base, prober_checked-Keeps auth base)).1

  by_credentials-Keeps :
      (base : KObject) (r : Outcome (String × String))
      → Keeps Before (by_credentials delay p c base r)
  unfolding by_credentials
  by_credentials-Keeps base (ok (role, password)) = with_credentials-Keeps base role password
  by_credentials-Keeps base (err e) = λ s q. q
  by_credentials-Keeps base panic = λ s q. q

  with_admin_secret-Keeps : Keeps Before (with_admin_secret delay p c)
  unfolding with_admin_secret
  with_admin_secret-Keeps (s, ready) q = by_answer (p.base_admin_secret s) refl
    where
      by_answer :
          (g : Get KObject)
          → p.base_admin_secret s ≡ g
          → Before (with_admin_secret delay p c (s, ready)).1
      by_answer not_found e = rw (e, with_admin_secret) q
      by_answer (failed x) e = rw (e, with_admin_secret) q
      by_answer (found base) e =
          rw (e, with_admin_secret)
            ((kept_up "failed to reconcile annotations" (p.annotate base) (k.keeps_annotations base)
                ⊳ (
                  by_credentials delay p c base (extract_credentials base),
                  by_credentials-Keeps base (extract_credentials base),
                )).1
              (s, ready) q)

  cleaned : (st : S × Bool) → Before st → Before (p.cleanup_client_tls_dir st.0, st.1)
  unfolding Before
  cleaned (s, ready) (inl (q, e)) = inl (k.keeps_cleanup s q, e)
  cleaned (s, ready) (inr r) = inr r

  body-Keeps : Keeps Before (body delay p c)
  unfolding body with_tls_dir
  body-Keeps =
      ((up p.cassandra_rbac, up-Keeps p.cassandra_rbac k.keeps_rbac)
        ⊳ kept_up "Error reconciling TLS Secrets" p.tls_secrets k.keeps_tls
        ⊳ (
          with_tls_dir delay p c,
          λ st q. cleaned (with_admin_secret delay p c st).1 (with_admin_secret-Keeps st q),
        )).1

  pub with_status-Keeps :
      (was_ready : Bool) (s : S) → P s → P (with_status delay p c was_ready s).1 ⊎ WasReady
  unfolding with_status Before
  with_status-Keeps was_ready s q = elim (body-Keeps (s, false) (inl (q, refl))) [
    | inr r ↦ inr r
    | inl (q', e) ↦ inl (ground (arith, k.keeps_unready (body delay p c (s, false)).1.0 q'))
  ]

  pass-untouched :
      (was : Bool) (s : S)
      → P s
      → P
          ((wrap "Failed to cleanup network policies" p.cleanup_network_policies
              >> with_status delay p c was)
            s).1
        ⊎ WasReady
  pass-untouched was s q =
      Keeps-continue (λ t. P t ⊎ WasReady)
        (rewrap "Failed to cleanup network policies" (p.cleanup_network_policies s).0)
        (λ _. with_status delay p c was) (p.cleanup_network_policies s).1
        (inl (k.keeps_network_policies s q))
        (λ _ t h. elim h [ inl r ↦ with_status-Keeps was t r | inr r ↦ inr r ])

-- What all phases of the preparation keep, and a status that is not ready, a pass keeps as well,
-- whatever it returns, unless its check of the cluster found it ready, at a state that kept it.
pub reconcile_with_context-untouched {ℓ} :
    {S : Type 0} (P : S → Type ℓ) (delay : ℕ) (get : S → Get (Cluster × Bool))
    (phases : Cluster → Phases S)
    → ((c : Cluster) → Prepares P (phases c))
    → (s : S) → P s
    → P (reconcile_with_context delay get phases s).1
      ⊎ ((c : Cluster) × (t : S) × P t × (((phases c).cluster_ready t).0 ≡ ok true))
unfolding reconcile_with_context
reconcile_with_context-untouched {S = S} P delay get phases k s q = by_answer (get s) refl
  where
    by_answer :
        (g : Get (Cluster × Bool))
        → get s ≡ g
        → P (reconcile_with_context delay get phases s).1
          ⊎ ((c : Cluster) × (t : S) × P t × (((phases c).cluster_ready t).0 ≡ ok true))
    by_answer not_found e = inl (rw (e, reconcile_with_context) q)
    by_answer (failed x) e = inl (rw (e, reconcile_with_context) q)
    by_answer (found (c, was)) e =
        rw (e, reconcile_with_context)
          (elim (pass-untouched P delay (phases c) (k c) c was s q) [
            | inl r ↦ inl r
            | inr (t, q', h) ↦ inr (c, t, q', h)
          ])
