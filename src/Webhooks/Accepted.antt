-- ===== src/Webhooks/Accepted.antt =====
-- Which clusters cassandracluster_webhook.go accepts, described without its lists of errors.
use mr_cassop.Prelude.{
  ℕ, String, Bool, true, false, not, ◌&&◌, ◌||◌, Option, none, some, List, [], ◌∷◌, ◌++◌, all, ◌≡◌,
  refl, ◌==◌, ◌∙◌, string_eq, option_eq, leb, eqb, arith, Outcome, ok, err, panic, is_empty,
}
use mathlib.Core.List.{Memᴰ}
use mathlib.Core.Path.{ap, ap₂}
use mr_cassop.Cluster.{Dc, ManagedRegion, SystemKeyspaceDc}
use mr_cassop.Webhooks.{
  CassandraSpec, Spec, Problem, Parsers, problem, differ, is_set, and_also, storage_class_problems,
  validate_immutable_fields, seeds_problems, rf_problems, get_system_keyspace_dc_by_name,
  seeds_part, rf_part, tls_problems, general_validation, validate_ingress, regions_problems,
  validate_network_policies, cassandra_part, reaper_part, interval_problems,
  validate_cluster_create_update, old_cassandra,
}

-- The object is admitted: no error and no crash.
abbrev pub accepts : Outcome (List Problem) → Bool
accepts (ok ps) = is_empty ps
accepts (err e) = false
accepts panic = false

is_empty-append : (xs ys : List Problem) → is_empty (xs ++ ys) ≡ (is_empty xs && is_empty ys)
is_empty-append [] ys = refl
is_empty-append (x ∷ xs) ys = refl

accepts-and_also :
    (a b : Outcome (List Problem)) → accepts (and_also a b) ≡ (accepts a && accepts b)
accepts-and_also (ok ps) (ok qs) = is_empty-append ps qs
accepts-and_also (ok []) (err e) = refl
accepts-and_also (ok (x ∷ ps)) (err e) = refl
accepts-and_also (ok []) panic = refl
accepts-and_also (ok (x ∷ ps)) panic = refl
accepts-and_also (err e) b = refl
accepts-and_also panic b = refl

unfoldable pub immutable_kept : CassandraSpec → CassandraSpec → Bool
immutable_kept new old =
    not (differ old.persistence new.persistence)
    && (not new.persistence || old.storage_class == new.storage_class)

storage_class_problems_lem :
    (old new : Option String) → accepts (storage_class_problems old new) ≡ (old == new)
unfolding storage_class_problems
storage_class_problems_lem none none = ground arith
storage_class_problems_lem none (some n) = ground arith
storage_class_problems_lem (some o) none = ground arith
storage_class_problems_lem (some o) (some n) = ground arith

-- An update is accepted by the check of the immutable fields exactly when persistence stays as it
-- was and, if it is enabled, the storage class stays as it was.
pub validate_immutable_fields-accepts :
    (new old : CassandraSpec)
    → accepts (validate_immutable_fields (some new) (some old)) ≡ immutable_kept new old
unfolding validate_immutable_fields immutable_kept
validate_immutable_fields-accepts new old = ground (
  arith,
  storage_class_problems_lem old.storage_class new.storage_class,
  accepts-and_also
      (ok (problem (differ old.persistence new.persistence) Problem.persistence_changed))
      (storage_class_problems old.storage_class new.storage_class),
)

-- A DC with replicas that are enough for its seeds: one seed on one replica will do.
unfoldable pub seeds_fit : ℕ → Dc → Bool
seeds_fit seeds dc = elim dc.replicas [
  | none ↦ false
  | some n ↦ not (eqb n 0) && (eqb seeds 1 && eqb n 1 || leb seeds n)
]

-- A DC that has a configured replication factor, which is at most its replicas.
unfoldable pub rf_fits : List SystemKeyspaceDc → Dc → Bool
rf_fits system_dcs dc = elim (get_system_keyspace_dc_by_name system_dcs dc.name) [
  | none ↦ false
  | some s ↦ elim dc.replicas [ none ↦ false | some n ↦ leb s.rf n ]
]

seeds_problems-accepts :
    (seeds : ℕ) (dcs : List Dc) → accepts (seeds_problems seeds dcs) ≡ all (seeds_fit seeds) dcs
unfolding seeds_problems seeds_fit
seeds_problems-accepts seeds [] = refl
seeds_problems-accepts seeds (dc ∷ dcs) = ground (arith, seeds_problems-accepts seeds dcs)

rf_problems-accepts :
    (system_dcs : List SystemKeyspaceDc) (dcs : List Dc)
    → accepts (rf_problems system_dcs dcs) ≡ all (rf_fits system_dcs) dcs
unfolding rf_problems rf_fits
rf_problems-accepts system_dcs [] = refl
rf_problems-accepts system_dcs (dc ∷ dcs) = ground (arith, rf_problems-accepts system_dcs dcs)

abbrev pub seeds_accepted : Option CassandraSpec → Option (List Dc) → Bool
seeds_accepted (some cass) (some dcs) = eqb cass.num_seeds 0 || all (seeds_fit cass.num_seeds) dcs
seeds_accepted (some cass) none = true
seeds_accepted none dcs = true

abbrev pub rf_accepted : Option (List SystemKeyspaceDc) → Option (List Dc) → Bool
rf_accepted (some system_dcs) (some dcs) = all (rf_fits system_dcs) dcs
rf_accepted (some system_dcs) none = true
rf_accepted none dcs = true

seeds_part-accepts :
    (cass : Option CassandraSpec) (dcs : Option (List Dc))
    → accepts (seeds_part cass dcs) ≡ seeds_accepted cass dcs
seeds_part-accepts none dcs = refl
seeds_part-accepts (some cass) none = refl
seeds_part-accepts (some cass) (some dcs) =
    ground (arith, seeds_problems-accepts cass.num_seeds dcs)

rf_part-accepts :
    (system_dcs : Option (List SystemKeyspaceDc)) (dcs : Option (List Dc))
    → accepts (rf_part system_dcs dcs) ≡ rf_accepted system_dcs dcs
rf_part-accepts none dcs = refl
rf_part-accepts (some system_dcs) none = refl
rf_part-accepts (some system_dcs) (some dcs) = rf_problems-accepts system_dcs dcs

-- The general validation accepts a cluster exactly when: every DC has replicas that are enough for
-- the seeds, if seeds are asked for; every DC has a configured replication factor of at most its
-- replicas, if such factors are configured at all; and neither the server nor the client encryption
-- names both a CA and a node secret. In every other case there is an error or a crash.
pub general_validation-accepts :
    (s : Spec)
    → accepts (general_validation s) ≡ (
        seeds_accepted s.cassandra s.dcs
        && (rf_accepted s.system_dcs s.dcs
            && (not (is_set s.server_node_tls && is_set s.server_ca_tls)
                && not (is_set s.client_ca_tls && is_set s.client_node_tls))))
unfolding general_validation
general_validation-accepts s =
    ground (arith, seeds_part-accepts s.cassandra s.dcs, rf_part-accepts s.system_dcs s.dcs)

abbrev is_err : Outcome (List Problem) → Bool
is_err (ok ps) = false
is_err (err e) = true
is_err panic = false

seeds_problems-is_err : (seeds : ℕ) (dcs : List Dc) → is_err (seeds_problems seeds dcs) ≡ false
unfolding seeds_problems
seeds_problems-is_err seeds [] = refl
seeds_problems-is_err seeds (dc ∷ dcs) = ground (arith, seeds_problems-is_err seeds dcs)

seeds_part-is_err :
    (cass : Option CassandraSpec) (dcs : Option (List Dc)) → is_err (seeds_part cass dcs) ≡ false
seeds_part-is_err none dcs = refl
seeds_part-is_err (some cass) none = refl
seeds_part-is_err (some cass) (some dcs) = ground (arith, seeds_problems-is_err cass.num_seeds dcs)

and_also-panic :
    (a b c : Outcome (List Problem))
    → is_err a ≡ false
    → b ≡ panic
    → and_also a (and_also b c) ≡ panic
and_also-panic (ok ps) b c h e = cc
and_also-panic (err x) b c h e = cc
and_also-panic panic b c h e = refl

rf_problems-panics :
    {dc : Dc} {dcs : List Dc} (system_dcs : List SystemKeyspaceDc)
    → Memᴰ dc dcs
    → get_system_keyspace_dc_by_name system_dcs dc.name ≡ none
    → rf_problems system_dcs dcs ≡ panic
unfolding rf_problems
rf_problems-panics {dcs = []} system_dcs m h = elim m [ ]
rf_problems-panics {dc} {dcs = q ∷ dcs} system_dcs (Memᴰ.head e) h =
    ground (arith, ap (λ x. get_system_keyspace_dc_by_name system_dcs x.name) e)
rf_problems-panics {dc} {dcs = q ∷ dcs} system_dcs (Memᴰ.tail m) h =
    ground (arith, rf_problems-panics system_dcs m h)

-- A cluster of whose DCs any one is left out by the configured replication factors crashes the
-- validation, wherever that DC stands and whatever else the spec holds.
pub general_validation-panics :
    {dc : Dc} {dcs : List Dc} (s : Spec) (system_dcs : List SystemKeyspaceDc)
    → s.system_dcs ≡ some system_dcs
    → s.dcs ≡ some dcs
    → Memᴰ dc dcs
    → get_system_keyspace_dc_by_name system_dcs dc.name ≡ none
    → general_validation s ≡ panic
unfolding general_validation
general_validation-panics s system_dcs e f m h =
    and_also-panic _ (rf_part s.system_dcs s.dcs) (ok (tls_problems s))
      (seeds_part-is_err s.cassandra s.dcs) (ap₂ rf_part e f ∙ rf_problems-panics system_dcs m h)

abbrev pub region_accepted : String → ManagedRegion → Bool
region_accepted domain m = not (m.domain == domain && m.namespace == "")

abbrev pub managed_accepted : String → Option (List ManagedRegion) → Bool
managed_accepted domain none = true
managed_accepted domain (some ms) = is_set domain && all (region_accepted domain) ms

regions_problems-accepts :
    (domain : String) (ms : List ManagedRegion)
    → is_empty (regions_problems domain ms) ≡ all (region_accepted domain) ms
unfolding regions_problems
regions_problems-accepts domain [] = refl
regions_problems-accepts domain (m ∷ ms) = ground (arith, regions_problems-accepts domain ms)

-- The ingress is accepted exactly when: a domain comes with a TLS secret and with host ports, and
-- managed regions come with a domain and with a namespace for each region of that same domain.
pub validate_ingress-accepts :
    (s : Spec)
    → is_empty (validate_ingress s) ≡ (
        (not (is_set s.ingress_domain) || is_set s.ingress_secret && s.host_port)
        && managed_accepted s.ingress_domain s.managed)
unfolding validate_ingress
validate_ingress-accepts s = managed_case s.managed refl
  where
    managed_case :
        (ms : Option (List ManagedRegion))
        → s.managed ≡ ms
        → is_empty (validate_ingress s) ≡ (
            (not (is_set s.ingress_domain) || is_set s.ingress_secret && s.host_port)
            && managed_accepted s.ingress_domain s.managed)
    managed_case none e = ground arith
    managed_case (some ms) e = ground (arith, regions_problems-accepts s.ingress_domain ms)

abbrev last_checks : Parsers → Spec → List Problem
last_checks p s =
    interval_problems p s.prober_scrape_interval
    ++ (validate_ingress s ++ validate_network_policies s)

abbrev more_checks : Parsers → Spec → List Problem
more_checks p s = reaper_part p s.reaper ++ last_checks p s

abbrev checks : Parsers → Spec → List Problem
checks p s = cassandra_part p s.cassandra ++ more_checks p s

-- A cluster is admitted exactly when each of the checks finds nothing: the errors of one never hide
-- those of another.
pub validate_cluster_create_update-accepts :
    (p : Parsers) (s : Spec) (old : Option Spec)
    → accepts (validate_cluster_create_update p s old) ≡ (
        accepts (validate_immutable_fields s.cassandra (old_cassandra old))
        && (accepts (general_validation s)
            && (is_empty (cassandra_part p s.cassandra)
                && (is_empty (reaper_part p s.reaper)
                    && (is_empty (interval_problems p s.prober_scrape_interval)
                        && (is_empty (validate_ingress s)
                            && is_empty (validate_network_policies s)))))))
unfolding validate_cluster_create_update
validate_cluster_create_update-accepts p s old = ground (
  arith,
  accepts-and_also (validate_immutable_fields s.cassandra (old_cassandra old))
      (and_also (general_validation s) (ok (checks p s))),
  accepts-and_also (general_validation s) (ok (checks p s)),
  is_empty-append (cassandra_part p s.cassandra) (more_checks p s),
  is_empty-append (reaper_part p s.reaper) (last_checks p s),
  is_empty-append (interval_problems p s.prober_scrape_interval)
      (validate_ingress s ++ validate_network_policies s),
  is_empty-append (validate_ingress s) (validate_network_policies s),
)
