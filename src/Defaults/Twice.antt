-- ===== src/Defaults/Twice.antt =====
-- controllers/defaults.go: a second pass of the defaults.
use mr_cassop.Prelude.{
  ℕ, String, Bool, true, false, Option, none, some, List, [], ◌∷◌, map, ◌≡◌, refl, ap, ◌∙◌, arith,
  is_empty, string_eq, if◌then◌else◌, Outcome, ok, err, panic, and_then,
}
use mr_cassop.Cluster.{Dc, Maintenance}
use mr_cassop.Defaults.{
  Images, NodeTlsSecret, Encryption, or_text, or_value, or_number, or_list, default_node_tls_keys,
  default_client_tls, default_server_tls,
}
use mr_cassop.Defaults.Sysctls.{set_sysctls-twice}
use mr_cassop.Defaults.Spec.{
  RepairPart, Monitor, ReaperPart, ProberPart, IcarusPart, CassandraPart, ClusterSpec,
  default_repair, with_interval, fill_reaper, default_reaper, default_prober, default_icarus,
  fill_cassandra, default_cassandra, maintenance_pods, default_maintenance,
  default_cassandra_cluster, with_defaults,
}

or_text-twice : (d x : String) → or_text d (or_text d x) ≡ or_text d x
or_text-twice d x = ground arith

or_value-twice {ℓ} : {A : Type ℓ} (d : A) (x : Option A) → or_value d (or_value d x) ≡ or_value d x
or_value-twice d none = refl
or_value-twice d (some a) = refl

or_number-twice : (d n : ℕ) → or_number d (or_number d n) ≡ or_number d n
or_number-twice d n = ground arith

or_list-twice {ℓ} : {A : Type ℓ} (d xs : List A) → or_list d (or_list d xs) ≡ or_list d xs
or_list-twice d [] = ground arith
or_list-twice d (x ∷ xs) = refl

with_interval-twice :
    (parses : String → Bool) (d : String) (m : Monitor)
    → with_interval parses d (with_interval parses d m) ≡ with_interval parses d m
with_interval-twice parses d m = ground arith

default_node_tls_keys-twice :
    (s : NodeTlsSecret) → default_node_tls_keys (default_node_tls_keys s) ≡ default_node_tls_keys s
unfolding default_node_tls_keys
default_node_tls_keys-twice s = simp or_text-twice

default_client_tls-twice :
    (e : Encryption) → default_client_tls (default_client_tls e) ≡ default_client_tls e
unfolding default_client_tls
default_client_tls-twice e =
    simp (or_text-twice, or_value-twice, or_list-twice, default_node_tls_keys-twice)

default_repair-twice :
    (dcs : List String) (r : RepairPart)
    → default_repair dcs (default_repair dcs r) ≡ default_repair dcs r
unfolding default_repair
default_repair-twice dcs r = ground arith

default_prober-twice :
    (parses : String → Bool) (images : Images) (p : ProberPart)
    → default_prober parses images (default_prober parses images p) ≡ default_prober parses images p
unfolding default_prober
default_prober-twice parses images p = simp (or_text-twice, with_interval-twice)

default_icarus-twice :
    (parses : String → Bool) (images : Images) (i : IcarusPart)
    → default_icarus parses images (default_icarus parses images i) ≡ default_icarus parses images i
unfolding default_icarus
default_icarus-twice parses images i = simp or_text-twice

repairs_twice :
    (dcs : List String) (rs : List RepairPart)
    → map (default_repair dcs) (map (default_repair dcs) rs) ≡ map (default_repair dcs) rs
repairs_twice dcs [] = refl
repairs_twice dcs (r ∷ rs) = simp (default_repair-twice dcs r, repairs_twice dcs rs)

fill_reaper-twice :
    (parses : String → Bool) (images : Images) (dcs : List String) (r : ReaperPart)
    → fill_reaper parses images dcs (fill_reaper parses images dcs r)
      ≡ fill_reaper parses images dcs r
unfolding fill_reaper
fill_reaper-twice parses images dcs r =
    simp (or_text-twice, or_number-twice, with_interval-twice, repairs_twice)

agent_twice :
    (b : Bool) (x : String)
    → (if b
        then or_text "tlp" (if b then or_text "tlp" x else x)
        else if b
        then or_text "tlp" x
        else x)
      ≡ (if b then or_text "tlp" x else x)
agent_twice true x = or_text-twice "tlp" x
agent_twice false x = refl

monitor_twice :
    (parses : String → Bool) (b : Bool) (m : Monitor)
    → (if b
        then with_interval parses "30s" (if b then with_interval parses "30s" m else m)
        else if b
        then with_interval parses "30s" m
        else m)
      ≡ (if b then with_interval parses "30s" m else m)
monitor_twice parses true m = with_interval-twice parses "30s" m
monitor_twice parses false m = refl

fill_cassandra-twice :
    (parses : String → Bool) (images : Images) (c : CassandraPart)
    → fill_cassandra parses images (fill_cassandra parses images c) ≡ fill_cassandra parses images c
unfolding fill_cassandra
fill_cassandra-twice parses images c =
    simp (
      or_text-twice, or_number-twice, or_value-twice, set_sysctls-twice, agent_twice, monitor_twice,
    )

module _ (digits : ℕ → String) (cluster : String) (dcs : List Dc) where
  entry_again :
      (m : Maintenance) {pods : List String}
      → (if is_empty m.pods then maintenance_pods digits cluster dcs m.dc [] else ok m.pods)
        ≡ ok pods
      → (if is_empty pods then maintenance_pods digits cluster dcs m.dc [] else ok pods) ≡ ok pods
  entry_again m h = ground arith

  default_maintenance-twice :
      (ms : List Maintenance)
      → and_then
          (default_maintenance digits cluster dcs ms)
          (default_maintenance digits cluster dcs)
        ≡ default_maintenance digits cluster dcs ms
  unfolding default_maintenance
  default_maintenance-twice [] = refl
  default_maintenance-twice (m ∷ ms) =
      split (if is_empty m.pods then maintenance_pods digits cluster dcs m.dc [] else ok m.pods)
        refl (default_maintenance digits cluster dcs ms) refl (default_maintenance-twice ms)
    where
      split :
          (r : Outcome (List String))
          → (if is_empty m.pods then maintenance_pods digits cluster dcs m.dc [] else ok m.pods) ≡ r
          → (r' : Outcome (List Maintenance)) → default_maintenance digits cluster dcs ms ≡ r'
          → and_then r' (default_maintenance digits cluster dcs) ≡ r'
          → and_then
              (and_then r (λ pods. and_then r' (λ rest. ok (record m { pods = pods } ∷ rest))))
              (default_maintenance digits cluster dcs)
            ≡ and_then r (λ pods. and_then r' (λ rest. ok (record m { pods = pods } ∷ rest)))
      split (ok pods) e (ok rest) e' h = rw (entry_again m e, h) refl
      split (ok pods) e (err x) e' h = refl
      split (ok pods) e panic e' h = refl
      split (err x) e r' e' h = refl
      split panic e r' e' h = refl

with_defaults-twice :
    (parses : String → Bool) (images : Images) (c : ClusterSpec) (ms : List Maintenance)
    → with_defaults parses images (with_defaults parses images c ms) ms
      ≡ with_defaults parses images c ms
unfolding with_defaults default_cassandra default_reaper default_server_tls
with_defaults-twice parses images c ms = simp (
  or_text-twice, or_value-twice, fill_cassandra-twice, fill_reaper-twice, default_prober-twice,
  default_icarus-twice, default_client_tls-twice,
)

-- To set the defaults a second time changes nothing: the outcome is that of setting them once, also
-- where it is a panic.
pub default_cassandra_cluster-twice :
    (parses : String → Bool) (images : Images) (digits : ℕ → String) (c : ClusterSpec)
    → and_then
        (default_cassandra_cluster parses images digits c)
        (default_cassandra_cluster parses images digits)
      ≡ default_cassandra_cluster parses images digits c
unfolding default_cassandra_cluster with_defaults
default_cassandra_cluster-twice parses images digits c =
    split (default_maintenance digits c.name c.dcs c.maintenance)
      (default_maintenance-twice digits c.name c.dcs c.maintenance)
  where
    split :
        (r : Outcome (List Maintenance))
        → and_then r (default_maintenance digits c.name c.dcs) ≡ r
        → and_then (and_then r (λ ms. ok (with_defaults parses images c ms))) (λ c'.
          and_then
            (default_maintenance digits c'.name c'.dcs c'.maintenance)
            (λ ms. ok (with_defaults parses images c' ms)))
          ≡ and_then r (λ ms. ok (with_defaults parses images c ms))
    split (ok ms) h =
        ap
          (λ r.
            and_then r
              (λ ms'. ok (with_defaults parses images (with_defaults parses images c ms) ms')))
          h
        ∙ ap ok (with_defaults-twice parses images c ms)
    split (err e) h = refl
    split panic h = refl
