-- ===== src/Keyspaces.antt =====
-- controllers/keyspaces.go: the replication of the keyspaces that the operator looks after.
pub mod Options
pub mod Plan
use mr_cassop.Prelude.{
  ℕ, String, ◌<>◌, Bool, true, false, not, ◌&&◌, Option, none, some, List, [], ◌∷◌, ◌++◌, is_empty,
  all, ◌==◌, string_eq, option_eq, contains, find?, if◌then◌else◌, ltb, Error, message, Outcome, ok,
  err, panic, Done, Exec, pure, raise, wrap, continue, ◌>>=◌, ◌>>◌, Answer, send, rewrap, and_then,
}
use mr_cassop.Prelude.Dict.{Dict, lookup, insert}
use mr_cassop.Cluster.{Cluster, Dc, SystemKeyspaceDc}

abbrev pub Options : Type 0
Options = Dict String String

-- cql.Keyspace
pub record Keyspace : Type 0 where
  pub name : String
  pub replication : Options

abbrev pub default_rf : ℕ
default_rf = 3

abbrev pub system_auth : String
system_auth = "system_auth"

abbrev pub strategy : String
strategy = "org.apache.cassandra.locator.NetworkTopologyStrategy"

abbrev pub keyspace_exists : List String → String → Bool
keyspace_exists = contains

unfoldable pub add_missing : List String → List String → List String
add_missing ks [] = ks
add_missing ks (k ∷ more) = add_missing (if keyspace_exists ks k then ks else ks ++ k ∷ []) more

unfoldable pub desired_keyspaces_to_reconcile : Cluster → List String
unfolding add_missing
desired_keyspaces_to_reconcile c =
    add_missing (system_auth ∷ "system_distributed" ∷ "system_traces" ∷ c.reaper_keyspace ∷ [])
      c.system_keyspaces

abbrev pub get_keyspace_by_name : List Keyspace → String → Option Keyspace
get_keyspace_by_name ks name = find? (λ k. k.name == name) ks

-- The default factor of a DC.
unfoldable pub rf_of : Dc → ℕ
rf_of dc = elim dc.replicas [
  | none ↦ default_rf
  | some n ↦ if ltb n default_rf then n else default_rf
]

module _ (digits : ℕ → String) where
  unfoldable pub configured_options : List SystemKeyspaceDc → Options → Options
  configured_options [] m = m
  configured_options (dc ∷ dcs) m = configured_options dcs (insert dc.name (digits dc.rf) m)

  unfoldable pub default_options : List Dc → Options → Options
  unfolding rf_of
  default_options [] m = m
  default_options (dc ∷ dcs) m = default_options dcs (insert dc.name (digits (rf_of dc)) m)

  unfoldable pub desired_replication_options : Cluster → String → List Dc → Options
  unfolding configured_options default_options
  desired_replication_options c keyspace all_dcs = insert "class" strategy (
      if not (is_empty c.system_keyspace_dcs) && keyspace_exists c.system_keyspaces keyspace
      then configured_options c.system_keyspace_dcs []
      else default_options all_dcs [])

-- `cmp.Equal` of two maps.
unfoldable pub covers : Options → Options → Bool
covers a [] = true
covers a ((k, v) ∷ b) = (lookup k a == some v) && covers a b

abbrev pub same_options : Options → Options → Bool
same_options a b = covers a b && covers b a

pub data Call : Type 0 where
  update_rf : String → Options → Call
  run_repair : String → Call

module _ (digits : ℕ → String) (answer : Answer Call) where
  unfoldable pub alter_keyspace : Options → String → Option Keyspace → Exec (List Call) Done
  unfolding covers
  alter_keyspace desired ks none sent = (ok tt, sent)
  alter_keyspace desired ks (some info) sent =
      if same_options info.replication desired
      then (ok tt, sent)
      else (wrap ("failed to alter \"" <> (ks <> "\" keyspace"))
              (send answer (update_rf ks desired))
            >> wrap ("failed to run repair on \"" <> (ks <> "\" keyspace"))
                (send answer (run_repair ks)))
          sent

  -- One turn of the loop.
  unfoldable pub reconcile_keyspace :
      Cluster → List Dc → List Keyspace → String → Exec (List Call) Done
  unfolding alter_keyspace
  reconcile_keyspace c all_dcs current ks =
      alter_keyspace (desired_replication_options digits c ks all_dcs) ks
        (get_keyspace_by_name current ks)

  unfoldable pub reconcile_each :
      Cluster → List Dc → List Keyspace → List String → Exec (List Call) Done
  reconcile_each c all_dcs current [] = pure tt
  reconcile_each c all_dcs current (ks ∷ rest) =
      reconcile_keyspace c all_dcs current ks >> reconcile_each c all_dcs current rest

  -- `GetKeyspacesInfo` is a read.
  unfoldable pub reconcile_keyspaces :
      Outcome (List Keyspace) → Cluster → List Dc → Exec (List Call) Done
  reconcile_keyspaces keyspaces_info c all_dcs sent =
      continue (rewrap "can't get keyspace info" keyspaces_info)
        (λ current. reconcile_each c all_dcs current (desired_keyspaces_to_reconcile c)) sent

  -- `reaper_running` is the answer of `IsRunning`.
  unfoldable pub reconcile_system_auth_keyspace :
      Outcome (List Keyspace) → Outcome Bool → Cluster → List Dc → Exec (List Call) Done
  unfolding covers
  reconcile_system_auth_keyspace keyspaces_info reaper_running c all_dcs sent =
      continue (rewrap "can't get keyspace info" keyspaces_info)
        (λ current. elim (get_keyspace_by_name current system_auth) [
          | none ↦ raise (message "keyspace system_auth doesn't exist")
          | some info ↦
              let desired = desired_replication_options digits c system_auth all_dcs in
              if same_options info.replication desired
              then pure tt
              else wrap "failed to alter system_auth keyspace"
                  (send answer (update_rf system_auth desired))
                >> elim reaper_running [
                  | ok true ↦
                      wrap "Can't run repair for system_auth keyspace"
                        (send answer (run_repair system_auth))
                  | _ ↦ pure tt
                ]
        ])
        sent
