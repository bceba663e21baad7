-- ===== src/Tests/DatabaseTests.antt =====
-- Keyspaces, roles and repair schedules at concrete inputs.
use mr_cassop.Prelude.{
  ℕ, String, true, false, not, ◌&&◌, Option, none, some, List, [], ◌∷◌, ◌++◌, is_empty, ◌≡◌, refl,
  ◌==◌, string_eq, if◌then◌else◌, eqb, Outcome, ok, err, message, Done, send_all, SameEffect,
}
use mr_cassop.Prelude.Dict.{Dict, lookup}
use mr_cassop.Prelude.Order.{sort_strings, string_leb, codes_leb, codes}
use mr_cassop.Cluster.Samples.{cluster}
use mr_cassop.Keyspaces.{
  Keyspace, desired_keyspaces_to_reconcile, desired_replication_options, keyspace_exists, rf_of,
  strategy, reconcile_keyspaces,
}
use mr_cassop.Keyspaces.Options.{last_named, lookup-desired_replication_options}
use mr_cassop.Keyspaces.Plan.{plan, reconcile_keyspaces-plan}
use mr_cassop.Roles
use mr_cassop.Roles.{Role, CqlRole, Secret}
use mr_cassop.Roles.Plan as RolesPlan
use mr_cassop.Repairs
use mr_cassop.Repairs.{stop, delete, create, Setting, Schedule, Repair, date_shift}
use mr_cassop.Repairs.Plan as RepairsPlan

abbrev digits : ℕ → String
digits n = if eqb n 3 then "3" else "1"

abbrev current : List Keyspace
current = record { name = "system_auth"; replication = ("class", "SimpleStrategy") ∷ [] } ∷ []

abbrev deny_second : {C : Type 0} → List C → C → Outcome Done
deny_second [] c = ok tt
deny_second (_ ∷ _) c = err (message "down")

reconcile_keyspaces-plan_example :
    SameEffect (reconcile_keyspaces digits deny_second (ok current) cluster cluster.dcs []) (
      send_all deny_second
        (plan digits cluster cluster.dcs current (desired_keyspaces_to_reconcile cluster))
        [])
reconcile_keyspaces-plan_example =
    reconcile_keyspaces-plan digits deny_second cluster cluster.dcs current []

lookup-desired_replication_options_example :
    lookup "dc1" (desired_replication_options digits cluster "system_auth" cluster.dcs) ≡ (
      if ◌==◌ {A = String} "dc1" "class"
      then some strategy
      else if not (is_empty cluster.system_keyspace_dcs)
          && keyspace_exists cluster.system_keyspaces "system_auth"
      then last_named (λ d. d.name) (λ d. digits d.rf) "dc1" cluster.system_keyspace_dcs
      else last_named (λ d. d.name) (λ d. digits (rf_of d)) "dc1" cluster.dcs)
lookup-desired_replication_options_example =
    lookup-desired_replication_options digits cluster "system_auth" cluster.dcs "dc1"

abbrev alice : Role
alice = record { name = "alice"; password = "p"; super = none; login = none; delete = false }

abbrev bob : Role
bob = record { name = "bob"; password = "p"; super = none; login = none; delete = true }

abbrev bob_in_cassandra : List CqlRole
bob_in_cassandra = record { role = "bob"; password = ""; super = false; login = true } ∷ []

reconcile_roles_in_cassandra-plan_example :
    SameEffect
      (Roles.reconcile_roles_in_cassandra deny_second (ok bob_in_cassandra) (alice ∷ bob ∷ []) [])
      (send_all deny_second (RolesPlan.plan bob_in_cassandra (alice ∷ bob ∷ [])) [])
reconcile_roles_in_cassandra-plan_example =
    RolesPlan.reconcile_roles_in_cassandra-plan deny_second bob_in_cassandra (alice ∷ bob ∷ []) []

abbrev unmarshal : String → Option Role
unmarshal text = some (record alice { password = text })

abbrev sha : Dict String String → String
sha d = elim d [ [] ↦ "0" | _ ∷ _ ↦ "1" ]

abbrev roles_secret : Secret
roles_secret = record { data_of = ("a", "secret") ∷ []; annotations = [] }

abbrev setting : Setting
setting = record { parse_float = λ s. 1; reschedule = λ t. ok t; answer = deny_second }

abbrev repair : Repair
repair = record {
  keyspace = "ks";
  tables = "t2" ∷ "t1" ∷ [];
  parallelism = "PARALLEL";
  intensity = "";
  incremental = false;
  days_between = 7;
  trigger_time = "";
  datacenters = [];
  thread_count = 1;
}

abbrev schedule : Schedule
schedule = record {
  id = "1";
  owner = "cassandra-operator";
  intensity = 0;
  keyspace = "ks";
  column_families = [];
  segment_count = 16;
  parallelism = "PARALLEL";
  days_between = 7;
  datacenters = [];
  incremental = false;
  tables = "t1" ∷ "t2" ∷ [];
  thread_count = 1;
}

-- The tables were sorted when the two were compared, and the number of segments differs.
replaced :
    RepairsPlan.plan setting (schedule ∷ []) (repair ∷ [])
    ≡ stop "1" ∷ delete "1" ∷ create (record repair { tables = "t1" ∷ "t2" ∷ [] }) ∷ []
unfolding RepairsPlan.plan Repairs.same_repair Repairs.repair_schedules_equal sort_strings string_eq
    Repairs.to_reaper_repair string_leb codes_leb codes
replaced = refl

reconcile_repair_schedules-plan_example :
    SameEffect
      (Repairs.reconcile_repair_schedules setting (ok (schedule ∷ [])) true (repair ∷ []) [])
      (send_all deny_second
        (RepairsPlan.removals (
            Repairs.repairs_to_delete
              (Repairs.filter_operator_repair_schedules (schedule ∷ []))
              (repair ∷ []))
          ++ RepairsPlan.plan setting
              (Repairs.filter_operator_repair_schedules (schedule ∷ []))
              (repair ∷ []))
        [])
reconcile_repair_schedules-plan_example =
    RepairsPlan.reconcile_repair_schedules-plan setting (schedule ∷ []) true (repair ∷ []) []
