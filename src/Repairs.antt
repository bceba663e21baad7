-- ===== src/Repairs.antt =====
-- controllers/repair_schedules.go: the repair schedules of Reaper, brought in line with those that a
-- cluster asks for.
pub mod Updates
pub mod Plan
pub mod Weekdays
use mr_cassop.Prelude.{
  ℕ, ◌-◌, String, ◌<>◌, Bool, true, false, not, ◌&&◌, ◌||◌, Option, none, some, List, [], ◌∷◌, ◌++◌,
  any, is_empty, filterb, ◌==◌, string_eq, if◌then◌else◌, ltb, eqb, Error, Outcome, ok, err, panic,
  Done, Exec, pure, wrap, continue, ◌>>◌, Answer, send, rewrap,
}
use mr_cassop.Prelude.Order.{sort_strings}
use mr_cassop.Backups.{same_list, same_bool}

-- reaper.RepairSchedule, without its state; of the float `intensity` only equality is used.
pub record Schedule : Type 0 where
  pub id : String
  pub owner : String
  pub intensity : ℕ
  pub keyspace : String
  pub column_families : List String
  pub segment_count : ℕ
  pub parallelism : String
  pub days_between : ℕ
  pub datacenters : List String
  pub incremental : Bool
  pub tables : List String
  pub thread_count : ℕ

-- v1alpha1.RepairSchedule, the fields that are compared.
pub record Repair : Type 0 where
  pub keyspace : String
  pub tables : List String
  pub parallelism : String
  pub intensity : String
  pub incremental : Bool
  pub days_between : ℕ
  pub trigger_time : String
  pub datacenters : List String
  pub thread_count : ℕ

pub data Call : Type 0 where
  stop : String → Call
  delete : String → Call
  create : Repair → Call

abbrev pub owner_operator : String
owner_operator = "cassandra-operator"

-- What `sameRepair` leaves of the two that it compares: it sorts their tables in place.
abbrev pub sorted_schedule : Schedule → Schedule
sorted_schedule s = record s { tables = sort_strings s.tables }

abbrev pub sorted_repair : Repair → Repair
sorted_repair r = record r { tables = sort_strings r.tables }

unfoldable pub same_repair : Schedule → Repair → Bool
unfolding sort_strings
same_repair s r =
    s.keyspace == r.keyspace
    && (same_list (sort_strings s.tables) (sort_strings r.tables)
        || (is_empty r.tables && is_empty s.tables))

abbrev pub filter_operator_repair_schedules : List Schedule → List Schedule
filter_operator_repair_schedules = filterb (λ s. s.owner == owner_operator)

-- The tables that are sorted here are sorted again before they are used, and the removals need the
-- identifier only.
abbrev pub repairs_to_delete : List Schedule → List Repair → List Schedule
repairs_to_delete existing desired = filterb (λ s. not (any (same_repair s) desired)) existing

-- `parse_float` is `strconv.ParseFloat`, 0 where it fails.
unfoldable pub to_reaper_repair : (String → ℕ) → Repair → Schedule
to_reaper_repair parse_float r = record {
  id = "";
  owner = owner_operator;
  intensity = if r.intensity == "" then 0 else parse_float r.intensity;
  keyspace = r.keyspace;
  column_families = [];
  segment_count = 0;
  parallelism = r.parallelism;
  days_between = r.days_between;
  datacenters = r.datacenters;
  incremental = r.incremental;
  tables = r.tables;
  thread_count = r.thread_count;
}

-- `cmp.Equal` without `ID` and `State`
unfoldable pub repair_schedules_equal : Schedule → Schedule → Bool
repair_schedules_equal x y =
    (x.owner == y.owner && (eqb x.intensity y.intensity && x.keyspace == y.keyspace))
    && ((same_list x.column_families y.column_families
          && (eqb x.segment_count y.segment_count && x.parallelism == y.parallelism))
        && ((eqb x.days_between y.days_between
              && (same_list x.datacenters y.datacenters && same_bool x.incremental y.incremental))
            && (same_list x.tables y.tables && eqb x.thread_count y.thread_count)))

-- What the pass depends on: `rescheduleTimestamp` as a function of the trigger time.
pub record Setting : Type 0 where
  pub parse_float : String → ℕ
  pub reschedule : String → Outcome String
  pub answer : Answer Call

abbrev pub trigger_or_empty : Outcome String → String
trigger_or_empty (ok t) = t
trigger_or_empty (err e) = ""
trigger_or_empty panic = ""

abbrev pub rescheduled : Setting → Repair → Repair
rescheduled st r = record r { trigger_time = trigger_or_empty (st.reschedule r.trigger_time) }

unfoldable pub remove_repair_schedule : Setting → String → Exec (List Call) Done
remove_repair_schedule st id =
    wrap "failed to stop repair schedule" (send st.answer (stop id))
    >> wrap "failed to delete repair schedule" (send st.answer (delete id))

unfoldable pub create_repair_schedule : Setting → Repair → Exec (List Call) Done
create_repair_schedule st r =
    wrap "failed to create a repair schedule" (send st.answer (create (rescheduled st r)))

unfoldable pub remove_all : Setting → List Schedule → Exec (List Call) Done
unfolding remove_repair_schedule
remove_all st [] = pure tt
remove_all st (s ∷ ss) = remove_repair_schedule st s.id >> remove_all st ss

-- The inner loop, over the existing schedules, for one desired repair, and what follows it. From the
-- first comparison on, the tables of the repair are sorted, and those are sent to Reaper.
unfoldable pub update_existing : Setting → Repair → Bool → List Schedule → Exec (List Call) Done
unfolding remove_repair_schedule create_repair_schedule same_repair repair_schedules_equal
update_existing st r found [] sent =
    if found
    then (ok tt, sent)
    else wrap "failed to create a repair schedule" (create_repair_schedule st r) sent
update_existing st r found (s ∷ ss) sent =
    let same = same_repair s r in
    let wanted = sorted_repair r in
    let next = update_existing st wanted (found || same) ss in
    if same
      && not (repair_schedules_equal (sorted_schedule s) (to_reaper_repair st.parse_float wanted))
    then (remove_repair_schedule st s.id
          >> (wrap "failed to create a repair schedule" (create_repair_schedule st wanted) >> next))
        sent
    else next sent

unfoldable pub reconcile_repair : Setting → List Schedule → Repair → Exec (List Call) Done
unfolding update_existing
reconcile_repair st existing r = update_existing st r false existing

unfoldable pub reconcile_repairs : Setting → List Schedule → List Repair → Exec (List Call) Done
unfolding reconcile_repair
reconcile_repairs st existing [] = pure tt
reconcile_repairs st existing (r ∷ rs) =
    reconcile_repair st existing r >> reconcile_repairs st existing rs

unfoldable pub reconcile_repair_schedules :
    Setting → Outcome (List Schedule) → Bool → List Repair → Exec (List Call) Done
unfolding remove_all reconcile_repairs
reconcile_repair_schedules st schedules enabled desired sent =
    continue (rewrap "failed to get repair schedules" schedules)
      (λ all.
        let existing = filter_operator_repair_schedules all in
        if not enabled
        then wrap "failed to remove a repair schedule" (remove_all st existing)
        else remove_all st (repairs_to_delete existing desired)
          >> reconcile_repairs st existing desired)
      sent

-- `checkSunday`
unfoldable pub check_sunday : ℕ → ℕ
check_sunday day = if eqb day 0 then 7 else day

-- The days that `rescheduleTimestamp` adds to today, from the weekdays of now and of the trigger
-- time (0 is Sunday) and whether the time of day of the trigger is behind that of now.
unfoldable pub date_shift : ℕ → ℕ → Bool → ℕ
unfolding check_sunday
date_shift now trigger behind =
    let dow_now = check_sunday now in
    let dow_trigger = check_sunday trigger in
    if ltb dow_trigger dow_now
    then 7 - (dow_now - dow_trigger)
    else if ltb dow_now dow_trigger
    then dow_trigger - dow_now
    else if behind
    then 7
    else 0
