-- ===== src/Repairs/Plan.antt =====
-- What reconciling the repair schedules sends (repair_schedules.go), described without its loops.
use mr_cassop.Prelude.{
  ℕ, String, Bool, true, not, List, [], ◌∷◌, ◌++◌, any, ◌≡◌, if◌then◌else◌, arith, ok, Done,
  send_all, SameEffect, SameEffect-nil, SameEffect-append, eqb, subst, false, string_eq, Exec,
}
use mr_cassop.Prelude.Plans.{Follows-wrap}
use mr_cassop.Repairs.{
  Schedule, Repair, Call, stop, delete, Setting, same_repair, filter_operator_repair_schedules,
  repairs_to_delete, to_reaper_repair, repair_schedules_equal, sorted_repair,
  remove_repair_schedule, remove_all, update_existing, reconcile_repair, reconcile_repairs,
  reconcile_repair_schedules,
}
use mr_cassop.Repairs.Updates.{
  compared, replacements, if_missing, remove-plan, create-plan, sorted_twice, update_existing-plan,
  update_existing-sorted,
}

unfoldable pub removals : List Schedule → List Call
removals [] = []
removals (s ∷ ss) = stop s.id ∷ delete s.id ∷ [] ++ removals ss

abbrev pub calls_for : Setting → List Schedule → Repair → List Call
calls_for st existing r =
    replacements st r existing ++ if_missing st r (any (λ s. same_repair s r) existing)

unfoldable pub plan : Setting → List Schedule → List Repair → List Call
unfolding replacements
plan st existing [] = []
plan st existing (r ∷ rs) = calls_for st existing (compared existing r) ++ plan st existing rs

remove_all-plan :
    (st : Setting) (ss : List Schedule) (sent : List Call)
    → SameEffect (remove_all st ss sent) (send_all st.answer (removals ss) sent)
unfolding remove_all removals
remove_all-plan st [] sent = SameEffect-nil st.answer sent
remove_all-plan st (s ∷ ss) sent =
    SameEffect-append st.answer (remove_repair_schedule st s.id) (remove_all st ss)
      (stop s.id ∷ delete s.id ∷ []) (removals ss) sent (remove-plan st s.id sent)
      (λ t. remove_all-plan st ss t)

reconcile_repair-plan :
    (st : Setting) (existing : List Schedule) (r : Repair) (sent : List Call)
    → SameEffect
        (reconcile_repair st existing r sent)
        (send_all st.answer (calls_for st existing (compared existing r)) sent)
unfolding reconcile_repair update_existing replacements
reconcile_repair-plan st [] r sent = create-plan st r sent
reconcile_repair-plan st (s ∷ ss) r sent =
    subst
      (λ (m : Exec (List Call) Done).
        SameEffect (m sent) (send_all st.answer (calls_for st (s ∷ ss) (sorted_repair r)) sent))
      (update_existing-sorted st r false s ss)
      (update_existing-plan st (sorted_repair r) false (s ∷ ss) sent (sorted_twice r))

reconcile_repairs-plan :
    (st : Setting) (existing : List Schedule) (rs : List Repair) (sent : List Call)
    → SameEffect
        (reconcile_repairs st existing rs sent)
        (send_all st.answer (plan st existing rs) sent)
unfolding reconcile_repairs plan
reconcile_repairs-plan st existing [] sent = SameEffect-nil st.answer sent
reconcile_repairs-plan st existing (r ∷ rs) sent =
    SameEffect-append st.answer (reconcile_repair st existing r) (reconcile_repairs st existing rs)
      (calls_for st existing (compared existing r)) (plan st existing rs) sent
      (reconcile_repair-plan st existing r sent) (λ t. reconcile_repairs-plan st existing rs t)

-- Once the schedules could be read, reconciling them has the effect of sending, up to the first call
-- that fails: with schedules disabled, the removal of every schedule that the operator owns;
-- otherwise the removal of its schedules for repairs that are no longer asked for, and then for each
-- repair the replacement of its schedules that differ, and a new schedule if it has none. What is
-- created has its tables sorted as soon as the operator owns any schedule, and as written otherwise.
pub reconcile_repair_schedules-plan :
    (st : Setting) (schedules : List Schedule) (enabled : Bool) (desired : List Repair)
    (sent : List Call)
    → SameEffect (reconcile_repair_schedules st (ok schedules) enabled desired sent) (
        send_all st.answer
          (if not enabled
            then removals (filter_operator_repair_schedules schedules)
            else removals (repairs_to_delete (filter_operator_repair_schedules schedules) desired)
              ++ plan st (filter_operator_repair_schedules schedules) desired)
          sent)
unfolding reconcile_repair_schedules
reconcile_repair_schedules-plan st schedules true desired sent =
    SameEffect-append st.answer
      (remove_all st (repairs_to_delete (filter_operator_repair_schedules schedules) desired))
      (reconcile_repairs st (filter_operator_repair_schedules schedules) desired)
      (removals (repairs_to_delete (filter_operator_repair_schedules schedules) desired))
      (plan st (filter_operator_repair_schedules schedules) desired) sent
      (remove_all-plan st (repairs_to_delete (filter_operator_repair_schedules schedules) desired)
        sent)
      (λ t. reconcile_repairs-plan st (filter_operator_repair_schedules schedules) desired t)
reconcile_repair_schedules-plan st schedules false desired sent =
    let existing = filter_operator_repair_schedules schedules in
    Follows-wrap st.answer "failed to remove a repair schedule" (remove_all st existing)
      (removals existing) (λ t. remove_all-plan st existing t) sent

-- A schedule to which Reaper has given a number of segments never equals what is asked for, so it is
-- replaced in every pass.
pub repair_schedules_equal-segments :
    (parse_float : String → ℕ) (s : Schedule) (r : Repair)
    → eqb s.segment_count 0 ≡ false
    → repair_schedules_equal s (to_reaper_repair parse_float r) ≡ false
unfolding repair_schedules_equal to_reaper_repair
repair_schedules_equal-segments parse_float s r h = ground arith
