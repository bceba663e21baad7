-- ===== src/Repairs/Weekdays.antt =====
-- The day to which a trigger time in the past is moved (repair_schedules.go `rescheduleTimestamp`).
use Prim.Native.Nat.{◌%◌}
use mr_cassop.Prelude.{ℕ, ◌+◌, ◌≤◌, ◌<◌, Bool, ◌≡◌, if◌then◌else◌, arith}
use mr_cassop.Repairs.{check_sunday, date_shift}

-- A trigger time in the past is moved to its own weekday, at most a week from today, and to a later
-- day than today if its time of day has passed.
pub date_shift_lem :
    (now trigger : ℕ) (behind : Bool)
    → now < 7
    → trigger < 7
    → ((now + date_shift now trigger behind) % 7 ≡ trigger)
      × (date_shift now trigger behind ≤ 7)
      × ((if behind then 1 else 0) ≤ date_shift now trigger behind)
unfolding date_shift check_sunday
date_shift_lem now trigger behind h k = ground arith
