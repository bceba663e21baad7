-- ===== src/Jobs.antt =====
-- controllers/jobs/manager.go: the job manager. A state holds the list of jobs under the lock and,
-- beside it, the goroutines that `Run` has started and that have not recorded their end yet.
pub mod Tracking
use mr_cassop.Prelude.{
  ℕ, zero, suc, ◌+◌, String, ◌<>◌, Bool, true, false, Option, none, some, List, [], ◌∷◌, ◌++◌,
  Error, message, Outcome, ok, err, Done, string_eq,
}
use mr_cassop.Prelude.Dict.{Dict, lookup, insert, erase}

-- `finished` is the time at which the job ended, `none` for Go's zero time.
pub record Job : Type 0 where
  pub finished : Option ℕ
  pub exit_err : Option Error

pub record Manager : Type 0 where
  pub jobs_list : Dict String Job
  pub goroutines : List String
  pub notifications : ℕ

-- `NewJobManager`
abbrev pub new_job_manager : Manager
new_job_manager = record { jobs_list = []; goroutines = []; notifications = 0 }

-- `Run`: the check under the lock, and the goroutine that runs the function.
unfoldable pub run : String → Manager → Outcome Done × Manager
run name m = elim (lookup name m.jobs_list) [
  | some _ ↦ (err (message ("job " <> name <> " already exists")), m)
  | none ↦ (ok tt, record m { goroutines = name ∷ m.goroutines })
]

unfoldable pub exists : String → Manager → Bool
exists name m = elim (lookup name m.jobs_list) [ none ↦ false | some _ ↦ true ]

abbrev is_zero : Option ℕ → Bool
is_zero none = true
is_zero (some _) = false

unfoldable pub is_running : String → Manager → Bool
is_running name m = elim (lookup name m.jobs_list) [ none ↦ false | some j ↦ is_zero j.finished ]

unfoldable pub remove_job : String → Manager → Outcome Done × Manager
remove_job name m = elim (lookup name m.jobs_list) [
  | none ↦ (ok tt, m)
  | some j ↦ elim j.finished [
    | none ↦ (
      err (message ("job " <> name <> " is still running, removing running jobs is not allowed")),
      m,
    )
    | some _ ↦ (ok tt, record m { jobs_list = erase name m.jobs_list })
  ]
]

-- What the inner goroutine writes when the function has returned at time `now`.
unfoldable pub record_end : String → ℕ → Option Error → Manager → Manager
record_end name now exit_err m = elim (lookup name m.jobs_list) [
  | none ↦ m
  | some _ ↦ record m {
    jobs_list = insert name (record { finished = some now; exit_err = exit_err }) m.jobs_list;
  }
]

remove_at : ℕ → List String → List String
remove_at n [] = []
remove_at zero (x ∷ xs) = xs
remove_at (suc n) (x ∷ xs) = x ∷ remove_at n xs

name_at : ℕ → List String → Option String
name_at n [] = none
name_at zero (x ∷ xs) = some x
name_at (suc n) (x ∷ xs) = name_at n xs

-- What can happen to a manager: a caller runs or removes a job, or one of the goroutines ends,
-- records its end and has the object of its job reconciled.
pub data Event : Type 0 where
  run_event : String → Event
  remove_event : String → Event
  end_event : ℕ → ℕ → Option Error → Event

end_of : Option String → ℕ → ℕ → Option Error → Manager → Manager
unfolding record_end remove_at
end_of none i now exit_err m = m
end_of (some name) i now exit_err m =
    let m' = record_end name now exit_err m in
    record m' { goroutines = remove_at i m'.goroutines; notifications = m'.notifications + 1 }

unfoldable pub step : Event → Manager → Manager
unfolding run remove_job name_at end_of
step (run_event name) m = (run name m).1
step (remove_event name) m = (remove_job name m).1
step (end_event i now exit_err) m = end_of (name_at i m.goroutines) i now exit_err m

unfoldable pub steps : List Event → Manager → Manager
steps [] m = m
steps (e ∷ es) m = steps es (step e m)
