-- ===== src/Jobs/Tracking.antt =====
-- What the manager knows of the jobs that it runs.
use mr_cassop.Prelude.{
  ℕ, String, ◌≡◌, refl, false, Option, none, some, List, [], ◌∷◌, arith, Error, ok, is_ok, not,
  ◌&&◌, string_eq, ◌==◌, if◌then◌else◌,
}
use mr_cassop.Prelude.Dict.{lookup, lookup-insert, lookup-erase}
use mr_cassop.Jobs.{
  Job, Manager, new_job_manager, run, exists, is_running, remove_job, record_end, Event, run_event,
  remove_event, end_event, step, steps,
}

-- Removing a job fails exactly while it runs, and then changes nothing. Otherwise the job is gone,
-- and every other job is as it was.
pub remove_job_lem :
    (name other : String) (m : Manager)
    → (is_ok (remove_job name m).0 ≡ not (is_running name m))
      × (lookup other (remove_job name m).1.jobs_list
          ≡ (if not (is_running name m) && (other == name) then none else lookup other m.jobs_list))
unfolding remove_job is_running
remove_job_lem name other m = (ground arith, ground (arith, lookup-erase other name m.jobs_list))

-- The end of a goroutine is recorded only for a job in the list, and makes that job not running.
pub record_end_lem :
    (name : String) (now : ℕ) (exit_err : Option Error) (m : Manager)
    → (exists name (record_end name now exit_err m) ≡ exists name m)
      × (is_running name (record_end name now exit_err m) ≡ false)
unfolding record_end is_running exists
record_end_lem name now exit_err m =
    let j : Job = record { finished = some now; exit_err = exit_err } in
    (
      ground (arith, lookup-insert name name j m.jobs_list),
      ground (arith, lookup-insert name name j m.jobs_list),
    )

step-empty : (e : Event) (m : Manager) → m.jobs_list ≡ [] → (step e m).jobs_list ≡ []
unfolding step lookup
step-empty (run_event name) m h = ground arith
step-empty (remove_event name) m h = ground arith
step-empty (end_event i now exit_err) m h = ground arith

steps-empty : (es : List Event) (m : Manager) → m.jobs_list ≡ [] → (steps es m).jobs_list ≡ []
unfolding steps
steps-empty [] m h = h
steps-empty (e ∷ es) m h = steps-empty es (step e m) (step-empty e m h)

-- The manager never tracks a job: after any sequence of events, no job exists, none is running,
-- and `Run` starts one more goroutine for any name, also for one that a goroutine is running.
pub steps-untracked :
    (es : List Event) (name : String)
    → let m = steps es new_job_manager in
      (exists name m ≡ false)
      × (is_running name m ≡ false)
      × ((run name m).0 ≡ ok tt)
      × ((run name m).1.goroutines ≡ name ∷ m.goroutines)
unfolding exists is_running run lookup
steps-untracked es name =
    let h = steps-empty es new_job_manager refl in
    (ground arith, ground arith, ground arith, ground arith)
