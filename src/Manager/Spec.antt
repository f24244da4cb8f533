-- ===== src/Manager/Spec.antt =====
-- The manager's promise, over the abstract map of jobs and the active processes.
use kiwibes.Prelude.{ℕ, String, none, some, List, [], ◌∷◌, Bool, true, false, if◌then◌else◌, ◌≡◌}
use kiwibes.Prelude.Int.{pos, leb_ℤ}
use kiwibes.Errors.{KiwibesError, no_error, job_name_unknown, process_launch_failed}
use kiwibes.Exec.{Result, ok}
use kiwibes.Map
use kiwibes.Map.{Map}
use kiwibes.Platform.{Platform}
use kiwibes.Database.Spec.{Jobs, Stores, spec_started, spec_stopped, spec_incr, spec_decr}
use kiwibes.Manager.{Manager, Handle, Fork, in_parent, Report, has_ended, name_of}

module _ ⦃P : Platform⦄ where
  pub record System : Type 0 where
    pub active : Map Handle
    pub jobs : Jobs

  pub record Runs (m : Manager) (s : System) : Type 0 where
    pub active : m.active_jobs ≡ s.active
    pub stored : Stores m.database s.jobs

  -- The operation has ended without an exception, with the value and the system of the abstract one.
  pub record Implements {A : Type 0} (r : Result A × Manager) (spec : A × System) : Type 0 where
    pub result : r.0 ≡ ok spec.0
    pub after : Runs r.1 spec.1

  abbrev pub with_jobs : {A : Type 0} → System → A × Jobs → A × System
  with_jobs s r = (r.0, record s { jobs = r.1 })

  -- A known job after a launch, and whether it has been launched.
  abbrev pub spec_launch : String → Fork → ℕ → System → Bool × System
  spec_launch name (in_parent pid) now s = (
    true,
    record { active = Map.insert name (pos pid) s.active; jobs = (spec_started now name s.jobs).1 },
  )
  spec_launch name _ now s = (false, s)

  abbrev pub launch_error : Bool → KiwibesError
  launch_error true = no_error
  launch_error false = process_launch_failed

  unfoldable pub spec_start_job : String → Fork → ℕ → System → KiwibesError × System
  spec_start_job name fork now s = elim (Map.find name s.active) [
    | some handle ↦ with_jobs s (spec_incr name s.jobs)
    | none ↦ elim (s.jobs name) [
      | none ↦ (job_name_unknown, s)
      | some job ↦ (launch_error (spec_launch name fork now s).0, (spec_launch name fork now s).1)
    ]
  ]

  -- The job is stopped and no longer active, and is launched again if a start was queued.
  abbrev pub spec_freed : String → ℕ → System → System
  spec_freed name now s = record {
    active = Map.erase name s.active;
    jobs = (spec_stopped now name s.jobs).1;
  }

  unfoldable pub spec_job_ended : String → Report → System → System
  spec_job_ended name r s =
      let freed = spec_freed name r.stopped_at s in
      let (left, jobs) = spec_decr name freed.jobs in
      if leb_ℤ (pos 0) left
      then (spec_launch name r.fork r.started_at (record freed { jobs = jobs })).1
      else record freed { jobs = jobs }

  unfoldable pub spec_reap : Report → System → System
  spec_reap r s = elim (name_of r.pid s.active) [
    | none ↦ s
    | some name ↦ if has_ended r.status then spec_job_ended name r s else s
  ]

  unfoldable pub spec_watch : List Report → System → System
  spec_watch [] s = s
  spec_watch (r ∷ rs) s = spec_watch rs (spec_reap r s)
