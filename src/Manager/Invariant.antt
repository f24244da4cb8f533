-- ===== src/Manager/Invariant.antt =====
-- The active processes and the jobs that the database calls running are the same.
use kiwibes.Prelude.{
  ℕ, String, ◌≡◌, ◌∙◌, Option, none, some, List, [], ◌∷◌, Bool, true, false, arith, if◌then◌else◌,
  Option-cases, Bool-cases, inl, inr, ◌==◌, eq_iff, eq_refl,
}
use kiwibes.Prelude.Int.{pos, leb_ℤ}
use kiwibes.Map
use kiwibes.Map.{Map, find-insert, find-erase}
use kiwibes.Exec.{ok}
use kiwibes.Errors.{KiwibesError}
use kiwibes.Platform.{Platform}
use kiwibes.Platform.Laws.{PlatformLaws}
use kiwibes.Database.Spec.{Job, Jobs, spec_started, spec_stopped, spec_incr, spec_decr}
use kiwibes.Manager.{Manager, Handle, Fork, in_parent, Report, has_ended, name_of, start_job, watch}
use kiwibes.Manager.Spec.{
  System, Runs, spec_launch, spec_start_job, spec_job_ended, spec_reap, spec_watch, spec_freed,
}
use kiwibes.Manager.Refinement.{start_job-Implements}
use kiwibes.Manager.Refinement.Ends.{watch-Implements, known_of_left}

module _ ⦃P : Platform⦄ where
  abbrev pub is_running : Option Job → Bool
  is_running none = false
  is_running (some job) = job.running

  abbrev pub is_active : Option Handle → Bool
  is_active none = false
  is_active (some handle) = true

  pub record IsSynced (s : System) : Type 0 where
    pub at_name : (name : String) → is_running (s.jobs name) ≡ is_active (Map.find name s.active)

  -- The counting of requests leaves who runs.
  is_running-incr :
      (name n : String) (js : Jobs) → is_running ((spec_incr name js).1 n) ≡ is_running (js n)
  unfolding spec_incr
  is_running-incr name n js = ground (arith, eq_iff name n)

  is_running-decr :
      (name n : String) (js : Jobs) → is_running ((spec_decr name js).1 n) ≡ is_running (js n)
  unfolding spec_decr
  is_running-decr name n js = ground (arith, eq_iff name n)

  is_running-stopped :
      (now : ℕ) (name n : String) (js : Jobs)
      → is_running ((spec_stopped now name js).1 n)
        ≡ (if name == n then false else is_running (js n))
  unfolding spec_stopped
  is_running-stopped now name n js = ground (arith, eq_iff name n)

  is_running-started :
      (now : ℕ) (name n : String) (js : Jobs) (job : Job)
      → js name ≡ some job
      → is_running ((spec_started now name js).1 n)
        ≡ (if name == n then true else is_running (js n))
  unfolding spec_started
  is_running-started now name n js job e = ground (arith, eq_iff name n)

  spec_launch-IsSynced :
      (name : String) (fork : Fork) (now : ℕ) (s : System) (job : Job)
      → s.jobs name ≡ some job
      → Map.find name s.active ≡ none
      → IsSynced s
      → IsSynced (spec_launch name fork now s).1
  spec_launch-IsSynced name (in_parent pid) now s job e a h = record {
    at_name = λ n. ground (
      arith,
      is_running-started now name n s.jobs job e,
      find-insert name n (pos pid) s.active a,
      h.at_name n,
    );
  }
  spec_launch-IsSynced name _ now s job e a h = h

  -- Starting keeps the active processes and the running jobs the same.
  spec_start_job-IsSynced :
      (name : String) (fork : Fork) (now : ℕ) (s : System)
      → IsSynced s
      → IsSynced (spec_start_job name fork now s).1
  unfolding spec_start_job
  spec_start_job-IsSynced name fork now s h = elim (Option-cases (Map.find name s.active)) [
    | inr (handle, e) ↦
        rw (e, spec_start_job)
          (record { at_name = λ n. ground (arith, is_running-incr name n s.jobs, h.at_name n) })
    | inl e ↦ elim (Option-cases (s.jobs name)) [
      | inl u ↦ rw (e, u, spec_start_job) h
      | inr (job, k) ↦ rw (e, k, spec_start_job) (spec_launch-IsSynced name fork now s job k e h)
    ]
  ]

  freed-IsSynced :
      (name : String) (now : ℕ) (s : System)
      → IsSynced s
      → IsSynced (record (spec_freed name now s) {
        jobs = (spec_decr name (spec_freed name now s).jobs).1;
      })
  freed-IsSynced name now s h = record {
    at_name = λ n. ground (
      arith,
      is_running-decr name n (spec_stopped now name s.jobs).1,
      is_running-stopped now name n s.jobs,
      find-erase name n s.active,
      h.at_name n,
    );
  }

  spec_job_ended-IsSynced :
      (name : String) (r : Report) (s : System) → IsSynced s → IsSynced (spec_job_ended name r s)
  unfolding spec_job_ended
  spec_job_ended-IsSynced name r s h =
      let js = (spec_freed name r.stopped_at s).jobs in
      let synced = freed-IsSynced name r.stopped_at s h in
      elim (Bool-cases (leb_ℤ (pos 0) (spec_decr name js).0)) [
        | inr less ↦ rw less synced
        | inl more ↦
            let (job, e) = known_of_left name js more in
            rw more (
              spec_launch-IsSynced name r.fork r.started_at
                (record (spec_freed name r.stopped_at s) { jobs = (spec_decr name js).1 }) job e
                (find-erase name name s.active ∙ rw (eq_refl name)) synced)
      ]

  spec_reap-IsSynced : (r : Report) (s : System) → IsSynced s → IsSynced (spec_reap r s)
  unfolding spec_reap
  spec_reap-IsSynced r s h = elim (Option-cases (name_of r.pid s.active)) [
    | inl e ↦ rw (e, spec_reap) h
    | inr (name, e) ↦ elim (Bool-cases (has_ended r.status)) [
      | inl ended ↦ rw (e, ended, spec_reap) (spec_job_ended-IsSynced name r s h)
      | inr stays ↦ rw (e, stays, spec_reap) h
    ]
  ]

  spec_watch-IsSynced : (rs : List Report) (s : System) → IsSynced s → IsSynced (spec_watch rs s)
  unfolding spec_watch
  spec_watch-IsSynced [] s h = h
  spec_watch-IsSynced (r ∷ rs) s h =
      spec_watch-IsSynced rs (spec_reap r s) (spec_reap-IsSynced r s h)

  -- The database stands for a map of jobs, and the active processes are those of its running jobs.
  pub record IsManaged (m : Manager) : Type 0 where
    pub system : System
    pub runs : Runs m system
    pub synced : IsSynced system

  module _ (L : PlatformLaws P) where
    -- If a manager's database stands for a map of jobs and exactly the jobs that it calls running
    -- are active, then `start_job` of any name, whatever `fork` returns, ends with an error code
    -- and no exception and leaves it so.
    pub start_job-IsManaged :
        (name : String) (fork : Fork) (now : ℕ) (m : Manager)
        → IsManaged m
        → ((e : KiwibesError) × ((start_job name fork now m).0 ≡ ok e))
          × IsManaged (start_job name fork now m).1
    start_job-IsManaged name fork now m h =
        let i = start_job-Implements L name fork now m h.system h.runs in
        (
          (_, i.result),
          record {
            system = (spec_start_job name fork now h.system).1;
            runs = i.after;
            synced = spec_start_job-IsSynced name fork now h.system h.synced;
          },
        )

    -- If a manager's database stands for a map of jobs and exactly the jobs that it calls running
    -- are active, then a turn of the watcher thread over any results of `waitpid`, with any results
    -- of the relaunches, ends without an exception and leaves it so.
    pub watch-IsManaged :
        (rs : List Report) (m : Manager)
        → IsManaged m
        → ((watch rs m).0 ≡ ok tt) × IsManaged (watch rs m).1
    watch-IsManaged rs m h =
        let i = watch-Implements L rs m h.system h.runs in
        (
          i.result,
          record {
            system = spec_watch rs h.system;
            runs = i.after;
            synced = spec_watch-IsSynced rs h.system h.synced;
          },
        )
