-- ===== src/Interleaving/Orphans.antt =====
-- A job that another thread deletes while it is being started: its process runs on, and nobody knows
-- it. `start_job` holds the lock of the manager, and that of the database only inside each call.
use kiwibes.Prelude.{ℕ, String, ◌≡◌, refl, ◌∙◌, ap, none, some, true, false, arith, eq_refl}
use kiwibes.Prelude.Int.{pos}
use kiwibes.Errors.{no_error, job_name_unknown}
use kiwibes.Exec.{ok}
use kiwibes.Map
use kiwibes.Map.{find-insert, count-some, count_absent}
use kiwibes.Platform.{Platform, is_plain}
use kiwibes.Platform.Laws.{PlatformLaws}
use kiwibes.Database.Changes.{delete_job}
use kiwibes.Database.Runs.{job_started}
use kiwibes.Database.Spec.{Job, Jobs, Stores, spec_delete, spec_started, spec_incr}
use kiwibes.Database.Refinement.Starts.{job_started-Refines, job_incr-Refines}
use kiwibes.Database.Refinement.Deletions.{delete_job-Refines}
use kiwibes.Database.Refinement.Queries.{get_job_description-known, get_job_description-unknown}
use kiwibes.Manager
use kiwibes.Manager.{Manager, Handle, Fork, in_parent, on_database, launch_job_process}
use kiwibes.Interleaving.{◌>>=◌, Runs, ended, interrupted, proceeds}
use kiwibes.Interleaving.Operations.{start_job, start_known, launch, record_launch}
use kiwibes.Interleaving.Others.{Change, deletes}

module _ ⦃P : Platform⦄ where
  open P use {null}

  -- The process of the job is active, and the database does not know the job.
  pub record IsOrphan (name : String) (handle : Handle) (m : Manager) : Type 0 where
    pub jobs : Jobs
    pub stored : Stores m.database jobs
    pub unknown : jobs name ≡ none
    pub active : Map.find name m.active_jobs ≡ some handle

  -- A stop and another start of the job are refused, and leave the active processes.
  abbrev pub IsRefused : String → Manager → Fork → ℕ → Type 0
  IsRefused name m fork now =
      (Manager.stop_job name m ≡ (ok job_name_unknown, m))
      × ((Manager.start_job name fork now m).0 ≡ ok job_name_unknown)
      × ((Manager.start_job name fork now m).1.active_jobs ≡ m.active_jobs)

  deleted_unknown :
      (name : String) (js : Jobs) (job : Job)
      → js name ≡ some job
      → job.running ≡ false
      → (spec_delete name js).1 name ≡ none
  unfolding spec_delete
  deleted_unknown name js job e stopped = ground (arith, eq_refl name)

  started_unknown :
      (now : ℕ) (name : String) (js : Jobs)
      → js name ≡ none
      → spec_started now name js ≡ (job_name_unknown, js)
  unfolding spec_started
  started_unknown now name js e = ground (arith, e)

  incr_unknown :
      (name : String) (js : Jobs) → js name ≡ none → spec_incr name js ≡ (job_name_unknown, js)
  unfolding spec_incr
  incr_unknown name js e = ground (arith, e)

  -- The state in which the start ends when the job is deleted after its process has been added.
  abbrev pub added : String → ℕ → Manager → Manager
  added name pid m = record m { active_jobs = Map.insert name (pos pid) m.active_jobs }

  abbrev pub deleted : String → Manager → Manager
  deleted name m = record m { database = (delete_job name m.database).1 }

  abbrev pub orphaned : String → ℕ → ℕ → Manager → Manager
  orphaned name pid now m = (on_database (job_started now name) (deleted name (added name pid m))).1

  module _ (L : PlatformLaws P) where
    orphan_run :
        (name : String) (plain : is_plain name ≡ true) (pid now : ℕ) (m : Manager) (jobs : Jobs)
        (job : Job)
        → Stores m.database jobs
        → jobs name ≡ some job
        → Map.find name m.active_jobs ≡ none
        → (job_started now name (deleted name m).database).0 ≡ ok job_name_unknown
        → Runs
            (Change (λ _. false))
            (start_job name (in_parent pid) now)
            m
            (ok no_error, orphaned name pid now m)
    unfolding start_job start_known launch record_launch ◌>>=◌ launch_job_process
    orphan_run name plain pid now m jobs job stored e idle unknown =
        let d = get_job_description-known name null m.database jobs job stored e in
        proceeds _ _ m 0 m _ (rw (count_absent name m.active_jobs idle) refl) (
          proceeds _ _ m (no_error, d.value) m _ (rw d.found refl)
            (proceeds _ _ m (pos pid) m _ refl (
              proceeds _ _ m tt (added name pid m) _ refl (
                interrupted _ (added name pid m) (deleted name (added name pid m)) _
                  (record { call = deletes name plain; spares = refl; changed = refl })
                  (proceeds _ _ (deleted name (added name pid m)) job_name_unknown
                    (orphaned name pid now m) _ (rw unknown refl)
                    (ended no_error (orphaned name pid now m)))))))

    -- Neither a stop nor a start reaches such a process.
    IsOrphan-IsRefused :
        (name : String) (handle : Handle) (m : Manager) (fork : Fork) (now : ℕ)
        → IsOrphan name handle m
        → IsRefused name m fork now
    unfolding Manager.stop_job Manager.start_job
    IsOrphan-IsRefused name handle m fork now o =
        let busy = count-some name handle m.active_jobs o.active in
        let r = job_incr-Refines L name m.database o.jobs o.stored in
        (
          rw (get_job_description-unknown name null m.database o.jobs o.stored o.unknown) refl,
          rw (busy) (r.result ∙ ap (λ x. ok x.0) (incr_unknown name o.jobs o.unknown)),
          rw (busy) refl,
        )

    -- If `start_job` of a known job that is stopped and not active, of a name without `/` and `~`,
    -- is interrupted by a `delete_job` of it behind the launch, whose `fork` succeeds, then it ends
    -- without an error, with the process active under the name and a database that does not know
    -- the job; a stop and another start of the name are refused as unknown, and signal and change
    -- no active process.
    pub start_job-orphans :
        (name : String) (pid now : ℕ) (fork : Fork) (later : ℕ) (m : Manager) (jobs : Jobs)
        (job : Job)
        → is_plain name ≡ true
        → Stores m.database jobs
        → jobs name ≡ some job
        → job.running ≡ false
        → Map.find name m.active_jobs ≡ none
        → (m' : Manager) × Runs
            (Change (λ _. false))
            (start_job name (in_parent pid) now)
            m
            (ok no_error, m')
          × IsOrphan name (pos pid) m'
          × IsRefused name m' fork later
    start_job-orphans name pid now fork later m jobs job plain stored e stopped idle =
        let gone = deleted_unknown name jobs job e stopped in
        let after = (delete_job-Refines L name m.database jobs plain stored).stored in
        let r = job_started-Refines L now name (deleted name m).database _ after in
        let same = started_unknown now name (spec_delete name jobs).1 gone in
        let o : IsOrphan name (pos pid) (orphaned name pid now m) = record {
          jobs = (spec_started now name (spec_delete name jobs).1).1;
          stored = r.stored;
          unknown = rw same gone;
          active = find-insert name name (pos pid) m.active_jobs idle ∙ rw (eq_refl name) refl;
        } in
        (
          orphaned name pid now m,
          orphan_run name plain pid now m jobs job stored e idle (r.result ∙ ap (λ x. ok x.0) same),
          o,
          IsOrphan-IsRefused name (pos pid) (orphaned name pid now m) fork later o,
        )
