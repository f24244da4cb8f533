-- ===== src/Interleaving/Operations.antt =====
-- source/kiwibes_jobs_manager.cpp: the operations of the manager with each call of the database as a
-- step of its own. They run under `jobs_lock`, which the database does not take.
use kiwibes.Prelude.{
  ℕ, String, none, some, List, [], ◌∷◌, Option, Bool, true, false, if◌then◌else◌, eqb,
}
use kiwibes.Prelude.Int.{pos, leb_ℤ, eq_ℤ}
use kiwibes.Errors.{KiwibesError, no_error, process_launch_failed, is_ok}
use kiwibes.Exec
use kiwibes.Map
use kiwibes.Platform.{Platform}
use kiwibes.Database.Runs.{
  job_started, job_stopped, job_incr_start_requests, job_decr_start_requests,
}
use kiwibes.Database.Names.{get_job_description}
use kiwibes.Manager.{
  Manager, Handle, invalid_handle, Fork, Report, name_of, has_ended, on_database,
  launch_job_process, add_active, erase_active, kill_found,
}
use kiwibes.Interleaving.{Thread, ends, ◌>>=◌, ◌>>◌, atomic}

module _ ⦃P : Platform⦄ where
  open P use {Json, null}

  -- The record of a launch that has succeeded.
  unfoldable pub record_launch : String → ℕ → Handle → Thread Manager Bool
  record_launch name now handle = if eq_ℤ handle invalid_handle then ends false else (do
    atomic (add_active name handle)
    atomic (on_database (job_started now name))
    ends true)

  unfoldable pub launch : String → Json → Fork → ℕ → Thread Manager Bool
  launch name job fork now = do
    handle ← atomic (launch_job_process job fork)
    record_launch name now handle

  unfoldable pub start_known : String → Fork → ℕ → Thread Manager KiwibesError
  start_known name fork now = do
    (error, job) ← atomic (on_database (get_job_description null name))
    if is_ok error
        then (do
          started ← launch name job fork now
          ends (if started then no_error else process_launch_failed))
        else ends error

  -- Under `jobs_lock` the active jobs are those of the start.
  unfoldable pub start_job : String → Fork → ℕ → Thread Manager KiwibesError
  start_job name fork now = do
    active ← atomic (λ m. (Exec.ok (Map.count name m.active_jobs), m))
    if eqb active 1
        then atomic (on_database (job_incr_start_requests name))
        else start_known name fork now

  unfoldable pub stop_job : String → Thread Manager KiwibesError
  stop_job name = do
    (error, job) ← atomic (on_database (get_job_description null name))
    if is_ok error then atomic (λ m. kill_found (Map.find name m.active_jobs) m) else ends error

  unfoldable pub restart : String → Fork → ℕ → Thread Manager Unit
  restart name fork now = do
    (error, job) ← atomic (on_database (get_job_description null name))
    if is_ok error then (do launch name job fork now; ends tt) else ends tt

  unfoldable pub job_ended : String → Report → Thread Manager Unit
  job_ended name r = do
    atomic (on_database (job_stopped r.stopped_at name))
    atomic (erase_active name)
    left ← atomic (on_database (job_decr_start_requests name))
    if leb_ℤ (pos 0) left then restart name r.fork r.started_at else ends tt

  -- The process that the search has found, if any.
  unfoldable pub reap_found : Report → Option String → Thread Manager Unit
  reap_found r none = ends tt
  reap_found r (some name) = if has_ended r.status then job_ended name r else ends tt

  unfoldable pub reap : Report → Thread Manager Unit
  reap r = do found ← atomic (λ m. (Exec.ok (name_of r.pid m.active_jobs), m)); reap_found r found

  unfoldable pub watch : List Report → Thread Manager Unit
  watch [] = ends tt
  watch (r ∷ rs) = do reap r; watch rs
