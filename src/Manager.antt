-- ===== src/Manager.antt =====
-- source/kiwibes_jobs_manager.cpp and .h: starting and stopping the processes of jobs.
pub mod Spec
pub mod Refinement
pub mod Invariant
pub mod Queue
pub mod Starts
pub mod Stops
pub mod Kills
use kiwibes.Prelude.{
  ℕ, String, Option, none, some, List, [], ◌∷◌, ◌++◌, map, Bool, true, false, if◌then◌else◌, eqb,
  ◌==◌, ◌||◌,
}
use kiwibes.Prelude.Int.{ℤ, pos, negsuc, leb_ℤ, eq_ℤ}
use kiwibes.Errors.{KiwibesError, no_error, job_is_not_running, process_launch_failed, is_ok}
use kiwibes.Exec.{Exec, Result, ok, type_error, ◌>>=◌, ◌>>◌, pure, demand}
use kiwibes.Map
use kiwibes.Map.{Map}
use kiwibes.Platform.{Platform}
use kiwibes.Database.{Database}
use kiwibes.Database.Runs.{
  job_started, job_stopped, job_incr_start_requests, job_decr_start_requests,
}
use kiwibes.Database.Names.{get_job_description}

-- `T_PROCESS_HANDLER`, with `INVALID_PROCESS_HANDLE`
abbrev pub Handle : Type 0
Handle = ℤ

abbrev pub invalid_handle : Handle
invalid_handle = negsuc 0

-- What `fork` returned: an error, the child's process to the parent, or 0 to the child, in which
-- `execv` returned as well. A child in which `execv` does not return is another program.
pub data Fork : Type 0 where
  failed : Fork
  in_parent : ℕ → Fork
  in_child : Fork

-- What `waitpid` says of a process that has changed its state.
pub data WaitStatus : Type 0 where
  exited signaled other : WaitStatus

abbrev pub has_ended : WaitStatus → Bool
has_ended other = false
has_ended _ = true

-- One result of `waitpid` with what the system answers to the calls that follow it.
pub record Report : Type 0 where
  pub pid : Handle
  pub status : WaitStatus
  pub stopped_at : ℕ
  pub fork : Fork
  pub started_at : ℕ

-- The search of the watcher through the active jobs.
unfoldable pub name_of : Handle → Map Handle → Option String
name_of pid [] = none
name_of pid ((name, handle) ∷ l) = if eq_ℤ pid handle then some name else name_of pid l

module _ ⦃P : Platform⦄ where
  open P use {Json, null, member, get_strings}

  -- `killed` lists the processes that SIGKILL was sent to.
  pub record Manager : Type 0 where
    pub database : Database
    pub active_jobs : Map Handle
    pub killed : List Handle
    pub watcher_exit : Bool

  unfoldable pub new : Database → Manager
  new database = record { database = database; active_jobs = []; killed = []; watcher_exit = false }

  abbrev pub on_database : {A : Type 0} → Exec Database A → Exec Manager A
  on_database f m = ((f m.database).0, record m { database = (f m.database).1 })

  -- The child reads the program from the description and returns only if `execv` does.
  unfoldable pub launch_job_process : Json → Fork → Exec Manager Handle
  launch_job_process job failed m = pure invalid_handle m
  launch_job_process job (in_parent pid) m = pure (pos pid) m
  launch_job_process job in_child m = elim (member job "program") [
    | none ↦ demand type_error none m
    | some program ↦ elim (get_strings program) [
      | none ↦ demand type_error none m
      | some arguments ↦ pure invalid_handle m
    ]
  ]

  abbrev pub add_active : String → Handle → Exec Manager Unit
  add_active name handle m =
      (ok tt, record m { active_jobs = Map.insert name handle m.active_jobs })

  abbrev pub erase_active : String → Exec Manager Unit
  erase_active name m = (ok tt, record m { active_jobs = Map.erase name m.active_jobs })

  abbrev pub kill : Handle → Exec Manager Unit
  kill handle m = (ok tt, record m { killed = m.killed ++ handle ∷ [] })

  -- Launches the job and records it as active; `false` where the launch failed.
  unfoldable pub launch : String → Json → Fork → ℕ → Exec Manager Bool
  launch name job fork now = do
    handle ← launch_job_process job fork
    if eq_ℤ handle invalid_handle
        then pure false
        else (do add_active name handle; on_database (job_started now name); pure true)

  unfoldable pub start_known : String → Fork → ℕ → Exec Manager KiwibesError
  start_known name fork now = do
    (error, job) ← on_database (get_job_description null name)
    if is_ok error
        then (do
          started ← launch name job fork now
          pure (if started then no_error else process_launch_failed))
        else pure error

  unfoldable pub start_job : String → Fork → ℕ → Exec Manager KiwibesError
  start_job name fork now m =
      (if eqb (Map.count name m.active_jobs) 1
          then on_database (job_incr_start_requests name)
          else start_known name fork now)
        m

  -- `kill` at the entry that `find` returned
  unfoldable pub kill_found : Option Handle → Exec Manager KiwibesError
  kill_found none = pure job_is_not_running
  kill_found (some handle) = do kill handle; pure no_error

  unfoldable pub stop_job : String → Exec Manager KiwibesError
  unfolding kill_found
  stop_job name m =
      (do
        (error, job) ← on_database (get_job_description null name)
        if is_ok error then kill_found (Map.find name m.active_jobs) else pure error)
        m

  unfoldable pub stop_all_jobs : Exec Manager Unit
  stop_all_jobs m = (ok tt, record m { killed = m.killed ++ map (λ e. e.1) m.active_jobs })

  -- The destructor, up to the wait for the watcher thread.
  unfoldable pub destroy : Exec Manager Unit
  unfolding stop_all_jobs
  destroy = do stop_all_jobs; (λ m. (ok tt, record m { watcher_exit = true }))

  -- A queued start request runs the job again. The result of the launch is only logged.
  unfoldable pub restart : String → Fork → ℕ → Exec Manager Unit
  restart name fork now = do
    (error, job) ← on_database (get_job_description null name)
    if is_ok error then (do launch name job fork now; pure tt) else pure tt

  -- The process of the job has ended.
  unfoldable pub job_ended : String → Report → Exec Manager Unit
  job_ended name r = do
    on_database (job_stopped r.stopped_at name)
    erase_active name
    left ← on_database (job_decr_start_requests name)
    if leb_ℤ (pos 0) left then restart name r.fork r.started_at else pure tt

  -- The body of the inner loop of the watcher thread.
  unfoldable pub reap : Report → Exec Manager Unit
  reap r m = elim (name_of r.pid m.active_jobs) [
    | none ↦ pure tt m
    | some name ↦ if has_ended r.status then job_ended name r m else pure tt m
  ]

  -- One turn of the watcher thread, for the results of `waitpid` that it gets.
  unfoldable pub watch : List Report → Exec Manager Unit
  watch [] = pure tt
  watch (r ∷ rs) = do reap r; watch rs
