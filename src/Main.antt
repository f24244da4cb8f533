-- ===== src/Main.antt =====
-- source/main.cpp: the start of the server, its exit, and the answer to a path without a route.
pub mod Start
pub mod Stop
pub mod Leftover
pub mod Scheduling
pub mod Serving
pub mod Restart
pub mod IllTyped
use Prim.Native.String.{len}
use kiwibes.Prelude.{
  ℕ, zero, suc, ◌+◌, String, Option, none, some, List, [], ◌∷◌, Bool, true, false, not, ◌&&◌,
  if◌then◌else◌, eqb,
}
use Prim.Native.String.{◌++◌}
use kiwibes.Errors.{KiwibesError, no_error, https_certs_fail, is_ok}
use kiwibes.Exec.{Exec, Exception, Result, ok, throws, ◌>>=◌, ◌>>◌, pure}
use kiwibes.Platform.{Platform}
use kiwibes.CmdLine.{Options, parse_and_validate_command_line}
use kiwibes.Authentication
use kiwibes.DataStore
use kiwibes.Database.{Database, Disk, load, save}
use kiwibes.Database
use kiwibes.Database.Names.{get_all_schedulable_jobs}
use kiwibes.Manager.{Manager, Handle, Report, stop_all_jobs, destroy, watch}
use kiwibes.Manager
use kiwibes.Scheduler.{Heap, Answers, Turn, finished, dangling, Scheduler, schedule_job, start}
use kiwibes.Scheduler
use kiwibes.Scheduler.Thread.{stop_and_join}
use kiwibes.Scheduler.Thread
use kiwibes.Rest.{Response, Context, on_scheduler}

-- The level of the logger.
pub data LogLevel : Type 0 where
  crit warn info : LogLevel

-- The level that `start_logging` sets.
unfoldable pub set_log_level : Options → LogLevel
set_log_level o = if eqb 0 o.log_level then crit else if eqb 1 o.log_level then warn else info

abbrev pub jobs_db_file : Options → String
jobs_db_file o = o.home ++ "kiwibes.json"

abbrev pub server_certificate : Options → String
server_certificate o = o.home ++ "kiwibes.cert"

abbrev pub server_priv_key : Options → String
server_priv_key o = o.home ++ "kiwibes.key"

-- `https_error`
unfoldable pub https_error : Response → Response
https_error res =
    if eqb 0 (len res.body) && eqb 404 res.status
    then record res { body = "I am sorry Dave, but I can't do that."; content_type = "text/plain" }
    else res

-- What the system answers to each call of `schedule_job`: the clock, and the address of the event.
pub record Call : Type 0 where
  pub now : ℕ
  pub address : ℕ

-- The system around the program: which paths exist, the texts of the files, whether an HTTPS server
-- with this certificate and this key is valid, and the answers to the calls of `schedule_job`.
pub record World : Type 0 where
  pub exists : String → Bool
  pub disk : Disk
  pub is_valid : String → String → Bool
  pub calls : ℕ → Call

-- What the system answers while the program exits: the clock and the address for the exit event, the
-- passes of the scheduler thread until it ends, and what the watcher thread sees: until the jobs are
-- stopped for the first time, from there until they are stopped again, and then until it ends. What it
-- sees during the wait for the scheduler thread comes behind the passes of that thread.
pub record Exit : Type 0 where
  pub now : ℕ
  pub address : ℕ
  pub passes : List (ℕ × List Answers)
  pub joining : List Report
  pub between : List Report
  pub reports : List Report

module _ ⦃P : Platform⦄ where
  -- Which components have been created, and the files before there is a database.
  pub data Components : Type 0 where
    nothing : Disk → Components
    database : Database → Components
    all : Context → Components

  -- The loop over the schedulable jobs. The error codes are dropped.
  unfoldable pub schedule_all : (ℕ → Call) → List String → Exec Scheduler Unit
  schedule_all calls [] = pure tt
  schedule_all calls (name ∷ rest) = do
    schedule_job (calls 0).now (calls 0).address name
    schedule_all (λ i. calls (suc i)) rest

  -- The end of `initialize_kiwibes`.
  unfoldable pub schedule_jobs : (ℕ → Call) → Exec Scheduler KiwibesError
  schedule_jobs calls = do
    start
    names ← Scheduler.on_database (get_all_schedulable_jobs [])
    schedule_all calls names
    pure no_error

  -- The components that point to a loaded database.
  unfoldable pub create : Options → Database → Context
  create o db = record {
    scheduler = Scheduler.new (Manager.new db);
    data_store = DataStore.new o.data_store_size;
    authentication = Authentication.new;
    response = record { status = 0; body = ""; content_type = "" };
  }

  abbrev pub serve : World → Options → Context → Result KiwibesError × Components
  serve w o c =
      if w.is_valid (server_certificate o) (server_priv_key o)
      then (
        (on_scheduler (schedule_jobs w.calls) c).0,
        all (on_scheduler (schedule_jobs w.calls) c).1,
      )
      else (ok https_certs_fail, all c)

  abbrev pub after_load :
      World → Options → Result KiwibesError × Database → Result KiwibesError × Components
  after_load w o (throws e, db) = (throws e, database db)
  after_load w o (ok error, db) =
      if is_ok error then serve w o (create o db) else (ok error, database db)

  unfoldable pub initialize_kiwibes : World → Options → Result KiwibesError × Components
  initialize_kiwibes w o = after_load w o (load (jobs_db_file o) (Database.new w.disk))

  -- `main`, up to the loop of the HTTPS server, which runs where the result is no error.
  unfoldable pub main : World → List String → Options → Result KiwibesError × Components
  main w argv uninitialized =
      let (error, o) = parse_and_validate_command_line w.exists argv uninitialized in
      if is_ok error then initialize_kiwibes w o else (ok error, nothing w.disk)

  -- The part of `cleanup` behind the end of the scheduler: the jobs manager is stopped and deleted.
  unfoldable pub stop_manager : Exit → Exec Manager Unit
  stop_manager x = do watch x.joining; stop_all_jobs; watch x.between; destroy; watch x.reports

  -- How `cleanup` ends: with the last state of the manager, whose database has been saved, and the
  -- events that are still allocated; waiting for the scheduler thread; or with an exception in it.
  pub data Exited : Type 0 where
    without_manager : Disk → Exited
    exited : Manager → Option Heap → Exited
    waits : Exited
    terminated : Exited

  abbrev pub save_all : Option Heap → Result (Unit {0}) × Manager → Exited
  save_all heap (throws e, m) = terminated
  save_all heap (ok u, m) = exited (record m { database = (save m.database).1 }) heap

  abbrev pub after_stop : Exit → Turn (Option (Result Bool) × Scheduler) → Turn Exited
  after_stop x dangling = dangling
  after_stop x (finished (none, s)) = finished waits
  after_stop x (finished (some (throws e), s)) = finished terminated
  after_stop x (finished (some (ok b), s)) = elim (Thread.destroy s) [
    | dangling ↦ dangling
    | finished heap ↦ finished (save_all heap (stop_manager x s.manager))
  ]

  unfoldable pub cleanup : Exit → Components → Turn Exited
  cleanup x (nothing disk) = finished (without_manager disk)
  cleanup x (database db) = finished (without_manager (save db).1.disk)
  cleanup x (all c) = after_stop x (stop_and_join x.now x.address x.passes c.scheduler)
