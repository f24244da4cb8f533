-- ===== src/Examples/Threads.antt =====
-- Operations of the manager that other threads interrupt, on the small platform.
use kiwibes.Prelude.{none, some, arith, refl, [], ◌∷◌, true, false}
use kiwibes.Prelude.Int.{pos}
use kiwibes.Map
use kiwibes.Errors.{no_error}
use kiwibes.Exec.{Result, ok}
use kiwibes.Manager.{Manager, in_parent, failed}
use kiwibes.Interleaving.{Runs, alone, interrupted}
use kiwibes.Interleaving.Alone.{Runs-alone}
use kiwibes.Interleaving.Operations.{start_job}
use kiwibes.Interleaving.Others.{Change, clears, deletes, run}
use kiwibes.Interleaving.Stages.{Agrees, IsManaged-Agrees}
use kiwibes.Interleaving.Turns.{thread_of, watches, idle, operates, others, AllEnd, Turns-Agree}
use kiwibes.Interleaving.Steps
use kiwibes.Interleaving.Steps.{follows, steps, Actions-IsManaged}
use kiwibes.Server.Steps.{reloads}
use kiwibes.Authentication
use kiwibes.Manager.Invariant.{IsManaged}
use kiwibes.Examples.Service.{busy_server}
use kiwibes.Interleaving.Orphans.{IsOrphan, IsRefused, start_job-orphans}
use kiwibes.Authentication.{verify_auth_token}
use kiwibes.DataStore
use kiwibes.Manager
use kiwibes.Manager.Spec.{System}
use kiwibes.Rest.{Context, with_manager, Request, is_authorized}
use kiwibes.Rest.Routes.{Inputs, dispatch, write, read}
use kiwibes.Rest.Storing.{Sends, read-write}
use kiwibes.Scheduler.{load, turn}
use kiwibes.Scheduler.Ownership.{Owns}
use kiwibes.Scheduler.Firing.{Fires, turn-Fires}
use kiwibes.Examples.Events.{sleep_event, two_events, two_events-IsGreatest, answers}
use kiwibes.Examples.Access.{server, creates}
use kiwibes.Examples.Toy.{toy, toy_laws}
use kiwibes.Examples.Jobs.{
  one_job, sleeps, sleep_job, one_job-Stores, busy, busy-IsManaged, reports,
}

abbrev cleared : Manager
cleared = record busy { database = (run (clears "sleep") busy.database).1 }

abbrev watched : Manager
watched = (alone (thread_of (watches reports)) cleared).1

abbrev outcome : Result (Unit {0})
outcome = (alone (thread_of (watches reports)) cleared).0

abbrev removed : Manager
removed = record watched { database = (run (deletes "sleep" refl) watched.database).1 }

-- A turn of the watcher thread that another thread interrupts to clear the queued starts, and then
-- the removal of the job.
Turns-Agree_example : AllEnd (outcome ∷ []) × Agrees (λ _. true) removed
Turns-Agree_example =
    Turns-Agree toy_laws (λ _. true) busy (outcome ∷ []) removed
      (operates (watches reports) busy watched removed outcome []
        (interrupted (thread_of (watches reports)) busy cleared (outcome, watched)
          (record { call = clears "sleep"; spares = tt; changed = refl })
          (Runs-alone (Change (λ _. true)) (thread_of (watches reports)) cleared))
        (others watched removed removed []
          (record { call = deletes "sleep" refl; spares = refl; changed = refl }) (idle removed)))
      (IsManaged-Agrees busy busy-IsManaged)

abbrev reloaded : Context
reloaded = record busy_server {
  authentication = (Authentication.watch none busy_server.authentication).1;
}

-- A turn of the watcher thread of the tokens, and then an interrupted one of the manager's.
Actions-IsManaged_example : IsManaged (with_manager reloaded watched).scheduler.manager
Actions-IsManaged_example =
    Actions-IsManaged toy_laws busy_server (with_manager reloaded watched) busy-IsManaged (
      follows busy_server reloaded (with_manager reloaded watched)
        (steps busy_server reloaded (reloads none busy_server))
        (follows reloaded (with_manager reloaded watched) (with_manager reloaded watched)
          (Steps.interrupted (watches reports) reloaded outcome watched (
            interrupted (thread_of (watches reports)) busy cleared (outcome, watched)
              (record { call = clears "sleep"; spares = tt; changed = refl })
              (Runs-alone (Change (λ _. true)) (thread_of (watches reports)) cleared)))
          (Steps.ends _)))

abbrev idle_manager : Manager
idle_manager = record {
  database = one_job false 0;
  active_jobs = [];
  killed = [];
  watcher_exit = false;
}

start_job-orphans_example :
    (m : Manager) × Runs
      (Change (λ _. false))
      (start_job "sleep" (in_parent 41) 9)
      idle_manager
      (ok no_error, m)
    × IsOrphan "sleep" (pos 41) m
    × IsRefused "sleep" m failed 10
unfolding Map.find
start_job-orphans_example =
    start_job-orphans toy_laws "sleep" 41 9 failed 10 idle_manager (sleeps false 0)
      (sleep_job false 0) refl (one_job-Stores false 0) refl refl refl

two_events-Owns : Owns two_events.events two_events.heap
unfolding load
two_events-Owns = record { distinct = (refl, (refl, tt)); owned = λ a. ground arith }

abbrev idle_system : System
idle_system = record { active = []; jobs = sleeps false 0 }

turn-Fires_example :
    Fires
      (answers 50)
      200
      sleep_event
      (some (sleep_job false 0))
      two_events
      (turn 11 (answers 50) two_events)
unfolding load Manager.new
turn-Fires_example =
    turn-Fires toy_laws 11 200 sleep_event (answers 50) two_events idle_system
      (record { active = refl; stored = one_job-Stores false 0 }) two_events-Owns
      two_events-IsGreatest refl refl refl (omega arith)

abbrev writes : Request
writes = creates "* * * * * *"

abbrev inputs : Inputs
inputs = record { fork = in_parent 41; now = 9; address = 100 }

-- A write and a read of the key "nap".
read-write_example :
    Sends "/bin/true" (dispatch read writes inputs (dispatch write writes inputs server).1)
unfolding is_authorized verify_auth_token DataStore.new Map.find
read-write_example =
    read-write toy_laws writes writes inputs inputs server refl refl refl refl refl refl
