-- ===== src/Examples/Service.antt =====
-- A running server on the small platform: requests, turns of the threads, and the queue of events.
use kiwibes.Prelude.{◌≡◌, refl, some, [], ◌∷◌, true, arith, some_inj}
use kiwibes.Manager.{in_parent}
use kiwibes.Scheduler.{load, top, finished, turn, start, stop, schedule_job, unschedule_job}
use kiwibes.Scheduler.Ownership.{Owns, destroy-frees}
use kiwibes.Scheduler.Thread.{destroy}
use kiwibes.Scheduler.Safety.{IsOwned, IsSafe, turn-IsSafe, calls-IsOwned}
use kiwibes.Manager.{watch}
use kiwibes.Rest.{Request, Context, on_manager}
use kiwibes.Rest.Routes.{Route, Inputs, dispatch}
use kiwibes.Database.Names.{get_all_schedulable_jobs}
use kiwibes.Database.Names.Scheduled.{Schedules, get_all_schedulable_jobs-Schedules}
use kiwibes.Server.Steps.{request, watches, done, next}
use kiwibes.Server.Signals.Paths.{Signalled, Steps-Signalled}
use kiwibes.Examples.Toy.{toy, toy_laws}
use kiwibes.Examples.Jobs.{one_job, sleeps, one_job-Stores, busy, reports}
use kiwibes.Examples.Events.{two_events, answers}
use kiwibes.Examples.Access.{anonymous, old_tokens}

-- A server whose job runs.
abbrev pub busy_server : Context
busy_server = record {
  scheduler = record { manager = busy; heap = []; events = []; is_running = true };
  data_store = record { store = []; max_size = 100; curr_size = 0 };
  authentication = old_tokens;
  response = record { status = 200; body = ""; content_type = "" };
}

abbrev inputs : Inputs
inputs = record { fork = in_parent 41; now = 9; address = 100 }

abbrev stops : Request
stops = record anonymous { has_param = λ key. true; get_param_value = λ key n. "old" }

abbrev after_stop : Context
after_stop = (dispatch Route.stop stops inputs busy_server).1

-- A request to stop the job, and then a turn of the watcher thread.
Steps-Signalled_example : Signalled busy_server (on_manager (watch reports) after_stop).1 (
    next
      (request Route.stop stops inputs busy_server.response busy_server refl)
      (next (watches reports after_stop) (done _)))
Steps-Signalled_example = Steps-Signalled busy_server (on_manager (watch reports) after_stop).1 (
    next (request Route.stop stops inputs busy_server.response busy_server refl)
      (next (watches reports after_stop) (done _)))

get_all_schedulable_jobs-Schedules_example :
    Schedules
      ("first" ∷ [])
      (one_job true 2)
      (sleeps true 2)
      (get_all_schedulable_jobs ("first" ∷ []) (one_job true 2))
get_all_schedulable_jobs-Schedules_example =
    get_all_schedulable_jobs-Schedules toy_laws ("first" ∷ []) (one_job true 2) (sleeps true 2)
      (one_job-Stores true 2)

two_events-IsOwned : Owns two_events.events two_events.heap
unfolding load
two_events-IsOwned = record { distinct = (refl, (refl, tt)); owned = λ a. ground arith }

turn-IsSafe_example : IsSafe (turn 11 (answers 50) two_events)
unfolding load top
turn-IsSafe_example =
    turn-IsSafe 11 (answers 50) two_events two_events-IsOwned refl λ a e. omega (arith, some_inj e)

calls-IsOwned_example :
    IsOwned (start two_events).1
    × IsOwned (unschedule_job "sleep" two_events).1
    × IsOwned (schedule_job 9 300 "sleep" two_events).1
    × IsOwned (stop 9 300 two_events).1
unfolding load
calls-IsOwned_example = calls-IsOwned 9 300 "sleep" two_events two_events-IsOwned refl

destroy-frees_example : destroy two_events ≡ finished (some [])
destroy-frees_example = destroy-frees two_events two_events-IsOwned
