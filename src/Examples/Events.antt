-- ===== src/Examples/Events.antt =====
-- Runs of the scheduler on the small platform.
use kiwibes.Prelude.Int.{pos}
use kiwibes.Prelude.{ℕ, ◌≡◌, refl, some, [], ◌∷◌, true, false, arith}
use kiwibes.Exec.{ok}
use kiwibes.Database
use kiwibes.Map
use kiwibes.Manager
use kiwibes.Manager.{in_parent}
use kiwibes.Scheduler.{
  Event, start_event, Heap, load, free, Answers, Turn, finished, dangling, Scheduler, handle_event,
  turn, unschedule_job, get_all_scheduled_job_names, remove_one,
}
use kiwibes.Scheduler.Queue.{IsGreatest}
use kiwibes.Scheduler.Names.{without, unschedule_job-names}
use kiwibes.Scheduler.Turns.{turn-dangling}
use kiwibes.Examples.Toy.{toy}
use kiwibes.Scheduler.{schedule_job}
use kiwibes.Examples.Jobs.{one_job}

abbrev pub sleep_event : Event
sleep_event = record { kind = start_event; t0 = pos 10; job_name = "sleep" }

-- Two starts of the stopped job, the later one at the smaller address.
abbrev pub two_events : Scheduler
two_events = record {
  manager = Manager.new (one_job false 0);
  heap =
      (100, record { kind = start_event; t0 = pos 20; job_name = "sleep" })
      ∷ (200, sleep_event)
      ∷ [];
  events = 100 ∷ 200 ∷ [];
  is_running = true;
}

pub two_events-IsGreatest : IsGreatest 200 two_events.events
two_events-IsGreatest = record { queued = refl; greatest = (omega arith, (omega arith, tt)) }

abbrev pub answers : ℕ → Answers
answers address = record { fork = in_parent 41; started_at = 11; later = 12; address = address }

unschedule_job-names_example :
    get_all_scheduled_job_names (unschedule_job "sleep" two_events).1
    ≡ without "sleep" (get_all_scheduled_job_names two_events)
unfolding load
unschedule_job-names_example =
    unschedule_job-names "sleep" two_events
      (record { distinct = (refl, (refl, tt)); owned = λ a. ground arith })

handled :
    (address : ℕ)
    → (handle_event (answers address) sleep_event two_events
        ≡ (ok false, (handle_event (answers address) sleep_event two_events).1))
      × ((handle_event (answers address) sleep_event two_events).1.events
          ≡ address ∷ two_events.events)
unfolding handle_event Manager.start_job Map.count Manager.new Manager.start_known
    kiwibes.Database.Names.get_job_description Manager.launch Manager.launch_job_process
    kiwibes.Database.Runs.job_started Database.field Database.set_field
    kiwibes.Scheduler.unsafe_job_schedule kiwibes.Scheduler.schedule_text
    kiwibes.Scheduler.push_start kiwibes.Cron.is_valid kiwibes.Cron.new kiwibes.Scheduler.push
handled address = (refl, refl)

turn-dangling_example :
    (t : Scheduler) × (turn 11 (answers 300) two_events ≡ finished (some (ok false), t))
    × (turn 12 (answers 400) t ≡ dangling)
unfolding load
turn-dangling_example =
    turn-dangling 11 200 sleep_event (answers 300) two_events
      (handle_event (answers 300) sleep_event two_events).1 false 12 (answers 400)
      two_events-IsGreatest refl refl (handled 300).0 (handled 300).1 (omega arith)
