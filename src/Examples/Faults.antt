-- ===== src/Examples/Faults.antt =====
-- A start from an ill-typed file, and an exit that leaves a process behind, on the small platform.
use kiwibes.Prelude.{◌≡◌, refl, some, [], ◌∷◌, true, false}
use kiwibes.Prelude.Int.{pos}
use kiwibes.Errors.{no_error}
use kiwibes.Exec.{ok, throws, type_error}
use kiwibes.Map
use kiwibes.CmdLine.{
  parse_and_validate_command_line, parse_command_line, parse_options, validate_command_line,
}
use kiwibes.Database.{load, has_all}
use kiwibes.Database
use kiwibes.Database.Names.{schedule_of}
use kiwibes.Manager.{Manager, Report, in_parent, signaled, name_of}
use kiwibes.Scheduler.{Scheduler, finished}
use kiwibes.Scheduler.Thread.{stop_and_join, thread}
use kiwibes.Main.{Exit, all, exited, jobs_db_file, main, cleanup}
use kiwibes.Main.Leftover.{cleanup-relaunches}
use kiwibes.Main.IllTyped.{ill_typed_schedule-throws}
use kiwibes.Examples.Toy.{toy, toy_laws, Value, int, entry_with, ill_typed_jobs}
use kiwibes.Examples.Jobs.{sleep_job, busy, busy_system, busy-Runs, busy-IsSynced}
use kiwibes.Examples.Events.{answers}
use kiwibes.Examples.Service.{busy_server}
use kiwibes.Examples.Startup.{world, unset, home}

abbrev sleep_entry : Value
sleep_entry = entry_with (int (pos 0))

ill_typed_schedule-throws_example :
    ((load (jobs_db_file home) (Database.new (world "{0}").disk)).0 ≡ ok no_error)
    × ((main (world "{0}") ("kiwibes" ∷ "/home/kiwibes/" ∷ []) unset).0 ≡ throws type_error)
unfolding has_all schedule_of parse_and_validate_command_line parse_command_line parse_options
    validate_command_line
ill_typed_schedule-throws_example =
    ill_typed_schedule-throws toy_laws (world "{0}") ("kiwibes" ∷ "/home/kiwibes/" ∷ []) unset home
      "{0}" ill_typed_jobs "sleep" sleep_entry refl refl refl refl refl refl refl refl

-- The process that the exit kills is reported, and the job is launched again.
abbrev killed_report : Report
killed_report = record {
  pid = pos 41;
  status = signaled;
  stopped_at = 50;
  fork = in_parent 42;
  started_at = 51;
}

abbrev quits : Exit
quits = record {
  now = 9;
  address = 100;
  passes = (9, answers 50 ∷ []) ∷ [];
  joining = [];
  between = [];
  reports = killed_report ∷ [];
}

abbrev joined : Scheduler
joined = record { manager = busy; heap = []; events = []; is_running = false }

cleanup-relaunches_example :
    (m : Manager) × (cleanup quits (all busy_server) ≡ finished (exited m (some [])))
    × (Map.find "sleep" m.active_jobs ≡ some (pos 42))
    × (m.killed ≡ pos 41 ∷ pos 41 ∷ [])
unfolding stop_and_join thread kiwibes.Scheduler.stop kiwibes.Scheduler.push kiwibes.Scheduler.turns
    kiwibes.Scheduler.turn kiwibes.Scheduler.turn_at kiwibes.Scheduler.handle_event
    kiwibes.Scheduler.pop_and_delete kiwibes.Scheduler.pop kiwibes.Scheduler.top
    kiwibes.Scheduler.load kiwibes.Scheduler.free kiwibes.Scheduler.remove_one name_of
cleanup-relaunches_example =
    cleanup-relaunches toy_laws quits busy_server true joined busy_system "sleep" killed_report 42
      (sleep_job true 2) 1 refl (record { distinct = tt; owned = λ a. refl }) busy-Runs
      busy-IsSynced refl refl refl refl refl refl refl refl refl
