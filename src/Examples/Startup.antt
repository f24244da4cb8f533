-- ===== src/Examples/Startup.antt =====
-- Starts and exits of the server on the small platform.
use kiwibes.Prelude.{
  arith, ◌≡◌, refl, some, [], ◌∷◌, true, false, String, ◌==◌, inl, inr, Bool-cases,
}
use kiwibes.Exec.{ok, catch_parse_error}
use kiwibes.Errors.{no_error, json_parse_fail}
use kiwibes.CmdLine.{
  Options, parse_and_validate_command_line, parse_command_line, parse_options,
  validate_command_line, with_defaults,
}
use kiwibes.Database.{write_file, Database, Disk, load, save, has_all}
use kiwibes.Database
use kiwibes.Database.Table.{row_of}
use kiwibes.Database.Names.{schedule_of}
use kiwibes.Database.Loading.Success.{Loads, RowKeeps, load-Loads}
use kiwibes.Manager.{watch, Manager}
use kiwibes.Manager.Invariant.{IsManaged}
use kiwibes.Scheduler.{Scheduler, finished}
use kiwibes.Rest.{Context}
use kiwibes.Main.{World, Exit, all, without_manager, exited, jobs_db_file, main, cleanup}
use kiwibes.Main.Start.{failed_start-overwrites}
use kiwibes.Main.Stop.{Leaves, cleanup-exits}
use kiwibes.Main.Serving.{StartsOn, Ready, main-Ready}
use kiwibes.Main.Restart.{main-restarts}
use kiwibes.Map
use kiwibes.Examples.Toy.{toy, toy_laws, idle_jobs}
use kiwibes.Examples.Jobs.{one_job, sleeps, one_job-Stores, busy, busy-IsManaged, reports}
use kiwibes.Examples.Service.{busy_server}
use kiwibes.Examples.Events.{answers}

idle-keeps : (name : String) → RowKeeps (row_of (toy.member idle_jobs name)) (sleeps false 0 name)
idle-keeps name = elim (Bool-cases ("sleep" == name)) [
  | inl e ↦ rw e (record {
    program = refl;
    schedule = refl;
    max_runtime = refl;
    avg_runtime = refl;
    var_runtime = refl;
    nbr_runs = refl;
  })
  | inr e ↦ rw e tt
]

-- Every file has this text.
abbrev pub disk_of : String → Disk
disk_of text = record { content = λ path. some text; is_writable = λ path. true }

load-Loads_example :
    Loads "jobs.json" idle_jobs
      (Database.new (disk_of "{}"))
      (sleeps false 0)
      (load "jobs.json" (Database.new (disk_of "{}")))
unfolding has_all Database.new
load-Loads_example =
    load-Loads toy_laws "jobs.json" "{}" idle_jobs (sleeps false 0) (Database.new (disk_of "{}"))
      refl refl refl refl idle-keeps

abbrev pub world : String → World
world text = record {
  exists = λ path. true;
  disk = disk_of text;
  is_valid = λ cert key. true;
  calls = λ i. record { now = 9; address = i };
}

abbrev pub unset : Options
unset = record { home = ""; log_level = 7; log_max_size = 7; https_port = 7; data_store_size = 7 }

abbrev pub home : Options
home = record (with_defaults unset) { home = "/home/kiwibes/" }

abbrev quits : Exit
quits = record {
  now = 9;
  address = 100;
  passes = (9, answers 50 ∷ []) ∷ [];
  joining = [];
  between = reports;
  reports = [];
}

failed_start-overwrites_example :
    (disk : Disk) × ((main (world "no jobs") ("kiwibes" ∷ "/home/kiwibes/" ∷ []) unset).0
      ≡ ok json_parse_fail)
    × (cleanup quits (main (world "no jobs") ("kiwibes" ∷ "/home/kiwibes/" ∷ []) unset).1
        ≡ finished (without_manager disk))
    × (disk.content (jobs_db_file home) ≡ some "{}")
unfolding parse_and_validate_command_line parse_command_line parse_options validate_command_line
    load Database.new catch_parse_error
failed_start-overwrites_example =
    failed_start-overwrites (world "no jobs") ("kiwibes" ∷ "/home/kiwibes/" ∷ []) unset home quits
      json_parse_fail refl refl refl refl

starts :
    StartsOn
      (world "{}")
      ("kiwibes" ∷ "/home/kiwibes/" ∷ [])
      unset
      home
      "{}"
      idle_jobs
      (sleeps false 0)
unfolding has_all schedule_of parse_and_validate_command_line parse_command_line parse_options
    validate_command_line
starts = record {
  accepted = refl;
  certified = refl;
  opens = refl;
  parses = refl;
  root = refl;
  complete = refl;
  keeps = idle-keeps;
}

main-Ready_example :
    (c : Context) × (main (world "{}") ("kiwibes" ∷ "/home/kiwibes/" ∷ []) unset
      ≡ (ok no_error, all c))
    × Ready (sleeps false 0) c.scheduler
main-Ready_example =
    main-Ready toy_laws (world "{}") ("kiwibes" ∷ "/home/kiwibes/" ∷ []) unset home "{}" idle_jobs
      (sleeps false 0) starts λ i j e. e

-- A manager whose server has exited, with the jobs saved.
abbrev rested : Manager
rested = record {
  database = record (one_job false 0) { disk = write_file "jobs.json" "{}" (disk_of "{}") };
  active_jobs = [];
  killed = [];
  watcher_exit = true;
}

abbrev still : Exit
still = record { now = 9; address = 100; passes = []; joining = []; between = []; reports = [] }

rested-IsManaged : IsManaged rested
unfolding Map.find
rested-IsManaged =
    let h = one_job-Stores false 0 in
    record {
      system = record { active = []; jobs = sleeps false 0 };
      runs = record {
        active = refl;
        stored = record {
          table = h.table;
          shows = record { root = h.shows.root; objects = h.shows.objects; shown = h.shows.shown };
          holds = h.holds;
        };
      };
      synced = record {
        at_name =
            λ name. elim (Bool-cases ("sleep" == name)) [ inl e ↦ rw e refl | inr e ↦ rw e refl ];
      };
    }

rested-Leaves : Leaves still rested rested
unfolding watch
rested-Leaves = record {
  saved = (disk_of "{}", refl);
  killed = refl;
  watcher_exit = refl;
  managed = rested-IsManaged;
}

main-restarts_example :
    (c : Context) × (main (world "{}") ("kiwibes" ∷ "/home/kiwibes/" ∷ []) unset
      ≡ (ok no_error, all c))
    × Ready rested-Leaves.managed.system.jobs c.scheduler
unfolding parse_and_validate_command_line parse_command_line parse_options validate_command_line
main-restarts_example =
    main-restarts toy_laws (world "{}") ("kiwibes" ∷ "/home/kiwibes/" ∷ []) unset home still rested
      rested rested-Leaves refl refl refl refl refl λ i j e. e

-- The scheduler after the thread has received the exit event.
abbrev joined : Scheduler
joined = record { manager = busy; heap = []; events = []; is_running = false }

cleanup-exits_example :
    (m : Manager) × (cleanup quits (all busy_server) ≡ finished (exited m (some [])))
    × Leaves quits busy m
unfolding kiwibes.Scheduler.load
cleanup-exits_example =
    cleanup-exits toy_laws quits busy_server 9 (answers 50) [] [] refl
      (record { distinct = tt; owned = λ a. refl }) busy-IsManaged refl (omega arith)
      (record { queued = refl; greatest = (omega arith, tt) }) refl
