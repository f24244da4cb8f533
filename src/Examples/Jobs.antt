-- ===== src/Examples/Jobs.antt =====
-- Runs of the database and of the jobs manager on the small platform.
use kiwibes.Prelude.{
  ℕ, ◌≡◌, refl, none, some, List, [], ◌∷◌, Bool, true, false, ◌==◌, if◌then◌else◌, Bool-cases, inl,
  inr, arith, sym, ap, some_inj, ◌∙◌,
}
use kiwibes.Prelude.Int.{pos, to_int}
use kiwibes.Exec.{ok}
use kiwibes.Map
use kiwibes.Database
use kiwibes.Database.Saving.{IsSaved, apply, deletes, apply-IsSaved}
use kiwibes.Database.{Database}
use kiwibes.Database.Runs.{job_stopped}
use kiwibes.Database.Changes.{delete_job, create_job, edit_job}
use kiwibes.Database.Spec.{Job, Jobs, HoldsJob, Stores, Refines, status_text, spec_stopped}
use kiwibes.Database.Refinement.Starts.{job_stopped-Refines}
use kiwibes.Manager.{Manager, Fork, Report, in_parent, exited, failed, start_job, stop_job, watch}
use kiwibes.Manager.Stops.{spec_stop, stop_job-kills}
use kiwibes.Manager.Spec.{System, Runs, Implements, spec_start_job, spec_watch}
use kiwibes.Manager.Refinement.{start_job-Implements}
use kiwibes.Manager.Refinement.Ends.{watch-Implements}
use kiwibes.Manager.Invariant.{IsManaged, IsSynced}
use kiwibes.Manager.Queue.{Drained, all_ended}
use kiwibes.Manager.Starts.{accepted, start_all, starts-drain}
use kiwibes.Examples.Toy.{Value, object, entry, end, word, int, real, texts, toy, toy_laws}

-- The job "sleep", running or not, with a number of queued starts.
abbrev pub sleep_value : Bool → ℕ → Value
sleep_value running n = object (
    entry "program" (texts ("/bin/sleep" ∷ "1" ∷ [])) (
      entry "schedule" (word "* * * * * *") (
        entry "max-runtime" (int (pos 5)) (
          entry "avg-runtime" (real 0) (
            entry "var-runtime" (real 0) (
              entry "status" (word (status_text running)) (
                entry "start-time" (int (pos 0))
                  (entry "nbr-runs" (int (pos 3)) (entry "pending-start" (int (pos n)) end)))))))))

abbrev pub sleep_job : Bool → ℕ → Job
sleep_job running n = record {
  program = "/bin/sleep" ∷ "1" ∷ [];
  schedule = "* * * * * *";
  max_runtime = pos 5;
  avg_runtime = 0;
  var_runtime = 0;
  running = running;
  start_time = pos 0;
  nbr_runs = 3;
  pending = to_int (pos n);
}

abbrev pub one_job : Bool → ℕ → Database
one_job running n = record {
  path = "jobs.json";
  jobs = object (entry "sleep" (sleep_value running n) end);
  disk = record { content = λ path. none; is_writable = λ path. true };
}

abbrev pub sleeps : Bool → ℕ → Jobs
sleeps running n name = if "sleep" == name then some (sleep_job running n) else none

sleep_row-HoldsJob :
    (running : Bool) (n : ℕ) → HoldsJob (toy.member (sleep_value running n)) (sleep_job running n)
sleep_row-HoldsJob running n = record {
  program = refl;
  schedule = refl;
  max_runtime = refl;
  avg_runtime = refl;
  var_runtime = refl;
  status = refl;
  start_time = refl;
  nbr_runs = refl;
  pending = refl;
}

is_map_one :
    (b : Bool) (v job : Value)
    → (if b then some v else none) ≡ some job
    → toy.is_map v ≡ true
    → toy.is_map job ≡ true
is_map_one true v job h e = ap toy.is_map (sym (some_inj h)) ∙ e
is_map_one false v job h e = cc

pub one_job-Stores : (running : Bool) (n : ℕ) → Stores (one_job running n) (sleeps running n)
one_job-Stores running n = record {
  table = λ name. if "sleep" == name then some (toy.member (sleep_value running n)) else none;
  shows = record {
    root = refl;
    objects = λ name job h. is_map_one ("sleep" == name) (sleep_value running n) job h refl;
    shown = λ name. elim (Bool-cases ("sleep" == name)) [ inl e ↦ rw e refl | inr e ↦ rw e refl ];
  };
  holds = λ name. elim (Bool-cases ("sleep" == name)) [
    | inl e ↦ rw e (sleep_row-HoldsJob running n)
    | inr e ↦ rw e tt
  ];
}

job_stopped-Refines_example :
    Refines (job_stopped 9 "sleep" (one_job true 2)) (spec_stopped 9 "sleep" (sleeps true 2))
job_stopped-Refines_example =
    job_stopped-Refines toy_laws 9 "sleep" (one_job true 2) (sleeps true 2) (one_job-Stores true 2)

-- A manager whose process 41 runs the job, with two starts queued.
abbrev pub busy : Manager
busy = record {
  database = one_job true 2;
  active_jobs = ("sleep", pos 41) ∷ [];
  killed = [];
  watcher_exit = false;
}

abbrev pub busy_system : System
busy_system = record { active = ("sleep", pos 41) ∷ []; jobs = sleeps true 2 }

pub busy-Runs : Runs busy busy_system
busy-Runs = record { active = refl; stored = one_job-Stores true 2 }

pub busy-IsSynced : IsSynced busy_system
unfolding Map.find
busy-IsSynced = record {
  at_name = λ name. elim (Bool-cases ("sleep" == name)) [ inl e ↦ rw e refl | inr e ↦ rw e refl ];
}

pub busy-IsManaged : IsManaged busy
busy-IsManaged = record { system = busy_system; runs = busy-Runs; synced = busy-IsSynced }

abbrev pub reports : List Report
reports =
    record { pid = pos 41; status = exited; stopped_at = 50; fork = in_parent 42; started_at = 51 }
    ∷ record {
      pid = pos 42;
      status = exited;
      stopped_at = 60;
      fork = in_parent 43;
      started_at = 61;
    }
    ∷ record {
      pid = pos 43;
      status = exited;
      stopped_at = 70;
      fork = in_parent 44;
      started_at = 71;
    }
    ∷ []

-- Two starts of the running job, the second with a `fork` that would fail.
abbrev two_calls : List (Fork × ℕ)
two_calls = (in_parent 50, 40) ∷ (failed, 45) ∷ []

abbrev busy_once : Manager
busy_once = record busy { database = one_job true 0 }

start_job-Implements_example :
    Implements (start_job "sleep" failed 5 busy) (spec_start_job "sleep" failed 5 busy_system)
start_job-Implements_example =
    start_job-Implements toy_laws "sleep" failed 5 busy busy_system busy-Runs

watch-Implements_example : Implements (watch reports busy) (tt, spec_watch reports busy_system)
watch-Implements_example = watch-Implements toy_laws reports busy busy_system busy-Runs

starts-drain_example :
    ((start_all "sleep" two_calls busy_once).0 ≡ ok (accepted two_calls))
    × Drained "sleep" (all_ended "sleep" reports (start_all "sleep" two_calls busy_once).1) 6
unfolding Map.find
starts-drain_example =
    starts-drain toy_laws "sleep" two_calls reports busy_once
      (record { active = ("sleep", pos 41) ∷ []; jobs = sleeps true 0 }) (pos 41) 0 3 (omega arith)
      refl ((42, refl), ((43, refl), ((44, refl), tt)))
      (record { active = refl; stored = one_job-Stores true 0 }) refl
      (record {
        job = sleep_job true 0;
        known = refl;
        running = refl;
        queued = refl;
        counted = refl;
      })

stop_job-kills_example :
    stop_job "sleep" busy
    ≡ spec_stop (busy_system.jobs "sleep") (Map.find "sleep" busy_system.active) busy
stop_job-kills_example = stop_job-kills "sleep" busy busy_system busy-Runs

apply-IsSaved_example : IsSaved (apply (deletes "sleep") (one_job false 0)).1
unfolding delete_job Database.field kiwibes.Database.Changes.remove_job Database.unsafe_save
apply-IsSaved_example = apply-IsSaved (deletes "sleep") (one_job false 0) refl refl
