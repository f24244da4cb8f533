-- ===== src/Main/Stop.antt =====
-- The exit of the server.
use kiwibes.Prelude.{
  false, ℕ, ◌≤◌, ap, ◌∙◌, ◌∷◌, none, ◌≡◌, refl, some, List, [], ◌++◌, map, Bool, true,
}
use kiwibes.Exec.{ok}
use kiwibes.Platform.{Platform}
use kiwibes.Platform.Laws.{PlatformLaws}
use kiwibes.Database.{Disk, write_file, save, unsafe_save}
use kiwibes.Manager.{Manager, Handle, Report, stop_all_jobs, destroy, watch}
use kiwibes.Manager.Invariant.{IsManaged, watch-IsManaged}
use kiwibes.Manager.Kills.{signals, watch-Preserves}
use kiwibes.Scheduler.{Answers, load, finished, Scheduler}
use kiwibes.Scheduler.Ownership.{Owns, destroy-frees}
use kiwibes.Scheduler.Queue.{IsGreatest}
use kiwibes.Scheduler.Stopping.{stop_and_join-ends}
use kiwibes.Scheduler.Thread.{stop_and_join}
use kiwibes.Rest.{Context}
use kiwibes.Main.{Exit, all, exited, stop_manager, after_stop, cleanup}

module _ ⦃P : Platform⦄ where
  open P use {print}

  abbrev pub active_handles : Manager → List Handle
  active_handles m = map (λ e. e.1) m.active_jobs

  -- The manager after a `stop_all_jobs`, and after that of its destructor.
  abbrev pub stopped_once : Manager → Manager
  stopped_once m = record m { killed = m.killed ++ active_handles m }

  abbrev pub stopped_last : Manager → Manager
  stopped_last m = record m { killed = m.killed ++ active_handles m; watcher_exit = true }

  -- The managers that the two `stop_all_jobs` of the exit find, and the last one, where the watcher
  -- thread sees these ends of processes before the first, between them, and after the second.
  abbrev pub first_found : List Report → Manager → Manager
  first_found joining m = (watch joining m).1

  abbrev pub second_found : List Report → List Report → Manager → Manager
  second_found joining between m = (watch between (stopped_once (first_found joining m))).1

  abbrev pub last_manager : List Report → List Report → List Report → Manager → Manager
  last_manager joining between reports m =
      (watch reports (stopped_last (second_found joining between m))).1

  -- What is left when the program has exited.
  pub record Leaves (x : Exit) (before after : Manager) : Type 0 where
    pub saved :
        (disk : Disk) × (after.database.disk
          ≡ write_file after.database.path (print after.database.jobs) disk)
    pub killed :
        after.killed
        ≡ (before.killed ++ active_handles (first_found x.joining before))
          ++ active_handles (second_found x.joining x.between before)
    pub watcher_exit : after.watcher_exit ≡ true
    pub managed : IsManaged after

  killed-IsManaged :
      (m : Manager) (handles : List Handle) (exit : Bool)
      → IsManaged m
      → IsManaged (record m { killed = handles; watcher_exit = exit })
  killed-IsManaged m handles exit h = record {
    system = h.system;
    runs = record { active = h.runs.active; stored = h.runs.stored };
    synced = h.synced;
  }

  module _ (L : PlatformLaws P) (x : Exit) (m : Manager) (h : IsManaged m) where
    first : ((watch x.joining m).0 ≡ ok tt) × IsManaged (first_found x.joining m)
    first = watch-IsManaged L x.joining m h

    second :
        ((watch x.between (stopped_once (first_found x.joining m))).0 ≡ ok tt)
        × IsManaged (second_found x.joining x.between m)
    second =
        watch-IsManaged L x.between (stopped_once (first_found x.joining m))
          (killed-IsManaged (first_found x.joining m) _ _ first.1)

    last :
        ((watch x.reports (stopped_last (second_found x.joining x.between m))).0 ≡ ok tt)
        × IsManaged (last_manager x.joining x.between x.reports m)
    last =
        watch-IsManaged L x.reports (stopped_last (second_found x.joining x.between m))
          (killed-IsManaged (second_found x.joining x.between m) _ _ second.1)

    stop_manager_lem : stop_manager x m ≡ (ok tt, last_manager x.joining x.between x.reports m)
    unfolding stop_manager destroy stop_all_jobs
    stop_manager_lem = rw (first.0, second.0, last.0) refl

    last-killed : signals (last_manager x.joining x.between x.reports m) ≡ (
      (m.killed ++ active_handles (first_found x.joining m))
          ++ active_handles (second_found x.joining x.between m),
      true,
    )
    last-killed =
        (watch-Preserves x.reports).at (stopped_last (second_found x.joining x.between m))
        ∙ ap (λ k. (k ++ active_handles (second_found x.joining x.between m), true))
            (ap (λ p. p.0) ((watch-Preserves x.between).at (stopped_once (first_found x.joining m)))
              ∙ ap (λ p. p.0 ++ active_handles (first_found x.joining m))
                  ((watch-Preserves x.joining).at m))

  abbrev pub saved_manager : Manager → Manager
  saved_manager m = record m { database = (save m.database).1 }

  saved-IsManaged : (m : Manager) → IsManaged m → IsManaged (saved_manager m)
  unfolding save unsafe_save
  saved-IsManaged m h = record {
    system = h.system;
    runs = record {
      active = h.runs.active;
      stored = record {
        table = h.runs.stored.table;
        shows = record {
          root = h.runs.stored.shows.root;
          objects = h.runs.stored.shows.objects;
          shown = h.runs.stored.shows.shown;
        };
        holds = h.runs.stored.holds;
      };
    };
    synced = h.synced;
  }

  saved-Leaves :
      (L : PlatformLaws P) (x : Exit) (m : Manager)
      → IsManaged m
      → Leaves x m (saved_manager (last_manager x.joining x.between x.reports m))
  unfolding save unsafe_save
  saved-Leaves L x m h = record {
    saved = ((last_manager x.joining x.between x.reports m).database.disk, refl);
    killed = ap (λ p. p.0) (last-killed L x m h);
    watcher_exit = ap (λ p. p.1) (last-killed L x m h);
    managed = saved-IsManaged (last_manager x.joining x.between x.reports m) (last L x m h).1;
  }

  pub cleanup_lem :
      (L : PlatformLaws P) (x : Exit) (c : Context) (b : Bool) (s : Scheduler)
      → stop_and_join x.now x.address x.passes c.scheduler ≡ finished (some (ok b), s)
      → Owns s.events s.heap
      → IsManaged s.manager
      → cleanup x (all c)
        ≡ finished (
            exited (saved_manager (last_manager x.joining x.between x.reports s.manager)) (some []))
  unfolding cleanup
  cleanup_lem L x c b s joined o h =
      rw (cleanup, joined, after_stop, destroy-frees s o, stop_manager_lem L x s.manager h) refl

  -- If the scheduler thread has ended without an exception, and then the queue holds each allocated
  -- event once and exactly the jobs that the database calls running are active, then `cleanup`
  -- deletes every event once, sends SIGKILL twice to the process of every job that is active then,
  -- and ends without an exception with the jobs saved in their file and the watcher thread told to
  -- end.
  pub cleanup-Leaves :
      (L : PlatformLaws P) (x : Exit) (c : Context) (b : Bool) (s : Scheduler)
      → stop_and_join x.now x.address x.passes c.scheduler ≡ finished (some (ok b), s)
      → Owns s.events s.heap
      → IsManaged s.manager
      → (m : Manager) × (cleanup x (all c) ≡ finished (exited m (some []))) × Leaves x s.manager m
  cleanup-Leaves L x c b s joined o h = (
    saved_manager (last_manager x.joining x.between x.reports s.manager),
    cleanup_lem L x c b s joined o h,
    saved-Leaves L x s.manager h,
  )

  -- If the scheduler runs, its queue holds each allocated event once, exactly the jobs that the
  -- database calls running are active, the exit event gets a free address that is greater than the
  -- queued ones, and the next pass of the scheduler thread is not earlier than that event, then
  -- `cleanup` ends, whatever ends of processes the watcher thread sees before the jobs are stopped
  -- for the first time, between that and the second time, and afterwards: it waits for no further
  -- pass, deletes every event once, sends SIGKILL to the processes of the jobs that are active at
  -- the first time and then of those that are active at the second time, tells the watcher thread
  -- to end, and at last writes the text of the jobs to their file, if that can be written.
  pub cleanup-exits :
      (L : PlatformLaws P) (x : Exit) (c : Context) (later : ℕ) (w : Answers) (ws : List Answers)
      (rest : List (ℕ × List Answers))
      → c.scheduler.is_running ≡ true
      → Owns c.scheduler.events c.scheduler.heap
      → IsManaged c.scheduler.manager
      → x.passes ≡ (later, w ∷ ws) ∷ rest
      → x.now ≤ later
      → IsGreatest x.address (x.address ∷ c.scheduler.events)
      → load x.address c.scheduler.heap ≡ none
      → (m : Manager) × (cleanup x (all c) ≡ finished (exited m (some [])))
        × Leaves x c.scheduler.manager m
  cleanup-exits L x c later w ws rest runs o h passes due g fresh =
      cleanup-Leaves L x c true (record c.scheduler { is_running = false })
        (ap (λ p. stop_and_join x.now x.address p c.scheduler) passes
          ∙ stop_and_join-ends x.now x.address later w ws rest c.scheduler runs g fresh due)
        o h
