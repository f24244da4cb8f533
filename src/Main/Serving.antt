-- ===== src/Main/Serving.antt =====
-- A server that has started, and what its steps keep.
use kiwibes.Prelude.{
  Bool, any, ◌||◌, ◌==◌, false, ℕ, ◌≡◌, refl, sym, subst, ◌∙◌, String, Option, none, some, List, [],
  true, false,
}
use kiwibes.Errors.{KiwibesError, no_error}
use kiwibes.Exec.{Result, ok}
use kiwibes.Map
use kiwibes.Platform.{Platform}
use kiwibes.Platform.Laws.{PlatformLaws}
use kiwibes.CmdLine.{Options, parse_and_validate_command_line}
use kiwibes.Database.{Database}
use kiwibes.Database
use kiwibes.Database.Spec.{Job, Jobs, Stores}
use kiwibes.Database.Table.{row_of}
use kiwibes.Database.Loading.Resets.{all_complete}
use kiwibes.Database.Loading.Success.{RowKeeps, all_at_rest, at_rest, load-Loads}
use kiwibes.Manager.{Manager}
use kiwibes.Manager
use kiwibes.Manager.Invariant.{IsManaged, is_running}
use kiwibes.Scheduler.{Scheduler, load, scheduled_names, get_all_scheduled_job_names}
use kiwibes.Scheduler.Ownership.{Owns}
use kiwibes.Main.Scheduling.{schedule_jobs-Queues}
use kiwibes.Database.Names.Scheduled.{is_scheduled}
use kiwibes.Scheduler
use kiwibes.Rest.{Context, on_scheduler}
use kiwibes.Main.{
  World, Call, all, jobs_db_file, server_certificate, server_priv_key, schedule_jobs, create,
  after_load, serve, initialize_kiwibes, main,
}
use kiwibes.Main.Start.{main-accepted}

or_false : (a : Bool) → (a || false) ≡ a
or_false true = refl
or_false false = refl

module _ ⦃P : Platform⦄ where
  open P use {Json, parse, member, is_map, items}

  at_rest-stopped :
      (o : Option Job) → is_running (elim o [ none ↦ none | some j ↦ some (at_rest j) ]) ≡ false
  at_rest-stopped none = refl
  at_rest-stopped (some j) = refl

  created-IsManaged :
      (o : Options) (db : Database) (jobs : Jobs)
      → Stores db (all_at_rest jobs)
      → IsManaged (create o db).scheduler.manager
  unfolding create Scheduler.new Manager.new Map.find
  created-IsManaged o db jobs h = record {
    system = record { active = []; jobs = all_at_rest jobs };
    runs = record { active = refl; stored = h };
    synced = record { at_name = λ name. at_rest-stopped (jobs name) };
  }

  -- A start of the server on this file.
  pub record StartsOn (w : World) (argv : List String) (u o : Options) (text : String) (v : Json)
      (jobs : Jobs) : Type 0 where
    pub accepted : parse_and_validate_command_line w.exists argv u ≡ (no_error, o)
    pub certified : w.is_valid (server_certificate o) (server_priv_key o) ≡ true
    pub opens : w.disk.content (jobs_db_file o) ≡ some text
    pub parses : parse text ≡ ok v
    pub root : is_map v ≡ true
    pub complete : all_complete (items v) ≡ true
    pub keeps : (name : String) → RowKeeps (row_of (member v name)) (jobs name)

  pub after_load-serves :
      (w : World) (o : Options) (r : Result KiwibesError × Database)
      → r.0 ≡ ok no_error
      → after_load w o r ≡ serve w o (create o r.1)
  after_load-serves w o (r, db) h = rw h refl

  serve-valid :
      (w : World) (o : Options) (c : Context)
      → w.is_valid (server_certificate o) (server_priv_key o) ≡ true
      → (schedule_jobs w.calls c.scheduler).0 ≡ ok no_error
      → serve w o c ≡ (ok no_error, all (on_scheduler (schedule_jobs w.calls) c).1)
  serve-valid w o c v h = rw (v, h) refl

  at_rest-scheduled :
      (o : Option Job)
      → is_scheduled (elim o [ none ↦ none | some j ↦ some (at_rest j) ]) ≡ is_scheduled o
  at_rest-scheduled none = refl
  at_rest-scheduled (some j) = refl

  -- The database stands for these jobs at rest, exactly the running jobs are active, each allocated event is queued once, and exactly the jobs
  -- whose schedule is valid and not empty are scheduled.
  pub record Ready (jobs : Jobs) (s : Scheduler) : Type 0 where
    pub stored : Stores s.manager.database (all_at_rest jobs)
    pub managed : IsManaged s.manager
    pub owns : Owns s.events s.heap
    pub scheduled :
        (name : String)
        → any (λ k. k == name) (get_all_scheduled_job_names s) ≡ is_scheduled (jobs name)

  created-Ready :
      (L : PlatformLaws P) (calls : ℕ → Call) (o : Options) (db : Database) (jobs : Jobs)
      → Stores db (all_at_rest jobs)
      → ((i j : ℕ) → (calls i).address ≡ (calls j).address → i ≡ j)
      → ((schedule_jobs calls (create o db).scheduler).0 ≡ ok no_error)
        × Ready jobs (schedule_jobs calls (create o db).scheduler).1
  unfolding create Scheduler.new Manager.new load get_all_scheduled_job_names scheduled_names
  created-Ready L calls o db jobs h apart =
      let (names, queued, listed) =
        schedule_jobs-Queues L calls (create o db).scheduler (all_at_rest jobs) h
          (record { distinct = tt; owned = λ a. refl })
          (record { apart = apart; free = λ i. refl }) in
      (
        queued.result,
        record {
          stored =
              subst (λ (m : Manager). Stores m.database (all_at_rest jobs)) (sym queued.manager) h;
          managed = subst IsManaged (sym queued.manager) (created-IsManaged o db jobs h);
          owns = queued.owns;
          scheduled = λ name.
              queued.exact name
              ∙ or_false (any (λ k. k == name) names)
              ∙ listed name
              ∙ at_rest-scheduled (jobs name);
        },
      )

  -- If the command line is accepted, the certificate and the key are valid, the file kiwibes.json
  -- of the home folder can be opened and parsed as an object in which every entry has every field,
  -- those that a load keeps with the types of the jobs of a map, and `new` returns different
  -- addresses, then `main` reaches the loop of the HTTPS server without an error, with a database
  -- that stands for these jobs, each stopped and with no queued starts, exactly the jobs active
  -- that it calls running, each allocated event queued once, and exactly the jobs scheduled whose
  -- schedule is valid and not empty.
  pub main-Ready :
      (L : PlatformLaws P) (w : World) (argv : List String) (u o : Options) (text : String)
      (v : Json) (jobs : Jobs)
      → StartsOn w argv u o text v jobs
      → ((i j : ℕ) → (w.calls i).address ≡ (w.calls j).address → i ≡ j)
      → (c : Context) × (main w argv u ≡ (ok no_error, all c)) × Ready jobs c.scheduler
  unfolding initialize_kiwibes Database.new
  main-Ready L w argv u o text v jobs s apart =
      let db = Database.new w.disk in
      let loaded =
        load-Loads L (jobs_db_file o) text v jobs db s.opens s.parses s.root s.complete s.keeps in
      let after = (Database.load (jobs_db_file o) db).1 in
      let c = create o after in
      let (ended, ready) = created-Ready L w.calls o after jobs loaded.stored apart in
      (
        (on_scheduler (schedule_jobs w.calls) c).1,
        main-accepted w argv u o s.accepted
            ∙ after_load-serves w o (Database.load (jobs_db_file o) db) loaded.result
            ∙ serve-valid w o c s.certified ended,
        ready,
      )
