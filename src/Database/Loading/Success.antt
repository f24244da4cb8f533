-- ===== src/Database/Loading/Success.antt =====
-- `load` of a file whose jobs have every field.
use kiwibes.Prelude.{
  ◌≡◌, refl, sym, subst, String, Option, none, some, [], ◌∷◌, some_inj, true, false, Bool-cases,
  inl, inr, ◌==◌,
}
use kiwibes.Prelude.Int.{pos}
use kiwibes.Errors.{KiwibesError, no_error}
use kiwibes.Exec.{Result, ok}
use kiwibes.Platform.{Platform}
use kiwibes.Platform.Laws.{PlatformLaws, lookup_item}
use kiwibes.Database.{Database, load, load_file, load_text, load_parsed, reset_on_error}
use kiwibes.Database.Table.{Row, row_of, rows, cell}
use kiwibes.Database.Spec.{Job, Jobs, Stores, HoldsJob, RowHolds}
use kiwibes.Database.Loading.Resets.{Items, IsReset, Resets, all_complete, check_jobs-Loops}

module _ ⦃P : Platform⦄ where
  open P use {
    Json, null, parse, member, is_map, items, get_strings, get_string, get_time, get_double,
    get_ulong,
  }

  -- The fields of a job of the file that a load keeps.
  pub record KeepsJob (row : Row) (job : Job) : Type 0 where
    pub program : cell get_strings "program" row ≡ some job.program
    pub schedule : cell get_string "schedule" row ≡ some job.schedule
    pub max_runtime : cell get_time "max-runtime" row ≡ some job.max_runtime
    pub avg_runtime : cell get_double "avg-runtime" row ≡ some job.avg_runtime
    pub var_runtime : cell get_double "var-runtime" row ≡ some job.var_runtime
    pub nbr_runs : cell get_ulong "nbr-runs" row ≡ some job.nbr_runs

  abbrev pub RowKeeps : Option Row → Option Job → Type 0
  RowKeeps none none = Unit {0}
  RowKeeps (some row) (some job) = KeepsJob row job
  RowKeeps _ _ = ⊥

  -- A job that does not run, never started and without queued starts.
  abbrev pub at_rest : Job → Job
  at_rest job = record job { running = false; start_time = pos 0; pending = pos 0 }

  abbrev pub all_at_rest : Jobs → Jobs
  all_at_rest jobs name = elim (jobs name) [ none ↦ none | some job ↦ some (at_rest job) ]

  -- What a successful load leaves.
  pub record Loads (fname : String) (v : Json) (db : Database) (jobs : Jobs)
      (r : Result KiwibesError × Database) : Type 0 where
    pub result : r.0 ≡ ok no_error
    pub path : r.1.path ≡ fname
    pub disk : r.1.disk ≡ db.disk
    pub resets : Resets (items v) (items r.1.jobs)
    pub stored : Stores r.1 (all_at_rest jobs)

  -- A load that has ended without an error, and what it has done to the entries.
  pub record Completes (fname : String) (v : Json) (db : Database)
      (r : Result KiwibesError × Database) : Type 0 where
    pub result : r.0 ≡ ok no_error
    pub path : r.1.path ≡ fname
    pub disk : r.1.disk ≡ db.disk
    pub root : is_map r.1.jobs ≡ true
    pub resets : Resets (items v) (items r.1.jobs)

  abbrev pub RowReset : Option Json → Option Json → Type 0
  RowReset none none = Unit {0}
  RowReset (some job) (some w) = IsReset job w
  RowReset _ _ = ⊥

  pub Resets-lookup :
      (name : String) (l l' : Items)
      → Resets l l'
      → RowReset (lookup_item name l) (lookup_item name l')
  Resets-lookup name [] [] r = tt
  Resets-lookup name ((none, v) ∷ l) ((none, w) ∷ l') r = Resets-lookup name l l' r.2
  Resets-lookup name ((none, v) ∷ l) ((some k, w) ∷ l') r = absurd (cc)
  Resets-lookup name ((some k, v) ∷ l) ((none, w) ∷ l') r = absurd (cc)
  Resets-lookup name ((some k, v) ∷ l) ((some j, w) ∷ l') r = elim (Bool-cases (k == name)) [
    | inl e ↦ rw (some_inj (sym r.0), e) r.1
    | inr e ↦ rw (some_inj (sym r.0), e) (Resets-lookup name l l' r.2)
  ]
  Resets-lookup name [] (x ∷ l') r = elim r [ ]
  Resets-lookup name ((none, v) ∷ l) [] r = elim r [ ]
  Resets-lookup name ((some k, v) ∷ l) [] r = elim r [ ]

  module _ (L : PlatformLaws P) where
    IsReset-HoldsJob :
        (v w : Json) (job : Job)
        → IsReset v w
        → KeepsJob (member v) job
        → HoldsJob (member w) (at_rest job)
    IsReset-HoldsJob v w job r k = record {
      program = rw (cell, r.cells "program") k.program;
      schedule = rw (cell, r.cells "schedule") k.schedule;
      max_runtime = rw (cell, r.cells "max-runtime") k.max_runtime;
      avg_runtime = rw (cell, r.cells "avg-runtime") k.avg_runtime;
      var_runtime = rw (cell, r.cells "var-runtime") k.var_runtime;
      status = rw (cell, r.cells "status") (L.get-of_string "stopped");
      start_time = rw (cell, r.cells "start-time") (L.get_time-of_int (pos 0));
      nbr_runs = rw (cell, r.cells "nbr-runs") k.nbr_runs;
      pending = rw (cell, r.cells "pending-start") (L.get_int-of_int (pos 0));
    }

    row-holds :
        (o p : Option Json) (job : Option Job)
        → RowReset o p
        → RowKeeps (row_of o) job
        → RowHolds (row_of p) (elim job [ none ↦ none | some j ↦ some (at_rest j) ])
    row-holds none none none r k = tt
    row-holds (some v) (some w) (some job) r k = IsReset-HoldsJob v w job r k
    row-holds none none (some job) r k = elim k [ ]
    row-holds (some v) (some w) none r k = elim k [ ]
    row-holds none (some w) job r k = elim r [ ]
    row-holds (some v) none job r k = elim r [ ]

    reset-root : (o p : Option Json) (w : Json) → RowReset o p → p ≡ some w → is_map w ≡ true
    reset-root (some v) (some w') w r e = rw (← some_inj e) r.root
    reset-root none none w r e = absurd (cc)
    reset-root none (some w') w r e = elim r [ ]
    reset-root (some v) none w r e = elim r [ ]

    loaded-Stores :
        (v w : Json) (jobs : Jobs) (db : Database)
        → Resets (items v) (items w)
        → is_map w ≡ true
        → db.jobs ≡ w
        → ((name : String) → RowKeeps (row_of (member v name)) (jobs name))
        → Stores db (all_at_rest jobs)
    loaded-Stores v w jobs db r root same keeps =
        let reset : (name : String) → RowReset (member v name) (member w name) = λ name.
          rw (L.member-items v name, L.member-items w name)
            (Resets-lookup name (items v) (items w) r) in
        record {
          table = rows db;
          shows = record {
            root = rw same root;
            objects = λ name job e.
                reset-root (member v name) (member w name) job (reset name) (rw (← same) e);
            shown = λ name. refl;
          };
          holds = λ name.
              rw same
                (row-holds (member v name) (member w name) (jobs name) (reset name) (keeps name));
        }

    -- Whatever the types of the fields are.
    pub load-Completes :
        (fname text : String) (v : Json) (db : Database)
        → db.disk.content fname ≡ some text
        → parse text ≡ ok v
        → is_map v ≡ true
        → all_complete (items v) ≡ true
        → Completes fname v db (load fname db)
    unfolding load load_file load_text load_parsed reset_on_error
    load-Completes fname text v db opens parses root complete =
        let l =
          check_jobs-Loops L (items v) [] 0 (record db { path = fname; jobs = v }) refl refl root
            complete in
        rw (opens, load_file, parses, load_text, load_parsed, l.result)
          (record {
            result = refl;
            path = refl;
            disk = refl;
            root = l.root;
            resets = subst (Resets (items v)) (sym l.left) l.resets;
          })

    -- If the file can be opened and parsed as an object, and every entry has every field, those
    -- that a load keeps with their types, then `load` ends without an error and an exception, the
    -- database stands for the jobs of the file, each of them stopped, with no start time and no
    -- queued start, and the files are as before.
    pub load-Loads :
        (fname text : String) (v : Json) (jobs : Jobs) (db : Database)
        → db.disk.content fname ≡ some text
        → parse text ≡ ok v
        → is_map v ≡ true
        → all_complete (items v) ≡ true
        → ((name : String) → RowKeeps (row_of (member v name)) (jobs name))
        → Loads fname v db jobs (load fname db)
    load-Loads fname text v jobs db opens parses root complete keeps =
        let c = load-Completes fname text v db opens parses root complete in
        record {
          result = c.result;
          path = c.path;
          disk = c.disk;
          resets = c.resets;
          stored =
              loaded-Stores v (load fname db).1.jobs jobs (load fname db).1 c.resets c.root refl
                keeps;
        }
