-- ===== src/Database/Loading/Saved.antt =====
-- `load` of a file that `save` has written.
use kiwibes.Prelude.{true, ◌≡◌, refl, sym, subst, Option, none, some, eq_refl}
use kiwibes.Exec.{ok}
use kiwibes.Platform.{Platform}
use kiwibes.Platform.Laws.{PlatformLaws}
use kiwibes.Database.{Database, load, save, unsafe_save}
use kiwibes.Database
use kiwibes.Database.Table.{Row, row_of}
use kiwibes.Database.Spec.{Job, Jobs, Stores, RowHolds}
use kiwibes.Database.Loading.Entries.{Stores-complete}
use kiwibes.Database.Loading.Success.{Loads, RowKeeps, load-Loads}

module _ ⦃P : Platform⦄ where
  open P use {parse, print, items, member}

  pub row-keeps : (o : Option Row) (job : Option Job) → RowHolds o job → RowKeeps o job
  row-keeps none none h = tt
  row-keeps (some row) (some job) h = record {
    program = h.program;
    schedule = h.schedule;
    max_runtime = h.max_runtime;
    avg_runtime = h.avg_runtime;
    var_runtime = h.var_runtime;
    nbr_runs = h.nbr_runs;
  }
  row-keeps none (some job) h = elim h [ ]
  row-keeps (some row) none h = elim h [ ]

  -- If a database stands for a map of jobs, its file can be written, and its printed text parses to the same value, then a
  -- new database that loads the file which `save` has written ends without an error and stands for
  -- the same jobs, each of them stopped.
  pub save-load :
      (L : PlatformLaws P) (db : Database) (jobs : Jobs)
      → Stores db jobs
      → db.disk.is_writable db.path ≡ true
      → parse (print db.jobs) ≡ ok db.jobs
      → Loads db.path db.jobs
          (Database.new (save db).1.disk)
          jobs
          (load db.path (Database.new (save db).1.disk))
  unfolding save unsafe_save Database.new
  save-load L db jobs h writable parses =
      load-Loads L db.path (print db.jobs) db.jobs jobs (Database.new (save db).1.disk)
        (rw (eq_refl db.path, writable) refl) parses h.shows.root (Stores-complete L db jobs h)
        λ name.
          row-keeps (row_of (member db.jobs name)) (jobs name)
            (subst (λ r. RowHolds r (jobs name)) (sym (h.shows.shown name)) (h.holds name))
