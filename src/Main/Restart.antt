-- ===== src/Main/Restart.antt =====
-- A start of the server after its exit.
use kiwibes.Prelude.{ap, eq_refl, refl, ℕ, ◌≡◌, sym, subst, ◌∙◌, String, some, true, List}
use kiwibes.Errors.{no_error}
use kiwibes.Exec.{ok}
use kiwibes.Platform.{Platform}
use kiwibes.Platform.Laws.{PlatformLaws}
use kiwibes.CmdLine.{Options, parse_and_validate_command_line}
use kiwibes.Database.Table.{row_of}
use kiwibes.Database.Spec.{RowHolds}
use kiwibes.Database.Loading.Entries.{Stores-complete}
use kiwibes.Database.Loading.Saved.{row-keeps}
use kiwibes.Database.{Database, Disk, write_file}
use kiwibes.Manager.{Manager}
use kiwibes.Rest.{Context}
use kiwibes.Main.{Exit, World, all, jobs_db_file, server_certificate, server_priv_key, main}
use kiwibes.Main.Serving.{Ready, main-Ready}
use kiwibes.Main.Stop.{Leaves}

module _ ⦃P : Platform⦄ where
  open P use {parse, print, member}

  written :
      (db : Database) (disk : Disk)
      → db.disk ≡ write_file db.path (print db.jobs) disk
      → db.disk.is_writable db.path ≡ true
      → db.disk.content db.path ≡ some (print db.jobs)
  written db disk e writable =
      let could : disk.is_writable db.path ≡ true =
        ap (λ (d : Disk). d.is_writable db.path) (sym e) ∙ writable in
      ap (λ (d : Disk). d.content db.path) e ∙ rw (eq_refl db.path, could) refl

  -- If the server has exited as `cleanup` leaves it, with its jobs written to a file that can be
  -- written, and is started with an accepted command line, valid certificate and key and the saved
  -- file as kiwibes.json of the home folder, whose text parses to the value that was printed, and
  -- `new` returns different addresses, then `main` reaches the loop of the HTTPS server without an
  -- error, with a database that stands for the jobs of before, each stopped and with no queued
  -- starts and the other fields kept, exactly the jobs active that the database calls running, each
  -- allocated event queued once, and exactly the jobs scheduled whose schedule is valid and not
  -- empty.
  pub main-restarts :
      (L : PlatformLaws P) (w : World) (argv : List String) (u o : Options) (x : Exit)
      (before m : Manager) (l : Leaves x before m)
      → parse_and_validate_command_line w.exists argv u ≡ (no_error, o)
      → w.is_valid (server_certificate o) (server_priv_key o) ≡ true
      → w.disk.content (jobs_db_file o) ≡ m.database.disk.content m.database.path
      → m.database.disk.is_writable m.database.path ≡ true
      → parse (print m.database.jobs) ≡ ok m.database.jobs
      → ((i j : ℕ) → (w.calls i).address ≡ (w.calls j).address → i ≡ j)
      → (c : Context) × (main w argv u ≡ (ok no_error, all c))
        × Ready l.managed.system.jobs c.scheduler
  main-restarts L w argv u o x before m l accepts valid file writable parses apart =
      let stored = l.managed.runs.stored in
      main-Ready L w argv u o (print m.database.jobs) m.database.jobs l.managed.system.jobs
        (record {
          accepted = accepts;
          certified = valid;
          opens = file ∙ written m.database l.saved.0 l.saved.1 writable;
          parses = parses;
          root = stored.shows.root;
          complete = Stores-complete L m.database l.managed.system.jobs stored;
          keeps = λ name.
              row-keeps (row_of (member m.database.jobs name)) (l.managed.system.jobs name) (
                subst (λ r. RowHolds r (l.managed.system.jobs name)) (sym (stored.shows.shown name))
                  (stored.holds name));
        })
        apart
