-- ===== src/Main/Start.antt =====
-- Starts of the server.
use kiwibes.Prelude.{true, ◌≡◌, refl, ap, ◌∙◌, String, some, List, false, eq_refl}
use kiwibes.Errors.{KiwibesError, no_error, is_ok}
use kiwibes.Exec.{Result, ok}
use kiwibes.Platform.{Platform}
use kiwibes.CmdLine.{Options, parse_and_validate_command_line}
use kiwibes.Database.{Database, Disk, load, save, unsafe_save}
use kiwibes.Database.Loading.{load-Fails}
use kiwibes.Database
use kiwibes.Main.{
  World, Exit, database, without_manager, jobs_db_file, initialize_kiwibes, after_load, main,
  cleanup,
}
use kiwibes.Scheduler.{finished}

module _ ⦃P : Platform⦄ where
  open P use {null, print}

  -- `main` behind an accepted command line.
  pub main-accepted :
      (w : World) (argv : List String) (u o : Options)
      → parse_and_validate_command_line w.exists argv u ≡ (no_error, o)
      → main w argv u ≡ initialize_kiwibes w o
  unfolding main
  main-accepted w argv u o e = rw (e, main) refl

  initialize-fails :
      (w : World) (o : Options) (e : KiwibesError) (r : Result KiwibesError × Database)
      → r.0 ≡ ok e
      → is_ok e ≡ false
      → after_load w o r ≡ (ok e, database r.1)
  initialize-fails w o e (r, db) h bad = rw (h, bad) refl

  -- If the command line is accepted and the load of the file kiwibes.json in the home folder
  -- reports an error, and that file can be written, then `main` returns that error, and `cleanup`,
  -- which runs when `main` has returned, writes the text of an empty database over that file,
  -- whatever the file held and whether or not it could be read.
  pub failed_start-overwrites :
      (w : World) (argv : List String) (u o : Options) (x : Exit) (e : KiwibesError)
      → parse_and_validate_command_line w.exists argv u ≡ (no_error, o)
      → (load (jobs_db_file o) (Database.new w.disk)).0 ≡ ok e
      → is_ok e ≡ false
      → w.disk.is_writable (jobs_db_file o) ≡ true
      → (disk : Disk) × ((main w argv u).0 ≡ ok e)
        × (cleanup x (main w argv u).1 ≡ finished (without_manager disk))
        × (disk.content (jobs_db_file o) ≡ some (print null))
  unfolding initialize_kiwibes cleanup save unsafe_save Database.new
  failed_start-overwrites w argv u o x e accepts failed bad writable =
      let loaded = load (jobs_db_file o) (Database.new w.disk) in
      let f = load-Fails (jobs_db_file o) (Database.new w.disk) e failed bad in
      let eq : main w argv u ≡ (ok e, database loaded.1) =
        main-accepted w argv u o accepts ∙ initialize-fails w o e loaded failed bad in
      (
        (save loaded.1).1.disk,
        ap (λ r. r.0) eq,
        ap (λ r. cleanup x r.1) eq,
        rw (f.path, eq_refl (jobs_db_file o), f.disk, writable, f.jobs) refl,
      )
