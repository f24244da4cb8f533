-- ===== src/Database/Saving.antt =====
-- Which changes of the jobs are on the disk when the call has ended.
use kiwibes.Prelude.{
  ℕ, ◌+◌, ◌%◌, ◌^◌, ap, ◌≡◌, refl, String, some, Bool, true, false, not, ◌||◌, if◌then◌else◌, ◌==◌,
  eq_refl,
}
use kiwibes.Prelude.Int.{pos, ◌-ℤ◌}
use kiwibes.Errors.{
  KiwibesError, no_error, job_name_unknown, job_name_taken, job_description_invalid, job_is_running,
  job_is_not_running, is_ok,
}
use kiwibes.Exec.{Exec, Result, ok, throws, continue, ◌>>=◌, ◌>>◌, pure}
use kiwibes.Platform.{Platform}
use kiwibes.Database.{Database, has, field, set_field, unsafe_save}
use kiwibes.Database.Changes.{
  detail, create_job, fill_job, edit_job, edit_program, edit_schedule, edit_max_runtime, delete_job,
  remove_job,
}
use kiwibes.Database.Runs.{job_stopped, next_avg, next_var}

module _ ⦃P : Platform⦄ where
  open P use {
    Json, print, get_strings, get_string, get_time, get_ulong, get_double, of_strings, of_string,
    of_int, of_double, double_zero,
  }

  -- The changes that are saved.
  pub data Change : Type 0 where
    creates edits : String → Json → Change
    deletes : String → Change
    stops : ℕ → String → Change

  abbrev pub apply : Change → Exec Database KiwibesError
  apply (creates name details) = create_job name details
  apply (edits name details) = edit_job name details
  apply (deletes name) = delete_job name
  apply (stops now name) = job_stopped now name

  -- The file of the database holds the text of its jobs.
  pub record IsSaved (db : Database) : Type 0 where
    pub on_disk : db.disk.content db.path ≡ some (print db.jobs)

  -- A block that saves the jobs if it ends with this result.
  abbrev SavesAt : Result KiwibesError × Database → Type 0
  SavesAt (ok e, db) = is_ok e ≡ true → db.disk.is_writable db.path ≡ true → IsSaved db
  SavesAt (throws x, db) = Unit

  abbrev Saves : Exec Database KiwibesError → Type 0
  Saves f = (db : Database) → SavesAt (f db)

  continue-SavesAt :
      {A : Type 0} (r : Result A) (f : A → Exec Database KiwibesError) (db : Database)
      → ((a : A) → Saves (f a))
      → SavesAt (continue r f db)
  continue-SavesAt (ok a) f db k = k a db
  continue-SavesAt (throws e) f db k = tt

  Saves-bind :
      {A : Type 0} (x : Exec Database A) (f : A → Exec Database KiwibesError)
      → ((a : A) → Saves (f a))
      → Saves (x >>= f)
  Saves-bind x f k db = continue-SavesAt (x db).0 f (x db).1 k

  Saves-save : Saves (unsafe_save >> pure no_error)
  unfolding unsafe_save
  Saves-save db fine writable = record { on_disk = rw (eq_refl db.path, writable) refl }

  SavesAt-if :
      (b : Bool) (x y : Exec Database KiwibesError) (db : Database)
      → SavesAt (x db)
      → SavesAt (y db)
      → SavesAt ((if b then x else y) db)
  SavesAt-if true x y db h k = h
  SavesAt-if false x y db h k = k

  Saves-refuse : (e : KiwibesError) → is_ok e ≡ false → Saves (pure e)
  Saves-refuse e bad db fine writable = absurd (cc)

  remove-Saves : (name : String) → Saves (remove_job name >> (unsafe_save >> pure no_error))
  remove-Saves name = Saves-bind (remove_job name) _ λ _. Saves-save

  fill_job-Saves : (name : String) (details : Json) → Saves (fill_job name details)
  unfolding fill_job
  fill_job-Saves name details = Saves-bind (detail get_strings "program" details) _ λ program.
      Saves-bind (set_field name "program" (of_strings program)) _ λ _.
        Saves-bind (detail get_string "schedule" details) _ λ schedule.
          Saves-bind (set_field name "schedule" (of_string schedule)) _ λ _.
            Saves-bind (detail get_time "max-runtime" details) _ λ max_runtime.
              Saves-bind (set_field name "max-runtime" (of_int max_runtime)) _ λ _.
                Saves-bind (set_field name "avg-runtime" (of_double double_zero)) _ λ _.
                  Saves-bind (set_field name "var-runtime" (of_double double_zero)) _ λ _.
                    Saves-bind (set_field name "status" (of_string "stopped")) _ λ _.
                      Saves-bind (set_field name "pending-start" (of_int (pos 0))) _ λ _.
                        Saves-bind (set_field name "start-time" (of_int (pos 0))) _ λ _.
                          Saves-bind (set_field name "nbr-runs" (of_int (pos 0))) _ λ _. Saves-save

  create_job-Saves : (name : String) (details : Json) → Saves (create_job name details)
  unfolding create_job
  create_job-Saves name details db =
      SavesAt-if
        (not (has details "program")
          || not (has details "schedule")
          || not (has details "max-runtime"))
        (pure job_description_invalid)
        (if has db.jobs name then pure job_name_taken else fill_job name details) db
        (Saves-refuse job_description_invalid refl db)
        (SavesAt-if (has db.jobs name) (pure job_name_taken) (fill_job name details) db
          (Saves-refuse job_name_taken refl db) (fill_job-Saves name details db))

  abbrev write_edits : String → Json → Exec Database KiwibesError
  write_edits name details = do
    edit_program name details
    edit_schedule name details
    edit_max_runtime name details
    unsafe_save
    pure no_error

  write_edits-Saves : (name : String) (details : Json) → Saves (write_edits name details)
  write_edits-Saves name details = Saves-bind (edit_program name details) _ λ _.
      Saves-bind (edit_schedule name details) _
        λ _. Saves-bind (edit_max_runtime name details) _ λ _. Saves-save

  -- The change of a known job, whose status is tested first.
  known-SavesAt :
      (name status : String) (error : KiwibesError) (change : Exec Database KiwibesError)
      (db : Database)
      → is_ok error ≡ false
      → Saves change
      → SavesAt (
          (if not (has db.jobs name) then pure job_name_unknown else do
            found ← field get_string name "status"
            if found == status then pure error else change)
            db)
  known-SavesAt name status error change db bad h =
      SavesAt-if (not (has db.jobs name)) (pure job_name_unknown)
        (field get_string name "status" >>= λ found. if found == status then pure error else change)
        db (Saves-refuse job_name_unknown refl db)
        (Saves-bind (field get_string name "status")
          (λ found. if found == status then pure error else change)
          (λ found db'.
            SavesAt-if (found == status) (pure error) change db' (Saves-refuse error bad db')
              (h db'))
          db)

  abbrev write_stop : ℕ → String → Exec Database KiwibesError
  write_stop now name = do
    start ← field get_time name "start-time"
    count ← field get_ulong name "nbr-runs"
    avg ← field get_double name "avg-runtime"
    var ← field get_double name "var-runtime"
    let runtime = pos now -ℤ start
    let runs = (count + 1) % 2 ^ 64
    set_field name "status" (of_string "stopped")
    set_field name "start-time" (of_int (pos 0))
    set_field name "avg-runtime" (of_double (next_avg runtime runs avg))
    set_field name "var-runtime" (of_double (next_var runtime runs avg var))
    set_field name "nbr-runs" (of_int (pos runs))
    unsafe_save
    pure no_error

  write_stop-Saves : (now : ℕ) (name : String) → Saves (write_stop now name)
  write_stop-Saves now name = Saves-bind (field get_time name "start-time") _ λ start.
      Saves-bind (field get_ulong name "nbr-runs") _ λ count.
        Saves-bind (field get_double name "avg-runtime") _ λ avg.
          Saves-bind (field get_double name "var-runtime") _ λ var.
            let runtime = pos now -ℤ start in
            let runs = (count + 1) % 2 ^ 64 in
            Saves-bind (set_field name "status" (of_string "stopped")) _ λ _.
              Saves-bind (set_field name "start-time" (of_int (pos 0))) _ λ _.
                Saves-bind (set_field name "avg-runtime" (of_double (next_avg runtime runs avg))) _
                  λ _.
                    Saves-bind
                      (set_field name "var-runtime" (of_double (next_var runtime runs avg var))) _
                      λ _.
                        Saves-bind (set_field name "nbr-runs" (of_int (pos runs))) _ λ _. Saves-save

  apply-Saves : (change : Change) → Saves (apply change)
  unfolding edit_job delete_job job_stopped
  apply-Saves (creates name details) db = create_job-Saves name details db
  apply-Saves (edits name details) db =
      known-SavesAt name "running" job_is_running (write_edits name details) db refl
        (write_edits-Saves name details)
  apply-Saves (deletes name) db =
      known-SavesAt name "running" job_is_running
        (remove_job name >> (unsafe_save >> pure no_error)) db refl (remove-Saves name)
  apply-Saves (stops now name) db =
      known-SavesAt name "stopped" job_is_not_running (write_stop now name) db refl
        (write_stop-Saves now name)

  abbrev succeeds : Result KiwibesError → Bool
  succeeds (ok e) = is_ok e
  succeeds (throws x) = false

  SavesAt-IsSaved :
      (r : Result KiwibesError × Database)
      → SavesAt r
      → r.0 ≡ ok no_error
      → r.1.disk.is_writable r.1.path ≡ true
      → IsSaved r.1
  SavesAt-IsSaved (ok e, db) h same writable = h (ap succeeds same) writable
  SavesAt-IsSaved (throws x, db) h same writable = absurd cc

  -- If `create_job`, `edit_job`, `delete_job` or `job_stopped`, of any name and on any database,
  -- ends without an error and an exception, and the file of the database can be written then, then
  -- the file of the database holds the text of its jobs.
  pub apply-IsSaved :
      (change : Change) (db : Database)
      → (apply change db).0 ≡ ok no_error
      → (apply change db).1.disk.is_writable (apply change db).1.path ≡ true
      → IsSaved (apply change db).1
  apply-IsSaved change db e writable =
      SavesAt-IsSaved (apply change db) (apply-Saves change db) e writable
