-- ===== src/Database/Changes.antt =====
-- source/kiwibes_database.cpp: creating, editing and deleting jobs.
use Prim.Native.String.{◌++◌}
use kiwibes.Prelude.{String, Option, none, some, ◌==◌, if◌then◌else◌, not, ◌||◌}
use kiwibes.Prelude.Int.{pos}
use kiwibes.Errors.{
  KiwibesError, no_error, job_name_unknown, job_name_taken, job_description_invalid, job_is_running,
}
use kiwibes.Exec.{Exec, ok, type_error, out_of_range, ◌>>=◌, ◌>>◌, pure, demand}
use kiwibes.Platform.{Platform}
use kiwibes.Database.{Database, has, field, set_field, unsafe_save}

module _ ⦃P : Platform⦄ where
  open P use {
    Json, double_zero, member, remove_at, get_string, get_time, get_ulong, get_strings, of_string,
    of_int, of_double, of_strings,
  }

  -- `details[key].get<T>()`
  unfoldable pub detail : {A : Type 0} → (Json → Option A) → String → Json → Exec Database A
  detail get key details db = elim (member details key) [
    | none ↦ demand type_error none db
    | some v ↦ demand type_error (get v) db
  ]

  unfoldable pub remove_job : String → Exec Database Unit
  remove_job name db =
      (do
        jobs ← demand out_of_range (remove_at db.jobs ("/" ++ name))
        (λ d. (ok tt, record d { jobs = jobs })))
        db

  unfoldable pub delete_job : String → Exec Database KiwibesError
  delete_job name db =
      (if not (has db.jobs name) then pure job_name_unknown else do
        status ← field get_string name "status"
        if status == "running"
            then pure job_is_running
            else (do remove_job name; unsafe_save; pure no_error))
        db

  -- The fields of a new job, in the order in which they are written.
  unfoldable pub fill_job : String → Json → Exec Database KiwibesError
  fill_job name details = do
    program ← detail get_strings "program" details
    set_field name "program" (of_strings program)
    schedule ← detail get_string "schedule" details
    set_field name "schedule" (of_string schedule)
    max_runtime ← detail get_time "max-runtime" details
    set_field name "max-runtime" (of_int max_runtime)
    set_field name "avg-runtime" (of_double double_zero)
    set_field name "var-runtime" (of_double double_zero)
    set_field name "status" (of_string "stopped")
    set_field name "pending-start" (of_int (pos 0))
    set_field name "start-time" (of_int (pos 0))
    set_field name "nbr-runs" (of_int (pos 0))
    unsafe_save
    pure no_error

  unfoldable pub create_job : String → Json → Exec Database KiwibesError
  create_job name details db =
      (if not (has details "program")
            || not (has details "schedule")
            || not (has details "max-runtime")
          then pure job_description_invalid
          else if has db.jobs name
          then pure job_name_taken
          else fill_job name details)
        db

  unfoldable pub edit_program : String → Json → Exec Database Unit
  edit_program name details =
      if has details "program"
      then (do
        program ← detail get_strings "program" details
        set_field name "program" (of_strings program))
      else pure tt

  unfoldable pub edit_schedule : String → Json → Exec Database Unit
  edit_schedule name details =
      if has details "schedule"
      then (do
        schedule ← detail get_string "schedule" details
        set_field name "schedule" (of_string schedule))
      else pure tt

  unfoldable pub edit_max_runtime : String → Json → Exec Database Unit
  edit_max_runtime name details =
      if has details "max-runtime"
      then (do
        max_runtime ← detail get_ulong "max-runtime" details
        set_field name "max-runtime" (of_int (pos max_runtime)))
      else pure tt

  unfoldable pub edit_job : String → Json → Exec Database KiwibesError
  edit_job name details db =
      (if not (has db.jobs name) then pure job_name_unknown else do
        status ← field get_string name "status"
        if status == "running" then pure job_is_running else (do
          edit_program name details
          edit_schedule name details
          edit_max_runtime name details
          unsafe_save
          pure no_error))
        db
