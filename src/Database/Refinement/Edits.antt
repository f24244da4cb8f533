-- ===== src/Database/Refinement/Edits.antt =====
-- Editing jobs.
use kiwibes.Prelude.{
  ℕ, String, ◌≡◌, sym, subst, Option, some, Bool, true, false, List, Bool-cases, inl, inr,
}
use kiwibes.Prelude.Int.{pos}
use kiwibes.Errors.{no_error, job_is_running}
use kiwibes.Exec.{Exec, Result, continue, ◌>>◌}
use kiwibes.Platform.{Platform}
use kiwibes.Platform.Laws.{PlatformLaws}
use kiwibes.Database.{Database, set_field}
use kiwibes.Database.Changes.{edit_job, edit_program, edit_schedule, edit_max_runtime}
use kiwibes.Database.Table.{
  Row, Table, put_row, put_key, cell, Shows, Returns, Returns-pure, Returns-save, Returns-write,
  Returns-read,
}
use kiwibes.Database.Spec.{Job, Jobs, HoldsJob, Stores, Refines, edited, spec_edit}
use kiwibes.Database.Refinement.{Refines-change, status_cell}
use kiwibes.Database.Refinement.Creations.{detail_lem, has_of_cell}

module _ ⦃P : Platform⦄ (L : PlatformLaws P) where
  open P use {
    Json, member, null, of_int, of_string, of_double, of_strings, get_string, get_strings, get_int,
    get_time, get_ulong, get_double, double_zero, remove_at, is_map,
  }

  edit_row :
      (program : List String) (schedule : String) (max_runtime : ℕ) (row : Row) (job : Job)
      (b : Bool)
      → HoldsJob row job
      → job.running ≡ b
      → HoldsJob
          (put_key "max-runtime" (of_int (pos max_runtime)) (
            some (
              put_key "schedule"
                (of_string schedule)
                (some (put_key "program" (of_strings program) (some row))))))
          (record (edited program schedule max_runtime job) { running = b })
  edit_row program schedule max_runtime row job b r e = record {
    program = L.get-of_strings program;
    schedule = L.get-of_string schedule;
    max_runtime = L.get_time-of_int (pos max_runtime);
    avg_runtime = r.avg_runtime;
    var_runtime = r.var_runtime;
    status = status_cell row job b r e;
    start_time = r.start_time;
    nbr_runs = r.nbr_runs;
    pending = r.pending;
  }

  module _ (name : String) (details : Json) where
    edit_program_lem :
        (program : List String) (db : Database)
        → cell get_strings "program" (member details) ≡ some program
        → edit_program name details db ≡ set_field name "program" (of_strings program) db
    unfolding edit_program
    edit_program_lem program db h = rw (
      has_of_cell L get_strings "program" details program h,
      detail_lem L get_strings "program" details db program h,
    )

    edit_schedule_lem :
        (schedule : String) (db : Database)
        → cell get_string "schedule" (member details) ≡ some schedule
        → edit_schedule name details db ≡ set_field name "schedule" (of_string schedule) db
    unfolding edit_schedule
    edit_schedule_lem schedule db h = rw (
      has_of_cell L get_string "schedule" details schedule h,
      detail_lem L get_string "schedule" details db schedule h,
    )

    edit_max_runtime_lem :
        (max_runtime : ℕ) (db : Database)
        → cell get_ulong "max-runtime" (member details) ≡ some max_runtime
        → edit_max_runtime name details db
          ≡ set_field name "max-runtime" (of_int (pos max_runtime)) db
    unfolding edit_max_runtime
    edit_max_runtime_lem max_runtime db h = rw (
      has_of_cell L get_ulong "max-runtime" details max_runtime h,
      detail_lem L get_ulong "max-runtime" details db max_runtime h,
    )

  -- A step that does what another one does.
  Returns-as :
      {B : Type 0} (step other : Exec Database Unit) (k : Exec Database B) (db : Database)
      (u : Table) (b : B)
      → step db ≡ other db
      → Returns ((other >> k) db) b u
      → Returns ((step >> k) db) b u
  Returns-as {B} step other k db u b e r =
      subst (λ (p : Result Unit × Database). Returns (continue p.0 (λ _. k) p.1) b u) (sym e) r

  Returns-edit_program :
      {B : Type 0} (name : String) (details : Json) (program : List String) (k : Exec Database B)
      (o : Option Row) (db : Database) (t u : Table) (b : B)
      → cell get_strings "program" (member details) ≡ some program
      → Shows db (put_row name o t)
      → ((db' : Database)
          → Shows db' (put_row name (some (put_key "program" (of_strings program) o)) t)
          → Returns (k db') b u)
      → Returns ((edit_program name details >> k) db) b u
  Returns-edit_program name details program k o db t u b h sh r =
      Returns-as (edit_program name details) (set_field name "program" (of_strings program)) k db u
        b (edit_program_lem name details program db h)
        (Returns-write L name "program" (of_strings program) k o db t u b sh r)

  Returns-edit_schedule :
      {B : Type 0} (name : String) (details : Json) (schedule : String) (k : Exec Database B)
      (o : Option Row) (db : Database) (t u : Table) (b : B)
      → cell get_string "schedule" (member details) ≡ some schedule
      → Shows db (put_row name o t)
      → ((db' : Database)
          → Shows db' (put_row name (some (put_key "schedule" (of_string schedule) o)) t)
          → Returns (k db') b u)
      → Returns ((edit_schedule name details >> k) db) b u
  Returns-edit_schedule name details schedule k o db t u b h sh r =
      Returns-as (edit_schedule name details) (set_field name "schedule" (of_string schedule)) k db
        u b (edit_schedule_lem name details schedule db h)
        (Returns-write L name "schedule" (of_string schedule) k o db t u b sh r)

  Returns-edit_max_runtime :
      {B : Type 0} (name : String) (details : Json) (max_runtime : ℕ) (k : Exec Database B)
      (o : Option Row) (db : Database) (t u : Table) (b : B)
      → cell get_ulong "max-runtime" (member details) ≡ some max_runtime
      → Shows db (put_row name o t)
      → ((db' : Database)
          → Shows db' (put_row name (some (put_key "max-runtime" (of_int (pos max_runtime)) o)) t)
          → Returns (k db') b u)
      → Returns ((edit_max_runtime name details >> k) db) b u
  Returns-edit_max_runtime name details max_runtime k o db t u b h sh r =
      Returns-as (edit_max_runtime name details)
        (set_field name "max-runtime" (of_int (pos max_runtime))) k db u b
        (edit_max_runtime_lem name details max_runtime db h)
        (Returns-write L name "max-runtime" (of_int (pos max_runtime)) k o db t u b sh r)

  -- On a database that stands for a map of jobs, `edit_job` with details that hold a program, a
  -- schedule and a maximum runtime ends without an exception, with the error and the map of
  -- `spec_edit`: an unknown or a running job is refused, and a stopped one gets these three fields
  -- and keeps the others.
  pub edit_job-Refines :
      (name : String) (details : Json) (program : List String) (schedule : String) (max_runtime : ℕ)
      (db : Database) (m : Jobs)
      → cell get_strings "program" (member details) ≡ some program
      → cell get_string "schedule" (member details) ≡ some schedule
      → cell get_ulong "max-runtime" (member details) ≡ some max_runtime
      → Stores db m
      → Refines (edit_job name details db) (spec_edit program schedule max_runtime name m)
  unfolding edit_job spec_edit
  edit_job-Refines name details program schedule max_runtime db m hp hs hm =
      Refines-change L _ name _ _ db m λ t row job r sh. elim (Bool-cases job.running) [
        | inl runs ↦ simp runs (
          some row,
          r,
          Returns-read L get_string name "status" _ (some row) db t _ "running" job_is_running sh
              (status_cell row job true r runs) (Returns-pure job_is_running db _ sh),
        )
        | inr stops ↦ simp stops (
          some _,
          edit_row program schedule max_runtime row job false r stops,
          Returns-read L get_string name "status" _ (some row) db t _ "stopped" no_error sh
              (status_cell row job false r stops)
              (Returns-edit_program name details program _ (some row) db t _ no_error hp sh λ d1 s1.
                Returns-edit_schedule name details schedule _ _ d1 t _ no_error hs s1 λ d2 s2.
                  Returns-edit_max_runtime name details max_runtime _ _ d2 t _ no_error hm s2
                    λ d3 s3.
                      Returns-save _ d3 _ _ no_error s3 λ d4 s4. Returns-pure no_error d4 _ s4),
        )
      ]
