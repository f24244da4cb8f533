-- ===== src/Rest/Creation/Withdrawal.antt =====
-- The creation of a job whose schedule is invalid: the job is removed again.
use Prim.Native.String.{len}
use mathlib.Core.Path.{fun_ext}
use kiwibes.Prelude.{
  ℕ, ◌<◌, String, ◌≡◌, refl, ap, subst, ◌∙◌, Option, none, some, List, true, false, eq_iff, arith,
  lt→ltb,
}
use kiwibes.Prelude.Int.{ℤ}
use kiwibes.Errors.{no_error, job_schedule_invalid}
use kiwibes.Exec.{ok}
use kiwibes.Platform.{Platform, is_plain}
use kiwibes.Platform.Laws.{PlatformLaws}
use kiwibes.Cron
use kiwibes.Database.{Database}
use kiwibes.Database.Changes.{create_job, delete_job}
use kiwibes.Database.Table.{cell}
use kiwibes.Database.Spec.{Job, Jobs, put, Stores, Refines, fresh_job, spec_delete, change}
use kiwibes.Database.Refinement.Deletions.{delete_job-Refines}
use kiwibes.Rest.{Request, Context, is_authorized}
use kiwibes.Rest.Jobs.{schedule_created, rest_post_create_job}
use kiwibes.Rest.Parameters.{IsComplete, param_schedule_lem, read_job_parameters-HoldsParameters}
use kiwibes.Rest.Access.{Reports, set_return_code-Reports}
use kiwibes.Rest.Creation.{with_database, put_same, create_job-new}

module _ ⦃P : Platform⦄ where
  open P use {
    Json, null, member, of_int, of_string, of_strings, get_string, get_strings, get_time, is_map,
  }

  delete_stopped :
      (name : String) (m : Jobs) (job : Job)
      → m name ≡ some job
      → job.running ≡ false
      → spec_delete name m ≡ (no_error, put name none m)
  unfolding spec_delete
  delete_stopped name m job e stops = rw (e, spec_delete, change, stops) refl

  -- An invalid schedule that is not empty removes the job.
  schedule_created_lem :
      (name : String) (now address : ℕ) (schedule : String) (c : Context)
      → 0 < len schedule
      → Cron.is_valid (Cron.new schedule) ≡ false
      → (delete_job name c.scheduler.manager.database).0 ≡ ok no_error
      → schedule_created name now address schedule c ≡ (
        ok job_schedule_invalid,
        with_database c (delete_job name c.scheduler.manager.database).1,
      )
  unfolding schedule_created
  schedule_created_lem name now address schedule c long bad removed =
      rw (lt→ltb 0 (len schedule) long, schedule_created, bad, removed) refl

  put_back :
      (name : String) (job : Option Job) (m : Jobs)
      → m name ≡ none
      → put name none (put name job m) ≡ m
  put_back name job m e = fun_ext λ n. ground (arith, eq_iff name n)

  module _ (L : PlatformLaws P) where
    -- The database after the creation and the removal of a job.
    record Withdrawn (name : String) (params : Json) (db : Database) (m : Jobs) : Type 0 where
      created : (create_job name params db).0 ≡ ok no_error
      removed : (delete_job name (create_job name params db).1).0 ≡ ok no_error
      stored : Stores (delete_job name (create_job name params db).1).1 m

    create-delete :
        (name : String) (params : Json) (program : List String) (schedule : String) (n : ℤ)
        (db : Database) (m : Jobs)
        → cell get_strings "program" (member params) ≡ some program
        → cell get_string "schedule" (member params) ≡ some schedule
        → cell get_time "max-runtime" (member params) ≡ some n
        → is_plain name ≡ true
        → Stores db m
        → m name ≡ none
        → Withdrawn name params db m
    unfolding spec_delete
    create-delete name params program schedule n db m hp hs hn plain s free =
        let job = fresh_job program schedule n in
        let first = create_job-new L name params program schedule n db m hp hs hn s free in
        let second =
          delete_job-Refines L name (create_job name params db).1 (put name (some job) m) plain
            first.stored in
        let gone : Refines (delete_job name (create_job name params db).1) (no_error, m) =
          subst (λ o. Refines (delete_job name (create_job name params db).1) o)
            (delete_stopped name (put name (some job) m) job (put_same name (some job) m) refl
              ∙ ap (λ r. (no_error, r)) (put_back name (some job) m free))
            second in
        record { created = first.result; removed = gone.result; stored = gone.stored }

    -- A request with a valid token and all parameters, with texts in UTF-8, for a new name without
    -- `/` and `~` and with a schedule that is neither empty nor valid, on a database that stands
    -- for a map of jobs with texts in UTF-8: the database stands for the same map afterwards, the
    -- other components are as before, and the answer has status 404 and the error of an invalid
    -- schedule.
    pub create-withdraws :
        (req : Request) (now address : ℕ) (c : Context) (m : Jobs) (n : ℤ)
        → is_authorized req c.authentication ≡ true
        → IsComplete req n
        → is_plain req.capture ≡ true
        → Stores c.scheduler.manager.database m
        → m req.capture ≡ none
        → 0 < len (req.get_param_value "schedule" 0)
        → Cron.is_valid (Cron.new (req.get_param_value "schedule" 0)) ≡ false
        → (db : Database) × Stores db m
          × Reports job_schedule_invalid
              (with_database c db)
              (rest_post_create_job req now address c)
    unfolding rest_post_create_job
    create-withdraws req now address c m n auth complete plain s free long bad =
        let p = read_job_parameters-HoldsParameters L req n c complete in
        let w =
          create-delete req.capture p.params _ _ _ c.scheduler.manager.database m p.program
            p.schedule p.max_runtime plain s free in
        (
          (delete_job req.capture
              (create_job req.capture p.params c.scheduler.manager.database).1).1,
          w.stored,
          rw
              (
                auth,
                p.result,
                w.created,
                param_schedule_lem p.params _ _ p.schedule,
                schedule_created_lem req.capture now address _
                    (with_database c
                      (create_job req.capture p.params c.scheduler.manager.database).1)
                    long bad w.removed,
              )
              (set_return_code-Reports L job_schedule_invalid _ refl),
        )
