-- ===== src/Rest/Creation.antt =====
-- The creation of a job through the interface, with its schedule.
pub mod Withdrawal
use Prim.Native.String.{len}
use mathlib.Core.Path.{fun_ext}
use kiwibes.Prelude.{
  ℕ, ◌<◌, String, ◌≡◌, refl, ap, subst, ◌∙◌, Option, none, some, List, true, false, eq_iff, eq_refl,
  arith, lt→ltb,
}
use kiwibes.Prelude.Int.{ℤ, pos, to_u64, to_time}
use kiwibes.Errors.{no_error, job_schedule_invalid}
use kiwibes.Exec.{ok}
use kiwibes.Platform.{Platform, is_plain}
use kiwibes.Platform.Laws.{PlatformLaws}
use kiwibes.Cron
use kiwibes.Database.{Database}
use kiwibes.Database.Changes.{create_job, delete_job}
use kiwibes.Database.Table.{cell}
use kiwibes.Database.Spec.{
  Job, Jobs, put, Stores, Refines, fresh_job, spec_create, spec_delete, change,
}
use kiwibes.Database.Refinement.Deletions.{delete_job-Refines}
use kiwibes.Database.Refinement.Creations.{create_job-Refines}
use kiwibes.Scheduler.{schedule_job}
use kiwibes.Scheduler.Scheduling.{with_start, spec_schedule, schedule_job-adds}
use kiwibes.Rest.{describe, Request, Context, with_manager, assign, is_authorized, set_return_code}
use kiwibes.Rest.Jobs.{values, schedule_created, rest_post_create_job}
use kiwibes.Rest.Parameters.{IsComplete, param_schedule_lem, read_job_parameters-HoldsParameters}
use kiwibes.Rest.Access.{Reports, set_return_code-Reports}

module _ ⦃P : Platform⦄ where
  open P use {
    Json, null, member, of_int, of_string, of_strings, get_string, get_strings, get_time, is_map,
  }

  abbrev pub with_database : Context → Database → Context
  with_database c db = with_manager c (record c.scheduler.manager { database = db })

  -- The new job that the request describes.
  abbrev pub requested_job : Request → ℤ → Job
  requested_job req n =
      fresh_job (values req "program" 0 (req.get_param_value_count "program"))
        (req.get_param_value "schedule" 0) (to_time (pos (to_u64 n)))

  abbrev pub with_status : ℕ → Context → Context
  with_status status c = record c { response = record c.response { status = status } }

  -- The context after the schedule of a stored job has been added to the queue.
  abbrev pub with_event : ℕ → ℕ → String → String → Context → Context
  with_event now address name schedule c = record c {
    scheduler = with_start now address name schedule c.scheduler;
  }

  pub put_same : (name : String) (job : Option Job) (m : Jobs) → put name job m name ≡ job
  put_same name job m = ground (arith, eq_refl name)

  module _ (L : PlatformLaws P) where
    pub create_job-new :
        (name : String) (params : Json) (program : List String) (schedule : String) (n : ℤ)
        (db : Database) (m : Jobs)
        → cell get_strings "program" (member params) ≡ some program
        → cell get_string "schedule" (member params) ≡ some schedule
        → cell get_time "max-runtime" (member params) ≡ some n
        → Stores db m
        → m name ≡ none
        → Refines
            (create_job name params db)
            (no_error, put name (some (fresh_job program schedule n)) m)
    unfolding spec_create
    create_job-new name params program schedule n db m hp hs hn s free =
        subst (λ o. Refines (create_job name params db) o) (rw (free, spec_create) refl)
          (create_job-Refines L name params program schedule n db m hp hs hn s)

    pub return_ok :
        (c : Context)
        → set_return_code no_error c
          ≡ (ok tt, record c { response = record c.response { status = 200 } })
    unfolding set_return_code describe assign
    return_ok c =
        let (v1, e1) = L.set_member-total null "error" (of_int (pos 0)) L.is_map-null in
        let m1 = L.is_map-set_member null "error" _ v1 e1 in
        let (v2, e2) = L.set_member-total v1 "message" (of_string "") m1 in
        rw (e1, e2, set_return_code) refl

    schedule_created_valid :
        (name : String) (now address : ℕ) (job : Job) (c : Context) (m : Jobs)
        → 0 < len job.schedule
        → Cron.is_valid (Cron.new job.schedule) ≡ true
        → Stores c.scheduler.manager.database m
        → m name ≡ some job
        → schedule_created name now address job.schedule c
          ≡ (ok no_error, with_event now address name job.schedule c)
    unfolding schedule_created spec_schedule
    schedule_created_valid name now address job c m long fine s known =
        let added : schedule_job now address name c.scheduler
            ≡ (ok no_error, with_start now address name job.schedule c.scheduler) =
          schedule_job-adds now address name c.scheduler m s
          ∙ rw (known, spec_schedule, fine) refl in
        rw (lt→ltb 0 (len job.schedule) long, schedule_created, fine, added) refl

    -- A request with a valid token and all parameters, with texts in UTF-8, for a new name and with
    -- a valid schedule that is not empty, on a database that stands for a map of jobs with texts in
    -- UTF-8: the map gets the job that the request describes, the queue gets one start event of it
    -- at the instant that `cron_next` returns for the schedule, which is -1 where there is none,
    -- the other components are as before, and the answer has status 200.
    pub create-schedules :
        (req : Request) (now address : ℕ) (c : Context) (m : Jobs) (n : ℤ)
        → is_authorized req c.authentication ≡ true
        → IsComplete req n
        → Stores c.scheduler.manager.database m
        → m req.capture ≡ none
        → 0 < len (req.get_param_value "schedule" 0)
        → Cron.is_valid (Cron.new (req.get_param_value "schedule" 0)) ≡ true
        → (db : Database) × Stores db (put req.capture (some (requested_job req n)) m)
          × (rest_post_create_job req now address c ≡ (
            ok tt,
            with_status 200 (
                with_event now address req.capture
                  (req.get_param_value "schedule" 0)
                  (with_database c db)),
          ))
    unfolding rest_post_create_job
    create-schedules req now address c m n auth complete s free long fine =
        let p = read_job_parameters-HoldsParameters L req n c complete in
        let job = requested_job req n in
        let r =
          create_job-new req.capture p.params job.program job.schedule (to_time (pos (to_u64 n)))
            c.scheduler.manager.database m p.program p.schedule p.max_runtime s free in
        (
          (create_job req.capture p.params c.scheduler.manager.database).1,
          r.stored,
          rw
              (
                auth,
                p.result,
                r.result,
                param_schedule_lem p.params _ _ p.schedule,
                schedule_created_valid req.capture now address job
                    (with_database c
                      (create_job req.capture p.params c.scheduler.manager.database).1)
                    _ long fine r.stored (put_same req.capture (some job) m),
              )
              (return_ok _),
        )
