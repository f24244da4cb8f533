-- ===== src/Server/Signals/Blocks.antt =====
-- The blocks that the handlers share send no signal to a process.
use Prim.Native.String.{len}
use kiwibes.Prelude.{
  ℕ, String, ◌≡◌, refl, Bool, true, false, not, ◌&&◌, if◌then◌else◌, ltb, Bool-cases, Option-cases,
  inl, inr,
}
use kiwibes.Prelude.Int.{ℤ, pos, to_u64}
use kiwibes.CStdlib.{stol}
use kiwibes.Errors.{
  KiwibesError, no_error, job_description_invalid, job_schedule_invalid, authentication_fail, is_ok,
}
use kiwibes.Exec.{Exec, Result, ok, throws, type_error, ◌>>=◌, pure}
use kiwibes.Exec.Preserves.{
  Preserves, Preserves-pure, Preserves-demand, Preserves-if, Preserves-bind,
}
use kiwibes.Platform.{Platform}
use kiwibes.Cron
use kiwibes.Database.{Database}
use kiwibes.Database.Changes.{delete_job}
use kiwibes.Scheduler.{schedule_job, unschedule_job}
use kiwibes.Rest.{
  Request, Context, error_code, on_database, on_scheduler, set_status, set_content, assign,
  describe, set_return_code, is_authorized, guarded,
}
use kiwibes.Rest.Jobs.{
  read_max_runtime, read_schedule, read_program, read_job_parameters, param_schedule, values,
  schedule_created, reschedule_edited, with_parameters,
}
use kiwibes.Server.Signals.{sent, schedule-Preserves}

module _ ⦃P : Platform⦄ where
  open P use {Json, null, member, dump, of_int, of_string, of_strings, get_string}

  -- The block sends no signal.
  abbrev pub Silent : {A : Type 0} → Exec Context A → Type 0
  Silent x = Preserves sent x

  pub content-Silent : (body content_type : String) → Silent (set_content body content_type)
  content-Silent body content_type = record { at = λ c. refl }

  pub assign-Silent : (v : Json) (key : String) (x : Json) → Silent (assign v key x)
  unfolding assign
  assign-Silent v key x = Preserves-demand type_error _

  describe-Silent : (error : KiwibesError) → Silent (describe error)
  unfolding describe
  describe-Silent error =
      Preserves-bind (assign null "error" (of_int (pos (error_code error)))) _
        (assign-Silent null "error" _)
        λ numbered.
          Preserves-bind (assign numbered "message" (of_string "")) _
            (assign-Silent numbered "message" _)
            λ empty.
              Preserves-if (is_ok error) (pure empty) _ (Preserves-pure empty)
                (assign-Silent empty "message" _)

  pub return-Silent : (error : KiwibesError) → Silent (set_return_code error)
  unfolding set_return_code
  return-Silent error = Preserves-bind (describe error) _ (describe-Silent error) λ description.
      Preserves-if (is_ok error) (set_status 200) _ (record { at = λ c. refl })
        (record { at = λ c. refl })

  pub answer-Silent :
      (req : Request) (answer : Exec Context KiwibesError)
      → Silent answer
      → Silent (guarded req answer >>= set_return_code)
  answer-Silent req answer k =
      Preserves-bind (guarded req answer) set_return_code
        (record {
          at = λ c.
              (Preserves-if (is_authorized req c.authentication) answer (pure authentication_fail) k
                  (Preserves-pure authentication_fail)).at
                c;
        })
        return-Silent

  pub on_database-Silent : {A : Type 0} (f : Exec Database A) → Silent (on_database f)
  on_database-Silent f = record { at = λ c. refl }

  schedule-Silent :
      (now address : ℕ) (name : String) → Silent (on_scheduler (schedule_job now address name))
  unfolding schedule_job
  schedule-Silent now address name = record {
    at = λ c. (schedule-Preserves now address name).at c.scheduler;
  }

  pub unschedule-Silent : (name : String) → Silent (on_scheduler (unschedule_job name))
  unfolding unschedule_job
  unschedule-Silent name = record { at = λ c. refl }

  number_at :
      (req : Request) (params : Json) (r : Result ℤ) (c : Context)
      → req.has_param "max-runtime" ≡ true
      → stol (req.get_param_value "max-runtime" 0) ≡ r
      → sent (read_max_runtime req params c).1 ≡ sent c
  unfolding read_max_runtime
  number_at req params (throws x) c there e = rw (there, e, read_max_runtime) refl
  number_at req params (ok n) c there e =
      rw (there, e, read_max_runtime)
        ((Preserves-bind {see = sent} (assign params "max-runtime" (of_int (pos (to_u64 n))))
            (λ written. pure (true, written)) (assign-Silent params "max-runtime" _)
            λ written. Preserves-pure (true, written)).at
          c)

  timed_at :
      (req : Request) (params : Json) (c : Context)
      → sent (read_max_runtime req params c).1 ≡ sent c
  unfolding read_max_runtime
  timed_at req params c = elim (Bool-cases (req.has_param "max-runtime")) [
    | inl there ↦ number_at req params _ c there refl
    | inr absent ↦ rw (absent, read_max_runtime) refl
  ]

  schedule_read-Silent : (req : Request) (r : Bool × Json) → Silent (read_schedule req r)
  unfolding read_schedule
  schedule_read-Silent req (success, params) =
      Preserves-if (req.has_param "schedule") _ (pure (false, params))
        (Preserves-bind (assign params "schedule" (of_string (req.get_param_value "schedule" 0))) _
          (assign-Silent params "schedule" _) λ written. Preserves-pure _)
        (Preserves-pure _)

  program_read-Silent : (req : Request) (r : Bool × Json) → Silent (read_program req r)
  unfolding read_program
  program_read-Silent req (success, params) =
      Preserves-if (req.has_param "program") _ (pure (false, params))
        (Preserves-bind
          (assign params "program"
            (of_strings (values req "program" 0 (req.get_param_value_count "program"))))
          _ (assign-Silent params "program" _) λ written. Preserves-pure _)
        (Preserves-pure _)

  parameters-Silent : (req : Request) → Silent (read_job_parameters req)
  unfolding read_job_parameters
  parameters-Silent req =
      Preserves-bind (read_max_runtime req null) _ (record { at = λ c. timed_at req null c })
        λ timed.
          Preserves-bind (read_schedule req timed) (read_program req)
            (schedule_read-Silent req timed) (program_read-Silent req)

  schedule_param-Silent : (params : Json) → Silent (param_schedule params)
  unfolding param_schedule
  schedule_param-Silent params = record {
    at = λ c. elim (Option-cases (member params "schedule")) [
      | inl e ↦ rw (e, param_schedule) refl
      | inr (v, e) ↦
          rw (e, param_schedule) ((Preserves-demand {see = sent} type_error (get_string v)).at c)
    ];
  }

  pub with_parameters-Silent :
      (req : Request) (change : Json → Exec Context KiwibesError)
      (reschedule : String → Exec Context KiwibesError)
      → ((params : Json) → Silent (change params))
      → ((schedule : String) → Silent (reschedule schedule))
      → Silent (with_parameters req change reschedule)
  with_parameters-Silent req change reschedule k r =
      Preserves-bind (read_job_parameters req) _ (parameters-Silent req) λ found.
        Preserves-bind (if found.0 then change found.1 else pure job_description_invalid) _
          (Preserves-if found.0 _ _ (k found.1) (Preserves-pure _))
          λ error.
            Preserves-if (is_ok error) _ (pure error)
              (Preserves-bind (param_schedule found.1) reschedule (schedule_param-Silent found.1) r)
              (Preserves-pure error)

  pub created-Silent :
      (name : String) (now address : ℕ) (schedule : String)
      → Silent (schedule_created name now address schedule)
  unfolding schedule_created
  created-Silent name now address schedule =
      Preserves-if (ltb 0 (len schedule) && Cron.is_valid (Cron.new schedule)) _ _
        (Preserves-bind (on_scheduler (schedule_job now address name)) _
          (schedule-Silent now address name) λ _. Preserves-pure no_error)
        (Preserves-if (ltb 0 (len schedule) && not (Cron.is_valid (Cron.new schedule))) _ _
          (Preserves-bind (on_database (delete_job name)) _ (on_database-Silent (delete_job name))
            λ _. Preserves-pure job_schedule_invalid)
          (Preserves-pure no_error))

  pub edited-Silent :
      (name : String) (now address : ℕ) (schedule : String)
      → Silent (reschedule_edited name now address schedule)
  unfolding reschedule_edited
  edited-Silent name now address schedule =
      Preserves-if (Cron.is_valid (Cron.new schedule)) _ _
        (Preserves-bind (on_scheduler (unschedule_job name)) _ (unschedule-Silent name) λ _.
          Preserves-bind (on_scheduler (schedule_job now address name)) _
            (schedule-Silent now address name) λ _. Preserves-pure no_error)
        (Preserves-bind (on_scheduler (unschedule_job name)) _ (unschedule-Silent name)
          λ _. Preserves-pure no_error)
