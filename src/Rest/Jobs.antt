-- ===== src/Rest/Jobs.antt =====
-- source/kiwibes_rest.cpp: the handlers about jobs.
use Prim.Native.String.{len}
use kiwibes.Prelude.{
  ℕ, zero, suc, ◌+◌, String, none, some, List, [], ◌∷◌, Bool, true, false, not, ◌&&◌, if◌then◌else◌,
  ltb,
}
use kiwibes.Prelude.Int.{pos, to_u64}
use kiwibes.CStdlib.{stol}
use kiwibes.Errors.{
  KiwibesError, no_error, job_name_unknown, job_description_invalid, job_schedule_invalid,
  authentication_fail, is_ok,
}
use kiwibes.Exec.{Exec, ok, throws, type_error, ◌>>=◌, ◌>>◌, pure, demand}
use kiwibes.Platform.{Platform}
use kiwibes.Cron
use kiwibes.Database.Runs.{job_clear_start_requests}
use kiwibes.Database.Changes.{create_job, edit_job, delete_job}
use kiwibes.Database.Names.{get_all_job_names, get_job_description}
use kiwibes.Manager.{Fork, start_job, stop_job}
use kiwibes.Scheduler.{schedule_job, unschedule_job, get_all_scheduled_job_names}
use kiwibes.Rest.{
  Request, Context, on_database, on_manager, on_scheduler, set_status, set_content, assign,
  set_return_code, is_authorized, guarded,
}

module _ ⦃P : Platform⦄ where
  open P use {Json, null, member, dump, of_string, of_int, of_strings, get_string}

  unfoldable pub rest_post_start_job : Request → Fork → ℕ → Exec Context Unit
  rest_post_start_job req fork now = do
    error ← guarded req (on_manager (start_job req.capture fork now))
    set_return_code error

  unfoldable pub rest_post_stop_job : Request → Exec Context Unit
  rest_post_stop_job req = do
    error ← guarded req (on_manager (stop_job req.capture))
    set_return_code error

  -- The values of a parameter that may be given several times.
  unfoldable pub values : Request → String → ℕ → ℕ → List String
  values req key p zero = []
  values req key p (suc n) = req.get_param_value key p ∷ values req key (p + 1) n

  unfoldable pub read_max_runtime : Request → Json → Exec Context (Bool × Json)
  read_max_runtime req params c =
      if req.has_param "max-runtime"
      then elim (stol (req.get_param_value "max-runtime" 0)) [
        | throws e ↦ (throws e, c)
        | ok n ↦
            (do
              written ← assign params "max-runtime" (of_int (pos (to_u64 n)))
              pure (true, written))
              c
      ]
      else (ok (false, params), c)

  unfoldable pub read_schedule : Request → Bool × Json → Exec Context (Bool × Json)
  read_schedule req (success, params) =
      if req.has_param "schedule"
      then (do
        written ← assign params "schedule" (of_string (req.get_param_value "schedule" 0))
        pure (success, written))
      else pure (false, params)

  unfoldable pub read_program : Request → Bool × Json → Exec Context (Bool × Json)
  unfolding values
  read_program req (success, params) =
      if req.has_param "program"
      then (do
        written ←
            assign params "program"
              (of_strings (values req "program" 0 (req.get_param_value_count "program")))
        pure (success, written))
      else pure (false, params)

  -- Whether all parameters are there, and the parameters as a JSON value.
  unfoldable pub read_job_parameters : Request → Exec Context (Bool × Json)
  unfolding read_max_runtime read_schedule read_program
  read_job_parameters req = do
    timed ← read_max_runtime req null
    scheduled ← read_schedule req timed
    read_program req scheduled

  -- `params["schedule"].get<std::string>()`
  unfoldable pub param_schedule : Json → Exec Context String
  param_schedule params = elim (member params "schedule") [
    | none ↦ demand type_error none
    | some v ↦ demand type_error (get_string v)
  ]

  -- A created job with a valid schedule is scheduled; one with an invalid schedule is deleted.
  unfoldable pub schedule_created : String → ℕ → ℕ → String → Exec Context KiwibesError
  schedule_created name now address schedule =
      if ltb 0 (len schedule) && Cron.is_valid (Cron.new schedule)
      then (do on_scheduler (schedule_job now address name); pure no_error)
      else if ltb 0 (len schedule) && not (Cron.is_valid (Cron.new schedule))
      then (do on_database (delete_job name); pure job_schedule_invalid)
      else pure no_error

  -- Parameters that the request lacks are an error; others go to the database, and then the schedule.
  abbrev pub with_parameters :
      Request
      → (Json → Exec Context KiwibesError)
      → (String → Exec Context KiwibesError)
      → Exec Context KiwibesError
  with_parameters req change reschedule = do
    (success, params) ← read_job_parameters req
    error ← if success then change params else pure job_description_invalid
    if is_ok error then (do schedule ← param_schedule params; reschedule schedule) else pure error

  unfoldable pub rest_post_create_job : Request → ℕ → ℕ → Exec Context Unit
  rest_post_create_job req now address = do
    error ← guarded req (
        with_parameters req (λ params. on_database (create_job req.capture params))
          (schedule_created req.capture now address))
    set_return_code error

  unfoldable pub reschedule_edited : String → ℕ → ℕ → String → Exec Context KiwibesError
  reschedule_edited name now address schedule =
      if Cron.is_valid (Cron.new schedule)
      then (do
        on_scheduler (unschedule_job name)
        on_scheduler (schedule_job now address name)
        pure no_error)
      else (do on_scheduler (unschedule_job name); pure no_error)

  unfoldable pub rest_post_edit_job : Request → ℕ → ℕ → Exec Context Unit
  rest_post_edit_job req now address = do
    error ← guarded req (
        with_parameters req (λ params. on_database (edit_job req.capture params))
          (reschedule_edited req.capture now address))
    set_return_code error

  unfoldable pub delete_and_unschedule : String → Exec Context KiwibesError
  delete_and_unschedule name = do
    error ← on_database (delete_job name)
    if is_ok error then (do on_scheduler (unschedule_job name); pure error) else pure error

  unfoldable pub rest_post_delete_job : Request → Exec Context Unit
  rest_post_delete_job req = do
    error ← guarded req (delete_and_unschedule req.capture)
    set_return_code error

  unfoldable pub rest_post_clear_pending_job : Request → Exec Context Unit
  rest_post_clear_pending_job req = do
    error ← guarded req (on_database (job_clear_start_requests req.capture))
    set_return_code error

  abbrev pub is_unknown : KiwibesError → Bool
  is_unknown job_name_unknown = true
  is_unknown _ = false

  abbrev pub send_job : KiwibesError × Json → Exec Context Unit
  send_job (error, job) =
      if is_unknown error
      then set_return_code job_name_unknown
      else (do set_status 200; set_content (dump job) "application/json")

  unfoldable pub rest_get_get_job : Request → Exec Context Unit
  rest_get_get_job req c =
      (if not (is_authorized req c.authentication)
          then set_return_code authentication_fail
          else do found ← on_database (get_job_description null req.capture); send_job found)
        c

  unfoldable pub rest_get_jobs_list : Request → Exec Context Unit
  rest_get_jobs_list req = do
    names ← on_database get_all_job_names
    set_status 200
    set_content (dump (of_strings names)) "application/json"

  unfoldable pub rest_get_scheduled_jobs : Request → Exec Context Unit
  rest_get_scheduled_jobs req c =
      (do
        set_status 200
        set_content (dump (of_strings (get_all_scheduled_job_names c.scheduler)))
            "application/json")
        c
