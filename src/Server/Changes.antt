-- ===== src/Server/Changes.antt =====
-- The handlers that create and edit jobs keep the manager's invariant.
use kiwibes.Prelude.{ℕ, String, ◌≡◌, true}
use kiwibes.Prelude.Int.{ℤ}
use kiwibes.CStdlib.{stol}
use kiwibes.Errors.{KiwibesError, job_description_invalid, is_ok}
use kiwibes.Exec.{Exec, Exception, throws}
use kiwibes.Platform.{Platform, is_plain}
use kiwibes.Platform.Laws.{PlatformLaws}
use kiwibes.Database.Changes.{create_job, edit_job}
use kiwibes.Database.Refinement.Creations.{create_job-Refines}
use kiwibes.Database.Refinement.Edits.{edit_job-Refines}
use kiwibes.Manager.Invariant.{IsManaged}
use kiwibes.Rest.{on_database, Request, Context}
use kiwibes.Rest.Jobs.{with_parameters, rest_post_create_job, rest_post_edit_job}
use kiwibes.Rest.Outcomes.{refused, incomplete, complete, read_job_parameters-Outcome}
use kiwibes.Rest.Parameters.{HoldsParameters, param_schedule_lem}
use kiwibes.Server.Running.{spec_create-RunsAlike, spec_edit-RunsAlike}
use kiwibes.Server.Handlers.{Serves-answer, Serves-schedule_created, Serves-reschedule_edited}
use kiwibes.Server.Rules.{
  Serves, Serves-if, Serves-pure, Serves-throws, Serves-bind, Serves-database,
}

-- The exceptions of a request to create or to edit a job.
abbrev pub RefusesNumber : Request → Exception → Type 0
RefusesNumber req e = stol (req.get_param_value "max-runtime" 0) ≡ throws e

module _ ⦃P : Platform⦄ (L : PlatformLaws P) where
  open P use {Json, member, get_strings, get_string, get_time, get_ulong}

  Serves-with_parameters :
      (req : Request) (change : Json → Exec Context KiwibesError)
      (reschedule : String → Exec Context KiwibesError) (c : Context)
      → IsManaged c.scheduler.manager
      → ((n : ℤ) (p : HoldsParameters req n c) → Serves (RefusesNumber req) (change p.params c))
      → ((schedule : String) (c' : Context)
          → IsManaged c'.scheduler.manager
          → Serves (RefusesNumber req) (reschedule schedule c'))
      → Serves (RefusesNumber req) (with_parameters req change reschedule c)
  Serves-with_parameters req change reschedule c h k r =
      elim (read_job_parameters-Outcome L req c) [
        | refused {e} bad eq ↦ rw eq (Serves-throws e c h bad)
        | incomplete params eq ↦ rw eq (Serves-pure job_description_invalid c h)
        | complete n p ↦ rw p.result (
            Serves-bind (change p.params) _ c (k n p) λ error c' _ h'.
              Serves-if (is_ok error) _ _ c'
                (rw (param_schedule_lem p.params _ c' p.schedule) (r _ c' h'))
                (Serves-pure error c' h'))
      ]

  pub Serves-create_job :
      {bad : Exception → Type 0} (req : Request) (n : ℤ) (c0 c : Context)
      (p : HoldsParameters req n c0)
      → IsManaged c.scheduler.manager
      → Serves bad (on_database (create_job req.capture p.params) c)
  Serves-create_job req n c0 c p h =
      Serves-database (create_job req.capture p.params) c h _
        (create_job-Refines L req.capture p.params _ _ _ _ h.system.jobs p.program p.schedule
          p.max_runtime h.runs.stored)
        (spec_create-RunsAlike _ _ _ req.capture h.system.jobs)

  pub Serves-edit_job :
      {bad : Exception → Type 0} (req : Request) (n : ℤ) (c0 c : Context)
      (p : HoldsParameters req n c0)
      → IsManaged c.scheduler.manager
      → Serves bad (on_database (edit_job req.capture p.params) c)
  Serves-edit_job req n c0 c p h =
      Serves-database (edit_job req.capture p.params) c h _
        (edit_job-Refines L req.capture p.params _ _ _ _ h.system.jobs p.program p.schedule
          p.unsigned h.runs.stored)
        (spec_edit-RunsAlike _ _ _ req.capture h.system.jobs)

  pub Serves-create :
      (req : Request) (now address : ℕ) (c : Context)
      → is_plain req.capture ≡ true
      → IsManaged c.scheduler.manager
      → Serves (RefusesNumber req) (rest_post_create_job req now address c)
  unfolding rest_post_create_job
  Serves-create req now address c plain h = Serves-answer L req _ c h (
      Serves-with_parameters req _ _ c h (λ n p. Serves-create_job req n c c p h)
        λ schedule c' h'. Serves-schedule_created L req.capture now address schedule c' plain h')

  pub Serves-edit :
      (req : Request) (now address : ℕ) (c : Context)
      → IsManaged c.scheduler.manager
      → Serves (RefusesNumber req) (rest_post_edit_job req now address c)
  unfolding rest_post_edit_job
  Serves-edit req now address c h = Serves-answer L req _ c h (
      Serves-with_parameters req _ _ c h (λ n p. Serves-edit_job req n c c p h)
        λ schedule c' h'. Serves-reschedule_edited L req.capture now address schedule c' h')
