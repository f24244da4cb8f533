-- ===== src/Server/Handlers.antt =====
-- Each handler of the REST interface keeps the manager's invariant.
use Prim.Native.String.{len}
use kiwibes.Prelude.{
  ℕ, String, ◌≡◌, refl, Option, none, some, true, not, ◌&&◌, if◌then◌else◌, ltb, Bool-cases, inl,
  inr,
}
use kiwibes.Errors.{KiwibesError, no_error, job_schedule_invalid, is_ok}
use kiwibes.Exec.{Exec, Exception, ok, ◌>>=◌, ◌>>◌, pure}
use kiwibes.Platform.{Platform, is_plain}
use kiwibes.Platform.Laws.{PlatformLaws}
use kiwibes.Cron
use kiwibes.Map
use kiwibes.Database.Changes.{delete_job}
use kiwibes.Database.Runs.{job_clear_start_requests}
use kiwibes.Database.Spec.{Job}
use kiwibes.Database.Refinement.Starts.{job_clear-Refines}
use kiwibes.Database.Refinement.Deletions.{delete_job-Refines}
use kiwibes.Manager.{Manager, Fork, Handle, start_job, stop_job}
use kiwibes.Manager.Invariant.{IsManaged, start_job-IsManaged}
use kiwibes.Manager.Stops.{spec_stop, stop_job-kills}
use kiwibes.Scheduler.{Scheduler, schedule_job, unschedule_job}
use kiwibes.Scheduler.Scheduling.{spec_schedule, schedule_job-adds}
use kiwibes.Rest.{Request, Context, on_database, on_scheduler, set_return_code, guarded}
use kiwibes.Rest.Jobs.{
  schedule_created, reschedule_edited, delete_and_unschedule, rest_post_start_job,
  rest_post_stop_job, rest_post_delete_job, rest_post_clear_pending_job,
}
use kiwibes.Server.Running.{spec_clear-RunsAlike, spec_delete-RunsAlike}
use kiwibes.Server.Rules.{
  Serves, Serves-if, Serves-pure, Serves-bind, Serves-manager, Serves-database, Serves-scheduler,
  Serves-guarded, Serves-return,
}

module _ ⦃P : Platform⦄ where
  open P use {Json, dump, of_strings, null, member, get_string, get_strings, get_time, get_ulong}

  stopped-IsManaged :
      (o : Option Job) (a : Option Handle) (m : Manager)
      → IsManaged m
      → ((e : KiwibesError) × ((spec_stop o a m).0 ≡ ok e)) × IsManaged (spec_stop o a m).1
  unfolding spec_stop
  stopped-IsManaged none a m h = ((_, refl), h)
  stopped-IsManaged (some job) none m h = ((_, refl), h)
  stopped-IsManaged (some job) (some handle) m h = (
    (_, refl),
    record {
      system = h.system;
      runs = record { active = h.runs.active; stored = h.runs.stored };
      synced = h.synced;
    },
  )

  pub spec_schedule-keeps :
      (now address : ℕ) (name : String) (o : Option Job) (s : Scheduler)
      → ((e : KiwibesError) × ((spec_schedule now address name o s).0 ≡ ok e))
        × ((spec_schedule now address name o s).1.manager ≡ s.manager)
  unfolding spec_schedule
  spec_schedule-keeps now address name none s = ((_, refl), refl)
  spec_schedule-keeps now address name (some job) s =
      elim (Bool-cases (Cron.is_valid (Cron.new job.schedule))) [
        | inl v ↦ rw v ((_, refl), refl)
        | inr i ↦ rw i ((_, refl), refl)
      ]

  module _ (L : PlatformLaws P) {bad : Exception → Type 0} where
    pub Serves-answer :
        (req : Request) (answer : Exec Context KiwibesError) (c : Context)
        → IsManaged c.scheduler.manager
        → Serves bad (answer c)
        → Serves bad ((guarded req answer >>= set_return_code) c)
    Serves-answer req answer c h s =
        Serves-bind (guarded req answer) set_return_code c (Serves-guarded req answer c h s)
          λ error c' _ h'. Serves-return L error c' h'

    pub Serves-start :
        (req : Request) (fork : Fork) (now : ℕ) (c : Context)
        → IsManaged c.scheduler.manager
        → Serves bad (rest_post_start_job req fork now c)
    unfolding rest_post_start_job
    Serves-start req fork now c h =
        let ((e, fine), after) = start_job-IsManaged L req.capture fork now c.scheduler.manager h in
        Serves-answer req _ c h (Serves-manager (start_job req.capture fork now) c e fine after)

    pub Serves-stop :
        (req : Request) (c : Context)
        → IsManaged c.scheduler.manager
        → Serves bad (rest_post_stop_job req c)
    unfolding rest_post_stop_job
    Serves-stop req c h =
        let eq = stop_job-kills req.capture c.scheduler.manager h.system h.runs in
        let ((e, fine), after) =
          stopped-IsManaged (h.system.jobs req.capture) (Map.find req.capture h.system.active)
            c.scheduler.manager h in
        Serves-answer req _ c h
          (Serves-manager (stop_job req.capture) c e (rw eq fine) (rw eq after))

    pub Serves-schedule :
        (now address : ℕ) (name : String) (c : Context)
        → IsManaged c.scheduler.manager
        → Serves bad (on_scheduler (schedule_job now address name) c)
    Serves-schedule now address name c h =
        let eq = schedule_job-adds now address name c.scheduler h.system.jobs h.runs.stored in
        let ((e, fine), same) =
          spec_schedule-keeps now address name (h.system.jobs name) c.scheduler in
        Serves-scheduler (schedule_job now address name) c e h (rw eq fine) (rw eq same)

    pub Serves-unschedule :
        (name : String) (c : Context)
        → IsManaged c.scheduler.manager
        → Serves bad (on_scheduler (unschedule_job name) c)
    unfolding unschedule_job
    Serves-unschedule name c h = Serves-scheduler (unschedule_job name) c tt h refl refl

    pub Serves-delete_job :
        (name : String) (c : Context)
        → is_plain name ≡ true
        → IsManaged c.scheduler.manager
        → Serves bad (on_database (delete_job name) c)
    Serves-delete_job name c plain h =
        Serves-database (delete_job name) c h _
          (delete_job-Refines L name _ h.system.jobs plain h.runs.stored)
          (spec_delete-RunsAlike name h.system.jobs)

    pub Serves-schedule_created :
        (name : String) (now address : ℕ) (schedule : String) (c : Context)
        → is_plain name ≡ true
        → IsManaged c.scheduler.manager
        → Serves bad (schedule_created name now address schedule c)
    unfolding schedule_created
    Serves-schedule_created name now address schedule c plain h =
        Serves-if (ltb 0 (len schedule) && Cron.is_valid (Cron.new schedule))
          (on_scheduler (schedule_job now address name) >> pure no_error)
          (if ltb 0 (len schedule) && not (Cron.is_valid (Cron.new schedule))
            then (on_database (delete_job name) >> pure job_schedule_invalid)
            else pure no_error)
          c
          (Serves-bind (on_scheduler (schedule_job now address name)) (λ _. pure no_error) c
            (Serves-schedule now address name c h) λ _ c' _ h'. Serves-pure no_error c' h')
          (Serves-if (ltb 0 (len schedule) && not (Cron.is_valid (Cron.new schedule)))
            (on_database (delete_job name) >> pure job_schedule_invalid) (pure no_error) c
            (Serves-bind (on_database (delete_job name)) (λ _. pure job_schedule_invalid) c
              (Serves-delete_job name c plain h)
              λ _ c' _ h'. Serves-pure job_schedule_invalid c' h')
            (Serves-pure no_error c h))

    pub Serves-reschedule_edited :
        (name : String) (now address : ℕ) (schedule : String) (c : Context)
        → IsManaged c.scheduler.manager
        → Serves bad (reschedule_edited name now address schedule c)
    unfolding reschedule_edited
    Serves-reschedule_edited name now address schedule c h =
        let unscheduled = Serves-unschedule name c h in
        Serves-if (Cron.is_valid (Cron.new schedule))
          (on_scheduler (unschedule_job name)
            >> (on_scheduler (schedule_job now address name) >> pure no_error))
          (on_scheduler (unschedule_job name) >> pure no_error) c
          (Serves-bind (on_scheduler (unschedule_job name))
            (λ _. on_scheduler (schedule_job now address name) >> pure no_error) c unscheduled
            λ _ c' _ h'.
              Serves-bind (on_scheduler (schedule_job now address name)) (λ _. pure no_error) c'
                (Serves-schedule now address name c' h')
                λ _ c'' _ h''. Serves-pure no_error c'' h'')
          (Serves-bind (on_scheduler (unschedule_job name)) (λ _. pure no_error) c unscheduled
            λ _ c' _ h'. Serves-pure no_error c' h')

    pub Serves-delete :
        (req : Request) (c : Context)
        → is_plain req.capture ≡ true
        → IsManaged c.scheduler.manager
        → Serves bad (rest_post_delete_job req c)
    unfolding rest_post_delete_job delete_and_unschedule
    Serves-delete req c plain h = Serves-answer req _ c h (
        Serves-bind (on_database (delete_job req.capture)) _ c
          (Serves-delete_job req.capture c plain h)
          λ error c' _ h'.
            Serves-if (is_ok error) (on_scheduler (unschedule_job req.capture) >> pure error)
              (pure error) c'
              (Serves-bind (on_scheduler (unschedule_job req.capture)) (λ _. pure error) c'
                (Serves-unschedule req.capture c' h') λ _ c'' _ h''. Serves-pure error c'' h'')
              (Serves-pure error c' h'))

    pub Serves-clear_pending :
        (req : Request) (c : Context)
        → IsManaged c.scheduler.manager
        → Serves bad (rest_post_clear_pending_job req c)
    unfolding rest_post_clear_pending_job
    Serves-clear_pending req c h = Serves-answer req _ c h (
        Serves-database (job_clear_start_requests req.capture) c h _
          (job_clear-Refines L req.capture _ h.system.jobs h.runs.stored)
          (spec_clear-RunsAlike req.capture h.system.jobs))
