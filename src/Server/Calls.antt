-- ===== src/Server/Calls.antt =====
-- The calls of the components that a handler makes one after the other, each under its own lock.
use kiwibes.Prelude.{ℕ, String, ◌≡◌, true}
use kiwibes.Prelude.Int.{ℤ}
use kiwibes.Errors.{KiwibesError, no_error}
use kiwibes.Exec.{Exec, ◌>>◌, pure}
use kiwibes.Platform.{Platform, is_plain}
use kiwibes.Platform.Laws.{PlatformLaws}
use kiwibes.Database.Changes.{create_job, edit_job, delete_job}
use kiwibes.Manager.Invariant.{IsManaged}
use kiwibes.Scheduler.{schedule_job, unschedule_job}
use kiwibes.Rest.{Request, Context, on_database, on_scheduler}
use kiwibes.Rest.Parameters.{HoldsParameters}
use kiwibes.Server.Rules.{Serves, Serves-bind, Serves-pure}
use kiwibes.Server.Handlers.{Serves-schedule, Serves-unschedule, Serves-delete_job}
use kiwibes.Server.Changes.{Serves-create_job, Serves-edit_job}

module _ ⦃P : Platform⦄ where
  -- The calls of the handlers that make more than one. The parameters of a new or an edited job are
  -- those that `read_job_parameters` has returned, at any time before.
  pub data Call : Type 0 where
    creates edits : (req : Request) (n : ℤ) (before : Context) → HoldsParameters req n before → Call
    deletes : (name : String) → is_plain name ≡ true → Call
    schedules : (now address : ℕ) → String → Call
    unschedules : String → Call

  abbrev pub run : Call → Exec Context KiwibesError
  run (creates req n before p) = on_database (create_job req.capture p.params)
  run (edits req n before p) = on_database (edit_job req.capture p.params)
  run (deletes name plain) = on_database (delete_job name)
  run (schedules now address name) = on_scheduler (schedule_job now address name)
  run (unschedules name) = on_scheduler (unschedule_job name) >> pure no_error

  pub run-Serves :
      (L : PlatformLaws P) (call : Call) (c : Context)
      → IsManaged c.scheduler.manager
      → Serves (λ e. ⊥) (run call c)
  run-Serves L (creates req n before p) c h = Serves-create_job L req n before c p h
  run-Serves L (edits req n before p) c h = Serves-edit_job L req n before c p h
  run-Serves L (deletes name plain) c h = Serves-delete_job L name c plain h
  run-Serves L (schedules now address name) c h = Serves-schedule L now address name c h
  run-Serves L (unschedules name) c h =
      Serves-bind (on_scheduler (unschedule_job name)) (λ _. pure no_error) c
        (Serves-unschedule L name c h) λ _ c' _ h'. Serves-pure no_error c' h'
