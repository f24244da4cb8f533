-- ===== src/Server/Signals.antt =====
-- Which steps of the server send signals to processes.
pub mod Blocks
pub mod Requests
pub mod Paths
use kiwibes.Prelude.Int.{pos, leb_ℤ}
use Prim.Native.String.{len}
use kiwibes.Prelude.{
  ℕ, String, ◌≡◌, refl, sym, subst, ◌∙◌, ap, Option, List, Bool, true, false, not, ◌&&◌,
  if◌then◌else◌, ltb, leb, Option-cases, Bool-cases, inl, inr, eq_refl,
}
use kiwibes.CStdlib.{stol}
use kiwibes.Errors.{
  KiwibesError, no_error, job_description_invalid, job_schedule_invalid, empty_rest_request,
  authentication_fail, job_name_unknown, is_ok,
}
use kiwibes.Exec.{Exec, Result, ok, throws, type_error, ◌>>=◌, ◌>>◌, pure, demand}
use kiwibes.Exec.Preserves.{
  Preserves, Preserves-pure, Preserves-demand, Preserves-if, Preserves-bind,
}
use kiwibes.Platform.{Platform}
use kiwibes.Platform.Laws.{PlatformLaws}
use kiwibes.Cron
use kiwibes.Database.{Database}
use kiwibes.Database.Changes.{create_job, edit_job, delete_job}
use kiwibes.Database.Names.{get_job_description, get_all_job_names}
use kiwibes.Database.Runs.{job_clear_start_requests}
use kiwibes.DataStore
use kiwibes.DataStore.{DataStore}
use kiwibes.Manager.{Handle, Report, start_job, watch}
use kiwibes.Manager.Kills.{start_job-Preserves, watch-Preserves}
use kiwibes.Scheduler
use kiwibes.Scheduler.{
  Scheduler, Event, EventType, Turn, Answers, start_event, stop_event, exit_event, finished,
  dangling, load, top, push_start, schedule_text, unsafe_job_schedule, schedule_job, unschedule_job,
  handle_event, pop_and_delete, turn_at, turn,
}
use kiwibes.Rest.{
  Request, Response, Context, on_database, on_manager, on_scheduler, on_data_store, set_status,
  set_content, assign, describe, set_return_code, is_authorized, guarded,
}

module _ ⦃P : Platform⦄ where
  open P use {Json, null, member, dump, of_int, of_string, of_strings}

  -- The signals that the manager below has sent.
  abbrev pub sent_by : Scheduler → List Handle
  sent_by s = s.manager.killed

  abbrev pub sent : Context → List Handle
  sent c = sent_by c.scheduler

  push_start-Preserves :
      (now address : ℕ) (name schedule : String)
      → Preserves sent_by (push_start now address name schedule)
  unfolding push_start Scheduler.push
  push_start-Preserves now address name schedule =
      Preserves-if (Cron.is_valid (Cron.new schedule)) _ _ (record { at = λ s. refl })
        (Preserves-pure _)

  pub schedule-Preserves :
      (now address : ℕ) (name : String) → Preserves sent_by (unsafe_job_schedule now address name)
  unfolding unsafe_job_schedule
  schedule-Preserves now address name =
      Preserves-bind (Scheduler.on_database (get_job_description null name)) _
        (record { at = λ s. refl })
        λ found.
          Preserves-if (is_ok found.0) _ (pure found.0)
            (Preserves-bind (demand type_error (schedule_text found.1)) _
              (Preserves-demand type_error (schedule_text found.1))
              λ schedule. push_start-Preserves now address name schedule)
            (Preserves-pure found.0)

  start_again : Answers → String → Exec Scheduler Bool
  start_again w name = do
    Scheduler.on_manager (start_job name w.fork w.started_at)
    unsafe_job_schedule w.later w.address name
    pure false

  handled_at :
      (w : Answers) (e : Event) (k : EventType) (s : Scheduler)
      → e.kind ≡ k
      → sent_by (handle_event w e s).1 ≡ sent_by s
  unfolding handle_event
  handled_at w e start_event s eq = rw eq (
      (Preserves-bind {see = sent_by}
          (Scheduler.on_manager (start_job e.job_name w.fork w.started_at)) _
          (record {
            at = λ s.
                ap (λ p. p.0) ((start_job-Preserves e.job_name w.fork w.started_at).at s.manager);
          })
          λ _.
            Preserves-bind (unsafe_job_schedule w.later w.address e.job_name) (λ _. pure false)
              (schedule-Preserves w.later w.address e.job_name) λ _. Preserves-pure false).at
        s)
  handled_at w e stop_event s eq = rw eq refl
  handled_at w e exit_event s eq = rw eq refl

  abbrev pub TurnSent : List Handle → Turn (Option (Result Bool) × Scheduler) → Type 0
  TurnSent before dangling = Unit
  TurnSent before (finished (r, s)) = sent_by s ≡ before

  -- A turn of the scheduler thread sends no signal.
  pub turn-sent : (now : ℕ) (w : Answers) (s : Scheduler) → TurnSent (sent_by s) (turn now w s)
  unfolding turn turn_at pop_and_delete
  turn-sent now w s = elim (Option-cases (top s.events)) [
    | inl none_left ↦ rw (none_left, turn) refl
    | inr (a, on_top) ↦ elim (Option-cases (load a s.heap)) [
      | inl freed ↦ rw (on_top, freed, turn) tt
      | inr (e, there) ↦ elim (Bool-cases (leb_ℤ e.t0 (pos now))) [
        | inr early ↦ rw (on_top, there, early, turn) refl
        | inl due ↦
            rw (on_top, there, due, turn)
              ((Preserves-bind {see = sent_by} (handle_event w e)
                  (λ exit. pop_and_delete a >> pure exit)
                  (record { at = λ s. handled_at w e e.kind s refl })
                  λ exit. record { at = λ s. refl }).at
                s)
      ]
    ]
  ]
