-- ===== src/Scheduler/Scheduling.antt =====
-- What `schedule_job` adds to the queue.
use kiwibes.Prelude.{
  ℕ, String, ◌≡◌, refl, Option, none, some, ◌∷◌, if◌then◌else◌, Option-cases, Bool-cases, inl, inr,
}
use kiwibes.Errors.{KiwibesError, no_error, job_name_unknown, job_schedule_invalid}
use kiwibes.Exec.{Result, ok}
use kiwibes.Platform.{Platform}
use kiwibes.Cron
use kiwibes.Database.Spec.{Job, Jobs, Stores}
use kiwibes.Database.Refinement.Queries.{get_job_description-known, get_job_description-unknown}
use kiwibes.Scheduler.{
  start_event, Scheduler, push, push_start, schedule_text, unsafe_job_schedule, schedule_job,
}

module _ ⦃P : Platform⦄ where
  open P use {null}

  -- A new start event of the job at the address.
  abbrev pub with_start : ℕ → ℕ → String → String → Scheduler → Scheduler
  with_start now address name schedule s = record s {
    heap =
        (
          address,
          record { kind = start_event; t0 = Cron.next now (Cron.new schedule); job_name = name },
        )
        ∷ s.heap;
    events = address ∷ s.events;
  }

  -- The result for a job of the database, if it is known.
  unfoldable pub spec_schedule :
      ℕ → ℕ → String → Option Job → Scheduler → Result KiwibesError × Scheduler
  spec_schedule now address name none s = (ok job_name_unknown, s)
  spec_schedule now address name (some job) s =
      if Cron.is_valid (Cron.new job.schedule)
      then (ok no_error, with_start now address name job.schedule s)
      else (ok job_schedule_invalid, s)

  -- `schedule_job`, where the database stands for a map of jobs, ends without an exception: an
  -- unknown job and one with an invalid schedule are refused and nothing changes, and for a job
  -- with a valid schedule one start event at the schedule's next instant is added to the queue.
  pub schedule_job-adds :
      (now address : ℕ) (name : String) (s : Scheduler) (jobs : Jobs)
      → Stores s.manager.database jobs
      → schedule_job now address name s ≡ spec_schedule now address name (jobs name) s
  unfolding schedule_job unsafe_job_schedule push_start push schedule_text spec_schedule
  schedule_job-adds now address name s jobs r = elim (Option-cases (jobs name)) [
    | inl e ↦ rw (e, get_job_description-unknown name null s.manager.database jobs r e) refl
    | inr (job, e) ↦
        let d = get_job_description-known name null s.manager.database jobs job r e in
        elim (Bool-cases (Cron.is_valid (Cron.new job.schedule))) [
          | inl v ↦ rw (e, d.found, d.holds.schedule, v) refl
          | inr i ↦ rw (e, d.found, d.holds.schedule, i) refl
        ]
  ]
