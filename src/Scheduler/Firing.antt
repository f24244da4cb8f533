-- ===== src/Scheduler/Firing.antt =====
-- What a turn of the scheduler thread does with the due event on top of the queue, in terms of the
-- events at their addresses.
use kiwibes.Prelude.Int.{pos, leb_ℤ}
use kiwibes.Prelude.{
  some_inj, [], ℕ, ◌<◌, ◌≡◌, refl, sym, subst, ap, ◌∙◌, String, Option, none, some, ◌∷◌, Bool, true,
  false, if◌then◌else◌, eqb, arith, Option-cases, Bool-cases, inl, inr, eq_iff,
}
use kiwibes.Errors.{KiwibesError, no_error, job_name_unknown, job_schedule_invalid}
use kiwibes.Exec.{bind-ok, Result, ok, ◌>>◌, pure}
use kiwibes.Map
use kiwibes.Cron
use kiwibes.Platform.{Platform}
use kiwibes.Platform.Laws.{PlatformLaws}
use kiwibes.Database.Spec.{Job, Jobs, spec_started, spec_incr}
use kiwibes.Manager.{Manager, Fork, in_parent, start_job}
use kiwibes.Manager.Spec.{System, Runs, spec_start_job, spec_launch}
use kiwibes.Manager.Refinement.{start_job-Implements}
use kiwibes.Scheduler.{
  Event, EventType, start_event, stop_event, exit_event, Heap, load, free, top, Answers, Turn,
  finished, Scheduler, schedule_job, unsafe_job_schedule, handle_event, turn,
}
use kiwibes.Scheduler
use kiwibes.Scheduler.Queue.{IsGreatest, top_of_IsGreatest}
use kiwibes.Scheduler.Ownership.{Owns}
use kiwibes.Scheduler.Safety.{IsSafe, turn-IsSafe}
use kiwibes.Scheduler.Scheduling.{spec_schedule, schedule_job-adds}
use kiwibes.Scheduler.Turns.{due_turn, turn_at_lem, popped}

abbrev pub is_exit : EventType → Bool
is_exit exit_event = true
is_exit _ = false

-- The events at their addresses when the one at `a` has been taken away and a next one, if any, put
-- at `b`.
abbrev pub replaced : ℕ → ℕ → Option Event → (ℕ → Option Event) → ℕ → Option Event
replaced a b none events c = if eqb a c then none else events c
replaced a b (some next) events c =
    if eqb a c then none else if eqb b c then some next else events c

load-free_any : (a b : ℕ) (h : Heap) → load b (free a h) ≡ (if eqb a b then none else load b h)
unfolding load free
load-free_any a b [] = ground arith
load-free_any a b ((c, e) ∷ h) = ground (arith, load-free_any a b h)

module _ ⦃P : Platform⦄ where
  abbrev pub schedule_of : Option Job → Option String
  schedule_of none = none
  schedule_of (some job) = some job.schedule

  -- The next start of a known job with a valid schedule.
  unfoldable pub next_start : ℕ → String → Option String → Option Event
  next_start now name none = none
  next_start now name (some schedule) =
      if Cron.is_valid (Cron.new schedule)
      then some
          (record { kind = start_event; t0 = Cron.next now (Cron.new schedule); job_name = name })
      else none

  -- What the kinds of events do: a start runs the job and has a next start, the others do nothing.
  abbrev pub next_of : EventType → Answers → String → Option Job → Option Event
  next_of start_event w name job = next_start w.later name (schedule_of job)
  next_of _ w name job = none

  abbrev pub manager_after : EventType → Answers → String → Manager → Manager
  manager_after start_event w name m = (start_job name w.fork w.started_at m).1
  manager_after _ w name m = m

  -- The turn has ended without an exception, has handled the event, and has replaced it.
  pub record Fires (w : Answers) (a : ℕ) (e : Event) (job : Option Job) (s : Scheduler)
      (r : Turn (Option (Result Bool) × Scheduler)) : Type 0 where
    pub after : Scheduler
    pub result : r ≡ finished (some (ok (is_exit e.kind)), after)
    pub manager : after.manager ≡ manager_after e.kind w e.job_name s.manager
    pub events :
        (b : ℕ)
        → load b after.heap
          ≡ replaced a w.address (next_of e.kind w e.job_name job) (λ c. load c s.heap) b
    pub owned : Owns after.events after.heap

  abbrev with_next : ℕ → Option Event → Scheduler → Scheduler
  with_next a none s = s
  with_next a (some e) s = record s { heap = (a, e) ∷ s.heap; events = a ∷ s.events }

  -- A start leaves the schedules.
  incr-schedule :
      (name n : String) (js : Jobs) → schedule_of ((spec_incr name js).1 n) ≡ schedule_of (js n)
  unfolding spec_incr
  incr-schedule name n js = ground (arith, eq_iff name n)

  started-schedule :
      (now : ℕ) (name n : String) (js : Jobs)
      → schedule_of ((spec_started now name js).1 n) ≡ schedule_of (js n)
  unfolding spec_started
  started-schedule now name n js = ground (arith, eq_iff name n)

  launch-schedule :
      (name : String) (fork : Fork) (now : ℕ) (n : String) (s : System)
      → schedule_of ((spec_launch name fork now s).1.jobs n) ≡ schedule_of (s.jobs n)
  launch-schedule name (in_parent pid) now n s = started-schedule now name n s.jobs
  launch-schedule name _ now n s = refl

  start_job-schedule :
      (name : String) (fork : Fork) (now : ℕ) (n : String) (s : System)
      → schedule_of ((spec_start_job name fork now s).1.jobs n) ≡ schedule_of (s.jobs n)
  unfolding spec_start_job
  start_job-schedule name fork now n s = elim (Option-cases (Map.find name s.active)) [
    | inr (handle, e) ↦ rw (e, spec_start_job) (incr-schedule name n s.jobs)
    | inl e ↦ elim (Option-cases (s.jobs name)) [
      | inl u ↦ rw (e, u, spec_start_job) refl
      | inr (job, k) ↦ rw (e, k, spec_start_job) (launch-schedule name fork now n s)
    ]
  ]

  schedule-next :
      (now address : ℕ) (name : String) (job : Option Job) (s : Scheduler)
      → (error : KiwibesError) × (spec_schedule now address name job s
          ≡ (ok error, with_next address (next_start now name (schedule_of job)) s))
  unfolding spec_schedule next_start
  schedule-next now address name none s = (job_name_unknown, refl)
  schedule-next now address name (some job) s =
      elim (Bool-cases (Cron.is_valid (Cron.new job.schedule))) [
        | inl v ↦ (no_error, rw v refl)
        | inr i ↦ (job_schedule_invalid, rw i refl)
      ]

  with_next-load :
      (a b : ℕ) (next : Option Event) (c : ℕ) (s : Scheduler)
      → load c (free a (with_next b next s).heap) ≡ replaced a b next (λ d. load d s.heap) c
  unfolding load
  with_next-load a b none c s = load-free_any a c s.heap
  with_next-load a b (some e) c s = load-free_any a c ((b, e) ∷ s.heap) ∙ ground arith

  with_next-manager :
      (b : ℕ) (next : Option Event) (s : Scheduler) → (with_next b next s).manager ≡ s.manager
  with_next-manager b none s = refl
  with_next-manager b (some e) s = refl

  with_next-heap :
      (b : ℕ) (next : Option Event) (s : Scheduler) (m : Manager)
      → (with_next b next (record s { manager = m })).heap ≡ (with_next b next s).heap
  with_next-heap b none s m = refl
  with_next-heap b (some e) s m = refl

  module _ (L : PlatformLaws P) where
    handle_event-kind :
        (w : Answers) (e : Event) (s : Scheduler) (sys : System) (k : EventType)
        → Runs s.manager sys
        → e.kind ≡ k
        → handle_event w e s ≡ (
          ok (is_exit k),
          with_next w.address
              (next_of k w e.job_name (sys.jobs e.job_name))
              (record s { manager = manager_after k w e.job_name s.manager }),
        )
    unfolding handle_event schedule_job
    handle_event-kind w e s sys start_event r eq =
        let i = start_job-Implements L e.job_name w.fork w.started_at s.manager sys r in
        let s1 = record s { manager = (start_job e.job_name w.fork w.started_at s.manager).1 } in
        let after = (spec_start_job e.job_name w.fork w.started_at sys).1 in
        let (error, added) =
          schedule-next w.later w.address e.job_name (after.jobs e.job_name) s1 in
        rw eq (
          bind-ok (Scheduler.on_manager (start_job e.job_name w.fork w.started_at))
            (λ _. unsafe_job_schedule w.later w.address e.job_name >> pure false) s _ s1 _
            (ap (λ x. (x, s1)) i.result)
            (bind-ok (unsafe_job_schedule w.later w.address e.job_name) (λ _. pure false) s1 error _
              _
              (schedule_job-adds w.later w.address e.job_name s1 after.jobs i.after.stored
                ∙ added
                ∙ ap (λ x. (ok error, with_next w.address (next_start w.later e.job_name x) s1))
                    (start_job-schedule e.job_name w.fork w.started_at e.job_name sys))
              refl))
    handle_event-kind w e s sys stop_event r eq = rw eq refl
    handle_event-kind w e s sys exit_event r eq = rw eq refl

    -- If the manager runs an abstract system, the queue holds each allocated event once, the event
    -- at the greatest queued address is due, and the address for a new event is free and smaller,
    -- then a turn of the scheduler thread ends without an exception: the manager is the one after
    -- `start_job` where the event is a start, and otherwise the same; the event is gone, in its
    -- place there is the next start of its job where it is a start of a known job with a valid
    -- schedule, every other event is at its address as before, the queue holds each allocated event
    -- once, and the turn says to exit where the event is the exit.
    pub turn-Fires :
        (now a : ℕ) (e : Event) (w : Answers) (s : Scheduler) (sys : System)
        → Runs s.manager sys
        → Owns s.events s.heap
        → IsGreatest a s.events
        → load a s.heap ≡ some e
        → leb_ℤ e.t0 (pos now) ≡ true
        → load w.address s.heap ≡ none
        → w.address < a
        → Fires w a e (sys.jobs e.job_name) s (turn now w s)
    turn-Fires now a e w s sys r o g there due fresh below =
        let next = next_of e.kind w e.job_name (sys.jobs e.job_name) in
        let s1 = record s { manager = manager_after e.kind w e.job_name s.manager } in
        let handled = handle_event-kind w e s sys e.kind r refl in
        let result =
          due_turn now a e w s g there due
          ∙ ap (λ r. finished (some r.0, r.1)) (turn_at_lem a e w s _ _ handled) in
        record {
          after = popped a (with_next w.address next s1);
          result = result;
          manager = with_next-manager w.address next s1;
          events = λ b. with_next-load a w.address next b s1;
          owned = subst IsSafe result (
              turn-IsSafe now w s o fresh (λ b on_top.
                subst (λ x. w.address < x)
                  (some_inj (sym (top_of_IsGreatest s.events a g) ∙ on_top)) below));
        }
