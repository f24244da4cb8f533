-- ===== src/Scheduler/Safety.antt =====
-- Turns of the scheduler thread that read through no freed address.
use kiwibes.Prelude.Int.{pos, leb_ℤ}
use kiwibes.Prelude.{
  ℕ, ◌<◌, ◌≡◌, refl, ◌∙◌, String, Option, none, some, List, ◌∷◌, Bool, false, arith, Option-cases,
  Bool-cases, inl, inr,
}
use kiwibes.Database.{Database}
use kiwibes.Errors.{no_error, job_name_unknown}
use kiwibes.Exec.{Exec, continue, Result, ok, throws, ◌>>◌, pure}
use kiwibes.Cron
use kiwibes.Platform.{Platform}
use kiwibes.Database.Names.{get_job_description}
use kiwibes.Manager.{start_job}
use kiwibes.Scheduler.{
  Event, EventType, start_event, stop_event, exit_event, Heap, load, free, top, pop, Answers, Turn,
  finished, dangling, Scheduler, push, push_start, schedule_text, unsafe_job_schedule, handle_event,
  pop_and_delete, turn_at, turn, start, stop, schedule_job, unschedule_job,
}
use kiwibes.Scheduler.Queue.{top-IsGreatest}
use kiwibes.Scheduler.Ownership.{Owns, Owns-free, Owns-push, Owns-unschedule, is_live-some}

module _ ⦃P : Platform⦄ where
  open P use {Json, null, member}

  -- The queue is as it was, or has one more event, at the address.
  data Grows (a : ℕ) (q : List ℕ) (h : Heap) : Scheduler → Type 0 where
    same : (s : Scheduler) → s.events ≡ q → s.heap ≡ h → Grows a q h s
    grown : (e : Event) (s : Scheduler) → s.events ≡ a ∷ q → s.heap ≡ (a, e) ∷ h → Grows a q h s

  found_lem :
      (name : String) (db : Database) (job : Json)
      → member db.jobs name ≡ some job
      → get_job_description null name db ≡ (ok (no_error, job), db)
  unfolding get_job_description
  found_lem name db job e = rw (e, get_job_description) refl

  missing_lem :
      (name : String) (db : Database)
      → member db.jobs name ≡ none
      → get_job_description null name db ≡ (ok (job_name_unknown, null), db)
  unfolding get_job_description
  missing_lem name db e = rw (e, get_job_description) refl

  unsafe_job_schedule-Grows :
      (now a : ℕ) (name : String) (s : Scheduler)
      → Grows a s.events s.heap (unsafe_job_schedule now a name s).1
  unfolding unsafe_job_schedule push_start push
  unsafe_job_schedule-Grows now a name s =
      elim (Option-cases (member s.manager.database.jobs name)) [
        | inl e ↦ rw (missing_lem name s.manager.database e) (same _ refl refl)
        | inr (job, e) ↦ elim (Option-cases (schedule_text job)) [
          | inl n ↦ rw (found_lem name s.manager.database job e, n) (same _ refl refl)
          | inr (schedule, y) ↦ elim (Bool-cases (Cron.is_valid (Cron.new schedule))) [
            | inl v ↦ rw (found_lem name s.manager.database job e, y, v) (grown _ _ refl refl)
            | inr i ↦ rw (found_lem name s.manager.database job e, y, i) (same _ refl refl)
          ]
        ]
      ]

  continue-Grows :
      {A B : Type 0} {a : ℕ} {q : List ℕ} {h : Heap} (r : Result A) (f : A → Exec Scheduler B)
      (s : Scheduler)
      → Grows a q h s
      → ((x : A) → Grows a q h (f x s).1)
      → Grows a q h (continue r f s).1
  continue-Grows (ok x) f s g k = k x
  continue-Grows (throws e) f s g k = g

  handle_event-Grows :
      (w : Answers) (e : Event) (s : Scheduler) (k : EventType)
      → e.kind ≡ k
      → Grows w.address s.events s.heap (handle_event w e s).1
  unfolding handle_event
  handle_event-Grows w e s start_event eq =
      let r = start_job e.job_name w.fork w.started_at s.manager in
      let s1 = record s { manager = r.1 } in
      let u = unsafe_job_schedule w.later w.address e.job_name s1 in
      let g = unsafe_job_schedule-Grows w.later w.address e.job_name s1 in
      rw eq (
        continue-Grows r.0 (λ _. unsafe_job_schedule w.later w.address e.job_name >> pure false) s1
          (same s1 refl refl) λ _. continue-Grows u.0 (λ _. pure false) u.1 g λ _. g)
  handle_event-Grows w e s stop_event eq = rw eq (same s refl refl)
  handle_event-Grows w e s exit_event eq = rw eq (same s refl refl)

  abbrev pub IsOwned : Scheduler → Type 0
  IsOwned s = Owns s.events s.heap

  Owns-pop : (a : ℕ) (q : List ℕ) (h : Heap) → Owns q h → top q ≡ some a → Owns (pop q) (free a h)
  unfolding pop
  Owns-pop a q h o e = rw (e, pop) (Owns-free a q h o)

  top-lower : (a b : ℕ) (q : List ℕ) → top q ≡ some a → b < a → top (b ∷ q) ≡ some a
  unfolding top
  top-lower a b q e lt = ground arith

  Grows-Owns :
      (a : ℕ) (q : List ℕ) (h : Heap) (s : Scheduler)
      → Owns q h
      → load a h ≡ none
      → Grows a q h s
      → IsOwned s
  Grows-Owns a q h s o fresh (same _ e f) = rw (e, f) o
  Grows-Owns a q h s o fresh (grown e _ f g) = rw (f, g) (Owns-push a e q h fresh o)

  Grows-top :
      (a b : ℕ) (q : List ℕ) (h : Heap) (s : Scheduler)
      → top q ≡ some b
      → a < b
      → Grows a q h s
      → top s.events ≡ some b
  Grows-top a b q h s e lt (same _ f g) = rw f e
  Grows-top a b q h s e lt (grown x _ f g) = rw f (top-lower b a q e lt)

  -- The turn has read through no freed address, and the queue holds each allocated event once.
  abbrev pub IsSafe : Turn (Option (Result Bool) × Scheduler) → Type 0
  IsSafe dangling = ⊥
  IsSafe (finished (r, s)) = IsOwned s

  handled-IsOwned :
      (r : Result Bool) (a : ℕ) (s : Scheduler)
      → IsOwned s
      → top s.events ≡ some a
      → IsOwned (continue r (λ exit. pop_and_delete a >> pure exit) s).1
  unfolding pop_and_delete
  handled-IsOwned (ok b) a s o e = Owns-pop a s.events s.heap o e
  handled-IsOwned (throws x) a s o e = o

  -- If the queue holds each allocated event once, and the address that the turn has for a new event
  -- is free and smaller than the greatest queued one, then a turn of the scheduler thread reads
  -- through no freed address, and the queue holds each allocated event once again.
  pub turn-IsSafe :
      (now : ℕ) (w : Answers) (s : Scheduler)
      → Owns s.events s.heap
      → load w.address s.heap ≡ none
      → ((a : ℕ) → top s.events ≡ some a → w.address < a)
      → IsSafe (turn now w s)
  unfolding turn turn_at
  turn-IsSafe now w s o fresh below = elim (Option-cases (top s.events)) [
    | inl e ↦ rw (e, turn) o
    | inr (a, e) ↦
        let queued = (top-IsGreatest s.events a e).queued in
        let (event, there) = is_live-some a s.heap (o.owned a ∙ queued) in
        elim (Bool-cases (leb_ℤ event.t0 (pos now))) [
          | inr early ↦ rw (e, there, early, turn) o
          | inl due ↦
              let r = handle_event w event s in
              let g = handle_event-Grows w event s event.kind refl in
              rw (e, there, due, turn)
                (handled-IsOwned r.0 a r.1 (Grows-Owns w.address s.events s.heap r.1 o fresh g)
                  (Grows-top w.address a s.events s.heap r.1 e (below a e) g))
        ]
  ]

  schedule_job-IsOwned :
      (now address : ℕ) (name : String) (s : Scheduler)
      → IsOwned s
      → load address s.heap ≡ none
      → IsOwned (schedule_job now address name s).1
  unfolding schedule_job
  schedule_job-IsOwned now address name s o fresh =
      Grows-Owns address s.events s.heap (unsafe_job_schedule now address name s).1 o fresh
        (unsafe_job_schedule-Grows now address name s)

  stop-IsOwned :
      (now address : ℕ) (s : Scheduler)
      → IsOwned s
      → load address s.heap ≡ none
      → IsOwned (stop now address s).1
  unfolding stop push
  stop-IsOwned now address s o fresh = elim (Bool-cases s.is_running) [
    | inl r ↦ rw (r, stop) (Owns-push address _ s.events s.heap fresh o)
    | inr r ↦ rw (r, stop) o
  ]

  -- If the queue of events holds each allocated event once, it does so after each operation of the
  -- scheduler that a client may call: `start`, `unschedule_job`, and `schedule_job` and `stop` with
  -- a free address for the new event.
  pub calls-IsOwned :
      (now address : ℕ) (name : String) (s : Scheduler)
      → Owns s.events s.heap
      → load address s.heap ≡ none
      → IsOwned (start s).1
        × IsOwned (unschedule_job name s).1
        × IsOwned (schedule_job now address name s).1
        × IsOwned (stop now address s).1
  unfolding start unschedule_job
  calls-IsOwned now address name s o fresh = (
    o,
    Owns-unschedule name s.events s.heap o,
    schedule_job-IsOwned now address name s o fresh,
    stop-IsOwned now address s o fresh,
  )
