-- ===== src/Scheduler.antt =====
-- source/kiwibes_scheduler.cpp and .h, source/kiwibes_scheduler_event.cpp and .h: the events of the
-- jobs with a schedule, and the thread that starts these jobs.
pub mod Queue
pub mod Names
pub mod Turns
pub mod Firing
pub mod Scheduling
pub mod Thread
pub mod Ownership
pub mod Safety
pub mod Stopping
use kiwibes.Prelude.Int.{ℤ, pos, leb_ℤ, ltb_ℤ}
use kiwibes.Prelude.{
  ℕ, zero, suc, String, Option, none, some, List, [], ◌∷◌, ◌++◌, Bool, true, false, if◌then◌else◌,
  eqb, ltb, leb, ◌==◌, any,
}
use kiwibes.Errors.{KiwibesError, no_error, job_schedule_invalid, is_ok}
use kiwibes.Exec.{Exec, Result, ok, type_error, ◌>>=◌, ◌>>◌, pure, demand}
use kiwibes.Platform.{Platform}
use kiwibes.Cron
use kiwibes.Database.{Database}
use kiwibes.Database.Names.{get_job_description}
use kiwibes.Manager.{Manager, Fork, start_job}

-- `T_EVENT_TYPE`
pub data EventType : Type 0 where
  start_event stop_event exit_event : EventType

-- `KiwibesSchedulerEvent`
pub record Event : Type 0 where
  pub kind : EventType
  pub t0 : ℤ
  pub job_name : String

-- `operator<` of events. The queue is one of pointers and does not call it.
unfoldable pub event_lt : Event → Event → Bool
event_lt a b = ltb_ℤ a.t0 b.t0

-- The events that `new` has allocated and `delete` has not freed, by address.
abbrev pub Heap : Type 0
Heap = List (ℕ × Event)

unfoldable pub load : ℕ → Heap → Option Event
load a [] = none
load a ((b, e) ∷ h) = if eqb b a then some e else load a h

unfoldable pub free : ℕ → Heap → Heap
free a [] = []
free a ((b, e) ∷ h) = let rest = free a h in if eqb b a then rest else (b, e) ∷ rest

-- `top` of a `std::priority_queue` of pointers: the greatest address, by `std::less`.
unfoldable pub top : List ℕ → Option ℕ
top [] = none
top (a ∷ q) = elim (top q) [ none ↦ some a | some b ↦ if ltb a b then some b else some a ]

-- `pop`: one occurrence of the greatest address.
unfoldable pub remove_one : ℕ → List ℕ → List ℕ
remove_one a [] = []
remove_one a (b ∷ q) = let rest = remove_one a q in if eqb b a then q else b ∷ rest

abbrev pub remove_top : Option ℕ → List ℕ → List ℕ
remove_top none q = q
remove_top (some a) q = remove_one a q

unfoldable pub pop : List ℕ → List ℕ
pop q = remove_top (top q) q

abbrev pub cancel : String → Event → Event
cancel name e = if name == e.job_name then record e { kind = stop_event } else e

-- Every queued event of the job becomes one that does nothing. The code would read and write through
-- a queued address that has been freed, which has no defined behaviour; such an address is skipped here.
unfoldable pub unschedule_heap : String → List ℕ → Heap → Heap
unschedule_heap name q [] = []
unschedule_heap name q ((a, e) ∷ h) =
    (a, if any (eqb a) q then cancel name e else e) ∷ unschedule_heap name q h

abbrev pub is_start : EventType → Bool
is_start start_event = true
is_start _ = false

-- `none` is a queued address that has been freed, through which the code would read, without a
-- defined behaviour.
unfoldable pub add_name : Option Event → List String → List String
add_name none rest = rest
add_name (some e) rest = if is_start e.kind then e.job_name ∷ rest else rest

-- The order of the names is that of the queue's container, which is not specified.
unfoldable pub scheduled_names : Heap → List ℕ → List String
scheduled_names h [] = []
scheduled_names h (a ∷ q) = add_name (load a h) (scheduled_names h q)

-- What the system answers during one turn of the inner loop: the process of the launch, the clock
-- when the start is recorded, the clock after the pause, and the address of the new event.
pub record Answers : Type 0 where
  pub fork : Fork
  pub started_at : ℕ
  pub later : ℕ
  pub address : ℕ

-- How a turn of the inner loop ends. `dangling` is a read through a freed address.
pub data Turn (A : Type 0) : Type 0 where
  finished : A → Turn A
  dangling : Turn A

module _ ⦃P : Platform⦄ where
  open P use {Json, null, member, get_string}

  -- The queue holds addresses. The manager holds the database that the scheduler points to.
  pub record Scheduler : Type 0 where
    pub manager : Manager
    pub heap : Heap
    pub events : List ℕ
    pub is_running : Bool

  unfoldable pub new : Manager → Scheduler
  new manager = record { manager = manager; heap = []; events = []; is_running = false }

  abbrev pub on_manager : {A : Type 0} → Exec Manager A → Exec Scheduler A
  on_manager f s = ((f s.manager).0, record s { manager = (f s.manager).1 })

  abbrev pub on_database : {A : Type 0} → Exec Database A → Exec Scheduler A
  on_database f s = (
    (f s.manager.database).0,
    record s { manager = record s.manager { database = (f s.manager.database).1 } },
  )

  -- `events.push(new KiwibesSchedulerEvent(kind,t0,name))`, at the address that `new` returns.
  unfoldable pub push : ℕ → Event → Exec Scheduler Unit
  push address e s = (ok tt, record s { heap = (address, e) ∷ s.heap; events = address ∷ s.events })

  -- `job["schedule"].get<std::string>()`
  unfoldable pub schedule_text : Json → Option String
  schedule_text job = elim (member job "schedule") [ none ↦ none | some v ↦ get_string v ]

  unfoldable pub push_start : ℕ → ℕ → String → String → Exec Scheduler KiwibesError
  push_start now address name schedule =
      if Cron.is_valid (Cron.new schedule)
      then (do
        push address
            (record { kind = start_event; t0 = Cron.next now (Cron.new schedule); job_name = name })
        pure no_error)
      else pure job_schedule_invalid

  unfoldable pub unsafe_job_schedule : ℕ → ℕ → String → Exec Scheduler KiwibesError
  unsafe_job_schedule now address name = do
    (error, job) ← on_database (get_job_description null name)
    if is_ok error
        then (do
          schedule ← demand type_error (schedule_text job)
          push_start now address name schedule)
        else pure error

  unfoldable pub schedule_job : ℕ → ℕ → String → Exec Scheduler KiwibesError
  schedule_job = unsafe_job_schedule

  unfoldable pub start : Exec Scheduler Unit
  start s = (ok tt, record s { is_running = true })

  -- `stop`, up to the wait for the thread.
  unfoldable pub stop : ℕ → ℕ → Exec Scheduler Unit
  unfolding push
  stop now address s =
      (if s.is_running
          then push address (record { kind = exit_event; t0 = pos now; job_name = "" })
          else pure tt)
        s

  unfoldable pub unschedule_job : String → Exec Scheduler Unit
  unschedule_job name s = (ok tt, record s { heap = unschedule_heap name s.events s.heap })

  unfoldable pub get_all_scheduled_job_names : Scheduler → List String
  get_all_scheduled_job_names s = scheduled_names s.heap s.events

  -- The `switch` of the scheduler thread; `true` when the exit event has been received.
  unfoldable pub handle_event : Answers → Event → Exec Scheduler Bool
  handle_event w e = elim e.kind [
    | start_event ↦ (do
      on_manager (start_job e.job_name w.fork w.started_at)
      unsafe_job_schedule w.later w.address e.job_name
      pure false)
    | stop_event ↦ pure false
    | exit_event ↦ pure true
  ]

  -- `events->pop(); delete event;`
  unfoldable pub pop_and_delete : ℕ → Exec Scheduler Unit
  pop_and_delete a s = (ok tt, record s { heap = free a s.heap; events = pop s.events })

  -- One turn of the inner loop at the event on top, whose address is `a`.
  unfoldable pub turn_at : Answers → ℕ → Event → Exec Scheduler Bool
  turn_at w a e = do exit ← handle_event w e; pop_and_delete a; pure exit

  -- The test of the inner loop and its body: `none` when the loop ends, else whether to exit.
  unfoldable pub turn : ℕ → Answers → Scheduler → Turn (Option (Result Bool) × Scheduler)
  turn now w s = elim (top s.events) [
    | none ↦ finished (none, s)
    | some a ↦ elim (load a s.heap) [
      | none ↦ dangling
      | some e ↦
          if leb_ℤ e.t0 (pos now)
          then finished (some (turn_at w a e s).0, (turn_at w a e s).1)
          else finished (none, s)
    ]
  ]

  -- The inner loop, with the answers that the system has for each turn. It is over when its test
  -- fails, when the exit event was received, and at an exception.
  unfoldable pub turns : ℕ → List Answers → Scheduler → Turn (Option (Result Bool) × Scheduler)
  turns now [] s = finished (none, s)
  turns now (w ∷ ws) s = elim (turn now w s) [
    | dangling ↦ dangling
    | finished (none, s') ↦ finished (none, s')
    | finished (some (ok false), s') ↦ turns now ws s'
    | finished (some r, s') ↦ finished (some r, s')
  ]
