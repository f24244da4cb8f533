-- ===== src/Scheduler/Thread.antt =====
-- source/kiwibes_scheduler.cpp: the loop of the scheduler thread, the end of `stop`, and the
-- destructor.
use kiwibes.Prelude.{
  ℕ, zero, suc, Option, none, some, List, [], ◌∷◌, Bool, true, false, if◌then◌else◌, length,
}
use kiwibes.Exec.{Result, ok, throws}
use kiwibes.Platform.{Platform}
use kiwibes.Scheduler.{
  Heap, load, free, top, pop, Answers, Turn, finished, dangling, Scheduler, stop, turns,
}

-- The loop of the destructor. A `delete` of an address that has been freed is `dangling`; `none` says
-- that the fuel did not suffice.
unfoldable pub drain : ℕ → Heap → List ℕ → Turn (Option Heap)
drain zero heap events = elim (top events) [ none ↦ finished (some heap) | some a ↦ finished none ]
drain (suc n) heap events = elim (top events) [
  | none ↦ finished (some heap)
  | some a ↦ elim (load a heap) [ none ↦ dangling | some e ↦ drain n (free a heap) (pop events) ]
]

module _ ⦃P : Platform⦄ where
  -- The thread, with the time and the answers of each pass of its outer loop: `none` when it still
  -- runs after these passes, `some` when it has ended.
  unfoldable pub thread :
      List (ℕ × List Answers) → Scheduler → Turn (Option (Result Bool) × Scheduler)
  thread [] s = finished (none, s)
  thread ((now, ws) ∷ rest) s = elim (turns now ws s) [
    | dangling ↦ dangling
    | finished (none, s') ↦ thread rest s'
    | finished (some r, s') ↦ finished (some r, s')
  ]

  -- The end of `stop`, where the thread has ended.
  abbrev pub after_join :
      Turn (Option (Result Bool) × Scheduler) → Turn (Option (Result Bool) × Scheduler)
  after_join dangling = dangling
  after_join (finished (none, s)) = finished (none, s)
  after_join (finished (some (throws e), s)) = finished (some (throws e), s)
  after_join (finished (some (ok b), s)) = finished (some (ok b), record s { is_running = false })

  -- `stop` with the wait for the thread.
  unfoldable pub stop_and_join :
      ℕ → ℕ → List (ℕ × List Answers) → Scheduler → Turn (Option (Result Bool) × Scheduler)
  stop_and_join now address passes s =
      if s.is_running
      then after_join (thread passes (stop now address s).1)
      else finished (some (ok true), s)

  -- The destructor of a scheduler that has been stopped.
  unfoldable pub destroy : Scheduler → Turn (Option Heap)
  destroy s = drain (length s.events) s.heap s.events
