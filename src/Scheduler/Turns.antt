-- ===== src/Scheduler/Turns.antt =====
-- Turns of the scheduler thread: what the order of the addresses makes of the events.
use kiwibes.Prelude.Int.{pos, leb_ℤ}
use kiwibes.Prelude.{
  true, false, ℕ, ◌≤◌, ◌<◌, ◌≡◌, refl, ◌∙◌, ap, none, some, ◌∷◌, Bool, true, false, leb, arith,
}
use kiwibes.Exec.{ok}
use kiwibes.Platform.{Platform}
use kiwibes.Scheduler.{
  Event, load, free, top, remove_one, pop, Answers, finished, dangling, Scheduler, handle_event,
  pop_and_delete, turn_at, turn,
}
use kiwibes.Scheduler.Queue.{IsGreatest, top_of_IsGreatest, pop-greater, pop-lower, load-free}

leb-true : (a b : ℕ) → a ≤ b → leb a b ≡ true
leb-true a b h = ground arith

leb-false : (a b : ℕ) → b < a → leb a b ≡ false
leb-false a b h = ground arith

module _ ⦃P : Platform⦄ where
  -- An event whose time has not come ends the inner loop of the scheduler thread when it is at the
  -- greatest queued address, also where other queued events are due.
  pub turn-waits :
      (now a : ℕ) (e : Event) (w : Answers) (s : Scheduler)
      → IsGreatest a s.events
      → load a s.heap ≡ some e
      → leb_ℤ e.t0 (pos now) ≡ false
      → turn now w s ≡ finished (none, s)
  unfolding turn
  turn-waits now a e w s g there early =
      rw (top_of_IsGreatest s.events a g, turn, there, early) refl

  pub due_turn :
      (now a : ℕ) (e : Event) (w : Answers) (s : Scheduler)
      → IsGreatest a s.events
      → load a s.heap ≡ some e
      → leb_ℤ e.t0 (pos now) ≡ true
      → turn now w s ≡ finished (some (turn_at w a e s).0, (turn_at w a e s).1)
  unfolding turn
  due_turn now a e w s g there due = rw (top_of_IsGreatest s.events a g, turn, there, due) refl

  turn_freed :
      (now a : ℕ) (w : Answers) (s : Scheduler)
      → top s.events ≡ some a
      → load a s.heap ≡ none
      → turn now w s ≡ dangling
  unfolding turn
  turn_freed now a w s on_top gone = rw (on_top, turn, gone) refl

  -- The turn after the event has been handled.
  abbrev pub popped : ℕ → Scheduler → Scheduler
  popped a s = record s { heap = free a s.heap; events = pop s.events }

  pub turn_at_lem :
      (a : ℕ) (e : Event) (w : Answers) (s s1 : Scheduler) (b : Bool)
      → handle_event w e s ≡ (ok b, s1)
      → turn_at w a e s ≡ (ok b, popped a s1)
  unfolding turn_at pop_and_delete
  turn_at_lem a e w s s1 b h = rw h refl

  -- If the event that a turn schedules is at a greater address than the due event which the turn
  -- handles, and that one is at the greatest queued address, then `pop` takes the new event and
  -- `delete` frees the handled one, which stays queued: the next turn reads through the freed
  -- address, whatever the time and the answers of the system.
  pub turn-dangling :
      (now a : ℕ) (e : Event) (w : Answers) (s s1 : Scheduler) (b : Bool) (later : ℕ) (w' : Answers)
      → IsGreatest a s.events
      → load a s.heap ≡ some e
      → leb_ℤ e.t0 (pos now) ≡ true
      → handle_event w e s ≡ (ok b, s1)
      → s1.events ≡ w.address ∷ s.events
      → a < w.address
      → (t : Scheduler) × (turn now w s ≡ finished (some (ok b), t)) × (turn later w' t ≡ dangling)
  turn-dangling now a e w s s1 b later w' g there due handled pushed above = (
    popped a s1,
    due_turn now a e w s g there due
        ∙ ap (λ r. finished (some r.0, r.1)) (turn_at_lem a e w s s1 b handled),
    turn_freed later a w' (popped a s1)
        (ap top (ap pop pushed ∙ pop-greater a w.address s.events g above)
          ∙ top_of_IsGreatest s.events a g)
        (load-free a s1.heap),
  )

  -- If a turn handles a due event at the greatest queued address and schedules a new event at a
  -- smaller address, then it takes the handled event, and no other, from the queue, and frees it.
  pub turn-pops :
      (now a : ℕ) (e : Event) (w : Answers) (s s1 : Scheduler) (b : Bool)
      → IsGreatest a s.events
      → load a s.heap ≡ some e
      → leb_ℤ e.t0 (pos now) ≡ true
      → handle_event w e s ≡ (ok b, s1)
      → s1.events ≡ w.address ∷ s.events
      → w.address < a
      → turn now w s
        ≡ finished (
          some (ok b),
          record s1 { heap = free a s1.heap; events = w.address ∷ remove_one a s.events },
        )
  turn-pops now a e w s s1 b g there due handled pushed below =
      due_turn now a e w s g there due
      ∙ ap (λ r. finished (some r.0, r.1)) (turn_at_lem a e w s s1 b handled)
      ∙ ap (λ q. finished (some (ok b), record s1 { heap = free a s1.heap; events = q }))
          (ap pop pushed ∙ pop-lower a w.address s.events g below)
