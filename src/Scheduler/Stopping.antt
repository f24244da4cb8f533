-- ===== src/Scheduler/Stopping.antt =====
-- The end of the scheduler thread.
use kiwibes.Prelude.Int.{leb_ℤ, pos}
use kiwibes.Prelude.{
  Bool, ℕ, ◌≤◌, ◌≡◌, refl, ap, ◌∙◌, none, some, List, [], ◌∷◌, true, false, arith, if◌then◌else◌,
}
use kiwibes.Exec.{ok}
use kiwibes.Platform.{Platform}
use kiwibes.Scheduler.{
  Event, exit_event, Heap, load, free, remove_one, pop, push, Answers, finished, Scheduler, stop,
  handle_event, pop_and_delete, turn_at, turn, turns,
}
use kiwibes.Scheduler.Queue.{IsGreatest, top_of_IsGreatest}
use kiwibes.Scheduler.Thread.{thread, after_join, stop_and_join}

free-absent : (a : ℕ) (h : Heap) → load a h ≡ none → free a h ≡ h
unfolding load free
free-absent a [] e = refl
free-absent a ((b, x) ∷ h) e = ground (arith, free-absent a h)

free_pushed : (a : ℕ) (x : Event) (h : Heap) → load a h ≡ none → free a ((a, x) ∷ h) ≡ h
unfolding free
free_pushed a x h e = ground (arith, free-absent a h e)

load_pushed : (a : ℕ) (x : Event) (h : Heap) → load a ((a, x) ∷ h) ≡ some x
unfolding load
load_pushed a x h = ground arith

pop_pushed : (a : ℕ) (q : List ℕ) → IsGreatest a (a ∷ q) → pop (a ∷ q) ≡ q
unfolding pop remove_one
pop_pushed a q g = rw (top_of_IsGreatest (a ∷ q) a g, pop) (ground arith)

if_true : {A : Type 0} (b : Bool) (x y : A) → b ≡ true → (if b then x else y) ≡ x
if_true true x y e = refl
if_true false x y e = absurd cc

leb-le : (a b : ℕ) → a ≤ b → leb_ℤ (pos a) (pos b) ≡ true
leb-le a b h = ground arith

module _ ⦃P : Platform⦄ where
  abbrev exit_at : ℕ → Event
  exit_at now = record { kind = exit_event; t0 = pos now; job_name = "" }

  abbrev asked : ℕ → ℕ → Scheduler → Scheduler
  asked now address s = record s {
    heap = (address, exit_at now) ∷ s.heap;
    events = address ∷ s.events;
  }

  exit_turn :
      (now address later : ℕ) (w : Answers) (s : Scheduler)
      → IsGreatest address (address ∷ s.events)
      → load address s.heap ≡ none
      → now ≤ later
      → turn later w (asked now address s) ≡ finished (some (ok true), s)
  unfolding turn turn_at handle_event pop_and_delete
  exit_turn now address later w s g fresh due =
      rw
        (
          top_of_IsGreatest (address ∷ s.events) address g,
          turn,
          load_pushed address (exit_at now) s.heap,
          leb-le now later due,
          free_pushed address (exit_at now) s.heap fresh,
          pop_pushed address s.events g,
        )
        refl

  stop_asks :
      (now address : ℕ) (s : Scheduler)
      → s.is_running ≡ true
      → (stop now address s).1 ≡ asked now address s
  unfolding stop push
  stop_asks now address s runs = rw (runs, stop) refl

  turns_end :
      (later : ℕ) (w : Answers) (ws : List Answers) (s t : Scheduler)
      → turn later w s ≡ finished (some (ok true), t)
      → turns later (w ∷ ws) s ≡ finished (some (ok true), t)
  unfolding turns
  turns_end later w ws s t e = rw (turns, e) refl

  thread_ends :
      (later : ℕ) (ws : List Answers) (rest : List (ℕ × List Answers)) (s t : Scheduler)
      → turns later ws s ≡ finished (some (ok true), t)
      → thread ((later, ws) ∷ rest) s ≡ finished (some (ok true), t)
  unfolding thread
  thread_ends later ws rest s t e = rw (thread, e) refl

  joins :
      (now address : ℕ) (passes : List (ℕ × List Answers)) (s t : Scheduler)
      → s.is_running ≡ true
      → thread passes (stop now address s).1 ≡ finished (some (ok true), t)
      → stop_and_join now address passes s
        ≡ finished (some (ok true), record t { is_running = false })
  unfolding stop_and_join
  joins now address passes s t runs e =
      if_true s.is_running (after_join (thread passes (stop now address s).1))
        (finished (some (ok true), s)) runs
      ∙ ap after_join e

  -- Where the exit event is at the greatest address, and the next pass of the thread is not earlier
  -- than it, that pass ends the thread, and the queue is as it was before the call of `stop`.
  pub stop_and_join-ends :
      (now address later : ℕ) (w : Answers) (ws : List Answers) (rest : List (ℕ × List Answers))
      (s : Scheduler)
      → s.is_running ≡ true
      → IsGreatest address (address ∷ s.events)
      → load address s.heap ≡ none
      → now ≤ later
      → stop_and_join now address ((later, w ∷ ws) ∷ rest) s
        ≡ finished (some (ok true), record s { is_running = false })
  stop_and_join-ends now address later w ws rest s runs g fresh due =
      joins now address ((later, w ∷ ws) ∷ rest) s s runs (
        ap (thread ((later, w ∷ ws) ∷ rest)) (stop_asks now address s runs)
        ∙ thread_ends later (w ∷ ws) rest (asked now address s) s (
            turns_end later w ws (asked now address s) s
              (exit_turn now address later w s g fresh due)))
