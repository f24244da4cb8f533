-- ===== src/Interleaving/Turns.antt =====
-- The operations of the manager, interrupted at each of their calls of the database, and what other
-- threads do between them.
use kiwibes.Prelude.{ℕ, String, ◌≡◌, List, [], ◌∷◌, Bool, false}
use kiwibes.Exec.{Result, ok}
use kiwibes.Platform.{Platform}
use kiwibes.Platform.Laws.{PlatformLaws}
use kiwibes.Manager.{Manager, Fork, Report}
use kiwibes.Interleaving.{Thread, ends, ◌>>◌, Runs}
use kiwibes.Interleaving.Operations.{start_job, stop_job, watch}
use kiwibes.Interleaving.Safety.{Safe, Safe-bind, Runs-Safe}
use kiwibes.Interleaving.Others.{Change}
use kiwibes.Interleaving.Stages.{Agrees, Agrees-changes}
use kiwibes.Interleaving.Launching.{ends-Agrees}
use kiwibes.Interleaving.Keeping.{start_job-Safe, stop_job-Safe, watch-Safe}

module _ ⦃P : Platform⦄ where
  -- The operations of the manager that take its lock.
  pub data Operation : Type 0 where
    starts : String → Fork → ℕ → Operation
    stops : String → Operation
    watches : List Report → Operation

  abbrev pub thread_of : Operation → Thread Manager Unit
  thread_of (starts name fork now) = start_job name fork now >> ends tt
  thread_of (stops name) = stop_job name >> ends tt
  thread_of (watches rs) = watch rs

  -- One after the other under the lock of the manager, with their results: operations, which other
  -- threads interrupt without deleting a kept job, and any changes by others in between.
  pub data Turns (kept : String → Bool)
      : Manager → List (Result (Unit {0})) → Manager → Type 1 where
    idle : (m : Manager) → Turns kept m [] m
    operates :
        (o : Operation) (a b c : Manager) (r : Result Unit) (rs : List (Result (Unit {0})))
        → Runs (Change kept) (thread_of o) a (r, b)
        → Turns kept b rs c
        → Turns kept a (r ∷ rs) c
    others :
        (a b c : Manager) (rs : List (Result (Unit {0})))
        → Change (λ _. false) a b
        → Turns kept b rs c
        → Turns kept a rs c

  abbrev pub AllEnd : List (Result (Unit {0})) → Type 0
  AllEnd [] = Unit
  AllEnd (r ∷ rs) = (r ≡ ok tt) × AllEnd rs

  module _ (L : PlatformLaws P) (kept : String → Bool) where
    thread_of-Safe :
        (o : Operation) (m : Manager)
        → Agrees kept m
        → Safe (Change kept) (λ _. Agrees kept) (thread_of o) m
    thread_of-Safe (starts name fork now) m h =
        Safe-bind (Change kept) (λ _. Agrees kept) (λ _. Agrees kept) (start_job name fork now) _ m
          (start_job-Safe L kept name fork now m h) λ _ m' h'. ends-Agrees L kept tt m' h'
    thread_of-Safe (stops name) m h =
        Safe-bind (Change kept) (λ _. Agrees kept) (λ _. Agrees kept) (stop_job name) _ m
          (stop_job-Safe L kept name m h) λ _ m' h'. ends-Agrees L kept tt m' h'
    thread_of-Safe (watches rs) m h = watch-Safe L kept rs m h

    -- Let K be any set of jobs, and let a manager's database stand for a map of jobs, each running
    -- job be active and each active job of K be running. Take any sequence of starts, stops and
    -- turns of the watcher thread, with any results of `fork` and `waitpid`, where other threads
    -- create, edit and delete jobs and clear queued starts before each call of the database that
    -- these make, and between these, and delete no job of K before an operation under way has
    -- ended. Then every operation ends without an exception, and it stays so.
    pub Turns-Agree :
        (a : Manager) (rs : List (Result (Unit {0}))) (c : Manager)
        → Turns kept a rs c
        → Agrees kept a
        → AllEnd rs × Agrees kept c
    Turns-Agree a _ _ (idle _) h = (tt, h)
    Turns-Agree a _ c (operates o _ b _ r rs run more) h =
        let s =
          Runs-Safe (Change kept) (λ _. Agrees kept) (thread_of o) a (r, b) run
            (thread_of-Safe o a h) in
        let (ends_well, last) = Turns-Agree b rs c more s.after in ((s.result, ends_well), last)
    Turns-Agree a rs c (others _ b _ _ change more) h =
        Turns-Agree b rs c more (Agrees-changes L (λ _. false) kept a b change h)
