-- ===== src/Interleaving/Steps.antt =====
-- The steps of the server together with the operations of the manager that requests interrupt.
use kiwibes.Prelude.{ℕ, true, ◌∷◌, []}
use kiwibes.Exec.{Result}
use kiwibes.Platform.{Platform}
use kiwibes.Platform.Laws.{PlatformLaws}
use kiwibes.Manager.{Manager}
use kiwibes.Manager.Invariant.{IsManaged}
use kiwibes.Rest.{Context, with_manager}
use kiwibes.Scheduler.{pop_and_delete}
use kiwibes.Server.Steps.{Step, Steps-IsManaged, next, done}
use kiwibes.Interleaving.{Runs}
use kiwibes.Interleaving.Others.{Change}
use kiwibes.Interleaving.Stages.{IsManaged-Agrees, Agrees-IsManaged}
use kiwibes.Interleaving.Turns.{Operation, thread_of, operates, idle, Turns-Agree}

module _ ⦃P : Platform⦄ where
  -- A step of the server, or an operation of the manager that the calls of other requests interrupt,
  -- none of which deletes a job before it has ended.
  pub data Action : Context → Context → Type 1 where
    steps : (c c' : Context) → Step c c' → Action c c'
    interrupted :
        (o : Operation) (c : Context) (r : Result (Unit {0})) (m : Manager)
        → Runs (Change (λ _. true)) (thread_of o) c.scheduler.manager (r, m)
        → Action c (with_manager c m)
    -- The last part of a turn of the scheduler thread. The first ones are a start of the job and a
    -- call of `schedule_job`, which other steps may follow while the thread sleeps.
    pops :
        (a : ℕ) (c : Context) → Action c (record c { scheduler = (pop_and_delete a c.scheduler).1 })

  pub data Actions : Context → Context → Type 1 where
    ends : (c : Context) → Actions c c
    follows : (a b c : Context) → Action a b → Actions b c → Actions a c

  module _ (L : PlatformLaws P) where
    Action-IsManaged :
        (c c' : Context)
        → Action c c'
        → IsManaged c.scheduler.manager
        → IsManaged c'.scheduler.manager
    unfolding pop_and_delete
    Action-IsManaged _ _ (steps c c' s) h = Steps-IsManaged L c c' h (next s (done c'))
    Action-IsManaged _ _ (interrupted o c r m run) h =
        Agrees-IsManaged m
          (Turns-Agree L (λ _. true) c.scheduler.manager (r ∷ []) m
            (operates o c.scheduler.manager m m r [] run (idle m))
            (IsManaged-Agrees c.scheduler.manager h)).1
    Action-IsManaged _ _ (pops a c) h = h

    -- If a manager's database stands for a map of jobs and exactly the jobs that it calls running
    -- are active, then it stays so through any sequence of these: requests to any route whose
    -- captured name has no `/` and no `~`; single calls of `create_job` and `edit_job` with
    -- parameters that `read_job_parameters` has returned, of `delete_job` of such a name, of
    -- `schedule_job` and of `unschedule_job`, which are the calls that a handler makes one after
    -- the other; turns of the watcher thread of the manager, turns of the scheduler thread that
    -- read through no freed address, and turns of the watcher thread of the tokens; the removal of
    -- an event at the end of a turn of the scheduler thread, whose earlier parts, a start and a
    -- call of `schedule_job`, may be steps of their own; and starts, stops and turns of the watcher
    -- thread of the manager, with any results of `fork` and `waitpid`, where other threads create
    -- and edit jobs and clear queued starts before each call of the database that these make, and
    -- delete no job before they have ended.
    pub Actions-IsManaged :
        (c c' : Context)
        → IsManaged c.scheduler.manager
        → Actions c c'
        → IsManaged c'.scheduler.manager
    Actions-IsManaged c _ h (ends _) = h
    Actions-IsManaged _ _ h (follows a b c s more) =
        Actions-IsManaged b c (Action-IsManaged a b s h) more
