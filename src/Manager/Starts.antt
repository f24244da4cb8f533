-- ===== src/Manager/Starts.antt =====
-- Starts of a job that runs: each is queued, and is served by one launch.
use kiwibes.Prelude.{
  ℕ, suc, ◌+◌, ◌<◌, ◌^◌, String, ◌≡◌, refl, ap, ◌∙◌, some, List, [], ◌∷◌, map, arith, eq_refl,
  length, All, subst, sym,
}
use kiwibes.Prelude.Int.{pos, to_int}
use kiwibes.Errors.{KiwibesError, no_error}
use kiwibes.Exec.{bind-ok, Exec, ok, ◌>>=◌, pure}
use kiwibes.Map
use kiwibes.Platform.{Platform}
use kiwibes.Platform.Laws.{PlatformLaws}
use kiwibes.Database.Spec.{Job, Jobs, with_pending, spec_incr}
use kiwibes.Manager.{Manager, Handle, Fork, Report, start_job}
use kiwibes.Manager.Spec.{System, Runs, Implements, with_jobs, spec_start_job}
use kiwibes.Manager.Refinement.{Implements-pure, start_job-Implements}
use kiwibes.Manager.Queue.{Relaunches, RunsQueued, Drained, count_runs, all_ended, queue-drains}

-- The results of starts that are all accepted.
abbrev pub accepted : List (Fork × ℕ) → List KiwibesError
accepted = map (λ c. no_error)

module _ ⦃P : Platform⦄ where
  -- Starts of one job, one after the other, each with the result of `fork` and the clock that it would
  -- find.
  unfoldable pub start_all : String → List (Fork × ℕ) → Exec Manager (List KiwibesError)
  start_all name [] = pure []
  start_all name ((fork, now) ∷ calls) = do
    error ← start_job name fork now
    errors ← start_all name calls
    pure (error ∷ errors)

  incr-known :
      (name : String) (js : Jobs) (job : Job) (p : ℕ)
      → js name ≡ some job
      → job.pending ≡ pos p
      → p + 1 < 2 ^ 31
      → ((spec_incr name js).0 ≡ no_error)
        × ((spec_incr name js).1 name ≡ some (with_pending (pos (p + 1)) job))
  unfolding spec_incr
  incr-known name js job p k q small = (ground arith, ground (arith, eq_refl name))

  to_int_small : (n : ℕ) → n < 2 ^ 31 → to_int (pos n) ≡ pos n
  to_int_small n h = ground arith

  -- The system after a start of a running job, and its queue.
  record Queues (name : String) (fork : Fork) (now : ℕ) (s : System) (n runs : ℕ) : Type 0 where
    accepts : (spec_start_job name fork now s).0 ≡ no_error
    same : (spec_start_job name fork now s).1.active ≡ s.active
    queue : RunsQueued name (spec_start_job name fork now s).1 n runs

  busy_start :
      (name : String) (fork : Fork) (now : ℕ) (s : System) (handle : Handle)
      → Map.find name s.active ≡ some handle
      → spec_start_job name fork now s ≡ with_jobs s (spec_incr name s.jobs)
  unfolding spec_start_job
  busy_start name fork now s handle busy = rw (busy, spec_start_job) refl

  start-Queues :
      (name : String) (fork : Fork) (now : ℕ) (s : System) (handle : Handle) (p runs : ℕ)
      → Map.find name s.active ≡ some handle
      → RunsQueued name s p runs
      → p + 1 < 2 ^ 31
      → Queues name fork now s (p + 1) runs
  start-Queues name fork now s handle p runs busy q small =
      let (fine, known) = incr-known name s.jobs q.job p q.known q.queued small in
      let e = busy_start name fork now s handle busy in
      record {
        accepts = ap (λ r. r.0) e ∙ fine;
        same = ap (λ r. r.1.active) e;
        queue =
            subst (λ r. RunsQueued name r.1 (p + 1) runs) (sym e)
              (record {
                job = with_pending (pos (p + 1)) q.job;
                known = known;
                running = q.running;
                queued = to_int_small (p + 1) small;
                counted = q.counted;
              });
      }

  -- The starts are accepted, and have been queued.
  pub record Started (name : String) (calls : List (Fork × ℕ)) (m : Manager) (n runs : ℕ)
      : Type 0 where
    pub system : System
    pub starts : Implements (start_all name calls m) (accepted calls, system)
    pub queue : RunsQueued name system n runs

  module _ (L : PlatformLaws P) where
    start_all-Started :
        (name : String) (calls : List (Fork × ℕ)) (m : Manager) (s : System) (handle : Handle)
        (p runs : ℕ)
        → Runs m s
        → Map.find name s.active ≡ some handle
        → RunsQueued name s p runs
        → p + length calls < 2 ^ 31
        → Started name calls m (p + length calls) runs
    unfolding start_all
    start_all-Started name [] m s handle p runs r busy q small = record {
      system = s;
      starts = Implements-pure [] m s r;
      queue = subst (λ n. RunsQueued name s n runs) (omega arith) q;
    }
    start_all-Started name ((fork, now) ∷ calls) m s handle p runs r busy q small =
        let u = start-Queues name fork now s handle p runs busy q (omega arith) in
        let i = start_job-Implements L name fork now m s r in
        let more =
          start_all-Started name calls (start_job name fork now m).1
            (spec_start_job name fork now s).1 handle (p + 1) runs i.after
            (ap (Map.find name) u.same ∙ busy) u.queue (omega arith) in
        let m1 = (start_job name fork now m).1 in
        let m2 = (start_all name calls m1).1 in
        let eq : start_all name ((fork, now) ∷ calls) m ≡ (ok (no_error ∷ accepted calls), m2) =
          bind-ok (start_job name fork now) _ m no_error m1 _
            (ap (λ x. (x, m1)) (i.result ∙ ap ok u.accepts))
            (bind-ok (start_all name calls) (λ errors. pure (no_error ∷ errors)) m1 (accepted calls)
              m2 _ (ap (λ x. (x, m2)) more.starts.result) refl) in
        record {
          system = more.system;
          starts = record {
            result = ap (λ r. r.0) eq;
            after = subst (λ r. Runs r.1 more.system) (sym eq) more.starts.after;
          };
          queue = subst (λ n. RunsQueued name more.system n runs) (omega arith) more.queue;
        }

    -- Let a manager run an abstract system in which a job runs and is active with p queued starts,
    -- and let p and the number of a sequence of starts of the job sum to n below 2^31. Then each of
    -- these starts is accepted, with any result of `fork`; and after n + 1 ends of its processes,
    -- each with a result of `fork` for the launch after it that succeeds, the job is idle, with
    -- nothing queued and no process, and each end has counted one run.
    pub starts-drain :
        (name : String) (calls : List (Fork × ℕ)) (rs : List Report) (m : Manager) (s : System)
        (handle : Handle) (p runs : ℕ)
        → p + length calls < 2 ^ 31
        → length rs ≡ suc (p + length calls)
        → All Relaunches rs
        → Runs m s
        → Map.find name s.active ≡ some handle
        → RunsQueued name s p runs
        → ((start_all name calls m).0 ≡ ok (accepted calls))
          × Drained name
              (all_ended name rs (start_all name calls m).1)
              (count_runs (suc (p + length calls)) runs)
    starts-drain name calls rs m s handle p runs small ends relaunched r busy q =
        let u = start_all-Started name calls m s handle p runs r busy q small in
        (
          u.starts.result,
          queue-drains L name rs (start_all name calls m).1 u.system (p + length calls) runs small
              ends relaunched u.starts.after u.queue,
        )
