-- ===== src/Manager/Queue.antt =====
-- The queued start requests of a job: each one is served by one launch after the process has ended.
use kiwibes.Prelude.{
  ℕ, zero, suc, String, ◌≡◌, refl, ap, ◌∙◌, none, some, List, [], ◌∷◌, true, false, arith, eq_refl,
  length, All, ◌+◌, ◌<◌, ◌%◌, ◌^◌,
}
use kiwibes.Prelude.Int.{pos, negsuc, ◌-ℤ◌, leb_ℤ, to_int}
use kiwibes.Map
use kiwibes.Map.{find-insert, find-erase}
use kiwibes.Platform.{Platform}
use kiwibes.Database.Spec.{
  Job, Jobs, start, finish, with_pending, spec_started, spec_stopped, spec_decr,
}
use kiwibes.Exec.{Exec, Result, ok, ◌>>◌, pure}
use kiwibes.Platform.Laws.{PlatformLaws}
use kiwibes.Manager.{Manager, in_parent, Report, job_ended}
use kiwibes.Manager.Refinement.{Implements-pure, Implements-bind}
use kiwibes.Manager.Refinement.Ends.{job_ended-Implements}
use kiwibes.Manager.Spec.{System, Runs, Implements, spec_freed, spec_job_ended}

-- The launch after the report has succeeded.
abbrev pub Relaunches : Report → Type 0
Relaunches r = (pid : ℕ) × (r.fork ≡ in_parent pid)

module _ ⦃P : Platform⦄ where
  -- The processes of one job end one after the other.
  spec_all_ended : String → List Report → System → System
  spec_all_ended name [] s = s
  spec_all_ended name (r ∷ rs) s = spec_all_ended name rs (spec_job_ended name r s)

  -- The job runs, with this many starts queued and this many runs counted.
  pub record RunsQueued (name : String) (s : System) (n runs : ℕ) : Type 0 where
    pub job : Job
    pub known : s.jobs name ≡ some job
    pub running : job.running ≡ true
    pub queued : job.pending ≡ pos n
    pub counted : job.nbr_runs ≡ runs

  -- The job does not run and nothing is queued.
  pub record IsIdle (name : String) (s : System) (runs : ℕ) : Type 0 where
    pub job : Job
    pub known : s.jobs name ≡ some job
    pub stopped : job.running ≡ false
    pub empty : job.pending ≡ pos 0
    pub counted : job.nbr_runs ≡ runs
    pub inactive : Map.find name s.active ≡ none

  pub stopped-known :
      (now : ℕ) (name : String) (js : Jobs) (job : Job)
      → js name ≡ some job
      → job.running ≡ true
      → (spec_stopped now name js).1 name ≡ some (finish now job)
  unfolding spec_stopped
  stopped-known now name js job k r = ground (arith, eq_refl name)

  started-known :
      (now : ℕ) (name : String) (js : Jobs) (job : Job)
      → js name ≡ some job
      → job.running ≡ false
      → (spec_started now name js).1 name ≡ some (start now job)
  unfolding spec_started
  started-known now name js job k r = ground (arith, eq_refl name)

  pub decr-suc :
      (name : String) (js : Jobs) (job : Job) (n : ℕ)
      → js name ≡ some job
      → job.pending ≡ pos (suc n)
      → (leb_ℤ (pos 0) (spec_decr name js).0 ≡ true)
        × ((spec_decr name js).1 name ≡ some (with_pending (pos n) job))
  unfolding spec_decr ◌-ℤ◌
  decr-suc name js job n k p = (ground arith, ground (arith, eq_refl name))

  decr-zero :
      (name : String) (js : Jobs) (job : Job)
      → js name ≡ some job
      → job.pending ≡ pos 0
      → ((spec_decr name js).0 ≡ negsuc 0) × ((spec_decr name js).1 name ≡ some job)
  unfolding spec_decr
  decr-zero name js job k p = (ground arith, ground (arith, eq_refl name))

  to_int_small : (n : ℕ) → n < 2 ^ 31 → to_int (pos n) ≡ pos n
  to_int_small n h = ground arith

  ended_once :
      (name : String) (r : Report) (s : System) (n runs : ℕ)
      → RunsQueued name s (suc n) runs
      → Relaunches r
      → n < 2 ^ 31
      → RunsQueued name (spec_job_ended name r s) n ((runs + 1) % 2 ^ 64)
  unfolding spec_job_ended
  ended_once name r s n runs q (pid, f) small =
      let k1 = stopped-known r.stopped_at name s.jobs q.job q.known q.running in
      let (left, k2) =
        decr-suc name (spec_freed name r.stopped_at s).jobs (finish r.stopped_at q.job) n k1
          q.queued in
      rw (left, f)
        (record {
          job = start r.started_at (with_pending (pos n) (finish r.stopped_at q.job));
          known = started-known r.started_at name _ _ k2 refl;
          running = refl;
          queued = to_int_small n small;
          counted = ap (λ c. (c + 1) % 2 ^ 64) q.counted;
        })

  ended_last :
      (name : String) (r : Report) (s : System) (runs : ℕ)
      → RunsQueued name s 0 runs
      → IsIdle name (spec_job_ended name r s) ((runs + 1) % 2 ^ 64)
  unfolding spec_job_ended
  ended_last name r s runs q =
      let k1 = stopped-known r.stopped_at name s.jobs q.job q.known q.running in
      let (left, k2) =
        decr-zero name (spec_freed name r.stopped_at s).jobs (finish r.stopped_at q.job) k1
          q.queued in
      rw left (record {
        job = finish r.stopped_at q.job;
        known = k2;
        stopped = refl;
        empty = q.queued;
        counted = ap (λ c. (c + 1) % 2 ^ 64) q.counted;
        inactive = find-erase name name s.active ∙ rw (eq_refl name);
      })

  abbrev pub count_runs : ℕ → ℕ → ℕ
  count_runs zero runs = runs
  count_runs (suc n) runs = count_runs n ((runs + 1) % 2 ^ 64)

  spec_queue_drains :
      (name : String) (rs : List Report) (s : System) (n runs : ℕ)
      → n < 2 ^ 31
      → length rs ≡ suc n
      → All Relaunches rs
      → RunsQueued name s n runs
      → IsIdle name (spec_all_ended name rs s) (count_runs (suc n) runs)
  unfolding spec_all_ended
  spec_queue_drains name [] s n runs lt e h q = absurd (omega arith)
  spec_queue_drains name (r ∷ []) s zero runs lt e h q = ended_last name r s runs q
  spec_queue_drains name (r ∷ []) s (suc n) runs lt e h q = absurd (omega arith)
  spec_queue_drains name (r ∷ r' ∷ rs) s zero runs lt e h q = absurd (omega arith)
  spec_queue_drains name (r ∷ r' ∷ rs) s (suc n) runs lt e h q =
      spec_queue_drains name (r' ∷ rs) (spec_job_ended name r s) n ((runs + 1) % 2 ^ 64)
        (omega arith) (omega arith) h.1 (ended_once name r s n runs q h.0 (omega arith))

  -- The watcher's work at the ends of one job's processes, one after the other.
  pub all_ended : String → List Report → Exec Manager Unit
  all_ended name [] = pure tt
  all_ended name (r ∷ rs) = do job_ended name r; all_ended name rs

  -- The manager runs a system in which the job is idle.
  pub record Drained (name : String) (r : Result (Unit {0}) × Manager) (runs : ℕ) : Type 0 where
    pub result : r.0 ≡ ok tt
    pub system : System
    pub after : Runs r.1 system
    pub idle : IsIdle name system runs

  module _ (L : PlatformLaws P) where
    all_ended-Implements :
        (name : String) (rs : List Report) (m : Manager) (s : System)
        → Runs m s
        → Implements (all_ended name rs m) (tt, spec_all_ended name rs s)
    unfolding all_ended spec_all_ended
    all_ended-Implements name [] m s h = Implements-pure tt m s h
    all_ended-Implements name (r ∷ rs) m s h =
        Implements-bind (job_ended name r) _ m tt (spec_job_ended name r s) _
          (job_ended-Implements L name r m s h)
          (λ m' h'. all_ended-Implements name rs m' (spec_job_ended name r s) h')

    -- A running job with n queued starts, n below 2^31, is idle, with nothing queued and no
    -- process, after the ends of exactly n + 1 of its processes, if each launch in between
    -- succeeds; each end counts one run.
    pub queue-drains :
        (name : String) (rs : List Report) (m : Manager) (s : System) (n runs : ℕ)
        → n < 2 ^ 31
        → length rs ≡ suc n
        → All Relaunches rs
        → Runs m s
        → RunsQueued name s n runs
        → Drained name (all_ended name rs m) (count_runs (suc n) runs)
    queue-drains name rs m s n runs lt e h r q =
        let i = all_ended-Implements name rs m s r in
        record {
          result = i.result;
          system = spec_all_ended name rs s;
          after = i.after;
          idle = spec_queue_drains name rs s n runs lt e h q;
        }
