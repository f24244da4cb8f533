-- ===== src/Main/Leftover.antt =====
-- A process that the exit of the server leaves behind.
use kiwibes.Prelude.{
  ℕ, suc, String, ◌≡◌, refl, ap, sym, ◌∙◌, some, [], ◌∷◌, ◌++◌, Bool, true, eq_refl,
}
use kiwibes.Prelude.Int.{pos}
use kiwibes.Exec.{ok}
use kiwibes.Map
use kiwibes.Map.{find-insert, find-erase}
use kiwibes.Platform.{Platform}
use kiwibes.Platform.Laws.{PlatformLaws}
use kiwibes.Database.Spec.{Job, finish}
use kiwibes.Manager.{Manager, in_parent, Report, name_of, has_ended, watch}
use kiwibes.Manager.Spec.{System, Runs, spec_freed, spec_job_ended, spec_reap, spec_watch}
use kiwibes.Manager.Refinement.Ends.{watch-Implements}
use kiwibes.Manager.Invariant.{IsSynced}
use kiwibes.Manager.Kills.{watch-Preserves}
use kiwibes.Manager.Queue.{stopped-known, decr-suc}
use kiwibes.Scheduler.{finished, Scheduler}
use kiwibes.Scheduler.Ownership.{Owns}
use kiwibes.Scheduler.Thread.{stop_and_join}
use kiwibes.Rest.{Context}
use kiwibes.Main.{Exit, all, exited, cleanup}
use kiwibes.Main.Stop.{
  active_handles, stopped_once, stopped_last, last_manager, saved_manager, cleanup_lem,
}

module _ ⦃P : Platform⦄ where
  relaunched :
      (name : String) (r : Report) (pid : ℕ) (s : System) (job : Job) (n : ℕ)
      → r.fork ≡ in_parent pid
      → s.jobs name ≡ some job
      → job.running ≡ true
      → job.pending ≡ pos (suc n)
      → Map.find name (spec_job_ended name r s).active ≡ some (pos pid)
  unfolding spec_job_ended
  relaunched name r pid s job n forked known running queued =
      let k1 = stopped-known r.stopped_at name s.jobs job known running in
      let (left, k2) =
        decr-suc name (spec_freed name r.stopped_at s).jobs (finish r.stopped_at job) n k1 queued in
      rw (left, forked)
        (find-insert name name (pos pid) (Map.erase name s.active)
            (find-erase name name s.active ∙ rw (eq_refl name) refl)
          ∙ rw (eq_refl name) refl)

  triple :
      {A : Type 0} {a a' b b' c c' : A}
      → a ≡ a'
      → b ≡ b'
      → c ≡ c'
      → Path (A × A × A) (a, b, c) (a', b', c')
  triple p q r = rw (p, q, r) refl

  watched_once :
      (name : String) (r : Report) (s : System)
      → name_of r.pid s.active ≡ some name
      → has_ended r.status ≡ true
      → spec_watch (r ∷ []) s ≡ spec_job_ended name r s
  unfolding spec_watch spec_reap
  watched_once name r s found ended = rw (found, spec_reap, ended) refl

  -- If the scheduler thread has ended without an exception, and then the queue holds each allocated
  -- event once and exactly the jobs that the database calls running are active, and the watcher
  -- thread sees no end of a process until the jobs have been stopped for the second time, and its
  -- last turn sees the end of the process of one active job with a queued start, whose new launch
  -- succeeds, then `cleanup` ends with the new process active, and has sent its signals to the
  -- processes of before only.
  pub cleanup-relaunches :
      (L : PlatformLaws P) (x : Exit) (c : Context) (b : Bool) (s : Scheduler) (sys : System)
      (name : String) (r : Report) (pid : ℕ) (job : Job) (n : ℕ)
      → stop_and_join x.now x.address x.passes c.scheduler ≡ finished (some (ok b), s)
      → Owns s.events s.heap
      → Runs s.manager sys
      → IsSynced sys
      → x.joining ≡ []
      → x.between ≡ []
      → x.reports ≡ r ∷ []
      → name_of r.pid s.manager.active_jobs ≡ some name
      → has_ended r.status ≡ true
      → r.fork ≡ in_parent pid
      → sys.jobs name ≡ some job
      → job.running ≡ true
      → job.pending ≡ pos (suc n)
      → (m : Manager) × (cleanup x (all c) ≡ finished (exited m (some [])))
        × (Map.find name m.active_jobs ≡ some (pos pid))
        × (m.killed ≡ (s.manager.killed ++ active_handles s.manager) ++ active_handles s.manager)
  unfolding watch
  cleanup-relaunches L x c b s sys name r pid job n joined o runs synced early between reports found
        ended forked known running queued =
      let m = stopped_last (stopped_once s.manager) in
      let i =
        watch-Implements L (r ∷ []) m sys (record { active = runs.active; stored = runs.stored }) in
      (
        saved_manager (watch (r ∷ []) m).1,
        cleanup_lem L x c b s joined o (record { system = sys; runs = runs; synced = synced })
            ∙ ap
                (λ e.
                  finished (exited (saved_manager (last_manager e.0 e.1 e.2 s.manager)) (some [])))
                (triple early between reports),
        ap (Map.find name) i.after.active
            ∙ ap (λ t. Map.find name t.active)
                (watched_once name r sys (ap (λ t. name_of r.pid t) (sym runs.active) ∙ found)
                  ended)
            ∙ relaunched name r pid sys job n forked known running queued,
        ap (λ p. p.0) ((watch-Preserves (r ∷ [])).at m),
      )
