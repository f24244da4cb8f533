-- ===== src/Manager/Refinement/Ends.antt =====
-- The watcher thread of the manager implements its specification.
use kiwibes.Prelude.{
  ℕ, String, ◌≡◌, ap, some, List, [], ◌∷◌, true, arith, Option-cases, Bool-cases, inl, inr, eq_refl,
}
use kiwibes.Prelude.Int.{pos, leb_ℤ, ltb_ℤ, ◌-ℤ◌}
use kiwibes.Map
use kiwibes.Map.{Map, count-some, count_absent}
use kiwibes.Platform.{Platform}
use kiwibes.Platform.Laws.{PlatformLaws}
use kiwibes.Database.Runs.{job_stopped, job_decr_start_requests}
use kiwibes.Database.Spec.{Job, Jobs, spec_stopped, spec_decr, with_pending}
use kiwibes.Database.Refinement.Starts.{job_stopped-Refines, job_decr-Refines}
use kiwibes.Database.Refinement.Queries.{get_job_description-known}
use kiwibes.Manager.{
  Manager, Fork, Report, has_ended, name_of, on_database, launch, restart, job_ended, reap, watch,
}
use kiwibes.Manager.Spec.{
  System, Runs, Implements, spec_launch, spec_job_ended, spec_reap, spec_watch, spec_freed,
}
use kiwibes.Manager.Refinement.{
  Implements-pure, Implements-bind, Implements-database, Implements-launch,
}

module _ ⦃P : Platform⦄ where
  open P use {Json, null, member, get_strings}

  restart-Implements :
      (L : PlatformLaws P) (name : String) (fork : Fork) (now : ℕ) (m : Manager) (s : System)
      (job : Job)
      → Runs m s
      → s.jobs name ≡ some job
      → Implements (restart name fork now m) (tt, (spec_launch name fork now s).1)
  unfolding restart
  restart-Implements L name fork now m s job r e =
      let d = get_job_description-known name null m.database s.jobs job r.stored e in
      rw d.found (
        Implements-bind (launch name d.value fork now) _ m (spec_launch name fork now s).0
          (spec_launch name fork now s).1 _
          (Implements-launch L name d.value job fork now m s r d.holds)
          (λ m' r'. Implements-pure tt m' _ r'))

  -- Of a job that has just been freed a request is left only if the job is known.
  pub known_of_left :
      (name : String) (js : Jobs)
      → leb_ℤ (pos 0) (spec_decr name js).0 ≡ true
      → (job : Job) × ((spec_decr name js).1 name ≡ some job)
  unfolding spec_decr
  known_of_left name js h = elim (Option-cases (js name)) [
    | inl e ↦ absurd (ground arith)
    | inr (job, e) ↦ elim (Bool-cases (ltb_ℤ (pos 0) job.pending)) [
      | inl p ↦ (with_pending (job.pending -ℤ pos 1) job, ground (arith, eq_refl name))
      | inr p ↦ (job, ground (arith, eq_refl name))
    ]
  ]

  module _ (L : PlatformLaws P) where
    -- The end of a job's process, with the relaunch where a start was queued.
    pub job_ended-Implements :
        (name : String) (r : Report) (m : Manager) (s : System)
        → Runs m s
        → Implements (job_ended name r m) (tt, spec_job_ended name r s)
    unfolding job_ended spec_job_ended
    job_ended-Implements name r m s h =
        Implements-bind (on_database (job_stopped r.stopped_at name)) _ m _ _ _
          (Implements-database (job_stopped r.stopped_at name) m s
            (spec_stopped r.stopped_at name s.jobs) h
            (job_stopped-Refines L r.stopped_at name m.database s.jobs h.stored))
          (λ m1 h1.
            Implements-bind (on_database (job_decr_start_requests name)) _
              (record m1 { active_jobs = Map.erase name m1.active_jobs }) _ _ _
              (Implements-database (job_decr_start_requests name) _ (spec_freed name r.stopped_at s)
                (spec_decr name (spec_stopped r.stopped_at name s.jobs).1)
                (record { active = ap (Map.erase name) h1.active; stored = h1.stored })
                (job_decr-Refines L name m1.database _ h1.stored))
              (λ m2 h2.
                elim (Bool-cases
                  (leb_ℤ (pos 0) (spec_decr name (spec_stopped r.stopped_at name s.jobs).1).0)) [
                    | inl more ↦
                        let (job, e) =
                          known_of_left name (spec_stopped r.stopped_at name s.jobs).1 more in
                        rw more (restart-Implements L name r.fork r.started_at m2 _ job h2 e)
                    | inr less ↦ rw less (Implements-pure tt m2 _ h2)
                  ]))

    reap-Implements :
        (r : Report) (m : Manager) (s : System)
        → Runs m s
        → Implements (reap r m) (tt, spec_reap r s)
    unfolding reap spec_reap
    reap-Implements r m s h = elim (Option-cases (name_of r.pid s.active)) [
      | inl e ↦ rw (h.active, e, spec_reap, reap) (Implements-pure tt m s h)
      | inr (name, e) ↦
          rw (h.active, e, spec_reap, reap)
            (elim (Bool-cases (has_ended r.status)) [
              | inl ended ↦ rw ended (job_ended-Implements name r m s h)
              | inr stays ↦ rw stays (Implements-pure tt m s h)
            ])
    ]

    -- A turn of the watcher thread over any results of `waitpid`, on a manager that runs an
    -- abstract system, ends without an exception in a manager that runs the system of `spec_watch`:
    -- each ended process of an active job is recorded as stopped and forgotten, and the job is
    -- launched again where a start was queued.
    pub watch-Implements :
        (rs : List Report) (m : Manager) (s : System)
        → Runs m s
        → Implements (watch rs m) (tt, spec_watch rs s)
    unfolding watch spec_watch
    watch-Implements [] m s h = Implements-pure tt m s h
    watch-Implements (r ∷ rs) m s h =
        Implements-bind (reap r) _ m tt (spec_reap r s) _ (reap-Implements r m s h)
          (λ m' h'. watch-Implements rs m' (spec_reap r s) h')
