-- ===== src/Interleaving/Keeping.antt =====
-- Each operation of the manager, interrupted at its calls of the database, keeps the agreement of the
-- active processes with the running jobs.
use kiwibes.Prelude.{
  ℕ, String, ◌≡◌, refl, none, some, List, [], ◌∷◌, Option, Bool, false, arith, eq_iff, eq_refl,
  ◌==◌, Bool-cases, Option-cases, inl, inr, eqb,
}
use kiwibes.Prelude.Int.{pos, leb_ℤ}
use kiwibes.Errors.{no_error, job_name_unknown}
use kiwibes.Map
use kiwibes.Map.{Map}
use kiwibes.Platform.{Platform}
use kiwibes.Platform.Laws.{PlatformLaws}
use kiwibes.Database.Runs.{job_stopped, job_incr_start_requests, job_decr_start_requests}
use kiwibes.Database.Spec.{Jobs, spec_stopped, spec_incr, spec_decr}
use kiwibes.Database.Refinement.Starts.{job_stopped-Refines, job_incr-Refines, job_decr-Refines}
use kiwibes.Database.Refinement.Queries.{get_job_description-known, get_job_description-unknown}
use kiwibes.Manager.{
  Manager, Handle, Fork, Report, name_of, has_ended, on_database, erase_active, kill_found,
}
use kiwibes.Manager.Invariant.{is_running}
use kiwibes.Interleaving.{Thread, ends, ◌>>=◌, atomic}
use kiwibes.Interleaving.Operations.{start_job, stop_job, job_ended, reap_found, reap, watch}
use kiwibes.Interleaving.Safety.{Succeeds, Safe, Safe-step, Safe-bind, Safe-atomic}
use kiwibes.Interleaving.Others.{Change}
use kiwibes.Interleaving.Stages.{
  between, freed, stopped, InStage, Agrees, Agrees-InStage, Agrees-IsStable, on_database-InStage,
  erase_active-InStage,
}
use kiwibes.Interleaving.Launching.{
  ends-Agrees, ends-between, freed-between, Safe-stage, start_known-Safe, restart-Safe,
}

module _ ⦃P : Platform⦄ where
  open P use {null}

  incr_alike :
      (name n : String) (js : Jobs) → is_running ((spec_incr name js).1 n) ≡ is_running (js n)
  unfolding spec_incr
  incr_alike name n js = ground (arith, eq_iff name n)

  decr_alike :
      (name n : String) (js : Jobs) → is_running ((spec_decr name js).1 n) ≡ is_running (js n)
  unfolding spec_decr
  decr_alike name n js = ground (arith, eq_iff name n)

  stopped_elsewhere :
      (now : ℕ) (name n : String) (js : Jobs)
      → (name == n) ≡ false
      → is_running ((spec_stopped now name js).1 n) ≡ is_running (js n)
  unfolding spec_stopped
  stopped_elsewhere now name n js other = ground arith

  stopped_here :
      (now : ℕ) (name : String) (js : Jobs) → is_running ((spec_stopped now name js).1 name) ≡ false
  unfolding spec_stopped
  stopped_here now name js = ground (arith, eq_refl name)

  idle_freed :
      (kept : String → Bool) (name : String) (m : Manager)
      → Map.find name m.active_jobs ≡ none
      → InStage kept name between m
      → InStage kept name freed m
  idle_freed kept name m e h = record {
    jobs = h.jobs;
    stored = h.stored;
    others = h.others;
    here = (e, ground (arith, h.here));
  }

  not_active :
      (name : String) (active : Map Handle)
      → eqb (Map.count name active) 1 ≡ false
      → Map.find name active ≡ none
  unfolding Map.count
  not_active name active h = ground arith

  module _ (L : PlatformLaws P) (kept : String → Bool) where
    abbrev SafeAt : {A : Type 0} → Thread Manager A → Manager → Type 0
    SafeAt t m = Safe (Change kept) (λ _. Agrees kept) t m

    incr-Safe :
        (name : String) (m : Manager)
        → Agrees kept m
        → SafeAt (atomic (on_database (job_incr_start_requests name))) m
    incr-Safe name m h =
        Safe-stage L kept name between between (on_database (job_incr_start_requests name)) ends
          (λ m' h'.
            on_database-InStage kept name between between (job_incr_start_requests name) m' h'
              (spec_incr name h'.jobs) (job_incr-Refines L name m'.database h'.jobs h'.stored)
              (λ n _. incr_alike name n h'.jobs) (rw (incr_alike name name h'.jobs) h'.here))
          (λ e m'. ends-between L kept name e m') m (Agrees-InStage kept name m h)

    pub start_job-Safe :
        (name : String) (fork : Fork) (now : ℕ) (m : Manager)
        → Agrees kept m
        → SafeAt (start_job name fork now) m
    unfolding start_job ◌>>=◌
    start_job-Safe name fork now =
        Safe-step (Change kept) (λ _. Agrees kept) (Agrees kept) _ _ (Agrees-IsStable L kept)
          λ m h. record {
            value = Map.count name m.active_jobs;
            result = refl;
            after = elim (Bool-cases (eqb (Map.count name m.active_jobs) 1)) [
              | inl busy ↦ rw busy (incr-Safe name m h)
              | inr idle ↦ rw idle (
                  start_known-Safe L kept name fork now m (
                    idle_freed kept name m (not_active name m.active_jobs idle)
                      (Agrees-InStage kept name m h)))
            ];
          }

    kill_found-Agrees :
        (handle : Option Handle) (m : Manager)
        → Agrees kept m
        → Succeeds (λ _. Agrees kept) (kill_found handle m)
    unfolding kill_found
    kill_found-Agrees none m h = record { value = _; result = refl; after = h }
    kill_found-Agrees (some handle) m h = record {
      value = _;
      result = refl;
      after = record { jobs = h.jobs; stored = h.stored; at_name = h.at_name };
    }

    kill-Safe :
        (name : String) (m : Manager)
        → Agrees kept m
        → SafeAt (atomic (λ m'. kill_found (Map.find name m'.active_jobs) m')) m
    kill-Safe name =
        Safe-atomic (Change kept) (λ _. Agrees kept) (Agrees kept) _ (Agrees-IsStable L kept)
          (λ _. Agrees-IsStable L kept) λ m h. kill_found-Agrees (Map.find name m.active_jobs) m h

    pub stop_job-Safe : (name : String) (m : Manager) → Agrees kept m → SafeAt (stop_job name) m
    unfolding stop_job ◌>>=◌
    stop_job-Safe name =
        Safe-step (Change kept) (λ _. Agrees kept) (Agrees kept) _ _ (Agrees-IsStable L kept)
          λ m h. elim (Option-cases (h.jobs name)) [
            | inl e ↦
                rw (get_job_description-unknown name null m.database h.jobs h.stored e) (record {
                  value = (job_name_unknown, null);
                  result = refl;
                  after = ends-Agrees L kept job_name_unknown m h;
                })
            | inr (job, e) ↦
                let d = get_job_description-known name null m.database h.jobs job h.stored e in
                rw d.found (record {
                  value = (no_error, d.value);
                  result = refl;
                  after = kill-Safe name m h;
                })
          ]

    job_ended-Safe :
        (name : String) (r : Report) (m : Manager) → Agrees kept m → SafeAt (job_ended name r) m
    unfolding job_ended ◌>>=◌
    job_ended-Safe name r m h =
        Safe-stage L kept name between stopped (on_database (job_stopped r.stopped_at name)) _
          (λ m1 h1.
            on_database-InStage kept name between stopped (job_stopped r.stopped_at name) m1 h1
              (spec_stopped r.stopped_at name h1.jobs)
              (job_stopped-Refines L r.stopped_at name m1.database h1.jobs h1.stored)
              (λ n other. stopped_elsewhere r.stopped_at name n h1.jobs other)
              (stopped_here r.stopped_at name h1.jobs))
          (λ _.
            Safe-stage L kept name stopped freed (erase_active name) _
              (erase_active-InStage kept name)
              λ _.
                Safe-stage L kept name freed freed (on_database (job_decr_start_requests name)) _
                  (λ m2 h2.
                    on_database-InStage kept name freed freed (job_decr_start_requests name) m2 h2
                      (spec_decr name h2.jobs)
                      (job_decr-Refines L name m2.database h2.jobs h2.stored)
                      (λ n _. decr_alike name n h2.jobs)
                      (h2.here.0, rw (decr_alike name name h2.jobs) h2.here.1))
                  λ left m3 h3. elim (Bool-cases (leb_ℤ (pos 0) left)) [
                    | inl more ↦ rw more (restart-Safe L kept name r.fork r.started_at m3 h3)
                    | inr less ↦
                        rw less (ends-between L kept name tt m3 (freed-between L kept name m3 h3))
                  ])
          m (Agrees-InStage kept name m h)

    reap_found-Safe :
        (r : Report) (found : Option String) (m : Manager)
        → Agrees kept m
        → SafeAt (reap_found r found) m
    unfolding reap_found
    reap_found-Safe r none m h = ends-Agrees L kept tt m h
    reap_found-Safe r (some name) m h = elim (Bool-cases (has_ended r.status)) [
      | inl ended ↦ rw ended (job_ended-Safe name r m h)
      | inr stays ↦ rw stays (ends-Agrees L kept tt m h)
    ]

    reap-Safe : (r : Report) (m : Manager) → Agrees kept m → SafeAt (reap r) m
    unfolding reap ◌>>=◌
    reap-Safe r =
        Safe-step (Change kept) (λ _. Agrees kept) (Agrees kept) _ _ (Agrees-IsStable L kept)
          λ m h. record {
            value = name_of r.pid m.active_jobs;
            result = refl;
            after = reap_found-Safe r (name_of r.pid m.active_jobs) m h;
          }

    pub watch-Safe : (rs : List Report) (m : Manager) → Agrees kept m → SafeAt (watch rs) m
    unfolding watch
    watch-Safe [] m h = ends-Agrees L kept tt m h
    watch-Safe (r ∷ rs) m h =
        Safe-bind (Change kept) (λ _. Agrees kept) (λ _. Agrees kept) (reap r) (λ _. watch rs) m
          (reap-Safe r m h) λ _ m' h'. watch-Safe rs m' h'
