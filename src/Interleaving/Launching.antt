-- ===== src/Interleaving/Launching.antt =====
-- The launch of a job, step by step: it leaves the manager's processes in agreement with the jobs.
use kiwibes.Prelude.{
  ℕ, String, ◌≡◌, refl, Option, Bool, true, false, arith, eq_refl, ◌==◌, Bool-cases, Option-cases,
  inl, inr, if◌then◌else◌,
}
use kiwibes.Prelude.Int.{pos, eq_ℤ}
use kiwibes.Errors.{KiwibesError, no_error, job_name_unknown, process_launch_failed, is_ok}
use kiwibes.Exec.{ok}
use kiwibes.Platform.{Platform}
use kiwibes.Platform.Laws.{PlatformLaws}
use kiwibes.Database.Names.{get_job_description}
use kiwibes.Database.Runs.{job_started}
use kiwibes.Database.Spec.{Job, Jobs, HoldsJob, spec_started}
use kiwibes.Database.Refinement.Starts.{job_started-Refines}
use kiwibes.Database.Refinement.Queries.{get_job_description-known, get_job_description-unknown}
use kiwibes.Manager.{
  Manager, Handle, invalid_handle, Fork, failed, in_parent, in_child, on_database,
  launch_job_process, add_active,
}
use kiwibes.Manager.Invariant.{is_running}
use kiwibes.Manager.Refinement.{launch-in_child}
use kiwibes.Interleaving.{Thread, ends, step, ◌>>=◌, ◌>>◌, atomic}
use kiwibes.Interleaving.Operations.{record_launch, launch, start_known, restart}
use kiwibes.Interleaving.Safety.{Succeeds, Safe, Safe-ends, Safe-step, Safe-bind}
use kiwibes.Interleaving.Others.{Change}
use kiwibes.Interleaving.Stages
use kiwibes.Exec
use kiwibes.Interleaving.Stages.{
  Facts, between, freed, found, added, InStage, Agrees, InStage-Agrees, InStage-IsStable,
  Agrees-IsStable, on_database-InStage, add_active-InStage,
}

module _ ⦃P : Platform⦄ where
  open P use {Json, null, member}

  launch_job_process-ends :
      (value : Json) (job : Job) (fork : Fork) (m : Manager)
      → HoldsJob (member value) job
      → (handle : Handle) × (launch_job_process value fork m ≡ (ok handle, m))
  unfolding launch_job_process
  launch_job_process-ends value job failed m h = (invalid_handle, refl)
  launch_job_process-ends value job (in_parent pid) m h = (pos pid, refl)
  launch_job_process-ends value job in_child m h = (invalid_handle, launch-in_child value job m h)

  started_elsewhere :
      (now : ℕ) (name n : String) (js : Jobs)
      → (name == n) ≡ false
      → is_running ((spec_started now name js).1 n) ≡ is_running (js n)
  unfolding spec_started
  started_elsewhere now name n js other = ground arith

  started_here :
      (now : ℕ) (name : String) (js : Jobs) (handle : Option Handle) (kept : Bool)
      → Facts added kept (js name) handle
      → Facts between kept ((spec_started now name js).1 name) handle
  unfolding spec_started
  started_here now name js handle kept h = elim (Bool-cases kept) [
    | inl e ↦ ground (arith, eq_refl name, h.1 e)
    | inr e ↦ ground (arith, eq_refl name)
  ]

  freed_agrees :
      (kept : Bool) (job : Option Job) (handle : Option Handle)
      → Facts freed kept job handle
      → Facts between kept job handle
  freed_agrees kept job handle h = ground (arith, h.0, h.1)

  module _ (L : PlatformLaws P) (kept : String → Bool) where
    pub ends-Agrees :
        {A : Type 0} (a : A) (m : Manager)
        → Agrees kept m
        → Safe (Change kept) (λ _. Agrees kept) (ends a) m
    ends-Agrees a = Safe-ends (Change kept) (λ _. Agrees kept) a (Agrees-IsStable L kept)

    pub ends-between :
        {A : Type 0} (name : String) (a : A) (m : Manager)
        → InStage kept name between m
        → Safe (Change kept) (λ _. Agrees kept) (ends a) m
    ends-between name a m h = ends-Agrees a m (InStage-Agrees kept name m h)

    pub freed-between :
        (name : String) (m : Manager) → InStage kept name freed m → InStage kept name between m
    freed-between name m h = record {
      jobs = h.jobs;
      stored = h.stored;
      others = h.others;
      here = freed_agrees (kept name) (h.jobs name) _ h.here;
    }

    found-freed :
        (name : String) (m : Manager) → InStage kept name found m → InStage kept name freed m
    found-freed name m h = record {
      jobs = h.jobs;
      stored = h.stored;
      others = h.others;
      here = (h.here.0, h.here.1);
    }

    -- A call of the database, or of the map of active jobs, in a stage.
    pub Safe-stage :
        {A B : Type 0} (name : String) (from to : Stages.Stage) (x : Exec.Exec Manager B)
        (k : B → Thread Manager A)
        → ((m : Manager) → InStage kept name from m → Succeeds (λ _. InStage kept name to) (x m))
        → ((b : B) (m : Manager)
            → InStage kept name to m
            → Safe (Change kept) (λ _. Agrees kept) (k b) m)
        → (m : Manager) → InStage kept name from m
        → Safe (Change kept) (λ _. Agrees kept) (step x k) m
    Safe-stage name from to x k run after =
        Safe-step (Change kept) (λ _. Agrees kept) (InStage kept name from) x k
          (InStage-IsStable L kept name from)
          λ m h. record {
            value = (run m h).value;
            result = (run m h).result;
            after = after (run m h).value (x m).1 (run m h).after;
          }

    record_launch-Safe :
        (name : String) (now : ℕ) (handle : Handle) (m : Manager)
        → InStage kept name found m
        → Safe (Change kept) (λ _. Agrees kept) (record_launch name now handle) m
    unfolding record_launch ◌>>=◌
    record_launch-Safe name now handle m h = elim (Bool-cases (eq_ℤ handle invalid_handle)) [
      | inl bad ↦ rw bad (ends-between name false m (freed-between name m (found-freed name m h)))
      | inr good ↦ rw good (
          Safe-stage name found added (add_active name handle) _
            (add_active-InStage kept name handle)
            (λ _.
              Safe-stage name added between (on_database (job_started now name)) _
                (λ m' h'.
                  on_database-InStage kept name added between (job_started now name) m' h'
                    (spec_started now name h'.jobs)
                    (job_started-Refines L now name m'.database h'.jobs h'.stored)
                    (λ n other. started_elsewhere now name n h'.jobs other)
                    (started_here now name h'.jobs _ (kept name) h'.here))
                (λ _ m''. ends-between name true m''))
            m h)
    ]

    pub launch-Safe :
        (name : String) (value : Json) (job : Job) (fork : Fork) (now : ℕ) (m : Manager)
        → HoldsJob (member value) job
        → InStage kept name found m
        → Safe (Change kept) (λ _. Agrees kept) (launch name value fork now) m
    unfolding launch ◌>>=◌
    launch-Safe name value job fork now m d =
        Safe-stage name found found (launch_job_process value fork) _
          (λ m' h'.
            let (handle, e) = launch_job_process-ends value job fork m' d in
            rw e (record { value = handle; result = refl; after = h' }))
          (λ handle m'. record_launch-Safe name now handle m') m

    -- A description that has been asked for a job that is not active, and what follows it.
    module _ {A : Type 0} (name : String) (go_on : Json → Thread Manager A)
        (go_on-Safe : (value : Json) (job : Job) (m : Manager)
          → HoldsJob (member value) job
          → InStage kept name found m
          → Safe (Change kept) (λ _. Agrees kept) (go_on value) m) where
      abbrev described : (KiwibesError → A) → KiwibesError × Json → Thread Manager A
      described refuse (error, value) = if is_ok error then go_on value else ends (refuse error)

      describe-Safe :
          (refuse : KiwibesError → A) (m : Manager)
          → InStage kept name freed m
          → Safe
              (Change kept)
              (λ _. Agrees kept)
              (atomic (on_database (get_job_description null name)) >>= described refuse)
              m
      unfolding ◌>>=◌
      describe-Safe refuse =
          Safe-step (Change kept) (λ _. Agrees kept) (InStage kept name freed) _ _
            (InStage-IsStable L kept name freed)
            λ m h. elim (Option-cases (h.jobs name)) [
              | inl e ↦
                  rw (get_job_description-unknown name null m.database h.jobs h.stored e) (record {
                    value = (job_name_unknown, null);
                    result = refl;
                    after = ends-between name (refuse job_name_unknown) m (freed-between name m h);
                  })
              | inr (job, e) ↦
                  let d = get_job_description-known name null m.database h.jobs job h.stored e in
                  rw d.found (record {
                    value = (no_error, d.value);
                    result = refl;
                    after = go_on-Safe d.value job m d.holds (record {
                      jobs = h.jobs;
                      stored = h.stored;
                      others = h.others;
                      here = (h.here.0, h.here.1, λ _. rw e refl);
                    });
                  })
            ]

    pub start_known-Safe :
        (name : String) (fork : Fork) (now : ℕ) (m : Manager)
        → InStage kept name freed m
        → Safe (Change kept) (λ _. Agrees kept) (start_known name fork now) m
    unfolding start_known
    start_known-Safe name fork now =
        describe-Safe name
          (λ value. launch name value fork now >>= λ started.
            ends (if started then no_error else process_launch_failed))
          (λ value job m d h.
            Safe-bind (Change kept) (λ _. Agrees kept) (λ _. Agrees kept)
              (launch name value fork now) _ m (launch-Safe name value job fork now m d h)
              λ started m' h'. ends-Agrees _ m' h')
          (λ error. error)

    pub restart-Safe :
        (name : String) (fork : Fork) (now : ℕ) (m : Manager)
        → InStage kept name freed m
        → Safe (Change kept) (λ _. Agrees kept) (restart name fork now) m
    unfolding restart
    restart-Safe name fork now =
        describe-Safe name (λ value. launch name value fork now >> ends tt)
          (λ value job m d h.
            Safe-bind (Change kept) (λ _. Agrees kept) (λ _. Agrees kept)
              (launch name value fork now) _ m (launch-Safe name value job fork now m d h)
              λ _ m' h'. ends-Agrees tt m' h')
          (λ _. tt)
