-- ===== src/Interleaving/Stages.antt =====
-- What holds of the manager between two calls of the database, whatever other threads do there.
use kiwibes.Prelude.{
  String, ◌≡◌, refl, sym, subst, ◌∙◌, none, Option, Bool, true, false, not, ◌||◌, arith, eq_iff,
  eq_refl, ◌==◌, Bool-cases, inl, inr,
}
use kiwibes.Exec.{Exec}
use kiwibes.Map
use kiwibes.Map.{find-insert, find-erase}
use kiwibes.Platform.{Platform}
use kiwibes.Platform.Laws.{PlatformLaws}
use kiwibes.Database.{Database}
use kiwibes.Database.Spec.{Job, Jobs, Stores, Refines}
use kiwibes.Manager.{Manager, Handle, on_database, add_active, erase_active}
use kiwibes.Manager.Invariant.{is_running, is_active, IsManaged}
use kiwibes.Interleaving.Safety.{Succeeds, IsStable}
use kiwibes.Interleaving.Others.{is_known, Change, run-Effect}

-- A running job is active, and an active one runs if it is kept.
abbrev pub agrees : Bool → Bool → Bool → Bool
agrees kept true active = active
agrees kept false active = not active || not kept

-- Where an operation stands with a job: between operations; the job is not active; it is not active,
-- and found; its process has been added; its process has ended.
pub data Stage : Type 0 where
  between freed found added stopped : Stage

module _ ⦃P : Platform⦄ where
  abbrev pub Facts : Stage → Bool → Option Job → Option Handle → Type 0
  Facts between kept job handle = agrees kept (is_running job) (is_active handle) ≡ true
  Facts freed kept job handle = (handle ≡ none) × (is_running job ≡ false)
  Facts found kept job handle =
      (handle ≡ none) × (is_running job ≡ false) × (kept ≡ true → is_known job ≡ true)
  Facts added kept job handle = (is_active handle ≡ true) × (kept ≡ true → is_known job ≡ true)
  Facts stopped kept job handle = is_running job ≡ false

  -- The database stands for a map of jobs; the processes of all jobs but the one agree with it.
  pub record InStage (kept : String → Bool) (name : String) (stage : Stage) (m : Manager)
      : Type 0 where
    pub jobs : Jobs
    pub stored : Stores m.database jobs
    pub others :
        (n : String)
        → (name == n) ≡ false
        → agrees (kept n) (is_running (jobs n)) (is_active (Map.find n m.active_jobs)) ≡ true
    pub here : Facts stage (kept name) (jobs name) (Map.find name m.active_jobs)

  -- The same of all jobs.
  pub record Agrees (kept : String → Bool) (m : Manager) : Type 0 where
    pub jobs : Jobs
    pub stored : Stores m.database jobs
    pub at_name :
        (n : String)
        → agrees (kept n) (is_running (jobs n)) (is_active (Map.find n m.active_jobs)) ≡ true

  pub Agrees-InStage :
      (kept : String → Bool) (name : String) (m : Manager)
      → Agrees kept m
      → InStage kept name between m
  Agrees-InStage kept name m h = record {
    jobs = h.jobs;
    stored = h.stored;
    others = λ n _. h.at_name n;
    here = h.at_name name;
  }

  pub InStage-Agrees :
      (kept : String → Bool) (name : String) (m : Manager)
      → InStage kept name between m
      → Agrees kept m
  InStage-Agrees kept name m h = record {
    jobs = h.jobs;
    stored = h.stored;
    at_name = λ n. elim (Bool-cases (name == n)) [
      | inr other ↦ h.others n other
      | inl same ↦
          subst
            (λ j.
              agrees (kept j) (is_running (h.jobs j)) (is_active (Map.find j m.active_jobs)) ≡ true)
            ((eq_iff name n).0 same) h.here
    ];
  }

  pub IsManaged-Agrees : (m : Manager) → IsManaged m → Agrees (λ _. true) m
  IsManaged-Agrees m h = record {
    jobs = h.system.jobs;
    stored = h.runs.stored;
    at_name = λ n. rw h.runs.active (ground (arith, h.synced.at_name n));
  }

  pub Agrees-IsManaged : (m : Manager) → Agrees (λ _. true) m → IsManaged m
  Agrees-IsManaged m h = record {
    system = record { active = m.active_jobs; jobs = h.jobs };
    runs = record { active = refl; stored = h.stored };
    synced = record { at_name = λ n. ground (arith, h.at_name n) };
  }

  Facts-stable :
      (stage : Stage) (kept : Bool) (job job' : Option Job) (handle : Option Handle)
      → is_running job' ≡ is_running job
      → (kept ≡ true → is_known job ≡ true → is_known job' ≡ true)
      → Facts stage kept job handle
      → Facts stage kept job' handle
  Facts-stable between kept job job' handle e k h = rw e h
  Facts-stable freed kept job job' handle e k h = (h.0, e ∙ h.1)
  Facts-stable found kept job job' handle e k h = (h.0, e ∙ h.1, λ x. k x (h.2 x))
  Facts-stable added kept job job' handle e k h = (h.0, λ x. k x (h.1 x))
  Facts-stable stopped kept job job' handle e k h = e ∙ h

  module _ (L : PlatformLaws P) (kept : String → Bool) where
    -- No stage is left by what other threads do.
    pub InStage-IsStable :
        (name : String) (stage : Stage) → IsStable (Change kept) (InStage kept name stage)
    InStage-IsStable name stage m m' c h =
        let e = run-Effect L kept c.call m.database h.jobs c.spares h.stored in
        subst (InStage kept name stage) (sym c.changed) (record {
          jobs = e.jobs;
          stored = e.stored;
          others = λ n other. rw (e.alike.alike n) (h.others n other);
          here =
              Facts-stable stage (kept name) (h.jobs name) (e.jobs name) _ (e.alike.alike name)
                (e.stays name) h.here;
        })

    -- Nor is the agreement, whatever set of jobs is kept in it.
    pub Agrees-changes :
        (kept' : String → Bool) (m m' : Manager)
        → Change kept m m'
        → Agrees kept' m
        → Agrees kept' m'
    Agrees-changes kept' m m' c h =
        let e = run-Effect L kept c.call m.database h.jobs c.spares h.stored in
        subst (Agrees kept') (sym c.changed) (record {
          jobs = e.jobs;
          stored = e.stored;
          at_name = λ n. rw (e.alike.alike n) (h.at_name n);
        })

    pub Agrees-IsStable : IsStable (Change kept) (Agrees kept)
    Agrees-IsStable = Agrees-changes kept

  -- A call of the database that changes no other job leads to a stage if the job's facts do.
  pub on_database-InStage :
      {A : Type 0} (kept : String → Bool) (name : String) (from to : Stage) (f : Exec Database A)
      (m : Manager) (h : InStage kept name from m) (spec : A × Jobs)
      → Refines (f m.database) spec
      → ((n : String) → (name == n) ≡ false → is_running (spec.1 n) ≡ is_running (h.jobs n))
      → Facts to (kept name) (spec.1 name) (Map.find name m.active_jobs)
      → Succeeds (λ _. InStage kept name to) (on_database f m)
  on_database-InStage kept name from to f m h spec r alike facts = record {
    value = spec.0;
    result = r.result;
    after = record {
      jobs = spec.1;
      stored = r.stored;
      others = λ n other. rw (alike n other) (h.others n other);
      here = facts;
    };
  }

  pub add_active-InStage :
      (kept : String → Bool) (name : String) (handle : Handle) (m : Manager)
      → InStage kept name found m
      → Succeeds (λ _. InStage kept name added) (add_active name handle m)
  add_active-InStage kept name handle m h = record {
    value = tt;
    result = refl;
    after = record {
      jobs = h.jobs;
      stored = h.stored;
      others = λ n other.
          rw (find-insert name n handle m.active_jobs h.here.0, other) (h.others n other);
      here =
          (rw (find-insert name name handle m.active_jobs h.here.0, eq_refl name) refl, h.here.2);
    };
  }

  pub erase_active-InStage :
      (kept : String → Bool) (name : String) (m : Manager)
      → InStage kept name stopped m
      → Succeeds (λ _. InStage kept name freed) (erase_active name m)
  erase_active-InStage kept name m h = record {
    value = tt;
    result = refl;
    after = record {
      jobs = h.jobs;
      stored = h.stored;
      others = λ n other. rw (find-erase name n m.active_jobs, other) (h.others n other);
      here = (rw (find-erase name name m.active_jobs, eq_refl name) refl, h.here);
    };
  }
