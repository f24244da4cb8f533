-- ===== src/Server/Running.antt =====
-- Which jobs run: not changed by the operations of the database that the handlers call.
use kiwibes.Prelude.{ℕ, String, ◌≡◌, ◌∙◌, List, arith, eq_iff}
use kiwibes.Prelude.Int.{ℤ}
use kiwibes.Exec.{Exec}
use kiwibes.Platform.{Platform}
use kiwibes.Database.{Database}
use kiwibes.Database.Spec.{Jobs, Refines, spec_clear, spec_delete, spec_create, spec_edit}
use kiwibes.Manager.{Manager, on_database}
use kiwibes.Manager.Invariant.{is_running, IsManaged}

module _ ⦃P : Platform⦄ where
  -- The maps have the same running jobs.
  pub record RunsAlike (before after : Jobs) : Type 0 where
    pub alike : (name : String) → is_running (after name) ≡ is_running (before name)

  pub spec_clear-RunsAlike : (name : String) (m : Jobs) → RunsAlike m (spec_clear name m).1
  unfolding spec_clear
  spec_clear-RunsAlike name m = record { alike = λ n. ground (arith, eq_iff name n) }

  pub spec_delete-RunsAlike : (name : String) (m : Jobs) → RunsAlike m (spec_delete name m).1
  unfolding spec_delete
  spec_delete-RunsAlike name m = record { alike = λ n. ground (arith, eq_iff name n) }

  pub spec_create-RunsAlike :
      (program : List String) (schedule : String) (max_runtime : ℤ) (name : String) (m : Jobs)
      → RunsAlike m (spec_create program schedule max_runtime name m).1
  unfolding spec_create
  spec_create-RunsAlike program schedule max_runtime name m = record {
    alike = λ n. ground (arith, eq_iff name n);
  }

  pub spec_edit-RunsAlike :
      (program : List String) (schedule : String) (max_runtime : ℕ) (name : String) (m : Jobs)
      → RunsAlike m (spec_edit program schedule max_runtime name m).1
  unfolding spec_edit
  spec_edit-RunsAlike program schedule max_runtime name m = record {
    alike = λ n. ground (arith, eq_iff name n);
  }

  -- An operation of the database with such an effect keeps the manager's invariant.
  pub on_database-IsManaged :
      {A : Type 0} (f : Exec Database A) (m : Manager) (h : IsManaged m) (spec : A × Jobs)
      → Refines (f m.database) spec
      → RunsAlike h.system.jobs spec.1
      → IsManaged (on_database f m).1
  on_database-IsManaged f m h spec r a = record {
    system = record { active = h.system.active; jobs = spec.1 };
    runs = record { active = h.runs.active; stored = r.stored };
    synced = record { at_name = λ name. a.alike name ∙ h.synced.at_name name };
  }
