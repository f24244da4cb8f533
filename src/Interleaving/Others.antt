-- ===== src/Interleaving/Others.antt =====
-- What other threads do to the database while an operation of the manager is under way: the calls of
-- the handlers of requests. The operations that record runs need the lock of the manager.
use kiwibes.Prelude.{String, ◌≡◌, none, some, Option, Bool, true, false, arith, eq_iff}
use kiwibes.Prelude.Int.{ℤ}
use kiwibes.Errors.{KiwibesError}
use kiwibes.Exec.{Exec}
use kiwibes.Platform.{Platform, is_plain}
use kiwibes.Platform.Laws.{PlatformLaws}
use kiwibes.Database.{Database}
use kiwibes.Database.Runs.{job_clear_start_requests}
use kiwibes.Database.Changes.{create_job, edit_job, delete_job}
use kiwibes.Database.Spec.{Jobs, Stores, spec_create, spec_edit, spec_delete, spec_clear}
use kiwibes.Database.Refinement.Creations.{create_job-Refines}
use kiwibes.Database.Refinement.Edits.{edit_job-Refines}
use kiwibes.Database.Refinement.Deletions.{delete_job-Refines}
use kiwibes.Database.Refinement.Starts.{job_clear-Refines}
use kiwibes.Manager.{Manager}
use kiwibes.Rest.{Request, Context}
use kiwibes.Rest.Parameters.{HoldsParameters}
use kiwibes.Server.Running.{
  RunsAlike, spec_create-RunsAlike, spec_edit-RunsAlike, spec_delete-RunsAlike,
  spec_clear-RunsAlike,
}

abbrev pub is_known {ℓ} : {A : Type ℓ} → Option A → Bool
is_known none = false
is_known (some a) = true

module _ ⦃P : Platform⦄ where
  -- The parameters of a new or an edited job are those that `read_job_parameters` has returned.
  pub data Call : Type 0 where
    creates edits : (req : Request) (n : ℤ) (before : Context) → HoldsParameters req n before → Call
    deletes : (name : String) → is_plain name ≡ true → Call
    clears : String → Call

  abbrev pub run : Call → Exec Database KiwibesError
  run (creates req n before p) = create_job req.capture p.params
  run (edits req n before p) = edit_job req.capture p.params
  run (deletes name plain) = delete_job name
  run (clears name) = job_clear_start_requests name

  -- The call deletes no job of the set.
  abbrev pub Spares : (String → Bool) → Call → Type 0
  Spares kept (deletes name plain) = kept name ≡ false
  Spares kept _ = Unit

  -- A change of the manager's database by another thread, which deletes no job of the set.
  pub record Change (kept : String → Bool) (m m' : Manager) : Type 0 where
    pub call : Call
    pub spares : Spares kept call
    pub changed : m' ≡ record m { database = (run call m.database).1 }

  -- The effect of a call on the map of jobs: the same jobs run, and the kept ones stay known.
  pub record Effect (kept : String → Bool) (db : Database) (before : Jobs) : Type 0 where
    pub jobs : Jobs
    pub stored : Stores db jobs
    pub alike : RunsAlike before jobs
    pub stays : (n : String) → kept n ≡ true → is_known (before n) ≡ true → is_known (jobs n) ≡ true

  module _ (L : PlatformLaws P) (kept : String → Bool) where
    pub run-Effect :
        (call : Call) (db : Database) (m : Jobs)
        → Spares kept call
        → Stores db m
        → Effect kept (run call db).1 m
    run-Effect (creates req n c p) db m h s = record {
      jobs = (spec_create _ _ _ req.capture m).1;
      stored =
          (create_job-Refines L req.capture p.params _ _ _ db m p.program p.schedule p.max_runtime
            s).stored;
      alike = spec_create-RunsAlike _ _ _ req.capture m;
      stays = λ j k e. unfold spec_create in ground (arith, eq_iff req.capture j);
    }
    run-Effect (edits req n c p) db m h s = record {
      jobs = (spec_edit _ _ _ req.capture m).1;
      stored =
          (edit_job-Refines L req.capture p.params _ _ _ db m p.program p.schedule p.unsigned
            s).stored;
      alike = spec_edit-RunsAlike _ _ _ req.capture m;
      stays = λ j k e. unfold spec_edit in ground (arith, eq_iff req.capture j);
    }
    run-Effect (deletes name plain) db m h s = record {
      jobs = (spec_delete name m).1;
      stored = (delete_job-Refines L name db m plain s).stored;
      alike = spec_delete-RunsAlike name m;
      stays = λ j k e. unfold spec_delete in ground (arith, eq_iff name j);
    }
    run-Effect (clears name) db m h s = record {
      jobs = (spec_clear name m).1;
      stored = (job_clear-Refines L name db m s).stored;
      alike = spec_clear-RunsAlike name m;
      stays = λ j k e. unfold spec_clear in ground (arith, eq_iff name j);
    }
