-- ===== src/Manager/Stops.antt =====
-- Which processes `stop_job` kills.
use kiwibes.Prelude.{String, ◌≡◌, refl, Option, none, some, [], ◌∷◌, ◌++◌, Option-cases, inl, inr}
use kiwibes.Errors.{KiwibesError, no_error, job_name_unknown, job_is_not_running}
use kiwibes.Exec.{Result, ok}
use kiwibes.Map
use kiwibes.Platform.{Platform}
use kiwibes.Database.Spec.{Job}
use kiwibes.Database.Refinement.Queries.{get_job_description-known, get_job_description-unknown}
use kiwibes.Manager.{Manager, Handle, stop_job}
use kiwibes.Manager.Spec.{System, Runs}

module _ ⦃P : Platform⦄ where
  open P use {null}

  -- The result for a job of the database, if it is known, and its process, if it is active.
  unfoldable pub spec_stop : Option Job → Option Handle → Manager → Result KiwibesError × Manager
  spec_stop none o m = (ok job_name_unknown, m)
  spec_stop (some job) none m = (ok job_is_not_running, m)
  spec_stop (some job) (some handle) m =
      (ok no_error, record m { killed = m.killed ++ handle ∷ [] })

  -- `stop_job`, on a manager that runs an abstract system, ends without an exception: it refuses an
  -- unknown job and a job that is not active, and kills the process of an active one; the database
  -- and the active jobs stay as they are.
  pub stop_job-kills :
      (name : String) (m : Manager) (s : System)
      → Runs m s
      → stop_job name m ≡ spec_stop (s.jobs name) (Map.find name s.active) m
  unfolding stop_job spec_stop
  stop_job-kills name m s r = elim (Option-cases (s.jobs name)) [
    | inl e ↦ rw (e, get_job_description-unknown name null m.database s.jobs r.stored e) refl
    | inr (job, e) ↦
        let d = get_job_description-known name null m.database s.jobs job r.stored e in
        elim (Option-cases (Map.find name s.active)) [
          | inl a ↦ rw (e, d.found, r.active, a) refl
          | inr (handle, a) ↦ rw (e, d.found, r.active, a) refl
        ]
  ]
