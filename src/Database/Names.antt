-- ===== src/Database/Names.antt =====
-- source/kiwibes_database.cpp: the queries.
pub mod Listing
pub mod Schedulable
pub mod Scheduled
use Prim.Native.String.{len}
use kiwibes.Prelude.{String, Option, none, some, List, [], ◌∷◌, ◌++◌, if◌then◌else◌, ltb, ◌&&◌}
use kiwibes.Errors.{KiwibesError, no_error, job_name_unknown}
use kiwibes.Exec.{Exec, type_error, invalid_iterator, ◌>>=◌, pure, demand}
use kiwibes.Platform.{Platform}
use kiwibes.Cron
use kiwibes.Database.{Database}

module _ ⦃P : Platform⦄ where
  open P use {Json, items, member, get_string}

  unfoldable pub schedule_of : Json → Option String
  schedule_of job = elim (member job "schedule") [ none ↦ none | some v ↦ get_string v ]

  -- `jobs.push_back(job.key())`
  unfoldable pub push_back : Option String → List String → Exec Database (List String)
  push_back key names = demand invalid_iterator key >>= λ name. pure (names ++ name ∷ [])

  -- The loop over the jobs; `names` is the output argument.
  unfoldable pub schedulable :
      List (Option String × Json) → List String → Exec Database (List String)
  unfolding push_back schedule_of
  schedulable [] names = pure names
  schedulable ((key, job) ∷ rest) names = do
    schedule ← demand type_error (schedule_of job)
    longer ←
        if ltb 0 (len schedule) && Cron.is_valid (Cron.new schedule)
        then push_back key names
        else pure names
    schedulable rest longer

  -- `jobs` is not cleared first.
  unfoldable pub get_all_schedulable_jobs : List String → Exec Database (List String)
  unfolding schedulable
  get_all_schedulable_jobs names db = schedulable (items db.jobs) names db

  unfoldable pub all_names : List (Option String × Json) → List String → Exec Database (List String)
  unfolding push_back
  all_names [] names = pure names
  all_names ((key, job) ∷ rest) names = do longer ← push_back key names; all_names rest longer

  unfoldable pub get_all_job_names : Exec Database (List String)
  unfolding all_names
  get_all_job_names db = all_names (items db.jobs) [] db

  -- The error, and the description where the job is known; `job` is the output argument.
  unfoldable pub get_job_description : Json → String → Exec Database (KiwibesError × Json)
  get_job_description job name db = elim (member db.jobs name) [
    | none ↦ pure (job_name_unknown, job) db
    | some found ↦ pure (no_error, found) db
  ]
