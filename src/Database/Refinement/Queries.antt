-- ===== src/Database/Refinement/Queries.antt =====
-- `get_job_description` on a database that stands for a map of jobs.
use kiwibes.Prelude.{String, ◌≡◌, refl, sym, ◌∙◌, subst, Option, none, some, arith, some_inj}
use kiwibes.Errors.{no_error, job_name_unknown}
use kiwibes.Exec.{ok}
use kiwibes.Platform.{Platform}
use kiwibes.Database.{Database}
use kiwibes.Database.Names.{get_job_description}
use kiwibes.Database.Table.{Row, row_of}
use kiwibes.Database.Spec.{Job, Jobs, HoldsJob, RowHolds, Stores}
use kiwibes.Database.Refinement.{missing_row, known_row}

module _ ⦃P : Platform⦄ where
  open P use {Json, member}

  -- A description with the fields of the job.
  pub record Described (name : String) (out : Json) (db : Database) (job : Job) : Type 0 where
    pub value : Json
    pub found : get_job_description out name db ≡ (ok (no_error, value), db)
    pub holds : HoldsJob (member value) job

  row_member :
      (o : Option Json) (row : Row)
      → row_of o ≡ some row
      → (v : Json) × (o ≡ some v) × (member v ≡ row)
  row_member none row e = cc
  row_member (some v) row e = (v, refl, some_inj e)

  -- On a database that stands for a map of jobs, `get_job_description` of a known job ends without
  -- an error, leaves the database as it is, and returns a description that holds the fields of the
  -- job.
  pub get_job_description-known :
      (name : String) (out : Json) (db : Database) (m : Jobs) (job : Job)
      → Stores db m
      → m name ≡ some job
      → Described name out db job
  unfolding get_job_description
  get_job_description-known name out db m job s e =
      let (row, there, r) =
        known_row (s.table name) job (subst (RowHolds (s.table name)) e (s.holds name)) in
      let (v, is_there, same) = row_member (member db.jobs name) row (s.shows.shown name ∙ there) in
      record { value = v; found = ground arith; holds = subst (λ x. HoldsJob x job) (sym same) r }

  -- On a database that stands for a map of jobs, `get_job_description` of an unknown job returns
  -- the error, and leaves the database and the output argument as they are.
  pub get_job_description-unknown :
      (name : String) (out : Json) (db : Database) (m : Jobs)
      → Stores db m
      → m name ≡ none
      → get_job_description out name db ≡ (ok (job_name_unknown, out), db)
  unfolding get_job_description
  get_job_description-unknown name out db m s e =
      let gone = missing_row (s.table name) (subst (RowHolds (s.table name)) e (s.holds name)) in
      ground (arith, s.shows.shown name)
