-- ===== src/Database.antt =====
-- source/kiwibes_database.cpp and .h: the jobs, kept as one JSON value, and their file.
-- Here: the state, access to the fields of a job, `load` and `save`.
pub mod Runs
pub mod Changes
pub mod Names
pub mod Table
pub mod Spec
pub mod Refinement
pub mod Loading
pub mod Saving
use kiwibes.Prelude.{
  ℕ, String, Option, none, some, List, [], ◌∷◌, Bool, true, false, ◌==◌, if◌then◌else◌, ◌&&◌, suc,
}
use kiwibes.Prelude.Int.{pos}
use kiwibes.Errors.{
  KiwibesError, no_error, no_database_file, json_parse_fail, job_description_invalid, is_ok,
}
use kiwibes.Exec.{
  catch_parse_error, Result, Exec, ok, throws, type_error, invalid_iterator, ◌>>=◌, ◌>>◌, pure,
  demand,
}
use kiwibes.Platform.{Platform}

-- The files, by path: the text that an `ifstream` reads, with `none` where it cannot be opened, and
-- whether an `ofstream` can be opened and written.
pub record Disk : Type 0 where
  pub content : String → Option String
  pub is_writable : String → Bool

-- What is written through an `ofstream`, which the code never tests. A stream that cannot be opened
-- writes nothing.
abbrev pub write_file : String → String → Disk → Disk
write_file path text disk = record disk {
  content = λ p. if (path == p) && disk.is_writable p then some text else disk.content p;
}

-- The fields that every job of the file has to have.
abbrev pub expected : List String
expected =
    "program" ∷ "max-runtime" ∷ "avg-runtime" ∷ "var-runtime" ∷ "schedule" ∷ "status" ∷ "start-time"
    ∷ "nbr-runs" ∷ "pending-start" ∷ []

module _ ⦃P : Platform⦄ where
  open P use {Json, null, parse, print, items, set_item, member, set_member, of_string, of_int}

  pub record Database : Type 0 where
    pub path : String
    pub jobs : Json
    pub disk : Disk

  unfoldable pub new : Disk → Database
  new disk = record { path = ""; jobs = null; disk = disk }

  -- `0 < count(key)`
  abbrev pub has : Json → String → Bool
  has v key = elim (member v key) [ none ↦ false | some x ↦ true ]

  -- `(*dbjobs)[name][key].get<T>()`. A missing or ill-typed value is a type error;
  -- what `[]` inserts for a missing one before the exception is not kept.
  unfoldable pub field : {A : Type 0} → (Json → Option A) → String → String → Exec Database A
  field get name key db = elim (member db.jobs name) [
    | none ↦ (throws type_error, db)
    | some job ↦ elim (member job key) [
      | none ↦ (throws type_error, db)
      | some v ↦ demand type_error (get v) db
    ]
  ]

  or_null : Option Json → Json
  or_null none = null
  or_null (some v) = v

  -- `(*dbjobs)[name][key] = x`. A missing job starts as the default value.
  unfoldable pub set_field : String → String → Json → Exec Database Unit
  unfolding or_null
  set_field name key x db = elim (set_member (or_null (member db.jobs name)) key x) [
    | none ↦ (throws type_error, db)
    | some job ↦ elim (set_member db.jobs name job) [
      | none ↦ (throws type_error, db)
      | some jobs ↦ (ok tt, record db { jobs = jobs })
    ]
  ]

  -- `file << std::setw(4) << *dbjobs`. The printing of texts in UTF-8 throws no exception.
  unfoldable pub unsafe_save : Exec Database Unit
  unsafe_save db = (ok tt, record db { disk = write_file db.path (print db.jobs) db.disk })

  unfoldable pub save : Exec Database KiwibesError
  unfolding unsafe_save
  save = do unsafe_save; pure no_error

  unfoldable pub has_all : Json → List String → Bool
  has_all job [] = true
  has_all job (f ∷ fs) = has job f && has_all job fs

  -- `job.value()[key] = x`
  assign : String → Json → Json → Exec Database Json
  assign key x job = demand type_error (set_member job key x)

  write_back : ℕ → Json → Exec Database Unit
  write_back i job db = (ok tt, record db { jobs = set_item db.jobs i job })

  -- The body of the loop of `load`. A missing field is logged with the job's key.
  check_job : Option String → Json → ℕ → KiwibesError → Exec Database KiwibesError
  unfolding has_all
  check_job key job i error =
      if has_all job expected
      then (if is_ok error
          then (do
            started ← assign "status" (of_string "stopped") job
            timed ← assign "start-time" (of_int (pos 0)) started
            reset ← assign "pending-start" (of_int (pos 0)) timed
            write_back i reset
            pure error)
          else pure error)
      else (do demand invalid_iterator key; pure job_description_invalid)

  pub check_jobs : List (Option String × Json) → ℕ → KiwibesError → Exec Database KiwibesError
  check_jobs [] i error = pure error
  check_jobs ((key, job) ∷ rest) i error = do
    error' ← check_job key job i error
    check_jobs rest (suc i) error'

  -- `dbjobs.reset` in case of errors
  reset_on_error : KiwibesError → Exec Database KiwibesError
  reset_on_error error db =
      if is_ok error then (ok error, db) else (ok error, record db { jobs = null })

  -- The exception for a number out of range is not caught; what has been read before it is not kept.
  load_parsed : Result Json → Exec Database KiwibesError
  load_parsed (ok v) db = check_jobs (items v) 0 no_error (record db { jobs = v })
  load_parsed (throws e) db = catch_parse_error json_parse_fail e db

  load_text : String → Exec Database KiwibesError
  load_text text = load_parsed (parse text)

  load_file : Option String → Exec Database KiwibesError
  load_file none = pure no_database_file
  load_file (some text) = load_text text

  unfoldable pub load : String → Exec Database KiwibesError
  unfolding load_file load_text load_parsed reset_on_error check_jobs check_job assign write_back
  load fname db =
      (do error ← load_file (db.disk.content fname); reset_on_error error)
        (record db { path = fname; jobs = null })
