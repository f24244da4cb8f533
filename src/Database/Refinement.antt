-- ===== src/Database/Refinement.antt =====
-- The operations of the database that record runs refine the abstract map of jobs.
pub mod Starts
pub mod Deletions
pub mod Creations
pub mod Edits
pub mod Queries
pub mod Traces
use kiwibes.Prelude.{
  ℕ, ◌+◌, ◌%◌, ◌^◌, zero, suc, String, ◌≡◌, refl, sym, subst, ◌∙◌, ap, Option, none, some, Bool,
  true, false, ◌==◌, eq_iff, eq_refl, if◌then◌else◌, arith, Option-cases, Bool-cases, inl, inr, not,
  ◌⊎◌,
}
use kiwibes.Prelude.Int.{ℤ, pos, negsuc, ◌-ℤ◌, incr_int}
use kiwibes.Errors.{KiwibesError, no_error, job_name_unknown, job_is_running, job_is_not_running}
use kiwibes.Exec.{Exec, Result, ok, ◌>>=◌, ◌>>◌, pure}
use kiwibes.Platform.{Platform}
use kiwibes.Platform.Laws.{PlatformLaws}
use kiwibes.Database.{Database, has, field, set_field, unsafe_save}
use kiwibes.Database.Runs.{
  job_started, job_stopped, job_incr_start_requests, job_decr_start_requests,
  job_clear_start_requests, next_avg, next_var,
}
use kiwibes.Database.Table.{
  Row, Table, put_row, put_key, cell, Shows, Returns, Returns-pure, Returns-save, Returns-write,
  Returns-read, Shows-put_row,
}
use kiwibes.Database.Spec.{
  Job, Jobs, put, HoldsJob, RowHolds, Stores, Refines, status_text, start, finish, with_pending,
  change,
}

module _ ⦃P : Platform⦄ where
  open P use {Json, member, of_int, get_string}

  pub status_cell :
      (row : Row) (job : Job) (b : Bool)
      → HoldsJob row job
      → job.running ≡ b
      → cell get_string "status" row ≡ some (status_text b)
  status_cell row job b r e = r.status ∙ ap (λ x. some (status_text x)) e

  pub missing_row : (o : Option Row) → RowHolds o none → o ≡ none
  missing_row none h = refl
  missing_row (some row) h = absurd h

  pub known_row :
      (o : Option Row) (job : Job)
      → RowHolds o (some job)
      → (row : Row) × (o ≡ some row) × HoldsJob row job
  known_row none job h = absurd h
  known_row (some row) job h = (row, refl, h)

  pub has-none :
      (db : Database) (m : Jobs) (name : String)
      → Stores db m
      → m name ≡ none
      → has db.jobs name ≡ false
  has-none db m name s e =
      let gone = missing_row (s.table name) (subst (RowHolds (s.table name)) e (s.holds name)) in
      ground (arith, s.shows.shown name, gone)

  pub data Known (db : Database) (m : Jobs) (name : String) (job : Job) : Type 0 where
    known :
        (t : Table) (row : Row)
        → Shows db (put_row name (some row) t)
        → ((n : String) → RowHolds (t n) (m n))
        → HoldsJob row job
        → has db.jobs name ≡ true
        → Known db m name job

  module _ (L : PlatformLaws P) where
    pub Known-of_Stores :
        (db : Database) (m : Jobs) (name : String) (job : Job)
        → Stores db m
        → m name ≡ some job
        → Known db m name job
    Known-of_Stores db m name job s e =
        let (row, there, r) =
          known_row (s.table name) job (subst (RowHolds (s.table name)) e (s.holds name)) in
        known s.table row (Shows-put_row L name (some row) db s.table s.shows there) s.holds r
          (ground (arith, s.shows.shown name, there))

    pub Stores-put :
        (db : Database) (m : Jobs) (name : String) (t : Table) (o : Option Row) (job : Option Job)
        → Shows db (put_row name o t)
        → ((n : String) → RowHolds (t n) (m n))
        → RowHolds o job
        → Stores db (put name job m)
    Stores-put db m name t o job s h r = record {
      table = put_row name o t;
      shows = s;
      holds =
          λ n. elim (Bool-cases (name == n)) [ inl same ↦ rw same r | inr other ↦ rw other (h n) ];
    }

    -- A block that leaves the row of a known job as `f` says refines the change by `f`.
    pub Refines-change :
        {A : Type 0} (missing : A) (name : String) (body : Exec Database A)
        (f : Job → A × Option Job) (db : Database) (m : Jobs)
        → ((t : Table) (row : Row) (job : Job)
            → HoldsJob row job
            → Shows db (put_row name (some row) t)
            → (o : Option Row) × RowHolds o (f job).1
              × Returns (body db) (f job).0 (put_row name o t))
        → Stores db m
        → Refines
            ((if not (has db.jobs name) then pure missing else body) db)
            (change missing name f m)
    Refines-change missing name body f db m run s = elim (Option-cases (m name)) [
      | inl e ↦ rw (has-none db m name s e, e, change) (record { result = refl; stored = s })
      | inr (job, e) ↦ elim (Known-of_Stores db m name job s e) [
        | known t row shows holds r there ↦
            let (o, r', ret) = run t row job r shows in
            rw (there, e, change)
              (record {
                result = ret.result;
                stored = Stores-put _ m name t o (f job).1 ret.left holds r';
              })
      ]
    ]
