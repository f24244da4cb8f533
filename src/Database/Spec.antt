-- ===== src/Database/Spec.antt =====
-- What the database promises: a partial map from names to jobs with typed fields, and the effect of
-- each operation on it.
use kiwibes.Prelude.{
  ℕ, ◌+◌, ◌%◌, ◌^◌, String, ◌≡◌, Option, none, some, Bool, true, false, List, ◌==◌, if◌then◌else◌,
}
use kiwibes.Prelude.Int.{ℤ, pos, negsuc, ◌-ℤ◌, incr_int, ltb_ℤ, to_int, to_time}
use kiwibes.Errors.{
  KiwibesError, no_error, job_name_unknown, job_name_taken, job_is_running, job_is_not_running,
}
use kiwibes.Exec.{Result, ok}
use kiwibes.Platform.{Platform}
use kiwibes.Database.{Database}
use kiwibes.Database.Table.{Row, Table, cell, Shows}

module _ ⦃P : Platform⦄ where
  open P use {
    Double, double_zero, double_of_int, add_double, sub_double, mul_double, div_double, get_string,
    get_int, get_time, get_ulong, get_double, get_strings,
  }

  pub record Job : Type 0 where
    pub program : List String
    pub schedule : String
    pub max_runtime : ℤ
    pub avg_runtime : Double
    pub var_runtime : Double
    pub running : Bool
    pub start_time : ℤ
    pub nbr_runs : ℕ
    pub pending : ℤ

  abbrev pub Jobs : Type 0
  Jobs = String → Option Job

  abbrev pub put : String → Option Job → Jobs → Jobs
  put name job m n = if name == n then job else m n

  abbrev pub status_text : Bool → String
  status_text true = "running"
  status_text false = "stopped"

  -- The cells of a row hold the fields of the job.
  pub record HoldsJob (row : Row) (job : Job) : Type 0 where
    pub program : cell get_strings "program" row ≡ some job.program
    pub schedule : cell get_string "schedule" row ≡ some job.schedule
    pub max_runtime : cell get_time "max-runtime" row ≡ some job.max_runtime
    pub avg_runtime : cell get_double "avg-runtime" row ≡ some job.avg_runtime
    pub var_runtime : cell get_double "var-runtime" row ≡ some job.var_runtime
    pub status : cell get_string "status" row ≡ some (status_text job.running)
    pub start_time : cell get_time "start-time" row ≡ some job.start_time
    pub nbr_runs : cell get_ulong "nbr-runs" row ≡ some job.nbr_runs
    pub pending : cell get_int "pending-start" row ≡ some job.pending

  abbrev pub RowHolds : Option Row → Option Job → Type 0
  RowHolds none none = Unit {0}
  RowHolds (some row) (some job) = HoldsJob row job
  RowHolds _ _ = ⊥

  -- The representation invariant, with the jobs that the database stands for.
  pub record Stores (db : Database) (m : Jobs) : Type 0 where
    pub table : Table
    pub shows : Shows db table
    pub holds : (name : String) → RowHolds (table name) (m name)

  -- The concrete operation has ended without an exception, with the value and the jobs of the
  -- abstract one.
  pub record Refines {A : Type 0} (r : Result A × Database) (spec : A × Jobs) : Type 0 where
    pub result : r.0 ≡ ok spec.0
    pub stored : Stores r.1 spec.1

  abbrev pub start : ℕ → Job → Job
  start now job = record job { running = true; start_time = to_time (pos now) }

  -- The mean and the sum of the squared deviations from it when one more value is counted: the mean
  -- moves by the deviation of the value over the count, and the sum grows by the product of the
  -- deviations from the mean before and the mean after.
  abbrev pub mean_with : Double → Double → Double → Double
  mean_with value count mean =
      add_double mean
        (div_double (mul_double (double_of_int (pos 1)) (sub_double value mean)) count)

  abbrev pub squares_with : Double → Double → Double → Double → Double
  squares_with value count mean squares = add_double squares (
      mul_double (mul_double (double_of_int (pos 1)) (sub_double value mean))
        (sub_double value (mean_with value count mean)))

  abbrev pub finish : ℕ → Job → Job
  finish now job = record job {
    running = false;
    start_time = pos 0;
    avg_runtime =
        mean_with (double_of_int (pos now -ℤ job.start_time))
          (double_of_int (pos ((job.nbr_runs + 1) % 2 ^ 64))) job.avg_runtime;
    var_runtime =
        squares_with (double_of_int (pos now -ℤ job.start_time))
          (double_of_int (pos ((job.nbr_runs + 1) % 2 ^ 64))) job.avg_runtime job.var_runtime;
    nbr_runs = (job.nbr_runs + 1) % 2 ^ 64;
  }

  abbrev pub with_pending : ℤ → Job → Job
  with_pending n job = record job { pending = to_int n }

  -- A change, or the removal, of a known job; of an unknown one the value only.
  abbrev pub change : {A : Type 0} → A → String → (Job → A × Option Job) → Jobs → A × Jobs
  change missing name f m = elim (m name) [
    | none ↦ (missing, m)
    | some job ↦ ((f job).0, put name (f job).1 m)
  ]

  unfoldable pub spec_started : ℕ → String → Jobs → KiwibesError × Jobs
  spec_started now name =
      change job_name_unknown name
        λ job. if job.running then (job_is_running, some job) else (no_error, some (start now job))

  unfoldable pub spec_stopped : ℕ → String → Jobs → KiwibesError × Jobs
  spec_stopped now name = change job_name_unknown name λ job.
      if job.running then (no_error, some (finish now job)) else (job_is_not_running, some job)

  unfoldable pub spec_incr : String → Jobs → KiwibesError × Jobs
  spec_incr name =
      change job_name_unknown name λ job. (no_error, some (with_pending (incr_int job.pending) job))

  unfoldable pub spec_clear : String → Jobs → KiwibesError × Jobs
  spec_clear name = change job_name_unknown name λ job. (no_error, some (with_pending (pos 0) job))

  unfoldable pub spec_decr : String → Jobs → ℤ × Jobs
  spec_decr name = change (negsuc 0) name λ job.
      if ltb_ℤ (pos 0) job.pending
      then (job.pending -ℤ pos 1, some (with_pending (job.pending -ℤ pos 1) job))
      else (negsuc 0, some job)

  unfoldable pub spec_delete : String → Jobs → KiwibesError × Jobs
  spec_delete name =
      change job_name_unknown name
        λ job. if job.running then (job_is_running, some job) else (no_error, none)

  abbrev pub fresh_job : List String → String → ℤ → Job
  fresh_job program schedule max_runtime = record {
    program = program;
    schedule = schedule;
    max_runtime = to_time max_runtime;
    avg_runtime = double_zero;
    var_runtime = double_zero;
    running = false;
    start_time = pos 0;
    nbr_runs = 0;
    pending = pos 0;
  }

  unfoldable pub spec_create : List String → String → ℤ → String → Jobs → KiwibesError × Jobs
  spec_create program schedule max_runtime name m = elim (m name) [
    | some job ↦ (job_name_taken, m)
    | none ↦ (no_error, put name (some (fresh_job program schedule max_runtime)) m)
  ]

  abbrev pub edited : List String → String → ℕ → Job → Job
  edited program schedule max_runtime job = record job {
    program = program;
    schedule = schedule;
    max_runtime = to_time (pos max_runtime);
  }

  unfoldable pub spec_edit : List String → String → ℕ → String → Jobs → KiwibesError × Jobs
  spec_edit program schedule max_runtime name = change job_name_unknown name λ job.
      if job.running
      then (job_is_running, some job)
      else (no_error, some (edited program schedule max_runtime job))
