-- ===== src/Database/Runs.antt =====
-- source/kiwibes_database.cpp: the operations that record that a job runs, and its queued starts.
use kiwibes.Prelude.{ℕ, ◌+◌, ◌%◌, ◌^◌, String, ◌==◌, if◌then◌else◌, not}
use kiwibes.Prelude.Int.{ℤ, pos, negsuc, ◌-ℤ◌, incr_int, ltb_ℤ}
use kiwibes.Errors.{KiwibesError, no_error, job_name_unknown, job_is_running, job_is_not_running}
use kiwibes.Exec.{Exec, ◌>>=◌, ◌>>◌, pure}
use kiwibes.Platform.{Platform}
use kiwibes.Database.{Database, has, field, set_field, unsafe_save}

module _ ⦃P : Platform⦄ where
  open P use {
    Double, double_of_int, add_double, sub_double, mul_double, div_double, get_string, get_int,
    get_time, get_ulong, get_double, of_string, of_int, of_double,
  }

  -- `now` is the reading of the system clock.
  unfoldable pub job_started : ℕ → String → Exec Database KiwibesError
  job_started now name db =
      (if not (has db.jobs name) then pure job_name_unknown else do
        status ← field get_string name "status"
        if status == "running" then pure job_is_running else (do
          set_field name "status" (of_string "running")
          set_field name "start-time" (of_int (pos now))
          pure no_error))
        db

  abbrev pub delta_of : ℤ → Double → Double
  delta_of runtime avg = mul_double (double_of_int (pos 1)) (sub_double (double_of_int runtime) avg)

  -- The running mean and the running sum of squared deviations after one more run.
  unfoldable pub next_avg : ℤ → ℕ → Double → Double
  next_avg runtime runs avg =
      add_double avg (div_double (delta_of runtime avg) (double_of_int (pos runs)))

  unfoldable pub next_var : ℤ → ℕ → Double → Double → Double
  next_var runtime runs avg var = add_double var (
      mul_double (delta_of runtime avg)
        (sub_double (double_of_int runtime) (next_avg runtime runs avg)))

  -- The count of runs is an `unsigned long int`.
  unfoldable pub job_stopped : ℕ → String → Exec Database KiwibesError
  job_stopped now name db =
      (if not (has db.jobs name) then pure job_name_unknown else do
        status ← field get_string name "status"
        if status == "stopped" then pure job_is_not_running else (do
          start ← field get_time name "start-time"
          count ← field get_ulong name "nbr-runs"
          avg ← field get_double name "avg-runtime"
          var ← field get_double name "var-runtime"
          let runtime = pos now -ℤ start
          let runs = (count + 1) % 2 ^ 64
          set_field name "status" (of_string "stopped")
          set_field name "start-time" (of_int (pos 0))
          set_field name "avg-runtime" (of_double (next_avg runtime runs avg))
          set_field name "var-runtime" (of_double (next_var runtime runs avg var))
          set_field name "nbr-runs" (of_int (pos runs))
          unsafe_save
          pure no_error))
        db

  unfoldable pub job_incr_start_requests : String → Exec Database KiwibesError
  job_incr_start_requests name db =
      (if not (has db.jobs name) then pure job_name_unknown else do
        pending ← field get_int name "pending-start"
        set_field name "pending-start" (of_int (incr_int pending))
        pure no_error)
        db

  decrement : String → ℤ → Exec Database ℤ
  decrement name pending = do
    set_field name "pending-start" (of_int (pending -ℤ pos 1))
    pure (pending -ℤ pos 1)

  -- The requests that are left, or -1 where there was none.
  unfoldable pub job_decr_start_requests : String → Exec Database ℤ
  unfolding decrement
  job_decr_start_requests name db =
      (if not (has db.jobs name) then pure (negsuc 0) else do
        pending ← field get_int name "pending-start"
        if ltb_ℤ (pos 0) pending then decrement name pending else pure (negsuc 0))
        db

  unfoldable pub job_clear_start_requests : String → Exec Database KiwibesError
  job_clear_start_requests name db =
      (if not (has db.jobs name)
          then pure job_name_unknown
          else do set_field name "pending-start" (of_int (pos 0)); pure no_error)
        db
