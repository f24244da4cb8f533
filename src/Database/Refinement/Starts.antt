-- ===== src/Database/Refinement/Starts.antt =====
-- The operations that record starts and stops, and the queue of start requests.
use kiwibes.Prelude.{
  ℕ, ◌+◌, ◌%◌, ◌^◌, String, ◌∙◌, ap, some, true, false, arith, Bool-cases, inl, inr,
}
use kiwibes.Prelude.Int.{ℤ, pos, ◌-ℤ◌, incr_int, ltb_ℤ}
use kiwibes.Errors.{no_error, job_is_running, job_is_not_running}
use kiwibes.Platform.{Platform}
use kiwibes.Platform.Laws.{PlatformLaws}
use kiwibes.Database.{Database}
use kiwibes.Database.Runs.{
  job_started, job_stopped, job_incr_start_requests, job_decr_start_requests,
  job_clear_start_requests, next_avg, next_var,
}
use kiwibes.Database.Table.{Row, put_key, Returns-pure, Returns-save, Returns-write, Returns-read}
use kiwibes.Database.Spec.{
  Job, Jobs, HoldsJob, Stores, Refines, start, finish, with_pending, spec_started, spec_stopped,
  spec_incr, spec_decr, spec_clear,
}
use kiwibes.Database.Refinement.{Refines-change, status_cell}

module _ ⦃P : Platform⦄ (L : PlatformLaws P) where
  open P use {
    Json, of_int, of_string, of_double, get_string, get_int, get_time, get_ulong, get_double,
  }

  start_row :
      (now : ℕ) (row : Row) (job : Job)
      → HoldsJob row job
      → HoldsJob
          (put_key "start-time"
            (of_int (pos now))
            (some (put_key "status" (of_string "running") (some row))))
          (start now job)
  start_row now row job r = record {
    program = r.program;
    schedule = r.schedule;
    max_runtime = r.max_runtime;
    avg_runtime = r.avg_runtime;
    var_runtime = r.var_runtime;
    status = L.get-of_string "running";
    start_time = L.get_time-of_int (pos now);
    nbr_runs = r.nbr_runs;
    pending = r.pending;
  }

  finish_row :
      (now : ℕ) (row : Row) (job : Job)
      → HoldsJob row job
      → let runtime = pos now -ℤ job.start_time in
        let runs = (job.nbr_runs + 1) % 2 ^ 64 in
        HoldsJob
          (put_key "nbr-runs" (of_int (pos runs)) (
            some (
              put_key "var-runtime"
                (of_double (next_var runtime runs job.avg_runtime job.var_runtime))
                (some (
                  put_key "avg-runtime" (of_double (next_avg runtime runs job.avg_runtime)) (
                    some (
                      put_key "start-time"
                        (of_int (pos 0))
                        (some (put_key "status" (of_string "stopped") (some row))))))))))
          (finish now job)
  unfolding next_avg next_var
  finish_row now row job r = record {
    program = r.program;
    schedule = r.schedule;
    max_runtime = r.max_runtime;
    avg_runtime = L.get-of_double _;
    var_runtime = L.get-of_double _;
    status = L.get-of_string "stopped";
    start_time = L.get_time-of_int (pos 0);
    nbr_runs = L.get_ulong-of_int _ ∙ ap some (omega arith);
    pending = r.pending;
  }

  pending_row :
      (n : ℤ) (row : Row) (job : Job)
      → HoldsJob row job
      → HoldsJob (put_key "pending-start" (of_int n) (some row)) (with_pending n job)
  pending_row n row job r = record {
    program = r.program;
    schedule = r.schedule;
    max_runtime = r.max_runtime;
    avg_runtime = r.avg_runtime;
    var_runtime = r.var_runtime;
    status = r.status;
    start_time = r.start_time;
    nbr_runs = r.nbr_runs;
    pending = L.get_int-of_int n;
  }

  -- On a database that stands for a map of jobs, `job_started` ends without an exception, with the
  -- error and the map of `spec_started`, whether or not the job is known or running: a stopped job
  -- becomes running since now.
  pub job_started-Refines :
      (now : ℕ) (name : String) (db : Database) (m : Jobs)
      → Stores db m
      → Refines (job_started now name db) (spec_started now name m)
  unfolding job_started spec_started
  job_started-Refines now name db m = Refines-change L _ name _ _ db m λ t row job r sh.
      elim (Bool-cases job.running) [
        | inl runs ↦ simp runs (
          some row,
          r,
          Returns-read L get_string name "status" _ (some row) db t _ "running" job_is_running sh
              (status_cell row job true r runs) (Returns-pure job_is_running db _ sh),
        )
        | inr stops ↦ simp stops (
          some _,
          start_row now row job r,
          Returns-read L get_string name "status" _ (some row) db t _ "stopped" no_error sh
              (status_cell row job false r stops)
              (Returns-write L name "status" _ _ (some row) db t _ no_error sh λ d1 s1.
                Returns-write L name "start-time" _ _ _ d1 t _ no_error s1
                  λ d2 s2. Returns-pure no_error d2 _ s2),
        )
      ]

  -- On a database that stands for a map of jobs, `job_stopped` ends without an exception, with the
  -- error and the map of `spec_stopped`, whether or not the job is known or running: a running job
  -- becomes stopped, its runs are counted, its mean moves by the deviation of the runtime over the
  -- number of runs, and its sum of squared deviations grows by the product of the deviations from
  -- the mean before and the mean after.
  pub job_stopped-Refines :
      (now : ℕ) (name : String) (db : Database) (m : Jobs)
      → Stores db m
      → Refines (job_stopped now name db) (spec_stopped now name m)
  unfolding job_stopped spec_stopped
  job_stopped-Refines now name db m = Refines-change L _ name _ _ db m λ t row job r sh.
      elim (Bool-cases job.running) [
        | inr stops ↦ simp stops (
          some row,
          r,
          Returns-read L get_string name "status" _ (some row) db t _ "stopped" job_is_not_running
              sh (status_cell row job false r stops) (Returns-pure job_is_not_running db _ sh),
        )
        | inl runs ↦ simp runs (
          some _,
          finish_row now row job r,
          Returns-read L get_string name "status" _ (some row) db t _ "running" no_error sh
              (status_cell row job true r runs)
              (Returns-read L get_time name "start-time" _ (some row) db t _ _ no_error sh
                r.start_time
                (Returns-read L get_ulong name "nbr-runs" _ (some row) db t _ _ no_error sh
                  r.nbr_runs
                  (Returns-read L get_double name "avg-runtime" _ (some row) db t _ _ no_error sh
                    r.avg_runtime
                    (Returns-read L get_double name "var-runtime" _ (some row) db t _ _ no_error sh
                      r.var_runtime
                      (Returns-write L name "status" _ _ (some row) db t _ no_error sh λ d1 s1.
                        Returns-write L name "start-time" _ _ _ d1 t _ no_error s1 λ d2 s2.
                          Returns-write L name "avg-runtime" _ _ _ d2 t _ no_error s2 λ d3 s3.
                            Returns-write L name "var-runtime" _ _ _ d3 t _ no_error s3 λ d4 s4.
                              Returns-write L name "nbr-runs" _ _ _ d4 t _ no_error s4 λ d5 s5.
                                Returns-save _ d5 _ _ no_error s5
                                  λ d6 s6. Returns-pure no_error d6 _ s6))))),
        )
      ]

  -- On a database that stands for a map of jobs, `job_incr_start_requests` ends without an
  -- exception, with the error and the map of `spec_incr`: the count of a known job is one more, as
  -- a `signed int`.
  pub job_incr-Refines :
      (name : String) (db : Database) (m : Jobs)
      → Stores db m
      → Refines (job_incr_start_requests name db) (spec_incr name m)
  unfolding job_incr_start_requests spec_incr
  job_incr-Refines name db m = Refines-change L _ name _ _ db m λ t row job r sh. (
    some _,
    pending_row (incr_int job.pending) row job r,
    Returns-read L get_int name "pending-start" _ (some row) db t _ _ no_error sh r.pending (
        Returns-write L name "pending-start" _ _ (some row) db t _ no_error sh
          λ d1 s1. Returns-pure no_error d1 _ s1),
  )

  -- On a database that stands for a map of jobs, `job_clear_start_requests` ends without an
  -- exception, with the error and the map of `spec_clear`: a known job has no queued starts any
  -- more.
  pub job_clear-Refines :
      (name : String) (db : Database) (m : Jobs)
      → Stores db m
      → Refines (job_clear_start_requests name db) (spec_clear name m)
  unfolding job_clear_start_requests spec_clear
  job_clear-Refines name db m = Refines-change L _ name _ _ db m λ t row job r sh. (
    some _,
    pending_row (pos 0) row job r,
    Returns-write L name "pending-start" _ _ (some row) db t _ no_error sh
        λ d1 s1. Returns-pure no_error d1 _ s1,
  )

  -- On a database that stands for a map of jobs, `job_decr_start_requests` ends without an
  -- exception, with the value and the map of `spec_decr`: one queued start fewer and the number
  -- that is left, or -1 and no change where the job is unknown or none was queued.
  pub job_decr-Refines :
      (name : String) (db : Database) (m : Jobs)
      → Stores db m
      → Refines (job_decr_start_requests name db) (spec_decr name m)
  unfolding job_decr_start_requests spec_decr
  job_decr-Refines name db m = Refines-change L _ name _ _ db m λ t row job r sh.
      elim (Bool-cases (ltb_ℤ (pos 0) job.pending)) [
        | inl some_left ↦ rw some_left (
          some _,
          pending_row (job.pending -ℤ pos 1) row job r,
          Returns-read L get_int name "pending-start" _ (some row) db t _ _ _ sh r.pending (
              rw some_left (
                Returns-write L name "pending-start" _ _ (some row) db t _ _ sh
                  λ d1 s1. Returns-pure _ d1 _ s1)),
        )
        | inr none_left ↦ rw none_left (
          some row,
          r,
          Returns-read L get_int name "pending-start" _ (some row) db t _ _ _ sh r.pending
              (rw none_left (Returns-pure _ db _ sh)),
        )
      ]
