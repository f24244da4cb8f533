-- ===== src/Interleaving/Alone/Operations.antt =====
-- Without other threads the operations in steps are those of the manager.
use kiwibes.Prelude.{
  ℕ, String, ◌≡◌, ◌∙◌, none, some, List, [], ◌∷◌, Bool, true, false, if◌then◌else◌, eqb, Option,
}
use kiwibes.Prelude.Int.{ℤ, pos, leb_ℤ, eq_ℤ}
use kiwibes.Errors.{KiwibesError, no_error, process_launch_failed, is_ok}
use kiwibes.Exec.{Exec, Result, ok, throws, continue}
use kiwibes.Exec
use kiwibes.Map
use kiwibes.Platform.{Platform}
use kiwibes.Manager
use kiwibes.Database.Runs.{
  job_started, job_stopped, job_incr_start_requests, job_decr_start_requests,
}
use kiwibes.Database.Names.{get_job_description}
use kiwibes.Manager.{
  Handle, invalid_handle, add_active, erase_active, Manager, Fork, Report, name_of, has_ended,
  on_database, launch_job_process,
}
use kiwibes.Interleaving.{ends, atomic, alone}
use kiwibes.Interleaving.Operations
use kiwibes.Interleaving.Alone.{
  alone-bind, follow, follow-atomic, alone-ends, alone-atomic, alone-if,
}

module _ ⦃P : Platform⦄ where
  open P use {Json, null}

  abbrev record_launch : String → ℕ → Handle → Exec Manager Bool
  record_launch name now handle =
      if eq_ℤ handle invalid_handle
      then Exec.pure false
      else (Exec.◌>>◌ (add_active name handle)
          (Exec.◌>>◌ (on_database (job_started now name)) (Exec.pure true)))

  alone-record_launch :
      (name : String) (now : ℕ) (handle : Handle) (m : Manager)
      → alone (Operations.record_launch name now handle) m ≡ record_launch name now handle m
  unfolding Operations.record_launch
  alone-record_launch name now handle m =
      alone-if (eq_ℤ handle invalid_handle) _ _ _ _ _ (alone-ends false m) (
        follow-atomic (add_active name handle) _
          (λ _. Exec.◌>>◌ (on_database (job_started now name)) (Exec.pure true)) m
          λ _.
            follow-atomic (on_database (job_started now name)) _ (λ _. Exec.pure true) _
              λ _. alone-ends true _)

  alone-launch :
      (name : String) (job : Json) (fork : Fork) (now : ℕ) (m : Manager)
      → alone (Operations.launch name job fork now) m ≡ Manager.launch name job fork now m
  unfolding Operations.launch Manager.launch
  alone-launch name job fork now m =
      follow-atomic (launch_job_process job fork) _ (record_launch name now) m
        λ h. alone-record_launch name now h _

  abbrev start_described : String → Fork → ℕ → KiwibesError × Json → Exec Manager KiwibesError
  start_described name fork now (error, job) =
      if is_ok error
      then Exec.◌>>=◌ (Manager.launch name job fork now)
          (λ started. Exec.pure (if started then no_error else process_launch_failed))
      else Exec.pure error

  alone-start_known :
      (name : String) (fork : Fork) (now : ℕ) (m : Manager)
      → alone (Operations.start_known name fork now) m ≡ Manager.start_known name fork now m
  unfolding Operations.start_known Manager.start_known
  alone-start_known name fork now m =
      follow-atomic (on_database (get_job_description null name)) _ (start_described name fork now)
        m
        λ d.
          alone-if (is_ok d.0) _ _ _ _ _
            (follow (Operations.launch name d.1 fork now) (Manager.launch name d.1 fork now) _
              (λ started. Exec.pure (if started then no_error else process_launch_failed)) _
              (alone-launch name d.1 fork now _) λ started. alone-ends _ _)
            (alone-ends d.0 _)

  abbrev restart_described : String → Fork → ℕ → KiwibesError × Json → Exec Manager Unit
  restart_described name fork now (error, job) =
      if is_ok error
      then Exec.◌>>◌ (Manager.launch name job fork now) (Exec.pure tt)
      else Exec.pure tt

  alone-restart :
      (name : String) (fork : Fork) (now : ℕ) (m : Manager)
      → alone (Operations.restart name fork now) m ≡ Manager.restart name fork now m
  unfolding Operations.restart Manager.restart
  alone-restart name fork now m =
      follow-atomic (on_database (get_job_description null name)) _
        (restart_described name fork now) m
        λ d.
          alone-if (is_ok d.0) _ _ _ _ _
            (follow (Operations.launch name d.1 fork now) (Manager.launch name d.1 fork now) _
              (λ _. Exec.pure tt) _ (alone-launch name d.1 fork now _) λ _. alone-ends tt _)
            (alone-ends tt _)

  abbrev run_queued : String → Report → ℤ → Exec Manager Unit
  run_queued name r left =
      if leb_ℤ (pos 0) left then Manager.restart name r.fork r.started_at else Exec.pure tt

  alone-job_ended :
      (name : String) (r : Report) (m : Manager)
      → alone (Operations.job_ended name r) m ≡ Manager.job_ended name r m
  unfolding Operations.job_ended Manager.job_ended
  alone-job_ended name r m =
      follow-atomic (on_database (job_stopped r.stopped_at name)) _
        (λ _.
          Exec.◌>>◌ (erase_active name)
            (Exec.◌>>=◌ (on_database (job_decr_start_requests name)) (run_queued name r)))
        m
        λ _.
          follow-atomic (erase_active name) _
            (λ _. Exec.◌>>=◌ (on_database (job_decr_start_requests name)) (run_queued name r)) _
            λ _.
              follow-atomic (on_database (job_decr_start_requests name)) _ (run_queued name r) _
                λ left.
                  alone-if (leb_ℤ (pos 0) left) _ _ _ _ _ (alone-restart name r.fork r.started_at _)
                    (alone-ends tt _)

  alone-reap_found :
      (r : Report) (name : String) (m : Manager)
      → alone (Operations.reap_found r (some name)) m
        ≡ (if has_ended r.status then Manager.job_ended name r m else Exec.pure tt m)
  unfolding Operations.reap_found
  alone-reap_found r name m =
      elim (has_ended r.status)
        as (λ b.
          alone (if b then Operations.job_ended name r else ends tt) m
          ≡ (if b then Manager.job_ended name r m else Exec.pure tt m)) [
            | true ↦ alone-job_ended name r m
            | false ↦ alone-ends tt m
          ]

  alone-reap : (r : Report) (m : Manager) → alone (Operations.reap r) m ≡ Manager.reap r m
  unfolding Operations.reap Manager.reap alone
  alone-reap r m =
      alone-bind (atomic (λ m. (ok (name_of r.pid m.active_jobs), m))) (Operations.reap_found r) m
      ∙ go (name_of r.pid m.active_jobs)
    where
      go :
          (found : Option String)
          → alone (Operations.reap_found r found) m
            ≡ elim found as (λ _. Result (Unit {0}) × Manager) [
              | none ↦ Exec.pure tt m
              | some name ↦
                  if has_ended r.status then Manager.job_ended name r m else Exec.pure tt m
            ]
      go none = unfold Operations.reap_found in alone-ends tt m
      go (some name) = alone-reap_found r name m

  -- `start_job`, `stop_job` and a turn of the watcher thread, cut into their calls of the database,
  -- do what they do as one step if no other thread comes between the calls.
  pub alone-start_job :
      (name : String) (fork : Fork) (now : ℕ) (m : Manager)
      → alone (Operations.start_job name fork now) m ≡ Manager.start_job name fork now m
  unfolding Operations.start_job Manager.start_job
  alone-start_job name fork now m =
      follow-atomic _ _
        (λ active.
          if eqb active 1
          then on_database (job_incr_start_requests name)
          else Manager.start_known name fork now)
        m
        λ active.
          alone-if (eqb active 1) _ _ _ _ _
            (alone-atomic (on_database (job_incr_start_requests name)) _)
            (alone-start_known name fork now _)

  pub alone-stop_job :
      (name : String) (m : Manager) → alone (Operations.stop_job name) m ≡ Manager.stop_job name m
  unfolding Operations.stop_job Manager.stop_job
  alone-stop_job name m =
      follow-atomic (on_database (get_job_description null name)) _
        (λ d. if is_ok d.0 then Manager.kill_found (Map.find name m.active_jobs) else Exec.pure d.0)
        m λ d. alone-if (is_ok d.0) _ _ _ _ _ (alone-atomic _ _) (alone-ends d.0 _)

  pub alone-watch :
      (rs : List Report) (m : Manager) → alone (Operations.watch rs) m ≡ Manager.watch rs m
  unfolding Operations.watch Manager.watch
  alone-watch [] m = alone-ends tt m
  alone-watch (r ∷ rs) m =
      follow (Operations.reap r) (Manager.reap r) _ (λ _. Manager.watch rs) m (alone-reap r m)
        λ _. alone-watch rs _
