-- ===== src/Manager/Kills.antt =====
-- What the manager leaves as it is: the signals sent, and the flag that ends the watcher thread.
use kiwibes.Prelude.{
  Option, none, some, ◌++◌, if◌then◌else◌, ℕ, ◌≡◌, refl, String, List, [], ◌∷◌, Bool, true, false,
  eqb, Bool-cases, Option-cases, inl, inr,
}
use kiwibes.Prelude.Int.{pos, leb_ℤ, eq_ℤ}
use kiwibes.Errors.{KiwibesError, is_ok}
use kiwibes.Exec.{Result, ok, throws, continue, Exec, pure}
use kiwibes.Exec.Preserves.{Preserves, Preserves-pure, Preserves-bind, Preserves-if}
use kiwibes.Map
use kiwibes.Platform.{Platform}
use kiwibes.Database.{Database}
use kiwibes.Database.Runs.{
  job_started, job_stopped, job_incr_start_requests, job_decr_start_requests,
}
use kiwibes.Database.Names.{get_job_description}
use kiwibes.Manager.{
  stop_job, kill_found, Manager, Handle, invalid_handle, Fork, failed, in_parent, in_child, Report,
  name_of, has_ended, on_database, launch_job_process, add_active, erase_active, launch,
  start_known, start_job, restart, job_ended, reap, watch,
}

module _ ⦃P : Platform⦄ where
  open P use {Json, null, member, get_strings}

  -- The signals that have been sent, and the flag of the watcher thread.
  abbrev pub signals : Manager → List Handle × Bool
  signals m = (m.killed, m.watcher_exit)

  database-Preserves : {A : Type 0} (f : Exec Database A) → Preserves signals (on_database f)
  database-Preserves f = record { at = λ m. refl }

  launched_at :
      (job : Json) (fork : Fork) (m : Manager)
      → signals (launch_job_process job fork m).1 ≡ signals m
  unfolding launch_job_process
  launched_at job failed m = refl
  launched_at job (in_parent pid) m = refl
  launched_at job in_child m = elim (Option-cases (member job "program")) [
    | inl e ↦ rw (e, launch_job_process) refl
    | inr (program, e) ↦ elim (Option-cases (get_strings program)) [
      | inl n ↦ rw (e, n, launch_job_process) refl
      | inr (arguments, y) ↦ rw (e, y, launch_job_process) refl
    ]
  ]

  launch-Preserves :
      (name : String) (job : Json) (fork : Fork) (now : ℕ)
      → Preserves signals (launch name job fork now)
  unfolding launch
  launch-Preserves name job fork now =
      Preserves-bind (launch_job_process job fork) _ (record { at = launched_at job fork })
        λ handle. Preserves-if (eq_ℤ handle invalid_handle) (pure false) _ (Preserves-pure false) (
          Preserves-bind (add_active name handle) _ (record { at = λ m. refl })
            λ _.
              Preserves-bind (on_database (job_started now name)) (λ _. pure true)
                (database-Preserves (job_started now name)) λ _. Preserves-pure true)

  start_known-Preserves :
      (name : String) (fork : Fork) (now : ℕ) → Preserves signals (start_known name fork now)
  unfolding start_known
  start_known-Preserves name fork now =
      Preserves-bind (on_database (get_job_description null name)) _
        (database-Preserves (get_job_description null name))
        λ found.
          Preserves-if (is_ok found.0) _ (pure found.0)
            (Preserves-bind (launch name found.1 fork now) _
              (launch-Preserves name found.1 fork now) λ started. Preserves-pure _)
            (Preserves-pure found.0)

  -- A start sends no signal.
  pub start_job-Preserves :
      (name : String) (fork : Fork) (now : ℕ) → Preserves signals (start_job name fork now)
  unfolding start_job
  start_job-Preserves name fork now = record {
    at = λ m.
        (Preserves-if (eqb (Map.count name m.active_jobs) 1)
            (on_database (job_incr_start_requests name)) (start_known name fork now)
            (database-Preserves (job_incr_start_requests name))
            (start_known-Preserves name fork now)).at
          m;
  }

  restart-Preserves :
      (name : String) (fork : Fork) (now : ℕ) → Preserves signals (restart name fork now)
  unfolding restart
  restart-Preserves name fork now =
      Preserves-bind (on_database (get_job_description null name)) _
        (database-Preserves (get_job_description null name))
        λ found.
          Preserves-if (is_ok found.0) _ (pure tt)
            (Preserves-bind (launch name found.1 fork now) (λ _. pure tt)
              (launch-Preserves name found.1 fork now) λ _. Preserves-pure tt)
            (Preserves-pure tt)

  job_ended-Preserves : (name : String) (r : Report) → Preserves signals (job_ended name r)
  unfolding job_ended
  job_ended-Preserves name r =
      Preserves-bind (on_database (job_stopped r.stopped_at name)) _
        (database-Preserves (job_stopped r.stopped_at name))
        λ _.
          Preserves-bind (erase_active name) _ (record { at = λ m. refl })
            λ _.
              Preserves-bind (on_database (job_decr_start_requests name)) _
                (database-Preserves (job_decr_start_requests name))
                λ left.
                  Preserves-if (leb_ℤ (pos 0) left) (restart name r.fork r.started_at) (pure tt)
                    (restart-Preserves name r.fork r.started_at) (Preserves-pure tt)

  reap_at : (r : Report) (m : Manager) → signals (reap r m).1 ≡ signals m
  unfolding reap
  reap_at r m = elim (Option-cases (name_of r.pid m.active_jobs)) [
    | inl e ↦ rw (e, reap) refl
    | inr (name, e) ↦ elim (Bool-cases (has_ended r.status)) [
      | inl ended ↦ rw (e, ended, reap) ((job_ended-Preserves name r).at m)
      | inr stays ↦ rw (e, stays, reap) refl
    ]
  ]

  -- A turn of the watcher thread sends no signal.
  pub watch-Preserves : (rs : List Report) → Preserves signals (watch rs)
  unfolding watch
  watch-Preserves [] = Preserves-pure tt
  watch-Preserves (r ∷ rs) =
      Preserves-bind (reap r) (λ _. watch rs) (record { at = reap_at r }) λ _. watch-Preserves rs

  -- The signals after a stop of the job: no new one, or one to the process active under the name.
  pub data Sends (name : String) (m : Manager) : List Handle → Type 0 where
    no_signal : Sends name m m.killed
    one_signal :
        (handle : Handle)
        → Map.find name m.active_jobs ≡ some handle
        → Sends name m (m.killed ++ handle ∷ [])

  answered-Sends :
      (name : String) (m : Manager) (db : Database) (error : KiwibesError) (known : Bool)
      (o : Option Handle)
      → Map.find name m.active_jobs ≡ o
      → Sends name m
          ((if known then kill_found o else pure error) (record m { database = db })).1.killed
  unfolding kill_found
  answered-Sends name m db error false o e = no_signal
  answered-Sends name m db error true none e = no_signal
  answered-Sends name m db error true (some handle) e = one_signal handle e

  described-Sends :
      (name : String) (m : Manager) (db : Database) (r : Result (KiwibesError × Json))
      → Sends name m
          (continue r
            (λ found.
              if is_ok found.0 then kill_found (Map.find name m.active_jobs) else pure found.0)
            (record m { database = db })).1.killed
  described-Sends name m db (throws e) = no_signal
  described-Sends name m db (ok (error, job)) =
      answered-Sends name m db error (is_ok error) (Map.find name m.active_jobs) refl

  pub stop_job-Sends : (name : String) (m : Manager) → Sends name m (stop_job name m).1.killed
  unfolding stop_job
  stop_job-Sends name m =
      let r = get_job_description null name m.database in described-Sends name m r.1 r.0
