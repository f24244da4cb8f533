-- ===== src/Manager/Refinement.antt =====
-- The manager implements its specification. Here: the rules, and the starts.
pub mod Ends
use kiwibes.Prelude.{
  ℕ, String, ◌≡◌, refl, sym, subst, ap, none, some, List, [], ◌∷◌, Bool, true, false, arith,
  if◌then◌else◌, Option-cases, Bool-cases, inl, inr, eq_refl,
}
use kiwibes.Prelude.Int.{pos, leb_ℤ, ltb_ℤ, ◌-ℤ◌}
use kiwibes.Errors.{no_error, job_name_unknown, process_launch_failed}
use kiwibes.Exec.{Exec, Result, ok, continue, ◌>>=◌, ◌>>◌, pure}
use kiwibes.Map
use kiwibes.Map.{Map, count-some, count_absent}
use kiwibes.Platform.{Platform}
use kiwibes.Platform.Laws.{PlatformLaws}
use kiwibes.Database.{Database}
use kiwibes.Database.Runs.{
  job_started, job_stopped, job_incr_start_requests, job_decr_start_requests,
}
use kiwibes.Database.Spec.{
  Job, Jobs, HoldsJob, Refines, spec_started, spec_stopped, spec_incr, spec_decr, with_pending,
}
use kiwibes.Database.Refinement.Starts.{
  job_started-Refines, job_stopped-Refines, job_incr-Refines, job_decr-Refines,
}
use kiwibes.Database.Refinement.Queries.{get_job_description-known, get_job_description-unknown}
use kiwibes.Manager.{
  Manager, Handle, Fork, failed, in_parent, in_child, Report, has_ended, name_of, on_database,
  add_active, launch_job_process, launch, start_known, start_job, restart, job_ended, reap, watch,
  invalid_handle,
}
use kiwibes.Manager.Spec.{
  System, Runs, Implements, with_jobs, spec_launch, launch_error, spec_start_job, spec_job_ended,
  spec_reap, spec_watch, spec_freed,
}

module _ ⦃P : Platform⦄ where
  open P use {Json, null, member, get_strings}

  pub Implements-pure :
      {A : Type 0} (a : A) (m : Manager) (s : System) → Runs m s → Implements (pure a m) (a, s)
  Implements-pure a m s r = record { result = refl; after = r }

  pub Implements-bind :
      {A B : Type 0} (x : Exec Manager A) (f : A → Exec Manager B) (m : Manager) (a : A)
      (s : System) (spec : B × System)
      → Implements (x m) (a, s)
      → ((m' : Manager) → Runs m' s → Implements (f a m') spec)
      → Implements ((x >>= f) m) spec
  Implements-bind {A} {B} x f m a s spec h k =
      subst (λ (r : Result A). Implements (continue r f (x m).1) spec) (sym h.result)
        (k (x m).1 h.after)

  pub Implements-database :
      {A : Type 0} (f : Exec Database A) (m : Manager) (s : System) (spec : A × Jobs)
      → Runs m s
      → Refines (f m.database) spec
      → Implements (on_database f m) (with_jobs s spec)
  Implements-database f m s spec r h = record {
    result = h.result;
    after = record { active = r.active; stored = h.stored };
  }

  pub launch-in_child :
      (value : Json) (job : Job) (m : Manager)
      → HoldsJob (member value) job
      → launch_job_process value in_child m ≡ (ok invalid_handle, m)
  unfolding launch_job_process
  launch-in_child value job m h = ground (arith, h.program)

  launched :
      (L : PlatformLaws P) (name : String) (handle : Handle) (now : ℕ) (m : Manager) (s : System)
      → Runs m s
      → Implements
          ((add_active name handle >> (on_database (job_started now name) >> pure true)) m)
          (
            true,
            record {
              active = Map.insert name handle s.active;
              jobs = (spec_started now name s.jobs).1;
            },
          )
  launched L name handle now m s r =
      let added : System = record s { active = Map.insert name handle s.active } in
      Implements-bind (on_database (job_started now name)) (λ _. pure true)
        (record m { active_jobs = Map.insert name handle m.active_jobs })
        (spec_started now name s.jobs).0 (record added { jobs = (spec_started now name s.jobs).1 })
        _
        (Implements-database (job_started now name) _ added (spec_started now name s.jobs)
          (record { active = ap (Map.insert name handle) r.active; stored = r.stored })
          (job_started-Refines L now name m.database s.jobs r.stored))
        (λ m' r'. Implements-pure true m' _ r')

  pub Implements-launch :
      (L : PlatformLaws P) (name : String) (value : Json) (job : Job) (fork : Fork) (now : ℕ)
      (m : Manager) (s : System)
      → Runs m s
      → HoldsJob (member value) job
      → Implements (launch name value fork now m) (spec_launch name fork now s)
  unfolding launch
  Implements-launch L name value job failed now m s r h =
      unfold launch_job_process in Implements-pure false m s r
  Implements-launch L name value job in_child now m s r h =
      rw (launch-in_child value job m h) (Implements-pure false m s r)
  Implements-launch L name value job (in_parent pid) now m s r h =
      unfold launch_job_process in launched L name (pos pid) now m s r

  launch_error-if : (b : Bool) → (if b then no_error else process_launch_failed) ≡ launch_error b
  launch_error-if true = refl
  launch_error-if false = refl

  start_known-Implements :
      (L : PlatformLaws P) (name : String) (fork : Fork) (now : ℕ) (m : Manager) (s : System)
      (job : Job)
      → Runs m s
      → s.jobs name ≡ some job
      → Implements
          (start_known name fork now m)
          (launch_error (spec_launch name fork now s).0, (spec_launch name fork now s).1)
  unfolding start_known
  start_known-Implements L name fork now m s job r e =
      let d = get_job_description-known name null m.database s.jobs job r.stored e in
      rw d.found (
        Implements-bind (launch name d.value fork now) _ m (spec_launch name fork now s).0
          (spec_launch name fork now s).1 _
          (Implements-launch L name d.value job fork now m s r d.holds)
          (λ m' r'.
            rw (launch_error-if (spec_launch name fork now s).0) (Implements-pure _ m' _ r')))

  start_known-unknown :
      (name : String) (fork : Fork) (now : ℕ) (m : Manager) (s : System)
      → Runs m s
      → s.jobs name ≡ none
      → start_known name fork now m ≡ (ok job_name_unknown, m)
  unfolding start_known
  start_known-unknown name fork now m s r e =
      rw (get_job_description-unknown name null m.database s.jobs r.stored e)

  -- `start_job`, on a manager that runs an abstract system (its active jobs, and a database that
  -- stands for a map of jobs) and with any result of `fork`, ends without an exception, with the
  -- error code of `spec_start_job`, in a manager that runs the system of `spec_start_job`: an
  -- active job has one more queued start, an unknown one is refused, and a known one is recorded as
  -- active and running unless its launch fails.
  pub start_job-Implements :
      (L : PlatformLaws P) (name : String) (fork : Fork) (now : ℕ) (m : Manager) (s : System)
      → Runs m s
      → Implements (start_job name fork now m) (spec_start_job name fork now s)
  unfolding start_job spec_start_job
  start_job-Implements L name fork now m s r = elim (Option-cases (Map.find name s.active)) [
    | inr (handle, e) ↦
        let busy : Map.count name m.active_jobs ≡ 1 =
          rw r.active (count-some name handle s.active e) in
        rw (busy, e, spec_start_job)
          (Implements-database (job_incr_start_requests name) m s (spec_incr name s.jobs) r
            (job_incr-Refines L name m.database s.jobs r.stored))
    | inl e ↦
        let idle : Map.count name m.active_jobs ≡ 0 = rw r.active (count_absent name s.active e) in
        rw (idle, e, spec_start_job)
          (elim (Option-cases (s.jobs name)) [
            | inl u ↦
                rw (start_known-unknown name fork now m s r u, u, spec_start_job)
                  (Implements-pure job_name_unknown m s r)
            | inr (job, k) ↦
                rw (k, spec_start_job) (start_known-Implements L name fork now m s job r k)
          ])
  ]
