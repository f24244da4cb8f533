-- ===== src/Server/Steps.antt =====
-- The steps of the server: requests, and turns of the threads of its components.
use kiwibes.Prelude.Int.{pos, leb_ℤ}
use kiwibes.Prelude.{
  ℕ, String, ◌≡◌, refl, sym, subst, Option, List, Bool, true, false, Option-cases, Bool-cases, inl,
  inr,
}
use kiwibes.Exec.{Exec, Exception, Result, ok, continue, ◌>>=◌, ◌>>◌, pure}
use kiwibes.Platform.{Platform, is_plain}
use kiwibes.Platform.Laws.{PlatformLaws}
use kiwibes.Authentication.{TokenFile}
use kiwibes.Authentication
use kiwibes.Manager.{Report, start_job, watch}
use kiwibes.Manager.Invariant.{IsManaged, start_job-IsManaged, watch-IsManaged}
use kiwibes.Scheduler
use kiwibes.Scheduler.{
  Event, EventType, Turn, start_event, stop_event, exit_event, load, top, Answers, finished,
  dangling, Scheduler, handle_event, pop_and_delete, turn_at, turn, unsafe_job_schedule,
  schedule_job,
}
use kiwibes.Scheduler.Scheduling.{schedule_job-adds}
use kiwibes.Rest.{Request, Response, Context, on_manager}
use kiwibes.Rest.Routes.{
  Route, Inputs, dispatch, start, stop, create, edit, delete, clear_pending, details, ping, write,
  clear, clear_all, read, keys, list, scheduled,
}
use kiwibes.Server.Rules.{Serves}
use kiwibes.Server.Handlers.{
  spec_schedule-keeps, Serves-start, Serves-stop, Serves-delete, Serves-clear_pending,
}
use kiwibes.Server.Queries.{Serves-get_job, Serves-jobs_list, Serves-scheduled_jobs}
use kiwibes.Server.Changes.{RefusesNumber, Serves-create, Serves-edit}
use kiwibes.Server.Calls.{Call, run, run-Serves}
use kiwibes.Server.Data.{
  Serves-write, Serves-clear, Serves-clear_all, Serves-read, Serves-keys, Serves-ping,
}

abbrev is_exit : EventType → Bool
is_exit exit_event = true
is_exit _ = false

-- Only the requests to create and to edit a job may end with an exception: that of `std::stol` on
-- the parameter max-runtime.
abbrev pub MayThrow : Route → Request → Exception → Type 0
MayThrow create req e = RefusesNumber req e
MayThrow edit req e = RefusesNumber req e
MayThrow _ req e = ⊥

module _ ⦃P : Platform⦄ where
  -- One step of the server: a whole request, one call of a request that other steps interrupt, or one
  -- turn of a thread.
  pub data Step : Context → Context → Type 0 where
    request :
        (route : Route) (req : Request) (i : Inputs) (res : Response) (c : Context)
        → is_plain req.capture ≡ true
        → Step c (dispatch route req i (record c { response = res })).1
    calls : (call : Call) (c : Context) → Step c (run call c).1
    watches : (rs : List Report) (c : Context) → Step c (on_manager (watch rs) c).1
    turns :
        (now : ℕ) (w : Answers) (c : Context) (r : Option (Result Bool)) (s : Scheduler)
        → turn now w c.scheduler ≡ finished (r, s)
        → Step c (record c { scheduler = s })
    reloads :
        (file : Option TokenFile) (c : Context)
        → Step c (record c { authentication = (Authentication.watch file c.authentication).1 })

  -- An event has been handled without an exception, and the manager's invariant holds.
  record Handles (b : Bool) (r : Result Bool × Scheduler) : Type 0 where
    result : r.0 ≡ ok b
    managed : IsManaged r.1.manager

  Handles-bind :
      {A : Type 0} {b : Bool} (x : Exec Scheduler A) (f : A → Exec Scheduler Bool) (s : Scheduler)
      (a : A)
      → (x s).0 ≡ ok a
      → Handles b (f a (x s).1)
      → Handles b ((x >>= f) s)
  Handles-bind {b = b} x f s a e h = subst (λ r. Handles b (continue r f (x s).1)) (sym e) h

  abbrev Keeps : Turn (Option (Result Bool) × Scheduler) → Type 0
  Keeps dangling = Unit
  Keeps (finished (r, s)) = IsManaged s.manager

  abbrev start_again : Answers → String → Exec Scheduler Bool
  start_again w name = do
    Scheduler.on_manager (start_job name w.fork w.started_at)
    unsafe_job_schedule w.later w.address name
    pure false

  -- Any number of steps.
  pub data Steps : Context → Context → Type 0 where
    done : (c : Context) → Steps c c
    next : {a b c : Context} → Step a b → Steps b c → Steps a c

  module _ (L : PlatformLaws P) where
    pub dispatch-Serves :
        (route : Route) (req : Request) (i : Inputs) (c : Context)
        → is_plain req.capture ≡ true
        → IsManaged c.scheduler.manager
        → Serves (MayThrow route req) (dispatch route req i c)
    unfolding dispatch
    dispatch-Serves start req i c plain h = Serves-start L req i.fork i.now c h
    dispatch-Serves stop req i c plain h = Serves-stop L req c h
    dispatch-Serves create req i c plain h = Serves-create L req i.now i.address c plain h
    dispatch-Serves edit req i c plain h = Serves-edit L req i.now i.address c h
    dispatch-Serves delete req i c plain h = Serves-delete L req c plain h
    dispatch-Serves clear_pending req i c plain h = Serves-clear_pending L req c h
    dispatch-Serves details req i c plain h = Serves-get_job L req c h
    dispatch-Serves ping req i c plain h = Serves-ping L req c h
    dispatch-Serves write req i c plain h = Serves-write L req c h
    dispatch-Serves clear req i c plain h = Serves-clear L req c h
    dispatch-Serves clear_all req i c plain h = Serves-clear_all L req c h
    dispatch-Serves read req i c plain h = Serves-read L req c h
    dispatch-Serves keys req i c plain h = Serves-keys L req c h
    dispatch-Serves list req i c plain h = Serves-jobs_list L req c h
    dispatch-Serves scheduled req i c plain h = Serves-scheduled_jobs L req c h

    start_event-IsManaged :
        (w : Answers) (name : String) (s : Scheduler)
        → IsManaged s.manager
        → Handles false (start_again w name s)
    unfolding schedule_job
    start_event-IsManaged w name s h =
        let ((e, started), kept) = start_job-IsManaged L name w.fork w.started_at s.manager h in
        let s1 = record s { manager = (start_job name w.fork w.started_at s.manager).1 } in
        let ((e', fine), same) =
          spec_schedule-keeps w.later w.address name (kept.system.jobs name) s1 in
        let added = schedule_job-adds w.later w.address name s1 kept.system.jobs kept.runs.stored in
        Handles-bind (Scheduler.on_manager (start_job name w.fork w.started_at))
          (λ _. schedule_job w.later w.address name >> pure false) s e started
          (Handles-bind (schedule_job w.later w.address name) (λ _. pure false) s1 e'
            (rw added fine)
            (record { result = refl; managed = subst IsManaged (sym (rw added same)) kept }))

    handle_event-IsManaged :
        (w : Answers) (e : Event) (s : Scheduler) (k : EventType)
        → e.kind ≡ k
        → IsManaged s.manager
        → Handles (is_exit k) (handle_event w e s)
    unfolding handle_event
    handle_event-IsManaged w e s start_event eq h = rw eq (start_event-IsManaged w e.job_name s h)
    handle_event-IsManaged w e s stop_event eq h = rw eq (record { result = refl; managed = h })
    handle_event-IsManaged w e s exit_event eq h = rw eq (record { result = refl; managed = h })

    turn-IsManaged :
        (now : ℕ) (w : Answers) (s : Scheduler) → IsManaged s.manager → Keeps (turn now w s)
    unfolding turn turn_at pop_and_delete
    turn-IsManaged now w s h = elim (Option-cases (top s.events)) [
      | inl none_left ↦ rw (none_left, turn) h
      | inr (a, on_top) ↦ elim (Option-cases (load a s.heap)) [
        | inl freed ↦ rw (on_top, freed, turn) tt
        | inr (e, there) ↦ elim (Bool-cases (leb_ℤ e.t0 (pos now))) [
          | inr early ↦ rw (on_top, there, early, turn) h
          | inl due ↦
              let k = handle_event-IsManaged w e s e.kind refl h in
              rw (on_top, there, due, turn)
                (Handles-bind (handle_event w e) (λ exit. pop_and_delete a >> pure exit) s
                  (is_exit e.kind) k.result (record { result = refl; managed = k.managed })).managed
        ]
      ]
    ]

    step-IsManaged :
        (c c' : Context)
        → Step c c'
        → IsManaged c.scheduler.manager
        → IsManaged c'.scheduler.manager
    step-IsManaged c _ (request route req i res _ plain) h =
        (dispatch-Serves route req i (record c { response = res }) plain h).managed
    step-IsManaged c _ (calls call _) h = (run-Serves L call c h).managed
    step-IsManaged c _ (watches rs _) h = (watch-IsManaged L rs c.scheduler.manager h).1
    step-IsManaged c _ (turns now w _ r s e) h = subst Keeps e (turn-IsManaged now w c.scheduler h)
    step-IsManaged c _ (reloads file _) h = h

    -- If a manager's database stands for a map of jobs and exactly the jobs that it calls running
    -- are active, then it stays so through any sequence of steps of the server: requests to any
    -- route whose captured name has no `/` and no `~`, single calls of `create_job` and `edit_job`
    -- with parameters that `read_job_parameters` has returned, of `delete_job` of such a name, of
    -- `schedule_job` and of `unschedule_job`, which are the calls that a handler makes one after
    -- the other, turns of the watcher thread of the manager, turns of the scheduler thread that
    -- read through no freed address, and turns of the watcher thread of the tokens.
    pub Steps-IsManaged :
        (c c' : Context)
        → IsManaged c.scheduler.manager
        → Steps c c'
        → IsManaged c'.scheduler.manager
    Steps-IsManaged c _ h (done _) = h
    Steps-IsManaged c c' h (next {b = b} s more) =
        Steps-IsManaged b c' (step-IsManaged c b s h) more
