-- ===== src/Main/Scheduling.antt =====
-- What the loop over the schedulable jobs leaves in the queue.
use kiwibes.Prelude.{
  ℕ, suc, ◌≡◌, refl, sym, ap, subst, ◌∙◌, String, Option, none, some, List, [], ◌∷◌, Bool, true,
  false, ◌||◌, All, Option-cases, Bool-cases, inl, inr, arith, any, ◌==◌, eq_refl,
}
use kiwibes.Errors.{no_error}
use kiwibes.Exec.{Result, ok}
use kiwibes.Cron
use kiwibes.Platform.{Platform}
use kiwibes.Database.Spec.{Job, Jobs, Stores}
use kiwibes.Database.Names.Scheduled.{is_scheduled, get_all_schedulable_jobs-Schedules}
use kiwibes.Scheduler.{
  Event, start_event, Heap, load, add_name, scheduled_names, Scheduler, start, schedule_job,
  get_all_scheduled_job_names,
}
use kiwibes.Scheduler.Ownership.{Owns, Owns-push, is_live, is_queued}
use kiwibes.Scheduler.Scheduling.{spec_schedule, with_start, schedule_job-adds}
use kiwibes.Platform.Laws.{PlatformLaws}
use kiwibes.Database.Names.{get_all_schedulable_jobs}
use kiwibes.Main.{Call, schedule_all, schedule_jobs}

-- The addresses for the new events are distinct, and free.
pub record Fresh (calls : ℕ → Call) (h : Heap) : Type 0 where
  pub apart : (i j : ℕ) → (calls i).address ≡ (calls j).address → i ≡ j
  pub free : (i : ℕ) → is_live (calls i).address h ≡ false

names_push :
    (a : ℕ) (e : Event) (h : Heap) (q : List ℕ)
    → is_queued a q ≡ false
    → scheduled_names ((a, e) ∷ h) q ≡ scheduled_names h q
unfolding scheduled_names load
names_push a e h [] fresh = refl
names_push a e h (b ∷ q) fresh = ground (arith, names_push a e h q)

load_pushed : (a : ℕ) (e : Event) (h : Heap) → load a ((a, e) ∷ h) ≡ some e
unfolding load
load_pushed a e h = ground arith

or_swap : (a b c : Bool) → (a || (b || c)) ≡ ((b || a) || c)
or_swap true true c = refl
or_swap true false c = refl
or_swap false true c = refl
or_swap false false c = refl

dead_none : (a : ℕ) (h : Heap) → is_live a h ≡ false → load a h ≡ none
dead_none a h d = elim (Option-cases (load a h)) [
  | inl e ↦ e
  | inr (e, l) ↦ absurd (ground (arith, l, d))
]

Fresh-push :
    (calls : ℕ → Call) (e : Event) (h : Heap)
    → Fresh calls h
    → Fresh (λ i. calls (suc i)) (((calls 0).address, e) ∷ h)
unfolding load
Fresh-push calls e h f = record {
  apart = λ i j same. let k = f.apart (suc i) (suc j) same in ground (arith, k);
  free = λ i. let k = f.apart 0 (suc i) in ground (arith, k, f.free (suc i));
}

module _ ⦃P : Platform⦄ where
  -- The call has ended with the value and has left the manager; the queue holds each event once, and
  -- has starts of these jobs beside those of before.
  pub record Queues {A : Type 0} (a : A) (names : List String) (before : Scheduler)
      (r : Result A × Scheduler) : Type 0 where
    pub result : r.0 ≡ ok a
    pub manager : r.1.manager ≡ before.manager
    pub owns : Owns r.1.events r.1.heap
    pub exact :
        (n : String)
        → any (λ k. k == n) (get_all_scheduled_job_names r.1)
          ≡ (any (λ k. k == n) names || any (λ k. k == n) (get_all_scheduled_job_names before))

  spec_schedule-scheduled :
      (now address : ℕ) (name : String) (o : Option Job) (s : Scheduler)
      → is_scheduled o ≡ true
      → (schedule : String) × (spec_schedule now address name o s
          ≡ (ok no_error, with_start now address name schedule s))
  unfolding spec_schedule
  spec_schedule-scheduled now address name none s h = absurd cc
  spec_schedule-scheduled now address name (some job) s h =
      elim (Bool-cases (Cron.is_valid (Cron.new job.schedule))) [
        | inl v ↦ (job.schedule, rw v refl)
        | inr i ↦ absurd (ground (arith, i, h))
      ]

  schedule_all_step :
      (calls : ℕ → Call) (name : String) (rest : List String) (s s1 : Scheduler)
      → schedule_job (calls 0).now (calls 0).address name s ≡ (ok no_error, s1)
      → schedule_all calls (name ∷ rest) s ≡ schedule_all (λ i. calls (suc i)) rest s1
  unfolding schedule_all
  schedule_all_step calls name rest s s1 e = rw e refl

  abbrev start_of : ℕ → String → String → Event
  start_of now name schedule = record {
    kind = start_event;
    t0 = Cron.next now (Cron.new schedule);
    job_name = name;
  }

  with_start-names :
      (now address : ℕ) (name schedule : String) (s : Scheduler)
      → Owns s.events s.heap
      → is_live address s.heap ≡ false
      → get_all_scheduled_job_names (with_start now address name schedule s)
        ≡ name ∷ get_all_scheduled_job_names s
  unfolding get_all_scheduled_job_names scheduled_names add_name load
  with_start-names now address name schedule s o fresh =
      let e = start_of now name schedule in
      rw (load_pushed address e s.heap)
        (ap (λ l. name ∷ l) (names_push address e s.heap s.events (sym (o.owned address) ∙ fresh)))

  schedule_all-Queues :
      (names : List String) (calls : ℕ → Call) (s : Scheduler) (jobs : Jobs)
      → Stores s.manager.database jobs
      → All (λ n. is_scheduled (jobs n) ≡ true) names
      → Owns s.events s.heap
      → Fresh calls s.heap
      → Queues tt names s (schedule_all calls names s)
  unfolding schedule_all
  schedule_all-Queues [] calls s jobs h all o f = record {
    result = refl;
    manager = refl;
    owns = o;
    exact = λ n. refl;
  }
  schedule_all-Queues (name ∷ rest) calls s jobs h all o f =
      let now = (calls 0).now in
      let address = (calls 0).address in
      let added = schedule_job-adds now address name s jobs h in
      let (schedule, is) = spec_schedule-scheduled now address name (jobs name) s all.0 in
      let s1 = with_start now address name schedule s in
      let e = start_of now name schedule in
      let more =
        schedule_all-Queues rest (λ i. calls (suc i)) s1 jobs h all.1
          (Owns-push address e s.events s.heap (dead_none address s.heap (f.free 0)) o)
          (Fresh-push calls e s.heap f) in
      let pushed = with_start-names now address name schedule s o (f.free 0) in
      subst (Queues tt (name ∷ rest) s) (sym (schedule_all_step calls name rest s s1 (added ∙ is)))
        (record {
          result = more.result;
          manager = more.manager;
          owns = more.owns;
          exact = λ n.
              more.exact n
              ∙ ap (λ l. any (λ k. k == n) rest || any (λ k. k == n) l) pushed
              ∙ or_swap (any (λ k. k == n) rest) (name == n)
                  (any (λ k. k == n) (get_all_scheduled_job_names s));
        })

  schedule_jobs_lem :
      (calls : ℕ → Call) (s : Scheduler) (names : List String)
      → get_all_schedulable_jobs [] s.manager.database ≡ (ok names, s.manager.database)
      → (schedule_all calls names (record s { is_running = true })).0 ≡ ok tt
      → schedule_jobs calls s
        ≡ (ok no_error, (schedule_all calls names (record s { is_running = true })).1)
  unfolding schedule_jobs start
  schedule_jobs_lem calls s names listed ended = rw (listed, ended) refl

  each_scheduled :
      (jobs : Jobs) (l : List String)
      → ((n : String) → any (λ k. k == n) l ≡ true → is_scheduled (jobs n) ≡ true)
      → All (λ n. is_scheduled (jobs n) ≡ true) l
  each_scheduled jobs [] h = tt
  each_scheduled jobs (n ∷ l) h =
      (h n (rw (eq_refl n) refl), each_scheduled jobs l λ m e. h m (ground (arith, e)))

  -- Where the database stands for a map of jobs, the start of the scheduler ends without an error, and
  -- the queue has starts of exactly the jobs whose schedule is valid and not empty.
  pub schedule_jobs-Queues :
      (L : PlatformLaws P) (calls : ℕ → Call) (s : Scheduler) (jobs : Jobs)
      → Stores s.manager.database jobs
      → Owns s.events s.heap
      → Fresh calls s.heap
      → (names : List String) × Queues no_error names s (schedule_jobs calls s)
        × ((n : String) → any (λ k. k == n) names ≡ is_scheduled (jobs n))
  unfolding get_all_scheduled_job_names
  schedule_jobs-Queues L calls s jobs h o f =
      let listed = get_all_schedulable_jobs-Schedules L [] s.manager.database jobs h in
      let all = each_scheduled jobs listed.appended λ n e. sym (listed.exact n) ∙ e in
      let queued =
        schedule_all-Queues listed.appended calls (record s { is_running = true }) jobs h all o f in
      (
        listed.appended,
        rw (schedule_jobs_lem calls s listed.appended listed.result queued.result) (record {
          result = refl;
          manager = queued.manager;
          owns = queued.owns;
          exact = queued.exact;
        }),
        listed.exact,
      )
