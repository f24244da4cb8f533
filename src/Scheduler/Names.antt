-- ===== src/Scheduler/Names.antt =====
-- The names of the scheduled jobs, when a job is unscheduled.
use kiwibes.Prelude.{
  ℕ, String, ◌≡◌, refl, ap, Option, none, some, List, [], ◌∷◌, true, if◌then◌else◌, eqb, any, ◌==◌,
  eq_iff, arith, All, Bool-cases, inl, inr,
}
use kiwibes.Platform.{Platform}
use kiwibes.Scheduler.Ownership.{Owns}
use kiwibes.Scheduler.{
  Event, Heap, load, Scheduler, cancel, unschedule_heap, unschedule_job, scheduled_names,
  get_all_scheduled_job_names, add_name,
}

-- The list without a name.
unfoldable pub without : String → List String → List String
without name [] = []
without name (n ∷ l) = let rest = without name l in if name == n then rest else n ∷ rest

cancelled : String → Option Event → Option Event
cancelled name none = none
cancelled name (some e) = some (cancel name e)

any_same : (a b : ℕ) (q : List ℕ) → eqb b a ≡ true → any (eqb b) q ≡ any (eqb a) q
any_same a b q e = let same : b ≡ a = ground arith in ap (λ c. any (eqb c) q) same

load-unschedule_heap :
    (name : String) (q : List ℕ) (h : Heap) (a : ℕ)
    → any (eqb a) q ≡ true
    → load a (unschedule_heap name q h) ≡ cancelled name (load a h)
unfolding load unschedule_heap cancelled
load-unschedule_heap name q [] a e = refl
load-unschedule_heap name q ((b, x) ∷ h) a e = elim (Bool-cases (eqb b a)) [
  | inl same ↦ ground (arith, any_same a b q same, e)
  | inr other ↦ rw other (load-unschedule_heap name q h a e)
]

without-start :
    (name : String) (o : Option Event) (rest : List String)
    → add_name (cancelled name o) (without name rest) ≡ without name (add_name o rest)
unfolding cancelled without add_name
without-start name none rest = refl
without-start name (some e) rest = ground (arith, eq_iff name e.job_name)

-- Every queued address of the list is queued.
names_of :
    (name : String) (q r : List ℕ) (h : Heap)
    → All (λ a. any (eqb a) q ≡ true) r
    → scheduled_names (unschedule_heap name q h) r ≡ without name (scheduled_names h r)
unfolding scheduled_names without
names_of name q [] h all = refl
names_of name q (a ∷ r) h all =
    rw (load-unschedule_heap name q h a all.0, names_of name q r h all.1)
      (without-start name (load a h) (scheduled_names h r))

All-queued_cons :
    (b : ℕ) (q r : List ℕ)
    → All (λ a. any (eqb a) q ≡ true) r
    → All (λ a. any (eqb a) (b ∷ q) ≡ true) r
All-queued_cons b q [] h = tt
All-queued_cons b q (a ∷ r) h = (ground (arith, h.0), All-queued_cons b q r h.1)

All-queued : (q : List ℕ) → All (λ a. any (eqb a) q ≡ true) q
All-queued [] = tt
All-queued (b ∷ q) = (ground arith, All-queued_cons b q q (All-queued q))

module _ ⦃P : Platform⦄ where
  -- If the queue holds each allocated event once, then after `unschedule_job` the names of the
  -- scheduled jobs are those of before without the job's, in the order of before, however often the
  -- job was scheduled.
  pub unschedule_job-names :
      (name : String) (s : Scheduler)
      → Owns s.events s.heap
      → get_all_scheduled_job_names (unschedule_job name s).1
        ≡ without name (get_all_scheduled_job_names s)
  unfolding unschedule_job get_all_scheduled_job_names
  unschedule_job-names name s o = names_of name s.events s.events s.heap (All-queued s.events)
