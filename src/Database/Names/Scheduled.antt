-- ===== src/Database/Names/Scheduled.antt =====
-- Which jobs `get_all_schedulable_jobs` lists.
use kiwibes.Prelude.{
  ◌≡◌, refl, sym, ap, subst, ◌∙◌, String, Option, none, some, List, [], ◌∷◌, ◌++◌, Bool, true,
  false, ◌&&◌, All, Bool-cases, inl, inr, arith, some_inj, any, ◌==◌, eq_iff,
}
use kiwibes.Exec.{Result, ok}
use kiwibes.Platform.{Platform}
use kiwibes.Platform.Laws.{PlatformLaws}
use kiwibes.Database.{Database}
use kiwibes.Database.Names.{schedule_of, get_all_schedulable_jobs}
use kiwibes.Database.Names.Listing.{keys_of, any-keys}
use kiwibes.Database.Names.Schedulable.{
  is_schedulable, is_schedulable_job, spec_schedulable, get_all_schedulable_jobs_lem,
}
use kiwibes.Database.Table.{Row, row_of, cell}
use kiwibes.Database.Spec.{Job, Jobs, Stores, RowHolds}
use kiwibes.Database.Loading.Resets.{Items}
use kiwibes.Database.Loading.Entries.{Stores-HasSchedule}

module _ ⦃P : Platform⦄ where
  open P use {Json, items, member, get_string}

  abbrev pub is_scheduled : Option Job → Bool
  is_scheduled none = false
  is_scheduled (some job) = is_schedulable job.schedule

  -- The entries with this key have the value that the key finds.
  abbrev AllOf : String → Option Json → Items → Type 0
  AllOf name o l = All (λ e. e.0 ≡ some name → o ≡ some e.1) l

  abbrev wanted : Option Json → Bool
  wanted none = false
  wanted (some v) = is_schedulable_job v

  any-spec_schedulable :
      (name : String) (o : Option Json) (l : Items)
      → AllOf name o l
      → any (λ k. k == name) (spec_schedulable l) ≡ (any (λ k. k == name) (keys_of l) && wanted o)
  any-spec_schedulable name o [] h = refl
  any-spec_schedulable name o ((none, v) ∷ l) h = any-spec_schedulable name o l h.1
  any-spec_schedulable name o ((some k, v) ∷ l) h =
      let rest = any-spec_schedulable name o l h.1 in
      elim (Bool-cases (k == name)) [
        | inl e ↦
            let known = h.0 (ap some ((eq_iff k name).0 e)) in
            elim (Bool-cases (is_schedulable_job v)) [
              | inl y ↦ ground (arith, e, y, ap wanted known)
              | inr n ↦ ground (arith, e, n, ap wanted known, rest)
            ]
        | inr e ↦ elim (Bool-cases (is_schedulable_job v)) [
          | inl y ↦ ground (arith, e, y, rest)
          | inr n ↦ ground (arith, e, n, rest)
        ]
      ]

  scheduled_of_row :
      (o : Option Json) (t : Option Row) (job : Option Job)
      → row_of o ≡ t
      → RowHolds t job
      → ((elim o [ none ↦ false | some v ↦ true ]) && wanted o) ≡ is_scheduled job
  unfolding schedule_of
  scheduled_of_row none none none e h = refl
  scheduled_of_row (some v) (some row) (some job) e h =
      let same = some_inj e in
      rw
        (
          is_schedulable_job,
          schedule_of,
          subst (λ r. cell get_string "schedule" r ≡ some job.schedule) (sym same) h.schedule,
        )
        refl
  scheduled_of_row none (some row) job e h = absurd cc
  scheduled_of_row (some v) none job e h = absurd cc
  scheduled_of_row none none (some job) e h = elim h [ ]
  scheduled_of_row (some v) (some row) none e h = elim h [ ]

  all_of :
      (name : String) (v : Json) (l : Items)
      → All (λ e. (k : String) → e.0 ≡ some k → member v k ≡ some e.1) l
      → AllOf name (member v name) l
  all_of name v [] h = tt
  all_of name v (e ∷ l) h = ((λ is. h.0 name is), all_of name v l h.1)

  -- The result appends some names, which are those of the known jobs whose schedule is valid and not
  -- empty.
  pub record Schedules (names : List String) (db : Database) (m : Jobs)
      (r : Result (List String) × Database) : Type 0 where
    pub appended : List String
    pub result : r ≡ (ok (names ++ appended), db)
    pub exact : (name : String) → any (λ k. k == name) appended ≡ is_scheduled (m name)

  -- On a database that stands for a map of jobs, `get_all_schedulable_jobs` ends without an
  -- exception, leaves the database, and appends to the given list names which are those of exactly
  -- the known jobs whose schedule is valid and not empty.
  pub get_all_schedulable_jobs-Schedules :
      (L : PlatformLaws P) (names : List String) (db : Database) (m : Jobs)
      → Stores db m
      → Schedules names db m (get_all_schedulable_jobs names db)
  get_all_schedulable_jobs-Schedules L names db m s = record {
    appended = spec_schedulable (items db.jobs);
    result = get_all_schedulable_jobs_lem L names db s.shows.root (Stores-HasSchedule L db m s);
    exact = λ name.
        any-spec_schedulable name (member db.jobs name) (items db.jobs)
          (all_of name db.jobs (items db.jobs) (L.items_found db.jobs s.shows.root))
        ∙ ap (λ b. b && wanted (member db.jobs name))
            (any-keys name (items db.jobs) ∙ (rw (← L.member-items db.jobs name) refl))
        ∙ scheduled_of_row (member db.jobs name) (s.table name) (m name) (s.shows.shown name)
            (s.holds name);
  }
