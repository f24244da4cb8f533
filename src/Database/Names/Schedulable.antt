-- ===== src/Database/Names/Schedulable.antt =====
-- `get_all_schedulable_jobs` of kiwibes_database.cpp.
use Prim.Native.String.{len}
use kiwibes.Prelude.{
  ◌≡◌, refl, sym, ap, ◌∙◌, String, Option, none, some, List, [], ◌∷◌, ◌++◌, Bool, true, false, ◌&&◌,
  if◌then◌else◌, ltb, All, Bool-cases, inl, inr, append_nil, append_cons,
}
use kiwibes.Exec.{ok}
use kiwibes.Platform.{Platform}
use kiwibes.Platform.Laws.{PlatformLaws}
use kiwibes.Cron
use kiwibes.Database.{Database}
use kiwibes.Database.Names.Listing.{IsKeyed}
use kiwibes.Database.Names.{schedule_of, push_back, schedulable, get_all_schedulable_jobs}

module _ ⦃P : Platform⦄ where
  open P use {Json, items, is_map}

  abbrev pub is_schedulable : String → Bool
  is_schedulable schedule = ltb 0 (len schedule) && Cron.is_valid (Cron.new schedule)

  -- The job has a text as its schedule.
  abbrev pub HasSchedule : Option String × Json → Type 0
  HasSchedule (key, job) = (schedule : String) × (schedule_of job ≡ some schedule)

  -- The job has a text as its schedule, which is valid and not empty.
  abbrev pub is_schedulable_job : Json → Bool
  is_schedulable_job job = elim (schedule_of job) [
    | none ↦ false
    | some schedule ↦ is_schedulable schedule
  ]

  -- The keys of these jobs, in the order of the object.
  abbrev pub spec_schedulable : List (Option String × Json) → List String
  spec_schedulable [] = []
  spec_schedulable ((none, job) ∷ l) = spec_schedulable l
  spec_schedulable ((some k, job) ∷ l) =
      let rest = spec_schedulable l in if is_schedulable_job job then k ∷ rest else rest

  schedulable_text :
      (job : Json) (s : String)
      → schedule_of job ≡ some s
      → is_schedulable_job job ≡ is_schedulable s
  schedulable_text job s e = rw (is_schedulable_job, e) refl

  schedulable_step :
      (k : String) (job : Json) (l : List (Option String × Json)) (names : List String)
      (db : Database) (s : String)
      → schedule_of job ≡ some s
      → schedulable l (names ++ k ∷ []) db ≡ (ok ((names ++ k ∷ []) ++ spec_schedulable l), db)
      → schedulable l names db ≡ (ok (names ++ spec_schedulable l), db)
      → schedulable ((some k, job) ∷ l) names db ≡ (
        ok (names ++ (if is_schedulable s then k ∷ spec_schedulable l else spec_schedulable l)),
        db,
      )
  unfolding schedulable push_back
  schedulable_step k job l names db s e longer same = elim (Bool-cases (is_schedulable s)) [
    | inl v ↦ rw (e, v) (longer ∙ ap (λ t. (ok t, db)) (append_cons names (spec_schedulable l) k))
    | inr i ↦ rw (e, i) same
  ]

  schedulable_lem :
      (l : List (Option String × Json)) (names : List String) (db : Database)
      → All IsKeyed l
      → All HasSchedule l
      → schedulable l names db ≡ (ok (names ++ spec_schedulable l), db)
  unfolding schedulable push_back
  schedulable_lem [] names db ks ss = ap (λ t. (ok t, db)) (sym (append_nil names))
  schedulable_lem ((none, job) ∷ l) names db ((k, e), ks) ss = cc
  schedulable_lem ((some k, job) ∷ l) names db (key, ks) ((s, is_s), ss) =
      schedulable_step k job l names db s is_s (schedulable_lem l (names ++ k ∷ []) db ks ss)
        (schedulable_lem l names db ks ss)
      ∙ ap (λ b. (ok (names ++ (if b then k ∷ spec_schedulable l else spec_schedulable l)), db))
          (sym (schedulable_text job s is_s))

  -- Where every job of an object has a text as its schedule, `get_all_schedulable_jobs` ends
  -- without an exception, leaves the database, and appends to the given list the keys of the jobs
  -- whose schedule is valid and not empty, in their order, as a filter over the items does.
  pub get_all_schedulable_jobs_lem :
      (L : PlatformLaws P) (names : List String) (db : Database)
      → is_map db.jobs ≡ true
      → All HasSchedule (items db.jobs)
      → get_all_schedulable_jobs names db ≡ (ok (names ++ spec_schedulable (items db.jobs)), db)
  unfolding get_all_schedulable_jobs
  get_all_schedulable_jobs_lem L names db root ss =
      schedulable_lem (items db.jobs) names db (L.items_keyed db.jobs root) ss
