-- ===== src/Database/Loading/Entries.antt =====
-- The entries of a database that stands for a map of jobs.
use kiwibes.Prelude.{
  ◌≡◌, refl, sym, ap, subst, ◌∙◌, String, Option, none, some, [], ◌∷◌, true, All, Option-cases, inl,
  inr, arith, some_inj,
}
use kiwibes.Platform.{Platform}
use kiwibes.Platform.Laws.{PlatformLaws}
use kiwibes.Database.{Database, has, has_all, expected}
use kiwibes.Database.Names.{schedule_of}
use kiwibes.Database.Names.Schedulable.{HasSchedule}
use kiwibes.Database.Table.{Row, row_of, cell}
use kiwibes.Database.Spec.{Job, Jobs, Stores, HoldsJob, RowHolds}
use kiwibes.Database.Loading.Resets.{Items, all_complete}

module _ ⦃P : Platform⦄ where
  open P use {Json, items, member}

  -- The entry holds a job.
  abbrev HoldsSome : Option String × Json → Type 0
  HoldsSome e = (job : Job) × HoldsJob (member e.1) job

  row_job :
      (row : Row) (r : Option Row) (o : Option Job)
      → some row ≡ r
      → RowHolds r o
      → (job : Job) × HoldsJob row job
  row_job row (some r) (some job) e h = (job, subst (λ x. HoldsJob x job) (sym (some_inj e)) h)
  row_job row (some r) none e h = elim h [ ]
  row_job row none o e h = absurd cc

  All-HoldsSome :
      (db : Database) (jobs : Jobs) (l : Items)
      → Stores db jobs
      → All (λ e. (k : String) × (e.0 ≡ some k)) l
      → All (λ e. (k : String) → e.0 ≡ some k → member db.jobs k ≡ some e.1) l
      → All HoldsSome l
  All-HoldsSome db jobs [] s ks fs = tt
  All-HoldsSome db jobs (e ∷ l) s ((k, is_k), ks) (found, fs) = (
    row_job (member e.1) (s.table k) (jobs k) (ap row_of (sym (found k is_k)) ∙ s.shows.shown k)
        (s.holds k),
    All-HoldsSome db jobs l s ks fs,
  )

  entries-HoldsSome :
      (L : PlatformLaws P) (db : Database) (jobs : Jobs)
      → Stores db jobs
      → All HoldsSome (items db.jobs)
  entries-HoldsSome L db jobs s =
      All-HoldsSome db jobs (items db.jobs) s (L.items_keyed db.jobs s.shows.root)
        (L.items_found db.jobs s.shows.root)

  has-cell :
      {A : Type 0} (get : Json → Option A) (key : String) (job : Json) (a : A)
      → cell get key (member job) ≡ some a
      → has job key ≡ true
  has-cell get key job a h = elim (Option-cases (member job key)) [
    | inl e ↦ absurd (ground (arith, e, h))
    | inr (v, e) ↦ rw (has, e) refl
  ]

  holds_complete : (v : Json) (job : Job) → HoldsJob (member v) job → has_all v expected ≡ true
  unfolding has_all
  holds_complete v job h =
      rw
        (
          has-cell _ "program" v _ h.program,
          has-cell _ "max-runtime" v _ h.max_runtime,
          has-cell _ "avg-runtime" v _ h.avg_runtime,
          has-cell _ "var-runtime" v _ h.var_runtime,
          has-cell _ "schedule" v _ h.schedule,
          has-cell _ "status" v _ h.status,
          has-cell _ "start-time" v _ h.start_time,
          has-cell _ "nbr-runs" v _ h.nbr_runs,
          has-cell _ "pending-start" v _ h.pending,
        )
        refl

  items_complete : (l : Items) → All HoldsSome l → all_complete l ≡ true
  items_complete [] h = refl
  items_complete ((k, v) ∷ l) h = rw (holds_complete v h.0.0 h.0.1) (items_complete l h.1)

  items-HasSchedule : (l : Items) → All HoldsSome l → All HasSchedule l
  unfolding schedule_of
  items-HasSchedule [] h = tt
  items-HasSchedule ((k, v) ∷ l) h = ((h.0.0.schedule, h.0.1.schedule), items-HasSchedule l h.1)

  -- Where a database stands for a map of jobs, every entry has every field.
  pub Stores-complete :
      (L : PlatformLaws P) (db : Database) (jobs : Jobs)
      → Stores db jobs
      → all_complete (items db.jobs) ≡ true
  Stores-complete L db jobs s = items_complete (items db.jobs) (entries-HoldsSome L db jobs s)

  -- Where a database stands for a map of jobs, every entry has a text as its schedule.
  pub Stores-HasSchedule :
      (L : PlatformLaws P) (db : Database) (jobs : Jobs)
      → Stores db jobs
      → All HasSchedule (items db.jobs)
  Stores-HasSchedule L db jobs s = items-HasSchedule (items db.jobs) (entries-HoldsSome L db jobs s)
