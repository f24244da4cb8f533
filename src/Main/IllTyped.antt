-- ===== src/Main/IllTyped.antt =====
-- A start from a file with a schedule that is not a text.
use kiwibes.Prelude.{
  ℕ, ◌≡◌, refl, sym, ap, ◌∙◌, subst, String, Option, none, some, List, [], ◌∷◌, ◌++◌, true, All,
  Option-cases, Bool-cases, inl, inr, ◌==◌, some_inj, if◌then◌else◌,
}
use kiwibes.Errors.{no_error}
use kiwibes.Exec.{ok, throws, type_error}
use kiwibes.Platform.{Platform}
use kiwibes.Platform.Laws.{PlatformLaws, lookup_item}
use kiwibes.CmdLine.{Options, parse_and_validate_command_line}
use kiwibes.Database.{Database}
use kiwibes.Database
use kiwibes.Database.Names.{schedule_of, push_back, schedulable, get_all_schedulable_jobs}
use kiwibes.Database.Names.Listing.{IsKeyed}
use kiwibes.Database.Names.Schedulable.{is_schedulable}
use kiwibes.Database.Loading.Resets.{Items, IsReset, all_complete}
use kiwibes.Database.Loading.Success.{RowReset, Resets-lookup, load-Completes}
use kiwibes.Manager
use kiwibes.Scheduler
use kiwibes.Scheduler.{Scheduler, start}
use kiwibes.Rest.{Context}
use kiwibes.Main.{
  World, Call, jobs_db_file, server_certificate, server_priv_key, schedule_jobs, create, serve,
  initialize_kiwibes, main,
}
use kiwibes.Main.Start.{main-accepted}
use kiwibes.Main.Serving.{after_load-serves}

module _ ⦃P : Platform⦄ where
  open P use {Json, parse, member, is_map, items}

  -- The loop stops at the first schedule that is not a text.
  schedulable-throws :
      (name : String) (job : Json) (l : Items) (names : List String) (db : Database)
      → All IsKeyed l
      → lookup_item name l ≡ some job
      → schedule_of job ≡ none
      → (schedulable l names db).0 ≡ throws type_error
  unfolding schedulable push_back
  schedulable-throws name job [] names db ks found bad = cc
  schedulable-throws name job ((none, v) ∷ l) names db ((k, e), ks) found bad = cc
  schedulable-throws name job ((some k, v) ∷ l) names db (key, ks) found bad =
      elim (Option-cases (schedule_of v)) [
        | inl e ↦ rw e refl
        | inr (s, e) ↦ elim (Bool-cases (k == name)) [
          | inl same ↦
              let v_job : some v ≡ some job =
                subst (λ b. (if b then some v else lookup_item name l) ≡ some job) same found in
              let clash : none ≡ some s = sym bad ∙ ap schedule_of (sym (some_inj v_job)) ∙ e in cc
          | inr other ↦
              let rest : lookup_item name l ≡ some job =
                subst (λ b. (if b then some v else lookup_item name l) ≡ some job) other found in
              elim (Bool-cases (is_schedulable s)) [
                | inl valid ↦
                    rw (e, valid) (schedulable-throws name job l (names ++ k ∷ []) db ks rest bad)
                | inr invalid ↦ rw (e, invalid) (schedulable-throws name job l names db ks rest bad)
              ]
        ]
      ]

  -- A load leaves the schedules.
  reset-schedule : (job w : Json) → IsReset job w → schedule_of w ≡ schedule_of job
  unfolding schedule_of
  reset-schedule job w r = rw (r.cells "schedule", schedule_of) refl

  IsReset-entry :
      (o p : Option Json) (job : Json)
      → RowReset o p
      → o ≡ some job
      → (w : Json) × (p ≡ some w) × IsReset job w
  IsReset-entry none p job r e = cc
  IsReset-entry (some v) none job r e = elim r [ ]
  IsReset-entry (some v) (some w) job r e = (w, refl, subst (λ x. IsReset x w) (some_inj e) r)

  schedule_jobs-throws :
      (calls : ℕ → Call) (s : Scheduler)
      → (get_all_schedulable_jobs [] s.manager.database).0 ≡ throws type_error
      → (schedule_jobs calls s).0 ≡ throws type_error
  unfolding schedule_jobs start
  schedule_jobs-throws calls s e = rw e refl

  serve-throws :
      (w : World) (o : Options) (c : Context)
      → w.is_valid (server_certificate o) (server_priv_key o) ≡ true
      → (schedule_jobs w.calls c.scheduler).0 ≡ throws type_error
      → (serve w o c).0 ≡ throws type_error
  serve-throws w o c v h = rw (v, h) refl

  -- If the command line is accepted, the certificate and the key are valid, the file kiwibes.json
  -- of the home folder can be opened and parsed as an object in which every entry has every field,
  -- and the schedule of some entry is not a text, then `load` reports no error, and `main` ends
  -- with an exception.
  pub ill_typed_schedule-throws :
      (L : PlatformLaws P) (w : World) (argv : List String) (u o : Options) (text : String)
      (v : Json) (name : String) (job : Json)
      → parse_and_validate_command_line w.exists argv u ≡ (no_error, o)
      → w.is_valid (server_certificate o) (server_priv_key o) ≡ true
      → w.disk.content (jobs_db_file o) ≡ some text
      → parse text ≡ ok v
      → is_map v ≡ true
      → all_complete (items v) ≡ true
      → member v name ≡ some job
      → schedule_of job ≡ none
      → ((Database.load (jobs_db_file o) (Database.new w.disk)).0 ≡ ok no_error)
        × ((main w argv u).0 ≡ throws type_error)
  unfolding initialize_kiwibes Database.new create Scheduler.new Manager.new
      get_all_schedulable_jobs
  ill_typed_schedule-throws L w argv u o text v name job accepted certified opens parses root
        complete there bad =
      let db = Database.new w.disk in
      let c = load-Completes L (jobs_db_file o) text v db opens parses root complete in
      let after = (Database.load (jobs_db_file o) db).1 in
      let (reset, found, r) =
        IsReset-entry (lookup_item name (items v)) (lookup_item name (items after.jobs)) job
          (Resets-lookup name (items v) (items after.jobs) c.resets)
          (sym (L.member-items v name) ∙ there) in
      (
        c.result,
        ap (λ r. r.0)
              (main-accepted w argv u o accepted
                ∙ after_load-serves w o (Database.load (jobs_db_file o) db) c.result)
            ∙ serve-throws w o (create o after) certified (
                schedule_jobs-throws w.calls (create o after).scheduler (
                  schedulable-throws name reset (items after.jobs) [] after
                    (L.items_keyed after.jobs c.root) found (reset-schedule job reset r ∙ bad))),
      )
