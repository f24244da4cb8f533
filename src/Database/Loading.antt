-- ===== src/Database/Loading.antt =====
-- `load` of kiwibes_database.cpp: what a failed load leaves.
pub mod Resets
pub mod Success
pub mod Entries
pub mod Saved
use kiwibes.Prelude.{
  ℕ, suc, ◌≡◌, refl, sym, ap, ◌∙◌, String, Option, none, some, List, [], ◌∷◌, Bool, true, false,
  if◌then◌else◌, Bool-cases, Option-cases, inl, inr, arith,
}
use kiwibes.Errors.{json_parse_fail, KiwibesError, no_error, is_ok}
use kiwibes.Prelude.Int.{pos}
use kiwibes.Exec.{
  catch_parse_error, parse_error, out_of_range, invalid_argument, type_error, invalid_iterator,
  Exec, Exception, Result, ok, throws, continue, demand, ◌>>=◌, ◌>>◌, pure,
}
use kiwibes.Platform.{Platform}
use kiwibes.Database.{
  Database, load, load_file, load_text, load_parsed, reset_on_error, check_jobs, check_job, assign,
  write_back, has_all, expected,
}

module _ ⦃P : Platform⦄ where
  open P use {Json, null, parse, set_member, items, of_string, of_int}

  -- The path and the files are as before.
  record Frames {A : Type 0} (db : Database) (r : Result A × Database) : Type 0 where
    path : r.1.path ≡ db.path
    disk : r.1.disk ≡ db.disk

  Frames-pure : {A : Type 0} (a : Result A) (db : Database) → Frames db (a, db)
  Frames-pure a db = record { path = refl; disk = refl }

  Frames-continue :
      {A B : Type 0} (r : Result A) (f : A → Exec Database B) (db s : Database)
      → s.path ≡ db.path
      → s.disk ≡ db.disk
      → ((a : A) → Frames s (f a s))
      → Frames db (continue r f s)
  Frames-continue (ok a) f db s p d k = record { path = (k a).path ∙ p; disk = (k a).disk ∙ d }
  Frames-continue (throws e) f db s p d k = record { path = p; disk = d }

  Frames-demand :
      {A : Type 0} (e : Exception) (o : Option A) (db : Database) → Frames db (demand e o db)
  Frames-demand e none db = Frames-pure _ db
  Frames-demand e (some a) db = Frames-pure _ db

  Frames-bind :
      {A B : Type 0} (x : Exec Database A) (f : A → Exec Database B) (db : Database)
      → Frames db (x db)
      → ((a : A) (s : Database) → Frames s (f a s))
      → Frames db ((x >>= f) db)
  Frames-bind x f db h k = Frames-continue (x db).0 f db (x db).1 h.path h.disk λ a. k a (x db).1

  Frames-assign : (key : String) (x job : Json) (db : Database) → Frames db (assign key x job db)
  unfolding assign
  Frames-assign key x job db = Frames-demand type_error (set_member job key x) db

  check_job-Frames :
      (key : Option String) (job : Json) (i : ℕ) (error : KiwibesError) (db : Database)
      → Frames db (check_job key job i error db)
  unfolding check_job write_back
  check_job-Frames key job i error db = elim (Bool-cases (has_all job expected)) [
    | inl complete ↦ elim (Bool-cases (is_ok error)) [
      | inl fine ↦
          rw (complete, fine, check_job)
            (Frames-bind (assign "status" (of_string "stopped") job) _ db (Frames-assign _ _ _ db)
              λ started s.
                Frames-bind (assign "start-time" (of_int (pos 0)) started) _ s
                  (Frames-assign _ _ _ s)
                  λ timed s'.
                    Frames-bind (assign "pending-start" (of_int (pos 0)) timed) _ s'
                      (Frames-assign _ _ _ s') λ reset s''. record { path = refl; disk = refl })
      | inr fails ↦ rw (complete, fails, check_job) (Frames-pure (ok error) db)
    ]
    | inr lacks ↦
        rw (lacks, check_job)
          (Frames-bind (demand invalid_iterator key) _ db (Frames-demand invalid_iterator key db)
            λ _ s. Frames-pure _ s)
  ]

  check_jobs-Frames :
      (l : List (Option String × Json)) (i : ℕ) (error : KiwibesError) (db : Database)
      → Frames db (check_jobs l i error db)
  unfolding check_jobs
  check_jobs-Frames [] i error db = Frames-pure (ok error) db
  check_jobs-Frames ((key, job) ∷ rest) i error db =
      Frames-bind (check_job key job i error) (λ error'. check_jobs rest (suc i) error') db
        (check_job-Frames key job i error db) λ error' s. check_jobs-Frames rest (suc i) error' s

  caught-Frames :
      (e : Exception) (error : KiwibesError) (db : Database)
      → Frames db (catch_parse_error error e db)
  unfolding catch_parse_error
  caught-Frames parse_error error db = record { path = refl; disk = refl }
  caught-Frames type_error error db = record { path = refl; disk = refl }
  caught-Frames invalid_iterator error db = record { path = refl; disk = refl }
  caught-Frames out_of_range error db = record { path = refl; disk = refl }
  caught-Frames invalid_argument error db = record { path = refl; disk = refl }

  load_parsed-Frames : (r : Result Json) (db : Database) → Frames db (load_parsed r db)
  unfolding load_parsed
  load_parsed-Frames (ok v) db =
      let h = check_jobs-Frames (items v) 0 no_error (record db { jobs = v }) in
      record { path = h.path; disk = h.disk }
  load_parsed-Frames (throws e) db = caught-Frames e json_parse_fail db

  load_file-Frames : (text : Option String) (db : Database) → Frames db (load_file text db)
  unfolding load_file load_text
  load_file-Frames none db = Frames-pure _ db
  load_file-Frames (some text) db = load_parsed-Frames (parse text) db

  reset_value :
      (e' : KiwibesError) (s : Database) (e : KiwibesError)
      → (reset_on_error e' s).0 ≡ ok e
      → e' ≡ e
  unfolding reset_on_error
  reset_value e' s e h = elim (Bool-cases (is_ok e')) [
    | inl fine ↦ ground (arith, fine, h)
    | inr fails ↦ ground (arith, fails, h)
  ]

  reset_lem :
      (r : Result KiwibesError) (s : Database) (e : KiwibesError)
      → (continue r reset_on_error s).0 ≡ ok e
      → is_ok e ≡ false
      → (continue r reset_on_error s).1 ≡ record s { jobs = null }
  unfolding reset_on_error
  reset_lem (ok e') s e h bad = elim (Bool-cases (is_ok e')) [
    | inl fine ↦
        absurd (let same = reset_value e' s e h in ground (arith, fine, ap is_ok same, bad))
    | inr fails ↦ rw (fails, reset_on_error) refl
  ]
  reset_lem (throws x) s e h bad = absurd (cc)

  -- A `load` that reports an error has kept the files, and the database is the default value, with
  -- the path of the file.
  pub record Fails (fname : String) (db after : Database) : Type 0 where
    pub path : after.path ≡ fname
    pub disk : after.disk ≡ db.disk
    pub jobs : after.jobs ≡ null

  pub load-Fails :
      (fname : String) (db : Database) (e : KiwibesError)
      → (load fname db).0 ≡ ok e
      → is_ok e ≡ false
      → Fails fname db (load fname db).1
  unfolding load
  load-Fails fname db e h bad =
      let db0 = record db { path = fname; jobs = null } in
      let r = load_file (db.disk.content fname) db0 in
      let f = load_file-Frames (db.disk.content fname) db0 in
      let eq = reset_lem r.0 r.1 e h bad in
      record {
        path = ap (λ (d : Database). d.path) eq ∙ f.path;
        disk = ap (λ (d : Database). d.disk) eq ∙ f.disk;
        jobs = ap (λ (d : Database). d.jobs) eq;
      }
