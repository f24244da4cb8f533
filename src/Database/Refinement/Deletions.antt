-- ===== src/Database/Refinement/Deletions.antt =====
-- Deleting jobs.
use Prim.Native.String.{◌++◌}
use kiwibes.Prelude.{
  String, ◌≡◌, refl, sym, ◌∙◌, subst, Option, none, some, true, false, ◌==◌, eq_refl, if◌then◌else◌,
  arith, Bool-cases, inl, inr,
}
use kiwibes.Errors.{no_error, job_is_running}
use kiwibes.Exec.{Exec, Result, ok, continue, ◌>>◌}
use kiwibes.Platform.{Platform, is_plain}
use kiwibes.Platform.Laws.{PlatformLaws}
use kiwibes.Database.{Database}
use kiwibes.Database.Changes.{remove_job, delete_job}
use kiwibes.Database.Table.{
  Row, Table, put_row, row_of, Shows, Returns, Returns-pure, Returns-save, Returns-read,
}
use kiwibes.Database.Spec.{Jobs, Stores, Refines, spec_delete}
use kiwibes.Database.Refinement.{Refines-change, status_cell}

module _ ⦃P : Platform⦄ (L : PlatformLaws P) where
  open P use {
    Json, member, null, of_int, of_string, of_double, of_strings, get_string, get_strings, get_int,
    get_time, get_ulong, get_double, double_zero, remove_at, is_map,
  }

  some_member : (o : Option Json) (row : Row) → row_of o ≡ some row → (v : Json) × (o ≡ some v)
  some_member none row e = cc
  some_member (some v) row e = (v, refl)

  remove_job_lem :
      (name : String) (w : Json) (db : Database)
      → remove_at db.jobs ("/" ++ name) ≡ some w
      → remove_job name db ≡ (ok tt, record db { jobs = w })
  unfolding remove_job
  remove_job_lem name w db e = ground arith

  removed :
      (name : String) (row : Row) (db : Database) (t : Table) (w : Json)
      → is_map w ≡ true
      → ((j : String) → member w j ≡ (if name == j then none else member db.jobs j))
      → Shows db (put_row name (some row) t)
      → Shows (record db { jobs = w }) (put_row name none t)
  removed name row db t w root others s = record {
    root = root;
    objects = λ n job h. ground (arith, others n, s.objects n job);
    shown = λ n. rw (others n) (elim (Bool-cases (name == n)) [
      | inl same ↦ rw same
      | inr other ↦ rw other (s.shown n ∙ rw other)
    ]);
  }

  Returns-remove_job :
      {B : Type 0} (name : String) (k : Exec Database B) (row : Row) (db : Database) (t u : Table)
      (b : B)
      → is_plain name ≡ true
      → Shows db (put_row name (some row) t)
      → ((db' : Database) → Shows db' (put_row name none t) → Returns (k db') b u)
      → Returns ((remove_job name >> k) db) b u
  Returns-remove_job {B} name k row db t u b plain s r =
      let (x, there) = some_member (member db.jobs name) row (s.shown name ∙ rw (eq_refl name)) in
      let (w, e, root, others) = L.remove_at-plain db.jobs name x plain there in
      subst (λ (p : Result Unit × Database). Returns (continue p.0 (λ _. k) p.1) b u)
        (sym (remove_job_lem name w db e))
        (r (record db { jobs = w }) (removed name row db t w root others s))

  -- On a database that stands for a map of jobs, `delete_job` of a name without `/` and `~` ends
  -- without an exception, with the error and the map of `spec_delete`: an unknown or a running job
  -- is refused, and a stopped one is gone.
  pub delete_job-Refines :
      (name : String) (db : Database) (m : Jobs)
      → is_plain name ≡ true
      → Stores db m
      → Refines (delete_job name db) (spec_delete name m)
  unfolding delete_job spec_delete
  delete_job-Refines name db m plain = Refines-change L _ name _ _ db m λ t row job r sh.
      elim (Bool-cases job.running) [
        | inl runs ↦ simp runs (
          some row,
          r,
          Returns-read L get_string name "status" _ (some row) db t _ "running" job_is_running sh
              (status_cell row job true r runs) (Returns-pure job_is_running db _ sh),
        )
        | inr stops ↦ simp stops (
          none,
          tt,
          Returns-read L get_string name "status" _ (some row) db t _ "stopped" no_error sh
              (status_cell row job false r stops)
              (Returns-remove_job name _ row db t _ no_error plain sh
                λ d1 s1. Returns-save _ d1 _ _ no_error s1 λ d2 s2. Returns-pure no_error d2 _ s2),
        )
      ]
