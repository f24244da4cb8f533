-- ===== src/Database/Refinement/Creations.antt =====
-- Creating jobs.
use kiwibes.Prelude.{
  String, ◌≡◌, refl, sym, subst, Option, none, some, true, List, arith, Option-cases, inl, inr, ◌⊎◌,
}
use kiwibes.Prelude.Int.{ℤ, pos}
use kiwibes.Errors.{no_error, job_description_invalid}
use kiwibes.Exec.{Exec, Result, ok, continue, ◌>>=◌}
use kiwibes.Platform.{Platform}
use kiwibes.Platform.Laws.{PlatformLaws}
use kiwibes.Database.{Database, has}
use kiwibes.Database.Changes.{detail, fill_job, create_job}
use kiwibes.Database.Table.{
  Row, Table, put_row, put_key, cell, Shows, Returns, Returns-pure, Returns-save, Returns-write,
  Shows-put_row,
}
use kiwibes.Database.Spec.{Jobs, HoldsJob, RowHolds, Stores, Refines, fresh_job, spec_create}
use kiwibes.Database.Refinement.{known, Known-of_Stores, Stores-put, has-none, missing_row}

module _ ⦃P : Platform⦄ (L : PlatformLaws P) where
  open P use {
    Json, member, null, of_int, of_string, of_double, of_strings, get_string, get_strings, get_int,
    get_time, get_ulong, get_double, double_zero, remove_at, is_map,
  }

  pub detail_lem :
      {A : Type 0} (get : Json → Option A) (key : String) (details : Json) (db : Database) (a : A)
      → cell get key (member details) ≡ some a
      → detail get key details db ≡ (ok a, db)
  unfolding detail
  detail_lem get key details db a e = ground arith

  pub Returns-detail :
      {A B : Type 0} (get : Json → Option A) (key : String) (details : Json)
      (f : A → Exec Database B) (db : Database) (u : Table) (a : A) (b : B)
      → cell get key (member details) ≡ some a
      → Returns (f a db) b u
      → Returns ((detail get key details >>= f) db) b u
  Returns-detail {A} {B} get key details f db u a b e r =
      subst (λ (p : Result A × Database). Returns (continue p.0 f p.1) b u)
        (sym (detail_lem get key details db a e)) r

  pub has_of_cell :
      {A : Type 0} (get : Json → Option A) (key : String) (details : Json) (a : A)
      → cell get key (member details) ≡ some a
      → has details key ≡ true
  has_of_cell get key details a e = ground arith

  fill_row :
      (program : List String) (schedule : String) (max_runtime : ℤ)
      → HoldsJob
          (put_key "nbr-runs" (of_int (pos 0)) (
            some (
              put_key "start-time" (of_int (pos 0)) (
                some (
                  put_key "pending-start" (of_int (pos 0)) (
                    some (
                      put_key "status" (of_string "stopped") (
                        some (
                          put_key "var-runtime" (of_double double_zero) (
                            some (
                              put_key "avg-runtime" (of_double double_zero) (
                                some (
                                  put_key "max-runtime" (of_int max_runtime) (
                                    some (
                                      put_key "schedule" (of_string schedule) (
                                        some (
                                          put_key "program"
                                            (of_strings program)
                                            none)))))))))))))))))
          (fresh_job program schedule max_runtime)
  fill_row program schedule max_runtime = record {
    program = L.get-of_strings program;
    schedule = L.get-of_string schedule;
    max_runtime = L.get_time-of_int max_runtime;
    avg_runtime = L.get-of_double double_zero;
    var_runtime = L.get-of_double double_zero;
    status = L.get-of_string "stopped";
    start_time = L.get_time-of_int (pos 0);
    nbr_runs = L.get_ulong-of_int 0;
    pending = L.get_int-of_int (pos 0);
  }

  fill_job-Returns :
      (name : String) (details : Json) (program : List String) (schedule : String) (max_runtime : ℤ)
      (db : Database) (t : Table)
      → cell get_strings "program" (member details) ≡ some program
      → cell get_string "schedule" (member details) ≡ some schedule
      → cell get_time "max-runtime" (member details) ≡ some max_runtime
      → Shows db (put_row name none t)
      → (row : Row) × HoldsJob row (fresh_job program schedule max_runtime)
        × Returns (fill_job name details db) no_error (put_row name (some row) t)
  unfolding fill_job
  fill_job-Returns name details program schedule max_runtime db t hp hs hm sh = (
    _,
    fill_row program schedule max_runtime,
    Returns-detail get_strings "program" details _ db _ program no_error hp (
        Returns-write L name "program" _ _ none db t _ no_error sh λ d1 s1.
          Returns-detail get_string "schedule" details _ d1 _ schedule no_error hs (
            Returns-write L name "schedule" _ _ _ d1 t _ no_error s1 λ d2 s2.
              Returns-detail get_time "max-runtime" details _ d2 _ max_runtime no_error hm (
                Returns-write L name "max-runtime" _ _ _ d2 t _ no_error s2 λ d3 s3.
                  Returns-write L name "avg-runtime" _ _ _ d3 t _ no_error s3 λ d4 s4.
                    Returns-write L name "var-runtime" _ _ _ d4 t _ no_error s4 λ d5 s5.
                      Returns-write L name "status" _ _ _ d5 t _ no_error s5 λ d6 s6.
                        Returns-write L name "pending-start" _ _ _ d6 t _ no_error s6 λ d7 s7.
                          Returns-write L name "start-time" _ _ _ d7 t _ no_error s7 λ d8 s8.
                            Returns-write L name "nbr-runs" _ _ _ d8 t _ no_error s8 λ d9 s9.
                              Returns-save _ d9 _ _ no_error s9
                                λ d10 s10. Returns-pure no_error d10 _ s10))),
  )

  -- On a database that stands for a map of jobs, `create_job` with details that hold a program, a
  -- schedule and a maximum runtime ends without an exception, with the error and the map of
  -- `spec_create`: a taken name is refused, and a new job is stopped, has no run and nothing
  -- queued.
  pub create_job-Refines :
      (name : String) (details : Json) (program : List String) (schedule : String) (max_runtime : ℤ)
      (db : Database) (m : Jobs)
      → cell get_strings "program" (member details) ≡ some program
      → cell get_string "schedule" (member details) ≡ some schedule
      → cell get_time "max-runtime" (member details) ≡ some max_runtime
      → Stores db m
      → Refines (create_job name details db) (spec_create program schedule max_runtime name m)
  unfolding create_job spec_create
  create_job-Refines name details program schedule max_runtime db m hp hs hm s =
      rw
        (
          has_of_cell get_strings "program" details program hp,
          has_of_cell get_string "schedule" details schedule hs,
          has_of_cell get_time "max-runtime" details max_runtime hm,
        )
        (elim (Option-cases (m name)) [
          | inr (job, e) ↦ elim (Known-of_Stores L db m name job s e) [
            | known t row shows holds r there ↦
                rw (there, e, spec_create) (record { result = refl; stored = s })
          ]
          | inl e ↦
              let free =
                missing_row (s.table name) (subst (RowHolds (s.table name)) e (s.holds name)) in
              let (row, r, ret) =
                fill_job-Returns name details program schedule max_runtime db s.table hp hs hm
                  (Shows-put_row L name none db s.table s.shows free) in
              rw (has-none db m name s e, e, spec_create)
                (record {
                  result = ret.result;
                  stored = Stores-put L _ m name s.table (some row) _ ret.left s.holds r;
                })
        ])

  -- `create_job` with details that lack the program, the schedule or the maximum runtime is refused
  -- as an invalid description, and the database stays as it is.
  pub create_job_incomplete :
      (name key : String) (details : Json) (db : Database)
      → (key ≡ "program") ⊎ (key ≡ "schedule") ⊎ (key ≡ "max-runtime")
      → member details key ≡ none
      → create_job name details db ≡ (ok job_description_invalid, db)
  unfolding create_job
  create_job_incomplete name key details db h e = elim h [
    | inl p ↦ let gone = subst (λ k. member details k ≡ none) p e in ground arith
    | inr (inl p) ↦ let gone = subst (λ k. member details k ≡ none) p e in ground arith
    | inr (inr p) ↦ let gone = subst (λ k. member details k ≡ none) p e in ground arith
  ]
