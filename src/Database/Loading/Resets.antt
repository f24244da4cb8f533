-- ===== src/Database/Loading/Resets.antt =====
-- The loop of `load`: which fields of the jobs it resets.
use kiwibes.Prelude.{
  ℕ, suc, ◌≡◌, refl, sym, ap, ◌∙◌, String, Option, some, List, [], ◌∷◌, ◌++◌, Bool, true, ◌&&◌,
  if◌then◌else◌, Option-cases, inl, inr, arith, length, ◌==◌, append_cons,
}
use kiwibes.Prelude.Int.{pos}
use kiwibes.Errors.{KiwibesError, no_error}
use kiwibes.Exec.{Result, ok, bind-ok}
use kiwibes.Platform.{Platform}
use kiwibes.Platform.Laws.{PlatformLaws, replace_item}
use kiwibes.Database.{Database, check_jobs, check_job, assign, write_back, has_all, expected}

module _ ⦃P : Platform⦄ where
  open P use {Json, null, member, set_member, set_item, is_map, items, of_string, of_int}

  abbrev pub Items : Type 0
  Items = List (Option String × Json)

  -- The value is an object with the members of the job, and a stopped job's status.
  pub record IsReset (job w : Json) : Type 0 where
    pub root : is_map w ≡ true
    pub cells :
        (k : String)
        → member w k ≡ (
            if "pending-start" == k
            then some (of_int (pos 0))
            else if "start-time" == k
            then some (of_int (pos 0))
            else if "status" == k
            then some (of_string "stopped")
            else member job k)

  -- The same keys, and the values reset.
  abbrev pub Resets : Items → Items → Type 0
  Resets [] [] = Unit
  Resets ((k, job) ∷ l) ((j, w) ∷ l') = (k ≡ j) × IsReset job w × Resets l l'
  Resets _ _ = ⊥

  -- Every job has every field.
  abbrev pub all_complete : Items → Bool
  all_complete [] = true
  all_complete ((k, job) ∷ l) = has_all job expected && all_complete l

  module _ (L : PlatformLaws P) where
    complete-is_map : (job : Json) → has_all job expected ≡ true → is_map job ≡ true
    unfolding has_all
    complete-is_map job h = elim (Option-cases (member job "program")) [
      | inl e ↦ absurd (ground (arith, e, h))
      | inr (x, e) ↦ L.is_map_of_member job "program" x e
    ]

    check_job-resets :
        (key : Option String) (job : Json) (i : ℕ) (db : Database)
        → has_all job expected ≡ true
        → (w : Json) × IsReset job w
          × (check_job key job i no_error db
              ≡ (ok no_error, record db { jobs = set_item db.jobs i w }))
    unfolding check_job assign write_back
    check_job-resets key job i db h =
        let (a, e) =
          L.set_member-total job "status" (of_string "stopped") (complete-is_map job h) in
        let (b, f) =
          L.set_member-total a "start-time" (of_int (pos 0))
            (L.is_map-set_member job "status" (of_string "stopped") a e) in
        let (w, g) =
          L.set_member-total b "pending-start" (of_int (pos 0))
            (L.is_map-set_member a "start-time" (of_int (pos 0)) b f) in
        (
          w,
          record {
            root = L.is_map-set_member b "pending-start" (of_int (pos 0)) w g;
            cells = λ k.
                rw
                  (
                    L.member-set_member b "pending-start" (of_int (pos 0)) w k g,
                    L.member-set_member a "start-time" (of_int (pos 0)) b k f,
                    L.member-set_member job "status" (of_string "stopped") a k e,
                  )
                  refl;
          },
          rw (h, check_job, e, f, g) refl,
        )

    replace-append :
        (pre rest : Items) (k : Option String) (v w : Json)
        → replace_item (pre ++ (k, v) ∷ rest) (length pre) w ≡ pre ++ (k, w) ∷ rest
    replace-append [] rest k v w = refl
    replace-append (x ∷ pre) rest k v w = ap (λ l. x ∷ l) (replace-append pre rest k v w)

    length-append_one :
        (pre : Items) (x : Option String × Json) → length (pre ++ x ∷ []) ≡ suc (length pre)
    length-append_one [] x = refl
    length-append_one (y ∷ pre) x = ap suc (length-append_one pre x)

    items_written :
        (pre rest : Items) (k : Option String) (v w : Json) (i : ℕ) (jobs : Json)
        → i ≡ length pre
        → items jobs ≡ pre ++ (k, v) ∷ rest
        → is_map jobs ≡ true
        → items (set_item jobs i w) ≡ (pre ++ (k, w) ∷ []) ++ rest
    items_written pre rest k v w i jobs n e root =
        L.items-set_item jobs i w root
        ∙ rw (e, n) (replace-append pre rest k v w)
        ∙ sym (append_cons pre rest (k, w))

    -- What the loop leaves: the jobs behind `pre` are reset.
    pub record Loops (pre l : Items) (db : Database) (r : Result KiwibesError × Database)
        : Type 0 where
      pub jobs : Json
      pub result : r ≡ (ok no_error, record db { jobs = jobs })
      pub root : is_map jobs ≡ true
      pub rest : Items
      pub left : items jobs ≡ pre ++ rest
      pub resets : Resets l rest

    pub check_jobs-Loops :
        (l pre : Items) (i : ℕ) (db : Database)
        → i ≡ length pre
        → items db.jobs ≡ pre ++ l
        → is_map db.jobs ≡ true
        → all_complete l ≡ true
        → Loops pre l db (check_jobs l i no_error db)
    unfolding check_jobs
    check_jobs-Loops [] pre i db n e root h = record {
      jobs = db.jobs;
      result = refl;
      root = root;
      rest = [];
      left = e;
      resets = tt;
    }
    check_jobs-Loops ((k, job) ∷ l) pre i db n e root h =
        let (w, reset, step) = check_job-resets k job i db (ground (arith, h)) in
        let next = record db { jobs = set_item db.jobs i w } in
        let more =
          check_jobs-Loops l (pre ++ (k, w) ∷ []) (suc i) next
            (ap suc n ∙ sym (length-append_one pre (k, w)))
            (items_written pre l k job w i db.jobs n e root) (L.is_map-set_item db.jobs i w root)
            (ground (arith, h)) in
        record {
          jobs = more.jobs;
          result =
              bind-ok (check_job k job i no_error) (λ error. check_jobs l (suc i) error) db no_error
                next _ step more.result;
          root = more.root;
          rest = (k, w) ∷ more.rest;
          left = more.left ∙ append_cons pre more.rest (k, w);
          resets = (refl, reset, more.resets);
        }
