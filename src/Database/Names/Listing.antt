-- ===== src/Database/Names/Listing.antt =====
-- What the lists of names hold.
use kiwibes.Prelude.{
  String, ◌≡◌, refl, ◌∙◌, ap, sym, Option, none, some, List, [], ◌∷◌, ◌++◌, Bool, true, false,
  arith, All, any, ◌==◌, append_nil, append_cons,
}
use kiwibes.Exec.{Result, ok}
use kiwibes.Platform.{Platform}
use kiwibes.Platform.Laws.{PlatformLaws, lookup_item}
use kiwibes.Database.{Database}
use kiwibes.Database.Names.{push_back, all_names, get_all_job_names}
use kiwibes.Database.Table.{Row, row_of}
use kiwibes.Database.Spec.{Job, Jobs, RowHolds, Stores}

module _ ⦃P : Platform⦄ where
  open P use {Json, items, member}

  abbrev pub IsKeyed : Option String × Json → Type 0
  IsKeyed e = (k : String) × (e.0 ≡ some k)

  -- The keys of the items, in their order.
  abbrev pub keys_of : List (Option String × Json) → List String
  keys_of [] = []
  keys_of ((none, v) ∷ l) = keys_of l
  keys_of ((some k, v) ∷ l) = k ∷ keys_of l

  all_names-keys :
      (l : List (Option String × Json)) (names : List String) (db : Database)
      → All IsKeyed l
      → all_names l names db ≡ (ok (names ++ keys_of l), db)
  unfolding all_names push_back
  all_names-keys [] names db h = ap (λ t. (ok t, db)) (sym (append_nil names))
  all_names-keys ((none, v) ∷ l) names db h = let (k, e) = h.0 in cc
  all_names-keys ((some k, v) ∷ l) names db h =
      all_names-keys l (names ++ k ∷ []) db h.1
      ∙ ap (λ t. (ok t, db)) (append_cons names (keys_of l) k)

  pub any-keys :
      (name : String) (l : List (Option String × Json))
      → any (λ k. k == name) (keys_of l)
        ≡ (elim (lookup_item name l) [ none ↦ false | some v ↦ true ])
  any-keys name [] = refl
  any-keys name ((none, v) ∷ l) = any-keys name l
  any-keys name ((some k, v) ∷ l) = ground (arith, any-keys name l)

  abbrev pub is_known : Option Job → Bool
  is_known none = false
  is_known (some job) = true

  known_of_row :
      (o : Option Json) (t : Option Row) (job : Option Job)
      → row_of o ≡ t
      → RowHolds t job
      → (elim o [ none ↦ false | some v ↦ true ]) ≡ is_known job
  known_of_row none none none e h = refl
  known_of_row none none (some job) e h = absurd h
  known_of_row none (some row) job e h = cc
  known_of_row (some v) none job e h = cc
  known_of_row (some v) (some row) none e h = absurd h
  known_of_row (some v) (some row) (some job) e h = refl

  pub record Lists (db : Database) (m : Jobs) (r : Result (List String) × Database) : Type 0 where
    pub names : List String
    pub result : r ≡ (ok names, db)
    pub exact : (name : String) → any (λ k. k == name) names ≡ is_known (m name)

  module _ (L : PlatformLaws P) where
    -- On a database that stands for a map of jobs, `get_all_job_names` ends without an exception,
    -- leaves the database, and lists exactly the names of the known jobs.
    pub get_all_job_names-Lists :
        (db : Database) (m : Jobs) → Stores db m → Lists db m (get_all_job_names db)
    unfolding get_all_job_names
    get_all_job_names-Lists db m s = record {
      names = keys_of (items db.jobs);
      result = all_names-keys (items db.jobs) [] db (L.items_keyed db.jobs s.shows.root);
      exact = λ name.
          any-keys name (items db.jobs)
          ∙ (rw (← L.member-items db.jobs name) (
              known_of_row (member db.jobs name) (s.table name) (m name) (s.shows.shown name)
                (s.holds name)));
    }
