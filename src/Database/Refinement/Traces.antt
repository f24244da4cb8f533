-- ===== src/Database/Refinement/Traces.antt =====
-- Sequences of calls that change the jobs, against the map of jobs.
use kiwibes.Prelude.{ℕ, String, ◌≡◌, refl, sym, subst, some, List, [], ◌∷◌, true, All}
use kiwibes.Prelude.Int.{ℤ}
use kiwibes.Errors.{KiwibesError}
use kiwibes.Exec.{Exec, Result, continue, ◌>>=◌, pure}
use kiwibes.Platform.{Platform, is_plain}
use kiwibes.Platform.Laws.{PlatformLaws}
use kiwibes.Database.{Database}
use kiwibes.Database.Table.{cell}
use kiwibes.Database.Runs.{
  job_started, job_stopped, job_incr_start_requests, job_decr_start_requests,
  job_clear_start_requests,
}
use kiwibes.Database.Changes.{create_job, edit_job, delete_job}
use kiwibes.Database.Spec.{
  Jobs, Stores, Refines, spec_started, spec_stopped, spec_incr, spec_decr, spec_clear, spec_delete,
  spec_create, spec_edit,
}
use kiwibes.Database.Refinement.Starts.{
  job_started-Refines, job_stopped-Refines, job_incr-Refines, job_decr-Refines, job_clear-Refines,
}
use kiwibes.Database.Refinement.Creations.{create_job-Refines}
use kiwibes.Database.Refinement.Deletions.{delete_job-Refines}
use kiwibes.Database.Refinement.Edits.{edit_job-Refines}

-- What a call returns: an error code, or the number of starts that are left.
pub data Reply : Type 0 where
  error : KiwibesError → Reply
  left : ℤ → Reply

module _ ⦃P : Platform⦄ where
  open P use {Json, member, get_strings, get_string, get_time, get_ulong}

  -- The calls, with the clock that they read. The details of a new or an edited job come with what
  -- they hold.
  pub data Call : Type 0 where
    starts stops : ℕ → String → Call
    increments decrements clears deletes : String → Call
    creates : String → Json → List String → String → ℤ → Call
    edits : String → Json → List String → String → ℕ → Call

  abbrev pub replied : {A B : Type 0} → (A → B) → A × Jobs → B × Jobs
  replied reply (a, m) = (reply a, m)

  -- The details hold the program, the schedule and the maximum runtime; a removed name is plain.
  abbrev pub Fits : Call → Type 0
  Fits (creates name details program schedule max_runtime) =
      (cell get_strings "program" (member details) ≡ some program)
      × (cell get_string "schedule" (member details) ≡ some schedule)
      × (cell get_time "max-runtime" (member details) ≡ some max_runtime)
  Fits (edits name details program schedule max_runtime) =
      (cell get_strings "program" (member details) ≡ some program)
      × (cell get_string "schedule" (member details) ≡ some schedule)
      × (cell get_ulong "max-runtime" (member details) ≡ some max_runtime)
  Fits (deletes name) = is_plain name ≡ true
  Fits _ = Unit

  abbrev with_reply : {A : Type 0} → (A → Reply) → Exec Database A → Exec Database Reply
  with_reply reply x = x >>= λ a. pure (reply a)

  abbrev pub run : Call → Exec Database Reply
  run (starts now name) = with_reply error (job_started now name)
  run (stops now name) = with_reply error (job_stopped now name)
  run (increments name) = with_reply error (job_incr_start_requests name)
  run (decrements name) = with_reply left (job_decr_start_requests name)
  run (clears name) = with_reply error (job_clear_start_requests name)
  run (deletes name) = with_reply error (delete_job name)
  run (creates name details program schedule n) = with_reply error (create_job name details)
  run (edits name details program schedule n) = with_reply error (edit_job name details)

  abbrev pub spec : Call → Jobs → Reply × Jobs
  spec (starts now name) m = replied error (spec_started now name m)
  spec (stops now name) m = replied error (spec_stopped now name m)
  spec (increments name) m = replied error (spec_incr name m)
  spec (decrements name) m = replied left (spec_decr name m)
  spec (clears name) m = replied error (spec_clear name m)
  spec (deletes name) m = replied error (spec_delete name m)
  spec (creates name details program schedule n) m =
      replied error (spec_create program schedule n name m)
  spec (edits name details program schedule n) m =
      replied error (spec_edit program schedule n name m)

  -- Calls one after the other, with all their replies.
  unfoldable pub run_all : List Call → Exec Database (List Reply)
  run_all [] = pure []
  run_all (call ∷ calls) = do reply ← run call; replies ← run_all calls; pure (reply ∷ replies)

  unfoldable pub spec_all : List Call → Jobs → List Reply × Jobs
  spec_all [] m = ([], m)
  spec_all (call ∷ calls) m =
      replied (λ replies. (spec call m).0 ∷ replies) (spec_all calls (spec call m).1)

  Refines-bind :
      {A B : Type 0} (x : Exec Database A) (f : A → Exec Database B) (db : Database) (s : A × Jobs)
      (t : B × Jobs)
      → Refines (x db) s
      → ((db' : Database) → Stores db' s.1 → Refines (f s.0 db') t)
      → Refines ((x >>= f) db) t
  Refines-bind {A} x f db s t h k =
      subst (λ (r : Result A). Refines (continue r f (x db).1) t) (sym h.result)
        (k (x db).1 h.stored)

  Refines-reply :
      {A : Type 0} (reply : A → Reply) (x : Exec Database A) (db : Database) (s : A × Jobs)
      → Refines (x db) s
      → Refines (with_reply reply x db) (replied reply s)
  Refines-reply reply x db (a, m) h =
      Refines-bind x (λ a. pure (reply a)) db (a, m) (reply a, m) h
        λ db' stored. record { result = refl; stored = stored }

  module _ (L : PlatformLaws P) where
    run-Refines :
        (call : Call) (db : Database) (m : Jobs)
        → Fits call
        → Stores db m
        → Refines (run call db) (spec call m)
    run-Refines (starts now name) db m h s =
        Refines-reply error (job_started now name) db _ (job_started-Refines L now name db m s)
    run-Refines (stops now name) db m h s =
        Refines-reply error (job_stopped now name) db _ (job_stopped-Refines L now name db m s)
    run-Refines (increments name) db m h s =
        Refines-reply error (job_incr_start_requests name) db _ (job_incr-Refines L name db m s)
    run-Refines (decrements name) db m h s =
        Refines-reply left (job_decr_start_requests name) db _ (job_decr-Refines L name db m s)
    run-Refines (clears name) db m h s =
        Refines-reply error (job_clear_start_requests name) db _ (job_clear-Refines L name db m s)
    run-Refines (deletes name) db m h s =
        Refines-reply error (delete_job name) db _ (delete_job-Refines L name db m h s)
    run-Refines (creates name details program schedule n) db m (hp, hs, hn) s =
        Refines-reply error (create_job name details) db _
          (create_job-Refines L name details program schedule n db m hp hs hn s)
    run-Refines (edits name details program schedule n) db m (hp, hs, hn) s =
        Refines-reply error (edit_job name details) db _
          (edit_job-Refines L name details program schedule n db m hp hs hn s)

    -- On a database that stands for a map of jobs, where all texts are in UTF-8, any sequence of
    -- calls of `job_started`, `job_stopped`, `job_incr_start_requests`, `job_decr_start_requests`,
    -- `job_clear_start_requests`, `create_job`, `edit_job` and `delete_job`, where the details of a
    -- new or an edited job hold a program, a schedule and a maximum runtime and a deleted name has
    -- no `/` and no `~`, ends without an exception, with the replies of the same calls on the map,
    -- and the database stands for the map after these.
    pub run_all-Refines :
        (calls : List Call) (db : Database) (m : Jobs)
        → All Fits calls
        → Stores db m
        → Refines (run_all calls db) (spec_all calls m)
    unfolding run_all spec_all
    run_all-Refines [] db m h s = record { result = refl; stored = s }
    run_all-Refines (call ∷ calls) db m (h, hs) s =
        Refines-bind (run call) _ db (spec call m) _ (run-Refines call db m h s) λ db1 s1.
          Refines-bind (run_all calls) (λ replies. pure ((spec call m).0 ∷ replies)) db1
            (spec_all calls (spec call m).1) _ (run_all-Refines calls db1 (spec call m).1 hs s1)
            λ db2 s2. record { result = refl; stored = s2 }
