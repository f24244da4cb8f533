-- ===== src/Interleaving/Alone.antt =====
-- The run of a thread that no other interrupts.
pub mod Operations
use kiwibes.Prelude.{
  sym, ℕ, String, ◌≡◌, refl, ◌∙◌, ap, none, some, List, [], ◌∷◌, Bool, true, false, if◌then◌else◌,
  eqb, Option,
}
use kiwibes.Prelude.Int.{ℤ, pos, leb_ℤ, eq_ℤ}
use kiwibes.Errors.{KiwibesError, no_error, process_launch_failed, is_ok}
use kiwibes.Exec.{Exec, Result, ok, throws, continue}
use kiwibes.Exec
use kiwibes.Map
use kiwibes.Platform.{Platform}
use kiwibes.Manager
use kiwibes.Database.Runs.{
  job_started, job_stopped, job_incr_start_requests, job_decr_start_requests,
}
use kiwibes.Database.Names.{get_job_description}
use kiwibes.Manager.{
  Handle, invalid_handle, add_active, erase_active, Manager, Fork, Report, name_of, has_ended,
  on_database, launch_job_process,
}
use kiwibes.Interleaving.{
  interrupted, Thread, ends, step, ◌>>=◌, atomic, alone, Runs, ended, proceeds, stops, Runs, ended,
  proceeds, stops,
}

module _ {S A B : Type 0} where
  continue-continue :
      {C : Type 0} (r : Result C) (k : C → Exec S A) (f : A → Exec S B) (s : S)
      → continue r (λ c s'. continue (k c s').0 f (k c s').1) s
        ≡ continue (continue r k s).0 f (continue r k s).1
  continue-continue (ok c) k f s = refl
  continue-continue (throws e) k f s = refl

  pub alone-bind :
      (t : Thread S A) (f : A → Thread S B) (s : S)
      → alone (t >>= f) s ≡ continue (alone t s).0 (λ a. alone (f a)) (alone t s).1
  unfolding ◌>>=◌ alone
  alone-bind (ends a) f s = refl
  alone-bind (step x k) f s =
      ap (λ (g : _ → Exec S B). continue (x s).0 g (x s).1) (λ i b s'. alone-bind (k b) f s' i)
      ∙ continue-continue (x s).0 (λ b. alone (k b)) (λ a. alone (f a)) (x s).1

  continue-cong :
      (r : Result A) (f g : A → Exec S B) (s : S)
      → ((a : A) → f a s ≡ g a s)
      → continue r f s ≡ continue r g s
  continue-cong (ok a) f g s h = h a
  continue-cong (throws e) f g s h = refl

  -- A thread that goes on after another is a bind of the two runs.
  pub follow :
      (t : Thread S A) (x : Exec S A) (f : A → Thread S B) (g : A → Exec S B) (s : S)
      → alone t s ≡ x s
      → ((a : A) → alone (f a) (x s).1 ≡ g a (x s).1)
      → alone (t >>= f) s ≡ Exec.◌>>=◌ x g s
  follow t x f g s e h =
      alone-bind t f s
      ∙ ap (λ r. continue r.0 (λ a. alone (f a)) r.1) e
      ∙ continue-cong (x s).0 (λ a. alone (f a)) g (x s).1 h

  -- So is a thread that goes on after one call.
  pub follow-atomic :
      (x : Exec S A) (f : A → Thread S B) (g : A → Exec S B) (s : S)
      → ((a : A) → alone (f a) (x s).1 ≡ g a (x s).1)
      → alone (atomic x >>= f) s ≡ Exec.◌>>=◌ x g s
  unfolding ◌>>=◌ alone
  follow-atomic x f g s h = continue-cong (x s).0 (λ a. alone (f a)) g (x s).1 h

module _ {S A : Type 0} where
  pub alone-ends : (a : A) (s : S) → alone (ends a) s ≡ (ok a, s)
  unfolding alone
  alone-ends a s = refl

  pub alone-atomic : (x : Exec S A) (s : S) → alone (atomic x) s ≡ x s
  unfolding alone
  alone-atomic x s =
      elim (x s).0 as (λ r. continue r (λ b. alone (ends b)) (x s).1 ≡ (r, (x s).1)) [
        | ok a ↦ refl
        | throws e ↦ refl
      ]

  pub alone-if :
      (b : Bool) (t u : Thread S A) (x y : Exec S A) (s : S)
      → alone t s ≡ x s
      → alone u s ≡ y s
      → alone (if b then t else u) s ≡ (if b then x else y) s
  alone-if true t u x y s h k = h
  alone-if false t u x y s h k = k

module _ {S A : Type 0} (Change : S → S → Type 0) where
  after_step :
      {B : Type 0} (x : Exec S B) (k : B → Thread S A) (s : S) (r : Result B)
      → (x s).0 ≡ r
      → ((b : B) → Runs Change (k b) (x s).1 (alone (k b) (x s).1))
      → Runs Change (step x k) s (continue r (λ b. alone (k b)) (x s).1)
  after_step x k s (ok b) e more = proceeds x k s b (x s).1 _ (ap (λ r. (r, (x s).1)) e) (more b)
  after_step x k s (throws t) e more = stops x k s t (x s).1 (ap (λ r. (r, (x s).1)) e)

  -- The run that no other thread interrupts is one of the runs.
  pub Runs-alone : (t : Thread S A) (s : S) → Runs Change t s (alone t s)
  unfolding alone
  Runs-alone (ends a) s = ended a s
  Runs-alone (step x k) s = after_step x k s (x s).0 refl λ b. Runs-alone (k b) (x s).1
