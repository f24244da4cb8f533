-- ===== src/Interleaving/Safety.antt =====
-- What holds of every run of a thread: a rule for each way to build a thread.
use kiwibes.Prelude.{◌≡◌, refl, sym, subst, ap, ◌∙◌}
use kiwibes.Exec.{Exec, Result, ok, throws}
use kiwibes.Interleaving.{
  Thread, ends, step, ◌>>=◌, atomic, Runs, ended, interrupted, proceeds, stops,
}

-- The run has ended without an exception, in a value and a state with the property.
pub record Succeeds {ℓ} {S A : Type 0} (Q : A → S → Type ℓ) (r : Result A × S) : Type ℓ where
  pub value : A
  pub result : r.0 ≡ ok value
  pub after : Q value r.1

module _ {S : Type 0} (Change : S → S → Type 0) where
  -- Any number of changes by other threads.
  pub data Changes : S → S → Type 0 where
    none_made : (s : S) → Changes s s
    one_more : {a b c : S} → Change a b → Changes b c → Changes a c

  abbrev pub IsStable : (S → Type 0) → Type 0
  IsStable I = (s s' : S) → Change s s' → I s → I s'

  Changes-IsStable : (I : S → Type 0) → IsStable I → (s s' : S) → Changes s s' → I s → I s'
  Changes-IsStable I st s _ (none_made _) h = h
  Changes-IsStable I st s s' (one_more {b = b} c cs) h = Changes-IsStable I st b s' cs (st s b c h)

  module _ {A : Type 0} where
    -- Every run from the state succeeds, and what others do after the last step leaves the property.
    unfoldable pub Safe : (A → S → Type 0) → Thread S A → S → Type 0
    Safe Q (ends a) s = (s' : S) → Changes s s' → Q a s'
    Safe Q (step x k) s = (s' : S) → Changes s s' → Succeeds (λ b. Safe Q (k b)) (x s')

    Safe-change :
        (Q : A → S → Type 0) (t : Thread S A) (s s' : S) → Change s s' → Safe Q t s → Safe Q t s'
    unfolding Safe
    Safe-change Q (ends a) s s' c h = λ z cs. h z (one_more c cs)
    Safe-change Q (step x k) s s' c h = λ z cs. h z (one_more c cs)

    Safe-proceeds :
        {B : Type 0} (Q : A → S → Type 0) (k : B → Thread S A) (b : B) (s : S) (r : Result B × S)
        → r ≡ (ok b, s)
        → Succeeds (λ b. Safe Q (k b)) r
        → Safe Q (k b) s
    Safe-proceeds Q k b s r e h =
        let same : ok h.value ≡ ok b = sym h.result ∙ ap (λ p. p.0) e in
        let v : h.value ≡ b = cc in
        subst (λ z. Safe Q (k b) z) (ap (λ p. p.1) e) (subst (λ v. Safe Q (k v) r.1) v h.after)

    -- Every run of a safe thread succeeds.
    pub Runs-Safe :
        (Q : A → S → Type 0) (t : Thread S A) (s : S) (r : Result A × S)
        → Runs Change t s r
        → Safe Q t s
        → Succeeds Q r
    unfolding Safe
    Runs-Safe Q _ s _ (ended a _) h = record { value = a; result = refl; after = h s (none_made s) }
    Runs-Safe Q t s r (interrupted _ _ s' _ c more) h =
        Runs-Safe Q t s' r more (Safe-change Q t s s' c h)
    Runs-Safe Q _ s r (proceeds x k _ b s' _ e more) h =
        Runs-Safe Q (k b) s' r more (Safe-proceeds Q k b s' (x s) e (h s (none_made s)))
    Runs-Safe Q _ s _ (stops x k _ e s' thrown) h =
        let bad : ok (h s (none_made s)).value ≡ throws e =
          sym (h s (none_made s)).result ∙ ap (λ p. p.0) thrown in
        cc

    pub Safe-ends :
        (Q : A → S → Type 0) (a : A) → IsStable (Q a) → (s : S) → Q a s → Safe Q (ends a) s
    unfolding Safe
    Safe-ends Q a st s h = λ s' cs. Changes-IsStable (Q a) st s s' cs h

    pub Safe-step :
        {B : Type 0} (Q : A → S → Type 0) (I : S → Type 0) (x : Exec S B) (k : B → Thread S A)
        → IsStable I
        → ((s : S) → I s → Succeeds (λ b. Safe Q (k b)) (x s))
        → (s : S) → I s
        → Safe Q (step x k) s
    unfolding Safe
    Safe-step Q I x k st run s h = λ s' cs. run s' (Changes-IsStable I st s s' cs h)

  pub Safe-bind :
      {A B : Type 0} (Q : A → S → Type 0) (R : B → S → Type 0) (t : Thread S A) (f : A → Thread S B)
      (s : S)
      → Safe Q t s
      → ((a : A) (s' : S) → Q a s' → Safe R (f a) s')
      → Safe R (t >>= f) s
  unfolding ◌>>=◌ Safe
  Safe-bind Q R (ends a) f s h k = k a s (h s (none_made s))
  Safe-bind Q R (step x k) f s h after = λ s' cs. record {
    value = (h s' cs).value;
    result = (h s' cs).result;
    after = Safe-bind Q R (k (h s' cs).value) f (x s').1 (h s' cs).after after;
  }

  pub Safe-atomic :
      {A : Type 0} (Q : A → S → Type 0) (I : S → Type 0) (x : Exec S A)
      → IsStable I
      → ((a : A) → IsStable (Q a))
      → ((s : S) → I s → Succeeds Q (x s))
      → (s : S) → I s
      → Safe Q (atomic x) s
  Safe-atomic Q I x st stable run = Safe-step Q I x ends st λ s h. record {
    value = (run s h).value;
    result = (run s h).result;
    after = Safe-ends Q (run s h).value (stable (run s h).value) (x s).1 (run s h).after;
  }
