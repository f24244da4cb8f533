-- ===== src/Interleaving.antt =====
-- Operations that other threads interrupt. A thread is its operation cut into steps, each of them
-- made under a lock; between two steps the other threads may change what the lock protects.
pub mod Safety
pub mod Operations
pub mod Alone
pub mod Others
pub mod Stages
pub mod Launching
pub mod Keeping
pub mod Turns
pub mod Orphans
pub mod Steps
use kiwibes.Prelude.{◌≡◌, refl}
use kiwibes.Exec.{Exec, Result, ok, throws, Exception, continue, pure}
use kiwibes.Exec

pub data Thread (S A : Type 0) : Type 1 where
  ends : A → Thread S A
  step : {B : Type 0} → Exec S B → (B → Thread S A) → Thread S A

module _ {S A B : Type 0} where
  infixl 10 ◌>>=◌ ◌>>◌
  unfoldable pub ◌>>=◌ : Thread S A → (A → Thread S B) → Thread S B
  ends a >>= f = f a
  step x k >>= f = step x (λ b. k b >>= f)

  abbrev pub ◌>>◌ : Thread S A → Thread S B → Thread S B
  t >> u = t >>= λ _. u

module _ {S A : Type 0} where
  -- A call that is made under the lock.
  abbrev pub atomic : Exec S A → Thread S A
  atomic x = step x ends

  -- The run of a thread that no other interrupts.
  unfoldable pub alone : Thread S A → Exec S A
  alone (ends a) s = (ok a, s)
  alone (step x k) s = continue (x s).0 (λ b. alone (k b)) (x s).1

  -- The runs of a thread with any changes by others before each of its steps and after the last.
  pub data Runs (Change : S → S → Type 0) : Thread S A → S → Result A × S → Type 1 where
    ended : (a : A) (s : S) → Runs Change (ends a) s (ok a, s)
    interrupted :
        (t : Thread S A) (s s' : S) (r : Result A × S)
        → Change s s'
        → Runs Change t s' r
        → Runs Change t s r
    proceeds :
        {B : Type 0} (x : Exec S B) (k : B → Thread S A) (s : S) (b : B) (s' : S) (r : Result A × S)
        → x s ≡ (ok b, s')
        → Runs Change (k b) s' r
        → Runs Change (step x k) s r
    stops :
        {B : Type 0} (x : Exec S B) (k : B → Thread S A) (s : S) (e : Exception) (s' : S)
        → x s ≡ (throws e, s')
        → Runs Change (step x k) s (throws e, s')
