-- ===== src/Exec.antt =====
-- Member functions that change an object and may end in an exception. What was written before the
-- exception stays written, so the object comes back beside it.
pub mod Preserves
use kiwibes.Prelude.{Option, none, some, ◌≡◌}

-- The code catches `parse_error` alone.
pub data Exception : Type 0 where
  parse_error type_error invalid_iterator out_of_range invalid_argument : Exception

pub data Result {ℓ} (A : Type ℓ) : Type ℓ where
  ok : A → Result A
  throws : Exception → Result A

abbrev pub Exec : Type 0 → Type 0 → Type 0
Exec S A = S → Result A × S

-- The handler `catch(parse_error &)`, which goes on with a value.
unfoldable pub catch_parse_error : {S A : Type 0} → A → Exception → Exec S A
catch_parse_error a parse_error s = (ok a, s)
catch_parse_error a type_error s = (throws type_error, s)
catch_parse_error a invalid_iterator s = (throws invalid_iterator, s)
catch_parse_error a out_of_range s = (throws out_of_range, s)
catch_parse_error a invalid_argument s = (throws invalid_argument, s)

module _ {S A B : Type 0} where
  abbrev pub continue : Result A → (A → Exec S B) → Exec S B
  continue (ok a) f s = f a s
  continue (throws e) f s = (throws e, s)

  infixl 10 ◌>>=◌ ◌>>◌
  abbrev pub ◌>>=◌ : Exec S A → (A → Exec S B) → Exec S B
  ◌>>=◌ m f s = continue (m s).0 f (m s).1

  abbrev pub ◌>>◌ : Exec S A → Exec S B → Exec S B
  m >> n = m >>= λ _. n

module _ {S A : Type 0} where
  abbrev pub pure : A → Exec S A
  pure a s = (ok a, s)

  -- The value, or the exception where there is none.
  abbrev pub demand : Exception → Option A → Exec S A
  demand e none s = (throws e, s)
  demand e (some a) s = (ok a, s)

module _ {S A B : Type 0} where
  -- A bind whose first part has ended with a value.
  pub bind-ok :
      (m : Exec S A) (f : A → Exec S B) (s : S) (a : A) (s' : S) (r : Result B × S)
      → m s ≡ (ok a, s')
      → f a s' ≡ r
      → (m >>= f) s ≡ r
  bind-ok m f s a s' r e g = rw e g
