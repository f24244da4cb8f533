-- ===== src/Exec/Preserves.antt =====
-- Member functions that leave a part of the object as it is, whether they return or throw.
use kiwibes.Prelude.{◌≡◌, refl, ◌∙◌, ap, Option, none, some, Bool, true, false, if◌then◌else◌}
use kiwibes.Exec.{Exception, Result, ok, throws, continue, Exec, ◌>>=◌, pure, demand}

-- What `see` reads of the object is the same afterwards.
pub record Preserves {S V A : Type 0} (see : S → V) (x : Exec S A) : Type 0 where
  pub at : (s : S) → see (x s).1 ≡ see s

demand_same : {S A : Type 0} (e : Exception) (o : Option A) (s : S) → (demand e o s).1 ≡ s
demand_same e none s = refl
demand_same e (some a) s = refl

module _ {S V : Type 0} {see : S → V} where
  pub Preserves-pure : {A : Type 0} (a : A) → Preserves see (pure a)
  Preserves-pure a = record { at = λ s. refl }

  pub Preserves-demand : {A : Type 0} (e : Exception) (o : Option A) → Preserves see (demand e o)
  Preserves-demand e o = record { at = λ s. ap see (demand_same e o s) }

  pub Preserves-if :
      {A : Type 0} (b : Bool) (x y : Exec S A)
      → Preserves see x
      → Preserves see y
      → Preserves see (if b then x else y)
  Preserves-if true x y p q = p
  Preserves-if false x y p q = q

  pub continue_at :
      {A B : Type 0} (r : Result A) (f : A → Exec S B) (s : S)
      → ((a : A) → Preserves see (f a))
      → see (continue r f s).1 ≡ see s
  continue_at (ok a) f s q = (q a).at s
  continue_at (throws e) f s q = refl

  pub Preserves-bind :
      {A B : Type 0} (x : Exec S A) (f : A → Exec S B)
      → Preserves see x
      → ((a : A) → Preserves see (f a))
      → Preserves see (x >>= f)
  Preserves-bind x f p q = record { at = λ s. continue_at (x s).0 f (x s).1 q ∙ p.at s }
