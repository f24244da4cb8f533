-- ===== src/Server/Rules.antt =====
-- Rules for the blocks of the handlers: what they keep, and how they end.
use kiwibes.Prelude.{
  ℕ, String, ◌≡◌, refl, sym, subst, ap, Bool, true, false, if◌then◌else◌, Bool-cases, inl, inr,
}
use kiwibes.Errors.{KiwibesError, is_ok, is_ok-no_error}
use kiwibes.Exec.{Exec, Exception, Result, ok, throws, continue, ◌>>=◌, ◌>>◌, pure}
use kiwibes.Platform.{Platform}
use kiwibes.Platform.Laws.{PlatformLaws}
use kiwibes.Database.{Database}
use kiwibes.Database.Spec.{Jobs, Refines}
use kiwibes.Manager.{Manager}
use kiwibes.Manager.Invariant.{IsManaged}
use kiwibes.Scheduler.{Scheduler}
use kiwibes.DataStore.{DataStore}
use kiwibes.Rest.{
  Request, Context, on_manager, on_database, on_scheduler, on_data_store, set_status, set_content,
  set_return_code, guarded, is_authorized,
}
use kiwibes.Rest.Access.{set_return_code-Reports}
use kiwibes.Rest.Creation.{return_ok}
use kiwibes.Server.Running.{RunsAlike, on_database-IsManaged}

-- A block ends with a value, or with an exception of a given kind.
pub data Ends (bad : Exception → Type 0) {A : Type 0} : Result A → Type 0 where
  value : {a : A} → Ends bad (ok a)
  exception : {e : Exception} → bad e → Ends bad (throws e)

module _ ⦃P : Platform⦄ where
  -- The block keeps the manager's invariant, and ends like this.
  pub record Serves (bad : Exception → Type 0) {A : Type 0} (r : Result A × Context) : Type 0 where
    pub managed : IsManaged r.1.scheduler.manager
    pub ends : Ends bad r.0

  module _ {bad : Exception → Type 0} where
    pub Serves-pure :
        {A : Type 0} (a : A) (c : Context) → IsManaged c.scheduler.manager → Serves bad (pure a c)
    Serves-pure a c h = record { managed = h; ends = value }

    pub Serves-throws :
        {A : Type 0} (e : Exception) (c : Context)
        → IsManaged c.scheduler.manager
        → bad e
        → Serves bad {A = A} (throws e, c)
    Serves-throws e c h b = record { managed = h; ends = exception b }

    continue-Serves :
        {A B : Type 0} (r : Result A) (f : A → Exec Context B) (c : Context)
        → IsManaged c.scheduler.manager
        → Ends bad r
        → ((a : A) → r ≡ ok a → Serves bad (f a c))
        → Serves bad (continue r f c)
    continue-Serves (ok a) f c h value k = k a refl
    continue-Serves (throws e) f c h (exception b) k = Serves-throws e c h b

    pub Serves-bind :
        {A B : Type 0} (x : Exec Context A) (f : A → Exec Context B) (c : Context)
        → Serves bad (x c)
        → ((a : A) (c' : Context)
            → x c ≡ (ok a, c')
            → IsManaged c'.scheduler.manager
            → Serves bad (f a c'))
        → Serves bad ((x >>= f) c)
    Serves-bind x f c s k =
        continue-Serves (x c).0 f (x c).1 s.managed s.ends
          λ a e. k a (x c).1 (ap (λ r. (r, (x c).1)) e) s.managed

    pub Serves-manager :
        {A : Type 0} (f : Exec Manager A) (c : Context) (a : A)
        → (f c.scheduler.manager).0 ≡ ok a
        → IsManaged (f c.scheduler.manager).1
        → Serves bad (on_manager f c)
    Serves-manager f c a e h = record { managed = h; ends = subst (Ends bad) (sym e) value }

    pub Serves-database :
        {A : Type 0} (f : Exec Database A) (c : Context) (h : IsManaged c.scheduler.manager)
        (spec : A × Jobs)
        → Refines (f c.scheduler.manager.database) spec
        → RunsAlike h.system.jobs spec.1
        → Serves bad (on_database f c)
    Serves-database f c h spec r a = record {
      managed = on_database-IsManaged f c.scheduler.manager h spec r a;
      ends = subst (Ends bad) (sym r.result) value;
    }

    pub Serves-scheduler :
        {A : Type 0} (f : Exec Scheduler A) (c : Context) (a : A)
        → IsManaged c.scheduler.manager
        → (f c.scheduler).0 ≡ ok a
        → (f c.scheduler).1.manager ≡ c.scheduler.manager
        → Serves bad (on_scheduler f c)
    Serves-scheduler f c a h e same = record {
      managed = subst IsManaged (sym same) h;
      ends = subst (Ends bad) (sym e) value;
    }

    pub Serves-data_store :
        {A : Type 0} (f : DataStore → A × DataStore) (c : Context)
        → IsManaged c.scheduler.manager
        → Serves bad (on_data_store f c)
    Serves-data_store f c h = record { managed = h; ends = value }

    pub Serves-send :
        (status : ℕ) (body content_type : String) (c : Context)
        → IsManaged c.scheduler.manager
        → Serves bad ((set_status status >> set_content body content_type) c)
    Serves-send status body content_type c h = record { managed = h; ends = value }

    pub Serves-if :
        {A : Type 0} (b : Bool) (x y : Exec Context A) (c : Context)
        → Serves bad (x c)
        → Serves bad (y c)
        → Serves bad ((if b then x else y) c)
    Serves-if true x y c s t = s
    Serves-if false x y c s t = t

    pub Serves-guarded :
        (req : Request) (answer : Exec Context KiwibesError) (c : Context)
        → IsManaged c.scheduler.manager
        → Serves bad (answer c)
        → Serves bad (guarded req answer c)
    Serves-guarded req answer c h s =
        Serves-if (is_authorized req c.authentication) _ _ c s (Serves-pure _ c h)

    pub Serves-return :
        (L : PlatformLaws P) (error : KiwibesError) (c : Context)
        → IsManaged c.scheduler.manager
        → Serves bad (set_return_code error c)
    Serves-return L error c h = elim (Bool-cases (is_ok error)) [
      | inl fine ↦
          let same = is_ok-no_error error fine in
          rw (same, return_ok L c) (record { managed = h; ends = value })
      | inr fails ↦
          let r = set_return_code-Reports L error c fails in
          record {
            managed = subst (λ (d : Context). IsManaged d.scheduler.manager) (sym r.after) h;
            ends = subst (Ends bad) (sym r.result) value;
          }
    ]
