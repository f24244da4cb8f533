-- ===== src/Database/Table.antt =====
-- The database as a table of rows, and rules for the blocks that read and write its cells.
use mathlib.Core.Path.{fun_ext}
use kiwibes.Prelude.{
  String, ◌≡◌, refl, sym, subst, ◌∙◌, ap, Option, none, some, true, ◌==◌, eq_iff, eq_refl,
  if◌then◌else◌, arith, Option-cases, Bool-cases, inl, inr,
}
use kiwibes.Exec.{continue, Exec, Result, ok, ◌>>=◌, ◌>>◌, pure}
use kiwibes.Platform.{Platform}
use kiwibes.Platform.Laws.{PlatformLaws}
use kiwibes.Database.{Database, field, set_field, or_null, unsafe_save}

module _ ⦃P : Platform⦄ where
  open P use {Json, member, is_map, null}

  abbrev pub Row : Type 0
  Row = String → Option Json

  abbrev pub Table : Type 0
  Table = String → Option Row

  abbrev pub row_of : Option Json → Option Row
  row_of none = none
  row_of (some job) = some (member job)

  abbrev pub rows : Database → Table
  rows db name = row_of (member db.jobs name)

  abbrev pub put_key : String → Json → Option Row → Row
  put_key key x none k = if key == k then some x else none
  put_key key x (some row) k = if key == k then some x else row k

  abbrev pub put_row : String → Option Row → Table → Table
  put_row name row t n = if name == n then row else t n

  abbrev pub put_cell : String → String → Json → Table → Table
  put_cell name key x t = put_row name (some (put_key key x (t name))) t

  -- The value of a cell at a type.
  abbrev pub cell : {A : Type 0} → (Json → Option A) → String → Row → Option A
  cell get key row = elim (row key) [ none ↦ none | some v ↦ get v ]

  abbrev pub cell_at : {A : Type 0} → (Json → Option A) → String → Option Row → Option A
  cell_at get key none = none
  cell_at get key (some row) = cell get key row

  -- The database is an object of objects, with these rows.
  pub record Shows (db : Database) (t : Table) : Type 0 where
    pub root : is_map db.jobs ≡ true
    pub objects : (name : String) (job : Json) → member db.jobs name ≡ some job → is_map job ≡ true
    pub shown : (name : String) → rows db name ≡ t name

  -- The block has ended with the value, and has left the rows.
  pub record Returns {A : Type 0} (r : Result A × Database) (a : A) (t : Table) : Type 0 where
    pub result : r.0 ≡ ok a
    pub left : Shows r.1 t

  pub Returns-pure :
      {A : Type 0} (a : A) (db : Database) (t : Table) → Shows db t → Returns (pure a db) a t
  Returns-pure a db t s = record { result = refl; left = s }

  field_lem :
      {A : Type 0} (get : Json → Option A) (name key : String) (db : Database) (a : A)
      → cell_at get key (rows db name) ≡ some a
      → field get name key db ≡ (ok a, db)
  unfolding field
  field_lem get name key db a e = ground arith

  pub Returns-field :
      {A B : Type 0} (get : Json → Option A) (name key : String) (f : A → Exec Database B)
      (db : Database) (t u : Table) (a : A) (b : B)
      → Shows db t
      → cell_at get key (t name) ≡ some a
      → Returns (f a db) b u
      → Returns ((field get name key >>= f) db) b u
  Returns-field {A} {B} get name key f db t u a b s e r =
      subst (λ (p : Result A × Database). Returns (continue p.0 f p.1) b u)
        (sym (field_lem get name key db a (rw s.shown e))) r

  pub Returns-save :
      {B : Type 0} (k : Exec Database B) (db : Database) (t u : Table) (b : B)
      → Shows db t
      → ((db' : Database) → Shows db' t → Returns (k db') b u)
      → Returns ((unsafe_save >> k) db) b u
  unfolding unsafe_save
  Returns-save k db t u b s r = r _ (record { root = s.root; objects = s.objects; shown = s.shown })

  module _ (L : PlatformLaws P) where
    pub null_member : (k : String) → member null k ≡ none
    null_member k = rw (L.member-items null k, L.items-null)

    put_key-member :
        (o : Option Json) (key : String) (x job : Json)
        → P.set_member (or_null o) key x ≡ some job
        → member job ≡ put_key key x (row_of o)
    unfolding or_null
    put_key-member none key x job e =
        fun_ext λ k. L.member-set_member null key x job k e ∙ rw (null_member k) refl
    put_key-member (some v) key x job e = fun_ext λ k. L.member-set_member v key x job k e

    or_null-is_map :
        (db : Database) (t : Table) (name : String)
        → Shows db t
        → is_map (or_null (member db.jobs name)) ≡ true
    unfolding or_null
    or_null-is_map db t name s = elim (Option-cases (member db.jobs name)) [
      | inl e ↦ rw e L.is_map-null
      | inr (j, e) ↦ rw e (s.objects name j e)
    ]

    set_field-eq :
        (name key : String) (x : Json) (db : Database) (job jobs : Json)
        → P.set_member (or_null (member db.jobs name)) key x ≡ some job
        → P.set_member db.jobs name job ≡ some jobs
        → set_field name key x db ≡ (ok tt, record db { jobs = jobs })
    unfolding set_field
    set_field-eq name key x db job jobs e f = ground arith

    set_field_lem :
        (name key : String) (x : Json) (db : Database) (t : Table) (job jobs : Json)
        → P.set_member (or_null (member db.jobs name)) key x ≡ some job
        → P.set_member db.jobs name job ≡ some jobs
        → Shows db t
        → Shows (record db { jobs = jobs }) (put_cell name key x t)
    set_field_lem name key x db t job jobs e f s = record {
      root = L.is_map-set_member db.jobs name job jobs f;
      objects = λ n j h. ground (
        arith,
        L.member-set_member db.jobs name job jobs n f,
        L.is_map-set_member (or_null (member db.jobs name)) key x job e,
        s.objects n j,
      );
      shown = λ n.
          rw (L.member-set_member db.jobs name job jobs n f) (elim (Bool-cases (name == n)) [
            | inl h ↦ rw h (ap some (rw (← s.shown name) (put_key-member _ key x job e)))
            | inr h ↦ rw h (s.shown n)
          ]);
    }

    pub Returns-set_field :
        {B : Type 0} (name key : String) (x : Json) (k : Exec Database B) (db : Database)
        (t u : Table) (b : B)
        → Shows db t
        → ((db' : Database) → Shows db' (put_cell name key x t) → Returns (k db') b u)
        → Returns ((set_field name key x >> k) db) b u
    Returns-set_field {B} name key x k db t u b s r =
        let (job, e) =
          L.set_member-total (or_null (member db.jobs name)) key x (or_null-is_map db t name s) in
        let (jobs, f) = L.set_member-total db.jobs name job s.root in
        subst (λ (p : Result Unit × Database). Returns (continue p.0 (λ _. k) p.1) b u)
          (sym (set_field-eq name key x db job jobs e f))
          (r (record db { jobs = jobs }) (set_field_lem name key x db t job jobs e f s))

    -- The same rules at the row of one job, present or not.
    pub Shows-put_row :
        (name : String) (o : Option Row) (db : Database) (t : Table)
        → Shows db t
        → t name ≡ o
        → Shows db (put_row name o t)
    Shows-put_row name o db t s e = record {
      root = s.root;
      objects = s.objects;
      shown = λ n. ground (arith, s.shown n, eq_iff name n, e);
    }

    Shows-put_cell :
        (name key : String) (x : Json) (o : Option Row) (db : Database) (t : Table)
        → Shows db (put_cell name key x (put_row name o t))
        → Shows db (put_row name (some (put_key key x o)) t)
    Shows-put_cell name key x o db t s = record {
      root = s.root;
      objects = s.objects;
      shown = λ n.
          s.shown n
          ∙ (elim (Bool-cases (name == n)) [ inl h ↦ rw (h, eq_refl name) | inr h ↦ rw h ]);
    }

    pub Returns-write :
        {B : Type 0} (name key : String) (x : Json) (k : Exec Database B) (o : Option Row)
        (db : Database) (t u : Table) (b : B)
        → Shows db (put_row name o t)
        → ((db' : Database)
            → Shows db' (put_row name (some (put_key key x o)) t)
            → Returns (k db') b u)
        → Returns ((set_field name key x >> k) db) b u
    Returns-write name key x k o db t u b s r =
        Returns-set_field name key x k db (put_row name o t) u b s
          λ db' s'. r db' (Shows-put_cell name key x o db' t s')

    pub Returns-read :
        {A B : Type 0} (get : Json → Option A) (name key : String) (f : A → Exec Database B)
        (o : Option Row) (db : Database) (t u : Table) (a : A) (b : B)
        → Shows db (put_row name o t)
        → cell_at get key o ≡ some a
        → Returns (f a db) b u
        → Returns ((field get name key >>= f) db) b u
    Returns-read get name key f o db t u a b s e r =
        Returns-field get name key f db (put_row name o t) u a b s (rw (eq_refl name) e) r
