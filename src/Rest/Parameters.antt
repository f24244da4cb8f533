-- ===== src/Rest/Parameters.antt =====
-- The parameters of a job in a request.
use kiwibes.Prelude.{
  ◌%◌, ◌^◌, Bool, true, false, ◌&&◌, Bool-cases, inl, inr, String, ◌≡◌, refl, ◌∙◌, Option, some,
  arith,
}
use kiwibes.Prelude.Int.{ℤ, pos, to_u64, to_time}
use kiwibes.CStdlib.{stol}
use kiwibes.Exec.{bind-ok, Exception, Result, ok, throws}
use kiwibes.Platform.{Platform}
use kiwibes.Platform.Laws.{PlatformLaws}
use kiwibes.Database.Table.{cell}
use kiwibes.Rest.{Request, Context, assign}
use kiwibes.Rest.Jobs.{
  read_job_parameters, values, param_schedule, read_max_runtime, read_schedule, read_program,
}

-- The request has the three parameters of a job, and the maximum runtime is a number.
pub record IsComplete (req : Request) (max_runtime : ℤ) : Type 0 where
  pub timed : req.has_param "max-runtime" ≡ true
  pub number : stol (req.get_param_value "max-runtime" 0) ≡ ok max_runtime
  pub scheduled : req.has_param "schedule" ≡ true
  pub programmed : req.has_param "program" ≡ true

module _ ⦃P : Platform⦄ where
  open P use {
    Json, null, member, of_int, of_string, of_strings, get_string, get_strings, get_time, get_ulong,
    is_map,
  }

  -- The parameters are read into an object with these members.
  pub record HoldsParameters (req : Request) (n : ℤ) (c : Context) : Type 0 where
    pub params : Json
    pub result : read_job_parameters req c ≡ (ok (true, params), c)
    pub program :
        cell get_strings "program" (member params)
        ≡ some (values req "program" 0 (req.get_param_value_count "program"))
    pub schedule :
        cell get_string "schedule" (member params) ≡ some (req.get_param_value "schedule" 0)
    pub max_runtime : cell get_time "max-runtime" (member params) ≡ some (to_time (pos (to_u64 n)))
    pub unsigned : cell get_ulong "max-runtime" (member params) ≡ some (to_u64 n % 2 ^ 64)

  and_true : (b : Bool) → (b && true) ≡ b
  and_true true = refl
  and_true false = refl

  and_false : (b : Bool) → (b && false) ≡ false
  and_false true = refl
  and_false false = refl

  cell_of_member :
      {A : Type 0} (get : Json → Option A) (key : String) (v x : Json) (a : A)
      → member v key ≡ some x
      → get x ≡ some a
      → cell get key (member v) ≡ some a
  cell_of_member get key v x a e g = rw (e, cell) g

  pub param_schedule_lem :
      (params : Json) (schedule : String) (c : Context)
      → cell get_string "schedule" (member params) ≡ some schedule
      → param_schedule params c ≡ (ok schedule, c)
  unfolding param_schedule
  param_schedule_lem params schedule c h = ground arith

  pub read_job_parameters_throws :
      (req : Request) (e : Exception) (c : Context)
      → req.has_param "max-runtime" ≡ true
      → stol (req.get_param_value "max-runtime" 0) ≡ throws e
      → read_job_parameters req c ≡ (throws e, c)
  unfolding read_job_parameters
  read_job_parameters_throws req e c there bad = rw (there, bad, read_job_parameters) refl

  module _ (L : PlatformLaws P) where
    -- `read_job_parameters` of a request that has the three parameters of a job, the maximum
    -- runtime being a number for `std::stol`, ends without an exception, changes nothing, and
    -- returns true and an object that holds the values of the program, the schedule, and the
    -- maximum runtime as an `unsigned long`.
    pub read_job_parameters-HoldsParameters :
        (req : Request) (n : ℤ) (c : Context) → IsComplete req n → HoldsParameters req n c
    unfolding read_job_parameters assign
    read_job_parameters-HoldsParameters req n c h =
        let (v1, e1) =
          L.set_member-total null "max-runtime" (of_int (pos (to_u64 n))) L.is_map-null in
        let m1 = L.is_map-set_member null "max-runtime" _ v1 e1 in
        let (v2, e2) =
          L.set_member-total v1 "schedule" (of_string (req.get_param_value "schedule" 0)) m1 in
        let m2 = L.is_map-set_member v1 "schedule" _ v2 e2 in
        let (v3, e3) =
          L.set_member-total v2 "program"
            (of_strings (values req "program" 0 (req.get_param_value_count "program"))) m2 in
        let timed =
          L.member-set_member v2 "program" _ v3 "max-runtime" e3
          ∙ L.member-set_member v1 "schedule" _ v2 "max-runtime" e2
          ∙ L.member-set_member null "max-runtime" _ v1 "max-runtime" e1 in
        record {
          params = v3;
          result =
              rw (h.timed, h.number, e1, h.scheduled, e2, h.programmed, e3, read_job_parameters)
                refl;
          program =
              cell_of_member get_strings "program" v3 _ _
                (L.member-set_member v2 "program" _ v3 "program" e3) (L.get-of_strings _);
          schedule =
              cell_of_member get_string "schedule" v3 _ _
                (L.member-set_member v2 "program" _ v3 "schedule" e3
                  ∙ L.member-set_member v1 "schedule" _ v2 "schedule" e2)
                (L.get-of_string _);
          max_runtime = cell_of_member get_time "max-runtime" v3 _ _ timed (L.get_time-of_int _);
          unsigned = cell_of_member get_ulong "max-runtime" v3 _ _ timed (L.get_ulong-of_int _);
        }

    -- A step of the reading that changes the flag and the object only.
    pub record Reads (b : Bool) (c : Context) (r : Result (Bool × Json) × Context) : Type 0 where
      pub object : Json
      pub fine : is_map object ≡ true
      pub equal : r ≡ (ok (b, object), c)

    read_max_runtime-Reads :
        (req : Request) (n : ℤ) (c : Context)
        → (req.has_param "max-runtime" ≡ true → stol (req.get_param_value "max-runtime" 0) ≡ ok n)
        → Reads (req.has_param "max-runtime") c (read_max_runtime req null c)
    unfolding read_max_runtime assign
    read_max_runtime-Reads req n c h =
        let (v, e) =
          L.set_member-total null "max-runtime" (of_int (pos (to_u64 n))) L.is_map-null in
        elim (Bool-cases (req.has_param "max-runtime")) [
          | inl there ↦ record {
            object = v;
            fine = L.is_map-set_member null "max-runtime" _ v e;
            equal = rw (there, h there, e) refl;
          }
          | inr absent ↦ record { object = null; fine = L.is_map-null; equal = rw absent refl }
        ]

    read_schedule-Reads :
        (req : Request) (b : Bool) (v : Json) (c : Context)
        → is_map v ≡ true
        → Reads (b && req.has_param "schedule") c (read_schedule req (b, v) c)
    unfolding read_schedule assign
    read_schedule-Reads req b v c h =
        let (w, e) =
          L.set_member-total v "schedule" (of_string (req.get_param_value "schedule" 0)) h in
        elim (Bool-cases (req.has_param "schedule")) [
          | inl there ↦ record {
            object = w;
            fine = L.is_map-set_member v "schedule" _ w e;
            equal = rw (there, e, and_true b) refl;
          }
          | inr absent ↦ record { object = v; fine = h; equal = rw (absent, and_false b) refl }
        ]

    read_program-Reads :
        (req : Request) (b : Bool) (v : Json) (c : Context)
        → is_map v ≡ true
        → Reads (b && req.has_param "program") c (read_program req (b, v) c)
    unfolding read_program assign
    read_program-Reads req b v c h =
        let (w, e) =
          L.set_member-total v "program"
            (of_strings (values req "program" 0 (req.get_param_value_count "program"))) h in
        elim (Bool-cases (req.has_param "program")) [
          | inl there ↦ record {
            object = w;
            fine = L.is_map-set_member v "program" _ w e;
            equal = rw (there, e, and_true b) refl;
          }
          | inr absent ↦ record { object = v; fine = h; equal = rw (absent, and_false b) refl }
        ]

    pub read_job_parameters-Reads :
        (req : Request) (n : ℤ) (c : Context)
        → (req.has_param "max-runtime" ≡ true → stol (req.get_param_value "max-runtime" 0) ≡ ok n)
        → Reads
            (req.has_param "max-runtime" && req.has_param "schedule" && req.has_param "program")
            c
            (read_job_parameters req c)
    unfolding read_job_parameters
    read_job_parameters-Reads req n c h =
        let r1 = read_max_runtime-Reads req n c h in
        let r2 = read_schedule-Reads req (req.has_param "max-runtime") r1.object c r1.fine in
        let r3 =
          read_program-Reads req (req.has_param "max-runtime" && req.has_param "schedule") r2.object
            c r2.fine in
        record {
          object = r3.object;
          fine = r3.fine;
          equal = bind-ok (read_max_runtime req null) _ c _ c _ r1.equal (
              bind-ok (read_schedule req (req.has_param "max-runtime", r1.object)) _ c _ c _
                r2.equal r3.equal);
        }
