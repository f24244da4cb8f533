-- ===== src/Rest/Outcomes.antt =====
-- What the reading of the parameters of a job ends in, for every request.
use kiwibes.Prelude.{ap, Bool, true, false, Bool-cases, inl, inr, ◌≡◌, refl, ◌∙◌, arith}
use kiwibes.Prelude.Int.{ℤ, pos}
use kiwibes.CStdlib.{stol}
use kiwibes.Exec.{Exception, Result, ok, throws}
use kiwibes.Platform.{Platform}
use kiwibes.Platform.Laws.{PlatformLaws}
use kiwibes.Rest.{Request, Context}
use kiwibes.Rest.Jobs.{read_job_parameters}
use kiwibes.Rest.Parameters.{
  HoldsParameters, read_job_parameters-HoldsParameters, read_job_parameters-Reads,
  read_job_parameters_throws,
}

module _ ⦃P : Platform⦄ where
  open P use {
    Json, null, member, of_int, of_string, of_strings, get_string, get_strings, get_time, get_ulong,
    is_map,
  }

  -- What the reading of any request ends in.
  pub data Outcome (req : Request) (c : Context) : Type 0 where
    refused :
        {e : Exception}
        → stol (req.get_param_value "max-runtime" 0) ≡ throws e
        → read_job_parameters req c ≡ (throws e, c)
        → Outcome req c
    incomplete :
        (params : Json) → read_job_parameters req c ≡ (ok (false, params), c) → Outcome req c
    complete : (n : ℤ) → HoldsParameters req n c → Outcome req c

  module _ (L : PlatformLaws P) where
    of_number :
        (req : Request) (c : Context) (r : Result ℤ)
        → req.has_param "max-runtime" ≡ true
        → stol (req.get_param_value "max-runtime" 0) ≡ r
        → Outcome req c
    of_number req c (throws e) there bad =
        refused bad (read_job_parameters_throws req e c there bad)
    of_number req c (ok n) there fine =
        let r = read_job_parameters-Reads L req n c (λ t. fine) in
        elim (Bool-cases (req.has_param "schedule")) [
          | inr absent ↦
              incomplete r.object
                (r.equal ∙ ap (λ (b : Bool). (ok (b, r.object), c)) (ground arith))
          | inl scheduled ↦ elim (Bool-cases (req.has_param "program")) [
            | inr absent ↦
                incomplete r.object
                  (r.equal ∙ ap (λ (b : Bool). (ok (b, r.object), c)) (ground arith))
            | inl programmed ↦ complete n (
                read_job_parameters-HoldsParameters L req n c (record {
                  timed = there;
                  number = fine;
                  scheduled = scheduled;
                  programmed = programmed;
                }))
          ]
        ]

    -- `read_job_parameters` of any request changes nothing and does one of three things: it ends
    -- with the exception of `std::stol` on the maximum runtime that the request has, or returns
    -- false, or returns true and an object that holds the values of the program, the schedule, and
    -- the maximum runtime as an `unsigned long`.
    pub read_job_parameters-Outcome : (req : Request) (c : Context) → Outcome req c
    read_job_parameters-Outcome req c = elim (Bool-cases (req.has_param "max-runtime")) [
      | inl there ↦ of_number req c (stol (req.get_param_value "max-runtime" 0)) there refl
      | inr absent ↦
          let r = read_job_parameters-Reads L req (pos 0) c (λ there. absurd cc) in
          incomplete r.object (r.equal ∙ ap (λ (b : Bool). (ok (b, r.object), c)) (ground arith))
    ]
