-- ===== src/Rest/Exceptions.antt =====
-- A maximum runtime that is not a number.
use kiwibes.Prelude.{ℕ, ◌≡◌, refl, true}
use kiwibes.CStdlib.{stol}
use kiwibes.Exec.{Exception, throws}
use kiwibes.Platform.{Platform}
use kiwibes.Rest.{Request, Context, is_authorized}
use kiwibes.Rest.Jobs.{rest_post_create_job, rest_post_edit_job}
use kiwibes.Rest.Parameters.{read_job_parameters_throws}

module _ ⦃P : Platform⦄ where
  -- If a request with a valid token to create or to edit a job has a maximum runtime that
  -- `std::stol` refuses, then its exception leaves the handler, which has changed nothing and has
  -- set no answer.
  pub max_runtime-throws :
      (req : Request) (now address : ℕ) (e : Exception) (c : Context)
      → is_authorized req c.authentication ≡ true
      → req.has_param "max-runtime" ≡ true
      → stol (req.get_param_value "max-runtime" 0) ≡ throws e
      → (rest_post_create_job req now address c ≡ (throws e, c))
        × (rest_post_edit_job req now address c ≡ (throws e, c))
  unfolding rest_post_create_job rest_post_edit_job
  max_runtime-throws req now address e c auth there bad = (
    rw (auth, read_job_parameters_throws req e c there bad) refl,
    rw (auth, read_job_parameters_throws req e c there bad) refl,
  )
