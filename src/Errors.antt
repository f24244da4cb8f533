-- ===== src/Errors.antt =====
-- source/kiwibes_errors.h: the error conditions, in the order of the enumeration.
use kiwibes.Prelude.{Bool, true, false, ◌≡◌, refl}

pub data KiwibesError : Type 0 where
  no_error cmdline_parse cmdline_inv_log_level cmdline_inv_log_max_size : KiwibesError
  cmdline_inv_data_store_max_size cmdline_inv_home no_database_file json_parse_fail : KiwibesError
  main_interrupted job_name_unknown job_name_taken job_description_invalid : KiwibesError
  empty_rest_request job_is_running job_is_not_running job_schedule_invalid : KiwibesError
  process_launch_failed data_key_taken data_key_unknown data_store_full : KiwibesError
  authentication_fail https_certs_fail : KiwibesError

-- `ERROR_NO_ERROR == error`
abbrev pub is_ok : KiwibesError → Bool
is_ok no_error = true
is_ok _ = false

pub is_ok-no_error : (error : KiwibesError) → is_ok error ≡ true → error ≡ no_error
is_ok-no_error no_error h = refl
is_ok-no_error _ h = cc
