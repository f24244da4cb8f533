-- ===== src/Rest.antt =====
-- source/kiwibes_rest.cpp and .h: the REST interface. Here: requests, responses and error codes.
pub mod Jobs
pub mod Data
pub mod Routes
pub mod Access
pub mod Storing
pub mod Parameters
pub mod Outcomes
pub mod Creation
pub mod Exceptions
use kiwibes.Prelude.{ℕ, String, Option, none, some, List, [], ◌∷◌, Bool, true, if◌then◌else◌, ◌&&◌}
use kiwibes.Prelude.Int.{ℤ, pos}
use kiwibes.Errors.{
  KiwibesError, no_error, cmdline_parse, cmdline_inv_log_level, cmdline_inv_log_max_size,
  cmdline_inv_data_store_max_size, cmdline_inv_home, no_database_file, json_parse_fail,
  main_interrupted, job_name_unknown, job_name_taken, job_description_invalid, empty_rest_request,
  job_is_running, job_is_not_running, job_schedule_invalid, process_launch_failed, data_key_taken,
  data_key_unknown, data_store_full, authentication_fail, https_certs_fail, is_ok,
}
use kiwibes.Exec.{Exec, ok, type_error, ◌>>=◌, ◌>>◌, pure, demand}
use kiwibes.Platform.{Platform}
use kiwibes.Authentication.{Authentication, verify_auth_token}
use kiwibes.DataStore.{DataStore}
use kiwibes.Database.{Database}
use kiwibes.Manager.{Manager}
use kiwibes.Scheduler.{Scheduler}

-- A request of cpp-httplib: the parameters that the handlers ask for, and the text that the route's
-- pattern has captured.
pub record Request : Type 0 where
  pub has_param : String → Bool
  pub get_param_value : String → ℕ → String
  pub get_param_value_count : String → ℕ
  pub capture : String

pub record Response : Type 0 where
  pub status : ℕ
  pub body : String
  pub content_type : String

-- The value of an enumerator.
abbrev pub error_code : KiwibesError → ℕ
error_code no_error = 0
error_code cmdline_parse = 1
error_code cmdline_inv_log_level = 2
error_code cmdline_inv_log_max_size = 3
error_code cmdline_inv_data_store_max_size = 4
error_code cmdline_inv_home = 5
error_code no_database_file = 6
error_code json_parse_fail = 7
error_code main_interrupted = 8
error_code job_name_unknown = 9
error_code job_name_taken = 10
error_code job_description_invalid = 11
error_code empty_rest_request = 12
error_code job_is_running = 13
error_code job_is_not_running = 14
error_code job_schedule_invalid = 15
error_code process_launch_failed = 16
error_code data_key_taken = 17
error_code data_key_unknown = 18
error_code data_store_full = 19
error_code authentication_fail = 20
error_code https_certs_fail = 21

-- The `switch` of `set_return_code`.
unfoldable pub message : KiwibesError → String
message no_error = ""
message job_name_unknown = "Job not found"
message data_key_unknown = "Data key not found"
message data_store_full = "Not enough space in the data storage"
message job_name_taken = "Job name already exists"
message data_key_taken = "Data key already exists"
message process_launch_failed = "Failed to start job"
message job_description_invalid = "Bad request"
message empty_rest_request = "Bad request"
message job_schedule_invalid = "Invalid job schedule"
message job_is_not_running = "Job is not running"
message job_is_running = "Job is running"
message authentication_fail = "Authentication failed"
message _ = "Generic server error"

module _ ⦃P : Platform⦄ where
  open P use {Json, null, set_member, dump, of_string, of_int}

  -- The components that the handlers point to, and the response. The scheduler holds the manager, and
  -- the manager the database.
  pub record Context : Type 0 where
    pub scheduler : Scheduler
    pub data_store : DataStore
    pub authentication : Authentication
    pub response : Response

  abbrev pub on_scheduler : {A : Type 0} → Exec Scheduler A → Exec Context A
  on_scheduler f c = ((f c.scheduler).0, record c { scheduler = (f c.scheduler).1 })

  abbrev pub with_manager : Context → Manager → Context
  with_manager c m = record c { scheduler = record c.scheduler { manager = m } }

  abbrev pub on_manager : {A : Type 0} → Exec Manager A → Exec Context A
  on_manager f c = ((f c.scheduler.manager).0, with_manager c (f c.scheduler.manager).1)

  abbrev pub on_database : {A : Type 0} → Exec Database A → Exec Context A
  on_database f c =
      let r = f c.scheduler.manager.database in
      (r.0, with_manager c (record c.scheduler.manager { database = r.1 }))

  -- An operation of the data store, which throws no exception.
  abbrev pub on_data_store : {A : Type 0} → (DataStore → A × DataStore) → Exec Context A
  on_data_store f c = (ok (f c.data_store).0, record c { data_store = (f c.data_store).1 })

  abbrev pub set_status : ℕ → Exec Context Unit
  set_status n c = (ok tt, record c { response = record c.response { status = n } })

  abbrev pub set_content : String → String → Exec Context Unit
  set_content body content_type c = (
    ok tt,
    record c { response = record c.response { body = body; content_type = content_type } },
  )

  -- `v[key] = x`
  unfoldable pub assign : Json → String → Json → Exec Context Json
  assign v key x = demand type_error (set_member v key x)

  unfoldable pub describe : KiwibesError → Exec Context Json
  describe error = do
    numbered ← assign null "error" (of_int (pos (error_code error)))
    empty ← assign numbered "message" (of_string "")
    if is_ok error then pure empty else assign empty "message" (of_string (message error))

  unfoldable pub set_return_code : KiwibesError → Exec Context Unit
  set_return_code error = do
    description ← describe error
    if is_ok error
        then set_status 200
        else (do set_status 404; set_content (dump description) "application/json")

  -- The test on which every protected handler refuses a request is the negation of this one.
  unfoldable pub is_authorized : Request → Authentication → Bool
  is_authorized req a = req.has_param "auth" && verify_auth_token (req.get_param_value "auth" 0) a

  -- What the protected handlers share: the error of a request without a valid token, or the answer.
  abbrev pub guarded : Request → Exec Context KiwibesError → Exec Context KiwibesError
  guarded req answer c =
      (if is_authorized req c.authentication then answer else pure authentication_fail) c
