-- ===== src/Examples/Access.antt =====
-- Requests and tokens on the small platform.
use kiwibes.Prelude.{◌≡◌, refl, some, none, [], ◌∷◌, false, arith, any, ◌==◌}
use kiwibes.Exec.{ok, throws, invalid_argument}
use kiwibes.Errors.{authentication_fail, job_schedule_invalid}
use kiwibes.DataStore
use kiwibes.Manager
use kiwibes.Scheduler
use kiwibes.Manager.{in_parent}
use kiwibes.Authentication.{Authentication, TokenFile, verify_auth_token, watch}
use kiwibes.Authentication.Following.{item, no_item, watch_all, watch-newer, watch-restored}
use kiwibes.Rest.{Request, Context, is_authorized}
use kiwibes.Rest.Routes.{dispatch, delete}
use kiwibes.Rest.Access.{Reports, dispatch-unauthorized}
use kiwibes.Examples.Toy.{toy, toy_laws, Value}
use kiwibes.Examples.Jobs.{one_job, sleeps, one_job-Stores}
use kiwibes.Cron
use kiwibes.CStdlib.{stol}
use kiwibes.Prelude.{if◌then◌else◌, String, ◌==◌, true}
use kiwibes.Prelude.Int.{pos}
use kiwibes.Database.{Database}
use kiwibes.Database.Spec.{Stores, put}
use kiwibes.Rest.Jobs.{rest_post_create_job, rest_post_edit_job}
use kiwibes.Rest.Parameters.{IsComplete}
use kiwibes.Rest.Exceptions.{max_runtime-throws}
use kiwibes.Rest.Creation.{with_database, requested_job, with_status, with_event, create-schedules}
use kiwibes.Rest.Creation.Withdrawal.{create-withdraws}

abbrev pub old_tokens : Authentication
old_tokens = record { tokens = "old" ∷ []; last_modified = 5; has_warned = false }

abbrev file : TokenFile
file = record { modified = 7; text = some "[\"secret\",\"other\"]" }

watch-newer_example :
    ((watch (some file) old_tokens).0 ≡ ok tt)
    × (verify_auth_token "secret" (watch (some file) old_tokens).1
        ≡ any (λ t. t == "secret") ("secret" ∷ "other" ∷ []))
watch-newer_example =
    watch-newer file "[\"secret\",\"other\"]" "secret" (Value.texts ("secret" ∷ "other" ∷ []))
      ("secret" ∷ "other" ∷ []) old_tokens (omega arith) refl refl (item refl (item refl no_item))

watch-restored_example :
    verify_auth_token "old" (
      watch_all
        (some (record { modified = 5; text = some "[]" }) ∷ none ∷ [])
        (watch none old_tokens).1)
    ≡ false
watch-restored_example =
    watch-restored (some (record { modified = 5; text = some "[]" }) ∷ none ∷ []) "old" old_tokens
      (omega arith, (tt, tt))

abbrev pub anonymous : Request
anonymous = record {
  has_param = λ key. false;
  get_param_value = λ key n. "";
  get_param_value_count = λ key. 0;
  capture = "sleep";
}

abbrev pub server : Context
server = record {
  scheduler = Scheduler.new (Manager.new (one_job false 0));
  data_store = DataStore.new 1;
  authentication = old_tokens;
  response = record { status = 200; body = ""; content_type = "" };
}

dispatch-unauthorized_example :
    Reports authentication_fail server
      (dispatch delete anonymous (record { fork = in_parent 41; now = 9; address = 100 }) server)
unfolding is_authorized
dispatch-unauthorized_example =
    dispatch-unauthorized toy_laws delete anonymous
      (record { fork = in_parent 41; now = 9; address = 100 }) server refl refl

-- A request with a token and all parameters of a job.
abbrev pub creates : String → Request
creates schedule = record {
  has_param = λ key. true;
  get_param_value = λ key n.
      if key == "auth"
      then "old"
      else if key == "schedule"
      then schedule
      else if key == "max-runtime"
      then "5"
      else "/bin/true";
  get_param_value_count = λ key. 1;
  capture = "nap";
}

creates-IsComplete : (schedule : String) → IsComplete (creates schedule) (pos 5)
unfolding stol
creates-IsComplete schedule = record {
  timed = refl;
  number = refl;
  scheduled = refl;
  programmed = refl;
}

create-withdraws_example :
    (db : Database) × Stores db (sleeps false 0)
    × Reports job_schedule_invalid
        (with_database server db)
        (rest_post_create_job (creates "bad") 9 100 server)
unfolding is_authorized verify_auth_token Cron.is_valid Cron.new Scheduler.new Manager.new
create-withdraws_example =
    create-withdraws toy_laws (creates "bad") 9 100 server (sleeps false 0) (pos 5) refl
      (creates-IsComplete "bad") refl (one_job-Stores false 0) refl (omega arith) refl

create-schedules_example :
    (db : Database) × Stores db
      (put "nap" (some (requested_job (creates "* * * * * *") (pos 5))) (sleeps false 0))
    × (rest_post_create_job (creates "* * * * * *") 9 100 server
        ≡ (ok tt, with_status 200 (with_event 9 100 "nap" "* * * * * *" (with_database server db))))
unfolding is_authorized verify_auth_token Cron.is_valid Cron.new Scheduler.new Manager.new
create-schedules_example =
    create-schedules toy_laws (creates "* * * * * *") 9 100 server (sleeps false 0) (pos 5) refl
      (creates-IsComplete "* * * * * *") (one_job-Stores false 0) refl (omega arith) refl

-- A request whose parameters are all the token.
abbrev pub confused : Request
confused = record {
  has_param = λ key. true;
  get_param_value = λ key n. "old";
  get_param_value_count = λ key. 1;
  capture = "sleep";
}

max_runtime-throws_example :
    (rest_post_create_job confused 9 100 server ≡ (throws invalid_argument, server))
    × (rest_post_edit_job confused 9 100 server ≡ (throws invalid_argument, server))
unfolding is_authorized verify_auth_token stol
max_runtime-throws_example =
    max_runtime-throws confused 9 100 invalid_argument server refl refl refl
