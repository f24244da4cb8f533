-- ===== src/Rest/Routes.antt =====
-- source/kiwibes_rest.cpp: `setup_rest_interface`, the routes and their handlers.
use kiwibes.Prelude.{ℕ, String}
use kiwibes.Exec.{Exec}
use kiwibes.Platform.{Platform}
use kiwibes.Manager.{Fork}
use kiwibes.Rest.{Request, Context}
use kiwibes.Rest.Jobs.{
  rest_post_start_job, rest_post_stop_job, rest_post_create_job, rest_post_edit_job,
  rest_post_delete_job, rest_post_clear_pending_job, rest_get_get_job, rest_get_jobs_list,
  rest_get_scheduled_jobs,
}
use kiwibes.Rest.Data.{
  rest_post_ping, rest_post_write_data, rest_post_clear_data, rest_post_clear_all_data,
  rest_get_read_data, rest_get_data_store_keys,
}

pub data Route : Type 0 where
  start stop create edit delete clear_pending details : Route
  ping : Route
  write clear clear_all read keys : Route
  list scheduled : Route

pub data Method : Type 0 where
  post get : Method

-- The method and the pattern of each route.
unfoldable pub pattern_of : Route → Method × String
pattern_of start = (post, "/rest/job/start/([a-zA-Z_0-9]+)")
pattern_of stop = (post, "/rest/job/stop/([a-zA-Z_0-9]+)")
pattern_of create = (post, "/rest/job/create/([a-zA-Z_0-9]+)")
pattern_of edit = (post, "/rest/job/edit/([a-zA-Z_0-9]+)")
pattern_of delete = (post, "/rest/job/delete/([a-zA-Z_0-9]+)")
pattern_of clear_pending = (post, "/rest/job/clear_pending/([a-zA-Z_0-9]+)")
pattern_of details = (get, "/rest/job/details/([a-zA-Z_0-9]+)")
pattern_of ping = (post, "/rest/ping")
pattern_of write = (post, "/rest/data/write/([a-zA-Z_0-9]+)")
pattern_of clear = (post, "/rest/data/clear/([a-zA-Z_0-9]+)")
pattern_of clear_all = (post, "/rest/data/clear_all")
pattern_of read = (get, "/rest/data/read/([a-zA-Z_0-9]+)")
pattern_of keys = (get, "/rest/data/keys")
pattern_of list = (get, "/rest/jobs/list")
pattern_of scheduled = (get, "/rest/jobs/scheduled")

-- What the system answers to the calls of a handler: the process of a launch, the clock, and the
-- address of a new event.
pub record Inputs : Type 0 where
  pub fork : Fork
  pub now : ℕ
  pub address : ℕ

module _ ⦃P : Platform⦄ where
  unfoldable pub dispatch : Route → Request → Inputs → Exec Context Unit
  dispatch start req i = rest_post_start_job req i.fork i.now
  dispatch stop req i = rest_post_stop_job req
  dispatch create req i = rest_post_create_job req i.now i.address
  dispatch edit req i = rest_post_edit_job req i.now i.address
  dispatch delete req i = rest_post_delete_job req
  dispatch clear_pending req i = rest_post_clear_pending_job req
  dispatch details req i = rest_get_get_job req
  dispatch ping req i = rest_post_ping req
  dispatch write req i = rest_post_write_data req
  dispatch clear req i = rest_post_clear_data req
  dispatch clear_all req i = rest_post_clear_all_data req
  dispatch read req i = rest_get_read_data req
  dispatch keys req i = rest_get_data_store_keys req
  dispatch list req i = rest_get_jobs_list req
  dispatch scheduled req i = rest_get_scheduled_jobs req
