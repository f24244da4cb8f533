-- ===== src/Rest/Data.antt =====
-- source/kiwibes_rest.cpp: the handlers about the data store, and the ping.
use kiwibes.Prelude.{String, if◌then◌else◌}
use kiwibes.Prelude.Int.{pos}
use kiwibes.Errors.{KiwibesError, no_error, empty_rest_request, is_ok}
use kiwibes.Exec.{Exec, ◌>>=◌, ◌>>◌, pure}
use kiwibes.Platform.{Platform}
use kiwibes.DataStore.{write, read, get_keys, clear, clear_all}
use kiwibes.Rest.{
  Request, Context, on_data_store, set_status, set_content, assign, set_return_code, guarded,
}

module _ ⦃P : Platform⦄ where
  open P use {null, dump, of_string, of_int, of_strings}

  unfoldable pub rest_post_write_data : Request → Exec Context Unit
  rest_post_write_data req = do
    error ← guarded req (
        if req.has_param "value"
        then on_data_store (write req.capture (req.get_param_value "value" 0))
        else pure empty_rest_request)
    set_return_code error

  unfoldable pub rest_post_clear_data : Request → Exec Context Unit
  rest_post_clear_data req = do
    error ← guarded req (on_data_store (clear req.capture))
    set_return_code error

  unfoldable pub rest_post_clear_all_data : Request → Exec Context Unit
  rest_post_clear_all_data req = do
    error ← guarded req (do
      count ← on_data_store clear_all
      result ← assign null "count" (of_int (pos count))
      set_content (dump result) "application/json"
      pure no_error)
    set_return_code error

  -- The answer to a read that has succeeded. `dump` throws no exception, since the value is a String,
  -- thus in UTF-8.
  unfoldable pub send_value : String → Exec Context Unit
  send_value value = do
    set_status 200
    jvalue ← assign null "value" (of_string value)
    set_content (dump jvalue) "application/json"

  unfoldable pub read_data : String → Exec Context KiwibesError
  unfolding send_value
  read_data key c =
      (do
        let found = read "" key c.data_store
        if is_ok found.0 then (do send_value found.1; pure found.0) else pure found.0)
        c

  unfoldable pub rest_get_read_data : Request → Exec Context Unit
  unfolding read_data
  rest_get_read_data req = do error ← guarded req (read_data req.capture); set_return_code error

  unfoldable pub list_keys : Exec Context KiwibesError
  list_keys c =
      (do
        set_status 200
        set_content (dump (of_strings (get_keys c.data_store))) "application/json"
        pure no_error)
        c

  unfoldable pub rest_get_data_store_keys : Request → Exec Context Unit
  unfolding list_keys
  rest_get_data_store_keys req = do error ← guarded req list_keys; set_return_code error

  unfoldable pub rest_post_ping : Request → Exec Context Unit
  rest_post_ping req = do
    error ← guarded req (do set_status 200; set_content "pong" "text/plain"; pure no_error)
    set_return_code error
