-- ===== src/Server/Data.antt =====
-- The handlers of the data store and of the ping keep the manager's invariant.
use kiwibes.Prelude.{ℕ, String}
use kiwibes.Prelude.Int.{pos}
use kiwibes.Errors.{KiwibesError, no_error, empty_rest_request, is_ok}
use kiwibes.Exec.{Exec, Exception, ◌>>=◌, ◌>>◌, pure}
use kiwibes.Platform.{Platform}
use kiwibes.Platform.Laws.{PlatformLaws}
use kiwibes.DataStore
use kiwibes.Manager.Invariant.{IsManaged}
use kiwibes.Rest.{Request, Context, on_data_store, set_content, assign}
use kiwibes.Rest.Data.{
  rest_post_write_data, rest_post_clear_data, rest_post_clear_all_data, send_value, read_data,
  rest_get_read_data, list_keys, rest_get_data_store_keys, rest_post_ping,
}
use kiwibes.Server.Handlers.{Serves-answer}
use kiwibes.Server.Rules.{Serves, Serves-if, Serves-pure, Serves-bind, Serves-data_store}

module _ ⦃P : Platform⦄ where
  open P use {null, dump, of_int}

  -- The answer to a request to clear the data store.
  abbrev send_count : ℕ → Exec Context KiwibesError
  send_count count = do
    result ← assign null "count" (of_int (pos count))
    set_content (dump result) "application/json"
    pure no_error

module _ ⦃P : Platform⦄ (L : PlatformLaws P) {bad : Exception → Type 0} where
  open P use {Json, null, dump, of_int, of_string}

  pub Serves-write :
      (req : Request) (c : Context)
      → IsManaged c.scheduler.manager
      → Serves bad (rest_post_write_data req c)
  unfolding rest_post_write_data
  Serves-write req c h = Serves-answer L req _ c h (
      Serves-if (req.has_param "value")
        (on_data_store (DataStore.write req.capture (req.get_param_value "value" 0)))
        (pure empty_rest_request) c
        (Serves-data_store (DataStore.write req.capture (req.get_param_value "value" 0)) c h)
        (Serves-pure empty_rest_request c h))

  pub Serves-clear :
      (req : Request) (c : Context)
      → IsManaged c.scheduler.manager
      → Serves bad (rest_post_clear_data req c)
  unfolding rest_post_clear_data
  Serves-clear req c h =
      Serves-answer L req _ c h (Serves-data_store (DataStore.clear req.capture) c h)

  -- A write to a new object ends with an object.
  Serves-assign :
      (key : String) (x : Json) (c : Context)
      → IsManaged c.scheduler.manager
      → Serves bad (assign null key x c)
  unfolding assign
  Serves-assign key x c h =
      let (v, e) = L.set_member-total null key x L.is_map-null in rw e (Serves-pure v c h)

  Serves-send_count :
      (count : ℕ) (c : Context) → IsManaged c.scheduler.manager → Serves bad (send_count count c)
  Serves-send_count count c h =
      Serves-bind (assign null "count" (of_int (pos count)))
        (λ result. set_content (dump result) "application/json" >> pure no_error) c
        (Serves-assign "count" (of_int (pos count)) c h) λ result c' _ h'. Serves-pure _ _ h'

  pub Serves-clear_all :
      (req : Request) (c : Context)
      → IsManaged c.scheduler.manager
      → Serves bad (rest_post_clear_all_data req c)
  unfolding rest_post_clear_all_data
  Serves-clear_all req c h = Serves-answer L req _ c h (
      Serves-bind (on_data_store DataStore.clear_all) send_count c
        (Serves-data_store DataStore.clear_all c h) λ count c' _ h'. Serves-send_count count c' h')

  Serves-send_value :
      (value : String) (c : Context)
      → IsManaged c.scheduler.manager
      → Serves bad (send_value value c)
  unfolding send_value
  Serves-send_value value c h =
      Serves-bind (assign null "value" (of_string value))
        (λ jvalue. set_content (dump jvalue) "application/json")
        (record c { response = record c.response { status = 200 } })
        (Serves-assign "value" (of_string value)
          (record c { response = record c.response { status = 200 } }) h)
        λ v c' _ h'. Serves-pure _ _ h'

  pub Serves-read :
      (req : Request) (c : Context)
      → IsManaged c.scheduler.manager
      → Serves bad (rest_get_read_data req c)
  unfolding rest_get_read_data read_data
  Serves-read req c h =
      let found = DataStore.read "" req.capture c.data_store in
      Serves-answer L req _ c h (
        Serves-if (is_ok found.0) (send_value found.1 >> pure found.0) (pure found.0) c
          (Serves-bind (send_value found.1) (λ _. pure found.0) c (Serves-send_value found.1 c h)
            λ v c' _ h'. Serves-pure found.0 c' h')
          (Serves-pure found.0 c h))

  pub Serves-keys :
      (req : Request) (c : Context)
      → IsManaged c.scheduler.manager
      → Serves bad (rest_get_data_store_keys req c)
  unfolding rest_get_data_store_keys list_keys
  Serves-keys req c h = Serves-answer L req _ c h (Serves-pure _ _ h)

  pub Serves-ping :
      (req : Request) (c : Context)
      → IsManaged c.scheduler.manager
      → Serves bad (rest_post_ping req c)
  unfolding rest_post_ping
  Serves-ping req c h = Serves-answer L req _ c h (Serves-pure _ _ h)
