-- ===== src/Rest/Storing.antt =====
-- A value that is written by one request and read by a later one.
use kiwibes.Prelude.{
  ◌+◌, ◌%◌, ◌^◌, ◌≡◌, refl, ap, ◌∙◌, String, none, some, true, false, ltb, eq_refl,
}
use kiwibes.Prelude.Int.{ℤ}
use kiwibes.Errors.{no_error}
use kiwibes.Exec.{Result, ok}
use kiwibes.Map
use kiwibes.Map.{find-insert, count_absent}
use kiwibes.Platform.{Platform}
use kiwibes.Platform.Laws.{PlatformLaws}
use kiwibes.DataStore.{DataStore, size}
use kiwibes.DataStore
use kiwibes.Rest.{Request, Context, set_return_code, describe, assign, is_authorized}
use kiwibes.Rest.Data.{rest_post_write_data, rest_get_read_data, read_data, send_value}
use kiwibes.Rest.Routes.{Inputs, dispatch, write, read}

-- What the data store holds after a write that is accepted.
abbrev pub stored : String → String → DataStore → DataStore
stored key value s = record s {
  store = Map.insert key value s.store;
  curr_size = (s.curr_size + (size key + size value)) % 2 ^ 32;
}

write-stored :
    (key value : String) (s : DataStore)
    → Map.find key s.store ≡ none
    → ltb s.max_size ((size key + size value + s.curr_size) % 2 ^ 64) ≡ false
    → DataStore.write key value s ≡ (no_error, stored key value s)
unfolding DataStore.write
write-stored key value s absent fits = rw (count_absent key s.store absent, fits) refl

read-found :
    (key value : String) (s : DataStore)
    → Map.find key s.store ≡ some value
    → DataStore.read "" key s ≡ (no_error, value)
unfolding DataStore.read
read-found key value s e = rw (e, DataStore.read) refl

module _ ⦃P : Platform⦄ where
  open P use {Json, null, member, dump, of_string, of_int}

  -- The answer has status 200 and the text of an object with the value.
  pub record Sends (value : String) (r : Result (Unit {0}) × Context) : Type 0 where
    pub result : r.0 ≡ ok tt
    pub object : Json
    pub holds : member object "value" ≡ some (of_string value)
    pub response :
        r.1.response
        ≡ record { status = 200; body = dump object; content_type = "application/json" }

  module _ (L : PlatformLaws P) where
    set_return_code-ok :
        (c : Context)
        → set_return_code no_error c
          ≡ (ok tt, record c { response = record c.response { status = 200 } })
    unfolding set_return_code describe assign
    set_return_code-ok c =
        let (v1, e1) = L.set_member-total null "error" (of_int (ℤ.pos 0)) L.is_map-null in
        let m1 = L.is_map-set_member null "error" _ v1 e1 in
        let (v2, e2) = L.set_member-total v1 "message" (of_string "") m1 in rw (e1, e2) refl

    abbrev after_write : Request → Context → Context
    after_write req c = record c {
      data_store = stored req.capture (req.get_param_value "value" 0) c.data_store;
      response = record c.response { status = 200 };
    }

    write-answers :
        (req : Request) (i : Inputs) (c : Context)
        → is_authorized req c.authentication ≡ true
        → req.has_param "value" ≡ true
        → Map.find req.capture c.data_store.store ≡ none
        → ltb c.data_store.max_size (
            (size req.capture + size (req.get_param_value "value" 0) + c.data_store.curr_size)
            % 2 ^ 64)
          ≡ false
        → dispatch write req i c ≡ (ok tt, after_write req c)
    unfolding dispatch rest_post_write_data
    write-answers req i c authorized given absent fits =
        rw
          (
            authorized,
            given,
            write-stored req.capture (req.get_param_value "value" 0) c.data_store absent fits,
          )
          (set_return_code-ok _)

    read-Sends :
        (value : String) (req : Request) (i : Inputs) (c : Context)
        → is_authorized req c.authentication ≡ true
        → Map.find req.capture c.data_store.store ≡ some value
        → Sends value (dispatch read req i c)
    unfolding dispatch rest_get_read_data read_data send_value assign
    read-Sends value req i c authorized found =
        let (v, e) = L.set_member-total null "value" (of_string value) L.is_map-null in
        rw (authorized, read-found req.capture value c.data_store found, e, set_return_code-ok _)
          (record {
            result = refl;
            object = v;
            holds = L.member-set_member null "value" _ v "value" e;
            response = refl;
          })

    -- If a request with a valid token writes a value in UTF-8 to a key that the data store does not
    -- hold, and the value fits, then a later request with a valid token to read this key is
    -- answered with status 200 and the text of an object that holds the value.
    pub read-write :
        (req req' : Request) (i i' : Inputs) (c : Context)
        → is_authorized req c.authentication ≡ true
        → is_authorized req' c.authentication ≡ true
        → req.has_param "value" ≡ true
        → req'.capture ≡ req.capture
        → Map.find req.capture c.data_store.store ≡ none
        → ltb c.data_store.max_size (
            (size req.capture + size (req.get_param_value "value" 0) + c.data_store.curr_size)
            % 2 ^ 64)
          ≡ false
        → Sends (req.get_param_value "value" 0) (dispatch read req' i' (dispatch write req i c).1)
    read-write req req' i i' c writer reader given same absent fits =
        rw (write-answers req i c writer given absent fits) (
          read-Sends (req.get_param_value "value" 0) req' i' (after_write req c) reader (
            ap
              (λ k.
                Map.find k
                  (Map.insert req.capture (req.get_param_value "value" 0) c.data_store.store))
              same
            ∙ find-insert req.capture req.capture (req.get_param_value "value" 0) c.data_store.store
                absent
            ∙ rw (eq_refl req.capture) refl))
