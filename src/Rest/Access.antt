-- ===== src/Rest/Access.antt =====
-- What a request without a valid token can do.
use kiwibes.Prelude.{◌≡◌, refl, ◌∙◌, some, Bool, true, false}
use kiwibes.Prelude.Int.{pos}
use kiwibes.Errors.{KiwibesError, authentication_fail, is_ok}
use kiwibes.Exec.{Exec, Result, ok, ◌>>=◌}
use kiwibes.Platform.{Platform}
use kiwibes.Platform.Laws.{PlatformLaws}
use kiwibes.Rest.{
  Request, Context, error_code, message, assign, describe, set_return_code, is_authorized, guarded,
}
use kiwibes.Rest.Jobs.{
  rest_post_start_job, rest_post_stop_job, rest_post_create_job, rest_post_edit_job,
  rest_post_delete_job, rest_post_clear_pending_job, rest_get_get_job,
}
use kiwibes.Rest.Data.{
  rest_post_ping, rest_post_write_data, rest_post_clear_data, rest_post_clear_all_data,
  rest_get_read_data, rest_get_data_store_keys,
}
use kiwibes.Rest.Routes.{
  Route, Inputs, dispatch, start, stop, create, edit, delete, clear_pending, details, ping, write,
  clear, clear_all, read, keys, list, scheduled,
}

-- All routes but the two lists of job names ask for a token.
abbrev pub is_protected : Route → Bool
is_protected list = false
is_protected scheduled = false
is_protected _ = true

module _ ⦃P : Platform⦄ where
  open P use {Json, null, member, dump, set_member, of_int, of_string}

  -- The components are unchanged, and the response has status 404 and describes the error.
  pub record Reports (error : KiwibesError) (c : Context) (r : Result (Unit {0}) × Context)
      : Type 0 where
    pub result : r.0 ≡ ok tt
    pub description : Json
    pub numbered : member description "error" ≡ some (of_int (pos (error_code error)))
    pub explained : member description "message" ≡ some (of_string (message error))
    pub after : r.1 ≡ record c {
      response = record {
        status = 404;
        body = dump description;
        content_type = "application/json";
      };
    }

  module _ (L : PlatformLaws P) where
    -- `set_return_code` of any error ends without an exception, answers with status 404 and the
    -- text of a JSON value whose members `error` and `message` are the number and the message of
    -- the error, and changes nothing else.
    pub set_return_code-Reports :
        (error : KiwibesError) (c : Context)
        → is_ok error ≡ false
        → Reports error c (set_return_code error c)
    unfolding set_return_code describe assign
    set_return_code-Reports error c fails =
        let (v1, e1) =
          L.set_member-total null "error" (of_int (pos (error_code error))) L.is_map-null in
        let m1 = L.is_map-set_member null "error" _ v1 e1 in
        let (v2, e2) = L.set_member-total v1 "message" (of_string "") m1 in
        let m2 = L.is_map-set_member v1 "message" _ v2 e2 in
        let (v3, e3) = L.set_member-total v2 "message" (of_string (message error)) m2 in
        rw (e1, e2, fails, e3, set_return_code)
          (record {
            result = refl;
            description = v3;
            numbered =
                L.member-set_member v2 "message" _ v3 "error" e3
                ∙ L.member-set_member v1 "message" _ v2 "error" e2
                ∙ L.member-set_member null "error" _ v1 "error" e1;
            explained = L.member-set_member v2 "message" _ v3 "message" e3;
            after = refl;
          })

    guarded_refused :
        (req : Request) (answer : Exec Context KiwibesError) (c : Context)
        → is_authorized req c.authentication ≡ false
        → Reports authentication_fail c ((guarded req answer >>= set_return_code) c)
    guarded_refused req answer c no_token =
        rw no_token (set_return_code-Reports authentication_fail c refl)

    -- A request without a valid token to any route but the two lists of job names ends without an
    -- exception, leaves the scheduler, the manager, the database, the data store and the tokens as
    -- they are, and is answered with status 404 and the authentication error.
    pub dispatch-unauthorized :
        (r : Route) (req : Request) (i : Inputs) (c : Context)
        → is_protected r ≡ true
        → is_authorized req c.authentication ≡ false
        → Reports authentication_fail c (dispatch r req i c)
    unfolding dispatch rest_post_start_job rest_post_stop_job rest_post_create_job
        rest_post_edit_job rest_post_delete_job rest_post_clear_pending_job rest_get_get_job
        rest_post_ping rest_post_write_data rest_post_clear_data rest_post_clear_all_data
        rest_get_read_data rest_get_data_store_keys
    dispatch-unauthorized details req i c p h =
        rw h (set_return_code-Reports authentication_fail c refl)
    dispatch-unauthorized list req i c p h = cc
    dispatch-unauthorized scheduled req i c p h = cc
    dispatch-unauthorized start req i c p h = guarded_refused req _ c h
    dispatch-unauthorized stop req i c p h = guarded_refused req _ c h
    dispatch-unauthorized create req i c p h = guarded_refused req _ c h
    dispatch-unauthorized edit req i c p h = guarded_refused req _ c h
    dispatch-unauthorized delete req i c p h = guarded_refused req _ c h
    dispatch-unauthorized clear_pending req i c p h = guarded_refused req _ c h
    dispatch-unauthorized ping req i c p h = guarded_refused req _ c h
    dispatch-unauthorized write req i c p h = guarded_refused req _ c h
    dispatch-unauthorized clear req i c p h = guarded_refused req _ c h
    dispatch-unauthorized clear_all req i c p h = guarded_refused req _ c h
    dispatch-unauthorized read req i c p h = guarded_refused req _ c h
    dispatch-unauthorized keys req i c p h = guarded_refused req _ c h
