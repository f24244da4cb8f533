-- ===== src/Server/Signals/Requests.antt =====
-- The requests other than to stop a job send no signal to a process.
use kiwibes.Prelude.{
  subst, sym, some, List, [], ◌∷◌, ◌++◌, ℕ, String, ◌≡◌, refl, true, false, not, Bool-cases, inl,
  inr, ap,
}
use kiwibes.Prelude.Int.{pos}
use kiwibes.Errors.{
  KiwibesError, no_error, empty_rest_request, authentication_fail, job_name_unknown, is_ok,
}
use kiwibes.Exec.{◌>>◌, pure}
use kiwibes.Exec.Preserves.{continue_at, Preserves-pure, Preserves-if, Preserves-bind}
use kiwibes.Platform.{Platform}
use kiwibes.Authentication.{Authentication}
use kiwibes.Database.Changes.{create_job, edit_job, delete_job}
use kiwibes.Database.Names.{get_job_description, get_all_job_names}
use kiwibes.Database.Runs.{job_clear_start_requests}
use kiwibes.DataStore
use kiwibes.DataStore.{DataStore}
use kiwibes.Map
use kiwibes.Manager.{Manager, Handle, stop_job, Fork, start_job}
use kiwibes.Manager.Kills.{Sends, no_signal, one_signal, stop_job-Sends, start_job-Preserves}
use kiwibes.Scheduler.{unschedule_job}
use kiwibes.Rest.{
  with_manager, Request, Context, on_database, on_manager, on_scheduler, on_data_store, set_status,
  set_content, assign, set_return_code, is_authorized,
}
use kiwibes.Rest.Jobs.{
  delete_and_unschedule, send_job, is_unknown, rest_post_start_job, rest_post_stop_job,
  rest_post_create_job, rest_post_edit_job, rest_post_delete_job, rest_post_clear_pending_job,
  rest_get_get_job, rest_get_jobs_list, rest_get_scheduled_jobs,
}
use kiwibes.Rest.Data.{
  rest_post_ping, rest_post_write_data, rest_post_clear_data, rest_post_clear_all_data, read_data,
  send_value, list_keys, rest_get_read_data, rest_get_data_store_keys,
}
use kiwibes.Rest.Routes.{
  Route, Inputs, dispatch, start, stop, create, edit, delete, clear_pending, details, ping, write,
  clear, clear_all, read, keys, list, scheduled,
}
use kiwibes.Server.Signals.{sent}
use kiwibes.Server.Signals.Blocks.{
  Silent, assign-Silent, return-Silent, answer-Silent, on_database-Silent, unschedule-Silent,
  with_parameters-Silent, created-Silent, edited-Silent, content-Silent,
}

module _ ⦃P : Platform⦄ where
  open P use {Json, null, member, dump, of_int, of_string, of_strings, get_string}

  start-Silent : (req : Request) (fork : Fork) (now : ℕ) → Silent (rest_post_start_job req fork now)
  unfolding rest_post_start_job
  start-Silent req fork now =
      answer-Silent req (on_manager (start_job req.capture fork now)) (record {
        at = λ c. ap (λ p. p.0) ((start_job-Preserves req.capture fork now).at c.scheduler.manager);
      })

  create-Silent : (req : Request) (now address : ℕ) → Silent (rest_post_create_job req now address)
  unfolding rest_post_create_job
  create-Silent req now address = answer-Silent req _ (
      with_parameters-Silent req _ _ (λ params. on_database-Silent (create_job req.capture params))
        (created-Silent req.capture now address))

  edit-Silent : (req : Request) (now address : ℕ) → Silent (rest_post_edit_job req now address)
  unfolding rest_post_edit_job
  edit-Silent req now address = answer-Silent req _ (
      with_parameters-Silent req _ _ (λ params. on_database-Silent (edit_job req.capture params))
        (edited-Silent req.capture now address))

  delete-Silent : (req : Request) → Silent (rest_post_delete_job req)
  unfolding rest_post_delete_job delete_and_unschedule
  delete-Silent req = answer-Silent req _ (
      Preserves-bind (on_database (delete_job req.capture)) _
        (on_database-Silent (delete_job req.capture))
        λ error.
          Preserves-if (is_ok error) _ (pure error)
            (Preserves-bind (on_scheduler (unschedule_job req.capture)) _
              (unschedule-Silent req.capture) λ _. Preserves-pure error)
            (Preserves-pure error))

  send_job-Silent : (found : KiwibesError × Json) → Silent (send_job found)
  send_job-Silent (error, job) =
      Preserves-if (is_unknown error) (set_return_code job_name_unknown) _
        (return-Silent job_name_unknown) (record { at = λ c. refl })

  details-Silent : (req : Request) → Silent (rest_get_get_job req)
  unfolding rest_get_get_job
  details-Silent req = record {
    at = λ c.
        (Preserves-if (not (is_authorized req c.authentication))
            (set_return_code authentication_fail) _ (return-Silent authentication_fail)
            (Preserves-bind (on_database (get_job_description null req.capture)) send_job
              (on_database-Silent (get_job_description null req.capture)) send_job-Silent)).at
          c;
  }

  list-Silent : (req : Request) → Silent (rest_get_jobs_list req)
  unfolding rest_get_jobs_list
  list-Silent req =
      Preserves-bind (on_database get_all_job_names) _ (on_database-Silent get_all_job_names)
        λ names. record { at = λ c. refl }

  write-Silent : (req : Request) → Silent (rest_post_write_data req)
  unfolding rest_post_write_data
  write-Silent req = answer-Silent req _ (
      Preserves-if (req.has_param "value") _ (pure empty_rest_request) (record { at = λ c. refl })
        (Preserves-pure _))

  clear_all-Silent : (req : Request) → Silent (rest_post_clear_all_data req)
  unfolding rest_post_clear_all_data
  clear_all-Silent req = answer-Silent req _ (
      Preserves-bind (on_data_store DataStore.clear_all) _ (record { at = λ c. refl })
        λ count.
          Preserves-bind (assign null "count" (of_int (pos count)))
            (λ result. set_content (dump result) "application/json" >> pure no_error)
            (assign-Silent null "count" _) λ result. record { at = λ c. refl })

  send_value-Silent : (value : String) → Silent (send_value value)
  unfolding send_value
  send_value-Silent value =
      Preserves-bind (set_status 200) _ (record { at = λ c. refl })
        λ _.
          Preserves-bind (assign null "value" (of_string value))
            (λ v. set_content (dump v) "application/json") (assign-Silent null "value" _)
            λ v. content-Silent (dump v) "application/json"

  read-Silent : (req : Request) → Silent (rest_get_read_data req)
  unfolding rest_get_read_data read_data
  read-Silent req = answer-Silent req (read_data req.capture) (record {
    at = λ c.
        let found = DataStore.read "" req.capture c.data_store in
        (Preserves-if (is_ok found.0) _ (pure found.0)
            (Preserves-bind (send_value found.1) (λ _. pure found.0) (send_value-Silent found.1)
              λ _. Preserves-pure found.0)
            (Preserves-pure found.0)).at
          c;
  })

  -- An authorised request to stop a job leaves the signals as `stop_job` does.
  allowed_stop_at :
      (req : Request) (c : Context)
      → is_authorized req c.authentication ≡ true
      → sent (rest_post_stop_job req c).1 ≡ (stop_job req.capture c.scheduler.manager).1.killed
  unfolding rest_post_stop_job
  allowed_stop_at req c h =
      let r = stop_job req.capture c.scheduler.manager in
      rw h (continue_at r.0 set_return_code (with_manager c r.1) return-Silent)

  refused_stop_at :
      (req : Request) (c : Context)
      → is_authorized req c.authentication ≡ false
      → sent (rest_post_stop_job req c).1 ≡ sent c
  unfolding rest_post_stop_job
  refused_stop_at req c h = rw h ((return-Silent authentication_fail).at c)

  -- The request may stop the job whose process this is.
  abbrev pub MayKill : Route → Request → Authentication → Manager → Handle → Type 0
  MayKill stop req a m handle =
      (is_authorized req a ≡ true) × (Map.find req.capture m.active_jobs ≡ some handle)
  MayKill _ req a m handle = ⊥

  -- The signals after the request: no new one, or one to such a process.
  pub data Signals (route : Route) (req : Request) (c : Context) : List Handle → Type 0 where
    none_new : Signals route req c (sent c)
    one_new :
        (handle : Handle)
        → MayKill route req c.authentication c.scheduler.manager handle
        → Signals route req c (sent c ++ handle ∷ [])

  unsignalled :
      (route : Route) (req : Request) (c : Context) (after : List Handle)
      → after ≡ sent c
      → Signals route req c after
  unsignalled route req c after e = subst (Signals route req c) (sym e) none_new

  stopped-Signals :
      (req : Request) (c : Context) (after : List Handle)
      → is_authorized req c.authentication ≡ true
      → Sends req.capture c.scheduler.manager after
      → Signals stop req c after
  stopped-Signals req c _ h no_signal = none_new
  stopped-Signals req c _ h (one_signal handle active) = one_new handle (h, active)

  pub dispatch-Signals :
      (route : Route) (req : Request) (i : Inputs) (c : Context)
      → Signals route req c (sent (dispatch route req i c).1)
  unfolding dispatch rest_post_clear_pending_job rest_post_ping rest_post_clear_data
      rest_get_data_store_keys rest_get_scheduled_jobs list_keys
  dispatch-Signals stop req i c = elim (Bool-cases (is_authorized req c.authentication)) [
    | inl h ↦
        subst (Signals stop req c) (sym (allowed_stop_at req c h))
          (stopped-Signals req c _ h (stop_job-Sends req.capture c.scheduler.manager))
    | inr h ↦ unsignalled stop req c _ (refused_stop_at req c h)
  ]
  dispatch-Signals start req i c = unsignalled start req c _ ((start-Silent req i.fork i.now).at c)
  dispatch-Signals create req i c =
      unsignalled create req c _ ((create-Silent req i.now i.address).at c)
  dispatch-Signals edit req i c = unsignalled edit req c _ ((edit-Silent req i.now i.address).at c)
  dispatch-Signals delete req i c = unsignalled delete req c _ ((delete-Silent req).at c)
  dispatch-Signals clear_pending req i c =
      unsignalled clear_pending req c _
        ((answer-Silent req _ (on_database-Silent (job_clear_start_requests req.capture))).at c)
  dispatch-Signals details req i c = unsignalled details req c _ ((details-Silent req).at c)
  dispatch-Signals ping req i c =
      unsignalled ping req c _ ((answer-Silent req _ (record { at = λ c. refl })).at c)
  dispatch-Signals write req i c = unsignalled write req c _ ((write-Silent req).at c)
  dispatch-Signals clear req i c =
      unsignalled clear req c _ ((answer-Silent req _ (record { at = λ c. refl })).at c)
  dispatch-Signals clear_all req i c = unsignalled clear_all req c _ ((clear_all-Silent req).at c)
  dispatch-Signals read req i c = unsignalled read req c _ ((read-Silent req).at c)
  dispatch-Signals keys req i c =
      unsignalled keys req c _ ((answer-Silent req list_keys (record { at = λ c. refl })).at c)
  dispatch-Signals list req i c = unsignalled list req c _ ((list-Silent req).at c)
  dispatch-Signals scheduled req i c = unsignalled scheduled req c _ (refl)
