-- ===== src/Server/Queries.antt =====
-- The handlers of the queries keep the manager's invariant.
use kiwibes.Prelude.{String, not, Option-cases, inl, inr}
use kiwibes.Errors.{KiwibesError, job_name_unknown, authentication_fail}
use kiwibes.Exec.{Exception, ◌>>=◌, ◌>>◌}
use kiwibes.Platform.{Platform}
use kiwibes.Platform.Laws.{PlatformLaws}
use kiwibes.Database.Names.{get_job_description, get_all_job_names}
use kiwibes.Database.Names.Listing.{get_all_job_names-Lists}
use kiwibes.Database.Refinement.Queries.{get_job_description-known, get_job_description-unknown}
use kiwibes.Manager.Invariant.{IsManaged}
use kiwibes.Rest.{
  Request, Context, on_database, set_status, set_content, set_return_code, is_authorized,
}
use kiwibes.Rest.Jobs.{
  send_job, is_unknown, rest_get_get_job, rest_get_jobs_list, rest_get_scheduled_jobs,
}
use kiwibes.Server.Rules.{Serves, Serves-if, Serves-pure, Serves-bind, Serves-send, Serves-return}

module _ ⦃P : Platform⦄ where
  open P use {Json, dump, of_strings, null, member, get_string, get_strings, get_time, get_ulong}

  module _ (L : PlatformLaws P) {bad : Exception → Type 0} where
    Serves-get_job_description :
        (name : String) (c : Context)
        → IsManaged c.scheduler.manager
        → Serves bad (on_database (get_job_description null name) c)
    Serves-get_job_description name c h = elim (Option-cases (h.system.jobs name)) [
      | inl e ↦
          rw (get_job_description-unknown name null _ h.system.jobs h.runs.stored e)
            (Serves-pure _ c h)
      | inr (job, e) ↦
          let d = get_job_description-known name null _ h.system.jobs job h.runs.stored e in
          rw d.found (Serves-pure _ c h)
    ]

    Serves-send_job :
        (found : KiwibesError × Json) (c : Context)
        → IsManaged c.scheduler.manager
        → Serves bad (send_job found c)
    Serves-send_job (error, job) c h =
        Serves-if (is_unknown error) (set_return_code job_name_unknown)
          (set_status 200 >> set_content (dump job) "application/json") c
          (Serves-return L job_name_unknown c h) (Serves-send 200 (dump job) "application/json" c h)

    pub Serves-get_job :
        (req : Request) (c : Context)
        → IsManaged c.scheduler.manager
        → Serves bad (rest_get_get_job req c)
    unfolding rest_get_get_job
    Serves-get_job req c h =
        Serves-if (not (is_authorized req c.authentication)) (set_return_code authentication_fail)
          (on_database (get_job_description null req.capture) >>= send_job) c
          (Serves-return L authentication_fail c h)
          (Serves-bind (on_database (get_job_description null req.capture)) send_job c
            (Serves-get_job_description req.capture c h)
            λ found c' _ h'. Serves-send_job found c' h')

    pub Serves-jobs_list :
        (req : Request) (c : Context)
        → IsManaged c.scheduler.manager
        → Serves bad (rest_get_jobs_list req c)
    unfolding rest_get_jobs_list
    Serves-jobs_list req c h =
        let l = get_all_job_names-Lists L _ h.system.jobs h.runs.stored in
        Serves-bind (on_database get_all_job_names) _ c (rw l.result (Serves-pure _ c h))
          λ names c' _ h'. Serves-send 200 _ _ c' h'

    pub Serves-scheduled_jobs :
        (req : Request) (c : Context)
        → IsManaged c.scheduler.manager
        → Serves bad (rest_get_scheduled_jobs req c)
    unfolding rest_get_scheduled_jobs
    Serves-scheduled_jobs req c h = Serves-send 200 _ _ c h
