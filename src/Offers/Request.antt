-- ===== src/Offers/Request.antt =====
-- create_service_request of backend/app/services/job_service.py, and create_request of
-- backend/app/api/v1/service.py.
use clutch_d_backend.Base.{
  ℕ, ◌++◌, String, not, ◌&&◌, Option, none, some, [], ◌∷◌, if◌then◌else◌, ltb,
}
use clutch_d_backend.Schema.{Db, Float, User, Job, JobStatus, RequestType, status_eq}
use clutch_d_backend.Session.{
  Action, Message, Summary, http, pure, raise_if, query, write, new_id, send, ◌>>=◌, ◌>>◌,
}
use clutch_d_backend.Env.{Env}
use clutch_d_backend.Jobs.Access.{is_customer}
use clutch_d_backend.Jobs.Response.{JobResponse, job_response_dict, assigned_summary}
use clutch_d_backend.Matching.Nearest.{Server}
use clutch_d_backend.Offers.Create.{create_provider_offers}

-- The fields of ServiceRequestCreate that are read after they are stored.
pub record ServiceRequestCreate : Type 0 where
  pub issue_tag : String
  pub description : String
  pub request_type : RequestType
  pub customer_lat : Option Float
  pub customer_lon : Option Float
  pub vehicle_id : Option ℕ
  pub scheduled_at : Option ℕ

abbrev given_or : Option Float → Float → Float
given_or none default = default
given_or (some x) default = x

module _ (env : Env) (server : Server) where
  abbrev pub new_job : ℕ → User → ServiceRequestCreate → Job
  new_job k user form = record {
    id = k;
    user_id = user.id;
    issue_tag = form.issue_tag;
    description = form.description;
    request_type = form.request_type;
    status = JobStatus.searching;
    customer_lat = given_or form.customer_lat env.settings.default_map_lat;
    customer_lon = given_or form.customer_lon env.settings.default_map_lon;
    service_amount = none;
    convenience_fee = none;
    cancellation_fee = none;
    distance_km = none;
    distance_fee = none;
    gst_amount = none;
    total_amount = none;
    provider_upi_id = none;
    assigned_type = none;
    assigned_mechanic_id = none;
    assigned_garage_id = none;
    vehicle_id = form.vehicle_id;
    scheduled_at = form.scheduled_at;
    created_at = env.now;
  }

  -- `if count == 0: … else: …`
  abbrev notify : Job → ℕ → Action (Unit {0})
  notify job count =
      if ltb 0 count
      then send (Message.status_update job.user_id job.id JobStatus.providers_notified none none)
      else send (Message.retry_assignment job.id 45)

  abbrev summary_if_assigned : Job → Db → Option Summary
  summary_if_assigned job db =
      if status_eq job.status JobStatus.assigned then assigned_summary env job db else none

  -- The response, with the status that is shown for a job that has got offers.
  abbrev pub shown_response : Job → ℕ → Option Summary → JobResponse
  shown_response job count summary =
      let result = job_response_dict env job summary in
      if ltb 0 count && status_eq job.status JobStatus.searching
      then record result { status = JobStatus.providers_notified }
      else result

  unfoldable pub create_service_request : User → ServiceRequestCreate → Action JobResponse
  create_service_request user form = do
    k ← new_id
    let job = new_job k user form
    write λ db. record db { jobs = db.jobs ++ job ∷ [] }
    count ← create_provider_offers env server k
    notify job count
    summary ← query (summary_if_assigned job)
    pure (shown_response job count summary)

  unfoldable pub create_request : User → ServiceRequestCreate → Action JobResponse
  create_request user form = do
    raise_if (not (is_customer user.role)) (http 403)
    create_service_request user form
