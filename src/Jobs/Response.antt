-- ===== src/Jobs/Response.antt =====
-- job_response_dict and assignee_summary of job_service.py.
use clutch_d_backend.Base.{ℕ, String, Option, none, some, if◌then◌else◌}
use clutch_d_backend.Schema.{Db, Float, Mechanic, Garage, Job, JobStatus, RequestType}
use clutch_d_backend.Session.{Summary, Pricing}
use clutch_d_backend.Env.{Env}
use clutch_d_backend.Geo.{haversine_m}
use clutch_d_backend.Tables.{mechanic_by_id, garage_by_id, of_column}

-- The response, without the columns that are copied unread.
pub record JobResponse : Type 0 where
  pub id : ℕ
  pub issue_tag : String
  pub description : String
  pub request_type : RequestType
  pub status : JobStatus
  pub scheduled_at : Option ℕ
  pub vehicle_id : Option ℕ
  pub mechanic : Option Summary
  pub customer_location : Option (Float × Float)
  pub pricing : Option Pricing

module _ (env : Env) where
  abbrev pub pricing_of : Job → Pricing
  pricing_of job = record {
    service_amount = job.service_amount;
    convenience_fee = job.convenience_fee;
    cancellation_fee = job.cancellation_fee;
    distance_km = job.distance_km;
    distance_fee = job.distance_fee;
    gst_amount = job.gst_amount;
    total_amount = job.total_amount;
    platform_upi_id = env.settings.platform_upi_id;
  }

  abbrev if_priced : Option Float → Pricing → Option Pricing
  if_priced none p = none
  if_priced (some total) p = some p

  unfoldable pub job_response_dict : Job → Option Summary → JobResponse
  job_response_dict job mechanic_summary = record {
    id = job.id;
    issue_tag = job.issue_tag;
    description = job.description;
    request_type = job.request_type;
    status = job.status;
    scheduled_at = job.scheduled_at;
    vehicle_id = job.vehicle_id;
    mechanic = mechanic_summary;
    customer_location =
        if env.ops.is_zero job.customer_lat
        then none
        else some (job.customer_lat, job.customer_lon);
    pricing = if_priced job.total_amount (pricing_of job);
  }

  abbrev distance_to : Job → Float → Float → Float
  distance_to job lat lon = haversine_m env.ops job.customer_lat job.customer_lon lat lon

  -- assignee_summary, at a mechanic and at a garage
  unfoldable pub mechanic_summary : Job → Option Mechanic → Option Summary
  mechanic_summary job none = none
  mechanic_summary job (some m) = some (record {
    id = m.id;
    name = m.full_name;
    rating = m.rating;
    distance = some (distance_to job m.lat m.lon);
  })

  unfoldable pub garage_summary : Job → Option Garage → Option Summary
  garage_summary job none = none
  garage_summary job (some g) = some (record {
    id = g.id;
    name = g.garage_name;
    rating = g.rating;
    distance = some (distance_to job g.lat g.lon);
  })

  -- `if job.assigned_mechanic_id: …` as in patch_job_status
  abbrev pub assigned_mechanic_summary : Job → Db → Option Summary
  assigned_mechanic_summary job db =
      of_column job.assigned_mechanic_id λ k. mechanic_summary job (mechanic_by_id k db)

  -- … with `elif job.assigned_garage_id: …` as in finalize_job_price
  abbrev pub assigned_summary : Job → Db → Option Summary
  assigned_summary job db = elim job.assigned_mechanic_id [
    | some k ↦ mechanic_summary job (mechanic_by_id k db)
    | none ↦ of_column job.assigned_garage_id λ k. garage_summary job (garage_by_id k db)
  ]
