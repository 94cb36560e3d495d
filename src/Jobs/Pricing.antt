-- ===== src/Jobs/Pricing.antt =====
-- finalize_job_price of job_service.py and process_payouts of payout_service.py.
use clutch_d_backend.Base.{String, not, ◌||◌, Option, none, some, if◌then◌else◌}
use clutch_d_backend.Schema.{Db, Float, Mechanic, Garage, Job, JobStatus, NoticeBody, Payment}
use clutch_d_backend.Session.{
  Action, Error, Message, Pricing, pure, raise_if, query, send, ◌>>=◌, ◌>>◌,
}
use clutch_d_backend.Env.{Env, is_night}
use clutch_d_backend.Geo.{haversine_m}
use clutch_d_backend.Tables.{
  mechanic_by_id, garage_by_id, of_column, save_job, add_notification, push_unread,
}
use clutch_d_backend.Jobs.Transitions.{is_priceable}
use clutch_d_backend.Jobs.Response.{JobResponse, job_response_dict, assigned_summary}

-- The provider's position and UPI id, of which finalize_job_price reads no more.
pub record Site : Type 0 where
  pub lat : Float
  pub lon : Float
  pub upi_id : Option String

-- The amounts that finalize_job_price computes.
pub record Cost : Type 0 where
  pub service_amount : Float
  pub distance_km : Float
  pub distance_fee : Float
  pub gst_amount : Float
  pub total_amount : Float

abbrev mechanic_site : Option Mechanic → Option Site
mechanic_site none = none
mechanic_site (some m) = some (record { lat = m.lat; lon = m.lon; upi_id = m.upi_id })

abbrev garage_site : Option Garage → Option Site
garage_site none = none
garage_site (some g) = some (record { lat = g.lat; lon = g.lon; upi_id = g.upi_id })

abbrev pub provider_site : Job → Db → Option Site
provider_site job db = elim job.assigned_mechanic_id [
  | some k ↦ mechanic_site (mechanic_by_id k db)
  | none ↦ of_column job.assigned_garage_id λ k. garage_site (garage_by_id k db)
]

module _ (env : Env) where
  open env.ops use {lit, add, sub, mul, div, round2, is_zero}

  -- CONVENIENCE_FEE, CANCELLATION_FEE, GST_RATE, DAY_RATE_PER_KM and NIGHT_RATE_PER_KM
  abbrev convenience_fee : Float
  convenience_fee = lit 40 1

  abbrev cancellation_fee : Float
  cancellation_fee = lit 30 1

  abbrev gst_rate : Float
  gst_rate = lit 18 100

  abbrev rate_per_km : Float
  rate_per_km = if is_night env.now then lit 2 1 else lit 1 1

  -- `distance_km`: 0.0 when the provider is not known
  abbrev distance_km_to : Job → Option Site → Float
  distance_km_to job none = lit 0 1
  distance_km_to job (some s) =
      round2 (div (haversine_m env.ops job.customer_lat job.customer_lon s.lat s.lon) (lit 1000 1))

  abbrev with_upi : Option Site → Job → Job
  with_upi none job = job
  with_upi (some s) job = record job { provider_upi_id = s.upi_id }

  -- The fees, and the columns that they are stored in.
  unfoldable pub cost : Job → Option Site → Float → Cost
  cost job site service_amount =
      let distance_km = distance_km_to job site in
      let distance_fee = round2 (mul distance_km rate_per_km) in
      let subtotal = add (add (add service_amount convenience_fee) cancellation_fee) distance_fee in
      let gst_amount = round2 (mul subtotal gst_rate) in
      record {
        service_amount = service_amount;
        distance_km = distance_km;
        distance_fee = distance_fee;
        gst_amount = gst_amount;
        total_amount = round2 (add subtotal gst_amount);
      }

  unfoldable pub price : Job → Option Site → Float → Job
  unfolding cost
  price job site service_amount =
      let c = cost job site service_amount in
      record (with_upi site job) {
        service_amount = some c.service_amount;
        convenience_fee = some convenience_fee;
        cancellation_fee = some cancellation_fee;
        distance_km = some c.distance_km;
        distance_fee = some c.distance_fee;
        gst_amount = some c.gst_amount;
        total_amount = some c.total_amount;
        status = JobStatus.payment_pending;
      }

  -- The dictionary of the message.
  unfoldable pub pricing_ws : Cost → Pricing
  pricing_ws c = record {
    service_amount = some c.service_amount;
    convenience_fee = some convenience_fee;
    cancellation_fee = some cancellation_fee;
    distance_km = some c.distance_km;
    distance_fee = some c.distance_fee;
    gst_amount = some c.gst_amount;
    total_amount = some c.total_amount;
    platform_upi_id = env.settings.platform_upi_id;
  }

  abbrev pub bill : Job → NoticeBody
  bill job = elim job.total_amount [ none ↦ NoticeBody.text "" | some t ↦ NoticeBody.bill t ]

  unfoldable pub finalize_job_price : Job → Float → Action JobResponse
  unfolding price pricing_ws
  finalize_job_price job service_amount = do
    raise_if (not (is_priceable job.status))
        (Error.invalid_transition job.status JobStatus.payment_pending)
    site ← query (provider_site job)
    let job' = price job site service_amount
    save_job job'
    summary ← query (assigned_summary env job')
    send (
        Message.status_update job'.user_id job'.id JobStatus.payment_pending summary
          (some (pricing_ws (cost job site service_amount))))
    add_notification job'.user_id "Invoice Ready" (bill job') (some job'.id)
    push_unread job'.user_id
    pure (job_response_dict env job' summary)

  -- The two amounts that process_payouts routes, or nothing.
  abbrev pub payout_amounts : Option Float → Option Float → Option (Float × Float)
  payout_amounts (some service) (some total) =
      if is_zero service || is_zero total then none else some (service, sub total service)
  payout_amounts _ _ = none

  -- The routing is simulated in the source, which logs the two amounts; here it is a message.
  unfoldable pub process_payouts : Payment → Job → Action (Unit {0})
  process_payouts payment job = elim (payout_amounts job.service_amount job.total_amount) [
    | none ↦ pure tt
    | some (provider, platform) ↦ send (Message.payout payment.id job.id provider platform)
  ]
