-- ===== src/Jobs/Effects.antt =====
-- What the operations of job_service.py do to the stored job and answer, on every branch.
use clutch_d_backend.Base.{
  refl, if◌then◌else◌, ℕ, ◌≡◌, ap, ◌∙◌, true, false, Option, some, ◌∷◌, ◌==◌, arith, find?,
}
use clutch_d_backend.Schema.{Db, Float, Job, JobStatus}
use clutch_d_backend.Session.{World, Message, Pricing, ok, err, invalid_transition}
use clutch_d_backend.Env.{Env, is_night}
use clutch_d_backend.Tables.{unread_count, job_by_id, set_jobs, job_by_id-set_jobs}
use clutch_d_backend.Jobs.Transitions.{validate_transition, is_priceable}
use clutch_d_backend.Jobs.Response.{
  JobResponse, job_response_dict, assigned_mechanic_summary, assigned_summary,
}
use clutch_d_backend.Jobs.Status.{patch_job_status}
use clutch_d_backend.Jobs.Pricing.{Site, finalize_job_price, cost, price, provider_site}
use clutch_d_backend.Jobs.Edges.{patched, patched-id}

saved :
    (job job' : Job) (before after : Db)
    → job_by_id job.id before ≡ some job
    → job'.id ≡ job.id
    → after.jobs ≡ set_jobs job' before.jobs
    → job_by_id job.id after ≡ some job'
saved job job' before after found same_id e =
    ap (find? (λ j. j.id == job.id)) e ∙ job_by_id-set_jobs job.id job' before.jobs found same_id

-- The breakdown that the row of a job carries, with the account of the platform.
abbrev pub breakdown : Env → Job → Pricing
breakdown env job = record {
  service_amount = job.service_amount;
  convenience_fee = job.convenience_fee;
  cancellation_fee = job.cancellation_fee;
  distance_km = job.distance_km;
  distance_fee = job.distance_fee;
  gst_amount = job.gst_amount;
  total_amount = job.total_amount;
  platform_upi_id = env.settings.platform_upi_id;
}

-- The columns of a bill over an amount: the distance, the fee for it, the tax on all that is charged, and
-- the total, the last three rounded. A kilometre costs 1, and 2 at night; the two fixed fees are 40 and 30,
-- and the tax is 18 percent.
abbrev pub IsBill : Env → Float → Job → Type 0
IsBill env amount job =
    let ops = env.ops in
    (km fee gst : Float) × (job.distance_km ≡ some km)
    × (job.distance_fee ≡ some fee)
    × (job.gst_amount ≡ some gst)
    × (fee ≡ ops.round2 (ops.mul km (if is_night env.now then ops.lit 2 1 else ops.lit 1 1)))
    × (let charged = ops.add (ops.add (ops.add amount (ops.lit 40 1)) (ops.lit 30 1)) fee in
        (gst ≡ ops.round2 (ops.mul charged (ops.lit 18 100)))
        × (job.total_amount ≡ some (ops.round2 (ops.add charged gst))))

price-IsBill :
    (env : Env) (job : Job) (site : Option Site) (amount : Float)
    → IsBill env amount (price env job site amount)
unfolding price
price-IsBill env job site amount =
    let c = cost env job site amount in
    (c.distance_km, c.distance_fee, c.gst_amount, refl, refl, refl, refl, (refl, refl))

module _ (env : Env) (job : Job) (w : World) (stored : job_by_id job.id w.db ≡ some job) where
  -- A status change that the table allows is stored with the mechanic that came with it, and is
  -- answered with the new status; one that the table does not allow raises, and neither writes nor
  -- sends anything.
  pub patch_job_status_lem :
      (status : JobStatus) (mechanic_id : Option ℕ)
      → let (r, after) = patch_job_status env job status mechanic_id w in
        (validate_transition job.status status ≡ true
          → (job_by_id job.id after.db ≡ some (patched job status mechanic_id))
            × ((reply : JobResponse) × (r ≡ ok reply) × (reply.status ≡ status)))
        × (validate_transition job.status status ≡ false
            → (r ≡ err (invalid_transition job.status status)) × (after ≡ w))
  unfolding patch_job_status job_response_dict
  patch_job_status_lem status mechanic_id = (
    λ legal. (
      saved job (patched job status mechanic_id) w.db
          (patch_job_status env job status mechanic_id w).1.db stored
          (patched-id job status mechanic_id) (ground arith),
      (
        job_response_dict env (patched job status mechanic_id)
            (assigned_mechanic_summary env (patched job status mechanic_id) w.db),
        ground arith,
        ground arith,
      ),
    ),
    λ illegal. (ground arith, ground arith),
  )

  -- Pricing a job that is assigned, under way or in progress stores the bill, its fee, tax and total worked out from the amount and the distance, and moves the job to
  -- payment_pending; the stored row, the answer and the message to the customer carry the same
  -- breakdown. In any other status it raises, and neither writes nor sends anything.
  pub finalize_job_price_lem :
      (amount : Float)
      → let (r, after) = finalize_job_price env job amount w in
        (is_priceable job.status ≡ true
          → (job' : Job) × (job_by_id job.id after.db ≡ some job')
            × (job'.status ≡ JobStatus.payment_pending)
            × (job'.service_amount ≡ some amount)
            × IsBill env amount job'
            × ((reply : JobResponse) × (r ≡ ok reply) × (reply.pricing ≡ some (breakdown env job')))
            × ((unread : ℕ) × (after.sent
                  ≡ Message.notification_update job.user_id unread
                    ∷ Message.status_update job.user_id job.id JobStatus.payment_pending
                        (assigned_summary env job' w.db)
                        (some (breakdown env job'))
                    ∷ w.sent)))
        × (is_priceable job.status ≡ false
            → (r ≡ err (invalid_transition job.status JobStatus.payment_pending)) × (after ≡ w))
  unfolding finalize_job_price job_response_dict
  finalize_job_price_lem amount = (
    λ fits. (
      price env job (provider_site job w.db) amount,
      saved job (price env job (provider_site job w.db) amount) w.db
          (finalize_job_price env job amount w).1.db stored (ground arith) (ground arith),
      ground arith,
      ground arith,
      price-IsBill env job (provider_site job w.db) amount,
      (
        job_response_dict env (price env job (provider_site job w.db) amount)
            (assigned_summary env (price env job (provider_site job w.db) amount) w.db),
        ground arith,
        ground arith,
      ),
      (unread_count job.user_id (finalize_job_price env job amount w).1.db, ground arith),
    ),
    λ unfit. (ground arith, ground arith),
  )
