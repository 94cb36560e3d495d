-- ===== src/Payments/Verifying.antt =====
-- What payment_verify does with a signed request for a stored payment.
use clutch_d_backend.Base.{
  String, ◌≡◌, refl, ap, ◌∙◌, inl, inr, true, false, none, some, ◌∷◌, ◌==◌, arith, Bool-cases,
  find?,
}
use clutch_d_backend.Schema.{
  Float, User, Job, JobStatus, Payment, PaymentStatus, is_captured, status_eq,
}
use clutch_d_backend.Session.{World, Message, Result, ok, in_session}
use clutch_d_backend.Env.{Env}
use clutch_d_backend.Tables.{job_by_id, set_jobs, job_by_id-set_jobs, job_by_id-id}
use clutch_d_backend.Jobs.Pricing.{process_payouts, payout_amounts}
use clutch_d_backend.Payments.Gateway.{Gateway}
use clutch_d_backend.Payments.Capture.{VerifyBody, Verified, capture, payment_of, payment_verify}
use clutch_d_backend.Payments.Payouts.{set_payments}

status_eq-completed :
    (s : JobStatus) → status_eq s JobStatus.completed ≡ true → s ≡ JobStatus.completed
status_eq-completed s h = ground arith

module _ (env : Env) (gateway : Gateway) (body : VerifyBody) (user : User) (w : World)
    {secret : String} {p : Payment} (known : gateway.key_secret ≡ some secret)
    (signed : gateway.signature_matches secret body.order_id body.razorpay_payment_id body.signature
      ≡ true)
    (found : payment_of body.payment_id user.id w.db ≡ some p) where
  -- The payment as captured online, under the id that the request names.
  abbrev pub captured_online : Payment
  captured_online = record p {
    status = PaymentStatus.captured;
    provider_payment_id = some body.razorpay_payment_id;
    method = some "online";
  }

  abbrev pub verifying : Result Verified × World
  verifying = in_session (payment_verify env gateway body user) w

  before : is_captured p.status ≡ true → verifying ≡ (ok Verified.already_captured, w)
  unfolding payment_verify in_session
  before h = ground arith

  orphan :
      is_captured p.status ≡ false
      → job_by_id p.job_id w.db ≡ none
      → let rows = set_payments captured_online w.db.payments in
        verifying ≡ (ok Verified.captured, record w { db = record (w.db) { payments = rows } })
  unfolding payment_verify in_session capture
  orphan h gone = ground arith

  captures :
      {job : Job}
      → is_captured p.status ≡ false
      → job_by_id p.job_id w.db ≡ some job
      → let rows = set_payments captured_online w.db.payments in
        (verifying.0 ≡ ok Verified.captured) × (verifying.1.db.payments ≡ rows)
  unfolding payment_verify in_session capture process_payouts
  captures h stored = (ground arith, ground arith)

  pub pays :
      {job : Job} {provider platform : Float}
      → is_captured p.status ≡ false
      → job_by_id p.job_id w.db ≡ some job
      → payout_amounts env job.service_amount job.total_amount ≡ some (provider, platform)
      → verifying.1.sent ≡ Message.payout p.id job.id provider platform ∷ w.sent
  unfolding payment_verify in_session capture process_payouts
  pays h stored due = ground arith

  pays_nothing :
      {job : Job}
      → is_captured p.status ≡ false
      → job_by_id p.job_id w.db ≡ some job
      → job.service_amount ≡ none
      → verifying.1.sent ≡ w.sent
  unfolding payment_verify in_session capture process_payouts
  pays_nothing h stored unpriced = ground arith

  priced :
      (job : Job) (service total : Float)
      → job.service_amount ≡ some service
      → job.total_amount ≡ some total
      → env.ops.is_zero service ≡ false
      → env.ops.is_zero total ≡ false
      → payout_amounts env job.service_amount job.total_amount
        ≡ some (service, env.ops.sub total service)
  priced job service total work bill some_work some_bill = ground arith

  jobs_after :
      {job : Job}
      → is_captured p.status ≡ false
      → job_by_id p.job_id w.db ≡ some job
      → (status_eq job.status JobStatus.completed ≡ true → verifying.1.db.jobs ≡ w.db.jobs)
        × (status_eq job.status JobStatus.completed ≡ false
            → verifying.1.db.jobs
              ≡ set_jobs (record job { status = JobStatus.completed }) w.db.jobs)
  unfolding payment_verify in_session capture process_payouts
  jobs_after h stored = (λ d. ground arith, λ o. ground arith)

  completes :
      {job : Job}
      → is_captured p.status ≡ false
      → job_by_id p.job_id w.db ≡ some job
      → (job' : Job) × (job_by_id p.job_id verifying.1.db ≡ some job')
        × (job'.status ≡ JobStatus.completed)
  completes {job} h stored = elim (Bool-cases (status_eq job.status JobStatus.completed)) [
    | inl finished ↦ (
      job,
      ap (find? (λ j. j.id == p.job_id)) ((jobs_after h stored).0 finished) ∙ stored,
      status_eq-completed job.status finished,
    )
    | inr running ↦
        let job' = record job { status = JobStatus.completed } in
        (
          job',
          ap (find? (λ j. j.id == p.job_id)) ((jobs_after h stored).1 running)
              ∙ job_by_id-set_jobs p.job_id job' w.db.jobs stored
                  (job_by_id-id p.job_id w.db.jobs stored),
          refl,
        )
  ]

  -- For a request with a valid signature and a stored payment of its user: a payment that is captured
  -- already is answered so, and nothing changes. Any other is captured, with the id that the request
  -- names; if its job is stored, the job is completed, and if the job has a price and a total other
  -- than 0 then the price goes to the provider and the rest of the total to the platform, in one message;
  -- without a price no message is sent.
  pub payment_verify_lem :
      let (r, after) = verifying in
      (is_captured p.status ≡ true → (r ≡ ok Verified.already_captured) × (after ≡ w))
      × ((job : Job)
          → is_captured p.status ≡ false
          → job_by_id p.job_id w.db ≡ some job
          → (r ≡ ok Verified.captured)
            × (after.db.payments ≡ set_payments captured_online w.db.payments)
            × ((job' : Job) × (job_by_id p.job_id after.db ≡ some job')
                × (job'.status ≡ JobStatus.completed))
            × ((service total : Float)
                → job.service_amount ≡ some service
                → job.total_amount ≡ some total
                → env.ops.is_zero service ≡ false
                → env.ops.is_zero total ≡ false
                → after.sent
                  ≡ Message.payout p.id job.id service (env.ops.sub total service) ∷ w.sent)
            × (job.service_amount ≡ none → after.sent ≡ w.sent))
      × (is_captured p.status ≡ false
          → job_by_id p.job_id w.db ≡ none
          → (r ≡ ok Verified.captured)
            × (after.db.payments ≡ set_payments captured_online w.db.payments)
            × (after.sent ≡ w.sent))
  payment_verify_lem = (
    λ done. (ap (λ r. r.0) (before done), ap (λ r. r.1) (before done)),
    λ job open_row stored.
        let (r, rows) = captures open_row stored in
        (
          r,
          rows,
          completes open_row stored,
          λ service total work bill some_work some_bill.
              pays open_row stored (priced job service total work bill some_work some_bill),
          λ unpriced. pays_nothing open_row stored unpriced,
        ),
    λ open_row gone.
        let e = orphan open_row gone in
        (ap (λ r. r.0) e, ap (λ r. r.1.db.payments) e, ap (λ r. r.1.sent) e),
  )
