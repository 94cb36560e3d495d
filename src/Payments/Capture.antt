-- ===== src/Payments/Capture.antt =====
-- payment_verify and payment_webhook of backend/app/api/v1/payments.py.
use clutch_d_backend.Base.{
  ℕ, String, Bool, false, not, ◌&&◌, Option, none, some, ◌==◌, if◌then◌else◌, find?, select, str_eq,
}
use clutch_d_backend.Schema.{
  Db, User, Job, JobStatus, Payment, PaymentStatus, is_captured, is_unpaid, status_eq,
}
use clutch_d_backend.Session.{
  Action, http, pure, raise_if, query, or_raise, one_or_none, ◌>>=◌, ◌>>◌,
}
use clutch_d_backend.Env.{Env}
use clutch_d_backend.Tables.{job_by_id, save_job, save_payment}
use clutch_d_backend.Jobs.Pricing.{process_payouts}
use clutch_d_backend.Payments.Gateway.{Gateway}

-- PaymentVerifyRequest
pub record VerifyBody : Type 0 where
  pub order_id : String
  pub razorpay_payment_id : String
  pub signature : String
  pub payment_id : ℕ

pub data Verified : Type 0 where
  already_captured captured : Verified

-- The update of the job, and the payout, that follow a capture.
abbrev pub settle : Env → Payment → Option Job → Action (Unit {0})
settle env p none = pure tt
settle env p (some job) =
    if status_eq job.status JobStatus.completed then process_payouts env p job else (do
      let job' = record job { status = JobStatus.completed }
      save_job job'
      process_payouts env p job')

abbrev pub captured_row : Payment → Option String → String → Payment
captured_row p paid_as method = record p {
  status = PaymentStatus.captured;
  provider_payment_id = paid_as;
  method = some method;
}

-- From the check of the stored row on; both routes capture in these steps.
unfoldable pub capture : Env → Payment → Option String → String → Action (Unit {0})
capture env p paid_as method = do
  let p' = captured_row p paid_as method
  save_payment p'
  found ← query (job_by_id p'.job_id)
  settle env p' found

abbrev pub payment_of : ℕ → ℕ → Db → Option Payment
payment_of k user db = find? (λ p. p.id == k && p.user_id == user) db.payments

abbrev pub verify_row : Env → VerifyBody → Payment → Action Verified
verify_row env body p =
    if is_captured p.status
    then pure Verified.already_captured
    else (capture env p (some body.razorpay_payment_id) "online" >> pure Verified.captured)

unfoldable pub payment_verify : Env → Gateway → VerifyBody → User → Action Verified
payment_verify env gateway body user = do
  secret ← or_raise gateway.key_secret (http 503)
  raise_if
      (not (gateway.signature_matches secret body.order_id body.razorpay_payment_id body.signature))
      (http 400)
  found ← query (payment_of body.payment_id user.id)
  p ← or_raise found (http 404)
  verify_row env body p

pub data Event : Type 0 where
  payment_captured payment_failed other : Event

-- The part of the webhook's body that is read.
pub record Payload : Type 0 where
  pub event : Event
  pub order_id : Option String
  pub entity_id : Option String
  pub method : Option String

-- A delivery: whether the digest of its raw body matches the header, and the body if it is JSON.
pub record Delivery : Type 0 where
  pub signed : Bool
  pub parsed : Option Payload

-- entity.get("method", "online")
abbrev pub method_or_online : Option String → String
method_or_online none = "online"
method_or_online (some m) = m

abbrev pub has_order : String → Payment → Bool
has_order order_id p = elim p.provider_order_id [ none ↦ false | some o ↦ str_eq o order_id ]

abbrev pub on_event : Env → Event → Payload → Payment → Action (Unit {0})
on_event env Event.payment_captured body p =
    if is_captured p.status
    then pure tt
    else capture env p body.entity_id (method_or_online body.method)
on_event env Event.payment_failed body p =
    if is_unpaid p.status
    then save_payment (record p { status = PaymentStatus.failed })
    else pure tt
on_event env Event.other body p = pure tt

abbrev pub on_payment : Env → Payload → Option Payment → Action (Unit {0})
on_payment env body none = pure tt
on_payment env body (some p) = on_event env body.event body p

-- `if not order_id: return`, also at an empty text
abbrev pub on_order : Env → Payload → Option String → Action (Unit {0})
on_order env body none = pure tt
on_order env body (some order_id) = if str_eq order_id "" then pure tt else (do
  found ← query (λ db. select (has_order order_id) db.payments)
  p ← one_or_none found
  on_payment env body p)

unfoldable pub payment_webhook : Env → Gateway → Delivery → Action (Unit {0})
payment_webhook env gateway delivery = do
  secret ← or_raise gateway.webhook_secret (http 503)
  raise_if (not delivery.signed) (http 400)
  body ← or_raise delivery.parsed (http 400)
  on_order env body body.order_id
