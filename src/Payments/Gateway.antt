-- ===== src/Payments/Gateway.antt =====
-- The payment gateway, and the routes that open a payment with it: payment_create and create_qr of
-- backend/app/api/v1/payments.py.
use clutch_d_backend.Base.{
  ℕ, String, Bool, not, ◌||◌, ◌&&◌, Option, none, some, [], ◌∷◌, ◌++◌, ◌==◌, if◌then◌else◌, ltb,
  find?,
}
use clutch_d_backend.Schema.{User, Job, Payment, PaymentStatus}
use clutch_d_backend.Session.{
  Action, http, pure, raise_if, query, or_raise, write, new_id, ◌>>=◌, ◌>>◌,
}
use clutch_d_backend.Tables.{job_by_id}

-- Razorpay's client and Python's hmac, with the settings that they need. A call that raises is none.
pub record Gateway : Type 0 where
  -- `_get_razorpay_client` gives a client, real or mock
  pub has_client : Bool
  pub create_order : (amount job : ℕ) → Option String
  pub create_qrcode : (amount job : ℕ) → Option String
  -- razorpay_key_secret, when it is set
  pub key_secret : Option String
  pub webhook_secret : Option String
  -- hmac.compare_digest of the digest of `order|payment` under the secret and a signature
  pub signature_matches : (secret order payment signature : String) → Bool

-- `amount < 100 or amount > 50000000`, in paise
abbrev pub is_bad_amount : ℕ → Bool
is_bad_amount amount = ltb amount 100 || ltb 50000000 amount

abbrev pub add_payment : Payment → Action (Unit {0})
add_payment p = write (λ db. record db { payments = db.payments ++ p ∷ [] })

-- `if not job or job.user_id != user.id`
abbrev own_job : User → Option Job → Option Job
own_job user none = none
own_job user (some job) = if job.user_id == user.id then some job else none

-- A pending row for a new order or QR code.
abbrev opened : ℕ → Job → User → ℕ → String → Option String → Payment
opened k job user amount order_id method = record {
  id = k;
  job_id = job.id;
  user_id = user.id;
  amount = amount;
  provider = "razorpay";
  provider_order_id = some order_id;
  provider_payment_id = none;
  status = PaymentStatus.pending;
  method = method;
}

module _ (gateway : Gateway) where
  -- `amount` has passed Field(ge=100, le=50000000) too, which is the same test.
  unfoldable pub payment_create : ℕ → ℕ → User → Action ℕ
  payment_create job_id amount user = do
    raise_if (is_bad_amount amount) (http 422)
    found ← query (λ db. own_job user (job_by_id job_id db))
    job ← or_raise found (http 404)
    raise_if (not gateway.has_client) (http 503)
    order_id ← or_raise (gateway.create_order amount job.id) (http 502)
    k ← new_id
    add_payment (opened k job user amount order_id none)
    pure k

  unfoldable pub create_qr : ℕ → ℕ → User → Action ℕ
  create_qr job_id amount user = do
    raise_if (is_bad_amount amount) (http 422)
    found ← query (λ db. find? (λ (j : Job). j.id == job_id && j.user_id == user.id) db.jobs)
    job ← or_raise found (http 404)
    raise_if (not gateway.has_client) (http 503)
    qr_id ← or_raise (gateway.create_qrcode amount job.id) (http 502)
    k ← new_id
    add_payment (opened k job user amount qr_id (some "qr"))
    pure k
