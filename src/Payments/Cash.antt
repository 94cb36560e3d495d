-- ===== src/Payments/Cash.antt =====
-- cash_payment of backend/app/api/v1/payments.py, and hold_payment and release_payment of
-- backend/app/api/v1/service.py.
use clutch_d_backend.Base.{
  ℕ, String, Bool, true, false, not, ◌||◌, ◌&&◌, Option, none, some, List, [], ◌∷◌, ◌==◌,
  if◌then◌else◌, find?, select, str_eq, is_some,
}
use clutch_d_backend.Schema.{
  Db, Float, User, Role, Job, JobStatus, Payment, PaymentStatus, is_live, is_held,
}
use clutch_d_backend.Session.{
  Action, Message, http, pure, raise_if, query, or_raise, one_or_none, new_id, send, ◌>>=◌, ◌>>◌,
}
use clutch_d_backend.Env.{Env}
use clutch_d_backend.Tables.{
  job_by_id, mechanic_by_id, garage_by_id, mechanic_by_user, garage_by_user, of_column, save_job,
  save_payment,
}
use clutch_d_backend.Jobs.Transitions.{is_closed}
use clutch_d_backend.Jobs.Access.{is_admin, is_customer, assigned_mechanic, assigned_garage}
use clutch_d_backend.Jobs.Response.{JobResponse}
use clutch_d_backend.Jobs.Routes.{visible_job}
use clutch_d_backend.Jobs.Status.{complete_job_with_payment}
use clutch_d_backend.Payments.Gateway.{is_bad_amount, add_payment}

-- is_assigned_mechanic and is_assigned_garage
abbrev pub is_assigned_as : Role → User → Job → Db → Bool
is_assigned_as Role.mechanic user job db = assigned_mechanic job (mechanic_by_user user.id db)
is_assigned_as Role.garage user job db = assigned_garage job (garage_by_user user.id db)
is_assigned_as _ user job db = false

abbrev pub may_take_cash : User → Job → Db → Bool
may_take_cash user job db =
    (is_admin user.role || user.is_superuser)
    || job.user_id == user.id
    || is_assigned_as user.role user job db

-- Payments of the job that are captured or pending.
abbrev pub live_payments : ℕ → Db → List Payment
live_payments job_id db = select (λ p. p.job_id == job_id && is_live p.status) db.payments

abbrev pub cash_row : ℕ → Job → ℕ → Payment
cash_row k job amount = record {
  id = k;
  job_id = job.id;
  user_id = job.user_id;
  amount = amount;
  provider = "manual";
  provider_order_id = none;
  provider_payment_id = none;
  status = PaymentStatus.captured;
  method = some "cash";
}

-- provider_user_id
abbrev provider_user : Job → Db → Option ℕ
provider_user job db = elim job.assigned_mechanic_id [
  | some k ↦ elim (mechanic_by_id k db) [ none ↦ none | some m ↦ some m.user_id ]
  | none ↦
      of_column job.assigned_garage_id
        λ k. elim (garage_by_id k db) [ none ↦ none | some g ↦ some g.user_id ]
]

abbrev push_provider : Job → Option ℕ → Action (Unit {0})
push_provider job none = pure tt
push_provider job (some user) =
    send (Message.status_update user job.id JobStatus.completed none none)

unfoldable pub cash_payment : ℕ → ℕ → User → Action ℕ
cash_payment job_id amount user = do
  raise_if (is_bad_amount amount) (http 422)
  found ← query (job_by_id job_id)
  job ← or_raise found (http 404)
  raise_if (is_closed job.status) (http 409)
  live ← query (live_payments job_id)
  existing ← one_or_none live
  raise_if (is_some existing) (http 409)
  allowed ← query (may_take_cash user job)
  raise_if (not allowed) (http 403)
  k ← new_id
  add_payment (cash_row k job amount)
  let job' = record job { status = JobStatus.completed }
  save_job job'
  send (Message.status_update job'.user_id job'.id JobStatus.completed none none)
  provider ← query (provider_user job')
  push_provider job' provider
  pure k

-- `job.status not in ("payment_pending", "in_progress")`
abbrev can_hold : JobStatus → Bool
can_hold JobStatus.payment_pending = true
can_hold JobStatus.in_progress = true
can_hold _ = false

unfoldable pub hold_payment : Env → ℕ → String → Float → Option String → User → Action ℕ
hold_payment env job_id method amount transaction_id user = do
  raise_if (not (is_customer user.role)) (http 403)
  job ← visible_job job_id user
  raise_if (not (can_hold job.status)) (http 409)
  k ← new_id
  add_payment (record {
    id = k;
    job_id = job.id;
    user_id = user.id;
    amount = env.ops.to_int (env.ops.mul amount (env.ops.lit 100 1));
    provider = "manual";
    provider_order_id = none;
    provider_payment_id = transaction_id;
    status = PaymentStatus.held;
    method = some method;
  })
  pure k

-- `.order_by(created_at.desc()).first()`: the table is in the order of creation.
abbrev latest : (Payment → Bool) → List Payment → Option Payment
latest p [] = none
latest p (x ∷ xs) =
    let later = latest p xs in elim later [ some y ↦ some y | none ↦ if p x then some x else none ]

abbrev paid_as : String → Payment → Bool
paid_as id p = elim p.provider_payment_id [ none ↦ false | some q ↦ str_eq q id ]

-- The payment that is released: the latest held one of the job, or, if an id is given, any of the job
-- with that id, whatever its status.
abbrev pub to_release : ℕ → Option String → Db → Option Payment
to_release job_id none db = latest (λ p. p.job_id == job_id && is_held p.status) db.payments
to_release job_id (some id) db =
    if str_eq id ""
    then latest (λ p. p.job_id == job_id && is_held p.status) db.payments
    else find? (λ p. p.job_id == job_id && paid_as id p) db.payments

unfoldable pub release_payment : Env → ℕ → Option String → User → Action JobResponse
release_payment env job_id payment_id user = do
  raise_if (not (is_customer user.role)) (http 403)
  job ← visible_job job_id user
  found ← query (to_release job.id payment_id)
  p ← or_raise found (http 404)
  save_payment (record p { status = PaymentStatus.released })
  complete_job_with_payment env job
