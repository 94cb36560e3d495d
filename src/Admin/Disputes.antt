-- ===== src/Admin/Disputes.antt =====
-- What administrators do about a dispute. Its notes and its resolution are texts that nothing reads, and
-- are left out.
use clutch_d_backend.Base.{
  ℕ, String, Bool, true, false, ◌&&◌, Option, none, some, List, ◌==◌, if◌then◌else◌, find?, update,
}
use clutch_d_backend.Schema.{
  Db, User, Mechanic, Garage, Job, Payment, PaymentStatus, Dispute, DisputeStatus, NoticeBody,
  is_captured,
}
use clutch_d_backend.Session.{Action, http, query, or_raise, write, pure, ◌>>=◌, ◌>>◌}
use clutch_d_backend.Env.{Env}
use clutch_d_backend.Tables.{job_by_id, mechanic_by_id, garage_by_id, of_column, add_notification}
use clutch_d_backend.Auth.Access.{require_roles}
use clutch_d_backend.Admin.Accounts.{as_admin, save_mechanic, save_garage}

abbrev pub dispute_by_id : ℕ → Db → Option Dispute
dispute_by_id k db = find? (λ d. d.id == k) db.disputes

abbrev save_dispute : Dispute → Action (Unit {0})
save_dispute d =
    write (λ db. record db { disputes = update (λ r. r.id == d.id) (λ _. d) db.disputes })

-- The relationships of a job to its assigned providers.
abbrev pub mechanic_of : Job → Db → Option Mechanic
mechanic_of job db = of_column job.assigned_mechanic_id (λ k. mechanic_by_id k db)

abbrev pub garage_of : Job → Db → Option Garage
garage_of job db = of_column job.assigned_garage_id (λ k. garage_by_id k db)

-- `status in ("resolved", "dismissed")`
abbrev is_settled : DisputeStatus → Bool
is_settled DisputeStatus.resolved = true
is_settled DisputeStatus.dismissed = true
is_settled _ = false

-- A notification, if there is somebody to get it.
abbrev tell : Option ℕ → String → NoticeBody → Option ℕ → Action (Unit {0})
tell none title body job = pure tt
tell (some user) title body job = add_notification user title body job

module _ (env : Env) where
  abbrev resolve : Dispute → Dispute
  resolve d = record d { status = DisputeStatus.resolved; resolved_at = some env.now }

  unfoldable pub update_dispute : (dispute : ℕ) → DisputeStatus → (admin : User) → Action (Unit {0})
  unfolding require_roles
  update_dispute dispute_id status admin = as_admin admin (do
    found ← query (dispute_by_id dispute_id)
    d ← or_raise found (http 404)
    save_dispute (record d {
      status = status;
      resolved_at = if is_settled status then some env.now else d.resolved_at;
    }))

  -- Every captured payment of the job.
  abbrev pub refund_all : ℕ → List Payment → List Payment
  refund_all job =
      update (λ p. p.job_id == job && is_captured p.status)
        (λ p. record p { status = PaymentStatus.refunded })

  abbrev refund_job : Option Job → Action (Unit {0})
  refund_job none = pure tt
  refund_job (some job) = write (λ db. record db { payments = refund_all job.id db.payments })

  abbrev notify_customer : Option Job → (amount dispute : ℕ) → Action (Unit {0})
  notify_customer none amount dispute = pure tt
  notify_customer (some job) amount dispute =
      add_notification job.user_id "Refund Issued" (NoticeBody.amount amount dispute) (some job.id)

  unfoldable pub refund_dispute : (dispute amount : ℕ) (admin : User) → Action (Unit {0})
  unfolding require_roles
  refund_dispute dispute_id amount admin = as_admin admin (do
    found ← query (dispute_by_id dispute_id)
    d ← or_raise found (http 404)
    job ← query (job_by_id d.job_id)
    refund_job job
    save_dispute (resolve d)
    notify_customer job amount d.id)

  -- `elif job and job.assigned_garage`
  abbrev penalize_garage : (amount : ℕ) → Option Garage → Action (Option ℕ)
  penalize_garage amount none = pure none
  penalize_garage amount (some g) = do
    save_garage (record g { penalized = true; penalty_amount = some amount })
    pure (some g.user_id)

  abbrev penalize_mechanic : (amount : ℕ) → Job → Option Mechanic → Action (Option ℕ)
  penalize_mechanic amount job none = query (garage_of job) >>= penalize_garage amount
  penalize_mechanic amount job (some m) = do
    save_mechanic (record m { penalized = true; penalty_amount = some amount })
    pure (some m.user_id)

  -- The user of the provider that is penalized.
  abbrev penalize_job : (amount : ℕ) → Option Job → Action (Option ℕ)
  penalize_job amount none = pure none
  penalize_job amount (some job) = query (mechanic_of job) >>= penalize_mechanic amount job

  abbrev job_key : Option Job → Option ℕ
  job_key none = none
  job_key (some job) = some job.id

  unfoldable pub penalize_provider : (dispute amount : ℕ) (admin : User) → Action (Unit {0})
  unfolding require_roles
  penalize_provider dispute_id amount admin = as_admin admin (do
    found ← query (dispute_by_id dispute_id)
    d ← or_raise found (http 404)
    job ← query (job_by_id d.job_id)
    user ← penalize_job amount job
    save_dispute (resolve d)
    tell user "Penalty Applied" (NoticeBody.amount amount d.id) (job_key job))

  -- The assigned mechanic's user, or else the assigned garage's.
  abbrev provider_user_of : Job → Db → Option ℕ
  provider_user_of job db = elim (mechanic_of job db) [
    | some m ↦ some m.user_id
    | none ↦ elim (garage_of job db) [ none ↦ none | some g ↦ some g.user_id ]
  ]

  unfoldable pub message_dispute_parties :
      (dispute : ℕ) (message : String) (admin : User) → Action (Unit {0})
  unfolding require_roles
  message_dispute_parties dispute_id message admin = as_admin admin (do
    found ← query (dispute_by_id dispute_id)
    d ← or_raise found (http 404)
    linked ← query (job_by_id d.job_id)
    job ← or_raise linked (http 400)
    add_notification job.user_id "Message from Admin regarding Dispute" (NoticeBody.text message)
        (some job.id)
    user ← query (provider_user_of job)
    tell user "Message from Admin regarding Dispute" (NoticeBody.text message) (some job.id))
