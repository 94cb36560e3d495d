-- ===== src/Admin/Accounts.antt =====
-- The accounts and profiles that administrators suspend and verify, payments that they refund, and jobs
-- that they assign.
use clutch_d_backend.Base.{
  ℕ, Bool, true, false, Option, none, some, List, [], ◌∷◌, ◌==◌, not, find?, update,
}
use clutch_d_backend.Schema.{
  Db, User, Role, Mechanic, Garage, KycStatus, Job, JobStatus, Payment, PaymentStatus, ProviderType,
  NoticeBody, is_captured,
}
use clutch_d_backend.Session.{Action, http, raise_if, query, or_raise, write, pure, ◌>>=◌, ◌>>◌}
use clutch_d_backend.Tables.{
  job_by_id, mechanic_by_id, garage_by_id, save_job, save_payment, add_notification,
}
use clutch_d_backend.Jobs.Access.{is_admin}
use clutch_d_backend.Matching.Nearest.{user_by_id}
use clutch_d_backend.Auth.Access.{require_roles}
use clutch_d_backend.Auth.Login.{save_user}

-- require_admin
abbrev pub as_admin {ℓ} : {A : Type ℓ} → User → Action A → Action A
as_admin admin m = require_roles (Role.admin ∷ []) admin >>= λ _. m

abbrev pub set_mechanics : Mechanic → List Mechanic → List Mechanic
set_mechanics m = update (λ r. r.id == m.id) (λ _. m)

abbrev pub set_garages : Garage → List Garage → List Garage
set_garages g = update (λ r. r.id == g.id) (λ _. g)

abbrev pub save_mechanic : Mechanic → Action (Unit {0})
save_mechanic m = write (λ db. record db { mechanics = set_mechanics m db.mechanics })

abbrev pub save_garage : Garage → Action (Unit {0})
save_garage g = write (λ db. record db { garages = set_garages g db.garages })

-- The answer is the new `isActive`.
unfoldable pub toggle_user_status : (user : ℕ) (is_active : Bool) (admin : User) → Action Bool
unfolding require_roles
toggle_user_status user_id is_active admin = as_admin admin (do
  found ← query (user_by_id user_id)
  u ← or_raise found (http 404)
  raise_if (is_admin u.role) (http 403)
  save_user (record u { is_active = is_active })
  pure is_active)

unfoldable pub verify_mechanic : (mechanic : ℕ) (verified : Bool) (admin : User) → Action Bool
unfolding require_roles
verify_mechanic mechanic_id verified admin = as_admin admin (do
  found ← query (mechanic_by_id mechanic_id)
  m ← or_raise found (http 404)
  save_mechanic (record m { verified = verified })
  pure verified)

unfoldable pub verify_garage : (garage : ℕ) (verified : Bool) (admin : User) → Action Bool
unfolding require_roles
verify_garage garage_id verified admin = as_admin admin (do
  found ← query (garage_by_id garage_id)
  g ← or_raise found (http 404)
  save_garage (record g { verified = verified })
  pure verified)

-- `approve` tells whether the action is "approve" or "reject".
abbrev reviewed_status : Bool → KycStatus
reviewed_status true = KycStatus.verified
reviewed_status false = KycStatus.rejected

abbrev review_profile : ProviderType → ℕ → (approve : Bool) → Action KycStatus
review_profile ProviderType.mechanic profile_id approve = do
  found ← query (mechanic_by_id profile_id)
  m ← or_raise found (http 404)
  save_mechanic (record m { kyc_status = reviewed_status approve; verified = approve })
  pure (reviewed_status approve)
review_profile ProviderType.garage profile_id approve = do
  found ← query (garage_by_id profile_id)
  g ← or_raise found (http 404)
  save_garage (record g { kyc_status = reviewed_status approve; verified = approve })
  pure (reviewed_status approve)

-- A profile_type that is no provider's gets a 422; here it is a ProviderType.
unfoldable pub review_kyc :
    ProviderType → (profile : ℕ) (approve : Bool) (admin : User) → Action KycStatus
unfolding require_roles
review_kyc type profile_id approve admin = as_admin admin (review_profile type profile_id approve)

-- Of a refund, or of a penalty.
abbrev pub notify_refund : Payment → (amount : ℕ) → Option Job → Action (Unit {0})
notify_refund p amount none = pure tt
notify_refund p amount (some job) =
    add_notification job.user_id "Payment Refunded" (NoticeBody.amount amount p.id) (some p.job_id)

unfoldable pub refund_payment : (payment amount : ℕ) (admin : User) → Action (Unit {0})
unfolding require_roles
refund_payment payment_id amount admin = as_admin admin (do
  found ← query (λ db. find? (λ p. p.id == payment_id) db.payments)
  p ← or_raise found (http 404)
  raise_if (not (is_captured p.status)) (http 400)
  save_payment (record p { status = PaymentStatus.refunded })
  job ← query (job_by_id p.job_id)
  notify_refund p amount job)

abbrev force_assigned : ProviderType → ℕ → Job → Job
force_assigned ProviderType.mechanic k job = record job {
  assigned_mechanic_id = some k;
  assigned_type = some ProviderType.mechanic;
  status = JobStatus.assigned;
}
force_assigned ProviderType.garage k job = record job {
  assigned_garage_id = some k;
  assigned_type = some ProviderType.garage;
  status = JobStatus.assigned;
}

-- The user of the provider.
abbrev user_of_provider : ProviderType → ℕ → Db → Option ℕ
user_of_provider ProviderType.mechanic k db = elim (mechanic_by_id k db) [
  | none ↦ none
  | some m ↦ some m.user_id
]
user_of_provider ProviderType.garage k db = elim (garage_by_id k db) [
  | none ↦ none
  | some g ↦ some g.user_id
]

unfoldable pub force_assign_job :
    (job : ℕ) (type : ProviderType) (provider : ℕ) (admin : User) → Action JobStatus
unfolding require_roles
force_assign_job job_id type provider_id admin = as_admin admin (do
  found ← query (job_by_id job_id)
  job ← or_raise found (http 404)
  owner ← query (user_of_provider type provider_id)
  user ← or_raise owner (http 404)
  save_job (force_assigned type provider_id job)
  add_notification user "Job Force-Assigned" (NoticeBody.assignment job.id) (some job.id)
  pure JobStatus.assigned)
