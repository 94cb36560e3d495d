-- ===== src/Jobs/Routes.antt =====
-- The routes of backend/app/api/v1/service.py and jobs.py that change a job.
use clutch_d_backend.Base.{ℕ, Bool, true, false, not, ◌||◌, Option, none, some, ◌==◌, if◌then◌else◌}
use clutch_d_backend.Schema.{Db, Float, User, Role, Job, JobStatus, ProviderType}
use clutch_d_backend.Session.{
  Action, Error, ok, err, http, invalid_transition, pure, raise_if, query, or_raise, ◌>>=◌, ◌>>◌,
}
use clutch_d_backend.Env.{Env}
use clutch_d_backend.Tables.{job_by_id, mechanic_by_user, garage_by_user, save_job}
use clutch_d_backend.Jobs.Access.{
  get_job_for_user, is_admin, is_customer, assigned_mechanic, assigned_garage,
}
use clutch_d_backend.Jobs.Response.{JobResponse, job_response_dict}
use clutch_d_backend.Jobs.Status.{
  patch_job_status, complete_job_with_payment, cancel_job, delete_job,
}
use clutch_d_backend.Jobs.Pricing.{finalize_job_price}

-- `except InvalidTransitionError: raise HTTPException(409)`
abbrev pub conflict_error : Error → Error
conflict_error (invalid_transition current target) = http 409
conflict_error e = e

-- … followed by `except Exception: raise HTTPException(500)`
abbrev pub internal_error : Error → Error
internal_error (invalid_transition current target) = http 409
internal_error e = http 500

abbrev pub map_error {ℓ} : {A : Type ℓ} → (Error → Error) → Action A → Action A
map_error f m w = let (r, w') = m w in elim r [ ok a ↦ (ok a, w') | err e ↦ (err (f e), w') ]

-- `job = await get_job_for_user(…)` and the 404 that follows it in every route.
abbrev pub visible_job : ℕ → User → Action Job
visible_job job_id user =
    query (get_job_for_user job_id user) >>= λ found. or_raise found (http 404)

-- UserRole.mechanic, UserRole.garage or UserRole.admin
abbrev pub is_provider_or_admin : Role → Bool
is_provider_or_admin Role.mechanic = true
is_provider_or_admin Role.garage = true
is_provider_or_admin Role.admin = true
is_provider_or_admin _ = false

module _ (env : Env) where
  -- `mechanicId` is taken as parsed.
  unfoldable pub patch_request_status : ℕ → User → JobStatus → Option ℕ → Action JobResponse
  patch_request_status job_id user status mechanic_id = do
    job ← visible_job job_id user
    map_error internal_error (patch_job_status env job status mechanic_id)

  unfoldable pub finalize_price : ℕ → User → Float → Action JobResponse
  finalize_price job_id user service_amount = do
    raise_if (not (is_provider_or_admin user.role)) (http 403)
    job ← visible_job job_id user
    map_error conflict_error (finalize_job_price env job service_amount)

  unfoldable pub complete_request : ℕ → User → Action JobResponse
  complete_request job_id user = do
    job ← visible_job job_id user
    map_error conflict_error (complete_job_with_payment env job)

  -- `jobs_assign` and `jobs_assign_by_path`, which `require_admin` guards.
  abbrev pub assign_to : ProviderType → ℕ → Job → Job
  assign_to ProviderType.mechanic k job = record job {
    assigned_type = some ProviderType.mechanic;
    assigned_mechanic_id = some k;
    assigned_garage_id = none;
    status = JobStatus.assigned;
  }
  assign_to ProviderType.garage k job = record job {
    assigned_type = some ProviderType.garage;
    assigned_garage_id = some k;
    assigned_mechanic_id = none;
    status = JobStatus.assigned;
  }

  unfoldable pub jobs_assign : ℕ → ProviderType → ℕ → Action JobResponse
  jobs_assign job_id assign_type assign_id = do
    found ← query (job_by_id job_id)
    job ← or_raise found (http 404)
    let job' = assign_to assign_type assign_id job
    save_job job'
    pure (job_response_dict env job' none)

unfoldable pub cancel_request : ℕ → User → Action (Unit {0})
cancel_request job_id user = visible_job job_id user >>= cancel_job

-- The permission checks of the delete route, by role.
abbrev may_delete_as : Role → User → Job → Db → Bool
may_delete_as Role.mechanic user job db = assigned_mechanic job (mechanic_by_user user.id db)
may_delete_as Role.garage user job db = assigned_garage job (garage_by_user user.id db)
may_delete_as _ user job db = false

abbrev pub may_delete : User → Job → Db → Bool
may_delete user job db =
    if is_admin user.role || user.is_superuser
    then true
    else if is_customer user.role
    then job.user_id == user.id
    else may_delete_as user.role user job db

unfoldable pub delete_job_endpoint : ℕ → User → Action (Unit {0})
delete_job_endpoint job_id user = do
  found ← query (job_by_id job_id)
  job ← or_raise found (http 404)
  allowed ← query (may_delete user job)
  raise_if (not allowed) (http 403)
  delete_job job
