-- ===== src/Jobs/Progress.antt =====
-- How a job that has been assigned gets to its end, by the routes of backend/app/api/v1/service.py.
use clutch_d_backend.Base.{ℕ, ◌≡◌, none, some}
use clutch_d_backend.Schema.{Float, User, Mechanic, Job, JobStatus}
use clutch_d_backend.Session.{World, Action, Result, ok, in_session}
use clutch_d_backend.Env.{Env}
use clutch_d_backend.Tables.{job_by_id, mechanic_by_user, set_jobs}
use clutch_d_backend.Jobs.Response.{JobResponse}
use clutch_d_backend.Jobs.Routes.{patch_request_status, finalize_price, complete_request}

-- The operation returns, and stores the job under the new status with the mechanic that it had.
abbrev Advances : Action JobResponse → Job → JobStatus → World → Type 0
Advances op job t w =
    (reply : JobResponse) × (job' : Job) × ((op w).0 ≡ ok reply)
    × ((op w).1.db.jobs ≡ set_jobs job' w.db.jobs)
    × ((op w).1.db.mechanics ≡ w.db.mechanics)
    × (job'.id ≡ job.id)
    × (job'.status ≡ t)
    × (job'.assigned_mechanic_id ≡ job.assigned_mechanic_id)

abbrev pub IsOk {ℓ} : {A : Type ℓ} → Result A → Type ℓ
IsOk {A} r = (a : A) × (r ≡ ok a)

module _ (env : Env) (k : ℕ) (user : User) (m : Mechanic) where
  -- The job is stored with this status, and the user is its mechanic.
  abbrev pub IsAt : JobStatus → World → Type 0
  IsAt s w =
      (job : Job) × (job_by_id k w.db ≡ some job)
      × (job.status ≡ s)
      × (job.assigned_mechanic_id ≡ some m.id)
      × (mechanic_by_user user.id w.db ≡ some m)

  -- The answer of a route that runs the operation.
  abbrev RunsAs : Action JobResponse → Action JobResponse → World → Type 0
  RunsAs route op w =
      (reply : JobResponse) → (op w).0 ≡ ok reply → in_session route w ≡ (ok reply, (op w).1)

-- The four requests that see a job through.
module _ (env : Env) (k : ℕ) (user : User) (amount : Float) (w : World) where
  abbrev pub setting_out : Result JobResponse × World
  setting_out = in_session (patch_request_status env k user JobStatus.en_route none) w

  abbrev pub working : Result JobResponse × World
  working = in_session (patch_request_status env k user JobStatus.in_progress none) setting_out.1

  abbrev pub pricing : Result JobResponse × World
  pricing = in_session (finalize_price env k user amount) working.1

  abbrev pub finishing : Result JobResponse × World
  finishing = in_session (complete_request env k user) pricing.1
