-- ===== src/Jobs/Listing.antt =====
-- What backend/app/api/v1/jobs.py shows of jobs: their status, the incoming ones and the history; and its
-- second route for assigning a job.
use clutch_d_backend.Base.{
  ℕ, Bool, true, ◌&&◌, Option, none, some, List, [], ◌∷◌, ◌==◌, ltb, is_some_eq, exists, select,
  map, sort, take, drop,
}
use clutch_d_backend.Schema.{Db, User, Mechanic, Garage, Role, Job, JobStatus, ProviderType}
use clutch_d_backend.Session.{Action, http, query, or_raise, pure, ◌>>=◌, ◌>>◌}
use clutch_d_backend.Env.{Env}
use clutch_d_backend.Tables.{job_by_id, mechanic_by_user, garage_by_user, save_job}
use clutch_d_backend.Jobs.Transitions.{member}
use clutch_d_backend.Jobs.Response.{JobResponse, job_response_dict, assigned_summary}
use clutch_d_backend.Jobs.Routes.{visible_job, assign_to}

abbrev pub newer : Job → Job → Bool
newer a b = ltb b.created_at a.created_at

-- `where(test, Job.status.in_(statuses)).order_by(Job.created_at.desc())`
abbrev pub newest_in : List JobStatus → (Job → Bool) → Db → List Job
newest_in statuses test db = sort newer (select (λ j. test j && member j.status statuses) db.jobs)

abbrev pub under_way : List JobStatus
under_way =
    JobStatus.assigned ∷ JobStatus.en_route ∷ JobStatus.in_progress ∷ JobStatus.payment_pending ∷ []

abbrev pub not_due : List JobStatus
not_due = JobStatus.searching ∷ JobStatus.assigned ∷ JobStatus.en_route ∷ JobStatus.in_progress ∷ []

abbrev pub over : List JobStatus
over = JobStatus.completed ∷ JobStatus.cancelled ∷ []

-- `if not mech: return {"jobs": []}`
abbrev pub rows_of_mechanic : List JobStatus → Db → Option Mechanic → List Job
rows_of_mechanic statuses db none = []
rows_of_mechanic statuses db (some m) =
    newest_in statuses (λ j. is_some_eq j.assigned_mechanic_id m.id) db

abbrev pub rows_of_garage : List JobStatus → Db → Option Garage → List Job
rows_of_garage statuses db none = []
rows_of_garage statuses db (some g) =
    newest_in statuses (λ j. is_some_eq j.assigned_garage_id g.id) db

abbrev pub jobs_of_mechanic : List JobStatus → User → Db → List Job
jobs_of_mechanic statuses user db = rows_of_mechanic statuses db (mechanic_by_user user.id db)

abbrev pub jobs_of_garage : List JobStatus → User → Db → List Job
jobs_of_garage statuses user db = rows_of_garage statuses db (garage_by_user user.id db)

abbrev pub jobs_of_customer : List JobStatus → User → Db → List Job
jobs_of_customer statuses user db = newest_in statuses (λ j. j.user_id == user.id) db

-- The jobs of incoming_jobs, by the role of the user.
unfoldable pub incoming_as : Role → User → Db → List Job
incoming_as Role.mechanic user db = jobs_of_mechanic under_way user db
incoming_as Role.garage user db = jobs_of_garage under_way user db
incoming_as Role.customer user db = jobs_of_customer (JobStatus.searching ∷ under_way) user db
incoming_as _ user db = take 50 (newest_in not_due (λ j. true) db)

abbrev pub page : (offset limit : ℕ) → List Job → List Job
page offset limit jobs = take limit (drop offset jobs)

-- The jobs of get_history, by the role of the user.
unfoldable pub history_as : Role → User → (offset limit : ℕ) → Db → List Job
history_as Role.mechanic user offset limit db = page offset limit (jobs_of_mechanic over user db)
history_as Role.garage user offset limit db = page offset limit (jobs_of_garage over user db)
history_as Role.customer user offset limit db = page offset limit (jobs_of_customer over user db)
history_as _ user offset limit db = page offset limit (newest_in over (λ j. true) db)

-- `j.id in paid_job_ids`: there is a payment, of whatever status.
abbrev is_paid : Db → Job → Bool
is_paid db j = exists (λ p. p.job_id == j.id) db.payments

module _ (env : Env) where
  unfoldable pub job_status : ℕ → User → Action JobResponse
  job_status job_id user = do
    job ← visible_job job_id user
    summary ← query (assigned_summary env job)
    pure (job_response_dict env job summary)

  unfoldable pub incoming_jobs : User → Db → List JobResponse
  unfolding incoming_as
  incoming_jobs user db = map (λ j. job_response_dict env j none) (incoming_as user.role user db)

  -- Each job with its `isPaid`.
  unfoldable pub get_history : User → (offset limit : ℕ) → Db → List (JobResponse × Bool)
  unfolding history_as
  get_history user offset limit db =
      map (λ j. (job_response_dict env j none, is_paid db j))
        (history_as user.role user offset limit db)

  unfoldable pub jobs_assign_by_path : ℕ → ProviderType → ℕ → Action JobResponse
  jobs_assign_by_path job_id assign_type assign_id = do
    found ← query (job_by_id job_id)
    job ← or_raise found (http 404)
    let job' = assign_to env assign_type assign_id job
    save_job job'
    pure (job_response_dict env job' none)
