-- ===== src/Jobs/Status.antt =====
-- patch_job_status, complete_job_with_payment, cancel_job and delete_job of job_service.py.
use clutch_d_backend.Base.{
  ℕ, String, not, Option, none, some, List, ◌==◌, if◌then◌else◌, is_some_eq, select,
}
use clutch_d_backend.Schema.{Mechanic, Job, JobStatus, ProviderType, NoticeBody, status_eq}
use clutch_d_backend.Session.{
  Action, Error, Message, Summary, pure, raise, raise_if, query, write, send, ◌>>=◌, ◌>>◌,
}
use clutch_d_backend.Env.{Env}
use clutch_d_backend.Tables.{mechanic_by_id, of_column, save_job, add_notification, push_unread}
use clutch_d_backend.Jobs.Transitions.{validate_transition, is_closed}
use clutch_d_backend.Jobs.Response.{JobResponse, job_response_dict, assigned_mechanic_summary}

-- The title and body of the notification for a new status; other statuses have none.
abbrev pub status_notice : JobStatus → Option (String × String)
status_notice JobStatus.assigned =
    some ("Job Assigned", "A mechanic has been assigned to your service request.")
status_notice JobStatus.en_route =
    some ("Mechanic En Route", "The mechanic is on their way to your location.")
status_notice JobStatus.in_progress =
    some ("Job In Progress", "The mechanic has started working on your vehicle.")
status_notice JobStatus.completed = some ("Job Completed", "Your service request is complete.")
status_notice JobStatus.cancelled = some ("Job Cancelled", "Your service request was cancelled.")
status_notice _ = none

abbrev add_notice : Job → Option (String × String) → Action (Unit {0})
add_notice job none = pure tt
add_notice job (some (title, body)) =
    add_notification job.user_id title (NoticeBody.text body) (some job.id)
    >> push_unread job.user_id

-- `if mechanic_id and job.assigned_mechanic_id != mechanic_id: …`
abbrev pub set_mechanic : Option ℕ → Job → Job
set_mechanic none job = job
set_mechanic (some k) job =
    if is_some_eq job.assigned_mechanic_id k
    then job
    else record job { assigned_mechanic_id = some k; assigned_type = some ProviderType.mechanic }

abbrev send_location : Job → Option Mechanic → Action (Unit {0})
send_location job none = pure tt
send_location job (some m) = send (Message.location_update job.user_id job.id m.lat m.lon)

abbrev push_status : Job → JobStatus → Option Summary → Action (Unit {0})
push_status job status summary = send (Message.status_update job.user_id job.id status summary none)

module _ (env : Env) where
  unfoldable pub patch_job_status : Job → JobStatus → Option ℕ → Action JobResponse
  unfolding validate_transition
  patch_job_status job status mechanic_id = do
    raise_if (not (validate_transition job.status status))
        (Error.invalid_transition job.status status)
    let job' = set_mechanic mechanic_id (record job { status = status })
    save_job job'
    summary ← query (assigned_mechanic_summary env job')
    push_status job' status summary
    add_notice job' (status_notice status)
    mechanic ← query (λ db. of_column job'.assigned_mechanic_id λ k. mechanic_by_id k db)
    send_location job' mechanic
    pure (job_response_dict env job' summary)

  -- The payment that is passed in is not read.
  unfoldable pub complete_job_with_payment : Job → Action JobResponse
  complete_job_with_payment job =
      if status_eq job.status JobStatus.cancelled
      then raise (Error.invalid_transition JobStatus.cancelled JobStatus.completed)
      else if status_eq job.status JobStatus.completed
      then pure (job_response_dict env job none)
      else (do
        let job' = record job { status = JobStatus.completed }
        save_job job'
        push_status job' JobStatus.completed none
        pure (job_response_dict env job' none))

unfoldable pub cancel_job : Job → Action (Unit {0})
cancel_job job = if is_closed job.status then pure tt else (do
  let job' = record job { status = JobStatus.cancelled }
  save_job job'
  push_status job' JobStatus.cancelled none)

-- The rows of a table that do not belong to the job stay.
abbrev pub delete_of {ℓ} : {A : Type ℓ} → (A → ℕ) → ℕ → List A → List A
delete_of key k rows = select (λ r. not (key r == k)) rows

unfoldable pub delete_job : Job → Action (Unit {0})
delete_job job = write λ db. record db {
  chat_messages = delete_of (λ r. r.job_id) job.id db.chat_messages;
  disputes = delete_of (λ r. r.job_id) job.id db.disputes;
  notifications = select (λ r. not (is_some_eq r.job_id job.id)) db.notifications;
  payments = delete_of (λ r. r.job_id) job.id db.payments;
  reviews = delete_of (λ r. r.job_id) job.id db.reviews;
  offers = delete_of (λ r. r.job_id) job.id db.offers;
  jobs = delete_of (λ r. r.id) job.id db.jobs;
}
