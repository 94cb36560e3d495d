-- ===== src/Examples.antt =====
-- The theorems on jobs, matching and offers at concrete inputs, and the modules of those on other parts.
mod Samples
mod Dealings
mod Access
mod Passwords
mod Office
mod Members
mod Trade
mod Service
use clutch_d_backend.Base.{ℕ, ◌≡◌, ◌≢◌, refl, true, false, none, some, List, [], ◌∷◌}
use clutch_d_backend.Schema.{Float, Job, JobStatus}
use clutch_d_backend.Examples.Samples.*
use clutch_d_backend.Session.{Message, ok, err, http, invalid_transition}
use clutch_d_backend.Tables.{job_by_id}
use clutch_d_backend.Jobs.Transitions.{is_priceable}
use clutch_d_backend.Jobs.Access.{get_job_for_user}
use clutch_d_backend.Jobs.Routes.{delete_job_endpoint, may_delete}
use clutch_d_backend.Jobs.Visibility.{MaySee, get_job_for_user_iff}
use clutch_d_backend.Jobs.Lifecycle.{Request, Reaches, serve_all, serve_all-Reaches, closed_stays}
use clutch_d_backend.Jobs.Response.{JobResponse, assigned_summary}
use clutch_d_backend.Jobs.Pricing.{finalize_job_price}
use clutch_d_backend.Jobs.Effects.{breakdown, IsBill, finalize_job_price_lem}
use clutch_d_backend.Jobs.Deletion.{NoTrace, Untouched, delete_job_endpoint_lem}

abbrev requests : List Request
requests = Request.patch 101 driver JobStatus.en_route none ∷ Request.cancel 103 customer ∷ []

serve_all-Reaches_example :
    (job' : Job) × (job_by_id 101 (serve_all env requests world).db ≡ some job')
    × Reaches JobStatus.assigned job'.status
serve_all-Reaches_example = serve_all-Reaches env requests world 101 refl

closed_stays_example : job_by_id 103 (serve_all env requests world).db ≡ some finished
closed_stays_example = closed_stays env requests world 103 refl refl

get_job_for_user_iff_example :
    (get_job_for_user 101 driver db ≡ some assigned
      → (job_by_id 101 db ≡ some assigned) × MaySee driver assigned db)
    × ((job_by_id 101 db ≡ some assigned) × MaySee driver assigned db
        → get_job_for_user 101 driver db ≡ some assigned)
get_job_for_user_iff_example = get_job_for_user_iff 101 driver assigned db

finalize_job_price_lem_example :
    let (r, after) = finalize_job_price env assigned (Float.bits 500) world in
    (is_priceable JobStatus.assigned ≡ true
      → (job' : Job) × (job_by_id 101 after.db ≡ some job')
        × (job'.status ≡ JobStatus.payment_pending)
        × (job'.service_amount ≡ some (Float.bits 500))
        × IsBill env (Float.bits 500) job'
        × ((reply : JobResponse) × (r ≡ ok reply) × (reply.pricing ≡ some (breakdown env job')))
        × ((unread : ℕ) × (after.sent
              ≡ Message.notification_update 1 unread
                ∷ Message.status_update 1 101 JobStatus.payment_pending
                    (assigned_summary env job' world.db)
                    (some (breakdown env job'))
                ∷ [])))
    × (is_priceable JobStatus.assigned ≡ false
        → (r ≡ err (invalid_transition JobStatus.assigned JobStatus.payment_pending))
          × (after ≡ world))
finalize_job_price_lem_example = finalize_job_price_lem env assigned world refl (Float.bits 500)

delete_job_endpoint_lem_example :
    let (r, after) = delete_job_endpoint 101 driver world in
    (may_delete driver assigned world.db ≡ true
      → NoTrace 101 after.db × ((j : ℕ) → j ≢ 101 → Untouched j world.db after.db))
    × (may_delete driver assigned world.db ≡ false → (r ≡ err (http 403)) × (after ≡ world))
delete_job_endpoint_lem_example = delete_job_endpoint_lem 101 driver world refl
