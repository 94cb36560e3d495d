-- ===== src/Offers/Opening.antt =====
-- What a customer's request for service leaves.
use clutch_d_backend.Base.{
  ℕ, suc, ◌≡◌, refl, ap, ◌∙◌, ◌⊎◌, inl, inr, true, false, ◌&&◌, none, some, List, [], ◌∷◌, ◌++◌,
  ◌==◌, ◌<◌, ltb, length, arith, Bool-cases, find?, ==_refl,
}
use clutch_d_backend.Schema.{Db, User, Job, JobStatus}
use clutch_d_backend.Session.{World, Message, Result, ok, err, http}
use clutch_d_backend.Env.{Env}
use clutch_d_backend.Tables.{job_by_id}
use clutch_d_backend.Jobs.Access.{is_customer}
use clutch_d_backend.Jobs.Response.{JobResponse, job_response_dict}
use clutch_d_backend.Matching.Nearest.{Server}
use clutch_d_backend.Offers.Create.{is_searching, is_early, create_provider_offers}
use clutch_d_backend.Offers.Fanout.{create_provider_offers_lem}
use clutch_d_backend.Offers.Request.{
  ServiceRequestCreate, new_job, create_service_request, create_request, shown_response,
}

appended-found :
    (k : ℕ) (js : List Job) (job : Job)
    → find? (λ j. j.id == k) js ≡ none
    → (job.id == k) ≡ true
    → is_searching job.status ≡ true
    → (find? (λ j. j.id == k) (js ++ job ∷ []) ≡ some job)
      × (find? (λ j. j.id == k && is_searching j.status) (js ++ job ∷ []) ≡ some job)
appended-found k [] job gone same searching = (ground arith, ground arith)
appended-found k (j ∷ js) job gone same searching = ground (arith, appended-found k js job)

module _ (env : Env) (server : Server) (user : User) (form : ServiceRequestCreate) (w : World) where
  abbrev job : Job
  job = new_job env server w.next_id user form

  -- The world from which the job is dispatched.
  abbrev pub opened : World
  opened = record w { db = record (w.db) { jobs = w.db.jobs ++ job ∷ [] }; next_id = suc w.next_id }

  abbrev offering : Result ℕ × World
  offering = create_provider_offers env server w.next_id opened

  offered :
      job_by_id w.next_id w.db ≡ none
      → (n : ℕ) × (offering.0 ≡ ok n) × (offering.1.db.jobs ≡ opened.db.jobs)
  offered fresh =
      let (found, locked) = appended-found w.next_id w.db.jobs job fresh (==_refl w.next_id) refl in
      let (absent, early, due) = create_provider_offers_lem env server w.next_id opened in
      elim (Bool-cases (is_early env.now form.scheduled_at)) [
        | inl later ↦
            let (r, same) = early job locked later in (0, r, ap (λ (v : World). v.db.jobs) same)
        | inr now ↦
            let (news, r, d, fresh_news, unique, told) = due job locked now in
            (length news, r, ap (λ (db : Db). db.jobs) d)
      ]

  -- The reply and the messages, by the number of offers.
  abbrev pub OpenedWith : ℕ → Result JobResponse × World → Type 0
  OpenedWith n (r, after) =
      (reply : JobResponse) × (r ≡ ok reply)
      × (reply.id ≡ w.next_id)
      × (((n ≡ 0)
            × (reply.status ≡ JobStatus.searching)
            × (after.sent ≡ Message.retry_assignment w.next_id 45 ∷ offering.1.sent))
          ⊎ ((0 < n)
              × (reply.status ≡ JobStatus.providers_notified)
              × (after.sent
                  ≡ Message.status_update user.id w.next_id JobStatus.providers_notified none none
                    ∷ offering.1.sent)))

  replied :
      (n : ℕ)
      → is_customer user.role ≡ true
      → offering.0 ≡ ok n
      → OpenedWith n (create_request env server user form w)
        × ((create_request env server user form w).1.db ≡ offering.1.db)
  unfolding create_request create_service_request job_response_dict
  replied n may r = elim (Bool-cases (ltb 0 n)) [
    | inl some_of ↦ (
      (
        shown_response env server job n none,
        ground arith,
        ground arith,
        inr (ground arith, ground arith, ground arith),
      ),
      ground arith,
    )
    | inr none_of ↦ (
      (
        shown_response env server job n none,
        ground arith,
        ground arith,
        inl (ground arith, ground arith, ground arith),
      ),
      ground arith,
    )
  ]

  refused :
      is_customer user.role ≡ false
      → let (r, after) = create_request env server user form w in (r ≡ err (http 403)) × (after ≡ w)
  unfolding create_request
  refused may_not = (ground arith, ground arith)

  -- A request by a customer, under a key that no job has, succeeds and stores the job as searching. If
  -- providers get offers then the customer is told so, by message and in the reply, and if none does a
  -- retry is queued. A request by anyone else is refused with nothing written or sent.
  pub create_request_lem :
      job_by_id w.next_id w.db ≡ none
      → let (r, after) = create_request env server user form w in
        (is_customer user.role ≡ true
          → (job_by_id w.next_id after.db ≡ some (new_job env server w.next_id user form))
            × ((n : ℕ) × ((create_provider_offers env server w.next_id opened).0 ≡ ok n)
                × OpenedWith n (r, after)))
        × (is_customer user.role ≡ false → (r ≡ err (http 403)) × (after ≡ w))
  create_request_lem fresh =
      let (n, r, jobs) = offered fresh in
      let (found, locked) = appended-found w.next_id w.db.jobs job fresh (==_refl w.next_id) refl in
      (
        λ may.
            let (reply, db) = replied n may r in
            (
              ap (λ (d : Db). find? (λ j. j.id == w.next_id) d.jobs) db
                  ∙ ap (find? (λ j. j.id == w.next_id)) jobs
                  ∙ found,
              (n, r, reply),
            ),
        refused,
      )
