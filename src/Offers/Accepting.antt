-- ===== src/Offers/Accepting.antt =====
-- accept_offer of offer_service.py, branch by branch.
use clutch_d_backend.Base.{
  ℕ, ◌≡◌, ◌≢◌, refl, sym, ap, ◌∙◌, subst, true, false, ◌&&◌, none, some, List, [], ◌∷◌, ◌==◌, arith,
  Option, if◌then◌else◌, find?, update, find?-holds, find?-overwritten,
}
use clutch_d_backend.Schema.{
  User, Job, JobStatus, ProviderType, ProviderOffer, OfferStatus, is_pending, provider_eq,
}
use clutch_d_backend.Session.{World, Error, Result, ok, err, http}
use clutch_d_backend.Env.{Env}
use clutch_d_backend.Tables.{
  job_by_id, set_jobs, job_by_id-set_jobs, job_by_id-set_jobs_ne, job_by_id-id,
}
use clutch_d_backend.Offers.Create.{is_searching, searching_job}
use clutch_d_backend.Offers.Answer.{
  Provider, OfferReply, Claim, resolve_provider, offer_to, is_expired, assign_provider, check_offer,
  assign_job, accept_offer,
}

-- The lock finds the stored job exactly while it is searching.
pub searching_job-stored :
    (k : ℕ) (js : List Job) {job : Job}
    → find? (λ j. j.id == k) js ≡ some job
    → is_searching job.status ≡ true
    → find? (λ j. j.id == k && is_searching j.status) js ≡ some job
searching_job-stored k [] h s = cc
searching_job-stored k (x ∷ js) {job} h s = ground (arith, searching_job-stored k js {job = job})

abbrev pub set_offers : ProviderOffer → List ProviderOffer → List ProviderOffer
set_offers o = update (λ r. r.id == o.id) (λ _. o)

pub offer_to-set_offers :
    (k : ℕ) (p : Provider) (o o' : ProviderOffer) (os : List ProviderOffer)
    → find? (λ r. r.id == k && provider_eq r.provider_type p.type && r.provider_id == p.id) os
      ≡ some o
    → o'.id ≡ o.id
    → o'.provider_type ≡ o.provider_type
    → o'.provider_id ≡ o.provider_id
    → find?
        (λ r. r.id == k && provider_eq r.provider_type p.type && r.provider_id == p.id)
        (set_offers o' os)
      ≡ some o'
offer_to-set_offers k p o o' os h a b c =
    let passes =
      find?-holds (λ r. r.id == k && provider_eq r.provider_type p.type && r.provider_id == p.id) os
        h in
    find?-overwritten
      (λ r. r.id == k && provider_eq r.provider_type p.type && r.provider_id == p.id)
      (λ r. r.id == o'.id) o' os h (ground arith) (ground arith)

module _ (env : Env) (user : User) (offer_id : ℕ) (w : World) {p : Provider} {offer : ProviderOffer}
    {job : Job} (who : resolve_provider user w ≡ (ok p, w))
    (addressed : offer_to offer_id p w.db ≡ some offer)
    (stored : job_by_id offer.job_id w.db ≡ some job) where
  abbrev claimed : Claim
  claimed = record { offer = offer; provider = p }

  checked :
      is_pending offer.status ≡ true
      → is_expired env.now offer.expires_at ≡ false
      → check_offer env user offer_id w ≡ (ok claimed, w)
  unfolding check_offer
  checked pending fresh = ground arith

  not_pending :
      is_pending offer.status ≡ false → check_offer env user offer_id w ≡ (err (http 409), w)
  unfolding check_offer
  not_pending closed = ground arith

  expired :
      is_pending offer.status ≡ true
      → is_expired env.now offer.expires_at ≡ true
      → check_offer env user offer_id w ≡ (err (http 410), w)
  unfolding check_offer
  expired pending late = ground arith

  assigned_reply :
      searching_job offer.job_id w.db ≡ some job
      → (reply : OfferReply) × ((assign_job env claimed w).0 ≡ ok reply) × (reply.job_id ≡ job.id)
  unfolding assign_job
  assigned_reply locked = (
    record {
      id = offer.id;
      status = OfferStatus.accepted;
      job_id = (assign_provider p job).id;
      job_status = JobStatus.assigned;
    },
    ground arith,
    ground arith,
  )

  assigned_rows :
      searching_job offer.job_id w.db ≡ some job
      → let after = (assign_job env claimed w).1.db in
        (after.offers ≡ set_offers (record offer { status = OfferStatus.accepted }) w.db.offers)
        × (after.jobs ≡ set_jobs (assign_provider p job) w.db.jobs)
  unfolding assign_job
  assigned_rows locked = (ground arith, ground arith)

  goes_on :
      check_offer env user offer_id w ≡ (ok claimed, w)
      → assign_job env claimed w ≡ accept_offer env user offer_id w
  unfolding accept_offer
  goes_on e = ground arith

  stops :
      {e : Error}
      → check_offer env user offer_id w ≡ (err e, w)
      → (accept_offer env user offer_id w).0 ≡ err e
  unfolding accept_offer
  stops h = ground arith

  stops_unchanged :
      {e : Error}
      → check_offer env user offer_id w ≡ (err e, w)
      → (accept_offer env user offer_id w).1 ≡ w
  unfolding accept_offer
  stops_unchanged h = ground arith

  lost : searching_job offer.job_id w.db ≡ none → assign_job env claimed w ≡ (err (http 409), w)
  unfolding assign_job
  lost gone = ground arith

  -- The provider's id in the column of its type, and the other column as before.
  abbrev column_of : ProviderType → Option ℕ → Option ℕ
  column_of type before = if provider_eq p.type type then some p.id else before

  -- The job as assigned to the provider, with all else as it was.
  abbrev pub assigned_job : Job
  assigned_job = record job {
    status = JobStatus.assigned;
    assigned_type = some p.type;
    assigned_mechanic_id = column_of ProviderType.mechanic job.assigned_mechanic_id;
    assigned_garage_id = column_of ProviderType.garage job.assigned_garage_id;
  }

  as_assigned : assign_provider p job ≡ assigned_job
  as_assigned = ground arith

  -- The offer is accepted and the job is assigned; no other job changes.
  abbrev pub Accepted : Result OfferReply × World → Type 0
  Accepted (r, after) =
      ((reply : OfferReply) × (r ≡ ok reply) × (reply.job_id ≡ offer.job_id))
      × (offer_to offer_id p after.db ≡ some (record offer { status = OfferStatus.accepted }))
      × (job_by_id offer.job_id after.db ≡ some assigned_job)
      × ((k : ℕ) → k ≢ offer.job_id → job_by_id k after.db ≡ job_by_id k w.db)

  assigned_id : (assign_provider p job).id ≡ offer.job_id
  assigned_id =
      let same : (assign_provider p job).id ≡ job.id = ground arith in
      same ∙ job_by_id-id offer.job_id w.db.jobs stored

  other_id : (k : ℕ) → k ≢ offer.job_id → ((assign_provider p job).id == k) ≡ false
  other_id k ne = ground (arith, assigned_id)

  assign_job-Accepted : is_searching job.status ≡ true → Accepted (assign_job env claimed w)
  assign_job-Accepted searching =
      let locked = searching_job-stored offer.job_id w.db.jobs stored searching in
      let (reply, answered, same) = assigned_reply locked in
      let (offers, jobs) = assigned_rows locked in
      (
        (reply, answered, same ∙ job_by_id-id offer.job_id w.db.jobs stored),
        ap
              (λ os.
                find?
                  (λ r.
                    r.id == offer_id && provider_eq r.provider_type p.type && r.provider_id == p.id)
                  os)
              offers
            ∙ offer_to-set_offers offer_id p offer (record offer { status = OfferStatus.accepted })
                w.db.offers addressed refl refl refl,
        ap (find? (λ j. j.id == offer.job_id)) jobs
            ∙ job_by_id-set_jobs offer.job_id (assign_provider p job) w.db.jobs stored assigned_id
            ∙ ap some as_assigned,
        λ k ne.
            ap (find? (λ j. j.id == k)) jobs
            ∙ job_by_id-set_jobs_ne k (assign_provider p job) w.db.jobs (other_id k ne),
      )

  -- For a provider to whom the offer is addressed: a pending offer that has not expired, of a job that
  -- is searching, is accepted, and the job is stored as assigned to this provider, whose type
  -- and id are in its columns, with all else as it was; no other job changes. An offer that is not pending gives 409, one that has expired 410, and a job that is no
  -- longer searching 409, each with nothing written or sent.
  pub accept_offer_lem :
      let (r, after) = accept_offer env user offer_id w in
      (is_pending offer.status ≡ true
        → is_expired env.now offer.expires_at ≡ false
        → is_searching job.status ≡ true
        → Accepted (r, after))
      × (is_pending offer.status ≡ false → (r ≡ err (http 409)) × (after ≡ w))
      × (is_pending offer.status ≡ true
          → is_expired env.now offer.expires_at ≡ true
          → (r ≡ err (http 410)) × (after ≡ w))
      × (is_pending offer.status ≡ true
          → is_expired env.now offer.expires_at ≡ false
          → searching_job offer.job_id w.db ≡ none
          → (r ≡ err (http 409)) × (after ≡ w))
  accept_offer_lem = (
    λ pending fresh searching.
        subst Accepted (goes_on (checked pending fresh)) (assign_job-Accepted searching),
    λ closed. (stops (not_pending closed), stops_unchanged (not_pending closed)),
    λ pending late. (stops (expired pending late), stops_unchanged (expired pending late)),
    λ pending fresh gone.
        let e = sym (goes_on (checked pending fresh)) ∙ lost gone in
        (ap (λ r. r.0) e, ap (λ r. r.1) e),
  )
