-- ===== src/Offers/Create.antt =====
-- create_provider_offers of offer_service.py and the Celery task of worker.py that calls it again.
use clutch_d_backend.Base.{
  ℕ, ◌+◌, String, Bool, true, false, not, ◌&&◌, Option, none, some, List, [], ◌∷◌, ◌++◌, ◌==◌,
  if◌then◌else◌, ltb, select, find?, exists,
}
use clutch_d_backend.Schema.{
  Db, Job, JobStatus, ProviderOffer, ProviderType, OfferStatus, RequestType, provider_eq,
}
use clutch_d_backend.Session.{Action, Message, pure, query, write, send, new_id, ◌>>=◌, ◌>>◌}
use clutch_d_backend.Env.{Env}
use clutch_d_backend.Tables.{job_by_id}
use clutch_d_backend.Matching.Expertise.{issue_tag_to_expertise}
use clutch_d_backend.Matching.Rank.{Ranked}
use clutch_d_backend.Matching.Nearest.{Server, nearest_mechanics, nearest_garages}

abbrev pub is_searching : JobStatus → Bool
is_searching JobStatus.searching = true
is_searching _ = false

-- `select(Job).where(Job.id == …, Job.status == "searching").with_for_update()`
abbrev pub searching_job : ℕ → Db → Option Job
searching_job k db = find? (λ j. j.id == k && is_searching j.status) db.jobs

-- The columns of the constraint uq_provider_offer.
abbrev pub is_offer_for : ℕ → ProviderType → ℕ → ProviderOffer → Bool
is_offer_for job_id provider_type provider_id o =
    o.job_id == job_id && provider_eq o.provider_type provider_type && o.provider_id == provider_id

-- DO NOTHING at a row that is there; else one row more.
abbrev pub insert_row : Bool → ProviderOffer → Action ℕ
insert_row true o = pure 0
insert_row false o = write (λ db. record db { offers = db.offers ++ o ∷ [] }) >> pure 1

abbrev pub new_offer : ℕ → ℕ → ℕ → ProviderType → ℕ → ProviderOffer
new_offer k job_id expires_at provider_type provider_id = record {
  id = k;
  job_id = job_id;
  provider_type = provider_type;
  provider_id = provider_id;
  status = OfferStatus.pending;
  expires_at = some expires_at;
}

-- INSERT … ON CONFLICT DO NOTHING, with the number of rows that it inserts.
unfoldable pub insert_offer : ℕ → ℕ → ProviderType → ℕ → Action ℕ
insert_offer job_id expires_at provider_type provider_id = do
  k ← new_id
  taken ← query (λ db. exists (is_offer_for job_id provider_type provider_id) db.offers)
  insert_row taken (new_offer k job_id expires_at provider_type provider_id)

-- The loops `for m in mechs` and `for g in gars`, with the sum of the row counts.
unfoldable pub insert_offers : ℕ → ℕ → ProviderType → List Ranked → Action ℕ
insert_offers job_id expires_at provider_type [] = pure 0
insert_offers job_id expires_at provider_type (r ∷ rs) = do
  n ← insert_offer job_id expires_at provider_type r.id
  total ← insert_offers job_id expires_at provider_type rs
  pure (n + total)

-- `mechs + [m for m in extra_mechs if m.id not in seen_m]`
abbrev pub with_extra : List Ranked → List Ranked → List Ranked
with_extra found extra = found ++ select (λ r. not (exists (λ s. s.id == r.id) found)) extra

abbrev pub to_mechanics : RequestType → Bool
to_mechanics RequestType.mechanic = true
to_mechanics RequestType.auto = true
to_mechanics RequestType.garage = false

abbrev pub to_garages : RequestType → Bool
to_garages RequestType.garage = true
to_garages RequestType.auto = true
to_garages RequestType.mechanic = false

-- `scheduled_at > now`
abbrev pub is_early : ℕ → Option ℕ → Bool
is_early now none = false
is_early now (some t) = ltb now t

abbrev pub when_asked : Bool → Action ℕ → Action ℕ
when_asked b m = if b then m else pure 0

module _ (env : Env) (server : Server) where
  -- The providers that a job is offered to: those with the expertise first, then, if the tag has an
  -- expertise, the nearest others.
  unfoldable pub mechanics_for : Job → Db → List Ranked
  mechanics_for job db =
      let near = λ (limit : ℕ) (tag : Option String).
        nearest_mechanics env server db job.customer_lat job.customer_lon limit tag in
      elim (issue_tag_to_expertise (some job.issue_tag)) [
        | none ↦ near 10 none
        | some tag ↦ with_extra (near 10 (some tag)) (near 5 none)
      ]

  unfoldable pub garages_for : Job → Db → List Ranked
  garages_for job db =
      let near = λ (limit : ℕ) (tag : Option String).
        nearest_garages env server db job.customer_lat job.customer_lon limit tag in
      elim (issue_tag_to_expertise (some job.issue_tag)) [
        | none ↦ near 10 none
        | some tag ↦ with_extra (near 10 (some tag)) (near 5 none)
      ]

  -- `total` after both loops; the offers expire in 15 minutes.
  unfoldable pub make_offers : Job → List Ranked → List Ranked → Action ℕ
  make_offers job mechs gars = do
    m ←
        when_asked (to_mechanics job.request_type)
          (insert_offers job.id (env.now + 900) ProviderType.mechanic mechs)
    g ←
        when_asked (to_garages job.request_type)
          (insert_offers job.id (env.now + 900) ProviderType.garage gars)
    pure (m + g)

  abbrev pub announce : Job → ℕ → Action ℕ
  announce job total = do
    if ltb 0 total then send (Message.offer_push job.id total 2) else pure tt
    pure total

  -- From the locked job on.
  unfoldable pub dispatch : Job → Action ℕ
  unfolding make_offers
  dispatch job = do
    mechs ← query (mechanics_for job)
    gars ← query (garages_for job)
    total ← make_offers job mechs gars
    announce job total

  abbrev pub dispatch_locked : Option Job → Action ℕ
  dispatch_locked none = pure 0
  dispatch_locked (some job) = if is_early env.now job.scheduled_at then pure 0 else dispatch job

  unfoldable pub create_provider_offers : ℕ → Action ℕ
  create_provider_offers job_id = query (searching_job job_id) >>= dispatch_locked

  abbrev retry_found : Option Job → Action (Unit {0})
  retry_found none = pure tt
  retry_found (some job) =
      if is_searching job.status then create_provider_offers job.id >>= (λ _. pure tt) else pure tt

  -- The body of the task jobs.retry_assignment.
  unfoldable pub retry_job_assignment : ℕ → Action (Unit {0})
  retry_job_assignment job_id = query (job_by_id job_id) >>= retry_found
