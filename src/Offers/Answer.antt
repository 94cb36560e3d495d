-- ===== src/Offers/Answer.antt =====
-- accept_offer and decline_offer of offer_service.py, behind the role check of
-- backend/app/api/v1/offers.py.
use clutch_d_backend.Base.{ℕ, Bool, false, not, ◌&&◌, Option, none, some, ◌==◌, ltb, find?}
use clutch_d_backend.Schema.{
  Db, User, Role, Job, JobStatus, ProviderOffer, ProviderType, OfferStatus, is_pending, provider_eq,
}
use clutch_d_backend.Session.{
  Action, Message, Summary, http, pure, raise, raise_if, query, or_raise, send, ◌>>=◌, ◌>>◌,
}
use clutch_d_backend.Env.{Env}
use clutch_d_backend.Tables.{
  mechanic_by_id, garage_by_id, mechanic_by_user, garage_by_user, save_job, save_offer,
}
use clutch_d_backend.Jobs.Response.{mechanic_summary, garage_summary}
use clutch_d_backend.Offers.Create.{searching_job}

pub record Provider : Type 0 where
  pub type : ProviderType
  pub id : ℕ

-- The answer of both routes.
pub record OfferReply : Type 0 where
  pub id : ℕ
  pub status : OfferStatus
  pub job_id : ℕ
  pub job_status : JobStatus

-- _resolve_provider
abbrev pub resolve_as : Role → User → Action Provider
resolve_as Role.mechanic user = query (mechanic_by_user user.id) >>= λ found.
    or_raise found (http 403) >>= λ m. pure (record { type = ProviderType.mechanic; id = m.id })
resolve_as Role.garage user = query (garage_by_user user.id) >>= λ found.
    or_raise found (http 403) >>= λ g. pure (record { type = ProviderType.garage; id = g.id })
resolve_as _ user = raise (http 403)

unfoldable pub resolve_provider : User → Action Provider
resolve_provider user = resolve_as user.role user

-- The offer under the id, if it is addressed to the provider.
abbrev pub offer_to : ℕ → Provider → Db → Option ProviderOffer
offer_to offer_id p db =
    find? (λ o. o.id == offer_id && provider_eq o.provider_type p.type && o.provider_id == p.id)
      db.offers

-- `expires_at < now`
abbrev pub is_expired : ℕ → Option ℕ → Bool
is_expired now none = false
is_expired now (some t) = ltb t now

-- What the checks before the lock have found.
pub record Claim : Type 0 where
  pub offer : ProviderOffer
  pub provider : Provider

abbrev pub assign_provider : Provider → Job → Job
assign_provider p job = elim p.type [
  | ProviderType.mechanic ↦ record job {
    status = JobStatus.assigned;
    assigned_type = some ProviderType.mechanic;
    assigned_mechanic_id = some p.id;
  }
  | ProviderType.garage ↦ record job {
    status = JobStatus.assigned;
    assigned_type = some ProviderType.garage;
    assigned_garage_id = some p.id;
  }
]

module _ (env : Env) where
  -- accept_offer up to the lock: who asks, and whether the offer can be accepted.
  unfoldable pub check_offer : User → ℕ → Action Claim
  check_offer user offer_id = do
    provider ← resolve_provider user
    found ← query (offer_to offer_id provider)
    offer ← or_raise found (http 404)
    raise_if (not (is_pending offer.status)) (http 409)
    raise_if (is_expired env.now offer.expires_at) (http 410)
    pure (record { offer = offer; provider = provider })

  abbrev provider_info : Provider → Job → Db → Option Summary
  provider_info p job db = elim p.type [
    | ProviderType.mechanic ↦ mechanic_summary env job (mechanic_by_id p.id db)
    | ProviderType.garage ↦ garage_summary env job (garage_by_id p.id db)
  ]

  -- accept_offer from the lock on the job's row. Another transaction may have ended in between.
  unfoldable pub assign_job : Claim → Action OfferReply
  assign_job c = do
    locked ← query (searching_job c.offer.job_id)
    job ← or_raise locked (http 409)
    let offer = c.offer
    save_offer (record offer { status = OfferStatus.accepted })
    let job' = assign_provider c.provider job
    save_job job'
    info ← query (provider_info c.provider job')
    send (Message.status_update job'.user_id job'.id JobStatus.assigned info none)
    pure (record {
      id = c.offer.id;
      status = OfferStatus.accepted;
      job_id = job'.id;
      job_status = JobStatus.assigned;
    })

  unfoldable pub accept_offer : User → ℕ → Action OfferReply
  accept_offer user offer_id = check_offer user offer_id >>= assign_job

unfoldable pub decline_offer : User → ℕ → Action OfferReply
decline_offer user offer_id = do
  provider ← resolve_provider user
  found ← query (offer_to offer_id provider)
  offer ← or_raise found (http 404)
  raise_if (not (is_pending offer.status)) (http 409)
  save_offer (record offer { status = OfferStatus.declined })
  pure (record {
    id = offer.id;
    status = OfferStatus.declined;
    job_id = offer.job_id;
    job_status = JobStatus.searching;
  })
