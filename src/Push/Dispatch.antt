-- ===== src/Push/Dispatch.antt =====
-- dispatch_offer_push of backend/app/tasks/worker.py.
use clutch_d_backend.Base.{
  ℕ, ◌&&◌, Option, none, some, List, [], ◌∷◌, ◌++◌, ◌==◌, if◌then◌else◌, exists, select, map,
}
use clutch_d_backend.Schema.{Db, Float, Job, ProviderOffer, ProviderType, NoticeBody, is_pending}
use clutch_d_backend.Session.{Action, query, pure, ◌>>=◌, ◌>>◌}
use clutch_d_backend.Env.{Env}
use clutch_d_backend.Geo.{haversine_m}
use clutch_d_backend.Tables.{job_by_id, mechanic_by_id, garage_by_id, add_notification}
use clutch_d_backend.Push.Batch.{Firebase, Pair, send_new_offer_batch}

-- The provider behind an offer: its user and its place.
pub record Behind : Type 0 where
  pub user : ℕ
  pub lat : Float
  pub lon : Float

abbrev provider_of : ProviderOffer → Db → Option Behind
provider_of o db = elim o.provider_type [
  | ProviderType.mechanic ↦ elim (mechanic_by_id o.provider_id db) [
    | none ↦ none
    | some m ↦ some (record { user = m.user_id; lat = m.lat; lon = m.lon })
  ]
  | ProviderType.garage ↦ elim (garage_by_id o.provider_id db) [
    | none ↦ none
    | some g ↦ some (record { user = g.user_id; lat = g.lat; lon = g.lon })
  ]
]

-- `set.add`
abbrev add_user : ℕ → List ℕ → List ℕ
add_user user users = if exists (λ u. u == user) users then users else users ++ user ∷ []

module _ (env : Env) (firebase : Firebase) where
  abbrev pairs_of : Job → ProviderOffer → Behind → Db → List Pair
  pairs_of job o behind db =
      map
        (λ t. record {
          token = t.id;
          offer = o.id;
          distance_m = haversine_m env.ops job.customer_lat job.customer_lon behind.lat behind.lon;
        })
        (select (λ t. t.user_id == behind.user && t.is_active) db.device_tokens)

  abbrev pairs_if : Job → ProviderOffer → Option Behind → Db → List Pair
  pairs_if job o none db = []
  pairs_if job o (some behind) db = pairs_of job o behind db

  abbrev pub all_pairs : Job → List ProviderOffer → Db → List Pair
  all_pairs job [] db = []
  all_pairs job (o ∷ offers) db = pairs_if job o (provider_of o db) db ++ all_pairs job offers db

  abbrev add_if : Option Behind → List ℕ → List ℕ
  add_if none users = users
  add_if (some behind) users = add_user behind.user users

  -- provider_user_ids, in the order in which they are added
  abbrev pub provider_users : List ProviderOffer → Db → List ℕ → List ℕ
  provider_users [] db users = users
  provider_users (o ∷ offers) db users = provider_users offers db (add_if (provider_of o db) users)

  abbrev notify_all : Job → List ℕ → Action (Unit {0})
  notify_all job [] = pure tt
  notify_all job (user ∷ users) = do
    add_notification user "New Service Request" (NoticeBody.request job.issue_tag) (some job.id)
    notify_all job users

  abbrev push_all : Job → List Pair → Action (Unit {0})
  push_all job [] = pure tt
  push_all job (p ∷ pairs) = send_new_offer_batch firebase job.id (p ∷ pairs) >>= λ _. pure tt

  abbrev push_offers : Job → List ProviderOffer → Action (Unit {0})
  push_offers job [] = pure tt
  push_offers job (o ∷ offers) = do
    pairs ← query (all_pairs job (o ∷ offers))
    users ← query (λ db. provider_users (o ∷ offers) db [])
    push_all job pairs
    notify_all job users

  abbrev push_for : Option Job → Action (Unit {0})
  push_for none = pure tt
  push_for (some job) =
      query (λ db. select (λ o. o.job_id == job.id && is_pending o.status) db.offers)
      >>= push_offers job

  unfoldable pub dispatch_offer_push : (job : ℕ) → Action (Unit {0})
  unfolding send_new_offer_batch
  dispatch_offer_push job_id = query (job_by_id job_id) >>= push_for
