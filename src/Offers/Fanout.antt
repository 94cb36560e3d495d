-- ===== src/Offers/Fanout.antt =====
-- What create_provider_offers adds to the table of offers.
use clutch_d_backend.Base.{
  ℕ, ◌+◌, ◌≡◌, refl, sym, ap, ◌∙◌, subst, Bool, true, false, none, some, List, [], ◌∷◌, ◌++◌, ◌==◌,
  arith, length, All, All-map, exists, ==_refl,
}
use clutch_d_backend.Schema.{Db, Job, ProviderOffer, ProviderType, OfferStatus}
use clutch_d_backend.Session.{Action, World, Message, Result, ok, ◌>>=◌}
use clutch_d_backend.Env.{Env}
use clutch_d_backend.Matching.Rank.{Ranked}
use clutch_d_backend.Matching.Nearest.{Server}
use clutch_d_backend.Offers.Create.{
  searching_job, new_offer, insert_offers, to_mechanics, to_garages, is_early, when_asked,
  mechanics_for, garages_for, make_offers, announce, dispatch, create_provider_offers,
}
use clutch_d_backend.Offers.Inserts.{IsUnique, Adds, both-Adds, insert_offers-Adds, when_asked-Adds}

abbrev pub has_id : List Ranked → ℕ → Bool
has_id rs k = exists (λ r. r.id == k) rs

All-has_id :
    (all rs : List Ranked)
    → ((k : ℕ) → has_id rs k ≡ true → has_id all k ≡ true)
    → All (λ (r : Ranked). has_id all r.id ≡ true) rs
All-has_id all [] inside = tt
All-has_id all (r ∷ rs) inside =
    (inside r.id (ground (arith, ==_refl r.id)), All-has_id all rs (λ k h. inside k (ground arith)))

module _ (env : Env) (server : Server) (job : Job) (db : Db) where
  -- An offer as it is made for the job: pending, for 15 minutes, and to a provider of a kind that the
  -- request asks for, which the search for the job has found.
  pub record IsFresh (o : ProviderOffer) : Type 0 where
    pub for_job : o.job_id ≡ job.id
    pub pending : o.status ≡ OfferStatus.pending
    pub expires : o.expires_at ≡ some (env.now + 900)
    pub to_mechanic :
        o.provider_type ≡ ProviderType.mechanic
        → (to_mechanics job.request_type ≡ true)
          × (has_id (mechanics_for env server job db) o.provider_id ≡ true)
    pub to_garage :
        o.provider_type ≡ ProviderType.garage
        → (to_garages job.request_type ≡ true)
          × (has_id (garages_for env server job db) o.provider_id ≡ true)

  mechanics-IsFresh :
      (k : ℕ)
      → to_mechanics job.request_type ≡ true
      → (rs : List Ranked)
      → All (λ (r : Ranked). has_id (mechanics_for env server job db) r.id ≡ true) rs
      → All
          (λ (r : Ranked). IsFresh (new_offer k job.id (env.now + 900) ProviderType.mechanic r.id))
          rs
  mechanics-IsFresh k asked rs =
      All-map
        (λ r found. record {
          for_job = refl;
          pending = refl;
          expires = refl;
          to_mechanic = λ _. (asked, found);
          to_garage = λ e. cc;
        })
        rs

  garages-IsFresh :
      (k : ℕ)
      → to_garages job.request_type ≡ true
      → (rs : List Ranked)
      → All (λ (r : Ranked). has_id (garages_for env server job db) r.id ≡ true) rs
      → All
          (λ (r : Ranked). IsFresh (new_offer k job.id (env.now + 900) ProviderType.garage r.id))
          rs
  garages-IsFresh k asked rs =
      All-map
        (λ r found. record {
          for_job = refl;
          pending = refl;
          expires = refl;
          to_mechanic = λ e. cc;
          to_garage = λ _. (asked, found);
        })
        rs

  make_offers-Adds :
      (w : World)
      → Adds IsFresh
          (make_offers env server job
            (mechanics_for env server job db)
            (garages_for env server job db))
          w
  unfolding make_offers
  make_offers-Adds w =
      let mechs = mechanics_for env server job db in
      let gars = garages_for env server job db in
      both-Adds IsFresh
        (when_asked (to_mechanics job.request_type)
          (insert_offers job.id (env.now + 900) ProviderType.mechanic mechs))
        (when_asked (to_garages job.request_type)
          (insert_offers job.id (env.now + 900) ProviderType.garage gars))
        w
        (when_asked-Adds IsFresh (to_mechanics job.request_type) _ w λ asked.
          insert_offers-Adds IsFresh job.id (env.now + 900) ProviderType.mechanic mechs w
            λ k. mechanics-IsFresh k asked mechs (All-has_id mechs mechs (λ k h. h)))
        (when_asked-Adds IsFresh (to_garages job.request_type) _ _ λ asked.
          insert_offers-Adds IsFresh job.id (env.now + 900) ProviderType.garage gars _
            λ k. garages-IsFresh k asked gars (All-has_id gars gars (λ k h. h)))

-- The push task is queued exactly when an offer was made, with the number of offers.
abbrev pub Announced : Job → List ProviderOffer → List Message → List Message → Type 0
Announced job [] before after = after ≡ before
Announced job (o ∷ os) before after = after ≡ Message.offer_push job.id (length (o ∷ os)) 2 ∷ before

announced :
    (env : Env) (server : Server) (job : Job) (m : Action ℕ) (w : World) (news : List ProviderOffer)
    → (m w).0 ≡ ok (length news)
    → (m w).1.sent ≡ w.sent
    → let (r, after) = (m >>= announce env server job) w in
      (r ≡ ok (length news)) × (after.db ≡ (m w).1.db) × Announced job news w.sent after.sent
announced env server job m w [] r s = (ground arith, ground arith, ground arith)
announced env server job m w (o ∷ os) r s = (ground arith, ground arith, ground arith)

module _ (env : Env) (server : Server) (job : Job) (w : World) where
  -- Fresh offers are added behind the stored ones, which with every other table stay as they are; the
  -- answer is their number, and they are announced.
  abbrev pub Dispatched : Result ℕ × World → Type 0
  Dispatched (r, after) =
      (news : List ProviderOffer) × (r ≡ ok (length news))
      × (after.db ≡ record (w.db) { offers = w.db.offers ++ news })
      × All (IsFresh env server job w.db) news
      × (IsUnique w.db.offers → IsUnique after.db.offers)
      × Announced job news w.sent after.sent

  dispatch-Dispatched : Dispatched (dispatch env server job w)
  unfolding dispatch
  dispatch-Dispatched =
      let m =
        make_offers env server job (mechanics_for env server job w.db)
          (garages_for env server job w.db) in
      let (news, r, d, s, fresh, unique) = make_offers-Adds env server job w.db w in
      let (r', d', s') = announced env server job m w news r s in
      (
        news,
        r',
        d' ∙ d,
        fresh,
        λ u. subst IsUnique (sym (ap (λ (db : Db). db.offers) (d' ∙ d))) (unique u),
        s',
      )

dispatched_eq :
    (env : Env) (server : Server) (k : ℕ) (w : World) (job : Job)
    → searching_job k w.db ≡ some job
    → is_early env.now job.scheduled_at ≡ false
    → dispatch env server job w ≡ create_provider_offers env server k w
unfolding create_provider_offers
dispatched_eq env server k w job found due = ground arith

module _ (env : Env) (server : Server) (k : ℕ) (w : World) where
  -- A job that is not stored as searching, or whose slot is in the future, gets no offers, and nothing
  -- changes. Any other gets offers that are all fresh; they are added behind the stored ones, which
  -- with every other table stay as they are, the answer is their number, the push task is queued if
  -- and only if there are any, and no provider has two offers of one job if none had before.
  pub create_provider_offers_lem :
      let (r, after) = create_provider_offers env server k w in
      (searching_job k w.db ≡ none → (r ≡ ok 0) × (after ≡ w))
      × ((job : Job)
          → searching_job k w.db ≡ some job
          → is_early env.now job.scheduled_at ≡ true
          → (r ≡ ok 0) × (after ≡ w))
      × ((job : Job)
          → searching_job k w.db ≡ some job
          → is_early env.now job.scheduled_at ≡ false
          → Dispatched env server job w (r, after))
  unfolding create_provider_offers
  create_provider_offers_lem = (
    λ absent. (ground arith, ground arith),
    λ job found early. (ground arith, ground arith),
    λ job found due.
        subst (Dispatched env server job w) (dispatched_eq env server k w job found due)
          (dispatch-Dispatched env server job w),
  )
