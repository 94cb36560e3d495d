-- ===== src/Offers/Declining.antt =====
-- decline_offer of offer_service.py, branch by branch, and the requests that come after it.
use clutch_d_backend.Base.{ℕ, ◌≡◌, refl, sym, ap, ◌∙◌, true, false, some, ◌==◌, arith, find?}
use clutch_d_backend.Schema.{JobStatus, User, Role, ProviderOffer, OfferStatus, is_pending}
use clutch_d_backend.Session.{World, ok, err, http}
use clutch_d_backend.Env.{Env}
use clutch_d_backend.Tables.{mechanic_by_user, garage_by_user}
use clutch_d_backend.Offers.Answer.{
  Provider, OfferReply, resolve_as, resolve_provider, offer_to, check_offer, accept_offer,
  decline_offer,
}
use clutch_d_backend.Offers.Accepting.{set_offers, offer_to-set_offers}

resolve_as-same :
    (role : Role) (user : User) (v w : World) {p : Provider}
    → v.db.mechanics ≡ w.db.mechanics
    → v.db.garages ≡ w.db.garages
    → resolve_as role user v ≡ (ok p, v)
    → resolve_as role user w ≡ (ok p, w)
resolve_as-same Role.mechanic user v w ms gs h =
    let e : mechanic_by_user user.id w.db ≡ mechanic_by_user user.id v.db =
      ap (find? (λ m. m.user_id == user.id)) (sym ms) in
    ground (arith, e)
resolve_as-same Role.garage user v w ms gs h =
    let e : garage_by_user user.id w.db ≡ garage_by_user user.id v.db =
      ap (find? (λ g. g.user_id == user.id)) (sym gs) in
    ground (arith, e)
resolve_as-same Role.customer user v w ms gs h = cc
resolve_as-same Role.seller user v w ms gs h = cc
resolve_as-same Role.admin user v w ms gs h = cc
resolve_as-same Role.other user v w ms gs h = cc

module _ (user : User) (offer_id : ℕ) (w : World) {p : Provider} {offer : ProviderOffer}
    (who : resolve_provider user w ≡ (ok p, w))
    (addressed : offer_to offer_id p w.db ≡ some offer) where
  abbrev declined : ProviderOffer
  declined = record offer { status = OfferStatus.declined }

  abbrev pub after : World
  after = (decline_offer user offer_id w).1

  closed_offer :
      is_pending offer.status ≡ false → decline_offer user offer_id w ≡ (err (http 409), w)
  unfolding decline_offer
  closed_offer h = ground arith

  declines :
      is_pending offer.status ≡ true
      → after ≡ record w { db = record (w.db) { offers = set_offers declined w.db.offers } }
  unfolding decline_offer
  declines h = ground arith

  answers :
      is_pending offer.status ≡ true
      → (reply : OfferReply) × ((decline_offer user offer_id w).0 ≡ ok reply)
        × (reply.status ≡ OfferStatus.declined)
        × (reply.job_id ≡ offer.job_id)
  unfolding decline_offer
  answers h = (
    record {
      id = offer.id;
      status = OfferStatus.declined;
      job_id = offer.job_id;
      job_status = JobStatus.searching;
    },
    ground arith,
    refl,
    refl,
  )

  now_declined : is_pending offer.status ≡ true → offer_to offer_id p after.db ≡ some declined
  now_declined h =
      ap (λ (v : World). offer_to offer_id p v.db) (declines h)
      ∙ offer_to-set_offers offer_id p offer declined w.db.offers addressed refl refl refl

  known_after : is_pending offer.status ≡ true → resolve_provider user after ≡ (ok p, after)
  unfolding resolve_provider
  known_after h =
      resolve_as-same user.role user w after (ap (λ (v : World). v.db.mechanics) (sym (declines h)))
        (ap (λ (v : World). v.db.garages) (sym (declines h))) who

  refuses :
      (env : Env)
      → is_pending offer.status ≡ false
      → accept_offer env user offer_id w ≡ (err (http 409), w)
  unfolding accept_offer check_offer
  refuses env h = ground arith

module _ (env : Env) (user : User) (offer_id : ℕ) (w : World) {p : Provider} {offer : ProviderOffer}
    (who : resolve_provider user w ≡ (ok p, w))
    (addressed : offer_to offer_id p w.db ≡ some offer) where
  -- For a provider to whom the offer is addressed: a pending offer is declined, no row but
  -- those with the offer's key is written and nothing is sent; from then on this provider's accepting and declining of it both
  -- give 409 and change nothing. An offer that is not pending gives 409, and nothing changes.
  pub decline_offer_lem :
      let (r, after) = decline_offer user offer_id w in
      (is_pending offer.status ≡ true
        → ((reply : OfferReply) × (r ≡ ok reply)
            × (reply.status ≡ OfferStatus.declined)
            × (reply.job_id ≡ offer.job_id))
          × (offer_to offer_id p after.db ≡ some (record offer { status = OfferStatus.declined }))
          × (after ≡ record w {
            db = record (w.db) {
              offers = set_offers (record offer { status = OfferStatus.declined }) w.db.offers;
            };
          })
          × (accept_offer env user offer_id after ≡ (err (http 409), after))
          × (decline_offer user offer_id after ≡ (err (http 409), after)))
      × (is_pending offer.status ≡ false → (r ≡ err (http 409)) × (after ≡ w))
  decline_offer_lem = (
    λ pending.
        let row = now_declined user offer_id w who addressed pending in
        let known = known_after user offer_id w who addressed pending in
        let next : World = (decline_offer user offer_id w).1 in
        (
          answers user offer_id w who addressed pending,
          row,
          declines user offer_id w who addressed pending,
          refuses user offer_id next known row env refl,
          closed_offer user offer_id next known row refl,
        ),
    λ closed.
        let e = closed_offer user offer_id w who addressed closed in
        (ap (λ r. r.0) e, ap (λ r. r.1) e),
  )
