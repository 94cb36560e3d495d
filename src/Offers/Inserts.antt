-- ===== src/Offers/Inserts.antt =====
-- What an INSERT … ON CONFLICT DO NOTHING, and a loop of them, add to the table of offers.
use clutch_d_backend.Base.{
  ℕ, ◌+◌, ◌≡◌, refl, sym, ap, ◌∙◌, subst, inl, inr, Bool, true, false, List, [], ◌∷◌, ◌++◌, arith,
  Bool-cases, length, length-append, All, All-append, exists,
}
use mathlib.Core.List.{append-nil, append_assoc}
use clutch_d_backend.Schema.{Db, ProviderOffer, ProviderType}
use clutch_d_backend.Session.{Action, World, ok, pure, ◌>>=◌}
use clutch_d_backend.Matching.Rank.{Ranked}
use clutch_d_backend.Offers.Create.{
  is_offer_for, new_offer, insert_offer, insert_offers, when_asked,
}

-- The constraint uq_provider_offer: no two offers of one job to one provider.
abbrev pub IsUnique : List ProviderOffer → Type 0
IsUnique [] = Unit
IsUnique (o ∷ os) =
    (exists (is_offer_for o.job_id o.provider_type o.provider_id) os ≡ false) × IsUnique os

exists-append :
    (p : ProviderOffer → Bool) (xs : List ProviderOffer) (o : ProviderOffer)
    → exists p xs ≡ false
    → p o ≡ false
    → exists p (xs ++ o ∷ []) ≡ false
exists-append p [] o h e = ground arith
exists-append p (x ∷ xs) o h e = ground (arith, exists-append p xs o)

is_offer_for_symm :
    (a b : ProviderOffer)
    → is_offer_for a.job_id a.provider_type a.provider_id b
      ≡ is_offer_for b.job_id b.provider_type b.provider_id a
is_offer_for_symm a b = ground arith

append-IsUnique :
    (os : List ProviderOffer) (o : ProviderOffer)
    → IsUnique os
    → exists (is_offer_for o.job_id o.provider_type o.provider_id) os ≡ false
    → IsUnique (os ++ o ∷ [])
append-IsUnique [] o u h = (refl, tt)
append-IsUnique (x ∷ os) o u h =
    let absent = exists-append (is_offer_for x.job_id x.provider_type x.provider_id) os o u.0 in
    (absent (is_offer_for_symm x o ∙ ground arith), append-IsUnique os o u.1 (ground arith))

-- The action adds rows to the table of offers, answers with their number, and does nothing else;
-- it keeps the constraint.
abbrev pub Adds : (ProviderOffer → Type 0) → Action ℕ → World → Type 0
Adds P m w =
    (news : List ProviderOffer) × ((m w).0 ≡ ok (length news))
    × ((m w).1.db ≡ record (w.db) { offers = w.db.offers ++ news })
    × ((m w).1.sent ≡ w.sent)
    × All P news
    × (IsUnique w.db.offers → IsUnique (w.db.offers ++ news))

pub nothing-Adds : (P : ProviderOffer → Type 0) (w : World) → Adds P (pure 0) w
nothing-Adds P w = (
  [],
  refl,
  ap (λ os. record (w.db) { offers = os }) (sym (append-nil w.db.offers)),
  refl,
  tt,
  λ u. subst IsUnique (sym (append-nil w.db.offers)) u,
)

pub both-Adds :
    (P : ProviderOffer → Type 0) (m k : Action ℕ) (w : World)
    → Adds P m w
    → Adds P k (m w).1
    → Adds P (m >>= λ a. k >>= λ b. pure (a + b)) w
both-Adds P m k w (xs, rx, dx, sx, px, ux) (ys, ry, dy, sy, py, uy) = (
  xs ++ ys,
  ground (arith, length-append xs ys),
  ground (arith, append_assoc w.db.offers xs ys),
  ground arith,
  All-append P xs ys px py,
  λ u.
      subst IsUnique (ap (λ (db : Db). db.offers ++ ys) dx ∙ append_assoc w.db.offers xs ys)
        (uy (subst IsUnique (sym (ap (λ (db : Db). db.offers) dx)) (ux u))),
)

pub insert_offer-Adds :
    (P : ProviderOffer → Type 0) (job_id expires_at : ℕ) (type : ProviderType) (provider_id : ℕ)
    (w : World)
    → P (new_offer w.next_id job_id expires_at type provider_id)
    → Adds P (insert_offer job_id expires_at type provider_id) w
unfolding insert_offer
insert_offer-Adds P job_id expires_at type provider_id w p =
    elim (Bool-cases (exists (is_offer_for job_id type provider_id) w.db.offers)) [
      | inl taken ↦ (
        [],
        ground arith,
        ground (arith, append-nil w.db.offers),
        ground arith,
        tt,
        λ u. subst IsUnique (sym (append-nil w.db.offers)) u,
      )
      | inr free ↦ (
        new_offer w.next_id job_id expires_at type provider_id ∷ [],
        ground arith,
        ground arith,
        ground arith,
        (p, tt),
        λ u. append-IsUnique w.db.offers _ u free,
      )
    ]

pub insert_offers-Adds :
    (P : ProviderOffer → Type 0) (job_id expires_at : ℕ) (type : ProviderType) (rs : List Ranked)
    (w : World)
    → ((k : ℕ) → All (λ (r : Ranked). P (new_offer k job_id expires_at type r.id)) rs)
    → Adds P (insert_offers job_id expires_at type rs) w
unfolding insert_offers
insert_offers-Adds P job_id expires_at type [] w p = nothing-Adds P w
insert_offers-Adds P job_id expires_at type (r ∷ rs) w p =
    both-Adds P (insert_offer job_id expires_at type r.id) (insert_offers job_id expires_at type rs)
      w (insert_offer-Adds P job_id expires_at type r.id w (p w.next_id).0)
      (insert_offers-Adds P job_id expires_at type rs _ (λ k. (p k).1))

pub when_asked-Adds :
    (P : ProviderOffer → Type 0) (b : Bool) (m : Action ℕ) (w : World)
    → (b ≡ true → Adds P m w)
    → Adds P (when_asked b m) w
when_asked-Adds P true m w h = h refl
when_asked-Adds P false m w h = nothing-Adds P w
