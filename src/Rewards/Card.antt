-- ===== src/Rewards/Card.antt =====
-- backend/app/api/v1/card.py.
use clutch_d_backend.Base.{
  ℕ, String, Bool, ◌&&◌, Option, none, some, List, [], ◌∷◌, ◌++◌, ◌==◌, if◌then◌else◌, leb, find?,
  select, update, map,
}
use clutch_d_backend.Schema.{Db, User, ClutchdCard, ClutchdOffer, Tier}
use clutch_d_backend.Session.{Action, query, write, new_id, pure, ◌>>=◌, ◌>>◌}
use clutch_d_backend.Rewards.Codes.{free_code}

-- _resolve_tier, by the rows of TIER_THRESHOLDS
unfoldable pub resolve_tier : ℕ → Tier
resolve_tier points =
    if leb 100000 points
    then Tier.platinum
    else if leb 50000 points
    then Tier.gold
    else if leb 10000 points
    then Tier.silver
    else Tier.bronze

-- _resolve_discount
unfoldable pub resolve_discount : Tier → ℕ
resolve_discount Tier.platinum = 50
resolve_discount Tier.gold = 30
resolve_discount Tier.silver = 15
resolve_discount Tier.bronze = 5

-- tier_order
abbrev pub tier_order : Tier → ℕ
tier_order Tier.bronze = 0
tier_order Tier.silver = 1
tier_order Tier.gold = 2
tier_order Tier.platinum = 3

abbrev pub card_numbers : Db → List String
card_numbers db = map (λ (c : ClutchdCard). c.card_number) db.cards

-- clutchd_cards.user_id is unique.
abbrev pub card_of_user : ℕ → Db → Option ClutchdCard
card_of_user user db = find? (λ c. c.user_id == user) db.cards

abbrev pub new_card : ℕ → ℕ → String → ClutchdCard
new_card k user number = record {
  id = k;
  user_id = user;
  card_number = number;
  membership_tier = Tier.bronze;
  lifetime_points = 0;
}

abbrev add_card : User → Option String → Action (Option ClutchdCard)
add_card user none = pure none
add_card user (some number) = do
  k ← new_id
  write (λ db. record db { cards = db.cards ++ new_card k user.id number ∷ [] })
  pure (some (new_card k user.id number))

abbrev get_or_add :
    (fuel : ℕ) → (ℕ → String) → User → Option ClutchdCard → Action (Option ClutchdCard)
get_or_add fuel draws user none = do
  numbers ← query card_numbers
  add_card user (free_code draws numbers fuel 0)
get_or_add fuel draws user (some card) = pure (some card)

-- The card with its tier recalculated.
abbrev save_tier : Option ClutchdCard → Action (Option ClutchdCard)
save_tier none = pure none
save_tier (some card) = do
  let card' = record card { membership_tier = resolve_tier card.lifetime_points }
  write (λ db. record db { cards = update (λ r. r.id == card.id) (λ _. card') db.cards })
  pure (some card')

-- _get_or_create_card and the recalculation. `draws` are the numbers that are drawn; none is the loop that
-- has not ended yet.
unfoldable pub card_get : (fuel : ℕ) → (ℕ → String) → User → Action (Option ClutchdCard)
unfolding free_code resolve_tier
card_get fuel draws user = query (card_of_user user.id) >>= get_or_add fuel draws user >>= save_tier

abbrev is_eligible : Tier → ClutchdOffer → Bool
is_eligible tier offer = offer.is_active && leb (tier_order offer.min_tier) (tier_order tier)

abbrev offers_for : Option ClutchdCard → Action (Option (List ClutchdOffer))
offers_for none = pure none
offers_for (some card) =
    query (λ db. some (select (is_eligible card.membership_tier) db.card_offers))

-- The order of the list, by creation, is left out.
unfoldable pub card_offers : (fuel : ℕ) → (ℕ → String) → User → Action (Option (List ClutchdOffer))
unfolding card_get
card_offers fuel draws user = card_get fuel draws user >>= offers_for
