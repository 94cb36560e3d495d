-- ===== src/Rewards/Referral.antt =====
-- backend/app/api/v1/referral.py.
use clutch_d_backend.Base.{
  ℕ, String, Option, none, some, List, [], ◌∷◌, ◌++◌, ◌==◌, str_eq, is_some, find?, select, map,
}
use clutch_d_backend.Schema.{Db, User, ReferralCode, ReferralReward, RewardStatus}
use clutch_d_backend.Session.{
  Action, http, raise_if, one_or_none, or_raise, query, write, new_id, pure, ◌>>=◌, ◌>>◌,
}
use clutch_d_backend.Rewards.Codes.{free_code}

abbrev pub codes_of : Db → List String
codes_of db = map (λ (r : ReferralCode). r.code) db.referral_codes

-- referral_codes.user_id is unique.
abbrev pub code_of_user : ℕ → Db → Option ReferralCode
code_of_user user db = find? (λ r. r.user_id == user) db.referral_codes

abbrev pub new_code : ℕ → ℕ → String → ReferralCode
new_code k user code = record {
  id = k;
  user_id = user;
  code = code;
  reward_balance = 0;
  total_referrals = 0;
}

abbrev add_code : User → Option String → Action (Option ReferralCode)
add_code user none = pure none
add_code user (some code) = do
  k ← new_id
  write (λ db. record db { referral_codes = db.referral_codes ++ new_code k user.id code ∷ [] })
  pure (some (new_code k user.id code))

abbrev get_or_add :
    (fuel : ℕ) → (ℕ → String) → User → Option ReferralCode → Action (Option ReferralCode)
get_or_add fuel draws user none = do
  codes ← query codes_of
  add_code user (free_code draws codes fuel 0)
get_or_add fuel draws user (some row) = pure (some row)

-- `draws` are what secrets.token_hex draws, in upper case. None is the loop that has not ended yet.
unfoldable pub referral_get_my_code :
    (fuel : ℕ) → (ℕ → String) → User → Action (Option ReferralCode)
unfolding free_code
referral_get_my_code fuel draws user = query (code_of_user user.id) >>= get_or_add fuel draws user

-- `normalize` is `strip` and `upper`.
unfoldable pub referral_apply :
    (normalize : String → String) → String → User → Action ReferralReward
referral_apply normalize code user = do
  found ← query (λ db. find? (λ r. str_eq r.code (normalize code)) db.referral_codes)
  referrer ← or_raise found (http 404)
  raise_if (referrer.user_id == user.id) (http 400)
  rewards ← query (λ db. select (λ r. r.referred_user_id == user.id) db.referral_rewards)
  earlier ← one_or_none rewards
  raise_if (is_some earlier) (http 409)
  k ← new_id
  let reward : ReferralReward = record {
    id = k;
    referrer_user_id = referrer.user_id;
    referred_user_id = user.id;
    referred_email = user.email;
    amount = 50;
    status = RewardStatus.pending;
  }
  write (λ db. record db { referral_rewards = db.referral_rewards ++ reward ∷ [] })
  pure reward
