-- ===== src/Examples/Members.antt =====
-- The theorems on referral codes and pushes at concrete inputs.
use clutch_d_backend.Base.{
  none, some, Bool, select, ℕ, ◌+◌, ◌≡◌, refl, String, true, false, List, [], ◌∷◌, ◌==◌,
  if◌then◌else◌, length, arith, subst, sym, str_eq,
}
use clutch_d_backend.Schema.{Float, ReferralCode, User}
use clutch_d_backend.Session.{err, http, ok}
use clutch_d_backend.Chat.Messages.{ChatPayload, chat_history, is_participant}
use clutch_d_backend.Chat.Kept.{message, received, receive_chat_lem}
use clutch_d_backend.Rewards.Codes.{IsFresh}
use clutch_d_backend.Rewards.Issuing.{HasCode, referral_get_my_code_lem}
use clutch_d_backend.Push.Batch.{Firebase, PushOutcome, Pair, send_new_offer_batch}
use clutch_d_backend.Push.Counted.{IsOff, IsPushable, send_new_offer_batch_lem}
use clutch_d_backend.Examples.Samples.{assigned, customer, driver, world}

-- The first draw is taken.
abbrev draws : ℕ → String
draws n = if n == 0 then "AB12CD34" else "0F0F0F0F"

draws-IsFresh : IsFresh draws 2
draws-IsFresh i j less bound =
    let first : i ≡ 0 = omega (arith, less, bound) in
    let second : j ≡ 1 = omega (arith, less, bound) in
    subst (λ k. str_eq (draws k) (draws j) ≡ false) (sym first)
      (subst (λ k. str_eq (draws 0) (draws k) ≡ false) (sym second) refl)

referral_get_my_code_lem_example : (row : ReferralCode) × HasCode draws customer world row
referral_get_my_code_lem_example = referral_get_my_code_lem draws customer world draws-IsFresh

abbrev firebase : Firebase
firebase = record { has_messaging = true; outcome = λ token. PushOutcome.delivered }

abbrev pairs : List Pair
pairs =
    record { token = 700; offer = 200; distance_m = Float.bits 500 }
    ∷ record { token = 701; offer = 200; distance_m = Float.bits 500 }
    ∷ []

send_new_offer_batch_lem_example :
    let (r, after) = send_new_offer_batch firebase 100 pairs world in
    (success : ℕ) × (failure : ℕ) × (r ≡ ok (success, failure))
    × ((test : Pair → Bool) × (success + failure ≡ length (select test pairs))
        × ((p : Pair)
            → (test p ≡ true → IsPushable p world.db) × (IsPushable p world.db → test p ≡ true)))
    × (length after.sent ≡ success + length world.sent)
    × ((k : ℕ) → IsOff k world.db → IsOff k after.db)
send_new_offer_batch_lem_example = send_new_offer_batch_lem firebase 100 pairs world refl

abbrev payload : ChatPayload
payload = record { job_id = some 101; text = some "hello"; image_url = none }

receive_chat_lem_example :
    let first = received (λ t. t) driver payload 101 assigned world in
    let m = message (λ t. t) driver payload 101 assigned world in
    (is_participant driver assigned world.db ≡ true
      → (first.0 ≡ ok tt)
        × (first.1.db.jobs ≡ world.db.jobs)
        × ((reader : User)
            → is_participant reader assigned world.db ≡ true
            → chat_history 101 (some reader) first.1 ≡ (ok (m ∷ []), first.1)))
    × (is_participant driver assigned world.db ≡ false
        → (first ≡ (ok tt, world))
          × (chat_history 101 (some driver) world ≡ (err (http 403), world)))
receive_chat_lem_example =
    receive_chat_lem (λ t. t) driver payload 101 assigned world refl refl refl
