-- ===== src/Push/Batch.antt =====
-- backend/app/services/push_service.py. Firebase is a parameter; the text of a push is left out.
use clutch_d_backend.Base.{
  ℕ, suc, String, Bool, true, false, ◌&&◌, Option, none, some, List, [], ◌∷◌, ◌==◌, if◌then◌else◌,
  find?, select, update, length,
}
use clutch_d_backend.Schema.{Db, Float, DeviceToken, UserSettings}
use clutch_d_backend.Session.{Action, Message, query, write, send, pure, ◌>>=◌, ◌>>◌}

-- How `messaging.send` ends: it returns, it raises one of the three errors of a token that is no good, or
-- another error of Firebase.
pub data PushOutcome : Type 0 where
  delivered unregistered sender_mismatch auth_error unavailable failed : PushOutcome

pub record Firebase : Type 0 where
  -- whether firebase_admin could be imported
  pub has_messaging : Bool
  pub outcome : (token : String) → PushOutcome

-- A token, an offer and the distance of its provider. The objects of a session are one for each row, so a
-- pair names its token by the key.
pub record Pair : Type 0 where
  pub token : ℕ
  pub offer : ℕ
  pub distance_m : Float

abbrev pub token_by_id : ℕ → Db → Option DeviceToken
token_by_id k db = find? (λ t. t.id == k) db.device_tokens

-- `not (settings and not settings.push_notifications)`
abbrev wants_push : Option UserSettings → Bool
wants_push none = true
wants_push (some s) = s.push_notifications

abbrev pub is_wanted : DeviceToken → Db → Bool
is_wanted t db = t.is_active && wants_push (find? (λ s. s.user_id == t.user_id) db.settings)

abbrev pub deactivate : ℕ → List DeviceToken → List DeviceToken
deactivate k = update (λ r. r.id == k) (λ r. record r { is_active = false })

abbrev pub on_outcome : PushOutcome → (job : ℕ) → Pair → DeviceToken → Action Bool
on_outcome PushOutcome.delivered job pair t =
    send (Message.push t.token pair.offer job) >> pure true
on_outcome PushOutcome.unavailable job pair t = pure false
on_outcome PushOutcome.failed job pair t = pure false
on_outcome _ job pair t =
    write (λ db. record db { device_tokens = deactivate t.id db.device_tokens }) >> pure false

module _ (firebase : Firebase) (job : ℕ) where
  abbrev pub push_to : Pair → Option DeviceToken → Action Bool
  push_to pair none = pure false
  push_to pair (some t) = do
    wanted ← query (is_wanted t)
    if wanted && firebase.has_messaging
        then on_outcome (firebase.outcome t.token) job pair t
        else pure false

  unfoldable pub send_new_offer_push : Pair → Action Bool
  send_new_offer_push pair = query (token_by_id pair.token) >>= push_to pair

  -- The loop over the valid pairs, which counts successes and failures.
  unfoldable pub send_all : List Pair → (success failure : ℕ) → Action (ℕ × ℕ)
  unfolding send_new_offer_push
  send_all [] success failure = pure (success, failure)
  send_all (pair ∷ pairs) success failure = do
    sent ← send_new_offer_push pair
    send_all pairs (if sent then suc success else success) (if sent then failure else suc failure)

  abbrev pub is_valid_token : Option DeviceToken → Db → Bool
  is_valid_token none db = false
  is_valid_token (some t) db = is_wanted t db

  abbrev pub valid_pairs : List Pair → Db → List Pair
  valid_pairs pairs db = select (λ p. is_valid_token (token_by_id p.token db) db) pairs

  unfoldable pub send_new_offer_batch : List Pair → Action (ℕ × ℕ)
  unfolding send_all
  send_new_offer_batch pairs =
      if firebase.has_messaging
      then (query (valid_pairs pairs) >>= λ valid. send_all valid 0 0)
      else pure (0, length pairs)
