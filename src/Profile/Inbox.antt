-- ===== src/Profile/Inbox.antt =====
-- backend/app/api/v1/device_tokens.py and notifications.py.
use clutch_d_backend.Base.{
  ℕ, String, Bool, true, false, not, ◌&&◌, Option, none, some, List, [], ◌∷◌, ◌++◌, ◌==◌, str_eq,
  find?, update,
}
use clutch_d_backend.Schema.{User, DeviceToken, Notification}
use clutch_d_backend.Session.{
  Action, Message, http, raise_if, or_raise, query, write, send, new_id, pure, ◌>>=◌, ◌>>◌,
}
use clutch_d_backend.Tables.{push_unread}

abbrev set_tokens : DeviceToken → List DeviceToken → List DeviceToken
set_tokens t = update (λ r. r.id == t.id) (λ _. t)

abbrev save_token : DeviceToken → Action (Unit {0})
save_token t = write (λ db. record db { device_tokens = set_tokens t db.device_tokens })

abbrev register_row : String → User → Option DeviceToken → Action DeviceToken
register_row token user none = do
  k ← new_id
  let t : DeviceToken = record { id = k; user_id = user.id; token = token; is_active = true }
  write (λ db. record db { device_tokens = db.device_tokens ++ t ∷ [] })
  pure t
register_row token user (some t) = do
  raise_if (not (t.user_id == user.id)) (http 409)
  save_token (record t { is_active = true })
  pure (record t { is_active = true })

-- device_tokens.token is unique. The platform is left out.
unfoldable pub register_device_token : String → User → Action DeviceToken
register_device_token token user =
    query (λ db. find? (λ t. str_eq t.token token) db.device_tokens) >>= register_row token user

unfoldable pub unregister_device_token : ℕ → User → Action (Unit {0})
unregister_device_token token_id user = do
  found ← query (λ db. find? (λ t. t.id == token_id && t.user_id == user.id) db.device_tokens)
  t ← or_raise found (http 404)
  save_token (record t { is_active = false })

abbrev set_notifications : Notification → List Notification → List Notification
set_notifications n = update (λ r. r.id == n.id) (λ _. n)

unfoldable pub update_notification : ℕ → (read : Bool) → User → Action Notification
update_notification notif_id read user = do
  found ← query (λ db. find? (λ n. n.id == notif_id && n.user_id == user.id) db.notifications)
  n ← or_raise found (http 404)
  write (λ db. record db {
    notifications = set_notifications (record n { read = read }) db.notifications;
  })
  push_unread user.id
  pure (record n { read = read })

unfoldable pub mark_all_read : User → Action (Unit {0})
mark_all_read user = do
  write (λ db. record db {
    notifications =
        update (λ n. n.user_id == user.id && not n.read) (λ n. record n { read = true })
          db.notifications;
  })
  send (Message.notification_update user.id 0)
