-- ===== src/Profile/Account.antt =====
-- backend/app/api/v1/settings.py. Of the settings only `push_notifications` is read by other code; the
-- four others are left out.
use clutch_d_backend.Base.{
  ℕ, String, Bool, true, false, not, Option, none, some, [], ◌∷◌, ◌++◌, ◌==◌, str_eq, find?, update,
}
use clutch_d_backend.Schema.{Db, User, UserSettings}
use clutch_d_backend.Session.{Action, http, raise_if, query, write, pure, ◌>>=◌, ◌>>◌}
use clutch_d_backend.Auth.Login.{Passwords, save_user}

abbrev settings_of : ℕ → Db → Option UserSettings
settings_of user db = find? (λ s. s.user_id == user) db.settings

abbrev create_settings : User → Option UserSettings → Action UserSettings
create_settings user (some s) = pure s
create_settings user none = do
  let s : UserSettings = record { user_id = user.id; push_notifications = true }
  write (λ db. record db { settings = db.settings ++ s ∷ [] })
  pure s

-- _get_or_create_settings
unfoldable pub settings_get : User → Action UserSettings
settings_get user = query (settings_of user.id) >>= create_settings user

abbrev or_old : Option Bool → Bool → Bool
or_old none old = old
or_old (some b) old = b

unfoldable pub settings_update : (push_notifications : Option Bool) → User → Action UserSettings
unfolding settings_get
settings_update push user = do
  s ← settings_get user
  let s' = record s { push_notifications = or_old push s.push_notifications }
  write (λ db. record db { settings = update (λ r. r.user_id == s.user_id) (λ _. s') db.settings })
  pure s'

unfoldable pub settings_change_password :
    Passwords → (current next : String) → User → Action (Unit {0})
settings_change_password passwords current next user = do
  raise_if (not (passwords.verify current user.password_hash)) (http 400)
  raise_if (str_eq current next) (http 400)
  save_user (record user { password_hash = passwords.hash next })

unfoldable pub settings_delete_account : User → Action (Unit {0})
settings_delete_account user = save_user (record user { is_active = false })
